-- ===== src/Conn.antt =====
-- src/conn_info.h: a `struct conn_info` is its bytes by their offset, on a little-endian machine,
-- with the member `ext` beside them. `list` is left to the list that holds it.
use sockmon.Base.{ℕ, ◌+◌, ◌*◌, ◌/◌, ◌%◌, ◌^◌}

-- The address families of sys/socket.h.
abbrev pub af_inet : ℕ
af_inet = 2

abbrev pub af_inet6 : ℕ
af_inet6 = 10

abbrev pub Bytes : Type 0
Bytes = ℕ → ℕ

pub record Conn : Type 0 where
  pub bytes : Bytes
  pub ext : ℕ

-- `*(unsigned char *)p` and so on. A byte is a number modulo 256.
unfoldable pub load_u8 : Bytes → ℕ → ℕ
load_u8 m p = m p % 256

unfoldable pub load_u16 : Bytes → ℕ → ℕ
unfolding load_u8
load_u16 m p = load_u8 m p + 256 * load_u8 m (p + 1)

unfoldable pub load_u32 : Bytes → ℕ → ℕ
unfolding load_u16
load_u32 m p = load_u16 m p + 2 ^ 16 * load_u16 m (p + 2)

unfoldable pub load_u64 : Bytes → ℕ → ℕ
unfolding load_u32
load_u64 m p = load_u32 m p + 2 ^ 32 * load_u32 m (p + 4)

-- A bit field of `width` bits above the `low` lowest ones of a word.
abbrev pub bits : ℕ → ℕ → ℕ → ℕ
bits low width v = v / 2 ^ low % 2 ^ width

-- `ntohs` and `ntohl` on a little-endian machine.
unfoldable pub ntohs : ℕ → ℕ
ntohs v = v % 256 * 256 + v / 256

unfoldable pub ntohl : ℕ → ℕ
unfolding ntohs
ntohl v = ntohs (v % 2 ^ 16) * 2 ^ 16 + ntohs (v / 2 ^ 16)

-- ===== src/Nl/Copy.antt =====
-- src/nl.c: the functions that copy the payload of an attribute into a connection, and the table
-- of them. The sizes of the kernel's structures and where they stand are parameters.
use sockmon.Base.{
  ℕ, zero, suc, ◌+◌, ◌-◌, ◌/◌, ◌%◌, ◌^◌, Bool, false, ◌&&◌, ◌||◌, List, [], ◌∷◌, leb, ltb, ◌==◌,
  if◌then◌else◌, get_or,
}
use sockmon.Conn.{Bytes, load_u8}
use sockmon.Field.Table.Layout.{
  Abi, pid, comm, tos, tclass, shutdown, ipv6only, classid, cgroup_id, ca_name, mem, inet_sockopt,
}
use sockmon.Proc.{SkOwner}

-- `offsetof` of three members of `struct conn_info` that no column has for its own, and `sizeof`.
pub record Sizes : Type 0 where
  pub abi : Abi
  pub minfo : ℕ
  pub info : ℕ
  pub cc_info : ℕ
  pub sizeof_msg : ℕ
  pub sizeof_meminfo : ℕ
  pub sizeof_tcp_info : ℕ
  pub sizeof_vegas : ℕ
  pub sizeof_dctcp : ℕ
  pub sizeof_bbr : ℕ
  pub sizeof_mem : ℕ
  pub sizeof_sockopt : ℕ

-- `size` bytes of `src` are written at `start`.
unfoldable pub store : (start size : ℕ) → (src : Bytes) → Bytes → Bytes
store start size src m q = if leb start q && ltb q (start + size) then src (q - start) else m q

-- Whether a NUL stands among the first `k` bytes.
unfoldable pub has_nul : ℕ → Bytes → Bool
unfolding load_u8
has_nul zero name = false
has_nul (suc k) name = has_nul k name || load_u8 name k == 0

-- `strncpy`, which fills up with NUL.
abbrev pub strncpy : Bytes → Bytes
strncpy name i = if has_nul (suc i) name then 0 else name i

abbrev pub tcp_ca_name_max : ℕ
tcp_ca_name_max = 16

abbrev zeros : Bytes
zeros i = 0

-- A copy function, on the connection's bytes and the payload.
abbrev pub Copy : Type 0
Copy = Bytes → Bytes → Bytes

abbrev pub copy_void : Copy
copy_void ci p = ci

module _ (lay : Sizes) where
  open lay.abi use {offsetof}

  abbrev pub copy_meminfo : Copy
  copy_meminfo ci p = store lay.minfo lay.sizeof_meminfo p ci

  abbrev pub copy_info : Copy
  copy_info ci p = store lay.info lay.sizeof_tcp_info p ci

  abbrev pub copy_vegasinfo : Copy
  copy_vegasinfo ci p = store lay.cc_info lay.sizeof_vegas p ci

  abbrev pub copy_cong : Copy
  copy_cong ci p =
      store (offsetof ca_name + (tcp_ca_name_max - 1)) 1 zeros
        (store (offsetof ca_name) tcp_ca_name_max (strncpy p) ci)

  abbrev pub copy_tos : Copy
  copy_tos ci p = store (offsetof tos) 1 p ci

  abbrev pub copy_tclass : Copy
  copy_tclass ci p = store (offsetof tclass) 1 p ci

  abbrev pub copy_skmeminfo : Copy
  copy_skmeminfo ci p = store (offsetof mem) lay.sizeof_mem p ci

  abbrev pub copy_shutdown : Copy
  copy_shutdown ci p = store (offsetof shutdown) 1 p ci

  abbrev pub copy_dctcpinfo : Copy
  copy_dctcpinfo ci p = store lay.cc_info lay.sizeof_dctcp p ci

  abbrev pub copy_skv6only : Copy
  copy_skv6only ci p = store (offsetof ipv6only) 1 p ci

  abbrev pub copy_bbrinfo : Copy
  copy_bbrinfo ci p = store lay.cc_info lay.sizeof_bbr p ci

  abbrev pub copy_class_id : Copy
  copy_class_id ci p = store (offsetof classid) 4 p ci

  abbrev pub copy_cgroup_id : Copy
  copy_cgroup_id ci p = store (offsetof cgroup_id) 8 p ci

  abbrev pub copy_sockopt : Copy
  copy_sockopt ci p = store (offsetof inet_sockopt) lay.sizeof_sockopt p ci

  -- The array, by the numbers of linux/inet_diag.h.
  unfoldable pub copy_func : List Copy
  copy_func =
      copy_void ∷ copy_meminfo ∷ copy_info ∷ copy_vegasinfo ∷ copy_cong ∷ copy_tos ∷ copy_tclass
      ∷ copy_skmeminfo ∷ copy_shutdown ∷ copy_dctcpinfo ∷ copy_void ∷ copy_skv6only ∷ copy_void
      ∷ copy_void ∷ copy_void ∷ copy_void ∷ copy_bbrinfo ∷ copy_class_id ∷ copy_void ∷ copy_void
      ∷ copy_void ∷ copy_cgroup_id ∷ copy_sockopt ∷ copy_void ∷ []

  -- What `lookup_socket_owner` writes through the pointers to `pid` and `comm`.
  unfoldable pub copy_owner : SkOwner → Bytes → Bytes
  unfolding store
  copy_owner o ci =
      store (offsetof comm) 16 (λ i. get_or o.comm i 0)
        (store (offsetof pid) 4 (λ i. o.pid / 256 ^ i % 256) ci)

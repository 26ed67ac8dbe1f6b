-- ===== src/Proc/Scan.antt =====
-- src/proc.c: the walk through /proc. What the directories and files hold is an argument: an entry
-- of /proc with its `fd` directory and its `comm` file. A failed `readdir` is an entry of its own.
pub mod Walk
use Prim.Native.Nat.{bit_or, bit_and}
use sockmon.Base.{
  ℕ, zero, suc, ◌+◌, ◌-◌, ◌*◌, ◌^◌, Bool, true, false, not, Option, none, some, List, [], ◌∷◌, ◌==◌,
  leb, if◌then◌else◌, replicate, drop, Run, ok, fault, out_of_bounds, ◌>>=◌,
}
use sockmon.Field.{ext_is_set, inet_diag_proc}
use sockmon.Text.{isdigit, starts_with, strtol, Long, long_to_u32}
use sockmon.Proc.{SkMap, Status, success, failure, add_sk_ino}

-- An entry of a process's `fd` directory: its `d_type` is DT_LNK or not, and what `readlinkat`
-- gives, `none` for -1.
pub data FdRead : Type 0 where
  readdir_error : FdRead
  fd_entry : Bool → Option (List ℕ) → FdRead

pub record FdDir : Type 0 where
  pub dirfd_ok : Bool
  pub links : List FdRead

-- An entry of /proc: its `d_type` is DT_DIR or not, its name, its `fd` directory if `opendir`
-- opens it, and the text of its `comm` file if `fopen` opens it.
pub data ProcRead : Type 0 where
  readdir_error : ProcRead
  proc_entry : Bool → List ℕ → Option FdDir → Option (List ℕ) → ProcRead

-- `fgets(buf, n, fp)`, of `n - 1` bytes at most, through the first newline.
unfoldable pub fgets : ℕ → List ℕ → List ℕ
fgets zero s = []
fgets (suc n) [] = []
fgets (suc n) (c ∷ s) = c ∷ (if c == 10 then [] else fgets n s)

-- The copying loop of `get_comm`, on the room left before `end`, into a buffer of zeros, and the read
-- of `*comm` behind it, which is beyond the buffer if the name fills it.
unfoldable pub copy_comm : ℕ → List ℕ → Run (List ℕ)
copy_comm zero s = fault out_of_bounds
copy_comm (suc room) [] = ok (replicate (suc room) 0)
copy_comm (suc room) (c ∷ s) = elim (c == 10) [
  | true ↦ ok (replicate (suc room) 0)
  | false ↦ copy_comm room s >>= λ t. ok (c ∷ t)
]

abbrev pub task_comm_len : ℕ
task_comm_len = 16

-- `none` is a result of 1.
unfoldable pub get_comm : Option (List ℕ) → Run (Option (List ℕ))
unfolding fgets copy_comm
get_comm none = ok none
get_comm (some []) = ok none
get_comm (some (c ∷ s)) = copy_comm task_comm_len (fgets 31 (c ∷ s)) >>= λ comm. ok (some comm)

-- The inode of a link's text, if it is that of a socket.
unfoldable pub socket_inode : List ℕ → Option ℕ
unfolding starts_with strtol long_to_u32
socket_inode buf =
    if not (starts_with buf (b's' ∷ b'o' ∷ b'c' ∷ b'k' ∷ b'e' ∷ b't' ∷ b':' ∷ b'[' ∷ []))
    then none
    else (let l = strtol (drop 8 buf) in
        elim l.endp [ [] ↦ none | c ∷ _ ↦ if c == b']' then some (long_to_u32 l) else none ])

-- What the loop of `sk_ino_make_map` takes from one entry.
unfoldable pub link_inode : FdRead → Option ℕ
unfolding socket_inode
link_inode readdir_error = none
link_inode (fd_entry false text) = none
link_inode (fd_entry true none) = none
link_inode (fd_entry true (some buf)) = socket_inode buf

-- `alloc n` says whether `calloc` returns memory when `n` nodes are held.
abbrev pub Alloc : Type 0
Alloc = ℕ → Bool

unfoldable pub make_map_loop : Alloc → ℕ → List ℕ → List FdRead → SkMap → Run Status
unfolding link_inode
make_map_loop alloc pid comm [] m = success m
make_map_loop alloc pid comm (r ∷ rs) m = elim (link_inode r) [
  | none ↦ make_map_loop alloc pid comm rs m
  | some inode ↦ add_sk_ino (alloc m.nr_sockets) m inode pid comm >>= λ s.
      if s.failed then failure s.table else make_map_loop alloc pid comm rs s.table
]

unfoldable pub sk_ino_make_map : Alloc → FdDir → ℕ → List ℕ → SkMap → Run Status
unfolding make_map_loop
sk_ino_make_map alloc dp pid comm m =
    if not dp.dirfd_ok then failure m else make_map_loop alloc pid comm dp.links m

-- `while (isdigit((ch = *p1)))`, and the test that the name ends there.
unfoldable pub parse_pid : ℕ → List ℕ → Option ℕ
unfolding isdigit
parse_pid pid [] = some pid
parse_pid pid (c ∷ s) = if isdigit c then parse_pid (pid * 10 + (c - b'0')) s else none

-- A directory of a process that the loop looks into: its number and its `fd` directory.
unfoldable pub process_of : ProcRead → Option (ℕ × FdDir × Option (List ℕ))
unfolding parse_pid
process_of readdir_error = none
process_of (proc_entry false name dir comm) = none
process_of (proc_entry true name none comm) = none
process_of (proc_entry true name (some dp) comm) = elim (parse_pid 0 name) [
  | none ↦ none
  | some pid ↦ some (pid, dp, comm)
]

unfoldable pub build_loop : Alloc → List ProcRead → SkMap → Run Status
unfolding process_of get_comm sk_ino_make_map
build_loop alloc [] m = success m
build_loop alloc (r ∷ rs) m = elim (process_of r) [
  | none ↦ build_loop alloc rs m
  | some (pid, dp, file) ↦ get_comm file >>= λ name. elim name [
    | none ↦ failure m
    | some comm ↦ sk_ino_make_map alloc dp pid comm m >>= λ s.
        if s.failed then failure s.table else build_loop alloc rs s.table
  ]
]

-- What `build_sk_proc_map` returns: the table with its result, and `n->ext_rcv`.
pub record Build : Type 0 where
  pub status : Status
  pub ext_rcv : ℕ

-- The end of the function, after the loop.
abbrev pub finish : ℕ → Status → Build
finish ext_rcv s = record {
  status = s;
  ext_rcv = if s.failed then ext_rcv else bit_or ext_rcv (2 ^ inet_diag_proc);
}

-- `n->ext_req` and `n->ext_rcv` are the first two arguments.
unfoldable pub build_sk_proc_map : ℕ → ℕ → Alloc → List ProcRead → SkMap → Run Build
unfolding build_loop
build_sk_proc_map ext_req ext_rcv alloc entries m =
    if not (ext_is_set ext_req inet_diag_proc)
    then ok (record { status = record { failed = false; table = m }; ext_rcv = ext_rcv })
    else build_loop alloc entries m >>= λ s. ok (finish ext_rcv s)

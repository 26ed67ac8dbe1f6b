-- ===== src/Proc/Path.antt =====
-- src/proc.c: the mount point of /proc in the static buffer `proc_path`, `proc_init`, and the paths that
-- `build_sk_proc_map` and `get_comm` put together behind it. What the table of mounts holds and what
-- the system calls answer are arguments.
pub mod Buffer
pub mod Paths
pub mod Opened
use sockmon.Base.{
  ℕ, zero, suc, ◌+◌, ◌-◌, Bool, true, false, not, Option, none, some, List, [], ◌∷◌, ◌++◌, length,
  take, set, replicate, ltb, ◌==◌, if◌then◌else◌, Run, ok, fault, out_of_bounds, ◌>>=◌, at,
}
use sockmon.Text.{same_text, isdigit}

-- `buf[i] = v`
unfoldable pub store : List ℕ → ℕ → ℕ → Run (List ℕ)
store buf i v = if ltb i (length buf) then ok (set buf i v) else fault out_of_bounds

-- The characters one after another, from `i` on.
unfoldable pub store_all : ℕ → List ℕ → List ℕ → Run (List ℕ)
unfolding store
store_all i [] buf = ok buf
store_all i (c ∷ s) buf = store buf i c >>= store_all (i + 1) s

-- The string in a buffer; a buffer without a NUL is read beyond its end.
unfoldable pub text_of : List ℕ → Run (List ℕ)
text_of [] = fault out_of_bounds
text_of (c ∷ buf) = let rest = text_of buf in if c == 0 then ok [] else rest >>= λ s. ok (c ∷ s)

-- `stpncpy(dst, src, n)`: the buffer, and the index that the result points to.
unfoldable pub stpncpy : ℕ → List ℕ → List ℕ → Run (List ℕ × ℕ)
unfolding store_all
stpncpy n src dst = store_all 0 (take n src ++ replicate (n - length src) 0) dst >>= λ buf.
    ok (buf, if ltb n (length src) then n else length src)

pub record Mount : Type 0 where
  pub mnt_type : List ℕ
  pub mnt_dir : List ℕ

abbrev pub proc_type : List ℕ
proc_type = b'p' ∷ b'r' ∷ b'o' ∷ b'c' ∷ []

-- The loop over the table of mounts.
unfoldable pub find_proc_mount : List Mount → Option (List ℕ)
unfolding same_text
find_proc_mount [] = none
find_proc_mount (me ∷ rest) =
    if same_text me.mnt_type proc_type then some me.mnt_dir else find_proc_mount rest

-- `err` and the buffer. `none` stands for a `setmntent` that fails.
unfoldable pub copy_mount : Option (List ℕ) → ℕ → List ℕ → Run (Bool × List ℕ)
copy_mount none len buf = ok (true, buf)
copy_mount (some mnt_dir) len buf = do
  (buf', p) ← stpncpy (len - 1) mnt_dir buf
  c ← at buf' p
  ok (not (c == 0), buf')

unfoldable pub get_proc_mount_path : Option (List Mount) → ℕ → List ℕ → Run (Bool × List ℕ)
get_proc_mount_path none len buf = ok (true, buf)
get_proc_mount_path (some mounts) len buf = copy_mount (find_proc_mount mounts) len buf

abbrev pub proc_path_size : ℕ
proc_path_size = 256

-- `err`, `proc_path` and `proc_path_len`.
pub record ProcPath : Type 0 where
  pub failed : Bool
  pub proc_path : List ℕ
  pub proc_path_len : ℕ

-- `proc_path[proc_path_len - 1] != '/'`, and the slash.
unfoldable pub end_with_slash : List ℕ → Run (List ℕ × ℕ)
end_with_slash buf = do
  path ← text_of buf
  let len = length path
  last ← (if len == 0 then fault out_of_bounds else at buf (len - 1))
  (if last == b'/' then ok (buf, len) else store buf len b'/' >>= λ buf'. ok (buf', len + 1))

-- `opens` and `alloc` say whether `opendir` and `calloc` succeed.
unfoldable pub proc_init : Option (List Mount) → (List ℕ → Bool) → Bool → Run ProcPath
unfolding get_proc_mount_path
proc_init mounts opens alloc = do
  (failed, buf) ← get_proc_mount_path mounts proc_path_size (replicate proc_path_size 0)
  let stop : Run ProcPath = ok (record { failed = true; proc_path = buf; proc_path_len = 0 })
  (if failed then stop else (do
    path ← text_of buf
    (if not (opens path) then stop else (do
      (buf', len) ← end_with_slash buf
      ok (record { failed = not alloc; proc_path = buf'; proc_path_len = len })))))

-- What is stored behind the name of a process.
abbrev pub fd_name : List ℕ
fd_name = b'/' ∷ b'f' ∷ b'd' ∷ 0 ∷ []

abbrev pub comm_name : List ℕ
comm_name = b'/' ∷ b'c' ∷ b'o' ∷ b'm' ∷ b'm' ∷ 0 ∷ []

-- The loop over the digits of a name: the buffer, the place behind them, and whether the name ends
-- there.
unfoldable pub store_digits : ℕ → List ℕ → List ℕ → Run (List ℕ × ℕ × Bool)
unfolding store isdigit
store_digits i [] buf = ok (buf, i, true)
store_digits i (c ∷ s) buf =
    let rest = store buf i c >>= store_digits (i + 1) s in
    if isdigit c then rest else ok (buf, i, false)

-- The round of `build_sk_proc_map` on an entry of /proc: `none` if its name is no number, and otherwise
-- the string that `opendir` gets and, if that is opened, the string that `fopen` gets.
unfoldable pub process_paths :
    (opens : List ℕ → Bool) → ProcPath → List ℕ → Run (Option (List ℕ × Option (List ℕ)))
unfolding store_digits
process_paths opens s name = do
  (buf, p2, ended) ← store_digits s.proc_path_len name s.proc_path
  (if not ended then ok none else (do
    buf₁ ← store_all p2 fd_name buf
    fd ← text_of buf₁
    (if not (opens fd) then ok (some (fd, none)) else (do
      buf₂ ← store_all p2 comm_name buf₁
      comm ← text_of buf₂
      ok (some (fd, some comm))))))

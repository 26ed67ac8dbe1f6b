-- ===== src/Tests/Paths.antt =====
-- The paths below a mount point.
use sockmon.Base.{
  ℕ, ◌+◌, ◌≡◌, refl, arith, true, if◌then◌else◌, some, List, [], ◌∷◌, ◌++◌, length, leb, ok, fault,
  Bool, not, none, out_of_bounds, ◌>>=◌,
}
use sockmon.Proc.Path.{Mount, proc_type, find_proc_mount, proc_path_size, proc_init, process_paths}
use sockmon.Proc.Path.Buffer.{is_text}
use sockmon.Proc.Path.Opened.{with_slash, process_paths-if_fits}
use sockmon.Proc.Path.Paths.{slash_fd, slash_comm, are_digits}
use sockmon.Text.{same_text, isdigit}

-- A system with one mount point, /proc.
abbrev mounted : List Mount
mounted = record { mnt_type = proc_type; mnt_dir = b'/' ∷ b'p' ∷ b'r' ∷ b'o' ∷ b'c' ∷ [] } ∷ []

abbrev before : List ℕ
before = b'/' ∷ b'p' ∷ b'r' ∷ b'o' ∷ []

is_mounted : find_proc_mount mounted ≡ some (before ++ b'c' ∷ [])
unfolding find_proc_mount same_text
is_mounted = refl

mount_text : is_text (before ++ b'c' ∷ []) ≡ true
unfolding is_text
mount_text = refl

twelve : are_digits (b'1' ∷ b'2' ∷ []) ≡ true
unfolding are_digits isdigit
twelve = refl

-- Only the directory of process 12 is refused.
abbrev opens : List ℕ → Bool
opens path = not (same_text path ((with_slash before b'c' ++ b'1' ∷ b'2' ∷ []) ++ slash_fd))

is_opened : opens (before ++ b'c' ∷ []) ≡ true
unfolding same_text with_slash
is_opened = refl

process_paths-if_fits_example :
    (let fd = (with_slash before b'c' ++ b'1' ∷ b'2' ∷ []) ++ slash_fd in
      (proc_init (some mounted) opens true >>= λ s. process_paths opens s (b'1' ∷ b'2' ∷ [])) ≡ (
        if leb (length (with_slash before b'c') + 2 + 4) proc_path_size
        then (if opens fd
            then (if leb (length (with_slash before b'c') + 2 + 6) proc_path_size
                then ok
                    (some (fd, some ((with_slash before b'c' ++ b'1' ∷ b'2' ∷ []) ++ slash_comm)))
                else fault out_of_bounds)
            else ok (some (fd, none)))
        else fault out_of_bounds))
process_paths-if_fits_example =
    process_paths-if_fits mounted opens before b'c' is_mounted mount_text (omega arith) is_opened
      (b'1' ∷ b'2' ∷ []) twelve

-- The path of the files of process 12.
twelve_fd :
    (with_slash before b'c' ++ b'1' ∷ b'2' ∷ []) ++ slash_fd
    ≡ b'/' ∷ b'p' ∷ b'r' ∷ b'o' ∷ b'c' ∷ b'/' ∷ b'1' ∷ b'2' ∷ b'/' ∷ b'f' ∷ b'd' ∷ []
unfolding with_slash
twelve_fd = refl

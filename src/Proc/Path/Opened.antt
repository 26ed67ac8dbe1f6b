-- ===== src/Proc/Path/Opened.antt =====
-- src/proc.c: `proc_init`, and the paths of the processes under the mount point that it found.
use mathlib.Core.List.{append_assoc}
use sockmon.Base.{
  ℕ, suc, ◌+◌, ◌-◌, ◌<◌, ◌≡◌, ◌∙◌, inl, inr, refl, sym, ap, arith, Bool, true, false, some, none,
  List, [], ◌∷◌, ◌++◌, length, length-append, length-drop, length-replicate, take, drop, replicate,
  ◌==◌, if◌then◌else◌, Bool-cases, Run, ok, fault, out_of_bounds, ◌>>=◌, ltb, leb, tests, at,
}
use sockmon.Proc.Path.{
  store, store_all, stpncpy, Mount, find_proc_mount, copy_mount, get_proc_mount_path,
  proc_path_size, ProcPath, end_with_slash, proc_init, process_paths,
}
use sockmon.Proc.Path.Buffer.{
  is_text, is_text-append, store_all-drop, text_of-text, at-middle, store-middle,
}
use sockmon.Proc.Path.Paths.{
  slash_fd, slash_comm, are_digits, paths_fit, fd_shut, comm_beyond, paths_beyond,
}
use sockmon.Prompt.Digits.{take-all}

-- The mount point, with a slash behind it.
unfoldable pub with_slash : List ℕ → ℕ → List ℕ
with_slash e c = if c == b'/' then e ++ c ∷ [] else (e ++ c ∷ []) ++ b'/' ∷ []

-- A text that fits is copied with the NULs behind it, and the result points to the first of them.
stpncpy-copy :
    (d : List ℕ) (k n : ℕ)
    → length d + suc k ≡ n
    → (z : List ℕ) × (stpncpy n d (replicate (n + 1) 0) ≡ ok (d ++ 0 ∷ z, length d))
      × (length z ≡ k + 1)
unfolding stpncpy
stpncpy-copy d k n e =
    let s = d ++ replicate (suc k) 0 in
    let length_s : length s ≡ length d + suc k =
      omega (arith, length-append d (replicate (suc k) 0), length-replicate {A = ℕ} k 0) in
    let rest = drop (length s) (replicate (n + 1) 0) in
    let room : n - length d ≡ suc k = omega (arith, e) in
    let text : take n d ++ replicate (n - length d) 0 ≡ s =
      rw (take-all n d (omega (arith, e)), room) refl in
    let stored : store_all 0 s (replicate (n + 1) 0) ≡ ok (d ++ 0 ∷ (replicate k 0 ++ rest)) =
      store_all-drop [] s (replicate (n + 1) 0) refl
        (omega (arith, e, length_s, length-replicate {A = ℕ} (n + 1) 0))
      ∙ ap ok (append_assoc d (0 ∷ replicate k 0) rest) in
    let short : ltb n (length d) ≡ false = ground (arith, e) in
    (
      replicate k 0 ++ rest,
      rw (text, stored, short) refl,
      omega (
        arith,
        e,
        length_s,
        length-append (replicate k 0) rest,
        length-replicate {A = ℕ} k 0,
        length-replicate {A = ℕ} (n + 1) 0,
        length-drop {A = ℕ} (length s) (replicate (n + 1) 0),
      ),
    )

-- The path in the buffer gets its slash.
end_with_slash-slash :
    (e : List ℕ) (c : ℕ) (z : List ℕ)
    → is_text (e ++ c ∷ []) ≡ true
    → (r : List ℕ) × (end_with_slash ((e ++ c ∷ []) ++ 0 ∷ z)
        ≡ ok (with_slash e c ++ r, length (with_slash e c)))
      × (length (with_slash e c) + length r ≡ length e + 2 + length z)
unfolding end_with_slash with_slash
end_with_slash-slash e c z h =
    let d = e ++ c ∷ [] in
    let size : length d ≡ suc (length e) = omega (arith, length-append e (c ∷ [])) in
    let last : at (d ++ 0 ∷ z) (suc (length e) - 1) ≡ ok c =
      ap (at (d ++ 0 ∷ z)) (omega arith)
      ∙ ap (λ l. at l (length e)) (append_assoc e (c ∷ []) (0 ∷ z))
      ∙ at-middle e c (0 ∷ z) in
    let path = text_of-text d z h in
    let some_char : (suc (length e) == 0) ≡ false = ground arith in
    let stored : store (d ++ 0 ∷ z) (suc (length e)) b'/' ≡ ok (d ++ b'/' ∷ z) =
      ap (λ i. store (d ++ 0 ∷ z) i b'/') (sym size) ∙ store-middle d 0 b'/' z in
    let longer : length (d ++ b'/' ∷ []) ≡ suc (length e) + 1 =
      omega (arith, size, length-append d (b'/' ∷ [])) in
    let joined : (d ++ b'/' ∷ []) ++ z ≡ d ++ b'/' ∷ z = append_assoc d (b'/' ∷ []) z in
    elim (Bool-cases (c == b'/')) [
      | inl slash ↦ (
        0 ∷ z,
        rw (path, size, some_char, last, slash, size) refl,
        rw slash (omega (arith, size)),
      )
      | inr other ↦ (
        z,
        rw (path, size, some_char, last, other, stored, longer, joined) refl,
        rw other (omega (arith, longer)),
      )
    ]

-- The state after `proc_init`, with the mount point `e ++ c ∷ []`.
pub record Opened (e : List ℕ) (c : ℕ) (run : Run ProcPath) : Type 0 where
  pub state : ProcPath
  pub room : List ℕ
  pub returns : run ≡ ok state
  pub succeeds : state.failed ≡ false
  pub path : state.proc_path ≡ with_slash e c ++ room
  pub len : state.proc_path_len ≡ length (with_slash e c)
  pub size : length (with_slash e c) + length room ≡ proc_path_size

module _ (mounts : List Mount) (opens : List ℕ → Bool) (e : List ℕ) (c : ℕ)
    (mounted : find_proc_mount mounts ≡ some (e ++ c ∷ [])) (text : is_text (e ++ c ∷ []) ≡ true)
    (short : length e < 254) (opened : opens (e ++ c ∷ []) ≡ true) where
  copied :
      (z : List ℕ) × (get_proc_mount_path (some mounts) proc_path_size (replicate proc_path_size 0)
        ≡ ok (false, (e ++ c ∷ []) ++ 0 ∷ z))
      × (length z ≡ 254 - length e)
  unfolding get_proc_mount_path copy_mount
  copied =
      let d = e ++ c ∷ [] in
      let size : length d ≡ suc (length e) = omega (arith, length-append e (c ∷ [])) in
      let (z, copy, room) = stpncpy-copy d (253 - length e) 255 (omega (arith, size)) in
      (z, rw (mounted, copy, at-middle d 0 z), omega (arith, room))

  -- `proc_init` succeeds and puts the path and its slash into the buffer.
  proc_init-Opened : Opened e c (proc_init (some mounts) opens true)
  unfolding proc_init
  proc_init-Opened =
      let d = e ++ c ∷ [] in
      let (z, got, room) = copied in
      let path = text_of-text d z text in
      let (r, slashed, size) = end_with_slash-slash e c z text in
      record {
        state = record {
          failed = false;
          proc_path = with_slash e c ++ r;
          proc_path_len = length (with_slash e c);
        };
        room = r;
        returns = rw (got, path, opened, slashed) refl;
        succeeds = refl;
        path = refl;
        len = refl;
        size = omega (arith, size, room, short);
      }

  with_slash-is_text : is_text (with_slash e c) ≡ true
  unfolding with_slash is_text
  with_slash-is_text = elim (Bool-cases (c == b'/')) [
    | inl slash ↦ rw slash text
    | inr other ↦ rw other (is_text-append (e ++ c ∷ []) (b'/' ∷ []) text refl)
  ]

  -- With a mount point of 1 to 254 characters that can be opened, and memory at hand, proc_init
  -- succeeds, and for a first process with a name of digits the path of its descriptors is the
  -- mount point with one slash, the name and /fd, and, if that is opened, the path of its name
  -- has /comm in the place of /fd; a path that does not fit into proc_path with its NUL is stored
  -- beyond the end of it.
  pub process_paths-if_fits :
      (name : List ℕ)
      → are_digits name ≡ true
      → (let fd = (with_slash e c ++ name) ++ slash_fd in
          (proc_init (some mounts) opens true >>= λ s. process_paths opens s name) ≡ (
            if leb (length (with_slash e c) + length name + 4) proc_path_size
            then (if opens fd
                then (if leb (length (with_slash e c) + length name + 6) proc_path_size
                    then ok (some (fd, some ((with_slash e c ++ name) ++ slash_comm)))
                    else fault out_of_bounds)
                else ok (some (fd, none)))
            else fault out_of_bounds))
  process_paths-if_fits name digits =
      let o = proc_init-Opened in
      let whole = with_slash-is_text in
      let w = with_slash e c in
      rw o.returns (elim (Bool-cases (leb (length w + length name + 4) proc_path_size)) [
        | inr over ↦ rw over (
            paths_beyond opens o.state w o.room name digits o.path o.len
              (ground (arith, over, o.size)))
        | inl fit ↦ elim (Bool-cases (opens ((w ++ name) ++ slash_fd))) [
          | inr shut ↦
              rw (fit, shut)
                (fd_shut opens o.state w o.room name digits o.path o.len whole
                  (omega (tests, fit, o.size)) shut)
          | inl opened ↦ elim (Bool-cases (leb (length w + length name + 6) proc_path_size)) [
            | inl all ↦
                rw (fit, opened, all)
                  (paths_fit opens o.state w o.room name digits o.path o.len whole
                    (omega (tests, all, o.size)) opened)
            | inr over ↦
                rw (fit, opened, over)
                  (comm_beyond opens o.state w o.room name digits o.path o.len whole
                    (omega (tests, fit, o.size)) (ground (arith, over, o.size)) opened)
          ]
        ]
      ])

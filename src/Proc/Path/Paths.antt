-- ===== src/Proc/Path/Paths.antt =====
-- src/proc.c: the paths behind `proc_path`, and the end of its buffer.
use mathlib.Core.List.{append_assoc}
use sockmon.Base.{
  ℕ, ◌+◌, ◌-◌, ◌≤◌, ◌<◌, ◌≡◌, ◌∙◌, inl, inr, refl, sym, ap, arith, Bool, true, false, ◌&&◌, some,
  none, Run, ◌>>=◌, bind_assoc, bind_congr, List, [], ◌∷◌, ◌++◌, length, length-append, length-drop,
  drop, Bool-cases, ok, fault, out_of_bounds, ltb, tests,
}
use sockmon.Text.{isdigit}
use sockmon.Proc.Path.{
  store, store_digits, store_all, text_of, ProcPath, process_paths, fd_name, comm_name,
}
use sockmon.Proc.Path.Buffer.{
  is_text, is_text-append, store_all-drop, store_all-beyond, text_of-text,
}

-- What stands behind the name of a process.
abbrev pub slash_fd : List ℕ
slash_fd = b'/' ∷ b'f' ∷ b'd' ∷ []

abbrev pub slash_comm : List ℕ
slash_comm = b'/' ∷ b'c' ∷ b'o' ∷ b'm' ∷ b'm' ∷ []

unfoldable pub are_digits : List ℕ → Bool
unfolding isdigit
are_digits [] = true
are_digits (c ∷ s) = isdigit c && are_digits s

pub are_digits-is_text : (s : List ℕ) → are_digits s ≡ true → is_text s ≡ true
unfolding is_text isdigit are_digits
are_digits-is_text [] h = refl
are_digits-is_text (c ∷ s) h = ground (arith, h, are_digits-is_text s)

then_end : ℕ → Run (List ℕ) → Run (List ℕ × ℕ × Bool)
then_end p2 r = r >>= λ buf. ok (buf, p2, true)

-- A name of digits is stored as it is.
store_digits-store_all :
    (i j : ℕ) (s buf : List ℕ)
    → are_digits s ≡ true
    → j ≡ i + length s
    → store_digits i s buf ≡ then_end j (store_all i s buf)
unfolding store_digits store_all are_digits then_end
store_digits-store_all i j [] buf h e = ap (λ p. ok (buf, p, true)) (omega (arith, e))
store_digits-store_all i j (c ∷ s) buf h e =
    let digit : isdigit c ≡ true = ground (arith, h) in
    rw digit (
      bind_congr (store buf i c)
        (λ b. store_digits-store_all (i + 1) j s b (ground (arith, h)) (omega (arith, e)))
      ∙ sym (bind_assoc (store buf i c) _ _))

module _ (opens : List ℕ → Bool) (st : ProcPath) (a r name : List ℕ)
    (digits : are_digits name ≡ true) (is_path : st.proc_path ≡ a ++ r)
    (is_len : st.proc_path_len ≡ length a) where
  r₁ : List ℕ
  r₁ = drop (length name) r

  named :
      length name ≤ length r → store_all st.proc_path_len name st.proc_path ≡ ok ((a ++ name) ++ r₁)
  unfolding r₁
  named h =
      ap (store_all st.proc_path_len name) is_path
      ∙ store_all-drop a name r is_len h
      ∙ ap ok (sym (append_assoc a name _))

  by_digits :
      (z : Run (List ℕ))
      → store_all st.proc_path_len name st.proc_path ≡ z
      → store_digits st.proc_path_len name st.proc_path
        ≡ then_end (st.proc_path_len + length name) z
  by_digits z e =
      store_digits-store_all st.proc_path_len _ name st.proc_path digits refl
      ∙ ap (then_end (st.proc_path_len + length name)) e

  behind :
      (t : List ℕ) (b : List ℕ)
      → length t ≤ length b
      → store_all (st.proc_path_len + length name) t ((a ++ name) ++ b)
        ≡ ok ((a ++ name) ++ (t ++ drop (length t) b))
  behind t b h = store_all-drop (a ++ name) t b (omega (arith, is_len, length-append a name)) h

  over :
      (t b : List ℕ)
      → length b < length t
      → store_all (st.proc_path_len + length name) t ((a ++ name) ++ b) ≡ fault out_of_bounds
  over t b h = store_all-beyond (a ++ name) t b (omega (arith, is_len, length-append a name)) h

  read :
      (t : List ℕ) (b : List ℕ)
      → is_text a ≡ true
      → is_text name ≡ true
      → is_text t ≡ true
      → text_of ((a ++ name) ++ (t ++ 0 ∷ b)) ≡ ok ((a ++ name) ++ t)
  read t b ha hn ht =
      ap text_of (sym (append_assoc (a ++ name) t (0 ∷ b)))
      ∙ text_of-text ((a ++ name) ++ t) b (is_text-append _ t (is_text-append a name ha hn) ht)

  length-r₁ : length r₁ ≡ length r - length name
  unfolding r₁
  length-r₁ = length-drop (length name) r

  pub paths_fit :
      is_text a ≡ true
      → length name + 6 ≤ length r
      → opens ((a ++ name) ++ slash_fd) ≡ true
      → process_paths opens st name
        ≡ ok (some ((a ++ name) ++ slash_fd, some ((a ++ name) ++ slash_comm)))
  unfolding process_paths is_text then_end
  paths_fit ha h opened =
      let hn = are_digits-is_text name digits in
      let b₂ = drop 4 r₁ in
      let room : length (fd_name ++ b₂) ≡ length r₁ = omega (arith, length-r₁, length-drop 4 r₁) in
      rw
        (
          by_digits _ (named (omega arith)),
          behind fd_name r₁ (omega (arith, length-r₁)),
          read slash_fd b₂ ha hn refl,
          opened,
          behind comm_name (fd_name ++ b₂) (omega (arith, length-r₁, room)),
          read slash_comm (drop 6 (fd_name ++ b₂)) ha hn refl,
        )
        refl

  -- A directory that is not opened: no more is stored.
  pub fd_shut :
      is_text a ≡ true
      → length name + 4 ≤ length r
      → opens ((a ++ name) ++ slash_fd) ≡ false
      → process_paths opens st name ≡ ok (some ((a ++ name) ++ slash_fd, none))
  unfolding process_paths is_text then_end
  fd_shut ha h shut =
      let hn = are_digits-is_text name digits in
      rw
        (
          by_digits _ (named (omega arith)),
          behind fd_name r₁ (omega (arith, length-r₁)),
          read slash_fd (drop 4 r₁) ha hn refl,
          shut,
        )
        refl

  -- The three texts that may not fit: the name, `"/fd"` and `"/comm"`.
  name_beyond : length r < length name → process_paths opens st name ≡ fault out_of_bounds
  unfolding process_paths then_end
  name_beyond h =
      let over : store_all st.proc_path_len name st.proc_path ≡ fault out_of_bounds =
        ap (store_all st.proc_path_len name) is_path ∙ store_all-beyond a name r is_len h in
      rw (by_digits _ over)

  fd_beyond :
      length name ≤ length r
      → length r < length name + 4
      → process_paths opens st name ≡ fault out_of_bounds
  unfolding process_paths then_end
  fd_beyond h k = rw (by_digits _ (named h), over fd_name r₁ (omega (arith, length-r₁)))

  pub comm_beyond :
      is_text a ≡ true
      → length name + 4 ≤ length r
      → length r < length name + 6
      → opens ((a ++ name) ++ slash_fd) ≡ true
      → process_paths opens st name ≡ fault out_of_bounds
  unfolding process_paths is_text then_end
  comm_beyond ha h k opened = rw (
    by_digits _ (named (omega arith)),
    behind fd_name r₁ (omega (arith, length-r₁)),
    read slash_fd (drop 4 r₁) ha (are_digits-is_text name digits) refl,
    opened,
    over comm_name (fd_name ++ drop 4 r₁) (omega (arith, length-r₁, length-drop 4 r₁)),
  )

  pub paths_beyond : length r < length name + 4 → process_paths opens st name ≡ fault out_of_bounds
  paths_beyond h = elim (Bool-cases (ltb (length r) (length name))) [
    | inl full ↦ name_beyond (omega (tests, full))
    | inr room ↦ fd_beyond (ground (arith, room)) h
  ]

-- ===== src/Choice/Toggled.antt =====
-- src/draw.c: the set that `fp_str_common` leaves, value by value.
use sockmon.Base.{
  ℕ, ◌+◌, ◌-◌, ◌^◌, ◌≤◌, ◌<◌, ◌≡◌, ◌∙◌, refl, sym, ap, arith, Bool, true, false, not, ◌&&◌, ◌||◌,
  Bool-cases, inl, inr, Option, none, some, List, [], ◌∷◌, ltb, leb, ◌==◌, ==_iff, if◌then◌else◌,
  Run, ok, holds_below, holds_below-lt,
}
use sockmon.Base.Bits.{
  test_bit, test_bit-bit_and, test_bit-bit_or, test_bit-pow, test_bit-complement,
  bit_and-pow_eq_zero, bit_or-lt, bit_and-le,
}
use sockmon.Choice.{
  Pressed, key_down, key_up, other_key, char, toggle, is_quit, choice_loop, Chosen, store_choice,
  selected_of, fp_str_common, choices,
}
use sockmon.Field.{Filter, FilterParse}

abbrev pub xor : Bool → Bool → Bool
xor true b = not b
xor false b = b

-- Whether the keys up to the one that leaves the prompt mark the value `k` an odd number of times,
-- with the cursor on row `y`.
unfoldable pub is_toggled : (rows start y k : ℕ) → List Pressed → Bool
is_toggled rows start y k [] = false
is_toggled rows start y k (key_down ∷ ks) =
    is_toggled rows start (if ltb y rows then y + 1 else y) k ks
is_toggled rows start y k (key_up ∷ ks) = is_toggled rows start (if ltb 1 y then y - 1 else y) k ks
is_toggled rows start y k (other_key ∷ ks) = is_toggled rows start y k ks
is_toggled rows start y k (char c ∷ ks) =
    let rest = is_toggled rows start y k ks in
    if c == b' ' then xor (k == y + start - 1) rest else (if is_quit c then false else rest)

unfoldable pub leaves : List Pressed → Bool
leaves [] = false
leaves (char c ∷ ks) = is_quit c || leaves ks
leaves (_ ∷ ks) = leaves ks

pows : holds_below 32 (λ k. ltb (2 ^ k) (2 ^ 32)) ≡ true
unfolding holds_below
pows = refl

pow-lt : (k : ℕ) → k < 32 → 2 ^ k < 2 ^ 32
pow-lt k h = ground (arith, holds_below-lt 32 (λ k. ltb (2 ^ k) (2 ^ 32)) k pows h)

toggle-lt : (selected k : ℕ) → selected < 2 ^ 32 → k < 32 → toggle selected (2 ^ k) < 2 ^ 32
unfolding toggle
toggle-lt selected k hs hk = ground (
  arith,
  bit_or-lt 32 selected (2 ^ k) hs (pow-lt k hk),
  bit_and-le selected (2 ^ 32 - 1 - 2 ^ k),
)

test_bit-toggle :
    (selected j k : ℕ)
    → selected < 2 ^ 32
    → j < 32
    → k < 32
    → test_bit j (toggle selected (2 ^ k)) ≡ xor (j == k) (test_bit j selected)
unfolding toggle
test_bit-toggle selected j k hs hj hk = ground (
  arith,
  bit_and-pow_eq_zero k selected,
  test_bit-bit_or j selected (2 ^ k),
  test_bit-bit_and j selected (2 ^ 32 - 1 - 2 ^ k),
  test_bit-complement j 32 (2 ^ k) hj (pow-lt k hk),
  test_bit-pow j k,
  (λ (e : j ≡ k). ap (λ x. test_bit x selected) e),
)

-- The loop returns a set of 32 bits.
pub record Looped (rows start y selected : ℕ) (keys : List Pressed) (r : Run (ℕ × List Pressed))
    : Type 0 where
  pub set : ℕ
  pub rest : List Pressed
  pub returns : r ≡ ok (set, rest)
  pub bound : set < 2 ^ 32
  pub bits :
      (j : ℕ) → j < 32 → test_bit j set ≡ xor (is_toggled rows start y j keys) (test_bit j selected)

module _ (rows start : ℕ) (fits : start + rows ≤ 32) where
  choice_loop-Looped :
      (y selected : ℕ) (keys : List Pressed)
      → 1 ≤ y
      → y ≤ rows
      → selected < 2 ^ 32
      → leaves keys ≡ true
      → Looped rows start y selected keys (choice_loop rows start y selected keys)
  unfolding choice_loop leaves is_toggled
  choice_loop-Looped y selected [] one top b l = absurd (ground arith)
  choice_loop-Looped y selected (key_down ∷ ks) one top b l =
      let w =
        choice_loop-Looped (if ltb y rows then y + 1 else y) selected ks (ground arith)
          (ground arith) b l in
      record { set = w.set; rest = w.rest; returns = w.returns; bound = w.bound; bits = w.bits }
  choice_loop-Looped y selected (key_up ∷ ks) one top b l =
      let w =
        choice_loop-Looped (if ltb 1 y then y - 1 else y) selected ks (ground arith) (ground arith)
          b l in
      record { set = w.set; rest = w.rest; returns = w.returns; bound = w.bound; bits = w.bits }
  choice_loop-Looped y selected (other_key ∷ ks) one top b l =
      let w = choice_loop-Looped y selected ks one top b l in
      record { set = w.set; rest = w.rest; returns = w.returns; bound = w.bound; bits = w.bits }
  choice_loop-Looped y selected (char c ∷ ks) one top b l = elim (Bool-cases (c == b' ')) [
    | inl space ↦
        let low : ltb (y + start - 1) 32 ≡ true = ground arith in
        let stay : is_quit c ≡ false = ground (arith, space) in
        let k = y + start - 1 in
        let w =
          choice_loop-Looped y (toggle selected (2 ^ k)) ks one top
            (toggle-lt selected k b (omega arith)) (ground (arith, l, stay)) in
        record {
          set = w.set;
          rest = w.rest;
          returns = rw (space, low) w.returns;
          bound = w.bound;
          bits = λ j h.
              rw space (ground (arith, w.bits j h, test_bit-toggle selected j k b h (omega arith)));
        }
    | inr plain ↦ elim (Bool-cases (is_quit c)) [
      | inl quit ↦ record {
        set = selected;
        rest = ks;
        returns = rw (plain, quit);
        bound = b;
        bits = λ j h. rw (plain, quit);
      }
      | inr stay ↦
          let w = choice_loop-Looped y selected ks one top b (ground (arith, l, stay)) in
          record {
            set = w.set;
            rest = w.rest;
            returns = rw (plain, stay) w.returns;
            bound = w.bound;
            bits = λ j h. rw (plain, stay) (w.bits j h);
          }
    ]
  ]

-- The prompt leaves each value marked or not by the keys, and fails exactly if none is.
pub record IsChosen (rows start : ℕ) (flt : Option Filter) (keys : List Pressed) (r : Run Chosen)
    : Type 0 where
  pub result : Chosen
  pub returns : r ≡ ok result
  pub bits :
      (j : ℕ)
      → j < 32
      → test_bit j (selected_of result.filter)
        ≡ xor (is_toggled rows start 1 j keys) (test_bit j (selected_of flt))
  pub fails : result.failed ≡ (selected_of result.filter == 0)

stored :
    (flt : Option Filter) (set : ℕ) (ks : List Pressed)
    → (selected_of (store_choice true flt set ks).filter ≡ set)
      × ((store_choice true flt set ks).failed ≡ (set == 0))
unfolding store_choice
stored none set ks = elim (Bool-cases (set == 0)) [
  | inl empty ↦ rw (empty, (==_iff set 0).0 empty) (refl, refl)
  | inr some_in ↦ rw some_in (refl, refl)
]
stored (some flt) set ks = elim (Bool-cases (set == 0)) [
  | inl empty ↦ rw (empty, (==_iff set 0).0 empty) (refl, refl)
  | inr some_in ↦ rw some_in (refl, refl)
]

abbrev is_range : Option (ℕ × ℕ) → Bool
is_range none = true
is_range (some (rows, start)) = leb 1 rows && leb (start + rows) 32

is_range-choices : (p : FilterParse) → is_range (choices p) ≡ true
unfolding choices
is_range-choices p = ground arith

choices-range :
    (p : FilterParse) {rows start : ℕ}
    → choices p ≡ some (rows, start)
    → (1 ≤ rows) × (start + rows ≤ 32)
choices-range p {rows} {start} e =
    let h : is_range (some (rows, start)) ≡ true = sym (ap is_range e) ∙ is_range-choices p in
    (ground (arith, h), ground (arith, h))

-- The loop of such a prompt returns at a key that leaves it.
pub choice_loop-returns :
    (p : FilterParse) (rows start selected : ℕ) (keys : List Pressed)
    → choices p ≡ some (rows, start)
    → selected < 2 ^ 32
    → leaves keys ≡ true
    → (r : ℕ × List Pressed) × (choice_loop rows start 1 selected keys ≡ ok r)
choice_loop-returns p rows start selected keys e b l =
    let (one, fits) = choices-range p e in
    let w = choice_loop-Looped rows start fits 1 selected keys (omega arith) one b l in
    ((w.set, w.rest), w.returns)

-- For each of the prompts on a set of values, with memory at hand and keys one of which leaves
-- the prompt, fp_str_common returns; each value is marked after it exactly if the keys marked it
-- an odd number of times and it was not marked before, or an even number of times and it was, and
-- the prompt fails exactly if no value is marked.
pub fp_str_common-IsChosen :
    (p : FilterParse) (rows start : ℕ) (flt : Option Filter) (keys : List Pressed)
    → choices p ≡ some (rows, start)
    → selected_of flt < 2 ^ 32
    → leaves keys ≡ true
    → IsChosen rows start flt keys (fp_str_common true rows start flt keys)
unfolding fp_str_common
fp_str_common-IsChosen p rows start flt keys e b l =
    let (one, fits) = choices-range p e in
    let w = choice_loop-Looped rows start fits 1 (selected_of flt) keys (omega arith) one b l in
    let (set, failed) = stored flt w.set w.rest in
    record {
      result = store_choice true flt w.set w.rest;
      returns = rw w.returns;
      bits = λ j h. ap (test_bit j) set ∙ w.bits j h;
      fails = failed ∙ ap (λ s. s == 0) (sym set);
    }

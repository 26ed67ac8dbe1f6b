-- ===== src/FieldScreen/Move.antt =====
-- src/input.c: the two loops of `field_key_left_handler`.
use sockmon.Base.{
  ℕ, zero, suc, ◌+◌, ◌-◌, ◌<◌, ◌≡◌, refl, arith, Bool-cases, inl, inr, some, ltb, length, ok,
}
use sockmon.Ctx.{Ctx}
use sockmon.FieldScreen.{shown, move_down, move_up, move}
use sockmon.FieldScreen.Swap.{
  exchange, Renumbered, swap_field-Renumbered, Renumbered-trans, Renumbered-eq, Renumbered-refl,
}

shown_nothing : (i top j : ℕ) → i ≡ top → j ≡ shown (some i) top j
unfolding shown
shown_nothing i top j e = ground arith

shown_down :
    (k i top j : ℕ)
    → i + suc k ≡ top
    → exchange i (i + 1) (shown (some (i + 1)) top j) ≡ shown (some i) top j
unfolding shown
shown_down k i top j e = ground arith

shown_up :
    (k i top j : ℕ)
    → i ≡ top + suc k
    → exchange i (i - 1) (shown (some (i - 1)) top j) ≡ shown (some i) top j
unfolding shown
shown_up k i top j e = ground arith

move_down-shown :
    (k i top : ℕ) (n : Ctx)
    → i + k ≡ top
    → top < length n.tcp_fields
    → (n' : Ctx) × (move_down k i n ≡ ok n') × Renumbered n n' (shown (some i) top)
unfolding move_down
move_down-shown zero i top n e h =
    (n, refl, Renumbered-eq (Renumbered-refl n) (λ j. shown_nothing i top j (omega arith)))
move_down-shown (suc k) i top n e h =
    let (n₁, run, p) = swap_field-Renumbered n i (i + 1) (omega arith) (omega arith) in
    let (n₂, rest, q) = move_down-shown k (i + 1) top n₁ (omega arith) (omega (arith, p.size)) in
    (n₂, rw run rest, Renumbered-eq (Renumbered-trans p q) (λ j. shown_down k i top j e))

move_up-shown :
    (k i top : ℕ) (n : Ctx)
    → i ≡ top + k
    → i < length n.tcp_fields
    → (n' : Ctx) × (move_up k i n ≡ ok n') × Renumbered n n' (shown (some i) top)
unfolding move_up
move_up-shown zero i top n e h =
    (n, refl, Renumbered-eq (Renumbered-refl n) (λ j. shown_nothing i top j (omega arith)))
move_up-shown (suc k) i top n e h =
    let (n₁, run, p) = swap_field-Renumbered n i (i - 1) (omega arith) (omega arith) in
    let (n₂, rest, q) = move_up-shown k (i - 1) top n₁ (omega arith) (omega (arith, p.size)) in
    (n₂, rw run rest, Renumbered-eq (Renumbered-trans p q) (λ j. shown_up k i top j e))

-- Both loops give the order of `shown`.
pub move-shown :
    (sel y : ℕ) (n : Ctx)
    → sel < length n.tcp_fields
    → y < length n.tcp_fields
    → (n' : Ctx) × (move sel y n ≡ ok n') × Renumbered n n' (shown (some sel) y)
unfolding move
move-shown sel y n hs hy = elim (Bool-cases (ltb sel y)) [
  | inl e ↦ rw e (move_down-shown (y - sel) sel y n (ground arith) hy)
  | inr e ↦ rw e (elim (Bool-cases (ltb y sel)) [
    | inl d ↦ rw d (move_up-shown (sel - y) sel y n (ground arith) hs)
    | inr d ↦
        rw d
          (n, refl, Renumbered-eq (Renumbered-refl n) (λ j. shown_nothing sel y j (ground arith)))
  ])
]

-- ===== src/Ctx/Valid.antt =====
-- What the key handlers of src/input.c keep of `struct nm_ctx`.
use sockmon.Base.{
  List, ap, ◌∙◌, sub_ℕ, leb, suc, zero, ◌+◌, ℕ, ◌-◌, ◌/◌, ◌≤◌, ◌<◌, ◌≡◌, refl, arith, Option, none,
  some, length, ℤ, pos, negsuc, ltb_ℤ, leb_ℤ, ◌+ℤ◌, ◌-ℤ◌, Bool, true, false, Bool-cases, inl, inr,
  if◌then◌else◌,
}
use sockmon.Ctx.{Screen, Ctx, half_page}
use sockmon.Field.{Field}

-- An `int` that is an index below `bound`.
unfoldable pub IsBelow : ℕ → ℤ → Type 0
IsBelow bound (pos y) = y < bound
IsBelow bound (negsuc y) = ⊥

unfoldable pub IsNat : ℤ → Type 0
IsNat (pos y) = Unit
IsNat (negsuc y) = ⊥

-- NULL, or a pointer to one of the first `bound` entries.
unfoldable pub IsEntry : ℕ → Option ℕ → Type 0
IsEntry bound none = Unit
IsEntry bound (some i) = i < bound

pub record IsCtx (n : Ctx) : Type 0 where
  pub main_y : IsNat n.pos_main.y
  pub main_x : IsNat n.pos_main.x
  pub cursor : IsBelow (length n.tcp_fields) n.pos_field.y
  pub selected : IsEntry (length n.tcp_fields) n.sel_field
  pub sorted : IsEntry (length n.tcp_fields) n.sort_key
  pub page : 4 ≤ n.lines
  pub delay_low : 1 ≤ n.delay
  pub delay_high : n.delay ≤ 255

pub half_page_lem : (lines : ℕ) → 4 ≤ lines → half_page lines ≡ pos ((lines - 4) / 2)
unfolding half_page
half_page_lem lines h = ground arith

pub sub_ℕ-pos : {a b : ℕ} → b ≤ a → sub_ℕ a b ≡ pos (a - b)
sub_ℕ-pos {a = a} {b = b} h = let e : leb b a ≡ true = ground arith in rw e

pub add-IsNat : (z : ℤ) (k : ℕ) → IsNat z → IsNat (z +ℤ pos k)
unfolding IsNat
add-IsNat (pos y) k h =
    let e : sub_ℕ (y + k) 0 ≡ pos (y + k - 0) = sub_ℕ-pos (omega arith) in rw e tt
add-IsNat (negsuc y) k h = absurd h

pub pred-IsNat : (z : ℤ) → IsNat z → leb_ℤ z (pos 0) ≡ false → IsNat (z -ℤ pos 1)
unfolding IsNat
pred-IsNat (pos zero) h e = absurd (ground (arith, e))
pred-IsNat (pos (suc y)) h e =
    let d : sub_ℕ (suc y + 0) (0 + 1) ≡ pos (suc y + 0 - (0 + 1)) = sub_ℕ-pos (omega arith) in
    rw d tt
pred-IsNat (negsuc y) h e = absurd h

pub clip-IsNat : (z : ℤ) → IsNat (if ltb_ℤ z (pos 0) then pos 0 else z)
unfolding IsNat
clip-IsNat (pos y) = let e : ltb_ℤ (pos y) (pos 0) ≡ false = ground arith in rw e tt
clip-IsNat (negsuc y) = let e : ltb_ℤ (negsuc y) (pos 0) ≡ true = ground arith in rw e tt

-- The index of the last of `len` entries.
pub last_lem : (len : ℕ) → 1 ≤ len → pos len -ℤ pos 1 ≡ pos (len - 1)
last_lem len h = sub_ℕ-pos {a = len + 0} {b = 0 + 1} (omega arith) ∙ ap pos (omega arith)

plus_lem : (y k : ℕ) → pos y +ℤ pos k ≡ pos (y + k)
plus_lem y k = sub_ℕ-pos {a = y + k} {b = 0} (omega arith) ∙ ap pos (omega arith)

pub IsBelow-down :
    (len : ℕ) (z : ℤ)
    → IsBelow len z
    → leb_ℤ (pos len -ℤ pos 1) z ≡ false
    → IsBelow len (z +ℤ pos 1)
unfolding IsBelow
IsBelow-down len (negsuc y) h e = absurd h
IsBelow-down len (pos y) h e =
    let d : leb_ℤ (pos (len - 1)) (pos y) ≡ false = (rw (last_lem len (omega (arith, h))) at e) in
    rw (plus_lem y 1) (ground (arith, d))

pub IsBelow-pgdn :
    (len k : ℕ) (z : ℤ)
    → IsBelow len z
    → IsBelow len
        (let last = pos len -ℤ pos 1 in let y = z +ℤ pos k in if ltb_ℤ last y then last else y)
unfolding IsBelow
IsBelow-pgdn len k (negsuc y) h = absurd h
IsBelow-pgdn len k (pos y) h =
    rw (last_lem len (omega (arith, h)), plus_lem y k)
      (elim (Bool-cases (ltb_ℤ (pos (len - 1)) (pos (y + k)))) [
        | inl e ↦ rw e (omega (arith, h))
        | inr e ↦ rw e (ground (arith, e, h))
      ])

pub IsBelow-up :
    (len : ℕ) (z : ℤ) → IsBelow len z → leb_ℤ z (pos 0) ≡ false → IsBelow len (z -ℤ pos 1)
unfolding IsBelow
IsBelow-up len (negsuc y) h e = absurd h
IsBelow-up len (pos zero) h e = absurd (ground (arith, e))
IsBelow-up len (pos (suc y)) h e =
    let d : pos (suc y) -ℤ pos 1 ≡ pos y =
      sub_ℕ-pos {a = suc y + 0} {b = 0 + 1} (omega arith) ∙ ap pos (omega arith) in
    rw d (omega (arith, h))

pub IsBelow-pgup :
    (len k : ℕ) (z : ℤ)
    → IsBelow len z
    → IsBelow len (let y = z -ℤ pos k in if ltb_ℤ y (pos 0) then pos 0 else y)
unfolding IsBelow
IsBelow-pgup len k (negsuc y) h = absurd h
IsBelow-pgup len k (pos y) h = elim (Bool-cases (leb k y)) [
  | inl e ↦
      let d : pos y -ℤ pos k ≡ pos (y - k) =
        sub_ℕ-pos {a = y + 0} {b = 0 + k} (ground (arith, e)) ∙ ap pos (omega arith) in
      let s : ltb_ℤ (pos (y - k)) (pos 0) ≡ false = ground arith in rw (d, s) (omega (arith, h))
  | inr e ↦
      let l : leb (0 + k) (y + 0) ≡ false = ground (arith, e) in
      let d : pos y -ℤ pos k ≡ negsuc (0 + k - (y + 0) - 1) = (rw l) in
      let s : ltb_ℤ (negsuc (0 + k - (y + 0) - 1)) (pos 0) ≡ true = ground arith in
      rw (d, s) (omega (arith, h))
]

pub if-IsCtx : (b : Bool) {n n' : Ctx} → IsCtx n → IsCtx n' → IsCtx (if b then n else n')
if-IsCtx true v w = v
if-IsCtx false v w = w

-- The members that the handlers set freely.
pub set-IsCtx :
    {n : Ctx}
    → IsCtx n
    → (screen : Screen) (family protocol ext_req : ℕ) (should_stop : Bool)
    → IsCtx (record n {
      cur_screen = screen;
      family = family;
      protocol = protocol;
      ext_req = ext_req;
      should_stop = should_stop;
    })
set-IsCtx v screen family protocol ext_req should_stop = record {
  main_y = v.main_y;
  main_x = v.main_x;
  cursor = v.cursor;
  selected = v.selected;
  sorted = v.sorted;
  page = v.page;
  delay_low = v.delay_low;
  delay_high = v.delay_high;
}

pub IsBelow-index : {bound : ℕ} (z : ℤ) → IsBelow bound z → (y : ℕ) × (z ≡ pos y) × (y < bound)
unfolding IsBelow
IsBelow-index (pos y) h = (y, refl, h)
IsBelow-index (negsuc y) h = absurd h

-- The members that the handlers of the field screen set with care.
pub table-IsCtx :
    {n : Ctx}
    → IsCtx n
    → (fields : List Field) (y : ℤ) (sel key : Option ℕ) (ascending : Bool)
    → length fields ≡ length n.tcp_fields
    → IsBelow (length n.tcp_fields) y
    → IsEntry (length n.tcp_fields) sel
    → IsEntry (length n.tcp_fields) key
    → IsCtx (record n {
      pos_field = record { y = y; x = n.pos_field.x };
      sel_field = sel;
      sort_key = key;
      sort_ascending = ascending;
      tcp_fields = fields;
    })
table-IsCtx v fields y sel key ascending e hy hs hk = record {
  main_y = v.main_y;
  main_x = v.main_x;
  cursor = rw e hy;
  selected = rw e hs;
  sorted = rw e hk;
  page = v.page;
  delay_low = v.delay_low;
  delay_high = v.delay_high;
}

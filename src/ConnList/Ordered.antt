-- ===== src/ConnList/Ordered.antt =====
-- src/draw.c: `add_conn_info` under a sort key whose comparison function is set.
use mathlib.Core.List.{Perm, perm_middle, append-nil}
use mathlib.Core.List.Perm
use mathlib.Core.Path.{subst₂}
use sockmon.Base.{
  ℕ, ◌≡◌, ◌∙◌, refl, sym, ap, Bool, true, false, Bool-cases, inl, inr, some, List, [], ◌∷◌, ◌++◌,
  ok,
}
use sockmon.Conn.{Conn}
use sockmon.ConnList.{call_through, call_sort_func, insert_loop, add_by_key, add_conn_info, add_all}
use sockmon.ConnList.Place.{
  All, All-append, place, place-here, place-next, All-place, IsOrdered, Inserted, place-IsOrdered,
  place-Inserted, before, append-IsOrdered,
}
use sockmon.Field.{Field, SortFunc, has_ext}
use sockmon.Field.Table.Layout.{Abi}
use sockmon.Sort.Order.{lex}
use sockmon.Sort.Laws.{sort_value, IsOfFamily, sort_func-lex}

-- The key reads a connection that received its attribute.
abbrev pub present : Field → Conn → Bool
present k c = has_ext c.ext k.ext_rcv

abbrev pub value : Abi → Field → SortFunc → Conn → List ℕ
value abi k s c = sort_value abi s k c.bytes k.offset

abbrev pub OfFamily : Abi → Field → SortFunc → ℕ → Conn → Type 0
OfFamily abi k s family c = IsOfFamily abi s family k.offset c.bytes

-- The list is in the order that the user asked for.
abbrev pub IsSorted : Abi → Field → SortFunc → Bool → List Conn → Type 0
IsSorted abi k s ascending l = IsOrdered (present k) (value abi k s) ascending l

-- Where a new connection came to stand in `r`, which was `l`.
pub record IsAdded (abi : Abi) (k : Field) (s : SortFunc) (ascending : Bool) (ci : Conn)
    (l r : List Conn) : Type 0 where
  pub with_value : present k ci ≡ true → Inserted (present k) (value abi k s) ascending ci l r
  pub without : present k ci ≡ false → r ≡ l ++ ci ∷ []

module _ (abi : Abi) (k : Field) (s : SortFunc) (family : ℕ) (ascending : Bool)
    (set : k.sort_func ≡ some s) where
  call-lex :
      (ci other : Conn)
      → OfFamily abi k s family ci
      → OfFamily abi k s family other
      → call_sort_func abi k ci other ≡ ok (lex (value abi k s ci) (value abi k s other))
  unfolding call_sort_func
  call-lex ci other h q =
      ap (λ o. call_through abi o k ci other) set
      ∙ ap ok (sort_func-lex abi s k family k.offset ci.bytes other.bytes h q)

  insert_loop-place :
      (ci : Conn) (l : List Conn)
      → OfFamily abi k s family ci
      → All (OfFamily abi k s family) l
      → insert_loop abi k ascending ci l ≡ ok (place (present k) (value abi k s) ascending ci l)
  unfolding insert_loop
  insert_loop-place ci [] h q = unfold place in refl
  insert_loop-place ci (x ∷ xs) h q =
      rw (call-lex ci x h q.0, insert_loop-place ci xs h q.1)
        (elim (Bool-cases (present k x)) [
          | inr lacks ↦
              rw (lacks, place-here (present k) (value abi k s) ascending ci x xs (rw lacks))
          | inl has ↦ elim (Bool-cases (before (present k) (value abi k s) ascending ci x)) [
            | inl here ↦ rw (
              has,
              here,
              place-here (present k) (value abi k s) ascending ci x xs (rw (has, here)),
            )
            | inr on ↦
                rw
                  (has, on, place-next (present k) (value abi k s) ascending ci x xs (rw (has, on)))
          ]
        ])

  -- What one call of `add_conn_info` leaves.
  pub record Added (ci : Conn) (l r : List Conn) : Type 0 where
    pub sorted : IsSorted abi k s ascending r
    pub family_kept : All (OfFamily abi k s family) r
    pub added : IsAdded abi k s ascending ci l r
    pub same : Perm (ci ∷ l) r

  append-Added :
      (ci : Conn) (l : List Conn)
      → OfFamily abi k s family ci
      → All (OfFamily abi k s family) l
      → IsSorted abi k s ascending l
      → present k ci ≡ false
      → Added ci l (l ++ ci ∷ [])
  append-Added ci l h q o lacks = record {
    sorted = append-IsOrdered _ _ _ ci l lacks o;
    family_kept = All-append _ l (ci ∷ []) q (h, tt);
    added = record { with_value = λ has. cc; without = λ _. refl };
    same = Perm.symm (Perm.trans (perm_middle l []) (Perm.cons ci (rw append-nil (Perm.refl l))));
  }

  place-Added :
      (ci : Conn) (l : List Conn)
      → OfFamily abi k s family ci
      → All (OfFamily abi k s family) l
      → IsSorted abi k s ascending l
      → present k ci ≡ true
      → Added ci l (place (present k) (value abi k s) ascending ci l)
  place-Added ci l h q o has =
      let i = place-Inserted (present k) (value abi k s) ascending ci l o in
      record {
        sorted = place-IsOrdered _ _ _ ci l has o;
        family_kept = All-place _ _ _ _ ci l h q;
        added = record { with_value = λ _. i; without = λ lacks. cc };
        same =
            subst₂ (λ u v. Perm (ci ∷ u) v) (sym i.was) (sym i.is)
              (Perm.symm (perm_middle i.front i.back));
      }

  -- Under a sort key whose comparison function is set, on connections that have one address
  -- family where the key is an address, one call of add_conn_info on a sorted list returns a
  -- sorted list with the same connections and the new one, which comes behind every entry that it
  -- does not stand before and ahead of all others, or at the end if it lacks the attribute.
  pub add_conn_info-Added :
      (ci : Conn) (l : List Conn)
      → OfFamily abi k s family ci
      → All (OfFamily abi k s family) l
      → IsSorted abi k s ascending l
      → (r : List Conn) × (add_conn_info abi (some k) ascending ci l ≡ ok r) × Added ci l r
  unfolding add_conn_info add_by_key
  add_conn_info-Added ci [] h q o = elim (Bool-cases (present k ci)) [
    | inl has ↦ (ci ∷ [], refl, unfold place in (place-Added ci [] h q o has))
    | inr lacks ↦ (ci ∷ [], refl, append-Added ci [] h q o lacks)
  ]
  add_conn_info-Added ci (x ∷ xs) h q o = elim (Bool-cases (present k ci)) [
    | inl has ↦ (
      place (present k) (value abi k s) ascending ci (x ∷ xs),
      rw has (insert_loop-place ci (x ∷ xs) h q),
      place-Added ci (x ∷ xs) h q o has,
    )
    | inr lacks ↦ ((x ∷ xs) ++ ci ∷ [], rw lacks, append-Added ci (x ∷ xs) h q o lacks)
  ]

  -- All connections of a dump are added, in the order asked for.
  pub add_all-Added :
      (cs l : List Conn)
      → All (OfFamily abi k s family) cs
      → All (OfFamily abi k s family) l
      → IsSorted abi k s ascending l
      → (r : List Conn) × (add_all abi (some k) ascending cs l ≡ ok r)
        × IsSorted abi k s ascending r
        × Perm (cs ++ l) r
  unfolding add_all
  add_all-Added [] l hs q o = (l, refl, o, Perm.refl l)
  add_all-Added (ci ∷ cs) l hs q o =
      let (r₁, run, a) = add_conn_info-Added ci l hs.0 q o in
      let (r, rest, sorted, same) = add_all-Added cs r₁ hs.1 a.family_kept a.sorted in
      (
        r,
        rw (run, rest),
        sorted,
        Perm.trans (Perm.trans (Perm.symm (perm_middle cs l)) (Perm.append_left cs a.same)) same,
      )

  -- Under a sort key whose comparison function is set, on connections that have one address
  -- family where the key is an address, adding the connections of a dump one after another to the
  -- empty list returns, and the list is a permutation of them in the order of the key (ascending
  -- or descending), with those that lack its attribute behind.
  pub add_all-IsSorted :
      (cs : List Conn)
      → All (OfFamily abi k s family) cs
      → (r : List Conn) × (add_all abi (some k) ascending cs [] ≡ ok r)
        × IsSorted abi k s ascending r
        × Perm cs r
  add_all-IsSorted cs hs =
      let (r, run, sorted, same) = add_all-Added cs [] hs tt tt in
      (r, run, sorted, rw append-nil at same)

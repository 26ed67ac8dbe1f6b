-- ===== src/Proc/Lookup.antt =====
-- src/proc.c: `lookup_socket_owner` and `add_sk_ino` beside a map from inodes to owners in which
-- the first owner of an inode stays.
use mathlib.Core.Option.{or_else}
use sockmon.Base.{
  is_none, ℕ, zero, suc, ◌+◌, ◌<◌, ◌≡◌, ◌≢◌, ◌∙◌, refl, sym, ap, arith, true, false, Bool-cases,
  inl, inr, Option, none, some, Option-cases, List, [], ◌∷◌, ◌++◌, ◌==◌, ==_iff, if◌then◌else◌,
  length, set, length-set, length-append, ok, ok-injective, at, at-lt, ℕ_discrete,
}
use sockmon.Proc.{SkOwner, SkMap, success, find_owner, lookup_socket_owner, add_sk_ino}
use sockmon.Proc.Hash.{IsSized, home, hash-home, home-lt}

-- What the table promises: a partial function from inodes to owners.
abbrev pub Owners : Type 0
Owners = ℕ → Option SkOwner

-- The first owner that claims an inode keeps it.
unfoldable pub claim : SkOwner → Owners → Owners
claim o f j = if o.sk_ino == j then or_else (f j) (some o) else f j

pub find_owner-append :
    (j : ℕ) (c : List SkOwner) (o : SkOwner)
    → find_owner j (c ++ o ∷ []) ≡ or_else (find_owner j c) (if o.sk_ino == j then some o else none)
unfolding find_owner or_else
find_owner-append j [] o = ground arith
find_owner-append j (x ∷ c) o = ground (arith, find_owner-append j c o)

module _ {ℓ} {A : Type ℓ} where
  pub at-set_self : (xs : List A) (i : ℕ) (v : A) → i < length xs → at (set xs i v) i ≡ ok v
  at-set_self [] i v h = absurd (omega arith)
  at-set_self (x ∷ xs) zero v h = refl
  at-set_self (x ∷ xs) (suc i) v h = at-set_self xs i v (omega arith)

  pub at-set_ne : (xs : List A) (i j : ℕ) (v : A) → i ≢ j → at (set xs i v) j ≡ at xs j
  at-set_ne [] i j v h = refl
  at-set_ne (x ∷ xs) zero zero v h = absurd (h refl)
  at-set_ne (x ∷ xs) zero (suc j) v h = refl
  at-set_ne (x ∷ xs) (suc i) zero v h = refl
  at-set_ne (x ∷ xs) (suc i) (suc j) v h = at-set_ne xs i j v (λ e. h (ap suc e))

-- The number of nodes.
unfoldable pub total : List (List SkOwner) → ℕ
total [] = 0
total (c ∷ cs) = length c + total cs

pub total-set :
    (hb : List (List SkOwner)) (i : ℕ) (c d : List SkOwner)
    → at hb i ≡ ok c
    → total (set hb i d) + length c ≡ total hb + length d
unfolding total
total-set [] i c d h = ground arith
total-set (x ∷ hb) zero c d h = ground arith
total-set (x ∷ hb) (suc i) c d h = omega (arith, total-set hb i c d h)

-- The chain in which an inode is kept.
chain-home :
    {m : SkMap} → IsSized m → (j : ℕ) → (c : List SkOwner) × (at m.sk_ino_hb (home m j) ≡ ok c)
chain-home {m} v j = at-lt m.sk_ino_hb (home m j) (omega (arith, home-lt v j))

lookup-chain :
    {m : SkMap}
    → IsSized m
    → (j : ℕ) {c : List SkOwner} → j ≢ 0
    → at m.sk_ino_hb (home m j) ≡ ok c
    → lookup_socket_owner m j ≡ ok (find_owner j c)
unfolding lookup_socket_owner
lookup-chain v j ne e = let test : (j == 0) ≡ false = ground arith in rw (test, hash-home v j, e)

-- The table is sized, counts its nodes, and reads as `f`.
pub record Models (m : SkMap) (f : Owners) : Type 0 where
  pub shape : IsSized m
  pub counted : m.nr_sockets ≡ total m.sk_ino_hb
  pub reads : (j : ℕ) → lookup_socket_owner m j ≡ ok (f j)

claim_taken : (o x : SkOwner) (f : Owners) → f o.sk_ino ≡ some x → (j : ℕ) → f j ≡ claim o f j
unfolding claim or_else
claim_taken o x f h j = elim (Bool-cases (o.sk_ino == j)) [
  | inl e ↦ rw (e, ← (==_iff o.sk_ino j).0 e, h)
  | inr e ↦ rw e
]

-- The value that a valid table reads at an inode is found in the inode's chain.
find_owner-reads :
    {m : SkMap} {f : Owners}
    → Models m f
    → (j : ℕ) {c : List SkOwner} → j ≢ 0
    → at m.sk_ino_hb (home m j) ≡ ok c
    → find_owner j c ≡ f j
find_owner-reads t j ne e = ok-injective (sym (lookup-chain t.shape j ne e) ∙ t.reads j)

-- A chain that gained `o`, read at `j`.
find_owner-claim :
    (o : SkOwner) (f : Owners) (j : ℕ) (c : List SkOwner)
    → find_owner j c ≡ f j
    → find_owner j (c ++ o ∷ []) ≡ claim o f j
unfolding claim or_else
find_owner-claim o f j c h = ground (arith, find_owner-append j c o)

claim_other : (o : SkOwner) (f : Owners) (j : ℕ) → o.sk_ino ≢ j → f j ≡ claim o f j
unfolding claim
claim_other o f j h = ground arith

module _ {m : SkMap} {f : Owners} (t : Models m f) (o : SkOwner) (c : List SkOwner)
    (ne : o.sk_ino ≢ 0) (free : f o.sk_ino ≡ none)
    (chain : at m.sk_ino_hb (home m o.sk_ino) ≡ ok c) where
  abbrev grown : SkMap
  grown = record m {
    sk_ino_hb = set m.sk_ino_hb (home m o.sk_ino) (c ++ o ∷ []);
    nr_sockets = m.nr_sockets + 1;
  }

  grown-IsSized : IsSized grown
  grown-IsSized = record {
    sized = length-set m.sk_ino_hb (home m o.sk_ino) (c ++ o ∷ []) ∙ t.shape.sized;
    power = t.shape.power;
    shift_low = t.shape.shift_low;
    shift_high = t.shape.shift_high;
  }

  grown_chain :
      (j : ℕ) {d : List SkOwner}
      → j ≢ 0
      → at m.sk_ino_hb (home m j) ≡ ok d
      → (d' : List SkOwner) × (at grown.sk_ino_hb (home grown j) ≡ ok d')
        × (find_owner j d' ≡ claim o f j)
  unfolding home
  grown_chain j {d} nj e = elim (ℕ_discrete (home m o.sk_ino) (home m j)) [
    | yes same ↦ (
      c ++ o ∷ [],
      rw (← same) (
          at-set_self m.sk_ino_hb (home m o.sk_ino) (c ++ o ∷ [])
            (omega (arith, home-lt t.shape o.sk_ino, t.shape.sized))),
      find_owner-claim o f j c (find_owner-reads t j nj (rw (← same) chain)),
    )
    | no other ↦ (
      d,
      at-set_ne m.sk_ino_hb (home m o.sk_ino) (home m j) (c ++ o ∷ []) other ∙ e,
      find_owner-reads t j nj e ∙ claim_other o f j (λ p. other (ap (home m) p)),
    )
  ]

  grown_reads : (j : ℕ) → lookup_socket_owner grown j ≡ ok (claim o f j)
  grown_reads zero = unfold lookup_socket_owner in (t.reads 0 ∙ ap ok (claim_other o f 0 ne))
  grown_reads (suc j) =
      let (d, e) = chain-home t.shape (suc j) in
      let (d', e', r) = grown_chain (suc j) (omega arith) e in
      lookup-chain grown-IsSized (suc j) (omega arith) e' ∙ ap ok r

  grown-Models : Models grown (claim o f)
  grown-Models = record {
    shape = grown-IsSized;
    counted = omega (
      arith,
      t.counted,
      total-set m.sk_ino_hb (home m o.sk_ino) c (c ++ o ∷ []) chain,
      length-append {0} c (o ∷ []),
    );
    reads = grown_reads;
  }

-- On a table that reads as a map, with memory at hand and an inode that is not 0, add_sk_ino
-- succeeds; the table then reads as the map in which the inode belongs to the new owner unless it
-- had one, and the count grows by one exactly in the first case.
pub add-Models :
    {m : SkMap} {f : Owners}
    → Models m f
    → (inode pid : ℕ) (comm : List ℕ) → inode ≢ 0
    → (m' : SkMap) × (add_sk_ino true m inode pid comm ≡ success m')
      × Models m' (claim (record { sk_ino = inode; pid = pid; comm = comm }) f)
      × (m'.nr_sockets ≡ (if is_none (f inode) then m.nr_sockets + 1 else m.nr_sockets))
unfolding add_sk_ino
add-Models {m} {f} t inode pid comm ne =
    let o : SkOwner = record { sk_ino = inode; pid = pid; comm = comm } in
    let (c, chain) = chain-home t.shape inode in
    elim (Option-cases (f inode)) [
      | inl e ↦ (
        grown t o c ne e chain,
        rw (t.reads inode, e, hash-home t.shape inode, chain),
        grown-Models t o c ne e chain,
        rw e,
      )
      | inr (x, e) ↦ (
        m,
        rw (t.reads inode, e),
        record {
          shape = t.shape;
          counted = t.counted;
          reads = λ j. t.reads j ∙ ap ok (claim_taken o x f e j);
        },
        rw e,
      )
    ]

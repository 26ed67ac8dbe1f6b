-- ===== src/Proc/Free.antt =====
-- src/proc.c: `free_sk_proc_map`, with the loop that picks the next size of the table.
use native.Mathlib.Nat.{pow-suc}
use sockmon.Base.Bits.{pow-pos}
use sockmon.Base.{
  ℕ, zero, suc, ◌+◌, ◌-◌, ◌^◌, ◌≤◌, ◌<◌, ◌≡◌, ◌≢◌, ◌∙◌, refl, sym, ap, arith, Bool, true, false,
  not, ◌&&◌, Bool-cases, inl, inr, none, List, [], ◌∷◌, ◌==◌, ==_iff, ltb, ltb→lt, if◌then◌else◌,
  length, replicate, length-replicate, ok, fault, bad_shift, at, ℕ_discrete,
}
use sockmon.Proc.{
  Status, initial, SkOwner, SkMap, success, sk_ino_hash, find_owner, lookup_socket_owner,
  size_shift, free_chains, resize_to, free_sk_proc_map,
}
use sockmon.Proc.Hash.{IsSized, home, hash-home, home-lt}
use sockmon.Proc.Lookup.{Owners, total, Models}

-- `r` is the least shift from `i` on whose power of two is at least `n`.
pub record IsLeastShift (i n r : ℕ) : Type 0 where
  pub from : i ≤ r
  pub holds : n ≤ 2 ^ r
  pub least : (s : ℕ) → i ≤ s → s < r → 2 ^ s < n

least_from :
    {i n r : ℕ} → 2 ^ i < n → IsLeastShift (i + 1) n r → (s : ℕ) → i ≤ s → s < r → 2 ^ s < n
least_from {i} {n} h v s p q = elim (ℕ_discrete i s) [
  | yes e ↦ rw (← e) h
  | no ne ↦ v.least s (omega arith) q
]

-- The loop of `free_sk_proc_map` finds it, if a shift in range will do.
size_shift-IsLeastShift :
    (k i n : ℕ) {top : ℕ}
    → i + k ≡ top
    → n ≤ 2 ^ top
    → IsLeastShift i n (size_shift k i n) × (size_shift k i n ≤ top)
unfolding size_shift
size_shift-IsLeastShift zero i n e h =
    let e' : i ≡ _ = (omega arith) ∙ e in
    (
      record { from = omega arith; holds = rw e' h; least = λ s p q. absurd (omega arith) },
      omega (arith, e'),
    )
size_shift-IsLeastShift (suc k) i n {top} e h = elim (Bool-cases (ltb (2 ^ i) n)) [
  | inl more ↦
      let (v, b) = size_shift-IsLeastShift k (i + 1) n {top = top} (omega arith) h in
      rw more (
        record {
          from = omega (arith, v.from);
          holds = v.holds;
          least = λ s p q. least_from (ltb→lt _ _ more) v s p q;
        },
        b,
      )
  | inr done ↦ rw done (
    record { from = omega arith; holds = ground arith; least = λ s p q. absurd (omega arith) },
    omega arith,
  )
]

-- Every bucket is emptied and every node counted off.
free_chains_lem :
    (hb : List (List SkOwner)) (k n : ℕ)
    → length hb ≡ k
    → n ≡ total hb
    → free_chains k hb n ≡ ok (replicate k [], 0)
unfolding free_chains total
free_chains_lem [] zero n e h = ground arith
free_chains_lem [] (suc k) n e h = absurd (omega arith)
free_chains_lem (c ∷ hb) zero n e h = absurd (omega arith)
free_chains_lem (c ∷ hb) (suc k) n e h =
    rw (free_chains_lem hb k (n - length c) (omega arith) (omega arith))

total-replicate : (k : ℕ) → total (replicate k []) ≡ 0
unfolding total
total-replicate zero = refl
total-replicate (suc k) = omega (arith, total-replicate k)

at-replicate {ℓ} : {A : Type ℓ} (k i : ℕ) (a : A) → i < k → at (replicate k a) i ≡ ok a
at-replicate zero i a h = absurd (omega arith)
at-replicate (suc k) zero a h = refl
at-replicate (suc k) (suc i) a h = at-replicate k i a (omega arith)

-- A table whose buckets are all empty reads as the empty map.
emptied-Models :
    (m : SkMap)
    → m.sk_ino_hb ≡ replicate m.map_hash_sz []
    → m.nr_sockets ≡ 0
    → m.map_hash_sz ≡ 2 ^ m.map_hash_shift
    → 1 ≤ m.map_hash_shift
    → m.map_hash_shift ≤ 31
    → Models m (λ _. none)
unfolding lookup_socket_owner find_owner
emptied-Models m hb nr power low high = record {
  shape = shape;
  counted = rw hb (nr ∙ sym (total-replicate m.map_hash_sz));
  reads = λ j. elim (Bool-cases (j == 0)) [
    | inl e ↦ rw e
    | inr e ↦ rw (e, hash-home shape j, bucket j)
  ];
}
  where
    shape : IsSized m
    shape = record {
      sized = ap length hb ∙ length-replicate m.map_hash_sz [];
      power = power;
      shift_low = low;
      shift_high = high;
    }

    bucket : (j : ℕ) → at m.sk_ino_hb (home m j) ≡ ok []
    bucket j =
        ap (λ (bs : List (List SkOwner)). at bs (home m j)) hb
        ∙ at-replicate m.map_hash_sz (home m j) [] (home-lt shape j)

-- The table that the program starts with.
pub initial-Models : Models initial (λ _. none)
unfolding initial
initial-Models = emptied-Models initial refl refl refl (omega arith) (omega arith)

shift_pos : {n : ℕ} (s : ℕ) → n ≤ 2 ^ s → 2 ≤ n → 1 ≤ s
shift_pos zero h k = absurd (omega arith)
shift_pos (suc s) h k = omega arith

either_returns : (b : Bool) (s t : Status) → (r : Status) × ((if b then ok s else ok t) ≡ ok r)
either_returns true s t = (s, refl)
either_returns false s t = (t, refl)

-- The shift that the next table gets.
abbrev pub next_shift : SkMap → ℕ
next_shift m = size_shift 31 0 m.nr_sockets

module _ {m : SkMap} {f : Owners} (t : Models m f) where
  free-run :
      (resize alloc : Bool)
      → free_sk_proc_map true resize alloc m ≡ (
          let e = record m { sk_ino_hb = replicate m.map_hash_sz []; nr_sockets = 0 } in
          if resize && not (m.map_hash_sz == 2 ^ next_shift m)
          then ok (resize_to alloc (next_shift m) e)
          else success e)
  unfolding free_sk_proc_map
  free-run resize alloc =
      rw (free_chains_lem m.sk_ino_hb m.map_hash_sz m.nr_sockets t.shape.sized t.counted)

  -- free_sk_proc_map without resize empties a valid table and keeps its size.
  pub free-Models :
      (alloc : Bool)
      → (m' : SkMap) × (free_sk_proc_map true false alloc m ≡ success m')
        × Models m' (λ _. none)
        × (m'.map_hash_sz ≡ m.map_hash_sz)
  free-Models alloc = (
    record m { sk_ino_hb = replicate m.map_hash_sz []; nr_sockets = 0 },
    free-run false alloc,
    emptied-Models _ refl refl t.shape.power t.shape.shift_low t.shape.shift_high,
    refl,
  )

  -- The call returns, whatever is asked for.
  pub free-returns :
      (requested resize alloc : Bool)
      → (s : Status) × (free_sk_proc_map requested resize alloc m ≡ ok s)
  free-returns false resize alloc =
      (record { failed = false; table = m }, unfold free_sk_proc_map in refl)
  free-returns true resize alloc =
      let (s, e) = either_returns (resize && not (m.map_hash_sz == 2 ^ next_shift m)) _ _ in
      (s, free-run resize alloc ∙ e)

  two-le-size : 2 ≤ m.map_hash_sz
  two-le-size =
      let k : ℕ = m.map_hash_shift - 1 in
      let e : m.map_hash_shift ≡ suc k = omega (arith, t.shape.shift_low) in
      rw (t.shape.power, e) (omega (arith, pow-suc 2 k, pow-pos k))

  -- With 2 to 2^31 sockets in the table and memory at hand, free_sk_proc_map with resize empties
  -- the table, and its size becomes the least power of two that is at least their number.
  pub free-resized :
      2 ≤ m.nr_sockets
      → m.nr_sockets ≤ 2 ^ 31
      → (m' : SkMap) × (free_sk_proc_map true true true m ≡ success m')
        × Models m' (λ _. none)
        × IsLeastShift 0 m.nr_sockets (next_shift m)
        × (m'.map_hash_sz ≡ 2 ^ next_shift m)
  free-resized lo hi =
      let (fit, high) = size_shift-IsLeastShift 31 0 m.nr_sockets {top = 31} refl hi in
      elim (Bool-cases (m.map_hash_sz == 2 ^ next_shift m)) [
        | inl same ↦ (
          record m { sk_ino_hb = replicate m.map_hash_sz []; nr_sockets = 0 },
          free-run true true ∙ (rw same),
          emptied-Models _ refl refl t.shape.power t.shape.shift_low t.shape.shift_high,
          fit,
          (==_iff _ _).0 same,
        )
        | inr differs ↦ (
          record {
            sk_ino_hb = replicate (2 ^ next_shift m) [];
            nr_sockets = 0;
            map_hash_sz = 2 ^ next_shift m;
            map_hash_shift = next_shift m;
          },
          free-run true true ∙ unfold resize_to in (rw differs),
          emptied-Models _ refl refl refl (shift_pos (next_shift m) fit.holds lo) high,
          fit,
          refl,
        )
      ]

  small_shift : m.nr_sockets ≤ 1 → next_shift m ≡ 0
  unfolding size_shift
  small_shift h = ground arith

  -- With at most one socket in a valid table and memory at hand, free_sk_proc_map with resize
  -- leaves a table in which the lookup of any inode but 0 shifts a 32-bit word by 32.
  pub free-small :
      m.nr_sockets ≤ 1
      → (m' : SkMap) × (free_sk_proc_map true true true m ≡ success m')
        × ((j : ℕ) → j ≢ 0 → lookup_socket_owner m' j ≡ fault bad_shift)
  unfolding lookup_socket_owner sk_ino_hash
  free-small h = (
    record { sk_ino_hb = [] ∷ []; nr_sockets = 0; map_hash_sz = 1; map_hash_shift = 0 },
    free-run true true ∙ (unfold resize_to in (rw (small_shift h) (ground (arith, two-le-size)))),
    λ j ne. let e : (j == 0) ≡ false = ground arith in rw e,
  )

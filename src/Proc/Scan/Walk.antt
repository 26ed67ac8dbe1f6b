-- ===== src/Proc/Scan/Walk.antt =====
-- src/proc.c: `build_sk_proc_map` beside the list of the descriptors in the order of the walk.
use Prim.Native.Nat.{bit_or}
use mathlib.Core.Option.{or_else}
use sockmon.Base.{
  ℕ, ◌^◌, ◌≡◌, ◌≢◌, ◌∙◌, refl, ap, arith, Bool, true, false, not, ◌&&◌, Bool-cases, inl, inr,
  Option, none, some, Option-cases, List, [], ◌∷◌, ◌++◌, Run, ok, fault, waits,
}
use sockmon.Base.Bits.{bit_and-pow_eq_zero, test_bit-bit_or, test_bit-pow}
use sockmon.Field.{ext_is_set, has_ext, inet_diag_proc}
use sockmon.Proc.{SkOwner, SkMap, Status, success, find_owner, lookup_socket_owner}
use sockmon.Proc.Lookup.{Owners, claim, Models, add-Models}
use sockmon.Proc.Scan.{
  FdRead, FdDir, ProcRead, get_comm, link_inode, make_map_loop, sk_ino_make_map, process_of,
  build_loop, Build, finish, build_sk_proc_map,
}

abbrev owner : ℕ → ℕ → List ℕ → SkOwner
owner inode pid comm = record { sk_ino = inode; pid = pid; comm = comm }

-- The sockets of one process.
unfoldable pub link_owners : ℕ → List ℕ → List FdRead → List SkOwner
link_owners pid comm [] = []
link_owners pid comm (r ∷ rs) =
    let rest = link_owners pid comm rs in
    elim (link_inode r) [ none ↦ rest | some inode ↦ owner inode pid comm ∷ rest ]

-- The sockets of all processes, in the order of the walk.
unfoldable pub owners : List ProcRead → List SkOwner
unfolding link_owners
owners [] = []
owners (r ∷ rs) =
    let rest = owners rs in
    elim (process_of r) [
      | none ↦ rest
      | some (pid, dp, file) ↦ elim (get_comm file) [
        | ok (some comm) ↦ link_owners pid comm dp.links ++ rest
        | _ ↦ rest
      ]
    ]

-- Every process has a readable name that fits, and a descriptor for its directory.
unfoldable pub is_readable : List ProcRead → Bool
is_readable [] = true
is_readable (r ∷ rs) =
    let rest = is_readable rs in
    elim (process_of r) [
      | none ↦ rest
      | some (pid, dp, file) ↦ elim (get_comm file) [
        | ok (some comm) ↦ dp.dirfd_ok && rest
        | _ ↦ false
      ]
    ]

-- No name fills the buffer of `comm`.
unfoldable pub comm_fits : Run (Option (List ℕ)) → Bool
comm_fits (ok name) = true
comm_fits (fault e) = false
comm_fits waits = false

unfoldable pub fit : List ProcRead → Bool
unfolding comm_fits
fit [] = true
fit (r ∷ rs) =
    let rest = fit rs in
    elim (process_of r) [ none ↦ rest | some (pid, dp, file) ↦ comm_fits (get_comm file) && rest ]

-- What `get_comm` can do.
data CommCases (r : Run (Option (List ℕ))) : Type 0 where
  no_name : r ≡ ok none → CommCases r
  a_name : (comm : List ℕ) → r ≡ ok (some comm) → CommCases r
  too_long : comm_fits r ≡ false → CommCases r

comm_cases : (r : Run (Option (List ℕ))) → CommCases r
unfolding comm_fits
comm_cases (ok none) = no_name refl
comm_cases (ok (some comm)) = a_name comm refl
comm_cases (fault e) = too_long refl
comm_cases waits = too_long refl

-- No link names the inode 0.
abbrev pub LinksNonzero : List FdRead → Type 0
LinksNonzero [] = Unit
LinksNonzero (r ∷ rs) = (link_inode r ≢ some 0) × LinksNonzero rs

abbrev pub Nonzero : List ProcRead → Type 0
Nonzero [] = Unit
Nonzero (r ∷ rs) =
    ((pid : ℕ) (dp : FdDir) (file : Option (List ℕ))
      → process_of r ≡ some (pid, dp, file)
      → LinksNonzero dp.links)
    × Nonzero rs

unfoldable pub claim_all : List SkOwner → Owners → Owners
claim_all [] f = f
claim_all (o ∷ os) f = claim_all os (claim o f)

claim_all-append :
    (xs ys : List SkOwner) (f : Owners) → claim_all (xs ++ ys) f ≡ claim_all ys (claim_all xs f)
unfolding claim_all
claim_all-append [] ys f = refl
claim_all-append (x ∷ xs) ys f = claim_all-append xs ys (claim x f)

-- Claims in order leave each inode with the first owner in the list.
claim_all-find_owner :
    (os : List SkOwner) (f : Owners) (j : ℕ) → claim_all os f j ≡ or_else (f j) (find_owner j os)
unfolding claim_all find_owner claim or_else
claim_all-find_owner [] f j = ground arith
claim_all-find_owner (o ∷ os) f j = ground (arith, claim_all-find_owner os (claim o f) j)

-- The walk over the links of one process adds them all.
make_map_loop-Models :
    (pid : ℕ) (comm : List ℕ) (rs : List FdRead) {m : SkMap} {f : Owners}
    → LinksNonzero rs
    → Models m f
    → (m' : SkMap) × (make_map_loop (λ _. true) pid comm rs m ≡ success m')
      × Models m' (claim_all (link_owners pid comm rs) f)
unfolding make_map_loop link_owners claim_all
make_map_loop-Models pid comm [] {m} h t = (m, refl, t)
make_map_loop-Models pid comm (r ∷ rs) {m} h t = elim (Option-cases (link_inode r)) [
  | inl e ↦ rw (e, make_map_loop, link_owners) (make_map_loop-Models pid comm rs h.1 t)
  | inr (inode, e) ↦
      let (m₁, run, t₁, more) = add-Models t inode pid comm (λ z. h.0 (e ∙ ap some z)) in
      let (m₂, rest, t₂) = make_map_loop-Models pid comm rs h.1 t₁ in
      (m₂, rw (e, make_map_loop, run) rest, rw (e, link_owners) t₂)
]

-- The outcome of the whole walk.
pub record Built (rs : List ProcRead) (f : Owners) (s : Status) : Type 0 where
  pub verdict : s.failed ≡ not (is_readable rs)
  pub table : is_readable rs ≡ true → Models s.table (claim_all (owners rs) f)

module _ (r : ProcRead) (rs : List ProcRead) where
  skip : {f : Owners} {s : Status} → process_of r ≡ none → Built rs f s → Built (r ∷ rs) f s
  unfolding owners is_readable
  skip e b = record {
    verdict = rw (e, is_readable) b.verdict;
    table = rw (e, is_readable, owners) b.table;
  }

  module _ {pid : ℕ} {dp : FdDir} {file : Option (List ℕ)}
      (e : process_of r ≡ some (pid, dp, file)) where
    not_readable :
        {f : Owners} {s : Status}
        → is_readable (r ∷ rs) ≡ false
        → s.failed ≡ true
        → Built (r ∷ rs) f s
    not_readable bad failed = record { verdict = rw (bad, failed); table = λ y. cc }

    readable_no_comm : get_comm file ≡ ok none → is_readable (r ∷ rs) ≡ false
    unfolding is_readable
    readable_no_comm bad = rw (e, is_readable, bad)

    readable_comm :
        {comm : List ℕ}
        → get_comm file ≡ ok (some comm)
        → is_readable (r ∷ rs) ≡ (dp.dirfd_ok && is_readable rs)
    unfolding is_readable
    readable_comm good = rw (e, is_readable, good)

    owners_comm :
        {comm : List ℕ}
        → get_comm file ≡ ok (some comm)
        → owners (r ∷ rs) ≡ link_owners pid comm dp.links ++ owners rs
    unfolding owners
    owners_comm good = rw (e, owners, good)

    visit :
        {comm : List ℕ} {f : Owners} {s : Status}
        → get_comm file ≡ ok (some comm)
        → dp.dirfd_ok ≡ true
        → Built rs (claim_all (link_owners pid comm dp.links) f) s
        → Built (r ∷ rs) f s
    visit {comm} {f} good fd b = record {
      verdict = rw (readable_comm good, fd) b.verdict;
      table =
          rw
            (
              readable_comm good,
              fd,
              owners_comm good,
              claim_all-append (link_owners pid comm dp.links) (owners rs) f,
            )
            b.table;
    }

unfit_verdict :
    (r : Run (Option (List ℕ))) (b : Bool)
    → comm_fits r ≡ false
    → (elim r [ ok (some comm) ↦ b | _ ↦ false ]) ≡ false
unfolding comm_fits
unfit_verdict (ok name) b h = absurd (ground (arith, h))
unfit_verdict (fault e) b h = refl
unfit_verdict waits b h = refl

not_fit_not_readable :
    (r : ProcRead) (rs : List ProcRead) {pid : ℕ} {dp : FdDir} {file : Option (List ℕ)}
    → process_of r ≡ some (pid, dp, file)
    → comm_fits (get_comm file) ≡ false
    → is_readable (r ∷ rs) ≡ false
unfolding is_readable
not_fit_not_readable r rs {pid} {dp} {file} e bad =
    rw (e, is_readable) (unfit_verdict (get_comm file) (dp.dirfd_ok && is_readable rs) bad)

readable_no_fit :
    (r : ProcRead) (rs : List ProcRead) {pid : ℕ} {dp : FdDir} {file : Option (List ℕ)}
    → process_of r ≡ some (pid, dp, file)
    → comm_fits (get_comm file) ≡ false
    → fit (r ∷ rs) ≡ false
unfolding fit
readable_no_fit r rs e bad = rw (e, fit, bad)

fit-rest : (r : ProcRead) (rs : List ProcRead) → fit (r ∷ rs) ≡ true → fit rs ≡ true
unfolding fit
fit-rest r rs h = elim (Option-cases (process_of r)) [
  | inl e ↦ rw (e, fit) at h
  | inr ((pid, dp, file), e) ↦
      let both : (comm_fits (get_comm file) && fit rs) ≡ true = rw (e, fit) at h in
      ground (arith, both)
]

-- Over a valid table, with memory at hand, no link that names the inode 0 and no name of a
-- process that fills its buffer, the walk through /proc returns; it fails exactly if some process
-- has no readable name or no descriptor for its directory, and otherwise the table gained the
-- descriptors in the order of the walk.
pub build_loop-Built :
    (rs : List ProcRead) {m : SkMap} {f : Owners}
    → Nonzero rs
    → fit rs ≡ true
    → Models m f
    → (s : Status) × (build_loop (λ _. true) rs m ≡ ok s) × Built rs f s
unfolding build_loop sk_ino_make_map is_readable owners claim_all
build_loop-Built [] {m} h y t =
    (record { failed = false; table = m }, refl, record { verdict = refl; table = λ _. t })
build_loop-Built (r ∷ rs) {m} {f} h y t = elim (Option-cases (process_of r)) [
  | inl e ↦
      let (s, run, b) = build_loop-Built rs h.1 (fit-rest r rs y) t in
      (s, rw (e, build_loop) run, skip r rs e b)
  | inr ((pid, dp, file), e) ↦ elim (comm_cases (get_comm file)) [
    | too_long bad ↦ absurd (ground (arith, y, readable_no_fit r rs e bad))
    | no_name bad ↦ (
      record { failed = true; table = m },
      rw (e, build_loop, bad),
      not_readable r rs e (readable_no_comm r rs e bad) refl,
    )
    | a_name comm good ↦ elim (Bool-cases dp.dirfd_ok) [
      | inr shut ↦ (
        record { failed = true; table = m },
        rw (e, build_loop, good, shut),
        not_readable r rs e (readable_comm r rs e good ∙ rw shut) refl,
      )
      | inl fd ↦
          let (m₁, run, t₁) = make_map_loop-Models pid comm dp.links (h.0 pid dp file e) t in
          let (s, rest, b) = build_loop-Built rs h.1 (fit-rest r rs y) t₁ in
          (s, rw (e, build_loop, good, fd, run) rest, visit r rs e good fd b)
    ]
  ]
]

-- Names that are read fit.
pub is_readable-fit : (rs : List ProcRead) → is_readable rs ≡ true → fit rs ≡ true
unfolding fit is_readable comm_fits
is_readable-fit [] y = refl
is_readable-fit (r ∷ rs) y = elim (Option-cases (process_of r)) [
  | inl e ↦ rw (e, fit) (is_readable-fit rs (rw (e, is_readable) at y))
  | inr ((pid, dp, file), e) ↦ elim (comm_cases (get_comm file)) [
    | too_long bad ↦ absurd (ground (arith, y, not_fit_not_readable r rs e bad))
    | no_name bad ↦ absurd (ground (arith, y, readable_no_comm r rs e bad))
    | a_name comm good ↦
        let rest : is_readable rs ≡ true = ground (arith, y, readable_comm r rs e good) in
        rw (e, fit, good) (is_readable-fit rs rest)
  ]
]

-- The table that `build_sk_proc_map` leaves when all processes are readable gives each socket to
-- the first descriptor on it, in the order of the walk.
pub build-find_owner :
    (rs : List ProcRead) {m : SkMap}
    → Nonzero rs
    → Models m (λ _. none)
    → is_readable rs ≡ true
    → (m' : SkMap) × (build_loop (λ _. true) rs m ≡ success m')
      × ((j : ℕ) → lookup_socket_owner m' j ≡ ok (find_owner j (owners rs)))
unfolding or_else
build-find_owner rs h t y =
    let (s, run, b) = build_loop-Built rs h (is_readable-fit rs y) t in
    let won : s.failed ≡ false = rw (b.verdict, y) in
    (
      s.table,
      run ∙ ap (λ (x : Bool). ok (record { failed = x; table = s.table })) won,
      λ j. (b.table y).reads j ∙ ap ok (claim_all-find_owner (owners rs) (λ _. none) j),
    )

proc_bit : (ext : ℕ) → has_ext (bit_or ext (2 ^ inet_diag_proc)) inet_diag_proc ≡ true
unfolding has_ext
proc_bit ext = ground (
  arith,
  bit_and-pow_eq_zero 24 (bit_or ext (2 ^ 24)),
  test_bit-bit_or 24 ext (2 ^ 24),
  test_bit-pow 24 24,
)

-- With PROC requested, memory at hand, an empty table, no link that names the inode 0 and every
-- process readable, build_sk_proc_map succeeds, marks the attribute as received, and a lookup of
-- any inode gives the first descriptor on it in the order of the walk.
pub build_sk_proc_map-find_owner :
    (ext_req ext_rcv : ℕ) (rs : List ProcRead) {m : SkMap}
    → ext_is_set ext_req inet_diag_proc ≡ true
    → Nonzero rs
    → Models m (λ _. none)
    → is_readable rs ≡ true
    → (b : Build) × (build_sk_proc_map ext_req ext_rcv (λ _. true) rs m ≡ ok b)
      × (b.status.failed ≡ false)
      × (has_ext b.ext_rcv inet_diag_proc ≡ true)
      × ((j : ℕ) → lookup_socket_owner b.status.table j ≡ ok (find_owner j (owners rs)))
unfolding build_sk_proc_map
build_sk_proc_map-find_owner ext_req ext_rcv rs e h t y =
    let (m', run, reads) = build-find_owner rs h t y in
    (
      finish ext_rcv (record { failed = false; table = m' }),
      rw (e, run),
      refl,
      proc_bit ext_rcv,
      reads,
    )

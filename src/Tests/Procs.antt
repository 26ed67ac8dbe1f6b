-- ===== src/Tests/Procs.antt =====
-- The table of sockets.
use mathlib.Core.Path.{subst}
use sockmon.Base.{
  ℕ, ◌+◌, ◌≤◌, ◌^◌, ◌≡◌, ◌≢◌, refl, ap, arith, true, false, some, none, Option, List, [], ◌∷◌, ok,
  fault, bad_shift,
}
use sockmon.Field.{ext_is_set, has_ext, inet_diag_proc}
use sockmon.Proc.{
  Status, SkMap, SkOwner, initial, success, add_sk_ino, find_owner, lookup_socket_owner,
  free_sk_proc_map,
}
use sockmon.Proc.Lookup.{claim, Models, add-Models}
use sockmon.Proc.Free.{IsLeastShift, next_shift, initial-Models, free-resized, free-small}
use sockmon.Proc.Scan.{
  FdRead, FdDir, ProcRead, fd_entry, proc_entry, get_comm, process_of, link_inode, build_loop,
  Build, build_sk_proc_map,
}
use sockmon.Proc.Scan.Walk.{
  owners, is_readable, comm_fits, fit, Nonzero, LinksNonzero, Built, build_loop-Built,
  build_sk_proc_map-find_owner,
}

abbrev owner : SkOwner
owner = record { sk_ino = 77; pid = 12; comm = b'a' ∷ [] }

abbrev other : SkOwner
other = record { sk_ino = 78; pid = 13; comm = b'b' ∷ [] }

add-Models_example :
    (m' : SkMap) × (add_sk_ino true initial 77 12 (b'a' ∷ []) ≡ success m')
    × Models m' (claim owner (λ _. none))
    × (m'.nr_sockets ≡ initial.nr_sockets + 1)
add-Models_example = add-Models initial-Models 77 12 (b'a' ∷ []) (omega arith)

initial_empty : initial.nr_sockets ≤ 1
unfolding initial
initial_empty = omega arith

free-small_example :
    (m' : SkMap) × (free_sk_proc_map true true true initial ≡ success m')
    × ((j : ℕ) → j ≢ 0 → lookup_socket_owner m' j ≡ fault bad_shift)
free-small_example = free-small initial-Models initial_empty

-- /proc/12/fd holds `socket:[77]`.
abbrev link : FdRead
link =
    fd_entry true
      (some (b's' ∷ b'o' ∷ b'c' ∷ b'k' ∷ b'e' ∷ b't' ∷ b':' ∷ b'[' ∷ b'7' ∷ b'7' ∷ b']' ∷ []))

abbrev dir : FdDir
dir = record { dirfd_ok = true; links = link ∷ [] }

abbrev pub procs : List ProcRead
procs = proc_entry true (b'1' ∷ b'2' ∷ []) (some dir) (some (b'a' ∷ 10 ∷ [])) ∷ []

link_77 : link_inode link ≡ some 77
unfolding link_inode
link_77 = refl

-- Two sockets in the table.
two : (m : SkMap) × Models m (claim other (claim owner (λ _. none))) × (m.nr_sockets ≡ 2)
unfolding claim initial
two =
    let (m₁, run₁, t₁, n₁) = add-Models initial-Models 77 12 (b'a' ∷ []) (omega arith) in
    let (m₂, run₂, t₂, n₂) = add-Models t₁ 78 13 (b'b' ∷ []) (omega arith) in
    (m₂, t₂, omega (arith, n₁, n₂))

free-resized_example :
    (m' : SkMap) × (free_sk_proc_map true true true two.0 ≡ success m')
    × Models m' (λ _. none)
    × IsLeastShift 0 two.0.nr_sockets (next_shift two.0)
    × (m'.map_hash_sz ≡ 2 ^ next_shift two.0)
free-resized_example = free-resized two.1 (omega (arith, two.2)) (omega (arith, two.2))

dir_of : Option (ℕ × FdDir × Option (List ℕ)) → FdDir
dir_of none = dir
dir_of (some (pid, dp, file)) = dp

dir_is :
    {pid : ℕ} {dp : FdDir} {file : Option (List ℕ)}
    → process_of (proc_entry true (b'1' ∷ b'2' ∷ []) (some dir) (some (b'a' ∷ 10 ∷ [])))
      ≡ some (pid, dp, file)
    → dir ≡ dp
unfolding process_of dir_of
dir_is e = ap dir_of e

pub procs-Nonzero : Nonzero procs
procs-Nonzero = (
  λ pid dp file e.
      subst (λ (d : FdDir). LinksNonzero d.links) (dir_is e)
        (λ z. absurd (ground (arith, link_77, z)), tt),
  tt,
)

procs_fit : fit procs ≡ true
unfolding fit process_of get_comm comm_fits
procs_fit = refl

pub procs_readable : is_readable procs ≡ true
unfolding is_readable process_of get_comm
procs_readable = refl

asked : ext_is_set (2 ^ 23) inet_diag_proc ≡ true
unfolding ext_is_set
asked = refl

build_sk_proc_map-find_owner_example :
    (b : Build) × (build_sk_proc_map (2 ^ 23) 0 (λ _. true) procs initial ≡ ok b)
    × (b.status.failed ≡ false)
    × (has_ext b.ext_rcv inet_diag_proc ≡ true)
    × ((j : ℕ) → lookup_socket_owner b.status.table j ≡ ok (find_owner j (owners procs)))
build_sk_proc_map-find_owner_example =
    build_sk_proc_map-find_owner (2 ^ 23) 0 procs asked procs-Nonzero initial-Models procs_readable

build_loop-Built_example :
    (s : Status) × (build_loop (λ _. true) procs initial ≡ ok s) × Built procs (λ _. none) s
build_loop-Built_example = build_loop-Built procs procs-Nonzero procs_fit initial-Models

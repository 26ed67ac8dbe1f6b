-- ===== src/Proc.antt =====
-- src/proc.c: the hash table from socket inodes to their owners. A chain of `struct sk_owner` is a
-- list; `sk_ino_hb` is the list of its chains, and the empty list stands for a NULL `sk_ino_hb`, so
-- that every access through it is a fault.
pub mod Hash
pub mod Lookup
pub mod Free
pub mod Path
pub mod Scan
use Prim.Native.Nat.{bit_and}
use sockmon.Base.{
  ℕ, zero, suc, ◌+◌, ◌-◌, ◌*◌, ◌/◌, ◌%◌, ◌^◌, Bool, true, false, not, ◌&&◌, Option, none, some,
  List, [], ◌∷◌, ◌++◌, ltb, ◌==◌, if◌then◌else◌, length, set, replicate, Run, ok, fault, bad_shift,
  out_of_bounds, ◌>>=◌, at,
}

-- `unsigned int` wraps.
abbrev pub u32 : ℕ → ℕ
u32 n = n % 2 ^ 32

abbrev pub hash_multiplier : ℕ
hash_multiplier = 2654435761

pub record SkOwner : Type 0 where
  pub sk_ino : ℕ
  pub pid : ℕ
  pub comm : List ℕ

-- The file's static variables.
pub record SkMap : Type 0 where
  pub map_hash_sz : ℕ
  pub map_hash_shift : ℕ
  pub sk_ino_hb : List (List SkOwner)
  pub nr_sockets : ℕ

-- `x >> n` on an `unsigned int`: a shift by 32 or more is undefined.
abbrev pub shift_right : ℕ → ℕ → Run ℕ
shift_right x n = if ltb n 32 then ok (x / 2 ^ n) else fault bad_shift

unfoldable pub sk_ino_hash : SkMap → ℕ → Run ℕ
sk_ino_hash m inode = shift_right (u32 (inode * hash_multiplier)) (32 - m.map_hash_shift)

-- The walk along one chain.
unfoldable pub find_owner : ℕ → List SkOwner → Option SkOwner
find_owner inode [] = none
find_owner inode (o ∷ os) = if o.sk_ino == inode then some o else find_owner inode os

-- The owner, whose `pid` and `comm` the caller's pointers receive; `none` is FALSE.
unfoldable pub lookup_socket_owner : SkMap → ℕ → Run (Option SkOwner)
unfolding find_owner
lookup_socket_owner m inode =
    if inode == 0
    then ok none
    else (do h ← sk_ino_hash m inode; chain ← at m.sk_ino_hb h; ok (find_owner inode chain))

-- The result 0 or 1 of a function, with the table that it leaves.
pub record Status : Type 0 where
  pub failed : Bool
  pub table : SkMap

abbrev pub success : SkMap → Run Status
success m = ok (record { failed = false; table = m })

abbrev pub failure : SkMap → Run Status
failure m = ok (record { failed = true; table = m })

-- `alloc` says whether `calloc` returns memory. A new node goes to the end of its chain.
unfoldable pub add_sk_ino : Bool → SkMap → ℕ → ℕ → List ℕ → Run Status
add_sk_ino alloc m inode pid comm = do
  found ← lookup_socket_owner m inode
  elim found [
    | some _ ↦ success m
    | none ↦
        if alloc
        then (do
          h ← sk_ino_hash m inode
          chain ← at m.sk_ino_hb h
          let o : SkOwner = record { sk_ino = inode; pid = pid; comm = comm }
          success (record m {
            sk_ino_hb = set m.sk_ino_hb h (chain ++ o ∷ []);
            nr_sockets = m.nr_sockets + 1;
          }))
        else failure m
  ]

-- `for (i = 0; (1U << i) < nr_sockets; ++i)` from `i`, on the rounds left.
unfoldable pub size_shift : ℕ → ℕ → ℕ → ℕ
size_shift zero i n = i
size_shift (suc k) i n = let rest = size_shift k (i + 1) n in if ltb (2 ^ i) n then rest else i

-- The loop over the buckets `i < map_hash_sz`, on the rounds left: each node is freed and counted
-- off, and the bucket is emptied. `nr_sockets` counts the nodes, so it does not fall below 0.
unfoldable pub free_chains : ℕ → List (List SkOwner) → ℕ → Run (List (List SkOwner) × ℕ)
free_chains zero hb n = ok (hb, n)
free_chains (suc k) [] n = fault out_of_bounds
free_chains (suc k) (c ∷ cs) n = do
  (rest, left) ← free_chains k cs (n - length c)
  ok ([] ∷ rest, left)

-- The table that replaces one whose buckets were emptied. After a failed `calloc` it is NULL.
unfoldable pub resize_to : Bool → ℕ → SkMap → Status
resize_to alloc i m =
    if alloc
    then record {
      failed = false;
      table = record m {
        sk_ino_hb = replicate (2 ^ i) [];
        map_hash_sz = 2 ^ i;
        map_hash_shift = i;
      };
    }
    else record { failed = true; table = record m { sk_ino_hb = [] } }

-- `requested` is the test of INET_DIAG_PROC in `n->ext_req`.
unfoldable pub free_sk_proc_map : Bool → Bool → Bool → SkMap → Run Status
free_sk_proc_map requested resize alloc m = if not requested then success m else (do
  let i = size_shift 31 0 m.nr_sockets
  (hb, left) ← free_chains m.map_hash_sz m.sk_ino_hb m.nr_sockets
  let emptied = record m { sk_ino_hb = hb; nr_sockets = left }
  (if resize && not (m.map_hash_sz == 2 ^ i)
      then ok (resize_to alloc i emptied)
      else success emptied))

-- The statics' initial values, with the table that `proc_init` allocates.
unfoldable pub initial : SkMap
initial = record {
  map_hash_sz = 1024;
  map_hash_shift = 10;
  sk_ino_hb = replicate 1024 [];
  nr_sockets = 0;
}

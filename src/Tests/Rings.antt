-- ===== src/Tests/Rings.antt =====
-- Rings of connections in memory.
use sockmon.Base.{◌≡◌, refl, arith, true, not, ◌&&◌, some, List, [], ◌∷◌, ◌==◌, if◌then◌else◌, ok}
use sockmon.Conn.{Conn}
use sockmon.ConnList.{add_conn_info, add_all}
use sockmon.Field.{has_ext}
use sockmon.ListHead.{Ptr, Heap, ◌>>=◌, init_list_head}
use sockmon.ListHead.Entries.{add_entries, release}
use sockmon.ListHead.Entries.Added.{Refines, add_entry-Became}
use sockmon.ListHead.Entries.Lifetime.{lifetime-Released}
use sockmon.ListHead.Ring.{Entries, has, IsRing}
use sockmon.Sort.{sort_func}
use sockmon.Tests.Samples.{abi, column, conn, bare}

-- The head at 7, which alone is live.
abbrev fresh : Heap
fresh = record { next = λ _. 0; prev = λ _. 0; conn = λ _. bare 0; live = λ a. a == 7 }

abbrev dumped : Entries
dumped = (1, conn 3) ∷ (2, bare 9) ∷ (3, conn 1) ∷ []

abbrev sorted : List Conn
sorted = conn 1 ∷ conn 3 ∷ bare 9 ∷ []

dumped_sorted : add_all abi (some (column 0)) true (conn 3 ∷ bare 9 ∷ conn 1 ∷ []) [] ≡ ok sorted
unfolding add_all has_ext sort_func
dumped_sorted = refl

lifetime-Released_example :
    (h : Heap) × ((init_list_head 7 >>= λ _.
    add_entries abi (some (column 0)) true 9 7 dumped >>= λ _. release 9 7)
        fresh
      ≡ ok (sorted, h))
    × IsRing h 7 []
    × ((a : Ptr) → h.live a ≡ (not (has a dumped) && (a == 7)))
lifetime-Released_example =
    lifetime-Released abi (some (column 0)) true 9 7 fresh dumped sorted refl
      (refl, (refl, (refl, tt))) refl (omega arith) dumped_sorted

-- The head at 7 with one entry at 1; the connection at 2 is not in the ring yet.
abbrev single : Heap
single = record {
  next = λ a. if a == 1 then 7 else 1;
  prev = λ a. if a == 1 then 7 else 1;
  conn = λ a. if a == 1 then conn 3 else conn 1;
  live = λ _. true;
}

single-IsRing : IsRing single 7 ((1, conn 3) ∷ [])
single-IsRing = record {
  chain = (refl, refl, refl, refl, (refl, refl));
  distinct = (refl, tt);
  apart = refl;
  live = refl;
}

single_sorted :
    add_conn_info abi (some (column 0)) true (conn 1) (conn 3 ∷ []) ≡ ok (conn 1 ∷ conn 3 ∷ [])
unfolding add_conn_info has_ext sort_func
single_sorted = refl

add_entry-Became_example :
    Refines single 7 2 refl
      (λ e. absurd (omega (arith, e)))
      abi
      true
      2
      (some (column 0))
      ((1, conn 3) ∷ [])
      (conn 1 ∷ conn 3 ∷ [])
add_entry-Became_example =
    add_entry-Became single 7 2 refl (λ e. absurd (omega (arith, e))) abi true 2 (some (column 0))
      ((1, conn 3) ∷ []) single-IsRing refl (omega arith) single_sorted

-- ===== src/ListHead/Ring/Remove.antt =====
-- src/list.h: `list_del` on a ring, for the first entry, whose memory is given back.
use sockmon.Base.{◌≡◌, ◌≢◌, arith, false, [], ◌∷◌}
use sockmon.Conn.{Conn}
use sockmon.ListHead.{Ptr, Heap, update}
use sockmon.ListHead.Ring.{Entries, has, Chain, IsRing}

-- The heap after `list_del p` and `conn_info_free p`.
abbrev pub released : Heap → Ptr → Heap
released h p = record h {
  next = update h.next (h.prev p) (h.next p);
  prev = update h.prev (h.next p) (h.prev p);
  live = update h.live p false;
}

module _ (h : Heap) (head p : Ptr) where
  released-behind :
      (a q b : Ptr) (xs : Entries)
      → Chain h a xs b
      → h.next p ≡ q
      → h.prev p ≡ head
      → a ≢ head
      → has head xs ≡ false
      → has p xs ≡ false
      → has q xs ≡ false
      → b ≢ q
      → Chain (released h p) a xs b
  released-behind a q b [] ch en ep n1 n2 n3 n4 n5 = (ground arith, ground arith)
  released-behind a q b ((r, c) ∷ xs) ch en ep n1 n2 n3 n4 n5 = (
    ground arith,
    ground arith,
    ch.2,
    ground arith,
    released-behind r q b xs ch.4 en ep (ground arith) (ground arith) (ground arith) (ground arith)
        n5,
  )

  released-Chain :
      (c : Conn) (xs : Entries) → IsRing h head ((p, c) ∷ xs) → Chain (released h p) head xs head
  released-Chain c [] r = (ground (arith, r.chain), ground (arith, r.chain))
  released-Chain c ((q, d) ∷ xs) r =
      let ch = r.chain.4 in
      let apart = r.apart in
      let distinct = r.distinct in
      (
        ground (arith, r.chain),
        ground (arith, r.chain),
        ch.2,
        ground arith,
        released-behind q q head xs ch.4 ch.0 r.chain.1 (ground arith) (ground arith) (ground arith)
            (ground arith) (ground arith),
      )

  -- Taking the first entry off and giving its memory back leaves the ring of the others.
  pub released-IsRing :
      (c : Conn) (xs : Entries) → IsRing h head ((p, c) ∷ xs) → IsRing (released h p) head xs
  released-IsRing c xs r = record {
    chain = released-Chain c xs r;
    distinct = r.distinct.1;
    apart = ground (arith, r.apart);
    live = ground (arith, r.apart, r.live);
  }

-- ===== src/ListHead/Ring/Insert.antt =====
-- src/list.h: `list_add_tail` on a ring.
use sockmon.Base.{◌≡◌, ◌≢◌, arith, true, false, [], ◌∷◌, ◌++◌, ok}
use sockmon.Conn.{Conn}
use sockmon.ListHead.{
  Ptr, Heap, update, set_next, set_prev, get_prev, list_add_between, list_add_tail,
}
use sockmon.ListHead.Ring.{Entries, has, first, Distinct, Chain, IsRing, has-append}

Distinct-insert :
    (new : Ptr) (ci : Conn) (front rest : Entries)
    → Distinct (front ++ rest)
    → has new (front ++ rest) ≡ false
    → Distinct (front ++ (new, ci) ∷ rest)
Distinct-insert new ci [] rest d out = (out, d)
Distinct-insert new ci ((p, c) ∷ front) rest d out = (
  ground (arith, has-append p front rest, has-append p front ((new, ci) ∷ rest)),
  Distinct-insert new ci front rest d.1 (ground arith),
)

-- The heap after `list_add_tail new pos`.
abbrev pub added : Heap → (new pos : Ptr) → Heap
added h new pos = record h {
  next = update (update h.next new pos) (h.prev pos) new;
  prev = update (update h.prev pos new) new (h.prev pos);
}

module _ (h : Heap) where
  pub list_add_tail-added :
      (new pos : Ptr)
      → h.live new ≡ true
      → h.live pos ≡ true
      → h.live (h.prev pos) ≡ true
      → list_add_tail new pos h ≡ ok (tt, added h new pos)
  unfolding list_add_tail list_add_between get_prev set_next set_prev
  list_add_tail-added new pos ln lp lq = rw (lp, lp, ln, ln, lq)

  -- An address outside a chain is not the one before its inner links.
  ne_prev :
      (a q : Ptr) (front rest : Entries) (b : Ptr)
      → Chain h q (front ++ rest) b
      → a ≢ q
      → has a (front ++ rest) ≡ false
      → a ≢ h.prev (first rest b)
  ne_prev a q [] [] b ch ne out = ground arith
  ne_prev a q [] ((p, c) ∷ rest) b ch ne out = ground arith
  ne_prev a q ((p, c) ∷ front) rest b ch ne out =
      ne_prev a p front rest b ch.4 (ground arith) (ground arith)

  prev-live :
      (q : Ptr) (front rest : Entries) (b : Ptr)
      → Chain h q (front ++ rest) b
      → h.live q ≡ true
      → h.live (h.prev (first rest b)) ≡ true
  prev-live q [] [] b ch l = ground arith
  prev-live q [] ((p, c) ∷ rest) b ch l = ground arith
  prev-live q ((p, c) ∷ front) rest b ch l = prev-live p front rest b ch.4 ch.3

  module _ (new pos : Ptr) where
    -- A chain behind the place keeps its links.
    added-behind :
        (a b : Ptr) (xs : Entries)
        → Chain h a xs b
        → a ≢ h.prev pos
        → has (h.prev pos) xs ≡ false
        → a ≢ new
        → has new xs ≡ false
        → b ≢ new
        → has pos xs ≡ false
        → b ≢ pos
        → Chain (added h new pos) a xs b
    added-behind a b [] ch n1 n2 n3 n4 n5 n6 n7 = (ground arith, ground arith)
    added-behind a b ((p, c) ∷ xs) ch n1 n2 n3 n4 n5 n6 n7 = (
      ground arith,
      ground arith,
      ch.2,
      ch.3,
      added-behind p b xs ch.4 (ground arith) (ground arith) (ground arith) (ground arith) n5
          (ground arith) n7,
    )

  module _ (new : Ptr) (ci : Conn) (of_new : h.conn new ≡ ci) (live_new : h.live new ≡ true) where
    added-Chain :
        (a : Ptr) (front rest : Entries) (b : Ptr)
        → Chain h a (front ++ rest) b
        → Distinct (front ++ rest)
        → has a (front ++ rest) ≡ false
        → has b (front ++ rest) ≡ false
        → has new (front ++ rest) ≡ false
        → a ≢ new
        → b ≢ new
        → Chain (added h new (first rest b)) a (front ++ (new, ci) ∷ rest) b
    added-Chain a [] [] b ch d na nb nn n1 n2 =
        (ground arith, ground arith, of_new, live_new, (ground arith, ground arith))
    added-Chain a [] ((p, c) ∷ rest) b ch d na nb nn n1 n2 = (
      ground arith,
      ground arith,
      of_new,
      live_new,
      (
        ground arith,
        ground arith,
        ch.2,
        ch.3,
        added-behind new p p b rest ch.4 (ground arith) (rw ch.1 (ground arith)) (ground arith)
            (ground arith) n2 d.0 (ground arith),
      ),
    )
    added-Chain a ((q, d) ∷ front) rest b ch ds na nb nn n1 n2 =
        let far = ne_prev a q front rest b ch.4 (ground arith) (ground arith) in
        (
          ground arith,
          ground (arith, has-append q front rest),
          ch.2,
          ch.3,
          added-Chain q front rest b ch.4 ds.1 ds.0 (ground arith) (ground arith) (ground arith) n2,
        )

    first-live :
        (a : Ptr) (front rest : Entries) (b : Ptr)
        → Chain h a (front ++ rest) b
        → h.live b ≡ true
        → h.live (first rest b) ≡ true
    first-live a [] [] b ch l = l
    first-live a [] ((p, c) ∷ rest) b ch l = ch.3
    first-live a ((q, d) ∷ front) rest b ch l = first-live q front rest b ch.4 l

    -- `list_add_tail` before an entry, or before the head, puts the new entry in its place.
    pub list_add_tail-IsRing :
        (front rest : Entries) {head : Ptr}
        → IsRing h head (front ++ rest)
        → has new (front ++ rest) ≡ false
        → head ≢ new
        → (list_add_tail new (first rest head) h ≡ ok (tt, added h new (first rest head)))
          × IsRing (added h new (first rest head)) head (front ++ (new, ci) ∷ rest)
    list_add_tail-IsRing front rest {head} r out ne = (
      list_add_tail-added new (first rest head) live_new
          (first-live head front rest head r.chain r.live)
          (prev-live head front rest head r.chain r.live),
      record {
        chain = added-Chain head front rest head r.chain r.distinct r.apart r.apart out ne ne;
        distinct = Distinct-insert new ci front rest r.distinct out;
        apart =
            ground (
              arith,
              r.apart,
              has-append head front rest,
              has-append head front ((new, ci) ∷ rest),
            );
        live = r.live;
      },
    )

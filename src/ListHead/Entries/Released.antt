-- ===== src/ListHead/Entries/Released.antt =====
-- src/draw.c and src/main.c: the loop that takes the entries off the ring and frees them.
use sockmon.Base.{
  ℕ, zero, suc, ◌<◌, ◌≡◌, ◌∙◌, refl, arith, true, false, not, ◌&&◌, [], ◌∷◌, ◌==◌, length, ok,
}
use sockmon.Conn.{Conn}
use sockmon.ListHead.{
  update, ◌>>=◌, pure, Ptr, Heap, get_next, get_prev, set_next, set_prev, get_conn, list_del,
  list_del_between, conn_info_free,
}
use sockmon.ListHead.Entries.{release_loop, release}
use sockmon.ListHead.Ring.{Entries, conns, has, first, IsRing, next-first}
use sockmon.ListHead.Ring.Remove.{released, released-IsRing}

-- The ring is empty, the entries' memory was given back, and all other memory is as it was.
pub record Released (h : Heap) (head : Ptr) (xs : Entries) (h' : Heap) : Type 0 where
  pub ring : IsRing h' head []
  pub live : (a : Ptr) → h'.live a ≡ (not (has a xs) && h.live a)

-- The heap after `list_del p`.
abbrev removed : Heap → Ptr → Heap
removed h p = record h {
  next = update h.next (h.prev p) (h.next p);
  prev = update h.prev (h.next p) (h.prev p);
}

module _ {h : Heap} {head p : Ptr} {c : Conn} {xs : Entries} (r : IsRing h head ((p, c) ∷ xs)) where
  list_del-removed : list_del p h ≡ ok (tt, removed h p)
  unfolding list_del get_prev get_next list_del_between set_next set_prev
  list_del-removed =
      let live = r.chain.3 in
      let after = next-first h xs r.chain.4 r.live in
      let next_live : h.live (h.next p) ≡ true = ground (arith, after) in
      let prev_live : h.live (h.prev p) ≡ true = ground (arith, r.live, r.chain.1) in
      rw (live, live, next_live, prev_live)

  -- One round: the body and the step to the entry after it.
  release_step :
      (k : ℕ)
      → release_loop (suc k) head p (h.next p) h
        ≡ (release_loop k head (first xs head) ((released h p).next (first xs head)) >>= λ rest.
              pure (c ∷ rest))
            (released h p)
  unfolding release_loop get_conn conn_info_free get_next
  release_step k =
      let apart : (p == head) ≡ false = ground (arith, r.apart) in
      let live = r.chain.3 in
      let is_next = (next-first h xs r.chain.4 r.live).0 in
      let left = released-IsRing h head p c xs r in
      let still = (next-first (released h p) xs left.chain left.live).1 in
      rw (apart, live, list_del-removed, live, is_next, still, r.chain.2)

release_end : (k : ℕ) (head n : Ptr) (h : Heap) → release_loop (suc k) head head n h ≡ ok ([], h)
unfolding release_loop
release_end k head n h = let here : (head == head) ≡ true = ground arith in rw here

-- The loop meets the connections in order, and none after its memory was given back.
release_loop-Released :
    (k : ℕ) (h : Heap) (head : Ptr) (xs : Entries)
    → IsRing h head xs
    → length xs < k
    → (h' : Heap) × (release_loop k head (first xs head) (h.next (first xs head)) h
        ≡ ok (conns xs, h'))
      × Released h head xs h'
release_loop-Released zero h head xs r lt = absurd (omega arith)
release_loop-Released (suc k) h head [] r lt =
    (h, release_end k head (h.next head) h, record { ring = r; live = λ a. refl })
release_loop-Released (suc k) h head ((p, c) ∷ xs) r lt =
    let (h', done, rest) =
      release_loop-Released k (released h p) head xs (released-IsRing h head p c xs r)
        (omega arith) in
    (
      h',
      release_step r k ∙ rw done refl,
      record { ring = rest.ring; live = λ a. ground (arith, rest.live a) },
    )

-- Enough fuel, and the list is taken off in order: the ring is empty after it.
pub release-Released :
    (k : ℕ) (h : Heap) (head : Ptr) (xs : Entries)
    → IsRing h head xs
    → length xs < k
    → (h' : Heap) × (release k head h ≡ ok (conns xs, h')) × Released h head xs h'
unfolding release get_next
release-Released k h head xs r lt =
    let (start, live) = next-first h xs r.chain r.live in
    let (h', done, is) = release_loop-Released k h head xs r lt in
    (h', rw (r.live, start, live) done, is)

-- ===== src/ListHead/Entries/Lifetime.antt =====
-- src/draw.c and src/main.c: the list from `INIT_LIST_HEAD` over the connections of a dump to the loop
-- that frees them.
use sockmon.Base.{
  ℕ, ◌+◌, ◌<◌, ◌≡◌, ◌∙◌, refl, ap, arith, Bool, true, false, not, ◌&&◌, ◌||◌, Option, List, [], ◌∷◌,
  ◌==◌, length, ok, ok-injective, >>=-ok,
}
use sockmon.Conn.{Conn}
use sockmon.ConnList.{add_conn_info, add_all}
use sockmon.Field.{Field}
use sockmon.Field.Table.Layout.{Abi}
use sockmon.ListHead.{Ptr, Heap, update, ◌>>=◌, conn_info_alloc, init_list_head, set_next, set_prev}
use sockmon.ListHead.Entries.{add_entries, release}
use sockmon.ListHead.Entries.Added.{add_entry-Became}
use sockmon.ListHead.Entries.Released.{release-Released}
use sockmon.ListHead.Ring.{Entries, Chain, conns, has, Distinct, IsRing}

-- The heap after `conn_info_alloc p` with the members written.
abbrev given : Heap → Ptr → Conn → Heap
given h p ci = record h { conn = update h.conn p ci; live = update h.live p true }

given-Chain :
    (h : Heap) (p : Ptr) (ci : Conn) (a : Ptr) (xs : Entries) (b : Ptr)
    → Chain h a xs b
    → has p xs ≡ false
    → Chain (given h p ci) a xs b
given-Chain h p ci a [] b ch out = ch
given-Chain h p ci a ((q, c) ∷ xs) b ch out =
    (ch.0, ch.1, ground arith, ground arith, given-Chain h p ci q xs b ch.4 (ground arith))

given-IsRing :
    {h : Heap} {head : Ptr} {xs : Entries} (p : Ptr) (ci : Conn)
    → IsRing h head xs
    → has p xs ≡ false
    → IsRing (given h p ci) head xs
given-IsRing {h} {head} {xs} p ci r out = record {
  chain = given-Chain h p ci head xs head r.chain out;
  distinct = r.distinct;
  apart = r.apart;
  live = ground (arith, r.live);
}

alloc-conn {ℓ} :
    {A : Type ℓ} (h : Heap) (p : Ptr) (ci : Conn) (f : Conn → A) → f ((given h p ci).conn p) ≡ f ci
alloc-conn h p ci f = let here : (p == p) ≡ true = ground arith in rw here

init_list_head-IsRing :
    (h : Heap) (head : Ptr)
    → h.live head ≡ true
    → (h' : Heap) × (init_list_head head h ≡ ok (tt, h')) × IsRing h' head [] × (h'.live ≡ h.live)
unfolding init_list_head set_next set_prev
init_list_head-IsRing h head live = (
  record h { next = update h.next head head; prev = update h.prev head head },
  rw (live, live),
  record { chain = (ground arith, ground arith); distinct = tt; apart = refl; live = live },
  refl,
)

-- The ring got the connections `cs`, and shows `l`.
record Filled (h : Heap) (head : Ptr) (cs xs : Entries) (l : List Conn) (h' : Heap) : Type 0 where
  entries : Entries
  ring : IsRing h' head entries
  shows : conns entries ≡ l
  members : (a : Ptr) → has a entries ≡ (has a cs || has a xs)
  count : length entries ≡ length cs + length xs
  live : (a : Ptr) → h'.live a ≡ (has a cs || h.live a)

module _ (abi : Abi) (key : Option Field) (ascending : Bool) (fuel : ℕ) (head : Ptr) where
  add_entries-Filled :
      (h : Heap) (cs xs : Entries) (l : List Conn)
      → IsRing h head xs
      → Distinct cs
      → ((a : Ptr) → has a cs ≡ true → has a xs ≡ false)
      → has head cs ≡ false
      → length cs + length xs < fuel
      → add_all abi key ascending (conns cs) (conns xs) ≡ ok l
      → (h' : Heap) × (add_entries abi key ascending fuel head cs h ≡ ok (tt, h'))
        × Filled h head cs xs l h'
  unfolding add_entries conn_info_alloc add_all
  add_entries-Filled h [] xs l r d apart away enough e = (
    h,
    refl,
    record {
      entries = xs;
      ring = r;
      shows = ok-injective e;
      members = λ a. refl;
      count = omega arith;
      live = λ a. refl;
    },
  )
  add_entries-Filled h ((p, ci) ∷ cs) xs l r d apart away enough e =
      let (l₁, one, rest) =
        >>=-ok (add_conn_info abi key ascending ci (conns xs))
          (add_all abi key ascending (conns cs)) e in
      let out : has p xs ≡ false = apart p (ground arith) in
      let ring = given-IsRing p ci r out in
      let (h₁, done, became) =
        add_entry-Became (given h p ci) head p (ground arith) (ground arith) abi ascending fuel key
          xs ring out (omega arith)
          (alloc-conn h p ci (λ c. add_conn_info abi key ascending c (conns xs)) ∙ one) in
      let (h', all, filled) =
        add_entries-Filled h₁ cs became.entries l became.ring d.1
          (λ a i. ground (arith, apart a, became.members a)) (ground arith)
          (omega (arith, became.count))
          (ap (add_all abi key ascending (conns cs)) became.shows ∙ rest) in
      (
        h',
        rw done all,
        record {
          entries = filled.entries;
          ring = filled.ring;
          shows = filled.shows;
          members = λ a. ground (arith, filled.members a, became.members a);
          count = omega (arith, filled.count, became.count);
          live = λ a. ground (arith, filled.live a, ap (λ (f : Ptr → Bool). f a) became.live);
        },
      )

  -- From a head in memory, with connections at addresses of their own, enough fuel for one round
  -- on each of them, and where adding them to the empty list returns, initialising the head,
  -- adding the connections on the ring and taking them off again does not touch memory that was
  -- given back; the loop meets the connections in the order of that list, the ring is empty after
  -- it, and exactly the memory of the connections has been given back.
  pub lifetime-Released :
      (h : Heap) (cs : Entries) (l : List Conn)
      → h.live head ≡ true
      → Distinct cs
      → has head cs ≡ false
      → length cs < fuel
      → add_all abi key ascending (conns cs) [] ≡ ok l
      → (h' : Heap) × ((init_list_head head >>= λ _.
              add_entries abi key ascending fuel head cs >>= λ _. release fuel head)
            h
          ≡ ok (l, h'))
        × IsRing h' head []
        × ((a : Ptr) → h'.live a ≡ (not (has a cs) && h.live a))
  lifetime-Released h cs l live d away enough e =
      let (h₀, begun, ring, same) = init_list_head-IsRing h head live in
      let (h₁, added, filled) =
        add_entries-Filled h₀ cs [] l ring d (λ a i. refl) away (omega arith) e in
      let (h', done, is) =
        release-Released fuel h₁ head filled.entries filled.ring (omega (arith, filled.count)) in
      (
        h',
        rw (begun, added) (done ∙ ap (λ c. ok (c, h')) filled.shows),
        is.ring,
        λ a.
            ground (
              arith,
              is.live a,
              filled.live a,
              filled.members a,
              ap (λ (f : Ptr → Bool). f a) same,
            ),
      )

-- ===== src/ListHead/Entries/Sorted.antt =====
-- src/draw.c: `add_conn_info` on the ring does what it does on the list of connections.
use sockmon.Base.{
  ℕ, zero, suc, ◌<◌, ◌≡◌, ◌∙◌, refl, sym, arith, Bool, true, false, Bool-cases, inl, inr, List, [],
  ◌∷◌, ◌++◌, ◌==◌, length, if◌then◌else◌, ℤ, Run, ◌>>=◌, >>=-ok, ok, ap, ok-injective,
}
use sockmon.Conn.{Conn}
use sockmon.ConnList.{call_sort_func, stops, insert_loop}
use sockmon.Field.{Field, has_ext}
use sockmon.Field.Table.Layout.{Abi}
use sockmon.ListHead.{Ptr, Heap, get_next, get_conn}
use sockmon.ListHead.Entries.{find_pos}
use sockmon.ListHead.Ring.{Entries, Chain, conns, has, first, next-first}

-- `pos` is the place before which the entry goes, so that the list becomes `l`.
pub record Place (ci : Conn) (head : Ptr) (xs : Entries) (l : List Conn) (pos : Ptr) : Type 0 where
  pub front : Entries
  pub back : Entries
  pub was : xs ≡ front ++ back
  pub is : l ≡ conns front ++ ci ∷ conns back
  pub place : pos ≡ first back head

module _ (abi : Abi) (key : Field) (ascending : Bool) (ci : Conn) where
  -- The rest of a round of the loop on the list, behind the test of the attribute.
  abbrev compared : Conn → List Conn → ℤ → Run (List Conn)
  compared c cs ret =
      if stops ascending ret
      then ok (ci ∷ c ∷ cs)
      else insert_loop abi key ascending ci cs >>= λ rest. ok (c ∷ rest)

  insert-lacks :
      (c : Conn) (cs : List Conn)
      → has_ext c.ext key.ext_rcv ≡ false
      → insert_loop abi key ascending ci (c ∷ cs) ≡ ok (ci ∷ c ∷ cs)
  unfolding insert_loop
  insert-lacks c cs lacks = rw lacks

  insert-compared :
      (c : Conn) (cs : List Conn)
      → has_ext c.ext key.ext_rcv ≡ true
      → insert_loop abi key ascending ci (c ∷ cs) ≡ (call_sort_func abi key ci c >>= compared c cs)
  unfolding insert_loop
  insert-compared c cs present = rw present

  compared-stops :
      (c : Conn) (cs : List Conn) (ret : ℤ)
      → stops ascending ret ≡ true
      → compared c cs ret ≡ ok (ci ∷ c ∷ cs)
  compared-stops c cs ret stop = rw stop

  compared-goes :
      (c : Conn) (cs : List Conn) (ret : ℤ)
      → stops ascending ret ≡ false
      → compared c cs ret ≡ (insert_loop abi key ascending ci cs >>= λ rest. ok (c ∷ rest))
  compared-goes c cs ret go = rw go

  module _ (h : Heap) (head p : Ptr) (c : Conn) (is_c : h.conn p ≡ c) (live : h.live p ≡ true)
      (apart : (p == head) ≡ false) (k : ℕ) where
    find-lacks :
        has_ext c.ext key.ext_rcv ≡ false
        → find_pos abi key ascending ci head (suc k) p h ≡ ok (p, h)
    unfolding find_pos get_conn
    find-lacks lacks = rw (apart, live, is_c, lacks)

    find-stops :
        (ret : ℤ)
        → has_ext c.ext key.ext_rcv ≡ true
        → call_sort_func abi key ci c ≡ ok ret
        → stops ascending ret ≡ true
        → find_pos abi key ascending ci head (suc k) p h ≡ ok (p, h)
    unfolding find_pos get_conn
    find-stops ret present call stop = rw (apart, live, is_c, present, call, stop)

    find-goes :
        (ret : ℤ)
        → has_ext c.ext key.ext_rcv ≡ true
        → call_sort_func abi key ci c ≡ ok ret
        → stops ascending ret ≡ false
        → find_pos abi key ascending ci head (suc k) p h
          ≡ find_pos abi key ascending ci head k (h.next p) h
    unfolding find_pos get_conn get_next
    find-goes ret present call go = rw (apart, live, is_c, present, call, go, live)

  find-end :
      (h : Heap) (head : Ptr) (k : ℕ)
      → find_pos abi key ascending ci head (suc k) head h ≡ ok (head, h)
  unfolding find_pos
  find-end h head k = let here : (head == head) ≡ true = ground arith in rw here

  insert-end : {l : List Conn} → insert_loop abi key ascending ci [] ≡ ok l → l ≡ ci ∷ []
  unfolding insert_loop
  insert-end e = sym (ok-injective e)

  -- Where the loop of the ring stops, the loop of the list puts the connection.
  abbrev pub Found : Heap → Ptr → ℕ → Entries → List Conn → Type 0
  Found h head k xs l =
      (pos : Ptr) × (find_pos abi key ascending ci head k (first xs head) h ≡ ok (pos, h))
      × Place ci head xs l pos

  module _ (h : Heap) (head : Ptr) where
    Found-here :
        (k : ℕ) (p : Ptr) (c : Conn) (xs : Entries) {l : List Conn}
        → find_pos abi key ascending ci head (suc k) p h ≡ ok (p, h)
        → ok (ci ∷ c ∷ conns xs) ≡ ok l
        → Found h head (suc k) ((p, c) ∷ xs) l
    Found-here k p c xs found e = (
      p,
      found,
      record {
        front = [];
        back = (p, c) ∷ xs;
        was = refl;
        is = sym (ok-injective e);
        place = refl;
      },
    )

    Found-next :
        (k : ℕ) (p : Ptr) (c : Conn) (xs : Entries) {l l' : List Conn}
        → find_pos abi key ascending ci head (suc k) p h
          ≡ find_pos abi key ascending ci head k (first xs head) h
        → ok (c ∷ l) ≡ ok l'
        → Found h head k xs l
        → Found h head (suc k) ((p, c) ∷ xs) l'
    Found-next k p c xs step e (pos, found, place) = (
      pos,
      step ∙ found,
      record {
        front = (p, c) ∷ place.front;
        back = place.back;
        was = ap (λ ys. (p, c) ∷ ys) place.was;
        is = sym (ok-injective e) ∙ ap (λ ys. c ∷ ys) place.is;
        place = place.place;
      },
    )

    pub find_pos-Found :
        (live : h.live head ≡ true) (k : ℕ) (a : Ptr) (xs : Entries) (l : List Conn)
        → Chain h a xs head
        → has head xs ≡ false
        → length xs < k
        → insert_loop abi key ascending ci (conns xs) ≡ ok l
        → Found h head k xs l
    find_pos-Found live zero a xs l ch out lt e = absurd (omega arith)
    find_pos-Found live (suc k) a [] l ch out lt e = (
      head,
      find-end h head k,
      record { front = []; back = []; was = refl; is = insert-end e; place = refl },
    )
    find_pos-Found live (suc k) a ((p, c) ∷ xs) l ch out lt e =
        let apart : (p == head) ≡ false = ground arith in
        let (next, _) = next-first h xs ch.4 live in
        elim (Bool-cases (has_ext c.ext key.ext_rcv)) [
          | inr lacks ↦
              Found-here k p c xs (find-lacks h head p c ch.2 ch.3 apart k lacks)
                (sym (insert-lacks c (conns xs) lacks) ∙ e)
          | inl present ↦
              let (ret, call, rest) =
                >>=-ok _ (compared c (conns xs)) (sym (insert-compared c (conns xs) present) ∙ e) in
              elim (Bool-cases (stops ascending ret)) [
                | inl stop ↦
                    Found-here k p c xs
                      (find-stops h head p c ch.2 ch.3 apart k ret present call stop)
                      (sym (compared-stops c (conns xs) ret stop) ∙ rest)
                | inr go ↦
                    let (l', more, is) =
                      >>=-ok (insert_loop abi key ascending ci (conns xs)) (λ r. ok (c ∷ r))
                        (sym (compared-goes c (conns xs) ret go) ∙ rest) in
                    let step = find-goes h head p c ch.2 ch.3 apart k ret present call go in
                    Found-next k p c xs
                      (step ∙ ap (λ q. find_pos abi key ascending ci head k q h) next) is
                      (find_pos-Found live k p xs l' ch.4 (ground arith) (omega arith) more)
              ]
        ]

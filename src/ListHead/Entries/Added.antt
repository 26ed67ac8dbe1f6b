-- ===== src/ListHead/Entries/Added.antt =====
-- src/draw.c: `add_conn_info` on the ring refines `add_conn_info` on the list of connections.
use mathlib.Core.List.{append-nil}
use mathlib.Core.Path.{subst}
use sockmon.Base.{
  ℕ, suc, ◌<◌, ◌≡◌, ◌≢◌, ◌∙◌, refl, sym, ap, arith, Bool, true, false, ◌||◌, Bool-cases, inl, inr,
  Option, none, some, List, [], ◌∷◌, ◌++◌, ◌==◌, length, ok, ok-injective,
}
use sockmon.Conn.{Conn}
use sockmon.ConnList.{insert_loop, add_by_key, add_conn_info}
use sockmon.Field.{Field, has_ext}
use sockmon.Field.Table.Layout.{Abi}
use sockmon.ListHead.{Ptr, Heap, get_next, get_conn, list_empty, list_add_tail}
use sockmon.ListHead.Entries.{find_pos, add_entry}
use sockmon.ListHead.Entries.Sorted.{Place, find_pos-Found}
use sockmon.ListHead.Ring.{Entries, conns, has, has-append, first, IsRing}
use sockmon.ListHead.Ring.Insert.{added, list_add_tail-IsRing}

-- The ring of `xs` got the entry `new`, so that its connections are `l`; no memory was given or given
-- back, and no connection was written.
pub record Became (h : Heap) (head new : Ptr) (xs : Entries) (l : List Conn) (h' : Heap)
    : Type 0 where
  pub entries : Entries
  pub ring : IsRing h' head entries
  pub shows : conns entries ≡ l
  pub members : (a : Ptr) → has a entries ≡ ((a == new) || has a xs)
  pub count : length entries ≡ suc (length xs)
  pub live : h'.live ≡ h.live
  pub conn : h'.conn ≡ h.conn

or_true : (b : Bool) → (b || true) ≡ true
or_true true = refl
or_true false = refl

conns-append : (xs ys : Entries) → conns (xs ++ ys) ≡ conns xs ++ conns ys
conns-append [] ys = refl
conns-append ((p, c) ∷ xs) ys = ap (λ l. c ∷ l) (conns-append xs ys)

has-inserted :
    (a new : Ptr) (ci : Conn) (front back : Entries)
    → has a (front ++ (new, ci) ∷ back) ≡ ((a == new) || has a (front ++ back))
has-inserted a new ci front back =
    ground (arith, has-append a front back, has-append a front ((new, ci) ∷ back))

length-inserted :
    (new : Ptr) (ci : Conn) (front back : Entries)
    → length (front ++ (new, ci) ∷ back) ≡ suc (length (front ++ back))
length-inserted new ci [] back = refl
length-inserted new ci (x ∷ front) back = ap suc (length-inserted new ci front back)

module _ (h : Heap) (head new : Ptr) (live_new : h.live new ≡ true) (ne : head ≢ new) where
  -- The entry is put in at the place.
  Placed : Ptr → Entries → List Conn → Type 0
  Placed pos xs l =
      (h' : Heap) × (list_add_tail new pos h ≡ ok (tt, h')) × Became h head new xs l h'

  placed :
      (pos : Ptr) {xs : Entries} {l : List Conn}
      → IsRing h head xs
      → has new xs ≡ false
      → Place (h.conn new) head xs l pos
      → Placed pos xs l
  unfolding Placed
  placed pos {xs} r out at =
      let ring = subst (λ ys. IsRing h head ys) at.was r in
      let away = subst (λ ys. has new ys ≡ false) at.was out in
      let (done, is) = list_add_tail-IsRing h new _ refl live_new at.front at.back ring away ne in
      (
        added h new (first at.back head),
        rw at.place done,
        record {
          entries = at.front ++ (new, h.conn new) ∷ at.back;
          ring = is;
          shows = conns-append at.front ((new, h.conn new) ∷ at.back) ∙ sym at.is;
          members = λ a.
              has-inserted a new _ at.front at.back
              ∙ ap (λ ys. (a == new) || has a ys) (sym at.was);
          count = length-inserted new _ at.front at.back ∙ ap (λ ys. suc (length ys)) (sym at.was);
          live = refl;
          conn = refl;
        },
      )

  last-Placed :
      {xs : Entries} {l : List Conn}
      → IsRing h head xs
      → has new xs ≡ false
      → ok (conns xs ++ h.conn new ∷ []) ≡ ok l
      → Placed head xs l
  last-Placed {xs} r out e = placed head r out (record {
    front = xs;
    back = [];
    was = sym (append-nil xs);
    is = sym (ok-injective e);
    place = refl;
  })

  module _ (abi : Abi) (ascending : Bool) (fuel : ℕ) where
    abbrev pub Refines : Option Field → Entries → List Conn → Type 0
    Refines key xs l =
        (h' : Heap) × (add_entry abi key ascending fuel new head h ≡ ok (tt, h'))
        × Became h head new xs l h'

    from_Placed :
        (key : Option Field) (pos : Ptr) {xs : Entries} {l : List Conn}
        → add_entry abi key ascending fuel new head h ≡ list_add_tail new pos h
        → Placed pos xs l
        → Refines key xs l
    unfolding Placed
    from_Placed key pos step (h', done, is) = (h', step ∙ done, is)

    add_entry-empty :
        (key : Field)
        → IsRing h head []
        → add_entry abi (some key) ascending fuel new head h ≡ list_add_tail new head h
    unfolding add_entry get_conn list_empty get_next
    add_entry-empty key r =
        let nothing : (h.next head == head) ≡ true = ground (arith, r.chain) in
        rw (live_new, r.live, nothing, or_true)

    by_key-lacks :
        (key : Field) (c : Conn) (cs : List Conn)
        → has_ext (h.conn new).ext key.ext_rcv ≡ false
        → add_by_key abi key ascending (h.conn new) (c ∷ cs) ≡ ok ((c ∷ cs) ++ h.conn new ∷ [])
    unfolding add_by_key
    by_key-lacks key c cs lacks = rw lacks

    by_key-loop :
        (key : Field) (c : Conn) (cs : List Conn)
        → has_ext (h.conn new).ext key.ext_rcv ≡ true
        → add_by_key abi key ascending (h.conn new) (c ∷ cs)
          ≡ insert_loop abi key ascending (h.conn new) (c ∷ cs)
    unfolding add_by_key
    by_key-loop key c cs present = rw present

    module _ (key : Field) {p : Ptr} {c : Conn} {xs : Entries}
        (r : IsRing h head ((p, c) ∷ xs)) where
      add_entry-lacks :
          has_ext (h.conn new).ext key.ext_rcv ≡ false
          → add_entry abi (some key) ascending fuel new head h ≡ list_add_tail new head h
      unfolding add_entry get_conn list_empty get_next
      add_entry-lacks lacks = rw (live_new, r.live, lacks)

      add_entry-loop :
          {pos : Ptr}
          → has_ext (h.conn new).ext key.ext_rcv ≡ true
          → find_pos abi key ascending (h.conn new) head fuel p h ≡ ok (pos, h)
          → add_entry abi (some key) ascending fuel new head h ≡ list_add_tail new pos h
      unfolding add_entry get_conn list_empty get_next
      add_entry-loop present found =
          let some_entry : (p == head) ≡ false = ground (arith, r.apart) in
          rw (live_new, r.live, present, r.chain.0, some_entry, r.live, r.chain.0, found)

    add_entry-by_key :
        (key : Field) (xs : Entries) {l : List Conn}
        → IsRing h head xs
        → has new xs ≡ false
        → length xs < fuel
        → add_by_key abi key ascending (h.conn new) (conns xs) ≡ ok l
        → Refines (some key) xs l
    unfolding add_by_key Placed
    add_entry-by_key key [] r out enough e =
        from_Placed (some key) head (add_entry-empty key r) (last-Placed r out e)
    add_entry-by_key key ((p, c) ∷ xs) r out enough e =
        elim (Bool-cases (has_ext (h.conn new).ext key.ext_rcv)) [
          | inr lacks ↦
              from_Placed (some key) head (add_entry-lacks key r lacks)
                (last-Placed r out (sym (by_key-lacks key c (conns xs) lacks) ∙ e))
          | inl present ↦
              let (pos, found, at) =
                find_pos-Found abi key ascending (h.conn new) h head r.live fuel head ((p, c) ∷ xs)
                  _ r.chain r.apart enough (sym (by_key-loop key c (conns xs) present) ∙ e) in
              from_Placed (some key) pos (add_entry-loop key r present found) (placed pos r out at)
        ]

    -- On a ring of list_heads of which the new entry is no part, with enough fuel for one round
    -- on each entry and where the addition of the new connection to the list of the connections
    -- returns, the pointer operations of add_conn_info do not fault and leave a ring of the same
    -- entries and the new one, which shows the connections in the order of that list.
    pub add_entry-Became :
        (key : Option Field) (xs : Entries) {l : List Conn}
        → IsRing h head xs
        → has new xs ≡ false
        → length xs < fuel
        → add_conn_info abi key ascending (h.conn new) (conns xs) ≡ ok l
        → Refines key xs l
    unfolding add_conn_info add_entry
    add_entry-Became none xs r out enough e = from_Placed none head refl (last-Placed r out e)
    add_entry-Became (some key) xs r out enough e = add_entry-by_key key xs r out enough e

-- ===== src/Nl/Members.antt =====
-- src/nl.c: what the copy functions leave in the bytes of a connection, member by member.
use mathlib.Core.Option.{or_else}
use sockmon.Base.{
  ℕ, zero, suc, ◌+◌, ◌-◌, ◌≡◌, ◌∙◌, refl, sym, ap, arith, Bool, true, false, ◌&&◌, Option, none,
  some, List, [], ◌∷◌, ltb, leb, ◌==◌, if◌then◌else◌, get_elem?, ok,
}
use sockmon.Conn.{Bytes}
use sockmon.Field.Table.Layout.{
  tos, tclass, shutdown, ipv6only, classid, cgroup_id, ca_name, mem, inet_sockopt,
}
use sockmon.Nl.{Attr, attr_loop, copied}
use sockmon.Nl.Copy.{Sizes, Copy, copy_void, store, strncpy, copy_func}
use sockmon.Nl.Received.{are_supported, bytes_of, ext_of, attr_loop_lem, copy_or_void}

-- A member of `struct conn_info`, and what of the payload it keeps.
pub record Slot : Type 0 where
  pub start : ℕ
  pub size : ℕ
  pub content : Bytes → Bytes

abbrev whole : Bytes → Bytes
whole p = p

-- The name of the congestion control always ends.
abbrev name : Bytes → Bytes
name p i = if i == 15 then 0 else strncpy p i

module _ (lay : Sizes) where
  open lay.abi use {offsetof}

  -- The member that each attribute is kept in.
  unfoldable pub slots : List (Option Slot)
  slots =
      none
      ∷ some (record { start = lay.minfo; size = lay.sizeof_meminfo; content = whole })
      ∷ some (record { start = lay.info; size = lay.sizeof_tcp_info; content = whole })
      ∷ some (record { start = lay.cc_info; size = lay.sizeof_vegas; content = whole })
      ∷ some (record { start = offsetof ca_name; size = 16; content = name })
      ∷ some (record { start = offsetof tos; size = 1; content = whole })
      ∷ some (record { start = offsetof tclass; size = 1; content = whole })
      ∷ some (record { start = offsetof mem; size = lay.sizeof_mem; content = whole })
      ∷ some (record { start = offsetof shutdown; size = 1; content = whole })
      ∷ some (record { start = lay.cc_info; size = lay.sizeof_dctcp; content = whole })
      ∷ none
      ∷ some (record { start = offsetof ipv6only; size = 1; content = whole })
      ∷ none
      ∷ none
      ∷ none
      ∷ none
      ∷ some (record { start = lay.cc_info; size = lay.sizeof_bbr; content = whole })
      ∷ some (record { start = offsetof classid; size = 4; content = whole })
      ∷ none
      ∷ none
      ∷ none
      ∷ some (record { start = offsetof cgroup_id; size = 8; content = whole })
      ∷ some (record { start = offsetof inet_sockopt; size = lay.sizeof_sockopt; content = whole })
      ∷ none
      ∷ []

-- The byte at `q` that a payload gives, if the member has one there.
unfoldable pub slot_byte : Option Slot → Bytes → ℕ → Option ℕ
slot_byte none p q = none
slot_byte (some s) p q =
    if leb s.start q && ltb q (s.start + s.size) then some (s.content p (q - s.start)) else none

abbrev pub or_old : Option ℕ → ℕ → ℕ
or_old none old = old
or_old (some v) old = v

-- A copy function writes its member and nothing else.
abbrev Writes : Copy → Option Slot → Type 0
Writes f s = (ci p : Bytes) (q : ℕ) → f ci p q ≡ or_old (slot_byte s p q) (ci q)

void-Writes : Writes copy_void none
unfolding slot_byte
void-Writes ci p q = refl

store-Writes :
    (start size : ℕ)
    → Writes
        (λ ci p. store start size p ci)
        (some (record { start = start; size = size; content = whole }))
unfolding store slot_byte
store-Writes start size ci p q = ground arith

-- The last byte of the name is written again.
name_byte :
    (start q : ℕ) (g ci : Bytes)
    → store (start + 15) 1 (λ i. 0) (store start 16 g ci) q ≡ (
        if leb start q && ltb q (start + 16)
        then (if q - start == 15 then 0 else g (q - start))
        else ci q)
unfolding store
name_byte start q g ci = ground arith

slot_if : (b : Bool) (v old : ℕ) → or_old (if b then some v else none) old ≡ (if b then v else old)
slot_if true v old = refl
slot_if false v old = refl

cong-Writes :
    (start : ℕ)
    → Writes
        (λ ci p. store (start + 15) 1 (λ i. 0) (store start 16 (strncpy p) ci))
        (some (record { start = start; size = 16; content = name }))
unfolding slot_byte
cong-Writes start ci p q =
    name_byte start q (strncpy p) ci
    ∙ sym (slot_if (leb start q && ltb q (start + 16)) (name p (q - start)) (ci q))

AllWrite : List Copy → List (Option Slot) → Type 0
AllWrite [] [] = Unit
AllWrite (f ∷ fs) (s ∷ ss) = Writes f s × AllWrite fs ss
AllWrite _ _ = ⊥

slot_or_none : Option (Option Slot) → Option Slot
slot_or_none none = none
slot_or_none (some s) = s

AllWrite-get_elem? :
    (fs : List Copy) (ss : List (Option Slot)) (i : ℕ)
    → AllWrite fs ss
    → Writes (copy_or_void (get_elem? fs i)) (slot_or_none (get_elem? ss i))
unfolding AllWrite copy_or_void slot_or_none
AllWrite-get_elem? [] [] i h = void-Writes
AllWrite-get_elem? (f ∷ fs) (s ∷ ss) zero h = h.0
AllWrite-get_elem? (f ∷ fs) (s ∷ ss) (suc i) h = AllWrite-get_elem? fs ss i h.1
AllWrite-get_elem? [] (s ∷ ss) i h = absurd h
AllWrite-get_elem? (f ∷ fs) [] i h = absurd h

module _ (lay : Sizes) where
  open lay.abi use {offsetof}

  copy_func-AllWrite : AllWrite (copy_func lay) (slots lay)
  unfolding copy_func slots AllWrite
  copy_func-AllWrite = (
    void-Writes,
    (
      store-Writes _ _,
      (
        store-Writes _ _,
        (
          store-Writes _ _,
          (
            cong-Writes _,
            (
              store-Writes _ _,
              (
                store-Writes _ _,
                (
                  store-Writes _ _,
                  (
                    store-Writes _ _,
                    (
                      store-Writes _ _,
                      (
                        void-Writes,
                        (
                          store-Writes _ _,
                          (
                            void-Writes,
                            (
                              void-Writes,
                              (
                                void-Writes,
                                (
                                  void-Writes,
                                  (
                                    store-Writes _ _,
                                    (
                                      store-Writes _ _,
                                      (
                                        void-Writes,
                                        (
                                          void-Writes,
                                          (
                                            void-Writes,
                                            (
                                              store-Writes _ _,
                                              (store-Writes _ _, (void-Writes, tt)),
                                            ),
                                          ),
                                        ),
                                      ),
                                    ),
                                  ),
                                ),
                              ),
                            ),
                          ),
                        ),
                      ),
                    ),
                  ),
                ),
              ),
            ),
          ),
        ),
      ),
    ),
  )

  -- The byte that the last attribute with a member at `q` gives.
  unfoldable pub last_byte : List Attr → ℕ → Option ℕ
  unfolding slots slot_byte slot_or_none
  last_byte [] q = none
  last_byte (a ∷ attrs) q =
      or_else (last_byte attrs q)
        (slot_byte (slot_or_none (get_elem? (slots lay) a.rta_type)) a.rta_data q)

  or_else-or_old : (o r : Option ℕ) (old : ℕ) → or_old o (or_old r old) ≡ or_old (or_else o r) old
  unfolding or_else
  or_else-or_old none r old = refl
  or_else-or_old (some v) r old = refl

  bytes_of-last_byte :
      (attrs : List Attr) (ci : Bytes) (q : ℕ)
      → bytes_of lay attrs ci q ≡ or_old (last_byte attrs q) (ci q)
  unfolding bytes_of last_byte
  bytes_of-last_byte [] ci q = refl
  bytes_of-last_byte (a ∷ attrs) ci q =
      let f = copy_or_void (get_elem? (copy_func lay) a.rta_type) in
      bytes_of-last_byte attrs (f ci a.rta_data) q
      ∙ ap (or_old (last_byte attrs q)) (
          AllWrite-get_elem? (copy_func lay) (slots lay) a.rta_type copy_func-AllWrite ci a.rta_data
            q)
      ∙ or_else-or_old (last_byte attrs q) _ (ci q)

  -- On attributes that the table knows, the loop of diag_dump returns a connection each byte of
  -- which comes from the last attribute that is kept there, of the name of the congestion control
  -- with its NUL, and is the old one where no attribute is kept.
  pub attr_loop-last_byte :
      (attrs : List Attr) (ci : Bytes) (ext : ℕ)
      → are_supported attrs ≡ true
      → (ci' : Bytes) × (ext' : ℕ) × (attr_loop lay attrs ci ext ≡ ok (copied ci' ext'))
        × ((q : ℕ) → ci' q ≡ or_old (last_byte attrs q) (ci q))
  attr_loop-last_byte attrs ci ext h = (
    bytes_of lay attrs ci,
    ext_of attrs ext,
    attr_loop_lem lay attrs ci ext ∙ rw h,
    bytes_of-last_byte attrs ci,
  )

-- ===== src/ListHead.antt =====
-- src/list.h: the ring of `struct list_head`, as reads and writes of a heap, and the code of
-- src/draw.c and src/main.c that walks it. An entry is a connection whose first member is its
-- `list_head`, so both have one address.
pub mod Ring
pub mod Entries
use sockmon.Base.{
  ℕ, Bool, true, false, List, [], ◌∷◌, ◌==◌, if◌then◌else◌, Run, ok, fault, waits, dangling,
}
use sockmon.Conn.{Conn}

abbrev pub Ptr : Type 0
Ptr = ℕ

-- The members of the `list_head` at each address and the connection round it, and the addresses
-- that may be read and written.
pub record Heap : Type 0 where
  pub next : Ptr → Ptr
  pub prev : Ptr → Ptr
  pub conn : Ptr → Conn
  pub live : Ptr → Bool

abbrev pub update {ℓ} : {A : Type ℓ} → (Ptr → A) → Ptr → A → Ptr → A
update f p v a = if a == p then v else f a

abbrev pub Cmd : Type 0 → Type 0
Cmd A = Heap → Run (A × Heap)

module _ {A B : Type 0} where
  abbrev pub and_then : Run (A × Heap) → (A → Cmd B) → Run (B × Heap)
  and_then (ok (a, h)) f = f a h
  and_then (fault e) f = fault e
  and_then waits f = waits

  infixl 5 ◌>>=◌ ◌>>◌
  abbrev pub ◌>>=◌ : Cmd A → (A → Cmd B) → Cmd B
  m >>= f = λ h. and_then (m h) f

  abbrev pub ◌>>◌ : Cmd A → Cmd B → Cmd B
  m >> n = m >>= λ _. n

abbrev pub pure : {A : Type 0} → A → Cmd A
pure a h = ok (a, h)

-- An access to memory that was not given or was given back is a fault.
abbrev pub at_live : {A : Type 0} → Ptr → (Heap → A × Heap) → Cmd A
at_live p f h = if h.live p then ok (f h) else fault dangling

unfoldable pub get_next : Ptr → Cmd Ptr
get_next p = at_live p λ h. (h.next p, h)

unfoldable pub get_prev : Ptr → Cmd Ptr
get_prev p = at_live p λ h. (h.prev p, h)

unfoldable pub set_next : Ptr → Ptr → Cmd (Unit {0})
set_next p q = at_live p λ h. (tt, record h { next = update h.next p q })

unfoldable pub set_prev : Ptr → Ptr → Cmd (Unit {0})
set_prev p q = at_live p λ h. (tt, record h { prev = update h.prev p q })

unfoldable pub get_conn : Ptr → Cmd Conn
get_conn p = at_live p λ h. (h.conn p, h)

-- `conn_info_alloc` at an address that `calloc` gives, and the writes of the members. What `calloc`
-- puts into the `list_head` is read by nobody.
unfoldable pub conn_info_alloc : Ptr → Conn → Cmd (Unit {0})
conn_info_alloc p ci h =
    ok (tt, record h { conn = update h.conn p ci; live = update h.live p true })

unfoldable pub conn_info_free : Ptr → Cmd (Unit {0})
conn_info_free p = at_live p λ h. (tt, record h { live = update h.live p false })

-- `INIT_LIST_HEAD`
unfoldable pub init_list_head : Ptr → Cmd (Unit {0})
unfolding set_next set_prev
init_list_head list = do set_next list list; set_prev list list

-- `__list_add`
unfoldable pub list_add_between : (new prev next : Ptr) → Cmd (Unit {0})
unfolding set_next set_prev
list_add_between new prev next = do
  set_prev next new
  set_next new next
  set_prev new prev
  set_next prev new

unfoldable pub list_add_tail : (new head : Ptr) → Cmd (Unit {0})
unfolding get_prev list_add_between
list_add_tail new head = do prev ← get_prev head; list_add_between new prev head

-- `__list_del`
unfoldable pub list_del_between : (prev next : Ptr) → Cmd (Unit {0})
unfolding set_next set_prev
list_del_between prev next = do set_prev next prev; set_next prev next

-- `list_del`, which is `__list_del_entry`.
unfoldable pub list_del : Ptr → Cmd (Unit {0})
unfolding get_prev get_next list_del_between
list_del entry = do prev ← get_prev entry; next ← get_next entry; list_del_between prev next

unfoldable pub list_empty : Ptr → Cmd Bool
unfolding get_next
list_empty head = do next ← get_next head; pure (next == head)

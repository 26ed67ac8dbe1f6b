-- ===== src/ListHead/Entries.antt =====
-- src/draw.c and src/main.c: `add_conn_info` on the ring, and the loop that takes the entries off and
-- frees them. Each loop runs on fuel; `waits` stands for a loop that is still running.
mod Sorted
pub mod Added
pub mod Lifetime
pub mod Released
use sockmon.Base.{
  ℕ, zero, suc, Bool, not, ◌||◌, Option, none, some, List, [], ◌∷◌, ◌==◌, if◌then◌else◌, Run, ok,
  fault, waits,
}
use sockmon.Conn.{Conn}
use sockmon.ConnList.{call_sort_func, stops}
use sockmon.Field.{Field, has_ext}
use sockmon.Field.Table.Layout.{Abi}
use sockmon.ListHead.{
  Ptr, Cmd, ◌>>=◌, ◌>>◌, pure, get_next, get_conn, conn_info_alloc, conn_info_free, list_add_tail,
  list_del, list_empty,
}

-- A call that reads the heap and leaves it.
abbrev pub lift : {A : Type 0} → Run A → Cmd A
lift (ok a) h = ok (a, h)
lift (fault e) h = fault e
lift waits h = waits

module _ (abi : Abi) (key : Field) (ascending : Bool) (ci : Conn) (head : Ptr) where
  -- `list_for_each_entry` with its breaks: the entry `pos` at which the loop is left.
  unfoldable pub find_pos : ℕ → Ptr → Cmd Ptr
  unfolding get_conn get_next call_sort_func
  find_pos zero pos = λ _. waits
  find_pos (suc k) pos = if pos == head then pure pos else do
    other ← get_conn pos
    if not (has_ext other.ext key.ext_rcv) then pure pos else do
      ret ← lift (call_sort_func abi key ci other)
      if stops ascending ret then pure pos else do next ← get_next pos; find_pos k next

-- `add_conn_info`, with fuel for its loop.
unfoldable pub add_entry : Abi → Option Field → Bool → ℕ → (new head : Ptr) → Cmd (Unit {0})
unfolding list_empty get_conn get_next
add_entry abi none ascending fuel new head = list_add_tail new head
add_entry abi (some key) ascending fuel new head = do
  ci ← get_conn new
  empty ← list_empty head
  if not (has_ext ci.ext key.ext_rcv) || empty then list_add_tail new head else do
    first ← get_next head
    pos ← find_pos abi key ascending ci head fuel first
    list_add_tail new pos

-- `list_for_each_entry_safe` with `list_del` and `conn_info_free`: the connections in the order in
-- which the loop meets them.
unfoldable pub release_loop : ℕ → (head pos n : Ptr) → Cmd (List Conn)
unfolding get_conn get_next list_del conn_info_free
release_loop zero head pos n = λ _. waits
release_loop (suc k) head pos n = if pos == head then pure [] else do
  ci ← get_conn pos
  list_del pos
  conn_info_free pos
  next ← get_next n
  rest ← release_loop k head n next
  pure (ci ∷ rest)

unfoldable pub release : ℕ → Ptr → Cmd (List Conn)
unfolding get_next release_loop
release fuel head = do pos ← get_next head; n ← get_next pos; release_loop fuel head pos n

-- A dump: each connection is given memory at the address beside it, filled and added.
unfoldable pub add_entries :
    Abi → Option Field → Bool → ℕ → Ptr → List (Ptr × Conn) → Cmd (Unit {0})
unfolding conn_info_alloc add_entry
add_entries abi key ascending fuel head [] = pure tt
add_entries abi key ascending fuel head ((p, ci) ∷ cs) = do
  conn_info_alloc p ci
  add_entry abi key ascending fuel p head
  add_entries abi key ascending fuel head cs

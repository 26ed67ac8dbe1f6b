-- ===== src/Main.antt =====
-- src/main.c: `main`, with what the kernel, /proc and the user do in each turn of its loop as an
-- argument.
pub mod Turn
use sockmon.Base.{
  ℕ, ◌-◌, Bool, true, false, not, Option, none, some, List, [], ◌∷◌, if◌then◌else◌, length, Run, ok,
  waits, ◌>>=◌,
}
use sockmon.Ctx.{Screen, Ctx, screen_main, nm_ctx_init}
use sockmon.Field.{Field, ext_is_set, inet_diag_proc}
use sockmon.FieldScreen.{Parse}
use sockmon.Input.{Key, should_stop}
use sockmon.MainScreen.{Typed}
use sockmon.Nl.{Failure, Receipt, connections_dump}
use sockmon.Nl.Copy.{Sizes}
use sockmon.Proc.{SkMap, initial, free_sk_proc_map}
use sockmon.Proc.Scan.{Alloc, ProcRead, build_sk_proc_map}
use sockmon.Rows.{Drawn, draw_connections}

-- What happens outside the program in one turn.
pub record Events : Type 0 where
  pub alloc : Alloc
  pub procs : List ProcRead
  pub sent : Bool
  pub receipts : List Receipt
  pub resize_alloc : Bool
  pub key : Key
  pub typed : List Typed

-- The context and the table of sockets, and the `err` of the body.
pub record State : Type 0 where
  pub err : Bool
  pub ctx : Ctx
  pub table : SkMap

abbrev pub is_main : Screen → Bool
is_main screen_main = true
is_main _ = false

module _ (lay : Sizes) (parse : Parse) where
  -- A dump that succeeded is drawn.
  unfoldable pub draw_after : Events → SkMap → Option Failure × Ctx → Run State
  unfolding draw_connections
  draw_after t m (some failure, n) = ok (record { err = true; ctx = n; table = m })
  draw_after t m (none, n) = draw_connections lay.abi t.resize_alloc n m >>= λ d.
      ok (record { err = false; ctx = d.ctx; table = d.owners.table })

  -- The body of the loop on the main screen: `build_sk_proc_map(&n) || connections_dump(&n)`, and
  -- the drawing.
  unfoldable pub refresh : Events → Ctx → SkMap → Run State
  unfolding draw_after build_sk_proc_map connections_dump
  refresh t n m = do
    b ← build_sk_proc_map n.ext_req n.ext_rcv t.alloc t.procs m
    let n₁ = record n { ext_rcv = b.ext_rcv }
    (if b.status.failed
        then ok (record { err = true; ctx = n₁; table = b.status.table })
        else connections_dump lay b.status.table t.sent t.receipts n₁
          >>= draw_after t b.status.table)

  unfoldable pub turn : Events → Ctx → SkMap → Run State
  unfolding refresh
  turn t n m =
      if not (is_main n.cur_screen)
      then ok (record { err = false; ctx = n; table = m })
      else refresh t n m

  -- The loop, which waits for the user when no more turns are given.
  unfoldable pub main_loop : List Events → Ctx → SkMap → Run State
  unfolding turn should_stop
  main_loop [] n m = waits
  main_loop (t ∷ ts) n m = do
    s ← turn t n m
    (if s.err then ok s else (do
      (n', keys) ← should_stop parse t.key s.ctx t.typed
      (if n'.should_stop
          then ok (record { err = false; ctx = n'; table = s.table })
          else main_loop ts n' s.table)))

  -- The entries of the list are taken off, freed and counted off.
  unfoldable pub nm_ctx_exit : Ctx → Ctx
  nm_ctx_exit n = record n { conn_list = []; nr_conns = n.nr_conns - length n.conn_list }

  -- `free_sk_proc_map(n, FALSE)`, of `proc_exit`.
  unfoldable pub proc_exit : State → Run State
  unfolding free_sk_proc_map nm_ctx_exit
  proc_exit s =
      free_sk_proc_map (ext_is_set s.ctx.ext_req inet_diag_proc) false true s.table >>= λ r.
      ok (record { err = s.err; ctx = nm_ctx_exit s.ctx; table = r.table })

  -- `opened` says whether `window_init`, `proc_init` and `nl_init` succeed; `lines` and `cols` are
  -- the size of the window.
  unfoldable pub main :
      (opened : Bool × Bool × Bool) → (lines cols : ℕ) → List Field → List Events → Run State
  unfolding main_loop proc_exit nm_ctx_exit initial
  main (window, proc, nl) lines cols fields ts =
      let n = record (nm_ctx_init fields) { lines = lines; cols = cols } in
      let closed : Ctx → State =
        λ n'. record { err = true; ctx = nm_ctx_exit n'; table = initial } in
      let no_socket = proc_exit (record { err = true; ctx = n; table = initial }) in
      let run = main_loop ts n initial >>= proc_exit in
      if not window
      then ok (closed (nm_ctx_init fields))
      else (if not proc then ok (closed n) else (if not nl then no_socket else run))

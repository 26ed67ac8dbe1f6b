-- ===== src/Main/Turn.antt =====
-- src/main.c: one turn of the loop on the main screen, through src/proc.c, src/nl.c and src/draw.c.
use sockmon.Base.{
  ℕ, ◌≡◌, Bool, ◌&&◌, ◌||◌, true, false, not, none, List, [], ◌∷◌, map, if◌then◌else◌, Run, ok,
}
use sockmon.Conn.{Conn}
use sockmon.Field.Table.Layout.{Abi}
use sockmon.Ctx.{Ctx}
use sockmon.Field.{Field, SortFunc, ext_is_set, has_ext, inet_diag_proc}
use sockmon.Main.{Events, State}
use sockmon.Nl.Copy.{Sizes}
use sockmon.Nl.Dumped.{answer}
use sockmon.Nl.Received.{conn_of}
use sockmon.Nl.Shown.{IsDump}
use sockmon.Proc.Lookup.{Owners}
use sockmon.Proc.Scan.{ProcRead}
use sockmon.Proc.Scan.Walk.{owners, claim_all}
use sockmon.Rows.{apply_through, Drawn}
use sockmon.Rows.Shown.{Shows}

-- The owners that the table has after /proc was read, if they are asked for.
unfoldable pub owners_of : ℕ → List ProcRead → Owners
unfolding claim_all
owners_of ext_req rs =
    if ext_is_set ext_req inet_diag_proc then claim_all (owners rs) (λ _. none) else (λ _. none)

abbrev is_ok : Run Bool → Bool
is_ok (ok b) = true
is_ok _ = false

-- The filters that are on in the columns that the user asked for return for the connection.
unfoldable pub filters_return : Abi → List Field → Conn → Bool
filters_return abi [] c = true
filters_return abi (f ∷ fs) c =
    (not (f.enabled && (f.filter_on && has_ext c.ext f.ext_rcv))
      || is_ok (apply_through abi f.filter_apply f c))
    && filters_return abi fs c

unfoldable pub all : (Conn → Bool) → List Conn → Bool
all p [] = true
all p (c ∷ cs) = p c && all p cs

-- What a turn shows of the messages of the kernel.
pub record Turned (lay : Sizes) (k : Field) (s : SortFunc) (n : Ctx) (t : Events) (r : Run State)
    : Type 0 where
  pub dumped : Ctx
  pub drawn : Drawn
  pub returns : r ≡ ok (record { err = false; ctx = drawn.ctx; table = drawn.owners.table })
  pub dump :
      IsDump lay.abi k s
        (map (conn_of lay (owners_of n.ext_req t.procs) n.ext_req) (answer t.receipts).0)
        n
        dumped
  pub shows : Shows lay.abi dumped drawn

-- ===== src/Tests/Turns.antt =====
-- One turn of the loop of `main`.
use sockmon.Base.{ℕ, ◌^◌, ◌==◌, if◌then◌else◌, List, ◌∷◌, none, ok, true, some, [], map}
use sockmon.Field.{Field}
use sockmon.FieldScreen.{Parse}
use sockmon.Input.{char}
use sockmon.Main.{Events}
use sockmon.Main.Turn.{owners_of}
use sockmon.Nl.Dumped.{answer}
use sockmon.Nl.Received.{conn_of}
use sockmon.Proc.Scan.Walk.{is_readable, Nonzero}
use sockmon.Conn.{Conn}
use sockmon.Ctx.{Ctx}
use sockmon.Nl.{Diag, diag, nlmsg_done, Receipt, datagram}
use sockmon.Tests.Procs.{procs}
use sockmon.Tests.Dumps.{sizes}
use sockmon.Tests.Samples.{above_one, column, heading, ctx}

-- The messages are about the socket of process 12, whose owner is asked for.
abbrev message : ℕ → Diag
message b = record {
  r = λ p. if p == 0 then 77 else 0;
  attrs = record { rta_type = 2; rta_data = λ _. b } ∷ [];
  allocated = true;
}

abbrev receipts : List Receipt
receipts = datagram (diag (message 9) ∷ []) ∷ datagram (diag (message 1) ∷ nlmsg_done ∷ []) ∷ []

abbrev events : Events
events = record {
  alloc = λ _. true;
  procs = procs;
  sent = true;
  receipts = receipts;
  resize_alloc = true;
  key = char b'q';
  typed = [];
}

-- Sorted by the first column, with a filter on it.
abbrev table_ctx : Ctx
table_ctx = record (ctx 0 none) {
  sort_key = some 1;
  sort_ascending = true;
  ext_req = 2 ^ 23;
  tcp_fields = heading ∷ record (column 0) { filter_on = true; filter = some above_one } ∷ [];
}

abbrev key_column : Field
key_column = record (column 0) { filter_on = true; filter = some above_one }

abbrev no_prompt : Parse
no_prompt p f keys = ok (true, f, keys)

abbrev dumped : List Conn
dumped =
    map (conn_of sizes (owners_of table_ctx.ext_req procs) table_ctx.ext_req) (answer receipts).0

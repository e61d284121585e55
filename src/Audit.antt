-- ===== src/Audit.antt =====
-- internal/audit/audit.go: the events of the audit log. The log is the list of the events in the file,
-- `none` when no file could be opened. A text is the list of its code points.
pub mod Detail
use web3_blitz.Base.{ℕ, Option, none, some, List, [], ◌∷◌, ◌++◌}
use web3_blitz.Codegen.{Text, text}

-- A field that is left out of the JSON is empty.
pub record Event : Type 0 where
  timestamp : Text
  pub action : Text
  pub user_id : Text
  pub chain : Text
  pub amount : Text
  pub to_address : Text
  pub tx_id : Text
  pub result : Text
  detail : Text

abbrev Log : Type 0
Log = Option (List Event)

-- `Init`: a file is opened for appending, or the log stays off.
abbrev init : Option (List Event) → Log
init file = file

-- `Log`, at the time `now`, behind the test of `defaultLogger`.
pub log : Text → Event → Log → Log
log now e none = none
log now e (some es) = some (es ++ record e { timestamp = now } ∷ [])

abbrev pub event : Text → Text → Text → Text → Text → Event
event action user chain amount result = record {
  timestamp = [];
  action = action;
  user_id = user;
  chain = chain;
  amount = amount;
  to_address = [];
  tx_id = [];
  result = result;
  detail = [];
}

module _ (now : Text) where
  pub withdraw_submitted : Text → Text → Text → Text → Log → Log
  withdraw_submitted user chain amount to =
      let e = event (text "withdraw.submitted") user chain amount (text "pending") in
      log now (record e { to_address = to })

  pub withdraw_completed : Text → Text → Text → Text → Log → Log
  withdraw_completed user chain amount tx =
      let e = event (text "withdraw.completed") user chain amount (text "completed") in
      log now (record e { tx_id = tx })

  pub withdraw_failed : Text → Text → Text → Text → Log → Log
  withdraw_failed user chain amount detail =
      let e = event (text "withdraw.failed") user chain amount (text "failed") in
      log now (record e { detail = detail })

  pub withdraw_approved : Text → Text → Text → Text → Text → Log → Log
  withdraw_approved user chain amount tx admin =
      let e = event (text "withdraw.approved") user chain amount (text "approved") in
      log now (record e { tx_id = tx; detail = text "admin:" ++ admin })

  pub withdraw_rejected : Text → Text → Text → Text → Text → Log → Log
  withdraw_rejected user chain amount admin reason =
      let e = event (text "withdraw.rejected") user chain amount (text "rejected") in
      log now (record e { detail = text "admin:" ++ (admin ++ (text " reason:" ++ reason)) })

  pub sweep_executed : Text → Text → Text → Text → Log → Log
  sweep_executed chain amount tx cold =
      let e = event (text "sweep.executed") (text "system") chain amount (text "success") in
      log now (record e { to_address = cold; tx_id = tx })

  unfoldable sweep_failed : Text → Text → Text → Log → Log
  sweep_failed chain amount detail =
      let e = event (text "sweep.failed") (text "system") chain amount (text "failed") in
      log now (record e { detail = detail })

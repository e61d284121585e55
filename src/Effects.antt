-- ===== src/Effects.antt =====
-- What a call of the service reads and writes: the database, the lock keys in etcd, the nodes'
-- transactions, and the log of metrics and audit calls; and calls that may fail with an error code.
-- A query fails when the database is out of reach, which `outages` says for the queries to come,
-- in their order; past its end every query is answered. A query that fails has changed nothing.
pub mod Laws
use web3_blitz.Base.{
  ℕ, Bool, true, false, Option, none, some, List, [], ◌∷◌, ◌++◌, String, if◌then◌else◌,
}
use web3_blitz.Code.{ErrorCode}
use web3_blitz.Db.Models.{Chain, Status, Tables}

-- The lock key `withdraw:<user>:<chain>`, by its parts.
pub record LockKey : Type 0 where
  pub user : ℕ
  pub chain : Chain

-- A transaction that a node has accepted, with its value in the chain's smallest unit.
pub record Sent : Type 0 where
  pub chain : Chain
  pub to : String
  pub value : ℕ
  pub tx_id : String

-- The labels of the sweep counters.
pub data SweepOutcome : Type 0 where
  sweep_error sweep_skipped sweep_success : SweepOutcome

-- The calls of internal/metrics and internal/audit, by their arguments.
pub data Entry : Type 0 where
  lock_acquire_fail : LockKey → Entry
  withdraw_total : Chain → Status → Entry
  withdraw_amount : Chain → ℕ → Entry
  withdraw_submitted : ℕ → Chain → ℕ → String → Entry
  withdraw_completed : ℕ → Chain → ℕ → String → Entry
  withdraw_failed : ℕ → Chain → ℕ → Entry
  withdraw_approved : ℕ → Chain → ℕ → String → ℕ → Entry
  withdraw_rejected : ℕ → Chain → ℕ → ℕ → String → Entry
  deposit_detected : Chain → ℕ → Entry
  deposit_confirmed : Chain → Entry
  dead_letter_total : String → Entry
  sweep_total : Chain → SweepOutcome → Entry
  sweep_executed : Chain → ℕ → String → String → Entry

pub record World : Type 0 where
  pub tables : Tables
  pub outages : List Bool
  pub now : ℕ
  pub held : List LockKey
  pub sent : List Sent
  pub log : List Entry

-- `ok` answers with a value; `fail` is `Fail`, `FailMsg` or `FailInternal` with that code.
pub data Reply (A : Type 0) : Type 0 where
  ok : A → Reply A
  fail : ErrorCode → Reply A

abbrev pub Action : Type 0 → Type 0
Action A = World → Reply A × World

abbrev pub is_ok : {A : Type 0} → Reply A → Bool
is_ok (ok a) = true
is_ok (fail c) = false

-- What comes after a call that has ended so.
abbrev continue : {A B : Type 0} → Reply A × World → (A → Action B) → Reply B × World
continue (ok a, w) f = f a w
continue (fail c, w) f = (fail c, w)

infixl 5 ◌>>=◌ ◌>>◌
abbrev pub ◌>>=◌ : {A B : Type 0} → Action A → (A → Action B) → Action B
◌>>=◌ m f w = continue (m w) f

abbrev pub ◌>>◌ : {A B : Type 0} → Action A → Action B → Action B
m >> k = m >>= λ _. k

-- `NOW()` and `time.Now()`.
abbrev pub at_now : {A : Type 0} → (ℕ → Action A) → Action A
at_now f w = f w.now w

abbrev pub pure : {A : Type 0} → A → Action A
pure a w = (ok a, w)

-- `Fail(w, code); return` under a test.
abbrev pub fail_if : Bool → ErrorCode → Action (Unit {0})
fail_if true c w = (fail c, w)
fail_if false c w = (ok tt, w)

abbrev pub or_fail : {A : Type 0} → Option A → ErrorCode → Reply A
or_fail none c = fail c
or_fail (some a) c = ok a

abbrev pub is_down : List Bool → Bool
is_down [] = false
is_down (b ∷ bs) = b

abbrev pub after_query : List Bool → List Bool
after_query [] = []
after_query (b ∷ bs) = bs

-- One query that only reads: `x, err := queries.Q(...); if err != nil { Fail(code); return }`.
unfoldable pub try_read : {A : Type 0} → ErrorCode → (Tables → Option A) → Action A
try_read c q w =
    let w' = record w { outages = after_query w.outages } in
    (if is_down w.outages then fail c else or_fail (q w.tables) c, w')

-- One query that writes, with its result.
unfoldable pub try_write : {A : Type 0} → ErrorCode → (Tables → Option A × Tables) → Action A
try_write c q w =
    let w' = record w { outages = after_query w.outages } in
    if is_down w.outages
    then (fail c, w')
    else (or_fail (q w.tables).0 c, record w' { tables = (q w.tables).1 })

-- The state after one query that changes nothing.
abbrev pub queried : World → World
queried w = record w { outages = after_query w.outages }

-- `_ = queries.Q(...)`.
unfoldable pub ignore_write : {A : Type 0} → (Tables → Option A × Tables) → Action (Unit {0})
ignore_write q w =
    let w' = record w { outages = after_query w.outages } in
    (ok tt, if is_down w.outages then w' else record w' { tables = (q w.tables).1 })

-- One call of internal/metrics or internal/audit.
abbrev pub emit : Entry → Action (Unit {0})
emit e w = (ok tt, record w { log = w.log ++ e ∷ [] })

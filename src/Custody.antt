-- ===== src/Custody.antt =====
-- The whole service of cmd/wallet-service/main.go: the HTTP requests on withdrawals and the loops behind
-- the API, in any order.
pub mod Grows
pub mod Solvency
pub mod Backed
use web3_blitz.Base.{List, [], ◌∷◌}
use web3_blitz.Api.Ledger.{Call, apply}
use web3_blitz.Wallet.Pipeline.{Service, Turn, turn}

-- A request or an outage, or a turn of one of the loops.
pub data Happening : Type 0 where
  request : Call → Happening
  background : Turn → Happening

-- Each is one step. The service runs handlers and loops concurrently, so a sequence of steps stands
-- for a run of it in which no request comes between the queries of another or of a turn.
abbrev pub happen : Happening → Service → Service
happen (request c) s = record s { world = apply c s.world }
happen (background t) s = turn t s

pub run_service : List Happening → Service → Service
run_service [] s = s
run_service (e ∷ es) s = run_service es (happen e s)

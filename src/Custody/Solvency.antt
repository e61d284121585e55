-- ===== src/Custody/Solvency.antt =====
-- Withdrawals stay covered by confirmed deposits while the whole service runs.
use web3_blitz.Base.{List, [], ◌∷◌, arith}
use web3_blitz.Db.Models.{Tables}
use web3_blitz.Api.Ledger.Rows.{HasFreshIds}
use web3_blitz.Api.Ledger.Change.{Changes-HasFreshIds, apply-Changes}
use web3_blitz.Api.Ledger.Solvency.{IsSolvent, IsAlone, apply-IsSolvent}
use web3_blitz.Wallet.Pipeline.{Service, turn}
use web3_blitz.Custody.{Happening, request, background, happen, run_service}
use web3_blitz.Custody.Grows.{Grows, turn-Grows}

-- Every request for a withdrawal comes when its user has none pending on its chain.
abbrev pub AllAlone : List Happening → Service → Type 0
AllAlone [] s = Unit
AllAlone (request c ∷ es) s = IsAlone c s.world × AllAlone es (happen (request c) s)
AllAlone (background t ∷ es) s = AllAlone es (happen (background t) s)

Grows-HasFreshIds : {t u : Tables} → Grows t u → HasFreshIds t → HasFreshIds u
Grows-HasFreshIds g h = record {
  increasing = rw g.withdrawals h.increasing;
  below = rw (g.withdrawals, g.seq) h.below;
}

Grows-IsSolvent : {t u : Tables} → Grows t u → IsSolvent t → IsSolvent u
Grows-IsSolvent g h user chain = rw g.withdrawals (omega (arith, h user chain, g.more user chain))

-- While requests on withdrawals, outages, requests for addresses, and the turns of both watchers,
-- of both consumers and of the checker happen in any order, with any answers of the nodes, but one
-- after another, each as a whole: if a user asks for a withdrawal on a chain only while none of his
-- is pending there, then the confirmed deposits of every user on every chain cover his completed
-- and pending withdrawals at the end, provided that they did at the start, and that the ids of the
-- rows of withdrawals were increasing and below the sequence's next value. Of requests that run at
-- the same time nothing is said: two reviews of one row can break the invariant, since they take no
-- lock and do not test the row's status again.
pub run_service-IsSolvent :
    (es : List Happening) (s : Service)
    → HasFreshIds s.world.tables
    → AllAlone es s
    → IsSolvent s.world.tables
    → IsSolvent (run_service es s).world.tables
unfolding run_service
run_service-IsSolvent [] s fresh alone h = h
run_service-IsSolvent (request c ∷ es) s fresh alone h =
    run_service-IsSolvent es (happen (request c) s)
      (Changes-HasFreshIds (apply-Changes c s.world fresh) fresh) alone.1
      (apply-IsSolvent c s.world fresh alone.0 h)
run_service-IsSolvent (background t ∷ es) s fresh alone h =
    let g = turn-Grows t s in
    run_service-IsSolvent es (turn t s) (Grows-HasFreshIds g fresh) alone (Grows-IsSolvent g h)

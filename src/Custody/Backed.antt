-- ===== src/Custody/Backed.antt =====
-- No deposit without a payment, while the whole service runs.
use web3_blitz.Base.{◌⊎◌, inl, inr, List, [], ◌∷◌, All}
use web3_blitz.Wallet.Consume.{DepositRecord}
use web3_blitz.Wallet.Pipeline.{Service, turn}
use web3_blitz.Wallet.Pipeline.Credits.{Credited, ShownIn, Holds, Holds-imp, turn-Holds}
use web3_blitz.Api.Ledger.{Call}
use web3_blitz.Api.Ledger.Deposits.{apply-deposits}
use web3_blitz.Custody.{Happening, request, background, happen, run_service}

-- A node has shown the payment in a turn of a watcher, with the registry of that moment.
abbrev pub Seen : List Happening → Service → DepositRecord → Type 0
Seen [] s d = ⊥
Seen (request c ∷ es) s d = Seen es (happen (request c) s) d
Seen (background t ∷ es) s d = ShownIn t s.registry d ⊎ Seen es (happen (background t) s) d

request-Holds :
    (P : DepositRecord → Type 0) (c : Call) (s : Service)
    → Holds P s
    → Holds P (happen (request c) s)
request-Holds P c s h = record {
  btc_queue = h.btc_queue;
  eth_queue = h.eth_queue;
  rows = rw (apply-deposits c s.world) h.rows;
}

-- What was seen before, in a turn, or in what comes after it.
regroup : (A B C : Type 0) → (A ⊎ B) ⊎ C → A ⊎ (B ⊎ C)
regroup A B C (inl (inl a)) = inl a
regroup A B C (inl (inr b)) = inr (inl b)
regroup A B C (inr c) = inr (inr c)

service-Holds :
    (P : DepositRecord → Type 0) (es : List Happening) (s : Service)
    → Holds P s
    → Holds (λ d. P d ⊎ Seen es s d) (run_service es s)
unfolding run_service
service-Holds P [] s h = Holds-imp P (λ d. P d ⊎ Seen [] s d) s (λ d p. inl p) h
service-Holds P (request c ∷ es) s h =
    service-Holds P es (happen (request c) s) (request-Holds P c s h)
service-Holds P (background t ∷ es) s h =
    let Q : DepositRecord → Type 0 = λ d. P d ⊎ ShownIn t s.registry d in
    let h' : Holds Q (turn t s) =
      turn-Holds Q t s (λ d k. inr k) (Holds-imp P Q s (λ d p. inl p) h) in
    Holds-imp (λ d. Q d ⊎ Seen es (turn t s) d) (λ d. P d ⊎ Seen (background t ∷ es) s d)
      (run_service es (turn t s)) (λ d. regroup (P d) _ _) (service-Holds Q es (turn t s) h')

-- From any state whose rows and channels hold only payments with the property `P`: while requests
-- on withdrawals, outages, requests for addresses, and the turns of both watchers, of both
-- consumers and of the checker happen in any order, with any answers of the nodes, each row of the
-- deposits is for one payment that has `P` or that a node has shown in a turn of a watcher, in a
-- block, to an address registered at that moment; the row has its transaction, address, user,
-- height and chain, and its amount to eight decimals.
pub run_service-Credited :
    (P : DepositRecord → Type 0) (es : List Happening) (s : Service)
    → All P s.btc_watcher.deposits
    → All P s.eth_watcher.deposits
    → All (Credited P) s.world.tables.deposits
    → All (Credited (λ d. P d ⊎ Seen es s d)) (run_service es s).world.tables.deposits
run_service-Credited P es s b e r =
    (service-Holds P es s (record { btc_queue = b; eth_queue = e; rows = r })).rows

-- ===== src/Tests/Loops.antt =====
-- The loops of the service together, and an election with one checker.
use web3_blitz.Base.{
  has_row, ℕ, ◌≡◌, ◌≢◌, ◌⊎◌, refl, ap, Bool, false, not, ◌&&◌, ◌||◌, Option, none, some, List, [],
  ◌∷◌, ◌==◌, All, if◌then◌else◌, arith, suc,
}
use web3_blitz.Effects.{World}
use web3_blitz.Wallet.Watch.Eth.{EthBlock, EthNode, scan_eth_blocks}
use web3_blitz.Wallet.Watch.Eth.Retry.{scan_twice_reorgs}
use web3_blitz.Wallet.Pipeline.{Service, scan_btc, receive_btc, confirm}
use web3_blitz.Wallet.Pipeline.Credits.{Credited}
use web3_blitz.Custody.{Happening, request, background, run_service}
use web3_blitz.Custody.Backed.{Seen, run_service-Credited}
use web3_blitz.Custody.Solvency.{AllAlone, run_service-IsSolvent}
use web3_blitz.Api.Ledger.{Call}
use web3_blitz.Api.Ledger.Rows.{HasFreshIds}
use web3_blitz.Api.Ledger.Charged.{charged}
use web3_blitz.Api.Ledger.Solvency.{IsSolvent}
use web3_blitz.Wallet.Election.{
  Etcd, waiting, elected, leads, grant, win, System, update, Reach, start, later, pick,
}
use web3_blitz.Wallet.Election.Leader.{one_leader}
use web3_blitz.Tests.Data.{world, manual, request as body_request}
use web3_blitz.Tests.Chains.{registry, btc_node, btc_watcher, eth_watcher}

abbrev empty : World
empty = record world { tables = record world.tables { deposits = [] } }

abbrev service : Service
service = record {
  registry = registry;
  btc_watcher = btc_watcher;
  eth_watcher = eth_watcher;
  world = empty;
}

-- A withdrawal, and then a payment that is found, written and confirmed.
abbrev happenings : List Happening
happenings =
    request (Call.withdraw_call manual body_request)
    ∷ background (scan_btc btc_node)
    ∷ background receive_btc
    ∷ background (confirm (record { btc_height = some 20; eth_height = none }))
    ∷ []

run_service-Credited_example :
    All
      (Credited (λ d. (d.height ≡ 0) ⊎ Seen happenings service d))
      (run_service happenings service).world.tables.deposits
run_service-Credited_example = run_service-Credited (λ d. d.height ≡ 0) happenings service tt tt tt

-- The same with a user who has a deposit.
abbrev funded : Service
funded = record service { world = world }

funded-HasFreshIds : HasFreshIds funded.world.tables
funded-HasFreshIds = record { increasing = tt; below = tt }

funded-AllAlone : AllAlone happenings funded
unfolding has_row
funded-AllAlone = (λ q e. refl, tt)

funded-IsSolvent : IsSolvent funded.world.tables
unfolding charged
funded-IsSolvent user chain = omega arith

run_service-IsSolvent_example : IsSolvent (run_service happenings funded).world.tables
run_service-IsSolvent_example =
    run_service-IsSolvent happenings funded funded-HasFreshIds funded-AllAlone funded-IsSolvent

-- Block 11 follows block 10; the node gives block 12 only at the second scan.
abbrev eleven : EthBlock
eleven = record { hash = 511; parent_hash = 510; transactions = [] }

abbrev first_answer : ℕ → Option EthBlock
first_answer h = if h == 11 then some eleven else none

abbrev eth_node : EthNode
eth_node = record { head = some 12; block = first_answer; hex_to_address = λ a. a }

scan_twice_reorgs_example :
    (scan_eth_blocks eth_node registry (scan_eth_blocks eth_node registry eth_watcher)).reorgs
    ≡ suc 0
scan_twice_reorgs_example =
    scan_twice_reorgs eth_node eth_node registry eth_watcher eleven 12 12 refl (omega arith) refl
      refl refl (omega arith) refl refl (λ e. omega arith) (λ e. omega arith)

-- An etcd that keeps the leases and the leader's key, and nothing else.
record Leases : Type 0 where
  key : Option ℕ
  live : ℕ → Bool
  known : ℕ → Bool

abbrev without : ℕ → Option ℕ → Option ℕ
without l none = none
without l (some m) = if m == l then none else some m

abbrev with_lease : ℕ → Leases → Leases
with_lease l s = record {
  key = s.key;
  live = λ m. m == l || s.live m;
  known = λ m. m == l || s.known m;
}

abbrev with_key : ℕ → Leases → Leases
with_key l s = record s { key = some l }

abbrev without_lease : ℕ → Leases → Leases
without_lease l s = record {
  key = without l s.key;
  live = λ m. s.live m && not (m == l);
  known = s.known;
}

without-other : (l m : ℕ) (k : Option ℕ) → m ≢ l → k ≡ some m → without l k ≡ some m
without-other l m k d e = rw e (ground arith)

abbrev etcd : Etcd
etcd = record {
  Store = Leases;
  holder = λ s. s.key;
  is_live = λ s. s.live;
  is_known = λ s. s.known;
  Granted = λ s l t. (s.known l ≡ false) × (t ≡ with_lease l s);
  Put = λ s l t. (s.key ≡ none) × (t ≡ with_key l s);
  Ended = λ s l t. t ≡ without_lease l s;
  granted_new = λ s t l g. g.0;
  granted_known = λ s t l m g. ap (λ (x : Leases). x.known m) g.1;
  granted_live = λ s t l m g. ap (λ (x : Leases). x.live m) g.1;
  granted_holder = λ s t l g. ap (λ (x : Leases). x.key) g.1;
  put_absent = λ s t l p. p.0;
  put_holder = λ s t l p. ap (λ (x : Leases). x.key) p.1;
  put_live = λ s t l m p. ap (λ (x : Leases). x.live m) p.1;
  put_known = λ s t l m p. ap (λ (x : Leases). x.known m) p.1;
  ended_live = λ s t l m e. ap (λ (x : Leases). x.live m) e;
  ended_holder = λ s t l m e d h. rw e (without-other l m s.key d h);
  ended_known = λ s t l m e. ap (λ (x : Leases). x.known m) e;
}

abbrev no_leases : Leases
no_leases = record { key = none; live = λ m. false; known = λ m. false }

abbrev won : System etcd
won = record {
  store = with_key 5 (with_lease 5 no_leases);
  pc =
      update etcd (update etcd (λ i. waiting) 0 (web3_blitz.Wallet.Election.granted 5)) 0
        (elected 5);
}

abbrev won-Reach : Reach etcd won
won-Reach =
    later (later (start no_leases) (pick 0 (grant (refl, refl)))) (pick 0 (win (refl, refl)))

abbrev checker : ℕ
checker = 0

one_leader_example : (checker ≡ checker) × (won.store.key ≡ some 5)
one_leader_example = one_leader etcd checker checker 5 5 won-Reach refl refl refl refl

-- ===== src/Tests/Chains.antt =====
-- The watchers, the sweep and the rotation of branches at concrete blocks and balances.
use web3_blitz.Base.{
  str_eq, if◌then◌else◌, ℕ, ◌≤◌, ◌+◌, ◌-◌, ◌*◌, ◌<◌, ◌≡◌, ◌⊎◌, refl, true, false, Option, some,
  List, [], ◌∷◌, ◌++◌, String, none, has_row, arith,
}
use web3_blitz.Db.Models.{btc, eth}
use web3_blitz.Effects.{Sent}
use web3_blitz.Money.{coin}
use web3_blitz.Wallet.Withdraw.{gas_limit}
use web3_blitz.Wallet.Registry.{Registry, lookup}
use web3_blitz.Wallet.Watch.Queue.{offer}
use web3_blitz.Wallet.Watch.Btc.{
  BtcNode, BtcTx, BtcWatcher, scan_new_blocks, process_blocks, process_block, process_txs,
  process_vouts, process_vout,
}
use web3_blitz.Wallet.Watch.Btc.Runs.{
  Round, tick, receive, run_rounds, AllFit, Delivers, run_rounds-Delivers,
}
use web3_blitz.Wallet.Watch.Eth.{
  EthNode, EthBlock, EthWatcher, process_transfers, process_eth_block, process_eth_blocks,
  scan_eth_blocks,
}
use web3_blitz.Wallet.Watch.Eth.Reorg.{IsChain, scan_eth_blocks-IsChain}
use web3_blitz.Wallet.Sweep.{Sweeper, good_key, sweep_btc, sweep_eth}
use web3_blitz.Wallet.Sweep.Surplus.{sweep_btc_lem, sweep_eth_lem}
use web3_blitz.Wallet.Address.{
  KeyTree, AddressResponse, address_at, parse_path, parse_from, deposit_path, decimal_from,
  index_from, generate_deposit_address,
}
use web3_blitz.Wallet.Address.Generate.{generate_deposit_address_lem}
use web3_blitz.Tests.Data.{node, world}

abbrev pub registry : Registry
registry = ("bc1mine", 7) ∷ []

abbrev btc_block : ℕ → Option (List BtcTx)
btc_block h =
    some
      (record { tx_id = "t1"; vout = record { address = "bc1mine"; value = 5 * coin } ∷ [] } ∷ [])

abbrev pub btc_node : BtcNode
btc_node = record { blocks = some 12; block = btc_block; decode_address = λ a. true }

abbrev pub btc_watcher : BtcWatcher
btc_watcher = record { last_height = 10; deposits = [] }

-- Two blocks, a receive, a node without an answer, and one more block.
abbrev rounds : List Round
rounds = tick (some 12) ∷ receive ∷ tick none ∷ tick (some 13) ∷ []

rounds-AllFit : AllFit btc_node registry rounds (btc_watcher, [])
unfolding scan_new_blocks process_blocks process_block process_txs process_vouts process_vout offer
    lookup
rounds-AllFit = let two_fit : 2 ≤ 100 = omega arith in (two_fit, (tt, (tt, (two_fit, tt))))

run_rounds-Delivers_example :
    Delivers btc_node registry
      (btc_watcher, [])
      (run_rounds btc_node registry rounds (btc_watcher, []))
run_rounds-Delivers_example =
    run_rounds-Delivers btc_node registry rounds (btc_watcher, []) rounds-AllFit

abbrev eth_block : ℕ → Option EthBlock
eth_block h = some (record { hash = h + 500; parent_hash = h + 499; transactions = [] })

abbrev eth_node : EthNode
eth_node = record { head = some 12; block = eth_block; hex_to_address = λ a. a }

abbrev pub eth_watcher : EthWatcher
eth_watcher = record { last_height = 10; last_hash = 510; deposits = []; reorgs = 0 }

eth_scans : (scan_eth_blocks eth_node registry eth_watcher).last_height ≡ 12
unfolding scan_eth_blocks process_eth_blocks process_eth_block process_transfers
eth_scans = refl

scan_eth_blocks-IsChain_example :
    IsChain eth_node
      (10 + 1)
      (12 - 10)
      510
      (scan_eth_blocks eth_node registry eth_watcher).last_hash
    × ((scan_eth_blocks eth_node registry eth_watcher).reorgs ≡ 0)
scan_eth_blocks-IsChain_example =
    scan_eth_blocks-IsChain eth_node registry eth_watcher 12 refl (omega arith) eth_scans

abbrev sweeper : Sweeper
sweeper = record {
  node = node;
  btc_balance = some (3 * coin);
  eth_balance = some (4 * coin);
  cancelled = false;
  cold_addr_btc = "bc1cold";
  cold_addr_eth = "0xcold";
  keep_btc = 10000000000000000;
  keep_eth = 100000000000000000;
  btc_fee_buffer = 100000000000000;
  hot_key = good_key;
}

sweep_btc_lem_example :
    ((sweep_btc sweeper world).sent ≡ [])
    ⊎ ((balance : ℕ) × (v : ℕ) × (tx : String) × (some (3 * coin) ≡ some balance)
        × (10000000000000000 + 100000000000000 < balance)
        × (node.new_amount (balance - 10000000000000000 - 100000000000000) ≡ some v)
        × ((sweep_btc sweeper world).sent
            ≡ [] ++ record { chain = btc; to = "bc1cold"; value = v; tx_id = tx } ∷ []))
sweep_btc_lem_example = sweep_btc_lem sweeper world

sweep_eth_lem_example :
    ((sweep_eth sweeper world).sent ≡ [])
    ⊎ ((balance : ℕ) × (price : ℕ) × (tx : Sent) × (some (4 * coin) ≡ some balance)
        × (node.suggest_gas_price ≡ some price)
        × (tx.to ≡ "0xcold")
        × (0 < tx.value)
        × (tx.value + gas_limit * price + 100000000000000000 ≡ balance)
        × ((sweep_eth sweeper world).sent ≡ [] ++ tx ∷ []))
sweep_eth_lem_example = sweep_eth_lem sweeper world

abbrev key_tree : KeyTree
key_tree = record { btc_address = λ p. some "bc1new"; eth_address = λ p. some "0xnew" }

abbrev response : AddressResponse
response = record { address = "0xnew"; path = "m/44'/60'/0'/0/55"; user_id = 7 }

generate_runs : (generate_deposit_address key_tree eth 7 registry world).0 ≡ some response
unfolding generate_deposit_address deposit_path decimal_from index_from
generate_runs = refl

-- The path of user 7, with its three hardened numbers.
path_parsed : parse_path "m/44'/60'/0'/0/55" ≡ 2147483692 ∷ 2147483708 ∷ 2147483648 ∷ 0 ∷ 55 ∷ []
unfolding parse_path parse_from
path_parsed = refl

generate_deposit_address_lem_example :
    (address_at key_tree eth (parse_path (deposit_path eth 7)) ≡ some "0xnew")
    × (response.user_id ≡ 7)
    × (lookup "bc1mine" (generate_deposit_address key_tree eth 7 registry world).1.0
        ≡ (if str_eq "0xnew" "bc1mine" then some 7 else lookup "bc1mine" registry))
    × (world.outages ≡ []
        → has_row
            (λ a. str_eq a.address "0xnew")
            (generate_deposit_address key_tree eth 7 registry world).1.1.tables.deposit_addresses
          ≡ true)
generate_deposit_address_lem_example =
    generate_deposit_address_lem key_tree eth 7 registry world response "bc1mine" generate_runs

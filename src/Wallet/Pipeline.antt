-- ===== src/Wallet/Pipeline.antt =====
-- A turn of each of the loops that cmd/wallet-service/main.go starts: the two watchers with
-- their channels, the two consumers, the checker, and the requests that register an address.
pub mod Credits
use web3_blitz.Base.{ℕ, List, [], ◌∷◌, String}
use web3_blitz.Db.Models.{Chain}
use web3_blitz.Effects.{World}
use web3_blitz.Wallet.Registry.{Registry}
use web3_blitz.Wallet.Address.{KeyTree, generate_deposit_address}
use web3_blitz.Wallet.Consume.{DepositRecord, consume}
use web3_blitz.Wallet.Watch.Btc.{BtcNode, BtcWatcher, scan_new_blocks}
use web3_blitz.Wallet.Watch.Eth.{EthNode, EthWatcher, scan_eth_blocks}
use web3_blitz.Wallet.Confirm.{Heights, check}

pub record Service : Type 0 where
  pub registry : Registry
  pub btc_watcher : BtcWatcher
  pub eth_watcher : EthWatcher
  pub world : World

-- One turn of one of the loops, with what the outside answers in it.
pub data Turn : Type 0 where
  generate : KeyTree → Chain → ℕ → Turn
  scan_btc : BtcNode → Turn
  scan_eth : EthNode → Turn
  receive_btc receive_eth : Turn
  confirm : Heights → Turn

-- `for deposit := range ch`: a consumer takes the oldest record of its channel.
abbrev pub received : String → List DepositRecord → World → List DepositRecord × World
received kind [] w = ([], w)
received kind (d ∷ ds) w = (ds, consume kind d w)

unfoldable pub turn : Turn → Service → Service
turn (generate t chain user) s =
    let (_, (r, w)) = generate_deposit_address t chain user s.registry s.world in
    record s { registry = r; world = w }
turn (scan_btc n) s = record s { btc_watcher = scan_new_blocks n s.registry s.btc_watcher }
turn (scan_eth n) s = record s { eth_watcher = scan_eth_blocks n s.registry s.eth_watcher }
turn receive_btc s =
    let x = received "BTC_deposit" s.btc_watcher.deposits s.world in
    record s { btc_watcher = record s.btc_watcher { deposits = x.0 }; world = x.1 }
turn receive_eth s =
    let x = received "ETH_deposit" s.eth_watcher.deposits s.world in
    record s { eth_watcher = record s.eth_watcher { deposits = x.0 }; world = x.1 }
turn (confirm h) s = record s { world = check h s.world }

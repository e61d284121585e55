-- ===== src/Wallet/Pipeline/Credits.antt =====
-- What a turn keeps: every record in a channel and every row of the deposits is for a payment.
use web3_blitz.Base.{ℕ, ◌≡◌, refl, inl, inr, List, [], ◌∷◌, String, arith, All, All-append, All-imp}
use web3_blitz.Money.{sprintf8}
use web3_blitz.Db.Models.{Chain, Deposit}
use web3_blitz.Db.Deposits.{new_deposit, create_deposit_address}
use web3_blitz.Effects.{World, ignore_write}
use web3_blitz.Wallet.Registry.{Registry}
use web3_blitz.Wallet.Address.{KeyTree, generate_deposit_address}
use web3_blitz.Wallet.Consume.{DepositRecord, deposit_params, consume}
use web3_blitz.Wallet.Consume.Outcome.{consume_outcome}
use web3_blitz.Wallet.Watch.Btc.Shown.{IsBtcPayment, scan_new_blocks-All}
use web3_blitz.Wallet.Watch.Eth.Shown.{IsEthPayment, scan_eth_blocks-All}
use web3_blitz.Wallet.Confirm.Kept.{check-All}
use web3_blitz.Wallet.Pipeline.{
  Service, Turn, generate, scan_btc, scan_eth, receive_btc, receive_eth, confirm, received, turn,
}

-- The row is the record's payment, confirmed or not.
pub record IsCredit (d : DepositRecord) (x : Deposit) : Type 0 where
  pub tx_id : x.tx_id ≡ d.tx_id
  pub address : x.address ≡ d.address
  pub user_id : x.user_id ≡ d.user_id
  pub amount : x.amount ≡ sprintf8 d.amount
  pub height : x.height ≡ d.height
  pub chain : x.chain ≡ d.chain

-- A row for one of the payments.
abbrev pub Credited : (DepositRecord → Type 0) → Deposit → Type 0
Credited P x = (d : DepositRecord) × P d × IsCredit d x

-- A node has shown the payment in this turn, with the registry of the moment.
abbrev pub ShownIn : Turn → Registry → DepositRecord → Type 0
ShownIn (scan_btc n) r d = IsBtcPayment n r d
ShownIn (scan_eth n) r d = IsEthPayment n r d
ShownIn t r d = ⊥

pub record Holds (P : DepositRecord → Type 0) (s : Service) : Type 0 where
  pub btc_queue : All P s.btc_watcher.deposits
  pub eth_queue : All P s.eth_watcher.deposits
  pub rows : All (Credited P) s.world.tables.deposits

Credited-imp :
    (P Q : DepositRecord → Type 0)
    → ((d : DepositRecord) → P d → Q d)
    → (x : Deposit) → Credited P x
    → Credited Q x
Credited-imp P Q f x (d, p, c) = (d, f d p, c)

pub Holds-imp :
    (P Q : DepositRecord → Type 0) (s : Service)
    → ((d : DepositRecord) → P d → Q d)
    → Holds P s
    → Holds Q s
Holds-imp P Q s f h = record {
  btc_queue = All-imp P Q _ f h.btc_queue;
  eth_queue = All-imp P Q _ f h.eth_queue;
  rows = All-imp (Credited P) (Credited Q) _ (Credited-imp P Q f) h.rows;
}

module _ (P : DepositRecord → Type 0) where
  consume-Credited :
      (kind : String) (d : DepositRecord) (w : World)
      → P d
      → All (Credited P) w.tables.deposits
      → All (Credited P) (consume kind d w).tables.deposits
  consume-Credited kind d w p h = elim (consume_outcome kind d w) [
    | inl i ↦ rw i.rows (
        let row = new_deposit i.id (deposit_params d) in
        let credit : IsCredit d row = record {
          tx_id = refl;
          address = refl;
          user_id = refl;
          amount = refl;
          height = refl;
          chain = refl;
        } in
        All-append (Credited P) w.tables.deposits (row ∷ []) h ((d, p, credit), tt))
    | inr (_, same, _) ↦ rw same h
  ]

  received-Credited :
      (kind : String) (ds : List DepositRecord) (w : World)
      → All P ds
      → All (Credited P) w.tables.deposits
      → All P (received kind ds w).0 × All (Credited P) (received kind ds w).1.tables.deposits
  received-Credited kind [] w p h = (p, h)
  received-Credited kind (d ∷ ds) w p h = (p.1, consume-Credited kind d w p.0 h)

  generate-deposits :
      (t : KeyTree) (chain : Chain) (user : ℕ) (r : Registry) (w : World)
      → (generate_deposit_address t chain user r w).1.1.tables.deposits ≡ w.tables.deposits
  unfolding generate_deposit_address ignore_write create_deposit_address
  generate-deposits t chain user r w = ground arith

  confirmed-Credited : (x : Deposit) → Credited P x → Credited P (record x { confirmed = 1 })
  confirmed-Credited x (d, p, c) = (
    d,
    p,
    record {
      tx_id = c.tx_id;
      address = c.address;
      user_id = c.user_id;
      amount = c.amount;
      height = c.height;
      chain = c.chain;
    },
  )

-- What holds of the payments that were seen, with those of the turn, holds after the turn.
pub turn-Holds :
    (P : DepositRecord → Type 0) (t : Turn) (s : Service)
    → ((d : DepositRecord) → ShownIn t s.registry d → P d)
    → Holds P s
    → Holds P (turn t s)
unfolding turn
turn-Holds P (generate t chain user) s f h = record {
  btc_queue = h.btc_queue;
  eth_queue = h.eth_queue;
  rows = rw (generate-deposits P t chain user s.registry s.world) h.rows;
}
turn-Holds P (scan_btc n) s f h = record {
  btc_queue = scan_new_blocks-All n s.registry P f s.btc_watcher h.btc_queue;
  eth_queue = h.eth_queue;
  rows = h.rows;
}
turn-Holds P (scan_eth n) s f h = record {
  btc_queue = h.btc_queue;
  eth_queue = scan_eth_blocks-All n s.registry P f s.eth_watcher h.eth_queue;
  rows = h.rows;
}
turn-Holds P receive_btc s f h =
    let (queue, rows) =
      received-Credited P "BTC_deposit" s.btc_watcher.deposits s.world h.btc_queue h.rows in
    record { btc_queue = queue; eth_queue = h.eth_queue; rows = rows }
turn-Holds P receive_eth s f h =
    let (queue, rows) =
      received-Credited P "ETH_deposit" s.eth_watcher.deposits s.world h.eth_queue h.rows in
    record { btc_queue = h.btc_queue; eth_queue = queue; rows = rows }
turn-Holds P (confirm heights) s f h = record {
  btc_queue = h.btc_queue;
  eth_queue = h.eth_queue;
  rows = check-All (Credited P) (confirmed-Credited P) heights s.world h.rows;
}

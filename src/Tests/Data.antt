-- ===== src/Tests/Data.antt =====
-- One user with confirmed deposits, an administrator, and nodes that answer.
use web3_blitz.Base.{◌*◌, true, false, some, none, [], ◌∷◌}
use web3_blitz.Base.Int.{pos}
use web3_blitz.Db.Models.{eth, Deposit, User, WithdrawalLimit, Tables}
use web3_blitz.Effects.{World}
use web3_blitz.Money.{coin}
use web3_blitz.Wallet.Node.{Node}
use web3_blitz.Api.Request.{Method, Request, Claims}
use web3_blitz.Api.Withdraw.{Env, WithdrawBody, WithdrawRequest}

abbrev pub node : Node
node = record {
  decode_address = λ s. true;
  new_amount = λ a. some 50000000;
  send_to_address = λ to s. some "btc-tx";
  transaction_fee = λ s. none;
  is_hex_address = λ s. true;
  hex_to_address = λ s. s;
  pending_nonce = some 4;
  suggest_gas_price = some 30000000000;
  chain_id = some 1;
  sign_tx = λ tx. some "0xaa";
  send_transaction = λ s. true;
  lost_to_address = λ to s. none;
  lost_transaction = λ s. false;
}

-- The node refuses every transaction.
abbrev refusing : Node
refusing = record node { send_transaction = λ s. false; send_to_address = λ to s. none }

-- Its errors are lost answers.
abbrev losing : Node
losing = record refusing { lost_transaction = λ s. true; lost_to_address = λ to s. some "btc-tx" }

abbrev pub manual : Env
manual = record {
  node = node;
  hot_key = true;
  auto_approve = false;
  etcd_up = true;
  lost_txn = false;
  revokes = true;
}

abbrev pub auto : Env
auto = record manual { auto_approve = true }

abbrev pub refused : Env
refused = record manual { node = refusing }

abbrev pub lost : Env
lost = record manual { node = losing }

abbrev deposit : Deposit
deposit = record {
  id = 1;
  tx_id = "0xdd";
  address = "0xmine";
  user_id = 7;
  amount = 500000000;
  height = 90;
  confirmed = 1;
  chain = eth;
}

abbrev user : User
user = record { id = 7; level = 0; username = "ann"; email = "ann@x"; password = "hash" }

abbrev limit : WithdrawalLimit
limit = record {
  id = 1;
  level = 0;
  level_name = "normal";
  btc_daily = pos 100000000;
  eth_daily = pos 1000000000;
}

abbrev pub tables : Tables
tables = record {
  deposits = deposit ∷ [];
  withdrawals = [];
  deposit_addresses = [];
  users = user ∷ [];
  refresh_tokens = [];
  reset_tokens = [];
  limits = limit ∷ [];
  dead_letters = [];
  roles = [];
  permissions = [];
  role_permissions = [];
  user_roles = [];
  deposit_seq = 2;
  withdrawal_seq = 1;
  address_seq = 1;
  user_seq = 8;
  refresh_seq = 1;
  reset_seq = 1;
  dead_letter_seq = 1;
}

abbrev pub world : World
world = record { tables = tables; outages = []; now = 1000; held = []; sent = []; log = [] }

abbrev pub claims : Claims
claims = record { user_id = 7; username = "ann" }

abbrev pub admin : Claims
admin = record { user_id = 1; username = "root" }

abbrev pub body : WithdrawBody
body = record { to_address = "0xto"; amount = pos (2 * coin); chain = eth }

abbrev pub request : Request WithdrawBody
request = record { method = Method.post; claims = some claims; body = some body }

abbrev pub accepted : WithdrawRequest
accepted = record { user = 7; to_address = "0xto"; amount = 2 * coin; chain = eth }

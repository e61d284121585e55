-- ===== src/Start.antt =====
-- cmd/wallet-service/main.go: what the service checks before it serves. A text is the list of its
-- bytes; the environment gives an empty text for a variable that is not set.
use web3_blitz.Base.{
  ◌≤◌, ◌≡◌, Bool, true, false, not, ◌||◌, [], String, length, ltb, arith, if◌then◌else◌,
}
use web3_blitz.Codegen.{Text, text}
use web3_blitz.Mail.{or_default, text_eq}

-- The exits with the status 1, in their order.
data Refusal : Type 0 where
  no_passphrase no_seed no_database no_etcd no_secret weak_secret : Refusal

-- Which of the calls succeed.
record Answers : Type 0 where
  pub passphrase : Bool
  pub seed : Bool
  pub database : Bool
  pub audit : Bool
  pub etcd : Bool

-- What the components are built with.
record Settings : Type 0 where
  pub seed_file : Text
  pub audit_path : Text
  pub audit_on : Bool
  pub etcd_endpoints : Text
  pub btc_rpc_host : Text
  pub eth_rpc_host : Text
  pub hot_key_hex : Text
  pub jwt_secret : Text
  pub port : Text

data Started : Type 0 where
  refused : Refusal → Started
  serving : Settings → Started

abbrev known_secret : Text
known_secret = text "dev-secret-change-in-production"

abbrev settings : (String → Text) → Answers → Settings
settings env a = record {
  seed_file = or_default (env "SEED_FILE") (text "configs/secrets/hd-seed.enc");
  audit_path = or_default (env "AUDIT_LOG_PATH") (text "data/audit.log");
  audit_on = a.audit;
  etcd_endpoints = or_default (env "ETCD_ENDPOINTS") (text "localhost:2379");
  btc_rpc_host = or_default (env "BTC_RPC_HOST") (text "localhost:18443/wallet/blitz_wallet");
  eth_rpc_host = or_default (env "ETH_RPC_HOST") (text "http://localhost:8545");
  hot_key_hex = env "ETH_HOT_WALLET_KEY";
  jwt_secret = env "JWT_SECRET";
  port = or_default (env "PORT") (text "2113");
}

-- The tests of the secret.
unfoldable check_secret : Text → Settings → Started
check_secret secret s =
    if text_eq secret []
    then refused no_secret
    else if text_eq secret known_secret || ltb (length secret) 32
    then refused weak_secret
    else serving s

-- `main`, up to the start of the loops and of the server.
unfoldable start_service : (String → Text) → Answers → Started
start_service env a =
    if not a.passphrase
    then refused no_passphrase
    else if not a.seed
    then refused no_seed
    else if not a.database
    then refused no_database
    else if not a.etcd
    then refused no_etcd
    else check_secret (env "JWT_SECRET") (settings env a)

-- A service that serves has read its seed, reaches its database and etcd, and signs its tokens with
-- a secret of at least 32 bytes that is not the known one; without an audit file it serves all the
-- same.
start_service-serving :
    (env : String → Text) (a : Answers) {s : Settings}
    → start_service env a ≡ serving s
    → (s ≡ settings env a)
      × (32 ≤ length s.jwt_secret)
      × (text_eq s.jwt_secret known_secret ≡ false)
      × (a.seed ≡ true)
      × (a.database ≡ true)
      × (a.etcd ≡ true)
unfolding start_service check_secret
start_service-serving env a h = ground arith

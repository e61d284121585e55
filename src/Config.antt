-- ===== src/Config.antt =====
-- internal/config: the clients that every component shares, and the watcher that replaces them when
-- etcd announces a new host. A client is known by the host that it is connected to; the mutex of a
-- holder makes the calls of `Get` and `Set` a sequence.
pub mod Current
use web3_blitz.Base.{ℕ, Bool, true, false, List, [], ◌∷◌, String, str_eq, if◌then◌else◌}

-- `BTCRPCHolder` and `ETHRPCHolder`.
pub record Holders : Type 0 where
  pub btc_rpc : String
  pub eth_rpc : String

abbrev key_btc_rpc_host : String
key_btc_rpc_host = "/blitz/config/btc_rpc_host"

abbrev key_eth_rpc_host : String
key_eth_rpc_host = "/blitz/config/eth_rpc_host"

-- An event, with whether a client for its value can be made.
pub record Event : Type 0 where
  pub key : String
  pub value : String
  pub connects : Bool

-- `handleEvent`.
unfoldable handle_event : Event → Holders → Holders
handle_event e h =
    if str_eq e.key key_btc_rpc_host
    then (if e.connects then record h { btc_rpc = e.value } else h)
    else if str_eq e.key key_eth_rpc_host
    then (if e.connects then record h { eth_rpc = e.value } else h)
    else h

-- The loop over the events of a response, and over the responses, in `Start`.
unfoldable handle_events : List Event → Holders → Holders
handle_events [] h = h
handle_events (e ∷ es) h = handle_events es (handle_event e h)

pub start : List (List Event) → Holders → Holders
start [] h = h
start (r ∷ rs) h = start rs (handle_events r h)

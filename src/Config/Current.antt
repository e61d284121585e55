-- ===== src/Config/Current.antt =====
-- Which host a component uses.
use web3_blitz.Base.{
  ◌≡◌, refl, ◌∙◌, ap, true, false, ◌&&◌, List, [], ◌∷◌, ◌++◌, String, str_eq, eq_iff, arith,
  if◌then◌else◌,
}
use web3_blitz.Config.{
  Holders, key_btc_rpc_host, key_eth_rpc_host, Event, handle_event, handle_events, start,
}

-- The value of the last event on the key for which a client could be made.
unfoldable last_host : String → String → List Event → String
last_host key default [] = default
last_host key default (e ∷ es) =
    last_host key (if str_eq e.key key && e.connects then e.value else default) es

keys_differ : (k : String) → str_eq k key_btc_rpc_host ≡ true → str_eq k key_eth_rpc_host ≡ false
keys_differ k h = rw ((eq_iff k key_btc_rpc_host).0 h) refl

event_lem :
    (e : Event) (h : Holders)
    → handle_event e h ≡ record {
      btc_rpc = if str_eq e.key key_btc_rpc_host && e.connects then e.value else h.btc_rpc;
      eth_rpc = if str_eq e.key key_eth_rpc_host && e.connects then e.value else h.eth_rpc;
    }
unfolding handle_event
event_lem e h = ground (arith, keys_differ e.key)

events_lem :
    (es : List Event) (h : Holders)
    → handle_events es h ≡ record {
      btc_rpc = last_host key_btc_rpc_host h.btc_rpc es;
      eth_rpc = last_host key_eth_rpc_host h.eth_rpc es;
    }
unfolding handle_events last_host
events_lem [] h = refl
events_lem (e ∷ es) h = ap (handle_events es) (event_lem e h) ∙ events_lem es _

last_host-append :
    (key : String) (default : String) (es fs : List Event)
    → last_host key default (es ++ fs) ≡ last_host key (last_host key default es) fs
unfolding last_host
last_host-append key default [] fs = refl
last_host-append key default (e ∷ es) fs =
    last_host-append key (if str_eq e.key key && e.connects then e.value else default) es fs

abbrev all_events : List (List Event) → List Event
all_events [] = []
all_events (r ∷ rs) = r ++ all_events rs

-- Over any responses of etcd, the client of each chain is the one for the last value on the chain's
-- key for which a client could be made, or the one from the start: a value that does not connect,
-- and an event on another key, change nothing.
start_lem :
    (rs : List (List Event)) (h : Holders)
    → start rs h ≡ record {
      btc_rpc = last_host key_btc_rpc_host h.btc_rpc (all_events rs);
      eth_rpc = last_host key_eth_rpc_host h.eth_rpc (all_events rs);
    }
unfolding start
start_lem [] h = unfold last_host in refl
start_lem (r ∷ rs) h =
    ap (start rs) (events_lem r h)
    ∙ start_lem rs _
    ∙ cc (
      last_host-append key_btc_rpc_host h.btc_rpc r (all_events rs),
      last_host-append key_eth_rpc_host h.eth_rpc r (all_events rs),
    )

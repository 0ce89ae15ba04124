-- ===== src/Tests/Datagrams.antt =====
-- The UDP relay at concrete flows.
use trans_proxy.Base.{map, false, ◌≡◌, ◌≢◌, refl, [], ◌∷◌, arith, none}
use native.Mathlib.Decide.{ℕ_discrete}
use trans_proxy.Net.{v4, IpAddr-discrete, SocketAddr-discrete}
use trans_proxy.Tunnel.Handshake.Exact.{bound_domain}
use trans_proxy.Udp.{
  SessionKey, SessionKey-discrete, Session, Sessions, new_sessions, dispatch, get_sender,
  remove_entry, drop_entry, disconnect, send, is_receiving, spawn, end_session, forget, stop,
  to_client, from_relay, session_turn,
}
use trans_proxy.Udp.Flows.{Reach, start, next, dispatched, finished}
use trans_proxy.Udp.Delivery.{
  Untouched, relayed, Taken, dispatch-of_flow, dispatch-recovers, session_turn-from_relay,
}
use trans_proxy.Tests.Data.{client, site_bytes}

abbrev flow : SessionKey
flow = record { client = client; orig_dst = record { ip = v4 1 1 1 1; port = 443 } }

abbrev other_flow : SessionKey
other_flow = record { client = client; orig_dst = record { ip = v4 8 8 8 8; port = 443 } }

-- A session of the flow has ended, and its task has not yet removed its entry.
abbrev ended : Sessions
ended = end_session 0 (dispatch flow (1 ∷ []) new_sessions)

ended-Reach : Reach ended
ended-Reach =
    next (next start (dispatched new_sessions flow (1 ∷ [])))
      (finished (dispatch flow (1 ∷ []) new_sessions) 0)

flows_differ : other_flow ≢ flow
flows_differ = ground arith

dispatch-of_flow_example : Untouched other_flow ended (dispatch flow (2 ∷ []) ended)
dispatch-of_flow_example = dispatch-of_flow ended other_flow flow (2 ∷ []) ended-Reach flows_differ

dispatch-recovers_example :
    Taken flow (3 ∷ []) (dispatch flow (3 ∷ []) (dispatch flow (2 ∷ []) ended)).tasks
dispatch-recovers_example = dispatch-recovers ended flow (2 ∷ []) (3 ∷ []) ended-Reach

session_turn-from_relay_example :
    session_turn flow none (from_relay (relayed 0 0 0 (bound_domain site_bytes) 1 187 (9 ∷ 9 ∷ [])))
    ≡ to_client flow.orig_dst client (9 ∷ 9 ∷ [])
session_turn-from_relay_example =
    session_turn-from_relay flow none 0 0 0 1 187 (bound_domain site_bytes) (9 ∷ 9 ∷ [])
      (omega arith)

-- The task of a session that has ended removes the entry of the session that took its place, which
-- still runs and loses its channel.
abbrev replaced : Sessions
replaced = dispatch flow (3 ∷ []) (dispatch flow (2 ∷ []) ended)

late_removal :
    (get_sender flow (forget flow replaced).map ≡ none)
    × (map (λ (s : Session). s.connected) (forget flow replaced).tasks ≡ false ∷ false ∷ [])
unfolding drop_entry disconnect dispatch end_session forget get_sender remove_entry send
    is_receiving spawn stop new_sessions SessionKey-discrete SocketAddr-discrete IpAddr-discrete
    ℕ_discrete
late_removal = (refl, refl)

-- ===== src/Udp.antt =====
-- The transparent UDP relay, src/udp.rs: the table of sessions with the channels to them, one
-- function for each thing that happens, and one for each turn of `run_session`. A session is a
-- number, given in the order of creation; the channel's receiver lives as long as its task runs
-- `run_session`. Sockets, and the receiving of a datagram with its destination, are the environment's.

pub mod Flows
pub mod Delivery
use trans_proxy.Base.{
  ℕ, suc, ◌+◌, ◌≡◌, true, false, Bool, not, List, [], ◌∷◌, ◌++◌, ◌==◌, Bytes, drop, if◌then◌else◌,
  Option, none, some, Run, ret, fail, panic, spin,
}
use trans_proxy.Net.{IpAddr, SocketAddr, SocketAddr-discrete}
use trans_proxy.Tunnel.Request.{encode_socks5_udp, socks5_udp_payload_offset}

-- `SessionKey`.
pub record SessionKey : Type 0 where
  pub client : SocketAddr
  pub orig_dst : SocketAddr

unfoldable pub SessionKey-discrete : Discrete SessionKey
SessionKey-discrete = hlevel SocketAddr-discrete

-- A channel with its receiver: what was sent and not yet received, whether the sender in the table
-- lives, and whether the receiver does.
pub record Session : Type 0 where
  pub id : ℕ
  pub key : SessionKey
  pub queue : List Bytes
  pub connected : Bool
  pub receiving : Bool

-- The table by key, the tasks that were spawned, and the next session's number.
pub record Sessions : Type 0 where
  pub map : List (SessionKey × ℕ)
  pub tasks : List Session
  pub next_id : ℕ

unfoldable pub new_sessions : Sessions
new_sessions = record { map = []; tasks = []; next_id = 0 }

abbrev pub decided {ℓ} : {A : Type ℓ} {P : Type 0} → Dec P → A → A → A
decided (yes _) a b = a
decided (no _) a b = b

unfoldable pub get_sender : SessionKey → List (SessionKey × ℕ) → Option ℕ
get_sender k [] = none
get_sender k ((j, id) ∷ m) = decided (SessionKey-discrete k j) (some id) (get_sender k m)

unfoldable pub remove_entry : SessionKey → List (SessionKey × ℕ) → List (SessionKey × ℕ)
remove_entry k [] = []
remove_entry k ((j, id) ∷ m) =
    let rest = remove_entry k m in decided (SessionKey-discrete k j) rest ((j, id) ∷ rest)

-- Whether `tx.send(payload)` succeeds, and the channel with the payload.
unfoldable pub is_receiving : ℕ → List Session → Bool
is_receiving id [] = false
is_receiving id (s ∷ ss) =
    let later = is_receiving id ss in if s.id == id then s.receiving else later

unfoldable pub send : ℕ → Bytes → List Session → List Session
send id payload [] = []
send id payload (s ∷ ss) =
    let rest = send id payload ss in
    if s.id == id then record s { queue = s.queue ++ payload ∷ [] } ∷ ss else s ∷ rest

-- The sender of a channel is dropped.
unfoldable pub disconnect : ℕ → List Session → List Session
disconnect id [] = []
disconnect id (s ∷ ss) =
    let rest = disconnect id ss in
    if s.id == id then record s { connected = false } ∷ rest else s ∷ rest

-- `map.remove(&key)`: with the entry its sender goes.
unfoldable pub drop_entry : SessionKey → Sessions → Sessions
drop_entry k st = elim (get_sender k st.map) [
  | none ↦ st
  | some id ↦ record st { map = remove_entry k st.map; tasks = disconnect id st.tasks }
]

-- The rest of `dispatch`, where the table has no entry: a channel, an entry and a task. An entry that
-- the new one replaced would go with its sender.
unfoldable pub spawn : SessionKey → Bytes → Sessions → Sessions
spawn k payload st =
    let before : Sessions = drop_entry k st in
    let session : Session = record {
      id = st.next_id;
      key = k;
      queue = payload ∷ [];
      connected = true;
      receiving = true;
    } in
    record {
      map = (k, st.next_id) ∷ before.map;
      tasks = before.tasks ++ session ∷ [];
      next_id = suc st.next_id;
    }

unfoldable pub dispatch : SessionKey → Bytes → Sessions → Sessions
dispatch k payload st = elim (get_sender k st.map) [
  | none ↦ spawn k payload st
  | some id ↦
      if is_receiving id st.tasks
      then record st { tasks = send id payload st.tasks }
      else drop_entry k st
]

-- What `rx.recv()` returns, if it is ready: the oldest payload in the channel, or `None` where there is
-- none and the sender is gone.
unfoldable pub recv : Session → Option (Option Bytes)
recv s = elim s.queue [
  | [] ↦ if s.connected then none else some none
  | payload ∷ _ ↦ some (some payload)
]

-- The channel after `rx.recv()` has returned.
unfoldable pub receive : ℕ → List Session → List Session
receive id [] = []
receive id (s ∷ ss) =
    let rest = receive id ss in
    if s.id == id then record s { queue = drop 1 s.queue } ∷ rest else s ∷ rest

-- `run_session` of this session returns: its receiver is dropped.
unfoldable pub stop : ℕ → List Session → List Session
stop id [] = []
stop id (s ∷ ss) =
    let rest = stop id ss in
    if s.id == id then record s { receiving = false; queue = [] } ∷ rest else s ∷ rest

unfoldable pub take_payload : ℕ → Sessions → Sessions
take_payload id st = record st { tasks = receive id st.tasks }

unfoldable pub end_session : ℕ → Sessions → Sessions
end_session id st = record st { tasks = stop id st.tasks }

-- The task's last act: the entry under its key is removed, whichever session it is of, with its
-- sender.
unfoldable pub forget : SessionKey → Sessions → Sessions
forget k st = drop_entry k st

-- One turn of the select in `run_session`, with what is sent and where, and how the session ends.
pub data SessionEvent : Type 0 where
  from_client : Option Bytes → SessionEvent
  from_relay : Bytes → SessionEvent
  control_read : Option ℕ → SessionEvent
  relay_failed : SessionEvent
  idle : SessionEvent

pub data Output : Type 0 where
  to_relay : Bytes → Output
  to_client : SocketAddr → SocketAddr → Bytes → Output
  done : Output
  error : Output
  nothing : Output

-- `&rbuf[off..n]` sent from the destination's address to the client.
unfoldable pub reply_to_client : SessionKey → Bytes → Run ℕ → Output
reply_to_client k datagram (ret off) = to_client k.orig_dst k.client (drop off datagram)
reply_to_client k datagram fail = nothing
reply_to_client k datagram panic = error
reply_to_client k datagram spin = error

-- Every error of a socket ends the session, as in `error`; a reply that cannot be sent does not.
unfoldable pub session_turn : SessionKey → Option Bytes → SessionEvent → Output
session_turn k hostname (from_client none) = done
session_turn k hostname (from_client (some payload)) =
    to_relay (encode_socks5_udp k.orig_dst hostname payload)
session_turn k hostname (from_relay datagram) =
    reply_to_client k datagram (socks5_udp_payload_offset datagram)
session_turn k hostname (control_read none) = error
session_turn k hostname (control_read (some n)) = if n == 0 then done else nothing
session_turn k hostname relay_failed = error
session_turn k hostname idle = done

-- ===== src/Udp/Delivery.antt =====
-- Where the datagrams of src/udp.rs go, from the client to the sessions of their flow and through
-- the proxy back.
use trans_proxy.Base.{
  ℕ, ◌≡◌, ◌≢◌, ◌⊎◌, inl, inr, refl, sym, ap, ◌∙◌, true, false, List, [], ◌∷◌, ◌++◌, arith, ◌==◌,
  Bytes, Option, none, some, Bool-cases, Option-cases, ne→==-false,
}
use trans_proxy.Tunnel.Request.{udp_offset, socks5_udp_payload_offset}
use trans_proxy.Tunnel.Handshake.Exact.{
  Bound, bound_v4, bound_domain, bound_v6, IsBound, bound_type, bound_bytes,
}
use trans_proxy.Base.{
  ◌+◌, false, ltb, length, drop, byte-drop, le→leb, length-append, drop-append, append_assoc, ret,
  fail, if◌then◌else◌,
}
use trans_proxy.Udp.{
  SessionKey, SessionKey-discrete, Session, Sessions, decided, get_sender, remove_entry, disconnect,
  drop_entry, is_receiving, send, spawn, dispatch, to_client, from_relay, nothing, reply_to_client,
  session_turn,
}
use trans_proxy.Udp.Flows.{Owned, Below, Entries, IsFlows, Reach, Reach-IsFlows, dispatch-IsFlows}

-- The sessions of a flow.
abbrev pub of_flow : SessionKey → List Session → List Session
of_flow k [] = []
of_flow k (s ∷ ss) = decided (SessionKey-discrete k s.key) (s ∷ of_flow k ss) (of_flow k ss)

decided-no {ℓ} : {A : Type ℓ} {P : Type 0} (d : Dec P) (a b : A) → (P → ⊥) → decided d a b ≡ b
decided-no (yes p) a b h = absurd (h p)
decided-no (no p) a b h = refl

decided-yes {ℓ} : {A : Type ℓ} {P : Type 0} (d : Dec P) (a b : A) → P → decided d a b ≡ a
decided-yes (yes p) a b h = refl
decided-yes (no p) a b h = absurd (p h)

of_flow-last :
    (j : SessionKey) (ss : List Session) (s : Session)
    → j ≢ s.key
    → of_flow j (ss ++ s ∷ []) ≡ of_flow j ss
of_flow-last j [] s ne = decided-no (SessionKey-discrete j s.key) _ _ ne
of_flow-last j (t ∷ ss) s ne =
    ap (λ r. decided (SessionKey-discrete j t.key) (t ∷ r) r) (of_flow-last j ss s ne)

of_flow-send :
    (j k : SessionKey) (id : ℕ) (payload : Bytes) (ss : List Session)
    → j ≢ k
    → Owned id k ss
    → of_flow j (send id payload ss) ≡ of_flow j ss
unfolding send
of_flow-send j k id payload [] ne o = refl
of_flow-send j k id payload (s ∷ ss) ne (here, o) = elim (Bool-cases (s.id == id)) [
  | inr e ↦ rw e (
      ap (λ r. decided (SessionKey-discrete j s.key) (s ∷ r) r)
        (of_flow-send j k id payload ss ne o))
  | inl e ↦
      let other : j ≢ s.key = elim here [
        | inl h ↦ absurd (h (ground arith))
        | inr h ↦ λ q. ne (q ∙ h)
      ] in
      rw e (
        decided-no (SessionKey-discrete j s.key) _ _ other
        ∙ sym (decided-no (SessionKey-discrete j s.key) _ _ other))
]

get_sender-Owned :
    (n : ℕ) (ss : List Session) (k : SessionKey) (m : List (SessionKey × ℕ)) (id : ℕ)
    → Entries n ss m
    → get_sender k m ≡ some id
    → Owned id k ss
unfolding get_sender
get_sender-Owned n ss k [] id e h = cc
get_sender-Owned n ss k ((j, i) ∷ m) id (lt, o, e) h =
    pick (λ q. get_sender-Owned n ss k m id e q) (SessionKey-discrete k j) h
  where
    pick :
        (get_sender k m ≡ some id → Owned id k ss)
        → (d : Dec (k ≡ j)) → decided d (some i) (get_sender k m) ≡ some id
        → Owned id k ss
    pick later (yes p) q = let same : i ≡ id = cc in rw (p, ← same) o
    pick later (no p) q = later q

of_flow-disconnect :
    (j k : SessionKey) (id : ℕ) (ss : List Session)
    → j ≢ k
    → Owned id k ss
    → of_flow j (disconnect id ss) ≡ of_flow j ss
unfolding disconnect
of_flow-disconnect j k id [] ne o = refl
of_flow-disconnect j k id (s ∷ ss) ne (here, o) =
    let later = of_flow-disconnect j k id ss ne o in
    elim (Bool-cases (s.id == id)) [
      | inr e ↦ rw e (ap (λ r. decided (SessionKey-discrete j s.key) (s ∷ r) r) later)
      | inl e ↦
          let other : j ≢ s.key = elim here [
            | inl h ↦ absurd (h (ground arith))
            | inr h ↦ λ q. ne (q ∙ h)
          ] in
          rw e (
            decided-no (SessionKey-discrete j s.key) _ _ other
            ∙ later
            ∙ sym (decided-no (SessionKey-discrete j s.key) _ _ other))
    ]

get_sender-remove_other :
    (j k : SessionKey) (m : List (SessionKey × ℕ))
    → j ≢ k
    → get_sender j (remove_entry k m) ≡ get_sender j m
unfolding get_sender remove_entry
get_sender-remove_other j k [] ne = refl
get_sender-remove_other j k ((i, id) ∷ m) ne =
    elim (SessionKey-discrete k i)
      as (λ d.
        get_sender j (decided d (remove_entry k m) ((i, id) ∷ remove_entry k m))
        ≡ decided (SessionKey-discrete j i) (some id) (get_sender j m)) [
          | yes p ↦
              get_sender-remove_other j k m ne
              ∙ sym (decided-no (SessionKey-discrete j i) _ _ λ q. ne (q ∙ sym p))
          | no p ↦
              ap (decided (SessionKey-discrete j i) (some id)) (get_sender-remove_other j k m ne)
        ]

-- What another flow has: its sessions, and the session that its entry leads to.
abbrev pub Untouched : SessionKey → Sessions → Sessions → Type 0
Untouched j st st' =
    (of_flow j st'.tasks ≡ of_flow j st.tasks) × (get_sender j st'.map ≡ get_sender j st.map)

drop_entry-Untouched :
    (st : Sessions) (j k : SessionKey) → IsFlows st → j ≢ k → Untouched j st (drop_entry k st)
unfolding drop_entry
drop_entry-Untouched st j k h ne = elim (Option-cases (get_sender k st.map)) [
  | inl absent ↦ rw (drop_entry, absent) (refl, refl)
  | inr (id, found) ↦
      rw (drop_entry, found)
        (
          of_flow-disconnect j k id st.tasks ne
              (get_sender-Owned st.next_id st.tasks k st.map id h.0 found),
          get_sender-remove_other j k st.map ne,
        )
]

get_sender-other :
    (j k : SessionKey) (id : ℕ) (m : List (SessionKey × ℕ))
    → j ≢ k
    → get_sender j ((k, id) ∷ m) ≡ get_sender j m
unfolding get_sender
get_sender-other j k id m ne = decided-no (SessionKey-discrete j k) _ _ ne

spawn-Untouched :
    (st : Sessions) (j k : SessionKey) (payload : Bytes)
    → IsFlows st
    → j ≢ k
    → Untouched j st (spawn k payload st)
unfolding spawn
spawn-Untouched st j k payload h ne =
    let (tasks, entry) = drop_entry-Untouched st j k h ne in
    (
      of_flow-last j (drop_entry k st).tasks _ ne ∙ tasks,
      get_sender-other j k st.next_id (drop_entry k st).map ne ∙ entry,
    )

-- In every state that the relay reaches, a datagram of one flow changes nothing of another: neither
-- its sessions, with their queues and channels, nor the entry that leads to its session.
pub dispatch-of_flow :
    (st : Sessions) (j k : SessionKey) (payload : Bytes)
    → Reach st
    → j ≢ k
    → Untouched j st (dispatch k payload st)
unfolding dispatch
dispatch-of_flow st j k payload r ne =
    let h : IsFlows st = Reach-IsFlows r in
    elim (Option-cases (get_sender k st.map)) [
      | inl e ↦ rw (dispatch, e) (spawn-Untouched st j k payload h ne)
      | inr (id, e) ↦ elim (Bool-cases (is_receiving id st.tasks)) [
        | inl alive ↦
            rw (dispatch, e, alive)
              (
                of_flow-send j k id payload st.tasks ne
                    (get_sender-Owned st.next_id st.tasks k st.map id h.0 e),
                refl,
              )
        | inr dead ↦ rw (dispatch, e, dead) (drop_entry-Untouched st j k h ne)
      ]
    ]

-- A session of the flow, whose task runs, has the payload as the newest of its queue.
abbrev pub Taken : SessionKey → Bytes → List Session → Type 0
Taken k q [] = ⊥
Taken k q (s ∷ ss) =
    ((s.key ≡ k) × (s.receiving ≡ true) × (older : List Bytes) × (s.queue ≡ older ++ q ∷ []))
    ⊎ Taken k q ss

Taken-last :
    (k : SessionKey) (q : Bytes) (ss : List Session) (s : Session)
    → Taken k q (s ∷ [])
    → Taken k q (ss ++ s ∷ [])
Taken-last k q [] s h = h
Taken-last k q (t ∷ ss) s h = inr (Taken-last k q ss s h)

Taken-send :
    (k : SessionKey) (q : Bytes) (id : ℕ) (ss : List Session)
    → Owned id k ss
    → is_receiving id ss ≡ true
    → Taken k q (send id q ss)
unfolding send is_receiving
Taken-send k q id [] o h = cc
Taken-send k q id (s ∷ ss) (here, o) h = elim (Bool-cases (s.id == id)) [
  | inl e ↦
      let own : s.key ≡ k = elim here [ inl n ↦ absurd (n (ground arith)) | inr p ↦ p ] in
      rw e (inl (own, (ground arith), s.queue, refl))
  | inr e ↦ rw e (inr (Taken-send k q id ss o (rw e at h)))
]

get_sender-remove :
    (k : SessionKey) (m : List (SessionKey × ℕ)) → get_sender k (remove_entry k m) ≡ none
unfolding get_sender remove_entry
get_sender-remove k [] = refl
get_sender-remove k ((j, i) ∷ m) =
    elim (SessionKey-discrete k j)
      as (λ d. get_sender k (decided d (remove_entry k m) ((j, i) ∷ remove_entry k m)) ≡ none) [
        | yes p ↦ get_sender-remove k m
        | no p ↦ decided-no (SessionKey-discrete k j) _ _ p ∙ get_sender-remove k m
      ]

is_receiving-new :
    (n : ℕ) (ss : List Session) (s : Session)
    → Below n ss
    → s.id ≡ n
    → is_receiving n (ss ++ s ∷ []) ≡ s.receiving
unfolding is_receiving
is_receiving-new n [] s b e = ground arith
is_receiving-new n (t ∷ ss) s (lt, b) e =
    let old : (t.id == n) ≡ false = ne→==-false t.id n (λ h. omega arith) in
    rw old (is_receiving-new n ss s b e)

is_receiving-send :
    (id : ℕ) (q : Bytes) (ss : List Session) → is_receiving id (send id q ss) ≡ is_receiving id ss
unfolding is_receiving send
is_receiving-send id q [] = refl
is_receiving-send id q (s ∷ ss) = elim (Bool-cases (s.id == id)) [
  | inl e ↦ rw (e, e) refl
  | inr e ↦ rw (e, e) (is_receiving-send id q ss)
]

-- Without an entry, dropping it does nothing.
drop_entry-absent :
    (st : Sessions) (k : SessionKey) → get_sender k st.map ≡ none → drop_entry k st ≡ st
unfolding drop_entry
drop_entry-absent st k e = rw (drop_entry, e) refl

get_sender-drop : (st : Sessions) (k : SessionKey) → get_sender k (drop_entry k st).map ≡ none
unfolding drop_entry
get_sender-drop st k = elim (Option-cases (get_sender k st.map)) [
  | inl absent ↦ rw (drop_entry, absent) absent
  | inr (id, found) ↦ rw (drop_entry, found) (get_sender-remove k st.map)
]

-- The next datagram of a flow is taken where the table has no entry, and where its entry is of a
-- session whose task runs.
spawn-Taken :
    (st : Sessions) (k : SessionKey) (q : Bytes)
    → get_sender k st.map ≡ none
    → Taken k q (dispatch k q st).tasks
unfolding dispatch spawn
spawn-Taken st k q e =
    rw (dispatch, e) (Taken-last k q (drop_entry k st).tasks _ (inl (refl, refl, [], refl)))

sender-Taken :
    (st : Sessions) (k : SessionKey) (q : Bytes) (id : ℕ)
    → IsFlows st
    → get_sender k st.map ≡ some id
    → is_receiving id st.tasks ≡ true
    → Taken k q (dispatch k q st).tasks
unfolding dispatch
sender-Taken st k q id h e alive =
    rw (dispatch, e, alive)
      (Taken-send k q id st.tasks (get_sender-Owned st.next_id st.tasks k st.map id h.0 e) alive)

get_sender-insert :
    (k : SessionKey) (id : ℕ) (m : List (SessionKey × ℕ)) → get_sender k ((k, id) ∷ m) ≡ some id
unfolding get_sender
get_sender-insert k id m = decided-yes (SessionKey-discrete k k) _ _ refl

spawned :
    (st : Sessions) (k : SessionKey) (p : Bytes)
    → IsFlows st
    → get_sender k st.map ≡ none
    → (get_sender k (spawn k p st).map ≡ some st.next_id)
      × (is_receiving st.next_id (spawn k p st).tasks ≡ true)
unfolding spawn
spawned st k p h e = (
  get_sender-insert k st.next_id (drop_entry k st).map,
  rw (drop_entry-absent st k e) (is_receiving-new st.next_id st.tasks _ h.1 refl),
)

-- In every state that the relay reaches, of two datagrams of a flow with no step of a session between
-- them, the second is taken: it is the newest in the queue of a session of the flow whose task runs.
pub dispatch-recovers :
    (st : Sessions) (k : SessionKey) (p q : Bytes)
    → Reach st
    → Taken k q (dispatch k q (dispatch k p st)).tasks
unfolding dispatch
dispatch-recovers st k p q r =
    let h : IsFlows st = Reach-IsFlows r in
    let h' : IsFlows (dispatch k p st) = dispatch-IsFlows k p st h in
    elim (Option-cases (get_sender k st.map)) [
      | inl e ↦
          let (found, alive) = spawned st k p h e in
          sender-Taken (dispatch k p st) k q st.next_id h' (rw (dispatch, e) found)
            (rw (dispatch, e) alive)
      | inr (id, e) ↦ elim (Bool-cases (is_receiving id st.tasks)) [
        | inl alive ↦
            sender-Taken (dispatch k p st) k q id h' (rw (dispatch, e, alive) e)
              (rw (dispatch, e, alive) (is_receiving-send id p st.tasks ∙ alive))
        | inr dead ↦
            spawn-Taken (dispatch k p st) k q (rw (dispatch, e, dead) (get_sender-drop st k))
      ]
    ]

-- A datagram of a relay, as RFC 1928 (7) lays it out: two reserved bytes, the fragment's number, an
-- address with its port, and the payload.
abbrev pub relayed : ℕ → ℕ → ℕ → Bound → ℕ → ℕ → Bytes → Bytes
relayed r₀ r₁ frag bound p₀ p₁ payload =
    r₀ ∷ r₁ ∷ frag ∷ bound_type bound ∷ (bound_bytes bound ++ (p₀ ∷ p₁ ∷ payload))

header_size :
    (r₀ r₁ p₀ p₁ : ℕ) (bound : Bound) (payload : Bytes)
    → IsBound bound
    → udp_offset (relayed r₀ r₁ 0 bound p₀ p₁ payload) (bound_type bound)
      ≡ ret (4 + length (bound_bytes bound) + 2)
unfolding udp_offset
header_size r₀ r₁ p₀ p₁ (bound_v4 a b c d) payload h = refl
header_size r₀ r₁ p₀ p₁ (bound_domain name) payload h = ap ret (omega arith)
header_size r₀ r₁ p₀ p₁ (bound_v6 os) payload h = ap ret (omega arith)

offset-relayed :
    (r₀ r₁ p₀ p₁ : ℕ) (bound : Bound) (payload : Bytes)
    → IsBound bound
    → socks5_udp_payload_offset (relayed r₀ r₁ 0 bound p₀ p₁ payload)
      ≡ ret (4 + length (bound_bytes bound) + 2)
unfolding socks5_udp_payload_offset
offset-relayed r₀ r₁ p₀ p₁ bound payload h =
    let pkt : Bytes = relayed r₀ r₁ 0 bound p₀ p₁ payload in
    let long : ltb (length pkt) 4 ≡ false = ground arith in
    rw (
      long,
      byte-drop pkt 2 0 _ refl,
      byte-drop pkt 3 (bound_type bound) _ refl,
      header_size r₀ r₁ p₀ p₁ bound payload h,
      le→leb (4 + length (bound_bytes bound) + 2) (length pkt)
          (omega (arith, length-append (bound_bytes bound) (p₀ ∷ p₁ ∷ payload))),
    )

fragment-refused :
    (r₀ r₁ frag p₀ p₁ : ℕ) (bound : Bound) (payload : Bytes)
    → (frag == 0) ≡ false
    → socks5_udp_payload_offset (relayed r₀ r₁ frag bound p₀ p₁ payload) ≡ fail
unfolding socks5_udp_payload_offset
fragment-refused r₀ r₁ frag p₀ p₁ bound payload some_part =
    let pkt : Bytes = relayed r₀ r₁ frag bound p₀ p₁ payload in
    let long : ltb (length pkt) 4 ≡ false = ground arith in
    rw (long, byte-drop pkt 2 frag _ refl, some_part)

-- Of a datagram that the relay sends by RFC 1928, whatever address it names, the payload reaches the
-- client whole, from the address to which the client sent; a fragment is dropped.
pub session_turn-from_relay :
    (k : SessionKey) (hostname : Option Bytes) (r₀ r₁ frag p₀ p₁ : ℕ) (bound : Bound)
    (payload : Bytes)
    → IsBound bound
    → session_turn k hostname (from_relay (relayed r₀ r₁ frag bound p₀ p₁ payload))
      ≡ (if frag == 0 then to_client k.orig_dst k.client payload else nothing)
unfolding session_turn reply_to_client
session_turn-from_relay k hostname r₀ r₁ frag p₀ p₁ bound payload h =
    elim (Bool-cases (frag == 0)) [
      | inr part ↦ rw (part, fragment-refused r₀ r₁ frag p₀ p₁ bound payload part) refl
      | inl whole ↦
          let zero_is : frag ≡ 0 = ground arith in
          let front : Bytes =
            r₀ ∷ r₁ ∷ 0 ∷ bound_type bound ∷ (bound_bytes bound ++ p₀ ∷ p₁ ∷ []) in
          let cut : drop (4 + length (bound_bytes bound) + 2) (relayed r₀ r₁ 0 bound p₀ p₁ payload)
              ≡ payload =
            ap (λ x. drop (4 + length (bound_bytes bound) + 2) (r₀ ∷ r₁ ∷ 0 ∷ bound_type bound ∷ x))
              (sym (append_assoc (bound_bytes bound) (p₀ ∷ p₁ ∷ []) payload))
            ∙ drop-append front payload (4 + length (bound_bytes bound) + 2)
                (omega (arith, length-append (bound_bytes bound) (p₀ ∷ p₁ ∷ []))) in
          rw (zero_is, offset-relayed r₀ r₁ p₀ p₁ bound payload h, cut) refl
    ]

-- ===== src/Udp/Flows.antt =====
-- The states that the relay of src/udp.rs reaches, as a step relation, and the invariant of them on
-- the table of sessions: an entry leads to a session of its own flow.
use trans_proxy.Base.{
  ℕ, suc, ◌<◌, ◌≡◌, ◌≢◌, ◌⊎◌, inl, inr, refl, sym, ◌∙◌, true, List, [], ◌∷◌, ◌++◌, arith, ◌==◌,
  Bytes, Bool-cases, Option-cases,
}
use trans_proxy.Udp.{
  SessionKey, SessionKey-discrete, Session, Sessions, new_sessions, decided, get_sender,
  remove_entry, disconnect, drop_entry, is_receiving, send, spawn, dispatch, receive, stop,
  take_payload, end_session, forget,
}

-- Sessions of this number, if any, are of this flow.
abbrev pub Owned : ℕ → SessionKey → List Session → Type 0
Owned id k [] = Unit
Owned id k (s ∷ ss) = ((s.id ≢ id) ⊎ (s.key ≡ k)) × Owned id k ss

abbrev pub Below : ℕ → List Session → Type 0
Below n [] = Unit
Below n (s ∷ ss) = (s.id < n) × Below n ss

abbrev pub Entries : ℕ → List Session → List (SessionKey × ℕ) → Type 0
Entries n ss [] = Unit
Entries n ss ((k, id) ∷ m) = (id < n) × Owned id k ss × Entries n ss m

-- An entry leads to sessions of its own flow, and numbers are not given twice.
abbrev pub IsFlows : Sessions → Type 0
IsFlows st = Entries st.next_id st.tasks st.map × Below st.next_id st.tasks

-- What can happen, in any order.
pub data Step : Sessions → Sessions → Type 0 where
  dispatched : (st : Sessions) (k : SessionKey) (payload : Bytes) → Step st (dispatch k payload st)
  received : (st : Sessions) (id : ℕ) → Step st (take_payload id st)
  finished : (st : Sessions) (id : ℕ) → Step st (end_session id st)
  forgotten : (st : Sessions) (k : SessionKey) → Step st (forget k st)

pub data Reach : Sessions → Type 0 where
  start : Reach new_sessions
  next : {st st' : Sessions} → Reach st → Step st st' → Reach st'

-- The sessions of a list differ in their queues and receivers only.
abbrev Same : List Session → List Session → Type 0
Same [] [] = Unit
Same [] (t ∷ ts) = ⊥
Same (s ∷ ss) [] = ⊥
Same (s ∷ ss) (t ∷ ts) = (s.id ≡ t.id) × (s.key ≡ t.key) × Same ss ts

Same-refl : (ss : List Session) → Same ss ss
Same-refl [] = tt
Same-refl (s ∷ ss) = (refl, refl, Same-refl ss)

Owned-Same :
    (id : ℕ) (k : SessionKey) (ss ts : List Session) → Same ss ts → Owned id k ss → Owned id k ts
Owned-Same id k [] [] h o = tt
Owned-Same id k [] (t ∷ ts) h o = absurd h
Owned-Same id k (s ∷ ss) [] h o = absurd h
Owned-Same id k (s ∷ ss) (t ∷ ts) (e, e', h) (o, os) =
    (elim o [ inl ne ↦ inl (rw (← e) ne) | inr eq ↦ inr (sym e' ∙ eq) ], Owned-Same id k ss ts h os)

Below-Same : (n : ℕ) (ss ts : List Session) → Same ss ts → Below n ss → Below n ts
Below-Same n [] [] h b = tt
Below-Same n [] (t ∷ ts) h b = absurd h
Below-Same n (s ∷ ss) [] h b = absurd h
Below-Same n (s ∷ ss) (t ∷ ts) (e, e', h) (b, bs) = (rw (← e) b, Below-Same n ss ts h bs)

Entries-Same :
    (n : ℕ) (ss ts : List Session) (m : List (SessionKey × ℕ))
    → Same ss ts
    → Entries n ss m
    → Entries n ts m
Entries-Same n ss ts [] h e = tt
Entries-Same n ss ts ((k, id) ∷ m) h (lt, o, e) =
    (lt, Owned-Same id k ss ts h o, Entries-Same n ss ts m h e)

Same-stop : (id : ℕ) (ss : List Session) → Same ss (stop id ss)
unfolding stop
Same-stop id [] = tt
Same-stop id (s ∷ ss) = elim (Bool-cases (s.id == id)) [
  | inl e ↦ rw e (refl, refl, Same-stop id ss)
  | inr e ↦ rw e (refl, refl, Same-stop id ss)
]

Same-receive : (id : ℕ) (ss : List Session) → Same ss (receive id ss)
unfolding receive
Same-receive id [] = tt
Same-receive id (s ∷ ss) = elim (Bool-cases (s.id == id)) [
  | inl e ↦ rw e (refl, refl, Same-receive id ss)
  | inr e ↦ rw e (refl, refl, Same-receive id ss)
]

Same-disconnect : (id : ℕ) (ss : List Session) → Same ss (disconnect id ss)
unfolding disconnect
Same-disconnect id [] = tt
Same-disconnect id (s ∷ ss) = elim (Bool-cases (s.id == id)) [
  | inl e ↦ rw e (refl, refl, Same-disconnect id ss)
  | inr e ↦ rw e (refl, refl, Same-disconnect id ss)
]

Entries-remove_entry :
    (n : ℕ) (ss : List Session) (k : SessionKey) (m : List (SessionKey × ℕ))
    → Entries n ss m
    → Entries n ss (remove_entry k m)
unfolding remove_entry
Entries-remove_entry n ss k [] e = tt
Entries-remove_entry n ss k ((j, id) ∷ m) (lt, o, e) =
    elim (SessionKey-discrete k j)
      as (λ d. Entries n ss (decided d (remove_entry k m) ((j, id) ∷ remove_entry k m))) [
        | yes p ↦ Entries-remove_entry n ss k m e
        | no p ↦ (lt, o, Entries-remove_entry n ss k m e)
      ]

Same-send : (id : ℕ) (payload : Bytes) (ss : List Session) → Same ss (send id payload ss)
unfolding send
Same-send id payload [] = tt
Same-send id payload (s ∷ ss) = elim (Bool-cases (s.id == id)) [
  | inl e ↦ rw e (refl, refl, Same-refl ss)
  | inr e ↦ rw e (refl, refl, Same-send id payload ss)
]

-- A new number is of no earlier session.
Owned-new :
    (n : ℕ) (k : SessionKey) (ss : List Session) (s : Session)
    → Below n ss
    → s.key ≡ k
    → Owned n k (ss ++ s ∷ [])
Owned-new n k [] s b e = (inr e, tt)
Owned-new n k (t ∷ ss) s (lt, b) e = (inl (λ h. omega arith), Owned-new n k ss s b e)

Owned-old :
    (id : ℕ) (k : SessionKey) (ss : List Session) (s : Session)
    → Owned id k ss
    → id < s.id
    → Owned id k (ss ++ s ∷ [])
Owned-old id k [] s o lt = (inl (λ h. omega arith), tt)
Owned-old id k (t ∷ ss) s (here, o) lt = (here, Owned-old id k ss s o lt)

Entries-old :
    (n : ℕ) (ss : List Session) (s : Session) (m : List (SessionKey × ℕ))
    → s.id ≡ n
    → Entries n ss m
    → Entries (suc n) (ss ++ s ∷ []) m
Entries-old n ss s [] e h = tt
Entries-old n ss s ((k, id) ∷ m) e (lt, o, h) =
    (omega arith, Owned-old id k ss s o (omega arith), Entries-old n ss s m e h)

Below-new :
    (n : ℕ) (ss : List Session) (s : Session) → s.id ≡ n → Below n ss → Below (suc n) (ss ++ s ∷ [])
Below-new n [] s e b = (omega arith, tt)
Below-new n (t ∷ ss) s e (lt, b) = (omega arith, Below-new n ss s e b)

-- A change of queues and receivers, and one that takes entries out.
tasks-IsFlows :
    (st : Sessions) (ts : List Session)
    → Same st.tasks ts
    → IsFlows st
    → IsFlows (record st { tasks = ts })
tasks-IsFlows st ts h (e, b) =
    (Entries-Same st.next_id st.tasks ts st.map h e, Below-Same st.next_id st.tasks ts h b)

-- The number to give next stays, and so does what is said of it.
drop_entry-IsFlows :
    (st : Sessions) (k : SessionKey)
    → IsFlows st
    → Entries st.next_id (drop_entry k st).tasks (drop_entry k st).map
      × Below st.next_id (drop_entry k st).tasks
unfolding drop_entry
drop_entry-IsFlows st k (e, b) = elim (Option-cases (get_sender k st.map)) [
  | inl absent ↦ rw (drop_entry, absent) (e, b)
  | inr (id, found) ↦
      rw (drop_entry, found)
        (
          Entries-Same st.next_id st.tasks (disconnect id st.tasks) (remove_entry k st.map)
              (Same-disconnect id st.tasks) (Entries-remove_entry st.next_id st.tasks k st.map e),
          Below-Same st.next_id st.tasks (disconnect id st.tasks) (Same-disconnect id st.tasks) b,
        )
]

drop_entry-next_id : (st : Sessions) (k : SessionKey) → (drop_entry k st).next_id ≡ st.next_id
unfolding drop_entry
drop_entry-next_id st k = elim (Option-cases (get_sender k st.map)) [
  | inl absent ↦ rw (drop_entry, absent) refl
  | inr (id, found) ↦ rw (drop_entry, found) refl
]

dropped-IsFlows : (st : Sessions) (k : SessionKey) → IsFlows st → IsFlows (drop_entry k st)
dropped-IsFlows st k h = rw (drop_entry-next_id st k) (drop_entry-IsFlows st k h)

spawn-IsFlows :
    (k : SessionKey) (payload : Bytes) (st : Sessions) → IsFlows st → IsFlows (spawn k payload st)
unfolding spawn
spawn-IsFlows k payload st h =
    let (e, b) = drop_entry-IsFlows st k h in
    let before : Sessions = drop_entry k st in
    let s : Session = record {
      id = st.next_id;
      key = k;
      queue = payload ∷ [];
      connected = true;
      receiving = true;
    } in
    (
      (
        omega arith,
        Owned-new st.next_id k before.tasks s b refl,
        Entries-old st.next_id before.tasks s before.map refl e,
      ),
      Below-new st.next_id before.tasks s refl b,
    )

pub dispatch-IsFlows :
    (k : SessionKey) (payload : Bytes) (st : Sessions)
    → IsFlows st
    → IsFlows (dispatch k payload st)
unfolding dispatch
dispatch-IsFlows k payload st h = elim (Option-cases (get_sender k st.map)) [
  | inl e ↦ rw (dispatch, e) (spawn-IsFlows k payload st h)
  | inr (id, e) ↦ elim (Bool-cases (is_receiving id st.tasks)) [
    | inl r ↦ rw (dispatch, e, r) (tasks-IsFlows st _ (Same-send id payload st.tasks) h)
    | inr r ↦ rw (dispatch, e, r) (dropped-IsFlows st k h)
  ]
]

Step-IsFlows : {st st' : Sessions} → Step st st' → IsFlows st → IsFlows st'
unfolding take_payload end_session forget
Step-IsFlows (dispatched st k payload) h = dispatch-IsFlows k payload st h
Step-IsFlows (received st id) h = tasks-IsFlows st _ (Same-receive id st.tasks) h
Step-IsFlows (finished st id) h = tasks-IsFlows st _ (Same-stop id st.tasks) h
Step-IsFlows (forgotten st k) h = dropped-IsFlows st k h

-- Whatever happens and in whatever order, from the empty table on, an entry of the table only ever
-- leads to sessions of its own flow, and no number is given twice.
pub Reach-IsFlows : {st : Sessions} → Reach st → IsFlows st
unfolding new_sessions
Reach-IsFlows start = (tt, tt)
Reach-IsFlows (next r step) = Step-IsFlows step (Reach-IsFlows r)

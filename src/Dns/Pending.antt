-- ===== src/Dns/Pending.antt =====
-- The queries that await an answer from a UDP upstream, src/dns.rs: `pending_insert` and
-- `pending_take_match`. Random transaction ids are an argument, the numbers drawn; an `Instant`
-- is a number of nanoseconds.
pub mod Laws
pub mod Insert
pub mod Match
use trans_proxy.Base.{
  ℕ, zero, suc, ◌+◌, ◌-◌, ◌*◌, ◌^◌, Bool, true, false, not, ◌&&◌, ◌||◌, List, [], ◌∷◌, map, Option,
  none, some, ltb, leb, ◌==◌, if◌then◌else◌, Bytes, length, take, Run, ret, spin, ◌>>=◌,
}
use mathlib.Core.Option
use native.Mathlib.Decide.{ℕ_discrete}
use trans_proxy.Map
use trans_proxy.Net.{SocketAddr}
use trans_proxy.Dns.Table.{secs}

abbrev pub pending_query_ttl : ℕ
pending_query_ttl = secs 5

abbrev pub max_pending_queries : ℕ
max_pending_queries = 4096

pub record PendingQuery : Type 0 where
  pub client_addr : SocketAddr
  pub client_tx_id : ℕ
  pub name : Bytes
  pub qtype : ℕ
  pub created : ℕ

abbrev pub Pending : Type 0
Pending = List (ℕ × PendingQuery)

abbrev pub is_waiting : ℕ → PendingQuery → Bool
is_waiting now q = ltb (now - q.created) pending_query_ttl

-- `iter().min_by_key(|(_, p)| p.created)`: the first of the entries made earliest.
unfoldable pub oldest_of : ℕ → ℕ → Pending → ℕ
oldest_of id created [] = id
oldest_of id created ((j, q) ∷ m) =
    let older = ltb q.created created in
    oldest_of (if older then j else id) (if older then q.created else created) m

unfoldable pub oldest : Pending → Option ℕ
oldest [] = none
oldest ((id, q) ∷ m) = some (oldest_of id q.created m)

-- `while map.len() >= MAX_PENDING_QUERIES`; the flag is false where the map has no entry.
unfoldable pub evict : ℕ → Pending → Run (Pending × Bool)
evict zero m = spin
evict (suc f) m =
    let rest : Run (Pending × Bool) = elim (oldest m) [
      | none ↦ ret (m, false)
      | some id ↦ evict f (Map.remove ℕ_discrete id m)
    ] in
    if leb max_pending_queries (length m) then rest else ret (m, true)

-- The first number drawn that no query uses.
unfoldable pub pick : List ℕ → PendingQuery → Pending → Pending × Option ℕ
pick [] entry m = (m, none)
pick (id ∷ ids) entry m = elim (Map.get ℕ_discrete id m) [
  | none ↦ (Map.insert ℕ_discrete id entry m, some id)
  | some _ ↦ pick ids entry m
]

-- The map left behind, and the id that the query was given.
unfoldable pub pending_insert : List ℕ → PendingQuery → ℕ → Pending → Run (Pending × Option ℕ)
pending_insert drawn entry now m = do
  (m', ok) ← evict (suc (length m)) (Map.retain (is_waiting now) m)
  ret (if ok then pick (take 64 drawn) entry m' else (m', none))

-- `str::eq_ignore_ascii_case`
abbrev pub to_lower : ℕ → ℕ
to_lower b = if leb b'A' b && leb b b'Z' then b + 32 else b

unfoldable pub eq_ignore_ascii_case : Bytes → Bytes → Bool
eq_ignore_ascii_case [] [] = true
eq_ignore_ascii_case (a ∷ as') (b ∷ bs) = to_lower a == to_lower b && eq_ignore_ascii_case as' bs
eq_ignore_ascii_case _ _ = false

unfoldable pub pending_take_match : ℕ → Bytes → ℕ → Pending → Pending × Option PendingQuery
pending_take_match tx_id resp_name resp_qtype m = elim (Map.get ℕ_discrete tx_id m) [
  | none ↦ (m, none)
  | some entry ↦
      if not (eq_ignore_ascii_case entry.name resp_name) || not (entry.qtype == resp_qtype)
      then (m, none)
      else (Map.remove ℕ_discrete tx_id m, Map.get ℕ_discrete tx_id m)
]

-- ===== src/Dns/Doh/Turns.antt =====
-- The turns of `run_doh`, src/dns.rs, against any packet, and the way of a response to all who
-- wait for it.
use trans_proxy.Base.{
  ℕ, ◌≤◌, ◌≡◌, inl, inr, refl, ap, false, Bool, ◌&&◌, List, [], ◌∷◌, ◌++◌, arith, ltb, leb, ◌==◌,
  Bytes, length, ret, attempt, be16, Bool-cases, Option-cases, Option, none, some, Returns-cases,
  be16_lt,
}
use trans_proxy.Map
use trans_proxy.Map.Laws.{get-insert_self}
use trans_proxy.Map.Order.{KeyOrder}
use trans_proxy.Net.{IpAddr-discrete, SocketAddr}
use trans_proxy.Dns.Name.{parse_query_type}
use trans_proxy.Dns.Name.Total.{parse_query_type-Returns}
use trans_proxy.Dns.Format.{Message, encode}
use trans_proxy.Dns.Records.{cache_key}
use trans_proxy.Dns.Records.Replies.{set_tx_id-encode}
use trans_proxy.Dns.Table.{Table, TableEntry}
use trans_proxy.Dns.Cache
use trans_proxy.Dns.Cache.{Bytes-discrete, Cache, CacheEntry, put, replay}
use trans_proxy.Dns.Cache.Laws.{length-replay}
use trans_proxy.Dns.Udp.{Send, to_client, query_name}
use trans_proxy.Base.{both_true, ◌∙◌, true, Run, fail, panic, spin}
use trans_proxy.Dns.Udp.Query.{IsNodata, send_nodata-IsNodata, query_read}
use trans_proxy.Dns.Udp.Response.{learn-total}
use trans_proxy.Dns.Doh.{
  Joined, try_join, register, Doh, Request, is_aaaa, coalesce, serve_cached, resolve, on_doh_query,
  on_broadcast,
}

cache_get-total :
    (now later : ℕ) (key : Bytes) (tx_id : ℕ) (cache : Cache)
    → (hit : Option Bytes) × (attempt (Cache.get now later key tx_id cache) ≡ ret hit)
unfolding Cache.get
cache_get-total now later key tx_id cache = elim (Option-cases (Map.get Bytes-discrete key cache)) [
  | inl absent ↦ (none, rw absent)
  | inr (entry, found) ↦ elim (Bool-cases (leb entry.expires now)) [
    | inl stale ↦ (none, rw (found, stale))
    | inr fresh ↦ let (r, e, _) = length-replay later tx_id entry in (some r, rw (found, fresh, e))
  ]
]

pub is_aaaa-total : (p : Bytes) → (aaaa : Bool) × (is_aaaa p ≡ ret aaaa)
unfolding is_aaaa
is_aaaa-total p = elim (Returns-cases _ (parse_query_type p) (parse_query_type-Returns p)) [
  | inl untyped ↦ (false, rw untyped)
  | inr (t, typed, _) ↦ (t == 28, rw typed)
]

-- A query that was not answered: it is the first of its key and is sent to the server, or it waits
-- for one with its key.
pub data Coalesced (p : Bytes) (client : SocketAddr) (s s' : Doh) (req : Option Request)
    (sent : List Send) : Type 0 where
  first :
      (name : Bytes)
      → query_name p ≡ ret name
      → sent ≡ []
      → Map.get Bytes-discrete (cache_key p) s.in_flight ≡ none
      → Map.get Bytes-discrete (cache_key p) s'.in_flight ≡ some []
      → req ≡ some (record { packet = p; client_addr = client; name = name; key = cache_key p })
      → Coalesced p client s s' req sent
  waits :
      (js : List Joined) (j : Joined)
      → sent ≡ []
      → req ≡ none
      → j.client_addr ≡ client
      → be16 p 0 ≡ ret j.tx_id
      → Map.get Bytes-discrete (cache_key p) s.in_flight ≡ some js
      → Map.get Bytes-discrete (cache_key p) s'.in_flight ≡ some (js ++ j ∷ [])
      → Coalesced p client s s' req sent

-- What becomes of a query: AAAA may be stripped, the cache may have a response, or neither.
pub data DohHandled (strip_aaaa : Bool) (now later : ℕ) (p : Bytes) (client : SocketAddr)
    (s s' : Doh) (req : Option Request) (sent : List Send) : Type 0 where
  stripped :
      strip_aaaa ≡ true
      → is_aaaa p ≡ ret true
      → s' ≡ s
      → req ≡ none
      → IsNodata p client sent
      → DohHandled strip_aaaa now later p client s s' req sent
  from_cache :
      (aaaa : Bool) (tx_id : ℕ) (cached : Bytes)
      → is_aaaa p ≡ ret aaaa
      → (strip_aaaa && aaaa) ≡ false
      → be16 p 0 ≡ ret tx_id
      → Cache.get now later (cache_key p) tx_id s.cache ≡ ret cached
      → s'.in_flight ≡ s.in_flight
      → req ≡ none
      → sent ≡ to_client client cached ∷ []
      → DohHandled strip_aaaa now later p client s s' req sent
  missed :
      (aaaa : Bool) (tx_id : ℕ)
      → is_aaaa p ≡ ret aaaa
      → (strip_aaaa && aaaa) ≡ false
      → be16 p 0 ≡ ret tx_id
      → Cache.get now later (cache_key p) tx_id s.cache ≡ fail
      → Coalesced p client s s' req sent
      → DohHandled strip_aaaa now later p client s s' req sent

-- The cache has a response, or it has none.
of_attempt {ℓ} :
    {A : Type ℓ} (m : Run A) (r : Option A)
    → attempt m ≡ ret r
    → (elim r as (λ _. Type ℓ) [ none ↦ m ≡ fail | some a ↦ m ≡ ret a ])
of_attempt (ret a) none e = cc
of_attempt (ret a) (some b) e = cc
of_attempt fail none e = refl
of_attempt fail (some b) e = cc
of_attempt panic r e = cc
of_attempt spin r e = cc

coalesce-Coalesced :
    (p : Bytes) (client : SocketAddr) (tx_id : ℕ) (name : Bytes) (s : Doh)
    → be16 p 0 ≡ ret tx_id
    → query_name p ≡ ret name
    → (s' : Doh) × (req : Option Request) × (sent : List Send) × (coalesce p client tx_id name s
        ≡ (s', req, sent))
      × Coalesced p client s s' req sent
unfolding coalesce try_join register
coalesce-Coalesced p client tx_id name s id named =
    let key : Bytes = cache_key p in
    let j : Joined = record { client_addr = client; tx_id = tx_id; name = name } in
    elim (Option-cases (Map.get Bytes-discrete key s.in_flight)) [
      | inl absent ↦ (
        record s { in_flight = Map.insert Bytes-discrete key [] s.in_flight },
        some (record { packet = p; client_addr = client; name = name; key = key }),
        [],
        rw (coalesce, try_join, absent),
        first name named refl absent (get-insert_self Bytes-discrete key [] s.in_flight) refl,
      )
      | inr (js, found) ↦ (
        record s { in_flight = Map.insert Bytes-discrete key (js ++ j ∷ []) s.in_flight },
        none,
        [],
        rw (coalesce, try_join, found),
        waits js j refl refl refl id found
            (get-insert_self Bytes-discrete key (js ++ j ∷ []) s.in_flight),
      )
    ]

module _ (hosts : KeyOrder TableEntry IpAddr-discrete) where
  resolve-DohHandled :
      (strip_aaaa aaaa : Bool) (now later : ℕ) (p : Bytes) (client : SocketAddr) (tx_id : ℕ)
      (name : Bytes) (s : Doh)
      → be16 p 0 ≡ ret tx_id
      → query_name p ≡ ret name
      → is_aaaa p ≡ ret aaaa
      → (strip_aaaa && aaaa) ≡ false
      → (s' : Doh) × (req : Option Request) × (sent : List Send) × (resolve hosts now later p client
            tx_id name s
          ≡ ret (s', req, sent))
        × DohHandled strip_aaaa now later p client s s' req sent
  unfolding resolve serve_cached
  resolve-DohHandled strip_aaaa aaaa now later p client tx_id name s id named typed kept =
      let (hit, got) = cache_get-total now later (cache_key p) tx_id s.cache in
      elim (Option-cases hit) [
        | inl miss ↦
            let (s', req, sent, e, handled) = coalesce-Coalesced p client tx_id name s id named in
            (
              s',
              req,
              sent,
              rw (got, miss) (ap ret e),
              missed aaaa tx_id typed kept id (of_attempt _ none (got ∙ ap ret miss)) handled,
            )
        | inr (cached, is_hit) ↦
            let (table', learnt, _) = learn-total hosts now cached name s.table in
            (
              record s { table = table' },
              none,
              to_client client cached ∷ [],
              rw (got, is_hit, learnt),
              from_cache aaaa tx_id cached typed kept id
                  (of_attempt _ (some cached) (got ∙ ap ret is_hit)) refl refl refl,
            )
      ]

  -- A query of at least a header's length is handled: under `--dns-strip-aaaa` one for AAAA is sent the
  -- answer without records, if one can be made; else the client is sent what the cache has, or, where
  -- it has nothing, the query waits for the one in flight with its key, or is sent as the first.
  pub on_doh_query-DohHandled :
      (strip_aaaa : Bool) (now later : ℕ) (p : Bytes) (client : SocketAddr) (s : Doh)
      → 12 ≤ length p
      → (s' : Doh) × (req : Option Request) × (sent : List Send) × (on_doh_query hosts strip_aaaa
            now later p client s
          ≡ ret (s', req, sent))
        × DohHandled strip_aaaa now later p client s s' req sent
  unfolding on_doh_query
  on_doh_query-DohHandled strip_aaaa now later p client s long =
      let (tx_id, id) = be16_lt p 0 (omega arith) in
      let (name, _, named, _) = query_read p in
      let (aaaa, typed) = is_aaaa-total p in
      let not_short : ltb (length p) 12 ≡ false = ground arith in
      elim (Bool-cases (strip_aaaa && aaaa)) [
        | inl strip ↦
            let (sent, made, only) = send_nodata-IsNodata p client in
            let (on, is_on) = both_true strip_aaaa aaaa strip in
            (
              s,
              none,
              sent,
              rw (not_short, named, id, typed, strip, made),
              stripped on (typed ∙ ap ret is_on) refl refl only,
            )
        | inr no_strip ↦
            let (s', req, sent, e, handled) =
              resolve-DohHandled strip_aaaa aaaa now later p client tx_id name s id named typed
                no_strip in
            (s', req, sent, rw (not_short, named, id, typed, no_strip, e), handled)
      ]

  -- One who waited for a well-formed response gets it as the server sent it, under the
  -- transaction id of the client's own query.
  pub on_broadcast-encode :
      (now : ℕ) (j : Joined) (m : Message) (tail : Bytes) (table : Table)
      → (table' : Table) × (on_broadcast hosts now j (encode m tail) table
          ≡ ret (table', to_client j.client_addr (encode (record m { tx_id = j.tx_id }) tail) ∷ []))
  unfolding on_broadcast
  on_broadcast-encode now j m tail table =
      let (table', learnt, _) =
        learn-total hosts now (encode (record m { tx_id = j.tx_id }) tail) j.name table in
      (table', rw (set_tx_id-encode m tail j.tx_id, learnt))

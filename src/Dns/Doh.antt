-- ===== src/Dns/Doh.antt =====
-- `run_doh` and `QueryCoalescer` of src/dns.rs: one function for each turn of the listener and of
-- the tasks that it spawns, over the cache, the table and the queries in flight. What the DoH
-- server answers is an argument. A query in flight holds a broadcast channel; the model keeps
-- with it those who subscribed, each of whom gets what is sent on the channel afterwards.
pub mod Answer
pub mod Turns
use trans_proxy.Base.{
  ℕ, zero, suc, ◌+◌, ◌-◌, ◌*◌, ◌≤◌, ◌<◌, ◌≡◌, ◌≢◌, ◌⊎◌, inl, inr, refl, sym, ap, ◌∙◌, true, false,
  Bool, not, ◌&&◌, ◌||◌, List, [], ◌∷◌, ◌++◌, map, arith, append_assoc, append-nil, ltb, leb,
  le→leb, ◌==◌, lt→ltb, ne→==-false, ==_refl, ◌/◌, ◌%◌, max, min, bit_and, bit_or, Bytes, length,
  drop, take, replicate, u16_bytes, u32_bytes, length-append, length-take, length-drop,
  length_from_drop, drop_past, take-append, drop-append, take-append-drop, Run, ret, fail, panic,
  spin, ◌>>=◌, ◌>>◌, guard, attempt, unwrap_or, byte, slice, slice_le, byte-drop, be16, be32,
  overwrite, if◌then◌else◌, Bool-cases, Option, none, some, Returns, Returns-cases, overwrite_le,
  unwrap_or-Returns, be16_lt, byte_lt, Gives, ltb→lt, leb→le,
}
use trans_proxy.Map
use trans_proxy.Map.Order.{KeyOrder}
use trans_proxy.Net.{IpAddr-discrete, SocketAddr}
use trans_proxy.Dns.Name.{parse_query_type}
use trans_proxy.Dns.Records.{parse_ip_records, build_servfail, set_tx_id, cache_key}
use trans_proxy.Dns.Table.{Table, TableEntry}
use trans_proxy.Dns.Cache
use trans_proxy.Dns.Cache.{Bytes-discrete, Cache, CacheEntry, put}
use trans_proxy.Dns.Udp.{Send, to_client, query_name, send_nodata, learn}

-- One who waits for the answer to another client's query.
pub record Joined : Type 0 where
  pub client_addr : SocketAddr
  pub tx_id : ℕ
  pub name : Bytes

-- `QueryCoalescer`.
abbrev pub InFlight : Type 0
InFlight = List (Bytes × List Joined)

-- The map with the new subscriber, if the query is in flight.
unfoldable pub try_join : Bytes → Joined → InFlight → Option InFlight
try_join key j m = elim (Map.get Bytes-discrete key m) [
  | none ↦ none
  | some js ↦ some (Map.insert Bytes-discrete key (js ++ j ∷ []) m)
]

unfoldable pub register : Bytes → InFlight → InFlight
register key m = Map.insert Bytes-discrete key [] m

unfoldable pub complete : Bytes → InFlight → InFlight
complete key m = Map.remove Bytes-discrete key m

-- Those who wait on the channel of a query.
abbrev pub subscribers : Bytes → InFlight → List Joined
subscribers key m = elim (Map.get Bytes-discrete key m) [ none ↦ [] | some js ↦ js ]

pub record Doh : Type 0 where
  pub cache : Cache
  pub table : Table
  pub in_flight : InFlight

-- A query that a task sends to the server.
pub record Request : Type 0 where
  pub packet : Bytes
  pub client_addr : SocketAddr
  pub name : Bytes
  pub key : Bytes

-- `parse_query_type(&packet) == Some(DNS_TYPE_AAAA)`.
unfoldable pub is_aaaa : Bytes → Run Bool
is_aaaa p = do
  qtype ← attempt (parse_query_type p)
  ret (elim qtype [ none ↦ false | some t ↦ t == 28 ])

-- The query joins the one in flight, or is sent on its own.
unfoldable pub coalesce : Bytes → SocketAddr → ℕ → Bytes → Doh → Doh × Option Request × List Send
coalesce p client tx_id name s =
    let key = cache_key p in
    elim (try_join key (record { client_addr = client; tx_id = tx_id; name = name }) s.in_flight) [
      | some m ↦ (record s { in_flight = m }, none, [])
      | none ↦ (
        record s { in_flight = register key s.in_flight },
        some (record { packet = p; client_addr = client; name = name; key = key }),
        [],
      )
    ]

module _ (hosts : KeyOrder TableEntry IpAddr-discrete) where
  unfoldable pub serve_cached :
      ℕ → Bytes → SocketAddr → Bytes → Doh → Run (Doh × Option Request × List Send)
  serve_cached now cached client name s = do
    table' ← learn hosts now cached name s.table
    ret (record s { table = table' }, none, to_client client cached ∷ [])

  -- A query that is not answered by its type alone.
  unfoldable pub resolve :
      ℕ → ℕ → Bytes → SocketAddr → ℕ → Bytes → Doh → Run (Doh × Option Request × List Send)
  resolve now later p client tx_id name s = do
    hit ← attempt (Cache.get now later (cache_key p) tx_id s.cache)
    elim hit [
      | some cached ↦ serve_cached now cached client name s
      | none ↦ ret (coalesce p client tx_id name s)
    ]

  -- A turn of the listener: a packet `p` from a client.
  unfoldable pub on_doh_query :
      Bool → ℕ → ℕ → Bytes → SocketAddr → Doh → Run (Doh × Option Request × List Send)
  on_doh_query strip_aaaa now later p client s =
      let turn = do
        name ← query_name p
        tx_id ← be16 p 0
        aaaa ← is_aaaa p
        let stripped = do sent ← send_nodata p client; ret (s, none, sent)
        let resolved = resolve now later p client tx_id name s
        if strip_aaaa && aaaa then stripped else resolved
      in if ltb (length p) 12 then ret (s, none, []) else turn

  module _ (keys : KeyOrder CacheEntry Bytes-discrete) where
    -- A response with addresses is put into the cache.
    unfoldable pub keep_response : ℕ → ℕ → Bytes → Bytes → Cache → Run Cache
    keep_response now later key response cache = do
      resolved ← attempt (parse_ip_records response)
      elim resolved [ none ↦ ret cache | some ips ↦ put keys now later key response cache ]

    -- A task ends with the server's answer, or with none: what is sent to the client that
    -- asked, and what is broadcast to those who wait.
    unfoldable pub on_doh_answer :
        ℕ → ℕ → Request → Option Bytes → Doh → Run (Doh × List Send × List (Joined × Bytes))
    on_doh_answer now later r (some response) s = do
      cache' ← keep_response now later r.key response s.cache
      let waiting = subscribers r.key s.in_flight
      table' ← learn hosts now response r.name s.table
      ret (
        record { cache = cache'; table = table'; in_flight = complete r.key s.in_flight },
        to_client r.client_addr response ∷ [],
        map (λ j. (j, response)) waiting,
      )
    on_doh_answer now later r none s = do
      made ← attempt (build_servfail r.packet)
      let s' : Doh = record s { in_flight = complete r.key s.in_flight }
      elim made [
        | none ↦ ret (s', [], [])
        | some servfail ↦ ret (
          s',
          to_client r.client_addr servfail ∷ [],
          map (λ j. (j, servfail)) (subscribers r.key s.in_flight),
        )
      ]

  -- The task of one who waited: the response under the client's own transaction id.
  unfoldable pub on_broadcast : ℕ → Joined → Bytes → Table → Run (Table × List Send)
  on_broadcast now j response table = do
    let resp = set_tx_id response j.tx_id
    table' ← learn hosts now resp j.name table
    ret (table', to_client j.client_addr resp ∷ [])

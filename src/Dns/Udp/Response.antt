-- ===== src/Dns/Udp/Response.antt =====
-- The upstream reader of `run_udp`, src/dns.rs, against any packet: only a response that answers a
-- pending query has an effect.
use trans_proxy.Base.{
  ℕ, ◌≤◌, ◌≡◌, ◌⊎◌, inl, inr, refl, ap, ◌∙◌, List, [], ◌∷◌, arith, ltb, ◌==◌, bit_and, Bytes,
  length, u16_bytes, ret, be16, overwrite, Bool-cases, Option, none, some, Returns-cases,
  overwrite_le, unwrap_or-Returns, be16_lt, byte_lt,
}
use native.Mathlib.Decide.{ℕ_discrete}
use trans_proxy.Map
use trans_proxy.Map.Order.{KeyOrder}
use trans_proxy.Net.{IpAddr-discrete}
use trans_proxy.Dns.Name.{parse_query_name, parse_query_type}
use trans_proxy.Dns.Name.Total.{parse_query_name-Returns, parse_query_type-Returns}
use trans_proxy.Dns.Records.{parse_ip_records, table_ttl}
use trans_proxy.Dns.Table.Replay.{Learned, learn_all}
use trans_proxy.Net.{IpAddr}
use trans_proxy.Base.{fail}
use trans_proxy.Dns.Records.Total.{parse_ip_records-Returns, table_ttl_bounds}
use trans_proxy.Dns.Table.{Table, TableEntry}
use trans_proxy.Dns.Pending.{Pending, PendingQuery, pending_take_match}
use trans_proxy.Dns.Pending.Match.{Answers, take_match-Answers, take_match_none}
use trans_proxy.Dns.Udp.{
  Send, to_client, query_type, insert_all, learn, deliver, settle, accept, on_response,
}

module _ (order : KeyOrder TableEntry IpAddr-discrete) where
  -- One insertion for each address.
  abbrev pub learned : ℕ → Bytes → ℕ → List IpAddr → List Learned
  learned now name ttl [] = []
  learned now name ttl (a ∷ as') =
      record { now = now; later = now; ip = a; domain = name; ttl = ttl } ∷ learned now name ttl as'

  -- All the addresses that are read from the packet are inserted, in order, under the name and with
  -- the packet's lifetime; a packet without addresses changes nothing.
  abbrev pub Learnt : ℕ → Bytes → Bytes → Table → Table → Type 0
  Learnt now p name table table' =
      ((parse_ip_records p ≡ fail) × (table' ≡ table))
      ⊎ ((ips : List IpAddr) × (ttl : ℕ) × (parse_ip_records p ≡ ret ips)
          × (table_ttl p ≡ ret ttl)
          × (table' ≡ learn_all order (learned now name ttl ips) table))

  inserted-learned :
      (now : ℕ) (ips : List IpAddr) (name : Bytes) (ttl : ℕ) (table : Table)
      → insert_all order now ips name ttl table ≡ learn_all order (learned now name ttl ips) table
  unfolding insert_all learn_all
  inserted-learned now [] name ttl table = refl
  inserted-learned now (ip ∷ ips) name ttl table = inserted-learned now ips name ttl _

  -- The packet answers a pending query, and this is all that comes of it.
  pub record Delivered (now : ℕ) (p : Bytes) (pending pending' : Pending) (table table' : Table)
      (sent : List Send) : Type 0 where
    pub tx_id : ℕ
    pub name : Bytes
    pub qtype : ℕ
    pub entry : PendingQuery
    pub reply : Bytes
    pub id_read : be16 p 0 ≡ ret tx_id
    pub name_read : parse_query_name p ≡ ret name
    pub type_read : query_type p ≡ ret qtype
    pub waiting : Map.get ℕ_discrete tx_id pending ≡ some entry
    pub answers : Answers entry name qtype
    pub no_longer : pending' ≡ Map.remove ℕ_discrete tx_id pending
    pub learnt : Learnt now p name table table'
    pub reply_is : overwrite p 0 (u16_bytes entry.client_tx_id) ≡ ret reply
    pub sent_is : sent ≡ to_client entry.client_addr reply ∷ []

  pub learn-total :
      (now : ℕ) (p name : Bytes) (table : Table)
      → (table' : Table) × (learn order now p name table ≡ ret table')
        × Learnt now p name table table'
  unfolding learn
  learn-total now p name table =
      elim (Returns-cases _ (parse_ip_records p) (parse_ip_records-Returns p)) [
        | inl none_read ↦ (table, rw none_read, inl (none_read, refl))
        | inr (ips, read, _) ↦
            let (ttl, given, _, _) = table_ttl_bounds p in
            (
              insert_all order now ips name ttl table,
              rw (read, given),
              inr (ips, ttl, read, given, inserted-learned now ips name ttl table),
            )
      ]

  -- The packet had no effect, or was delivered.
  abbrev Effect : ℕ → Bytes → Pending → Table → (Pending × Table × List Send) → Type 0
  Effect now p pending table r =
      (r ≡ (pending, table, [])) ⊎ Delivered now p pending r.0 table r.1 r.2

  accept-matched :
      (now : ℕ) (p : Bytes) (pending : Pending) (table : Table) (tx_id : ℕ) (name : Bytes)
      (qtype : ℕ)
      → 12 ≤ length p
      → be16 p 0 ≡ ret tx_id
      → parse_query_name p ≡ ret name
      → query_type p ≡ ret qtype
      → (pending' : Pending) (matched : Option PendingQuery)
      → pending_take_match tx_id name qtype pending ≡ (pending', matched)
      → (r : Pending × Table × List Send) × (accept order now p pending table ≡ ret r)
        × Effect now p pending table r
  unfolding accept settle deliver
  accept-matched now p pending table tx_id name qtype long id named typed pending' none e = (
    (pending', table, []),
    rw (id, named, typed) (ap (settle order now p name table) e),
    inl (ground (arith, take_match_none tx_id name qtype pending e)),
  )
  accept-matched now p pending table tx_id name qtype long id named typed pending' (some entry) e =
      let (waiting, answers, no_longer, _) = take_match-Answers tx_id name qtype pending e in
      let (table', learnt, is_learnt) = learn-total now p name table in
      let (reply, replied, _) = overwrite_le p 0 (u16_bytes entry.client_tx_id) (omega arith) in
      (
        (pending', table', to_client entry.client_addr reply ∷ []),
        rw (id, named, typed) (ap (settle order now p name table) e ∙ rw (learnt, replied)),
        inr (record {
          tx_id = tx_id;
          name = name;
          qtype = qtype;
          entry = entry;
          reply = reply;
          id_read = id;
          name_read = named;
          type_read = typed;
          waiting = waiting;
          answers = answers;
          no_longer = no_longer;
          learnt = is_learnt;
          reply_is = replied;
          sent_is = refl;
        }),
      )

  accept-Effect :
      (now : ℕ) (p : Bytes) (pending : Pending) (table : Table)
      → 12 ≤ length p
      → (r : Pending × Table × List Send) × (accept order now p pending table ≡ ret r)
        × Effect now p pending table r
  accept-Effect now p pending table long =
      let (tx_id, id) = be16_lt p 0 (omega arith) in
      elim (Returns-cases _ (parse_query_name p) (parse_query_name-Returns p)) [
        | inl unnamed ↦ ((pending, table, []), unfold accept in rw (id, unnamed), inl refl)
        | inr (name, named, _) ↦
            let (qtype, typed) =
              unwrap_or-Returns _ 0 (parse_query_type p) (parse_query_type-Returns p) in
            let result = pending_take_match tx_id name qtype pending in
            accept-matched now p pending table tx_id name qtype long id named
              (unfold query_type in typed) result.0 result.1 refl
      ]

  -- A packet on the upstream socket changes nothing and is sent nowhere, or it answers a pending query
  -- by id, name and type: then each address read from it is inserted into the table under the name,
  -- the query is pending no longer, and the packet goes to its client alone, under the client's id.
  pub on_response-Delivered :
      (now : ℕ) (p : Bytes) (pending : Pending) (table : Table)
      → (r : Pending × Table × List Send) × (on_response order now p pending table ≡ ret r)
        × ((r ≡ (pending, table, [])) ⊎ Delivered now p pending r.0 table r.1 r.2)
  unfolding on_response
  on_response-Delivered now p pending table = elim (Bool-cases (ltb (length p) 12)) [
    | inl short ↦ ((pending, table, []), rw short, inl refl)
    | inr long ↦
        let (flags, read) = byte_lt p 2 (ground arith) in
        elim (Bool-cases (bit_and flags 0x80 == 0)) [
          | inl query ↦ ((pending, table, []), rw (long, read, query), inl refl)
          | inr response ↦
              rw (long, read, response) (accept-Effect now p pending table (ground arith))
        ]
  ]

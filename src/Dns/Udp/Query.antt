-- ===== src/Dns/Udp/Query.antt =====
-- The main loop of `run_udp`, src/dns.rs, against any packet of a client.
use trans_proxy.Base.{
  fail, ℕ, ◌≤◌, ◌≡◌, ◌⊎◌, inl, inr, refl, ap, ◌∙◌, true, false, Option-cases, both_true, Bool, ◌&&◌,
  List, [], ◌∷◌, arith, ltb, ◌==◌, Bytes, length, u16_bytes, ret, be16, overwrite, Bool-cases, none,
  some, Returns-cases, overwrite_le, unwrap_or-Returns, be16_lt,
}
use native.Mathlib.Decide.{ℕ_discrete}
use trans_proxy.Map.{Distinct}
use trans_proxy.Net.{SocketAddr}
use trans_proxy.Dns.Name.{parse_query_name, parse_query_type}
use trans_proxy.Dns.Name.Total.{parse_query_name-Returns, parse_query_type-Returns}
use trans_proxy.Dns.Records.{build_nodata, build_empty_response}
use trans_proxy.Dns.Records.Length.{build_empty_response-Returns}
use trans_proxy.Dns.Pending.{Pending, PendingQuery}
use trans_proxy.Dns.Pending.Insert.{Inserted, pending_insert-Inserted}
use trans_proxy.Dns.Udp.{
  Send, to_client, to_upstream, query_name, query_type, send_nodata, forward, on_query,
}

-- The client is sent the answer without records, where one can be made of the query.
abbrev pub IsNodata : Bytes → SocketAddr → List Send → Type 0
IsNodata p client sent =
    ((build_nodata p ≡ fail) × (sent ≡ []))
    ⊎ ((resp : Bytes) × (build_nodata p ≡ ret resp) × (sent ≡ to_client client resp ∷ []))

pub send_nodata-IsNodata :
    (p : Bytes) (client : SocketAddr)
    → (sent : List Send) × (send_nodata p client ≡ ret sent) × IsNodata p client sent
unfolding send_nodata build_nodata
send_nodata-IsNodata p client =
    elim (Returns-cases _ (build_empty_response p 0) (build_empty_response-Returns p 0)) [
      | inl unmade ↦ ([], rw unmade, inl (unmade, refl))
      | inr (resp, made, _) ↦ (to_client client resp ∷ [], rw made, inr (resp, made, refl))
    ]

-- The two parsers, with the defaults of the main loop, read something from every packet.
pub query_read :
    (p : Bytes)
    → (name : Bytes) × (qtype : ℕ) × (query_name p ≡ ret name) × (query_type p ≡ ret qtype)
unfolding query_name query_type
query_read p =
    let (name, named) = unwrap_or-Returns _ [] (parse_query_name p) (parse_query_name-Returns p) in
    let (qtype, typed) = unwrap_or-Returns _ 0 (parse_query_type p) (parse_query_type-Returns p) in
    (name, qtype, named, typed)

-- The query was handed on under an id of its own, or dropped where no id was free.
pub record Asked (drawn : List ℕ) (now : ℕ) (p : Bytes) (client : SocketAddr) (tx_id : ℕ)
    (name : Bytes) (qtype : ℕ) (pending pending' : Pending) (sent : List Send) : Type 0 where
  pub entry : PendingQuery
  pub entry_is : entry ≡ record {
    client_addr = client;
    client_tx_id = tx_id;
    name = name;
    qtype = qtype;
    created = now;
  }
  pub inserted : Inserted drawn entry now pending
  pub pending_is : pending' ≡ inserted.map_after
  pub sent_is :
      ((inserted.id ≡ none) × (sent ≡ []))
      ⊎ ((id : ℕ) × (query : Bytes) × (inserted.id ≡ some id)
          × (overwrite p 0 (u16_bytes id) ≡ ret query)
          × (sent ≡ to_upstream query ∷ []))

forward-Asked :
    (drawn : List ℕ) (now : ℕ) (p : Bytes) (client : SocketAddr) (tx_id : ℕ) (name : Bytes)
    (qtype : ℕ) (pending : Pending)
    → 12 ≤ length p
    → Distinct ℕ_discrete pending
    → (pending' : Pending) × (sent : List Send) × (forward drawn now p client tx_id name qtype
          pending
        ≡ ret (pending', sent))
      × Asked drawn now p client tx_id name qtype pending pending' sent
unfolding forward
forward-Asked drawn now p client tx_id name qtype pending long d =
    let entry : PendingQuery = record {
      client_addr = client;
      client_tx_id = tx_id;
      name = name;
      qtype = qtype;
      created = now;
    } in
    let r = pending_insert-Inserted drawn entry now pending d in
    elim (Option-cases r.id) [
      | inl no_id ↦ (
        r.map_after,
        [],
        rw (r.returned, no_id),
        record {
          entry = entry;
          entry_is = refl;
          inserted = r;
          pending_is = refl;
          sent_is = inl (no_id, refl);
        },
      )
      | inr (id, given) ↦
          let (query, written, _) = overwrite_le p 0 (u16_bytes id) (omega arith) in
          (
            r.map_after,
            to_upstream query ∷ [],
            rw (r.returned, given, written),
            record {
              entry = entry;
              entry_is = refl;
              inserted = r;
              pending_is = refl;
              sent_is = inr (id, query, given, written, refl);
            },
          )
    ]

-- What a turn of the main loop may do with a query: answer it at once, or hand it on.
pub data Handled (strip_aaaa : Bool) (drawn : List ℕ) (now : ℕ) (p : Bytes) (client : SocketAddr)
    (pending pending' : Pending) (sent : List Send) : Type 0 where
  answered :
      strip_aaaa ≡ true
      → query_type p ≡ ret 28
      → pending' ≡ pending
      → IsNodata p client sent
      → Handled strip_aaaa drawn now p client pending pending' sent
  asked :
      (tx_id : ℕ) (name : Bytes) (qtype : ℕ)
      → be16 p 0 ≡ ret tx_id
      → query_name p ≡ ret name
      → query_type p ≡ ret qtype
      → (strip_aaaa && qtype == 28) ≡ false
      → Asked drawn now p client tx_id name qtype pending pending' sent
      → Handled strip_aaaa drawn now p client pending pending' sent

-- A query of at least a header's length is handled. If it is AAAA under `--dns-strip-aaaa`, the answer
-- without records, if one can be made of it, goes to the client; else the query goes upstream under
-- the id that it is stored under, and is dropped only if no free id is drawn.
pub on_query-Handled :
    (strip_aaaa : Bool) (drawn : List ℕ) (now : ℕ) (p : Bytes) (client : SocketAddr)
    (pending : Pending)
    → 12 ≤ length p
    → Distinct ℕ_discrete pending
    → (pending' : Pending) × (sent : List Send) × (on_query strip_aaaa drawn now p client pending
        ≡ ret (pending', sent))
      × Handled strip_aaaa drawn now p client pending pending' sent
unfolding on_query
on_query-Handled strip_aaaa drawn now p client pending long d =
    let (tx_id, id) = be16_lt p 0 (omega arith) in
    let (name, qtype, named, typed) = query_read p in
    let not_short : ltb (length p) 12 ≡ false = ground arith in
    elim (Bool-cases (strip_aaaa && qtype == 28)) [
      | inl strip ↦
          let (sent, made, only) = send_nodata-IsNodata p client in
          let (on, aaaa) = both_true strip_aaaa (qtype == 28) strip in
          let is_aaaa : qtype ≡ 28 = ground arith in
          (
            pending,
            sent,
            rw (not_short, id, named, typed, strip, made),
            answered on (typed ∙ ap ret is_aaaa) refl only,
          )
      | inr no_strip ↦
          let (pending', sent, forwarded, done) =
            forward-Asked drawn now p client tx_id name qtype pending long d in
          (
            pending',
            sent,
            rw (not_short, id, named, typed, no_strip, forwarded),
            asked tx_id name qtype id named typed no_strip done,
          )
    ]

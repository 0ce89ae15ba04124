-- ===== src/Dns/Doh/Answer.antt =====
-- The end of a DoH task, `run_doh` of src/dns.rs: with an answer of the server or without.
use trans_proxy.Base.{
  ℕ, ◌≡◌, inl, inr, ◌∙◌, [], ◌∷◌, map, arith, Bytes, ret, none, some, Returns-cases,
}
use trans_proxy.Map
use trans_proxy.Map.Laws.{get-remove}
use trans_proxy.Map.Order.{KeyOrder}
use trans_proxy.Net.{IpAddr-discrete}
use trans_proxy.Dns.Format.{Message, IsMessage, encode}
use trans_proxy.Dns.Records.{parse_ip_records, build_servfail}
use trans_proxy.Dns.Records.Total.{parse_ip_records-Returns}
use trans_proxy.Dns.Records.Replies.{empty_reply, build_empty_response-empty_reply}
use trans_proxy.Dns.Table.{TableEntry}
use trans_proxy.Dns.Cache.{Bytes-discrete, Cache, CacheEntry}
use trans_proxy.Dns.Cache.Laws.{IsCache, put-IsCache}
use trans_proxy.Dns.Udp.{to_client}
use trans_proxy.Dns.Udp.Response.{learn-total}
use trans_proxy.Dns.Doh.{
  InFlight, complete, subscribers, Doh, Request, keep_response, on_doh_answer,
}

-- A key that was completed is no longer in flight.
complete-absent : (key : Bytes) (m : InFlight) → Map.get Bytes-discrete key (complete key m) ≡ none
unfolding complete
complete-absent key m = get-remove Bytes-discrete key key m ∙ ground arith

module _ (hosts : KeyOrder TableEntry IpAddr-discrete)
    (keys : KeyOrder CacheEntry Bytes-discrete) where
  keep_response-IsCache :
      (now later : ℕ) (key response : Bytes) (cache : Cache)
      → IsCache cache
      → (cache' : Cache) × (keep_response hosts keys now later key response cache ≡ ret cache')
        × IsCache cache'
  unfolding keep_response
  keep_response-IsCache now later key response cache h =
      elim (Returns-cases _ (parse_ip_records response) (parse_ip_records-Returns response)) [
        | inl none_read ↦ (cache, rw none_read, h)
        | inr (ips, read, _) ↦
            let (cache', entry, e, valid, _, _, _, _, _) =
              put-IsCache keys now later key response cache h in
            (cache', rw (read, e), valid)
      ]

  -- Whatever the server answers, the task ends: the client that asked gets the answer, all who
  -- waited for it are sent it too, the query is no longer in flight, and the cache stays bounded
  -- and its keys distinct.
  pub on_doh_answer-response :
      (now later : ℕ) (r : Request) (response : Bytes) (s : Doh)
      → IsCache s.cache
      → (s' : Doh) × (on_doh_answer hosts keys now later r (some response) s
          ≡ ret (
            s',
            to_client r.client_addr response ∷ [],
            map (λ j. (j, response)) (subscribers r.key s.in_flight),
          ))
        × (Map.get Bytes-discrete r.key s'.in_flight ≡ none)
        × IsCache s'.cache
  unfolding on_doh_answer
  on_doh_answer-response now later r response s h =
      let (cache', kept, valid) = keep_response-IsCache now later r.key response s.cache h in
      let (table', learnt, _) = learn-total hosts now response r.name s.table in
      (
        record { cache = cache'; table = table'; in_flight = complete r.key s.in_flight },
        rw (kept, learnt),
        complete-absent r.key s.in_flight,
        valid,
      )

  -- When the server fails, the client that sent a well-formed query and all who wait for it get a
  -- SERVFAIL with the questions of the query, and the query is no longer in flight.
  pub on_doh_answer-failure :
      (now later : ℕ) (r : Request) (m : Message) (tail : Bytes) (s : Doh)
      → IsMessage m
      → r.packet ≡ encode m tail
      → (s' : Doh) × (on_doh_answer hosts keys now later r none s
          ≡ ret (
            s',
            to_client r.client_addr (encode (empty_reply m 2) []) ∷ [],
            map (λ j. (j, encode (empty_reply m 2) [])) (subscribers r.key s.in_flight),
          ))
        × (Map.get Bytes-discrete r.key s'.in_flight ≡ none)
  unfolding on_doh_answer build_servfail
  on_doh_answer-failure now later r m tail s h e = (
    record s { in_flight = complete r.key s.in_flight },
    rw (e, build_empty_response-empty_reply m tail 2 h),
    complete-absent r.key s.in_flight,
  )

-- ===== src/Dns/Cache/Laws.antt =====
-- The DoH cache of src/dns.rs stays bounded, replays what was put in for as long as it may, and
-- ages what it replays.
use trans_proxy.Base.{
  ℕ, ◌+◌, ◌/◌, ◌≤◌, ◌<◌, ◌≡◌, refl, ap, ◌∙◌, not, some, ltb, leb, if◌then◌else◌, Bytes, length,
  lt→leb-false, le→leb, arith, Bool-cases, inl, inr, Run, ret, fail, panic, spin, unwrap_or,
  Returns,
}
use trans_proxy.Map
use trans_proxy.Map.{Distinct, test}
use trans_proxy.Map.Laws.{
  get-insert_self, length-insert-le, length-remove_all, insert-Distinct, retain-Distinct,
  remove_all-Distinct, remove_all-keys_where, length-retain-le,
}
use trans_proxy.Map.Order.{KeyOrder}
use trans_proxy.Dns.Table.{max_cache_entries, secs}
use trans_proxy.Dns.Cache.{
  Bytes-discrete, min_ttl, max_ttl, CacheEntry, Cache, age_secs, replay, get, make_room, with_room,
  new_entry, put,
}
use trans_proxy.Dns.Records.{extract_min_ttl, set_tx_id, u32_max}
use trans_proxy.Dns.Records.Total.{extract_min_ttl-Returns}
use trans_proxy.Dns.Records.Length.{length-rewrite_ttls}
use trans_proxy.Dns.Records.Replies.{length-set_tx_id, set_tx_id-encode}
use trans_proxy.Dns.Records.Ageing.{age_message, rewrite_ttls-age_message}
use trans_proxy.Dns.Format.{Message, IsMessage, encode}

pub record IsCache (cache : Cache) : Type 0 where
  pub distinct : Distinct Bytes-discrete cache
  pub bounded : length cache ≤ max_cache_entries

-- The lifetime that a response is given.
cache_ttl : (response : Bytes) → (t : ℕ) × (unwrap_or min_ttl (extract_min_ttl response) ≡ ret t)
cache_ttl response = go (extract_min_ttl response) (extract_min_ttl-Returns response)
  where
    go : (m : Run ℕ) → Returns (λ t. t ≤ u32_max) m → (t : ℕ) × (unwrap_or min_ttl m ≡ ret t)
    go (ret t) h = (t, refl)
    go fail h = (min_ttl, refl)
    go panic h = absurd h
    go spin h = absurd h

module _ (order : KeyOrder CacheEntry Bytes-discrete) where
  make_room-IsCache :
      (now : ℕ) (cache : Cache)
      → IsCache cache
      → Distinct Bytes-discrete (make_room order now cache)
        × (length (make_room order now cache) < max_cache_entries)
  unfolding make_room
  make_room-IsCache now cache h =
      let keep = λ (e : CacheEntry). not (leb e.expires now) in
      let live = Map.retain keep cache in
      let same : Map.remove_all Bytes-discrete (Map.keys_where (λ e. leb e.expires now) cache) cache
          ≡ live =
        remove_all-keys_where Bytes-discrete (λ (e : CacheEntry). leb e.expires now) cache
          h.distinct in
      let live_distinct = retain-Distinct Bytes-discrete keep cache h.distinct in
      let dropped = order.first_keys (max_cache_entries / 2) live in
      elim (Bool-cases (leb max_cache_entries (length live))) [
        | inl full ↦
            rw (same, full)
              (
                remove_all-Distinct Bytes-discrete dropped live live_distinct,
                ground (
                  arith,
                  length-retain-le keep cache,
                  length-remove_all Bytes-discrete dropped live live_distinct
                      (order.yields (max_cache_entries / 2) live live_distinct),
                  order.count (max_cache_entries / 2) live,
                  h.bounded,
                ),
              )
        | inr some_room ↦ rw (same, some_room) (live_distinct, ground arith)
      ]

  with_room-IsCache :
      (now : ℕ) (cache : Cache)
      → IsCache cache
      → Distinct Bytes-discrete (with_room order now cache)
        × (length (with_room order now cache) < max_cache_entries)
  unfolding with_room
  with_room-IsCache now cache h = elim (Bool-cases (leb max_cache_entries (length cache))) [
    | inl full ↦ rw full (make_room-IsCache now cache h)
    | inr some_room ↦ rw some_room (h.distinct, ground arith)
  ]

  -- A response is always taken into the cache, for at least half a minute and at most an hour;
  -- keys stay distinct, and there are never more than 10,000 entries.
  pub put-IsCache :
      (now later : ℕ) (key response : Bytes) (cache : Cache)
      → IsCache cache
      → (cache' : Cache) × (entry : CacheEntry) × (put order now later key response cache
          ≡ ret cache')
        × IsCache cache'
        × (Map.get Bytes-discrete key cache' ≡ some entry)
        × (entry.response ≡ response)
        × (entry.inserted ≡ now)
        × (now + secs min_ttl ≤ entry.expires)
        × (entry.expires ≤ now + secs max_ttl)
  unfolding put
  put-IsCache now later key response cache h =
      let (ttl, read) = cache_ttl response in
      let entry : CacheEntry = new_entry now response ttl in
      let room = with_room order later cache in
      let valid = with_room-IsCache later cache h in
      (
        Map.insert Bytes-discrete key entry room,
        entry,
        rw read,
        record {
          distinct = insert-Distinct Bytes-discrete key entry room valid.0;
          bounded = omega (arith, length-insert-le Bytes-discrete key entry room, valid.1);
        },
        get-insert_self Bytes-discrete key entry room,
        refl,
        refl,
        ground arith,
        ground arith,
      )

-- Whatever is cached, what is replayed is as long as what was put in.
pub length-replay :
    (later tx_id : ℕ) (entry : CacheEntry)
    → (r : Bytes) × (replay later tx_id entry ≡ ret r) × (length r ≡ length entry.response)
unfolding replay
length-replay later tx_id entry =
    let resp = set_tx_id entry.response tx_id in
    let elapsed = age_secs entry.inserted later in
    let (r, e, same) = length-rewrite_ttls resp elapsed in
    elim (Bool-cases (ltb 0 elapsed)) [
      | inl aged ↦ (r.0, rw (aged, e), same ∙ length-set_tx_id entry.response tx_id)
      | inr fresh ↦ (resp, rw fresh, length-set_tx_id entry.response tx_id)
    ]

-- A well-formed response is replayed as itself, under the client's transaction id and aged by
-- the whole seconds since it was put in.
pub replay-age_message :
    (later tx_id : ℕ) (m : Message) (tail : Bytes) (entry : CacheEntry)
    → IsMessage m
    → entry.response ≡ encode m tail
    → replay later tx_id entry ≡ (
        let elapsed = age_secs entry.inserted later in
        let mine = record m { tx_id = tx_id } in
        ret (encode (if ltb 0 elapsed then age_message elapsed mine else mine) tail))
unfolding replay
replay-age_message later tx_id m tail entry h e =
    let elapsed = age_secs entry.inserted later in
    let mine : Message = record m { tx_id = tx_id } in
    let resp : set_tx_id entry.response tx_id ≡ encode mine tail =
      ap (λ p. set_tx_id p tx_id) e ∙ set_tx_id-encode m tail tx_id in
    elim (Bool-cases (ltb 0 elapsed)) [
      | inl aged ↦ rw (aged, resp, rewrite_ttls-age_message mine tail elapsed (renumbered mine))
      | inr fresh ↦ rw (fresh, resp)
    ]
  where
    renumbered : (mine : Message) → IsMessage (record m { tx_id = tx_id })
    renumbered mine = record {
      questions = h.questions;
      answers = h.answers;
      authority = h.authority;
      additional = h.additional;
      question_count = h.question_count;
      answer_count = h.answer_count;
      authority_count = h.authority_count;
      additional_count = h.additional_count;
    }

module _ (order : KeyOrder CacheEntry Bytes-discrete) (now later : ℕ) (key response : Bytes)
    (cache cache' : Cache) where
  put-get :
      put order now later key response cache ≡ ret cache'
      → (entry : CacheEntry) × (Map.get Bytes-discrete key cache' ≡ some entry)
        × (entry.response ≡ response)
        × (entry.inserted ≡ now)
        × (now + secs min_ttl ≤ entry.expires)
        × (entry.expires ≤ now + secs max_ttl)
  unfolding put
  put-get h =
      let (ttl, read) = cache_ttl response in
      let entry = new_entry now response ttl in
      let room = with_room order later cache in
      let made : cache' ≡ Map.insert Bytes-discrete key entry room = cc (rw read at h) in
      (
        entry,
        ap (Map.get Bytes-discrete key) made ∙ get-insert_self Bytes-discrete key entry room,
        refl,
        refl,
        ground arith,
        ground arith,
      )

  -- For half a minute after it was put in, a response is replayed to every client that asks.
  pub get-put_fresh :
      (at read tx_id : ℕ)
      → put order now later key response cache ≡ ret cache'
      → at < now + secs min_ttl
      → (entry : CacheEntry) × (get at read key tx_id cache' ≡ replay read tx_id entry)
        × (entry.response ≡ response)
        × (entry.inserted ≡ now)
  unfolding get
  get-put_fresh at read tx_id h fresh =
      let (entry, found, same, since, least, most) = put-get h in
      (entry, rw (found, lt→leb-false entry.expires at (omega arith)), same, since)

  -- An hour after it was put in, and from then on, a response is no longer served.
  pub get-put_stale :
      (at read tx_id : ℕ)
      → put order now later key response cache ≡ ret cache'
      → now + secs max_ttl ≤ at
      → get at read key tx_id cache' ≡ fail
  unfolding get
  get-put_stale at read tx_id h old =
      let (entry, found, same, since, least, most) = put-get h in
      rw (found, le→leb entry.expires at (omega arith))

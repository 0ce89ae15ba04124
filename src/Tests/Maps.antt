-- ===== src/Tests/Maps.antt =====
-- The table, the cache and the pending queries at concrete states.
use trans_proxy.Base.{◌+◌, ◌≤◌, ◌≡◌, refl, List, [], ◌∷◌, arith, ret, none, some}
use native.Mathlib.Decide.{ℕ_discrete}
use trans_proxy.Map
use trans_proxy.Map.Order.{KeyOrder, list_order}
use trans_proxy.Net.{IpAddr, v4, IpAddr-discrete}
use trans_proxy.Dns.Format.{encode}
use trans_proxy.Dns.Table
use trans_proxy.Dns.Table.{secs, max_cache_entries, TableEntry, Table, lookup}
use trans_proxy.Dns.Table.Laws.{IsTable}
use trans_proxy.Dns.Table.Replay.{Learned, learn_all, replay_learned, learn_all-replay}
use trans_proxy.Dns.Cache
use trans_proxy.Dns.Cache.{
  Bytes-discrete, Cache, CacheEntry, min_ttl, max_ttl, put, replay, new_entry, age_secs,
}
use trans_proxy.Dns.Cache.Laws.{IsCache, put-IsCache}
use trans_proxy.Dns.Records.{extract_min_ttl}
use trans_proxy.Dns.Pending.{pending_take_match}
use trans_proxy.Dns.Pending.Insert.{Inserted, pending_insert-Inserted}
use trans_proxy.Dns.Pending.Match.{take_match_found}
use trans_proxy.Tests.Data.{
  pending-Distinct, seven_waits, capitals, capitals-Answers, reply, site_bytes, waiting, pending,
}

abbrev a_host : IpAddr
a_host = v4 10 0 0 7

abbrev other_host : IpAddr
other_host = v4 10 0 0 8

abbrev hosts : KeyOrder TableEntry IpAddr-discrete
hosts = list_order IpAddr-discrete

-- The address is learned under one name, and then under another.
abbrev learned : List Learned
learned =
    record { now = 5; later = 6; ip = a_host; domain = 98 ∷ []; ttl = 60 }
    ∷ record { now = 6; later = 7; ip = other_host; domain = 99 ∷ []; ttl = 60 }
    ∷ record { now = 7; later = 8; ip = a_host; domain = site_bytes; ttl = 300 }
    ∷ []

learned_last : lookup 9 a_host (learn_all hosts learned Table.new) ≡ some site_bytes
unfolding learn_all lookup Table.unexpired Table.insert Map.get Map.insert Map.remove
    IpAddr-discrete ℕ_discrete
learned_last = refl

learn_all-replay_example :
    IsTable (learn_all hosts learned Table.new)
    × (replay_learned learned (λ _ _. none) 9 a_host ≡ some site_bytes)
learn_all-replay_example = learn_all-replay hosts learned 9 a_host site_bytes learned_last

abbrev keys : KeyOrder CacheEntry Bytes-discrete
keys = list_order Bytes-discrete

put-IsCache_example :
    (cache' : Cache) × (entry : CacheEntry) × (put keys 5 6 (1 ∷ []) (encode reply []) []
      ≡ ret cache')
    × IsCache cache'
    × (Map.get Bytes-discrete (1 ∷ []) cache' ≡ some entry)
    × (entry.response ≡ encode reply [])
    × (entry.inserted ≡ 5)
    × (5 + secs min_ttl ≤ entry.expires)
    × (entry.expires ≤ 5 + secs max_ttl)
put-IsCache_example =
    put-IsCache keys 5 6 (1 ∷ []) (encode reply []) []
      (record { distinct = tt; bounded = omega arith })

abbrev stored : CacheEntry
stored = new_entry 0 (encode reply []) 300

-- Too short to say a lifetime: it gets the least.
abbrev short_entry : CacheEntry
short_entry = new_entry 0 (9 ∷ 9 ∷ []) 30

put_short : put keys 0 0 (1 ∷ []) (9 ∷ 9 ∷ []) [] ≡ ret ((1 ∷ [], short_entry) ∷ [])
unfolding put Cache.with_room Map.insert Map.remove extract_min_ttl
put_short = refl

pending_insert-Inserted_example : Inserted (7 ∷ 8 ∷ []) waiting 5 pending
pending_insert-Inserted_example =
    pending_insert-Inserted (7 ∷ 8 ∷ []) waiting 5 pending pending-Distinct

matched : pending_take_match 7 capitals 1 pending ≡ (Map.remove ℕ_discrete 7 pending, some waiting)
matched = take_match_found 7 capitals 1 pending waiting seven_waits capitals-Answers

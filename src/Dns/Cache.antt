-- ===== src/Dns/Cache.antt =====
-- `DnsCache` of src/dns.rs, the cache of DoH responses. As in the table, an `Instant` is a number
-- of nanoseconds and each reading of the clock is an argument; the entries that a full cache
-- scans are held to one reading.
pub mod Laws
use trans_proxy.Base.{
  ℕ, ◌+◌, ◌-◌, ◌*◌, ◌/◌, ◌^◌, min, Bool, true, false, not, List, [], Option, none, some, ltb, leb,
  if◌then◌else◌, Bytes, length, Run, ret, fail, ◌>>=◌, ◌>>◌, guard, lift, unwrap_or,
}
use native.Mathlib.Decide.{ℕ_discrete}
use trans_proxy.Map
use trans_proxy.Map.Order.{KeyOrder}
use trans_proxy.Dns.Table.{max_cache_entries, secs}
use trans_proxy.Dns.Records.{extract_min_ttl, rewrite_ttls, set_tx_id, clamp, u32_max}

unfoldable pub Bytes-discrete : Discrete Bytes
Bytes-discrete = hlevel ℕ_discrete

abbrev pub min_ttl : ℕ
min_ttl = 30

abbrev pub max_ttl : ℕ
max_ttl = 3600

pub record CacheEntry : Type 0 where
  pub response : Bytes
  pub inserted : ℕ
  pub expires : ℕ

abbrev pub Cache : Type 0
Cache = List (Bytes × CacheEntry)

abbrev pub new : Cache
new = []

-- `inserted.elapsed().as_secs().min(u32::MAX as u64) as u32`
abbrev pub age_secs : ℕ → ℕ → ℕ
age_secs inserted now = min ((now - inserted) / 10 ^ 9) u32_max

-- The response of a live entry for a client: its transaction id, and its lifetimes lowered.
unfoldable pub replay : ℕ → ℕ → CacheEntry → Run Bytes
replay later tx_id entry =
    let resp = set_tx_id entry.response tx_id in
    let elapsed = age_secs entry.inserted later in
    let rewritten = do (resp', _) ← rewrite_ttls resp elapsed; ret resp'
    in if ltb 0 elapsed then rewritten else ret resp

-- The clock is read for the expiry test, and again for the age.
unfoldable pub get : ℕ → ℕ → Bytes → ℕ → Cache → Run Bytes
get now later key tx_id cache = do
  entry ← lift (Map.get Bytes-discrete key cache)
  guard (not (leb entry.expires now))
  replay later tx_id entry

abbrev pub new_entry : ℕ → Bytes → ℕ → CacheEntry
new_entry now response ttl = record {
  response = response;
  inserted = now;
  expires = now + secs (clamp ttl min_ttl max_ttl);
}

abbrev is_stale : ℕ → CacheEntry → Bool
is_stale now e = leb e.expires now

module _ (order : KeyOrder CacheEntry Bytes-discrete) where
  unfoldable pub make_room : ℕ → Cache → Cache
  make_room now cache =
      let stale = Map.keys_where (is_stale now) cache in
      let live = Map.remove_all Bytes-discrete stale cache in
      if leb max_cache_entries (length live)
      then Map.remove_all Bytes-discrete (order.first_keys (max_cache_entries / 2) live) live
      else live

  unfoldable pub with_room : ℕ → Cache → Cache
  with_room now cache = if leb max_cache_entries (length cache) then make_room now cache else cache

  unfoldable pub put : ℕ → ℕ → Bytes → Bytes → Cache → Run Cache
  put now later key response cache = do
    ttl ← unwrap_or min_ttl (extract_min_ttl response)
    ret (Map.insert Bytes-discrete key (new_entry now response ttl) (with_room later cache))

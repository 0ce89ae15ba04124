-- ===== src/Dns/Table.antt =====
-- `DnsTable` of src/dns.rs, the IP→domain table shared with the proxy. An `Instant` is a number
-- of nanoseconds; each reading of the clock is an argument. Domains are their UTF-8 bytes.
pub mod Laws
pub mod Replay
use trans_proxy.Base.{
  ℕ, ◌+◌, ◌*◌, ◌/◌, ◌^◌, Bool, List, [], Option, none, some, ltb, leb, if◌then◌else◌, Bytes, length,
}
use trans_proxy.Map
use trans_proxy.Map.Order.{KeyOrder}
use trans_proxy.Net.{IpAddr, IpAddr-discrete}

abbrev pub max_cache_entries : ℕ
max_cache_entries = 10000

-- `Duration::from_secs`, in nanoseconds.
abbrev pub secs : ℕ → ℕ
secs n = n * 10 ^ 9

-- The domain and when it expires.
abbrev pub TableEntry : Type 0
TableEntry = Bytes × ℕ

abbrev pub Table : Type 0
Table = List (IpAddr × TableEntry)

abbrev pub new : Table
new = []

unfoldable pub unexpired : ℕ → Option TableEntry → Option Bytes
unexpired now none = none
unexpired now (some (domain, expires)) = if leb expires now then none else some domain

unfoldable pub lookup : ℕ → IpAddr → Table → Option Bytes
lookup now ip table = unexpired now (Map.get IpAddr-discrete ip table)

module _ (order : KeyOrder TableEntry IpAddr-discrete) where
  -- Expired entries go first, and if the table is still full, half of it.
  unfoldable pub make_room : ℕ → Table → Table
  make_room now table =
      let live = Map.retain (λ (e : TableEntry). ltb now e.1) table in
      if leb max_cache_entries (length live)
      then Map.remove_all IpAddr-discrete (order.first_keys (max_cache_entries / 2) live) live
      else live

  -- The clock is read when the lifetime starts, and again if the table is full.
  unfoldable pub insert : ℕ → ℕ → IpAddr → Bytes → ℕ → Table → Table
  insert now later ip domain ttl_secs table =
      let room = if leb max_cache_entries (length table) then make_room later table else table in
      Map.insert IpAddr-discrete ip (domain, now + secs ttl_secs) room

-- ===== src/Dns/Table/Laws.antt =====
-- What the IP→domain table of src/dns.rs answers after an insertion, and that it stays bounded.
use trans_proxy.Base.{
  ℕ, ◌+◌, ◌/◌, ◌≤◌, ◌<◌, ◌≡◌, ◌≢◌, refl, ap, sym, ◌∙◌, Bool, Option, none, some, ltb, leb,
  if◌then◌else◌, Bytes, length, lt→leb-false, arith, Bool-cases, Option-cases, inl, inr,
}
use trans_proxy.Map
use trans_proxy.Map.{Distinct, test}
use trans_proxy.Map.Laws.{
  get-insert, get-insert_ne, get-retain, get-remove_all, length-insert-le, length-remove_all,
  insert-Distinct, retain-Distinct, remove_all-Distinct, length-retain-le, keep_if,
}
use trans_proxy.Map.Order.{KeyOrder}
use trans_proxy.Net.{IpAddr, IpAddr-discrete}
use trans_proxy.Dns.Table.{
  max_cache_entries, secs, TableEntry, Table, unexpired, lookup, make_room, insert,
}

-- Each address has one entry, and there are at most `MAX_CACHE_ENTRIES`.
pub record IsTable (table : Table) : Type 0 where
  pub distinct : Distinct IpAddr-discrete table
  pub bounded : length table ≤ max_cache_entries

module _ (order : KeyOrder TableEntry IpAddr-discrete) where
  make_room-Distinct :
      (now : ℕ) (table : Table)
      → Distinct IpAddr-discrete table
      → Distinct IpAddr-discrete (make_room order now table)
  unfolding make_room
  make_room-Distinct now table d =
      let live = Map.retain (λ (e : TableEntry). ltb now e.1) table in
      let live_distinct =
        retain-Distinct IpAddr-discrete (λ (e : TableEntry). ltb now e.1) table d in
      elim (Bool-cases (leb max_cache_entries (length live))) [
        | inl full ↦ rw full (
            remove_all-Distinct IpAddr-discrete (order.first_keys (max_cache_entries / 2) live) live
              live_distinct)
        | inr some_room ↦ rw some_room live_distinct
      ]

  length-make_room :
      (now : ℕ) (table : Table)
      → IsTable table
      → length (make_room order now table) < max_cache_entries
  unfolding make_room
  length-make_room now table h =
      let live = Map.retain (λ (e : TableEntry). ltb now e.1) table in
      let live_distinct =
        retain-Distinct IpAddr-discrete (λ (e : TableEntry). ltb now e.1) table h.distinct in
      let dropped = order.first_keys (max_cache_entries / 2) live in
      elim (Bool-cases (leb max_cache_entries (length live))) [
        | inl full ↦ rw full (
            ground (
              arith,
              length-retain-le (λ (e : TableEntry). ltb now e.1) table,
              length-remove_all IpAddr-discrete dropped live live_distinct
                  (order.yields (max_cache_entries / 2) live live_distinct),
              order.count (max_cache_entries / 2) live,
              h.bounded,
            ))
        | inr some_room ↦ rw some_room (ground arith)
      ]

  -- An insertion keeps one entry for each address and never more than 10,000 entries, whatever
  -- half the map gives up when it is full.
  pub insert-IsTable :
      (now later : ℕ) (ip : IpAddr) (domain : Bytes) (ttl : ℕ) (table : Table)
      → IsTable table
      → IsTable (insert order now later ip domain ttl table)
  unfolding insert
  insert-IsTable now later ip domain ttl table h =
      elim (Bool-cases (leb max_cache_entries (length table))) [
        | inl full ↦ rw full (
            with_room (make_room order later table) (make_room-Distinct later table h.distinct)
              (length-make_room later table h))
        | inr some_room ↦ rw some_room (with_room table h.distinct (ground arith))
      ]
    where
      with_room :
          (room : Table)
          → Distinct IpAddr-discrete room
          → length room < max_cache_entries
          → IsTable (Map.insert IpAddr-discrete ip (domain, now + secs ttl) room)
      with_room room d lt = record {
        distinct = insert-Distinct IpAddr-discrete ip (domain, now + secs ttl) room d;
        bounded = omega (arith, length-insert-le IpAddr-discrete ip (domain, now + secs ttl) room);
      }

  -- The new mapping is found until its lifetime ends, and not from then on.
  pub lookup-insert_self :
      (now later at : ℕ) (ip : IpAddr) (domain : Bytes) (ttl : ℕ) (table : Table)
      → lookup at ip (insert order now later ip domain ttl table)
        ≡ (if leb (now + secs ttl) at then none else some domain)
  unfolding lookup insert unexpired
  lookup-insert_self now later at ip domain ttl table =
      let room =
        if leb max_cache_entries (length table) then make_room order later table else table in
      rw get-insert (ground arith)

  get-make_room :
      (now : ℕ) (j : IpAddr) (e : TableEntry) (table : Table)
      → Distinct IpAddr-discrete table
      → Map.get IpAddr-discrete j (make_room order now table) ≡ some e
      → Map.get IpAddr-discrete j table ≡ some e
  unfolding make_room
  get-make_room now j e table d found =
      let live = Map.retain (λ (e : TableEntry). ltb now e.1) table in
      let was_live = λ (f : Map.get IpAddr-discrete j live ≡ some e).
        kept (Map.get IpAddr-discrete j table)
          (sym (get-retain IpAddr-discrete (λ (e : TableEntry). ltb now e.1) j table d) ∙ f) in
      elim (Bool-cases (leb max_cache_entries (length live))) [
        | inl full ↦ was_live (
            get-remove_all IpAddr-discrete (order.first_keys (max_cache_entries / 2) live) j e live
              (rw full at found))
        | inr some_room ↦ was_live (rw some_room at found)
      ]
    where
      kept :
          (o : Option TableEntry)
          → keep_if (λ (e : TableEntry). ltb now e.1) o ≡ some e
          → o ≡ some e
      kept none f = f
      kept (some e') f = ground arith

  unexpired-make_room :
      (later at : ℕ) (j : IpAddr) (d : Bytes) (table : Table)
      → Distinct IpAddr-discrete table
      → lookup at j (make_room order later table) ≡ some d
      → lookup at j table ≡ some d
  unfolding lookup
  unexpired-make_room later at j d table distinct found =
      elim (Option-cases (Map.get IpAddr-discrete j (make_room order later table))) [
        | inl gone ↦ absurd (unfold unexpired in cc (rw gone at found))
        | inr (e, here) ↦ rw (get-make_room later j e table distinct here) (rw here at found)
      ]

  -- A mapping found for another address was there before: an insertion makes nothing up.
  pub lookup-insert_ne :
      (now later at : ℕ) (ip j : IpAddr) (domain d : Bytes) (ttl : ℕ) (table : Table)
      → IsTable table
      → ip ≢ j
      → lookup at j (insert order now later ip domain ttl table) ≡ some d
      → lookup at j table ≡ some d
  unfolding lookup insert
  lookup-insert_ne now later at ip j domain d ttl table h other found =
      elim (Bool-cases (leb max_cache_entries (length table))) [
        | inl full ↦ unexpired-make_room later at j d table h.distinct (
            ap (unexpired at) (
              sym (
                get-insert_ne IpAddr-discrete ip j (domain, now + secs ttl)
                  (make_room order later table) other))
            ∙ rw full at found)
        | inr some_room ↦
            ap (unexpired at)
              (sym (get-insert_ne IpAddr-discrete ip j (domain, now + secs ttl) table other))
            ∙ rw some_room at found
      ]

  unexpired-keep_if :
      (later at : ℕ) (o : Option TableEntry)
      → later ≤ at
      → unexpired at (keep_if (λ (e : TableEntry). ltb later e.1) o) ≡ unexpired at o
  unfolding unexpired
  unexpired-keep_if later at none h = refl
  unexpired-keep_if later at (some (d, expires)) h = ground arith

  -- While fewer than 10,000 entries are alive, an insertion changes nothing for the other
  -- addresses: only entries that have expired are given up.
  pub lookup-insert_alive :
      (now later at : ℕ) (ip j : IpAddr) (domain : Bytes) (ttl : ℕ) (table : Table)
      → IsTable table
      → ip ≢ j
      → later ≤ at
      → length (Map.retain (λ (e : TableEntry). ltb later e.1) table) < max_cache_entries
      → lookup at j (insert order now later ip domain ttl table) ≡ lookup at j table
  unfolding lookup insert make_room
  lookup-insert_alive now later at ip j domain ttl table h other after few =
      elim (Bool-cases (leb max_cache_entries (length table))) [
        | inl full ↦
            rw (full, lt→leb-false max_cache_entries _ few)
              (ap (unexpired at) (
                  get-insert_ne IpAddr-discrete ip j (domain, now + secs ttl)
                    (Map.retain alive table) other
                  ∙ get-retain IpAddr-discrete alive j table h.distinct)
                ∙ unexpired-keep_if later at (Map.get IpAddr-discrete j table) after)
        | inr some_room ↦ rw some_room (
            ap (unexpired at)
              (get-insert_ne IpAddr-discrete ip j (domain, now + secs ttl) table other))
      ]
    where
      alive : TableEntry → Bool
      alive e = ltb later e.1

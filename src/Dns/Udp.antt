-- ===== src/Dns/Udp.antt =====
-- `run_udp` of src/dns.rs: one function for each turn of its two loops, over the pending queries
-- and the table that the two tasks share. A turn holds the lock on the pending queries once, so
-- any run of the forwarder is a sequence of these turns. What is sent is part of the result; a
-- failed `send` is only logged. A failed `recv` of the reader only starts its next turn, and one
-- of the main loop ends `run_udp`; neither is a turn here. The readings of the clock within a
-- turn are taken as one.
pub mod Query
pub mod Reply
pub mod Response
use trans_proxy.Base.{
  ℕ, ◌+◌, Bool, true, false, not, ◌&&◌, List, [], ◌∷◌, Option, none, some, bit_and, ltb, ◌==◌,
  if◌then◌else◌, Bytes, length, Run, ret, fail, panic, spin, ◌>>=◌, attempt, unwrap_or, byte, be16,
  overwrite, u16_bytes,
}
use trans_proxy.Map.Order.{KeyOrder}
use trans_proxy.Net.{IpAddr, IpAddr-discrete, SocketAddr}
use trans_proxy.Dns.Name.{parse_query_name, parse_query_type}
use trans_proxy.Dns.Records.{parse_ip_records, table_ttl, build_nodata}
use trans_proxy.Dns.Table
use trans_proxy.Dns.Table.{Table, TableEntry}
use trans_proxy.Dns.Pending.{Pending, PendingQuery, pending_insert, pending_take_match}

-- A datagram on the client socket or on the upstream socket.
pub data Send : Type 0 where
  to_client : SocketAddr → Bytes → Send
  to_upstream : Bytes → Send

-- `unwrap_or_default` and `unwrap_or(0)` of the two parsers.
unfoldable pub query_name : Bytes → Run Bytes
query_name p = unwrap_or [] (parse_query_name p)

unfoldable pub query_type : Bytes → Run ℕ
query_type p = unwrap_or 0 (parse_query_type p)

-- The answer without records, sent to the client in place of a forwarded query.
unfoldable pub send_nodata : Bytes → SocketAddr → Run (List Send)
send_nodata p client = do
  made ← attempt (build_nodata p)
  elim made [ none ↦ ret [] | some resp ↦ ret (to_client client resp ∷ []) ]

-- The rest of a turn of the main loop, once the query is not answered locally.
unfoldable pub forward :
    List ℕ → ℕ → Bytes → SocketAddr → ℕ → Bytes → ℕ → Pending → Run (Pending × List Send)
forward drawn now p client tx_id name qtype pending = do
  let entry : PendingQuery = record {
    client_addr = client;
    client_tx_id = tx_id;
    name = name;
    qtype = qtype;
    created = now;
  }
  (pending', id) ← pending_insert drawn entry now pending
  elim id [
    | none ↦ ret (pending', [])
    | some upstream_tx_id ↦ do
      p' ← overwrite p 0 (u16_bytes upstream_tx_id)
      ret (pending', to_upstream p' ∷ [])
  ]

-- A turn of the main loop: a packet `p` from a client.
unfoldable pub on_query :
    Bool → List ℕ → ℕ → Bytes → SocketAddr → Pending → Run (Pending × List Send)
on_query strip_aaaa drawn now p client pending =
    let turn = do
      tx_id ← be16 p 0
      name ← query_name p
      qtype ← query_type p
      let stripped = do sent ← send_nodata p client; ret (pending, sent)
      let forwarded = forward drawn now p client tx_id name qtype pending
      if strip_aaaa && qtype == 28 then stripped else forwarded
    in if ltb (length p) 12 then ret (pending, []) else turn

module _ (order : KeyOrder TableEntry IpAddr-discrete) where
  -- `for ip in ips { table.insert(*ip, name.clone(), ttl) }`, at one reading of the clock.
  unfoldable pub insert_all : ℕ → List IpAddr → Bytes → ℕ → Table → Table
  insert_all now [] name ttl table = table
  insert_all now (ip ∷ ips) name ttl table =
      insert_all now ips name ttl (Table.insert order now now ip name ttl table)

  -- The addresses of a response go into the table under its name.
  unfoldable pub learn : ℕ → Bytes → Bytes → Table → Run Table
  learn now p name table = do
    resolved ← attempt (parse_ip_records p)
    elim resolved [
      | none ↦ ret table
      | some ips ↦ do ttl ← table_ttl p; ret (insert_all now ips name ttl table)
    ]

  -- The rest of a turn once the response has been matched.
  unfoldable pub deliver : ℕ → Bytes → Bytes → PendingQuery → Table → Run (Table × List Send)
  deliver now p name entry table = do
    table' ← learn now p name table
    p' ← overwrite p 0 (u16_bytes entry.client_tx_id)
    ret (table', to_client entry.client_addr p' ∷ [])

  -- What is done with the outcome of `pending_take_match`.
  unfoldable pub settle :
      ℕ → Bytes → Bytes → Table → Pending × Option PendingQuery → Run (Pending × Table × List Send)
  settle now p name table (pending', none) = ret (pending', table, [])
  settle now p name table (pending', some entry) = do
    (table', sent) ← deliver now p name entry table
    ret (pending', table', sent)

  unfoldable pub accept : ℕ → Bytes → Pending → Table → Run (Pending × Table × List Send)
  accept now p pending table = do
    tx_id ← be16 p 0
    parsed ← attempt (parse_query_name p)
    elim parsed [
      | none ↦ ret (pending, table, [])
      | some name ↦ do
        qtype ← query_type p
        settle now p name table (pending_take_match tx_id name qtype pending)
    ]

  -- A turn of the upstream reader: a packet `p` on the upstream socket.
  unfoldable pub on_response : ℕ → Bytes → Pending → Table → Run (Pending × Table × List Send)
  on_response now p pending table =
      let turn = do
        flags ← byte p 2
        let answered = accept now p pending table
        if bit_and flags 0x80 == 0 then ret (pending, table, []) else answered
      in if ltb (length p) 12 then ret (pending, table, []) else turn

-- ===== src/Dns/Tcp.antt =====
-- `handle_tcp_dns_client` of src/dns.rs: DNS over TCP, where each message follows its length in
-- two bytes; and `forward_tcp_dns_query`. What the upstream answers to a query is an argument of the
-- listener, `fail` where it fails or the time for it is over. A client that closes, or is idle for too long, ends the call without an
-- error; every other failure is `fail`.
pub mod Pipelined
pub mod Upstream
use trans_proxy.Base.{
  ℕ, zero, suc, ◌+◌, ◌-◌, ◌*◌, ◌≤◌, ◌<◌, ◌≡◌, ◌≢◌, ◌⊎◌, inl, inr, refl, sym, ap, ◌∙◌, true, false,
  Bool, not, ◌&&◌, ◌||◌, List, [], ◌∷◌, ◌++◌, map, arith, append_assoc, append-nil, ltb, leb,
  le→leb, ◌==◌, lt→ltb, ne→==-false, ==_refl, ◌/◌, ◌%◌, max, min, bit_and, bit_or, ◌^◌, Bytes,
  length, drop, take, replicate, u16_bytes, u32_bytes, length-append, length-take, length-drop,
  length_from_drop, drop_past, take-append, drop-append, take-append-drop, Run, ret, fail, panic,
  spin, ◌>>=◌, ◌>>◌, guard, attempt, unwrap_or, byte, slice, slice_le, byte-drop, be16, be32,
  overwrite, if◌then◌else◌, Bool-cases, Option, none, some, Returns, Returns-cases, overwrite_le,
  unwrap_or-Returns, be16_lt, byte_lt, Gives, ltb→lt, leb→le,
}
use trans_proxy.Map.Order.{KeyOrder}
use trans_proxy.Net.{IpAddr-discrete, SocketAddr}
use trans_proxy.Net.Wire.{Stream, write_all, read_exact}
use trans_proxy.Dns.Records.{build_nodata}
use trans_proxy.Dns.Table.{Table, TableEntry}
use trans_proxy.Dns.Udp.{query_name, learn}
use trans_proxy.Dns.Doh.{is_aaaa}

-- A message behind its length; `resp.len() as u16` wraps, as `u16_bytes` does.
unfoldable pub write_message : Stream → Bytes → Run Stream
write_message s resp = do s ← write_all s (u16_bytes (length resp)); write_all s resp

unfoldable pub write_nodata : Stream → Bytes → Run Stream
write_nodata s query = do
  made ← attempt (build_nodata query)
  elim made [ none ↦ ret s | some resp ↦ write_message s resp ]

-- The client of an HTTP request is not kept.
pub data TcpDnsUpstream : Type 0 where
  tcp : SocketAddr → TcpDnsUpstream
  doh : Bytes → TcpDnsUpstream

-- `dial` opens a connection, `server` is what the other side sends once it has received some bytes,
-- and `doh_query` asks a DoH server.
module _ (dial : SocketAddr → Run Stream) (server : SocketAddr → Bytes → Bytes)
    (doh_query : Bytes → Bytes → Run Bytes) where
  unfoldable pub forward_tcp_dns_query : TcpDnsUpstream → Bytes → Run Bytes
  forward_tcp_dns_query (doh url) query = doh_query url query
  forward_tcp_dns_query (tcp addr) query = do
    conn ← dial addr
    asked ← write_message conn query
    (told, len_buf) ← read_exact (record asked { incoming = server addr asked.written }) 2
    len ← be16 len_buf 0
    (_, response) ← read_exact told len
    ret response

module _ (hosts : KeyOrder TableEntry IpAddr-discrete) (upstream : Bytes → Run Bytes) where
  -- The query's answer, or `false` where the connection is given up.
  unfoldable pub forward_query : ℕ → Bytes → Bytes → Stream → Table → Run (Bool × Stream × Table)
  forward_query now query name s table = do
    answered ← attempt (upstream query)
    elim answered [
      | none ↦ ret (false, s, table)
      | some response ↦ do
        guard (leb 12 (length response))
        guard (ltb (length response) (2 ^ 16))
        table' ← learn hosts now response name table
        s' ← write_message s response
        ret (true, s', table')
    ]

  unfoldable pub answer_query : Bool → ℕ → Bytes → Stream → Table → Run (Bool × Stream × Table)
  answer_query strip_aaaa now query s table = do
    name ← query_name query
    aaaa ← is_aaaa query
    let stripped = do s' ← write_nodata s query; ret (true, s', table)
    let forwarded = forward_query now query name s table
    if strip_aaaa && aaaa then stripped else forwarded

  -- `now` is the reading of the clock in each round.
  unfoldable pub handle_tcp_dns_client : ℕ → Bool → (ℕ → ℕ) → Stream → Table → Run (Stream × Table)
  handle_tcp_dns_client zero strip_aaaa now s table = spin
  handle_tcp_dns_client (suc f) strip_aaaa now s table = do
    prefix ← attempt (read_exact s 2)
    elim prefix [
      | none ↦ ret (s, table)
      | some (s₁, len_buf) ↦ do
        len ← be16 len_buf 0
        guard (leb 12 len)
        (s₂, query) ← read_exact s₁ len
        (more, s₃, table') ← answer_query strip_aaaa (now f) query s₂ table
        let rest = handle_tcp_dns_client f strip_aaaa now s₃ table'
        if more then rest else ret (s₃, table')
    ]

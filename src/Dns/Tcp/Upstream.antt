-- ===== src/Dns/Tcp/Upstream.antt =====
-- DNS over TCP from the client to the upstream server, `handle_tcp_dns_client` with
-- `forward_tcp_dns_query` of src/dns.rs.
use trans_proxy.Base.{
  ℕ, ◌+◌, ◌*◌, ◌≤◌, ◌<◌, ◌≡◌, refl, sym, ap, ◌∙◌, false, List, [], ◌∷◌, ◌++◌, map, append-nil,
  Bytes, length, u16_bytes, Run, ret,
}
use trans_proxy.Base.{be16-drop, u16_limit}
use trans_proxy.Map.Order.{KeyOrder}
use trans_proxy.Net.{IpAddr-discrete, SocketAddr}
use trans_proxy.Net.Wire.{Stream, read_exact-append}
use trans_proxy.Dns.Format.{All}
use trans_proxy.Dns.Table.{Table, TableEntry}
use trans_proxy.Dns.Tcp.{tcp, forward_tcp_dns_query, handle_tcp_dns_client}
use trans_proxy.Dns.Tcp.Pipelined.{frames, IsAnswered, written_message, handle_tcp-pipelined}

-- The server at an address answers a query of an allowed length, each message behind its length.
pub record IsServed (server : SocketAddr → Bytes → Bytes) (addr : SocketAddr)
    (answer : Bytes → Bytes) (q : Bytes) : Type 0 where
  pub query_long : 12 ≤ length q
  pub query_short : length q < u16_limit
  pub served : server addr (frames (q ∷ [])) ≡ frames (answer q ∷ [])
  pub answer_long : 12 ≤ length (answer q)
  pub answer_short : length (answer q) < u16_limit

-- A new connection on which `k` writes succeed.
abbrev pub fresh : ℕ → Stream
fresh k = record { incoming = []; written = []; writes_left = k }

module _ (dial : SocketAddr → Run Stream) (server : SocketAddr → Bytes → Bytes)
    (doh_query : Bytes → Bytes → Run Bytes) (addr : SocketAddr) (j : ℕ)
    (dialled : dial addr ≡ ret (fresh (2 + j))) (answer : Bytes → Bytes) where
  forward-served :
      (q : Bytes)
      → IsServed server addr answer q
      → forward_tcp_dns_query dial server doh_query (tcp addr) q ≡ ret (answer q)
  unfolding forward_tcp_dns_query
  forward-served q h =
      let n : ℕ = length (answer q) in
      let sent : Bytes = [] ++ (u16_bytes (length q) ++ q) in
      let framed : [] ++ (u16_bytes (length q) ++ q) ≡ frames (q ∷ []) =
        ap (λ x. u16_bytes (length q) ++ x) (sym (append-nil q)) in
      let told : server addr sent ≡ u16_bytes n ++ (answer q ++ []) =
        ap (server addr) framed ∙ h.served in
      let s : Stream = record { incoming = server addr sent; written = sent; writes_left = j } in
      let s' : Stream = record { incoming = answer q ++ []; written = sent; writes_left = j } in
      rw
        (
          dialled,
          written_message [] [] q j,
          read_exact-append s 2 (u16_bytes n) (answer q ++ []) told refl,
          be16-drop (u16_bytes n) 0 n [] h.answer_short refl,
          read_exact-append s' n (answer q) [] refl refl,
        )
        refl

  served-IsAnswered :
      (qs : List Bytes)
      → All (IsServed server addr answer) qs
      → All (IsAnswered (forward_tcp_dns_query dial server doh_query (tcp addr)) answer) qs
  served-IsAnswered [] hs = tt
  served-IsAnswered (q ∷ qs) (h, hs) = (
    record {
      query_long = h.query_long;
      query_short = h.query_short;
      answered = forward-served q h;
      answer_long = h.answer_long;
      answer_short = h.answer_short;
    },
    served-IsAnswered qs hs,
  )

  -- Without `--dns-strip-aaaa`, if the upstream server can be dialled, takes two writes and answers each
  -- framed query with a framed answer, and the client takes all writes, a client that sends its queries
  -- at once and closes is sent all the answers, framed and in order, in one round more than queries.
  pub handle_tcp-served :
      (hosts : KeyOrder TableEntry IpAddr-discrete) (now : ℕ → ℕ) (qs : List Bytes) (f : ℕ)
      (w : Bytes) (k : ℕ) (table : Table)
      → All (IsServed server addr answer) qs
      → length qs < f
      → (table' : Table) × (handle_tcp_dns_client hosts
            (forward_tcp_dns_query dial server doh_query (tcp addr))
            f
            false
            now
            (record { incoming = frames qs; written = w; writes_left = 2 * length qs + k })
            table
          ≡ ret (
            record { incoming = []; written = w ++ frames (map answer qs); writes_left = k },
            table',
          ))
  handle_tcp-served hosts now qs f w k table hs lt =
      handle_tcp-pipelined hosts (forward_tcp_dns_query dial server doh_query (tcp addr)) answer now
        qs f w k table (served-IsAnswered qs hs) lt

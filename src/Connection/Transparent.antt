-- ===== src/Connection/Transparent.antt =====
-- What the server sends through the tunnel reaches the client, `connect_via_proxy` of src/tunnel.rs
-- and `handle_connection` of src/proxy.rs.
use trans_proxy.Base.{
  ℕ, zero, suc, ◌≡◌, inl, inr, refl, sym, ◌∙◌, true, List, [], ◌∷◌, ◌++◌, arith, append-nil, Bytes,
  length, Option, Run, ret, fail, ◌==◌, Bool-cases, Returns, Returns-bind,
}
use trans_proxy.Net.{IpAddr, SocketAddr}
use trans_proxy.Net.Wire.{Stream, write_all}
use trans_proxy.Tunnel.Connect.{max_response_size, read_connect_response, parse_connect_response}
use trans_proxy.Base.{◌≤◌, some, Returns-cases}
use trans_proxy.Base.Utf8.{is_utf8}
use trans_proxy.Tunnel.Connect.{find_header_end}
use trans_proxy.Tunnel.Connect.Answered.{
  NoneEmpty, find-IsHead, find-four_le, read_connect_response-total,
}
use trans_proxy.Tunnel.Connect.Lossless.{flat, IsHead, read_connect_response-Accepted}
use trans_proxy.Tunnel.Head.{http_connect_request}
use trans_proxy.Tunnel.Request.{socks5_connect_request}
use trans_proxy.Tunnel.Handshake.{ProxyAuth}
use trans_proxy.Tunnel.Handshake.Exact.{Bound, IsBound, success, Accepts, socks5_handshake-success}
use trans_proxy.Base.{◌+◌, ◌<◌, u16_limit}
use trans_proxy.Config.{http_connect, socks5}
use trans_proxy.Connection.{handshake_http_connect, connect_via_proxy, open_tunnel}

-- The reply of an HTTP proxy: a head up to its first blank line, which is accepted.
abbrev pub IsReply : Bytes → Type 0
IsReply reply = IsHead reply × (parse_connect_response reply ≡ ret tt)

-- Of what came from the proxy, a part in front was its reply, and the rest is all there: what was
-- read too far, and what is still in the stream.
abbrev Carried : Bytes → Stream × Bytes → Type 0
Carried sent (s, leftover) =
    (reply : Bytes) × (sent ≡ reply ++ (leftover ++ s.incoming)) × IsReply reply

Wrote : Stream → Bytes → Stream → Type 0
Wrote s bytes s' = (s'.incoming ≡ s.incoming) × (s'.written ≡ s.written ++ bytes)

write_all-Wrote : (s : Stream) (bytes : Bytes) → Returns (Wrote s bytes) (write_all s bytes)
unfolding write_all Wrote
write_all-Wrote s bytes = go s.writes_left
  where
    go :
        (n : ℕ)
        → Returns (Wrote s bytes) (elim n as (λ _. Run Stream) [
          | zero ↦ fail
          | suc n ↦ ret (record s { written = s.written ++ bytes; writes_left = n })
        ])
    go zero = tt
    go (suc n) = (refl, refl)

-- The tunnel is open: behind the proxy's reply, what it sent is what the client was sent in front of
-- the relay, and then what the relay will find; nothing of the client's is read.
pub record Opened (sent : Bytes) (inbound inbound' outbound : Stream) : Type 0 where
  pub reply : Bytes
  pub passed : Bytes
  pub all_there : sent ≡ reply ++ (passed ++ outbound.incoming)
  pub replied : IsReply reply
  pub delivered : inbound'.written ≡ inbound.written ++ passed
  pub untouched : inbound'.incoming ≡ inbound.incoming

-- The proxy lets the client through: the request can be written, and so can something to the client;
-- the bytes begin with a reply in UTF-8 that the buffer has room for, and no read returns nothing.
pub record LetsThrough (pieces : Bytes → List Bytes) (s inbound : Stream) : Type 0 where
  pub reply : Bytes
  pub rest : Bytes
  pub sent : s.incoming ≡ reply ++ rest
  pub replied : IsReply reply
  pub short : length reply ≤ 8192
  pub text : is_utf8 reply ≡ true
  pub flowing : NoneEmpty (pieces s.incoming)
  pub request_left : 0 < s.writes_left
  pub client_left : 0 < inbound.writes_left

-- The tunnel is open, or the proxy does not let the client through.
pub data Opening (pieces : Bytes → List Bytes) (s inbound : Stream) (r : Run (Stream × Stream))
    : Type 0 where
  opened :
      (inbound' outbound : Stream)
      → r ≡ ret (inbound', outbound)
      → Opened s.incoming inbound inbound' outbound
      → Opening pieces s inbound r
  refused : r ≡ fail → ¬ LetsThrough pieces s inbound → Opening pieces s inbound r

write_all-total :
    (s : Stream) (bytes : Bytes)
    → 0 < s.writes_left
    → (s' : Stream) × (write_all s bytes ≡ ret s') × (s'.incoming ≡ s.incoming)
unfolding write_all
write_all-total s bytes = go s.writes_left
  where
    go :
        (n : ℕ)
        → 0 < n
        → (s' : Stream) × ((elim n as (λ _. Run Stream) [
          | zero ↦ fail
          | suc n ↦ ret (record s { written = s.written ++ bytes; writes_left = n })
        ])
            ≡ ret s')
          × (s'.incoming ≡ s.incoming)
    go zero h = absurd (omega arith)
    go (suc n) h = (record s { written = s.written ++ bytes; writes_left = n }, refl, refl)

module _ (show_ip : IpAddr → Bytes) (pieces : Bytes → List Bytes)
    (whole : (bs : Bytes) → flat (pieces bs) ≡ bs) (dest : SocketAddr)
    (hostname : Option Bytes) where
  http-Carried :
      (s : Stream)
      → Returns (Carried s.incoming) (handshake_http_connect show_ip pieces s dest hostname)
  unfolding handshake_http_connect Wrote
  http-Carried s =
      Returns-bind _ _ (write_all s (http_connect_request show_ip dest hostname)) _
        (write_all-Wrote s (http_connect_request show_ip dest hostname))
        λ s' h.
          Returns-bind _ _ (read_connect_response (suc max_response_size) [] (pieces s'.incoming)) _
            (read_connect_response-Accepted (suc max_response_size) [] (pieces s'.incoming)
              (omega arith))
            λ r a. (a.header, sym h.0 ∙ sym (whole s'.incoming) ∙ a.all_there, (a.head, a.accepted))

  module _ (dial : SocketAddr → Run Stream) (addr : SocketAddr) (s : Stream)
      (dialled : dial addr ≡ ret s) where
    connect-Carried : Returns (Carried s.incoming) (
        connect_via_proxy show_ip pieces dial
          (record { protocol = http_connect; addr = addr })
          dest
          hostname)
    unfolding connect_via_proxy
    connect-Carried = rw dialled (http-Carried s)

    open_tunnel-Returns :
        (inbound : Stream)
        → Returns
            (λ r. Opened s.incoming inbound r.0 r.1)
            (open_tunnel show_ip pieces dial
              (record { protocol = http_connect; addr = addr })
              dest
              hostname
              inbound)
    unfolding open_tunnel Wrote
    open_tunnel-Returns inbound =
        Returns-bind _ _
          (connect_via_proxy show_ip pieces dial (record { protocol = http_connect; addr = addr })
            dest hostname)
          _ connect-Carried
          λ (r : Stream × Bytes) h. elim (Bool-cases (length r.1 == 0)) [
            | inl empty ↦ rw empty (record {
              reply = h.0;
              passed = r.1;
              all_there = h.1;
              replied = h.2;
              delivered = nothing r.1 empty inbound.written;
              untouched = refl;
            })
            | inr some_read ↦ rw some_read (
                Returns-bind _ _ (write_all inbound r.1) _ (write_all-Wrote inbound r.1) λ s' w.
                  record {
                    reply = h.0;
                    passed = r.1;
                    all_there = h.1;
                    replied = h.2;
                    delivered = w.1;
                    untouched = w.0;
                  })
          ]
      where
        nothing : (bs : Bytes) → (length bs == 0) ≡ true → (w : Bytes) → w ≡ w ++ bs
        nothing [] e w = sym (append-nil w)
        nothing (b ∷ bs) e w = absurd (ground arith)

    open_tunnel-total :
        (inbound : Stream)
        → LetsThrough pieces s inbound
        → (r : Stream × Stream) × (open_tunnel show_ip pieces dial
              (record { protocol = http_connect; addr = addr })
              dest
              hostname
              inbound
            ≡ ret r)
    unfolding open_tunnel connect_via_proxy handshake_http_connect
    open_tunnel-total inbound t =
        let (asked, wrote, kept) =
          write_all-total s (http_connect_request show_ip dest hostname) t.request_left in
        let found : find_header_end t.reply ≡ some (length t.reply) =
          find-IsHead t.reply t.replied.0 in
        let (r, read) =
          read_connect_response-total t.reply t.rest found t.short t.text t.replied.1
            (suc max_response_size) [] (pieces s.incoming) (omega arith)
            (omega (arith, find-four_le t.reply (length t.reply) found)) (whole s.incoming ∙ t.sent)
            t.flowing in
        let (told, to_client, same) = write_all-total inbound r.1 t.client_left in
        elim (Bool-cases (length r.1 == 0)) [
          | inl empty ↦ (
            (inbound, record asked { incoming = flat r.0 }),
            rw (dialled, wrote, kept, read, empty) refl,
          )
          | inr some_read ↦ (
            (told, record asked { incoming = flat r.0 }),
            rw (dialled, wrote, kept, read, some_read, to_client) refl,
          )
        ]

    -- In whatever pieces the bytes come, the opening of a tunnel through an HTTP proxy that can be
    -- dialled ends. If it succeeds, the bytes begin with the reply, a head up to the first blank line
    -- that is accepted; of the rest a first part is written to the client, and the relay finds all
    -- that follows it. It fails only if a write fails, a read returns nothing, or the bytes do not
    -- begin with an accepted head in UTF-8 of at most 8192 bytes.
    pub open_tunnel-Opened :
        (inbound : Stream)
        → Opening pieces s inbound (
            open_tunnel show_ip pieces dial
              (record { protocol = http_connect; addr = addr })
              dest
              hostname
              inbound)
    open_tunnel-Opened inbound =
        elim (Returns-cases _
          (open_tunnel show_ip pieces dial (record { protocol = http_connect; addr = addr }) dest
            hostname inbound)
          (open_tunnel-Returns inbound)) [
            | inl failed ↦ refused failed λ t. not_both failed (open_tunnel-total inbound t)
            | inr (r, done, o) ↦ opened r.0 r.1 done o
          ]
      where
        not_both : {m : Run (Stream × Stream)} → m ≡ fail → (r : Stream × Stream) × (m ≡ ret r) → ⊥
        not_both failed (r, done) = cc

  -- Through a SOCKS5 proxy that lets the client in and reports success, whatever bound address it
  -- names, the tunnel opens: nothing is written to the client, nothing of the client's is read, and
  -- the relay finds exactly what the proxy sent behind its reply.
  pub open_tunnel-tunnelled :
      (dial : SocketAddr → Run Stream) (addr : SocketAddr) (inbound : Stream) (auth : ProxyAuth)
      (server client : Bytes) (writes k reserved : ℕ) (bound : Bound) (port : ℕ) (rest : Bytes)
      → Accepts auth server client writes
      → IsBound bound
      → port < u16_limit
      → dial addr
        ≡ ret (record {
          incoming = server ++ success reserved bound port rest;
          written = [];
          writes_left = writes + suc k;
        })
      → open_tunnel show_ip pieces dial
          (record { protocol = socks5 auth; addr = addr })
          dest
          hostname
          inbound
        ≡ ret (
          inbound,
          record {
            incoming = rest;
            written = client ++ socks5_connect_request dest hostname;
            writes_left = k;
          },
        )
  unfolding open_tunnel connect_via_proxy
  open_tunnel-tunnelled dial addr inbound auth server client writes k reserved bound port rest
        accepts valid lt dialled =
      rw
        (
          dialled,
          socks5_handshake-success auth dest hostname server client writes k reserved bound port
              rest accepts valid lt,
        )
        refl

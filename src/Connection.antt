-- ===== src/Connection.antt =====
-- The way of a connection through the upstream proxy: `handshake_http_connect` and `connect_via_proxy`
-- of src/tunnel.rs, and the steps of `handle_connection` in src/proxy.rs from there to the relay.
-- `dial` opens a connection, `pieces` cuts what it will send into the pieces in which it arrives, and
-- `show_ip` is the `Display` of an address.
pub mod Transparent
use trans_proxy.Base.{ℕ, suc, ◌==◌, Bytes, List, [], length, Option, Run, ret, ◌>>=◌, if◌then◌else◌}
use trans_proxy.Net.{IpAddr, SocketAddr}
use trans_proxy.Net.Wire.{Stream, write_all}
use trans_proxy.Tunnel.Connect.{max_response_size, read_connect_response}
use trans_proxy.Tunnel.Connect.Lossless.{flat}
use trans_proxy.Tunnel.Head.{http_connect_request}
use trans_proxy.Tunnel.Handshake.{socks5_handshake}
use trans_proxy.Config.{UpstreamProxy, http_connect, socks5}

module _ (show_ip : IpAddr → Bytes) (pieces : Bytes → List Bytes) where
  unfoldable pub handshake_http_connect : Stream → SocketAddr → Option Bytes → Run (Stream × Bytes)
  handshake_http_connect s dest hostname = do
    asked ← write_all s (http_connect_request show_ip dest hostname)
    (rest, leftover) ← read_connect_response (suc max_response_size) [] (pieces asked.incoming)
    ret (record asked { incoming = flat rest }, leftover)

  unfoldable pub connect_via_proxy :
      (SocketAddr → Run Stream) → UpstreamProxy → SocketAddr → Option Bytes → Run (Stream × Bytes)
  connect_via_proxy dial proxy dest hostname = do
    s ← dial proxy.addr
    elim proxy.protocol [
      | http_connect ↦ handshake_http_connect s dest hostname
      | socks5 auth ↦ do tunnel ← socks5_handshake s auth dest hostname; ret (tunnel, [])
    ]

  -- The client's stream and the server's, as the relay gets them.
  unfoldable pub open_tunnel :
      (SocketAddr → Run Stream)
      → UpstreamProxy
      → SocketAddr
      → Option Bytes
      → Stream
      → Run (Stream × Stream)
  open_tunnel dial proxy dest hostname inbound = do
    (outbound, leftover) ← connect_via_proxy dial proxy dest hostname
    inbound' ← if length leftover == 0 then ret inbound else write_all inbound leftover
    ret (inbound', outbound)

-- ===== src/Tests/Connections.antt =====
-- DNS over TCP at a concrete connection.
use trans_proxy.Base.{
  ◌+◌, ◌*◌, ◌≡◌, refl, false, [], ◌∷◌, ◌++◌, map, arith, Bytes, List, Run, ret, fail,
}
use trans_proxy.Map.Order.{KeyOrder, list_order}
use trans_proxy.Net.{IpAddr-discrete, SocketAddr}
use trans_proxy.Net.Wire.{Stream}
use trans_proxy.Dns.Table.{Table, TableEntry}
use trans_proxy.Dns.Tcp.{tcp, forward_tcp_dns_query, handle_tcp_dns_client}
use trans_proxy.Dns.Tcp.Pipelined.{frames}
use trans_proxy.Dns.Tcp.Upstream.{IsServed, fresh, handle_tcp-served}
use trans_proxy.Tests.Data.{aaaa_query, client}

abbrev hosts : KeyOrder TableEntry IpAddr-discrete
hosts = list_order IpAddr-discrete

abbrev dial_any : SocketAddr → Run Stream
dial_any a = ret (fresh 3)

-- A server that answers with what it is asked.
abbrev echo : SocketAddr → Bytes → Bytes
echo a asked = asked

abbrev no_doh : Bytes → Bytes → Run Bytes
no_doh url query = fail

aaaa-IsServed : IsServed echo client (λ q. q) aaaa_query
aaaa-IsServed = record {
  query_long = omega arith;
  query_short = omega arith;
  served = refl;
  answer_long = omega arith;
  answer_short = omega arith;
}

abbrev queries : List Bytes
queries = aaaa_query ∷ aaaa_query ∷ []

handle_tcp-served_example :
    (table' : Table) × (handle_tcp_dns_client hosts
        (forward_tcp_dns_query dial_any echo no_doh (tcp client))
        3
        false
        (λ _. 5)
        (record { incoming = frames queries; written = []; writes_left = 2 * 2 + 0 })
        []
      ≡ ret (
        record { incoming = []; written = [] ++ frames (map (λ q. q) queries); writes_left = 0 },
        table',
      ))
handle_tcp-served_example =
    handle_tcp-served dial_any echo no_doh client 1 refl (λ q. q) hosts (λ _. 5) queries 3 [] 0 []
      (aaaa-IsServed, (aaaa-IsServed, tt)) (omega arith)

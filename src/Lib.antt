-- ===== src/Lib.antt =====
-- trans_proxy: a transparent proxy. Intercepted connections are sent through an upstream proxy by
-- host name, and a DNS forwarder learns the names of the addresses that it answers.
--
-- The parts and how they interact. The DNS forwarder (src/dns.rs) reads a client's query, sends it
-- upstream under a random id, matches the response to the pending query, learns its addresses into
-- the table `DnsTable` and answers the client. For an intercepted connection the kernel is
-- asked for the original destination (src/orig_dest), and a TLS connection is peeked at for
-- its server name (src/sni.rs); with that name, or the one the table has for the address, the
-- tunnel (src/tunnel.rs) asks the upstream proxy for a connection and relays. The firewall
-- (src/firewall) is set up from the command line (src/config.rs) to send TCP and DNS to the program,
-- and QUIC either to the UDP relay (src/udp.rs), which carries it through SOCKS5, or nowhere. As a
-- gateway the program announces itself on the LAN (src/gateway.rs).
--
-- Which file models which part.
--   Base, Map, Net: lists of bytes, calls that may fail, panic or not end, UTF-8, hash maps, addresses,
--     and streams (Net/Wire): what the other side will send, what was written, and how many writes
--     succeed.
--   Dns/Name, Dns/Records: the packet walks of src/dns.rs, function by function
--     (`skip_dns_name`, `parse_query_name`, `parse_query_type`, `extract_min_ttl`, `rewrite_ttls`,
--     `parse_ip_records`, `build_empty_response`, `cache_key`).
--   Dns/Format: DNS messages as data with an encoder, the description that those walks are
--     measured against; it is not code of the program.
--   Dns/Table, Dns/Cache, Dns/Pending: `DnsTable`, `DnsCache`, and the pending queries
--     (`pending_insert`, `pending_take_match`) of src/dns.rs, as association lists with distinct keys.
--   Dns/Udp: `run_udp` of src/dns.rs, a function for each turn of its two loops: `on_query` of the
--     main loop, `on_response` of the upstream reader. The state is the pending queries and the table.
--   Dns/Doh: `QueryCoalescer` and `run_doh` of src/dns.rs, a function for each turn: `on_doh_query` of
--     the listener, `on_doh_answer` at the end of a task, `on_broadcast` of one who waited.
--   Dns/ProxyUrl: the proxy's URL for the DoH client (`doh_proxy_url`) of src/dns.rs.
--   Dns/Tcp: `handle_tcp_dns_client` and `forward_tcp_dns_query` of src/dns.rs over streams; the
--     fuel is one more than the queries that the stream holds.
--   Sni: `extract_sni` and its parsers, src/sni.rs. Sni/Hello is an encoder of ClientHello records,
--     the description of what is parsed, not code of the program.
--   Tunnel: src/tunnel.rs. Tunnel/Host filters host names, Tunnel/Request makes the SOCKS5 messages,
--     Tunnel/Handshake talks to the proxy over a stream, Tunnel/Head makes the HTTP CONNECT
--     request and Tunnel/Connect reads its answer.
--   Connection: `connect_via_proxy` of src/tunnel.rs, and `handle_connection` of src/proxy.rs from there
--     to the relay.
--   Config: src/config.rs, the texts of the command line and their display, `Config/Ports` and
--     `Config/Upstream` being what is proved of them.
--   Firewall: src/firewall/mod.rs (Firewall and Firewall/Action) and src/firewall/nftables.rs
--     (Firewall/Nftables: the NAT chains, Quic, Setup), a function for each function and for each
--     block of `setup` and `setup_ipv6`; both families share the blocks, which the source writes out
--     twice. Firewall/Plan is the specification: the rules as data, their words, what they match, and
--     the laws that nft documents of a chain. Firewall/Nftables/Issued, Verdicts, Done, NoLeak,
--     Outcome and Addresses are what is proved.
--   Gateway: src/gateway.rs, from the texts of the system to the packets that are sent.
--   Udp: src/udp.rs, the table of sessions and the turns of a session; Udp/Flows is the step relation.
--   Relay: `relay_with_shutdown` of src/proxy.rs, a function for each arm of its `select!`, for the
--     end of the write within an arm, and the sequences of turns.
--   OrigDest: src/orig_dest, `get_original_dest` of Linux and of macOS, with the kernel's answers as
--     arguments.
--   Hostname: the host name that `handle_connection` of src/proxy.rs chooses.
--   Tests: the theorems at concrete inputs.
--
-- How the code is read. A call ends in `ret`, in `fail` (an early return with `None` or an error),
-- in `panic` (an index out of range) or in `spin` (the fuel of a loop is used up). A loop over a
-- packet has as fuel one more than the packet's length, which is enough, for every round moves
-- forward; eviction has one more than the size of the map, and the reading of a CONNECT response
-- one more than the room of its buffer. Clock readings, drawn random ids and
-- what a peek returns are arguments. The order of a hash map's keys is the record `KeyOrder`, an
-- argument with the laws that any order has. A `SocketAddr` is an address and a port, without the
-- flow label and the scope of IPv6, which only `Endpoint` of OrigDest has. Strings are their UTF-8
-- bytes. `usize` does not overflow at the lengths in use, and is a natural number.
--
-- A command of the firewall is the list of its words; whether it succeeds is an argument, `exec`, which
-- sees all that ran before, and the state is the log of commands with their outcomes. The `Display`
-- of an address, the parser of a socket address and the resolver are arguments. nft is the record
-- `Nft`: the laws of a base chain that accepts by policy. Text on the command line is taken as ASCII
-- where it is trimmed.
--
-- Not modelled: locks (a poisoned lock is never seen), logging, sockets and timeouts beyond what a
-- read or a write returns, the accept loop, the derived parser of the command line, the rules of pf, the
-- macOS parts of the gateway, services and the daemon.
pub mod Base
pub mod Map
pub mod Net
pub mod Dns
pub mod Sni
pub mod Tunnel
pub mod Config
pub mod Firewall
pub mod Gateway
pub mod Udp
pub mod OrigDest
pub mod Connection
pub mod Relay
pub mod Hostname
pub mod Tests

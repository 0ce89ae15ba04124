-- ===== src/Dns/Tcp/Pipelined.antt =====
-- `handle_tcp_dns_client` of src/dns.rs with a client that sends several queries at once.
use trans_proxy.Base.{
  ℕ, zero, suc, ◌+◌, ◌*◌, ◌≤◌, ◌<◌, ◌≡◌, refl, ap, ◌∙◌, true, false, List, [], ◌∷◌, ◌++◌, map,
  arith, append_assoc, append-nil, le→leb, lt→ltb, Bytes, length, u16_bytes, ret, fail, Run,
}
use trans_proxy.Base.{be16-drop, u16_limit, ◌^◌}
use trans_proxy.Map.Order.{KeyOrder}
use trans_proxy.Net.{IpAddr-discrete}
use trans_proxy.Net.Wire.{Stream, read_exact, read_exact-append, write_all-left}
use trans_proxy.Dns.Format.{All}
use trans_proxy.Dns.Table.{Table, TableEntry}
use trans_proxy.Dns.Udp.Query.{query_read}
use trans_proxy.Dns.Udp.Response.{learn-total}
use trans_proxy.Dns.Doh.Turns.{is_aaaa-total}
use trans_proxy.Dns.Tcp.{write_message, forward_query, answer_query, handle_tcp_dns_client}

-- Messages on the wire, each behind its length.
abbrev pub frames : List Bytes → Bytes
frames [] = []
frames (q ∷ qs) = u16_bytes (length q) ++ (q ++ frames qs)

-- A query of a length that DNS over TCP allows, with an answer of such a length.
pub record IsAnswered (upstream : Bytes → Run Bytes) (answer : Bytes → Bytes) (q : Bytes)
    : Type 0 where
  pub query_long : 12 ≤ length q
  pub query_short : length q < u16_limit
  pub answered : upstream q ≡ ret (answer q)
  pub answer_long : 12 ≤ length (answer q)
  pub answer_short : length (answer q) < u16_limit

pub written_message :
    (incoming w resp : Bytes) (k : ℕ)
    → write_message (record { incoming = incoming; written = w; writes_left = 2 + k }) resp
      ≡ ret (record {
        incoming = incoming;
        written = w ++ (u16_bytes (length resp) ++ resp);
        writes_left = k;
      })
unfolding write_message
written_message incoming w resp k =
    let prefix : Bytes = u16_bytes (length resp) in
    let s : Stream = record { incoming = incoming; written = w; writes_left = 2 + k } in
    let s' : Stream = record { incoming = incoming; written = w ++ prefix; writes_left = 1 + k } in
    rw (
      write_all-left s prefix (1 + k) (omega arith),
      write_all-left s' resp k (omega arith),
      append_assoc w prefix resp,
    )

-- The client has closed the connection.
read_closed :
    (w : Bytes) (k : ℕ)
    → read_exact (record { incoming = []; written = w; writes_left = k }) 2 ≡ fail
unfolding read_exact
read_closed w k = refl

module _ (hosts : KeyOrder TableEntry IpAddr-discrete) (upstream : Bytes → Run Bytes)
    (answer : Bytes → Bytes) where
  query_answered :
      (now : ℕ) (q incoming w : Bytes) (k : ℕ) (table : Table)
      → IsAnswered upstream answer q
      → (table' : Table) × (answer_query hosts upstream false now q
            (record { incoming = incoming; written = w; writes_left = 2 + k })
            table
          ≡ ret (
            true,
            record {
              incoming = incoming;
              written = w ++ (u16_bytes (length (answer q)) ++ answer q);
              writes_left = k;
            },
            table',
          ))
  unfolding answer_query forward_query
  query_answered now q incoming w k table h =
      let (name, _, named, _) = query_read q in
      let (aaaa, typed) = is_aaaa-total q in
      let (table', learnt, _) = learn-total hosts now (answer q) name table in
      (
        table',
        rw (
          named,
          typed,
          forward_query,
          h.answered,
          le→leb 12 (length (answer q)) h.answer_long,
          lt→ltb (length (answer q)) (2 ^ 16) h.answer_short,
          learnt,
          written_message incoming w (answer q) k,
        ),
      )

  -- A client may send its queries without waiting: where the upstream answers each of them, the
  -- client is sent all the answers, in the order of its queries and each behind its length, and
  -- the connection ends when the client closes it. One round for each query and one more is fuel
  -- enough.
  pub handle_tcp-pipelined :
      (now : ℕ → ℕ) (qs : List Bytes) (f : ℕ) (w : Bytes) (k : ℕ) (table : Table)
      → All (IsAnswered upstream answer) qs
      → length qs < f
      → (table' : Table) × (handle_tcp_dns_client hosts upstream f false now
            (record { incoming = frames qs; written = w; writes_left = 2 * length qs + k })
            table
          ≡ ret (
            record { incoming = []; written = w ++ frames (map answer qs); writes_left = k },
            table',
          ))
  unfolding handle_tcp_dns_client
  handle_tcp-pipelined now qs zero w k table hs lt = absurd (omega arith)
  handle_tcp-pipelined now [] (suc f) w k table hs lt =
      let left : 0 + k ≡ k = omega arith in
      (
        table,
        rw (read_closed w (0 + k), append-nil w)
            (ap (λ n. ret (record { incoming = []; written = w; writes_left = n }, table)) left),
      )
  handle_tcp-pipelined now (q ∷ qs) (suc f) w k table (h, hs) lt =
      let m : ℕ = 2 * length qs + k in
      let left : 2 * suc (length qs) + k ≡ 2 + m = omega arith in
      let n : ℕ = length q in
      let message : Bytes = u16_bytes (length (answer q)) ++ answer q in
      let sent : Bytes = frames (map answer qs) in
      let s : Stream = record { incoming = frames (q ∷ qs); written = w; writes_left = 2 + m } in
      let s' : Stream = record { incoming = q ++ frames qs; written = w; writes_left = 2 + m } in
      let (table', step) = query_answered (now f) q (frames qs) w m table h in
      let (table'', rest) =
        handle_tcp-pipelined now qs f (w ++ message) k table' hs (omega arith) in
      (
        table'',
        rw
            (
              left,
              read_exact-append s 2 (u16_bytes n) (q ++ frames qs) refl refl,
              be16-drop (u16_bytes n) 0 n [] h.query_short refl,
              le→leb 12 n h.query_long,
              read_exact-append s' n q (frames qs) refl refl,
              step,
            )
            (rest
              ∙ ap (λ x. ret (record { incoming = []; written = x; writes_left = k }, table''))
                  (append_assoc w message sent)),
      )

-- ===== src/Dns/Udp/Reply.antt =====
-- The upstream reader of `run_udp`, src/dns.rs, on the genuine response to a pending query.
use trans_proxy.Base.{
  be16-drop, u16_limit, ℕ, ◌<◌, ◌≡◌, refl, ap, ◌∙◌, true, false, List, [], ◌∷◌, arith, ltb, ◌==◌,
  bit_and, Bytes, length, u16_bytes, ret, byte, byte-drop, be16, overwrite, overwrite_within, some,
}
use native.Mathlib.Decide.{ℕ_discrete}
use trans_proxy.Base.Utf8.{is_utf8}
use trans_proxy.Map
use trans_proxy.Map.Order.{KeyOrder}
use trans_proxy.Net.{IpAddr-discrete}
use trans_proxy.Dns.Name.Question.{dotted, parse_query-question}
use trans_proxy.Dns.Format.{All, Question, Message, encode, IsMessage}
use trans_proxy.Dns.Table.{Table, TableEntry}
use trans_proxy.Dns.Pending.{Pending, PendingQuery}
use trans_proxy.Dns.Pending.Match.{Answers, take_match_found}
use trans_proxy.Dns.Udp.{to_client, query_type, deliver, settle, accept, on_response}
use trans_proxy.Dns.Udp.Response.{Learnt, learn-total}

-- Writing the client's transaction id changes that field and nothing else.
overwrite-encode :
    (m : Message) (tail : Bytes) (tx_id : ℕ)
    → overwrite (encode m tail) 0 (u16_bytes tx_id) ≡ ret (encode (record m { tx_id = tx_id }) tail)
unfolding encode
overwrite-encode m tail tx_id = overwrite_within (encode m tail) 0 (u16_bytes tx_id) (omega arith)

-- The bytes of the header that the reader looks at itself.
header_bytes :
    (m : Message) (tail : Bytes)
    → m.tx_id < u16_limit
    → (be16 (encode m tail) 0 ≡ ret m.tx_id)
      × (byte (encode m tail) 2 ≡ ret m.flags_high)
      × (ltb (length (encode m tail)) 12 ≡ false)
unfolding encode
header_bytes m tail lt = (
  be16-drop (encode m tail) 0 m.tx_id _ lt refl,
  byte-drop (encode m tail) 2 m.flags_high _ refl,
  ground arith,
)

module _ (order : KeyOrder TableEntry IpAddr-discrete) (now : ℕ) (m : Message) (q : Question)
    (qs : List Question) (tail : Bytes) where
  -- A well-formed response, whose first question has UTF-8 labels, is neither the root nor compressed,
  -- and has the name and the type of the query pending under its id, is delivered: the query is
  -- pending no longer, its addresses are learnt, and the client gets the message under its own id.
  pub on_response-reply :
      (pending : Pending) (table : Table) (entry : PendingQuery) (name : Bytes)
      → IsMessage m
      → m.tx_id < u16_limit
      → m.questions ≡ q ∷ qs
      → All (λ l. is_utf8 l ≡ true) q.name.labels
      → dotted q.name ≡ ret name
      → (bit_and m.flags_high 0x80 == 0) ≡ false
      → Map.get ℕ_discrete m.tx_id pending ≡ some entry
      → Answers entry name q.qtype
      → (table' : Table) × Learnt order now (encode m tail) name table table'
        × (on_response order now (encode m tail) pending table
            ≡ ret (
              Map.remove ℕ_discrete m.tx_id pending,
              table',
              to_client entry.client_addr (encode (record m { tx_id = entry.client_tx_id }) tail)
                  ∷ [],
            ))
  unfolding on_response accept settle deliver query_type
  on_response-reply pending table entry name h in_range e utf8 names response waiting answers =
      let p : Bytes = encode m tail in
      let (named, typed) = parse_query-question m q qs tail h e utf8 in
      let (table', learnt, is_learnt) = learn-total order now p name table in
      let (id, flags, long) = header_bytes m tail in_range in
      (
        table',
        is_learnt,
        rw (long, flags, response, id, named, names, typed)
            (ap (settle order now p name table)
                (take_match_found m.tx_id name q.qtype pending entry waiting answers)
              ∙ rw (learnt, overwrite-encode m tail entry.client_tx_id)),
      )

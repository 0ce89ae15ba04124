-- ===== src/Dns/Records/Replies.antt =====
-- The messages that src/dns.rs makes out of a query: `build_empty_response` on a well-formed query,
-- and `cache_key` with the transaction id that is put back.
use trans_proxy.Base.{
  ℕ, ◌-◌, ◌≤◌, ◌≡◌, ◌↔◌, refl, ap, ◌∙◌, [], ◌∷◌, arith, le→leb, bit_and, bit_or, Bytes, length,
  drop, take, length-append, length-drop, take-append, ret, byte, slice_le, byte-drop, overwrite,
}
use trans_proxy.Dns.Records.{build_empty_response, cache_key, set_tx_id}
use trans_proxy.Dns.Format.{
  Message, encode_questions, encode_records, encode_header, records, encode, IsMessage,
}
use trans_proxy.Dns.Format.Walk.{
  HeaderAt, header_step, skip-encode_questions, encode_questions-append,
}

-- The answer to a query that carries no records: QR and RA are set, opcode and RD are kept, AA
-- and TC are cleared, the response code is given.
abbrev pub empty_reply : Message → ℕ → Message
empty_reply m rcode = record m {
  flags_high = bit_or 0x80 (bit_and m.flags_high 0x79);
  flags_low = bit_or 0x80 (bit_and rcode 0x0F);
  answers = [];
  authority = [];
  additional = [];
}

build_empty_response-walked :
    (p : Bytes) (m : Message) (tail : Bytes) (rcode : ℕ)
    → IsMessage m
    → HeaderAt p m (encode_questions m.questions (encode_records (records m) tail))
    → take 12 p ≡ encode_header m []
    → byte p 2 ≡ ret m.flags_high
    → build_empty_response p rcode
      ≡ ret (encode_header (empty_reply m rcode) (encode_questions m.questions []))
unfolding build_empty_response overwrite
build_empty_response-walked p m tail rcode h head front flags =
    let after_questions = encode_records (records m) tail in
    let (next, walked, at_rest, far) =
      skip-encode_questions m.questions p 12 after_questions h.questions head.body_at in
    let within : next ≤ length p = omega (
      arith,
      length-drop 12 p,
      ap length (head.body_at ∙ encode_questions-append m.questions after_questions),
      length-append (encode_questions m.questions []) after_questions,
    ) in
    let cut : take (next - 12) (drop 12 p) ≡ encode_questions m.questions [] =
      ap (take (next - 12)) (head.body_at ∙ encode_questions-append m.questions after_questions)
      ∙ take-append (encode_questions m.questions []) after_questions (next - 12) (omega arith) in
    rw (
      le→leb _ _ head.long,
      head.questions_read,
      walked,
      slice_le p 0 12 (omega arith) head.long,
      front,
      flags,
      slice_le p 12 next (omega arith) within,
      cut,
    )

-- The answer made out of a well-formed query has its transaction id and its questions, the
-- response code given, and no records; whatever records the query carried are left out.
pub build_empty_response-empty_reply :
    (m : Message) (tail : Bytes) (rcode : ℕ)
    → IsMessage m
    → build_empty_response (encode m tail) rcode ≡ ret (encode (empty_reply m rcode) [])
unfolding encode
build_empty_response-empty_reply m tail rcode h =
    let body = encode_questions m.questions (encode_records (records m) tail) in
    build_empty_response-walked (encode_header m body) m tail rcode h (header_step m body h) refl
      (byte-drop (encode_header m body) 2 m.flags_high _ refl)

-- The cache key forgets the transaction id, and only that: two queries share a key just when
-- they become equal once both are given the same transaction id.
pub cache_key_iff :
    (p q : Bytes) (tx_id : ℕ)
    → (cache_key p ≡ cache_key q) ↔ (set_tx_id p tx_id ≡ set_tx_id q tx_id)
unfolding cache_key set_tx_id
cache_key_iff [] [] tx_id = ((λ _. refl), (λ _. refl))
cache_key_iff [] (b ∷ []) tx_id = ((λ e. cc), (λ e. cc))
cache_key_iff (a ∷ []) [] tx_id = ((λ e. cc), (λ e. cc))
cache_key_iff (a ∷ []) (b ∷ []) tx_id = ((λ e. e), (λ e. e))
cache_key_iff (a ∷ a' ∷ p) (b ∷ b' ∷ q) tx_id = (λ e. ground arith, λ e. ground arith)
cache_key_iff [] (b ∷ b' ∷ q) tx_id = (λ e. cc, λ e. cc)
cache_key_iff (a ∷ []) (b ∷ b' ∷ q) tx_id = (λ e. cc, λ e. cc)
cache_key_iff (a ∷ a' ∷ p) [] tx_id = (λ e. cc, λ e. cc)
cache_key_iff (a ∷ a' ∷ p) (b ∷ []) tx_id = (λ e. cc, λ e. cc)

-- Another transaction id does not change the key.
pub cache_key-set_tx_id : (p : Bytes) (tx_id : ℕ) → cache_key (set_tx_id p tx_id) ≡ cache_key p
unfolding cache_key set_tx_id
cache_key-set_tx_id [] tx_id = refl
cache_key-set_tx_id (a ∷ []) tx_id = refl
cache_key-set_tx_id (a ∷ b ∷ p) tx_id = refl

pub length-set_tx_id : (p : Bytes) (tx_id : ℕ) → length (set_tx_id p tx_id) ≡ length p
unfolding set_tx_id
length-set_tx_id [] tx_id = refl
length-set_tx_id (a ∷ []) tx_id = refl
length-set_tx_id (a ∷ b ∷ p) tx_id = refl

pub set_tx_id-encode :
    (m : Message) (tail : Bytes) (tx_id : ℕ)
    → set_tx_id (encode m tail) tx_id ≡ encode (record m { tx_id = tx_id }) tail
unfolding set_tx_id encode
set_tx_id-encode m tail tx_id = refl

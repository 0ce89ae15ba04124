-- ===== src/Dns/Format/Walk.antt =====
-- One step of a walk of src/dns.rs over encoded questions and records.
use trans_proxy.Base.{
  be16-drop, be32-drop, ℕ, ◌+◌, ◌≤◌, ◌≡◌, refl, sym, ap, ◌∙◌, List, [], ◌∷◌, ◌++◌, arith,
  append_assoc, le→leb, Bytes, length, drop, u16_bytes, u32_bytes, length-append, length_from_drop,
  drop_past, ret, be16, be32,
}
use trans_proxy.Dns.Name.{skip_dns_name}
use trans_proxy.Dns.Records.{skip_questions}
use trans_proxy.Dns.Format.{
  All, Question, ResourceRecord, Message, encode_name, encode_question, encode_record,
  encode_questions, record_fields, encode_header, IsQuestion, IsRecord, IsMessage,
}
use trans_proxy.Dns.Format.Read.{skip-encode_name}

pub encode_questions-append :
    (qs : List Question) (r : Bytes) → encode_questions qs r ≡ encode_questions qs [] ++ r
encode_questions-append [] r = refl
encode_questions-append (q ∷ qs) r =
    ap (λ s. encode_question q ++ s) (encode_questions-append qs r)
    ∙ sym (append_assoc (encode_question q) _ r)

question_step :
    (q : Question) (p : Bytes) (pos : ℕ) (r : Bytes)
    → IsQuestion q
    → drop pos p ≡ encode_question q ++ r
    → (name_end : ℕ) × (skip_dns_name p pos ≡ ret name_end)
      × (drop (name_end + 4) p ≡ r)
      × (name_end + 4 ≤ length p)
      × (name_end + 4 ≡ pos + length (encode_question q))
unfolding encode_question
question_step q p pos r h at =
    let fields = u16_bytes q.qtype ++ u16_bytes q.qclass in
    let name_end : ℕ = pos + length (encode_name q.name) in
    let at_name : drop pos p ≡ encode_name q.name ++ (fields ++ r) =
      at ∙ append_assoc (encode_name q.name) fields r in
    let at_fields = drop_past p pos name_end (encode_name q.name) (fields ++ r) at_name refl in
    (
      name_end,
      skip-encode_name q.name p pos (fields ++ r) h.name at_name,
      drop_past p name_end (name_end + 4) fields r at_fields (omega arith),
      omega (arith, length_from_drop p name_end (fields ++ r) at_fields (omega arith)),
      omega (arith, length-append (encode_name q.name) fields),
    )

pub skip-encode_questions :
    (qs : List Question) (p : Bytes) (pos : ℕ) (r : Bytes)
    → All IsQuestion qs
    → drop pos p ≡ encode_questions qs r
    → (next : ℕ) × (skip_questions (length qs) p pos ≡ ret next)
      × (drop next p ≡ r)
      × (next ≡ pos + length (encode_questions qs []))
unfolding skip_questions
skip-encode_questions [] p pos r hs at = (pos, refl, at, omega arith)
skip-encode_questions (q ∷ qs) p pos r hs at =
    let (name_end, skipped, behind, room, size) =
      question_step q p pos (encode_questions qs r) hs.0 at in
    let (next, walked, after, far) = skip-encode_questions qs p (name_end + 4) r hs.1 behind in
    (
      next,
      rw (skipped, le→leb _ _ room) walked,
      after,
      omega (arith, length-append (encode_question q) (encode_questions qs [])),
    )

-- What a walk reads of a record that starts at `pos`, with `r` behind it.
pub record RecordAt (p : Bytes) (pos : ℕ) (x : ResourceRecord) (r : Bytes) : Type 0 where
  pub name_end : ℕ
  pub skipped : skip_dns_name p pos ≡ ret name_end
  pub size : name_end + 10 + length x.rdata ≡ pos + length (encode_record x)
  pub type_read : be16 p name_end ≡ ret x.rtype
  pub class_read : be16 p (name_end + 2) ≡ ret x.rclass
  pub ttl_read : be32 p (name_end + 4) ≡ ret x.ttl
  pub rdlength_read : be16 p (name_end + 8) ≡ ret (length x.rdata)
  pub data_at : drop (name_end + 10) p ≡ x.rdata ++ r
  pub rest_at : drop (name_end + 10 + length x.rdata) p ≡ r
  pub room : name_end + 10 + length x.rdata ≤ length p

module _ (p : Bytes) (pos : ℕ) (x : ResourceRecord) (r : Bytes) where
  pub record_step : IsRecord x → drop pos p ≡ encode_record x ++ r → RecordAt p pos x r
  unfolding encode_record
  record_step h at =
      let name = encode_name x.name in
      let fields = record_fields x in
      let name_end : ℕ = pos + length name in
      let at_name : drop pos p ≡ name ++ (fields ++ (x.rdata ++ r)) =
        at
        ∙ append_assoc name (fields ++ x.rdata) r
        ∙ ap (λ s. name ++ s) (append_assoc fields x.rdata r) in
      let at_fields = drop_past p pos name_end name (fields ++ (x.rdata ++ r)) at_name refl in
      let at_data =
        drop_past p name_end (name_end + 10) fields (x.rdata ++ r) at_fields (omega arith) in
      record {
        name_end = name_end;
        skipped = skip-encode_name x.name p pos _ h.name at_name;
        size = omega (arith, length-append name (fields ++ x.rdata));
        type_read = be16-drop p name_end x.rtype _ h.rtype at_fields;
        class_read =
            be16-drop p (name_end + 2) x.rclass _ h.rclass
              (drop_past p name_end (name_end + 2) (u16_bytes x.rtype) _ at_fields (omega arith));
        ttl_read = be32-drop p (name_end + 4) x.ttl _ h.ttl (
            drop_past p name_end (name_end + 4) (u16_bytes x.rtype ++ u16_bytes x.rclass) _
              at_fields (omega arith));
        rdlength_read = be16-drop p (name_end + 8) (length x.rdata) _ h.rdata (
            drop_past p name_end (name_end + 8)
              (u16_bytes x.rtype ++ (u16_bytes x.rclass ++ u32_bytes x.ttl)) _ at_fields
              (omega arith));
        data_at = at_data;
        rest_at =
            drop_past p (name_end + 10) (name_end + 10 + length x.rdata) x.rdata r at_data refl;
        room = omega (
          arith,
          length_from_drop p name_end (fields ++ (x.rdata ++ r)) at_fields (omega arith),
          length-append x.rdata r,
        );
      }

-- What a walk reads of the header.
pub record HeaderAt (p : Bytes) (m : Message) (body : Bytes) : Type 0 where
  pub long : 12 ≤ length p
  pub questions_read : be16 p 4 ≡ ret (length m.questions)
  pub answers_read : be16 p 6 ≡ ret (length m.answers)
  pub authority_read : be16 p 8 ≡ ret (length m.authority)
  pub additional_read : be16 p 10 ≡ ret (length m.additional)
  pub body_at : drop 12 p ≡ body

pub header_step :
    (m : Message) (body : Bytes) → IsMessage m → HeaderAt (encode_header m body) m body
header_step m body h = record {
  long = omega arith;
  questions_read = be16-drop _ 4 _ _ h.question_count refl;
  answers_read = be16-drop _ 6 _ _ h.answer_count refl;
  authority_read = be16-drop _ 8 _ _ h.authority_count refl;
  additional_read = be16-drop _ 10 _ _ h.additional_count refl;
  body_at = refl;
}

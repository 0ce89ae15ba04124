-- ===== src/Dns/Format.antt =====
-- The wire format of DNS messages (RFC 1035), as data with an encoder: the description that the
-- packet walks of src/dns.rs are measured against.
pub mod Read
pub mod Walk
use trans_proxy.Base.{
  u16_limit, u32_limit, ℕ, ◌+◌, ◌≤◌, ◌<◌, ◌≡◌, ◌^◌, true, List, [], ◌∷◌, ◌++◌, map, Bytes, length,
  u16_bytes, u32_bytes,
}
use trans_proxy.Dns.Name.{is_pointer}

abbrev pub All {ℓ} : {A : Type ℓ} → (A → Type 0) → List A → Type 0
All P [] = Unit
All P (x ∷ xs) = P x × All P xs

-- A name ends at the root, or in a compression pointer.
pub data NameEnd : Type 0 where
  root : NameEnd
  pointer : ℕ → ℕ → NameEnd

pub record WireName : Type 0 where
  pub labels : List Bytes
  pub ending : NameEnd

pub record Question : Type 0 where
  pub name : WireName
  pub qtype : ℕ
  pub qclass : ℕ

pub record ResourceRecord : Type 0 where
  pub name : WireName
  pub rtype : ℕ
  pub rclass : ℕ
  pub ttl : ℕ
  pub rdata : Bytes

pub record Message : Type 0 where
  pub tx_id : ℕ
  pub flags_high : ℕ
  pub flags_low : ℕ
  pub questions : List Question
  pub answers : List ResourceRecord
  pub authority : List ResourceRecord
  pub additional : List ResourceRecord

abbrev pub encode_labels : List Bytes → Bytes → Bytes
encode_labels [] tail = tail
encode_labels (l ∷ ls) tail = length l ∷ (l ++ encode_labels ls tail)

abbrev pub encode_end : NameEnd → Bytes
encode_end root = 0 ∷ []
encode_end (pointer high low) = high ∷ low ∷ []

unfoldable pub encode_name : WireName → Bytes
encode_name n = encode_labels n.labels (encode_end n.ending)

unfoldable pub encode_question : Question → Bytes
encode_question q = encode_name q.name ++ (u16_bytes q.qtype ++ u16_bytes q.qclass)

-- What follows the name of a record, up to its data.
abbrev pub record_fields : ResourceRecord → Bytes
record_fields r =
    u16_bytes r.rtype ++ (u16_bytes r.rclass ++ (u32_bytes r.ttl ++ u16_bytes (length r.rdata)))

unfoldable pub encode_record : ResourceRecord → Bytes
encode_record r = encode_name r.name ++ (record_fields r ++ r.rdata)

abbrev pub encode_questions : List Question → Bytes → Bytes
encode_questions [] tail = tail
encode_questions (q ∷ qs) tail = encode_question q ++ encode_questions qs tail

abbrev pub encode_records : List ResourceRecord → Bytes → Bytes
encode_records [] tail = tail
encode_records (r ∷ rs) tail = encode_record r ++ encode_records rs tail

abbrev pub records : Message → List ResourceRecord
records m = m.answers ++ (m.authority ++ m.additional)

-- The header, with the counts of the four sections, and what follows it.
abbrev pub encode_header : Message → Bytes → Bytes
encode_header m body =
    u16_bytes m.tx_id
    ++ (m.flags_high
        ∷ m.flags_low
        ∷ (u16_bytes (length m.questions)
            ++ (u16_bytes (length m.answers)
                ++ (u16_bytes (length m.authority) ++ (u16_bytes (length m.additional) ++ body)))))

-- Bytes behind the last record are allowed, and are the `tail`.
unfoldable pub encode : Message → Bytes → Bytes
encode m tail = encode_header m (encode_questions m.questions (encode_records (records m) tail))

pub record IsLabel (l : Bytes) : Type 0 where
  pub not_empty : 0 < length l
  pub short : length l ≤ 63

abbrev pub IsEnd : NameEnd → Type 0
IsEnd root = Unit
IsEnd (pointer high low) = (is_pointer high ≡ true) × (0 < high)

pub record IsName (n : WireName) : Type 0 where
  pub labels : All IsLabel n.labels
  pub ending : IsEnd n.ending

pub record IsQuestion (q : Question) : Type 0 where
  pub name : IsName q.name
  pub qtype : q.qtype < u16_limit
  pub qclass : q.qclass < u16_limit

pub record IsRecord (r : ResourceRecord) : Type 0 where
  pub name : IsName r.name
  pub rtype : r.rtype < u16_limit
  pub rclass : r.rclass < u16_limit
  pub ttl : r.ttl < u32_limit
  pub rdata : length r.rdata < u16_limit

pub record IsMessage (m : Message) : Type 0 where
  pub questions : All IsQuestion m.questions
  pub answers : All IsRecord m.answers
  pub authority : All IsRecord m.authority
  pub additional : All IsRecord m.additional
  pub question_count : length m.questions < u16_limit
  pub answer_count : length m.answers < u16_limit
  pub authority_count : length m.authority < u16_limit
  pub additional_count : length m.additional < u16_limit

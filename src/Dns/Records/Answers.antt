-- ===== src/Dns/Records/Answers.antt =====
-- What `parse_ip_records` of src/dns.rs reads from a well-formed response: the addresses of the A
-- and AAAA answers.
use trans_proxy.Base.{
  ℕ, suc, ◌+◌, ◌-◌, ◌≤◌, ◌≡◌, inl, inr, refl, sym, ap, ◌∙◌, false, not, List, [], ◌∷◌, ◌++◌, arith,
  append_assoc, append-nil, ltb, le→leb, ◌==◌, ne→==-false, Bytes, length, drop, take, drop_past,
  take-append, ret, fail, ◌>>◌, guard, slice_le, byte-drop, if◌then◌else◌, Bool-cases,
}
use trans_proxy.Net.{IpAddr, v4, v6}
use trans_proxy.Dns.Name.{is_nil}
use trans_proxy.Dns.Records.{skip_questions, answer_ip, ip_loop, parse_ip_records}
use trans_proxy.Dns.Format.{
  All, ResourceRecord, Message, encode_record, encode_questions, encode_records, records, encode,
  IsRecord, IsMessage,
}
use trans_proxy.Dns.Format.Walk.{record_step, HeaderAt, header_step, skip-encode_questions}

pub encode_records-append :
    (xs ys : List ResourceRecord) (tail : Bytes)
    → encode_records (xs ++ ys) tail ≡ encode_records xs (encode_records ys tail)
encode_records-append [] ys tail = refl
encode_records-append (x ∷ xs) ys tail =
    ap (λ s. encode_record x ++ s) (encode_records-append xs ys tail)

-- Where the walk over the questions of a message ends, and the records behind it.
pub questions_walked :
    (p : Bytes) (m : Message) (tail : Bytes)
    → IsMessage m
    → HeaderAt p m (encode_questions m.questions (encode_records (records m) tail))
    → (next : ℕ) × (skip_questions (length m.questions) p 12 ≡ ret next)
      × (drop next p ≡ encode_records m.answers (encode_records (m.authority ++ m.additional) tail))
questions_walked p m tail h head =
    let (next, walked, after, _) =
      skip-encode_questions m.questions p 12 (encode_records (records m) tail) h.questions
        head.body_at in
    (next, walked, after ∙ encode_records-append m.answers (m.authority ++ m.additional) tail)

-- The address of an answer: class IN, and type A with four bytes or AAAA with sixteen.
abbrev pub a_address : Bytes → List IpAddr
a_address (a ∷ b ∷ c ∷ d ∷ []) = v4 a b c d ∷ []
a_address _ = []

abbrev pub aaaa_address : Bytes → List IpAddr
aaaa_address octets = if length octets == 16 then v6 octets ∷ [] else []

abbrev pub address : ResourceRecord → List IpAddr
address x =
    if x.rclass == 1
    then (if x.rtype == 1
        then a_address x.rdata
        else if x.rtype == 28
        then aaaa_address x.rdata
        else [])
    else []

abbrev pub addresses : List ResourceRecord → List IpAddr
addresses [] = []
addresses (x ∷ xs) = address x ++ addresses xs

answer_ip-a :
    (p : Bytes) (pos : ℕ) (rdata r : Bytes)
    → drop pos p ≡ rdata ++ r
    → answer_ip p pos 1 1 (length rdata) ≡ ret (a_address rdata)
unfolding answer_ip
answer_ip-a p pos (a ∷ b ∷ c ∷ d ∷ []) r at =
    let next =
      λ (k : ℕ) (front back : Bytes) (e : drop pos p ≡ front ++ back) (n : k ≡ length front).
        drop_past p pos (pos + k) front back e (omega arith) in
    rw (
      byte-drop p pos a _ at,
      byte-drop p (pos + 1) b _ (next 1 (a ∷ []) _ at refl),
      byte-drop p (pos + 2) c _ (next 2 (a ∷ b ∷ []) _ at refl),
      byte-drop p (pos + 3) d _ (next 3 (a ∷ b ∷ c ∷ []) _ at refl),
    )
answer_ip-a p pos [] r at = refl
answer_ip-a p pos (a ∷ []) r at = refl
answer_ip-a p pos (a ∷ b ∷ []) r at = refl
answer_ip-a p pos (a ∷ b ∷ c ∷ []) r at = refl
answer_ip-a p pos (a ∷ b ∷ c ∷ d ∷ e ∷ l) r at =
    rw (ne→==-false (suc (suc (suc (suc (suc (length l)))))) 4 (omega arith))

answer_ip-aaaa :
    (p : Bytes) (pos : ℕ) (rdata r : Bytes)
    → pos + length rdata ≤ length p
    → drop pos p ≡ rdata ++ r
    → answer_ip p pos 1 28 (length rdata) ≡ ret (aaaa_address rdata)
unfolding answer_ip
answer_ip-aaaa p pos rdata r room at = elim (Bool-cases (length rdata == 16)) [
  | inl e ↦
      let sixteen : length rdata ≡ 16 = ground arith in
      let cut : take (pos + 16 - pos) (drop pos p) ≡ rdata =
        ap (take (pos + 16 - pos)) at ∙ take-append rdata r (pos + 16 - pos) (omega arith) in
      rw (e, slice_le p pos (pos + 16) (omega arith) (omega arith), cut)
  | inr e ↦ rw e
]

answer_ip-address :
    (p : Bytes) (pos : ℕ) (x : ResourceRecord) (r : Bytes)
    → pos + length x.rdata ≤ length p
    → drop pos p ≡ x.rdata ++ r
    → answer_ip p pos x.rclass x.rtype (length x.rdata) ≡ ret (address x)
answer_ip-address p pos x r room at = elim (Bool-cases (x.rclass == 1)) [
  | inr e ↦ rw e (unfold answer_ip in rw e)
  | inl e ↦
      let is_in : x.rclass ≡ 1 = ground arith in
      elim (Bool-cases (x.rtype == 1)) [
        | inl a ↦
            let is_a : x.rtype ≡ 1 = ground arith in
            rw (is_in, is_a) (answer_ip-a p pos x.rdata r at)
        | inr a ↦ elim (Bool-cases (x.rtype == 28)) [
          | inl q ↦
              let is_aaaa : x.rtype ≡ 28 = ground arith in
              rw (is_in, is_aaaa) (answer_ip-aaaa p pos x.rdata r room at)
          | inr q ↦ rw (e, a, q) (unfold answer_ip in rw (e, a, q))
        ]
      ]
]

ip_loop-addresses :
    (xs : List ResourceRecord) (p : Bytes) (pos : ℕ) (ips : List IpAddr) (r : Bytes)
    → All IsRecord xs
    → drop pos p ≡ encode_records xs r
    → ip_loop (length xs) p pos ips ≡ ret (ips ++ addresses xs)
unfolding ip_loop
ip_loop-addresses [] p pos ips r hs at = ap ret (sym (append-nil ips))
ip_loop-addresses (x ∷ xs) p pos ips r hs at =
    let found = record_step p pos x (encode_records xs r) hs.0 at in
    let near : ltb (length p) (found.name_end + 10) ≡ false = ground (arith, found.room) in
    let fits : ltb (length p) (found.name_end + 10 + length x.rdata) ≡ false =
      ground (arith, found.room) in
    rw
      (
        found.skipped,
        near,
        found.type_read,
        found.class_read,
        found.rdlength_read,
        fits,
        answer_ip-address p (found.name_end + 10) x _ found.room found.data_at,
      )
      (ip_loop-addresses xs p (found.name_end + 10 + length x.rdata) (ips ++ address x) r hs.1
          found.rest_at
        ∙ ap ret (append_assoc ips (address x) (addresses xs)))

parse_ip_records-walked :
    (p : Bytes) (m : Message) (tail : Bytes)
    → IsMessage m
    → HeaderAt p m (encode_questions m.questions (encode_records (records m) tail))
    → parse_ip_records p
      ≡ (if is_nil (addresses m.answers) then fail else ret (addresses m.answers))
unfolding parse_ip_records
parse_ip_records-walked p m tail h head =
    let (next, walked, after) = questions_walked p m tail h head in
    rw
      (
        le→leb _ _ head.long,
        head.answers_read,
        head.questions_read,
        walked,
        ip_loop-addresses m.answers p next [] _ h.answers after,
      )
      (none_found m.answers)
  where
    none_found :
        (xs : List ResourceRecord)
        → (guard (not (length xs == 0))
            >> (guard (not (is_nil (addresses xs))) >> ret (addresses xs)))
          ≡ (if is_nil (addresses xs) then fail else ret (addresses xs))
    none_found [] = refl
    none_found (x ∷ xs) =
        rw (ne→==-false (suc (length xs)) 0 (omega arith))
          (elim (Bool-cases (is_nil (address x ++ addresses xs))) [ inl e ↦ rw e | inr e ↦ rw e ])

-- From a well-formed response exactly the addresses of its A and AAAA answers of class IN are
-- read, in order; with none the result is `None`.
pub parse_ip_records-addresses :
    (m : Message) (tail : Bytes)
    → IsMessage m
    → parse_ip_records (encode m tail)
      ≡ (if is_nil (addresses m.answers) then fail else ret (addresses m.answers))
unfolding encode
parse_ip_records-addresses m tail h = parse_ip_records-walked _ m tail h (header_step m _ h)

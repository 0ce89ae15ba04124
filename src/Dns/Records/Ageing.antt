-- ===== src/Dns/Records/Ageing.antt =====
-- `rewrite_ttls` of src/dns.rs on a well-formed message: the same message with every record aged.
use trans_proxy.Base.{
  ℕ, suc, ◌+◌, ◌-◌, leb, ◌≡◌, inl, inr, refl, sym, ap, ◌∙◌, true, false, List, [], ◌∷◌, ◌++◌, map,
  arith, append_assoc, map-append, ltb, ◌==◌, Bytes, length, drop, u16_bytes, u32_bytes,
  length-append, length-map, drop_past, take-append, drop-append, ret, be16, overwrite,
  overwrite_within, if◌then◌else◌, Bool-cases,
}
use mathlib.Core.Path.{ap₂}
use trans_proxy.Dns.Records.{age_record, rewrite_loop, rewrite_ttls, aged}
use trans_proxy.Dns.Format.{
  All, ResourceRecord, Message, encode_name, encode_record, record_fields, encode_questions,
  encode_records, encode_header, records, encode, IsRecord, IsMessage,
}
use trans_proxy.Dns.Format.Walk.{
  RecordAt, record_step, HeaderAt, header_step, skip-encode_questions, encode_questions-append,
}

-- The lifetime after `elapsed` seconds, and the record: an OPT record (type 41) has no lifetime.
abbrev pub lowered : ℕ → ℕ → ℕ
lowered elapsed ttl = if leb ttl (elapsed + 1) then 1 else ttl - elapsed

abbrev pub age : ℕ → ResourceRecord → ResourceRecord
age elapsed x = record x { ttl = if x.rtype == 41 then x.ttl else lowered elapsed x.ttl }

aged-lowered : (elapsed ttl : ℕ) → aged elapsed ttl ≡ lowered elapsed ttl
aged-lowered elapsed ttl = ground arith

abbrev pub age_message : ℕ → Message → Message
age_message elapsed m = record m {
  answers = map (age elapsed) m.answers;
  authority = map (age elapsed) m.authority;
  additional = map (age elapsed) m.additional;
}

overwrite-append :
    (front old new back : Bytes) (pos : ℕ)
    → pos ≡ length front
    → length new ≡ length old
    → overwrite (front ++ (old ++ back)) pos new ≡ ret (front ++ (new ++ back))
overwrite-append front old new back pos e same =
    let whole = front ++ (old ++ back) in
    let rest : drop (pos + length new) whole ≡ back =
      drop_past whole pos (pos + length new) old back (drop-append front (old ++ back) pos e)
        (omega arith) in
    overwrite_within whole pos new
      (omega (arith, length-append front (old ++ back), length-append old back))
    ∙ ap ret (rw (take-append front (old ++ back) pos e, rest))

-- The bytes of a record before its lifetime, and behind it.
abbrev before_ttl : Bytes → ResourceRecord → Bytes
before_ttl front x = front ++ (encode_name x.name ++ (u16_bytes x.rtype ++ u16_bytes x.rclass))

abbrev after_ttl : ResourceRecord → Bytes → Bytes
after_ttl x rest = u16_bytes (length x.rdata) ++ (x.rdata ++ rest)

around_ttl :
    (front : Bytes) (x : ResourceRecord) (rest : Bytes)
    → front ++ (encode_record x ++ rest)
      ≡ before_ttl front x ++ (u32_bytes x.ttl ++ after_ttl x rest)
unfolding encode_record
around_ttl front x rest = simp append_assoc

length-before_ttl :
    (front : Bytes) (x : ResourceRecord)
    → length (before_ttl front x) ≡ length front + length (encode_name x.name) + 4
length-before_ttl front x = omega (
  arith,
  length-append front (encode_name x.name ++ (u16_bytes x.rtype ++ u16_bytes x.rclass)),
  length-append (encode_name x.name) (u16_bytes x.rtype ++ u16_bytes x.rclass),
)

length-encode_record :
    (x : ResourceRecord)
    → length (encode_record x) ≡ length (encode_name x.name) + 10 + length x.rdata
unfolding encode_record
length-encode_record x =
    omega (arith, length-append (encode_name x.name) (record_fields x ++ x.rdata))

age-IsRecord : (elapsed : ℕ) (x : ResourceRecord) → IsRecord x → IsRecord (age elapsed x)
age-IsRecord elapsed x h = record {
  name = h.name;
  rtype = h.rtype;
  rclass = h.rclass;
  ttl = ground (arith, h.ttl);
  rdata = h.rdata;
}

module _ (elapsed : ℕ) (front : Bytes) (x : ResourceRecord) (rest : Bytes) (h : IsRecord x) where
  abbrev whole : Bytes
  whole = front ++ (encode_record x ++ rest)

  age_record-age :
      (found : RecordAt whole (length front) x rest)
      → age_record whole found.name_end elapsed
        ≡ ret (front ++ (encode_record (age elapsed x) ++ rest))
  unfolding age_record
  age_record-age found = elim (Bool-cases (x.rtype == 41)) [
    | inl opt ↦ rw (found.type_read, opt)
    | inr other ↦
        let aged_one = record x { ttl = lowered elapsed x.ttl } in
        rw (found.type_read, other, found.ttl_read, aged-lowered elapsed x.ttl)
          (ap (λ w. overwrite w (found.name_end + 4) (u32_bytes aged_one.ttl))
              (around_ttl front x rest)
            ∙ overwrite-append (before_ttl front x) (u32_bytes x.ttl) (u32_bytes aged_one.ttl)
                (after_ttl x rest) (found.name_end + 4)
                (omega (arith, length-before_ttl front x, length-encode_record x)) refl
            ∙ ap ret (sym (around_ttl front aged_one rest)))
  ]

  -- One round of the loop: the record at the front is aged, and the walk goes on behind it.
  rewrite_step :
      (n : ℕ)
      → rewrite_loop (suc n) whole (length front) elapsed
        ≡ rewrite_loop n
            (front ++ (encode_record (age elapsed x) ++ rest))
            (length front + length (encode_record x))
            elapsed
  unfolding rewrite_loop
  rewrite_step n =
      let at =
        λ (y : ResourceRecord). drop-append front (encode_record y ++ rest) (length front) refl in
      let found = record_step whole (length front) x rest h (at x) in
      let y = age elapsed x in
      let found' =
        record_step (front ++ (encode_record y ++ rest)) (length front) y rest
          (age-IsRecord elapsed x h) (at y) in
      let same : found'.name_end ≡ found.name_end =
        omega (arith, length-encode_record x, length-encode_record y, found.size, found'.size) in
      let near : ltb (length whole) (found.name_end + 10) ≡ false = ground (arith, found.room) in
      let fits : ltb (length (front ++ (encode_record y ++ rest)))
            (found.name_end + 10 + length x.rdata)
          ≡ false =
        ground (arith, found'.room, same) in
      let read : be16 (front ++ (encode_record y ++ rest)) (found.name_end + 8)
          ≡ ret (length x.rdata) =
        ap (λ i. be16 (front ++ (encode_record y ++ rest)) (i + 8)) (sym same)
        ∙ found'.rdlength_read in
      rw (found.skipped, near, age_record-age found, read, fits, found.size)

pub rewrite_loop-age :
    (elapsed : ℕ) (xs : List ResourceRecord) (front tail : Bytes)
    → All IsRecord xs
    → rewrite_loop (length xs) (front ++ encode_records xs tail) (length front) elapsed
      ≡ ret (front ++ encode_records (map (age elapsed) xs) tail, true)
rewrite_loop-age elapsed [] front tail hs = unfold rewrite_loop in refl
rewrite_loop-age elapsed (x ∷ xs) front tail hs =
    let y = encode_record (age elapsed x) in
    let regroup : front ++ (y ++ encode_records xs tail) ≡ (front ++ y) ++ encode_records xs tail =
      sym (append_assoc front y (encode_records xs tail)) in
    let past : length front + length (encode_record x) ≡ length (front ++ y) = omega (
      arith,
      length-append front y,
      length-encode_record x,
      length-encode_record (age elapsed x),
    ) in
    rewrite_step elapsed front x (encode_records xs tail) hs.0 (length xs)
    ∙ ap₂ (λ p pos. rewrite_loop (length xs) p pos elapsed) regroup past
    ∙ rewrite_loop-age elapsed xs (front ++ y) tail hs.1
    ∙ ap (λ p. ret (p, true)) (append_assoc front y (encode_records (map (age elapsed) xs) tail))

-- What stands in front of the records.
abbrev before_records : Message → Bytes
before_records m = encode_header m (encode_questions m.questions [])

encode-before_records :
    (m : Message) (tail : Bytes)
    → encode m tail ≡ before_records m ++ encode_records (records m) tail
unfolding encode
encode-before_records m tail =
    ap (encode_header m) (encode_questions-append m.questions (encode_records (records m) tail))

records-age :
    (elapsed : ℕ) (m : Message) → records (age_message elapsed m) ≡ map (age elapsed) (records m)
records-age elapsed m = simp (map-append)

before_records-age :
    (elapsed : ℕ) (m : Message) → before_records (age_message elapsed m) ≡ before_records m
before_records-age elapsed m = rw (length-map, length-map, length-map)

length-records :
    (m : Message) → length m.answers + length m.authority + length m.additional ≡ length (records m)
length-records m = omega (
  arith,
  length-append m.answers (m.authority ++ m.additional),
  length-append m.authority m.additional,
)

records-IsRecord : (m : Message) → IsMessage m → All IsRecord (records m)
records-IsRecord m h = All-append _ _ h.answers (All-append _ _ h.authority h.additional)
  where
    All-append :
        (xs ys : List ResourceRecord) → All IsRecord xs → All IsRecord ys → All IsRecord (xs ++ ys)
    All-append [] ys hx hy = hy
    All-append (x ∷ xs) ys hx hy = (hx.0, All-append xs ys hx.1 hy)

head_of :
    (m : Message) (tail : Bytes)
    → IsMessage m
    → HeaderAt (encode m tail) m (encode_questions m.questions (encode_records (records m) tail))
unfolding encode
head_of m tail h = header_step m _ h

rewrite_ttls-walked :
    (p : Bytes) (m : Message) (tail : Bytes) (elapsed : ℕ)
    → IsMessage m
    → HeaderAt p m (encode_questions m.questions (encode_records (records m) tail))
    → p ≡ before_records m ++ encode_records (records m) tail
    → rewrite_ttls p elapsed
      ≡ ret (before_records m ++ encode_records (map (age elapsed) (records m)) tail, true)
unfolding rewrite_ttls
rewrite_ttls-walked p m tail elapsed h head e =
    let (next, walked, _, far) =
      skip-encode_questions m.questions p 12 (encode_records (records m) tail) h.questions
        head.body_at in
    let long : ltb (length p) 12 ≡ false = ground (arith, head.long) in
    let here : next ≡ length (before_records m) = omega arith in
    rw
      (
        long,
        head.questions_read,
        head.answers_read,
        head.authority_read,
        head.additional_read,
        walked,
        length-records m,
        here,
      )
      (ap (λ w. rewrite_loop (length (records m)) w (length (before_records m)) elapsed) e
        ∙ rewrite_loop-age elapsed (records m) (before_records m) tail (records-IsRecord m h))

-- Ageing a well-formed message gives the same message with every record aged: each lifetime is
-- lowered by the seconds passed, or is 1 where less than 1 would be left; an OPT record stays as it
-- is, and no other byte changes.
pub rewrite_ttls-age_message :
    (m : Message) (tail : Bytes) (elapsed : ℕ)
    → IsMessage m
    → rewrite_ttls (encode m tail) elapsed ≡ ret (encode (age_message elapsed m) tail, true)
rewrite_ttls-age_message m tail elapsed h =
    rewrite_ttls-walked (encode m tail) m tail elapsed h (head_of m tail h)
      (encode-before_records m tail)
    ∙ ap (λ p. ret (p, true))
        (ap₂ (λ front xs. front ++ encode_records xs tail) (sym (before_records-age elapsed m))
            (sym (records-age elapsed m))
          ∙ sym (encode-before_records (age_message elapsed m) tail))

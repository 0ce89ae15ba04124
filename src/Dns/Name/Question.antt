-- ===== src/Dns/Name/Question.antt =====
-- `parse_query_name` and `parse_query_type` of src/dns.rs on a well-formed message: the name and
-- the type of the first question.
use trans_proxy.Base.{
  be16-drop, ℕ, zero, suc, ◌+◌, ◌-◌, ◌≤◌, ◌<◌, ◌≡◌, refl, sym, ap, ◌∙◌, true, not, List, [], ◌∷◌,
  ◌++◌, arith, append_assoc, append-nil, le→leb, lt→ltb, ne→==-false, Bytes, length, drop, take,
  u16_bytes, length-append, length-drop, length_from_drop, drop_past, take-append, Run, ret, fail,
  ◌>>=◌, ◌>>◌, guard, slice_le, byte-drop, if◌then◌else◌,
}
use trans_proxy.Base.Utf8.{is_utf8}
use trans_proxy.Dns.Name.{qtype_loop, parse_query_type, qname_loop, parse_query_name, is_nil, join}
use trans_proxy.Dns.Name.Total.{qtype_loop-skip_loop}
use trans_proxy.Dns.Format.{
  All, NameEnd, root, pointer, WireName, Question, Message, encode_labels, encode_end, encode_name,
  encode_question, encode_questions, encode_records, encode_header, records, encode, IsLabel, IsEnd,
  IsMessage, IsQuestion,
}
use trans_proxy.Dns.Format.Read.{not_pointer_of_label, skip_loop-encode_name, length-encode_labels}

-- Every label but the first behind a dot.
abbrev pub dot_each : List Bytes → Bytes
dot_each [] = []
dot_each (l ∷ ls) = 46 ∷ (l ++ dot_each ls)

abbrev pub with_dots : List Bytes → Bytes
with_dots [] = []
with_dots (l ∷ ls) = l ++ dot_each ls

join-with_dots : (l : Bytes) (ls : List Bytes) → join (l ∷ ls) ≡ l ++ dot_each ls
unfolding join
join-with_dots l [] = sym (append-nil l)
join-with_dots l (k ∷ ls) = ap (λ x. l ++ 46 ∷ x) (join-with_dots k ls)

-- What the name of a question reads as: its labels joined by dots. A name that is empty, or
-- that ends in a compression pointer, is refused.
abbrev pub dotted : WireName → Run Bytes
dotted n = elim n.ending [
  | root ↦ if is_nil n.labels then fail else ret (with_dots n.labels)
  | pointer _ _ ↦ fail
]

qname-ending :
    (e : NameEnd) (f : ℕ) (p : Bytes) (pos : ℕ) (r : Bytes) (parts : List Bytes)
    → IsEnd e
    → drop pos p ≡ encode_end e ++ r
    → qname_loop (suc f) p pos parts ≡ elim e [ root ↦ ret parts | pointer _ _ ↦ fail ]
unfolding qname_loop
qname-ending root f p pos r parts h at =
    let within : pos < length p = omega (arith, length_from_drop p pos _ at (omega arith)) in
    rw (lt→ltb _ _ within, byte-drop p pos 0 r at)
qname-ending (pointer high low) f p pos r parts h at =
    let within : pos < length p = omega (arith, length_from_drop p pos _ at (omega arith)) in
    rw (lt→ltb _ _ within, byte-drop p pos high (low ∷ r) at, ne→==-false high 0 (omega arith), h.0)

qname-label :
    (l : Bytes) (f : ℕ) (p : Bytes) (pos : ℕ) (r : Bytes) (parts : List Bytes)
    → IsLabel l
    → is_utf8 l ≡ true
    → drop pos p ≡ length l ∷ (l ++ r)
    → qname_loop (suc f) p pos parts ≡ qname_loop f p (pos + 1 + length l) (parts ++ l ∷ [])
unfolding qname_loop
qname-label l f p pos r parts h utf8 at =
    let far : length p ≡ pos + length (length l ∷ (l ++ r)) =
      length_from_drop p pos _ at (omega arith) in
    let within : pos < length p = omega arith in
    let room : pos + 1 + length l ≤ length p = omega (arith, length-append l r) in
    let behind : drop (pos + 1) p ≡ l ++ r =
      drop_past p pos (pos + 1) (length l ∷ []) (l ++ r) at (omega arith) in
    let cut : take (pos + 1 + length l - (pos + 1)) (drop (pos + 1) p) ≡ l =
      ap (take (pos + 1 + length l - (pos + 1))) behind
      ∙ take-append l r (pos + 1 + length l - (pos + 1)) (omega arith) in
    rw (
      lt→ltb _ _ within,
      byte-drop p pos (length l) _ at,
      ne→==-false (length l) 0 (omega (arith, h.not_empty)),
      not_pointer_of_label l h,
      le→leb _ _ room,
      slice_le p (pos + 1) (pos + 1 + length l) (omega arith) room,
      cut,
      utf8,
    )

qname-labels :
    (ls : List Bytes) (e : NameEnd) (f : ℕ) (p : Bytes) (pos : ℕ) (r : Bytes) (parts : List Bytes)
    → All IsLabel ls
    → All (λ l. is_utf8 l ≡ true) ls
    → IsEnd e
    → length ls < f
    → drop pos p ≡ encode_labels ls (encode_end e) ++ r
    → qname_loop f p pos parts ≡ elim e [ root ↦ ret (parts ++ ls) | pointer _ _ ↦ fail ]
qname-labels ls e zero p pos r parts hs us h lt at = absurd (omega arith)
qname-labels [] e (suc f) p pos r parts hs us h lt at =
    qname-ending e f p pos r parts h at
    ∙ ap (λ ps. elim e [ root ↦ ret ps | pointer _ _ ↦ fail ]) (sym (append-nil parts))
qname-labels (l ∷ ls) e (suc f) p pos r parts hs us h lt at =
    let more = encode_labels ls (encode_end e) in
    let here : drop pos p ≡ length l ∷ (l ++ (more ++ r)) =
      at ∙ ap (◌∷◌ (length l)) (append_assoc l more r) in
    let behind : drop (pos + 1 + length l) p ≡ more ++ r =
      drop_past p pos (pos + 1 + length l) (length l ∷ l) (more ++ r) here (omega arith) in
    qname-label l f p pos (more ++ r) parts hs.0 us.0 here
    ∙ qname-labels ls e f p (pos + 1 + length l) r (parts ++ l ∷ []) hs.1 us.1 h (omega arith)
        behind
    ∙ ap (λ ps. elim e [ root ↦ ret ps | pointer _ _ ↦ fail ]) (append_assoc parts (l ∷ []) ls)

parse_query_name-walked :
    (p : Bytes) (n : WireName) (r : Bytes)
    → All IsLabel n.labels
    → All (λ l. is_utf8 l ≡ true) n.labels
    → IsEnd n.ending
    → drop 12 p ≡ encode_name n ++ r
    → parse_query_name p ≡ dotted n
unfolding parse_query_name encode_name
parse_query_name-walked p n r hs us h at =
    let enough : length n.labels < suc (length p) = omega (
      arith,
      length-encode_labels n.labels (encode_end n.ending),
      length-append (encode_labels n.labels (encode_end n.ending)) r,
      ap length at,
      length-drop 12 p,
    ) in
    rw (qname-labels n.labels n.ending (suc (length p)) p 12 r [] hs us h enough at)
      (finish n.ending n.labels)
  where
    finish :
        (e : NameEnd) (ls : List Bytes)
        → (elim e as (λ _. Run (List Bytes)) [ root ↦ ret ls | pointer _ _ ↦ fail ] >>= λ ps.
            (guard (not (is_nil ps)) >> ret (join ps)))
          ≡ elim e [ root ↦ if is_nil ls then fail else ret (with_dots ls) | pointer _ _ ↦ fail ]
    finish root [] = refl
    finish root (l ∷ ls) = ap ret (join-with_dots l ls)
    finish (pointer _ _) ls = refl

parse_query_type-walked :
    (p : Bytes) (q : Question) (r : Bytes)
    → IsQuestion q
    → 12 < length p
    → drop 12 p ≡ encode_question q ++ r
    → parse_query_type p ≡ ret q.qtype
unfolding parse_query_type encode_question
parse_query_type-walked p q r h long at =
    let fields = u16_bytes q.qtype ++ u16_bytes q.qclass in
    let name_end : ℕ = 12 + length (encode_name q.name) in
    let at_name : drop 12 p ≡ encode_name q.name ++ (fields ++ r) =
      at ∙ append_assoc (encode_name q.name) fields r in
    let at_fields = drop_past p 12 name_end (encode_name q.name) (fields ++ r) at_name refl in
    let room : name_end + 2 ≤ length p =
      omega (arith, length_from_drop p name_end (fields ++ r) at_fields (omega arith)) in
    let skipped : qtype_loop (suc (length p)) p 12 ≡ ret name_end =
      qtype_loop-skip_loop (suc (length p)) p 12
      ∙ skip_loop-encode_name q.name p 12 (fields ++ r) h.name at_name in
    rw (lt→ltb _ _ long, skipped, le→leb _ _ room)
      (be16-drop p name_end q.qtype _ h.qtype at_fields)

-- Of the first question of a well-formed message with UTF-8 labels, whatever follows it, the type is
-- read back, and the name with its labels joined by dots; the name is refused where it is the root
-- or ends in a compression pointer.
pub parse_query-question :
    (m : Message) (q : Question) (qs : List Question) (tail : Bytes)
    → IsMessage m
    → m.questions ≡ q ∷ qs
    → All (λ l. is_utf8 l ≡ true) q.name.labels
    → (parse_query_name (encode m tail) ≡ dotted q.name)
      × (parse_query_type (encode m tail) ≡ ret q.qtype)
unfolding encode encode_question
parse_query-question m q qs tail h e utf8 =
    let more = encode_questions qs (encode_records (records m) tail) in
    let valid : All IsQuestion (q ∷ qs) = rw e at h.questions in
    let p = encode_header m (encode_questions m.questions (encode_records (records m) tail)) in
    let here : drop 12 p ≡ encode_question q ++ more =
      ap (λ xs. encode_questions xs (encode_records (records m) tail)) e in
    let fields = u16_bytes q.qtype ++ u16_bytes q.qclass in
    (
      parse_query_name-walked p q.name (fields ++ more) valid.0.name.labels utf8 valid.0.name.ending
          (here ∙ append_assoc (encode_name q.name) fields more),
      parse_query_type-walked p q more valid.0
          (omega (
            arith,
            ap length here,
            length-append (encode_name q.name) fields,
            length-append (encode_question q) more,
          ))
          here,
    )

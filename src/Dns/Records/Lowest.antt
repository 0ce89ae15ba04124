-- ===== src/Dns/Records/Lowest.antt =====
-- `extract_min_ttl` of src/dns.rs on a well-formed response: the lowest lifetime of the answers.
use trans_proxy.Base.{
  ℕ, ◌+◌, ◌≤◌, ◌<◌, ◌≡◌, ◌⊎◌, inl, inr, refl, false, List, [], ◌∷◌, arith, ltb, le→leb, ne→==-false,
  Bytes, length, drop, ret, if◌then◌else◌,
}
use trans_proxy.Dns.Records.{min_ttl_loop, extract_min_ttl, u32_max}
use trans_proxy.Dns.Format.{
  All, ResourceRecord, Message, encode_questions, encode_records, records, encode, IsRecord,
  IsMessage,
}
use trans_proxy.Dns.Format.Walk.{record_step, HeaderAt, header_step}
use trans_proxy.Dns.Records.Answers.{questions_walked}

-- A number is among the lifetimes of some records.
abbrev pub HasTtl : ℕ → List ResourceRecord → Type 0
HasTtl t [] = ⊥
HasTtl t (x ∷ xs) = (t ≡ x.ttl) ⊎ HasTtl t xs

-- The lowest lifetime: one of them, and none is lower.
abbrev pub IsLowestTtl : ℕ → List ResourceRecord → Type 0
IsLowestTtl t xs = All (λ x. t ≤ x.ttl) xs × HasTtl t xs

lowest : ℕ → List ResourceRecord → ℕ
lowest m [] = m
lowest m (x ∷ xs) = lowest (if ltb x.ttl m then x.ttl else m) xs

lowest-le : (m : ℕ) (xs : List ResourceRecord) → lowest m xs ≤ m
unfolding lowest
lowest-le m [] = omega arith
lowest-le m (x ∷ xs) = ground (arith, lowest-le (if ltb x.ttl m then x.ttl else m) xs)

lowest-All : (m : ℕ) (xs : List ResourceRecord) → All (λ x. lowest m xs ≤ x.ttl) xs
unfolding lowest
lowest-All m [] = tt
lowest-All m (x ∷ xs) = (
  ground (arith, lowest-le (if ltb x.ttl m then x.ttl else m) xs),
  lowest-All (if ltb x.ttl m then x.ttl else m) xs,
)

-- Which of the two the fold keeps.
lowest_of_two : (m a t : ℕ) → t ≡ (if ltb a m then a else m) → (t ≡ m) ⊎ (t ≡ a)
lowest_of_two m a t e = ground arith

lowest-HasTtl : (m t : ℕ) (xs : List ResourceRecord) → t ≡ lowest m xs → (t ≡ m) ⊎ HasTtl t xs
unfolding lowest
lowest-HasTtl m t [] e = inl e
lowest-HasTtl m t (x ∷ xs) e = elim (lowest-HasTtl (if ltb x.ttl m then x.ttl else m) t xs e) [
  | inl kept ↦ elim (lowest_of_two m x.ttl t kept) [ inl old ↦ inl old | inr new ↦ inr (inl new) ]
  | inr later ↦ inr (inr later)
]

min_ttl_loop-lowest :
    (xs : List ResourceRecord) (p : Bytes) (pos m : ℕ) (r : Bytes)
    → All IsRecord xs
    → drop pos p ≡ encode_records xs r
    → min_ttl_loop (length xs) p pos m ≡ ret (lowest m xs)
unfolding min_ttl_loop lowest
min_ttl_loop-lowest [] p pos m r hs at = refl
min_ttl_loop-lowest (x ∷ xs) p pos m r hs at =
    let found = record_step p pos x (encode_records xs r) hs.0 at in
    let near : ltb (length p) (found.name_end + 10) ≡ false = ground (arith, found.room) in
    rw (found.skipped, near, found.ttl_read, found.rdlength_read)
      (min_ttl_loop-lowest xs p (found.name_end + 10 + length x.rdata)
        (if ltb x.ttl m then x.ttl else m) r hs.1 found.rest_at)

lowest-lt :
    (m : ℕ) (xs : List ResourceRecord) → 0 < length xs → All (λ x. x.ttl < m) xs → lowest m xs < m
lowest-lt m [] h hs = absurd (omega arith)
lowest-lt m (x ∷ xs) h hs = let below = lowest-All m (x ∷ xs) in omega (arith, below.0, hs.0)

extract_min_ttl-lowest :
    (p : Bytes) (m : Message) (tail : Bytes)
    → IsMessage m
    → HeaderAt p m (encode_questions m.questions (encode_records (records m) tail))
    → 0 < length m.answers
    → lowest u32_max m.answers < u32_max
    → extract_min_ttl p ≡ ret (lowest u32_max m.answers)
unfolding extract_min_ttl
extract_min_ttl-lowest p m tail h head some_answer finite =
    let (next, walked, after) = questions_walked p m tail h head in
    rw (
      le→leb _ _ head.long,
      head.answers_read,
      ne→==-false (length m.answers) 0 (omega arith),
      head.questions_read,
      walked,
      min_ttl_loop-lowest m.answers p next u32_max _ h.answers after,
      ne→==-false (lowest u32_max m.answers) u32_max (omega arith),
    )

-- Every well-formed response with an answer, all of whose lifetimes are below the largest
-- 32-bit number, is given the lowest lifetime of its answers.
pub extract_min_ttl-IsLowestTtl :
    (m : Message) (tail : Bytes)
    → IsMessage m
    → 0 < length m.answers
    → All (λ x. x.ttl < u32_max) m.answers
    → (t : ℕ) × (extract_min_ttl (encode m tail) ≡ ret t) × IsLowestTtl t m.answers
unfolding encode
extract_min_ttl-IsLowestTtl m tail h some_answer finite =
    let t = lowest u32_max m.answers in
    let less = lowest-lt u32_max m.answers some_answer finite in
    (
      t,
      extract_min_ttl-lowest _ m tail h (header_step m _ h) some_answer less,
      (
        lowest-All u32_max m.answers,
        elim (lowest-HasTtl u32_max t m.answers refl) [
          | inl e ↦ absurd (omega arith)
          | inr has ↦ has
        ],
      ),
    )

-- ===== src/Dns/Records/Length.antt =====
-- The functions of src/dns.rs that make a message out of another, on any bytes: they end, do not
-- panic, and the length of what they make is known.
use trans_proxy.Base.{
  ℕ, zero, suc, ◌+◌, ◌-◌, ◌≤◌, ◌≡◌, refl, arith, ltb, leb, leb→le, Bytes, length, ret, Returns,
  Gives, Gives-bind, Gives-mono, Gives-if, Gives-attempt, Gives-be16, Gives-ret, be32_lt,
  Returns-bind, Returns-guard, Returns-byte, Returns-be16, Returns-overwrite, ◌==◌, not, take, drop,
  ◌∙◌, length-append, length-take, length-drop, u32_bytes, Bool, slice_le, overwrite_le,
}
use trans_proxy.Dns.Name.{skip_dns_name}
use trans_proxy.Dns.Name.Total.{skip_dns_name-Returns}
use trans_proxy.Dns.Records.{
  skip_questions, age_record, rewrite_loop, rewrite_ttls, build_empty_response, aged,
}
use trans_proxy.Dns.Records.Total.{skip_questions-Returns}

age_record-Gives :
    (p : Bytes) (q elapsed : ℕ)
    → q + 10 ≤ length p
    → Gives (λ p'. length p' ≡ length p) (age_record p q elapsed)
unfolding age_record
age_record-Gives p q elapsed room = Gives-be16 _ p q _ (omega arith) λ rtype.
    Gives-if _ (not (rtype == 41)) _ _
      (λ _.
        let (ttl, e) = be32_lt p (q + 4) (omega arith) in
        let (p', e', same) = overwrite_le p (q + 4) (u32_bytes (aged elapsed ttl)) (omega arith) in
        rw (e, e') same)
      λ _. refl

rewrite_loop-Gives :
    (n : ℕ) (p : Bytes) (pos elapsed : ℕ)
    → Gives (λ r. length r.0 ≡ length p) (rewrite_loop n p pos elapsed)
unfolding rewrite_loop
rewrite_loop-Gives zero p pos elapsed = refl
rewrite_loop-Gives (suc n) p pos elapsed =
    Gives-attempt _ _ (skip_dns_name p pos) _ (skip_dns_name-Returns p pos) refl λ q _.
      Gives-if _ (ltb (length p) (q + 10)) _ _ (λ _. refl)
        λ far.
          let room : q + 10 ≤ length p = ground arith in
          Gives-bind _ _ (age_record p q elapsed) _ (age_record-Gives p q elapsed room) λ p' same.
            Gives-be16 _ p' (q + 8) _ (omega arith) λ rdlength.
              Gives-if _ (ltb (length p') (q + 10 + rdlength)) _ _ (λ _. same)
                λ _.
                  Gives-mono _ _ (rewrite_loop n p' (q + 10 + rdlength) elapsed)
                    (rewrite_loop-Gives n p' (q + 10 + rdlength) elapsed) λ r e. e ∙ same

rewrite_ttls-Gives :
    (p : Bytes) (elapsed : ℕ) → Gives (λ r. length r.0 ≡ length p) (rewrite_ttls p elapsed)
unfolding rewrite_ttls
rewrite_ttls-Gives p elapsed =
    Gives-if _ (ltb (length p) 12) _ _ (λ _. refl)
      λ long.
        let room : 12 ≤ length p = ground arith in
        Gives-be16 _ p 4 _ (omega arith) λ qdcount. Gives-be16 _ p 6 _ (omega arith) λ ancount.
          Gives-be16 _ p 8 _ (omega arith) λ nscount. Gives-be16 _ p 10 _ (omega arith) λ arcount.
            Gives-attempt _ _ (skip_questions qdcount p 12) _
              (skip_questions-Returns qdcount p 12 room) refl
              λ pos _. rewrite_loop-Gives (ancount + nscount + arcount) p pos elapsed

-- Ageing a packet in place ends with a packet of the same length, whatever the bytes are, and
-- also where the walk stops half way.
pub length-rewrite_ttls :
    (p : Bytes) (elapsed : ℕ)
    → (r : Bytes × Bool) × (rewrite_ttls p elapsed ≡ ret r) × (length r.0 ≡ length p)
length-rewrite_ttls p elapsed =
    Gives-ret (λ r. length r.0 ≡ length p) (rewrite_ttls p elapsed) (rewrite_ttls-Gives p elapsed)

-- A synthesized answer ends with at least a header, and is no longer than the query.
pub build_empty_response-Returns :
    (query : Bytes) (rcode : ℕ)
    → Returns (λ r. (12 ≤ length r) × (length r ≤ length query)) (build_empty_response query rcode)
unfolding build_empty_response
build_empty_response-Returns query rcode = Returns-guard _ (leb 12 (length query)) _ λ le.
    let room : 12 ≤ length query = leb→le _ _ le in
    Returns-be16 _ query 4 _ (omega arith) λ qdcount.
      Returns-bind _ _ (skip_questions qdcount query 12) _
        (skip_questions-Returns qdcount query 12 room)
        λ pos within.
          let header = take (12 - 0) (drop 0 query) in
          let twelve : length header ≡ 12 = omega (arith, length-take 12 query) in
          let question = take (pos - 12) (drop 12 query) in
          rw (slice_le query 0 12 (omega arith) room) (
            Returns-byte _ query 2 _ (omega arith) λ flags.
              Returns-overwrite _ header 2 _ _ (omega arith) λ h₁ e₁.
                Returns-overwrite _ h₁ 3 _ _ (omega arith) λ h₂ e₂.
                  Returns-overwrite _ h₂ 6 _ _ (omega arith) λ h₃ e₃.
                    rw (slice_le query 12 pos within.0 within.1) (
                      omega (
                        arith,
                        length-append h₃ question,
                        length-take (pos - 12) (drop 12 query),
                        length-drop 12 query,
                      )))

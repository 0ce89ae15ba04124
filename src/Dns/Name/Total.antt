-- ===== src/Dns/Name/Total.antt =====
-- The name loops of src/dns.rs end, and index no byte outside the packet, whatever it holds.
use trans_proxy.Base.{
  ℕ, zero, suc, ◌+◌, ◌-◌, ◌≤◌, ◌<◌, ◌≡◌, refl, List, [], ◌∷◌, ◌++◌, arith, ltb, leb, ltb→lt, leb→le,
  Bytes, length, Returns, Returns-bind, Returns-mono, Returns-guard, Returns-byte, byte_lt, be16_lt,
  Returns-if, Returns-slice, ◌==◌, not,
}
use trans_proxy.Base.Utf8.{is_utf8}
use trans_proxy.Dns.Name.{
  skip_loop, skip_dns_name, qtype_loop, parse_query_type, qname_loop, parse_query_name, is_nil,
  is_pointer,
}

skip_loop-Returns :
    (f : ℕ) (p : Bytes) (pos : ℕ)
    → length p - pos < f
    → Returns (λ q. (pos < q) × (q ≤ length p + 1)) (skip_loop f p pos)
unfolding skip_loop
skip_loop-Returns zero p pos h = absurd (omega arith)
skip_loop-Returns (suc f) p pos h = Returns-guard _ (ltb pos (length p)) _ λ lt.
    let (b, e) = byte_lt p pos (ltb→lt _ _ lt) in
    rw e (ground (arith, skip_loop-Returns f p (pos + 1 + b)))

-- A name is skipped in any packet, from any position, and the position moves forward.
pub skip_dns_name-Returns :
    (p : Bytes) (pos : ℕ) → Returns (λ q. (pos < q) × (q ≤ length p + 1)) (skip_dns_name p pos)
unfolding skip_dns_name
skip_dns_name-Returns p pos = skip_loop-Returns (suc (length p)) p pos (omega arith)

pub qtype_loop-skip_loop : (f : ℕ) (p : Bytes) (pos : ℕ) → qtype_loop f p pos ≡ skip_loop f p pos
unfolding qtype_loop skip_loop
qtype_loop-skip_loop zero p pos = refl
qtype_loop-skip_loop (suc f) p pos = simp (qtype_loop-skip_loop f)

qtype_loop-Returns : (p : Bytes) → Returns (λ _. Unit) (qtype_loop (suc (length p)) p 12)
qtype_loop-Returns p = rw qtype_loop-skip_loop (
    Returns-mono (λ q. (12 < q) × (q ≤ length p + 1)) _ (skip_loop (suc (length p)) p 12)
      (skip_loop-Returns (suc (length p)) p 12 (omega arith)) (λ q h. tt))

pub parse_query_type-Returns : (p : Bytes) → Returns (λ _. Unit) (parse_query_type p)
unfolding parse_query_type
parse_query_type-Returns p = Returns-guard _ (ltb 12 (length p)) _ λ lt.
    Returns-bind (λ _. Unit {0}) _ (qtype_loop (suc (length p)) p 12) _ (qtype_loop-Returns p)
      λ pos _.
        Returns-guard _ (leb (pos + 2) (length p)) _
          λ le. let (v, e) = be16_lt p pos (omega (arith, leb→le _ _ le)) in rw e tt

qname_loop-Returns :
    (f : ℕ) (p : Bytes) (pos : ℕ) (parts : List Bytes)
    → length p - pos < f
    → Returns (λ _. Unit) (qname_loop f p pos parts)
unfolding qname_loop
qname_loop-Returns zero p pos parts h = absurd (omega arith)
qname_loop-Returns (suc f) p pos parts h = Returns-guard _ (ltb pos (length p)) _ λ lt.
    Returns-byte _ p pos _ (ltb→lt _ _ lt) λ b.
      Returns-if _ (b == 0) _ _ (λ _. tt)
        λ _.
          Returns-if _ (is_pointer b) _ _ (λ _. tt)
            λ _. Returns-guard _ (leb (pos + 1 + b) (length p)) _ λ le.
              Returns-slice _ p (pos + 1) (pos + 1 + b) _ (omega arith) (leb→le _ _ le) λ s.
                Returns-guard _ (is_utf8 s) _ λ _.
                  qname_loop-Returns f p (pos + 1 + b) (parts ++ s ∷ [])
                    (omega (arith, ltb→lt pos (length p) lt))

pub parse_query_name-Returns : (p : Bytes) → Returns (λ _. Unit) (parse_query_name p)
unfolding parse_query_name
parse_query_name-Returns p =
    Returns-bind _ _ (qname_loop (suc (length p)) p 12 []) _
      (qname_loop-Returns (suc (length p)) p 12 [] (omega arith))
      λ parts _. Returns-guard _ (not (is_nil parts)) _ λ _. tt

-- ===== src/Dns/Records/Total.antt =====
-- The record walks of src/dns.rs end, and index no byte outside the packet, whatever it holds.
use trans_proxy.Base.{
  ℕ, zero, suc, ◌+◌, ◌≤◌, ◌<◌, ◌≡◌, refl, List, [], ◌++◌, arith, ltb, leb, leb→le, Bytes, length,
  Run, ret, fail, ◌>>=◌, panic, spin, Returns, Returns-bind, Returns-mono, Returns-guard,
  Returns-byte, Returns-be16, Returns-be32, Returns-if, Returns-slice, ◌&&◌, ◌==◌, not, unwrap_or,
  if◌then◌else◌,
}
use trans_proxy.Net.{IpAddr}
use trans_proxy.Dns.Name.{skip_dns_name, is_nil}
use trans_proxy.Dns.Name.Total.{skip_dns_name-Returns}
use trans_proxy.Dns.Records.{
  skip_questions, min_ttl_loop, extract_min_ttl, table_ttl, clamp, table_ttl_floor, table_ttl_ceil,
  answer_ip, ip_loop, parse_ip_records, u32_max,
}

-- After a name, the walk goes on from any position.
module _ {ℓ} {B : Type ℓ} (Q : B → Type 0) (p : Bytes) (pos : ℕ) (k : ℕ → Run B) where
  pub Returns-skip : ((q : ℕ) → pos < q → Returns Q (k q)) → Returns Q (skip_dns_name p pos >>= k)
  Returns-skip h =
      Returns-bind _ Q (skip_dns_name p pos) k (skip_dns_name-Returns p pos) (λ q lt. h q lt.0)

pub skip_questions-Returns :
    (n : ℕ) (p : Bytes) (pos : ℕ)
    → pos ≤ length p
    → Returns (λ q. (pos ≤ q) × (q ≤ length p)) (skip_questions n p pos)
unfolding skip_questions
skip_questions-Returns zero p pos h = (omega arith, h)
skip_questions-Returns (suc n) p pos h = Returns-skip _ p pos _ λ q lt.
    Returns-guard _ (leb (q + 4) (length p)) _ λ le.
      Returns-mono _ _ (skip_questions n p (q + 4))
        (skip_questions-Returns n p (q + 4) (leb→le _ _ le)) λ r g. (omega (arith, g.0), g.1)

min_ttl_loop-Returns :
    (n : ℕ) (p : Bytes) (pos m : ℕ) → Returns (λ t. t ≤ m) (min_ttl_loop n p pos m)
unfolding min_ttl_loop
min_ttl_loop-Returns zero p pos m = omega arith
min_ttl_loop-Returns (suc n) p pos m = Returns-skip _ p pos _ λ q _.
    Returns-if _ (ltb (length p) (q + 10)) _ _ (λ _. omega arith)
      λ far.
        let room : q + 10 ≤ length p = ground arith in
        Returns-be32 _ p (q + 4) _ (omega arith) λ ttl.
          Returns-be16 _ p (q + 8) _ (omega arith) λ rdlength.
            Returns-mono _ _ (min_ttl_loop n p (q + 10 + rdlength) (if ltb ttl m then ttl else m))
              (min_ttl_loop-Returns n p (q + 10 + rdlength) (if ltb ttl m then ttl else m))
              λ t le. ground arith

pub extract_min_ttl-Returns : (p : Bytes) → Returns (λ t. t ≤ u32_max) (extract_min_ttl p)
unfolding extract_min_ttl
extract_min_ttl-Returns p = Returns-guard _ (leb 12 (length p)) _ λ le.
    let room : 12 ≤ length p = leb→le _ _ le in
    Returns-be16 _ p 6 _ (omega arith) λ ancount. Returns-guard _ (not (ancount == 0)) _ λ _.
      Returns-be16 _ p 4 _ (omega arith) λ qdcount.
        Returns-bind _ _ (skip_questions qdcount p 12) _ (skip_questions-Returns qdcount p 12 room)
          λ pos _.
            Returns-bind (λ t. t ≤ u32_max) _ (min_ttl_loop ancount p pos u32_max) _
              (min_ttl_loop-Returns ancount p pos u32_max)
              λ m le'. Returns-guard _ (not (m == u32_max)) _ λ _. le'

-- Every response gets a table lifetime, between the floor and the ceiling.
pub table_ttl_bounds :
    (p : Bytes) → (t : ℕ) × (table_ttl p ≡ ret t) × (table_ttl_floor ≤ t) × (t ≤ table_ttl_ceil)
unfolding table_ttl
table_ttl_bounds p = bounds (extract_min_ttl p) (extract_min_ttl-Returns p)
  where
    bounds :
        (m : Run ℕ)
        → Returns (λ t. t ≤ u32_max) m
        → (t : ℕ) × ((unwrap_or table_ttl_floor m >>= λ ttl.
              ret (clamp ttl table_ttl_floor table_ttl_ceil))
            ≡ ret t)
          × (table_ttl_floor ≤ t)
          × (t ≤ table_ttl_ceil)
    bounds (ret t) h = (clamp t table_ttl_floor table_ttl_ceil, refl, ground arith, ground arith)
    bounds fail h = (table_ttl_floor, refl, omega arith, omega arith)
    bounds panic h = absurd h
    bounds spin h = absurd h

answer_ip-Returns :
    (p : Bytes) (pos rclass rtype rdlength : ℕ)
    → pos + rdlength ≤ length p
    → Returns (λ _. Unit {0}) (answer_ip p pos rclass rtype rdlength)
unfolding answer_ip
answer_ip-Returns p pos rclass rtype rdlength h =
    Returns-if _ (rclass == 1) _ _
      (λ _.
        Returns-if _ (rtype == 1 && rdlength == 4) _ _
          (λ a.
            let four : rdlength ≡ 4 = ground arith in
            Returns-byte _ p pos _ (omega arith) λ _.
              Returns-byte _ p (pos + 1) _ (omega arith) λ _.
                Returns-byte _ p (pos + 2) _ (omega arith)
                  λ _. Returns-byte _ p (pos + 3) _ (omega arith) λ _. tt)
          λ _.
            Returns-if _ (rtype == 28 && rdlength == 16) _ _
              (λ a.
                let sixteen : rdlength ≡ 16 = ground arith in
                Returns-slice _ p pos (pos + 16) _ (omega arith) (omega arith) λ _. tt)
              λ _. tt)
      λ _. tt

ip_loop-Returns :
    (n : ℕ) (p : Bytes) (pos : ℕ) (ips : List IpAddr)
    → Returns (λ _. Unit {0}) (ip_loop n p pos ips)
unfolding ip_loop
ip_loop-Returns zero p pos ips = tt
ip_loop-Returns (suc n) p pos ips = Returns-skip _ p pos _ λ q _.
    Returns-if _ (ltb (length p) (q + 10)) _ _ (λ _. tt)
      λ far.
        let room : q + 10 ≤ length p = ground arith in
        Returns-be16 _ p q _ (omega arith) λ rtype.
          Returns-be16 _ p (q + 2) _ (omega arith) λ rclass.
            Returns-be16 _ p (q + 8) _ (omega arith) λ rdlength.
              Returns-if _ (ltb (length p) (q + 10 + rdlength)) _ _ (λ _. tt)
                λ fits.
                  Returns-bind _ _ (answer_ip p (q + 10) rclass rtype rdlength) _
                    (answer_ip-Returns p (q + 10) rclass rtype rdlength (ground arith))
                    λ found _. ip_loop-Returns n p (q + 10 + rdlength) (ips ++ found)

pub parse_ip_records-Returns : (p : Bytes) → Returns (λ _. Unit {0}) (parse_ip_records p)
unfolding parse_ip_records
parse_ip_records-Returns p = Returns-guard _ (leb 12 (length p)) _ λ le.
    let room : 12 ≤ length p = leb→le _ _ le in
    Returns-be16 _ p 6 _ (omega arith) λ ancount. Returns-guard _ (not (ancount == 0)) _ λ _.
      Returns-be16 _ p 4 _ (omega arith) λ qdcount.
        Returns-bind _ _ (skip_questions qdcount p 12) _ (skip_questions-Returns qdcount p 12 room)
          λ pos _.
            Returns-bind (λ _. Unit {0}) _ (ip_loop ancount p pos []) _
              (ip_loop-Returns ancount p pos [])
              λ ips _. Returns-guard _ (not (is_nil ips)) _ λ _. tt

-- ===== src/Dns/Records.antt =====
-- Walks over the records of a DNS message, src/dns.rs: `extract_min_ttl`, `table_ttl`,
-- `parse_ip_records`, `rewrite_ttls`, and the messages made from a query,
-- `build_empty_response` and `cache_key`.
pub mod Total
pub mod Length
pub mod Answers
pub mod Lowest
pub mod Ageing
pub mod Replies
use trans_proxy.Base.{
  ℕ, zero, suc, ◌+◌, ◌-◌, ◌/◌, ◌%◌, Bool, true, false, not, ◌&&◌, List, [], ◌∷◌, ◌++◌, bit_and,
  bit_or, ltb, leb, ◌==◌, max, ◌^◌, if◌then◌else◌, Bytes, length, take, drop, replicate, Run, ret,
  fail, panic, spin, ◌>>=◌, ◌>>◌, guard, unwrap_or, attempt, none, some, byte, slice, be16, be32,
  u16_bytes, u32_bytes, overwrite,
}
use trans_proxy.Net.{IpAddr, v4, v6}
use trans_proxy.Dns.Name.{skip_dns_name, is_nil}

-- The loop over the questions, which four functions of the source share.
unfoldable pub skip_questions : ℕ → Bytes → ℕ → Run ℕ
skip_questions zero p pos = ret pos
skip_questions (suc n) p pos = do
  q ← skip_dns_name p pos
  guard (leb (q + 4) (length p))
  skip_questions n p (q + 4)

abbrev pub u32_max : ℕ
u32_max = 2 ^ 32 - 1

unfoldable pub min_ttl_loop : ℕ → Bytes → ℕ → ℕ → Run ℕ
min_ttl_loop zero p pos min_ttl = ret min_ttl
min_ttl_loop (suc n) p pos min_ttl = do
  q ← skip_dns_name p pos
  let more = do
    ttl ← be32 p (q + 4)
    rdlength ← be16 p (q + 8)
    min_ttl_loop n p (q + 10 + rdlength) (if ltb ttl min_ttl then ttl else min_ttl)
  if ltb (length p) (q + 10) then ret min_ttl else more

unfoldable pub extract_min_ttl : Bytes → Run ℕ
extract_min_ttl p = do
  guard (leb 12 (length p))
  ancount ← be16 p 6
  guard (not (ancount == 0))
  qdcount ← be16 p 4
  pos ← skip_questions qdcount p 12
  min_ttl ← min_ttl_loop ancount p pos u32_max
  guard (not (min_ttl == u32_max))
  ret min_ttl

-- `Ord::clamp`.
abbrev pub clamp : ℕ → ℕ → ℕ → ℕ
clamp x low high = if ltb x low then low else if ltb high x then high else x

abbrev pub table_ttl_floor : ℕ
table_ttl_floor = 300

abbrev pub table_ttl_ceil : ℕ
table_ttl_ceil = 86400

unfoldable pub table_ttl : Bytes → Run ℕ
table_ttl p = do
  ttl ← unwrap_or table_ttl_floor (extract_min_ttl p)
  ret (clamp ttl table_ttl_floor table_ttl_ceil)

-- The address that an answer of this class, type and length holds at `pos`, if it is one.
unfoldable pub answer_ip : Bytes → ℕ → ℕ → ℕ → ℕ → Run (List IpAddr)
answer_ip p pos rclass rtype rdlength =
    if rclass == 1
    then (if rtype == 1 && rdlength == 4
        then (do
          a ← byte p pos
          b ← byte p (pos + 1)
          c ← byte p (pos + 2)
          d ← byte p (pos + 3)
          ret (v4 a b c d ∷ []))
        else if rtype == 28 && rdlength == 16
        then (do octets ← slice p pos (pos + 16); ret (v6 octets ∷ []))
        else ret [])
    else ret []

unfoldable pub ip_loop : ℕ → Bytes → ℕ → List IpAddr → Run (List IpAddr)
ip_loop zero p pos ips = ret ips
ip_loop (suc n) p pos ips = do
  q ← skip_dns_name p pos
  let more = do
    rtype ← be16 p q
    rclass ← be16 p (q + 2)
    rdlength ← be16 p (q + 8)
    let next = do
      found ← answer_ip p (q + 10) rclass rtype rdlength
      ip_loop n p (q + 10 + rdlength) (ips ++ found)
    if ltb (length p) (q + 10 + rdlength) then ret ips else next
  if ltb (length p) (q + 10) then ret ips else more

unfoldable pub parse_ip_records : Bytes → Run (List IpAddr)
parse_ip_records p = do
  guard (leb 12 (length p))
  ancount ← be16 p 6
  guard (not (ancount == 0))
  qdcount ← be16 p 4
  pos ← skip_questions qdcount p 12
  ips ← ip_loop ancount p pos []
  guard (not (is_nil ips))
  ret ips

-- A packet edited in place: what it holds when the function returns, and whether that was an
-- early return. `leave` ends the function and keeps the edits made so far.
abbrev pub Edit : Type 0
Edit = Run (Bytes × Bool)

-- `ttl.saturating_sub(elapsed).max(1)`.
abbrev pub aged : ℕ → ℕ → ℕ
aged elapsed ttl = max (ttl - elapsed) 1

-- The record's new bytes: an OPT record is left alone.
unfoldable pub age_record : Bytes → ℕ → ℕ → Run Bytes
age_record p q elapsed = do
  rtype ← be16 p q
  let rewritten = do ttl ← be32 p (q + 4); overwrite p (q + 4) (u32_bytes (aged elapsed ttl))
  if not (rtype == 41) then rewritten else ret p

unfoldable pub rewrite_loop : ℕ → Bytes → ℕ → ℕ → Edit
rewrite_loop zero p pos elapsed = ret (p, true)
rewrite_loop (suc n) p pos elapsed = do
  name_end ← attempt (skip_dns_name p pos)
  elim name_end [
    | none ↦ ret (p, false)
    | some q ↦
        let more = do
          p' ← age_record p q elapsed
          rdlength ← be16 p' (q + 8)
          let next = rewrite_loop n p' (q + 10 + rdlength) elapsed
          if ltb (length p') (q + 10 + rdlength) then ret (p', false) else next
        in if ltb (length p) (q + 10) then ret (p, false) else more
  ]

unfoldable pub rewrite_ttls : Bytes → ℕ → Edit
rewrite_ttls p elapsed =
    let walk = do
      qdcount ← be16 p 4
      ancount ← be16 p 6
      nscount ← be16 p 8
      arcount ← be16 p 10
      questions ← attempt (skip_questions qdcount p 12)
      elim questions [
        | none ↦ ret (p, false)
        | some pos ↦ rewrite_loop (ancount + nscount + arcount) p pos elapsed
      ]
    in if ltb (length p) 12 then ret (p, false) else walk

-- `resp[2] = 0x80 | (query[2] & 0x79)`, `resp[3] = 0x80 | (rcode & 0x0F)`, and six zero bytes.
unfoldable pub build_empty_response : Bytes → ℕ → Run Bytes
build_empty_response query rcode = do
  guard (leb 12 (length query))
  qdcount ← be16 query 4
  pos ← skip_questions qdcount query 12
  header ← slice query 0 12
  flags ← byte query 2
  header' ← overwrite header 2 (bit_or 0x80 (bit_and flags 0x79) ∷ [])
  header'' ← overwrite header' 3 (bit_or 0x80 (bit_and rcode 0x0F) ∷ [])
  header''' ← overwrite header'' 6 (replicate 6 0)
  question ← slice query 12 pos
  ret (header''' ++ question)

unfoldable pub build_servfail : Bytes → Run Bytes
build_servfail query = build_empty_response query 2

unfoldable pub build_nodata : Bytes → Run Bytes
build_nodata query = build_empty_response query 0

-- `if resp.len() >= 2 { resp[0] = …; resp[1] = … }`.
unfoldable pub set_tx_id : Bytes → ℕ → Bytes
set_tx_id (a ∷ b ∷ r) tx_id = u16_bytes tx_id ++ r
set_tx_id p tx_id = p

unfoldable pub cache_key : Bytes → Bytes
cache_key (a ∷ b ∷ r) = 0 ∷ 0 ∷ r
cache_key p = p

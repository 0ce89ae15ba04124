-- ===== src/Dns/Name.antt =====
-- DNS names on the wire, src/dns.rs: `skip_dns_name`, `parse_query_name`, `parse_query_type`.
-- A loop runs on fuel; one round more than the packet has bytes is enough, since each round
-- moves forward.
pub mod Total
pub mod Question
use trans_proxy.Base.{
  ℕ, zero, suc, ◌+◌, Bool, true, false, not, List, [], ◌∷◌, ◌++◌, bit_and, ltb, leb, ◌==◌,
  if◌then◌else◌, Bytes, length, Run, ret, fail, panic, spin, ◌>>=◌, ◌>>◌, guard, byte, slice, be16,
}
use trans_proxy.Base.Utf8.{is_utf8}

-- The two high bits of a compression pointer.
abbrev pub is_pointer : ℕ → Bool
is_pointer b = bit_and b 0xC0 == 0xC0

unfoldable pub skip_loop : ℕ → Bytes → ℕ → Run ℕ
skip_loop zero p pos = spin
skip_loop (suc f) p pos = do
  guard (ltb pos (length p))
  b ← byte p pos
  let rest = skip_loop f p (pos + 1 + b)
  if b == 0 then ret (pos + 1) else if is_pointer b then ret (pos + 2) else rest

unfoldable pub skip_dns_name : Bytes → ℕ → Run ℕ
skip_dns_name p pos = skip_loop (suc (length p)) p pos

-- The position behind the name, where the loop of `parse_query_type` breaks.
unfoldable pub qtype_loop : ℕ → Bytes → ℕ → Run ℕ
qtype_loop zero p pos = spin
qtype_loop (suc f) p pos = do
  guard (ltb pos (length p))
  b ← byte p pos
  let rest = qtype_loop f p (pos + 1 + b)
  if b == 0 then ret (pos + 1) else if is_pointer b then ret (pos + 2) else rest

unfoldable pub parse_query_type : Bytes → Run ℕ
parse_query_type p = do
  guard (ltb 12 (length p))
  pos ← qtype_loop (suc (length p)) p 12
  guard (leb (pos + 2) (length p))
  be16 p pos

-- The labels read, in order.
unfoldable pub qname_loop : ℕ → Bytes → ℕ → List Bytes → Run (List Bytes)
qname_loop zero p pos parts = spin
qname_loop (suc f) p pos parts = do
  guard (ltb pos (length p))
  b ← byte p pos
  let rest = do
    guard (leb (pos + 1 + b) (length p))
    s ← slice p (pos + 1) (pos + 1 + b)
    guard (is_utf8 s)
    qname_loop f p (pos + 1 + b) (parts ++ s ∷ [])
  if b == 0 then ret parts else if is_pointer b then fail else rest

-- `parts.join(".")`.
unfoldable pub join : List Bytes → Bytes
join [] = []
join (s ∷ []) = s
join (s ∷ t ∷ r) = s ++ b'.' ∷ join (t ∷ r)

abbrev pub is_nil {ℓ} : {A : Type ℓ} → List A → Bool
is_nil [] = true
is_nil (x ∷ xs) = false

unfoldable pub parse_query_name : Bytes → Run Bytes
parse_query_name p = do
  parts ← qname_loop (suc (length p)) p 12 []
  guard (not (is_nil parts))
  ret (join parts)

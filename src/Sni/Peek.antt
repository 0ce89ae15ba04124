-- ===== src/Sni/Peek.antt =====
-- `extract_sni` of src/sni.rs, against what its calls of `peek` return.
use trans_proxy.Base.{
  ℕ, zero, suc, ◌+◌, ◌≤◌, ◌<◌, ◌≡◌, inl, inr, ap, ◌∙◌, true, false, Bool, not, ◌||◌, arith, leb,
  ◌==◌, ne→==-false, min, Bytes, length, Run, ret, ◌>>=◌, attempt, byte, if◌then◌else◌, Bool-cases,
  Option-cases, Option, none, some, Returns, Returns-cases, be16_lt, byte_lt, leb→le,
}
use trans_proxy.Base.{Returns-if}
use trans_proxy.Sni.{parse_sni_from_client_hello, is_buffered, peek_loop, extract_sni}
use trans_proxy.Sni.Total.{HostIn, parse_sni-HostIn}

-- The host name that the call returns, if it returns one, stands in what one of the first
-- twenty peeks returned.
abbrev pub PeekedHost : (ℕ → Option Bytes) → Option Bytes → Type 0
PeekedHost peek none = Unit
PeekedHost peek (some host) =
    (i : ℕ) × (buf : Bytes) × (i < 20) × (peek i ≡ some buf) × HostIn buf host

parsed-PeekedHost :
    (peek : ℕ → Option Bytes) (i : ℕ) (buf : Bytes)
    → i < 20
    → peek i ≡ some buf
    → Returns (PeekedHost peek) (attempt (parse_sni_from_client_hello buf))
parsed-PeekedHost peek i buf lt e =
    elim (Returns-cases (HostIn buf) (parse_sni_from_client_hello buf) (parse_sni-HostIn buf)) [
      | inl none_read ↦ rw none_read tt
      | inr (host, read, h) ↦ rw read (i, buf, lt, e, h)
    ]

is_buffered-total : (buf : Bytes) → (full : Bool) × (is_buffered buf ≡ ret full)
unfolding is_buffered
is_buffered-total buf = elim (Bool-cases (leb 5 (length buf))) [
  | inl long ↦
      let (n, e) = be16_lt buf 3 (omega (arith, leb→le 5 (length buf) long)) in
      (leb (min (5 + n) 4096) (length buf), rw (long, e))
  | inr short ↦ (false, rw short)
]

-- What a peek decides, once something was read.
decide-PeekedHost :
    (peek : ℕ → Option Bytes) (i left : ℕ) (buf : Bytes) (again : Run (Option Bytes))
    → i < 20
    → peek i ≡ some buf
    → 0 < length buf
    → (0 < left → Returns (PeekedHost peek) again)
    → Returns (PeekedHost peek) (do
      first ← byte buf 0
      full ← is_buffered buf
      if not (first == 0x16)
          then ret none
          else if full || left == 0
          then attempt (parse_sni_from_client_hello buf)
          else again)
decide-PeekedHost peek i left buf again lt e full h =
    let (first, read) = byte_lt buf 0 full in
    let (whole, is) = is_buffered-total buf in
    rw (read, is)
      (Returns-if (PeekedHost peek) (not (first == 0x16)) (ret none) _ (λ _. tt)
        λ _.
          Returns-if (PeekedHost peek) (whole || left == 0) _ again
            (λ _. parsed-PeekedHost peek i buf lt e) λ more. h (ground arith))

turn-PeekedHost :
    (peek : ℕ → Option Bytes) (i left : ℕ)
    → i + suc left ≤ 20
    → (0 < left → Returns (PeekedHost peek) (peek_loop peek (i + 1) left))
    → Returns (PeekedHost peek) (peek_loop peek i (suc left))
unfolding peek_loop
turn-PeekedHost peek i left le h = elim (Option-cases (peek i)) [
  | inl error ↦ rw error tt
  | inr (buf, e) ↦ rw e (
      Returns-if (PeekedHost peek) (length buf == 0) (ret none) _ (λ _. tt)
        λ full. decide-PeekedHost peek i left buf _ (omega arith) e (ground arith) h)
]

peek_loop-PeekedHost :
    (peek : ℕ → Option Bytes) (i left : ℕ)
    → i + suc left ≤ 20
    → Returns (PeekedHost peek) (peek_loop peek i (suc left))
peek_loop-PeekedHost peek i zero le = turn-PeekedHost peek i zero le λ lt. absurd (omega arith)
peek_loop-PeekedHost peek i (suc left) le =
    turn-PeekedHost peek i (suc left) le λ _. peek_loop-PeekedHost peek (i + 1) left (omega arith)

-- Whatever the peeks return, `extract_sni` ends after at most twenty of them and panics on none.
-- A host name that it returns is valid UTF-8 and stands in what one of those peeks returned.
pub extract_sni-PeekedHost :
    (peek : ℕ → Option Bytes) → Returns (PeekedHost peek) (extract_sni peek)
unfolding extract_sni
extract_sni-PeekedHost peek = peek_loop-PeekedHost peek 0 19 (omega arith)

-- A peek that keeps the loop waiting: a handshake record that is not whole yet.
pub record IsPartial (buf : Bytes) : Type 0 where
  pub handshake : byte buf 0 ≡ ret 0x16
  pub not_empty : 0 < length buf
  pub waits : is_buffered buf ≡ ret false

pub peek_loop-waits :
    (peek : ℕ → Option Bytes) (wait i left : ℕ) (buf : Bytes)
    → ((j : ℕ) → j < wait → (part : Bytes) × (peek (i + j) ≡ some part) × IsPartial part)
    → wait ≤ left
    → peek (i + wait) ≡ some buf
    → byte buf 0 ≡ ret 0x16
    → 0 < length buf
    → is_buffered buf ≡ ret true
    → peek_loop peek i (suc left) ≡ attempt (parse_sni_from_client_hello buf)
unfolding peek_loop
peek_loop-waits peek zero i left buf parts le e handshake full whole =
    let here : peek i ≡ some buf = ap peek (omega arith) ∙ e in
    rw (here, ne→==-false (length buf) 0 (omega arith), handshake, whole)
peek_loop-waits peek (suc wait) i zero buf parts le e handshake full whole = absurd (omega arith)
peek_loop-waits peek (suc wait) i (suc left) buf parts le e handshake full whole =
    let (part, found, partial) = parts 0 (omega arith) in
    let here : peek i ≡ some part = ap peek (omega arith) ∙ found in
    let next : peek (i + 1 + wait) ≡ some buf = ap peek (omega arith) ∙ e in
    rw
      (
        here,
        ne→==-false (length part) 0 (omega (arith, partial.not_empty)),
        partial.handshake,
        partial.waits,
        ne→==-false (suc left) 0 (omega arith),
      )
      (peek_loop-waits peek wait (i + 1) left buf (shifted parts) (omega arith) next handshake full
        whole)
  where
    shifted :
        ((j : ℕ) → j < suc wait → (part : Bytes) × (peek (i + j) ≡ some part) × IsPartial part)
        → (j : ℕ) → j < wait
        → (part : Bytes) × (peek (i + 1 + j) ≡ some part) × IsPartial part
    shifted parts j lt =
        let (part, found, partial) = parts (suc j) (omega arith) in
        let moved : i + 1 + j ≡ i + suc j = omega arith in (part, ap peek moved ∙ found, partial)

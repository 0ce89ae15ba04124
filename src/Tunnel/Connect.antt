-- ===== src/Tunnel/Connect.antt =====
-- The answer to an HTTP CONNECT request, src/tunnel.rs: `find_header_end`,
-- `parse_connect_response` and the reading loop of `handshake_http_connect`. The stream is the
-- pieces in which the proxy's bytes arrive; a read returns a piece, or as much of it as the
-- buffer has room for, and nothing once the stream is closed. The request is made in Tunnel/Head.
pub mod Lossless
pub mod Answered
use trans_proxy.Base.{
  ℕ, zero, suc, ◌+◌, ◌-◌, ◌*◌, ◌≤◌, ◌<◌, ◌≡◌, ◌≢◌, ◌⊎◌, inl, inr, refl, sym, ap, ◌∙◌, true, false,
  Bool, not, ◌&&◌, ◌||◌, List, [], ◌∷◌, ◌++◌, map, arith, append_assoc, append-nil, ltb, leb,
  le→leb, ◌==◌, lt→ltb, ne→==-false, ==_refl, ◌/◌, ◌%◌, max, min, bit_and, bit_or, ◌^◌, Bytes,
  length, drop, take, replicate, u16_bytes, u32_bytes, length-append, length-take, length-drop,
  length_from_drop, drop_past, take-append, drop-append, take-append-drop, Run, ret, fail, panic,
  spin, ◌>>=◌, ◌>>◌, guard, attempt, unwrap_or, byte, slice, slice_le, byte-drop, be16, be32,
  overwrite, if◌then◌else◌, Bool-cases, Option, none, some, Returns, Returns-cases, overwrite_le,
  unwrap_or-Returns, be16_lt, byte_lt, Gives, ltb→lt, leb→le,
}
use trans_proxy.Base.Utf8.{is_utf8}

abbrev pub max_response_size : ℕ
max_response_size = 8192

-- Whether the bytes start with `\r\n\r\n`.
unfoldable pub starts_blank_line : Bytes → Bool
starts_blank_line (a ∷ b ∷ c ∷ d ∷ _) = a == 13 && (b == 10 && (c == 13 && d == 10))
starts_blank_line _ = false

-- `data.windows(4).position(|w| w == b"\r\n\r\n").map(|p| p + 4)`.
unfoldable pub find_header_end : Bytes → Option ℕ
find_header_end [] = none
find_header_end (b ∷ bs) =
    let later = elim (find_header_end bs) as (λ _. Option ℕ) [
      | none ↦ none
      | some p ↦ some (suc p)
    ] in
    if starts_blank_line (b ∷ bs) then some 4 else later

-- What stands in front of a byte, and behind it.
unfoldable pub cut_at : ℕ → Bytes → Option (Bytes × Bytes)
cut_at c [] = none
cut_at c (b ∷ bs) =
    let later = elim (cut_at c bs) as (λ _. Option (Bytes × Bytes)) [
      | none ↦ none
      | some r ↦ some (b ∷ r.0, r.1)
    ] in
    if b == c then some ([], bs) else later

unfoldable pub strip_return : Bytes → Bytes
strip_return [] = []
strip_return (b ∷ []) = if b == 13 then [] else b ∷ []
strip_return (b ∷ c ∷ bs) = b ∷ strip_return (c ∷ bs)

-- `header.lines().next()`.
unfoldable pub first_line : Bytes → Run Bytes
first_line [] = fail
first_line (b ∷ bs) = elim (cut_at 10 (b ∷ bs)) [
  | none ↦ ret (b ∷ bs)
  | some r ↦ ret (strip_return r.0)
]

-- The second part of `splitn(3, ' ')`.
unfoldable pub second_part : Bytes → Run Bytes
second_part line = elim (cut_at 32 line) [
  | none ↦ fail
  | some r ↦ elim (cut_at 32 r.1) [ none ↦ ret r.1 | some r' ↦ ret r'.0 ]
]

-- `u16::from_str`: decimal digits behind an optional plus.
unfoldable pub digits : ℕ → Bytes → Run ℕ
digits acc [] = ret acc
digits acc (b ∷ bs) =
    let next = digits (acc * 10 + (b - 48)) bs in
    if leb 48 b && (leb b 57 && ltb (acc * 10 + (b - 48)) (2 ^ 16)) then next else fail

unfoldable pub parse_u16 : Bytes → Run ℕ
parse_u16 [] = fail
parse_u16 (b ∷ bs) =
    if b == 43 then (if length bs == 0 then fail else digits 0 bs) else digits 0 (b ∷ bs)

unfoldable pub parse_connect_response : Bytes → Run (Unit {0})
parse_connect_response header = do
  status_line ← first_line header
  part ← second_part status_line
  code ← parse_u16 part
  guard (code == 200)
  ret tt

-- `stream.read(&mut buf[filled..])` with this much room.
unfoldable pub read_some : ℕ → List Bytes → Bytes × List Bytes
read_some room [] = ([], [])
read_some room (piece ∷ pieces) =
    (take room piece, if ltb room (length piece) then drop room piece ∷ pieces else pieces)

-- What is done with the bytes once the end of the headers is found at `pos`.
unfoldable pub accept_header : Bytes → ℕ → List Bytes → Run (List Bytes × Bytes)
accept_header buf pos rest = do
  header ← slice buf 0 pos
  guard (is_utf8 header)
  _ ← parse_connect_response header
  ret (rest, drop pos buf)

-- The loop, with what is left in the stream and the bytes read past the headers.
unfoldable pub read_connect_response : ℕ → Bytes → List Bytes → Run (List Bytes × Bytes)
read_connect_response zero buf pieces = spin
read_connect_response (suc f) buf pieces = do
  guard (ltb (length buf) max_response_size)
  let (chunk, rest) = read_some (max_response_size - length buf) pieces
  guard (not (length chunk == 0))
  elim (find_header_end (buf ++ chunk)) [
    | none ↦ read_connect_response f (buf ++ chunk) rest
    | some pos ↦ accept_header (buf ++ chunk) pos rest
  ]

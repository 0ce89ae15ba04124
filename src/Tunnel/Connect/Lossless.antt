-- ===== src/Tunnel/Connect/Lossless.antt =====
-- No byte of the tunnelled payload is lost by the reading loop of src/tunnel.rs.
use trans_proxy.Base.{false, take-append}
use trans_proxy.Base.{
  ℕ, zero, suc, ◌+◌, ◌-◌, ◌*◌, ◌≤◌, ◌<◌, ◌≡◌, inl, inr, refl, sym, ap, ◌∙◌, true, not, ◌&&◌, List,
  [], ◌∷◌, ◌++◌, arith, append_assoc, append-nil, ltb, leb, ◌==◌, Bytes, length, drop, take,
  length-append, length-take, take-append-drop, ret, fail, slice_le, Bool-cases, Option-cases, some,
  Returns, Returns-cases, ltb→lt,
}
use trans_proxy.Base.{◌^◌, Returns-bind, Returns-guard, Returns-if}
use trans_proxy.Base.Utf8.{is_utf8}
use trans_proxy.Tunnel.Connect.{
  max_response_size, starts_blank_line, find_header_end, cut_at, first_line, second_part, digits,
  parse_u16, parse_connect_response, read_some, accept_header, read_connect_response,
}

abbrev pub flat : List Bytes → Bytes
flat [] = []
flat (p ∷ ps) = p ++ flat ps

digits-Returns : (bs : Bytes) (acc : ℕ) → Returns (λ _. Unit) (digits acc bs)
unfolding digits
digits-Returns [] acc = tt
digits-Returns (b ∷ bs) acc =
    Returns-if (λ _. Unit) (leb 48 b && (leb b 57 && ltb (acc * 10 + (b - 48)) (2 ^ 16)))
      (digits (acc * 10 + (b - 48)) bs) fail (λ _. digits-Returns bs (acc * 10 + (b - 48)))
      (λ _. tt)

parse_u16-Returns : (bs : Bytes) → Returns (λ _. Unit) (parse_u16 bs)
unfolding parse_u16
parse_u16-Returns [] = tt
parse_u16-Returns (b ∷ bs) =
    Returns-if _ (b == 43) _ _
      (λ _. Returns-if _ (length bs == 0) fail _ (λ _. tt) λ _. digits-Returns bs 0)
      λ _. digits-Returns (b ∷ bs) 0

first_line-Returns : (header : Bytes) → Returns (λ _. Unit) (first_line header)
unfolding first_line
first_line-Returns [] = tt
first_line-Returns (b ∷ bs) = elim (Option-cases (cut_at 10 (b ∷ bs))) [
  | inl absent ↦ rw (first_line, absent) tt
  | inr (r, found) ↦ rw (first_line, found) tt
]

second_part-Returns : (line : Bytes) → Returns (λ _. Unit) (second_part line)
unfolding second_part
second_part-Returns line = elim (Option-cases (cut_at 32 line)) [
  | inl absent ↦ rw (second_part, absent) tt
  | inr (r, found) ↦ elim (Option-cases (cut_at 32 r.1)) [
    | inl last ↦ rw (second_part, found, last) tt
    | inr (r', more) ↦ rw (second_part, found, more) tt
  ]
]

parse_connect_response-Returns :
    (header : Bytes) → Returns (λ _. Unit) (parse_connect_response header)
unfolding parse_connect_response
parse_connect_response-Returns header =
    Returns-bind _ _ (first_line header) _ (first_line-Returns header) λ line _.
      Returns-bind _ _ (second_part line) _ (second_part-Returns line) λ part _.
        Returns-bind _ _ (parse_u16 part) _ (parse_u16-Returns part)
          λ code _. Returns-guard _ (code == 200) _ λ _. tt

take-all : (room : ℕ) (xs : Bytes) → length xs ≤ room → take room xs ≡ xs
take-all room xs le =
    sym (append-nil (take room xs))
    ∙ ap (λ ys. take room xs ++ ys) (sym (drop-all room xs le))
    ∙ take-append-drop room xs
  where
    drop-all : (room : ℕ) (xs : Bytes) → length xs ≤ room → drop room xs ≡ []
    drop-all zero [] le = refl
    drop-all zero (x ∷ xs) le = absurd (omega arith)
    drop-all (suc room) [] le = refl
    drop-all (suc room) (x ∷ xs) le = drop-all room xs (omega arith)

pub read_some-flat :
    (room : ℕ) (pieces : List Bytes)
    → flat pieces ≡ (read_some room pieces).0 ++ flat (read_some room pieces).1
unfolding read_some
read_some-flat room [] = refl
read_some-flat room (piece ∷ pieces) = elim (Bool-cases (ltb room (length piece))) [
  | inl more ↦ rw more (
      ap (λ x. x ++ flat pieces) (sym (take-append-drop room piece))
      ∙ append_assoc (take room piece) (drop room piece) (flat pieces))
  | inr all ↦ rw all (ap (λ x. x ++ flat pieces) (sym (take-all room piece (ground arith))))
]

starts_blank_line-long : (bs : Bytes) → starts_blank_line bs ≡ true → 4 ≤ length bs
unfolding starts_blank_line
starts_blank_line-long [] h = absurd (ground arith)
starts_blank_line-long (a ∷ []) h = absurd (ground arith)
starts_blank_line-long (a ∷ b ∷ []) h = absurd (ground arith)
starts_blank_line-long (a ∷ b ∷ c ∷ []) h = absurd (ground arith)
starts_blank_line-long (a ∷ b ∷ c ∷ d ∷ bs) h = omega arith

pub find_header_end-le : (bs : Bytes) (pos : ℕ) → find_header_end bs ≡ some pos → pos ≤ length bs
unfolding find_header_end
find_header_end-le [] pos e = absurd (cc)
find_header_end-le (b ∷ bs) pos e = elim (Bool-cases (starts_blank_line (b ∷ bs))) [
  | inl here ↦
      let four : 4 ≡ pos = cc (rw here at e) in omega (arith, starts_blank_line-long (b ∷ bs) here)
  | inr not_here ↦ elim (Option-cases (find_header_end bs)) [
    | inl absent ↦ absurd (cc (rw (not_here, absent) at e))
    | inr (p, found) ↦
        let next : suc p ≡ pos = cc (rw (not_here, found) at e) in
        omega (arith, find_header_end-le bs p found)
  ]
]

-- Text that begins with a blank line.
abbrev pub blank_line : Bytes → Bytes
blank_line rest = 13 ∷ 10 ∷ 13 ∷ 10 ∷ rest

-- A head ends with a blank line, and none begins earlier in it.
abbrev pub IsHead : Bytes → Type 0
IsHead header =
    (front : Bytes) × (header ≡ front ++ blank_line [])
    × ((a b : Bytes) → header ≡ a ++ blank_line b → length front ≤ length a)

blank_line-starts :
    (xs : Bytes) → starts_blank_line xs ≡ true → (rest : Bytes) × (xs ≡ blank_line rest)
unfolding starts_blank_line
blank_line-starts [] h = cc
blank_line-starts (a ∷ []) h = cc
blank_line-starts (a ∷ b ∷ []) h = cc
blank_line-starts (a ∷ b ∷ c ∷ []) h = cc
blank_line-starts (a ∷ b ∷ c ∷ d ∷ rest) h =
    let first : a ≡ 13 = ground arith in
    let second : b ≡ 10 = ground arith in
    let third : c ≡ 13 = ground arith in
    let fourth : d ≡ 10 = ground arith in (rest, rw (first, second, third, fourth) refl)

-- Where the first blank line is found, with what is in front and behind.
pub record Found (xs : Bytes) (p : ℕ) : Type 0 where
  pub front : Bytes
  pub rest : Bytes
  pub split : xs ≡ front ++ blank_line rest
  pub place : p ≡ length front + 4
  pub earliest : (a b : Bytes) → xs ≡ a ++ blank_line b → length front ≤ length a

earliest-cons :
    (x : ℕ) (xs front : Bytes)
    → starts_blank_line (x ∷ xs) ≡ false
    → ((a b : Bytes) → xs ≡ a ++ blank_line b → length front ≤ length a)
    → (a b : Bytes) → x ∷ xs ≡ a ++ blank_line b
    → length (x ∷ front) ≤ length a
unfolding starts_blank_line
earliest-cons x xs front none_here h [] b e = absurd (cc (ap starts_blank_line e, none_here))
earliest-cons x xs front none_here h (y ∷ a) b e = omega (arith, h a b (ap (drop 1) e))

pub find-Found : (xs : Bytes) (p : ℕ) → find_header_end xs ≡ some p → Found xs p
unfolding find_header_end
find-Found [] p h = cc
find-Found (x ∷ xs) p h = elim (Bool-cases (starts_blank_line (x ∷ xs))) [
  | inl here ↦
      let (rest, e) = blank_line-starts (x ∷ xs) here in
      let four : p ≡ 4 = ground (arith, rw here at h) in
      record { front = []; rest = rest; split = e; place = four; earliest = λ a b k. omega arith }
  | inr later ↦ elim (Option-cases (find_header_end xs)) [
    | inl absent ↦ absurd (cc (rw (later, absent) at h))
    | inr (q, found) ↦
        let r = find-Found xs q found in
        let next : p ≡ suc q = ground (arith, rw (later, found) at h) in
        record {
          front = x ∷ r.front;
          rest = r.rest;
          split = ap (λ ys. x ∷ ys) r.split;
          place = omega (arith, r.place);
          earliest = earliest-cons x xs r.front later r.earliest;
        }
  ]
]

-- What stands in front of the place that is found is a head.
take-IsHead :
    (header leftover : Bytes)
    → find_header_end (header ++ leftover) ≡ some (length header)
    → IsHead header
take-IsHead header leftover h =
    let r = find-Found (header ++ leftover) (length header) h in
    let regroup : header ++ leftover ≡ (r.front ++ blank_line []) ++ r.rest =
      r.split ∙ sym (append_assoc r.front (blank_line []) r.rest) in
    let same_size : length header ≡ length (r.front ++ blank_line []) =
      omega (arith, r.place, length-append r.front (blank_line [])) in
    (
      r.front,
      sym (take-append header leftover (length header) refl)
          ∙ ap (take (length header)) regroup
          ∙ take-append (r.front ++ blank_line []) r.rest (length header) same_size,
      λ a b e.
          r.earliest a (b ++ leftover)
            (ap (λ x. x ++ leftover) e ∙ append_assoc a (blank_line b) leftover),
    )

-- The headers were read up to their first blank line and accepted, and what was read past them,
-- with what is still in the stream, is all that follows them.
pub record Accepted (sent : Bytes) (rest : List Bytes) (leftover : Bytes) : Type 0 where
  pub header : Bytes
  pub all_there : sent ≡ header ++ (leftover ++ flat rest)
  pub head : IsHead header
  pub accepted : parse_connect_response header ≡ ret tt

accept_header-Accepted :
    (buf : Bytes) (pos : ℕ) (rest : List Bytes)
    → find_header_end buf ≡ some pos
    → Returns (λ r. Accepted (buf ++ flat rest) r.0 r.1) (accept_header buf pos rest)
unfolding accept_header
accept_header-Accepted buf pos rest found =
    let le : pos ≤ length buf = find_header_end-le buf pos found in
    let header : Bytes = take pos buf in
    let whole : pos - 0 ≡ pos = omega arith in
    rw (slice_le buf 0 pos (omega arith) le, whole)
      (Returns-guard _ (is_utf8 header) _ λ _.
        elim (Returns-cases _ (parse_connect_response header)
          (parse_connect_response-Returns header)) [
            | inl refused ↦ rw refused tt
            | inr (done, accepts, _) ↦ rw accepts (record {
              header = header;
              all_there =
                  ap (λ x. x ++ flat rest) (sym (take-append-drop pos buf))
                  ∙ append_assoc header (drop pos buf) (flat rest);
              head = take-IsHead header (drop pos buf) (
                  ap find_header_end (take-append-drop pos buf)
                  ∙ found
                  ∙ ap some (omega (arith, length-take pos buf)));
              accepted = accepts;
            })
          ])

-- In whatever pieces the bytes come, the reading loop ends without a panic, in one round more than its
-- buffer has room. If it succeeds, they begin with a head up to the first blank line, which
-- `parse_connect_response` accepts, and what it hands on and leaves in the stream is all the rest.
pub read_connect_response-Accepted :
    (f : ℕ) (buf : Bytes) (pieces : List Bytes)
    → max_response_size - length buf < f
    → Returns (λ r. Accepted (buf ++ flat pieces) r.0 r.1) (read_connect_response f buf pieces)
unfolding read_connect_response
read_connect_response-Accepted zero buf pieces h = absurd (omega arith)
read_connect_response-Accepted (suc f) buf pieces h =
    Returns-guard _ (ltb (length buf) max_response_size) _ λ room.
      let read = read_some (max_response_size - length buf) pieces in
      let chunk : Bytes = read.0 in
      let all : buf ++ flat pieces ≡ (buf ++ chunk) ++ flat read.1 =
        ap (λ x. buf ++ x) (read_some-flat (max_response_size - length buf) pieces)
        ∙ sym (append_assoc buf chunk (flat read.1)) in
      Returns-guard _ (not (length chunk == 0)) _ λ some_read.
        elim (Option-cases (find_header_end (buf ++ chunk))) [
          | inl absent ↦
              let grown : length (buf ++ chunk) ≡ length buf + length chunk =
                length-append buf chunk in
              let positive : 0 < length chunk = ground arith in
              rw (absent, all)
                (read_connect_response-Accepted f (buf ++ chunk) read.1
                  (omega (arith, ltb→lt (length buf) max_response_size room)))
          | inr (pos, found) ↦
              rw (found, all) (accept_header-Accepted (buf ++ chunk) pos read.1 found)
        ]

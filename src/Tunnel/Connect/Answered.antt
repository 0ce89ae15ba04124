-- ===== src/Tunnel/Connect/Answered.antt =====
-- The reading loop of src/tunnel.rs takes a reply that `parse_connect_response` accepts, in whatever
-- pieces it arrives.
use trans_proxy.Base.{
  ℕ, zero, suc, ◌+◌, ◌-◌, ◌≤◌, ◌<◌, ◌≡◌, inl, inr, refl, sym, ap, ◌∙◌, true, List, [], ◌∷◌, ◌++◌,
  arith, append_assoc, ltb, lt→ltb, not, ◌==◌, Bytes, length, take, drop, length-append,
  take-append, length-drop, ret, slice, slice_le, leb, leb→le, ltb→lt, Bool-cases, Option-cases,
  none, some,
}
use trans_proxy.Base.Utf8.{is_utf8}
use trans_proxy.Tunnel.Connect.{
  max_response_size, starts_blank_line, find_header_end, parse_connect_response, read_some,
  accept_header, read_connect_response,
}
use trans_proxy.Tunnel.Connect.Lossless.{
  flat, blank_line, IsHead, find-Found, find_header_end-le, read_some-flat,
}

starts-append :
    (b : ℕ) (xs ys : Bytes)
    → 3 ≤ length xs
    → starts_blank_line (b ∷ (xs ++ ys)) ≡ starts_blank_line (b ∷ xs)
unfolding starts_blank_line
starts-append b [] ys h = absurd (omega arith)
starts-append b (c ∷ []) ys h = absurd (omega arith)
starts-append b (c ∷ d ∷ []) ys h = absurd (omega arith)
starts-append b (c ∷ d ∷ e ∷ xs) ys h = refl

pub find-four_le : (xs : Bytes) (p : ℕ) → find_header_end xs ≡ some p → 4 ≤ p
find-four_le xs p h = omega (arith, (find-Found xs p h).place)

-- What is found stays found when more arrives.
find-append :
    (xs ys : Bytes) (p : ℕ) → find_header_end xs ≡ some p → find_header_end (xs ++ ys) ≡ some p
unfolding find_header_end
find-append [] ys p h = absurd (cc)
find-append (b ∷ xs) ys p h =
    let long : p ≤ suc (length xs) = find_header_end-le (b ∷ xs) p h in
    let same : starts_blank_line (b ∷ (xs ++ ys)) ≡ starts_blank_line (b ∷ xs) =
      starts-append b xs ys (omega (arith, long, find-four_le (b ∷ xs) p h)) in
    elim (Bool-cases (starts_blank_line (b ∷ xs))) [
      | inl here ↦ rw (same, here) (rw here at h)
      | inr later ↦ elim (Option-cases (find_header_end xs)) [
        | inl absent ↦ absurd (cc (rw (later, absent) at h))
        | inr (q, found) ↦ rw (same, later, find-append xs ys q found) (rw (later, found) at h)
      ]
    ]

-- What is found in all that arrives is found once it is there.
find-prefix :
    (xs ys : Bytes) (p : ℕ)
    → find_header_end (xs ++ ys) ≡ some p
    → p ≤ length xs
    → find_header_end xs ≡ some p
unfolding find_header_end
find-prefix [] ys p h le = absurd (omega (arith, find-four_le ys p h))
find-prefix (b ∷ xs) ys p h le =
    let same : starts_blank_line (b ∷ (xs ++ ys)) ≡ starts_blank_line (b ∷ xs) =
      starts-append b xs ys (omega (arith, le, find-four_le (b ∷ (xs ++ ys)) p h)) in
    elim (Bool-cases (starts_blank_line (b ∷ xs))) [
      | inl here ↦ rw here (rw (same, here) at h)
      | inr later ↦ elim (Option-cases (find_header_end (xs ++ ys))) [
        | inl absent ↦ absurd (cc (rw (same, later, absent) at h))
        | inr (q, found) ↦
            let next : some (suc q) ≡ some p = rw (same, later, found) at h in
            let is_p : suc q ≡ p = ground arith in
            rw (later, find-prefix xs ys q found (omega (arith, is_p, le))) next
      ]
    ]

find-total : (front rest : Bytes) → (p : ℕ) × (find_header_end (front ++ blank_line rest) ≡ some p)
unfolding find_header_end starts_blank_line
find-total [] rest = (4, refl)
find-total (x ∷ front) rest =
    let (q, found) = find-total front rest in
    elim (Bool-cases (starts_blank_line (x ∷ (front ++ blank_line rest)))) [
      | inl here ↦ (4, rw (find_header_end, here) refl)
      | inr later ↦ (suc q, rw (find_header_end, later, found) refl)
    ]

pub find-IsHead : (header : Bytes) → IsHead header → find_header_end header ≡ some (length header)
find-IsHead header (front, split, first) =
    let (p, in_front) = find-total front [] in
    let found : find_header_end header ≡ some p = ap find_header_end split ∙ in_front in
    let r = find-Found header p found in
    let le : p ≤ length header = find_header_end-le header p found in
    let size : length header ≡ length front + 4 =
      ap length split ∙ length-append front (blank_line []) in
    found ∙ ap some (omega (arith, le, size, r.place, first r.front r.rest r.split))

take-le : (n : ℕ) (xs ys : Bytes) → n ≤ length xs → take n (xs ++ ys) ≡ take n xs
take-le zero xs ys h = refl
take-le (suc n) [] ys h = absurd (omega arith)
take-le (suc n) (x ∷ xs) ys h = ap (λ zs. x ∷ zs) (take-le n xs ys (omega arith))

-- No read returns nothing while the stream is open.
abbrev pub NoneEmpty : List Bytes → Type 0
NoneEmpty [] = Unit
NoneEmpty (piece ∷ pieces) = (0 < length piece) × NoneEmpty pieces

read_some-NoneEmpty :
    (room : ℕ) (pieces : List Bytes) → NoneEmpty pieces → NoneEmpty (read_some room pieces).1
unfolding read_some
read_some-NoneEmpty room [] h = tt
read_some-NoneEmpty room (piece ∷ pieces) h = elim (Bool-cases (ltb room (length piece))) [
  | inl more ↦ rw more (omega (arith, ltb→lt room (length piece) more, length-drop room piece), h.1)
  | inr all ↦ rw all h.1
]

read_some-some :
    (room : ℕ) (piece : Bytes) (pieces : List Bytes)
    → 0 < room
    → 0 < length piece
    → 0 < length (read_some room (piece ∷ pieces)).0
unfolding read_some
read_some-some zero piece pieces space there = absurd (omega arith)
read_some-some (suc room) [] pieces space there = absurd (omega arith)
read_some-some (suc room) (b ∷ piece) pieces space there = omega arith

module _ (header rest : Bytes) (found : find_header_end header ≡ some (length header))
    (short : length header ≤ max_response_size) (text : is_utf8 header ≡ true)
    (accepted : parse_connect_response header ≡ ret tt) where
  accept_header-total :
      (buf later : Bytes) (pieces : List Bytes)
      → buf ++ later ≡ header ++ rest
      → length header ≤ length buf
      → (r : List Bytes × Bytes) × (accept_header buf (length header) pieces ≡ ret r)
  unfolding accept_header
  accept_header-total buf later pieces e le =
      let in_front : take (length header) buf ≡ header =
        sym (take-le (length header) buf later le)
        ∙ ap (take (length header)) e
        ∙ take-append header rest (length header) refl in
      let read : slice buf 0 (length header) ≡ ret header =
        slice_le buf 0 (length header) (omega arith) le
        ∙ ap (λ n. ret (take n buf)) (omega arith)
        ∙ ap ret in_front in
      ((pieces, drop (length header) buf), rw (read, text, accepted) refl)

  -- The loop succeeds if the accepted head begins the bytes and is not yet read whole.
  pub read_connect_response-total :
      (f : ℕ) (buf : Bytes) (pieces : List Bytes)
      → max_response_size - length buf < f
      → length buf < length header
      → buf ++ flat pieces ≡ header ++ rest
      → NoneEmpty pieces
      → (r : List Bytes × Bytes) × (read_connect_response f buf pieces ≡ ret r)
  unfolding read_connect_response
  read_connect_response-total zero buf pieces fuel le e some_there = absurd (omega arith)
  read_connect_response-total (suc f) buf [] fuel le e some_there =
      absurd (omega (arith, ap length e, length-append header rest, length-append buf []))
  read_connect_response-total (suc f) buf (piece ∷ pieces) fuel le e some_there =
      let room : ℕ = max_response_size - length buf in
      let read = read_some room (piece ∷ pieces) in
      let chunk : Bytes = read.0 in
      let space : ltb (length buf) max_response_size ≡ true = lt→ltb _ _ (omega (arith, short)) in
      let positive : 0 < length chunk =
        read_some-some room piece pieces (omega (arith, short)) some_there.0 in
      let not_closed : not (length chunk == 0) ≡ true = ground (arith, positive) in
      let all : (buf ++ chunk) ++ flat read.1 ≡ header ++ rest =
        append_assoc buf chunk (flat read.1)
        ∙ ap (λ x. buf ++ x) (sym (read_some-flat room (piece ∷ pieces)))
        ∙ e in
      let in_all : find_header_end ((buf ++ chunk) ++ flat read.1) ≡ some (length header) =
        ap find_header_end all ∙ find-append header rest (length header) found in
      elim (Bool-cases (leb (length header) (length (buf ++ chunk)))) [
        | inl there ↦
            let whole : length header ≤ length (buf ++ chunk) = leb→le _ _ there in
            let now : find_header_end (buf ++ chunk) ≡ some (length header) =
              find-prefix (buf ++ chunk) (flat read.1) (length header) in_all whole in
            rw (space, not_closed, now)
              (accept_header-total (buf ++ chunk) (flat read.1) read.1 all whole)
        | inr not_yet ↦
            let part : length (buf ++ chunk) < length header = ground arith in
            let absent : find_header_end (buf ++ chunk) ≡ none =
              not_found (buf ++ chunk) (flat read.1) in_all part in
            rw (space, not_closed, absent)
              (read_connect_response-total f (buf ++ chunk) read.1
                (omega (arith, length-append buf chunk, positive, le, short)) part all
                (read_some-NoneEmpty room (piece ∷ pieces) some_there))
      ]
    where
      not_found :
          (xs ys : Bytes)
          → find_header_end (xs ++ ys) ≡ some (length header)
          → length xs < length header
          → find_header_end xs ≡ none
      not_found xs ys h part = elim (Option-cases (find_header_end xs)) [
        | inl absent ↦ absent
        | inr (q, early) ↦
            let same : some q ≡ some (length header) = sym (find-append xs ys q early) ∙ h in
            let is_q : q ≡ length header = ground arith in
            absurd (omega (arith, is_q, part, find_header_end-le xs q early))
      ]

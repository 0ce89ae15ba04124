-- ===== src/Sni/Arrival.antt =====
-- `extract_sni` of src/sni.rs, when a ClientHello arrives in pieces.
use trans_proxy.Base.{
  ℕ, zero, suc, ◌+◌, ◌≤◌, ◌<◌, ◌≡◌, refl, ap, ◌∙◌, true, ◌∷◌, ◌++◌, arith, le→leb, min, Bytes,
  length, take, u16_bytes, length-append, length-take, ret, byte-drop, Option, some,
}
use trans_proxy.Base.{be16-drop, lt→leb-false}
use trans_proxy.Sni.{is_buffered, extract_sni}
use trans_proxy.Sni.Hello.{ClientHello, IsHello, encode_body, encode_hello}
use trans_proxy.Sni.Read.{parse_sni-hello}
use trans_proxy.Sni.Peek.{IsPartial, peek_loop-waits}

-- The size of the record.
abbrev pub hello_size : ClientHello → ℕ
hello_size h = 5 + length (encode_body h)

-- A record cut short, but not to nothing, keeps the loop waiting.
take-IsPartial :
    (h : ClientHello) (r : Bytes) (n : ℕ)
    → IsHello h
    → hello_size h ≤ 4096
    → 0 < n
    → n < hello_size h
    → IsPartial (take n (encode_hello h r))
unfolding encode_hello is_buffered
take-IsPartial h r zero valid cap pos lt = absurd (omega arith)
take-IsPartial h r (suc zero) valid cap pos lt = record {
  handshake = byte-drop _ 0 0x16 _ refl;
  not_empty = omega arith;
  waits = refl;
}
take-IsPartial h r (suc (suc zero)) valid cap pos lt = record {
  handshake = byte-drop _ 0 0x16 _ refl;
  not_empty = omega arith;
  waits = refl;
}
take-IsPartial h r (suc (suc (suc zero))) valid cap pos lt = record {
  handshake = byte-drop _ 0 0x16 _ refl;
  not_empty = omega arith;
  waits = refl;
}
take-IsPartial h r (suc (suc (suc (suc zero)))) valid cap pos lt = record {
  handshake = byte-drop _ 0 0x16 _ refl;
  not_empty = omega arith;
  waits = refl;
}
take-IsPartial h r (suc (suc (suc (suc (suc k))))) valid cap pos lt =
    let n : ℕ = length (encode_body h) in
    let body : Bytes = take k (encode_body h ++ r) in
    let buf : Bytes = 0x16 ∷ h.version_high ∷ h.version_low ∷ (u16_bytes n ++ body) in
    record {
      handshake = byte-drop buf 0 0x16 _ refl;
      not_empty = omega arith;
      waits = rw (
        le→leb 5 (length buf) (omega arith),
        be16-drop buf 3 n body valid.size refl,
        lt→leb-false (min (5 + n) 4096) (length buf)
            (omega (arith, length-take k (encode_body h ++ r))),
      );
    }

-- The whole record, and what follows it, ends the waiting.
whole-is_buffered :
    (h : ClientHello) (r : Bytes) → IsHello h → is_buffered (encode_hello h r) ≡ ret true
unfolding encode_hello is_buffered
whole-is_buffered h r valid =
    let n : ℕ = length (encode_body h) in
    let buf : Bytes =
      0x16 ∷ h.version_high ∷ h.version_low ∷ (u16_bytes n ++ (encode_body h ++ r)) in
    rw (
      le→leb 5 (length buf) (omega arith),
      be16-drop buf 3 n (encode_body h ++ r) valid.size refl,
      le→leb (min (5 + n) 4096) (length buf) (omega (arith, length-append (encode_body h) r)),
    )

length-encode_hello : (h : ClientHello) (r : Bytes) → 0 < length (encode_hello h r)
unfolding encode_hello
length-encode_hello h r = omega arith

-- A well-formed ClientHello of at most 4096 bytes that arrives in pieces: as long as the first
-- peeks, up to nineteen, return a part of it that is not empty, and the next one returns the
-- whole of it, `extract_sni` returns its host name.
pub extract_sni-hello :
    (peek : ℕ → Option Bytes) (size : ℕ → ℕ) (wait : ℕ) (h : ClientHello) (r : Bytes)
    → IsHello h
    → hello_size h ≤ 4096
    → wait ≤ 19
    → ((j : ℕ)
        → j < wait
        → (0 < size j)
          × (size j < hello_size h)
          × (peek j ≡ some (take (size j) (encode_hello h r))))
    → peek wait ≡ some (encode_hello h r)
    → extract_sni peek ≡ ret (some h.host)
unfolding extract_sni
extract_sni-hello peek size wait h r valid cap le parts whole =
    peek_loop-waits peek wait 0 19 (encode_hello h r)
      (λ j lt.
        let (pos, small, found) = parts j lt in
        (
          take (size j) (encode_hello h r),
          ap peek (omega arith) ∙ found,
          take-IsPartial h r (size j) valid cap pos small,
        ))
      le (ap peek (omega arith) ∙ whole)
      (unfold encode_hello in byte-drop (encode_hello h r) 0 0x16 _ refl) (length-encode_hello h r)
      (whole-is_buffered h r valid)
    ∙ rw (parse_sni-hello h r valid)

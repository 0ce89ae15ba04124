-- ===== src/Sni/Read.antt =====
-- `parse_sni_from_client_hello` of src/sni.rs on a well-formed ClientHello.
use trans_proxy.Base.{
  ℕ, ◌+◌, ◌-◌, ◌≤◌, ◌<◌, ◌≡◌, refl, sym, ap, ◌∙◌, ◌∷◌, ◌++◌, arith, append_assoc, le→leb, min,
  Bytes, length, drop, u16_bytes, length-append, drop_past, drop-append, ret, byte-drop,
}
use trans_proxy.Base.{be16-drop, u16_limit}
use trans_proxy.Sni.{parse_session, parse_sni_from_client_hello}
use trans_proxy.Sni.Hello.{
  ClientHello, IsHello, encode_extensions, encode_session, encode_body, encode_hello,
  parse_extensions-host,
}

parse_session-host :
    (h : ClientHello) (d : Bytes) (pos end : ℕ) (r : Bytes)
    → IsHello h
    → length (encode_session h) < u16_limit
    → pos + length (encode_session h) ≡ end
    → end ≤ length d
    → drop pos d ≡ encode_session h ++ r
    → parse_session d end pos ≡ ret h.host
unfolding parse_session encode_session
parse_session-host h d pos end r valid small room le at =
    let s : ℕ = length h.session_id in
    let c : ℕ = length h.cipher_suites in
    let k : ℕ = length h.compression in
    let n : ℕ = length (encode_extensions h) in
    let tail₃ : Bytes = u16_bytes n ++ (encode_extensions h ++ r) in
    let tail₂ : Bytes = k ∷ (h.compression ++ tail₃) in
    let tail₁ : Bytes = u16_bytes c ++ (h.cipher_suites ++ tail₂) in
    let inner₃ : Bytes = u16_bytes n ++ encode_extensions h in
    let inner₂ : Bytes = k ∷ (h.compression ++ inner₃) in
    let inner₁ : Bytes = u16_bytes c ++ (h.cipher_suites ++ inner₂) in
    let size : length (s ∷ (h.session_id ++ inner₁)) ≡ 1 + s + 2 + c + 1 + k + 2 + n = omega (
      arith,
      length-append h.session_id inner₁,
      length-append h.cipher_suites inner₂,
      length-append h.compression inner₃,
    ) in
    let here : drop pos d ≡ s ∷ (h.session_id ++ tail₁) =
      at
      ∙ ap (◌∷◌ s) (
          append_assoc h.session_id inner₁ r
          ∙ ap (λ x. h.session_id ++ (u16_bytes c ++ x))
              (append_assoc h.cipher_suites inner₂ r
                ∙ ap (λ x. h.cipher_suites ++ (k ∷ x)) (append_assoc h.compression inner₃ r))) in
    let at₁ = drop_past d pos (pos + 1 + s) (s ∷ h.session_id) tail₁ here (omega arith) in
    let at₂ =
      drop_past d (pos + 1 + s) (pos + 1 + s + 2 + c) (u16_bytes c ++ h.cipher_suites) tail₂ at₁
        (omega arith) in
    let at₃ =
      drop_past d (pos + 1 + s + 2 + c) (pos + 1 + s + 2 + c + 1 + k) (k ∷ h.compression) tail₃ at₂
        (omega arith) in
    rw
      (
        le→leb (pos + 1) end (omega arith),
        byte-drop d pos s _ here,
        le→leb (pos + 1 + s + 2) end (omega arith),
        be16-drop d (pos + 1 + s) c _ (omega arith) at₁,
        le→leb (pos + 1 + s + 2 + c + 1) end (omega arith),
        byte-drop d (pos + 1 + s + 2 + c) k _ at₂,
      )
      (parse_extensions-host h d (pos + 1 + s + 2 + c + 1 + k) end r valid (omega arith)
        (omega arith) le at₃)

-- The host name of a well-formed ClientHello is read back, whatever the lengths of its session
-- id, cipher suites and compression methods, whatever extensions stand in front of server_name,
-- and whatever follows it or follows the record.
pub parse_sni-hello :
    (h : ClientHello) (r : Bytes)
    → IsHello h
    → parse_sni_from_client_hello (encode_hello h r) ≡ ret h.host
unfolding parse_sni_from_client_hello encode_hello encode_body
parse_sni-hello h r valid =
    let body : Bytes =
      1 ∷ h.size_high ∷ h.size_middle ∷ h.size_low ∷ (h.version_and_random ++ encode_session h) in
    let d : Bytes =
      0x16 ∷ h.version_high ∷ h.version_low ∷ (u16_bytes (length body) ++ (body ++ r)) in
    let n : ℕ = length body in
    let total : length (body ++ r) ≡ n + length r = length-append body r in
    let size : n ≡ 38 + length (encode_session h) =
      omega (arith, length-append h.version_and_random (encode_session h), valid.random) in
    let stops : 5 + min n (length d - 5) ≡ 5 + n = omega arith in
    let at : drop 43 d ≡ encode_session h ++ r =
      ap (drop 34) (append_assoc h.version_and_random (encode_session h) r)
      ∙ drop-append h.version_and_random (encode_session h ++ r) 34 (sym valid.random) in
    rw
      (
        le→leb 5 (length d) (omega arith),
        byte-drop d 0 0x16 _ refl,
        be16-drop d 3 n (body ++ r) valid.size refl,
        stops,
        le→leb 9 (5 + n) (omega arith),
        byte-drop d 5 1 _ refl,
        le→leb 43 (5 + n) (omega arith),
      )
      (parse_session-host h d 43 (5 + n) r valid (omega (arith, valid.size)) (omega arith)
        (omega arith) at)

-- ===== src/Sni/Hello.antt =====
-- A well-formed ClientHello, and what the parsers of src/sni.rs read in it. The encoder is the
-- specification of the format (RFC 8446, 4.1.2, and RFC 6066, 3), not code of the program.
use trans_proxy.Base.{
  ℕ, zero, suc, ◌+◌, ◌-◌, ◌≤◌, ◌<◌, ◌≡◌, refl, sym, ap, ◌∙◌, true, false, List, [], ◌∷◌, ◌++◌,
  arith, append_assoc, ltb, le→leb, ne→==-false, min, Bytes, length, drop, take, u16_bytes,
  length-append, drop_past, take-append, ret, byte, slice_le,
}
use trans_proxy.Base.{be16-drop, u16_limit}
use trans_proxy.Base.Utf8.{is_utf8}
use trans_proxy.Sni.{
  host_at, names_loop, parse_sni_extension, sni_at, extensions_loop, parse_extensions,
}

pub record Extension : Type 0 where
  pub ext_type : ℕ
  pub payload : Bytes

-- The extensions are those in front of server_name, server_name itself, which starts with the
-- host name, and the bytes of all that follow.
pub record ClientHello : Type 0 where
  pub version_high : ℕ
  pub version_low : ℕ
  pub size_high : ℕ
  pub size_middle : ℕ
  pub size_low : ℕ
  pub version_and_random : Bytes
  pub session_id : Bytes
  pub cipher_suites : Bytes
  pub compression : Bytes
  pub before : List Extension
  pub host : Bytes
  pub more_names : Bytes
  pub after : Bytes

-- The entry of the host name and those behind it.
unfoldable pub encode_names : ClientHello → Bytes
encode_names h = 0 ∷ (u16_bytes (length h.host) ++ (h.host ++ h.more_names))

unfoldable pub encode_server_name : ClientHello → Bytes
encode_server_name h = u16_bytes (length (encode_names h)) ++ encode_names h

abbrev pub encode_before : List Extension → Bytes → Bytes
encode_before [] r = r
encode_before (x ∷ xs) r =
    u16_bytes x.ext_type ++ (u16_bytes (length x.payload) ++ (x.payload ++ encode_before xs r))

-- The server_name extension and what follows.
abbrev pub encode_server_names : ClientHello → Bytes → Bytes
encode_server_names h r =
    u16_bytes 0 ++ (u16_bytes (length (encode_server_name h)) ++ (encode_server_name h ++ r))

unfoldable pub encode_extensions : ClientHello → Bytes
encode_extensions h = encode_before h.before (encode_server_names h h.after)

unfoldable pub encode_session : ClientHello → Bytes
encode_session h =
    length h.session_id
    ∷ (h.session_id
        ++ (u16_bytes (length h.cipher_suites)
            ++ (h.cipher_suites
                ++ (length h.compression
                    ∷ (h.compression
                        ++ (u16_bytes (length (encode_extensions h)) ++ encode_extensions h))))))

unfoldable pub encode_body : ClientHello → Bytes
encode_body h =
    1 ∷ h.size_high ∷ h.size_middle ∷ h.size_low ∷ (h.version_and_random ++ encode_session h)

-- The whole record, and bytes that follow it.
unfoldable pub encode_hello : ClientHello → Bytes → Bytes
encode_hello h r =
    0x16
    ∷ h.version_high
    ∷ h.version_low
    ∷ (u16_bytes (length (encode_body h)) ++ (encode_body h ++ r))

-- No extension in front of server_name has its type, and every type and length has its field.
abbrev pub IsBefore : List Extension → Type 0
IsBefore [] = Unit
IsBefore (x ∷ xs) =
    (0 < x.ext_type) × (x.ext_type < u16_limit) × (length x.payload < u16_limit) × IsBefore xs

pub record IsHello (h : ClientHello) : Type 0 where
  pub random : length h.version_and_random ≡ 34
  pub session : length h.session_id < 256
  pub compression : length h.compression < 256
  pub before : IsBefore h.before
  pub host : is_utf8 h.host ≡ true
  pub size : length (encode_body h) < u16_limit

-- The extension, as its payload.
parse_sni_extension-host :
    (h : ClientHello)
    → is_utf8 h.host ≡ true
    → length (encode_server_name h) < u16_limit
    → parse_sni_extension (encode_server_name h) ≡ ret h.host
unfolding parse_sni_extension names_loop host_at encode_server_name encode_names byte
parse_sni_extension-host h utf8 small =
    let n : ℕ = length h.host in
    let names : Bytes = 0 ∷ (u16_bytes n ++ (h.host ++ h.more_names)) in
    let p : Bytes = u16_bytes (length names) ++ names in
    let total : length (h.host ++ h.more_names) ≡ n + length h.more_names =
      length-append h.host h.more_names in
    let cut : take (5 + n - 5) (h.host ++ h.more_names) ≡ h.host =
      take-append h.host h.more_names (5 + n - 5) (omega arith) in
    let all : 2 + min (length names) (length p - 2) ≡ 5 + (n + length h.more_names) = omega arith in
    let within : 5 + n ≤ length p = omega arith in
    let long : ltb (length p) 2 ≡ false = ground arith in
    rw (
      long,
      be16-drop p 0 (length names) names (omega arith) refl,
      all,
      le→leb 5 (5 + (n + length h.more_names)) (omega arith),
      be16-drop p 3 n (h.host ++ h.more_names) (omega arith) refl,
      le→leb (5 + n) (5 + (n + length h.more_names)) (omega arith),
      slice_le p 5 (5 + n) (omega arith) within,
      cut,
      utf8,
    )

-- The loop, at the server_name extension.
server_name-host :
    (h : ClientHello) (f : ℕ) (d : Bytes) (pos end : ℕ) (r : Bytes)
    → is_utf8 h.host ≡ true
    → length (encode_server_name h) < u16_limit
    → pos + 4 + length (encode_server_name h) ≤ end
    → end ≤ length d
    → drop pos d ≡ encode_server_names h r
    → extensions_loop (suc f) d pos end ≡ ret h.host
unfolding extensions_loop sni_at
server_name-host h f d pos end r utf8 small room le at =
    let sn : Bytes = encode_server_name h in
    let stop : ℕ = pos + 4 + length sn in
    let behind : drop (pos + 4) d ≡ sn ++ r =
      drop_past d pos (pos + 4) (u16_bytes 0 ++ u16_bytes (length sn)) (sn ++ r) at (omega arith) in
    let cut : take (stop - (pos + 4)) (drop (pos + 4) d) ≡ sn =
      ap (take (stop - (pos + 4))) behind ∙ take-append sn r (stop - (pos + 4)) (omega arith) in
    let stops : pos + 4 + min (length sn) (end - (pos + 4)) ≡ stop = omega arith in
    rw
      (
        le→leb (pos + 4) end (omega arith),
        be16-drop d pos 0 _ (omega arith) at,
        be16-drop d (pos + 2) (length sn) (sn ++ r) small
            (drop_past d pos (pos + 2) (u16_bytes 0) _ at (omega arith)),
        stops,
        slice_le d (pos + 4) stop (omega arith) (omega arith),
        cut,
      )
      (parse_sni_extension-host h utf8 small)

-- The loop walks over the extensions in front.
extensions_loop-host :
    (xs : List Extension) (h : ClientHello) (f : ℕ) (d : Bytes) (pos end : ℕ) (r : Bytes)
    → is_utf8 h.host ≡ true
    → length (encode_server_name h) < u16_limit
    → IsBefore xs
    → length xs < f
    → pos + length (encode_before xs (encode_server_names h [])) ≤ end
    → end ≤ length d
    → drop pos d ≡ encode_before xs (encode_server_names h r)
    → extensions_loop f d pos end ≡ ret h.host
unfolding extensions_loop
extensions_loop-host xs h zero d pos end r utf8 small before lt room le at = absurd (omega arith)
extensions_loop-host [] h (suc f) d pos end r utf8 small before lt room le at =
    server_name-host h f d pos end r utf8 small
      (omega (arith, length-append (encode_server_name h) [])) le at
extensions_loop-host (x ∷ xs) h (suc f) d pos end r utf8 small
      (type_pos, type_small, len_small, before) lt room le at =
    let n : ℕ = length x.payload in
    let more : Bytes = encode_before xs (encode_server_names h r) in
    let rest : Bytes = encode_before xs (encode_server_names h []) in
    let behind : drop (pos + 4 + n) d ≡ more =
      drop_past d pos (pos + 4 + n) (u16_bytes x.ext_type ++ (u16_bytes n ++ x.payload)) more at
        (omega arith) in
    rw
      (
        le→leb (pos + 4) end (omega arith),
        be16-drop d pos x.ext_type _ type_small at,
        be16-drop d (pos + 2) n _ len_small
            (drop_past d pos (pos + 2) (u16_bytes x.ext_type) _ at (omega arith)),
        ne→==-false x.ext_type 0 (omega arith),
      )
      (extensions_loop-host xs h f d (pos + 4 + n) end r utf8 small before (omega arith)
        (omega (arith, length-append x.payload rest)) le behind)

encode_before-append :
    (xs : List Extension) (h : ClientHello) (r t : Bytes)
    → encode_before xs (encode_server_names h r) ++ t
      ≡ encode_before xs (encode_server_names h (r ++ t))
encode_before-append [] h r t =
    ap (λ s. u16_bytes 0 ++ (u16_bytes (length (encode_server_name h)) ++ s))
      (append_assoc (encode_server_name h) r t)
encode_before-append (x ∷ xs) h r t =
    ap (λ s. u16_bytes x.ext_type ++ (u16_bytes (length x.payload) ++ s))
      (append_assoc x.payload _ t ∙ ap (λ s. x.payload ++ s) (encode_before-append xs h r t))

length-encode_before :
    (xs : List Extension) (h : ClientHello) (r : Bytes)
    → length (encode_before xs (encode_server_names h r))
      ≡ length (encode_before xs (encode_server_names h [])) + length r
length-encode_before xs h r =
    ap length (sym (encode_before-append xs h [] r))
    ∙ length-append (encode_before xs (encode_server_names h [])) r

length-server_name :
    (xs : List Extension) (h : ClientHello)
    → length xs + length (encode_server_name h)
      ≤ length (encode_before xs (encode_server_names h []))
length-server_name [] h = omega (arith, length-append (encode_server_name h) [])
length-server_name (x ∷ xs) h = omega (
  arith,
  length-server_name xs h,
  length-append x.payload (encode_before xs (encode_server_names h [])),
)

pub parse_extensions-host :
    (h : ClientHello) (d : Bytes) (pos end : ℕ) (r : Bytes)
    → IsHello h
    → length (encode_extensions h) < u16_limit
    → pos + 2 + length (encode_extensions h) ≡ end
    → end ≤ length d
    → drop pos d ≡ u16_bytes (length (encode_extensions h)) ++ (encode_extensions h ++ r)
    → parse_extensions d end pos ≡ ret h.host
unfolding parse_extensions
parse_extensions-host h d pos end r valid small room le at =
    let xs : List Extension = h.before in
    let n : ℕ = length (encode_extensions h) in
    let is_n : n ≡ length (encode_before xs (encode_server_names h h.after)) =
      unfold encode_extensions in refl in
    let stops : pos + 2 + min n (end - (pos + 2)) ≡ end = omega arith in
    let behind : drop (pos + 2) d ≡ encode_before xs (encode_server_names h (h.after ++ r)) =
      drop_past d pos (pos + 2) (u16_bytes n) (encode_extensions h ++ r) at (omega arith)
      ∙ (unfold encode_extensions in encode_before-append xs h h.after r) in
    rw
      (
        le→leb (pos + 2) end (omega arith),
        be16-drop d pos n (encode_extensions h ++ r) small at,
        stops,
      )
      (extensions_loop-host xs h (suc (length d)) d (pos + 2) end (h.after ++ r) valid.host
        (omega (arith, length-server_name xs h, length-encode_before xs h h.after)) valid.before
        (omega (arith, length-server_name xs h, length-encode_before xs h h.after))
        (omega (arith, length-encode_before xs h h.after)) le behind)

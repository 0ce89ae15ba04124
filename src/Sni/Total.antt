-- ===== src/Sni/Total.antt =====
-- The parsers of src/sni.rs end on any bytes and index none outside them.
use trans_proxy.Base.{
  ℕ, zero, suc, ◌+◌, ◌-◌, ◌≤◌, ◌<◌, ◌≡◌, sym, ap, ◌∙◌, true, ◌&&◌, ◌++◌, arith, append_assoc, ltb,
  leb, ◌==◌, min, Bytes, length, drop, take, take-append-drop, slice_le, Returns, both_true, leb→le,
}
use trans_proxy.Base.{Returns-mono, Returns-guard, Returns-byte, Returns-be16, Returns-if}
use trans_proxy.Base.Utf8.{is_utf8}
use trans_proxy.Sni.{
  host_at, names_loop, parse_sni_extension, sni_at, extensions_loop, parse_extensions,
  parse_session, parse_sni_from_client_hello, tls_ext_server_name,
}

-- A host name that is read is valid UTF-8 and stands in the data.
pub record HostIn (d host : Bytes) : Type 0 where
  pub utf8 : is_utf8 host ≡ true
  pub before : Bytes
  pub after : Bytes
  pub found : d ≡ before ++ (host ++ after)

slice-HostIn :
    (d : Bytes) (from to : ℕ) → from ≤ to → to ≤ length d → Returns (HostIn d) (host_at d from to)
unfolding host_at
slice-HostIn d from to le lt =
    let name : Bytes = take (to - from) (drop from d) in
    rw (slice_le d from to le lt) (
      Returns-guard _ (is_utf8 name) _ λ utf8. record {
        utf8 = utf8;
        before = take from d;
        after = drop (to - from) (drop from d);
        found = sym (
            ap (λ s. take from d ++ s) (take-append-drop (to - from) (drop from d))
            ∙ take-append-drop from d);
      })

names_loop-Returns :
    (f : ℕ) (d : Bytes) (pos end : ℕ)
    → end ≤ length d
    → end - pos < f
    → Returns (HostIn d) (names_loop f d pos end)
unfolding names_loop
names_loop-Returns zero d pos end le h = absurd (omega arith)
names_loop-Returns (suc f) d pos end le h = Returns-guard _ (leb (pos + 3) end) _ λ room.
    let room' = leb→le _ _ room in
    Returns-byte _ d pos _ (omega arith) λ name_type.
      Returns-be16 _ d (pos + 1) _ (omega arith) λ name_len.
        Returns-if _ (name_type == 0 && leb (pos + 3 + name_len) end) _ _
          (λ here. slice-HostIn d (pos + 3) (pos + 3 + name_len) (omega arith) (
            omega (
              arith,
              leb→le (pos + 3 + name_len) end
                  (both_true (name_type == 0) (leb (pos + 3 + name_len) end) here).1,
            )))
          λ _. names_loop-Returns f d (pos + 3 + name_len) end le (omega arith)

parse_sni_extension-Returns : (d : Bytes) → Returns (HostIn d) (parse_sni_extension d)
unfolding parse_sni_extension
parse_sni_extension-Returns d =
    Returns-if _ (ltb (length d) 2) _ _ (λ _. tt)
      λ long.
        let long' : 2 ≤ length d = ground arith in
        Returns-be16 _ d 0 _ (omega arith)
          λ list_len. names_loop-Returns (suc (length d)) d 2 _ (omega arith) (omega arith)

sni_at-Returns :
    (d : Bytes) (from to : ℕ) → from ≤ to → to ≤ length d → Returns (HostIn d) (sni_at d from to)
unfolding sni_at
sni_at-Returns d from to le lt =
    let payload : Bytes = take (to - from) (drop from d) in
    let behind : Bytes = drop (to - from) (drop from d) in
    rw (slice_le d from to le lt) (
      Returns-mono (HostIn payload) (HostIn d) (parse_sni_extension payload)
        (parse_sni_extension-Returns payload)
        λ host h. record {
          utf8 = h.utf8;
          before = take from d ++ h.before;
          after = h.after ++ drop (to - from) (drop from d);
          found =
              sym (take-append-drop from d)
              ∙ ap (λ s. take from d ++ s)
                  (sym (take-append-drop (to - from) (drop from d))
                    ∙ ap (λ s. s ++ behind) h.found
                    ∙ append_assoc h.before (host ++ h.after) behind
                    ∙ ap (λ s. h.before ++ s) (append_assoc host h.after behind))
              ∙ sym (append_assoc (take from d) h.before (host ++ (h.after ++ behind)));
        })

extensions_loop-Returns :
    (f : ℕ) (d : Bytes) (pos end : ℕ)
    → end ≤ length d
    → end - pos < f
    → Returns (HostIn d) (extensions_loop f d pos end)
unfolding extensions_loop
extensions_loop-Returns zero d pos end le h = absurd (omega arith)
extensions_loop-Returns (suc f) d pos end le h = Returns-guard _ (leb (pos + 4) end) _ λ room.
    let room' = leb→le _ _ room in
    Returns-be16 _ d pos _ (omega arith) λ ext_type.
      Returns-be16 _ d (pos + 2) _ (omega arith) λ ext_len.
        Returns-if _ (ext_type == tls_ext_server_name) _ _
          (λ _. sni_at-Returns d (pos + 4) _ (omega arith) (omega arith))
          λ _. extensions_loop-Returns f d (pos + 4 + ext_len) end le (omega arith)

parse_extensions-Returns :
    (d : Bytes) (record_end pos : ℕ)
    → record_end ≤ length d
    → Returns (HostIn d) (parse_extensions d record_end pos)
unfolding parse_extensions
parse_extensions-Returns d record_end pos le = Returns-guard _ (leb (pos + 2) record_end) _ λ room.
    let room' = leb→le _ _ room in
    Returns-be16 _ d pos _ (omega arith) λ extensions_len.
      extensions_loop-Returns (suc (length d)) d (pos + 2) _ (omega arith) (omega arith)

parse_session-Returns :
    (d : Bytes) (record_end pos : ℕ)
    → record_end ≤ length d
    → Returns (HostIn d) (parse_session d record_end pos)
unfolding parse_session
parse_session-Returns d record_end pos le = Returns-guard _ (leb (pos + 1) record_end) _ λ room₁.
    let room₁' = leb→le _ _ room₁ in
    Returns-byte _ d pos _ (omega arith) λ session_id_len.
      Returns-guard _ (leb (pos + 1 + session_id_len + 2) record_end) _ λ room₂.
        let room₂' = leb→le _ _ room₂ in
        Returns-be16 _ d (pos + 1 + session_id_len) _ (omega arith) λ cipher_suites_len.
          Returns-guard _ (leb (pos + 1 + session_id_len + 2 + cipher_suites_len + 1) record_end) _
            λ room₃.
              let room₃' = leb→le _ _ room₃ in
              Returns-byte _ d (pos + 1 + session_id_len + 2 + cipher_suites_len) _ (omega arith)
                λ compression_len. parse_extensions-Returns d record_end _ le

-- Whatever a client sends, the parser ends, indexes no byte outside the data, and a host name
-- that it returns is valid UTF-8 and stands in the data.
pub parse_sni-HostIn : (d : Bytes) → Returns (HostIn d) (parse_sni_from_client_hello d)
unfolding parse_sni_from_client_hello
parse_sni-HostIn d = Returns-guard _ (leb 5 (length d)) _ λ long.
    let long' = leb→le 5 _ long in
    Returns-byte _ d 0 _ (omega arith) λ record_type. Returns-guard _ (record_type == 0x16) _ λ _.
      Returns-be16 _ d 3 _ (omega arith) λ record_len.
        Returns-guard _ (leb 9 (5 + min record_len (length d - 5))) _ λ room.
          let room' = leb→le 9 _ room in
          Returns-byte _ d 5 _ (omega arith) λ handshake_type.
            Returns-guard _ (handshake_type == 1) _ λ _.
              Returns-guard _ (leb 43 (5 + min record_len (length d - 5))) _
                λ _. parse_session-Returns d _ 43 (omega arith)

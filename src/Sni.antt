-- ===== src/Sni.antt =====
-- src/sni.rs: the host name of a TLS ClientHello, and the loop that waits for the whole of it.
-- `Ok(None)` of the parsers is `fail`. The loops of the source run on fuel, one more than the
-- bytes of the data, which is enough: every turn moves at least three bytes forward.
pub mod Hello
pub mod Arrival
pub mod Peek
pub mod Read
pub mod Total
use trans_proxy.Base.{
  ℕ, zero, suc, ◌+◌, ◌-◌, ◌*◌, ◌≤◌, ◌<◌, ◌≡◌, ◌≢◌, ◌⊎◌, inl, inr, refl, sym, ap, ◌∙◌, true, false,
  Bool, not, ◌&&◌, ◌||◌, List, [], ◌∷◌, ◌++◌, map, arith, append_assoc, append-nil, ltb, leb,
  le→leb, ◌==◌, lt→ltb, ne→==-false, ==_refl, ◌/◌, ◌%◌, max, min, bit_and, bit_or, Bytes, length,
  drop, take, replicate, u16_bytes, u32_bytes, length-append, length-take, length-drop,
  length_from_drop, drop_past, take-append, drop-append, take-append-drop, Run, ret, fail, panic,
  spin, ◌>>=◌, ◌>>◌, guard, attempt, lift, unwrap_or, byte, slice, slice_le, byte-drop, be16, be32,
  overwrite, if◌then◌else◌, Bool-cases, Option, none, some, Returns, Returns-cases, overwrite_le,
  unwrap_or-Returns, be16_lt, byte_lt, Gives, ltb→lt, leb→le,
}
use trans_proxy.Base.Utf8.{is_utf8}

abbrev pub max_client_hello : ℕ
max_client_hello = 4096

abbrev pub max_peek_attempts : ℕ
max_peek_attempts = 20

abbrev pub tls_record_handshake : ℕ
tls_record_handshake = 0x16

abbrev pub tls_handshake_client_hello : ℕ
tls_handshake_client_hello = 0x01

abbrev pub tls_ext_server_name : ℕ
tls_ext_server_name = 0x0000

abbrev pub sni_host_name_type : ℕ
sni_host_name_type = 0x00

-- `data[pos..pos + name_len]` as a string.
unfoldable pub host_at : Bytes → ℕ → ℕ → Run Bytes
host_at d from to = do name ← slice d from to; guard (is_utf8 name); ret name

-- The loop of `parse_sni_extension` over the entries of the server name list.
unfoldable pub names_loop : ℕ → Bytes → ℕ → ℕ → Run Bytes
names_loop zero d pos end = spin
names_loop (suc f) d pos end = do
  guard (leb (pos + 3) end)
  name_type ← byte d pos
  name_len ← be16 d (pos + 1)
  let rest = names_loop f d (pos + 3 + name_len) end
  if name_type == sni_host_name_type && leb (pos + 3 + name_len) end
      then host_at d (pos + 3) (pos + 3 + name_len)
      else rest

unfoldable pub parse_sni_extension : Bytes → Run Bytes
parse_sni_extension d =
    let read = do
      list_len ← be16 d 0
      names_loop (suc (length d)) d 2 (2 + min list_len (length d - 2))
    in if ltb (length d) 2 then fail else read

-- `parse_sni_extension(&data[pos..pos + ext_len.min(extensions_end - pos)])`.
unfoldable pub sni_at : Bytes → ℕ → ℕ → Run Bytes
sni_at d from to = do payload ← slice d from to; parse_sni_extension payload

-- The loop of `parse_sni_from_client_hello` over the extensions.
unfoldable pub extensions_loop : ℕ → Bytes → ℕ → ℕ → Run Bytes
extensions_loop zero d pos end = spin
extensions_loop (suc f) d pos end = do
  guard (leb (pos + 4) end)
  ext_type ← be16 d pos
  ext_len ← be16 d (pos + 2)
  let rest = extensions_loop f d (pos + 4 + ext_len) end
  if ext_type == tls_ext_server_name
      then sni_at d (pos + 4) (pos + 4 + min ext_len (end - (pos + 4)))
      else rest

-- From the extensions on, which start at `pos`.
unfoldable pub parse_extensions : Bytes → ℕ → ℕ → Run Bytes
parse_extensions d record_end pos = do
  guard (leb (pos + 2) record_end)
  extensions_len ← be16 d pos
  extensions_loop (suc (length d)) d (pos + 2)
      (pos + 2 + min extensions_len (record_end - (pos + 2)))

-- From the session id on, which starts at `pos`.
unfoldable pub parse_session : Bytes → ℕ → ℕ → Run Bytes
parse_session d record_end pos = do
  guard (leb (pos + 1) record_end)
  session_id_len ← byte d pos
  guard (leb (pos + 1 + session_id_len + 2) record_end)
  cipher_suites_len ← be16 d (pos + 1 + session_id_len)
  guard (leb (pos + 1 + session_id_len + 2 + cipher_suites_len + 1) record_end)
  compression_len ← byte d (pos + 1 + session_id_len + 2 + cipher_suites_len)
  parse_extensions d record_end
      (pos + 1 + session_id_len + 2 + cipher_suites_len + 1 + compression_len)

unfoldable pub parse_sni_from_client_hello : Bytes → Run Bytes
parse_sni_from_client_hello d = do
  guard (leb 5 (length d))
  record_type ← byte d 0
  guard (record_type == tls_record_handshake)
  record_len ← be16 d 3
  let record_end = 5 + min record_len (length d - 5)
  guard (leb (5 + 4) record_end)
  handshake_type ← byte d 5
  guard (handshake_type == tls_handshake_client_hello)
  guard (leb (9 + 34) record_end)
  parse_session d record_end 43

-- Whether the loop of `extract_sni` stops waiting: the bytes `buf` that one `peek` returned hold
-- the whole record, or as much of it as is inspected.
unfoldable pub is_buffered : Bytes → Run Bool
is_buffered buf =
    let full = do
      record_len ← be16 buf 3
      ret (leb (min (5 + record_len) max_client_hello) (length buf))
    in if leb 5 (length buf) then full else ret false

-- `extract_sni`: `peek i` is what the i-th call of `peek` returns, `none` where it fails, which
-- ends the call with an error (`fail`). `left` counts the attempts that are left.
unfoldable pub peek_loop : (ℕ → Option Bytes) → ℕ → ℕ → Run (Option Bytes)
peek_loop peek i zero = spin
peek_loop peek i (suc left) = do
  buf ← lift (peek i)
  let again = peek_loop peek (i + 1) left
  let parsed = attempt (parse_sni_from_client_hello buf)
  let waited = do
    first ← byte buf 0
    full ← is_buffered buf
    if not (first == tls_record_handshake)
        then ret none
        else if full || left == 0
        then parsed
        else again
  if length buf == 0 then ret none else waited

unfoldable pub extract_sni : (ℕ → Option Bytes) → Run (Option Bytes)
extract_sni peek = peek_loop peek 0 max_peek_attempts

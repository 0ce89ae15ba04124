-- ===== src/Hostname.antt =====
-- The host name that `handle_connection` of src/proxy.rs asks the upstream proxy for.
use trans_proxy.Base.{
  ℕ, ◌≡◌, ◌⊎◌, inl, inr, refl, true, false, Bool, ◌&&◌, arith, ◌==◌, Bytes, Run, ret, ◌>>=◌,
  unwrap_or, if◌then◌else◌, Bool-cases, both_true, Option, none, some, Returns-cases,
}
use trans_proxy.Net.{SocketAddr}
use trans_proxy.Sni.{extract_sni}
use trans_proxy.Sni.Peek.{PeekedHost, extract_sni-PeekedHost}
use trans_proxy.Dns.Table.{Table, lookup}

-- `extracted` is the outcome of `extract_sni`, or `none` where the time for it was over; an
-- error counts as no name.
unfoldable pub sni_hostname : Bool → SocketAddr → Option (Run (Option Bytes)) → Run (Option Bytes)
sni_hostname sni dest extracted =
    let waited : Run (Option Bytes) = elim extracted [
      | none ↦ ret none
      | some r ↦ unwrap_or none r
    ] in
    if sni && dest.port == 443 then waited else ret none

-- `sni_hostname.or_else(|| dns_table.lookup(&orig_ip))`.
unfoldable pub connection_hostname :
    Bool → ℕ → SocketAddr → Option (Run (Option Bytes)) → Table → Run (Option Bytes)
connection_hostname sni now dest extracted table = do
  found ← sni_hostname sni dest extracted
  ret (elim found [ none ↦ lookup now dest.ip table | some h ↦ some h ])

-- Where a host name can come from.
abbrev pub NameFrom : (ℕ → Option Bytes) → ℕ → SocketAddr → Table → Option Bytes → Type 0
NameFrom peek now dest table name =
    (name ≡ lookup now dest.ip table)
    ⊎ ((host : Bytes) × (name ≡ some host) × PeekedHost peek (some host) × (dest.port ≡ 443))

-- Whatever the client sends, a connection goes on with a host name that stands in the client's own
-- ClientHello, and then it is one to port 443, or with what the table has for its destination;
-- also where the wait for the ClientHello is cut short.
pub connection_hostname-NameFrom :
    (sni : Bool) (now : ℕ) (dest : SocketAddr) (peek : ℕ → Option Bytes) (in_time : Bool)
    (table : Table)
    → (name : Option Bytes) × (connection_hostname sni now dest
          (if in_time then some (extract_sni peek) else none)
          table
        ≡ ret name)
      × NameFrom peek now dest table name
unfolding connection_hostname sni_hostname
connection_hostname-NameFrom sni now dest peek in_time table =
    elim (Bool-cases (sni && dest.port == 443)) [
      | inr skipped ↦ (lookup now dest.ip table, rw skipped, inl refl)
      | inl asked ↦ waited asked in_time
    ]
  where
    port_is : (sni && dest.port == 443) ≡ true → dest.port ≡ 443
    port_is asked = let (_, same) = both_true sni (dest.port == 443) asked in ground arith

    waited :
        (sni && dest.port == 443) ≡ true
        → (in_time : Bool)
        → (name : Option Bytes) × (connection_hostname sni now dest
              (if in_time then some (extract_sni peek) else none)
              table
            ≡ ret name)
          × NameFrom peek now dest table name
    waited asked false = (lookup now dest.ip table, rw asked, inl refl)
    waited asked true =
        elim (Returns-cases (PeekedHost peek) (extract_sni peek) (extract_sni-PeekedHost peek)) [
          | inl failed ↦ (lookup now dest.ip table, rw (asked, failed), inl refl)
          | inr (none, e, h) ↦ (lookup now dest.ip table, rw (asked, e), inl refl)
          | inr (some host, e, h) ↦ (some host, rw (asked, e), inr (host, refl, h, port_is asked))
        ]

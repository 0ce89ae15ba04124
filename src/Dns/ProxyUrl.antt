-- ===== src/Dns/ProxyUrl.antt =====
-- The URL of the upstream proxy for DoH, src/dns.rs: `doh_proxy_url` and `percent_encode_userinfo`.
-- `show_addr` is the `Display` of a socket address.
use trans_proxy.Base.{
  ℕ, ◌+◌, ◌-◌, ◌*◌, ◌/◌, ◌%◌, ◌<◌, ◌≡◌, ◌⊎◌, inl, inr, refl, sym, ap, ◌∙◌, true, false, Bool, ◌&&◌,
  ◌||◌, [], ◌∷◌, ◌++◌, arith, leb, ltb, ◌==◌, Bytes, Option, none, some, if◌then◌else◌, Bool-cases,
  append_assoc,
}
use trans_proxy.Base.Decimal.{text}
use trans_proxy.Net.{SocketAddr}
use trans_proxy.Tunnel.Handshake.{ProxyAuth, without, username_password}
use trans_proxy.Config.{UpstreamProxy, http_connect, socks5, contains, strip_prefix}
use trans_proxy.Config.Ports.{contains-append}
use trans_proxy.Config.Upstream.{strip_prefix-append, cut_at-append}
use trans_proxy.Tunnel.Connect.{cut_at}

unfoldable pub is_unreserved : ℕ → Bool
is_unreserved b =
    (leb 48 b && leb b 57)
    || ((leb 97 b && leb b 122)
        || ((leb 65 b && leb b 90) || (b == 45 || (b == 46 || (b == 95 || b == 126)))))

-- `{:02X}`.
unfoldable pub upper_hex : ℕ → ℕ
upper_hex d = if ltb d 10 then 48 + d else 55 + d

unfoldable pub percent_encode_userinfo : Bytes → Bytes
percent_encode_userinfo [] = []
percent_encode_userinfo (b ∷ bs) =
    let rest = percent_encode_userinfo bs in
    if is_unreserved b then b ∷ rest else 37 ∷ upper_hex (b / 16) ∷ upper_hex (b % 16) ∷ rest

module _ (show_addr : SocketAddr → Bytes) where
  unfoldable pub auth_url : ProxyAuth → SocketAddr → Bytes
  auth_url without addr = text "socks5://" ++ show_addr addr
  auth_url (username_password username password) addr =
      text "socks5://"
      ++ (percent_encode_userinfo username
          ++ (58 ∷ (percent_encode_userinfo password ++ (64 ∷ show_addr addr))))

  unfoldable pub doh_proxy_url : UpstreamProxy → Bytes
  doh_proxy_url p = elim p.protocol [
    | http_connect ↦ text "http://" ++ show_addr p.addr
    | socks5 auth ↦ auth_url auth p.addr
  ]

-- Decoding, as a URL's reader does it: a percent sign stands in front of two hexadecimal digits.
abbrev hex_of : ℕ → ℕ
hex_of c = if leb 65 c then c - 55 else c - 48

-- Between bytes, behind a percent sign, and behind its first digit.
pub data Reading : Type 0 where
  between : Reading
  escaped : Reading
  half : ℕ → Reading

abbrev push : ℕ → Option Bytes → Option Bytes
push b none = none
push b (some bs) = some (b ∷ bs)

pub percent_decode : Reading → Bytes → Option Bytes
percent_decode between [] = some []
percent_decode escaped [] = none
percent_decode (half h) [] = none
percent_decode between (b ∷ bs) =
    let literal = push b (percent_decode between bs) in
    let code = percent_decode escaped bs in if b == 37 then code else literal
percent_decode escaped (c ∷ bs) = percent_decode (half (hex_of c)) bs
percent_decode (half h) (d ∷ bs) = push (h * 16 + hex_of d) (percent_decode between bs)

abbrev pub AreBytes : Bytes → Type 0
AreBytes [] = Unit
AreBytes (b ∷ bs) = (b < 256) × AreBytes bs

unreserved_is_no_mark :
    (b : ℕ)
    → is_unreserved b ≡ true
    → ((b == 37) ≡ false) × ((b == 58) ≡ false) × ((b == 64) ≡ false)
unfolding is_unreserved
unreserved_is_no_mark b h = ground arith

hex_of-upper : (d : ℕ) → d < 16 → hex_of (upper_hex d) ≡ d
unfolding upper_hex
hex_of-upper d lt = ground arith

upper_is_no_mark : (d : ℕ) → d < 16 → ((upper_hex d == 58) ≡ false) × ((upper_hex d == 64) ≡ false)
unfolding upper_hex
upper_is_no_mark d lt = ground arith

pub decode-encode :
    (v : Bytes) → AreBytes v → percent_decode between (percent_encode_userinfo v) ≡ some v
unfolding percent_decode percent_encode_userinfo
decode-encode [] h = refl
decode-encode (b ∷ bs) (lt, h) = elim (Bool-cases (is_unreserved b)) [
  | inl e ↦ rw (e, (unreserved_is_no_mark b e).0, decode-encode bs h) refl
  | inr e ↦
      rw
        (
          e,
          hex_of-upper (b / 16) (omega arith),
          hex_of-upper (b % 16) (omega arith),
          decode-encode bs h,
        )
        (ap (λ c. some (c ∷ bs)) (omega arith))
]

-- An encoded value holds no colon and no at sign.
encode-contains :
    (c : ℕ) (v : Bytes)
    → (c ≡ 58) ⊎ (c ≡ 64)
    → AreBytes v
    → contains c (percent_encode_userinfo v) ≡ false
unfolding percent_encode_userinfo contains
encode-contains c [] m h = refl
encode-contains c (b ∷ bs) m (lt, h) = elim (Bool-cases (is_unreserved b)) [
  | inl e ↦ rw e (ground (arith, unreserved_is_no_mark b, encode-contains c bs m h))
  | inr e ↦ rw e (
      ground
        (arith, upper_is_no_mark (b / 16), upper_is_no_mark (b % 16), encode-contains c bs m h))
]

both_absent :
    (u p : Bytes)
    → contains 64 u ≡ false
    → contains 64 p ≡ false
    → (contains 64 u || contains 64 (58 ∷ p)) ≡ false
unfolding contains
both_absent u p h k = rw (h, k) refl

-- The credentials that a reader takes from the URL: in front of the first at sign, around the first
-- colon, and decoded.
abbrev decode_pair : Bytes × Bytes → Option (Bytes × Bytes)
decode_pair (u, p) = elim (percent_decode between u) [
  | none ↦ none
  | some user ↦ elim (percent_decode between p) [ none ↦ none | some pass ↦ some (user, pass) ]
]

abbrev split_userinfo : Bytes × Bytes → Option (Bytes × Bytes)
split_userinfo (userinfo, _) = elim (cut_at 58 userinfo) [ none ↦ none | some r ↦ decode_pair r ]

abbrev pub credentials_of : Bytes → Option (Bytes × Bytes)
credentials_of url = elim (strip_prefix (text "socks5://") url) [
  | none ↦ none
  | some rest ↦ elim (cut_at 64 rest) [ none ↦ none | some r ↦ split_userinfo r ]
]

-- Whatever bytes the user name and the password hold, at signs and colons among them, who reads the
-- URL that is given to the DoH client finds exactly these credentials in it.
pub doh_proxy_url-credentials_of :
    (show_addr : SocketAddr → Bytes) (user pass : Bytes) (addr : SocketAddr)
    → AreBytes user
    → AreBytes pass
    → credentials_of (
        doh_proxy_url show_addr
          (record { protocol = socks5 (username_password user pass); addr = addr }))
      ≡ some (user, pass)
unfolding doh_proxy_url auth_url
doh_proxy_url-credentials_of show_addr user pass addr hu hp =
    let u : Bytes = percent_encode_userinfo user in
    let p : Bytes = percent_encode_userinfo pass in
    let regroup : u ++ (58 ∷ (p ++ (64 ∷ show_addr addr))) ≡ (u ++ 58 ∷ p) ++ 64 ∷ show_addr addr =
      sym (append_assoc u (58 ∷ p) (64 ∷ show_addr addr)) in
    let no_at : contains 64 (u ++ 58 ∷ p) ≡ false =
      contains-append 64 u (58 ∷ p)
      ∙ both_absent u p (encode-contains 64 user (inr refl) hu)
          (encode-contains 64 pass (inr refl) hp) in
    rw
      (
        credentials_of,
        strip_prefix-append (text "socks5://") (u ++ (58 ∷ (p ++ (64 ∷ show_addr addr)))),
        regroup,
        cut_at-append 64 (u ++ 58 ∷ p) (show_addr addr) no_at,
        split_userinfo,
        cut_at-append 58 u p (encode-contains 58 user (inl refl) hu),
        decode_pair,
        decode-encode user hu,
        decode-encode pass hp,
      )
      refl

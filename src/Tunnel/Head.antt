-- ===== src/Tunnel/Head.antt =====
-- The HTTP CONNECT request, src/tunnel.rs: `http_connect_request`, `proxy_request_host` and the
-- sending part of `handshake_http_connect`. `show_ip` is the `Display` of an address.
use trans_proxy.Base.{
  ℕ, zero, suc, ◌+◌, ◌/◌, ◌≡◌, inl, inr, refl, ap, ◌∙◌, true, false, Bool, not, ◌&&◌, [], ◌∷◌, ◌++◌,
  arith, ltb, ◌==◌, Bytes, length, Option, none, some, Bool-cases, Option-cases, both_true,
  length-append,
}
use trans_proxy.Base.Decimal.{text, decimal, decimal_fuel}
use trans_proxy.Net.{IpAddr, v4, v6, SocketAddr}
use trans_proxy.Tunnel.Host.{all, is_host_byte, is_label_byte, usable_proxy_hostname, usable-IsSafe}
use trans_proxy.Tunnel.Connect.{find_header_end, starts_blank_line}

-- `\r\n`.
abbrev pub line_end : Bytes
line_end = 13 ∷ 10 ∷ []

module _ (show_ip : IpAddr → Bytes) where
  unfoldable pub show_host : IpAddr → Bytes
  show_host (v4 a b c d) = show_ip (v4 a b c d)
  show_host (v6 os) = 91 ∷ (show_ip (v6 os) ++ 93 ∷ [])

  unfoldable pub proxy_request_host : SocketAddr → Option Bytes → Bytes
  proxy_request_host dest hostname = elim (usable_proxy_hostname hostname) [
    | some h ↦ h
    | none ↦ show_host dest.ip
  ]

  -- `{host}:{port}`.
  unfoldable pub authority : SocketAddr → Option Bytes → Bytes
  authority dest hostname = proxy_request_host dest hostname ++ 58 ∷ decimal dest.port

  unfoldable pub http_connect_request : SocketAddr → Option Bytes → Bytes
  http_connect_request dest hostname =
      (text "CONNECT " ++ (authority dest hostname ++ text " HTTP/1.1"))
      ++ (line_end ++ ((text "Host: " ++ authority dest hostname) ++ (line_end ++ line_end)))

-- No byte of the text ends a line.
unfoldable pub is_plain : ℕ → Bool
is_plain b = not (b == 13) && not (b == 10)

all-append :
    (f : ℕ → Bool) (xs ys : Bytes) → all f xs ≡ true → all f ys ≡ true → all f (xs ++ ys) ≡ true
all-append f [] ys h k = k
all-append f (x ∷ xs) ys h k =
    let (here, rest) = both_true (f x) (all f xs) h in rw (here, all-append f xs ys rest k)

decimal_fuel-plain : (f n : ℕ) → all is_plain (decimal_fuel f n) ≡ true
unfolding decimal_fuel is_plain
decimal_fuel-plain zero n = refl
decimal_fuel-plain (suc f) n = elim (Bool-cases (ltb n 10)) [
  | inl e ↦ rw e (ground arith)
  | inr e ↦ rw e (
      all-append is_plain (decimal_fuel f (n / 10)) _ (decimal_fuel-plain f (n / 10))
        (ground arith))
]

host-plain : (bs : Bytes) → all is_host_byte bs ≡ true → all is_plain bs ≡ true
unfolding is_host_byte is_label_byte is_plain
host-plain [] h = refl
host-plain (b ∷ bs) h =
    let (here, rest) = both_true (is_host_byte b) (all is_host_byte bs) h in
    ground (arith, host-plain bs rest)

decimal-plain : (n : ℕ) → all is_plain (58 ∷ decimal n) ≡ true
unfolding decimal is_plain
decimal-plain n = decimal_fuel-plain 10 n

no_blank_line : (b : ℕ) (bs : Bytes) → is_plain b ≡ true → starts_blank_line (b ∷ bs) ≡ false
unfolding starts_blank_line is_plain
no_blank_line b [] h = refl
no_blank_line b (c ∷ []) h = refl
no_blank_line b (c ∷ d ∷ []) h = refl
no_blank_line b (c ∷ d ∷ e ∷ bs) h = ground arith

-- The end of the head is found behind plain text.
find-plain :
    (xs ys : Bytes) (p : ℕ)
    → all is_plain xs ≡ true
    → find_header_end ys ≡ some p
    → find_header_end (xs ++ ys) ≡ some (length xs + p)
unfolding find_header_end
find-plain [] ys p h e = rw e (ap some (omega arith))
find-plain (x ∷ xs) ys p h e =
    let (here, rest) = both_true (is_plain x) (all is_plain xs) h in
    rw (no_blank_line x (xs ++ ys) here, find-plain xs ys p rest e) (ap some (omega arith))

-- It is not found at the end of a line behind which the letter H stands.
find-line_end :
    (bs : Bytes) (p : ℕ)
    → find_header_end (72 ∷ bs) ≡ some p
    → find_header_end (line_end ++ 72 ∷ bs) ≡ some (2 + p)
unfolding find_header_end starts_blank_line
find-line_end [] p h = ground (arith, h)
find-line_end (b ∷ bs) p h = ground (arith, h)

show-plain :
    (show_ip : IpAddr → Bytes) (a : IpAddr)
    → all is_plain (show_ip a) ≡ true
    → all is_plain (show_host show_ip a) ≡ true
unfolding show_host is_plain
show-plain show_ip (v4 _ _ _ _) h = h
show-plain show_ip (v6 os) h = all-append is_plain (show_ip (v6 os)) (93 ∷ []) h refl

-- The two lines of the request, of any plain authority.
one_head :
    (a : Bytes)
    → all is_plain a ≡ true
    → let request =
        (text "CONNECT " ++ (a ++ text " HTTP/1.1"))
        ++ (line_end ++ ((text "Host: " ++ a) ++ (line_end ++ line_end))) in
      find_header_end request ≡ some (length request)
unfolding text is_plain find_header_end starts_blank_line
one_head a plain =
    let front : Bytes = text "CONNECT " ++ (a ++ text " HTTP/1.1") in
    let host : Bytes = text "Host: " ++ a in
    let ends : Bytes = line_end ++ line_end in
    let front_plain : all is_plain front ≡ true =
      all-append is_plain (text "CONNECT ") (a ++ text " HTTP/1.1") refl
        (all-append is_plain a (text " HTTP/1.1") plain refl) in
    let host_plain : all is_plain host ≡ true = all-append is_plain (text "Host: ") a refl plain in
    let end_found : find_header_end (host ++ ends) ≡ some (length host + 4) =
      find-plain host ends 4 host_plain refl in
    find-plain front (line_end ++ (host ++ ends)) (2 + (length host + 4)) front_plain
      (find-line_end (text "ost: " ++ a ++ ends) (length host + 4) end_found)
    ∙ ap some
        (omega (arith, length-append front (line_end ++ (host ++ ends)), length-append host ends))

module _ (show_ip : IpAddr → Bytes) (dest : SocketAddr) (hostname : Option Bytes) where
  -- What is written of an address ends no line.
  host_is_plain :
      all is_plain (show_ip dest.ip) ≡ true
      → all is_plain (proxy_request_host show_ip dest hostname) ≡ true
  unfolding proxy_request_host
  host_is_plain h = elim (Option-cases (usable_proxy_hostname hostname)) [
    | inr (host, e) ↦ rw (proxy_request_host, e) (host-plain host (usable-IsSafe hostname host e).3)
    | inl e ↦ rw (proxy_request_host, e) (show-plain show_ip dest.ip h)
  ]

  authority-plain :
      all is_plain (show_ip dest.ip) ≡ true → all is_plain (authority show_ip dest hostname) ≡ true
  unfolding authority is_plain
  authority-plain h =
      all-append is_plain (proxy_request_host show_ip dest hostname) (58 ∷ decimal dest.port)
        (host_is_plain h) (decimal-plain dest.port)

  -- Whatever the host name, also one that an attacker chose, the CONNECT request is a single head:
  -- the first blank line stands at its very end, so that nothing in it is read as a further header's
  -- end or request. The text of an address has no line ends.
  pub http_connect_request-one_head :
      all is_plain (show_ip dest.ip) ≡ true
      → find_header_end (http_connect_request show_ip dest hostname)
        ≡ some (length (http_connect_request show_ip dest hostname))
  unfolding http_connect_request
  http_connect_request-one_head h = one_head (authority show_ip dest hostname) (authority-plain h)

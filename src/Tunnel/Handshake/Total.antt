-- ===== src/Tunnel/Handshake/Total.antt =====
-- The handshakes of src/tunnel.rs against any proxy.
use trans_proxy.Base.{
  ℕ, zero, suc, ◌+◌, ◌-◌, ◌≡◌, ◌⊎◌, inl, inr, refl, sym, ap, ◌∙◌, false, [], ◌++◌, arith,
  append_assoc, leb, ◌==◌, Bytes, length, take, length-take, take-append-drop, Run, ret, fail,
  ◌>>=◌, if◌then◌else◌, Bool-cases, Option, Returns, leb→le,
}
use trans_proxy.Base.{
  Returns-bind, Returns-mono, Returns-guard, Returns-byte, Returns-be16, Returns-if, Returns-slice,
}
use trans_proxy.Net.{IpAddr, SocketAddr}
use trans_proxy.Tunnel.Request.{
  build_socks5_auth_request, validate_socks5_auth_field, socks5_connect_request,
}
use trans_proxy.Net.Wire.{Stream, write_all, read_exact}
use trans_proxy.Tunnel.Handshake.{
  ProxyAuth, without, username_password, socks5_username_auth, greeting, with_method,
  socks5_negotiate_auth, read_v4, read_domain, read_v6, read_socks5_bound_addr, read_reply,
  socks5_connect, socks5_handshake, associate_request, is_unspecified, udp_associate,
}

-- What is left to read is what was there, less some bytes in front.
abbrev pub Consumed : Stream → Stream → Type 0
Consumed s s' = (used : Bytes) × (s.incoming ≡ used ++ s'.incoming)

Consumed-trans : (s s' s'' : Stream) → Consumed s s' → Consumed s' s'' → Consumed s s''
Consumed-trans s s' s'' (used, e) (used', e') =
    (used ++ used', e ∙ ap (λ x. used ++ x) e' ∙ sym (append_assoc used used' s''.incoming))

module _ {ℓ} {B : Type ℓ} (Q : B → Type 0) (s : Stream) where
  Returns-write_all :
      (bytes : Bytes) (k : Stream → Run B)
      → ((s' : Stream) → Consumed s s' → Returns Q (k s'))
      → Returns Q (write_all s bytes >>= k)
  unfolding write_all
  Returns-write_all bytes k h = go s.writes_left
    where
      go :
          (n : ℕ)
          → Returns Q (
              elim n as (λ _. Run Stream) [
                | zero ↦ fail
                | suc n ↦ ret (record s { written = s.written ++ bytes; writes_left = n })
              ]
              >>= k)
      go zero = tt
      go (suc n) = h _ ([], refl)

  Returns-read_exact :
      (n : ℕ) (k : Stream × Bytes → Run B)
      → ((s' : Stream) (buf : Bytes) → length buf ≡ n → Consumed s s' → Returns Q (k (s', buf)))
      → Returns Q (read_exact s n >>= k)
  unfolding read_exact
  Returns-read_exact n k h = elim (Bool-cases (leb n (length s.incoming))) [
    | inr short ↦ rw short tt
    | inl enough ↦ rw enough (
        h _ (take n s.incoming)
          (omega (arith, length-take n s.incoming, leb→le n (length s.incoming) enough))
          (take n s.incoming, sym (take-append-drop n s.incoming)))
  ]

build_socks5_auth_request-Returns :
    (username password : Bytes) → Returns (λ _. Unit) (build_socks5_auth_request username password)
unfolding build_socks5_auth_request validate_socks5_auth_field
build_socks5_auth_request-Returns username password = ground arith

with_method-Consumed :
    (s : Stream) (auth : ProxyAuth) (method : ℕ) → Returns (Consumed s) (with_method s auth method)
unfolding with_method socks5_username_auth
with_method-Consumed s auth method =
    Returns-if _ (method == 0) _ _ (λ _. ([], refl))
      λ _. Returns-if _ (method == 2) _ fail (λ _. authenticated auth) λ _. tt
  where
    authenticated :
        (auth : ProxyAuth)
        → Returns (Consumed s) (elim auth as (λ _. Run Stream) [
          | without ↦ fail
          | username_password username password ↦ socks5_username_auth s username password
        ])
    authenticated without = tt
    authenticated (username_password username password) =
        Returns-bind _ _ (build_socks5_auth_request username password) _
          (build_socks5_auth_request-Returns username password)
          λ auth_req _. Returns-write_all _ s auth_req _ λ s' h.
            Returns-read_exact _ s' 2 _ λ s'' buf two h'.
              Returns-byte _ buf 1 _ (omega arith)
                λ status. Returns-guard _ (status == 0) _ λ _. Consumed-trans s s' s'' h h'

socks5_negotiate_auth-Consumed :
    (s : Stream) (auth : ProxyAuth) → Returns (Consumed s) (socks5_negotiate_auth s auth)
unfolding socks5_negotiate_auth
socks5_negotiate_auth-Consumed s auth = Returns-write_all _ s (greeting auth) _ λ s' h.
    Returns-read_exact _ s' 2 _ λ s'' buf two h'. Returns-byte _ buf 0 _ (omega arith) λ version.
      Returns-guard _ (version == 5) _ λ _. Returns-byte _ buf 1 _ (omega arith) λ method.
        Returns-mono (Consumed s'') (Consumed s) (with_method s'' auth method)
          (with_method-Consumed s'' auth method)
          λ s₃ h''. Consumed-trans s s' s₃ h (Consumed-trans s' s'' s₃ h' h'')

read_socks5_bound_addr-Consumed :
    (s : Stream) (atyp : ℕ) → Returns (λ r. Consumed s r.0) (read_socks5_bound_addr s atyp)
unfolding read_socks5_bound_addr read_v4 read_domain read_v6
read_socks5_bound_addr-Consumed s atyp =
    Returns-if _ (atyp == 1) _ _
      (λ _. Returns-read_exact _ s 6 _ λ s' buf six h. Returns-byte _ buf 0 _ (omega arith) λ a.
        Returns-byte _ buf 1 _ (omega arith) λ b. Returns-byte _ buf 2 _ (omega arith) λ c.
          Returns-byte _ buf 3 _ (omega arith) λ d. Returns-be16 _ buf 4 _ (omega arith) λ port. h)
      λ _.
        Returns-if _ (atyp == 3) _ _
          (λ _. Returns-read_exact _ s 1 _ λ s' len_buf one h.
            Returns-byte _ len_buf 0 _ (omega arith) λ n.
              Returns-read_exact _ s' (n + 2) _ λ s'' buf size h'.
                Returns-be16 _ buf (length buf - 2) _ (omega arith)
                  λ port. Consumed-trans s s' s'' h h')
          λ _.
            Returns-if _ (atyp == 4) _ fail
              (λ _. Returns-read_exact _ s 18 _ λ s' buf size h.
                Returns-slice _ buf 0 16 _ (omega arith) (omega arith)
                  λ os. Returns-be16 _ buf 16 _ (omega arith) λ port. h)
              λ _. tt

read_reply-Consumed : (s : Stream) → Returns (λ r. Consumed s r.0) (read_reply s)
unfolding read_reply
read_reply-Consumed s = Returns-read_exact _ s 4 _ λ s' buf four h.
    Returns-byte _ buf 0 _ (omega arith) λ version. Returns-guard _ (version == 5) _ λ _.
      Returns-byte _ buf 1 _ (omega arith) λ status.
        Returns-guard _ (status == 0) _ λ _. Returns-byte _ buf 3 _ (omega arith) λ atyp. h

-- The rest of a request, once it is written: the reply's header and its bound address.
replied-Consumed :
    {B : Type 0} (Q : B → Type 0) (s s' : Stream) (k : Stream × SocketAddr → Run B)
    → Consumed s s'
    → ((r : Stream × SocketAddr) → Consumed s r.0 → Returns Q (k r))
    → Returns Q (read_reply s' >>= λ r. read_socks5_bound_addr r.0 r.1 >>= k)
replied-Consumed Q s s' k h more =
    Returns-bind (λ r. Consumed s' r.0) Q (read_reply s') _ (read_reply-Consumed s')
      λ r h'.
        Returns-bind (λ x. Consumed r.0 x.0) Q (read_socks5_bound_addr r.0 r.1) k
          (read_socks5_bound_addr-Consumed r.0 r.1)
          λ x h''. more x (Consumed-trans s s' x.0 h (Consumed-trans s' r.0 x.0 h' h''))

-- Whatever the proxy sends, the SOCKS5 handshake ends without a panic, and when it succeeds, what
-- is left to read is what the proxy sent, less the bytes in front that the handshake read.
pub socks5_handshake-Consumed :
    (s : Stream) (auth : ProxyAuth) (dest : SocketAddr) (hostname : Option Bytes)
    → Returns (Consumed s) (socks5_handshake s auth dest hostname)
unfolding socks5_handshake socks5_connect
socks5_handshake-Consumed s auth dest hostname =
    Returns-bind (Consumed s) _ (socks5_negotiate_auth s auth) _
      (socks5_negotiate_auth-Consumed s auth)
      λ s' h.
        Returns-write_all _ s' (socks5_connect_request dest hostname) _ λ s'' h'.
          replied-Consumed (Consumed s) s s'' _ (Consumed-trans s s' s'' h h') λ r h''. h''

-- Whatever the proxy sends, UDP ASSOCIATE ends without a panic, and the relay that it returns is
-- never an unspecified address that the proxy named: that one is replaced by the proxy's own.
pub udp_associate-relay :
    (s : Stream) (auth : ProxyAuth) (proxy : IpAddr)
    → Returns
        (λ r. Consumed s r.0 × ((r.1.ip ≡ proxy) ⊎ (is_unspecified r.1.ip ≡ false)))
        (udp_associate s auth proxy)
unfolding udp_associate
udp_associate-relay s auth proxy =
    Returns-bind (Consumed s) _ (socks5_negotiate_auth s auth) _
      (socks5_negotiate_auth-Consumed s auth)
      λ s' h. Returns-write_all _ s' associate_request _ λ s'' h'.
        replied-Consumed _ s s'' _ (Consumed-trans s s' s'' h h') λ r h''. (h'', relay r.1)
  where
    relay :
        (bnd : SocketAddr)
        → ((if is_unspecified bnd.ip then record { ip = proxy; port = bnd.port } else bnd).ip
            ≡ proxy)
          ⊎ (is_unspecified
                (if is_unspecified bnd.ip then record { ip = proxy; port = bnd.port } else bnd).ip
              ≡ false)
    relay bnd = elim (Bool-cases (is_unspecified bnd.ip)) [
      | inl wild ↦ inl (rw wild)
      | inr named ↦ inr (rw (named, named))
    ]

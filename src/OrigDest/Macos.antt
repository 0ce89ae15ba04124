-- ===== src/OrigDest/Macos.antt =====
-- `get_original_dest` of src/orig_dest/macos.rs: the lookup in the NAT table of pf and the fallback.
-- The three constants of libc are parameters. `ioctl` is DIOCNATLOOK, which fills in what it was
-- given, or fails and leaves it as it was.
use trans_proxy.Base.{
  ℕ, ◌<◌, ◌≡◌, refl, ◌∷◌, Bytes, Run, ret, fail, panic, ◌>>=◌, attempt, Option, none, some, true,
  false, Bool, not, ◌&&◌, ◌==◌, ==_refl, replicate, if◌then◌else◌, ◌⊎◌, inl, inr,
}
use trans_proxy.Base.{u16_limit}
use trans_proxy.Net.{IpAddr, v4, v6, SocketAddr}
use trans_proxy.OrigDest.{
  Endpoint, Endpoint-discrete, to_be, from_be, plain, not_listener, Outcome, from_be-to_be,
  not_listener-Outcome,
}

-- A port stands in the first two of the four octets of its union.
pub record PfiocNatlook : Type 0 where
  pub saddr : Bytes
  pub daddr : Bytes
  pub rsaddr : Bytes
  pub rdaddr : Bytes
  pub sxport : ℕ × ℕ
  pub dxport : ℕ × ℕ
  pub rsxport : ℕ × ℕ
  pub rdxport : ℕ × ℕ
  pub af : ℕ
  pub proto : ℕ
  pub proto_variant : ℕ
  pub direction : ℕ

abbrev pf_out : ℕ
pf_out = 1

unfoldable pub octets16 : IpAddr → Bytes
octets16 (v4 a b c d) = a ∷ b ∷ c ∷ d ∷ replicate 12 0
octets16 (v6 os) = os

unfoldable pub ipv4_of : Bytes → Run IpAddr
ipv4_of (a ∷ b ∷ c ∷ d ∷ _) = ret (v4 a b c d)
ipv4_of _ = panic

-- Outward first, then inward.
unfoldable pub look_up : (PfiocNatlook → Option PfiocNatlook) → PfiocNatlook → Run PfiocNatlook
look_up ioctl nl = elim (ioctl nl) [
  | some found ↦ ret found
  | none ↦ elim (ioctl (record nl { direction = 0 })) [ some found ↦ ret found | none ↦ fail ]
]

unfoldable pub is_same : Endpoint → Endpoint → Bool
is_same a b = elim (Endpoint-discrete a b) [ yes _ ↦ true | no _ ↦ false ]

module _ (af_inet af_inet6 ipproto_tcp : ℕ) where
  unfoldable pub family_of : IpAddr → IpAddr → Run ℕ
  family_of (v4 _ _ _ _) (v4 _ _ _ _) = ret af_inet
  family_of (v6 _) (v6 _) = ret af_inet6
  family_of (v4 _ _ _ _) (v6 _) = fail
  family_of (v6 _) (v4 _ _ _ _) = fail

  unfoldable pub natlook : SocketAddr → SocketAddr → ℕ → ℕ → PfiocNatlook
  natlook client local family dir = record {
    saddr = octets16 client.ip;
    daddr = octets16 local.ip;
    rsaddr = replicate 16 0;
    rdaddr = replicate 16 0;
    sxport = to_be client.port;
    dxport = to_be local.port;
    rsxport = (0, 0);
    rdxport = (0, 0);
    af = family;
    proto = ipproto_tcp;
    proto_variant = 0;
    direction = dir;
  }

  unfoldable pub get_original_dest_pf :
      (PfiocNatlook → Option PfiocNatlook) → SocketAddr → SocketAddr → Run SocketAddr
  get_original_dest_pf ioctl client local = do
    family ← family_of client.ip local.ip
    nl ← look_up ioctl (natlook client local family pf_out)
    ip ← if family == af_inet then ipv4_of nl.rdaddr else ret (v6 nl.rdaddr)
    ret (record { ip = ip; port = from_be nl.rdxport })

  unfoldable pub get_original_dest :
      (PfiocNatlook → Option PfiocNatlook) → SocketAddr → Endpoint → Endpoint → Run Endpoint
  get_original_dest ioctl client local listen = do
    found ← attempt (get_original_dest_pf ioctl client local.addr)
    elim found [
      | some dest ↦ not_listener listen (plain dest)
      | none ↦
          if not (is_same local listen) && not (local.addr.port == listen.addr.port)
          then ret local
          else fail
    ]

-- The two addresses are of one family.
abbrev pub SameFamily : IpAddr → IpAddr → Type 0
SameFamily (v4 _ _ _ _) (v4 _ _ _ _) = Unit
SameFamily (v6 _) (v6 _) = Unit
SameFamily (v4 _ _ _ _) (v6 _) = ⊥
SameFamily (v6 _) (v4 _ _ _ _) = ⊥

-- What pf fills in for a connection that was for `dest`.
abbrev pub redirected : SocketAddr → PfiocNatlook → PfiocNatlook
redirected dest nl = record nl { rdaddr = octets16 dest.ip; rdxport = to_be dest.port }

-- The table of pf has the connection, as one that goes out or as one that comes in.
abbrev pub IsKnown : (PfiocNatlook → Option PfiocNatlook) → PfiocNatlook → SocketAddr → Type 0
IsKnown ioctl nl dest =
    (ioctl nl ≡ some (redirected dest nl))
    ⊎ ((ioctl nl ≡ none)
        × (ioctl (record nl { direction = 0 })
            ≡ some (redirected dest (record nl { direction = 0 }))))

abbrev pub family_code : ℕ → ℕ → IpAddr → ℕ
family_code inet inet6 (v4 _ _ _ _) = inet
family_code inet inet6 (v6 _) = inet6

found-known :
    (ioctl : PfiocNatlook → Option PfiocNatlook) (nl : PfiocNatlook) (dest : SocketAddr)
    → IsKnown ioctl nl dest
    → (r : PfiocNatlook) × (look_up ioctl nl ≡ ret r)
      × ((r.rdaddr ≡ octets16 dest.ip) × (r.rdxport ≡ to_be dest.port))
unfolding look_up
found-known ioctl nl dest (inl e) = (redirected dest nl, rw (look_up, e) refl, (refl, refl))
found-known ioctl nl dest (inr (e, e')) =
    (redirected dest (record nl { direction = 0 }), rw (look_up, e, e') refl, (refl, refl))

module _ (af_inet af_inet6 : ℕ) (differ : (af_inet6 == af_inet) ≡ false) where
  family-decoded :
      (d l : IpAddr)
      → SameFamily d l
      → (if family_code af_inet af_inet6 l == af_inet
          then ipv4_of (octets16 d)
          else ret (v6 (octets16 d)))
        ≡ ret d
  unfolding ipv4_of octets16
  family-decoded (v4 _ _ _ _) (v4 _ _ _ _) same = rw (==_refl af_inet) refl
  family-decoded (v6 _) (v6 _) same = rw differ refl
  family-decoded (v4 _ _ _ _) (v6 _) same = absurd same
  family-decoded (v6 _) (v4 _ _ _ _) same = absurd same

  module _ (ipproto_tcp : ℕ) (ioctl : PfiocNatlook → Option PfiocNatlook) where
    family-same :
        (c l : IpAddr)
        → SameFamily c l
        → family_of af_inet af_inet6 ipproto_tcp c l ≡ ret (family_code af_inet af_inet6 l)
    unfolding family_of
    family-same (v4 _ _ _ _) (v4 _ _ _ _) same = refl
    family-same (v6 _) (v6 _) same = refl
    family-same (v4 _ _ _ _) (v6 _) same = absurd same
    family-same (v6 _) (v4 _ _ _ _) same = absurd same

    decoded :
        (client local dest : SocketAddr)
        → SameFamily client.ip local.ip
        → SameFamily dest.ip local.ip
        → dest.port < u16_limit
        → IsKnown ioctl
            (natlook af_inet af_inet6 ipproto_tcp client local
              (family_code af_inet af_inet6 local.ip)
              1)
            dest
        → get_original_dest_pf af_inet af_inet6 ipproto_tcp ioctl client local ≡ ret dest
    unfolding get_original_dest_pf
    decoded client local dest same same' lt known =
        let (r, found, (address, port)) = found-known ioctl _ dest known in
        rw
          (
            family-same client.ip local.ip same,
            found,
            address,
            port,
            from_be-to_be dest.port lt,
            family-decoded dest.ip local.ip same',
          )
          refl

    -- Where the table of pf has the connection of a client, under the direction out or, the first
    -- lookup failing, under the direction in, the destination that the client had asked for is
    -- recovered, address and port, for both families; only where it is the listener itself the
    -- connection is refused.
    pub get_original_dest-known :
        (client dest : SocketAddr) (local listen : Endpoint)
        → SameFamily client.ip local.addr.ip
        → SameFamily dest.ip local.addr.ip
        → dest.port < u16_limit
        → IsKnown ioctl
            (natlook af_inet af_inet6 ipproto_tcp client local.addr
              (family_code af_inet af_inet6 local.addr.ip)
              1)
            dest
        → Outcome listen
            (plain dest)
            (get_original_dest af_inet af_inet6 ipproto_tcp ioctl client local listen)
    unfolding get_original_dest
    get_original_dest-known client dest local listen same same' lt known =
        rw (decoded client local.addr dest same same' lt known)
          (not_listener-Outcome listen (plain dest))

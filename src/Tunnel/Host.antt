-- ===== src/Tunnel/Host.antt =====
-- Host names that may go to the upstream proxy: `is_safe_proxy_hostname` and
-- `usable_proxy_hostname` of src/tunnel.rs.
use trans_proxy.Base.{
  ℕ, ◌≤◌, ◌<◌, ◌≡◌, inl, inr, refl, true, Bool, not, ◌&&◌, ◌||◌, List, [], ◌∷◌, arith, leb, ◌==◌,
  Bytes, length, if◌then◌else◌, Bool-cases, both_true, Option, none, some, leb→le,
}

abbrev pub all {ℓ} : {A : Type ℓ} → (A → Bool) → List A → Bool
all f [] = true
all f (x ∷ xs) = f x && all f xs

-- `host.strip_suffix('.').unwrap_or(host)`.
unfoldable pub strip_dot : Bytes → Bytes
strip_dot [] = []
strip_dot (b ∷ []) = if b == 46 then [] else b ∷ []
strip_dot (b ∷ c ∷ bs) = b ∷ strip_dot (c ∷ bs)

unfoldable pub push_first : ℕ → List Bytes → List Bytes
push_first b [] = (b ∷ []) ∷ []
push_first b (l ∷ ls) = (b ∷ l) ∷ ls

-- `name.split('.')`.
unfoldable pub split_dot : Bytes → List Bytes
split_dot [] = [] ∷ []
split_dot (b ∷ bs) =
    let labels = split_dot bs in if b == 46 then [] ∷ labels else push_first b labels

unfoldable pub is_label_byte : ℕ → Bool
is_label_byte b =
    (leb 48 b && leb b 57)
    || ((leb 97 b && leb b 122) || ((leb 65 b && leb b 90) || (b == 45 || b == 95)))

unfoldable pub is_safe_label : Bytes → Bool
is_safe_label l = not (length l == 0) && (leb (length l) 63 && all is_label_byte l)

unfoldable pub is_safe_proxy_hostname : Bytes → Bool
is_safe_proxy_hostname host =
    let name = strip_dot host in
    not (length name == 0) && (leb (length host) 253 && all is_safe_label (split_dot name))

unfoldable pub usable_proxy_hostname : Option Bytes → Option Bytes
usable_proxy_hostname none = none
usable_proxy_hostname (some host) = if is_safe_proxy_hostname host then some host else none

-- What a safe host name may hold: the bytes of its labels and the dots between them.
unfoldable pub is_host_byte : ℕ → Bool
is_host_byte b = is_label_byte b || b == 46

push_first-bytes :
    (b : ℕ) (ls : List Bytes)
    → all (all is_label_byte) (push_first b ls) ≡ true
    → (is_label_byte b ≡ true) × (all (all is_label_byte) ls ≡ true)
unfolding push_first
push_first-bytes b [] h =
    ((both_true (is_label_byte b) true (both_true (is_label_byte b && true) true h).0).0, refl)
push_first-bytes b (l ∷ ls) h =
    let (first, rest) = both_true (all is_label_byte (b ∷ l)) (all (all is_label_byte) ls) h in
    let (here, more) = both_true (is_label_byte b) (all is_label_byte l) first in
    (here, rw (more, rest))

split_dot-bytes :
    (name : Bytes) → all (all is_label_byte) (split_dot name) ≡ true → all is_host_byte name ≡ true
unfolding split_dot is_host_byte
split_dot-bytes [] h = refl
split_dot-bytes (b ∷ bs) h = elim (Bool-cases (b == 46)) [
  | inl dot ↦
      let (_, rest) = both_true true (all (all is_label_byte) (split_dot bs)) (rw dot at h) in
      ground (arith, dot, split_dot-bytes bs rest)
  | inr no_dot ↦
      let (here, rest) = push_first-bytes b (split_dot bs) (rw no_dot at h) in
      ground (arith, here, split_dot-bytes bs rest)
]

strip_dot-bytes :
    (host : Bytes) → all is_host_byte (strip_dot host) ≡ true → all is_host_byte host ≡ true
unfolding strip_dot is_host_byte
strip_dot-bytes [] h = refl
strip_dot-bytes (b ∷ []) h = ground (arith, h)
strip_dot-bytes (b ∷ c ∷ bs) h =
    let (here, rest) = both_true (is_host_byte b) (all is_host_byte (strip_dot (c ∷ bs))) h in
    ground (arith, here, strip_dot-bytes (c ∷ bs) rest)

length-strip_dot : (host : Bytes) → length (strip_dot host) ≤ length host
unfolding strip_dot
length-strip_dot [] = omega arith
length-strip_dot (b ∷ []) = ground arith
length-strip_dot (b ∷ c ∷ bs) = omega (arith, length-strip_dot (c ∷ bs))

safe-label_bytes :
    (ls : List Bytes) → all is_safe_label ls ≡ true → all (all is_label_byte) ls ≡ true
unfolding is_safe_label
safe-label_bytes [] h = refl
safe-label_bytes (l ∷ ls) h =
    let (first, rest) = both_true (is_safe_label l) (all is_safe_label ls) h in
    let (_, more) = both_true _ (leb (length l) 63 && all is_label_byte l) first in
    let (_, bytes) = both_true (leb (length l) 63) (all is_label_byte l) more in
    rw (bytes, safe-label_bytes ls rest)

-- A host name that is sent to the proxy has at most 253 bytes, and each of them is a letter, a
-- digit, a hyphen, an underscore or a dot: neither a line break nor a space nor a colon can come
-- from a host name into a request.
pub usable-IsSafe :
    (hostname : Option Bytes) (host : Bytes)
    → usable_proxy_hostname hostname ≡ some host
    → (hostname ≡ some host)
      × (0 < length host)
      × (length host ≤ 253)
      × (all is_host_byte host ≡ true)
unfolding usable_proxy_hostname is_safe_proxy_hostname
usable-IsSafe none host h = absurd (cc)
usable-IsSafe (some host') host h = elim (Bool-cases (is_safe_proxy_hostname host')) [
  | inr unsafe ↦ absurd (cc (rw unsafe at h))
  | inl safe ↦
      let same : host' ≡ host = cc (rw safe at h) in
      let (not_empty, more) = both_true (not (length (strip_dot host') == 0)) _ safe in
      let long : 0 < length (strip_dot host') = ground arith in
      let (short, labels) =
        both_true (leb (length host') 253) (all is_safe_label (split_dot (strip_dot host'))) more in
      rw (← same) (
        refl,
        omega (arith, long, length-strip_dot host'),
        leb→le _ _ short,
        strip_dot-bytes host' (split_dot-bytes (strip_dot host') (safe-label_bytes _ labels)),
      )
]

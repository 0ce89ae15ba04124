-- ===== src/Base/Outcome.antt =====
-- What a call of the source can do: return a value, return early (`None` through `?`, or an
-- error), panic (an index out of range), or spin (a loop that uses up its fuel).
use Prim.Native.Nat.{ℕ, ◌+◌, ◌-◌, ◌*◌, ◌≤◌, ◌<◌}
use mathlib.Core.Bool.{Bool, true, false, ◌&&◌}
use mathlib.Core.List.{◌∷◌, ◌++◌}
use mathlib.Core.Option.{Option, none, some}
use mathlib.Core.Path.{◌≡◌, refl}
use native.Mathlib.Omega.{arith}
use trans_proxy.Base.Tests.{leb, if◌then◌else◌}
use trans_proxy.Base.Lists.{
  Bytes, length, get_elem?, take, drop, get_elem?_lt, get_elem?-drop, length-append, length-take,
  length-drop,
}

pub data Run {ℓ} (A : Type ℓ) : Type ℓ where
  ret : A → Run A
  fail : Run A
  panic : Run A
  spin : Run A

infixl 5 ◌>>=◌ ◌>>◌
abbrev pub ◌>>=◌ {ℓ κ} : {A : Type ℓ} {B : Type κ} → Run A → (A → Run B) → Run B
ret a >>= f = f a
fail >>= f = fail
panic >>= f = panic
spin >>= f = spin

abbrev pub ◌>>◌ {ℓ} : {B : Type ℓ} → Run (Unit {0}) → Run B → Run B
m >> k = m >>= λ _. k

abbrev pub guard : Bool → Run (Unit {0})
guard true = ret tt
guard false = fail

-- `Option::ok_or` and `?`.
abbrev pub lift {ℓ} : {A : Type ℓ} → Option A → Run A
lift none = fail
lift (some a) = ret a

-- `unwrap_or`: an early return of the callee becomes the default.
abbrev pub unwrap_or {ℓ} : {A : Type ℓ} → A → Run A → Run A
unwrap_or d fail = ret d
unwrap_or d (ret a) = ret a
unwrap_or d panic = panic
unwrap_or d spin = spin

-- The callee's result as an `Option` value, which the caller inspects.
abbrev pub attempt {ℓ} : {A : Type ℓ} → Run A → Run (Option A)
attempt fail = ret none
attempt (ret a) = ret (some a)
attempt panic = panic
attempt spin = spin

-- Total correctness: the call ends, does not panic, and a value that it returns meets `P`.
abbrev pub Returns {ℓ} : {A : Type ℓ} → (A → Type 0) → Run A → Type 0
Returns P (ret a) = P a
Returns P fail = Unit
Returns P panic = ⊥
Returns P spin = ⊥

pub Returns-bind {ℓ κ} :
    {A : Type ℓ} {B : Type κ} (P : A → Type 0) (Q : B → Type 0) (m : Run A) (f : A → Run B)
    → Returns P m
    → ((a : A) → P a → Returns Q (f a))
    → Returns Q (m >>= f)
Returns-bind P Q (ret a) f h k = k a h
Returns-bind P Q fail f h k = tt
Returns-bind P Q panic f h k = absurd h
Returns-bind P Q spin f h k = absurd h

pub Returns-mono {ℓ} :
    {A : Type ℓ} (P Q : A → Type 0) (m : Run A) → Returns P m → ((a : A) → P a → Q a) → Returns Q m
Returns-mono P Q (ret a) h k = k a h
Returns-mono P Q fail h k = tt
Returns-mono P Q panic h k = absurd h
Returns-mono P Q spin h k = absurd h

pub Returns-guard {ℓ} :
    {B : Type ℓ} (Q : B → Type 0) (b : Bool) (k : Run B)
    → (b ≡ true → Returns Q k)
    → Returns Q (guard b >> k)
Returns-guard Q true k h = h refl
Returns-guard Q false k h = tt

-- `packet[i]`.
unfoldable pub byte : Bytes → ℕ → Run ℕ
byte p i = elim (get_elem? p i) [ none ↦ panic | some b ↦ ret b ]

pub byte_lt : (p : Bytes) (i : ℕ) → i < length p → (b : ℕ) × (byte p i ≡ ret b)
unfolding byte
byte_lt p i h = let (b, e) = get_elem?_lt p i h in (b, ground arith)

pub byte-drop : (p : Bytes) (i b : ℕ) (r : Bytes) → drop i p ≡ b ∷ r → byte p i ≡ ret b
unfolding byte
byte-drop p i b r h = ground (arith, get_elem?-drop p i b r h)

-- `&packet[from..to]`.
unfoldable pub slice : Bytes → ℕ → ℕ → Run Bytes
slice p from to = elim (leb from to && leb to (length p)) [
  | true ↦ ret (take (to - from) (drop from p))
  | false ↦ panic
]

-- `u16::from_be_bytes([p[i], p[i + 1]])`, and the same for `u32`.
unfoldable pub be16 : Bytes → ℕ → Run ℕ
be16 p i = do a ← byte p i; b ← byte p (i + 1); ret (a * 256 + b)

unfoldable pub be32 : Bytes → ℕ → Run ℕ
be32 p i = do a ← be16 p i; b ← be16 p (i + 2); ret (a * 65536 + b)

pub be16_lt : (p : Bytes) (i : ℕ) → i + 1 < length p → (v : ℕ) × (be16 p i ≡ ret v)
unfolding be16
be16_lt p i h =
    let (a, e) = byte_lt p i (omega arith) in
    let (b, e') = byte_lt p (i + 1) h in (a * 256 + b, ground arith)

pub be32_lt : (p : Bytes) (i : ℕ) → i + 3 < length p → (v : ℕ) × (be32 p i ≡ ret v)
unfolding be32
be32_lt p i h =
    let (a, e) = be16_lt p i (omega arith) in
    let (b, e') = be16_lt p (i + 2) (omega arith) in (a * 65536 + b, ground arith)

pub slice_le :
    (p : Bytes) (from to : ℕ)
    → from ≤ to
    → to ≤ length p
    → slice p from to ≡ ret (take (to - from) (drop from p))
unfolding slice
slice_le p from to h k = ground arith

-- Totality of a read that is followed by more, where the packet is long enough.
module _ {ℓ} {B : Type ℓ} (Q : B → Type 0) (p : Bytes) (i : ℕ) (k : ℕ → Run B) where
  pub Returns-byte : i < length p → ((b : ℕ) → Returns Q (k b)) → Returns Q (byte p i >>= k)
  Returns-byte lt h = let (b, e) = byte_lt p i lt in rw e (h b)

  pub Returns-be16 : i + 1 < length p → ((v : ℕ) → Returns Q (k v)) → Returns Q (be16 p i >>= k)
  Returns-be16 lt h = let (v, e) = be16_lt p i lt in rw e (h v)

  pub Returns-be32 : i + 3 < length p → ((v : ℕ) → Returns Q (k v)) → Returns Q (be32 p i >>= k)
  Returns-be32 lt h = let (v, e) = be32_lt p i lt in rw e (h v)

pub Returns-slice {ℓ} :
    {B : Type ℓ} (Q : B → Type 0) (p : Bytes) (from to : ℕ) (k : Bytes → Run B)
    → from ≤ to
    → to ≤ length p
    → ((s : Bytes) → Returns Q (k s))
    → Returns Q (slice p from to >>= k)
Returns-slice Q p from to k le lt h =
    rw (slice_le p from to le lt) (h (take (to - from) (drop from p)))

pub Returns-if {ℓ} :
    {B : Type ℓ} (Q : B → Type 0) (b : Bool) (x y : Run B)
    → (b ≡ true → Returns Q x)
    → (b ≡ false → Returns Q y)
    → Returns Q (if b then x else y)
Returns-if Q true x y h k = h refl
Returns-if Q false x y h k = k refl

pub Returns-attempt {ℓ κ} :
    {A : Type ℓ} {B : Type κ} (P : A → Type 0) (Q : B → Type 0) (m : Run A) (k : Option A → Run B)
    → Returns P m
    → Returns Q (k none)
    → ((a : A) → P a → Returns Q (k (some a)))
    → Returns Q (attempt m >>= k)
Returns-attempt P Q (ret a) k h n s = s a h
Returns-attempt P Q fail k h n s = n
Returns-attempt P Q panic k h n s = absurd h
Returns-attempt P Q spin k h n s = absurd h

-- `packet[pos..pos + n].copy_from_slice(bytes)` with `n` the length of `bytes`.
unfoldable pub overwrite : Bytes → ℕ → Bytes → Run Bytes
overwrite p pos bytes = elim (leb (pos + length bytes) (length p)) [
  | true ↦ ret (take pos p ++ (bytes ++ drop (pos + length bytes) p))
  | false ↦ panic
]

pub overwrite_within :
    (p : Bytes) (pos : ℕ) (bytes : Bytes)
    → pos + length bytes ≤ length p
    → overwrite p pos bytes ≡ ret (take pos p ++ (bytes ++ drop (pos + length bytes) p))
unfolding overwrite
overwrite_within p pos bytes h = ground arith

pub overwrite_le :
    (p : Bytes) (pos : ℕ) (bytes : Bytes)
    → pos + length bytes ≤ length p
    → (p' : Bytes) × (overwrite p pos bytes ≡ ret p') × (length p' ≡ length p)
overwrite_le p pos bytes h =
    let front : Bytes = take pos p in
    let back : Bytes = drop (pos + length bytes) p in
    (
      front ++ (bytes ++ back),
      overwrite_within p pos bytes h,
      omega (
        arith,
        length-append front (bytes ++ back),
        length-append bytes back,
        length-take pos p,
        length-drop (pos + length bytes) p,
      ),
    )

pub Returns-overwrite {ℓ} :
    {B : Type ℓ} (Q : B → Type 0) (p : Bytes) (pos : ℕ) (bytes : Bytes) (k : Bytes → Run B)
    → pos + length bytes ≤ length p
    → ((p' : Bytes) → length p' ≡ length p → Returns Q (k p'))
    → Returns Q (overwrite p pos bytes >>= k)
Returns-overwrite Q p pos bytes k le h =
    let (p', e, same) = overwrite_le p pos bytes le in rw e (h p' same)

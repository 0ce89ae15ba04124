-- ===== src/Base/Total.antt =====
-- Calls that return a value on every path, and the ways in which a total call ends.
use Prim.Native.Nat.{ℕ, ◌+◌, ◌<◌}
use mathlib.Core.Bool.{Bool, true, false}
use mathlib.Core.Logic.{◌⊎◌, inl, inr}
use mathlib.Core.Option.{Option, none, some}
use mathlib.Core.Path.{◌≡◌, refl}
use trans_proxy.Base.Tests.{if◌then◌else◌}
use trans_proxy.Base.Lists.{Bytes, length}
use trans_proxy.Base.Outcome.{
  Run, ret, fail, panic, spin, ◌>>=◌, attempt, unwrap_or, Returns, be16, be16_lt,
}

-- Total correctness where the call returns a value on every path.
abbrev pub Gives {ℓ} : {A : Type ℓ} → (A → Type 0) → Run A → Type 0
Gives P (ret a) = P a
Gives P _ = ⊥

pub Gives-bind {ℓ κ} :
    {A : Type ℓ} {B : Type κ} (P : A → Type 0) (Q : B → Type 0) (m : Run A) (f : A → Run B)
    → Gives P m
    → ((a : A) → P a → Gives Q (f a))
    → Gives Q (m >>= f)
Gives-bind P Q (ret a) f h k = k a h
Gives-bind P Q fail f h k = absurd h
Gives-bind P Q panic f h k = absurd h
Gives-bind P Q spin f h k = absurd h

pub Gives-mono {ℓ} :
    {A : Type ℓ} (P Q : A → Type 0) (m : Run A) → Gives P m → ((a : A) → P a → Q a) → Gives Q m
Gives-mono P Q (ret a) h k = k a h
Gives-mono P Q fail h k = absurd h
Gives-mono P Q panic h k = absurd h
Gives-mono P Q spin h k = absurd h

pub Gives-if {ℓ} :
    {B : Type ℓ} (Q : B → Type 0) (b : Bool) (x y : Run B)
    → (b ≡ true → Gives Q x)
    → (b ≡ false → Gives Q y)
    → Gives Q (if b then x else y)
Gives-if Q true x y h k = h refl
Gives-if Q false x y h k = k refl

pub Gives-attempt {ℓ κ} :
    {A : Type ℓ} {B : Type κ} (P : A → Type 0) (Q : B → Type 0) (m : Run A) (k : Option A → Run B)
    → Returns P m
    → Gives Q (k none)
    → ((a : A) → P a → Gives Q (k (some a)))
    → Gives Q (attempt m >>= k)
Gives-attempt P Q (ret a) k h n s = s a h
Gives-attempt P Q fail k h n s = n
Gives-attempt P Q panic k h n s = absurd h
Gives-attempt P Q spin k h n s = absurd h

pub Gives-be16 {ℓ} :
    {B : Type ℓ} (Q : B → Type 0) (p : Bytes) (i : ℕ) (k : ℕ → Run B)
    → i + 1 < length p
    → ((v : ℕ) → Gives Q (k v))
    → Gives Q (be16 p i >>= k)
Gives-be16 Q p i k lt h = let (v, e) = be16_lt p i lt in rw e (h v)

-- The value that is given, with its equation.
pub Gives-ret {ℓ} :
    {A : Type ℓ} (P : A → Type 0) (m : Run A) → Gives P m → (a : A) × (m ≡ ret a) × P a
Gives-ret P (ret a) h = (a, refl, h)
Gives-ret P fail h = absurd h
Gives-ret P panic h = absurd h
Gives-ret P spin h = absurd h

-- The two ways in which a total call ends.
pub Returns-cases {ℓ} :
    {A : Type ℓ} (P : A → Type 0) (m : Run A)
    → Returns P m
    → (m ≡ fail) ⊎ ((a : A) × (m ≡ ret a) × P a)
Returns-cases P (ret a) h = inr (a, refl, h)
Returns-cases P fail h = inl refl
Returns-cases P panic h = absurd h
Returns-cases P spin h = absurd h

pub unwrap_or-Returns {ℓ} :
    {A : Type ℓ} (P : A → Type 0) (d : A) (m : Run A)
    → Returns P m
    → (a : A) × (unwrap_or d m ≡ ret a)
unwrap_or-Returns P d (ret a) h = (a, refl)
unwrap_or-Returns P d fail h = (d, refl)
unwrap_or-Returns P d panic h = absurd h
unwrap_or-Returns P d spin h = absurd h

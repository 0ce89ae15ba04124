-- ===== src/Base/Words.antt =====
-- Big-endian numbers read back from where they stand in a packet.
use Prim.Native.Nat.{ℕ, ◌+◌, ◌/◌, ◌%◌, ◌^◌, ◌<◌}
use mathlib.Core.List.{[], ◌∷◌, ◌++◌}
use mathlib.Core.Path.{◌≡◌, ap, ◌∙◌}
use native.Mathlib.Omega.{arith}
use trans_proxy.Base.Lists.{Bytes, drop, drop_past, u16_bytes, u32_bytes}
use trans_proxy.Base.Outcome.{ret, byte-drop, be16, be32}

abbrev pub u16_limit : ℕ
u16_limit = 2 ^ 16

abbrev pub u32_limit : ℕ
u32_limit = 2 ^ 32

pub be16-drop :
    (p : Bytes) (i v : ℕ) (r : Bytes)
    → v < u16_limit
    → drop i p ≡ u16_bytes v ++ r
    → be16 p i ≡ ret v
unfolding be16
be16-drop p i v r lt h = ground (
  arith,
  byte-drop p i _ _ h,
  byte-drop p (i + 1) _ _ (drop_past p i (i + 1) (_ ∷ []) _ h (omega arith)),
)

u32_bytes-halves :
    (v : ℕ) (r : Bytes) → u32_bytes v ++ r ≡ u16_bytes (v / 65536) ++ (u16_bytes (v % 65536) ++ r)
u32_bytes-halves v r = ground arith

pub be32-drop :
    (p : Bytes) (i v : ℕ) (r : Bytes)
    → v < u32_limit
    → drop i p ≡ u32_bytes v ++ r
    → be32 p i ≡ ret v
unfolding be32
be32-drop p i v r lt h =
    let low = u16_bytes (v % 65536) ++ r in
    let halves : drop i p ≡ u16_bytes (v / 65536) ++ low = h ∙ u32_bytes-halves v r in
    let behind = drop_past p i (i + 2) (u16_bytes (v / 65536)) low halves (omega arith) in
    rw
      (
        be16-drop p i (v / 65536) low (omega arith) halves,
        be16-drop p (i + 2) (v % 65536) r (omega arith) behind,
      )
      (ap ret (omega arith))

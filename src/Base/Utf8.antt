-- ===== src/Base/Utf8.antt =====
-- `std::str::from_utf8`: strings are their UTF-8 bytes, checked by the table of well-formed
-- sequences (no overlong forms, no surrogates, nothing past U+10FFFF).
use Prim.Native.Nat.{ℕ, ◌-◌}
use mathlib.Core.Bool.{Bool, false, ◌&&◌}
use mathlib.Core.List.{[], ◌∷◌}
use mathlib.Core.Option.{Option, none, some}
use trans_proxy.Base.Tests.{leb, ltb, ◌==◌, if◌then◌else◌}
use trans_proxy.Base.Lists.{Bytes}

-- The continuation bytes still due, and the range that the next one must lie in.
pub record Utf8State : Type 0 where
  pub due : ℕ
  pub low : ℕ
  pub high : ℕ

abbrev pub utf8_start : Utf8State
utf8_start = record { due = 0; low = 0x80; high = 0xBF }

utf8_lead : ℕ → Option Utf8State
utf8_lead b =
    if ltb b 0x80
    then some utf8_start
    else if leb 0xC2 b && leb b 0xDF
    then some (record { due = 1; low = 0x80; high = 0xBF })
    else if b == 0xE0
    then some (record { due = 2; low = 0xA0; high = 0xBF })
    else if b == 0xED
    then some (record { due = 2; low = 0x80; high = 0x9F })
    else if leb 0xE1 b && leb b 0xEF
    then some (record { due = 2; low = 0x80; high = 0xBF })
    else if b == 0xF0
    then some (record { due = 3; low = 0x90; high = 0xBF })
    else if leb 0xF1 b && leb b 0xF3
    then some (record { due = 3; low = 0x80; high = 0xBF })
    else if b == 0xF4
    then some (record { due = 3; low = 0x80; high = 0x8F })
    else none

utf8_step : Utf8State → ℕ → Option Utf8State
unfolding utf8_lead
utf8_step s b =
    if s.due == 0
    then utf8_lead b
    else if leb s.low b && leb b s.high
    then some (record { due = s.due - 1; low = 0x80; high = 0xBF })
    else none

utf8_from : Utf8State → Bytes → Bool
utf8_from s [] = s.due == 0
utf8_from s (b ∷ r) = elim (utf8_step s b) [ none ↦ false | some t ↦ utf8_from t r ]

unfoldable pub is_utf8 : Bytes → Bool
unfolding utf8_from utf8_step
is_utf8 = utf8_from utf8_start

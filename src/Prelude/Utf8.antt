-- ===== src/Prelude/Utf8.antt =====
-- `str::from_utf8` of the standard library: the characters of UTF-8 bytes.
use Prim.Native.Nat.{ℕ, ◌+◌, ◌-◌, ◌*◌}
use mathlib.Core.Bool.{◌&&◌}
use mathlib.Core.List.{List, [], ◌∷◌}
use mathlib.Core.Option.{Option, none, some}
use ai_data_hackathon.Prelude.Tests.{leb, ◌==◌, if◌then◌else◌}
use ai_data_hackathon.Prelude.Text.{Text}

-- `str::from_utf8`. `State` is what the bytes so far have left open: how many more bytes the character
-- takes, the range of the next one, and the bits so far.
pub record Utf8State : Type 0 where
  pub more : ℕ
  pub low : ℕ
  pub high : ℕ
  pub bits : ℕ

abbrev utf8_start : Utf8State
utf8_start = record { more = 0; low = 0; high = 0; bits = 0 }

-- After the first byte of a character of several, if it is one.
abbrev utf8_lead : ℕ → Option Utf8State
utf8_lead b =
    if leb 0xc2 b && leb b 0xdf
    then some (record { more = 1; low = 0x80; high = 0xbf; bits = b - 0xc0 })
    else if b == 0xe0
    then some (record { more = 2; low = 0xa0; high = 0xbf; bits = 0 })
    else if b == 0xed
    then some (record { more = 2; low = 0x80; high = 0x9f; bits = 0xd })
    else if leb 0xe1 b && leb b 0xef
    then some (record { more = 2; low = 0x80; high = 0xbf; bits = b - 0xe0 })
    else if b == 0xf0
    then some (record { more = 3; low = 0x90; high = 0xbf; bits = 0 })
    else if leb 0xf1 b && leb b 0xf3
    then some (record { more = 3; low = 0x80; high = 0xbf; bits = b - 0xf0 })
    else if b == 0xf4
    then some (record { more = 3; low = 0x80; high = 0x8f; bits = 4 })
    else none

-- One byte: the state after it, `none` where the bytes are no UTF-8, and the character that it ends.
abbrev utf8_step : Option Utf8State → ℕ → Option Utf8State × Option ℕ
utf8_step none b = (none, none)
utf8_step (some s) b =
    if s.more == 0
    then if leb b 0x7f then (some utf8_start, some b) else (utf8_lead b, none)
    else if leb s.low b && leb b s.high
    then if s.more == 1 then (some utf8_start, some (s.bits * 64 + (b - 0x80))) else (
      some (record { more = s.more - 1; low = 0x80; high = 0xbf; bits = s.bits * 64 + (b - 0x80) }),
      none,
    )
    else (none, none)

abbrev utf8_push : Option ℕ → Option Text → Option Text
utf8_push c none = none
utf8_push none (some rest) = some rest
utf8_push (some c) (some rest) = some (c ∷ rest)

-- At the end of the bytes, no character may be open.
abbrev utf8_end : Option Utf8State → Option Text
utf8_end none = none
utf8_end (some s) = if s.more == 0 then some [] else none

abbrev pub from_utf8_at : Option Utf8State → List ℕ → Option Text
from_utf8_at s [] = utf8_end s
from_utf8_at s (b ∷ bs) = let next = utf8_step s b in utf8_push next.1 (from_utf8_at next.0 bs)

abbrev pub from_utf8 : List ℕ → Option Text
from_utf8 bytes = from_utf8_at (some utf8_start) bytes

-- ===== src/Wire/Utf8.antt =====
-- `String::from_utf8` of the standard library: a Rust string is its bytes, and which bytes are a
-- string is the table of well-formed sequences of the Unicode standard.
use cxdb.Prelude.{
  ℕ, zero, suc, ◌-◌, Bool, false, ◌&&◌, Option, none, some, [], ◌∷◌, ltb, leb, if◌then◌else◌,
}
use cxdb.Wire.{Bytes}

-- What may follow: `more` bytes, the next one from `lo` to `hi`.
record Expect : Type 0 where
  more : ℕ
  lo : ℕ
  hi : ℕ

abbrev expect : ℕ → ℕ → ℕ → Option Expect
expect n lo hi = some (record { more = n; lo = lo; hi = hi })

lead : ℕ → Option Expect
lead b =
    if ltb b 0x80
    then expect 0 0x80 0xbf
    else if ltb b 0xc2
    then none
    else if ltb b 0xe0
    then expect 1 0x80 0xbf
    else if ltb b 0xe1
    then expect 2 0xa0 0xbf
    else if ltb b 0xed
    then expect 2 0x80 0xbf
    else if ltb b 0xee
    then expect 2 0x80 0x9f
    else if ltb b 0xf0
    then expect 2 0x80 0xbf
    else if ltb b 0xf1
    then expect 3 0x90 0xbf
    else if ltb b 0xf4
    then expect 3 0x80 0xbf
    else if ltb b 0xf5
    then expect 3 0x80 0x8f
    else none

utf8_step : Expect → ℕ → Option Expect
utf8_step e b = if leb e.lo b && leb b e.hi then expect (e.more - 1) 0x80 0xbf else none

next : Expect → ℕ → Option Expect
unfolding lead utf8_step
next e b = elim e.more [ zero ↦ lead b | suc n ↦ utf8_step e b ]

valid_from : Option Expect → Bytes → Bool
unfolding next
valid_from none bs = false
valid_from (some e) [] = ltb e.more 1
valid_from (some e) (b ∷ bs) = valid_from (next e b) bs

unfoldable pub is_utf8 : Bytes → Bool
unfolding valid_from
is_utf8 bs = valid_from (expect 0 0x80 0xbf) bs

unfoldable pub from_utf8 : Bytes → Option Bytes
unfolding is_utf8
from_utf8 bs = if is_utf8 bs then some bs else none

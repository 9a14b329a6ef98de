-- ===== src/Base/Word.antt =====
-- Go's int64 and uint64 as bit patterns: numbers below 2^64, with the wrap-around written out.
-- An int64 below 2^63 is itself; one from 2^63 on is negative, its value less 2^64. So the
-- conversions between int64 and uint64 change nothing.
use Prim.Native.Nat.{ℕ, ◌+◌, ◌-◌, ◌*◌, ◌/◌, ◌%◌}
use mathlib.Core.Bool.{Bool}
use nuvex.Base.Tests.{ltb, leb, if◌then◌else◌}

abbrev pub Int64 : Type 0
Int64 = ℕ

abbrev pub Uint64 : Type 0
Uint64 = ℕ

-- 2^63 and 2^64
abbrev pub half_word : ℕ
half_word = 9_223_372_036_854_775_808

abbrev pub word : ℕ
word = 18_446_744_073_709_551_616

infixl 65 ◌+64◌ ◌-64◌
infixl 70 ◌*64◌
infix 50 ◌<64◌ ◌≤64◌
abbrev pub ◌+64◌ : ℕ → ℕ → ℕ
a +64 b = (a + b) % word

abbrev pub ◌-64◌ : ℕ → ℕ → ℕ
a -64 b = (a + (word - b)) % word

abbrev pub ◌*64◌ : ℕ → ℕ → ℕ
a *64 b = (a * b) % word

abbrev pub is_negative : Int64 → Bool
is_negative a = leb half_word a

-- `<` and `<=` of int64: the order of the patterns with the sign bit turned round.
abbrev pub ◌<64◌ : Int64 → Int64 → Bool
a <64 b = ltb ((a + half_word) % word) ((b + half_word) % word)

abbrev pub ◌≤64◌ : Int64 → Int64 → Bool
a ≤64 b = leb ((a + half_word) % word) ((b + half_word) % word)

-- `/` of int64 by a positive constant: it rounds towards zero.
abbrev pub div64 : Int64 → ℕ → Int64
div64 a d = if is_negative a then (word - (word - a) / d) % word else a / d

-- ===== src/Prelude/Int.antt =====
-- Signed integers, and the conversions from text of the standard library: `std::stol`, `std::stoi`
-- and `atoi`.
use Prim.Native.Nat.{ℕ, suc, ◌+◌, ◌-◌, ◌*◌, ◌/◌, ◌%◌, ◌^◌}
use mathlib.Core.Bool.{Bool, true, false}
use mathlib.Core.Option.{Option, none, some}
use mathlib.Core.List.{[], ◌∷◌}
use csv_to_kafka_using_cpp.Prelude.Booleans.{◌==◌, ltb, leb, if◌then◌else◌}
use csv_to_kafka_using_cpp.Prelude.Text.{Text, codes}
use csv_to_kafka_using_cpp.Prelude.Result.{Result, ok, throws, undefined, std_exception}

-- `negsuc n` is -(n + 1).
pub data ℤ : Type 0 where
  pos : ℕ → ℤ
  negsuc : ℕ → ℤ

-- a - b, as an integer.
abbrev pub sub_ℕ : ℕ → ℕ → ℤ
sub_ℕ a b = if leb b a then pos (a - b) else negsuc (b - a - 1)

abbrev pub neg : ℕ → ℤ
neg n = sub_ℕ 0 n

abbrev pub pos_part : ℤ → ℕ
pos_part (pos n) = n
pos_part (negsuc n) = 0

abbrev pub neg_part : ℤ → ℕ
neg_part (pos n) = 0
neg_part (negsuc n) = suc n

infixl 65 ◌-ℤ◌
abbrev pub ◌-ℤ◌ : ℤ → ℤ → ℤ
a -ℤ b = sub_ℕ (pos_part a + neg_part b) (neg_part a + pos_part b)

-- Division by a positive number: C++ rounds towards zero.
abbrev pub div_trunc : ℤ → ℕ → ℤ
div_trunc (pos n) d = pos (n / d)
div_trunc (negsuc n) d = neg (suc n / d)

-- a < b
abbrev pub lt_ℤ : ℤ → ℤ → Bool
lt_ℤ a b = ltb (pos_part a + neg_part b) (pos_part b + neg_part a)

-- The value lies in the range of a signed type of `w` bits, `w` at least 1.
abbrev pub fits : ℕ → ℤ → Bool
fits w (pos n) = ltb n (2 ^ (w - 1))
fits w (negsuc n) = ltb n (2 ^ (w - 1))

-- The integer of a two's complement pattern of 32 bits, and the pattern of an integer.
abbrev pub signed32 : ℕ → ℤ
signed32 n = if ltb n (2 ^ 31) then pos n else negsuc (2 ^ 32 - n - 1)

abbrev pub pattern32 : ℤ → ℕ
pattern32 (pos n) = n % 2 ^ 32
pattern32 (negsuc n) = 2 ^ 32 - 1 - n % 2 ^ 32

-- Conversion of a `long` to an `int`.
abbrev pub to_int : ℤ → ℤ
to_int z = signed32 (pattern32 z)

is_space : ℕ → Bool
is_space c = if c == b' ' then true else if leb 9 c then leb c 13 else false

is_digit : ℕ → Bool
is_digit c = if leb b'0' c then leb c b'9' else false

skip_space : Text → Text
unfolding is_space
skip_space [] = []
skip_space (c ∷ cs) = let rest = skip_space cs in if is_space c then rest else c ∷ cs

-- The number that the leading digits make, behind those read so far.
digits_from : ℕ → Text → ℕ
unfolding is_digit
digits_from n [] = n
digits_from n (c ∷ cs) =
    let more = digits_from (10 * n + (c - b'0')) cs in if is_digit c then more else n

digits : Text → Option ℕ
unfolding digits_from
digits [] = none
digits (c ∷ cs) = if is_digit c then some (digits_from 0 (c ∷ cs)) else none

signed : Text → Option ℤ
unfolding digits
signed [] = none
signed (c ∷ cs) =
    if c == b'-'
    then elim (digits cs) [ none ↦ none | some n ↦ some (neg n) ]
    else elim (digits (if c == b'+' then cs else c ∷ cs)) [ none ↦ none | some n ↦ some (pos n) ]

-- `strtol` in base 10: `none` if there is no digit. What follows the digits is ignored.
unfoldable pub strtol : Text → Option ℤ
unfolding skip_space signed
strtol t = signed (skip_space t)

checked : ℕ → Text → Option ℤ → Result ℤ
checked w name none = throws (std_exception name)
checked w name (some z) = if fits w z then ok z else throws (std_exception name)

-- Both of the exceptions that they throw carry their name.
unfoldable pub stol : Text → Result ℤ
unfolding strtol checked
stol t = checked 64 (codes "stol") (strtol t)

unfoldable pub stoi : Text → Result ℤ
unfolding strtol checked
stoi t = checked 32 (codes "stoi") (strtol t)

-- `atoi` gives 0 where there is no number, and is undefined for one that is out of range.
unfoldable pub atoi : Text → Result ℤ
unfolding strtol
atoi t = elim (strtol t) [ none ↦ ok (pos 0) | some z ↦ if fits 32 z then ok z else undefined ]

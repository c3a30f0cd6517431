-- ===== src/Dfe/Money.antt =====
-- internal/dfe/money.go: amounts in cents, as Go's int64.
pub mod Sum
pub mod Read
pub mod Format
pub mod Grouped
use nanci.Prelude.{
  ℕ, zero, suc, ◌+◌, ◌-◌, ◌*◌, ◌/◌, ◌%◌, Bool, true, false, not, ◌&&◌, ◌||◌, List, [], ◌∷◌, ◌++◌,
  Option, none, some, ltb, leb, ◌==◌, length, all_by, if◌then◌else◌,
}
use nanci.Prelude.Int.{ℤ, pos, negsuc, ltb_ℤ, ◌+ℤ◌, ◌-ℤ◌}
use nanci.Text.{Bytes, Unicode, trim_space, is_digit}

-- 2 ^ 63 and 2 ^ 64
abbrev pub half : ℕ
half = 9223372036854775808

abbrev pub whole : ℕ
whole = 18446744073709551616

-- the int64 of 64 bits
abbrev pub signed : ℕ → ℤ
signed m = if ltb m half then pos m else negsuc (whole - 1 - m)

-- the wrap-around of int64
unfoldable pub wrap64 : ℤ → ℤ
wrap64 (pos n) = signed (n % whole)
wrap64 (negsuc n) = signed (whole - 1 - n % whole)

abbrev pub is_zero : ℤ → Bool
is_zero (pos n) = n == 0
is_zero (negsuc n) = false

-- `!=` on booleans
abbrev pub differ : Bool → Bool → Bool
differ true b = not b
differ false b = b

-- Add and Sub; `none` is ErrMoneyOverflow
unfoldable pub add_money : ℤ → ℤ → Option ℤ
unfolding wrap64 ◌+ℤ◌
add_money m other =
    let result = wrap64 (m +ℤ other) in
    if differ (ltb_ℤ m result) (ltb_ℤ (pos 0) other) && not (is_zero other)
    then none
    else some result

unfoldable pub sub_money : ℤ → ℤ → Option ℤ
unfolding wrap64 ◌-ℤ◌
sub_money m other =
    let result = wrap64 (m -ℤ other) in
    if differ (ltb_ℤ result m) (ltb_ℤ (pos 0) other) && not (is_zero other)
    then none
    else some result

pub data MoneyProblem : Type 0 where
  invalid_format money_overflow : MoneyProblem

-- the text before the first dot, and what follows the dot
unfoldable pub integer_part : Bytes → Bytes
integer_part [] = []
integer_part (c ∷ s) = if c == b'.' then [] else c ∷ integer_part s

unfoldable pub fraction : Bytes → Option Bytes
fraction [] = none
fraction (c ∷ s) = if c == b'.' then some s else fraction s

abbrev pub digits_within : ℕ → Bytes → Bool
digits_within most s = all_by is_digit s && (leb 1 (length s) && leb (length s) most)

abbrev pub fraction_matches : Option Bytes → Bool
fraction_matches none = true
fraction_matches (some s) = digits_within 2 s

-- `^[0-9]{1,15}(\.[0-9]{1,2})?$`
unfoldable pub money_regex : Bytes → Bool
unfolding integer_part fraction
money_regex s = digits_within 15 (integer_part s) && fraction_matches (fraction s)

-- fractionalPart, padded to two decimals
abbrev pub two_decimals : Option Bytes → Bytes
two_decimals none = b'0' ∷ b'0' ∷ []
two_decimals (some s) = if length s == 1 then s ++ (b'0' ∷ []) else s

-- the value of decimal digits
unfoldable pub read_from : ℕ → Bytes → ℕ
read_from acc [] = acc
read_from acc (c ∷ s) = read_from (acc * 10 + (c - b'0')) s

-- strconv.ParseInt of digits; `none` is a range error
abbrev pub in_range : ℕ → Option ℕ
in_range n = if ltb n half then some n else none

abbrev pub parsed : Option ℕ → ℤ × Option MoneyProblem
parsed none = (pos 0, some money_overflow)
parsed (some n) = (pos n, none)

module _ ⦃u : Unicode⦄ where
  unfoldable pub parse_money : Bytes → ℤ × Option MoneyProblem
  unfolding money_regex read_from trim_space
  parse_money value =
      let s = trim_space value in
      if not (money_regex s)
      then (pos 0, some invalid_format)
      else parsed (in_range (read_from 0 (integer_part s ++ two_decimals (fraction s))))

-- strconv.FormatInt of a number, with enough fuel
unfoldable pub decimal : ℕ → ℕ → Bytes
decimal zero n = []
decimal (suc fuel) n =
    let front = decimal fuel (n / 10) in
    if ltb n 10 then (n + b'0') ∷ [] else front ++ ((n % 10 + b'0') ∷ [])

unfoldable pub format_nat : ℕ → Bytes
unfolding decimal
format_nat n = decimal (n + 1) n

unfoldable pub format_int : ℤ → Bytes
unfolding format_nat
format_int (pos n) = format_nat n
format_int (negsuc n) = b'-' ∷ format_nat (n + 1)

-- the loop that writes the dots: `i` characters are written
unfoldable pub group : ℕ → ℕ → Bytes → Bytes
group len i [] = []
group len i (c ∷ s) =
    let rest = c ∷ group len (i + 1) s in
    if ltb 0 i && (len - i) % 3 == 0 then b'.' ∷ rest else rest

-- Go's `/` and `%` by 100, which round to zero
abbrev pub quot_100 : ℤ → ℤ
quot_100 (pos n) = pos (n / 100)
quot_100 (negsuc n) = pos 0 -ℤ pos ((n + 1) / 100)

abbrev pub rem_100 : ℤ → ℤ
rem_100 (pos n) = pos (n % 100)
rem_100 (negsuc n) = pos 0 -ℤ pos ((n + 1) % 100)

-- `%02d`
abbrev pub pad_2 : Bytes → Bytes
pad_2 s = if length s == 1 then b'0' ∷ s else s

abbrev pub sign_of : ℤ → Bytes
sign_of cents = if ltb_ℤ cents (pos 0) then b'-' ∷ [] else []

abbrev pub magnitude : ℤ → ℤ
magnitude cents = if ltb_ℤ cents (pos 0) then wrap64 (pos 0 -ℤ cents) else cents

unfoldable pub format_brl : ℤ → Bytes
unfolding wrap64 format_int group ◌-ℤ◌
format_brl cents =
    let m = magnitude cents in
    let digits = format_int (quot_100 m) in
    sign_of cents ++ (group (length digits) 0 digits ++ (b',' ∷ pad_2 (format_int (rem_100 m))))

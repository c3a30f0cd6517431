-- ===== src/Dfe/Money/Read.antt =====
-- What ParseMoney reads: the value of the decimal, in cents, which never overflows.
use nanci.Prelude.{
  ℕ, zero, suc, ◌+◌, ◌-◌, ◌*◌, ◌≤◌, ◌<◌, ◌≡◌, refl, ◌∙◌, arith, true, false, [], ◌∷◌, ◌++◌, Option,
  none, some, ltb, length, all_by, Bool-cases, ◌⊎◌, inl, inr,
}
use native.Mathlib.Nat.{mul-le-mul_right}
use nanci.Prelude.Int.{pos}
use nanci.Text.{Bytes, Unicode, trim_space, is_digit}
use nanci.Dfe.Money.{
  half, read_from, money_regex, integer_part, fraction, two_decimals, fraction_matches, parse_money,
  invalid_format,
}

abbrev pub pow10 : ℕ → ℕ
pow10 zero = 1
pow10 (suc n) = 10 * pow10 n

pow10_mono : (n m : ℕ) → n ≤ m → pow10 n ≤ pow10 m
pow10_mono zero zero h = omega arith
pow10_mono zero (suc m) h = omega (arith, pow10_mono zero m (omega arith))
pow10_mono (suc n) zero h = elim h [ ]
pow10_mono (suc n) (suc m) h = omega (arith, pow10_mono n m (omega (arith, h)))

read_from-append : (acc : ℕ) (s t : Bytes) → read_from acc (s ++ t) ≡ read_from (read_from acc s) t
unfolding read_from
read_from-append acc [] t = refl
read_from-append acc (c ∷ s) t = read_from-append (acc * 10 + (c - b'0')) s t

read_from-bound :
    (acc : ℕ) (s : Bytes)
    → all_by is_digit s ≡ true
    → read_from acc s + 1 ≤ (acc + 1) * pow10 (length s)
unfolding read_from
read_from-bound acc [] h = omega arith
read_from-bound acc (c ∷ s) h =
    let p = pow10 (length s) in
    let digit : acc * 10 + (c - b'0') + 1 ≤ (acc + 1) * 10 = ground (arith, h) in
    let rest : all_by is_digit s ≡ true = ground (arith, h) in
    omega (arith, read_from-bound (acc * 10 + (c - b'0')) s rest, mul-le-mul_right p digit)

-- the hundredths that one or two decimals stand for
abbrev pub hundredths : Option Bytes → ℕ
hundredths none = 0
hundredths (some []) = 0
hundredths (some (d ∷ [])) = 10 * (d - b'0')
hundredths (some (d ∷ e ∷ s)) = 10 * (d - b'0') + (e - b'0')

abbrev pub amount : Bytes → ℕ
amount s = read_from 0 (integer_part s) * 100 + hundredths (fraction s)

read_two_decimals :
    (n : ℕ) (f : Option Bytes)
    → fraction_matches f ≡ true
    → read_from n (two_decimals f) ≡ n * 100 + hundredths f
unfolding read_from
read_two_decimals n none h = omega arith
read_two_decimals n (some []) h = absurd (cc)
read_two_decimals n (some (d ∷ [])) h = omega arith
read_two_decimals n (some (d ∷ e ∷ [])) h = omega arith
read_two_decimals n (some (d ∷ e ∷ c ∷ s)) h = absurd (ground (arith, h))

read_amount :
    (s : Bytes)
    → money_regex s ≡ true
    → read_from 0 (integer_part s ++ two_decimals (fraction s)) ≡ amount s
unfolding money_regex
read_amount s h =
    read_from-append 0 (integer_part s) (two_decimals (fraction s))
    ∙ read_two_decimals (read_from 0 (integer_part s)) (fraction s) (ground (arith, h))

hundredths_lt : (f : Option Bytes) → fraction_matches f ≡ true → hundredths f < 100
hundredths_lt none h = omega arith
hundredths_lt (some []) h = omega arith
hundredths_lt (some (d ∷ [])) h = ground (arith, h)
hundredths_lt (some (d ∷ e ∷ s)) h = ground (arith, h)

-- 15 digits and two decimals stay under 10 ^ 17 cents
amount_lt : (s : Bytes) → money_regex s ≡ true → amount s < 100000000000000000
unfolding money_regex
amount_lt s h =
    let digits : all_by is_digit (integer_part s) ≡ true = ground (arith, h) in
    let few : length (integer_part s) ≤ 15 = ground (arith, h) in
    let cents : fraction_matches (fraction s) ≡ true = ground (arith, h) in
    omega (
      arith,
      read_from-bound 0 (integer_part s) digits,
      pow10_mono (length (integer_part s)) 15 few,
      hundredths_lt (fraction s) cents,
    )

module _ ⦃u : Unicode⦄ where
  -- ParseMoney reads the decimal exactly and its overflow branch is never taken: the amount has at most
  -- 17 digits. Every other text is an invalid format.
  pub parse_money-amount :
      (value : Bytes)
      → ((money_regex (trim_space value) ≡ true)
          × (amount (trim_space value) < 100000000000000000)
          × (parse_money value ≡ (pos (amount (trim_space value)), none)))
        ⊎ ((money_regex (trim_space value) ≡ false)
            × (parse_money value ≡ (pos 0, some invalid_format)))
  unfolding parse_money
  parse_money-amount value = elim (Bool-cases (money_regex (trim_space value))) [
    | inr bad ↦ inr (bad, rw bad refl)
    | inl good ↦
        let small = amount_lt (trim_space value) good in
        let fits : ltb (amount (trim_space value)) half ≡ true = ground (arith, small) in
        inl (good, small, rw (good, read_amount (trim_space value) good, fits) refl)
  ]

-- ===== src/Dfe/Money/Format.antt =====
-- FormatBRL, read back: the text stands for the amount that was formatted.
use nanci.Prelude.{
  ℕ, zero, suc, ◌+◌, ◌-◌, ◌*◌, ◌/◌, ◌%◌, ◌≤◌, ◌<◌, ◌≡◌, ◌≢◌, refl, ◌∙◌, ap, arith, true, false,
  ◌&&◌, [], ◌∷◌, ◌++◌, ltb, ◌==◌, if◌then◌else◌, length, Bool-cases, inl, inr, ==_iff,
}
use nanci.Prelude.Int.{ℤ, pos, negsuc, ◌-ℤ◌, ltb_ℤ}
use nanci.Text.{codes, Bytes, is_digit}
use nanci.Dfe.Money.{half, wrap64, decimal, format_nat, format_int, group, pad_2, format_brl}
use nanci.Dfe.Money.Sum.{IsInt64}

-- A reader of "1.234,56": it takes the digits and passes over the rest.
unfoldable pub read_back : ℕ → Bytes → ℕ
read_back acc [] = acc
read_back acc (c ∷ s) = read_back (if is_digit c then acc * 10 + (c - b'0') else acc) s

abbrev negated : ℕ → ℤ
negated n = pos 0 -ℤ pos n

-- and one that reads the sign
unfoldable pub read_brl : Bytes → ℤ
unfolding read_back ◌-ℤ◌
read_brl [] = pos 0
read_brl (c ∷ s) = if c == b'-' then negated (read_back 0 s) else pos (read_back 0 (c ∷ s))

read_back_nil : (acc : ℕ) → read_back acc [] ≡ acc
unfolding read_back
read_back_nil acc = refl

read_back-append : (acc : ℕ) (s t : Bytes) → read_back acc (s ++ t) ≡ read_back (read_back acc s) t
unfolding read_back
read_back-append acc [] t = refl
read_back-append acc (c ∷ s) t =
    read_back-append (if is_digit c then acc * 10 + (c - b'0') else acc) s t

read_back-digit :
    (acc d : ℕ) (s : Bytes) → d < 10 → read_back acc ((d + b'0') ∷ s) ≡ read_back (acc * 10 + d) s
unfolding read_back
read_back-digit acc d s h =
    let t : is_digit (d + b'0') ≡ true = ground (arith, h) in
    let e : d + b'0' - b'0' ≡ d = omega arith in rw (t, e) refl

one_digit : (acc d : ℕ) → d < 10 → read_back acc ((d + b'0') ∷ []) ≡ acc * 10 + d
one_digit acc d h = read_back-digit acc d [] h ∙ read_back_nil (acc * 10 + d)

read_back-decimal : (fuel n : ℕ) → n < fuel → read_back 0 (decimal fuel n) ≡ n
unfolding decimal
read_back-decimal zero n h = elim h [ ]
read_back-decimal (suc fuel) n h = elim (Bool-cases (ltb n 10)) [
  | inl e ↦ rw e (one_digit 0 n (ground (arith, e)) ∙ omega arith)
  | inr e ↦
      let ih = read_back-decimal fuel (n / 10) (ground (arith, h, e)) in
      rw
        (
          e,
          read_back-append 0 (decimal fuel (n / 10)) ((n % 10 + b'0') ∷ []),
          ih,
          one_digit (n / 10) (n % 10) (omega arith),
        )
        (omega arith)
]

read_back-group : (len i acc : ℕ) (s : Bytes) → read_back acc (group len i s) ≡ read_back acc s
unfolding group read_back
read_back-group len i acc [] = refl
read_back-group len i acc (c ∷ s) =
    let ih = read_back-group len (i + 1) (if is_digit c then acc * 10 + (c - b'0') else acc) s in
    elim (Bool-cases (ltb 0 i && (len - i) % 3 == 0)) [ inl e ↦ rw e ih | inr e ↦ rw e ih ]

pub decimal_one : (f n : ℕ) → n < 10 → decimal (suc f) n ≡ (n + b'0') ∷ []
unfolding decimal
decimal_one f n h = let e : ltb n 10 ≡ true = ground (arith, h) in rw e refl

pub decimal_two :
    (f n : ℕ) → 10 ≤ n → n < 100 → decimal (suc (suc f)) n ≡ (n / 10 + b'0') ∷ (n % 10 + b'0') ∷ []
unfolding decimal
decimal_two f n h k =
    let e : ltb n 10 ≡ false = ground (arith, h) in
    let d : ltb (n / 10) 10 ≡ true = ground (arith, k) in rw (e, d) refl

read_back-pad_2 : (acc r : ℕ) → r < 100 → read_back acc (pad_2 (format_nat r)) ≡ acc * 100 + r
unfolding format_nat
read_back-pad_2 acc r h = elim (Bool-cases (ltb r 10)) [
  | inl e ↦
      let small : r < 10 = ground (arith, e) in
      let plus : r + 1 ≡ suc r = omega arith in
      rw
        (
          plus,
          decimal_one r r small,
          read_back-digit acc 0 ((r + b'0') ∷ []) (omega arith),
          one_digit (acc * 10 + 0) r small,
        )
        (omega arith)
  | inr e ↦
      let big : 10 ≤ r = ground (arith, e) in
      let plus : r + 1 ≡ suc (suc (r - 1)) = omega (arith, big) in
      rw
        (
          plus,
          decimal_two (r - 1) r big h,
          read_back-digit acc (r / 10) ((r % 10 + b'0') ∷ []) (omega (arith, h)),
          one_digit (acc * 10 + r / 10) (r % 10) (omega arith),
        )
        (omega arith)
]

-- the text after the sign
abbrev pub body : ℕ → Bytes
body n =
    group (length (format_nat (n / 100))) 0 (format_nat (n / 100))
    ++ (b',' ∷ pad_2 (format_nat (n % 100)))

read_back-comma : (acc : ℕ) (s : Bytes) → read_back acc (b',' ∷ s) ≡ read_back acc s
unfolding read_back
read_back-comma acc s = refl

read_back-body : (n : ℕ) → read_back 0 (body n) ≡ n
unfolding format_nat
read_back-body n =
    let digits = decimal (n / 100 + 1) (n / 100) in
    rw
      (
        read_back-append 0 (group (length digits) 0 digits) (b',' ∷ pad_2 (format_nat (n % 100))),
        read_back-group (length digits) 0 0 digits,
        read_back-decimal (n / 100 + 1) (n / 100) (omega arith),
        read_back-comma (n / 100) (pad_2 (format_nat (n % 100))),
        read_back-pad_2 (n / 100) (n % 100) (omega arith),
      )
      (omega arith)

-- a number starts with a digit
pub starts :
    (fuel n : ℕ) → n < fuel → (c : ℕ) × (s : Bytes) × (decimal fuel n ≡ c ∷ s) × (is_digit c ≡ true)
unfolding decimal
starts zero n h = elim h [ ]
starts (suc fuel) n h = elim (Bool-cases (ltb n 10)) [
  | inl e ↦ (n + b'0', [], rw e refl, ground (arith, e))
  | inr e ↦
      let (c, s, front, digit) = starts fuel (n / 10) (ground (arith, h, e)) in
      (c, s ++ ((n % 10 + b'0') ∷ []), rw (e, front) refl, digit)
]

read_brl-digit :
    (c : ℕ) (s : Bytes) → is_digit c ≡ true → read_brl (c ∷ s) ≡ pos (read_back 0 (c ∷ s))
unfolding read_brl
read_brl-digit c s h = let e : (c == b'-') ≡ false = ground (arith, h) in rw e refl

read_brl-dash : (s : Bytes) → read_brl (b'-' ∷ s) ≡ negated (read_back 0 s)
unfolding read_brl
read_brl-dash s = refl

body_starts : (n : ℕ) → (c : ℕ) × (s : Bytes) × (body n ≡ c ∷ s) × (is_digit c ≡ true)
unfolding format_nat group
body_starts n =
    let (c, s, front, digit) = starts (n / 100 + 1) (n / 100) (omega arith) in
    (c, group (length (c ∷ s)) 1 s ++ (b',' ∷ pad_2 (format_nat (n % 100))), rw front refl, digit)

read_brl-body : (n : ℕ) → read_brl (body n) ≡ pos n
read_brl-body n =
    let (c, s, front, digit) = body_starts n in
    let value : read_back 0 (c ∷ s) ≡ n = rw front at (read_back-body n) in
    rw front (read_brl-digit c s digit ∙ ap pos value)

not_negative : (n : ℕ) → ltb_ℤ (pos n) (pos 0) ≡ false
not_negative n = ground arith

negative : (n : ℕ) → ltb_ℤ (negsuc n) (pos 0) ≡ true
negative n = ground arith

opposite : (n : ℕ) → n + 1 < half → wrap64 (pos 0 -ℤ negsuc n) ≡ pos (n + 1)
unfolding wrap64 ◌-ℤ◌
opposite n h = ground arith

pub format_brl-pos : (n : ℕ) → format_brl (pos n) ≡ body n
unfolding format_brl format_int
format_brl-pos n = rw (not_negative n) refl

pub format_brl-negsuc : (n : ℕ) → n + 1 < half → format_brl (negsuc n) ≡ b'-' ∷ body (n + 1)
unfolding format_brl format_int
format_brl-negsuc n h = rw (negative n, opposite n h) refl

negated_suc : (n : ℕ) → negated (n + 1) ≡ negsuc n
unfolding ◌-ℤ◌
negated_suc n = ground arith

pub room : (n : ℕ) → IsInt64 (negsuc n) → negsuc n ≢ negsuc (half - 1) → n + 1 < half
room n fits other = elim (Bool-cases (n == half - 1)) [
  | inl e ↦ absurd (other (ap negsuc ((==_iff n (half - 1)).0 e)))
  | inr e ↦ ground (arith, fits, e)
]

-- The digits of the text, with its sign, are the amount.
pub read_brl-format_brl : (z : ℤ) → IsInt64 z → z ≢ negsuc (half - 1) → read_brl (format_brl z) ≡ z
read_brl-format_brl (pos n) fits other = rw (format_brl-pos n) (read_brl-body n)
read_brl-format_brl (negsuc n) fits other =
    rw
      (
        format_brl-negsuc n (room n fits other),
        read_brl-dash (body (n + 1)),
        read_back-body (n + 1),
      )
      (negated_suc n)

-- The least int64 has no opposite: its text has two more signs, one of them after the comma.
format_brl_least : format_brl (negsuc (half - 1)) ≡ codes "--92.233.720.368.547.758,-8"
unfolding format_brl format_int wrap64 ◌-ℤ◌ format_nat decimal group
format_brl_least = refl

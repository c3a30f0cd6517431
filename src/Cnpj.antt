-- ===== src/Cnpj.antt =====
-- internal/foundation/cnpj/cnpj.go: the CNPJ, numeric or alphanumeric.
pub mod Digits
pub mod Format
mod Tests
use nanci.Prelude.{
  ℕ, ◌+◌, ◌-◌, ◌*◌, ◌%◌, Bool, true, false, not, ◌&&◌, ◌||◌, List, [], ◌∷◌, ◌++◌, Option, none,
  some, ltb, leb, ◌==◌, length, take, drop, get_or, all_by, if◌then◌else◌, ◌⊎◌, inl, inr,
}
use nanci.Text.{Bytes, Unicode, remove_byte, trim_space, to_upper, is_digit, is_letter, slice}

-- the Err variables of the package
pub data Problem : Type 0 where
  invalid_length invalid_format non_numeric_check_digit invalid_check_digits : Problem

abbrev pub first_weights : List ℕ
first_weights = 5 ∷ 4 ∷ 3 ∷ 2 ∷ 9 ∷ 8 ∷ 7 ∷ 6 ∷ 5 ∷ 4 ∷ 3 ∷ 2 ∷ []

abbrev pub second_weights : List ℕ
second_weights = 6 ∷ first_weights

abbrev pub is_cnpj_char : ℕ → Bool
is_cnpj_char c = is_digit c || is_letter c

-- cleaned[i], of a text long enough
abbrev pub byte_at : Bytes → ℕ → ℕ
byte_at s i = get_or s i 0

unfoldable pub validate_syntax : Bytes → Option Problem
validate_syntax s =
    if not (length s == 14)
    then some invalid_length
    else if not (all_by is_cnpj_char s)
    then some invalid_format
    else if not (is_digit (byte_at s 12)) || not (is_digit (byte_at s 13))
    then some non_numeric_check_digit
    else none

unfoldable pub all_same_characters : Bytes → Bool
all_same_characters [] = true
all_same_characters (c ∷ s) = all_by (λ d. d == c) s

-- `int(c - '0')`, on a byte
abbrev pub value : ℕ → ℕ
value c = (c + 208) % 256

-- the sum of calculateCheckDigit; base and weights are of one length
unfoldable pub weighted : Bytes → List ℕ → ℕ
weighted [] ws = 0
weighted (c ∷ s) [] = 0
weighted (c ∷ s) (w ∷ ws) = value c * w + weighted s ws

-- the end of calculateCheckDigit
abbrev pub digit_of : ℕ → ℕ
digit_of sum = if ltb (sum % 11) 2 then 0 else 11 - sum % 11

unfoldable pub calculate_check_digit : Bytes → List ℕ → ℕ
unfolding weighted
calculate_check_digit base ws = digit_of (weighted base ws)

-- `strconv.Itoa(first)` is one digit.
unfoldable pub has_valid_check_digits : Bytes → Bool
unfolding all_same_characters calculate_check_digit
has_valid_check_digits s =
    let base = take 12 s in
    let first = calculate_check_digit base first_weights in
    let second = calculate_check_digit (base ++ (first + b'0') ∷ []) second_weights in
    not (all_same_characters s) && (value (byte_at s 12) == first && value (byte_at s 13) == second)

abbrev check_digits : Option Problem → Bytes → Option Problem
check_digits (some p) s = some p
check_digits none s = if has_valid_check_digits s then none else some invalid_check_digits

-- Validate, of a text that is clean
unfoldable pub problem_of : Bytes → Option Problem
unfolding validate_syntax has_valid_check_digits
problem_of s = check_digits (validate_syntax s) s

-- the three ReplaceAll of Clean
unfoldable pub unmask : Bytes → Bytes
unfolding remove_byte
unmask s = remove_byte b'-' (remove_byte b'/' (remove_byte b'.' s))

abbrev pub unless {ℓ} : {A : Type ℓ} → Option Problem → A → Problem ⊎ A
unless (some p) a = inl p
unless none a = inr a

-- the concatenation of Format
abbrev pub masked : Bytes → Bytes → Bytes → Bytes → Bytes → Bytes
masked a b c d e = a ++ (b'.' ∷ (b ++ (b'.' ∷ (c ++ (b'/' ∷ (d ++ (b'-' ∷ e)))))))

module _ ⦃u : Unicode⦄ where
  unfoldable pub clean : Bytes → Bytes
  unfolding unmask trim_space to_upper
  clean s = to_upper (trim_space (unmask s))

  unfoldable pub validate : Bytes → Option Problem
  unfolding clean problem_of
  validate s = problem_of (clean s)

  unfoldable pub normalize : Bytes → Problem ⊎ Bytes
  unfolding clean validate
  normalize raw = unless (validate raw) (clean raw)

  unfoldable pub root : Bytes → Problem ⊎ Bytes
  unfolding clean validate_syntax
  root s = unless (validate_syntax (clean s)) (take 8 (clean s))

  unfoldable pub root_or_empty : Bytes → Bytes
  unfolding root
  root_or_empty s = elim (root s) [ inl p ↦ [] | inr r ↦ r ]

  unfoldable pub format : Bytes → Bytes
  unfolding clean
  format s =
      let cleaned = clean s in
      if not (length cleaned == 14)
      then s
      else masked (slice 0 2 cleaned) (slice 2 5 cleaned) (slice 5 8 cleaned) (slice 8 12 cleaned)
          (slice 12 14 cleaned)

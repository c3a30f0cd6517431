-- ===== src/Cnpj/Digits.antt =====
-- What the two check digits of a CNPJ are, and what Validate accepts.
use nanci.Prelude.{
  ℕ, ◌+◌, ◌%◌, ◌<◌, ◌≡◌, refl, ◌↔◌, ◌⊎◌, inl, inr, Bool, true, false, not, ◌&&◌, [], ◌∷◌, ◌++◌,
  Option, zero, suc, none, some, arith, ◌==◌, length, take, all_by, All, All-of-all_by,
  Option-cases, if◌then◌else◌,
}
use nanci.Text.{Bytes, Unicode, IsPlain, is_digit}
use nanci.Cnpj.{
  digit_of, calculate_check_digit, weighted, first_weights, second_weights, value, byte_at,
  all_same_characters, has_valid_check_digits, validate_syntax, problem_of, is_cnpj_char, validate,
  clean, Problem, invalid_check_digits,
}

-- the rule of modulus 11: the digit makes the sum a multiple of 11, and 0 stands for 10
abbrev pub IsBalanced : ℕ → ℕ → Type 0
IsBalanced sum d = ((sum + d) % 11 ≡ 0) ⊎ ((sum % 11 ≡ 1) × (d ≡ 0))

pub digit_of-IsBalanced : (sum d : ℕ) → d < 10 → (digit_of sum ≡ d) ↔ IsBalanced sum d
digit_of-IsBalanced sum d small = ground arith

-- The CNPJ, without its check: 12 letters or digits, and two digits.
pub record IsToken (s : Bytes) : Type 0 where
  pub long : length s ≡ 14
  pub chars : All IsPlain s
  pub first_digit : is_digit (byte_at s 12) ≡ true
  pub second_digit : is_digit (byte_at s 13) ≡ true

pub validate_syntax-IsToken : (s : Bytes) → validate_syntax s ≡ none → IsToken s
unfolding validate_syntax
validate_syntax-IsToken s h = record {
  long = ground arith;
  chars = All-of-all_by is_cnpj_char s (ground arith);
  first_digit = ground arith;
  second_digit = ground arith;
}

all_by_of_plain : (s : Bytes) → All IsPlain s → all_by is_cnpj_char s ≡ true
all_by_of_plain [] h = refl
all_by_of_plain (c ∷ s) (p, h) = ground (arith, all_by_of_plain s h)

pub validate_syntax_of : (s : Bytes) → IsToken s → validate_syntax s ≡ none
unfolding validate_syntax
validate_syntax_of s t = rw (t.long, all_by_of_plain s t.chars, t.first_digit, t.second_digit) refl

value_digit : (c : ℕ) → is_digit c ≡ true → value c + b'0' ≡ c
value_digit c h = ground arith

pub value_digit_lt : (c : ℕ) → is_digit c ≡ true → value c < 10
value_digit_lt c h = ground arith

take-suc : (n : ℕ) (s : Bytes) → n < length s → take (suc n) s ≡ take n s ++ byte_at s n ∷ []
take-suc zero [] h = elim h [ ]
take-suc zero (c ∷ s) h = refl
take-suc (suc n) [] h = elim h [ ]
take-suc (suc n) (c ∷ s) h = rw (take-suc n s (omega (arith, h)))

-- What Validate accepts, by the rule of the tax authority.
pub record IsCnpj (s : Bytes) : Type 0 where
  pub token : IsToken s
  pub varied : all_same_characters s ≡ false
  pub first : IsBalanced (weighted (take 12 s) first_weights) (value (byte_at s 12))
  pub second : IsBalanced (weighted (take 13 s) second_weights) (value (byte_at s 13))

two_tests : (a d b e : ℕ) → ((a == d && b == e) ≡ true) ↔ ((d ≡ a) × (e ≡ b))
two_tests a d b e = ground arith

-- the second digit is computed from the first
tests_iff :
    (same : Bool) (a d b : ℕ) (second : ℕ → ℕ)
    → ((not same && (a == d && b == second d)) ≡ true) ↔ ((same ≡ false) × (d ≡ a) × (second a ≡ b))
tests_iff true a d b second = (λ h. absurd (cc), λ h. absurd (cc (h.0)))
tests_iff false a d b second = (
  λ h. let (first, next) = (two_tests a d b (second d)).0 h in (refl, first, rw first at next),
  λ (v, first, next). rw first ((two_tests a a b (second a)).1 (refl, next)),
)

-- the test of hasValidCheckDigits, with the digit of the text in the second sum
digits_of :
    (s : Bytes)
    → IsToken s
    → (has_valid_check_digits s ≡ true) ↔ (
        (all_same_characters s ≡ false)
        × (digit_of (weighted (take 12 s) first_weights) ≡ value (byte_at s 12))
        × (digit_of (weighted (take 13 s) second_weights) ≡ value (byte_at s 13)))
unfolding has_valid_check_digits calculate_check_digit
digits_of s t =
    let next : take 13 s ≡ take 12 s ++ byte_at s 12 ∷ [] = take-suc 12 s (omega (arith, t.long)) in
    let ascii : value (byte_at s 12) + b'0' ≡ byte_at s 12 = value_digit _ t.first_digit in
    let whole : take 13 s ≡ take 12 s ++ (value (byte_at s 12) + b'0') ∷ [] = rw ascii next in
    rw whole (
      tests_iff (all_same_characters s) (value (byte_at s 12))
        (digit_of (weighted (take 12 s) first_weights)) (value (byte_at s 13))
        (λ x. digit_of (weighted (take 12 s ++ (x + b'0') ∷ []) second_weights)))

has_valid_check_digits-IsCnpj : (s : Bytes) → IsToken s → has_valid_check_digits s ≡ true → IsCnpj s
has_valid_check_digits-IsCnpj s t h =
    let (varied, first, second) = (digits_of s t).0 h in
    record {
      token = t;
      varied = varied;
      first = (digit_of-IsBalanced _ _ (value_digit_lt _ t.first_digit)).0 first;
      second = (digit_of-IsBalanced _ _ (value_digit_lt _ t.second_digit)).0 second;
    }

has_valid_check_digits_of : (s : Bytes) → IsCnpj s → has_valid_check_digits s ≡ true
has_valid_check_digits_of s c = (digits_of s c.token).1 (
  c.varied,
  (digit_of-IsBalanced _ _ (value_digit_lt _ c.token.first_digit)).1 c.first,
  (digit_of-IsBalanced _ _ (value_digit_lt _ c.token.second_digit)).1 c.second,
)

accepted :
    (b : Bool)
    → ◌≡◌ {A = Option Problem} (if b then none else some invalid_check_digits) none
    → b ≡ true
accepted b h = ground arith

pub problem_of-IsCnpj : (s : Bytes) → (problem_of s ≡ none) ↔ IsCnpj s
unfolding problem_of
problem_of-IsCnpj s = (
  λ h. elim (Option-cases (validate_syntax s)) [
    | inl e ↦
        has_valid_check_digits-IsCnpj s (validate_syntax-IsToken s e)
          (accepted (has_valid_check_digits s) (rw e at h))
    | inr (p, e) ↦ absurd (cc (rw e at h))
  ],
  λ c. rw (validate_syntax_of s c.token, has_valid_check_digits_of s c) refl,
)

module _ ⦃u : Unicode⦄ where
  -- Validate accepts exactly the texts whose cleaned form is a CNPJ.
  pub validate-IsCnpj : (s : Bytes) → (validate s ≡ none) ↔ IsCnpj (clean s)
  unfolding validate
  validate-IsCnpj s = problem_of-IsCnpj (clean s)

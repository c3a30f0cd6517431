-- ===== src/Cnpj/Tests.antt =====
-- The CNPJ 11.222.333/0001-81, masked and plain.
use nanci.Prelude.{◌≡◌, refl, ◌↔◌, take, inr, none, some}
use nanci.Text.{Bytes, Unicode, codes, remove_byte, trim_space, to_upper, trim_ascii, drop_spaces}
use nanci.Cnpj.{
  clean, validate, normalize, root, format, unmask, problem_of, validate_syntax,
  has_valid_check_digits, all_same_characters, calculate_check_digit, weighted,
  invalid_check_digits,
}
use nanci.Cnpj.Digits.{IsCnpj, validate-IsCnpj}
use nanci.Cnpj.Format.{clean-format, normalize-IsNormal}

abbrev ascii_only : Unicode
ascii_only = record { upper = λ s. s; trim = λ s. s }

abbrev plain_text : Bytes
plain_text = codes "11222333000181"

abbrev masked_text : Bytes
masked_text = codes " 11.222.333/0001-81"

wrong_digit : validate ⦃u = ascii_only⦄ (codes "11222333000182") ≡ some invalid_check_digits
unfolding validate clean unmask remove_byte trim_space to_upper trim_ascii drop_spaces problem_of
    validate_syntax has_valid_check_digits all_same_characters calculate_check_digit weighted
wrong_digit = refl

same_digits : validate ⦃u = ascii_only⦄ (codes "00000000000000") ≡ some invalid_check_digits
unfolding validate clean unmask remove_byte trim_space to_upper trim_ascii drop_spaces problem_of
    validate_syntax has_valid_check_digits all_same_characters calculate_check_digit weighted
same_digits = refl

-- the alphanumeric example of the tax authority
alphanumeric : validate ⦃u = ascii_only⦄ (codes "12.ABC.345/01DE-35") ≡ none
unfolding validate clean unmask remove_byte trim_space to_upper trim_ascii drop_spaces problem_of
    validate_syntax has_valid_check_digits all_same_characters calculate_check_digit weighted
alphanumeric = refl

mask : format ⦃u = ascii_only⦄ plain_text ≡ codes "11.222.333/0001-81"
unfolding format clean unmask remove_byte trim_space to_upper trim_ascii drop_spaces
mask = refl

normalizes : normalize ⦃u = ascii_only⦄ masked_text ≡ inr plain_text
unfolding normalize validate clean unmask remove_byte trim_space to_upper trim_ascii drop_spaces
    problem_of validate_syntax has_valid_check_digits all_same_characters calculate_check_digit
    weighted
normalizes = refl

validate-IsCnpj_example :
    (validate ⦃u = ascii_only⦄ masked_text ≡ none) ↔ IsCnpj (clean ⦃u = ascii_only⦄ masked_text)
validate-IsCnpj_example = validate-IsCnpj ⦃u = ascii_only⦄ masked_text

valid_syntax : validate_syntax (clean ⦃u = ascii_only⦄ masked_text) ≡ none
unfolding clean unmask remove_byte trim_space to_upper trim_ascii drop_spaces validate_syntax
valid_syntax = refl

clean-format_example :
    clean ⦃u = ascii_only⦄ (format ⦃u = ascii_only⦄ masked_text)
    ≡ clean ⦃u = ascii_only⦄ masked_text
clean-format_example = clean-format ⦃u = ascii_only⦄ masked_text valid_syntax

normalize-IsNormal_example :
    IsCnpj plain_text
    × (normalize ⦃u = ascii_only⦄ plain_text ≡ inr plain_text)
    × (normalize ⦃u = ascii_only⦄ (format ⦃u = ascii_only⦄ plain_text) ≡ inr plain_text)
    × (root ⦃u = ascii_only⦄ plain_text ≡ inr (take 8 plain_text))
normalize-IsNormal_example = normalize-IsNormal ⦃u = ascii_only⦄ masked_text plain_text normalizes

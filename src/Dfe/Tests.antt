-- ===== src/Dfe/Tests.antt =====
-- Access keys and amounts.
use nanci.Prelude.{
  ◌-◌, ◌<◌, ◌≡◌, ◌≢◌, refl, ◌↔◌, ◌⊎◌, inl, inr, arith, true, false, none, some, [], ◌∷◌, ◌++◌,
}
use nanci.Prelude.Int.{pos, negsuc, ◌+ℤ◌, ◌-ℤ◌}
use nanci.Text.{Bytes, Unicode, codes, trim_space, to_upper, trim_ascii, drop_spaces}
use nanci.Dfe.AccessKey.{
  parse_access_key, check_key, index_invalid_key_char, index_from, access_key_check_digit, sum_loop,
  wrong_check_digit,
}
use nanci.Dfe.AccessKey.Parse.{IsAccessKey, parse_access_key-IsAccessKey}
use nanci.Dfe.Protocol.{key_from_protocol, trim_prefix, using_id}
use nanci.Dfe.Protocol.Agree.{IsKeyOf, key_from_protocol-IsKeyOf}
use nanci.Dfe.Money.{
  half, add_money, sub_money, parse_money, money_regex, invalid_format, format_brl, integer_part,
  fraction, read_from,
}
use nanci.Dfe.Money.Sum.{IsInt64, add_money-exact, sub_money-exact}
use nanci.Dfe.Money.Read.{amount, parse_money-amount}
use nanci.Dfe.Money.Format.{read_brl}
use nanci.Dfe.Money.Grouped.{brl_text, format_brl-brl_text}

abbrev ascii_text : Unicode
ascii_text = record { upper = λ s. s; trim = λ s. s }

abbrev a_key : Bytes
a_key = codes "35260911222333000181550010000012341123456787"

abbrev spaced_key : Bytes
spaced_key = codes "  35260911222333000181550010000012341123456787 "

parses : parse_access_key ⦃u = ascii_text⦄ spaced_key ≡ inr a_key
unfolding parse_access_key check_key index_invalid_key_char index_from access_key_check_digit
    sum_loop trim_space to_upper trim_ascii drop_spaces
parses = refl

other_digit :
    parse_access_key ⦃u = ascii_text⦄ (codes "35260911222333000181550010000012341123456788")
    ≡ inl (wrong_check_digit 7)
unfolding parse_access_key check_key index_invalid_key_char index_from access_key_check_digit
    sum_loop trim_space to_upper trim_ascii drop_spaces
other_digit = refl

parse_access_key_example : (parse_access_key ⦃u = ascii_text⦄ spaced_key ≡ inr a_key) ↔ (
    IsAccessKey a_key
    × (to_upper ⦃u = ascii_text⦄ (trim_space ⦃u = ascii_text⦄ spaced_key) ≡ a_key))
parse_access_key_example = parse_access_key-IsAccessKey ⦃u = ascii_text⦄ spaced_key a_key

-- the protocol is absent
key_from_protocol_example :
    ((key_from_protocol ⦃u = ascii_text⦄ (codes "NFe") [] (codes "NFe" ++ a_key) []).0 ≡ inr a_key)
    ↔ IsKeyOf ⦃u = ascii_text⦄ [] (trim_prefix (codes "NFe") (codes "NFe" ++ a_key)) a_key
key_from_protocol_example =
    key_from_protocol-IsKeyOf ⦃u = ascii_text⦄ (codes "NFe") [] (codes "NFe" ++ a_key) a_key []

key_by_id :
    key_from_protocol ⦃u = ascii_text⦄ (codes "NFe") [] (codes "NFe" ++ a_key) []
    ≡ (inr a_key, using_id (codes "NFe" ++ a_key) ∷ [])
unfolding key_from_protocol parse_access_key check_key index_invalid_key_char index_from
    access_key_check_digit sum_loop trim_space to_upper trim_ascii drop_spaces
key_by_id = refl

add_money_example :
    (add_money (pos 150) (negsuc 49) ≡ some (pos 100))
    ↔ (IsInt64 (pos 150 +ℤ negsuc 49) × (pos 150 +ℤ negsuc 49 ≡ pos 100))
add_money_example = add_money-exact (pos 150) (negsuc 49) (pos 100) (omega arith) (omega arith)

sub_money_example :
    (sub_money (pos 150) (pos 50) ≡ some (pos 100))
    ↔ (IsInt64 (pos 150 -ℤ pos 50) × (pos 150 -ℤ pos 50 ≡ pos 100))
sub_money_example = sub_money-exact (pos 150) (pos 50) (pos 100) (omega arith) (omega arith)

abbrev a_price : Bytes
a_price = codes "1234.5"

reads : parse_money ⦃u = ascii_text⦄ a_price ≡ (pos 123450, none)
unfolding parse_money money_regex integer_part fraction read_from trim_space trim_ascii drop_spaces
reads = refl

parse_money_example :
    ((money_regex (trim_space ⦃u = ascii_text⦄ a_price) ≡ true)
      × (amount (trim_space ⦃u = ascii_text⦄ a_price) < 100000000000000000)
      × (parse_money ⦃u = ascii_text⦄ a_price
          ≡ (pos (amount (trim_space ⦃u = ascii_text⦄ a_price)), none)))
    ⊎ ((money_regex (trim_space ⦃u = ascii_text⦄ a_price) ≡ false)
        × (parse_money ⦃u = ascii_text⦄ a_price ≡ (pos 0, some invalid_format)))
parse_money_example = parse_money-amount ⦃u = ascii_text⦄ a_price

small_debt : negsuc 123455 ≢ negsuc (half - 1)
small_debt h = absurd (ground arith)

format_brl_example :
    (format_brl (negsuc 123455) ≡ brl_text (negsuc 123455))
    × (read_brl (format_brl (negsuc 123455)) ≡ negsuc 123455)
format_brl_example = format_brl-brl_text (negsuc 123455) (omega arith) small_debt

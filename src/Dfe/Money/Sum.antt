-- ===== src/Dfe/Money/Sum.antt =====
-- The sums of int64 amounts: exact, or refused.
use nanci.Prelude.{◌<◌, ◌≡◌, ◌↔◌, arith, some}
use nanci.Prelude.Int.{ℤ, pos, negsuc, ◌+ℤ◌, ◌-ℤ◌}
use nanci.Dfe.Money.{half, wrap64, add_money, sub_money}

abbrev pub IsInt64 : ℤ → Type 0
IsInt64 (pos n) = n < half
IsInt64 (negsuc n) = n < half

-- The sum of two amounts is exact, or reported as an overflow when it does not fit.
pub add_money-exact :
    (a b c : ℤ)
    → IsInt64 a
    → IsInt64 b
    → (add_money a b ≡ some c) ↔ (IsInt64 (a +ℤ b) × (a +ℤ b ≡ c))
unfolding add_money wrap64 ◌+ℤ◌
add_money-exact a b c ha hb = ground arith

-- Sub, in the same way.
pub sub_money-exact :
    (a b c : ℤ)
    → IsInt64 a
    → IsInt64 b
    → (sub_money a b ≡ some c) ↔ (IsInt64 (a -ℤ b) × (a -ℤ b ≡ c))
unfolding sub_money wrap64 ◌-ℤ◌
sub_money-exact a b c ha hb = ground arith

-- ===== src/Dfe/AccessKey/Chars.antt =====
-- The loops of the access key: the characters of each position, and the weights of the check digit.
use nanci.Prelude.{
  ℕ, ◌+◌, ◌*◌, ◌%◌, ◌≤◌, ◌≡◌, refl, ◌∙◌, ◌↔◌, ◌⊎◌, true, [], ◌∷◌, ◌++◌, none, arith, length, all_by,
}
use nanci.Text.{Bytes, is_digit}
use nanci.Cnpj.{value, is_cnpj_char}
use nanci.Dfe.AccessKey.{index_from, sum_loop, next_weight}

-- outside the slot only digits pass
pub index_from-outside :
    (lo hi i : ℕ) (s : Bytes)
    → (i + length s ≤ lo) ⊎ (hi ≤ i)
    → (index_from lo hi i s ≡ none) ↔ (all_by is_digit s ≡ true)
unfolding index_from
index_from-outside lo hi i [] h = (λ _. refl, λ _. refl)
index_from-outside lo hi i (c ∷ s) h =
    let ih = index_from-outside lo hi (i + 1) s (omega (arith, h)) in ground (arith, h, ih)

-- inside it digits and letters
pub index_from-inside :
    (lo hi i : ℕ) (s : Bytes)
    → lo ≤ i
    → i + length s ≤ hi
    → (index_from lo hi i s ≡ none) ↔ (all_by is_cnpj_char s ≡ true)
unfolding index_from
index_from-inside lo hi i [] h k = (λ _. refl, λ _. refl)
index_from-inside lo hi i (c ∷ s) h k =
    let ih = index_from-inside lo hi (i + 1) s (omega (arith, h)) (omega (arith, k)) in
    ground (arith, h, k, ih)

pub index_from-append :
    (lo hi i : ℕ) (s t : Bytes)
    → (index_from lo hi i (s ++ t) ≡ none)
      ↔ ((index_from lo hi i s ≡ none) × (index_from lo hi (i + length s) t ≡ none))
unfolding index_from
index_from-append lo hi i [] t =
    let e : i + 0 ≡ i = omega arith in rw e (λ h. (refl, h), λ (_, h). h)
index_from-append lo hi i (c ∷ s) t =
    let e : i + length (c ∷ s) ≡ i + 1 + length s = omega arith in
    let ih = index_from-append lo hi (i + 1) s t in rw e (ground (arith, ih))

-- The weights of the check digit: 2 to 9 over and over, from the right.
unfoldable pub sum_at : ℕ → Bytes → ℕ
sum_at i [] = 0
sum_at i (c ∷ s) = value c * (2 + i % 8) + sum_at (i + 1) s

next_weight-mod : (i : ℕ) → next_weight (2 + i % 8) ≡ 2 + (i + 1) % 8
next_weight-mod i = ground arith

pub sum_loop-sum_at : (i sum : ℕ) (s : Bytes) → sum_loop s (2 + i % 8) sum ≡ sum + sum_at i s
unfolding sum_loop sum_at
sum_loop-sum_at i sum [] = omega arith
sum_loop-sum_at i sum (c ∷ s) =
    rw (next_weight-mod i) (sum_loop-sum_at (i + 1) (sum + value c * (2 + i % 8)) s ∙ omega arith)

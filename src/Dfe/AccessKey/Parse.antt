-- ===== src/Dfe/AccessKey/Parse.antt =====
-- What ParseAccessKey accepts, and what it returns.
use nanci.Prelude.{
  ℕ, ◌+◌, ◌<◌, ◌≡◌, refl, ◌∙◌, ◌↔◌, inl, inr, true, not, [], ◌∷◌, ◌++◌, Option, none, some, arith,
  ◌==◌, length, take, drop, all_by, any_by, if◌then◌else◌, Bool-cases, All, All-of-all_by,
  All-append, take-append-drop, length-drop, length-take, ==_iff, get_or, zero, suc,
}
use mathlib.Core.List.{reverse}
use nanci.Text.{
  Bytes, Unicode, IsPlain, is_digit, is_letter, slice, to_upper, trim_space, to_upper-plain,
  trim_space-plain,
}
use nanci.Cnpj.{Problem, value, byte_at, digit_of, is_cnpj_char, validate}
use nanci.Cnpj.Digits.{IsBalanced, digit_of-IsBalanced, IsCnpj, validate-IsCnpj, value_digit_lt}
use nanci.Cnpj.Format.{clean-plain, take-drop-join}
use nanci.Dfe.AccessKey.{
  index_invalid_key_char, index_from, access_key_check_digit, sum_loop, check_last, check_emitente,
  check_slot, check_chars, check_key, parse_access_key, wrong_check_digit,
}
use nanci.Dfe.AccessKey.Chars.{
  index_from-outside, index_from-inside, index_from-append, sum_at, sum_loop-sum_at,
}

-- The chave de acesso, position by position.
pub record IsAccessKey (k : Bytes) : Type 0 where
  pub long : length k ≡ 44
  pub start : all_by is_digit (take 6 k) ≡ true
  pub slot : all_by is_cnpj_char (slice 6 20 k) ≡ true
  pub rest : all_by is_digit (drop 20 k) ≡ true
  pub owner : any_by is_letter (slice 6 20 k) ≡ true → IsCnpj (slice 6 20 k)
  pub digit : IsBalanced (sum_at 0 (reverse (take 43 k))) (value (byte_at k 43))

-- the three regions of the positions
abbrev Regions : Bytes → Type 0
Regions k =
    (all_by is_digit (take 6 k) ≡ true)
    × (all_by is_cnpj_char (slice 6 20 k) ≡ true)
    × (all_by is_digit (drop 20 k) ≡ true)

regions_iff :
    (a b c : Bytes)
    → length a ≡ 6
    → length b ≡ 14
    → (index_from 6 20 0 (a ++ (b ++ c)) ≡ none)
      ↔ ((all_by is_digit a ≡ true) × (all_by is_cnpj_char b ≡ true) × (all_by is_digit c ≡ true))
regions_iff a b c six fourteen =
    let first : (index_from 6 20 0 (a ++ (b ++ c)) ≡ none)
        ↔ ((index_from 6 20 0 a ≡ none) × (index_from 6 20 6 (b ++ c) ≡ none)) =
      rw six at (index_from-append 6 20 0 a (b ++ c)) in
    let second : (index_from 6 20 6 (b ++ c) ≡ none)
        ↔ ((index_from 6 20 6 b ≡ none) × (index_from 6 20 20 c ≡ none)) =
      rw fourteen at (index_from-append 6 20 6 b c) in
    let p = index_from-outside 6 20 0 a (inl (omega (arith, six))) in
    let q = index_from-inside 6 20 6 b (omega arith) (omega (arith, fourteen)) in
    let r = index_from-outside 6 20 20 c (inr (omega arith)) in
    (
      λ h. let (x, y) = first.0 h in let (z, w) = second.0 y in (p.0 x, q.0 z, r.0 w),
      λ (x, y, z). first.1 (p.1 x, second.1 (q.1 y, r.1 z)),
    )

chars_iff : (k : Bytes) → length k ≡ 44 → (index_invalid_key_char k 6 20 ≡ none) ↔ Regions k
unfolding index_invalid_key_char
chars_iff k long =
    let six : length (take 6 k) ≡ 6 = omega (arith, long, length-take 6 k) in
    let fourteen : length (slice 6 20 k) ≡ 14 =
      omega (arith, long, length-take 14 (drop 6 k), length-drop 6 k) in
    let whole : take 6 k ++ (slice 6 20 k ++ drop 20 k) ≡ k =
      rw (take-drop-join 14 6 k) (take-append-drop 6 k) in
    rw whole at (regions_iff (take 6 k) (slice 6 20 k) (drop 20 k) six fourteen)

All-of-digits : (s : Bytes) → all_by is_digit s ≡ true → All IsPlain s
All-of-digits [] h = tt
All-of-digits (c ∷ s) h = (ground (arith, h), All-of-digits s (ground (arith, h)))

-- Every character of a key is a digit or a capital.
IsAccessKey-IsPlain : (k : Bytes) → IsAccessKey k → All IsPlain k
IsAccessKey-IsPlain k x =
    let whole : take 6 k ++ (slice 6 20 k ++ drop 20 k) ≡ k =
      rw (take-drop-join 14 6 k) (take-append-drop 6 k) in
    rw whole at (
      All-append IsPlain (take 6 k) (slice 6 20 k ++ drop 20 k) (All-of-digits (take 6 k) x.start) (
        All-append IsPlain (slice 6 20 k) (drop 20 k)
          (All-of-all_by is_cnpj_char (slice 6 20 k) x.slot) (All-of-digits (drop 20 k) x.rest)))

get_or-drop : (n i : ℕ) (s : Bytes) → get_or (drop n s) i 0 ≡ get_or s (n + i) 0
get_or-drop zero i s = let e : 0 + i ≡ i = omega arith in rw e refl
get_or-drop (suc n) i [] = refl
get_or-drop (suc n) i (c ∷ s) =
    let e : suc n + i ≡ suc (n + i) = omega arith in rw e (get_or-drop n i s)

get_or-all_by :
    (s : Bytes) (i : ℕ) → i < length s → all_by is_digit s ≡ true → is_digit (get_or s i 0) ≡ true
get_or-all_by [] i h k = elim h [ ]
get_or-all_by (c ∷ s) zero h k = ground (arith, k)
get_or-all_by (c ∷ s) (suc i) h k = get_or-all_by s i (omega (arith, h)) (ground (arith, k))

last_digit :
    (k : Bytes) → length k ≡ 44 → all_by is_digit (drop 20 k) ≡ true → value (byte_at k 43) < 10
last_digit k long h = value_digit_lt (byte_at k 43) (
    rw (get_or-drop 20 23 k) at
      (get_or-all_by (drop 20 k) 23 (omega (arith, long, length-drop 20 k)) h))

-- The check digit.
last_iff :
    (a want : ℕ) (k v : Bytes)
    → ((if not (a == want) then inl (wrong_check_digit want) else inr k) ≡ inr v)
      ↔ ((want ≡ a) × (k ≡ v))
last_iff a want k v = ground arith

check_last_iff :
    (k v : Bytes)
    → (check_last k ≡ inr v)
      ↔ ((digit_of (sum_at 0 (reverse (take 43 k))) ≡ value (byte_at k 43)) × (k ≡ v))
unfolding access_key_check_digit
check_last_iff k v =
    let loop : sum_loop (reverse (take 43 k)) 2 0 ≡ sum_at 0 (reverse (take 43 k)) =
      sum_loop-sum_at 0 0 (reverse (take 43 k)) ∙ omega arith in
    rw loop (last_iff (value (byte_at k 43)) (digit_of (sum_at 0 (reverse (take 43 k)))) k v)

check_emitente_iff :
    (o : Option Problem) (k v : Bytes)
    → (check_emitente o k ≡ inr v) ↔ ((o ≡ none) × (check_last k ≡ inr v))
check_emitente_iff none k v = (λ h. (refl, h), λ (e, h). h)
check_emitente_iff (some p) k v = (λ h. absurd (cc), λ h. absurd (cc (h.0)))

check_chars_iff :
    ⦃u : Unicode⦄ (o : Option ℕ) (k v : Bytes)
    → (check_chars o k ≡ inr v)
      ↔ ((o ≡ none) × (check_slot (slice 6 20 k) ≡ none) × (check_last k ≡ inr v))
check_chars_iff none k v =
    let e = check_emitente_iff (check_slot (slice 6 20 k)) k v in
    (λ h. let (x, y) = e.0 h in (refl, x, y), λ (r, x, y). e.1 (x, y))
check_chars_iff (some i) k v = (λ h. absurd (cc), λ h. absurd (cc (h.0)))

check_slot_iff :
    ⦃u : Unicode⦄ (slot : Bytes)
    → All IsPlain slot
    → (check_slot slot ≡ none) ↔ (any_by is_letter slot ≡ true → IsCnpj slot)
check_slot_iff slot plain =
    let v : (validate slot ≡ none) ↔ IsCnpj slot =
      rw (clean-plain slot plain) at (validate-IsCnpj slot) in
    elim (Bool-cases (any_by is_letter slot)) [
      | inl e ↦ rw e (λ h. λ _. v.0 h, λ h. v.1 (h refl))
      | inr e ↦ rw e (λ _. λ h. absurd (cc), λ _. refl)
    ]

module _ ⦃u : Unicode⦄ where
  check_key_long : (k v : Bytes) → check_key k ≡ inr v → length k ≡ 44
  unfolding check_key
  check_key_long k v h = elim (Bool-cases (length k == 44)) [
    | inl e ↦ (==_iff (length k) 44).0 e
    | inr e ↦ absurd (cc (rw e at h))
  ]

  accepted :
      (k v : Bytes)
      → length k ≡ 44
      → (check_key k ≡ inr v) ↔ (
          (index_invalid_key_char k 6 20 ≡ none)
          × (check_slot (slice 6 20 k) ≡ none)
          × (check_last k ≡ inr v))
  unfolding check_key
  accepted k v long = rw long (check_chars_iff (index_invalid_key_char k 6 20) k v)

  check_key_sound : (k v : Bytes) → check_key k ≡ inr v → IsAccessKey k × (k ≡ v)
  check_key_sound k v h =
      let long = check_key_long k v h in
      let (chars, slot, last) = (accepted k v long).0 h in
      let (start, middle, rest) = (chars_iff k long).0 chars in
      let (digit, same) = (check_last_iff k v).0 last in
      (
        record {
          long = long;
          start = start;
          slot = middle;
          rest = rest;
          owner = (check_slot_iff _ (All-of-all_by is_cnpj_char (slice 6 20 k) middle)).0 slot;
          digit = (digit_of-IsBalanced _ _ (last_digit k long rest)).0 digit;
        },
        same,
      )

  check_key_complete : (k : Bytes) → IsAccessKey k → check_key k ≡ inr k
  check_key_complete k x = (accepted k k x.long).1 (
    (chars_iff k x.long).1 (x.start, x.slot, x.rest),
    (check_slot_iff _ (All-of-all_by is_cnpj_char (slice 6 20 k) x.slot)).1 x.owner,
    (check_last_iff k k).1 ((digit_of-IsBalanced _ _ (last_digit k x.long x.rest)).1 x.digit, refl),
  )

  -- ParseAccessKey accepts exactly the raw texts that are an access key once trimmed and
  -- upper-cased, and returns that key.
  pub parse_access_key-IsAccessKey :
      (raw k : Bytes)
      → (parse_access_key raw ≡ inr k) ↔ (IsAccessKey k × (to_upper (trim_space raw) ≡ k))
  unfolding parse_access_key
  parse_access_key-IsAccessKey raw k = (
    λ h. let (x, same) = check_key_sound (to_upper (trim_space raw)) k h in (rw same at x, same),
    λ (x, same). rw same (check_key_complete k x),
  )

  -- A parsed key is parsed to itself.
  parse_access_key_idempotent :
      (raw k : Bytes) → parse_access_key raw ≡ inr k → parse_access_key k ≡ inr k
  parse_access_key_idempotent raw k h =
      let (x, same) = (parse_access_key-IsAccessKey raw k).0 h in
      let plain = IsAccessKey-IsPlain k x in
      (parse_access_key-IsAccessKey k k).1
        (x, rw (trim_space-plain k plain) (to_upper-plain k plain))

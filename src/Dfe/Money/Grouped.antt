-- ===== src/Dfe/Money/Grouped.antt =====
-- The text of FormatBRL of internal/dfe/money.go: thousands with dots, a comma and two decimals.
use nanci.Prelude.{
  ℕ, zero, suc, ◌+◌, ◌-◌, ◌/◌, ◌%◌, ◌≤◌, ◌<◌, ◌≡◌, ◌≢◌, refl, sym, ◌∙◌, ap, ap₂, arith, true, false,
  ◌&&◌, [], ◌∷◌, ◌++◌, ltb, ◌==◌, if◌then◌else◌, length, length-append, Bool-cases, inl, inr,
}
use nanci.Prelude.Int.{ℤ, pos, negsuc}
use nanci.Text.{Bytes}
use nanci.Dfe.Money.{half, decimal, format_nat, group, pad_2, format_brl}
use nanci.Dfe.Money.Sum.{IsInt64}
use nanci.Dfe.Money.Format.{
  read_brl, read_brl-format_brl, decimal_one, decimal_two, starts, body, format_brl-pos,
  format_brl-negsuc, room,
}

abbrev digit : ℕ → ℕ
digit n = n % 10 + b'0'

-- the last two and the last three digits of a number
abbrev pub last_two : ℕ → Bytes
last_two n = digit (n / 10) ∷ digit n ∷ []

abbrev pub last_three : ℕ → Bytes
last_three n = digit (n / 100) ∷ digit (n / 10) ∷ digit n ∷ []

-- a number below a thousand, without leading zeros
abbrev pub short : ℕ → Bytes
short n = if ltb n 10 then digit n ∷ [] else if ltb n 100 then last_two n else last_three n

-- A number with a dot before each three digits, counted from the right, on fuel above it.
unfoldable pub dotted : ℕ → ℕ → Bytes
dotted zero n = []
dotted (suc fuel) n =
    let front = dotted fuel (n / 1000) in
    if ltb n 1000 then short n else front ++ (b'.' ∷ last_three n)

-- An amount of cents in reais, without its sign.
abbrev pub reais : ℕ → Bytes
reais n = dotted (n / 100 + 1) (n / 100) ++ (b',' ∷ last_two n)

abbrev pub brl_text : ℤ → Bytes
brl_text (pos n) = reais n
brl_text (negsuc n) = b'-' ∷ reais (n + 1)

append_assoc : (s t u : Bytes) → (s ++ t) ++ u ≡ s ++ (t ++ u)
append_assoc [] t u = refl
append_assoc (c ∷ s) t u = ap (◌∷◌ c) (append_assoc s t u)

small_digit : (n : ℕ) → n < 10 → digit n ≡ n + b'0'
small_digit n h = omega (arith, h)

decimal_three : (f n : ℕ) → 100 ≤ n → n < 1000 → decimal (suc (suc (suc f))) n ≡ last_three n
unfolding decimal
decimal_three f n h k =
    let a : ltb n 10 ≡ false = ground (arith, h) in
    let b : ltb (n / 10) 10 ≡ false = ground (arith, h) in
    let c : ltb (n / 10 / 10) 10 ≡ true = ground (arith, k) in
    let d : n / 10 / 10 ≡ n / 100 % 10 = omega (arith, k) in
    rw (a, b, c) (ap (λ x. (x + b'0') ∷ digit (n / 10) ∷ digit n ∷ []) d)

decimal_split :
    (f n : ℕ) → 1000 ≤ n → decimal (suc (suc (suc f))) n ≡ decimal f (n / 1000) ++ last_three n
unfolding decimal
decimal_split f n h =
    let a : ltb n 10 ≡ false = ground (arith, h) in
    let b : ltb (n / 10) 10 ≡ false = ground (arith, h) in
    let c : ltb (n / 10 / 10) 10 ≡ false = ground (arith, h) in
    let d : n / 10 / 10 / 10 ≡ n / 1000 = omega arith in
    let e : n / 10 / 10 ≡ n / 100 = omega arith in
    let front = decimal f (n / 10 / 10 / 10) in
    rw (a, b, c)
      (append_assoc (front ++ (digit (n / 10 / 10) ∷ [])) (digit (n / 10) ∷ []) (digit n ∷ [])
        ∙ append_assoc front (digit (n / 10 / 10) ∷ []) (digit (n / 10) ∷ digit n ∷ [])
        ∙ ap₂ (λ x y. decimal f x ++ (digit y ∷ digit (n / 10) ∷ digit n ∷ [])) d e)

group-append :
    (len i : ℕ) (s t : Bytes) → group len i (s ++ t) ≡ group len i s ++ group len (i + length s) t
unfolding group
group-append len i [] t = let e : i + 0 ≡ i = omega arith in rw e refl
group-append len i (c ∷ s) t =
    let ih = group-append len (i + 1) s t in
    let e : i + 1 + length s ≡ i + suc (length s) = omega arith in
    elim (Bool-cases (ltb 0 i && (len - i) % 3 == 0)) [
      | inl d ↦
          rw d (ap (λ x. b'.' ∷ c ∷ x) (ih ∙ ap (λ k. group len (i + 1) s ++ group len k t) e))
      | inr d ↦ rw d (ap (λ x. c ∷ x) (ih ∙ ap (λ k. group len (i + 1) s ++ group len k t) e))
    ]

-- three more characters to come change no dot
group-shift : (len i : ℕ) (s : Bytes) → i + length s ≤ len → group (len + 3) i s ≡ group len i s
unfolding group
group-shift len i [] h = refl
group-shift len i (c ∷ s) h =
    let ih = group-shift len (i + 1) s (omega (arith, h)) in
    let e : (len + 3 - i) % 3 ≡ (len - i) % 3 = omega (arith, h) in rw (e, ih) refl

group_last :
    (len a b c : ℕ) → 0 < len → group (len + 3) len (a ∷ b ∷ c ∷ []) ≡ b'.' ∷ a ∷ b ∷ c ∷ []
unfolding group
group_last len a b c h =
    let p : ltb 0 len ≡ true = ground (arith, h) in
    let x : ((len + 3 - len) % 3 == 0) ≡ true = ground arith in
    let y : ((len + 3 - (len + 1)) % 3 == 0) ≡ false = ground arith in
    let z : ((len + 3 - (len + 1 + 1)) % 3 == 0) ≡ false = ground arith in
    let q : ltb 0 (len + 1) ≡ true = ground arith in
    let r : ltb 0 (len + 1 + 1) ≡ true = ground arith in rw (p, x, q, y, r, z) refl

length-decimal : (f n : ℕ) → n < f → 0 < length (decimal f n)
length-decimal f n h = let (c, s, e, digit) = starts f n h in rw e (omega arith)

group-short : (f n : ℕ) → n < f → n < 1000 → group (length (decimal f n)) 0 (decimal f n) ≡ short n
unfolding group
group-short zero n h k = elim h [ ]
group-short (suc f) n h k = elim (Bool-cases (ltb n 10)) [
  | inl e ↦
      let small : n < 10 = ground (arith, e) in
      rw (decimal_one f n small, e) (ap (λ x. x ∷ []) (sym (small_digit n small)))
  | inr e ↦ elim (Bool-cases (ltb n 100)) [
    | inl d ↦
        let two : n < 100 = ground (arith, d) in
        let large : 10 ≤ n = ground (arith, e) in
        let more : suc f ≡ suc (suc (f - 1)) = omega (arith, h, large) in
        let front : n / 10 + b'0' ≡ digit (n / 10) = omega (arith, two) in
        rw (more, decimal_two (f - 1) n (ground (arith, e)) two, e, d)
          (ap (λ x. x ∷ digit n ∷ []) front)
    | inr d ↦
        let big : 100 ≤ n = ground (arith, d) in
        let more : suc f ≡ suc (suc (suc (f - 2))) = omega (arith, h, big) in
        rw (more, decimal_three (f - 2) n big k, e, d) refl
  ]
]

group-decimal :
    (g f n : ℕ) → n < g → n < f → group (length (decimal f n)) 0 (decimal f n) ≡ dotted g n
unfolding dotted
group-decimal zero f n k h = elim k [ ]
group-decimal (suc g) f n k h = elim (Bool-cases (ltb n 1000)) [
  | inl e ↦ rw e (group-short f n h (ground (arith, e)))
  | inr e ↦
      let big : 1000 ≤ n = ground (arith, e) in
      let p = f - 3 in
      let more : f ≡ suc (suc (suc p)) = omega (arith, h, big) in
      let front = decimal p (n / 1000) in
      let below : n / 1000 < p = omega (arith, h, big) in
      let cut : decimal f n ≡ front ++ last_three n =
        ap (λ x. decimal x n) more ∙ decimal_split p n big in
      let from_zero : 0 + length front ≡ length front = omega arith in
      let total : length (front ++ last_three n) ≡ length front + 3 =
        length-append front (last_three n) ∙ omega arith in
      rw (e, cut, total)
        (group-append (length front + 3) 0 front (last_three n)
          ∙ ap₂ (λ s t. s ++ t)
              (group-shift (length front) 0 front (omega arith)
                ∙ group-decimal g p (n / 1000) (omega (arith, k, big)) below)
              (ap (λ i. group (length front + 3) i (last_three n)) from_zero
                ∙ group_last (length front) _ _ _ (length-decimal p (n / 1000) below)))
]

pad_2-last_two : (r : ℕ) → r < 100 → pad_2 (format_nat r) ≡ last_two r
unfolding format_nat
pad_2-last_two r h = elim (Bool-cases (ltb r 10)) [
  | inl e ↦
      let small : r < 10 = ground (arith, e) in
      let plus : r + 1 ≡ suc r = omega arith in
      let zero_digit : b'0' ≡ digit (r / 10) = omega (arith, small) in
      rw (plus, decimal_one r r small)
        (ap₂ (λ x y. x ∷ y ∷ []) zero_digit (sym (small_digit r small)))
  | inr e ↦
      let big : 10 ≤ r = ground (arith, e) in
      let plus : r + 1 ≡ suc (suc (r - 1)) = omega (arith, big) in
      let front : r / 10 + b'0' ≡ digit (r / 10) = omega (arith, h) in
      rw (plus, decimal_two (r - 1) r big h) (ap (λ x. x ∷ digit r ∷ []) front)
]

body-reais : (n : ℕ) → body n ≡ reais n
unfolding format_nat
body-reais n =
    let a : digit (n % 100 / 10) ≡ digit (n / 10) = omega arith in
    let b : digit (n % 100) ≡ digit n = omega arith in
    ap₂ (λ s t. s ++ (b',' ∷ t))
      (group-decimal (n / 100 + 1) (n / 100 + 1) (n / 100) (omega arith) (omega arith))
      ((unfold format_nat in pad_2-last_two (n % 100) (omega arith)) ∙ ap₂ (λ x y. x ∷ y ∷ []) a b)

-- For every int64 amount but the least, FormatBRL gives the sign, the reais with a dot before each three digits counted
-- from the right, a comma and two digits of cents; and the digits of that text, with the sign, are the amount.
pub format_brl-brl_text :
    (z : ℤ)
    → IsInt64 z
    → z ≢ negsuc (half - 1)
    → (format_brl z ≡ brl_text z) × (read_brl (format_brl z) ≡ z)
format_brl-brl_text z fits other = (text z fits other, read_brl-format_brl z fits other)
  where
    text : (z : ℤ) → IsInt64 z → z ≢ negsuc (half - 1) → format_brl z ≡ brl_text z
    text (pos n) fits other = format_brl-pos n ∙ body-reais n
    text (negsuc n) fits other =
        format_brl-negsuc n (room n fits other) ∙ ap (λ s. b'-' ∷ s) (body-reais (n + 1))

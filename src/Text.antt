-- ===== src/Text.antt =====
-- Go strings as byte lists, with the functions of package strings that the program calls on them.
-- `Unicode` stands for strings.ToUpper and strings.TrimSpace on text that is not ASCII.
use Prim.Native.Char.{code}
use nanci.Prelude.{
  ℕ, ◌-◌, ◌≡◌, refl, String, Bool, true, false, ◌&&◌, ◌||◌, List, [], ◌∷◌, ◌++◌, map, arith, ltb,
  leb, ◌==◌, if◌then◌else◌, all_by, All, All-append, Bool-cases, inl, inr, take, drop,
}
use mathlib.Core.List.{reverse, reverse-cons, reverse-reverse}

abbrev pub Bytes : Type 0
Bytes = List ℕ

-- The bytes of an ASCII literal.
abbrev pub codes : String → Bytes
codes String.[] = []
codes (String.◌∷◌ c s) = code c ∷ codes s

pub record Unicode : Type 0 where
  pub upper : Bytes → Bytes
  pub trim : Bytes → Bytes

-- s == ""
abbrev pub is_empty : Bytes → Bool
is_empty [] = true
is_empty (c ∷ s) = false

-- Byte equality of two strings.
abbrev pub bytes_eq : Bytes → Bytes → Bool
bytes_eq [] [] = true
bytes_eq [] (d ∷ t) = false
bytes_eq (c ∷ s) [] = false
bytes_eq (c ∷ s) (d ∷ t) = c == d && bytes_eq s t

pub bytes_eq-eq : (s t : Bytes) → bytes_eq s t ≡ true → s ≡ t
bytes_eq-eq [] [] h = refl
bytes_eq-eq [] (d ∷ t) h = absurd (cc)
bytes_eq-eq (c ∷ s) [] h = absurd (cc)
bytes_eq-eq (c ∷ s) (d ∷ t) h = ground (arith, bytes_eq-eq s t)

pub bytes_eq_refl : (s : Bytes) → bytes_eq s s ≡ true
bytes_eq_refl [] = refl
bytes_eq_refl (c ∷ s) = ground (arith, bytes_eq_refl s)

abbrev pub is_ascii : ℕ → Bool
is_ascii c = ltb c 128

-- unicode.IsSpace on ASCII
abbrev pub is_space : ℕ → Bool
is_space c = c == 32 || leb 9 c && leb c 13

abbrev pub is_digit : ℕ → Bool
is_digit c = leb b'0' c && leb c b'9'

abbrev pub is_letter : ℕ → Bool
is_letter c = leb b'A' c && leb c b'Z'

abbrev pub upper_byte : ℕ → ℕ
upper_byte c = if leb b'a' c && leb c b'z' then c - 32 else c

unfoldable pub drop_spaces : Bytes → Bytes
drop_spaces [] = []
drop_spaces (c ∷ s) = if is_space c then drop_spaces s else c ∷ s

unfoldable pub trim_ascii : Bytes → Bytes
unfolding drop_spaces
trim_ascii s = reverse (drop_spaces (reverse (drop_spaces s)))

-- strings.ReplaceAll(s, c, "") for one byte
unfoldable pub remove_byte : ℕ → Bytes → Bytes
remove_byte d [] = []
remove_byte d (c ∷ s) = let rest = remove_byte d s in if c == d then rest else c ∷ rest

module _ ⦃u : Unicode⦄ where
  unfoldable pub to_upper : Bytes → Bytes
  to_upper s = if all_by is_ascii s then map upper_byte s else u.upper s

  unfoldable pub trim_space : Bytes → Bytes
  unfolding trim_ascii
  trim_space s = if all_by is_ascii s then trim_ascii s else u.trim s

-- What the plain functions do to a text of digits and capitals.
abbrev pub IsPlain : ℕ → Type 0
IsPlain c = (is_digit c || is_letter c) ≡ true

pub all_by-is_ascii : (s : Bytes) → All IsPlain s → all_by is_ascii s ≡ true
all_by-is_ascii [] h = refl
all_by-is_ascii (c ∷ s) (p, h) = ground (arith, all_by-is_ascii s h)

pub remove_byte-plain :
    (d : ℕ) (s : Bytes) → (is_digit d || is_letter d) ≡ false → All IsPlain s → remove_byte d s ≡ s
unfolding remove_byte
remove_byte-plain d [] other h = refl
remove_byte-plain d (c ∷ s) other (p, h) = ground (arith, remove_byte-plain d s other h)

pub map-upper_byte : (s : Bytes) → All IsPlain s → map upper_byte s ≡ s
map-upper_byte [] h = refl
map-upper_byte (c ∷ s) (p, h) = ground (arith, map-upper_byte s h)

pub drop_spaces-plain : (s : Bytes) → All IsPlain s → drop_spaces s ≡ s
unfolding drop_spaces
drop_spaces-plain [] h = refl
drop_spaces-plain (c ∷ s) (p, h) = ground arith

All-reverse : (s : Bytes) → All IsPlain s → All IsPlain (reverse s)
All-reverse [] h = tt
All-reverse (c ∷ s) (p, h) =
    rw (reverse-cons c s) (All-append IsPlain (reverse s) (c ∷ []) (All-reverse s h) (p, tt))

trim_ascii-plain : (s : Bytes) → All IsPlain s → trim_ascii s ≡ s
unfolding trim_ascii
trim_ascii-plain s h =
    rw (drop_spaces-plain s h, drop_spaces-plain (reverse s) (All-reverse s h), reverse-reverse s)

module _ ⦃u : Unicode⦄ where
  pub to_upper-plain : (s : Bytes) → All IsPlain s → to_upper s ≡ s
  unfolding to_upper
  to_upper-plain s h = rw (all_by-is_ascii s h, map-upper_byte s h)

  pub trim_space-plain : (s : Bytes) → All IsPlain s → trim_space s ≡ s
  unfolding trim_space
  trim_space-plain s h = rw (all_by-is_ascii s h, trim_ascii-plain s h)

pub remove_byte-append :
    (d : ℕ) (s t : Bytes) → remove_byte d (s ++ t) ≡ remove_byte d s ++ remove_byte d t
unfolding remove_byte
remove_byte-append d [] t = refl
remove_byte-append d (c ∷ s) t = elim (Bool-cases (c == d)) [
  | inl e ↦ rw (e, remove_byte-append d s t)
  | inr e ↦ rw (e, remove_byte-append d s t)
]

-- cleaned[a : b]
abbrev pub slice : ℕ → ℕ → Bytes → Bytes
slice a b s = take (b - a) (drop a s)

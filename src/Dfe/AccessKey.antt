-- ===== src/Dfe/AccessKey.antt =====
-- internal/dfe/accesskey.go: the 44-character chave de acesso.
pub mod Chars
pub mod Parse
use nanci.Prelude.{
  ℕ, ◌+◌, ◌-◌, ◌*◌, ◌%◌, Bool, true, false, not, ◌&&◌, ◌||◌, List, [], ◌∷◌, Option, none, some, ltb,
  leb, ◌==◌, length, take, any_by, all_by, if◌then◌else◌, ◌⊎◌, inl, inr, get_or,
}
use mathlib.Core.List.{reverse}
use nanci.Text.{Bytes, Unicode, trim_space, to_upper, is_digit, is_letter, slice}
use nanci.Cnpj.{Problem, validate, value, byte_at, digit_of}
use nanci.Uf.{sigla_of}

abbrev pub access_key_length : ℕ
access_key_length = 44

abbrev pub slot_start : ℕ
slot_start = 6

abbrev pub slot_end : ℕ
slot_end = 20

-- What the message of an ErrInvalidAccessKey tells; positions are counted from 1.
pub data KeyProblem : Type 0 where
  wrong_length : ℕ → KeyProblem
  invalid_character : ℕ → ℕ → KeyProblem
  emitente : Problem → KeyProblem
  wrong_check_digit : ℕ → KeyProblem

abbrev pub in_slot : ℕ → ℕ → ℕ → Bool
in_slot lo hi i = leb lo i && ltb i hi

-- the loop of IndexInvalidKeyChar from index `i` on; `none` is -1
unfoldable pub index_from : ℕ → ℕ → ℕ → Bytes → Option ℕ
index_from lo hi i [] = none
index_from lo hi i (c ∷ s) =
    let rest = index_from lo hi (i + 1) s in
    if is_digit c || (in_slot lo hi i && is_letter c) then rest else some i

unfoldable pub index_invalid_key_char : Bytes → ℕ → ℕ → Option ℕ
unfolding index_from
index_invalid_key_char key lo hi = index_from lo hi 0 key

-- `weight++; if weight > 9 { weight = 2 }`
abbrev pub next_weight : ℕ → ℕ
next_weight w = if ltb 9 (w + 1) then 2 else w + 1

-- the loop of accessKeyCheckDigit, over the bytes that are left, the rightmost first
unfoldable pub sum_loop : Bytes → ℕ → ℕ → ℕ
sum_loop [] weight sum = sum
sum_loop (c ∷ s) weight sum = sum_loop s (next_weight weight) (sum + value c * weight)

unfoldable pub access_key_check_digit : Bytes → ℕ
unfolding sum_loop
access_key_check_digit base = digit_of (sum_loop (reverse base) 2 0)

abbrev pub check_last : Bytes → KeyProblem ⊎ Bytes
check_last key =
    let want = access_key_check_digit (take 43 key) in
    if not (value (byte_at key 43) == want) then inl (wrong_check_digit want) else inr key

abbrev pub check_emitente : Option Problem → Bytes → KeyProblem ⊎ Bytes
check_emitente (some p) key = inl (emitente p)
check_emitente none key = check_last key

module _ ⦃u : Unicode⦄ where
  abbrev pub check_slot : Bytes → Option Problem
  check_slot slot = if any_by is_letter slot then validate slot else none

  abbrev pub check_chars : Option ℕ → Bytes → KeyProblem ⊎ Bytes
  check_chars (some i) key = inl (invalid_character (byte_at key i) (i + 1))
  check_chars none key = check_emitente (check_slot (slice slot_start slot_end key)) key

  -- ParseAccessKey, of a key that is trimmed and in capitals
  unfoldable pub check_key : Bytes → KeyProblem ⊎ Bytes
  unfolding index_invalid_key_char access_key_check_digit
  check_key key =
      if not (length key == access_key_length)
      then inl (wrong_length (length key))
      else check_chars (index_invalid_key_char key slot_start slot_end) key

  unfoldable pub parse_access_key : Bytes → KeyProblem ⊎ Bytes
  unfolding check_key trim_space to_upper
  parse_access_key raw = check_key (to_upper (trim_space raw))

-- AccessKey.slice
unfoldable pub key_slice : ℕ → ℕ → Bytes → Bytes
key_slice a b key = if not (length key == access_key_length) then [] else slice a b key

abbrev pub uf_code : Bytes → Bytes
uf_code key = key_slice 0 2 key

abbrev pub emitente_cnpj : Bytes → Bytes
emitente_cnpj key = key_slice slot_start slot_end key

abbrev pub modelo : Bytes → Bytes
modelo key = key_slice 20 22 key

abbrev pub serie : Bytes → Bytes
serie key = key_slice 22 25 key

abbrev pub numero : Bytes → Bytes
numero key = key_slice 25 34 key

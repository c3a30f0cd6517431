-- ===== src/Uf.antt =====
-- internal/foundation/uf/uf.go: the federative units and their IBGE codes.
mod Tests
use nanci.Prelude.{
  ℕ, ◌≡◌, refl, ap, ◌↔◌, inl, inr, Bool, true, false, ◌&&◌, List, [], ◌∷◌, Option, none, some,
  arith, ◌==◌, Bool-cases, ==_iff, if◌then◌else◌,
}
use nanci.Text.{Bytes, codes, bytes_eq, bytes_eq-eq, bytes_eq_refl}

abbrev Table : Type 0
Table = List (Bytes × ℕ)

abbrev pub code_by_sigla : List (Bytes × ℕ)
code_by_sigla =
    (codes "RO", 11)
    ∷ (codes "AC", 12)
    ∷ (codes "AM", 13)
    ∷ (codes "RR", 14)
    ∷ (codes "PA", 15)
    ∷ (codes "AP", 16)
    ∷ (codes "TO", 17)
    ∷ (codes "MA", 21)
    ∷ (codes "PI", 22)
    ∷ (codes "CE", 23)
    ∷ (codes "RN", 24)
    ∷ (codes "PB", 25)
    ∷ (codes "PE", 26)
    ∷ (codes "AL", 27)
    ∷ (codes "SE", 28)
    ∷ (codes "BA", 29)
    ∷ (codes "MG", 31)
    ∷ (codes "ES", 32)
    ∷ (codes "RJ", 33)
    ∷ (codes "SP", 35)
    ∷ (codes "PR", 41)
    ∷ (codes "SC", 42)
    ∷ (codes "RS", 43)
    ∷ (codes "MS", 50)
    ∷ (codes "MT", 51)
    ∷ (codes "GO", 52)
    ∷ (codes "DF", 53)
    ∷ []

unfoldable code_in : Table → Bytes → Option ℕ
code_in [] s = none
code_in ((sigla, code) ∷ rest) s = if bytes_eq sigla s then some code else code_in rest s

unfoldable sigla_in : Table → ℕ → Option Bytes
sigla_in [] c = none
sigla_in ((sigla, code) ∷ rest) c = if code == c then some sigla else sigla_in rest c

unfoldable pub code_of : Bytes → Option ℕ
unfolding code_in
code_of s = code_in code_by_sigla s

abbrev is_there {ℓ} : {A : Type ℓ} → Option A → Bool
is_there none = false
is_there (some a) = true

unfoldable pub valid : Bytes → Bool
unfolding code_in
valid s = is_there (code_in code_by_sigla s)

-- Go ranges over the map in no fixed order; the first match here is the only one.
unfoldable pub sigla_of : ℕ → Option Bytes
unfolding sigla_in
sigla_of c = sigla_in code_by_sigla c

-- No two entries share a sigla or a code.
abbrev absent {ℓ} : {A : Type ℓ} → Option A → Bool
absent none = true
absent (some a) = false

unfoldable one_to_one : Table → Bool
unfolding code_in sigla_in
one_to_one [] = true
one_to_one ((sigla, code) ∷ rest) =
    absent (code_in rest sigla) && (absent (sigla_in rest code) && one_to_one rest)

code_by_sigla-one_to_one : one_to_one code_by_sigla ≡ true
unfolding one_to_one code_in sigla_in
code_by_sigla-one_to_one = refl

absent-none {ℓ} : {A : Type ℓ} {o : Option A} → absent o ≡ true → o ≡ none
absent-none {o = none} h = refl
absent-none {o = some a} h = absurd (cc)

and_parts : (a b : Bool) → (a && b) ≡ true → (a ≡ true) × (b ≡ true)
and_parts a b h = ground arith

some-injective {ℓ} : {A : Type ℓ} {a b : A} → some a ≡ some b → a ≡ b
some-injective h = cc

-- what `one_to_one` says of the first entry
unique_parts :
    (sigla : Bytes) (code : ℕ) (rest : Table)
    → one_to_one ((sigla, code) ∷ rest) ≡ true
    → (code_in rest sigla ≡ none) × (sigla_in rest code ≡ none) × (one_to_one rest ≡ true)
unfolding one_to_one
unique_parts sigla code rest u =
    let (a, others) =
      and_parts (absent (code_in rest sigla)) (absent (sigla_in rest code) && one_to_one rest) u in
    let (b, c) = and_parts (absent (sigla_in rest code)) (one_to_one rest) others in
    (absent-none a, absent-none b, c)

to_sigla :
    (xs : Table) (s : Bytes) (c : ℕ)
    → one_to_one xs ≡ true
    → code_in xs s ≡ some c
    → sigla_in xs c ≡ some s
unfolding code_in sigla_in
to_sigla [] s c u h = absurd (cc)
to_sigla ((sigla, code) ∷ rest) s c u h =
    let (fresh_sigla, fresh_code, unique) = unique_parts sigla code rest u in
    elim (Bool-cases (bytes_eq sigla s)) [
      | inl e ↦
          let same : code ≡ c = some-injective (rw e at h) in
          rw (same, (==_iff c c).1 refl, bytes_eq-eq sigla s e) refl
      | inr e ↦
          let ih = to_sigla rest s c unique (rw e at h) in
          elim (Bool-cases (code == c)) [
            | inl f ↦
                let none_left : sigla_in rest c ≡ none = rw ((==_iff code c).0 f) at fresh_code in
                absurd (cc)
            | inr f ↦ rw f ih
          ]
    ]

to_code :
    (xs : Table) (s : Bytes) (c : ℕ)
    → one_to_one xs ≡ true
    → sigla_in xs c ≡ some s
    → code_in xs s ≡ some c
unfolding code_in sigla_in
to_code [] s c u h = absurd (cc)
to_code ((sigla, code) ∷ rest) s c u h =
    let (fresh_sigla, fresh_code, unique) = unique_parts sigla code rest u in
    elim (Bool-cases (code == c)) [
      | inl e ↦
          let same : sigla ≡ s = some-injective (rw e at h) in
          rw (same, bytes_eq_refl s, (==_iff code c).0 e) refl
      | inr e ↦
          let ih = to_code rest s c unique (rw e at h) in
          elim (Bool-cases (bytes_eq sigla s)) [
            | inl f ↦
                let none_left : code_in rest s ≡ none = rw (bytes_eq-eq sigla s f) at fresh_sigla in
                absurd (cc)
            | inr f ↦ rw f ih
          ]
    ]

-- Code and Sigla are inverse to each other, whatever order the map is walked in.
code_of-sigla_of : (s : Bytes) (c : ℕ) → (code_of s ≡ some c) ↔ (sigla_of c ≡ some s)
unfolding code_of sigla_of
code_of-sigla_of s c = (
  to_sigla code_by_sigla s c code_by_sigla-one_to_one,
  to_code code_by_sigla s c code_by_sigla-one_to_one,
)

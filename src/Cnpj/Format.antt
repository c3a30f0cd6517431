-- ===== src/Cnpj/Format.antt =====
-- The normal form of a CNPJ: what Clean, Normalize, Root and Format make of one another's results.
use nanci.Prelude.{
  ℕ, ◌+◌, ◌-◌, ◌≡◌, refl, ap, inr, ◌∷◌, ◌++◌, Option, none, some, arith, length, take, drop, All,
  All-take, All-drop, take-append-drop, take_all, drop-drop, length-drop,
}
use nanci.Text.{
  Bytes, Unicode, IsPlain, slice, remove_byte, remove_byte-plain, remove_byte-append,
  trim_space-plain, to_upper-plain,
}
use nanci.Cnpj.{
  masked, unmask, clean, validate, normalize, root, format, Problem, unless, validate_syntax,
}
use nanci.Cnpj.Digits.{
  IsCnpj, validate-IsCnpj, problem_of-IsCnpj, validate_syntax_of, validate_syntax-IsToken,
}

-- The pieces of the mask, put together again.
pub take-drop-join : (n m : ℕ) (s : Bytes) → slice m (m + n) s ++ drop (m + n) s ≡ drop m s
take-drop-join n m s =
    let e : m + n - m ≡ n = omega arith in rw (e, ← drop-drop n m s) (take-append-drop n (drop m s))

pieces_join :
    (s : Bytes)
    → length s ≡ 14
    → slice 0 2 s ++ (slice 2 5 s ++ (slice 5 8 s ++ (slice 8 12 s ++ slice 12 14 s))) ≡ s
pieces_join s long =
    let last : slice 12 14 s ≡ drop 12 s =
      take_all 2 (drop 12 s) (omega (arith, long, length-drop 12 s)) in
    rw (last, take-drop-join 4 8 s, take-drop-join 3 5 s, take-drop-join 3 2 s)
      (take-append-drop 2 s)

IsPlain-slice : (a b : ℕ) (s : Bytes) → All IsPlain s → All IsPlain (slice a b s)
IsPlain-slice a b s h = All-take IsPlain (b - a) (drop a s) (All-drop IsPlain a s h)

unmask-plain : (s : Bytes) → All IsPlain s → unmask s ≡ s
unfolding unmask
unmask-plain s h =
    rw (remove_byte-plain b'.' s refl h, remove_byte-plain b'/' s refl h)
      (remove_byte-plain b'-' s refl h)

unmask-append : (a t : Bytes) → All IsPlain a → unmask (a ++ t) ≡ a ++ unmask t
unfolding unmask
unmask-append a t h =
    rw
      (
        remove_byte-append b'.' a t,
        remove_byte-plain b'.' a refl h,
        remove_byte-append b'/' a (remove_byte b'.' t),
        remove_byte-plain b'/' a refl h,
        remove_byte-append b'-' a (remove_byte b'/' (remove_byte b'.' t)),
      )
      (ap (λ x. x ++ remove_byte b'-' (remove_byte b'/' (remove_byte b'.' t)))
        (remove_byte-plain b'-' a refl h))

unmask-dot : (t : Bytes) → unmask (b'.' ∷ t) ≡ unmask t
unfolding unmask remove_byte
unmask-dot t = refl

unmask-slash : (t : Bytes) → unmask (b'/' ∷ t) ≡ unmask t
unfolding unmask remove_byte
unmask-slash t = refl

unmask-dash : (t : Bytes) → unmask (b'-' ∷ t) ≡ unmask t
unfolding unmask remove_byte
unmask-dash t = refl

unmask-masked :
    (a b c d e : Bytes)
    → All IsPlain a
    → All IsPlain b
    → All IsPlain c
    → All IsPlain d
    → All IsPlain e
    → unmask (masked a b c d e) ≡ a ++ (b ++ (c ++ (d ++ e)))
unmask-masked a b c d e ha hb hc hd he =
    let four = d ++ (b'-' ∷ e) in
    let three = c ++ (b'/' ∷ four) in
    let two = b ++ (b'.' ∷ three) in
    rw
      (
        unmask-append a (b'.' ∷ two) ha,
        unmask-dot two,
        unmask-append b (b'.' ∷ three) hb,
        unmask-dot three,
        unmask-append c (b'/' ∷ four) hc,
        unmask-slash four,
        unmask-append d (b'-' ∷ e) hd,
        unmask-dash e,
        unmask-plain e he,
      )
      refl

module _ ⦃u : Unicode⦄ where
  pub clean-plain : (s : Bytes) → All IsPlain s → clean s ≡ s
  unfolding clean
  clean-plain s h = rw (unmask-plain s h, trim_space-plain s h) (to_upper-plain s h)

  -- Root and Format of a text that is clean already.
  format-token :
      (s : Bytes)
      → length s ≡ 14
      → All IsPlain s
      → format s ≡ masked (slice 0 2 s) (slice 2 5 s) (slice 5 8 s) (slice 8 12 s) (slice 12 14 s)
  unfolding format
  format-token s long h = rw (clean-plain s h, long) refl

  -- Cleaning the mask gives the text back.
  clean-format-token : (s : Bytes) → length s ≡ 14 → All IsPlain s → clean (format s) ≡ s
  unfolding clean
  clean-format-token s long h =
      let p : (a b : ℕ) → All IsPlain (slice a b s) = λ a b. IsPlain-slice a b s h in
      rw
        (
          format-token s long h,
          unmask-masked (slice 0 2 s) (slice 2 5 s) (slice 5 8 s) (slice 8 12 s) (slice 12 14 s)
              (p 0 2) (p 2 5) (p 5 8) (p 8 12) (p 12 14),
          pieces_join s long,
          trim_space-plain s h,
        )
        (to_upper-plain s h)

  format-clean :
      (s : Bytes) → length (clean s) ≡ 14 → All IsPlain (clean s) → format s ≡ format (clean s)
  unfolding format
  format-clean s long h = rw (clean-plain (clean s) h, long) refl

  -- The mask loses nothing: a syntactically valid CNPJ, however it is written, is read back from
  -- its masked form.
  pub clean-format : (s : Bytes) → validate_syntax (clean s) ≡ none → clean (format s) ≡ clean s
  clean-format s valid =
      let t = validate_syntax-IsToken (clean s) valid in
      rw (format-clean s t.long t.chars) (clean-format-token (clean s) t.long t.chars)

  unless-inr : {p : Option Problem} {a b : Bytes} → unless p a ≡ inr b → (p ≡ none) × (a ≡ b)
  unless-inr {p = none} h = (refl, cc)
  unless-inr {p = some q} h = absurd (cc)

  -- What Normalize returns is a CNPJ in normal form: it is its own normal form, and the normal form of
  -- its mask, and its root is its first 8 characters.
  pub normalize-IsNormal :
      (raw v : Bytes)
      → normalize raw ≡ inr v
      → IsCnpj v
        × (normalize v ≡ inr v)
        × (normalize (format v) ≡ inr v)
        × (root v ≡ inr (take 8 v))
  unfolding normalize root validate
  normalize-IsNormal raw v h =
      let (valid, same) = unless-inr h in
      let c : IsCnpj v = rw (← same) ((validate-IsCnpj raw).0 valid) in
      let t = c.token in
      let normal = clean-plain v t.chars in
      let ok = (problem_of-IsCnpj v).1 c in
      (
        c,
        rw (normal, ok) refl,
        rw (clean-format-token v t.long t.chars, ok) refl,
        rw (normal, validate_syntax_of v t) refl,
      )

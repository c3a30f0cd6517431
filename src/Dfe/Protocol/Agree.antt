-- ===== src/Dfe/Protocol/Agree.antt =====
-- The protocol and the Id of a document agree on its key.
use nanci.Prelude.{
  ◌≡◌, ◌≢◌, refl, sym, ap, ◌∙◌, ◌↔◌, ◌⊎◌, inl, inr, false, List, [], ◌∷◌, Bool-cases,
}
use nanci.Text.{Bytes, Unicode, bytes_eq, bytes_eq-eq, bytes_eq_refl}
use nanci.Dfe.AccessKey.{KeyProblem, parse_access_key}
use nanci.Dfe.Protocol.{trim_prefix, labelled, Warning, key_from_protocol}

-- The key that the two texts name: the protocol where there is one, which the Id repeats where it is not
-- empty, and otherwise the Id.
abbrev pub Named : Bytes → Bytes → Bytes → Type 0
Named prot id_chave raw =
    (raw ≢ [])
    × (((prot ≡ raw) × ((id_chave ≡ []) ⊎ (id_chave ≡ raw))) ⊎ ((prot ≡ []) × (id_chave ≡ raw)))

differ : (s t : Bytes) → bytes_eq s t ≡ false → s ≢ t
differ s t h e = cc (rw (e, bytes_eq_refl t) at h)

module _ ⦃u : Unicode⦄ where
  labelled-inr : (x : KeyProblem ⊎ Bytes) (k : Bytes) → (labelled x ≡ inr k) ↔ (x ≡ inr k)
  labelled-inr (inl p) k = (λ h. absurd (cc), λ h. absurd (cc))
  labelled-inr (inr v) k = (λ h. cc, λ h. cc)

  abbrev pub IsKeyOf : Bytes → Bytes → Bytes → Type 0
  IsKeyOf prot id_chave k = (raw : Bytes) × Named prot id_chave raw × (parse_access_key raw ≡ inr k)

  answer :
      (kind prot id k : Bytes) (ws : List Warning) (id_chave : Bytes)
      → trim_prefix kind id ≡ id_chave
      → ((key_from_protocol kind prot id ws).0 ≡ inr k) ↔ IsKeyOf prot id_chave k
  unfolding key_from_protocol
  answer kind [] id k ws [] e = rw e (
    (λ h. absurd (cc)),
    λ (raw, (some_text, which), p). elim which [
      | inl (same, w) ↦ absurd (some_text (sym same))
      | inr (none_there, same) ↦ absurd (some_text (sym same))
    ],
  )
  answer kind [] id k ws (c ∷ s) e = rw e (
    (λ h. (c ∷ s, ((λ n. absurd (cc)), inr (refl, refl)), (labelled-inr _ k).0 h)),
    λ (raw, (some_text, which), p). elim which [
      | inl (same, w) ↦ absurd (some_text (sym same))
      | inr (none_there, same) ↦ (labelled-inr _ k).1 (ap parse_access_key same ∙ p)
    ],
  )
  answer kind (d ∷ prot) id k ws [] e = rw e (
    (λ h. (d ∷ prot, ((λ n. absurd (cc)), inl (refl, inl refl)), (labelled-inr _ k).0 h)),
    λ (raw, (some_text, which), p). elim which [
      | inl (same, w) ↦ (labelled-inr _ k).1 (ap parse_access_key same ∙ p)
      | inr (none_there, same) ↦ absurd (cc)
    ],
  )
  answer kind (d ∷ prot) id k ws (c ∷ s) e = elim (Bool-cases (bytes_eq (c ∷ s) (d ∷ prot))) [
    | inl f ↦
        rw (e, f)
          (
            (λ h. (
              d ∷ prot,
              ((λ n. absurd (cc)), inl (refl, inr (bytes_eq-eq (c ∷ s) (d ∷ prot) f))),
              (labelled-inr _ k).0 h,
            )),
            λ (raw, (some_text, which), p). elim which [
              | inl (same, w) ↦ (labelled-inr _ k).1 (ap parse_access_key same ∙ p)
              | inr (none_there, same) ↦ absurd (cc)
            ],
          )
    | inr f ↦
        rw (e, f)
          (
            (λ h. absurd (cc)),
            λ (raw, (some_text, which), p). elim which [
              | inl (same, w) ↦ elim w [
                | inl no_id ↦ absurd (cc)
                | inr also ↦ absurd (differ (c ∷ s) (d ∷ prot) f (also ∙ sym same))
              ]
              | inr (none_there, same) ↦ absurd (cc)
            ],
          )
  ]

  -- KeyFromProtocol returns exactly the access key that the text named by the protocol and the Id is parsed
  -- to; the two name it together where both are present.
  pub key_from_protocol-IsKeyOf :
      (kind prot id k : Bytes) (ws : List Warning)
      → ((key_from_protocol kind prot id ws).0 ≡ inr k) ↔ IsKeyOf prot (trim_prefix kind id) k
  key_from_protocol-IsKeyOf kind prot id k ws = answer kind prot id k ws (trim_prefix kind id) refl

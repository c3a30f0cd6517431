-- ===== src/Nfe/Participation/Rules.antt =====
-- What the role of a company says of the document.
use nanci.Prelude.{
  any_by-In, In-any_by, ◌≡◌, ◌≢◌, refl, inl, inr, Bool, true, false, not, ◌&&◌, [], ◌∷◌, any_by,
  arith, In, Bool-cases,
}
use nanci.Text.{Bytes, Unicode, bytes_eq, bytes_eq-eq, bytes_eq_refl, is_empty}
use nanci.Cnpj.{clean, root_or_empty}
use nanci.Nfe.Types.{
  Document, CompanyRole, destinatario, emitente, transportador, autorizado, no_role,
  VisibilityReason, exact_destinatario, exact_emitente, exact_transportador, exact_autorizado,
  resumo_destinatario, same_root_only, unknown_reason, Completeness, resumo, completa,
  other_completeness,
}
use nanci.Nfe.Participation.{
  Participation, same_party, is_resumo, parties, by_root, classify_participation,
}

-- the role that goes with each reason
abbrev pub role_of : VisibilityReason → CompanyRole
role_of exact_destinatario = destinatario
role_of exact_emitente = emitente
role_of exact_transportador = transportador
role_of exact_autorizado = autorizado
role_of resumo_destinatario = destinatario
role_of same_root_only = no_role
role_of unknown_reason = no_role

pub is_empty-nil : (s : Bytes) → is_empty s ≡ false → s ≢ []
is_empty-nil [] h = absurd (cc)
is_empty-nil (c ∷ s) h = λ e. cc

and_left : (a b : Bool) → (a && b) ≡ true → a ≡ true
and_left a b h = ground (arith, h)

not-true : (a : Bool) → not a ≡ true → a ≡ false
not-true a h = ground (arith, h)

and_right : (a b : Bool) → (a && b) ≡ true → b ≡ true
and_right a b h = ground (arith, h)

module _ ⦃u : Unicode⦄ where
  -- the company is the party, by its whole number
  abbrev pub Is : Bytes → Bytes → Type 0
  Is company party = (company ≢ []) × (company ≡ clean party)

  pub same_party-Is : (company party : Bytes) → same_party company party ≡ true → Is company party
  unfolding same_party
  same_party-Is company party h = (
    is_empty-nil company (
        not-true (is_empty company)
          (and_left (not (is_empty company)) (bytes_eq company (clean party)) h)),
    bytes_eq-eq company (clean party)
        (and_right (not (is_empty company)) (bytes_eq company (clean party)) h),
  )

  pub not_empty : (s : Bytes) → s ≢ [] → is_empty s ≡ false
  not_empty [] h = absurd (h refl)
  not_empty (c ∷ s) h = refl

  pub same_party-other :
      (company party : Bytes) → same_party company party ≡ false → Is company party → ⊥
  unfolding same_party
  same_party-other company party h (some_text, same) =
      let e : bytes_eq company (clean party) ≡ true = rw (← same) (bytes_eq_refl company) in
      cc (rw (not_empty company some_text, e) at h)

  -- the company is no party of the document
  abbrev pub Stranger : Document → Bytes → Type 0
  Stranger doc company = (party : Bytes) → In party (parties doc) → Is company party → ⊥

  -- What each reason says of the document.
  abbrev pub Reason : Document → Bytes → VisibilityReason → Type 0
  Reason doc company exact_destinatario = Is company doc.destinatario_cnpj
  Reason doc company exact_emitente = Is company doc.emitente_cnpj
  Reason doc company exact_transportador = Is company doc.transportador_cnpj
  Reason doc company exact_autorizado =
      (party : Bytes) × In party doc.autorizados_cnpj × Is company party
  Reason doc company resumo_destinatario = Stranger doc company × (doc.completeness ≡ resumo)
  Reason doc company same_root_only =
      Stranger doc company
      × (root_or_empty company ≢ [])
      × ((party : Bytes) × In party (parties doc) × (root_or_empty party ≡ root_or_empty company))
  Reason doc company unknown_reason =
      Stranger doc company
      × (root_or_empty company ≢ []
          → (party : Bytes) → In party (parties doc)
          → root_or_empty party ≢ root_or_empty company)

  -- a participation that its reason explains
  pub record IsExplained (doc : Document) (company : Bytes) (p : Participation) : Type 0 where
    pub role : p.company_role ≡ role_of p.visibility_reason
    pub reason : Reason doc company p.visibility_reason

  is_resumo-resumo : (c : Completeness) → is_resumo c ≡ true → c ≡ resumo
  is_resumo-resumo resumo h = refl
  is_resumo-resumo completa h = absurd (cc)
  is_resumo-resumo (other_completeness s) h = absurd (cc)

  pub no_bytes_eq : (s t : Bytes) → bytes_eq s t ≡ false → s ≢ t
  no_bytes_eq s t h e = cc (rw (e, bytes_eq_refl t) at h)

  by_root-IsExplained :
      (company : Bytes) (doc : Document)
      → Stranger doc company
      → IsExplained doc company (by_root company doc)
  unfolding by_root
  by_root-IsExplained company doc stranger =
      let test : Bytes → Bool = λ party. bytes_eq (root_or_empty party) (root_or_empty company) in
      elim (Bool-cases (is_empty (root_or_empty company))) [
        | inl e ↦ rw e (record {
          role = refl;
          reason = (stranger, λ some_root. absurd (cc (not_empty _ some_root, e)));
        })
        | inr e ↦ elim (Bool-cases (any_by test (parties doc))) [
          | inl f ↦
              let (party, found, same) = any_by-In test (parties doc) f in
              rw (e, f)
                (record {
                  role = refl;
                  reason = (
                    stranger,
                    is_empty-nil (root_or_empty company) e,
                    (party, found, bytes_eq-eq (root_or_empty party) (root_or_empty company) same),
                  );
                })
          | inr f ↦
              rw (e, f)
                (record {
                  role = refl;
                  reason = (
                    stranger,
                    λ some_root.
                        λ party found. no_bytes_eq _ _ (In-any_by test (parties doc) f party found),
                  );
                })
        ]
      ]

  -- who the parties are
  strange :
      (doc : Document) (company : Bytes)
      → same_party company doc.destinatario_cnpj ≡ false
      → same_party company doc.emitente_cnpj ≡ false
      → same_party company doc.transportador_cnpj ≡ false
      → any_by (same_party company) doc.autorizados_cnpj ≡ false
      → Stranger doc company
  strange doc company a b c d party (inl e) is =
      same_party-other company doc.destinatario_cnpj a (rw e at is)
  strange doc company a b c d party (inr (inl e)) is =
      same_party-other company doc.emitente_cnpj b (rw e at is)
  strange doc company a b c d party (inr (inr (inl e))) is =
      same_party-other company doc.transportador_cnpj c (rw e at is)
  strange doc company a b c d party (inr (inr (inr found))) is =
      same_party-other company party
        (In-any_by (same_party company) doc.autorizados_cnpj d party found) is

  -- The reason that ClassifyParticipation gives is true of the document and of the company's clean number,
  -- the role is the one of the reason, and a weaker reason is given only to a company that is no party.
  pub classify_participation-IsExplained :
      (doc : Document) (company_cnpj : Bytes)
      → IsExplained doc (clean company_cnpj) (classify_participation doc company_cnpj)
  unfolding classify_participation
  classify_participation-IsExplained doc company_cnpj =
      let company = clean company_cnpj in
      elim (Bool-cases (same_party company doc.destinatario_cnpj)) [
        | inl a ↦
            rw a (record { role = refl; reason = same_party-Is company doc.destinatario_cnpj a })
        | inr a ↦ elim (Bool-cases (same_party company doc.emitente_cnpj)) [
          | inl b ↦
              rw (a, b) (record { role = refl; reason = same_party-Is company doc.emitente_cnpj b })
          | inr b ↦ elim (Bool-cases (same_party company doc.transportador_cnpj)) [
            | inl c ↦
                rw (a, b, c)
                  (record { role = refl; reason = same_party-Is company doc.transportador_cnpj c })
            | inr c ↦ elim (Bool-cases (any_by (same_party company) doc.autorizados_cnpj)) [
              | inl d ↦
                  let (party, found, same) =
                    any_by-In (same_party company) doc.autorizados_cnpj d in
                  rw (a, b, c, d)
                    (record {
                      role = refl;
                      reason = (party, found, same_party-Is company party same);
                    })
              | inr d ↦
                  let stranger = strange doc company a b c d in
                  elim (Bool-cases (is_resumo doc.completeness)) [
                    | inl e ↦
                        rw (a, b, c, d, e)
                          (record {
                            role = refl;
                            reason = (stranger, is_resumo-resumo doc.completeness e);
                          })
                    | inr e ↦ rw (a, b, c, d, e) (by_root-IsExplained company doc stranger)
                  ]
            ]
          ]
        ]
      ]

-- ===== src/Cte/Participation/Roles.antt =====
-- The roles of a company in a CT-e are exactly those of the parties that carry its number.
use nanci.Prelude.{
  In-append, any_by-In, In-any_by, ◌≡◌, refl, sym, ap, ◌↔◌, ◌⊎◌, inl, inr, true, List, [], ◌∷◌,
  any_by, In, Bool-cases,
}
use mathlib.Core.Path.{subst}
use nanci.Text.{Bytes, Unicode}
use nanci.Nfe.Participation.{same_party}
use nanci.Nfe.Participation.Rules.{Is, same_party-Is, same_party-other}
use nanci.Cte.Types.{
  CteRole, tomador, destinatario, remetente, expedidor, recebedor, emitente, autorizado,
  Conhecimento,
}
use nanci.Cte.Participation.{cte_parties, matching, papeis_of}

-- the document carries the number as that of the role
pub data Carries (doc : Conhecimento) : CteRole → Bytes → Type 0 where
  as_tomador : Carries doc tomador doc.tomador.cnpj
  as_destinatario : Carries doc destinatario doc.destinatario.cnpj
  as_remetente : Carries doc remetente doc.remetente.cnpj
  as_expedidor : Carries doc expedidor doc.expedidor.cnpj
  as_recebedor : Carries doc recebedor doc.recebedor.cnpj
  as_emitente : Carries doc emitente doc.emitente.cnpj
  as_autorizado : {c : Bytes} → In c doc.autorizados_cnpj → Carries doc autorizado c

pub parties-Carries :
    (doc : Conhecimento) (r : CteRole) (c : Bytes) → In (r, c) (cte_parties doc) → Carries doc r c
parties-Carries doc r c found = elim found [
  | inl e ↦ carried e as_tomador
  | inr (inl e) ↦ carried e as_destinatario
  | inr (inr (inl e)) ↦ carried e as_remetente
  | inr (inr (inr (inl e))) ↦ carried e as_expedidor
  | inr (inr (inr (inr (inl e)))) ↦ carried e as_recebedor
  | inr (inr (inr (inr (inr (inl e))))) ↦ carried e as_emitente
  | inr (inr (inr (inr (inr (inr none_left))))) ↦ absurd none_left
]
  where
    carried :
        {q : CteRole} {d : Bytes}
        → ◌≡◌ {A = CteRole × Bytes} (r, c) (q, d)
        → Carries doc q d
        → Carries doc r c
    carried e h = subst (λ (x : CteRole × Bytes). Carries doc x.0 x.1) (sym e) h

module _ ⦃u : Unicode⦄ where
  Is-same_party : (company party : Bytes) → Is company party → same_party company party ≡ true
  Is-same_party company party h = elim (Bool-cases (same_party company party)) [
    | inl e ↦ e
    | inr e ↦ absurd (same_party-other company party e h)
  ]

  pub matching-In :
      (company : Bytes) (ps : List (CteRole × Bytes)) (r : CteRole)
      → In r (matching company ps) ↔ ((c : Bytes) × In (r, c) ps × Is company c)
  unfolding matching
  matching-In company [] r = (λ h. absurd h, λ (c, h, k). absurd h)
  matching-In company ((q, d) ∷ ps) r =
      let ih = matching-In company ps r in
      elim (Bool-cases (same_party company d)) [
        | inl e ↦ rw e (
          λ h. elim h [
            | inl same ↦ (d, inl (ap (λ x. (x, d)) same), same_party-Is company d e)
            | inr k ↦ let (c, found, is) = ih.0 k in (c, inr found, is)
          ],
          λ (c, found, is). elim found [
            | inl same ↦ inl (ap (λ (x : CteRole × Bytes). x.0) same)
            | inr k ↦ inr (ih.1 (c, k, is))
          ],
        )
        | inr e ↦ rw e (
          λ h. let (c, found, is) = ih.0 h in (c, inr found, is),
          λ (c, found, is). elim found [
            | inl same ↦
                let here : c ≡ d = ap (λ (x : CteRole × Bytes). x.1) same in
                absurd (same_party-other company d e (rw here at is))
            | inr k ↦ ih.1 (c, k, is)
          ],
        )
      ]

  -- the company plays the role in the document
  abbrev pub Plays : Conhecimento → Bytes → CteRole → Type 0
  Plays doc company r = (c : Bytes) × Carries doc r c × Is company c

  pub Plays-of :
      (company : Bytes) (doc : Conhecimento) (r : CteRole)
      → ((c : Bytes) × In (r, c) (cte_parties doc) × Is company c)
        ⊎ ((r ≡ autorizado) × ((c : Bytes) × In c doc.autorizados_cnpj × Is company c))
      → Plays doc company r
  Plays-of company doc r (inl (c, found, is)) = (c, parties-Carries doc r c found, is)
  Plays-of company doc r (inr (same, (c, found, is))) =
      subst (Plays doc company) (sym same) (c, as_autorizado found, is)

  pub of_Plays :
      (company : Bytes) (doc : Conhecimento) (r : CteRole) (c : Bytes)
      → Carries doc r c
      → Is company c
      → ((c : Bytes) × In (r, c) (cte_parties doc) × Is company c)
        ⊎ ((r ≡ autorizado) × ((c : Bytes) × In c doc.autorizados_cnpj × Is company c))
  of_Plays company doc r c as_tomador is = inl (c, inl refl, is)
  of_Plays company doc r c as_destinatario is = inl (c, inr (inl refl), is)
  of_Plays company doc r c as_remetente is = inl (c, inr (inr (inl refl)), is)
  of_Plays company doc r c as_expedidor is = inl (c, inr (inr (inr (inl refl))), is)
  of_Plays company doc r c as_recebedor is = inl (c, inr (inr (inr (inr (inl refl)))), is)
  of_Plays company doc r c as_emitente is = inl (c, inr (inr (inr (inr (inr (inl refl))))), is)
  of_Plays company doc r c (as_autorizado found) is = inr (refl, (c, found, is))

  pub papeis_of-In :
      (company : Bytes) (doc : Conhecimento) (r : CteRole)
      → In r (papeis_of company doc) ↔ (
          ((c : Bytes) × In (r, c) (cte_parties doc) × Is company c)
          ⊎ ((r ≡ autorizado) × ((c : Bytes) × In c doc.autorizados_cnpj × Is company c)))
  unfolding papeis_of
  papeis_of-In company doc r =
      let named = matching-In company (cte_parties doc) r in
      let last = In-append r (matching company (cte_parties doc)) (autorizado ∷ []) in
      elim (Bool-cases (any_by (same_party company) doc.autorizados_cnpj)) [
        | inl e ↦
            let (c, found, same) = any_by-In (same_party company) doc.autorizados_cnpj e in
            rw e (
              λ h. elim (last.0 h) [
                | inl k ↦ inl (named.0 k)
                | inr k ↦ elim k [
                  | inl same_role ↦ inr (same_role, (c, found, same_party-Is company c same))
                  | inr left ↦ absurd left
                ]
              ],
              λ h. elim h [
                | inl k ↦ last.1 (inl (named.1 k))
                | inr (same_role, k) ↦ last.1 (inr (inl same_role))
              ],
            )
        | inr e ↦ rw e (
          λ h. inl (named.0 h),
          λ h. elim h [
            | inl k ↦ named.1 k
            | inr (same_role, (c, found, is)) ↦ absurd (
                same_party-other company c
                  (In-any_by (same_party company) doc.autorizados_cnpj e c found) is)
          ],
        )
      ]

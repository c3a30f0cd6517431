-- ===== src/Cte/Participation/Explained.antt =====
-- What ClassifyParticipation of internal/cte/participation.go says of a CT-e.
use nanci.Prelude.{
  ℕ, In-append, any_by-In, In-any_by, ◌≤◌, ◌≡◌, ◌≢◌, refl, sym, ap, ◌↔◌, ◌⊎◌, inl, inr, Bool, List,
  [], ◌∷◌, ◌++◌, any_by, In, All, Bool-cases, arith,
}
use mathlib.Core.Path.{subst}
use nanci.Text.{Bytes, Unicode, bytes_eq, bytes_eq-eq, is_empty}
use nanci.Cnpj.{clean, root_or_empty}
use nanci.Nfe.Participation.{same_party}
use nanci.Nfe.Participation.Rules.{is_empty-nil, not_empty, no_bytes_eq}
use nanci.Cte.Types.{
  CteRole, tomador, destinatario, remetente, expedidor, recebedor, emitente, autorizado, no_role,
  CteReason, exact_tomador, exact_destinatario, exact_remetente, exact_expedidor, exact_recebedor,
  exact_emitente, exact_autorizado, same_root_only, unknown_reason, Conhecimento,
}
use nanci.Cte.Participation.{
  CteParticipation, cte_parties, matching, papeis_of, by_papeis, exact_visibility, numbers,
  classify_cte_participation,
}
use nanci.Cte.Participation.Roles.{
  Carries, as_tomador, as_destinatario, as_remetente, as_expedidor, as_recebedor, as_emitente,
  as_autorizado, parties-Carries, Plays, Plays-of, of_Plays, papeis_of-In,
}

-- The order in which the main role is sought: who pays the freight first, and who may only read it last.
abbrev pub rank : CteRole → ℕ
rank tomador = 0
rank destinatario = 1
rank remetente = 2
rank expedidor = 3
rank recebedor = 4
rank emitente = 5
rank autorizado = 6
rank no_role = 7

-- the reason that goes with a role
pub data ReasonOf : CteRole → CteReason → Type 0 where
  of_tomador : ReasonOf tomador exact_tomador
  of_destinatario : ReasonOf destinatario exact_destinatario
  of_remetente : ReasonOf remetente exact_remetente
  of_expedidor : ReasonOf expedidor exact_expedidor
  of_recebedor : ReasonOf recebedor exact_recebedor
  of_emitente : ReasonOf emitente exact_emitente
  of_autorizado : ReasonOf autorizado exact_autorizado

Carries-ReasonOf :
    (doc : Conhecimento) (r : CteRole) (c : Bytes)
    → Carries doc r c
    → ReasonOf r (exact_visibility r)
Carries-ReasonOf doc r c as_tomador = of_tomador
Carries-ReasonOf doc r c as_destinatario = of_destinatario
Carries-ReasonOf doc r c as_remetente = of_remetente
Carries-ReasonOf doc r c as_expedidor = of_expedidor
Carries-ReasonOf doc r c as_recebedor = of_recebedor
Carries-ReasonOf doc r c as_emitente = of_emitente
Carries-ReasonOf doc r c (as_autorizado i) = of_autorizado

Carries-rank : (doc : Conhecimento) (r : CteRole) (c : Bytes) → Carries doc r c → rank r ≤ 6
Carries-rank doc r c as_tomador = omega arith
Carries-rank doc r c as_destinatario = omega arith
Carries-rank doc r c as_remetente = omega arith
Carries-rank doc r c as_expedidor = omega arith
Carries-rank doc r c as_recebedor = omega arith
Carries-rank doc r c as_emitente = omega arith
Carries-rank doc r c (as_autorizado i) = omega arith

-- the number of a party, and its role
numbers-In :
    (ps : List (CteRole × Bytes)) (c : Bytes) → In c (numbers ps) ↔ ((r : CteRole) × In (r, c) ps)
numbers-In [] c = (λ h. absurd h, λ (r, h). absurd h)
numbers-In ((q, d) ∷ ps) c =
    let ih = numbers-In ps c in
    (
      λ h. elim h [
        | inl e ↦ (q, inl (ap (λ x. (q, x)) e))
        | inr k ↦ let (r, found) = ih.0 k in (r, inr found)
      ],
      λ (r, h). elim h [
        | inl e ↦ inl (ap (λ (x : CteRole × Bytes). x.1) e)
        | inr k ↦ inr (ih.1 (r, k))
      ],
    )

-- the numbers that the root of the company is sought in are those that the document carries
abbrev named_numbers : Conhecimento → List Bytes
named_numbers doc = doc.autorizados_cnpj ++ numbers (cte_parties doc)

named_numbers-Carries :
    (doc : Conhecimento) (c : Bytes) → In c (named_numbers doc) → (r : CteRole) × Carries doc r c
named_numbers-Carries doc c h =
    elim ((In-append c doc.autorizados_cnpj (numbers (cte_parties doc))).0 h) [
      | inl i ↦ (autorizado, as_autorizado i)
      | inr i ↦
          let (r, found) = (numbers-In (cte_parties doc) c).0 i in
          (r, parties-Carries doc r c found)
    ]

Carries-named_numbers :
    (doc : Conhecimento) (r : CteRole) (c : Bytes) → Carries doc r c → In c (named_numbers doc)
Carries-named_numbers doc r c h =
    (In-append c doc.autorizados_cnpj (numbers (cte_parties doc))).1 (go h)
  where
    go :
        {r : CteRole} {c : Bytes}
        → Carries doc r c
        → In c doc.autorizados_cnpj ⊎ In c (numbers (cte_parties doc))
    go as_tomador = inr (inl refl)
    go as_destinatario = inr (inr (inl refl))
    go as_remetente = inr (inr (inr (inl refl)))
    go as_expedidor = inr (inr (inr (inr (inl refl))))
    go as_recebedor = inr (inr (inr (inr (inr (inl refl)))))
    go as_emitente = inr (inr (inr (inr (inr (inr (inl refl))))))
    go (as_autorizado i) = inl i

-- No role of the rest comes before the first.
abbrev Least : List CteRole → Type 0
Least [] = Unit {0}
Least (r ∷ rs) = (q : CteRole) → In q rs → rank r ≤ rank q

abbrev Ranked : List (CteRole × Bytes) → Type 0
Ranked [] = Unit {0}
Ranked ((r, c) ∷ ps) = All (λ (x : CteRole × Bytes). rank r ≤ rank x.0) ps × Ranked ps

module _ ⦃u : Unicode⦄ where
  matching-rank :
      (company : Bytes) (n : ℕ) (ps : List (CteRole × Bytes))
      → All (λ (x : CteRole × Bytes). n ≤ rank x.0) ps
      → (q : CteRole) → In q (matching company ps)
      → n ≤ rank q
  unfolding matching
  matching-rank company n [] h q i = absurd i
  matching-rank company n ((r, c) ∷ ps) (h, hs) q i = elim (Bool-cases (same_party company c)) [
    | inr e ↦ matching-rank company n ps hs q (rw e at i)
    | inl e ↦ elim (rw e at i) [
      | inl same ↦ subst (λ x. n ≤ rank x) (sym same) h
      | inr k ↦ matching-rank company n ps hs q k
    ]
  ]

  matching-Least :
      (company : Bytes) (ps : List (CteRole × Bytes)) → Ranked ps → Least (matching company ps)
  unfolding matching
  matching-Least company [] h = tt
  matching-Least company ((r, c) ∷ ps) (h, hs) = elim (Bool-cases (same_party company c)) [
    | inl e ↦ rw e (matching-rank company (rank r) ps h)
    | inr e ↦ rw e (matching-Least company ps hs)
  ]

  listed-Least :
      (rs : List CteRole)
      → ((q : CteRole) → In q rs → rank q ≤ 6)
      → Least rs
      → Least (rs ++ (autorizado ∷ []))
  listed-Least [] bound h = λ q i. absurd i
  listed-Least (r ∷ rs) bound h = λ q i. elim ((In-append q rs (autorizado ∷ [])).0 i) [
    | inl k ↦ h q k
    | inr (inl e) ↦ subst (λ x. rank r ≤ rank x) (sym e) (bound r (inl refl))
    | inr (inr none_left) ↦ absurd none_left
  ]

  papeis_of-Plays :
      (company : Bytes) (doc : Conhecimento) (r : CteRole)
      → In r (papeis_of company doc) ↔ Plays doc company r
  papeis_of-Plays company doc r =
      let both = papeis_of-In company doc r in
      (λ h. Plays-of company doc r (both.0 h), λ (c, k, is). both.1 (of_Plays company doc r c k is))

  papeis_of-Least : (company : Bytes) (doc : Conhecimento) → Least (papeis_of company doc)
  unfolding papeis_of
  papeis_of-Least company doc =
      let named = matching-Least company (cte_parties doc) (omega arith) in
      elim (Bool-cases (any_by (same_party company) doc.autorizados_cnpj)) [
        | inr e ↦ rw e named
        | inl e ↦ rw e (
            listed-Least (matching company (cte_parties doc))
              (λ q i.
                let (c, k, is) =
                  (papeis_of-Plays company doc q).0 (unfold papeis_of in rw e (first q i)) in
                Carries-rank doc q c k)
              named)
      ]
    where
      first :
          (q : CteRole)
          → In q (matching company (cte_parties doc))
          → In q (matching company (cte_parties doc) ++ (autorizado ∷ []))
      first q i = (In-append q (matching company (cte_parties doc)) (autorizado ∷ [])).1 (inl i)

  -- what the reason says where the company plays no role
  abbrev pub RootReason : Conhecimento → Bytes → CteReason → Type 0
  RootReason doc company same_root_only =
      (root_or_empty company ≢ [])
      × ((r : CteRole) × (c : Bytes) × Carries doc r c × (root_or_empty c ≡ root_or_empty company))
  RootReason doc company unknown_reason =
      root_or_empty company ≢ []
      → (r : CteRole) (c : Bytes) → Carries doc r c
      → root_or_empty c ≢ root_or_empty company
  RootReason doc company exact_tomador = ⊥
  RootReason doc company exact_destinatario = ⊥
  RootReason doc company exact_remetente = ⊥
  RootReason doc company exact_expedidor = ⊥
  RootReason doc company exact_recebedor = ⊥
  RootReason doc company exact_emitente = ⊥
  RootReason doc company exact_autorizado = ⊥

  -- What a participation says of the document.
  pub record IsRoled (doc : Conhecimento) (company : Bytes) (p : CteParticipation) : Type 0 where
    pub exact : (r : CteRole) → In r p.papeis ↔ Plays doc company r
    pub main :
        ((p.papeis ≡ []) × (p.company_role ≡ no_role) × RootReason doc company p.visibility_reason)
        ⊎ (In p.company_role p.papeis × ReasonOf p.company_role p.visibility_reason)
    pub first : (r : CteRole) → Plays doc company r → rank p.company_role ≤ rank r

  by_papeis-IsRoled :
      (doc : Conhecimento) (company : Bytes) (ps : List CteRole)
      → ((r : CteRole) → In r ps ↔ Plays doc company r)
      → Least ps
      → IsRoled doc company (by_papeis ps company doc)
  by_papeis-IsRoled doc company [] h least =
      let test : Bytes → Bool = λ party. bytes_eq (root_or_empty party) (root_or_empty company) in
      elim (Bool-cases (is_empty (root_or_empty company))) [
        | inl e ↦ rw e (record {
          exact = h;
          first = λ r plays. absurd ((h r).1 plays);
          main = inl (refl, refl, λ some_root r c k. absurd (cc (not_empty _ some_root, e)));
        })
        | inr e ↦ elim (Bool-cases (any_by test (named_numbers doc))) [
          | inl f ↦
              let (party, found, same) = any_by-In test (named_numbers doc) f in
              let carried = named_numbers-Carries doc party found in
              rw (e, f)
                (record {
                  exact = h;
                  first = λ r plays. absurd ((h r).1 plays);
                  main = inl (
                    refl,
                    refl,
                    (
                      is_empty-nil (root_or_empty company) e,
                      (
                        carried.0,
                        party,
                        carried.1,
                        bytes_eq-eq (root_or_empty party) (root_or_empty company) same,
                      ),
                    ),
                  );
                })
          | inr f ↦
              rw (e, f)
                (record {
                  exact = h;
                  first = λ r plays. absurd ((h r).1 plays);
                  main = inl (
                    refl,
                    refl,
                    λ some_root r party k.
                        no_bytes_eq (root_or_empty party) (root_or_empty company) (
                          In-any_by test (named_numbers doc) f party
                            (Carries-named_numbers doc r party k)),
                  );
                })
        ]
      ]
  by_papeis-IsRoled doc company (r ∷ rs) h least =
      let (c, k, is) = (h r).0 (inl refl) in
      record {
        exact = h;
        main = inr (inl refl, Carries-ReasonOf doc r c k);
        first = λ q plays. elim ((h q).1 plays) [
          | inl e ↦ subst (λ x. rank r ≤ rank x) (sym e) (omega arith)
          | inr i ↦ least q i
        ];
      }

  -- The roles that ClassifyParticipation gives are exactly those for which the document carries the company's whole
  -- number. The main role is the first of them in the order tomador, destinatário, remetente, expedidor, recebedor,
  -- emitente and authorized reader, with its own reason; and without a role the reason says whether a number that the
  -- document carries has the root of the company.
  pub classify_cte_participation-IsRoled :
      (doc : Conhecimento) (company_cnpj : Bytes)
      → IsRoled doc (clean company_cnpj) (classify_cte_participation doc company_cnpj)
  unfolding classify_cte_participation
  classify_cte_participation-IsRoled doc company_cnpj =
      let company = clean company_cnpj in
      by_papeis-IsRoled doc company (papeis_of company doc) (papeis_of-Plays company doc)
        (papeis_of-Least company doc)

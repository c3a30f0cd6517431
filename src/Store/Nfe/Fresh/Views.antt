-- ===== src/Store/Nfe/Fresh/Views.antt =====
-- UpsertCompanyNFeDocument and the updates of the manifestação touch the rows of one chave.
use nanci.Prelude.{
  ◌≡◌, ◌≢◌, refl, sym, ap, ◌∙◌, inl, inr, Bool, true, false, not, ◌&&◌, List, [], ◌∷◌, Option, In,
  any_by, In-any_by, Bool-cases, if◌then◌else◌, ℕ, arith, map,
}
use mathlib.Core.Path.{subst}
use nanci.Text.{Bytes, Unicode, bytes_eq-eq}
use nanci.Sync.Env.{ok, ok-injective}
use nanci.Nfe.Types.{Event, Manifestacao}
use nanci.Nfe.Participation.{Participation}
use nanci.Nfe.Manifestacao.{manifestacao_and_time_from_events}
use nanci.Store.Select.{In-map, OneEach, OneEach-map, OneEach-cons}
use nanci.Store.Nfe.Tables.{DocumentRow, Relation, Tables}
use nanci.Store.Nfe.Rows.{
  upsert_relation_row, is_view, seen_again, new_relation, is_relation, with_manifestacao,
}
use nanci.Store.Nfe.Fresh.{relation_id_of, IsFreshBut}
use nanci.Store.Nfe.Fresh.Documents.{differ, guarded_ok, Owns}

abbrev pub pair : Relation → Manifestacao × Option ℕ
pair r = (r.manifestacao, r.manifestacao_at)

-- the view of one document by one company, with one manifestação
pub record Alike (r r' : Relation) : Type 0 where
  pub company : r.company_id ≡ r'.company_id
  pub document : r.document_id ≡ r'.document_id
  pub manifestacao : pair r ≡ pair r'

-- A row that does not view the chave is an old one.
abbrev pub Kept : Bytes → Tables → List Relation → Type 0
Kept chave t relations =
    (row : DocumentRow) (r' : Relation)
    → In row t.documents
    → row.document.chave_acesso ≢ chave
    → In r' relations
    → r'.document_id ≡ row.document.id
    → (r : Relation) × In r t.relations × Alike r r'

module _ ⦃u : Unicode⦄ (order : List (Event × ℕ) → List (Event × ℕ)) where
  pub relations-IsFreshBut :
      (chave : Bytes) (t : Tables) (relations : List Relation)
      → OneEach relation_id_of relations
      → Kept chave t relations
      → IsFreshBut order chave t
      → IsFreshBut order chave (record t { relations = relations })
  relations-IsFreshBut chave t relations one old h = record {
    keyed = record {
      chaves = h.keyed.chaves;
      ids = h.keyed.ids;
      relations = one;
      companies = h.keyed.companies;
    };
    fresh = λ other ne.
        let f = h.fresh other ne in
        record {
          situacao = f.situacao;
          manifestacao = λ row r' c i e j d k q.
              let (r, l, a) = old row r' i (λ x. ne (sym e ∙ x)) j d in
              sym a.manifestacao
              ∙ f.manifestacao row r c i e l (a.document ∙ d) k (q ∙ sym a.company);
        };
  }

  pub upsert_relation_row-IsFreshBut :
      (chave id company document : Bytes) (p : Participation) (nsu : Option ℕ) (now : ℕ)
      (t : Tables) {t' : Tables}
      → upsert_relation_row id company document p nsu now t ≡ ok t'
      → Owns chave document t
      → IsFreshBut order chave t
      → IsFreshBut order chave t'
  unfolding upsert_relation_row
  upsert_relation_row-IsFreshBut chave id company document p nsu now t h owns fresh =
      elim (Bool-cases (any_by (is_view company document) t.relations)) [
        | inl e ↦ subst (IsFreshBut order chave) (ok-injective (rw e at h)) (
            relations-IsFreshBut chave t (map again t.relations)
              (OneEach-map relation_id_of again t.relations kept_id fresh.keyed.relations)
              (λ row r' i ne j d.
                let (r, l, same) = In-map again t.relations r' j in
                (r, l, subst (Alike r) (sym same) (alike r)))
              fresh)
        | inr e ↦
            let (test, same) = guarded_ok _ _ (rw e at h) in
            subst (IsFreshBut order chave) same (
              relations-IsFreshBut chave t
                (new_relation id company document p nsu now ∷ t.relations)
                (OneEach-cons relation_id_of _ t.relations
                  (λ r i.
                    differ r.relation_id id (In-any_by _ t.relations (first_not _ _ _ test) r i))
                  fresh.keyed.relations)
                (λ row r' i ne j d. elim j [
                  | inl new ↦
                      absurd (ne (owns row i (sym d ∙ ap (λ (x : Relation). x.document_id) new)))
                  | inr l ↦ (r', l, record { company = refl; document = refl; manifestacao = refl })
                ])
                fresh)
      ]
    where
      again : Relation → Relation
      again r = if is_view company document r then seen_again p nsu now r else r

      kept_id : (r : Relation) → relation_id_of (again r) ≡ relation_id_of r
      kept_id r = elim (Bool-cases (is_view company document r)) [
        | inl e ↦ rw e refl
        | inr e ↦ rw e refl
      ]

      alike : (r : Relation) → Alike r (again r)
      alike r = elim (Bool-cases (is_view company document r)) [
        | inl e ↦ rw e (record { company = refl; document = refl; manifestacao = refl })
        | inr e ↦ rw e (record { company = refl; document = refl; manifestacao = refl })
      ]

      first_not : (a b c : Bool) → (not a && b && c) ≡ true → a ≡ false
      first_not a b c k = ground (arith, k)

module _ ⦃u : Unicode⦄ where
  -- what the loop of refreshChave does to one row
  abbrev pub refreshed : List Event → List (Bytes × Bytes) → Relation → Relation
  refreshed events [] r = r
  refreshed events ((id, cnpj) ∷ rest) r = refreshed events rest (
      if is_relation id r
      then with_manifestacao (manifestacao_and_time_from_events events cnpj) r
      else r)

  pub record SameRow (r r' : Relation) : Type 0 where
    pub id : r'.relation_id ≡ r.relation_id
    pub company : r'.company_id ≡ r.company_id
    pub document : r'.document_id ≡ r.document_id

  step_row :
      (m : Manifestacao × Option ℕ) (id : Bytes) (r : Relation)
      → SameRow r (if is_relation id r then with_manifestacao m r else r)
  step_row m id r = elim (Bool-cases (is_relation id r)) [
    | inl e ↦ rw e (record { id = refl; company = refl; document = refl })
    | inr e ↦ rw e (record { id = refl; company = refl; document = refl })
  ]

  pub refreshed-SameRow :
      (events : List Event) (rows : List (Bytes × Bytes)) (r : Relation)
      → SameRow r (refreshed events rows r)
  refreshed-SameRow events [] r = record { id = refl; company = refl; document = refl }
  refreshed-SameRow events ((id, cnpj) ∷ rest) r =
      let m = manifestacao_and_time_from_events events cnpj in
      let one = step_row m id r in
      let more =
        refreshed-SameRow events rest (if is_relation id r then with_manifestacao m r else r) in
      record {
        id = more.id ∙ one.id;
        company = more.company ∙ one.company;
        document = more.document ∙ one.document;
      }

  pub refreshed_other :
      (events : List Event) (rows : List (Bytes × Bytes)) (r : Relation)
      → ((id cnpj : Bytes) → In (id, cnpj) rows → id ≢ r.relation_id)
      → refreshed events rows r ≡ r
  refreshed_other events [] r h = refl
  refreshed_other events ((id, cnpj) ∷ rest) r h = elim (Bool-cases (is_relation id r)) [
    | inl e ↦ absurd (h id cnpj (inl refl) (sym (bytes_eq-eq r.relation_id id e)))
    | inr e ↦ rw e (refreshed_other events rest r (λ i c k. h i c (inr k)))
  ]

  -- every entry of the row is of this CNPJ
  abbrev pub Agree : Bytes → List (Bytes × Bytes) → Bytes → Type 0
  Agree id rows cnpj = (other : Bytes) → In (id, other) rows → other ≡ cnpj

  -- where the rest of the loop leads from the row, updated or not
  abbrev After : List Event → List (Bytes × Bytes) → Relation → Bytes → Bytes → Bool → Type 0
  After events rest r other cnpj b =
      pair (
        refreshed events rest
          (if b then with_manifestacao (manifestacao_and_time_from_events events other) r else r))
      ≡ manifestacao_and_time_from_events events cnpj

  refreshed_kept :
      (events : List Event) (rows : List (Bytes × Bytes)) (r : Relation) (cnpj : Bytes)
      → Agree r.relation_id rows cnpj
      → pair r ≡ manifestacao_and_time_from_events events cnpj
      → pair (refreshed events rows r) ≡ manifestacao_and_time_from_events events cnpj
  refreshed_kept events [] r cnpj agree done = done
  refreshed_kept events ((id, other) ∷ rest) r cnpj agree done =
      elim (Bool-cases (is_relation id r)) [
        | inr e ↦
            subst (After events rest r other cnpj) (sym e)
              (refreshed_kept events rest r cnpj (λ c k. agree c (inr k)) done)
        | inl e ↦
            let same = bytes_eq-eq r.relation_id id e in
            let named : other ≡ cnpj = agree other (inl (ap (λ x. (x, other)) same)) in
            subst (After events rest r other cnpj) (sym e) (
              refreshed_kept events rest
                (with_manifestacao (manifestacao_and_time_from_events events other) r) cnpj
                (λ c k. agree c (inr k)) (ap (manifestacao_and_time_from_events events) named))
      ]

  pub refreshed-pair :
      (events : List Event) (rows : List (Bytes × Bytes)) (r : Relation) (cnpj : Bytes)
      → Agree r.relation_id rows cnpj
      → In (r.relation_id, cnpj) rows
      → pair (refreshed events rows r) ≡ manifestacao_and_time_from_events events cnpj
  refreshed-pair events [] r cnpj agree found = absurd found
  refreshed-pair events ((id, other) ∷ rest) r cnpj agree found =
      elim (Bool-cases (is_relation id r)) [
        | inl e ↦
            let named : other ≡ cnpj =
              agree other (inl (ap (λ x. (x, other)) (bytes_eq-eq r.relation_id id e))) in
            subst (After events rest r other cnpj) (sym e) (
              refreshed_kept events rest
                (with_manifestacao (manifestacao_and_time_from_events events other) r) cnpj
                (λ c k. agree c (inr k)) (ap (manifestacao_and_time_from_events events) named))
        | inr e ↦ elim found [
          | inl same ↦ absurd (differ r.relation_id id e (ap (λ (x : Bytes × Bytes). x.0) same))
          | inr k ↦
              subst (After events rest r other cnpj) (sym e)
                (refreshed-pair events rest r cnpj (λ c l. agree c (inr l)) k)
        ]
      ]

-- ===== src/Store/Nfe/Fresh/Chave.antt =====
-- refreshNFeChave of internal/store/nfe.go makes the derived columns of its chave fresh.
use nanci.Prelude.{◌≡◌, refl, sym, ap, ◌∙◌, inl, inr, true, List, In, any_by, Bool-cases, ℕ, map}
use mathlib.Core.Path.{subst}
use nanci.Text.{Bytes, Unicode, bytes_eq, bytes_eq-eq}
use nanci.Nfe.Types.{Event, cancelada}
use nanci.Nfe.Merge.{is_cancelamento}
use nanci.Nfe.Manifestacao.{manifestacao_and_time_from_events}
use nanci.Store.Select.{In-map, map-In, In-keep, keep-In, In-flat_map, flat_map-In, OneEach-map}
use nanci.Store.Nfe.Tables.{DocumentRow, Relation, CompanyRow, Tables}
use nanci.Store.Nfe.Rows.{relations_of_chave, joined, companies_of}
use nanci.Store.Nfe.Apply.{events_of_chave, registered_types}
use nanci.Store.Nfe.Fresh.{chave_of, id_of, relation_id_of, FreshAt, IsFresh, IsFreshBut}
use nanci.Store.Nfe.Fresh.Documents.{differ}
use nanci.Store.Nfe.Fresh.Views.{
  pair, Kept, Alike, relations-IsFreshBut, refreshed, refreshed-SameRow, refreshed_other,
  refreshed-pair,
}
use nanci.Store.Nfe.Fresh.Refresh.{Entry, bytes_eq_of, both, left_of, right_of}

module _ ⦃u : Unicode⦄ (order : List (Event × ℕ) → List (Event × ℕ)) where
  Entry-In :
      (chave : Bytes) (t : Tables) (id cnpj : Bytes)
      → In (id, cnpj) (relations_of_chave chave t)
      → Entry order chave t id cnpj
  unfolding relations_of_chave
  Entry-In chave t id cnpj i =
      let (r, related, in_join) = In-flat_map (joined chave t) t.relations (id, cnpj) i in
      let (row, selected, in_map) =
        In-flat_map
          (λ (row : DocumentRow).
            map (λ (c : CompanyRow). (r.relation_id, c.cnpj))
              (companies_of r.company_id t.companies))
          _ (id, cnpj) in_join in
      let (there, both) = In-keep _ t.documents row selected in
      let (c, picked, same) =
        In-map (λ (c : CompanyRow). (r.relation_id, c.cnpj)) _ (id, cnpj) in_map in
      let (known, matches) = In-keep _ t.companies c picked in
      record {
        relation = r;
        row = row;
        company = c;
        related = related;
        there = there;
        known = known;
        named = ap (λ (x : Bytes × Bytes). x.0) same;
        of_row = bytes_eq-eq (id_of row) r.document_id (left_of _ _ both);
        of_chave_row = bytes_eq-eq (chave_of row) chave (right_of _ _ both);
        of_company = bytes_eq-eq c.id r.company_id matches;
        number = ap (λ (x : Bytes × Bytes). x.1) same;
      }

  In-Entry :
      (chave : Bytes) (t : Tables) (row : DocumentRow) (r : Relation) (c : CompanyRow)
      → In row t.documents
      → row.document.chave_acesso ≡ chave
      → In r t.relations
      → r.document_id ≡ row.document.id
      → In c t.companies
      → c.id ≡ r.company_id
      → In (r.relation_id, c.cnpj) (relations_of_chave chave t)
  unfolding relations_of_chave
  In-Entry chave t row r c i e j d k q = flat_map-In (joined chave t) t.relations r _ j (
      flat_map-In
        (λ (x : DocumentRow).
          map (λ (y : CompanyRow). (r.relation_id, y.cnpj)) (companies_of r.company_id t.companies))
        _ row _ (keep-In _ t.documents row i (both (bytes_eq_of (sym d)) (bytes_eq_of e)))
        (map-In (λ (y : CompanyRow). (r.relation_id, y.cnpj)) _ c
          (keep-In _ t.companies c k (bytes_eq_of q))))

  module _ (chave : Bytes) (t : Tables) (h : IsFreshBut order chave t) where
    abbrev loop : List (Bytes × Bytes)
    loop = relations_of_chave chave t

    abbrev now_events : List Event
    now_events = events_of_chave order chave t

    abbrev after : List Relation
    after = map (refreshed now_events loop) t.relations

    same_relation :
        (id cnpj : Bytes) (x : Entry order chave t id cnpj) (r : Relation)
        → In r t.relations
        → id ≡ r.relation_id
        → x.relation ≡ r
    same_relation id cnpj x r j e = h.keyed.relations x.relation r x.related j (sym x.named ∙ e)

    loop-Kept : Kept chave t after
    loop-Kept row r' i ne j d =
        let (r, k, same) = In-map (refreshed now_events loop) t.relations r' j in
        let view = refreshed-SameRow now_events loop r in
        let other : refreshed now_events loop r ≡ r =
          refreshed_other now_events loop r (λ id cnpj l e.
            let x = Entry-In chave t id cnpj l in
            let origin = same_relation id cnpj x r k e in
            let document : x.row.document.id ≡ row.document.id =
              x.of_row
              ∙ ap (λ (y : Relation). y.document_id) origin
              ∙ sym view.document
              ∙ sym (ap (λ (y : Relation). y.document_id) same)
              ∙ d in
            ne (sym (ap chave_of (h.keyed.ids x.row row x.there i document)) ∙ x.of_chave_row)) in
        (
          r,
          k,
          subst (Alike r) (sym (same ∙ other))
              (record { company = refl; document = refl; manifestacao = refl }),
        )

    loop-IsFreshBut : IsFreshBut order chave (record t { relations = after })
    loop-IsFreshBut =
        relations-IsFreshBut order chave t after
          (OneEach-map relation_id_of (refreshed now_events loop) t.relations
            (λ r. (refreshed-SameRow now_events loop r).id) h.keyed.relations)
          loop-Kept h

    loop-pair :
        (row : DocumentRow) (r' : Relation) (c : CompanyRow)
        → In row t.documents
        → row.document.chave_acesso ≡ chave
        → In r' after
        → r'.document_id ≡ row.document.id
        → In c t.companies
        → c.id ≡ r'.company_id
        → pair r' ≡ manifestacao_and_time_from_events now_events c.cnpj
    loop-pair row r' c i e j d k q =
        let (r, l, same) = In-map (refreshed now_events loop) t.relations r' j in
        let view = refreshed-SameRow now_events loop r in
        let document : r.document_id ≡ row.document.id =
          sym view.document ∙ sym (ap (λ (y : Relation). y.document_id) same) ∙ d in
        let company : c.id ≡ r.company_id =
          q ∙ ap (λ (y : Relation). y.company_id) same ∙ view.company in
        ap pair same
        ∙ refreshed-pair now_events loop r c.cnpj
            (λ other m.
              let x = Entry-In chave t r.relation_id other m in
              let origin = same_relation r.relation_id other x r l refl in
              let one : x.company ≡ c =
                h.keyed.companies x.company c x.known k
                  (x.of_company ∙ ap (λ (y : Relation). y.company_id) origin ∙ sym company) in
              x.number ∙ ap (λ (y : CompanyRow). y.cnpj) one)
            (In-Entry chave t row r c i e l document k company)

    -- the loop after the situação is set
    pub loop-IsFresh :
        ((row : DocumentRow)
          → In row t.documents
          → row.document.chave_acesso ≡ chave
          → any_by is_cancelamento (registered_types now_events) ≡ true
          → row.document.situacao ≡ cancelada)
        → IsFresh order (record t { relations = after })
    loop-IsFresh set = record {
      keyed = loop-IsFreshBut.keyed;
      fresh = λ other. elim (Bool-cases (bytes_eq other chave)) [
        | inr e ↦ loop-IsFreshBut.fresh other (differ other chave e)
        | inl e ↦
            subst (λ x. FreshAt order x (record t { relations = after }))
              (sym (bytes_eq-eq other chave e))
              (record { situacao = set; manifestacao = loop-pair })
      ];
    }

-- ===== src/Store/Nfe/Fresh/Refresh.antt =====
-- refreshChave makes the derived columns of its chave those of the events.
use nanci.Prelude.{
  ◌≡◌, refl, sym, ap, ◌∙◌, inl, inr, Bool, true, ◌&&◌, List, [], ◌∷◌, In, any_by, Bool-cases,
  if◌then◌else◌, ℕ, arith, map,
}
use mathlib.Core.List.{map-map, map-id}
use nanci.Text.{Bytes, Unicode, bytes_eq, bytes_eq-eq, bytes_eq_refl}
use nanci.Sync.Env.{ok}
use nanci.Nfe.Types.{Event, Situacao, autorizada, denegada, cancelada, other_situacao}
use nanci.Nfe.Merge.{is_cancelamento}
use nanci.Nfe.Manifestacao.{manifestacao_and_time_from_events}
use nanci.Store.Tx.{World, Session, update}
use nanci.Store.Tx.Rules.{bind_ok, update_ok}
use nanci.Store.Select.{keep, update_where}
use nanci.Store.Nfe.Tables.{DocumentRow, Relation, CompanyRow, EventRow, Tables, of_chave}
use nanci.Store.Nfe.Rows.{update_manifestacao_rows, with_manifestacao, is_relation}
use nanci.Store.Nfe.Rows.Events.{link_event_rows, link}
use nanci.Store.Nfe.Apply.{
  events_of_chave, event_of, stamped, registered_types, refresh_relations, no_change,
}
use nanci.Store.Nfe.Fresh.{IsFreshBut}
use nanci.Store.Nfe.Fresh.Views.{refreshed}

pub no_change-eq : (a b : Situacao) → no_change a b ≡ true → a ≡ b
no_change-eq autorizada autorizada h = refl
no_change-eq denegada denegada h = refl
no_change-eq cancelada cancelada h = refl
no_change-eq (other_situacao s) (other_situacao t) h = ap other_situacao (bytes_eq-eq s t h)
no_change-eq autorizada denegada h = absurd (cc)
no_change-eq autorizada cancelada h = absurd (cc)
no_change-eq autorizada (other_situacao t) h = absurd (cc)
no_change-eq denegada autorizada h = absurd (cc)
no_change-eq denegada cancelada h = absurd (cc)
no_change-eq denegada (other_situacao t) h = absurd (cc)
no_change-eq cancelada autorizada h = absurd (cc)
no_change-eq cancelada denegada h = absurd (cc)
no_change-eq cancelada (other_situacao t) h = absurd (cc)
no_change-eq (other_situacao s) autorizada h = absurd (cc)
no_change-eq (other_situacao s) denegada h = absurd (cc)
no_change-eq (other_situacao s) cancelada h = absurd (cc)

-- The link of an event to its document is no part of what is read of it.
stamped-link :
    (p : EventRow → Bool) (id chave : Bytes) (rows : List EventRow)
    → map stamped (keep (of_chave chave) (update_where p (link id) rows))
      ≡ map stamped (keep (of_chave chave) rows)
stamped-link p id chave [] = refl
stamped-link p id chave (row ∷ rows) =
    let ih = stamped-link p id chave rows in
    elim (Bool-cases (p row)) [
      | inl e ↦ elim (Bool-cases (of_chave chave row)) [
        | inl f ↦ rw (e, f) (ap (◌∷◌ (stamped row)) ih)
        | inr f ↦ rw (e, f) ih
      ]
      | inr e ↦ elim (Bool-cases (of_chave chave row)) [
        | inl f ↦ rw (e, f) (ap (◌∷◌ (stamped row)) ih)
        | inr f ↦ rw (e, f) ih
      ]
    ]

pub bytes_eq_of : {s t : Bytes} → s ≡ t → bytes_eq s t ≡ true
bytes_eq_of {s} {t} e = ap (λ x. bytes_eq x t) e ∙ bytes_eq_refl t

pub both : {a b : Bool} → a ≡ true → b ≡ true → (a && b) ≡ true
both h k = ground (arith, h, k)

pub left_of : (a b : Bool) → (a && b) ≡ true → a ≡ true
left_of a b h = ground (arith, h)

pub right_of : (a b : Bool) → (a && b) ≡ true → b ≡ true
right_of a b h = ground (arith, h)

module _ ⦃u : Unicode⦄ (order : List (Event × ℕ) → List (Event × ℕ)) where
  pub events_of_chave-link :
      (id chave other : Bytes) (t : Tables)
      → events_of_chave order other (link_event_rows id chave t) ≡ events_of_chave order other t
  events_of_chave-link id chave other t =
      ap (λ rows. map event_of (order rows)) (stamped-link _ id other t.events)

  pub link-IsFreshBut :
      (id chave : Bytes) (t : Tables)
      → IsFreshBut order chave t
      → IsFreshBut order chave (link_event_rows id chave t)
  link-IsFreshBut id chave t h = record {
    keyed = record {
      chaves = h.keyed.chaves;
      ids = h.keyed.ids;
      relations = h.keyed.relations;
      companies = h.keyed.companies;
    };
    fresh = λ other ne.
        let f = h.fresh other ne in
        let same = events_of_chave-link id chave other t in
        record {
          situacao = λ row i e any.
              f.situacao row i e
                (ap (λ es. any_by is_cancelamento (registered_types es)) (sym same) ∙ any);
          manifestacao = λ row r c i e j d k q.
              f.manifestacao row r c i e j d k q
              ∙ ap (λ es. manifestacao_and_time_from_events es c.cnpj) (sym same);
        };
  }

  -- the loop of refreshChave over the relations
  pub refresh_relations-map :
      (w : World) (events : List Event) (rows : List (Bytes × Bytes)) (s : Session Tables)
      {x : Unit {0}} {s' : Session Tables}
      → refresh_relations order w events rows s ≡ ok (x, s')
      → record (s.tables) { relations = map (refreshed events rows) s.tables.relations } ≡ s'.tables
  unfolding refresh_relations
  refresh_relations-map w events [] s {x} {s'} h =
      let same : s ≡ s' = cc in
      ap (λ rs. record (s.tables) { relations = rs }) (map-id s.tables.relations)
      ∙ ap (λ (y : Session Tables). y.tables) same
  refresh_relations-map w events ((id, cnpj) ∷ rest) s h =
      let m = manifestacao_and_time_from_events events cnpj in
      let (y, s1, first, more) =
        bind_ok (update w (update_manifestacao_rows m id))
          (λ _. refresh_relations order w events rest) s h in
      let one = update_ok w (update_manifestacao_rows m id) s first in
      ap (λ rs. record (s.tables) { relations = rs })
        (sym (
          map-map (refreshed events rest)
            (λ r. if is_relation id r then with_manifestacao m r else r) s.tables.relations))
      ∙ ap (λ (t : Tables). record t { relations = map (refreshed events rest) t.relations }) one
      ∙ refresh_relations-map w events rest s1 more

  -- an entry of the loop's list is a relation of the document with a company's CNPJ
  pub record Entry (chave : Bytes) (t : Tables) (id cnpj : Bytes) : Type 0 where
    pub relation : Relation
    pub row : DocumentRow
    pub company : CompanyRow
    pub related : In relation t.relations
    pub there : In row t.documents
    pub known : In company t.companies
    pub named : id ≡ relation.relation_id
    pub of_row : row.document.id ≡ relation.document_id
    pub of_chave_row : row.document.chave_acesso ≡ chave
    pub of_company : company.id ≡ relation.company_id
    pub number : cnpj ≡ company.cnpj

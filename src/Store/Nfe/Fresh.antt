-- ===== src/Store/Nfe/Fresh.antt =====
-- The columns of the NF-e tables that are derived from the events, and the rows that each statement leaves.
pub mod Answers
pub mod Chave
pub mod Documents
pub mod Views
pub mod Refresh
pub mod Events
pub mod Whole
pub mod Operations
pub mod Left
use nanci.Prelude.{◌≡◌, ◌≢◌, true, List, Option, any_by, In}
use nanci.Text.{Bytes, Unicode}
use nanci.Prelude.{ℕ}
use nanci.Nfe.Types.{Event, cancelada}
use nanci.Nfe.Merge.{is_cancelamento}
use nanci.Nfe.Manifestacao.{manifestacao_and_time_from_events}
use nanci.Store.Select.{OneEach}
use nanci.Store.Nfe.Tables.{DocumentRow, Relation, CompanyRow, Tables}
use nanci.Store.Nfe.Apply.{registered_types, events_of_chave}

abbrev pub chave_of : DocumentRow → Bytes
chave_of row = row.document.chave_acesso

abbrev pub id_of : DocumentRow → Bytes
id_of row = row.document.id

abbrev pub relation_id_of : Relation → Bytes
relation_id_of r = r.relation_id

abbrev pub company_row_id : CompanyRow → Bytes
company_row_id c = c.id

-- The keys of the tables hold.
pub record IsKeyed (t : Tables) : Type 0 where
  pub chaves : OneEach chave_of t.documents
  pub ids : OneEach id_of t.documents
  pub relations : OneEach relation_id_of t.relations
  pub companies : OneEach company_row_id t.companies

module _ ⦃u : Unicode⦄ (order : List (Event × ℕ) → List (Event × ℕ)) where
  -- The derived columns of one chave are those of its events.
  pub record FreshAt (chave : Bytes) (t : Tables) : Type 0 where
    pub situacao :
        (row : DocumentRow)
        → In row t.documents
        → row.document.chave_acesso ≡ chave
        → any_by is_cancelamento (registered_types (events_of_chave order chave t)) ≡ true
        → row.document.situacao ≡ cancelada
    pub manifestacao :
        (row : DocumentRow) (r : Relation) (c : CompanyRow)
        → In row t.documents
        → row.document.chave_acesso ≡ chave
        → In r t.relations
        → r.document_id ≡ row.document.id
        → In c t.companies
        → c.id ≡ r.company_id
        → (r.manifestacao, r.manifestacao_at)
          ≡ manifestacao_and_time_from_events (events_of_chave order chave t) c.cnpj

  -- The tables have their keys, and every derived column is that of the events.
  pub record IsFresh (t : Tables) : Type 0 where
    pub keyed : IsKeyed t
    pub fresh : (chave : Bytes) → FreshAt chave t

  -- as IsFresh, but for one chave
  pub record IsFreshBut (chave : Bytes) (t : Tables) : Type 0 where
    pub keyed : IsKeyed t
    pub fresh : (other : Bytes) → other ≢ chave → FreshAt other t

  pub IsFreshBut-IsFresh : (chave : Bytes) (t : Tables) → IsFresh t → IsFreshBut chave t
  IsFreshBut-IsFresh chave t h = record { keyed = h.keyed; fresh = λ other ne. h.fresh other }

-- ===== src/Store/Nfe/Rows.antt =====
-- The statements of internal/store/queries/nfe.sql that the repository makes, on the rows of the tables.
pub mod Events
use nanci.Prelude.{
  ℕ, Bool, true, false, not, ◌&&◌, ◌||◌, List, ◌∷◌, map, Option, none, some, any_by, if◌then◌else◌,
  ◌==◌, ltb,
}
use nanci.Text.{Bytes, bytes_eq}
use nanci.Sync.Error.{Err, plain}
use nanci.Sync.Env.{Result, ok, fail}
use nanci.Nfe.Types.{
  Document, Event, Situacao, Completeness, resumo, completa, Manifestacao, nenhuma,
}
use nanci.Nfe.Participation.{Participation}
use nanci.Store.Select.{find, keep, update_where, flat_map}
use nanci.Store.Nfe.Tables.{
  DocumentRow, Relation, EventRow, CompanyRow, Tables, ManifestacaoRecord, ManifestacaoRow,
  allowed_document, allowed_event, has_chave, has_document_id, of_chave,
}

abbrev pub constraint : Err
constraint = plain "constraint failed"

abbrev pub guarded : {A : Type 0} → Bool → A → Result A
guarded true a = ok a
guarded false a = fail constraint

-- UpsertNFeDocument, RETURNING id
abbrev same_hash : Bytes → DocumentRow → Bool
same_hash hash row = bytes_eq row.document.raw_hash hash

abbrev pub with_document : Document → ℕ → DocumentRow → DocumentRow
with_document doc now row = record row {
  document = record doc { id = row.document.id };
  updated_at = now;
}

abbrev pub new_document : Document → ℕ → DocumentRow
new_document doc now = record { document = doc; created_at = now; updated_at = now }

abbrev pub insert_or_update : Option DocumentRow → Document → ℕ → Tables → Result (Bytes × Tables)
insert_or_update none doc now t =
    guarded
      (not (any_by (λ row. has_document_id doc.id row || same_hash doc.raw_hash row) t.documents))
      (doc.id, record t { documents = new_document doc now ∷ t.documents })
insert_or_update (some old) doc now t =
    guarded
      (not (
        any_by (λ row. not (has_chave doc.chave_acesso row) && same_hash doc.raw_hash row)
          t.documents))
      (
        old.document.id,
        record t {
          documents = update_where (has_chave doc.chave_acesso) (with_document doc now) t.documents;
        },
      )

unfoldable pub upsert_document_row : Document → ℕ → Tables → Result (Bytes × Tables)
unfolding allowed_document
upsert_document_row doc now t =
    if allowed_document doc
    then insert_or_update (find (has_chave doc.chave_acesso) t.documents) doc now t
    else fail constraint

-- HasCompanyNFeDocument; its count is only compared with 0
unfoldable pub sees : Bytes → Bytes → Tables → Bool
sees company chave t =
    any_by
      (λ (r : Relation).
        bytes_eq r.company_id company
        && any_by (λ row. has_document_id r.document_id row && has_chave chave row) t.documents)
      t.relations

-- UpsertCompanyNFeDocument
abbrev pub lower_nsu : Option ℕ → Option ℕ → Option ℕ
lower_nsu none b = b
lower_nsu (some a) none = some a
lower_nsu (some a) (some b) = if ltb a b then some a else some b

abbrev pub higher_nsu : Option ℕ → Option ℕ → Option ℕ
higher_nsu none b = b
higher_nsu (some a) none = some a
higher_nsu (some a) (some b) = if ltb a b then some b else some a

abbrev pub is_view : Bytes → Bytes → Relation → Bool
is_view company document r = bytes_eq r.company_id company && bytes_eq r.document_id document

abbrev pub seen_again : Participation → Option ℕ → ℕ → Relation → Relation
seen_again p nsu now r = record r {
  company_role = p.company_role;
  visibility_reason = p.visibility_reason;
  first_seen_nsu = lower_nsu r.first_seen_nsu nsu;
  last_seen_nsu = higher_nsu r.last_seen_nsu nsu;
  last_synced_at = now;
}

abbrev pub new_relation : Bytes → Bytes → Bytes → Participation → Option ℕ → ℕ → Relation
new_relation id company document p nsu now = record {
  relation_id = id;
  company_id = company;
  document_id = document;
  company_role = p.company_role;
  visibility_reason = p.visibility_reason;
  manifestacao = nenhuma;
  manifestacao_at = none;
  first_seen_nsu = nsu;
  last_seen_nsu = nsu;
  first_synced_at = now;
  last_synced_at = now;
  viewed_at = none;
}

-- the primary key is new, and the foreign keys are there
abbrev pub may_relate : Bytes → Bytes → Bytes → Tables → Bool
may_relate id company document t =
    not (any_by (λ (r : Relation). bytes_eq r.relation_id id) t.relations)
    && any_by (λ (c : CompanyRow). bytes_eq c.id company) t.companies
    && any_by (has_document_id document) t.documents

unfoldable pub upsert_relation_row :
    Bytes → Bytes → Bytes → Participation → Option ℕ → ℕ → Tables → Result Tables
upsert_relation_row id company document p nsu now t =
    if any_by (is_view company document) t.relations
    then ok (record t {
      relations = update_where (is_view company document) (seen_again p nsu now) t.relations;
    })
    else guarded (may_relate id company document t)
        (record t { relations = new_relation id company document p nsu now ∷ t.relations })

-- UpdateNFeSituacao
abbrev pub with_situacao : Situacao → ℕ → DocumentRow → DocumentRow
with_situacao s now row = record row {
  document = record (row.document) { situacao = s };
  updated_at = now;
}

abbrev pub update_situacao_rows : Situacao → ℕ → Bytes → Tables → Tables
update_situacao_rows s now chave t = record t {
  documents = update_where (has_chave chave) (with_situacao s now) t.documents;
}

-- ListCompanyNFeRelationsByChave
abbrev pub companies_of : Bytes → List CompanyRow → List CompanyRow
companies_of id cs = keep (λ (c : CompanyRow). bytes_eq c.id id) cs

abbrev pub joined : Bytes → Tables → Relation → List (Bytes × Bytes)
joined chave t r =
    flat_map
      (λ (row : DocumentRow).
        map (λ (c : CompanyRow). (r.relation_id, c.cnpj)) (companies_of r.company_id t.companies))
      (keep (λ row. has_document_id r.document_id row && has_chave chave row) t.documents)

unfoldable pub relations_of_chave : Bytes → Tables → List (Bytes × Bytes)
relations_of_chave chave t = flat_map (joined chave t) t.relations

-- UpdateCompanyNFeManifestacao
abbrev pub with_manifestacao : Manifestacao × Option ℕ → Relation → Relation
with_manifestacao (m, at) r = record r { manifestacao = m; manifestacao_at = at }

abbrev pub is_relation : Bytes → Relation → Bool
is_relation id r = bytes_eq r.relation_id id

abbrev pub update_manifestacao_rows : Manifestacao × Option ℕ → Bytes → Tables → Tables
update_manifestacao_rows m id t = record t {
  relations = update_where (is_relation id) (with_manifestacao m) t.relations;
}

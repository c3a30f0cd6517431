-- ===== src/Store/Nfe/Reset.antt =====
-- ResetCompany of internal/store/nfe.go and resetCompanyDocuments of dfe.go.
pub mod Outcome
pub mod Others
use nanci.Prelude.{
  ℕ, Bool, true, false, not, ◌&&◌, ◌||◌, List, [], ◌∷◌, map, Option, none, some, any_by,
  if◌then◌else◌, length,
}
use nanci.Text.{Bytes, bytes_eq}
use nanci.Sync.Env.{Result, ok, fail}
use nanci.Store.Tx.{
  World, Session, Tx, pure, ◌>>=◌, ◌>>◌, statement, query, update, execute, finished,
}
use nanci.Store.Select.{keep, update_where}
use nanci.Store.Nfe.Tables.{
  DocumentRow, Relation, EventRow, CompanyRow, ManifestacaoRow, ExportMark, Tables, has_chave,
}
use nanci.Store.Nfe.Rows.{constraint}
use nanci.Store.Nfe.Marks.{is_named}

pub record ResetCounts : Type 0 where
  pub company_documents : ℕ
  pub documents : ℕ
  pub events : ℕ
  pub export_marks : ℕ
  pub manifestacoes_kept : ℕ

abbrev pub of_company : Bytes → Relation → Bool
of_company company r = bytes_eq r.company_id company

-- exclusiveDocumentIDsQuery: the documents that only this company sees
abbrev pub is_exclusive : Bytes → List Relation → Relation → Bool
is_exclusive company relations r =
    of_company company r
    && not (
        any_by
          (λ (other : Relation).
            bytes_eq other.document_id r.document_id && not (of_company company other))
          relations)

unfoldable pub exclusive_ids : Bytes → Tables → List Bytes
exclusive_ids company t =
    map (λ (r : Relation). r.document_id) (keep (is_exclusive company t.relations) t.relations)

-- resetEventsQuery
abbrev pub by_other_company : Bytes → Tables → EventRow → Bool
by_other_company company t row =
    any_by (λ (c : CompanyRow). not (bytes_eq c.id company) && bytes_eq c.cnpj row.event.autor_cnpj)
      t.companies

abbrev pub of_removed : List Bytes → Tables → EventRow → Bool
of_removed ids t row =
    any_by (λ (d : DocumentRow). is_named ids d.document.id && has_chave row.event.chave_acesso d)
      t.documents

abbrev pub own_orphan : Bytes → Tables → EventRow → Bool
own_orphan company t row =
    any_by (λ (c : CompanyRow). bytes_eq c.id company && bytes_eq c.cnpj row.event.autor_cnpj)
      t.companies
    && not (any_by (has_chave row.event.chave_acesso) t.documents)

abbrev pub dropped : Bytes → List Bytes → Tables → EventRow → Bool
dropped company ids t row =
    not (by_other_company company t row) && (of_removed ids t row || own_orphan company t row)

-- DELETE … WHERE: the number of rows that go, and those that stay
abbrev pub split_off : {A : Type 0} → (A → Bool) → List A → ℕ × List A
split_off p xs = (length (keep p xs), keep (λ x. not (p x)) xs)

unfoldable pub reset_mark_rows : Bytes → Tables → ℕ × Tables
reset_mark_rows company t =
    let (n, rest) = split_off (λ (m : ExportMark). bytes_eq m.company_id company) t.export_marks in
    (n, record t { export_marks = rest })

unfoldable pub reset_event_rows : Bytes → List Bytes → Tables → ℕ × Tables
reset_event_rows company ids t =
    let (n, rest) = split_off (dropped company ids t) t.events in (n, record t { events = rest })

-- unlinkKeptEventsQuery
abbrev pub linked_to : List Bytes → Option Bytes → Bool
linked_to ids none = false
linked_to ids (some id) = is_named ids id

abbrev pub unlink : EventRow → EventRow
unlink row = record row { document_id = none }

unfoldable pub unlink_event_rows : List Bytes → Tables → Tables
unlink_event_rows ids t = record t {
  events = update_where (λ row. linked_to ids row.document_id) unlink t.events;
}

unfoldable pub reset_relation_rows : Bytes → Tables → ℕ × Tables
reset_relation_rows company t =
    let (n, rest) = split_off (of_company company) t.relations in (n, record t { relations = rest })

-- resetDocumentsQuery, which the foreign keys of views and events may refuse
abbrev pub is_referenced : List Bytes → Tables → Bool
is_referenced ids t =
    any_by (λ (r : Relation). is_named ids r.document_id) t.relations
    || any_by (λ (row : EventRow). linked_to ids row.document_id) t.events

abbrev pub unless_referenced : Bool → ℕ × Tables → Result (ℕ × Tables)
unless_referenced true x = fail constraint
unless_referenced false x = ok x

unfoldable pub reset_document_rows : List Bytes → Tables → Result (ℕ × Tables)
reset_document_rows ids t =
    let (n, rest) = split_off (λ (d : DocumentRow). is_named ids d.document.id) t.documents in
    unless_referenced
      (any_by (λ (d : DocumentRow). is_named ids d.document.id) t.documents && is_referenced ids t)
      (n, record t { documents = rest })

module _ (w : World) where
  -- resetCompanyDocuments
  unfoldable pub reset_company_documents : Bytes → Tx Tables ResetCounts
  unfolding exclusive_ids reset_mark_rows reset_event_rows unlink_event_rows reset_relation_rows
      reset_document_rows
  reset_company_documents company = do
    kept ← query w (λ (t : Tables).
        length (keep (λ (m : ManifestacaoRow). bytes_eq m.sent.company_id company) t.manifestacoes))
    ids ← query w (exclusive_ids company)
    marks ← statement w (λ t. ok (reset_mark_rows company t))
    events ← statement w (λ t. ok (reset_event_rows company ids t))
    update w (unlink_event_rows ids)
    relations ← statement w (λ t. ok (reset_relation_rows company t))
    documents ← statement w (reset_document_rows ids)
    pure (record {
      company_documents = relations;
      documents = documents;
      events = events;
      export_marks = marks;
      manifestacoes_kept = kept;
    })

  -- ResetSyncStateTx: two statements on the tables of internal/sync, which are not those of the NF-e
  abbrev pub reset_sync_state : Tx Tables (Unit {0})
  reset_sync_state = do query w (λ _. tt); query w (λ _. tt)

  -- the end of resetCompany: without `apply` the deferred Rollback brings the tables back to those of BeginTx
  abbrev pub conclude : Bool → Tables → ResetCounts → Tx Tables ResetCounts
  conclude false begun counts s = ok (counts, record s { tables = begun })
  conclude true begun counts s = (reset_sync_state >> query w (λ _. tt) >> pure counts) s

  -- resetCompany
  unfoldable pub reset_company_by : Bool → Bytes → Tables → Result (ResetCounts × Tables)
  unfolding reset_company_documents
  reset_company_by apply company t = finished w (
      (query w (λ _. tt) >> reset_company_documents company >>= conclude apply t)
        (record { tables = t; tick = 0 }))

  -- ResetCompany
  unfoldable pub reset_company : Bytes → Tables → Result (ResetCounts × Tables)
  unfolding reset_company_by
  reset_company company t = reset_company_by true company t

  -- PreviewResetCompany
  unfoldable pub preview_reset_company : Bytes → Tables → Result (ResetCounts × Tables)
  unfolding reset_company_by
  preview_reset_company company t = reset_company_by false company t

-- ===== src/Store/Nfe/Marks.antt =====
-- MarkViewed, MarkExported and the queries of internal/store/nfe.go and dfe.go over the views of a company.
use nanci.Prelude.{
  ℕ, Bool, true, false, not, ◌&&◌, ◌||◌, List, [], ◌∷◌, map, Option, none, some, any_by,
  if◌then◌else◌, ◌==◌, length,
}
use nanci.Text.{Bytes, Unicode, codes, bytes_eq}
use nanci.Cnpj.{clean}
use nanci.Sync.Env.{Result, ok}
use nanci.Nfe.Types.{
  Document, Situacao, autorizada, Completeness, CompanyRole, destinatario, emitente, transportador,
  autorizado, no_role, Manifestacao, nenhuma, ciente, confirmada, desconhecida,
  nao_realizada_manifestada,
}
use nanci.Store.Tx.{World, Tx, pure, ◌>>◌, execute, in_transaction}
use nanci.Store.Select.{keep, update_where, flat_map}
use nanci.Store.Nfe.Tables.{DocumentRow, Relation, ExportMark, Tables, has_document_id, of_chave}
use nanci.Store.Nfe.Rows.{guarded}
use nanci.Store.Nfe.Apply.{no_change}

-- MarkViewed. `now` is strftime('now') of SQLite.
abbrev pub is_named : List Bytes → Bytes → Bool
is_named names s = any_by (bytes_eq s) names

abbrev is_unviewed : Option ℕ → Bool
is_unviewed none = true
is_unviewed (some at) = false

abbrev pub to_view : Bytes → List Bytes → Tables → Relation → Bool
to_view company chaves t r =
    bytes_eq r.company_id company
    && is_unviewed r.viewed_at
    && any_by
        (λ (row : DocumentRow).
          has_document_id r.document_id row && is_named chaves row.document.chave_acesso)
        t.documents

abbrev pub viewed : ℕ → Relation → Relation
viewed now r = record r { viewed_at = some now }

-- the number of rows changed, and the tables
unfoldable pub mark_viewed : ℕ → Bytes → List Bytes → Tables → ℕ × Tables
mark_viewed now company [] t = (0, t)
mark_viewed now company (chave ∷ chaves) t =
    let test = to_view company (chave ∷ chaves) t in
    (
      length (keep test t.relations),
      record t { relations = update_where test (viewed now) t.relations },
    )

-- a document as it was exported
pub record Exported : Type 0 where
  pub document_id : Bytes
  pub raw_hash : Bytes
  pub events : ℕ

abbrev pub same_mark : Bytes → Bytes → Bytes → ExportMark → Bool
same_mark company document kind m =
    bytes_eq m.company_id company && bytes_eq m.document_id document && bytes_eq m.export_kind kind

abbrev pub mark_of : Bytes → Bytes → ℕ → Exported → ExportMark
mark_of company kind now e = record {
  company_id = company;
  document_id = e.document_id;
  export_kind = kind;
  exported_hash = e.raw_hash;
  exported_at = now;
  exported_events = e.events;
}

-- CHECK (export_kind IN …)
abbrev pub is_export_kind : Bytes → Bool
is_export_kind kind =
    bytes_eq kind (codes "xml")
    || bytes_eq kind (codes "csv")
    || bytes_eq kind (codes "xlsx")
    || bytes_eq kind (codes "danfe")

abbrev pub put_mark : Bytes → Bytes → ℕ → Exported → Tables → Tables
put_mark company kind now e t =
    if any_by (same_mark company e.document_id kind) t.export_marks
    then record t {
      export_marks =
          update_where (same_mark company e.document_id kind) (λ m. mark_of company kind now e)
            t.export_marks;
    }
    else record t { export_marks = mark_of company kind now e ∷ t.export_marks }

-- ON CONFLICT(company_id, document_id, export_kind) DO UPDATE
unfoldable pub upsert_mark_rows : Bytes → Bytes → ℕ → Exported → Tables → Result Tables
upsert_mark_rows company kind now e t =
    guarded (is_export_kind kind) (put_mark company kind now e t)

module _ (w : World) where
  unfoldable pub mark_all : Bytes → Bytes → List Exported → Tx Tables (Unit {0})
  unfolding upsert_mark_rows
  mark_all company kind [] = pure tt
  mark_all company kind (e ∷ es) =
      let others = mark_all company kind es in
      execute w (upsert_mark_rows company kind w.now e) >> others

  -- markExported
  unfoldable pub mark_exported : Bytes → Bytes → List Exported → Tables → Result (Unit {0} × Tables)
  unfolding mark_all
  mark_exported company kind [] t = ok (tt, t)
  mark_exported company kind (e ∷ es) t = in_transaction w (mark_all company kind (e ∷ es)) t

-- DocumentFilter; an empty text, `none` or a limit of 0 is a condition that is not set
pub record DocumentFilter : Type 0 where
  pub competence : Bytes
  pub situacao : Option Situacao
  pub completeness : Option Completeness
  pub role : Option CompanyRole
  pub manifestacao : Option Manifestacao
  pub emitente_cnpj : Bytes
  pub chaves_acesso : List Bytes
  pub tp_amb : Bytes
  pub pending_manifestacao : Bool
  pub only_unread : Bool
  pub limit : ℕ

abbrev role_index : CompanyRole → ℕ
role_index destinatario = 0
role_index emitente = 1
role_index transportador = 2
role_index autorizado = 3
role_index no_role = 4

abbrev manifestacao_index : Manifestacao → ℕ
manifestacao_index nenhuma = 0
manifestacao_index ciente = 1
manifestacao_index confirmada = 2
manifestacao_index desconhecida = 3
manifestacao_index nao_realizada_manifestada = 4

abbrev same_completeness : Completeness → Completeness → Bool
same_completeness Completeness.resumo Completeness.resumo = true
same_completeness Completeness.completa Completeness.completa = true
same_completeness (Completeness.other_completeness s) (Completeness.other_completeness t) =
    bytes_eq s t
same_completeness _ _ = false

abbrev unless_set {ℓ} : {A : Type ℓ} → Option A → (A → Bool) → Bool
unless_set none test = true
unless_set (some a) test = test a

abbrev unless_text : Bytes → (Bytes → Bool) → Bool
unless_text [] test = true
unless_text (c ∷ s) test = test (c ∷ s)

abbrev unless_list : List Bytes → (List Bytes → Bool) → Bool
unless_list [] test = true
unless_list (x ∷ xs) test = test (x ∷ xs)

abbrev pub is_pending : Document → Relation → Bool
is_pending d r =
    role_index r.company_role == 0
    && no_change d.situacao autorizada
    && (manifestacao_index r.manifestacao == 0 || manifestacao_index r.manifestacao == 1)

-- buildNFeFilterSQL, on a row of the join
unfoldable pub selects : ⦃u : Unicode⦄ → Bytes → DocumentFilter → Document → Relation → Bool
unfolding clean
selects company f d r =
    bytes_eq r.company_id company
    && unless_text f.competence (bytes_eq d.competence)
    && unless_set f.situacao (no_change d.situacao)
    && unless_set f.completeness (same_completeness d.completeness)
    && unless_set f.role (λ x. role_index r.company_role == role_index x)
    && unless_set f.manifestacao (λ m. manifestacao_index r.manifestacao == manifestacao_index m)
    && unless_text f.emitente_cnpj (λ s. bytes_eq d.emitente_cnpj (clean s))
    && unless_list f.chaves_acesso (λ names. is_named names d.chave_acesso)
    && unless_text f.tp_amb (bytes_eq d.tp_amb)
    && (not f.pending_manifestacao || is_pending d r)
    && (not f.only_unread || is_unviewed r.viewed_at)

-- the number of events of a chave
abbrev pub event_count : Bytes → Tables → ℕ
event_count chave t = length (keep (of_chave chave) t.events)

-- dfePendingExportCondition, with the mark that the join finds
abbrev pub mark_differs : Document → Tables → ExportMark → Bool
mark_differs d t m =
    not (bytes_eq m.exported_hash d.raw_hash)
    || not (m.exported_events == event_count d.chave_acesso t)

abbrev pub pending_by : Document → Tables → List ExportMark → Bool
pending_by d t [] = true
pending_by d t (m ∷ ms) = mark_differs d t m

unfoldable pub pending_export : Bytes → Document → Relation → Tables → Bool
pending_export kind d r t =
    pending_by d t (keep (same_mark r.company_id r.document_id kind) t.export_marks)

-- the rows of queryCompanyDocuments before ORDER BY and LIMIT; an empty kind is a plain listing
abbrev pub wanted : Bytes → Tables → Document → Relation → Bool
wanted [] t d r = true
wanted (c ∷ kind) t d r = pending_export (c ∷ kind) d r t

unfoldable pub company_documents :
    ⦃u : Unicode⦄ → Bytes → DocumentFilter → Bytes → Tables → List (Document × Relation)
unfolding selects pending_export
company_documents company f kind t =
    flat_map
      (λ (r : Relation).
        map (λ (row : DocumentRow). (row.document, r))
          (keep
            (λ (row : DocumentRow).
              has_document_id r.document_id row
              && selects company f row.document r
              && wanted kind t row.document r)
            t.documents))
      t.relations

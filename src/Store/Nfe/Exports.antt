-- ===== src/Store/Nfe/Exports.antt =====
-- MarkExported and ListPendingExport of internal/store/nfe.go, over the listings of a company.
pub mod Marked
pub mod Due
mod Tests
pub mod Cleared
pub mod Next
use nanci.Prelude.{ℕ, List, [], ◌∷◌, map, take, ◌==◌, if◌then◌else◌}
use nanci.Text.{Bytes, Unicode}
use nanci.Sync.Error.{Err, plain}
use nanci.Sync.Env.{Result, ok, fail}
use nanci.Nfe.Types.{Document}
use nanci.Store.Tx.{World}
use nanci.Store.Nfe.Tables.{Relation, Tables}
use nanci.Store.Nfe.Marks.{Exported, DocumentFilter, event_count, mark_exported, company_documents}

-- the mark of a listed document: its event count is the one it was listed with
abbrev pub exported_of : Tables → Document × Relation → Exported
exported_of t (d, r) = record {
  document_id = d.id;
  raw_hash = d.raw_hash;
  events = event_count d.chave_acesso t;
}

-- MarkExported of documents that were listed in the tables `seen`
unfoldable pub mark_listed :
    World
    → Bytes
    → Bytes
    → Tables
    → List (Document × Relation)
    → Tables
    → Result (Unit {0} × Tables)
unfolding mark_exported
mark_listed w company kind seen docs t =
    mark_exported w company kind (map (exported_of seen) docs) t

-- LIMIT, where it is set
abbrev pub limited {ℓ} : {A : Type ℓ} → ℕ → List A → List A
limited n xs = if n == 0 then xs else take n xs

-- ListPendingExport; `sort` is the ORDER BY of queryCompanyDocuments
unfoldable pub list_pending_export :
    ⦃u : Unicode⦄
    → (List (Document × Relation) → List (Document × Relation))
    → Bytes
    → DocumentFilter
    → Bytes
    → Tables
    → Result (List (Document × Relation))
unfolding company_documents
list_pending_export sort company f [] t = fail (plain "export kind is required")
list_pending_export sort company f (c ∷ kind) t =
    ok (limited f.limit (sort (company_documents company f (c ∷ kind) t)))

-- ===== src/Store/Nfe/Calls.antt =====
-- The calls of the NF-e repository that change its tables, one transaction after another.
pub mod Sequence
pub mod Kept
use nanci.Prelude.{List, [], ◌∷◌}
use nanci.Text.{Bytes, Unicode}
use nanci.Prelude.{ℕ}
use nanci.Sync.Env.{Result, ok, fail}
use nanci.Nfe.Types.{Event}
use nanci.Store.Tx.{World, Tx, Session, statement, finished}
use nanci.Store.Nfe.Tables.{Tables, ManifestacaoRecord}
use nanci.Store.Nfe.Apply.{ApplyDocumentParams, apply_document, apply_event, record_manifestacoes}
use nanci.Store.Nfe.Marks.{Exported, mark_viewed, mark_exported}
use nanci.Store.Nfe.Reset.{reset_company}

pub data Call : Type 0 where
  apply_document_call : ApplyDocumentParams → Call
  apply_event_call : Event → Call
  record_call : List ManifestacaoRecord → Call
  view_call : Bytes → List Bytes → Call
  export_call : Bytes → Bytes → List Exported → Call
  reset_call : Bytes → Call

-- A call that fails leaves the tables as they were.
abbrev pub committed : {A : Type 0} → Result (A × Tables) → Tables → Tables
committed (ok (a, t')) t = t'
committed (fail e) t = t

-- MarkViewed is one statement outside of a transaction, and none where no chave is given.
unfoldable pub view_statement : World → Bytes → List Bytes → Tables → Result (ℕ × Tables)
unfolding statement mark_viewed
view_statement w company [] t = ok (0, t)
view_statement w company (chave ∷ chaves) t = finished w (
    statement w (λ t. ok (mark_viewed w.now company (chave ∷ chaves) t))
      (record { tables = t; tick = 0 }))

module _ ⦃u : Unicode⦄ (order : List (Event × ℕ) → List (Event × ℕ)) where
  unfoldable pub run_call : World → Call → Tables → Tables
  unfolding apply_document apply_event record_manifestacoes view_statement mark_exported
      reset_company
  run_call w (apply_document_call p) t = committed (apply_document order w p t) t
  run_call w (apply_event_call e) t = committed (apply_event order w e t) t
  run_call w (record_call items) t = committed (record_manifestacoes order w items t) t
  run_call w (view_call company chaves) t = committed (view_statement w company chaves t) t
  run_call w (export_call company kind es) t = committed (mark_exported w company kind es t) t
  run_call w (reset_call company) t = committed (reset_company w company t) t

  unfoldable pub run_calls : List (World × Call) → Tables → Tables
  unfolding run_call
  run_calls [] t = t
  run_calls ((w, call) ∷ calls) t = run_calls calls (run_call w call t)

-- ===== src/Store/Nfe/Calls/Sequence.antt =====
-- The derived columns over any sequence of calls of internal/store/nfe.go.
use nanci.Prelude.{ℕ, ◌≡◌, sym, List, [], ◌∷◌}
use mathlib.Core.Path.{subst}
use nanci.Text.{Unicode}
use nanci.Nfe.Types.{Event}
use nanci.Store.Tx.{World}
use nanci.Store.Nfe.Tables.{Tables, ManifestacaoRecord}
use nanci.Store.Nfe.Apply.{
  apply_document_tx, apply_event_tx, record_items, apply_document, apply_event,
  record_manifestacoes,
}
use nanci.Store.Nfe.Marks.{mark_exported}
use nanci.Store.Nfe.Reset.{reset_company}
use nanci.Store.Nfe.Reset.Outcome.{reset_company_ok}
use nanci.Store.Nfe.Fresh.{IsFresh}
use nanci.Store.Nfe.Fresh.Operations.{apply_document_tx-IsFresh}
use nanci.Store.Nfe.Fresh.Answers.{apply_event_tx-IsFresh, record_items-IsFresh}
use nanci.Store.Nfe.Fresh.Left.{left-IsFresh}
use nanci.Store.Nfe.Calls.{Call, view_statement, run_call, run_calls}
use nanci.Store.Nfe.Calls.Kept.{
  view_statement-IsFresh, mark_exported-IsFresh, Keeps, committed-kept, in_transaction-kept,
}

module _ ⦃u : Unicode⦄ (order : List (Event × ℕ) → List (Event × ℕ)) where
  record_manifestacoes-IsFresh :
      (w : World) (items : List ManifestacaoRecord)
      → Keeps (IsFresh order) (record_manifestacoes order w items)
  unfolding record_manifestacoes
  record_manifestacoes-IsFresh w [] t a t' h fresh =
      (let same : t ≡ t' = cc in subst (IsFresh order) same fresh)
  record_manifestacoes-IsFresh w (item ∷ items) t a t' h fresh =
      in_transaction-kept (IsFresh order) w (record_items order w (item ∷ items))
        (λ s x s' k. record_items-IsFresh order w (item ∷ items) s k) t a t' h fresh

  run_call-IsFresh :
      (w : World) (call : Call) (t : Tables)
      → IsFresh order t
      → IsFresh order (run_call order w call t)
  unfolding run_call apply_document apply_event
  run_call-IsFresh w (Call.apply_document_call p) t h =
      committed-kept (IsFresh order) (apply_document order w p) t
        (in_transaction-kept (IsFresh order) w (apply_document_tx order w p)
          (λ s b s' k. apply_document_tx-IsFresh order w p s k))
        h
  run_call-IsFresh w (Call.apply_event_call e) t h =
      committed-kept (IsFresh order) (apply_event order w e) t
        (in_transaction-kept (IsFresh order) w (apply_event_tx order w e)
          (λ s b s' k. apply_event_tx-IsFresh order w e s k))
        h
  run_call-IsFresh w (Call.record_call items) t h =
      committed-kept (IsFresh order) (record_manifestacoes order w items) t
        (record_manifestacoes-IsFresh w items) h
  run_call-IsFresh w (Call.view_call company chaves) t h =
      committed-kept (IsFresh order) (view_statement w company chaves) t
        (view_statement-IsFresh order w company chaves) h
  run_call-IsFresh w (Call.export_call company kind es) t h =
      committed-kept (IsFresh order) (mark_exported w company kind es) t
        (mark_exported-IsFresh order w company kind es) h
  run_call-IsFresh w (Call.reset_call company) t h =
      committed-kept (IsFresh order) (reset_company w company) t
        (λ t counts t' k fresh.
          subst (IsFresh order) (sym (reset_company_ok w company t k).1)
            (left-IsFresh order company t fresh))
        h

  -- Calls in any order, whichever of their statements fail, keep the keys and the derived columns of the tables:
  -- a document with a stored registered cancelamento stays cancelada, and the manifestação of every view is that
  -- of the stored events of its chave and the CNPJ of its company.
  pub run_calls-IsFresh :
      (calls : List (World × Call)) (t : Tables)
      → IsFresh order t
      → IsFresh order (run_calls order calls t)
  unfolding run_calls
  run_calls-IsFresh [] t h = h
  run_calls-IsFresh ((w, call) ∷ calls) t h =
      run_calls-IsFresh calls (run_call order w call t) (run_call-IsFresh w call t h)

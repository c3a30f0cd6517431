-- ===== src/Store/Nfe/Tests.antt =====
-- Two companies that see one NF-e, a cancelamento, an export and a reset.
use nanci.Prelude.{ℕ, ◌≡◌, refl, false, none, some, List, [], ◌∷◌, map}
use nanci.Text.{codes, remove_byte, trim_space, to_upper, trim_ascii, drop_spaces}
use nanci.Cnpj.{clean, unmask}
use nanci.Sync.Error.{plain}
use nanci.Sync.Env.{ok}
use nanci.Nfe.Types.{cancelada}
use nanci.Nfe.Merge.{merge_document, severity, more_severe, situacao_from_events}
use nanci.Nfe.Participation.{classify_participation}
use nanci.Nfe.Manifestacao.{manifestacao_and_time_from_events, walk, event_time}
use nanci.Store.Tx.{World, statement, query, execute, update, in_transaction}
use nanci.Store.Nfe.Tables.{Tables, CompanyRow, DocumentRow, allowed_document, allowed_event}
use nanci.Store.Nfe.Apply.{
  ApplyDocumentParams, apply_document, apply_document_tx, apply_event, apply_event_tx, upsert_event,
  refresh_chave, refresh_relations,
}
use nanci.Store.Nfe.Rows.{upsert_document_row, sees, upsert_relation_row, relations_of_chave}
use nanci.Store.Nfe.Rows.Events.{has_event, upsert_event_row}
use nanci.Store.Nfe.Marks.{DocumentFilter, company_documents}
use nanci.Store.Nfe.Reset.{reset_company, reset_company_by, reset_company_documents}
use nanci.Store.Nfe.Reset.Outcome.{left, counted, reset_company-works, preview_reset_company-works}
use nanci.Store.Nfe.Reset.Others.{reset_company-listings, IsPreview, preview_reset_company-counts}
use nanci.Store.Nfe.Fresh.{IsFresh, IsKeyed}
use nanci.Store.Nfe.Samples.{
  ascii, nota, cancel, one_company, two_company, empty, in_order, empty-IsFresh, two_names,
}
use nanci.Store.Nfe.Calls.{Call, run_call, run_calls}
use nanci.Store.Nfe.Calls.Sequence.{run_calls-IsFresh}

-- identifiers are numbered after the time of the call
abbrev works_at : ℕ → World
works_at now = record { fault = λ n. none; now = now; new_id = λ n. now ∷ n ∷ [] }

abbrev breaks_at : ℕ → World
breaks_at now = record { fault = λ n. some (plain "disk"); now = now; new_id = λ n. now ∷ n ∷ [] }

abbrev received : CompanyRow → ApplyDocumentParams
received c = record { document = nota; company_id = c.id; company_cnpj = c.cnpj; nsu = some 7 }

abbrev calls : List (World × Call)
calls =
    (works_at 1, Call.apply_document_call (received one_company))
    ∷ (works_at 2, Call.apply_document_call (received two_company))
    ∷ (breaks_at 3, Call.reset_call (codes "one"))
    ∷ (works_at 4, Call.apply_event_call cancel)
    ∷ []

-- what the calls leave
abbrev stored : Tables
stored = run_calls in_order calls empty

calls_example : IsFresh in_order stored
calls_example = run_calls-IsFresh in_order calls empty empty-IsFresh

abbrev no_filter : DocumentFilter
no_filter = record {
  competence = [];
  situacao = none;
  completeness = none;
  role = none;
  manifestacao = none;
  emitente_cnpj = [];
  chaves_acesso = [];
  tp_amb = [];
  pending_manifestacao = false;
  only_unread = false;
  limit = 0;
}

worked_example :
    reset_company (works_at 9) (codes "one") stored
    ≡ ok (counted (codes "one") stored, left (codes "one") stored)
worked_example = reset_company-works (works_at 9) (codes "one") stored (λ n. refl)

reset_example :
    (company_documents (codes "one") no_filter [] (left (codes "one") stored) ≡ [])
    × (company_documents (codes "two") no_filter [] (left (codes "one") stored)
        ≡ company_documents (codes "two") no_filter [] stored)
reset_example =
    reset_company-listings no_filter [] (codes "two") (codes "one") (works_at 9) stored
      (counted (codes "one") stored) (left (codes "one") stored) calls_keyed two_names
      (reset_company-works (works_at 9) (codes "one") stored (λ n. refl))
  where
    calls_keyed : IsKeyed stored
    calls_keyed = (run_calls-IsFresh in_order calls empty empty-IsFresh).keyed

-- the cancelamento reaches the document, and the reset that breaks removes nothing
stored_situacao :
    map (λ (row : DocumentRow). row.document.situacao) stored.documents ≡ cancelada ∷ []
unfolding run_calls run_call apply_document apply_document_tx apply_event apply_event_tx
    upsert_event refresh_chave refresh_relations reset_company reset_company_by
    reset_company_documents statement query execute update in_transaction upsert_document_row
    allowed_document sees upsert_relation_row relations_of_chave has_event upsert_event_row
    allowed_event merge_document more_severe severity situacao_from_events classify_participation
    manifestacao_and_time_from_events walk event_time clean unmask remove_byte trim_space to_upper
    trim_ascii drop_spaces
stored_situacao = refl

preview_reset_company-counts_example :
    IsPreview
      (counted (codes "one") stored)
      (counted (codes "one") stored)
      stored
      stored
      (left (codes "one") stored)
preview_reset_company-counts_example =
    preview_reset_company-counts (works_at 8) (works_at 9) (codes "one") stored
      (counted (codes "one") stored) (counted (codes "one") stored) stored
      (left (codes "one") stored)
      (preview_reset_company-works (works_at 8) (codes "one") stored (λ n. refl))
      (reset_company-works (works_at 9) (codes "one") stored (λ n. refl))

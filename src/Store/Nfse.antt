-- ===== src/Store/Nfse.antt =====
-- The NFS-e repository: doApplyDocument, doApplyEvent and recomputeDocumentStatus of internal/sync/store.go, with the
-- statements of internal/store/queries/sync.sql.
pub mod Rows
pub mod Current
use nanci.Prelude.{
  ℕ, Bool, true, false, not, ◌&&◌, ◌||◌, List, [], ◌∷◌, map, Option, none, some, any_by,
  if◌then◌else◌,
}
use nanci.Text.{Bytes, bytes_eq}
use nanci.Sync.Env.{Result, ok, fail}
use nanci.Nfse.{
  NfseStatus, status_normal, status_cancelada, status_substituida, NfseEventType, type_cancelamento,
  type_substituicao, type_unknown, NfseRole, NfseReason, NfseDocument, NfseEvent, NfseParticipation,
}
use nanci.Store.Tx.{
  World, Tx, pure, ◌>>=◌, ◌>>◌, statement, query, execute, update, generate_id, in_transaction,
}
use nanci.Store.Select.{find, keep, update_where}
use nanci.Store.Nfe.Tables.{CompanyRow}
use nanci.Store.Nfe.Rows.{guarded, lower_nsu, higher_nsu}
use nanci.Store.Nfse.Rows.{
  NfseTables, upsert_nota_rows, company_document_missing, upsert_nota_view, link_nota_events,
  types_of_nota, status_of, update_status_rows, document_id_of, event_hash_missing,
  insert_event_row,
}

-- nfse.ApplyDocumentParams
pub record ApplyNotaParams : Type 0 where
  pub document : NfseDocument
  pub participation : NfseParticipation
  pub company_id : Bytes
  pub nsu : ℕ

module _ (w : World) where
  -- recomputeDocumentStatus
  unfoldable pub recompute_document_status : Bytes → Tx NfseTables (Unit {0})
  unfolding status_of
  recompute_document_status chave = do
    types ← query w (types_of_nota chave)
    update w (update_status_rows (status_of types) w.now chave)

  -- doApplyDocument
  unfoldable pub do_apply_document : ApplyNotaParams → Tx NfseTables Bool
  unfolding upsert_nota_rows company_document_missing upsert_nota_view recompute_document_status
  do_apply_document p = do
    document_id ← statement w (upsert_nota_rows p.document w.now)
    inserted ← query w (company_document_missing p.company_id document_id)
    id ← generate_id w
    execute w (upsert_nota_view id p.company_id document_id p.participation p.nsu w.now)
    update w (link_nota_events document_id p.document.chave_acesso)
    recompute_document_status p.document.chave_acesso
    pure inserted

  -- doApplyEvent
  unfoldable pub do_apply_event : NfseEvent → Tx NfseTables Bool
  unfolding event_hash_missing insert_event_row recompute_document_status
  do_apply_event e = do
    document_id ← query w (document_id_of e.chave_acesso)
    inserted ← query w (event_hash_missing e.raw_hash)
    execute w (insert_event_row e document_id w.now)
    recompute_document_status e.chave_acesso
    pure inserted

  -- ApplyDocument and ApplyEvent of the store
  unfoldable pub apply_nota : ApplyNotaParams → NfseTables → Result (Bool × NfseTables)
  unfolding do_apply_document
  apply_nota p = in_transaction w (do_apply_document p)

  unfoldable pub apply_nota_event : NfseEvent → NfseTables → Result (Bool × NfseTables)
  unfolding do_apply_event
  apply_nota_event e = in_transaction w (do_apply_event e)

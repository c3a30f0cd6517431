-- ===== src/Store/Nfe/Apply.antt =====
-- ApplyDocumentTx, ApplyEventTx, RecordManifestacoes and refreshChave.
use nanci.Prelude.{ℕ, Bool, true, false, not, List, [], ◌∷◌, map, Option, none, some, if◌then◌else◌}
use nanci.Text.{Bytes, Unicode, bytes_eq}
use nanci.Cnpj.{clean}
use nanci.Sync.Env.{Result}
use nanci.Nfe.Types.{
  Document, Event, EventType, Situacao, autorizada, denegada, cancelada, other_situacao, completa,
  event_type_from_tp_evento,
}
use nanci.Nfe.Merge.{merge_document, situacao_from_events}
use nanci.Nfe.Participation.{classify_participation}
use nanci.Nfe.Manifestacao.{manifestacao_and_time_from_events}
use nanci.Store.Tx.{
  World, Tx, pure, ◌>>=◌, ◌>>◌, statement, query, execute, update, generate_id, in_transaction,
}
use nanci.Store.Select.{find, keep}
use nanci.Store.Nfe.Tables.{
  DocumentRow, EventRow, Tables, ManifestacaoRecord, ManifestacaoStatus, registrada, ja_registrada,
  rejeitada, erro, has_chave, of_chave,
}
use nanci.Store.Nfe.Rows.{
  upsert_document_row, sees, upsert_relation_row, update_situacao_rows, relations_of_chave,
  update_manifestacao_rows,
}
use nanci.Store.Nfe.Rows.Events.{
  has_event, upsert_event_row, link_event_rows, insert_manifestacao_row,
}

pub record ApplyDocumentParams : Type 0 where
  pub document : Document
  pub company_id : Bytes
  pub company_cnpj : Bytes
  pub nsu : Option ℕ

abbrev pub no_change : Situacao → Situacao → Bool
no_change autorizada autorizada = true
no_change denegada denegada = true
no_change cancelada cancelada = true
no_change (other_situacao s) (other_situacao t) = bytes_eq s t
no_change _ _ = false

abbrev pub registered_types : List Event → List EventType
registered_types [] = []
registered_types (e ∷ es) =
    let rest = registered_types es in if e.registered then e.type ∷ rest else rest

-- what ListNFeEventsByChave reads of a row, and orders by
abbrev pub stamped : EventRow → Event × ℕ
stamped row = (row.event, row.created_at)

abbrev pub event_of : Event × ℕ → Event
event_of (e, at) = e

abbrev pub or_id : Bytes → Bytes → Bytes
or_id [] id = id
or_id (c ∷ s) id = c ∷ s

-- the event that a registered manifestação is stored as
unfoldable pub manifestacao_event : ⦃u : Unicode⦄ → ManifestacaoRecord → Event
unfolding event_type_from_tp_evento clean
manifestacao_event item = record {
  id = [];
  chave_acesso = item.chave_acesso;
  tp_evento = item.tp_evento;
  type = event_type_from_tp_evento item.tp_evento;
  n_seq_evento = item.n_seq_evento;
  event_at = item.event_at;
  registered_at = item.registered_at;
  protocolo = item.protocolo;
  autor_cnpj = clean item.company_cnpj;
  description = item.description;
  justificativa = item.justificativa;
  correcao = [];
  tp_amb = item.tp_amb;
  completeness = completa;
  registered = true;
  c_stat = item.c_stat;
  x_motivo = item.x_motivo;
  sent_by_nanci = true;
  raw_hash = item.proc_evento_raw_hash;
  parse_warnings = [];
}

-- `order` is ORDER BY COALESCE(registered_at, event_at, created_at), tp_evento, n_seq_evento, which compares the
-- texts of the times.
module _ ⦃u : Unicode⦄ (order : List (Event × ℕ) → List (Event × ℕ)) where
  -- ListNFeEventsByChave
  abbrev pub events_of_chave : Bytes → Tables → List Event
  events_of_chave chave t = map event_of (order (map stamped (keep (of_chave chave) t.events)))

  module _ (w : World) where
    -- the loop over the relations
    unfoldable pub refresh_relations : List Event → List (Bytes × Bytes) → Tx Tables (Unit {0})
    refresh_relations events [] = pure tt
    refresh_relations events ((id, cnpj) ∷ rest) =
        let others = refresh_relations events rest in
        update w (update_manifestacao_rows (manifestacao_and_time_from_events events cnpj) id)
        >> others

    abbrev pub set_situacao : Situacao → Situacao → Bytes → Tx Tables (Unit {0})
    set_situacao old new chave =
        if no_change new old then pure tt else update w (update_situacao_rows new w.now chave)

    abbrev pub refresh_found : Bytes → Option DocumentRow → Tx Tables (Unit {0})
    refresh_found chave none = pure tt
    refresh_found chave (some row) = do
      update w (link_event_rows row.document.id chave)
      events ← query w (events_of_chave chave)
      set_situacao row.document.situacao
          (situacao_from_events row.document.situacao (registered_types events)) chave
      relations ← query w (relations_of_chave chave)
      refresh_relations events relations

    -- refreshChave
    unfoldable pub refresh_chave : Bytes → Tx Tables (Unit {0})
    unfolding refresh_relations
    refresh_chave chave = query w (λ t. find (has_chave chave) t.documents) >>= refresh_found chave

    abbrev pub merge_found : Option DocumentRow → Document → Tx Tables Document
    merge_found none doc = generate_id w >>= λ id. pure (record doc { id = or_id doc.id id })
    merge_found (some row) doc = pure (merge_document row.document doc)

    unfoldable pub apply_document_tx : ApplyDocumentParams → Tx Tables Bool
    unfolding refresh_chave
    apply_document_tx p = do
      found ← query w (λ t. find (has_chave p.document.chave_acesso) t.documents)
      doc ← merge_found found p.document
      document_id ← statement w (upsert_document_row doc w.now)
      seen ← query w (sees p.company_id p.document.chave_acesso)
      id ← generate_id w
      execute w (
          upsert_relation_row id p.company_id document_id
            (classify_participation doc p.company_cnpj) p.nsu w.now)
      refresh_chave p.document.chave_acesso
      pure (not seen)

    abbrev pub identified : Event → Bytes → Event
    identified e id = record e { id = or_id e.id id }

    -- upsertEvent
    unfoldable pub upsert_event : Event → Tx Tables (Unit {0})
    upsert_event e = generate_id w >>= λ id. execute w (upsert_event_row (identified e id) w.now)

    unfoldable pub apply_event_tx : Event → Tx Tables Bool
    unfolding upsert_event refresh_chave
    apply_event_tx e = do
      exists ← query w (has_event e)
      upsert_event e
      refresh_chave e.chave_acesso
      pure (not exists)

    abbrev pub keep_event : Event → Tx Tables (Unit {0})
    keep_event e = do upsert_event e; refresh_chave e.chave_acesso

    -- the event of a recorded manifestação, by its status
    abbrev pub record_event : ManifestacaoStatus → Event → Tx Tables (Unit {0})
    record_event registrada e = keep_event e
    record_event ja_registrada e =
        query w (has_event e) >>= λ exists. if exists then pure tt else keep_event e
    record_event rejeitada e = pure tt
    record_event erro e = pure tt

    -- the loop of RecordManifestacoes
    unfoldable pub record_items : List ManifestacaoRecord → Tx Tables (Unit {0})
    unfolding upsert_event refresh_chave manifestacao_event
    record_items [] = pure tt
    record_items (item ∷ items) =
        let others = record_items items in
        (do
          id ← generate_id w
          execute w (insert_manifestacao_row id item w.now)
          record_event item.status (manifestacao_event item))
        >> others

    -- ApplyDocument, ApplyEvent and RecordManifestacoes, each in a transaction of its own
    unfoldable pub apply_document : ApplyDocumentParams → Tables → Result (Bool × Tables)
    unfolding apply_document_tx
    apply_document p = in_transaction w (apply_document_tx p)

    unfoldable pub apply_event : Event → Tables → Result (Bool × Tables)
    unfolding apply_event_tx
    apply_event e = in_transaction w (apply_event_tx e)

    unfoldable pub record_manifestacoes :
        List ManifestacaoRecord → Tables → Result (Unit {0} × Tables)
    unfolding record_items
    record_manifestacoes [] t = Result.ok (tt, t)
    record_manifestacoes (item ∷ items) t = in_transaction w (record_items (item ∷ items)) t

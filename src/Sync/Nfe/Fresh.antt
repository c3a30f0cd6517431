-- ===== src/Sync/Nfe/Fresh.antt =====
-- A pull of the NF-e keeps the derived columns those of the events.
use nanci.Prelude.{ℕ, ◌≡◌, sym, Option, some, List}
use mathlib.Core.Path.{subst}
use nanci.Text.{Bytes, Unicode, codes}
use nanci.Sync.Error.{Err}
use nanci.Sync.Types.{Item, SourceState, SyncMode}
use nanci.Sync.Env.{Env, Run, Result, ok, fail}
use nanci.Sync.Content.{Keeps, sync-Holds}
use nanci.Sync.Loop.{sync}
use nanci.Sync.Dfe.{Decoded, Company, Content}
use nanci.Sync.Dfe.Kept.{
  KeptApply, IsKept, keep_document-IsKept, keep_event-IsKept, keep_unsupported-IsKept,
  parse_error-IsKept, decode_then-IsKept,
}
use nanci.Sync.Nfe.{
  SchemaKind, NfeSource, classify_schema, store_document, store_event, process_document,
  process_event, by_schema, prepare_nfe,
}
use nanci.Nfe.Types.{Document, Event}
use nanci.Store.Nfe.Tables.{Tables}
use nanci.Store.Nfe.Fresh.{IsFresh}
use nanci.Store.Nfe.Fresh.Operations.{apply_document_tx-IsFresh}
use nanci.Store.Nfe.Fresh.Answers.{apply_event_tx-IsFresh}
use nanci.Store.Tx.Rules.{finished_ok}

module _ ⦃u : Unicode⦄ (order : List (Event × ℕ) → List (Event × ℕ)) (source : NfeSource)
    (company : Company) where
  abbrev pub FreshContent : Content Tables → Type 0
  FreshContent c = IsFresh order c.tables

  store_document-Kept :
      (n : ℕ) (item : Item) (doc : Document) (tp_amb raw_hash : Bytes)
      → KeptApply (IsFresh order) (store_document order source company n item doc tp_amb raw_hash)
  unfolding store_document
  store_document-Kept n item doc tp_amb raw_hash t b t' h here =
      let (s, ran, ended) = finished_ok (source.world n) _ h in
      subst (IsFresh order) ended (apply_document_tx-IsFresh order (source.world n) _ _ ran here)

  store_event-Kept :
      (n : ℕ) (item : Item) (ev : Event) (tp_amb raw_hash : Bytes)
      → KeptApply (IsFresh order) (store_event order source company n item ev tp_amb raw_hash)
  unfolding store_event
  store_event-Kept n item ev tp_amb raw_hash t b t' h here =
      let (s, ran, ended) = finished_ok (source.world n) _ h in
      subst (IsFresh order) ended (apply_event_tx-IsFresh order (source.world n) _ _ ran here)

  process_document-IsKept :
      (n : ℕ) (item : Item) (r : Result Document) (payload : Decoded) (tp_amb : Bytes)
      (c : Content Tables)
      → IsKept (IsFresh order) (process_document order source company n item r payload tp_amb c) c
  process_document-IsKept n item (fail e) payload tp_amb c =
      parse_error-IsKept (IsFresh order) source.faults n item payload e c
  process_document-IsKept n item (ok doc) payload tp_amb c =
      keep_document-IsKept (IsFresh order) source.faults n payload _ _ c
        (store_document-Kept n item doc tp_amb payload.sha256)

  process_event-IsKept :
      (n : ℕ) (item : Item) (r : Result Event) (payload : Decoded) (tp_amb : Bytes)
      (c : Content Tables)
      → IsKept (IsFresh order) (process_event order source company n item r payload tp_amb c) c
  process_event-IsKept n item (fail e) payload tp_amb c =
      parse_error-IsKept (IsFresh order) source.faults n item payload e c
  process_event-IsKept n item (ok ev) payload tp_amb c =
      keep_event-IsKept (IsFresh order) source.faults n _ company payload _ _ c
        (store_event-Kept n item ev tp_amb payload.sha256)

  by_schema-IsKept :
      (n : ℕ) (item : Item) (kind : SchemaKind) (payload : Decoded) (tp_amb : Bytes)
      (c : Content Tables)
      → IsKept (IsFresh order) (by_schema order source company n item kind payload tp_amb c) c
  by_schema-IsKept n item SchemaKind.res_nfe payload = process_document-IsKept n item _ payload
  by_schema-IsKept n item SchemaKind.proc_nfe payload = process_document-IsKept n item _ payload
  by_schema-IsKept n item SchemaKind.res_evento payload = process_event-IsKept n item _ payload
  by_schema-IsKept n item SchemaKind.proc_evento_nfe payload = process_event-IsKept n item _ payload
  by_schema-IsKept n item SchemaKind.schema_unknown payload =
      λ tp_amb c. keep_unsupported-IsKept (IsFresh order) source.faults n payload c

  prepare_nfe-IsKept :
      (n : ℕ) (state : SourceState) (item : Item) (c : Content Tables)
      → IsKept (IsFresh order) (prepare_nfe order source company n state item c) c
  unfolding prepare_nfe
  prepare_nfe-IsKept n state item c =
      decode_then-IsKept (IsFresh order) source.decode item company _ c (λ payload tp_amb.
        by_schema-IsKept n item (classify_schema (codes item.schema)) payload tp_amb c)

  -- ProcessItem changes the tables in its commit only
  pub tables-prepare_nfe :
      (n : ℕ) (state : SourceState) (item : Item) (c : Content Tables)
      → (prepare_nfe order source company n state item c).1.tables ≡ c.tables
  tables-prepare_nfe n state item c = (prepare_nfe-IsKept n state item c).tables

  prepare_nfe-Keeps : Keeps FreshContent (prepare_nfe order source company)
  prepare_nfe-Keeps = record {
    before = λ n state item c here.
        subst (IsFresh order) (sym (prepare_nfe-IsKept n state item c).tables) here;
    writes = λ n state item c write o c' here prepares wrote.
        let k = prepare_nfe-IsKept n state item c in
        k.write write prepares (prepare_nfe order source company n state item c).1 o c' wrote
          (subst (IsFresh order) (sym k.tables) here);
  }

  -- A run of the pull of the NF-e, in both modes, whichever call fails and wherever it is cancelled, keeps the keys
  -- and the derived columns of the NF-e tables, whatever the parsers give.
  pub sync_nfe-IsFresh :
      (env : Env (Content Tables)) (fuel : ℕ) (mode : SyncMode) (s t : Run (Content Tables))
      (r : Option Err)
      → env.prepare ≡ prepare_nfe order source company
      → IsFresh order s.db.content.tables
      → sync env fuel mode s ≡ some (r, t)
      → IsFresh order t.db.content.tables
  sync_nfe-IsFresh env fuel mode s t r is here ran =
      sync-Holds env FreshContent (subst (Keeps FreshContent) (sym is) prepare_nfe-Keeps) fuel mode
        s t r here ran

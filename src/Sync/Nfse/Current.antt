-- ===== src/Sync/Nfse/Current.antt =====
-- A pull of the NFS-e keeps every status that of the stored events.
use nanci.Prelude.{ℕ, ◌≡◌, refl, sym, inl, inr, Bool, true, false, Option, none, some, Bool-cases}
use mathlib.Core.Path.{subst}
use nanci.Text.{Bytes, Unicode}
use nanci.Sync.Error.{Err}
use nanci.Sync.Types.{Item, SourceState, SyncMode}
use nanci.Sync.Env.{Env, Run, Result, ok, fail}
use nanci.Sync.Content.{Keeps, sync-Holds}
use nanci.Sync.Loop.{sync}
use nanci.Sync.Dfe.{Decoded, Content, document_outcome, event_outcome}
use nanci.Sync.Dfe.Kept.{
  KeptApply, IsKept, failed-IsKept, committed-IsKept, leaving-Kept, applying-Kept,
  keep_and_commit-IsKept, parse_error-IsKept,
}
use nanci.Sync.Nfse.{
  NfseSource, NfseCompany, should_skip_document_by_initial_policy, store_nota, store_nota_event,
  document_parsed, document_read, nota_known, event_parsed, event_read, prepare_nfse,
}
use nanci.Nfse.{NfseDocument, NfseEvent}
use nanci.Store.Tx.Rules.{finished_ok}
use nanci.Store.Nfse.Rows.{NfseTables}
use nanci.Store.Nfse.Current.{IsCurrent}
use nanci.Store.Nfse.Current.Operations.{do_apply_document-IsCurrent, do_apply_event-IsCurrent}

module _ ⦃u : Unicode⦄ (source : NfseSource) (company : NfseCompany) where
  abbrev CurrentContent : Content NfseTables → Type 0
  CurrentContent c = IsCurrent c.tables

  store_nota-Kept :
      (n : ℕ) (item : Item) (doc : NfseDocument) (hash : Bytes)
      → KeptApply IsCurrent (store_nota source company n item doc hash)
  unfolding store_nota
  store_nota-Kept n item doc hash t b t' h here =
      let (s, ran, ended) = finished_ok (source.world n) _ h in
      subst IsCurrent ended (do_apply_document-IsCurrent (source.world n) _ _ ran here)

  store_nota_event-Kept :
      (n : ℕ) (item : Item) (ev : NfseEvent) (hash : Bytes)
      → KeptApply IsCurrent (store_nota_event source company n item ev hash)
  unfolding store_nota_event
  store_nota_event-Kept n item ev hash t b t' h here =
      let (s, ran, ended) = finished_ok (source.world n) _ h in
      subst IsCurrent ended (do_apply_event-IsCurrent (source.world n) _ _ ran here)

  document_parsed-IsKept :
      (n : ℕ) (item : Item) (src : SourceState) (r : Result NfseDocument) (payload : Decoded)
      (c : Content NfseTables)
      → IsKept IsCurrent (document_parsed source company n item src r payload c) c
  document_parsed-IsKept n item src (fail e) payload c =
      parse_error-IsKept IsCurrent source.faults n item payload e c
  document_parsed-IsKept n item src (ok doc) payload c =
      elim (Bool-cases (should_skip_document_by_initial_policy source company src doc.issue_date)) [
        | inl skip ↦ rw skip (committed-IsKept IsCurrent _ c c refl (leaving-Kept IsCurrent _))
        | inr keep ↦ rw keep (
            keep_and_commit-IsKept IsCurrent source.faults n _ payload _ c (
              applying-Kept IsCurrent (document_outcome false) _
                (store_nota-Kept n item doc payload.sha256)))
      ]

  nota_known-IsKept :
      (n : ℕ) (item : Item) (fault : Option Err) (known : Bool) (ev : NfseEvent) (payload : Decoded)
      (c : Content NfseTables)
      → IsKept IsCurrent (nota_known source company n item fault known ev payload c) c
  nota_known-IsKept n item (some e) known ev payload c = failed-IsKept IsCurrent _ c
  nota_known-IsKept n item none false ev payload c =
      committed-IsKept IsCurrent _ c c refl (leaving-Kept IsCurrent _)
  nota_known-IsKept n item none true ev payload c =
      keep_and_commit-IsKept IsCurrent source.faults n _ payload _ c
        (applying-Kept IsCurrent event_outcome _ (store_nota_event-Kept n item ev payload.sha256))

  event_parsed-IsKept :
      (n : ℕ) (item : Item) (r : Result NfseEvent) (payload : Decoded) (c : Content NfseTables)
      → IsKept IsCurrent (event_parsed source company n item r payload c) c
  event_parsed-IsKept n item (fail e) payload c =
      parse_error-IsKept IsCurrent source.faults n item payload e c
  event_parsed-IsKept n item (ok ev) payload c =
      nota_known-IsKept n item (source.faults.exists n) _ ev payload c

  document_read-IsKept :
      (n : ℕ) (item : Item) (src : SourceState) (r : Result Decoded) (c : Content NfseTables)
      → IsKept IsCurrent (document_read source company n item src r c) c
  document_read-IsKept n item src (fail e) c = failed-IsKept IsCurrent _ c
  document_read-IsKept n item src (ok payload) c = document_parsed-IsKept n item src _ payload c

  event_read-IsKept :
      (n : ℕ) (item : Item) (r : Result Decoded) (c : Content NfseTables)
      → IsKept IsCurrent (event_read source company n item r c) c
  event_read-IsKept n item (fail e) c = failed-IsKept IsCurrent _ c
  event_read-IsKept n item (ok payload) c = event_parsed-IsKept n item _ payload c

  prepare_nfse-IsKept :
      (n : ℕ) (src : SourceState) (item : Item) (c : Content NfseTables)
      → IsKept IsCurrent (prepare_nfse source company n src item c) c
  unfolding prepare_nfse
  prepare_nfse-IsKept n src item c = elim (Bool-cases item.is_event) [
    | inl e ↦ rw e (event_read-IsKept n item (source.decode item.payload) c)
    | inr d ↦ rw d (document_read-IsKept n item src (source.decode item.payload) c)
  ]

  prepare_nfse-Keeps : Keeps CurrentContent (prepare_nfse source company)
  prepare_nfse-Keeps = record {
    before =
        λ n src item c here. subst IsCurrent (sym (prepare_nfse-IsKept n src item c).tables) here;
    writes = λ n src item c write o c' here prepares wrote.
        let k = prepare_nfse-IsKept n src item c in
        k.write write prepares (prepare_nfse source company n src item c).1 o c' wrote
          (subst IsCurrent (sym k.tables) here);
  }

  -- A run of the pull of the NFS-e, in both modes, whichever call fails and wherever it is cancelled, keeps the
  -- chaves unique and every status that of the stored events of its chave, whatever the parsers give.
  pub sync_nfse-IsCurrent :
      (env : Env (Content NfseTables)) (fuel : ℕ) (mode : SyncMode) (s t : Run (Content NfseTables))
      (r : Option Err)
      → env.prepare ≡ prepare_nfse source company
      → IsCurrent s.db.content.tables
      → sync env fuel mode s ≡ some (r, t)
      → IsCurrent t.db.content.tables
  sync_nfse-IsCurrent env fuel mode s t r is here ran =
      sync-Holds env CurrentContent (subst (Keeps CurrentContent) (sym is) prepare_nfse-Keeps) fuel
        mode s t r here ran

-- ===== src/Sync/Nfse.antt =====
-- ProcessItem of internal/sync/source_nfse.go, and the policy of the start date of internal/sync/source.go.
pub mod Current
mod Tests
use nanci.Prelude.{
  ℕ, String, Bool, true, false, List, Option, none, some, ltb, if◌then◌else◌, any_by, ◌++◌, ◌&&◌,
}
use nanci.Text.{Bytes, Unicode, codes, bytes_eq}
use nanci.Sync.Error.{Err, wrap, processing}
use nanci.Sync.Types.{Item, ItemOutcome, SourceState}
use nanci.Sync.Env.{Result, ok, fail, Write}
use nanci.Sync.Dfe.{
  Decoded, Content, Faults, Prepared, document_outcome, event_outcome, skipped_outcome, applying,
  leaving, keep_and_commit, parse_error,
}
use nanci.Nfse.{NfseDocument, NfseEvent, classify_company_participation}
use nanci.Store.Tx.{World, finished}
use nanci.Store.Nfse.{ApplyNotaParams, do_apply_document, do_apply_event}
use nanci.Store.Nfse.Rows.{NfseTables, NfseRow, NfseRelation, nota_id, nota_of}

-- syncstate.SyncStartPolicy; `no_policy` is the empty text
pub data StartPolicy : Type 0 where
  no_policy start_all since_date from_now : StartPolicy

-- What the source reads of company.Company. `start_date` is the day of SyncStartDate.
pub record NfseCompany : Type 0 where
  pub id : Bytes
  pub cnpj : Bytes
  pub start_policy : StartPolicy
  pub start_date : Option ℕ

-- `decode` is gzipxml.Decode, `day` the day of a time as Format("2006-01-02") gives it, `new_id n` the identifier that is
-- made at tick n, and `world n` the world of the write.
pub record NfseSource : Type 0 where
  pub decode : String → Result Decoded
  pub parse_document_xml : Bytes → Result NfseDocument
  pub parse_event_xml : Bytes → Result NfseEvent
  pub day : ℕ → ℕ
  pub faults : Faults
  pub new_id : ℕ → Bytes
  pub world : ℕ → World

-- a document that is skipped by policy
abbrev skipped_document : ItemOutcome
skipped_document = record skipped_outcome { is_event = false }

-- CompanyDocumentExistsByAccessKey
abbrev pub sees_nota : Bytes → Bytes → NfseTables → Bool
sees_nota company chave t =
    any_by
      (λ (r : NfseRelation).
        bytes_eq r.company_id company
        && any_by (λ row. nota_id r.document_id row && nota_of chave row) t.documents)
      t.relations

module _ ⦃u : Unicode⦄ (source : NfseSource) (company : NfseCompany) where
  -- shouldSkipDocumentByInitialPolicy
  abbrev before_start : Option ℕ → ℕ → Bool
  before_start none issued = false
  before_start (some start) issued = ltb issued start

  abbrev skip_by : StartPolicy → ℕ → Bool
  skip_by no_policy issued = false
  skip_by start_all issued = false
  skip_by since_date issued = before_start company.start_date issued
  skip_by from_now issued = before_start company.start_date issued

  abbrev skip_until_done : Option ℕ → ℕ → Bool
  skip_until_done (some at) issue_date = false
  skip_until_done none issue_date = skip_by company.start_policy (source.day issue_date)

  unfoldable pub should_skip_document_by_initial_policy : SourceState → ℕ → Bool
  should_skip_document_by_initial_policy src issue_date =
      skip_until_done src.initial_sync_done_at issue_date

  module _ (n : ℕ) (item : Item) where
    abbrev received_nota : NfseDocument → Bytes → NfseDocument
    received_nota doc hash = record doc {
      id = source.new_id n;
      raw_hash = hash;
      xml_path = hash ++ codes ".xml";
    }

    abbrev received_nota_event : NfseEvent → Bytes → NfseEvent
    received_nota_event ev hash = record ev {
      id = source.new_id n;
      raw_hash = hash;
      raw_xml_path = hash ++ codes ".xml";
    }

    unfoldable pub store_nota : NfseDocument → Bytes → NfseTables → Result (Bool × NfseTables)
    unfolding do_apply_document classify_company_participation
    store_nota doc hash t =
        let w = source.world n in
        let d = received_nota doc hash in
        finished w (
          do_apply_document w
            (record {
              document = d;
              participation = classify_company_participation d company.cnpj;
              company_id = company.id;
              nsu = item.nsu;
            })
            (record { tables = t; tick = 0 }))

    unfoldable pub store_nota_event : NfseEvent → Bytes → NfseTables → Result (Bool × NfseTables)
    unfolding do_apply_event
    store_nota_event ev hash t =
        let w = source.world n in
        finished w
          (do_apply_event w (received_nota_event ev hash) (record { tables = t; tick = 0 }))

    -- processDocument, where its payload is decoded, and where it is parsed
    abbrev pub document_parsed :
        SourceState → Result NfseDocument → Decoded → Content NfseTables → Prepared NfseTables
    document_parsed src (fail e) payload c = parse_error source.faults n item payload e c
    document_parsed src (ok doc) payload c =
        if should_skip_document_by_initial_policy src doc.issue_date
        then (ok (leaving skipped_document), c)
        else keep_and_commit source.faults n "file save failed" payload
            (applying (document_outcome false) (store_nota doc payload.sha256)) c

    abbrev pub document_read :
        SourceState → Result Decoded → Content NfseTables → Prepared NfseTables
    document_read src (fail e) c = (fail (processing item.nsu e), c)
    document_read src (ok payload) c =
        document_parsed src (source.parse_document_xml payload.xml) payload c

    -- processEvent, likewise, with the answer of CompanyDocumentExistsByAccessKey
    abbrev pub nota_known :
        Option Err → Bool → NfseEvent → Decoded → Content NfseTables → Prepared NfseTables
    nota_known (some e) known ev payload c =
        (fail (wrap "check local document for event failed" e), c)
    nota_known none false ev payload c = (ok (leaving skipped_outcome), c)
    nota_known none true ev payload c =
        keep_and_commit source.faults n "event file save failed" payload
          (applying event_outcome (store_nota_event ev payload.sha256)) c

    abbrev pub event_parsed : Result NfseEvent → Decoded → Content NfseTables → Prepared NfseTables
    event_parsed (fail e) payload c = parse_error source.faults n item payload e c
    event_parsed (ok ev) payload c =
        nota_known (source.faults.exists n) (sees_nota company.id ev.chave_acesso c.tables) ev
          payload c

    abbrev pub event_read : Result Decoded → Content NfseTables → Prepared NfseTables
    event_read (fail e) c = (fail (processing item.nsu e), c)
    event_read (ok payload) c = event_parsed (source.parse_event_xml payload.xml) payload c

  -- ProcessItem up to its commit, as `prepare` of a run.
  unfoldable pub prepare_nfse : ℕ → SourceState → Item → Content NfseTables → Prepared NfseTables
  unfolding should_skip_document_by_initial_policy store_nota store_nota_event parse_error
  prepare_nfse n src item c =
      if item.is_event
      then event_read n item (source.decode item.payload) c
      else document_read n item src (source.decode item.payload) c

-- ===== src/Sync/Nfe.antt =====
-- ProcessItem of internal/sync/source_nfe.go, and ClassifySchema of internal/nfe/schema.go.
pub mod Fresh
pub mod Refused
mod Tests
use nanci.Prelude.{
  ℕ, String, Bool, true, false, ◌&&◌, List, [], ◌∷◌, ◌++◌, map, Option, none, some, if◌then◌else◌,
  ◌==◌,
}
use nanci.Text.{Bytes, Unicode, codes, bytes_eq, trim_space}
use nanci.Sync.Error.{Err}
use nanci.Sync.Types.{Item, SourceState}
use nanci.Sync.Env.{Result, ok, fail, Write}
use nanci.Sync.Dist.{TpAmbWarning, differs, invalid, check_tp_amb}
use nanci.Sync.Dfe.{
  Decoded, Company, DfeEvent, Content, Faults, Prepared, keep_document, keep_event,
  keep_unsupported, parse_error, decode_then,
}
use nanci.Nfe.Types.{Document, Event, Completeness, resumo, completa, other_completeness}
use nanci.Store.Tx.{World, finished}
use nanci.Store.Nfe.Tables.{Tables}
use nanci.Store.Nfe.Rows.{sees}
use nanci.Store.Nfe.Apply.{ApplyDocumentParams, apply_document_tx, apply_event_tx}

pub data SchemaKind : Type 0 where
  schema_unknown res_nfe proc_nfe res_evento proc_evento_nfe : SchemaKind

-- strings.Cut at "_v", the part before
unfoldable pub before_version : Bytes → Bytes
before_version [] = []
before_version (a ∷ []) = a ∷ []
before_version (a ∷ b ∷ s) =
    let rest = before_version (b ∷ s) in if a == 95 && b == 118 then [] else a ∷ rest

abbrev kind_of : Bytes → SchemaKind
kind_of name =
    if bytes_eq name (codes "resNFe")
    then res_nfe
    else if bytes_eq name (codes "procNFe")
    then proc_nfe
    else if bytes_eq name (codes "resEvento")
    then res_evento
    else if bytes_eq name (codes "procEventoNFe")
    then proc_evento_nfe
    else schema_unknown

unfoldable pub classify_schema : ⦃u : Unicode⦄ → Bytes → SchemaKind
unfolding before_version trim_space
classify_schema schema = kind_of (before_version (trim_space schema))

abbrev is_event_kind : SchemaKind → Bool
is_event_kind res_evento = true
is_event_kind proc_evento_nfe = true
is_event_kind _ = false

-- isNFeEvent
unfoldable pub is_nfe_event : ⦃u : Unicode⦄ → String → Bool
unfolding classify_schema
is_nfe_event schema = is_event_kind (classify_schema (codes schema))

abbrev is_resumo : Completeness → Bool
is_resumo resumo = true
is_resumo completa = false
is_resumo (other_completeness s) = false

-- The parsers of internal/nfe, by the schemas that they read.
pub record Parsers : Type 0 where
  pub parse_res_nfe : Bytes → Result Document
  pub parse_proc_nfe : Bytes → Result Document
  pub parse_res_evento : Bytes → Result Event
  pub parse_proc_evento_nfe : Bytes → Result Event

-- `quote` is %q of fmt, `decode` gzipxml.Decode, `world n` the world of the write that is made at tick n.
pub record NfeSource : Type 0 where
  pub quote : Bytes → Bytes
  pub decode : String → Result Decoded
  pub parsers : Parsers
  pub faults : Faults
  pub world : ℕ → World

module _ ⦃u : Unicode⦄ (order : List (Event × ℕ) → List (Event × ℕ)) (source : NfeSource)
    (company : Company) where
  -- the text of a warning of CheckTpAmb
  abbrev warning_text : TpAmbWarning → Bytes
  warning_text (differs xml pull) =
      codes "tpAmb "
      ++ xml
      ++ codes " differs from the queried tpAmb "
      ++ pull
      ++ codes "; kept the XML's"
  warning_text (invalid xml pull) =
      codes "invalid tpAmb " ++ source.quote xml ++ codes "; using the queried tpAmb " ++ pull

  -- the document and the event that are stored
  abbrev pub received_document : Document → Bytes → Bytes → Document
  received_document doc tp_amb raw_hash =
      let (checked, warnings) = check_tp_amb doc.tp_amb tp_amb [] in
      record doc {
        tp_amb = checked;
        parse_warnings = doc.parse_warnings ++ map warning_text warnings;
        raw_hash = raw_hash;
      }

  abbrev pub received_event : Event → Bytes → Bytes → Event
  received_event ev tp_amb raw_hash =
      let (checked, warnings) = check_tp_amb ev.tp_amb tp_amb [] in
      record ev {
        tp_amb = checked;
        parse_warnings = ev.parse_warnings ++ map warning_text warnings;
        raw_hash = raw_hash;
      }

  module _ (n : ℕ) (item : Item) where
    unfoldable pub store_document : Document → Bytes → Bytes → Tables → Result (Bool × Tables)
    unfolding apply_document_tx check_tp_amb
    store_document doc tp_amb raw_hash t =
        let w = source.world n in
        finished w (
          apply_document_tx order w
            (record {
              document = received_document doc tp_amb raw_hash;
              company_id = company.id;
              company_cnpj = company.cnpj;
              nsu = some item.nsu;
            })
            (record { tables = t; tick = 0 }))

    unfoldable pub store_event : Event → Bytes → Bytes → Tables → Result (Bool × Tables)
    unfolding apply_event_tx check_tp_amb
    store_event ev tp_amb raw_hash t =
        let w = source.world n in
        finished w (
          apply_event_tx order w (received_event ev tp_amb raw_hash)
            (record { tables = t; tick = 0 }))

    -- processDocument
    abbrev pub process_document :
        Result Document → Decoded → Bytes → Content Tables → Prepared Tables
    process_document (fail e) payload tp_amb = parse_error source.faults n item payload e
    process_document (ok doc) payload tp_amb =
        keep_document source.faults n payload (is_resumo doc.completeness)
          (store_document doc tp_amb)

    -- processEvent
    abbrev pub process_event : Result Event → Decoded → Bytes → Content Tables → Prepared Tables
    process_event (fail e) payload tp_amb = parse_error source.faults n item payload e
    process_event (ok ev) payload tp_amb =
        keep_event source.faults n (sees company.id) company payload
          (record { chave_acesso = ev.chave_acesso; autor_cnpj = ev.autor_cnpj })
          (store_event ev tp_amb)

    abbrev pub by_schema : SchemaKind → Decoded → Bytes → Content Tables → Prepared Tables
    by_schema res_nfe payload tp_amb =
        process_document (source.parsers.parse_res_nfe payload.xml) payload tp_amb
    by_schema proc_nfe payload tp_amb =
        process_document (source.parsers.parse_proc_nfe payload.xml) payload tp_amb
    by_schema res_evento payload tp_amb =
        process_event (source.parsers.parse_res_evento payload.xml) payload tp_amb
    by_schema proc_evento_nfe payload tp_amb =
        process_event (source.parsers.parse_proc_evento_nfe payload.xml) payload tp_amb
    by_schema schema_unknown payload tp_amb = keep_unsupported source.faults n payload

  -- ProcessItem up to its commit, as `prepare` of a run. The source does not read its state.
  unfoldable pub prepare_nfe : ℕ → SourceState → Item → Content Tables → Prepared Tables
  unfolding classify_schema store_document store_event keep_document keep_event keep_unsupported
      parse_error decode_then sees
  prepare_nfe n state item =
      decode_then source.decode item company
        (by_schema n item (classify_schema (codes item.schema)))

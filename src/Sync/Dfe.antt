-- ===== src/Sync/Dfe.antt =====
-- internal/sync/source_dfe.go: the steps that the NF-e and CT-e sources share, and commitSkip and keepUnparsedXML of
-- internal/sync/source.go. `T` is the tables of the source.
pub mod Kept
use nanci.Prelude.{ℕ, String, Bool, true, false, List, [], ◌∷◌, Option, none, some, if◌then◌else◌}
use nanci.Text.{Bytes, Unicode, codes, bytes_eq}
use nanci.Cnpj.{clean}
use nanci.Sync.Error.{Err, plain, wrap, processing}
use nanci.Sync.Types.{Item, ItemOutcome}
use nanci.Sync.Env.{Result, ok, fail, Write}

-- gzipxml.Decoded
pub record Decoded : Type 0 where
  pub xml : Bytes
  pub sha256 : Bytes

-- dfe.Environment
pub data Environment : Type 0 where
  production restricted : Environment
  other_environment : Bytes → Environment

-- what a source reads of company.Company
pub record Company : Type 0 where
  pub id : Bytes
  pub cnpj : Bytes
  pub environment : Environment

-- what keepEvent reads of a parsed event
pub record DfeEvent : Type 0 where
  pub chave_acesso : Bytes
  pub autor_cnpj : Bytes

-- The tables, and the kept XML files with their hashes, the last written first.
pub record Content (T : Type 0) : Type 0 where
  pub tables : T
  pub files : List (Bytes × Bytes)

-- What may fail before the commit, by the tick of ProcessItem: writing the file, and documentExists.
pub record Faults : Type 0 where
  pub file : ℕ → Option Err
  pub exists : ℕ → Option Err

-- Store of files.BlobStore: it refuses an empty hash, and writes the file over one of the same hash.
module _ {T : Type 0} where
  abbrev pub write_file : Option Err → Bytes → Bytes → Content T → Result (Unit {0}) × Content T
  write_file (some e) hash xml c = (fail e, c)
  write_file none [] xml c = (fail (plain "hash cannot be empty"), c)
  write_file none (h ∷ hash) xml c = (ok tt, record c { files = (h ∷ hash, xml) ∷ c.files })

-- what the write of an item returns for what it applies
abbrev pub document_outcome : Bool → Bool → ItemOutcome
document_outcome partial inserted = record {
  inserted = inserted;
  is_event = false;
  skipped_by_policy = false;
  unsupported = false;
  partial = partial;
}

abbrev pub event_outcome : Bool → ItemOutcome
event_outcome inserted = record {
  inserted = inserted;
  is_event = true;
  skipped_by_policy = false;
  unsupported = false;
  partial = false;
}

abbrev pub skipped_outcome : ItemOutcome
skipped_outcome = record {
  inserted = false;
  is_event = true;
  skipped_by_policy = true;
  unsupported = false;
  partial = false;
}

abbrev pub unsupported_outcome : ItemOutcome
unsupported_outcome = record {
  inserted = false;
  is_event = false;
  skipped_by_policy = false;
  unsupported = true;
  partial = false;
}

-- applyFunc, given the hash of the kept XML
abbrev pub Apply : Type 0 → Type 0
Apply T = Bytes → T → Result (Bool × T)

-- ProcessItem up to its commit
abbrev pub Prepared : Type 0 → Type 0
Prepared T = Result (Write (Content T)) × Content T

-- what is done with the payload and the tpAmb of the pull
abbrev pub Decoding : Type 0 → Type 0
Decoding T = Decoded → Bytes → Content T → Prepared T

module _ {T : Type 0} where
  abbrev pub outcome_of :
      (Bool → ItemOutcome) → Content T → Result (Bool × T) → Result (ItemOutcome × Content T)
  outcome_of outcome c (ok (inserted, t)) = ok (outcome inserted, record c { tables = t })
  outcome_of outcome c (fail e) = fail e

  abbrev pub applying : (Bool → ItemOutcome) → (T → Result (Bool × T)) → Write (Content T)
  applying outcome apply c = outcome_of outcome c (apply c.tables)

  abbrev pub leaving : ItemOutcome → Write (Content T)
  leaving o c = ok (o, c)

module _ {T : Type 0} (faults : Faults) (n : ℕ) where
  -- the file is kept, then the write is committed
  abbrev after_file : String → Result (Unit {0}) × Content T → Write (Content T) → Prepared T
  after_file text (ok _, c) write = (ok write, c)
  after_file text (fail e, c) write = (fail (wrap text e), c)

  abbrev pub keep_and_commit : String → Decoded → Write (Content T) → Content T → Prepared T
  keep_and_commit text payload write c =
      after_file text (write_file (faults.file n) payload.sha256 payload.xml c) write

  -- keepDocument
  unfoldable pub keep_document : Decoded → Bool → Apply T → Content T → Prepared T
  keep_document payload partial apply =
      keep_and_commit "file save failed" payload
        (applying (document_outcome partial) (apply payload.sha256))

  abbrev pub event_kept : Decoded → Apply T → Content T → Prepared T
  event_kept payload apply =
      keep_and_commit "event file save failed" payload
        (applying event_outcome (apply payload.sha256))

  abbrev pub event_known : Option Err → Bool → Decoded → Apply T → Content T → Prepared T
  event_known (some e) known payload apply c =
      (fail (wrap "check local document for event failed" e), c)
  event_known none true payload apply c = event_kept payload apply c
  event_known none false payload apply c = (ok (leaving skipped_outcome), c)

  -- keepEvent. `document_exists` is whether the company already sees a chave.
  unfoldable pub keep_event :
      ⦃u : Unicode⦄
      → (Bytes → T → Bool)
      → Company
      → Decoded
      → DfeEvent
      → Apply T
      → Content T
      → Prepared T
  unfolding clean
  keep_event document_exists company payload ev apply c =
      if bytes_eq (clean ev.autor_cnpj) company.cnpj
      then event_kept payload apply c
      else event_known (faults.exists n) (document_exists ev.chave_acesso c.tables) payload apply c

  -- keepUnsupported
  unfoldable pub keep_unsupported : Decoded → Content T → Prepared T
  keep_unsupported payload =
      keep_and_commit "file save failed" payload (leaving unsupported_outcome)

  -- parseError, with keepUnparsedXML, which passes over a failed write of the file
  unfoldable pub parse_error : Item → Decoded → Err → Content T → Prepared T
  parse_error item payload e c =
      let (r, c') = write_file (faults.file n) payload.sha256 payload.xml c in
      (fail (processing item.nsu e), c')

-- TpAmb of internal/sefaz/endpoints.go
abbrev pub tp_amb_of : Environment → Result Bytes
tp_amb_of production = ok (codes "1")
tp_amb_of restricted = ok (codes "2")
tp_amb_of (other_environment s) = fail (plain "invalid environment")

module _ {T : Type 0} where
  abbrev environment_read : Result Bytes → Decoded → Decoding T → Content T → Prepared T
  environment_read (fail e) payload f c = (fail e, c)
  environment_read (ok tp_amb) payload f c = f payload tp_amb c

  abbrev payload_read : Item → Company → Result Decoded → Decoding T → Content T → Prepared T
  payload_read item company (fail e) f c = (fail (processing item.nsu e), c)
  payload_read item company (ok payload) f c =
      environment_read (tp_amb_of company.environment) payload f c

  -- decode, and what follows it
  unfoldable pub decode_then :
      (String → Result Decoded) → Item → Company → Decoding T → Content T → Prepared T
  decode_then decode item company f = payload_read item company (decode item.payload) f

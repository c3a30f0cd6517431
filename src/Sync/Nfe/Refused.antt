-- ===== src/Sync/Nfe/Refused.antt =====
-- What ProcessItem of the NF-e refuses before its commit.
use nanci.Prelude.{
  ℕ, String, ◌≡◌, ◌≢◌, refl, inl, inr, Bool, true, false, none, List, [], ◌∷◌, Bool-cases,
}
use mathlib.Core.Path.{subst}
use nanci.Text.{Bytes, Unicode, codes, bytes_eq}
use nanci.Cnpj.{clean}
use nanci.Sync.Error.{Err, is_processing, processing}
use nanci.Sync.Types.{Item, SourceState}
use nanci.Sync.Env.{Result, ok, fail, Write}
use nanci.Sync.Store.Commit.{Result-cases}
use nanci.Sync.Dfe.{
  Decoded, Company, Content, Prepared, keep_and_commit, keep_document, event_known, keep_event,
  keep_unsupported, parse_error, tp_amb_of, decode_then,
}
use nanci.Sync.Nfe.{
  SchemaKind, NfeSource, classify_schema, process_document, process_event, by_schema, prepare_nfe,
  store_event,
}
use nanci.Sync.Nfe.Fresh.{tables-prepare_nfe}
use nanci.Nfe.Types.{Document, Event}
use nanci.Store.Nfe.Tables.{Tables}
use nanci.Store.Nfe.Rows.{sees}

-- it is refused only with a ProcessingError
abbrev Refuses : Prepared Tables → Type 0
Refuses p = (e : Err) → p.0 ≡ fail e → is_processing e ≡ true

commits : (write : Write (Content Tables)) (c : Content Tables) → Refuses (ok write, c)
commits write c e h = absurd (cc)

module _ ⦃u : Unicode⦄ (order : List (Event × ℕ) → List (Event × ℕ)) (source : NfeSource)
    (company : Company) (n : ℕ) where
  -- the files can be written, and the database answers
  abbrev pub Works : Type 0
  Works = (source.faults.file n ≡ none) × (source.faults.exists n ≡ none)

  keep_and_commit-Refuses :
      (text : String) (payload : Decoded) (write : Write (Content Tables)) (c : Content Tables)
      → Works
      → payload.sha256 ≢ []
      → Refuses (keep_and_commit source.faults n text payload write c)
  keep_and_commit-Refuses text payload write c (file, exists) named =
      rw file (go payload.sha256 named)
    where
      go :
          (hash : Bytes)
          → hash ≢ []
          → Refuses (
              keep_and_commit
                (record source.faults { file = λ n. none })
                n
                text
                (record payload { sha256 = hash })
                write
                c)
      go [] ne = absurd (ne refl)
      go (h ∷ hash) ne = λ e k. absurd (cc)

  parse_error-Refuses :
      (item : Item) (payload : Decoded) (d : Err) (c : Content Tables)
      → Refuses (parse_error source.faults n item payload d c)
  unfolding parse_error is_processing
  parse_error-Refuses item payload d c e h =
      let same : processing item.nsu d ≡ e = cc in subst (λ x. is_processing x ≡ true) same refl

  process_document-Refuses :
      (item : Item) (r : Result Document) (payload : Decoded) (tp_amb : Bytes) (c : Content Tables)
      → Works
      → payload.sha256 ≢ []
      → Refuses (process_document order source company n item r payload tp_amb c)
  unfolding keep_document
  process_document-Refuses item (fail d) payload tp_amb c works named =
      parse_error-Refuses item payload d c
  process_document-Refuses item (ok doc) payload tp_amb c works named =
      keep_and_commit-Refuses _ payload _ c works named

  process_event-Refuses :
      (item : Item) (r : Result Event) (payload : Decoded) (tp_amb : Bytes) (c : Content Tables)
      → Works
      → payload.sha256 ≢ []
      → Refuses (process_event order source company n item r payload tp_amb c)
  unfolding keep_event
  process_event-Refuses item (fail d) payload tp_amb c works named =
      parse_error-Refuses item payload d c
  process_event-Refuses item (ok ev) payload tp_amb c works named =
      elim (Bool-cases (bytes_eq (clean ev.autor_cnpj) company.cnpj)) [
        | inl own ↦ rw own (keep_and_commit-Refuses _ payload _ c works named)
        | inr foreign ↦ rw (foreign, works.1) (known (sees company.id ev.chave_acesso c.tables))
      ]
    where
      known :
          (seen : Bool)
          → Refuses (
              event_known source.faults n none seen payload
                (store_event order source company n item ev tp_amb)
                c)
      known true = keep_and_commit-Refuses _ payload _ c works named
      known false = commits _ c

  by_schema-Refuses :
      (item : Item) (kind : SchemaKind) (payload : Decoded) (tp_amb : Bytes) (c : Content Tables)
      → Works
      → payload.sha256 ≢ []
      → Refuses (by_schema order source company n item kind payload tp_amb c)
  unfolding keep_unsupported
  by_schema-Refuses item SchemaKind.res_nfe payload = process_document-Refuses item _ payload
  by_schema-Refuses item SchemaKind.proc_nfe payload = process_document-Refuses item _ payload
  by_schema-Refuses item SchemaKind.res_evento payload = process_event-Refuses item _ payload
  by_schema-Refuses item SchemaKind.proc_evento_nfe payload = process_event-Refuses item _ payload
  by_schema-Refuses item SchemaKind.schema_unknown payload =
      λ tp_amb c. keep_and_commit-Refuses _ payload _ c

  prepare_nfe-Refuses :
      (state : SourceState) (item : Item) (c : Content Tables) (tp_amb : Bytes)
      → Works
      → tp_amb_of company.environment ≡ ok tp_amb
      → ((payload : Decoded) → source.decode item.payload ≡ ok payload → payload.sha256 ≢ [])
      → Refuses (prepare_nfe order source company n state item c)
  unfolding prepare_nfe decode_then is_processing
  prepare_nfe-Refuses state item c tp_amb works known named =
      elim (Result-cases (source.decode item.payload)) [
        | inr (d, bad) ↦ rw bad (λ e h.
            let same : processing item.nsu d ≡ e = cc in
            subst (λ x. is_processing x ≡ true) same refl)
        | inl (payload, good) ↦
            rw (good, known)
              (by_schema-Refuses item (classify_schema (codes item.schema)) payload tp_amb c works
                (named payload good))
      ]

  -- Where files can be written, the database answers, the environment of the company is known and a decoded
  -- payload has a hash, ProcessItem of the NF-e fails before its commit only with a processing error, so that
  -- skipPoisonItem counts the failure, and leaves the tables as they were.
  pub prepare_nfe-error :
      (state : SourceState) (item : Item) (c : Content Tables) (tp_amb : Bytes) (e : Err)
      → Works
      → tp_amb_of company.environment ≡ ok tp_amb
      → ((payload : Decoded) → source.decode item.payload ≡ ok payload → payload.sha256 ≢ [])
      → (prepare_nfe order source company n state item c).0 ≡ fail e
      → (is_processing e ≡ true)
        × ((prepare_nfe order source company n state item c).1.tables ≡ c.tables)
  prepare_nfe-error state item c tp_amb e works known named h = (
    prepare_nfe-Refuses state item c tp_amb works known named e h,
    tables-prepare_nfe order source company n state item c,
  )

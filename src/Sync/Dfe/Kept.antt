-- ===== src/Sync/Dfe/Kept.antt =====
-- A predicate on the tables that the writes of a source keep, over the steps of source_dfe.go.
use nanci.Prelude.{
  ℕ, String, ◌≡◌, refl, inl, inr, Bool, true, false, [], ◌∷◌, Option, none, some, Option-cases,
  Bool-cases,
}
use mathlib.Core.Path.{subst}
use nanci.Text.{Bytes, Unicode, bytes_eq}
use nanci.Cnpj.{clean}
use nanci.Sync.Error.{Err}
use nanci.Sync.Types.{Item, ItemOutcome}
use nanci.Sync.Env.{Result, ok, fail, Write, ok-injective}
use nanci.Sync.Store.Commit.{Result-cases}
use nanci.Sync.Dfe.{
  Decoded, Company, DfeEvent, Content, Faults, Apply, Prepared, Decoding, write_file,
  document_outcome, event_outcome, skipped_outcome, unsupported_outcome, applying, leaving,
  keep_and_commit, keep_document, event_known, keep_event, keep_unsupported, parse_error, tp_amb_of,
  decode_then,
}

module _ {T : Type 0} (P : T → Type 0) where
  -- what a write makes of tables that it keeps
  abbrev pub KeptWrite : Write (Content T) → Type 0
  KeptWrite write =
      (c : Content T) (o : ItemOutcome) (c' : Content T)
      → write c ≡ ok (o, c')
      → P c.tables
      → P c'.tables

  abbrev pub KeptApply : (T → Result (Bool × T)) → Type 0
  KeptApply apply = (t : T) (b : Bool) (t' : T) → apply t ≡ ok (b, t') → P t → P t'

  -- The tables are as before, and so is what the write makes of them.
  pub record IsKept (p : Prepared T) (c : Content T) : Type 0 where
    pub tables : p.1.tables ≡ c.tables
    pub write : (write : Write (Content T)) → p.0 ≡ ok write → KeptWrite write

  pub applying-Kept :
      (outcome : Bool → ItemOutcome) (apply : T → Result (Bool × T))
      → KeptApply apply
      → KeptWrite (applying outcome apply)
  applying-Kept outcome apply keeps c o c' h here = elim (Result-cases (apply c.tables)) [
    | inr (e, fails) ↦ absurd (cc (rw fails at h))
    | inl ((b, t), works) ↦
        let same : (outcome b, record c { tables = t }) ≡ (o, c') = ok-injective (rw works at h) in
        subst (λ (x : ItemOutcome × Content T). P x.1.tables) same (keeps c.tables b t works here)
  ]

  pub leaving-Kept : (o : ItemOutcome) → KeptWrite (leaving o)
  leaving-Kept o c o' c' h here =
      subst (λ (x : ItemOutcome × Content T). P x.1.tables) (ok-injective h) here

  pub failed-IsKept : (e : Err) (c : Content T) → IsKept (fail e, c) c
  failed-IsKept e c = record { tables = refl; write = λ write h. absurd (cc) }

  tables-write_file :
      (fault : Option Err) (hash xml : Bytes) (c : Content T)
      → (write_file fault hash xml c).1.tables ≡ c.tables
  tables-write_file (some e) hash xml c = refl
  tables-write_file none [] xml c = refl
  tables-write_file none (h ∷ hash) xml c = refl

  pub committed-IsKept :
      (write : Write (Content T)) (c' c : Content T)
      → c'.tables ≡ c.tables
      → KeptWrite write
      → IsKept (ok write, c') c
  committed-IsKept write c' c same keeps = record {
    tables = same;
    write = λ w h. subst KeptWrite (ok-injective h) keeps;
  }

  module _ (faults : Faults) (n : ℕ) where
    pub keep_and_commit-IsKept :
        (text : String) (payload : Decoded) (write : Write (Content T)) (c : Content T)
        → KeptWrite write
        → IsKept (keep_and_commit faults n text payload write c) c
    keep_and_commit-IsKept text payload write c keeps = elim (Option-cases (faults.file n)) [
      | inr (e, fails) ↦ rw fails (failed-IsKept _ c)
      | inl works ↦ rw works (go payload.sha256)
    ]
      where
        go :
            (hash : Bytes)
            → IsKept
                (keep_and_commit
                  (record faults { file = λ n. none })
                  n
                  text
                  (record payload { sha256 = hash })
                  write
                  c)
                c
        go [] = failed-IsKept _ c
        go (h ∷ hash) = committed-IsKept write _ c refl keeps

    pub keep_document-IsKept :
        (payload : Decoded) (partial : Bool) (apply : Apply T) (c : Content T)
        → KeptApply (apply payload.sha256)
        → IsKept (keep_document faults n payload partial apply c) c
    unfolding keep_document
    keep_document-IsKept payload partial apply c keeps =
        keep_and_commit-IsKept _ payload _ c
          (applying-Kept (document_outcome partial) (apply payload.sha256) keeps)

    event_known-IsKept :
        (fault : Option Err) (known : Bool) (payload : Decoded) (apply : Apply T) (c : Content T)
        → KeptApply (apply payload.sha256)
        → IsKept (event_known faults n fault known payload apply c) c
    event_known-IsKept (some e) known payload apply c keeps = failed-IsKept _ c
    event_known-IsKept none true payload apply c keeps =
        keep_and_commit-IsKept _ payload _ c
          (applying-Kept event_outcome (apply payload.sha256) keeps)
    event_known-IsKept none false payload apply c keeps =
        committed-IsKept _ c c refl (leaving-Kept skipped_outcome)

    pub keep_event-IsKept :
        ⦃u : Unicode⦄ (exists : Bytes → T → Bool) (company : Company) (payload : Decoded)
        (ev : DfeEvent) (apply : Apply T) (c : Content T)
        → KeptApply (apply payload.sha256)
        → IsKept (keep_event faults n exists company payload ev apply c) c
    unfolding keep_event
    keep_event-IsKept exists company payload ev apply c keeps =
        elim (Bool-cases (bytes_eq (clean ev.autor_cnpj) company.cnpj)) [
          | inl own ↦ rw own (
              keep_and_commit-IsKept _ payload _ c
                (applying-Kept event_outcome (apply payload.sha256) keeps))
          | inr foreign ↦ rw foreign (
              event_known-IsKept (faults.exists n) (exists ev.chave_acesso c.tables) payload apply c
                keeps)
        ]

    pub keep_unsupported-IsKept :
        (payload : Decoded) (c : Content T) → IsKept (keep_unsupported faults n payload c) c
    unfolding keep_unsupported
    keep_unsupported-IsKept payload c =
        keep_and_commit-IsKept _ payload _ c (leaving-Kept unsupported_outcome)

    pub parse_error-IsKept :
        (item : Item) (payload : Decoded) (e : Err) (c : Content T)
        → IsKept (parse_error faults n item payload e c) c
    unfolding parse_error
    parse_error-IsKept item payload e c = record {
      tables = tables-write_file (faults.file n) payload.sha256 payload.xml c;
      write = λ write h. absurd (cc);
    }

  pub decode_then-IsKept :
      (decode : String → Result Decoded) (item : Item) (company : Company) (f : Decoding T)
      (c : Content T)
      → ((payload : Decoded) (tp_amb : Bytes) → IsKept (f payload tp_amb c) c)
      → IsKept (decode_then decode item company f c) c
  unfolding decode_then
  decode_then-IsKept decode item company f c keeps = elim (Result-cases (decode item.payload)) [
    | inr (e, bad) ↦ rw bad (failed-IsKept _ c)
    | inl (payload, good) ↦ elim (Result-cases (tp_amb_of company.environment)) [
      | inr (e, bad) ↦ rw (good, bad) (failed-IsKept e c)
      | inl (tp_amb, named) ↦ rw (good, named) (keeps payload tp_amb)
    ]
  ]

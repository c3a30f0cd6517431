-- ===== src/Store/Nfse/Rows.antt =====
-- The rows of the NFS-e, and the statements of internal/store/queries/sync.sql on them.
use nanci.Prelude.{
  ℕ, Bool, true, false, not, ◌&&◌, ◌||◌, List, [], ◌∷◌, map, Option, none, some, any_by,
  if◌then◌else◌,
}
use nanci.Text.{Bytes, bytes_eq}
use nanci.Sync.Env.{Result, ok}
use nanci.Nfse.{
  NfseStatus, status_normal, status_cancelada, status_substituida, NfseEventType, type_cancelamento,
  type_substituicao, type_unknown, NfseRole, NfseReason, NfseDocument, NfseEvent, NfseParticipation,
}
use nanci.Store.Select.{find, keep, update_where}
use nanci.Store.Nfe.Tables.{CompanyRow}
use nanci.Store.Nfe.Rows.{guarded, lower_nsu, higher_nsu}

-- documents
pub record NfseRow : Type 0 where
  pub document : NfseDocument
  pub created_at : ℕ
  pub updated_at : ℕ

-- company_documents
pub record NfseRelation : Type 0 where
  pub relation_id : Bytes
  pub company_id : Bytes
  pub document_id : Bytes
  pub company_role : NfseRole
  pub visibility_reason : NfseReason
  pub first_seen_nsu : Option ℕ
  pub last_seen_nsu : Option ℕ
  pub first_synced_at : ℕ
  pub last_synced_at : ℕ
  pub viewed_at : Option ℕ

-- events
pub record NfseEventRow : Type 0 where
  pub event : NfseEvent
  pub document_id : Option Bytes
  pub created_at : ℕ

pub record NfseTables : Type 0 where
  pub documents : List NfseRow
  pub relations : List NfseRelation
  pub events : List NfseEventRow
  pub companies : List CompanyRow

-- UpsertDocument, RETURNING id
abbrev pub nota_of : Bytes → NfseRow → Bool
nota_of chave row = bytes_eq row.document.chave_acesso chave

abbrev pub nota_id : Bytes → NfseRow → Bool
nota_id id row = bytes_eq row.document.id id

abbrev nota_hash : Bytes → NfseRow → Bool
nota_hash hash row = bytes_eq row.document.raw_hash hash

abbrev pub with_nota : NfseDocument → ℕ → NfseRow → NfseRow
with_nota doc now row = record row {
  document = record doc { id = row.document.id };
  updated_at = now;
}

abbrev pub new_nota : NfseDocument → ℕ → NfseRow
new_nota doc now = record { document = doc; created_at = now; updated_at = now }

abbrev pub upsert_found :
    Option NfseRow → NfseDocument → ℕ → NfseTables → Result (Bytes × NfseTables)
upsert_found none doc now t =
    guarded (not (any_by (λ row. nota_id doc.id row || nota_hash doc.raw_hash row) t.documents))
      (doc.id, record t { documents = new_nota doc now ∷ t.documents })
upsert_found (some old) doc now t =
    guarded
      (not (
        any_by (λ row. not (nota_of doc.chave_acesso row) && nota_hash doc.raw_hash row)
          t.documents))
      (
        old.document.id,
        record t {
          documents = update_where (nota_of doc.chave_acesso) (with_nota doc now) t.documents;
        },
      )

unfoldable pub upsert_nota_rows : NfseDocument → ℕ → NfseTables → Result (Bytes × NfseTables)
upsert_nota_rows doc now t = upsert_found (find (nota_of doc.chave_acesso) t.documents) doc now t

-- companyDocumentMissing
abbrev pub nota_view : Bytes → Bytes → NfseRelation → Bool
nota_view company document r = bytes_eq r.company_id company && bytes_eq r.document_id document

unfoldable pub company_document_missing : Bytes → Bytes → NfseTables → Bool
company_document_missing company document t = not (any_by (nota_view company document) t.relations)

-- UpsertCompanyDocument
abbrev pub nota_seen_again : NfseParticipation → ℕ → ℕ → NfseRelation → NfseRelation
nota_seen_again p nsu now r = record r {
  company_role = p.company_role;
  visibility_reason = p.visibility_reason;
  first_seen_nsu = lower_nsu r.first_seen_nsu (some nsu);
  last_seen_nsu = higher_nsu r.last_seen_nsu (some nsu);
  last_synced_at = now;
}

abbrev pub new_nota_view : Bytes → Bytes → Bytes → NfseParticipation → ℕ → ℕ → NfseRelation
new_nota_view id company document p nsu now = record {
  relation_id = id;
  company_id = company;
  document_id = document;
  company_role = p.company_role;
  visibility_reason = p.visibility_reason;
  first_seen_nsu = some nsu;
  last_seen_nsu = some nsu;
  first_synced_at = now;
  last_synced_at = now;
  viewed_at = none;
}

unfoldable pub upsert_nota_view :
    Bytes → Bytes → Bytes → NfseParticipation → ℕ → ℕ → NfseTables → Result NfseTables
upsert_nota_view id company document p nsu now t =
    if any_by (nota_view company document) t.relations
    then ok (record t {
      relations = update_where (nota_view company document) (nota_seen_again p nsu now) t.relations;
    })
    else guarded
        (not (any_by (λ (r : NfseRelation). bytes_eq r.relation_id id) t.relations)
          && any_by (λ (c : CompanyRow). bytes_eq c.id company) t.companies
          && any_by (nota_id document) t.documents)
        (record t { relations = new_nota_view id company document p nsu now ∷ t.relations })

-- LinkEventsToDocument
abbrev is_free : Option Bytes → Bool
is_free none = true
is_free (some id) = false

abbrev pub event_of_nota : Bytes → NfseEventRow → Bool
event_of_nota chave row = bytes_eq row.event.chave_acesso chave

abbrev pub link_nota : Bytes → NfseEventRow → NfseEventRow
link_nota id row = record row { document_id = some id }

abbrev pub link_nota_events : Bytes → Bytes → NfseTables → NfseTables
link_nota_events id chave t = record t {
  events =
      update_where (λ row. event_of_nota chave row && is_free row.document_id) (link_nota id)
        t.events;
}

-- ListEventTypesByAccessKey
abbrev pub type_of : NfseEventRow → NfseEventType
type_of row = row.event.type

abbrev pub types_of_nota : Bytes → NfseTables → List NfseEventType
types_of_nota chave t = map type_of (keep (event_of_nota chave) t.events)

-- the loop of recomputeDocumentStatus: hasCancellation and hasSubstitution
abbrev note_type : NfseEventType → Bool × Bool → Bool × Bool
note_type type_substituicao (c, s) = (c, true)
note_type type_cancelamento (c, s) = (true, s)
note_type type_unknown flags = flags

unfoldable pub noted_types : List NfseEventType → Bool × Bool → Bool × Bool
noted_types [] flags = flags
noted_types (t ∷ ts) flags = noted_types ts (note_type t flags)

abbrev status_by : Bool × Bool → NfseStatus
status_by (c, true) = status_substituida
status_by (true, false) = status_cancelada
status_by (false, false) = status_normal

unfoldable pub status_of : List NfseEventType → NfseStatus
unfolding noted_types
status_of types = status_by (noted_types types (false, false))

-- UpdateDocumentStatusByAccessKey
abbrev pub with_status : NfseStatus → ℕ → NfseRow → NfseRow
with_status s now row = record row {
  document = record (row.document) { status = s };
  updated_at = now;
}

abbrev pub update_status_rows : NfseStatus → ℕ → Bytes → NfseTables → NfseTables
update_status_rows s now chave t = record t {
  documents = update_where (nota_of chave) (with_status s now) t.documents;
}

-- GetDocumentIDByAccessKey; an empty ID is stored as NULL
abbrev id_column : Bytes → Option Bytes
id_column [] = none
id_column (c ∷ id) = some (c ∷ id)

abbrev id_found : Option NfseRow → Option Bytes
id_found none = none
id_found (some row) = id_column row.document.id

abbrev pub document_id_of : Bytes → NfseTables → Option Bytes
document_id_of chave t = id_found (find (nota_of chave) t.documents)

-- eventHashMissing
abbrev pub event_hash : Bytes → NfseEventRow → Bool
event_hash hash row = bytes_eq row.event.raw_hash hash

unfoldable pub event_hash_missing : Bytes → NfseTables → Bool
event_hash_missing hash t = not (any_by (event_hash hash) t.events)

-- InsertEvent, ON CONFLICT(raw_hash) DO NOTHING
abbrev pub new_nota_event : NfseEvent → Option Bytes → ℕ → NfseEventRow
new_nota_event e id now = record { event = e; document_id = id; created_at = now }

unfoldable pub insert_event_row : NfseEvent → Option Bytes → ℕ → NfseTables → Result NfseTables
unfolding event_hash_missing
insert_event_row e id now t =
    if event_hash_missing e.raw_hash t
    then guarded (not (any_by (λ (row : NfseEventRow). bytes_eq row.event.id e.id) t.events))
        (record t { events = new_nota_event e id now ∷ t.events })
    else ok t

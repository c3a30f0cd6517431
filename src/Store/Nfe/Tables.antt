-- ===== src/Store/Nfe/Tables.antt =====
-- The tables of the NF-e (internal/store/migrations_v2), their rows and their constraints.
use nanci.Prelude.{ℕ, Bool, true, false, ◌&&◌, ◌||◌, List, [], Option}
use nanci.Text.{Bytes, codes, bytes_eq}
use nanci.Nfe.Types.{
  Document, Event, Situacao, autorizada, denegada, cancelada, other_situacao, Completeness, resumo,
  completa, other_completeness, CompanyRole, VisibilityReason, Manifestacao,
}

-- nfe_documents. A row holds the text of each field; what it holds of times is whole seconds.
pub record DocumentRow : Type 0 where
  pub document : Document
  pub created_at : ℕ
  pub updated_at : ℕ

-- company_nfe_documents
pub record Relation : Type 0 where
  pub relation_id : Bytes
  pub company_id : Bytes
  pub document_id : Bytes
  pub company_role : CompanyRole
  pub visibility_reason : VisibilityReason
  pub manifestacao : Manifestacao
  pub manifestacao_at : Option ℕ
  pub first_seen_nsu : Option ℕ
  pub last_seen_nsu : Option ℕ
  pub first_synced_at : ℕ
  pub last_synced_at : ℕ
  pub viewed_at : Option ℕ

-- nfe_events
pub record EventRow : Type 0 where
  pub event : Event
  pub document_id : Option Bytes
  pub created_at : ℕ
  pub updated_at : ℕ

-- companies
pub record CompanyRow : Type 0 where
  pub id : Bytes
  pub cnpj : Bytes

-- Statuses of an outbound manifestação
pub data ManifestacaoStatus : Type 0 where
  registrada ja_registrada rejeitada erro : ManifestacaoStatus

-- ManifestacaoRecord, and its row in nfe_manifestacoes
pub record ManifestacaoRecord : Type 0 where
  pub company_id : Bytes
  pub company_cnpj : Bytes
  pub id_lote : Bytes
  pub tp_amb : Bytes
  pub chave_acesso : Bytes
  pub tp_evento : Bytes
  pub n_seq_evento : ℕ
  pub event_at : Option ℕ
  pub description : Bytes
  pub justificativa : Bytes
  pub status : ManifestacaoStatus
  pub c_stat : Bytes
  pub x_motivo : Bytes
  pub protocolo : Bytes
  pub registered_at : Option ℕ
  pub request_raw_hash : Bytes
  pub response_raw_hash : Bytes
  pub proc_evento_raw_hash : Bytes

pub record ManifestacaoRow : Type 0 where
  pub id : Bytes
  pub sent : ManifestacaoRecord
  pub created_at : ℕ

-- company_nfe_export_marks
pub record ExportMark : Type 0 where
  pub company_id : Bytes
  pub document_id : Bytes
  pub export_kind : Bytes
  pub exported_hash : Bytes
  pub exported_at : ℕ
  pub exported_events : ℕ

pub record Tables : Type 0 where
  pub documents : List DocumentRow
  pub relations : List Relation
  pub events : List EventRow
  pub companies : List CompanyRow
  pub manifestacoes : List ManifestacaoRow
  pub export_marks : List ExportMark

-- CHECK constraints of nfe_documents
abbrev known_situacao : Situacao → Bool
known_situacao autorizada = true
known_situacao denegada = true
known_situacao cancelada = true
known_situacao (other_situacao s) = false

abbrev known_completeness : Completeness → Bool
known_completeness resumo = true
known_completeness completa = true
known_completeness (other_completeness s) = false

abbrev known_tp_amb : Bytes → Bool
known_tp_amb s = bytes_eq s [] || bytes_eq s (codes "1") || bytes_eq s (codes "2")

unfoldable pub allowed_document : Document → Bool
allowed_document d =
    (bytes_eq d.tp_nf (codes "0") || bytes_eq d.tp_nf (codes "1"))
    && known_situacao d.situacao
    && known_completeness d.completeness
    && known_tp_amb d.tp_amb

unfoldable pub allowed_event : Event → Bool
allowed_event e = known_completeness e.completeness && known_tp_amb e.tp_amb

abbrev pub has_chave : Bytes → DocumentRow → Bool
has_chave chave row = bytes_eq row.document.chave_acesso chave

abbrev pub has_document_id : Bytes → DocumentRow → Bool
has_document_id id row = bytes_eq row.document.id id

-- UNIQUE (chave_acesso, tp_evento, n_seq_evento)
abbrev pub of_chave : Bytes → EventRow → Bool
of_chave chave row = bytes_eq row.event.chave_acesso chave

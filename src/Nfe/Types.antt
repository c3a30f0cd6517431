-- ===== src/Nfe/Types.antt =====
-- internal/nfe/types.go, document.go and event.go: the enumerations, the document and the event.
use nanci.Prelude.{ℕ, Bool, true, false, ◌||◌, List, Option, if◌then◌else◌}
use nanci.Prelude.Int.{ℤ}
use nanci.Text.{Bytes, codes, bytes_eq}

-- An enumeration is a string in Go: `other_…` is any other text.
pub data Situacao : Type 0 where
  autorizada denegada cancelada : Situacao
  other_situacao : Bytes → Situacao

pub data Completeness : Type 0 where
  resumo completa : Completeness
  other_completeness : Bytes → Completeness

pub data CompanyRole : Type 0 where
  destinatario emitente transportador autorizado no_role : CompanyRole

pub data VisibilityReason : Type 0 where
  exact_destinatario exact_emitente exact_transportador exact_autorizado : VisibilityReason
  resumo_destinatario same_root_only unknown_reason : VisibilityReason

pub data EventType : Type 0 where
  cancelamento carta_correcao ciencia confirmacao desconhecimento : EventType
  nao_realizada unknown_event : EventType

pub data Manifestacao : Type 0 where
  nenhuma ciente confirmada desconhecida nao_realizada_manifestada : Manifestacao

-- EventTypeFromTpEvento
unfoldable pub event_type_from_tp_evento : Bytes → EventType
event_type_from_tp_evento tp =
    if bytes_eq tp (codes "110111") || bytes_eq tp (codes "110112")
    then cancelamento
    else if bytes_eq tp (codes "110110")
    then carta_correcao
    else if bytes_eq tp (codes "210210")
    then ciencia
    else if bytes_eq tp (codes "210200")
    then confirmacao
    else if bytes_eq tp (codes "210220")
    then desconhecimento
    else if bytes_eq tp (codes "210240")
    then nao_realizada
    else unknown_event

-- Manifestacao.Conclusive
unfoldable pub is_conclusive : Manifestacao → Bool
is_conclusive nenhuma = false
is_conclusive ciente = false
is_conclusive confirmada = true
is_conclusive desconhecida = true
is_conclusive nao_realizada_manifestada = true

-- Times are seconds; a zero time.Time and a nil *time.Time are `none`.
pub record Document : Type 0 where
  pub id : Bytes
  pub chave_acesso : Bytes
  pub modelo : Bytes
  pub serie : Bytes
  pub numero : Bytes
  pub issue_date : Option ℕ
  pub competence : Bytes
  pub authorized_at : Option ℕ
  pub protocolo : Bytes
  pub emitente_cnpj : Bytes
  pub emitente_name : Bytes
  pub emitente_ie : Bytes
  pub emitente_uf : Bytes
  pub destinatario_cnpj : Bytes
  pub destinatario_name : Bytes
  pub transportador_cnpj : Bytes
  pub autorizados_cnpj : List Bytes
  pub tp_nf : Bytes
  pub fin_nfe : Bytes
  pub nat_op : Bytes
  pub total_value : ℤ
  pub icms_value : ℤ
  pub ipi_value : ℤ
  pub situacao : Situacao
  pub completeness : Completeness
  pub layout_version : Bytes
  pub tp_amb : Bytes
  pub raw_hash : Bytes
  pub resumo_raw_hash : Bytes
  pub parse_warnings : List Bytes

pub record Event : Type 0 where
  pub id : Bytes
  pub chave_acesso : Bytes
  pub tp_evento : Bytes
  pub type : EventType
  pub n_seq_evento : ℕ
  pub event_at : Option ℕ
  pub registered_at : Option ℕ
  pub protocolo : Bytes
  pub autor_cnpj : Bytes
  pub description : Bytes
  pub justificativa : Bytes
  pub correcao : Bytes
  pub tp_amb : Bytes
  pub completeness : Completeness
  pub registered : Bool
  pub c_stat : Bytes
  pub x_motivo : Bytes
  pub sent_by_nanci : Bool
  pub raw_hash : Bytes
  pub parse_warnings : List Bytes

-- the part of CompanyDocument that the deadlines read
pub record CompanyDocument : Type 0 where
  pub document : Document
  pub company_role : CompanyRole
  pub visibility_reason : VisibilityReason
  pub manifestacao : Manifestacao
  pub manifestacao_at : Option ℕ

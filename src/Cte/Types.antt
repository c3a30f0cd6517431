-- ===== src/Cte/Types.antt =====
-- internal/cte/types.go and document.go: the enumerations and the document. The situação is the one of the
-- NF-e: the two packages declare the same three texts.
use nanci.Prelude.{ℕ, Bool, List, Option}
use nanci.Prelude.Int.{ℤ}
use nanci.Text.{Bytes}
use nanci.Nfe.Types.{Situacao}

pub data CteRole : Type 0 where
  tomador destinatario remetente expedidor recebedor emitente autorizado no_role : CteRole

pub data CteReason : Type 0 where
  exact_tomador exact_destinatario exact_remetente exact_expedidor exact_recebedor : CteReason
  exact_emitente exact_autorizado same_root_only unknown_reason : CteReason

pub data TipoDocumento : Type 0 where
  cte cte_os gtve cte_simplificado : TipoDocumento

pub record Party : Type 0 where
  pub cnpj : Bytes
  pub name : Bytes
  pub ie : Bytes
  pub uf : Bytes

pub record Municipio : Type 0 where
  pub codigo : Bytes
  pub nome : Bytes
  pub uf : Bytes

-- Document of internal/cte. A zero time.Time and a nil *time.Time are `none`.
pub record Conhecimento : Type 0 where
  pub id : Bytes
  pub chave_acesso : Bytes
  pub tp_amb : Bytes
  pub modelo : Bytes
  pub tipo_documento : TipoDocumento
  pub serie : Bytes
  pub numero : Bytes
  pub cfop : Bytes
  pub nat_op : Bytes
  pub issue_date : Option ℕ
  pub competence : Bytes
  pub authorized_at : Option ℕ
  pub protocolo : Bytes
  pub tp_cte : Bytes
  pub tp_serv : Bytes
  pub modal : Bytes
  pub mun_ini : Municipio
  pub mun_fim : Municipio
  pub emitente : Party
  pub remetente : Party
  pub destinatario : Party
  pub expedidor : Party
  pub recebedor : Party
  pub tomador : Party
  pub tomador_indicador : Bytes
  pub autorizados_cnpj : List Bytes
  pub total_value : ℤ
  pub receivable_value : ℤ
  pub icms_value : ℤ
  pub tot_trib_value : ℤ
  pub carga_value : ℤ
  pub produto_predominante : Bytes
  pub nfe_chaves : List Bytes
  pub masked_keys : Bool
  pub situacao : Situacao
  pub layout_version : Bytes
  pub raw_hash : Bytes
  pub parse_warnings : List Bytes

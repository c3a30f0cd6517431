-- ===== src/Nfse.antt =====
-- internal/nfse: the NFS-e, its events and the participation of a company.
use nanci.Prelude.{ℕ, not, ◌&&◌, List, [], ◌∷◌, Option, any_by, if◌then◌else◌}
use nanci.Prelude.Int.{ℤ}
use nanci.Text.{Bytes, Unicode, bytes_eq, is_empty}
use nanci.Cnpj.{format, root_or_empty}

-- DocumentStatus, as the schema admits it
pub data NfseStatus : Type 0 where
  status_normal status_cancelada status_substituida : NfseStatus

pub data NfseEventType : Type 0 where
  type_cancelamento type_substituicao type_unknown : NfseEventType

-- CompanyRole; `role_none` is the text "none"
pub data NfseRole : Type 0 where
  role_tomada role_prestada role_intermediario role_none : NfseRole

pub data NfseReason : Type 0 where
  exact_prestador exact_tomador exact_intermediario same_root unknown : NfseReason

-- Document. Times are whole seconds.
pub record NfseDocument : Type 0 where
  pub id : Bytes
  pub chave_acesso : Bytes
  pub issue_date : ℕ
  pub competence : Bytes
  pub prestador_cnpj : Bytes
  pub prestador_name : Bytes
  pub tomador_cnpj : Bytes
  pub tomador_name : Bytes
  pub intermediario_cnpj : Bytes
  pub intermediario_name : Bytes
  pub service_value : ℤ
  pub iss_value : ℤ
  pub irrf_value : ℤ
  pub inss_value : ℤ
  pub pis_value : ℤ
  pub cofins_value : ℤ
  pub csll_value : ℤ
  pub total_retentions : ℤ
  pub status : NfseStatus
  pub layout_version : Bytes
  pub xml_path : Bytes
  pub raw_hash : Bytes
  pub parse_warnings : List Bytes
  pub nfse_number : Bytes
  pub service_description : Bytes

-- Event
pub record NfseEvent : Type 0 where
  pub id : Bytes
  pub chave_acesso : Bytes
  pub type : NfseEventType
  pub event_at : Option ℕ
  pub replacement_chave_acesso : Bytes
  pub description : Bytes
  pub raw_xml_path : Bytes
  pub raw_hash : Bytes
  pub parse_warnings : List Bytes

-- CompanyParticipation
pub record NfseParticipation : Type 0 where
  pub company_role : NfseRole
  pub visibility_reason : NfseReason

abbrev pub part : NfseRole → NfseReason → NfseParticipation
part role reason = record { company_role = role; visibility_reason = reason }

module _ ⦃u : Unicode⦄ where
  abbrev pub roots : NfseDocument → List Bytes
  roots doc =
      root_or_empty doc.prestador_cnpj
      ∷ root_or_empty doc.tomador_cnpj
      ∷ root_or_empty doc.intermediario_cnpj
      ∷ []

  -- the end of ClassifyCompanyParticipation
  abbrev pub nfse_by_root : Bytes → NfseDocument → NfseParticipation
  nfse_by_root company_root doc =
      if not (is_empty company_root) && any_by (bytes_eq company_root) (roots doc)
      then part role_none same_root
      else part role_none unknown

  unfoldable pub classify_company_participation : NfseDocument → Bytes → NfseParticipation
  unfolding format root_or_empty
  classify_company_participation doc company_cnpj =
      let value = format company_cnpj in
      if bytes_eq value (format doc.prestador_cnpj)
      then part role_prestada exact_prestador
      else if bytes_eq value (format doc.tomador_cnpj)
      then part role_tomada exact_tomador
      else if bytes_eq value (format doc.intermediario_cnpj)
      then part role_intermediario exact_intermediario
      else nfse_by_root (root_or_empty value) doc

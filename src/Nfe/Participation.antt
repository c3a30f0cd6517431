-- ===== src/Nfe/Participation.antt =====
-- internal/nfe/participation.go: the role of a company in an NF-e.
pub mod Rules
use nanci.Prelude.{Bool, true, false, not, ◌&&◌, List, [], ◌∷◌, any_by, if◌then◌else◌}
use nanci.Text.{Bytes, Unicode, bytes_eq, is_empty}
use nanci.Cnpj.{clean, root_or_empty}
use nanci.Nfe.Types.{
  Document, Completeness, resumo, CompanyRole, destinatario, emitente, transportador, autorizado,
  no_role, VisibilityReason, exact_destinatario, exact_emitente, exact_transportador,
  exact_autorizado, resumo_destinatario, same_root_only, unknown_reason,
}

pub record Participation : Type 0 where
  pub company_role : CompanyRole
  pub visibility_reason : VisibilityReason

abbrev pub role : CompanyRole → VisibilityReason → Participation
role r v = record { company_role = r; visibility_reason = v }

abbrev pub is_resumo : Completeness → Bool
is_resumo resumo = true
is_resumo _ = false

module _ ⦃u : Unicode⦄ where
  unfoldable pub same_party : Bytes → Bytes → Bool
  unfolding clean
  same_party company party = not (is_empty company) && bytes_eq company (clean party)

  abbrev pub parties : Document → List Bytes
  parties doc =
      doc.destinatario_cnpj ∷ doc.emitente_cnpj ∷ doc.transportador_cnpj ∷ doc.autorizados_cnpj

  -- the end of ClassifyParticipation
  unfoldable pub by_root : Bytes → Document → Participation
  unfolding root_or_empty
  by_root company doc =
      let company_root = root_or_empty company in
      if not (is_empty company_root)
        && any_by (λ party. bytes_eq (root_or_empty party) company_root) (parties doc)
      then role no_role same_root_only
      else role no_role unknown_reason

  unfoldable pub classify_participation : Document → Bytes → Participation
  unfolding same_party by_root clean
  classify_participation doc company_cnpj =
      let company = clean company_cnpj in
      if same_party company doc.destinatario_cnpj
      then role destinatario exact_destinatario
      else if same_party company doc.emitente_cnpj
      then role emitente exact_emitente
      else if same_party company doc.transportador_cnpj
      then role transportador exact_transportador
      else if any_by (same_party company) doc.autorizados_cnpj
      then role autorizado exact_autorizado
      else if is_resumo doc.completeness
      then role destinatario resumo_destinatario
      else by_root company doc

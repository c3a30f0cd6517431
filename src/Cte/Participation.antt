-- ===== src/Cte/Participation.antt =====
-- internal/cte/participation.go: the roles of a company in a CT-e. sameParty is the one of the NF-e.
pub mod Roles
pub mod Explained
use nanci.Prelude.{Bool, true, false, not, ◌&&◌, List, [], ◌∷◌, ◌++◌, map, any_by, if◌then◌else◌}
use nanci.Text.{Bytes, Unicode, bytes_eq, is_empty}
use nanci.Cnpj.{clean, root_or_empty}
use nanci.Nfe.Participation.{same_party}
use nanci.Cte.Types.{
  CteRole, tomador, destinatario, remetente, expedidor, recebedor, emitente, autorizado, no_role,
  CteReason, exact_tomador, exact_destinatario, exact_remetente, exact_expedidor, exact_recebedor,
  exact_emitente, exact_autorizado, same_root_only, unknown_reason, Conhecimento,
}

pub record CteParticipation : Type 0 where
  pub company_role : CteRole
  pub papeis : List CteRole
  pub visibility_reason : CteReason

abbrev pub cte_parties : Conhecimento → List (CteRole × Bytes)
cte_parties doc =
    (tomador, doc.tomador.cnpj)
    ∷ (destinatario, doc.destinatario.cnpj)
    ∷ (remetente, doc.remetente.cnpj)
    ∷ (expedidor, doc.expedidor.cnpj)
    ∷ (recebedor, doc.recebedor.cnpj)
    ∷ (emitente, doc.emitente.cnpj)
    ∷ []

-- exactVisibility; the map has no entry for the role none
abbrev pub exact_visibility : CteRole → CteReason
exact_visibility tomador = exact_tomador
exact_visibility destinatario = exact_destinatario
exact_visibility remetente = exact_remetente
exact_visibility expedidor = exact_expedidor
exact_visibility recebedor = exact_recebedor
exact_visibility emitente = exact_emitente
exact_visibility autorizado = exact_autorizado
exact_visibility no_role = unknown_reason

abbrev pub numbers : List (CteRole × Bytes) → List Bytes
numbers [] = []
numbers ((r, c) ∷ rest) = c ∷ numbers rest

module _ ⦃u : Unicode⦄ where
  -- the roles of the parties that the company matches
  unfoldable pub matching : Bytes → List (CteRole × Bytes) → List CteRole
  unfolding same_party
  matching company [] = []
  matching company ((r, c) ∷ rest) =
      let others = matching company rest in if same_party company c then r ∷ others else others

  unfoldable pub papeis_of : Bytes → Conhecimento → List CteRole
  unfolding matching
  papeis_of company doc =
      let named = matching company (cte_parties doc) in
      if any_by (same_party company) doc.autorizados_cnpj then named ++ (autorizado ∷ []) else named

  abbrev pub cte_by_root : Bytes → Conhecimento → CteParticipation
  cte_by_root company doc =
      let company_root = root_or_empty company in
      if not (is_empty company_root)
        && any_by (λ party. bytes_eq (root_or_empty party) company_root)
            (doc.autorizados_cnpj ++ numbers (cte_parties doc))
      then record { company_role = no_role; papeis = []; visibility_reason = same_root_only }
      else record { company_role = no_role; papeis = []; visibility_reason = unknown_reason }

  abbrev pub by_papeis : List CteRole → Bytes → Conhecimento → CteParticipation
  by_papeis [] company doc = cte_by_root company doc
  by_papeis (r ∷ rs) company doc = record {
    company_role = r;
    papeis = r ∷ rs;
    visibility_reason = exact_visibility r;
  }

  unfoldable pub classify_cte_participation : Conhecimento → Bytes → CteParticipation
  unfolding papeis_of clean root_or_empty
  classify_cte_participation doc company_cnpj =
      let company = clean company_cnpj in by_papeis (papeis_of company doc) company doc

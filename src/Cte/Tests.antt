-- ===== src/Cte/Tests.antt =====
-- A CT-e, its masked copy, and the roles of companies in it.
use nanci.Prelude.{◌≡◌, ◌≢◌, refl, true, false, some, [], ◌∷◌}
use nanci.Prelude.Int.{pos}
use nanci.Text.{Bytes, Unicode, codes, remove_byte, trim_space, to_upper, trim_ascii, drop_spaces}
use nanci.Cnpj.{clean, unmask}
use nanci.Nfe.Types.{autorizada, cancelada, other_situacao}
use nanci.Nfe.Participation.{same_party}
use nanci.Cte.Types.{Party, Municipio, Conhecimento, cte, tomador, remetente, autorizado}
use nanci.Cte.Merge.Masked.{IsUnmasked, merge_cte-IsUnmasked}
use nanci.Cte.Participation.{classify_cte_participation, papeis_of, matching}
use nanci.Cte.Participation.Explained.{IsRoled, classify_cte_participation-IsRoled}

abbrev ascii_text : Unicode
ascii_text = record { upper = λ s. s; trim = λ s. s }

abbrev party : Bytes → Party
party number = record { cnpj = number; name = []; ie = []; uf = codes "SP" }

abbrev place : Municipio
place = record { codigo = codes "3550308"; nome = codes "Sao Paulo"; uf = codes "SP" }

abbrev shipper : Bytes
shipper = codes "11222333000181"

abbrev whole : Conhecimento
whole = record {
  id = codes "a";
  chave_acesso = codes "35260911222333000181570010000012341123456781";
  tp_amb = codes "1";
  modelo = codes "57";
  tipo_documento = cte;
  serie = codes "1";
  numero = codes "1234";
  cfop = codes "5353";
  nat_op = [];
  issue_date = some 100;
  competence = codes "2026-09";
  authorized_at = some 200;
  protocolo = codes "135";
  tp_cte = codes "0";
  tp_serv = codes "0";
  modal = codes "01";
  mun_ini = place;
  mun_fim = place;
  emitente = party (codes "12ABC34501DE35");
  remetente = party (codes "11.222.333/0001-81");
  destinatario = party (codes "99888777000100");
  expedidor = party [];
  recebedor = party [];
  tomador = party shipper;
  tomador_indicador = codes "0";
  autorizados_cnpj = shipper ∷ [];
  total_value = pos 100;
  receivable_value = pos 100;
  icms_value = pos 12;
  tot_trib_value = pos 0;
  carga_value = pos 5000;
  produto_predominante = [];
  nfe_chaves = [];
  masked_keys = false;
  situacao = autorizada;
  layout_version = codes "4.00";
  raw_hash = codes "h";
  parse_warnings = [];
}

abbrev hidden : Conhecimento
hidden = record whole {
  id = codes "b";
  masked_keys = true;
  situacao = cancelada;
  raw_hash = codes "m";
}

is_known : (s : Bytes) → whole.situacao ≢ other_situacao s
is_known s h = absurd (cc)

masked_copy_example : IsUnmasked whole hidden
masked_copy_example = merge_cte-IsUnmasked whole hidden refl refl is_known

-- the roles of the shipper, in the order of the code
shipper_roles :
    (classify_cte_participation ⦃u = ascii_text⦄ whole shipper).papeis
    ≡ tomador ∷ remetente ∷ autorizado ∷ []
unfolding classify_cte_participation papeis_of matching same_party clean unmask remove_byte
    trim_space to_upper trim_ascii drop_spaces
shipper_roles = refl

roles_example :
    IsRoled ⦃u = ascii_text⦄ whole
      (clean ⦃u = ascii_text⦄ shipper)
      (classify_cte_participation ⦃u = ascii_text⦄ whole shipper)
roles_example = classify_cte_participation-IsRoled ⦃u = ascii_text⦄ whole shipper

-- ===== src/Nfe/Tests.antt =====
-- A resumo, the completa that follows it, and events of the company.
use nanci.Prelude.{ℕ, ◌≡◌, ◌≢◌, refl, ◌↔◌, true, false, none, some, List, [], ◌∷◌, arith}
use nanci.Prelude.Int.{pos}
use nanci.Text.{Bytes, Unicode, codes, remove_byte, trim_space, to_upper, trim_ascii, drop_spaces}
use nanci.Cnpj.{clean, unmask}
use nanci.Nfe.Types.{
  Document, Event, CompanyDocument, autorizada, cancelada, resumo, completa, ciencia, confirmacao,
  EventType, ciente, confirmada, destinatario, exact_destinatario,
}
use nanci.Nfe.Merge.{merge_document, severity}
use nanci.Nfe.Merge.Laws.{IsMerged, with_id, merge_document-IsMerged, merge_document_order}
use nanci.Nfe.Participation.{classify_participation, same_party}
use nanci.Nfe.Participation.Rules.{IsExplained, classify_participation-IsExplained}
use nanci.Nfe.Manifestacao.{
  manifestacao_and_time_from_events, walk, event_time, tacitly_confirmed, manifestacao_prazos,
}
use nanci.Nfe.Manifestacao.Latest.{Derived, manifestacao_and_time_from_events-Derived}
use nanci.Nfe.Manifestacao.Prazos.{IsDeemed, tacitly_confirmed-IsDeemed}

abbrev plain_ascii : Unicode
plain_ascii = record { upper = λ s. s; trim = λ s. s }

abbrev company : Bytes
company = codes "11222333000181"

abbrev summary : Document
summary = record {
  id = codes "a";
  chave_acesso = codes "35260911222333000181550010000012341123456787";
  modelo = codes "55";
  serie = codes "1";
  numero = codes "1234";
  issue_date = some 100;
  competence = codes "2026-09";
  authorized_at = none;
  protocolo = [];
  emitente_cnpj = codes "12ABC34501DE35";
  emitente_name = [];
  emitente_ie = [];
  emitente_uf = codes "SP";
  destinatario_cnpj = [];
  destinatario_name = [];
  transportador_cnpj = [];
  autorizados_cnpj = [];
  tp_nf = codes "1";
  fin_nfe = [];
  nat_op = [];
  total_value = pos 100;
  icms_value = pos 0;
  ipi_value = pos 0;
  situacao = cancelada;
  completeness = resumo;
  layout_version = codes "1.01";
  tp_amb = [];
  raw_hash = codes "r";
  resumo_raw_hash = [];
  parse_warnings = [];
}

abbrev full : Document
full = record summary {
  id = codes "b";
  authorized_at = some 200;
  protocolo = codes "135";
  destinatario_cnpj = codes "11.222.333/0001-81";
  situacao = autorizada;
  completeness = completa;
  raw_hash = codes "c";
}

merge_example : IsMerged summary full (merge_document summary full)
merge_example = merge_document-IsMerged summary full

not_zero : severity full.situacao ≢ 0
unfolding severity
not_zero h = absurd (ground (arith, h))

has_time : full.authorized_at ≢ none
has_time h = absurd (cc)

has_protocol : full.protocolo ≢ []
has_protocol h = absurd (cc)

order_example : with_id [] (merge_document full summary) ≡ with_id [] (merge_document summary full)
order_example = merge_document_order full summary [] refl refl not_zero has_time has_protocol

abbrev event : EventType → ℕ → Event
event t at = record {
  id = [];
  chave_acesso = full.chave_acesso;
  tp_evento = [];
  type = t;
  n_seq_evento = 1;
  event_at = some at;
  registered_at = none;
  protocolo = [];
  autor_cnpj = company;
  description = [];
  justificativa = [];
  correcao = [];
  tp_amb = [];
  completeness = completa;
  registered = true;
  c_stat = codes "135";
  x_motivo = [];
  sent_by_nanci = false;
  raw_hash = [];
  parse_warnings = [];
}

abbrev events : List Event
events = event confirmacao 300 ∷ event ciencia 500 ∷ []

concluded :
    manifestacao_and_time_from_events ⦃u = plain_ascii⦄ events company ≡ (confirmada, some 300)
unfolding manifestacao_and_time_from_events walk event_time same_party clean unmask remove_byte
    trim_space to_upper trim_ascii drop_spaces
concluded = refl

manifestacao_example :
    Derived ⦃u = plain_ascii⦄
      (clean ⦃u = plain_ascii⦄ company)
      events
      (manifestacao_and_time_from_events ⦃u = plain_ascii⦄ events company)
manifestacao_example = manifestacao_and_time_from_events-Derived ⦃u = plain_ascii⦄ events company

participation_example :
    IsExplained ⦃u = plain_ascii⦄ full
      (clean ⦃u = plain_ascii⦄ company)
      (classify_participation ⦃u = plain_ascii⦄ full company)
participation_example = classify_participation-IsExplained ⦃u = plain_ascii⦄ full company

abbrev received : CompanyDocument
received = record {
  document = full;
  company_role = destinatario;
  visibility_reason = exact_destinatario;
  manifestacao = ciente;
  manifestacao_at = none;
}

-- 200 seconds and 90 days
deemed : tacitly_confirmed received 7776201 ≡ true
unfolding tacitly_confirmed manifestacao_prazos
deemed = refl

deemed_example : (tacitly_confirmed received 7776201 ≡ true) ↔ IsDeemed received 7776201
deemed_example = tacitly_confirmed-IsDeemed received 7776201

-- ===== src/Store/Nfe/Samples.antt =====
-- An NF-e, its cancelamento and two companies, for the tests.
use nanci.Prelude.{ℕ, ◌≡◌, ◌≢◌, sym, ap, ◌∙◌, inl, inr, true, false, none, some, List, [], ◌∷◌, In}
use nanci.Prelude.Int.{pos}
use nanci.Text.{Bytes, Unicode, codes, bytes_eq}
use nanci.Nfe.Types.{Document, Event, autorizada, completa, cancelamento}
use nanci.Store.Nfe.Tables.{Tables, CompanyRow}
use nanci.Store.Nfe.Fresh.{IsFresh}

instance pub ascii : Unicode
ascii = record { upper = λ s. s; trim = λ s. s }

abbrev pub chave : Bytes
chave = codes "35260911222333000181550010000012341123456787"

abbrev pub nota : Document
nota = record {
  id = [];
  chave_acesso = chave;
  modelo = codes "55";
  serie = codes "1";
  numero = codes "1234";
  issue_date = some 100;
  competence = codes "2026-09";
  authorized_at = some 200;
  protocolo = codes "135";
  emitente_cnpj = codes "12ABC34501DE35";
  emitente_name = [];
  emitente_ie = [];
  emitente_uf = codes "SP";
  destinatario_cnpj = codes "11222333000181";
  destinatario_name = [];
  transportador_cnpj = [];
  autorizados_cnpj = [];
  tp_nf = codes "1";
  fin_nfe = [];
  nat_op = [];
  total_value = pos 100;
  icms_value = pos 0;
  ipi_value = pos 0;
  situacao = autorizada;
  completeness = completa;
  layout_version = codes "4.00";
  tp_amb = codes "1";
  raw_hash = codes "r";
  resumo_raw_hash = [];
  parse_warnings = [];
}

abbrev pub cancel : Event
cancel = record {
  id = [];
  chave_acesso = chave;
  tp_evento = codes "110111";
  type = cancelamento;
  n_seq_evento = 1;
  event_at = some 300;
  registered_at = none;
  protocolo = [];
  autor_cnpj = codes "12ABC34501DE35";
  description = [];
  justificativa = [];
  correcao = [];
  tp_amb = codes "1";
  completeness = completa;
  registered = true;
  c_stat = codes "135";
  x_motivo = [];
  sent_by_nanci = false;
  raw_hash = codes "e";
  parse_warnings = [];
}

abbrev pub one_company : CompanyRow
one_company = record { id = codes "one"; cnpj = codes "11222333000181" }

abbrev pub two_company : CompanyRow
two_company = record { id = codes "two"; cnpj = codes "12ABC34501DE35" }

abbrev pub empty : Tables
empty = record {
  documents = [];
  relations = [];
  events = [];
  companies = one_company ∷ two_company ∷ [];
  manifestacoes = [];
  export_marks = [];
}

abbrev pub in_order : List (Event × ℕ) → List (Event × ℕ)
in_order es = es

pub two_names : codes "two" ≢ codes "one"
two_names h = let same : false ≡ true = ap (λ id. bytes_eq id (codes "one")) h in absurd (cc)

one_of_two : (a b : CompanyRow) → In a empty.companies → In b empty.companies → a.id ≡ b.id → a ≡ b
one_of_two a b (inl e) (inl d) same = e ∙ sym d
one_of_two a b (inl e) (inr (inl d)) same =
    absurd (
      two_names
        (sym (ap (λ (c : CompanyRow). c.id) d) ∙ sym same ∙ ap (λ (c : CompanyRow). c.id) e))
one_of_two a b (inr (inl e)) (inl d) same =
    absurd
      (two_names (sym (ap (λ (c : CompanyRow). c.id) e) ∙ same ∙ ap (λ (c : CompanyRow). c.id) d))
one_of_two a b (inr (inl e)) (inr (inl d)) same = e ∙ sym d
one_of_two a b (inl e) (inr (inr j)) same = absurd j
one_of_two a b (inr (inl e)) (inr (inr j)) same = absurd j
one_of_two a b (inr (inr i)) j same = absurd i

pub empty-IsFresh : IsFresh in_order empty
empty-IsFresh = record {
  keyed = record {
    chaves = λ a b i. absurd i;
    ids = λ a b i. absurd i;
    relations = λ a b i. absurd i;
    companies = one_of_two;
  };
  fresh = λ c. record { situacao = λ row i. absurd i; manifestacao = λ row r c i. absurd i };
}

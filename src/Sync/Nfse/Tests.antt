-- ===== src/Sync/Nfse/Tests.antt =====
-- A pull of an NFS-e and its substituição.
use nanci.Prelude.{
  ℕ, String, ◌+◌, ◌≤◌, arith, ◌≡◌, refl, true, false, none, some, Option, [], ◌∷◌, map, Bool,
}
use nanci.Prelude.Int.{pos}
use nanci.Text.{Bytes, codes, remove_byte, trim_space, to_upper, trim_ascii, drop_spaces}
use nanci.Cnpj.{clean, unmask, format, root_or_empty}
use nanci.Sync.Error.{Err, caught_up, unset}
use nanci.Sync.Types.{SyncSource, Item, Batch, ItemOutcome, SourceState, normal}
use nanci.Sync.Env.{Env, Run, Result, ok, fail, ok-injective, Write}
use nanci.Sync.Loop.{sync}
use nanci.Sync.Loop.Ends.{sync_total}
use nanci.Sync.Dfe.{Content, parse_error}
use nanci.Sync.Nfse.{
  since_date, NfseCompany, NfseSource, should_skip_document_by_initial_policy, store_nota,
  store_nota_event, prepare_nfse,
}
use nanci.Sync.Nfse.Current.{sync_nfse-IsCurrent}
use nanci.Nfse.{
  NfseDocument, NfseEvent, status_normal, status_substituida, type_substituicao,
  classify_company_participation,
}
use nanci.Store.Tx.{statement, query, execute, update}
use nanci.Store.Nfe.Samples.{ascii, one_company}
use nanci.Store.Nfse.{recompute_document_status, do_apply_document, do_apply_event}
use nanci.Store.Nfse.Rows.{
  NfseRow, NfseTables, upsert_nota_rows, company_document_missing, upsert_nota_view, noted_types,
  status_of, event_hash_missing, insert_event_row,
}
use nanci.Store.Nfse.Current.{IsCurrent}

abbrev chave : Bytes
chave = codes "35503081211222333000181000000000000126090000000011"

abbrev servico : NfseDocument
servico = record {
  id = [];
  chave_acesso = chave;
  issue_date = 864000;
  competence = codes "2026-09";
  prestador_cnpj = codes "12ABC34501DE35";
  prestador_name = [];
  tomador_cnpj = codes "11222333000181";
  tomador_name = [];
  intermediario_cnpj = [];
  intermediario_name = [];
  service_value = pos 100;
  iss_value = pos 5;
  irrf_value = pos 0;
  inss_value = pos 0;
  pis_value = pos 0;
  cofins_value = pos 0;
  csll_value = pos 0;
  total_retentions = pos 0;
  status = status_normal;
  layout_version = codes "1.00";
  xml_path = [];
  raw_hash = [];
  parse_warnings = [];
  nfse_number = codes "1";
  service_description = [];
}

abbrev replaced : NfseEvent
replaced = record {
  id = [];
  chave_acesso = chave;
  type = type_substituicao;
  event_at = none;
  replacement_chave_acesso = [];
  description = [];
  raw_xml_path = [];
  raw_hash = [];
  parse_warnings = [];
}

abbrev item : ℕ → Bool → String → Item
item n is_event payload = record { nsu = n; schema = ""; payload = payload; is_event = is_event }

abbrev batch : Batch
batch = record {
  items = item 1 false "nota" ∷ item 2 true "evento" ∷ [];
  ult_nsu = 2;
  max_nsu = 2;
  next_cursor = 2;
  done = true;
  stop_reason = caught_up;
  wait_until = none;
}

abbrev source : NfseSource
source = record {
  decode = λ s. ok (record { xml = codes s; sha256 = codes s });
  parse_document_xml = λ xml. ok servico;
  parse_event_xml = λ xml. ok replaced;
  day = λ at. at;
  faults = record { file = λ n. none; exists = λ n. none };
  new_id = λ n. codes "id";
  world = λ n. record { fault = λ m. none; now = 1000 + n; new_id = λ m. n ∷ m ∷ [] };
}

abbrev company : NfseCompany
company = record {
  id = one_company.id;
  cnpj = one_company.cnpj;
  start_policy = since_date;
  start_date = some 864000;
}

abbrev pull : Env (Content NfseTables)
pull = record {
  fault = λ n. none;
  now = λ n. 1000 + n;
  new_id = λ n. n;
  done = λ n. false;
  kind = SyncSource.nfse;
  requests_per_hour = 0;
  fetch = λ n cursor. ok batch;
  prepare = prepare_nfse source company;
}

abbrev new_source : SourceState
new_source = record { initial_sync_done_at = none; blocked_until = none; blocked_reason = unset }

abbrev before : Run (Content NfseTables)
before = record {
  db = record {
    state = none;
    runs = [];
    source = new_source;
    requests = record { log = []; sent = [] };
    content = record {
      tables = record { documents = []; relations = []; events = []; companies = one_company ∷ [] };
      files = [];
    };
  };
  rt = record {
    run_id = 0;
    last_processed_nsu = 0;
    last_found_nsu = none;
    max_nsu = none;
    checked_count = 0;
    documents_inserted = 0;
    events_inserted = 0;
    documents_returned = 0;
    documents_skipped_stale = 0;
    documents_skipped_dup = 0;
    documents_skipped_policy = 0;
    events_skipped_policy = 0;
    unsupported = 0;
    completas_saved = 0;
    resumos_saved = 0;
    empty_count = 0;
    consecutive_empty = 0;
    errors_count = 0;
    source = new_source;
  };
  tick = 0;
}

bounded : (n cursor : ℕ) (b : Batch) → pull.fetch n cursor ≡ ok b → b.next_cursor ≤ 2
bounded n cursor b fetched = rw (← (ok-injective fetched)) (omega arith)

ended : (x : Option Err × Run (Content NfseTables)) × (sync pull 3 normal before ≡ some x)
ended = sync_total pull 2 bounded 3 normal before (omega arith)

empty-IsCurrent : IsCurrent before.db.content.tables
empty-IsCurrent = record { chaves = λ a b i. absurd i; status = λ row i. absurd i }

sync_nfse_example : IsCurrent ended.0.1.db.content.tables
sync_nfse_example =
    sync_nfse-IsCurrent source company pull 3 normal before ended.0.1 ended.0.0 refl empty-IsCurrent
      ended.1

-- one item after another, each committed
after : ℕ → Item → Content NfseTables → Content NfseTables
after n x c = commit (prepare_nfse source company n new_source x c)
  where
    written : Content NfseTables → Result (ItemOutcome × Content NfseTables) → Content NfseTables
    written c (fail e) = c
    written c (ok (o, c')) = c'

    commit : Result (Write (Content NfseTables)) × Content NfseTables → Content NfseTables
    commit (fail e, c) = c
    commit (ok write, c) = written c (write c)

statuses :
    map
      (λ (row : NfseRow). row.document.status)
      (after 6
        (item 2 true "evento")
        (after 5 (item 1 false "nota") before.db.content)).tables.documents
    ≡ status_substituida ∷ []
unfolding after prepare_nfse should_skip_document_by_initial_policy store_nota store_nota_event
    parse_error do_apply_document do_apply_event upsert_nota_rows company_document_missing
    upsert_nota_view noted_types status_of event_hash_missing insert_event_row
    recompute_document_status statement query execute update classify_company_participation format
    root_or_empty clean unmask remove_byte trim_space to_upper trim_ascii drop_spaces
statuses = refl

-- ===== src/Sync/Nfe/Tests.antt =====
-- A pull of an NF-e, its cancelamento, and an item that does not parse.
use nanci.Prelude.{
  ℕ, String, ◌+◌, ◌≤◌, arith, ◌≡◌, ◌≢◌, refl, true, false, none, some, Option, List, [], ◌∷◌, map,
  In,
}
use nanci.Text.{codes, remove_byte, trim_space, to_upper, trim_ascii, drop_spaces}
use nanci.Cnpj.{clean, unmask}
use nanci.Sync.Error.{Err, plain, processing, caught_up, unset, is_processing}
use nanci.Sync.Types.{SyncSource, Item, Batch, SourceState, normal}
use nanci.Sync.Env.{Env, Run, Result, ok, fail, ok-injective, Write}
use nanci.Sync.Cover.Journal.{Journaled}
use nanci.Sync.Loop.Ends.{sync_total}
use nanci.Sync.Loop.{sync}
use nanci.Sync.Dist.{check_tp_amb}
use nanci.Sync.Dfe.{Decoded, Company, production, Content, keep_document, parse_error, decode_then}
use nanci.Sync.Nfe.{NfeSource, before_version, classify_schema, store_document, prepare_nfe}
use nanci.Sync.Nfe.Fresh.{sync_nfe-IsFresh}
use nanci.Sync.Nfe.Refused.{prepare_nfe-error}
use nanci.Nfe.Types.{Situacao, autorizada}
use nanci.Nfe.Merge.{merge_document, severity, more_severe, situacao_from_events}
use nanci.Nfe.Participation.{classify_participation}
use nanci.Nfe.Manifestacao.{manifestacao_and_time_from_events, walk, event_time}
use nanci.Store.Tx.{statement, query, execute, update}
use nanci.Store.Nfe.Tables.{Tables, DocumentRow, allowed_document}
use nanci.Store.Nfe.Rows.{upsert_document_row, sees, upsert_relation_row, relations_of_chave}
use nanci.Store.Nfe.Apply.{apply_document_tx, refresh_chave, refresh_relations}
use nanci.Store.Nfe.Fresh.{IsFresh}
use nanci.Store.Nfe.Samples.{ascii, nota, cancel, one_company, empty, in_order, empty-IsFresh}

abbrev item : ℕ → String → Item
item n schema = record { nsu = n; schema = schema; payload = "H4sI"; is_event = false }

abbrev batch : Batch
batch = record {
  items =
      item 1 "procNFe_v4.00.xsd" ∷ item 2 "procEventoNFe_v1.00.xsd" ∷ item 3 "novo_v1.00.xsd" ∷ [];
  ult_nsu = 3;
  max_nsu = 3;
  next_cursor = 3;
  done = true;
  stop_reason = caught_up;
  wait_until = some 5000;
}

abbrev source : NfeSource
source = record {
  quote = λ s. s;
  decode = λ s. ok (record { xml = codes "<xml/>"; sha256 = codes "abc" });
  parsers = record {
    parse_res_nfe = λ xml. fail (plain "parse");
    parse_proc_nfe = λ xml. ok nota;
    parse_res_evento = λ xml. fail (plain "parse");
    parse_proc_evento_nfe = λ xml. ok cancel;
  };
  faults = record { file = λ n. none; exists = λ n. none };
  world = λ n. record { fault = λ m. none; now = 1000 + n; new_id = λ m. n ∷ m ∷ [] };
}

abbrev company : Company
company = record { id = one_company.id; cnpj = one_company.cnpj; environment = production }

abbrev pull : Env (Content Tables)
pull = record {
  fault = λ n. none;
  now = λ n. 1000 + n;
  new_id = λ n. n;
  done = λ n. false;
  kind = SyncSource.nfe;
  requests_per_hour = 20;
  fetch = λ n cursor. ok batch;
  prepare = prepare_nfe in_order source company;
}

abbrev new_source : SourceState
new_source = record { initial_sync_done_at = none; blocked_until = none; blocked_reason = unset }

abbrev before : Run (Content Tables)
before = record {
  db = record {
    state = none;
    runs = [];
    source = new_source;
    requests = record { log = []; sent = [] };
    content = record { tables = empty; files = [] };
  };
  rt = record {
    run_id = 0;
    last_processed_nsu = 0;
    last_found_nsu = none;
    max_nsu = none;
    checked_count = 0;
    documents_inserted = 0;
    events_inserted = 0;
    documents_returned = 0;
    documents_skipped_stale = 0;
    documents_skipped_dup = 0;
    documents_skipped_policy = 0;
    events_skipped_policy = 0;
    unsupported = 0;
    completas_saved = 0;
    resumos_saved = 0;
    empty_count = 0;
    consecutive_empty = 0;
    errors_count = 0;
    source = new_source;
  };
  tick = 0;
}

bounded : (n cursor : ℕ) (b : Batch) → pull.fetch n cursor ≡ ok b → b.next_cursor ≤ 3
bounded n cursor b fetched = rw (← (ok-injective fetched)) (omega arith)

ended : (x : Option Err × Run (Content Tables)) × (sync pull 4 normal before ≡ some x)
ended = sync_total pull 3 bounded 4 normal before (omega arith)

sync_nfe_example : IsFresh in_order ended.0.1.db.content.tables
sync_nfe_example =
    sync_nfe-IsFresh in_order source company pull 4 normal before ended.0.1 ended.0.0 refl
      empty-IsFresh ended.1

-- what the items write: the document, the cancelamento and nothing
situacoes : Result (Write (Content Tables)) × Content Tables → List Situacao
situacoes (fail e, c) = []
situacoes (ok write, c) = elim (write c) [
  | fail e ↦ []
  | ok (o, c') ↦ map (λ (row : DocumentRow). row.document.situacao) c'.tables.documents
]

written_document :
    situacoes (
      prepare_nfe in_order source company 5 new_source
        (item 1 "procNFe_v4.00.xsd")
        before.db.content)
    ≡ autorizada ∷ []
unfolding situacoes prepare_nfe decode_then classify_schema before_version store_document
    keep_document check_tp_amb apply_document_tx refresh_chave refresh_relations statement query
    execute update upsert_document_row allowed_document sees upsert_relation_row relations_of_chave
    merge_document more_severe severity situacao_from_events classify_participation
    manifestacao_and_time_from_events walk event_time clean unmask remove_byte trim_space to_upper
    trim_ascii drop_spaces
written_document = refl

no_hash : (payload : Decoded) → source.decode "H4sI" ≡ ok payload → payload.sha256 ≢ []
no_hash payload h e = absurd (cc)

abbrev resumo_item : Item
resumo_item = item 9 "resNFe_v1.01.xsd"

-- the hypothesis of the theorem on a refused item: the parser of the resumo refuses it
refused :
    (prepare_nfe in_order source company 5 new_source resumo_item before.db.content).0
    ≡ fail (processing 9 (plain "parse"))
unfolding prepare_nfe decode_then classify_schema before_version parse_error trim_space trim_ascii
    drop_spaces
refused = refl

error_example :
    (is_processing (processing 9 (plain "parse")) ≡ true)
    × ((prepare_nfe in_order source company 5 new_source resumo_item before.db.content).1.tables
        ≡ before.db.content.tables)
error_example =
    prepare_nfe-error in_order source company 5 new_source resumo_item before.db.content (codes "1")
      (processing 9 (plain "parse")) (refl, refl) refl no_hash refused

-- The feed that the service distributes, and its promises.
abbrev Feed : Item → Type 0
Feed x = In x batch.items

-- the same pull with an empty journal
abbrev with_journal : Run (Journaled (Content Tables))
with_journal = record {
  db = record {
    state = before.db.state;
    runs = before.db.runs;
    source = before.db.source;
    requests = before.db.requests;
    content = (before.db.content, []);
  };
  rt = before.rt;
  tick = 0;
}

-- ===== src/Sync/Samples.antt =====
-- Samples of the runs of internal/sync/loop.go: a source of three items, the second of which never parses.
use nanci.Prelude.{ℕ, ◌+◌, true, false, List, [], ◌∷◌, Option, none, some, ◌==◌, if◌then◌else◌}
use nanci.Sync.Error.{Err, plain, processing, caught_up, unset}
use nanci.Sync.Types.{SyncSource, Item, Batch, ItemOutcome, SourceState, Runtime}
use nanci.Sync.Env.{Env, Run, Result, ok, fail, Write}

abbrev pub item : ℕ → Item
item n = record { nsu = n; schema = "procNFe_v4.00.xsd"; payload = ""; is_event = false }

abbrev pub batch : Batch
batch = record {
  items = item 1 ∷ item 2 ∷ item 3 ∷ [];
  ult_nsu = 3;
  max_nsu = 3;
  next_cursor = 3;
  done = true;
  stop_reason = caught_up;
  wait_until = some 5000;
}

abbrev stored_whole : ItemOutcome
stored_whole = record {
  inserted = true;
  is_event = false;
  skipped_by_policy = false;
  unsupported = false;
  partial = false;
}

abbrev pub bad_xml : Err
bad_xml = processing 2 (plain "parse document")

-- the content is the list of the NSUs stored
abbrev pub store_item : Item → Write (List ℕ)
store_item x = λ content. ok (stored_whole, x.nsu ∷ content)

abbrev pub prepare : Item → List ℕ → Result (Write (List ℕ)) × List ℕ
prepare x content = if x.nsu == 2 then (fail bad_xml, content) else (ok (store_item x), content)

abbrev pub demo : Env (List ℕ)
demo = record {
  fault = λ n. none;
  now = λ n. 1000 + n;
  new_id = λ n. n;
  done = λ n. false;
  kind = SyncSource.nfe;
  requests_per_hour = 20;
  fetch = λ n cursor. ok batch;
  prepare = λ n src x content. prepare x content;
}

abbrev new_source : SourceState
new_source = record { initial_sync_done_at = none; blocked_until = none; blocked_reason = unset }

abbrev no_runtime : Runtime
no_runtime = record {
  run_id = 0;
  last_processed_nsu = 0;
  last_found_nsu = none;
  max_nsu = none;
  checked_count = 0;
  documents_inserted = 0;
  events_inserted = 0;
  documents_returned = 0;
  documents_skipped_stale = 0;
  documents_skipped_dup = 0;
  documents_skipped_policy = 0;
  events_skipped_policy = 0;
  unsupported = 0;
  completas_saved = 0;
  resumos_saved = 0;
  empty_count = 0;
  consecutive_empty = 0;
  errors_count = 0;
  source = new_source;
}

abbrev pub before : Run (List ℕ)
before = record {
  db = record {
    state = none;
    runs = [];
    source = new_source;
    requests = record { log = []; sent = [] };
    content = [];
  };
  rt = no_runtime;
  tick = 0;
}

abbrev pub run_of : Option (Option Err × Run (List ℕ)) → Run (List ℕ)
run_of none = before
run_of (some (e, s)) = s

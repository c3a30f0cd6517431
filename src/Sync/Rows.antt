-- ===== src/Sync/Rows.antt =====
-- internal/sync/store.go: what each statement writes in its rows.
use nanci.Prelude.{
  ℕ, ◌+◌, Bool, true, false, not, ◌&&◌, List, [], ◌∷◌, map, Option, none, some, ltb, leb, ◌==◌,
  if◌then◌else◌,
}
use nanci.Sync.Error.{
  Err, Status, StopReason, ErrorCode, plain, running, interrupted, unset, context_canceled,
}
use nanci.Sync.Types.{ItemOutcome, SyncState, SyncRun, SyncMode, Progress}
use nanci.Sync.Env.{Db}

abbrev pub hour : ℕ
hour = 3600

-- `CASE WHEN ? IS NOT NULL THEN ? ELSE old END`
abbrev pub new_or {ℓ} : {A : Type ℓ} → Option A → Option A → Option A
new_or (some a) old = some a
new_or none old = old

-- the CASE of the two error columns: a success clears them
abbrev pub error_column {ℓ} : {A : Type ℓ} → Option A → Bool → Option A → Option A
error_column (some a) success old = some a
error_column none true old = none
error_column none false old = old

abbrev pub some_if : Bool → ℕ → Option ℕ
some_if true now = some now
some_if false now = none

abbrev pub error_time : Option ErrorCode → Option Err → ℕ → Option ℕ
error_time none none now = none
error_time _ _ now = some now

-- the UPDATE of sync_state in doPersistProgress
unfoldable pub update_state : ℕ → Progress → SyncState → SyncState
update_state now p st = record st {
  last_processed_nsu = p.last_processed_nsu;
  last_found_nsu = new_or p.last_found_nsu st.last_found_nsu;
  max_nsu = new_or p.max_nsu st.max_nsu;
  last_empty_streak = p.last_empty_streak;
  last_success_at = new_or (some_if p.mark_success now) st.last_success_at;
  last_error_at = new_or (error_time p.error_code p.error_message now) st.last_error_at;
  last_error_code = error_column p.error_code p.mark_success st.last_error_code;
  last_error_message = error_column p.error_message p.mark_success st.last_error_message;
}

-- the UPDATE of sync_runs in doPersistProgress
unfoldable pub update_run : Progress → SyncRun → SyncRun
update_run p run =
    if run.id == p.run_id
    then record run {
      to_nsu = p.last_processed_nsu;
      checked_count = p.checked_count;
      documents_found = p.documents_found;
      empty_count = p.empty_count;
      consecutive_empty_count = p.consecutive_empty_count;
      errors_count = p.errors_count;
      last_found_nsu = new_or p.last_found_nsu run.last_found_nsu;
    }
    else run

abbrev pub map_state : (SyncState → SyncState) → Option SyncState → Option SyncState
map_state f none = none
map_state f (some st) = some (f st)

module _ {S : Type 0} where
  unfoldable pub do_persist_progress : ℕ → Progress → Db S → Db S
  unfolding update_state update_run
  do_persist_progress now p db = record db {
    state = map_state (update_state now p) db.state;
    runs = map (update_run p) db.runs;
  }

abbrev pub count_inserted : ItemOutcome → Progress → Progress
count_inserted o p =
    if o.inserted && not o.is_event then record p { documents_found = p.documents_found + 1 } else p

abbrev pub no_rows : Err
no_rows = plain "sql: no rows in result set"

abbrev pub new_state : SyncState
new_state = record {
  last_processed_nsu = 0;
  last_found_nsu = none;
  max_nsu = none;
  last_empty_streak = 0;
  last_success_at = none;
  last_error_at = none;
  last_error_code = none;
  last_error_message = none;
  failed_nsu = none;
  failed_nsu_attempts = 0;
}

-- the first statement of StartRun
unfoldable pub interrupt_run : ℕ → SyncRun → SyncRun
interrupt_run now run = elim run.status [
  | running ↦ record run {
    status = interrupted;
    stop_reason = context_canceled;
    finished_at = some now;
  }
  | _ ↦ run
]

abbrev pub new_run : ℕ → SyncMode → ℕ → ℕ → SyncRun
new_run id mode now nsu = record {
  id = id;
  mode = mode;
  started_at = now;
  finished_at = none;
  from_nsu = nsu;
  to_nsu = nsu;
  checked_count = 0;
  documents_found = 0;
  empty_count = 0;
  consecutive_empty_count = 0;
  errors_count = 0;
  last_found_nsu = none;
  status = running;
  stop_reason = unset;
  error_code = none;
  error_message = none;
}

-- syncstate.FinishRunParams
pub record Finish : Type 0 where
  pub run_id : ℕ
  pub status : Status
  pub stop_reason : StopReason
  pub error_code : Option ErrorCode
  pub error_message : Option Err
  pub checked_count : ℕ
  pub documents_found : ℕ
  pub empty_count : ℕ
  pub consecutive_empty_count : ℕ
  pub errors_count : ℕ
  pub last_found_nsu : Option ℕ

unfoldable pub finish_row : ℕ → Finish → SyncRun → SyncRun
finish_row now p run =
    if run.id == p.run_id
    then record run {
      finished_at = some now;
      status = p.status;
      stop_reason = p.stop_reason;
      checked_count = p.checked_count;
      documents_found = p.documents_found;
      empty_count = p.empty_count;
      consecutive_empty_count = p.consecutive_empty_count;
      errors_count = p.errors_count;
      last_found_nsu = p.last_found_nsu;
      error_code = p.error_code;
      error_message = p.error_message;
    }
    else run

-- the rows of sync_requests at or after `since`, and the oldest of them
unfoldable pub requests_from : ℕ → List ℕ → List ℕ
requests_from since [] = []
requests_from since (t ∷ ts) =
    let rest = requests_from since ts in if leb since t then t ∷ rest else rest

abbrev pub min_opt : ℕ → Option ℕ → Option ℕ
min_opt t none = some t
min_opt t (some u) = if ltb t u then some t else some u

unfoldable pub oldest : List ℕ → Option ℕ
oldest [] = none
oldest (t ∷ ts) = min_opt t (oldest ts)

-- the new attempts of RecordItemFailure
abbrev pub same_nsu : ℕ → Option ℕ → Bool
same_nsu nsu none = false
same_nsu nsu (some n) = nsu == n

unfoldable pub count_failure : ℕ → SyncState → SyncState
count_failure nsu st = record st {
  failed_nsu_attempts = if same_nsu nsu st.failed_nsu then st.failed_nsu_attempts + 1 else 1;
  failed_nsu = some nsu;
}

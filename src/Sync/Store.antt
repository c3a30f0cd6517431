-- ===== src/Sync/Store.antt =====
-- internal/sync/store.go: the statements of the run, each on the rows of one company, source,
-- environment and CNPJ. A transaction fails and changes nothing, or is applied whole.
pub mod Commit
pub mod Start
use nanci.Prelude.{
  ℕ, ◌+◌, ◌-◌, ◌*◌, Bool, true, false, not, ◌&&◌, List, [], ◌∷◌, map, Option, none, some, ltb, leb,
  ◌==◌, length, if◌then◌else◌,
}
use nanci.Sync.Error.{
  Err, Status, StopReason, ErrorCode, plain, running, interrupted, unset, context_canceled,
}
use nanci.Sync.Types.{ItemOutcome, SourceState, SyncState, SyncRun, SyncMode, Progress}
use nanci.Sync.Env.{
  Env, Db, Run, Result, ok, fail, Action, Write, advance, statement, attempt, pure, raise, ◌>>=◌,
}
use nanci.Sync.Rows.{
  hour, new_or, error_column, some_if, error_time, update_state, update_run, map_state,
  do_persist_progress, count_inserted, no_rows, new_state, interrupt_run, new_run, finish_row,
  requests_from, min_opt, oldest, same_nsu, count_failure, Finish,
}

module _ {S : Type 0} (env : Env S) where
  abbrev now : Run S → ℕ
  now s = env.now s.tick

  unfoldable pub persist_progress : Progress → Action S (Unit {0})
  unfolding do_persist_progress
  persist_progress p s = statement env (λ _. tt) (do_persist_progress (now s) p) s

  abbrev commit_fault : Option Err → ItemOutcome → Progress → S → Action S ItemOutcome
  commit_fault (some e) o p content s = (fail e, advance s)
  commit_fault none o p content s = (
    ok o,
    record (advance s) {
      db = do_persist_progress (now s) (count_inserted o p) (record s.db { content = content });
    },
  )

  abbrev after_write : Result (ItemOutcome × S) → Progress → Action S ItemOutcome
  after_write (fail e) p s = (fail e, s)
  after_write (ok (o, content)) p s = commit_fault (env.fault s.tick) o p content s

  abbrev after_begin : Option Err → Progress → Write S → Action S ItemOutcome
  after_begin (some e) p write s = (fail e, advance s)
  after_begin none p write s = after_write (write s.db.content) p (advance s)

  -- The write and the checkpoint are one transaction: BeginTx may fail, then the write, then the
  -- checkpoint or Commit, and each of these leaves the rows as they were.
  unfoldable pub apply_with_progress : Progress → Write S → Action S ItemOutcome
  unfolding do_persist_progress
  apply_with_progress p write s = after_begin (env.fault s.tick) p write s

  abbrev found_row : Option SyncState → Action S SyncState
  found_row none = raise no_rows
  found_row (some st) = pure st

  unfoldable pub get_sync_state : Action S SyncState
  get_sync_state = statement env (λ db. db.state) (λ db. db) >>= found_row

  abbrev insert_state : Db S → Db S
  insert_state db = record db { state = some new_state }

  abbrev after_insert : Result (Unit {0}) → Action S SyncState
  after_insert (ok _) = get_sync_state
  after_insert (fail e) = attempt get_sync_state λ r. elim r [ ok st ↦ pure st | fail _ ↦ raise e ]

  abbrev or_insert : Option SyncState → Action S SyncState
  or_insert (some st) = pure st
  or_insert none = attempt (statement env (λ _. tt) insert_state) after_insert

  -- The first read goes on to the INSERT only where it finds no row.
  unfoldable pub get_or_create_state : Action S SyncState
  unfolding get_sync_state
  get_or_create_state = statement env (λ db. db.state) (λ db. db) >>= or_insert

  -- The error of the first statement is dropped.
  unfoldable pub start_run : SyncMode → ℕ → Action S ℕ
  unfolding interrupt_run
  start_run mode nsu s =
      let id = env.new_id s.tick in
      attempt
        (statement env (λ _. tt) (λ db. record db { runs = map (interrupt_run (now s)) db.runs }))
        (λ _.
          statement env (λ _. id)
            (λ db. record db { runs = new_run id mode (now s) nsu ∷ db.runs }))
        s

  unfoldable pub source_state : Action S SourceState
  source_state = statement env (λ db. db.source) (λ db. db)

  -- `COALESCE(initial_sync_completed_at, excluded.…)`
  unfoldable pub mark_initial_sync_completed : Action S (Unit {0})
  mark_initial_sync_completed s =
      statement env (λ _. tt)
        (λ db. record db {
          source = record (db.source) {
            initial_sync_done_at = new_or db.source.initial_sync_done_at (some (now s));
          };
        })
        s

  unfoldable pub set_blocked_until : ℕ → StopReason → Action S (Unit {0})
  set_blocked_until until reason =
      statement env (λ _. tt)
        λ db. record db {
          source = record (db.source) { blocked_until = some until; blocked_reason = reason };
        }

  -- The INSERT and the DELETE of the rows older than a day are one transaction.
  unfoldable pub record_request : ℕ → Action S (Unit {0})
  unfolding requests_from
  record_request at =
      statement env (λ _. tt)
        λ db. record db {
          requests = record (db.requests) {
            log = requests_from (at - 24 * hour) (at ∷ db.requests.log);
          };
        }

  unfoldable pub requests_since : ℕ → Action S (ℕ × Option ℕ)
  unfolding requests_from oldest
  requests_since since =
      statement env
        (λ db. let rows = requests_from since db.requests.log in (length rows, oldest rows))
        (λ db. db)

  abbrev attempts_of : Option SyncState → Action S ℕ
  attempts_of none = raise no_rows
  attempts_of (some st) = pure st.failed_nsu_attempts

  unfoldable pub record_item_failure : ℕ → Action S ℕ
  unfolding count_failure
  record_item_failure nsu =
      statement env (λ db. map_state (count_failure nsu) db.state)
        (λ db. record db { state = map_state (count_failure nsu) db.state })
      >>= attempts_of

  unfoldable pub finish_run : Finish → Action S (Unit {0})
  unfolding finish_row
  finish_run p s =
      statement env (λ _. tt) (λ db. record db { runs = map (finish_row (now s) p) db.runs }) s

-- ===== src/Sync/Tests.antt =====
-- A small distribution of three items, one of them unreadable, and the theorems on it.
use nanci.Prelude.{ℕ, ◌≤◌, ◌≡◌, refl, List, [], ◌∷◌, Option, none, some, arith, ◌⊎◌, length}
use nanci.Sync.Error.{
  failure, wrap, failed, process_error, process_error_code, Err, is_processing, is_canceled,
  classify_sync_error, as_failure, persist_failure,
}
use nanci.Sync.Types.{Batch, normal}
use nanci.Sync.Env.{Env, Run, ok, fail, ok-injective}
use nanci.Sync.Store.Commit.{cursor_of}
use nanci.Sync.Budget.Limit.{IsWithinBudget}
use nanci.Sync.Loop.{sync, rounds, round, ended_by}
use nanci.Sync.Item.{
  process_item, source_process_item, settle, next_found, item_progress, progress_params,
  skip_poison_item, checkpoint_failure,
}
use nanci.Sync.Batch.{
  process_batch, fetch_batch, record_wait, process_items, checkpoint_batch, complete_initial_sync,
}
use nanci.Sync.Budget.{spend_request}
use nanci.Sync.Rows.{
  new_state, interrupt_run, finish_row, requests_from, oldest, do_persist_progress, update_state,
  update_run, count_failure,
}
use nanci.Sync.Store.{
  get_or_create_state, get_sync_state, source_state, start_run, finish_run, requests_since,
  record_request, set_blocked_until, apply_with_progress, record_item_failure, persist_progress,
  mark_initial_sync_completed,
}
use nanci.Sync.Budget.Limit.{Answered, spend_request-Answered}
use nanci.Sync.Closing.Whole.{Closed, sync-Closed}
use nanci.Sync.Count.{Accounted}
use nanci.Sync.Count.Whole.{sync-Accounted}
use nanci.Sync.Item.Poison.{IsAttempt, IsHeld, IsSkipped, process_item-poison}
use nanci.Sync.Loop.Ends.{sync_total}
use nanci.Sync.Loop.Requests.{Paid, sync-Paid}
use nanci.Sync.Samples.{item, batch, bad_xml, demo, before, run_of}

pull : Run (List ℕ) → Run (List ℕ)
unfolding sync get_or_create_state get_sync_state source_state start_run interrupt_run finish_run
    finish_row rounds round spend_request requests_since requests_from oldest record_request
    process_batch fetch_batch record_wait set_blocked_until process_items process_item
    source_process_item apply_with_progress do_persist_progress update_state update_run settle
    next_found item_progress progress_params is_canceled is_processing skip_poison_item
    record_item_failure count_failure checkpoint_failure persist_progress checkpoint_batch
    complete_initial_sync mark_initial_sync_completed ended_by classify_sync_error as_failure
    persist_failure
pull s = run_of (sync demo 4 normal s)

-- The unreadable item holds the cursor at 1, and the third run gives it up.
cursor_after_one : cursor_of (pull before).db.state ≡ some 1
unfolding pull
cursor_after_one = refl

cursor_after_three : cursor_of (pull (pull (pull before))).db.state ≡ some 3
unfolding pull
cursor_after_three = refl

stored_after_three : (pull (pull (pull before))).db.content ≡ 3 ∷ 1 ∷ []
unfolding pull
stored_after_three = refl

bounded : (n cursor : ℕ) (b : Batch) → demo.fetch n cursor ≡ ok b → b.next_cursor ≤ 3
bounded n cursor b fetched = rw (← (ok-injective fetched)) (omega arith)

sync_total_example : (x : Option Err × Run (List ℕ)) × (sync demo 4 normal before ≡ some x)
sync_total_example = sync_total demo 3 bounded 4 normal before (omega arith)

budget_example :
    Paid demo 20 before.db.requests (pull before).db.requests
    × IsWithinBudget 20 (pull before).db.requests.log
unfolding pull
budget_example = sync-Paid demo 4 normal before (pull before) (omega arith) (λ a. omega arith) refl

-- one request reached the service
sent_once : length (pull before).db.requests.sent ≡ 1
unfolding pull
sent_once = refl

granted_example : Answered demo 20 before (spend_request demo 20 before)
granted_example = spend_request-Answered demo 20 before (omega arith)

-- a run that ends without an error
abbrev calm : Env (List ℕ)
calm = record demo { fetch = λ n cursor. ok (record batch { items = item 1 ∷ [] }) }

calm_pull : Run (List ℕ) → Run (List ℕ)
unfolding sync get_or_create_state get_sync_state source_state start_run interrupt_run finish_run
    finish_row rounds round spend_request requests_since requests_from oldest record_request
    process_batch fetch_batch record_wait set_blocked_until process_items process_item
    source_process_item apply_with_progress do_persist_progress update_state update_run settle
    next_found item_progress progress_params is_canceled is_processing skip_poison_item
    record_item_failure count_failure checkpoint_failure persist_progress checkpoint_batch
    complete_initial_sync mark_initial_sync_completed ended_by classify_sync_error as_failure
    persist_failure
calm_pull s = run_of (sync calm 2 normal s)

calm_end : sync calm 2 normal before ≡ some (none, calm_pull before)
unfolding calm_pull sync get_or_create_state get_sync_state source_state start_run interrupt_run
    finish_run finish_row rounds round spend_request requests_since requests_from oldest
    record_request process_batch fetch_batch record_wait set_blocked_until process_items
    process_item source_process_item apply_with_progress do_persist_progress update_state update_run
    settle next_found item_progress progress_params is_canceled is_processing skip_poison_item
    record_item_failure count_failure checkpoint_failure persist_progress checkpoint_batch
    complete_initial_sync mark_initial_sync_completed ended_by classify_sync_error as_failure
    persist_failure
calm_end = refl

counts_example : Accounted (calm_pull before).rt
counts_example = sync-Accounted calm 2 normal before (calm_pull before) calm_end

closed_example : Closed (calm_pull before).db.runs
closed_example = sync-Closed calm 2 normal before (calm_pull before) (λ n. refl) calm_end

-- the second item of the demo, for the first time
abbrev at_bad_item : Run (List ℕ)
at_bad_item = record before { db = record (before.db) { state = some new_state } }

poison_example :
    (attempts : ℕ) × IsAttempt 2 new_state attempts
    × ((((process_item demo (item 2) at_bad_item).0
            ≡ fail (
                failure
                  (wrap "failed to process NSU" bad_xml)
                  failed
                  process_error
                  process_error_code))
          × IsHeld demo (item 2) attempts at_bad_item (process_item demo (item 2) at_bad_item).1)
        ⊎ (((process_item demo (item 2) at_bad_item).0 ≡ ok tt)
            × IsSkipped demo
                (item 2)
                attempts
                at_bad_item
                (process_item demo (item 2) at_bad_item).1))
unfolding is_processing is_canceled
poison_example =
    process_item-poison demo (item 2) at_bad_item new_state bad_xml (λ n. refl) refl refl refl refl

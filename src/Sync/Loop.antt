-- ===== src/Sync/Loop.antt =====
-- Sync of internal/sync/loop.go: the start of a run, its rounds and its end.
pub mod Ends
pub mod Requests
use nanci.Prelude.{ℕ, zero, suc, Bool, true, false, Option, none, some, leb, if◌then◌else◌}
use nanci.Sync.Error.{
  Err, Status, StopReason, ErrorCode, canceled, empty_limit, context_canceled, rate_budget,
  completed, interrupted, wrap, classify_sync_error, persist_failure,
}
use nanci.Sync.Types.{Batch, SourceState, SyncState, SyncMode, Runtime, normal, first_setup}
use nanci.Sync.Env.{Env, Run, Result, ok, fail, Action, advance, with_rt, on_error, ◌>>=◌}
use nanci.Sync.Rows.{Finish}
use nanci.Sync.Store.{get_or_create_state, source_state, start_run, finish_run}
use nanci.Sync.Budget.{spend_request}
use nanci.Sync.Batch.{process_batch}

-- How a run ends: what the deferred finishRun records, and the error that Sync returns.
pub record Ending : Type 0 where
  pub status : Status
  pub stop_reason : StopReason
  pub error_code : Option ErrorCode
  pub error_message : Option Err
  pub returned : Option Err

abbrev pub done_with : StopReason → Ending
done_with reason = record {
  status = completed;
  stop_reason = reason;
  error_code = none;
  error_message = none;
  returned = none;
}

-- `ctx.Err()` at the top of the loop and in waitRequestDelay
abbrev pub ended_by_context : Ending
ended_by_context = record {
  status = interrupted;
  stop_reason = context_canceled;
  error_code = none;
  error_message = none;
  returned = some canceled;
}

unfoldable pub ended_by : Err → Ending
unfolding classify_sync_error
ended_by e =
    let c = classify_sync_error e in
    record {
      status = c.status;
      stop_reason = c.reason;
      error_code = some c.code;
      error_message = some e;
      returned = some e;
    }

pub data Round : Type 0 where
  stop : Ending → Round
  next : ℕ → Round

-- `if batch.StopReason != ""`
abbrev pub done_reason : StopReason → StopReason
done_reason StopReason.unset = empty_limit
done_reason r = r

module _ {S : Type 0} (env : Env S) where
  -- the test of ctx.Done
  abbrev pub delay : ℕ → Run S → Round × Run S
  delay cursor s =
      if env.done s.tick then (stop ended_by_context, advance s) else (next cursor, advance s)

  abbrev pub after_batch : ℕ → Result Batch → Run S → Round × Run S
  after_batch cursor (fail e) s = (stop (ended_by e), s)
  after_batch cursor (ok batch) s =
      if batch.done
      then (stop (done_with (done_reason batch.stop_reason)), s)
      else if leb batch.next_cursor cursor
      then (stop (done_with empty_limit), s)
      else delay batch.next_cursor s

  abbrev pub after_budget : ℕ → Result Bool → Run S → Round × Run S
  after_budget cursor (fail e) s = (stop (ended_by (persist_failure e)), s)
  after_budget cursor (ok false) s = (stop (done_with rate_budget), s)
  after_budget cursor (ok true) s =
      let (r, s') = process_batch env cursor s in after_batch cursor r s'

  -- One pass of the `for`.
  unfoldable pub round : ℕ → Run S → Round × Run S
  round cursor s =
      if env.done s.tick
      then (stop ended_by_context, advance s)
      else (let (r, s') = spend_request env env.requests_per_hour (advance s) in
          after_budget cursor r s')

  abbrev pub go_on : Round → Run S → (ℕ → Run S → Option (Ending × Run S)) → Option (Ending × Run S)
  go_on (stop e) s again = some (e, s)
  go_on (next cursor) s again = again cursor s

  -- The `for` on fuel: `none` means that the fuel ran out.
  unfoldable pub rounds : ℕ → ℕ → Run S → Option (Ending × Run S)
  rounds zero cursor s = none
  rounds (suc fuel) cursor s = let (r, s') = round cursor s in go_on r s' (rounds fuel)

  abbrev pub finish_params : Ending → Runtime → Finish
  finish_params e rt = record {
    run_id = rt.run_id;
    status = e.status;
    stop_reason = e.stop_reason;
    error_code = e.error_code;
    error_message = e.error_message;
    checked_count = rt.checked_count;
    documents_found = rt.documents_inserted;
    empty_count = rt.empty_count;
    consecutive_empty_count = rt.consecutive_empty;
    errors_count = rt.errors_count;
    last_found_nsu = rt.last_found_nsu;
  }

  -- The deferred finishRun: its error is dropped.
  abbrev pub finished : Ending × Run S → Option Err × Run S
  finished (e, s) = let (r, s') = finish_run env (finish_params e s.rt) s in (e.returned, s')

  abbrev pub finish_all : Option (Ending × Run S) → Option (Option Err × Run S)
  finish_all none = none
  finish_all (some end) = some (finished end)

  -- the run state that Sync starts from
  abbrev pub new_runtime : ℕ → SyncState → SourceState → Runtime
  new_runtime id st source = record {
    run_id = id;
    last_processed_nsu = st.last_processed_nsu;
    last_found_nsu = st.last_found_nsu;
    max_nsu = none;
    checked_count = 0;
    documents_inserted = 0;
    events_inserted = 0;
    documents_returned = 0;
    documents_skipped_stale = 0;
    documents_skipped_dup = 0;
    documents_skipped_policy = 0;
    events_skipped_policy = 0;
    unsupported = 0;
    completas_saved = 0;
    resumos_saved = 0;
    empty_count = 0;
    consecutive_empty = 0;
    errors_count = 0;
    source = source;
  }

  abbrev pub start_cursor : SyncMode → SyncState → ℕ
  start_cursor normal st = st.last_processed_nsu
  start_cursor first_setup st = 0

  abbrev pub set_up : SyncMode → Action S ℕ
  set_up mode = do
    st ← on_error (wrap "failed to load sync state") (get_or_create_state env)
    source ← on_error (wrap "failed to load source state") (source_state env)
    id ← on_error (wrap "failed to create sync run") (start_run env mode st.last_processed_nsu)
    (λ s. (ok (start_cursor mode st), with_rt s (new_runtime id st source)))

  abbrev pub after_set_up : ℕ → Result ℕ → Run S → Option (Option Err × Run S)
  after_set_up fuel (fail e) s = some (some e, s)
  after_set_up fuel (ok cursor) s = finish_all (rounds fuel cursor s)

  -- Sync. The run state of `s` is replaced; the result is the error returned, if any.
  unfoldable pub sync : ℕ → SyncMode → Run S → Option (Option Err × Run S)
  sync fuel mode s = let (r, s') = set_up mode s in after_set_up fuel r s'

-- ===== src/Sync/Item.antt =====
-- processItem and skipPoisonItem of internal/sync/loop.go.
pub mod Source
pub mod Effect
pub mod Poison
use nanci.Prelude.{ℕ, ◌+◌, true, false, not, ◌&&◌, Option, none, some, ltb, if◌then◌else◌}
use nanci.Sync.Error.{
  Err, is_canceled, is_processing, wrap, join, failure, failed, process_error, process_error_code,
}
use nanci.Sync.Types.{Item, ItemOutcome, Progress, Runtime}
use nanci.Sync.Env.{
  Env, Result, ok, fail, Action, Write, advance, with_rt, attempt, raise, on_error,
}
use nanci.Sync.Store.{persist_progress, apply_with_progress, record_item_failure}

abbrev max_item_attempts : ℕ
max_item_attempts = 3

-- progressParams
unfoldable pub progress_params : Runtime → Progress
progress_params rt = record {
  run_id = rt.run_id;
  last_processed_nsu = rt.last_processed_nsu;
  last_found_nsu = rt.last_found_nsu;
  max_nsu = rt.max_nsu;
  last_empty_streak = rt.consecutive_empty;
  checked_count = rt.checked_count;
  documents_found = rt.documents_inserted;
  empty_count = rt.empty_count;
  consecutive_empty_count = rt.consecutive_empty;
  errors_count = rt.errors_count;
  error_code = none;
  error_message = none;
  mark_success = true;
}

-- nextLastFoundNSU
unfoldable pub next_found : Option ℕ → ℕ → Option ℕ
next_found none nsu = some nsu
next_found (some found) nsu = if ltb found nsu then some nsu else some found

unfoldable pub item_progress : Item → Runtime → Progress
unfolding progress_params next_found
item_progress item rt = record (progress_params rt) {
  last_processed_nsu = item.nsu;
  last_found_nsu = next_found rt.last_found_nsu item.nsu;
}

-- the switch over the outcome, its cases in order
abbrev count_kind : ItemOutcome → Runtime → Runtime
count_kind o rt =
    if o.skipped_by_policy && o.is_event
    then record rt { events_skipped_policy = rt.events_skipped_policy + 1 }
    else if o.skipped_by_policy
    then record rt { documents_skipped_policy = rt.documents_skipped_policy + 1 }
    else if o.unsupported
    then record rt { unsupported = rt.unsupported + 1 }
    else if o.inserted && o.is_event
    then record rt { events_inserted = rt.events_inserted + 1 }
    else if o.inserted
    then record rt { documents_inserted = rt.documents_inserted + 1 }
    else record rt { documents_skipped_dup = rt.documents_skipped_dup + 1 }

abbrev count_saved : ItemOutcome → Runtime → Runtime
count_saved o rt =
    if not o.is_event && (not o.skipped_by_policy && not o.unsupported)
    then (if o.partial
        then record rt { resumos_saved = rt.resumos_saved + 1 }
        else record rt { completas_saved = rt.completas_saved + 1 })
    else rt

-- The end of processItem. Nothing else of the run state has moved since `nextLastFoundNSU` was read.
unfoldable pub settle : Item → ItemOutcome → Runtime → Runtime
unfolding next_found
settle item o rt = record (count_saved o (count_kind o rt)) {
  last_processed_nsu = item.nsu;
  last_found_nsu = next_found rt.last_found_nsu item.nsu;
}

abbrev pub give_up_outcome : Item → ItemOutcome
give_up_outcome item = record {
  inserted = false;
  is_event = item.is_event;
  skipped_by_policy = false;
  unsupported = true;
  partial = false;
}

abbrev pub count_error : Runtime → Runtime
count_error rt = record rt { errors_count = rt.errors_count + 1 }

abbrev pub failed_progress : Err → Runtime → Progress
failed_progress e rt = record (progress_params rt) {
  mark_success = false;
  error_code = some process_error_code;
  error_message = some e;
}

module _ {S : Type 0} (env : Env S) where
  abbrev pub commit_prepared : Item → Progress → Result (Write S) → Action S ItemOutcome
  commit_prepared item p (fail e) = raise e
  commit_prepared item p (ok write) =
      on_error (wrap "db apply failed") (apply_with_progress env p write)

  -- Source.ProcessItem: it prepares the item and calls commit once.
  unfoldable pub source_process_item : Item → Progress → Action S ItemOutcome
  source_process_item item p s =
      let (r, content) = env.prepare s.tick s.rt.source item s.db.content in
      commit_prepared item p r (record (advance s) { db = record (s.db) { content = content } })

  abbrev pub give_up : Item → Err → Progress → Result ℕ → Action S ItemOutcome
  give_up item e p (fail d) = raise (join e (wrap "record item failure" d))
  give_up item e p (ok attempts) =
      if ltb attempts max_item_attempts
      then raise e
      else on_error (wrap "persist unsupported item progress failed")
          (apply_with_progress env p (λ content. ok (give_up_outcome item, content)))

  unfoldable pub skip_poison_item : Item → Err → Progress → Action S ItemOutcome
  skip_poison_item item e p =
      if is_processing e
      then attempt (record_item_failure env item.nsu) (give_up item e p)
      else raise e

  abbrev pub item_failure : Err → Result (Unit {0}) → Action S (Unit {0})
  item_failure e (fail d) = raise (
      failure (wrap "failed to persist checkpoint after processing error" d) failed process_error
        process_error_code)
  item_failure e (ok _) =
      raise (failure (wrap "failed to process NSU" e) failed process_error process_error_code)

  -- an error that skipPoisonItem returned is checkpointed, and the cursor stays
  unfoldable pub checkpoint_failure : Err → Action S (Unit {0})
  checkpoint_failure e s =
      attempt (persist_progress env (failed_progress e s.rt)) (item_failure e) s

  abbrev pub after_poison : Item → Result ItemOutcome → Action S (Unit {0})
  after_poison item (ok o) s = (ok tt, with_rt s (settle item o s.rt))
  after_poison item (fail e) s = checkpoint_failure e s

  abbrev pub after_process : Item → Progress → Result ItemOutcome → Action S (Unit {0})
  after_process item p (ok o) s = (ok tt, with_rt s (settle item o s.rt))
  after_process item p (fail e) s =
      if is_canceled e
      then (fail e, s)
      else attempt (skip_poison_item item e p) (after_poison item) (with_rt s (count_error s.rt))

  unfoldable pub process_item : Item → Action S (Unit {0})
  process_item item s =
      let p = item_progress item s.rt in
      attempt (source_process_item item p) (after_process item p) s

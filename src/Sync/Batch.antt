-- ===== src/Sync/Batch.antt =====
-- processBatch of internal/sync/loop.go. The progress callback and the log are left out: they
-- change no state.
pub mod Stages
use nanci.Prelude.{
  ℕ, ◌+◌, Bool, true, false, not, ◌&&◌, ◌||◌, List, [], ◌∷◌, Option, none, some, ltb, leb, length,
  if◌then◌else◌,
}
use nanci.Sync.Error.{
  is_canceled, wrap, failure, failed, fetch_error, fetch_error_code, persist_failure, empty_limit,
  caught_up,
}
use nanci.Sync.Types.{Item, Batch, Runtime}
use nanci.Sync.Env.{
  Env, Run, Result, ok, fail, Action, advance, with_rt, pure, on_error, ◌>>=◌, ◌>>◌,
}
use nanci.Sync.Store.{persist_progress, set_blocked_until, mark_initial_sync_completed}
use nanci.Sync.Budget.{same_reason}
use nanci.Sync.Item.{process_item, progress_params}

abbrev is_nil {ℓ} : {A : Type ℓ} → List A → Bool
is_nil [] = true
is_nil (x ∷ xs) = false

abbrev is_none {ℓ} : {A : Type ℓ} → Option A → Bool
is_none none = true
is_none (some a) = false

abbrev pub skip_stale : Runtime → Runtime
skip_stale rt = record rt { documents_skipped_stale = rt.documents_skipped_stale + 1 }

-- the counts after a fetch
abbrev pub observe : Batch → Runtime → Runtime
observe batch rt = record rt {
  checked_count = rt.checked_count + 1;
  documents_returned = rt.documents_returned + length batch.items;
  max_nsu = if ltb 0 batch.max_nsu then some batch.max_nsu else rt.max_nsu;
}

abbrev pub count_empty : List Item → Runtime → Runtime
count_empty [] rt = record rt {
  empty_count = rt.empty_count + 1;
  consecutive_empty = rt.consecutive_empty + 1;
}
count_empty (x ∷ xs) rt = record rt { consecutive_empty = 0 }

-- `if batch.NextCursor > runState.lastProcessedNSU`
abbrev pub passes : Batch → Runtime → Bool
passes batch rt = ltb rt.last_processed_nsu batch.next_cursor

abbrev move_cursor : Batch → Runtime → Runtime
move_cursor batch rt =
    if passes batch rt then record rt { last_processed_nsu = batch.next_cursor } else rt

abbrev pub close_batch : Batch → Runtime → Runtime
close_batch batch rt = move_cursor batch (count_empty batch.items rt)

abbrev pub ends_initial_sync : Batch → Runtime → Bool
ends_initial_sync batch rt =
    batch.done
    && (is_none rt.source.initial_sync_done_at
        && (same_reason batch.stop_reason empty_limit || same_reason batch.stop_reason caught_up))

module _ {S : Type 0} (env : Env S) where
  abbrev pub one_item : ℕ → Item → (Bool → Action S Bool) → Bool → Action S Bool
  one_item cursor item later any s =
      if leb item.nsu cursor
      then later any (with_rt s (skip_stale s.rt))
      else (process_item env item >>= λ _. later true) s

  -- The loop over the items of a batch, in the order delivered. It returns `processedAny`.
  unfoldable pub process_items : ℕ → List Item → Bool → Action S Bool
  process_items cursor [] any = pure any
  process_items cursor (item ∷ items) any =
      let later = process_items cursor items in one_item cursor item later any

  abbrev fetched : ℕ → Result Batch → Action S Batch
  fetched cursor (ok batch) s = (ok batch, with_rt s (observe batch s.rt))
  fetched cursor (fail e) s = if is_canceled e then (fail e, s) else (
    fail (failure (wrap "failed to fetch documents" e) failed fetch_error fetch_error_code),
    s,
  )

  -- the call of Fetch reaches the service
  abbrev pub send : Run S → Run S
  send s = record (advance s) {
    db = record (s.db) { requests = record (s.db.requests) { sent = s.tick ∷ s.db.requests.sent } };
  }

  unfoldable pub fetch_batch : ℕ → Action S Batch
  fetch_batch cursor s = fetched cursor (env.fetch s.tick cursor) (send s)

  abbrev wait_for : Option ℕ → Batch → Action S (Unit {0})
  wait_for none batch = pure tt
  wait_for (some until) batch =
      on_error (λ e. persist_failure (wrap "failed to record source wait" e))
        (set_blocked_until env until batch.stop_reason)

  -- The wait that the source imposes, recorded before the items.
  unfoldable pub record_wait : Batch → Action S (Unit {0})
  record_wait batch = wait_for batch.wait_until batch

  -- The checkpoint at the end of a batch.
  unfoldable pub checkpoint_batch : Batch → Bool → Action S (Unit {0})
  checkpoint_batch batch any s =
      let rt = close_batch batch s.rt in
      if not any || passes batch (count_empty batch.items s.rt)
      then on_error (λ e. persist_failure (wrap "failed to persist batch checkpoint" e))
          (persist_progress env (progress_params rt)) (with_rt s rt)
      else (ok tt, with_rt s rt)

  abbrev note_initial_sync : Action S (Unit {0})
  note_initial_sync s = (
    ok tt,
    with_rt s (record (s.rt) {
      source = record (s.rt.source) { initial_sync_done_at = some (env.now s.tick) };
    }),
  )

  unfoldable pub complete_initial_sync : Batch → Action S (Unit {0})
  complete_initial_sync batch s =
      if ends_initial_sync batch s.rt
      then (do
        on_error (λ e. persist_failure (wrap "failed to mark initial sync completed" e))
            (mark_initial_sync_completed env)
        note_initial_sync)
          s
      else (ok tt, s)

  unfoldable pub process_batch : ℕ → Action S Batch
  process_batch cursor = do
    batch ← fetch_batch cursor
    record_wait batch
    any ← process_items cursor batch.items false
    checkpoint_batch batch any
    complete_initial_sync batch
    pure batch

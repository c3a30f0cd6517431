-- ===== src/Sync/Closing/OneBatch.antt =====
-- The row of the current run over one batch of internal/sync/loop.go.
use nanci.Prelude.{
  ℕ, inl, inr, Bool, true, false, List, [], ◌∷◌, leb, not, ◌||◌, Bool-cases, Option-cases,
}
use nanci.Sync.Error.{is_canceled}
use nanci.Sync.Types.{Item, Batch}
use nanci.Sync.Env.{Env, Run, Result, with_rt, pure}
use nanci.Sync.Store.{set_blocked_until, mark_initial_sync_completed}
use nanci.Sync.Store.Commit.{Result-cases}
use nanci.Sync.Item.{process_item, source_process_item, item_progress, progress_params}
use nanci.Sync.Batch.{
  process_batch, fetch_batch, record_wait, process_items, checkpoint_batch, complete_initial_sync,
  skip_stale, close_batch, passes, count_empty, ends_initial_sync,
}
use nanci.Sync.Batch.Stages.{bind_rule}
use nanci.Sync.Closing.{
  Current, Current-persist_progress, Current-source_process_item, Current-after_process,
  run_id-close_batch,
}

module _ {S : Type 0} (env : Env S) (id : ℕ) where
  Current-process_item :
      (item : Item) (s : Run S) → Current env id s → Current env id (process_item env item s).1
  unfolding process_item
  Current-process_item item s h =
      let p = item_progress item s.rt in
      let x = source_process_item env item p s in
      Current-after_process env id item p x.0 x.1 (Current-source_process_item env id item p s h)

  Current-process_items :
      (cursor : ℕ) (items : List Item) (any : Bool) (s : Run S)
      → Current env id s
      → Current env id (process_items env cursor items any s).1
  unfolding process_items
  Current-process_items cursor [] any s h = h
  Current-process_items cursor (item ∷ items) any s h = elim (Bool-cases (leb item.nsu cursor)) [
    | inl stale ↦ rw stale (Current-process_items cursor items any (with_rt s (skip_stale s.rt)) h)
    | inr fresh ↦
        let one = Current-process_item item s h in
        rw fresh (
          bind_rule (λ x t. Current env id t) (process_item env item)
            (λ _. process_items env cursor items true) s (λ e bad. one)
            λ u good. Current-process_items cursor items true (process_item env item s).1 one)
  ]

  Current-fetch_batch :
      (cursor : ℕ) (s : Run S) → Current env id s → Current env id (fetch_batch env cursor s).1
  unfolding fetch_batch
  Current-fetch_batch cursor s h = elim (Result-cases (env.fetch s.tick cursor)) [
    | inl (batch, e) ↦ rw e h
    | inr (d, e) ↦ elim (Bool-cases (is_canceled d)) [ inl c ↦ rw (e, c) h | inr c ↦ rw (e, c) h ]
  ]

  Current-record_wait :
      (batch : Batch) (s : Run S) → Current env id s → Current env id (record_wait env batch s).1
  unfolding record_wait set_blocked_until
  Current-record_wait batch s h = elim (Option-cases batch.wait_until) [
    | inl e ↦ rw e h
    | inr (until, e) ↦ elim (Option-cases (env.fault s.tick)) [
      | inl f ↦ rw (e, f) h
      | inr (d, f) ↦ rw (e, f) h
    ]
  ]

  Current-checkpoint_batch :
      (batch : Batch) (any : Bool) (s : Run S)
      → Current env id s
      → Current env id (checkpoint_batch env batch any s).1
  unfolding checkpoint_batch
  Current-checkpoint_batch batch any s (r, h) =
      let t = with_rt s (close_batch batch s.rt) in
      let start : Current env id t = rw (run_id-close_batch batch s.rt) (r, h) in
      elim (Bool-cases (not any || passes batch (count_empty batch.items s.rt))) [
        | inl e ↦
            rw e
              (Current-persist_progress env id (progress_params (close_batch batch s.rt)) t start)
        | inr e ↦ rw e start
      ]

  Current-complete_initial_sync :
      (batch : Batch) (s : Run S)
      → Current env id s
      → Current env id (complete_initial_sync env batch s).1
  unfolding complete_initial_sync mark_initial_sync_completed
  Current-complete_initial_sync batch s h = elim (Bool-cases (ends_initial_sync batch s.rt)) [
    | inr e ↦ rw e h
    | inl e ↦ elim (Option-cases (env.fault s.tick)) [
      | inl f ↦ rw (e, f) h
      | inr (d, f) ↦ rw (e, f) h
    ]
  ]

  pub Current-process_batch :
      (cursor : ℕ) (s : Run S) → Current env id s → Current env id (process_batch env cursor s).1
  unfolding process_batch
  Current-process_batch cursor s h =
      let Q = λ (x : Result Batch) (t : Run S). Current env id t in
      let one = Current-fetch_batch cursor s h in
      bind_rule Q (fetch_batch env cursor) _ s (λ e bad. one)
        λ batch got.
          let two = Current-record_wait batch _ one in
          bind_rule Q (record_wait env batch) _ _ (λ e bad. two)
            λ u waited.
              let three = Current-process_items cursor batch.items false _ two in
              bind_rule Q (process_items env cursor batch.items false) _ _ (λ e bad. three)
                λ any finished.
                  let four = Current-checkpoint_batch batch any _ three in
                  bind_rule Q (checkpoint_batch env batch any) _ _ (λ e bad. four)
                    λ v closed.
                      let five = Current-complete_initial_sync batch _ four in
                      bind_rule Q (complete_initial_sync env batch) (λ _. pure batch) _
                        (λ e bad. five) λ w completed. five

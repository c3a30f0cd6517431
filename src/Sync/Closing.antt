-- ===== src/Sync/Closing.antt =====
-- The rows of sync_runs: a run leaves no other row running, and closes its own.
pub mod OneBatch
pub mod Rounds
pub mod Whole
use nanci.Prelude.{
  ℕ, ◌+◌, ◌≡◌, refl, inl, inr, Bool, true, false, List, [], ◌∷◌, map, Option, none, some, arith,
  leb, ltb, not, ◌||◌, ◌==◌, All, Bool-cases, Option-cases, if◌then◌else◌,
}
use nanci.Sync.Error.{Err, Status, running, completed, is_canceled, is_processing}
use nanci.Sync.Types.{Item, Batch, ItemOutcome, Progress, Runtime, SyncRun}
use nanci.Sync.Env.{Env, Run, Result, ok, fail, Write, with_rt, pure}
use nanci.Sync.Rows.{update_run, do_persist_progress, count_inserted}
use nanci.Sync.Store.{
  persist_progress, apply_with_progress, record_item_failure, set_blocked_until,
  mark_initial_sync_completed,
}
use nanci.Sync.Store.Commit.{Result-cases}
use nanci.Sync.Item.{
  process_item, source_process_item, skip_poison_item, checkpoint_failure, settle, item_progress,
  progress_params, after_process, after_poison, count_error, failed_progress, give_up, item_failure,
  commit_prepared,
}
use nanci.Sync.Item.Source.{prepared}
use nanci.Sync.Batch.{
  process_batch, fetch_batch, record_wait, process_items, checkpoint_batch, complete_initial_sync,
  skip_stale, close_batch, passes, count_empty, ends_initial_sync,
}
use nanci.Sync.Batch.Stages.{bind_rule}

-- Only the run `id` is running.
abbrev pub Only : ℕ → List SyncRun → Type 0
Only id runs = All (λ (run : SyncRun). run.status ≡ running → run.id ≡ id) runs

Only-update_run :
    (id : ℕ) (p : Progress) (runs : List SyncRun) → Only id runs → Only id (map (update_run p) runs)
unfolding update_run
Only-update_run id p [] h = tt
Only-update_run id p (run ∷ runs) (k, h) = elim (Bool-cases (run.id == p.run_id)) [
  | inl e ↦ rw e (k, Only-update_run id p runs h)
  | inr e ↦ rw e (k, Only-update_run id p runs h)
]

run_id-settle :
    (item : Item) (o : ItemOutcome) (rt : Runtime) → (settle item o rt).run_id ≡ rt.run_id
unfolding settle
run_id-settle item o rt = ground arith

pub run_id-close_batch : (batch : Batch) (rt : Runtime) → (close_batch batch rt).run_id ≡ rt.run_id
run_id-close_batch batch rt = ground arith

module _ {S : Type 0} (env : Env S) (id : ℕ) where
  -- the run state is the one of the run `id`, and no other run is running
  abbrev pub Current : Run S → Type 0
  Current s = (s.rt.run_id ≡ id) × Only id s.db.runs

  pub Current-persist_progress :
      (p : Progress) (s : Run S) → Current s → Current (persist_progress env p s).1
  unfolding persist_progress do_persist_progress
  Current-persist_progress p s (r, h) = elim (Option-cases (env.fault s.tick)) [
    | inl f ↦ rw f (r, Only-update_run id p s.db.runs h)
    | inr (d, f) ↦ rw f (r, h)
  ]

  Current-apply_with_progress :
      (p : Progress) (write : Write S) (s : Run S)
      → Current s
      → Current (apply_with_progress env p write s).1
  unfolding apply_with_progress do_persist_progress
  Current-apply_with_progress p write s (r, h) = elim (Option-cases (env.fault s.tick)) [
    | inr (e, begins) ↦ rw begins (r, h)
    | inl begins ↦ elim (Result-cases (write s.db.content)) [
      | inr (e, writes) ↦ rw (begins, writes) (r, h)
      | inl ((o, content), writes) ↦ elim (Option-cases (env.fault (s.tick + 1))) [
        | inr (e, commits) ↦ rw (begins, writes, commits) (r, h)
        | inl commits ↦
            rw (begins, writes, commits) (r, Only-update_run id (count_inserted o p) s.db.runs h)
      ]
    ]
  ]

  Current-record_item_failure :
      (nsu : ℕ) (s : Run S) → Current s → Current (record_item_failure env nsu s).1
  unfolding record_item_failure
  Current-record_item_failure nsu s (r, h) = elim (Option-cases (env.fault s.tick)) [
    | inr (e, f) ↦ rw f (r, h)
    | inl f ↦ elim (Option-cases s.db.state) [
      | inl absent ↦ rw (f, absent) (r, h)
      | inr (st, found) ↦ rw (f, found) (r, h)
    ]
  ]

  pub Current-source_process_item :
      (item : Item) (p : Progress) (s : Run S)
      → Current s
      → Current (source_process_item env item p s).1
  unfolding source_process_item
  Current-source_process_item item p s (r, h) = elim (Result-cases (prepared env item s).0) [
    | inr (e, refuses) ↦ rw refuses (r, h)
    | inl (write, prepares) ↦ rw prepares (Current-apply_with_progress p write _ (r, h))
  ]

  Current-give_up :
      (item : Item) (e : Err) (p : Progress) (x : Result ℕ) (s : Run S)
      → Current s
      → Current (give_up env item e p x s).1
  Current-give_up item e p (fail d) s h = h
  Current-give_up item e p (ok attempts) s h = elim (Bool-cases (ltb attempts 3)) [
    | inl early ↦ rw early h
    | inr late ↦ rw late (Current-apply_with_progress p _ s h)
  ]

  Current-skip_poison_item :
      (item : Item) (e : Err) (p : Progress) (s : Run S)
      → Current s
      → Current (skip_poison_item env item e p s).1
  unfolding skip_poison_item
  Current-skip_poison_item item e p s h = elim (Bool-cases (is_processing e)) [
    | inr other ↦ rw other h
    | inl bad ↦ rw bad (
        Current-give_up item e p (record_item_failure env item.nsu s).0
          (record_item_failure env item.nsu s).1 (Current-record_item_failure item.nsu s h))
  ]

  Current-item_failure :
      (e : Err) (x : Result (Unit {0})) (s : Run S) → Current s → Current (item_failure env e x s).1
  Current-item_failure e (ok u) s h = h
  Current-item_failure e (fail d) s h = h

  Current-checkpoint_failure :
      (e : Err) (s : Run S) → Current s → Current (checkpoint_failure env e s).1
  unfolding checkpoint_failure
  Current-checkpoint_failure e s h =
      let x = persist_progress env (failed_progress e s.rt) s in
      Current-item_failure e x.0 x.1 (Current-persist_progress (failed_progress e s.rt) s h)

  Current-after_poison :
      (item : Item) (x : Result ItemOutcome) (s : Run S)
      → Current s
      → Current (after_poison env item x s).1
  Current-after_poison item (ok o) s (r, h) = rw (run_id-settle item o s.rt) (r, h)
  Current-after_poison item (fail e) s h = Current-checkpoint_failure e s h

  pub Current-after_process :
      (item : Item) (p : Progress) (x : Result ItemOutcome) (s : Run S)
      → Current s
      → Current (after_process env item p x s).1
  Current-after_process item p (ok o) s (r, h) = rw (run_id-settle item o s.rt) (r, h)
  Current-after_process item p (fail e) s h = elim (Bool-cases (is_canceled e)) [
    | inl c ↦ rw c h
    | inr c ↦
        let t = with_rt s (count_error s.rt) in
        let x = skip_poison_item env item e p t in
        rw c (Current-after_poison item x.0 x.1 (Current-skip_poison_item item e p t h))
  ]

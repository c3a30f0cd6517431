-- ===== src/Sync/Closing/Whole.antt =====
-- A run that ends without an error leaves no row of sync_runs running.
use nanci.Prelude.{ℕ, ◌+◌, ◌≡◌, ◌≢◌, refl, List, [], ◌∷◌, map, Option, none, some, All}
use mathlib.Core.Path.{subst}
use nanci.Sync.Error.{Err, Status, running, completed, failed, interrupted, wrap}
use nanci.Sync.Types.{SyncMode, SyncRun}
use nanci.Sync.Env.{Env, Run, Result, ok, fail, ok-injective, on_error, relabel}
use nanci.Sync.Rows.{interrupt_run}
use nanci.Sync.Store.{get_or_create_state, source_state, start_run, finish_run}
use nanci.Sync.Batch.Stages.{bind_rule}
use nanci.Sync.Count.Whole.{some_run}
use nanci.Sync.Closing.{Only, Current}
use nanci.Sync.Loop.{Ending, rounds, sync, set_up, after_set_up, finish_all, finish_params}
use nanci.Sync.Closing.Rounds.{closed, Ended, rounds-Ended}

-- StartRun interrupts every run that is running.
Only-interrupt_run : (id now : ℕ) (runs : List SyncRun) → Only id (map (interrupt_run now) runs)
unfolding interrupt_run
Only-interrupt_run id now [] = tt
Only-interrupt_run id now (run ∷ runs) = (one run.status refl, Only-interrupt_run id now runs)
  where
    one :
        (st : Status)
        → run.status ≡ st
        → (interrupt_run now run).status ≡ running
        → (interrupt_run now run).id ≡ id
    one running e h = absurd (cc (rw e at h))
    one completed e h = absurd (cc (rw e at h))
    one failed e h = absurd (cc (rw e at h))
    one interrupted e h = absurd (cc (rw e at h))

unlabelled : (f : Err → Err) (r : Result ℕ) {a : ℕ} → relabel f r ≡ ok a → r ≡ ok a
unlabelled f (ok b) h = h
unlabelled f (fail e) h = absurd (cc)

-- No row is running.
abbrev pub Closed : List SyncRun → Type 0
Closed runs = All (λ (run : SyncRun). run.status ≢ running) runs

not_running : (e : Ending) → e.status ≡ completed → e.status ≢ running
not_running e h k = cc

module _ {S : Type 0} (env : Env S) (works : (n : ℕ) → env.fault n ≡ none) where
  Closed-finished :
      (id : ℕ) (e : Ending) (u : Run S)
      → Current env id u
      → e.status ≡ completed
      → Closed (finish_run env (finish_params env e u.rt) u).1.db.runs
  unfolding finish_run
  Closed-finished id e u (r, h) done =
      rw (works u.tick)
        (closed id (env.now u.tick) (finish_params env e u.rt) u.db.runs r (not_running e done) h)

  finish_all-Closed :
      (id : ℕ) (end : Option (Ending × Run S)) (t : Run S)
      → ((e : Ending) (u : Run S) → end ≡ some (e, u) → Ended env id e u)
      → finish_all env end ≡ some (none, t)
      → Closed t.db.runs
  finish_all-Closed id none t h eq = absurd (cc)
  finish_all-Closed id (some (e, u)) t h eq =
      let (clean, same) = some_run eq in
      let (current, status) = h e u refl in
      subst (λ (x : Run S). Closed x.db.runs) same (Closed-finished id e u current (status clean))

  Only-start_run :
      (mode : SyncMode) (nsu : ℕ) (s : Run S) (id : ℕ)
      → (start_run env mode nsu s).0 ≡ ok id
      → Only id (start_run env mode nsu s).1.db.runs
  unfolding start_run
  Only-start_run mode nsu s id got =
      let same : env.new_id s.tick ≡ id =
        ok-injective (rw (works s.tick, works (s.tick + 1)) at got) in
      rw (works s.tick, works (s.tick + 1))
        ((λ r. same), Only-interrupt_run id (env.now s.tick) s.db.runs)

  -- The run that starts is the one that is running.
  set_up-Current :
      (mode : SyncMode) (s : Run S) (cursor : ℕ)
      → (set_up env mode s).0 ≡ ok cursor
      → (id : ℕ) × Current env id (set_up env mode s).1
  set_up-Current mode s =
      let Q =
        λ (r : Result ℕ) (t : Run S). (cursor : ℕ) → r ≡ ok cursor → (id : ℕ) × Current env id t in
      bind_rule Q (on_error (wrap "failed to load sync state") (get_or_create_state env)) _ s
        (λ e bad cursor got. absurd (cc))
        λ st loaded.
          bind_rule Q (on_error (wrap "failed to load source state") (source_state env)) _ _
            (λ e bad cursor got. absurd (cc))
            λ source read.
              bind_rule Q
                (on_error (wrap "failed to create sync run")
                  (start_run env mode st.last_processed_nsu))
                _ _ (λ e bad cursor got. absurd (cc))
                λ id started. λ cursor got. (
                  id,
                  (
                    refl,
                    Only-start_run mode st.last_processed_nsu _ id
                        (unlabelled (wrap "failed to create sync run") _ started),
                  ),
                )

  after_set_up-Closed :
      (fuel : ℕ) (x : Result ℕ) (u t : Run S)
      → ((cursor : ℕ) → x ≡ ok cursor → (id : ℕ) × Current env id u)
      → after_set_up env fuel x u ≡ some (none, t)
      → Closed t.db.runs
  after_set_up-Closed fuel (fail e) u t h eq = absurd (cc)
  after_set_up-Closed fuel (ok cursor) u t h eq =
      let (id, current) = h cursor refl in
      finish_all-Closed id (rounds env fuel cursor u) t
        (λ e v ended. rounds-Ended env id fuel cursor u e v current ended) eq

-- With a database that works, a run that ends without an error leaves no row of sync_runs running: it
-- interrupts those it finds and completes its own.
pub sync-Closed :
    {S : Type 0} (env : Env S) (fuel : ℕ) (mode : SyncMode) (s t : Run S)
    → ((n : ℕ) → env.fault n ≡ none)
    → sync env fuel mode s ≡ some (none, t)
    → Closed t.db.runs
unfolding sync
sync-Closed env fuel mode s t works eq =
    after_set_up-Closed env works fuel (set_up env mode s).0 (set_up env mode s).1 t
      (set_up-Current env works mode s) eq

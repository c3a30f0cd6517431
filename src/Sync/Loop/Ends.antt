-- ===== src/Sync/Loop/Ends.antt =====
-- The loop ends: enough fuel is given by a bound on the cursors that the source answers.
use nanci.Prelude.{
  ℕ, zero, suc, ◌+◌, ◌≤◌, ◌<◌, ◌≡◌, refl, inl, inr, Bool, true, false, Option, some, arith, leb,
  Bool-cases,
}
use nanci.Sync.Error.{Err}
use nanci.Sync.Types.{Batch, SyncMode}
use nanci.Sync.Env.{Env, Run, Result, ok, fail, ok-injective, fail-ne-ok, advance, pure}
use nanci.Sync.Budget.{spend_request}
use nanci.Sync.Batch.{
  process_batch, fetch_batch, record_wait, process_items, checkpoint_batch, complete_initial_sync,
}
use nanci.Sync.Batch.Stages.{bind_rule, fetch_batch-fetch}
use nanci.Sync.Loop.{
  Ending, Round, stop, next, round, rounds, go_on, sync, set_up, after_set_up, after_batch,
  after_budget, finished,
}

module _ {S : Type 0} (env : Env S) (top : ℕ)
    (bounded : (n cursor : ℕ) (batch : Batch)
      → env.fetch n cursor ≡ ok batch
      → batch.next_cursor ≤ top) where
  abbrev AtMost : Result Batch → Run S → Type 0
  AtMost r t = (batch : Batch) → r ≡ ok batch → batch.next_cursor ≤ top

  process_batch-AtMost :
      (cursor : ℕ) (s : Run S)
      → AtMost (process_batch env cursor s).0 (process_batch env cursor s).1
  unfolding process_batch
  process_batch-AtMost cursor s =
      bind_rule AtMost (fetch_batch env cursor) _ s (λ e bad b same. absurd (fail-ne-ok same))
        λ batch got.
          let le = bounded s.tick cursor batch (fetch_batch-fetch env cursor s batch got) in
          bind_rule AtMost (record_wait env batch) _ (fetch_batch env cursor s).1
            (λ e bad b same. absurd (fail-ne-ok same))
            λ u waited.
              bind_rule AtMost (process_items env cursor batch.items false) _ _
                (λ e bad b same. absurd (fail-ne-ok same))
                λ any finished.
                  bind_rule AtMost (checkpoint_batch env batch any) _ _
                    (λ e bad b same. absurd (fail-ne-ok same))
                    λ v closed.
                      bind_rule AtMost (complete_initial_sync env batch) (λ _. pure batch) _
                        (λ e bad b same. absurd (fail-ne-ok same))
                        λ w completed b same. rw (← (ok-injective same)) le

  -- A round that goes on goes forward, and stays at or below the bound.
  abbrev IsForward : ℕ → Round → Type 0
  IsForward cursor (stop e) = Unit
  IsForward cursor (next c) = (cursor < c) × (c ≤ top)

  after_batch-IsForward :
      (cursor : ℕ) (r : Result Batch) (t : Run S)
      → AtMost r t
      → IsForward cursor (after_batch env cursor r t).0
  after_batch-IsForward cursor (fail e) t le = tt
  after_batch-IsForward cursor (ok batch) t le = elim (Bool-cases batch.done) [
    | inl e ↦ rw e tt
    | inr e ↦ elim (Bool-cases (leb batch.next_cursor cursor)) [
      | inl f ↦ rw (e, f) tt
      | inr f ↦ elim (Bool-cases (env.done t.tick)) [
        | inl g ↦ rw (e, f, g) tt
        | inr g ↦ rw (e, f, g) (ground arith, le batch refl)
      ]
    ]
  ]

  after_budget-IsForward :
      (cursor : ℕ) (r : Result Bool) (t : Run S) → IsForward cursor (after_budget env cursor r t).0
  after_budget-IsForward cursor (fail e) t = tt
  after_budget-IsForward cursor (ok false) t = tt
  after_budget-IsForward cursor (ok true) t =
      after_batch-IsForward cursor (process_batch env cursor t).0 (process_batch env cursor t).1
        (process_batch-AtMost cursor t)

  round-IsForward : (cursor : ℕ) (s : Run S) → IsForward cursor (round env cursor s).0
  unfolding round
  round-IsForward cursor s = elim (Bool-cases (env.done s.tick)) [
    | inl e ↦ rw e tt
    | inr e ↦ rw e (
        after_budget-IsForward cursor (spend_request env env.requests_per_hour (advance s)).0
          (spend_request env env.requests_per_hour (advance s)).1)
  ]

  go_on_total :
      (fuel cursor : ℕ) (r : Round) (u : Run S)
      → ((c : ℕ)
          → 0 < fuel
          → top < c + fuel
          → (x : Ending × Run S) × (rounds env fuel c u ≡ some x))
      → top < cursor + suc fuel
      → IsForward cursor r
      → (x : Ending × Run S) × (go_on env r u (rounds env fuel) ≡ some x)
  go_on_total fuel cursor (stop e) u ih h forward = ((e, u), refl)
  go_on_total fuel cursor (next c) u ih h forward = ih c (omega arith) (omega arith)

  rounds_total :
      (fuel cursor : ℕ) (s : Run S)
      → 0 < fuel
      → top < cursor + fuel
      → (x : Ending × Run S) × (rounds env fuel cursor s ≡ some x)
  unfolding rounds
  rounds_total zero cursor s pos h = elim pos [ ]
  rounds_total (suc fuel) cursor s pos h =
      go_on_total fuel cursor (round env cursor s).0 (round env cursor s).1
        (λ c. rounds_total fuel c (round env cursor s).1) h (round-IsForward cursor s)

  after_set_up_total :
      (fuel : ℕ) (r : Result ℕ) (u : Run S)
      → top < fuel
      → (x : Option Err × Run S) × (after_set_up env fuel r u ≡ some x)
  after_set_up_total fuel (fail e) u h = ((some e, u), refl)
  after_set_up_total fuel (ok cursor) u h =
      let (x, ended) = rounds_total fuel cursor u (omega arith) (omega arith) in
      (finished env x, rw ended)

  -- Sync ends: if no answer names a next cursor above `top`, as with 63-bit NSUs, then more rounds
  -- than `top` are enough.
  pub sync_total :
      (fuel : ℕ) (mode : SyncMode) (s : Run S)
      → top < fuel
      → (x : Option Err × Run S) × (sync env fuel mode s ≡ some x)
  unfolding sync
  sync_total fuel mode s h = after_set_up_total fuel (set_up env mode s).0 (set_up env mode s).1 h

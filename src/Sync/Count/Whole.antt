-- ===== src/Sync/Count/Whole.antt =====
-- The counts at the end of a run.
use nanci.Prelude.{
  ℕ, zero, suc, ◌≡◌, refl, inl, inr, Bool, true, false, Option, none, some, arith, leb, Bool-cases,
}
use mathlib.Core.Path.{subst}
use nanci.Sync.Error.{Err, wrap, persist_failure}
use nanci.Sync.Types.{Batch, SyncMode}
use nanci.Sync.Env.{Env, Run, Result, ok, fail, advance, on_error}
use nanci.Sync.Store.{get_or_create_state, source_state, start_run, finish_run}
use nanci.Sync.Budget.{spend_request}
use nanci.Sync.Budget.Limit.{spend_request-frame}
use nanci.Sync.Batch.{process_batch}
use nanci.Sync.Batch.Stages.{bind_rule}
use nanci.Sync.Count.{Accounted, KeptCount, process_batch-Accounted}
use nanci.Sync.Loop.{
  Ending, Round, stop, next, round, rounds, go_on, sync, set_up, after_set_up, after_batch,
  after_budget, finish_all, finish_params, ended_by,
}

pub some_run :
    {S A : Type 0} {d e : A} {u t : Run S}
    → ◌≡◌ {A = Option (A × Run S)} (some (d, u)) (some (e, t))
    → (d ≡ e) × (u ≡ t)
some_run h = (cc, cc)

module _ {S : Type 0} (env : Env S) where
  -- what holds where a round stops without an error, and where it goes on
  abbrev KeptRound : Round → Run S → Type 0
  KeptRound (stop e) t = e.returned ≡ none → Accounted t.rt
  KeptRound (next c) t = Accounted t.rt

  returned-ended_by : (e : Err) {A : Type 0} → (ended_by e).returned ≡ none → A
  unfolding ended_by
  returned-ended_by e h = absurd (cc)

  after_batch-Kept :
      (cursor : ℕ) (r : Result Batch) (t : Run S)
      → KeptCount env r t
      → KeptRound (after_batch env cursor r t).0 (after_batch env cursor r t).1
  after_batch-Kept cursor (fail e) t h = λ n. returned-ended_by e n
  after_batch-Kept cursor (ok batch) t h = elim (Bool-cases batch.done) [
    | inl d ↦ rw d (λ n. h)
    | inr d ↦ elim (Bool-cases (leb batch.next_cursor cursor)) [
      | inl l ↦ rw (d, l) (λ n. h)
      | inr l ↦ elim (Bool-cases (env.done t.tick)) [
        | inl c ↦ rw (d, l, c) (λ n. absurd (cc))
        | inr c ↦ rw (d, l, c) h
      ]
    ]
  ]

  after_budget-Kept :
      (cursor : ℕ) (r : Result Bool) (t : Run S)
      → Accounted t.rt
      → KeptRound (after_budget env cursor r t).0 (after_budget env cursor r t).1
  after_budget-Kept cursor (fail e) t h = λ n. returned-ended_by (persist_failure e) n
  after_budget-Kept cursor (ok false) t h = λ n. h
  after_budget-Kept cursor (ok true) t h =
      after_batch-Kept cursor (process_batch env cursor t).0 (process_batch env cursor t).1
        (process_batch-Accounted env cursor t h)

  round-Kept :
      (cursor : ℕ) (s : Run S)
      → Accounted s.rt
      → KeptRound (round env cursor s).0 (round env cursor s).1
  unfolding round
  round-Kept cursor s h = elim (Bool-cases (env.done s.tick)) [
    | inl e ↦ rw e (λ n. absurd (cc))
    | inr e ↦
        let x = spend_request env env.requests_per_hour (advance s) in
        let same = (spend_request-frame env env.requests_per_hour (advance s)).2 in
        rw e (after_budget-Kept cursor x.0 x.1 (rw same h))
  ]

  go_on-Kept :
      (again : ℕ → Run S → Option (Ending × Run S)) {e : Ending} {t : Run S}
      → ((c : ℕ) (u : Run S)
          → Accounted u.rt
          → again c u ≡ some (e, t)
          → e.returned ≡ none
          → Accounted t.rt)
      → (r : Round) (u : Run S) → KeptRound r u
      → go_on env r u again ≡ some (e, t)
      → e.returned ≡ none
      → Accounted t.rt
  go_on-Kept again ih (stop d) u h eq n =
      let (same_end, same) = some_run eq in
      subst (λ x. Accounted x.rt) same (h (rw (← same_end) at n))
  go_on-Kept again ih (next c) u h eq n = ih c u h eq n

  rounds-Accounted :
      (fuel cursor : ℕ) (s : Run S) {e : Ending} {t : Run S}
      → Accounted s.rt
      → rounds env fuel cursor s ≡ some (e, t)
      → e.returned ≡ none
      → Accounted t.rt
  unfolding rounds
  rounds-Accounted zero cursor s h eq n = absurd (cc)
  rounds-Accounted (suc fuel) cursor s h eq n =
      go_on-Kept (rounds env fuel) (λ c u a again m. rounds-Accounted fuel c u a again m)
        (round env cursor s).0 (round env cursor s).1 (round-Kept cursor s h) eq n

  rt-finish_run :
      (e : Ending) (u : Run S) → (finish_run env (finish_params env e u.rt) u).1.rt ≡ u.rt
  unfolding finish_run
  rt-finish_run e u = ground arith

  finish_all-Accounted :
      (end : Option (Ending × Run S)) (t : Run S)
      → ((e : Ending) (u : Run S) → end ≡ some (e, u) → e.returned ≡ none → Accounted u.rt)
      → finish_all env end ≡ some (none, t)
      → Accounted t.rt
  finish_all-Accounted none t h eq = absurd (cc)
  finish_all-Accounted (some (e, u)) t h eq =
      let (clean, same) = some_run eq in
      subst (λ x. Accounted x.rt) same (rw (rt-finish_run e u) (h e u refl clean))

  -- the run state of a run that starts counts nothing
  set_up-Accounted :
      (mode : SyncMode) (s : Run S) (cursor : ℕ)
      → (set_up env mode s).0 ≡ ok cursor
      → Accounted (set_up env mode s).1.rt
  set_up-Accounted mode s =
      let Q = λ (r : Result ℕ) (t : Run S). (cursor : ℕ) → r ≡ ok cursor → Accounted t.rt in
      bind_rule Q (on_error (wrap "failed to load sync state") (get_or_create_state env)) _ s
        (λ e bad cursor got. absurd (cc))
        λ st loaded.
          bind_rule Q (on_error (wrap "failed to load source state") (source_state env)) _ _
            (λ e bad cursor got. absurd (cc))
            λ source read.
              bind_rule Q
                (on_error (wrap "failed to create sync run")
                  (start_run env mode st.last_processed_nsu))
                _ _ (λ e bad cursor got. absurd (cc)) λ id started. λ cursor got. refl

  after_set_up-Accounted :
      (fuel : ℕ) (x : Result ℕ) (u t : Run S)
      → ((cursor : ℕ) → x ≡ ok cursor → Accounted u.rt)
      → after_set_up env fuel x u ≡ some (none, t)
      → Accounted t.rt
  after_set_up-Accounted fuel (fail e) u t h eq = absurd (cc)
  after_set_up-Accounted fuel (ok cursor) u t h eq =
      finish_all-Accounted (rounds env fuel cursor u) t
        (λ e v ended n. rounds-Accounted fuel cursor u (h cursor refl) ended n) eq

  -- When a run ends without an error, every item that the source returned is counted exactly once: as
  -- stale, duplicate, skipped by policy, unsupported, or inserted.
  pub sync-Accounted :
      (fuel : ℕ) (mode : SyncMode) (s t : Run S)
      → sync env fuel mode s ≡ some (none, t)
      → Accounted t.rt
  unfolding sync
  sync-Accounted fuel mode s t eq =
      after_set_up-Accounted fuel (set_up env mode s).0 (set_up env mode s).1 t
        (set_up-Accounted mode s) eq

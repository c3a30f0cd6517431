-- ===== src/Sync/Closing/Rounds.antt =====
-- The row of the current run over the rounds of internal/sync/loop.go.
use nanci.Prelude.{
  ℕ, zero, suc, ◌≡◌, ◌≢◌, refl, sym, ◌∙◌, inl, inr, Bool, true, false, List, [], ◌∷◌, map, Option,
  none, some, arith, leb, ◌==◌, All, Bool-cases, ==_iff,
}
use mathlib.Core.Path.{subst}
use nanci.Sync.Error.{Err, running, completed, persist_failure}
use nanci.Sync.Types.{Batch, SyncRun}
use nanci.Sync.Env.{Env, Run, Result, ok, fail, advance}
use nanci.Sync.Rows.{finish_row, Finish}
use nanci.Sync.Budget.{spend_request}
use nanci.Sync.Batch.{process_batch}
use nanci.Sync.Count.Whole.{some_run}
use nanci.Sync.Closing.{Only, Current}
use nanci.Sync.Closing.OneBatch.{Current-process_batch}
use nanci.Sync.Loop.{
  Ending, Round, stop, next, round, rounds, go_on, after_batch, after_budget, ended_by,
}

-- finishRun closes the run `id` with a status that is not running.
pub closed :
    (id now : ℕ) (p : Finish) (runs : List SyncRun)
    → p.run_id ≡ id
    → p.status ≢ running
    → Only id runs
    → All (λ (run : SyncRun). run.status ≢ running) (map (finish_row now p) runs)
unfolding finish_row
closed id now p [] same other h = tt
closed id now p (run ∷ runs) same other (k, h) = elim (Bool-cases (run.id == p.run_id)) [
  | inl e ↦ rw e (other, closed id now p runs same other h)
  | inr e ↦ rw e (
    (λ r. cc (e, (==_iff run.id p.run_id).1 (k r ∙ sym same))),
    closed id now p runs same other h,
  )
]

module _ {S : Type 0} (env : Env S) (id : ℕ) where
  runs-spend_request :
      (limit : ℕ) (s : Run S)
      → ((spend_request env limit s).1.db.runs ≡ s.db.runs)
        × ((spend_request env limit s).1.rt ≡ s.rt)
  unfolding spend_request
  runs-spend_request limit s = ground arith

  Current-spend_request :
      (limit : ℕ) (s : Run S) → Current env id s → Current env id (spend_request env limit s).1
  Current-spend_request limit s (r, h) =
      let (runs, rt) = runs-spend_request limit s in (rw rt r, rw runs h)

  -- what holds where a round stops, and where it goes on
  abbrev KeptRound : Round → Run S → Type 0
  KeptRound (stop e) t = Current env id t × (e.returned ≡ none → e.status ≡ completed)
  KeptRound (next c) t = Current env id t

  status-ended_by : (e : Err) → (ended_by e).returned ≡ none → (ended_by e).status ≡ completed
  unfolding ended_by
  status-ended_by e h = absurd (cc)

  after_batch-Kept :
      (cursor : ℕ) (r : Result Batch) (t : Run S)
      → Current env id t
      → KeptRound (after_batch env cursor r t).0 (after_batch env cursor r t).1
  after_batch-Kept cursor (fail e) t h = (h, status-ended_by e)
  after_batch-Kept cursor (ok batch) t h = elim (Bool-cases batch.done) [
    | inl d ↦ rw d (h, λ n. refl)
    | inr d ↦ elim (Bool-cases (leb batch.next_cursor cursor)) [
      | inl l ↦ rw (d, l) (h, λ n. refl)
      | inr l ↦ elim (Bool-cases (env.done t.tick)) [
        | inl c ↦ rw (d, l, c) (h, λ n. absurd (cc))
        | inr c ↦ rw (d, l, c) h
      ]
    ]
  ]

  after_budget-Kept :
      (cursor : ℕ) (r : Result Bool) (t : Run S)
      → Current env id t
      → KeptRound (after_budget env cursor r t).0 (after_budget env cursor r t).1
  after_budget-Kept cursor (fail e) t h = (h, status-ended_by (persist_failure e))
  after_budget-Kept cursor (ok false) t h = (h, λ n. refl)
  after_budget-Kept cursor (ok true) t h =
      after_batch-Kept cursor (process_batch env cursor t).0 (process_batch env cursor t).1
        (Current-process_batch env id cursor t h)

  round-Kept :
      (cursor : ℕ) (s : Run S)
      → Current env id s
      → KeptRound (round env cursor s).0 (round env cursor s).1
  unfolding round
  round-Kept cursor s h = elim (Bool-cases (env.done s.tick)) [
    | inl e ↦ rw e (h, λ n. absurd (cc))
    | inr e ↦
        let x = spend_request env env.requests_per_hour (advance s) in
        rw e (
          after_budget-Kept cursor x.0 x.1
            (Current-spend_request env.requests_per_hour (advance s) h))
  ]

  -- the end of the rounds
  abbrev pub Ended : Ending → Run S → Type 0
  Ended e t = Current env id t × (e.returned ≡ none → e.status ≡ completed)

  go_on-Ended :
      (again : ℕ → Run S → Option (Ending × Run S)) (e : Ending) (t : Run S)
      → ((c : ℕ) (u : Run S) → Current env id u → again c u ≡ some (e, t) → Ended e t)
      → (r : Round) (u : Run S) → KeptRound r u
      → go_on env r u again ≡ some (e, t)
      → Ended e t
  go_on-Ended again e t ih (stop d) u h eq =
      let (same_end, same) = some_run eq in
      subst (λ x. Ended x t) same_end (subst (λ x. Ended d x) same h)
  go_on-Ended again e t ih (next c) u h eq = ih c u h eq

  pub rounds-Ended :
      (fuel cursor : ℕ) (s : Run S) (e : Ending) (t : Run S)
      → Current env id s
      → rounds env fuel cursor s ≡ some (e, t)
      → Ended e t
  unfolding rounds
  rounds-Ended zero cursor s e t h eq = absurd (cc)
  rounds-Ended (suc fuel) cursor s e t h eq =
      go_on-Ended (rounds env fuel) e t (λ c u a again. rounds-Ended fuel c u e t a again)
        (round env cursor s).0 (round env cursor s).1 (round-Kept cursor s h) eq

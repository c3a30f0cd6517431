-- ===== src/Sync/Cover/Rounds.antt =====
-- What the rounds of internal/sync/loop.go leave covered.
use nanci.Prelude.{
  ℕ, zero, suc, ◌≡◌, refl, inl, inr, Bool, true, false, Option, some, leb, Bool-cases,
}
use mathlib.Core.Path.{subst}
use nanci.Sync.Types.{Item, Batch}
use nanci.Sync.Env.{Env, Run, Result, ok, fail, advance}
use nanci.Sync.Batch.{process_batch}
use nanci.Sync.Budget.{spend_request}
use nanci.Sync.Budget.Limit.{spend_request-frame}
use nanci.Sync.Loop.{Ending, Round, stop, next, after_batch, after_budget, round, rounds, go_on}
use nanci.Sync.Cover.{IsFeed, Covers, IsCovered}
use nanci.Sync.Cover.OneBatch.{BatchDone, process_batch-BatchDone}

pub same_start : {a b : ℕ} → ◌≡◌ {A = Result ℕ} (ok a) (ok b) → a ≡ b
same_start e = cc

same_cursor : {a b : ℕ} → next a ≡ next b → a ≡ b
same_cursor e = cc

pub same_run :
    {S A : Type 0} {d e : A} {u t : Run S}
    → ◌≡◌ {A = Option (A × Run S)} (some (d, u)) (some (e, t))
    → u ≡ t
same_run h = cc

module _ {S : Type 0} (env : Env S) (Feed : Item → Type 0) (Seen : S → Item → Type 0)
    (feed : IsFeed env Feed Seen) where
  -- what spendRequest leaves alone
  spend_request-IsCovered :
      (limit : ℕ) (s : Run S)
      → IsCovered env Feed Seen s
      → IsCovered env Feed Seen (spend_request env limit s).1
  spend_request-IsCovered limit s inv =
      let (state, content, rt) = spend_request-frame env limit s in
      record {
        in_memory = rw (content, rt) inv.in_memory;
        persisted = rw (content, state) inv.persisted;
      }

  -- what a pass of the loop leaves: the cursors covered, and the next cursor too
  record RoundDone (r : Round) (t : Run S) : Type 0 where
    inv : IsCovered env Feed Seen t
    on : (cursor : ℕ) → r ≡ next cursor → Covers env Feed Seen t.db.content cursor

  stopped_round : (e : Ending) (t : Run S) → IsCovered env Feed Seen t → RoundDone (stop e) t
  stopped_round e t inv = record { inv = inv; on = λ cursor bad. absurd (cc) }

  Still-tick : (s : Run S) → IsCovered env Feed Seen s → IsCovered env Feed Seen (advance s)
  Still-tick s inv = record { in_memory = inv.in_memory; persisted = inv.persisted }

  after_batch-RoundDone :
      (cursor : ℕ) (r : Result Batch) (t : Run S)
      → BatchDone env Feed Seen feed r t
      → RoundDone (after_batch env cursor r t).0 (after_batch env cursor r t).1
  after_batch-RoundDone cursor (fail e) t done = stopped_round _ t done.inv
  after_batch-RoundDone cursor (ok batch) t done = elim (Bool-cases batch.done) [
    | inl e ↦ rw e (stopped_round _ t done.inv)
    | inr e ↦ elim (Bool-cases (leb batch.next_cursor cursor)) [
      | inl f ↦ rw (e, f) (stopped_round _ t done.inv)
      | inr f ↦ elim (Bool-cases (env.done t.tick)) [
        | inl g ↦ rw (e, f, g) (stopped_round _ _ (Still-tick t done.inv))
        | inr g ↦
            rw (e, f, g)
              (record {
                inv = Still-tick t done.inv;
                on = λ c same. rw (← (same_cursor same)) (done.all batch refl);
              })
      ]
    ]
  ]

  after_budget-RoundDone :
      (cursor : ℕ) (r : Result Bool) (t : Run S)
      → IsCovered env Feed Seen t
      → Covers env Feed Seen t.db.content cursor
      → RoundDone (after_budget env cursor r t).0 (after_budget env cursor r t).1
  after_budget-RoundDone cursor (fail e) t inv behind = stopped_round _ t inv
  after_budget-RoundDone cursor (ok false) t inv behind = stopped_round _ t inv
  after_budget-RoundDone cursor (ok true) t inv behind =
      after_batch-RoundDone cursor (process_batch env cursor t).0 (process_batch env cursor t).1
        (process_batch-BatchDone env Feed Seen feed cursor t inv behind)

  round-RoundDone :
      (cursor : ℕ) (s : Run S)
      → IsCovered env Feed Seen s
      → Covers env Feed Seen s.db.content cursor
      → RoundDone (round env cursor s).0 (round env cursor s).1
  unfolding round
  round-RoundDone cursor s inv behind = elim (Bool-cases (env.done s.tick)) [
    | inl e ↦ rw e (stopped_round _ _ (Still-tick s inv))
    | inr e ↦
        let (state, content, rt) = spend_request-frame env env.requests_per_hour (advance s) in
        rw e (
          after_budget-RoundDone cursor (spend_request env env.requests_per_hour (advance s)).0
            (spend_request env env.requests_per_hour (advance s)).1
            (spend_request-IsCovered env.requests_per_hour (advance s) (Still-tick s inv))
            (rw content behind))
  ]

  go_on-IsCovered :
      (again : ℕ → Run S → Option (Ending × Run S)) {e : Ending} {t : Run S}
      → ((cursor : ℕ) (u : Run S)
          → IsCovered env Feed Seen u
          → Covers env Feed Seen u.db.content cursor
          → again cursor u ≡ some (e, t)
          → IsCovered env Feed Seen t)
      → (r : Round) (u : Run S) → RoundDone r u
      → go_on env r u again ≡ some (e, t)
      → IsCovered env Feed Seen t
  go_on-IsCovered again ih (stop d) u done h = subst (IsCovered env Feed Seen) (same_run h) done.inv
  go_on-IsCovered again ih (next cursor) u done h = ih cursor u done.inv (done.on cursor refl) h

  pub rounds-IsCovered :
      (fuel cursor : ℕ) (s : Run S) {e : Ending} {t : Run S}
      → IsCovered env Feed Seen s
      → Covers env Feed Seen s.db.content cursor
      → rounds env fuel cursor s ≡ some (e, t)
      → IsCovered env Feed Seen t
  unfolding rounds
  rounds-IsCovered zero cursor s inv behind h = absurd (cc)
  rounds-IsCovered (suc fuel) cursor s inv behind h =
      go_on-IsCovered (rounds env fuel) (λ c u i b eq. rounds-IsCovered fuel c u i b eq)
        (round env cursor s).0 (round env cursor s).1 (round-RoundDone cursor s inv behind) h

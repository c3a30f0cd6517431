-- ===== src/Sync/Loop/Requests.antt =====
-- The requests over a whole run: only spendRequest writes the log, and only processBatch calls the
-- service.
use nanci.Prelude.{
  ℕ, zero, suc, ◌-◌, ◌*◌, length, sym, ◌<◌, ◌≡◌, refl, ◌∙◌, ap, inl, inr, Bool, true, false, List,
  [], ◌∷◌, Option, none, some, arith, leb, Bool-cases,
}
use mathlib.Core.Path.{subst}
use nanci.Sync.Error.{Err, wrap}
use nanci.Sync.Types.{Item, Batch, SyncMode}
use nanci.Sync.Env.{Env, Traffic, Db, on_error, Run, Result, ok, fail, advance, with_rt, pure}
use nanci.Sync.Store.{get_or_create_state, source_state, start_run}
use nanci.Sync.Store.Start.{
  requests-get_or_create_state, source_state-frame, start_run-frame, finish_run-frame,
}
use nanci.Sync.Budget.{spend_request}
use nanci.Sync.Rows.{hour, requests_from}
use nanci.Sync.Budget.Limit.{
  IsWithinBudget, Answered, spend_request-Answered, spend_request-later, record_IsWithinBudget,
}
use nanci.Sync.Item.{process_item}
use nanci.Sync.Item.Effect.{Processed, settled, given_up, stopped, process_item-Processed}
use nanci.Sync.Batch.{
  process_batch, fetch_batch, record_wait, process_items, checkpoint_batch, complete_initial_sync,
  skip_stale,
}
use nanci.Sync.Batch.Stages.{
  bind_rule, fetch_batch-sent, requests-record_wait, requests-complete_initial_sync,
  checkpoint_batch-Closed,
}
use nanci.Sync.Loop.{
  Ending, Round, stop, next, round, rounds, go_on, sync, set_up, after_set_up, after_batch,
  after_budget, finish_all, finish_params,
}

same_run :
    {S A : Type 0} {d e : A} {u t : Run S}
    → ◌≡◌ {A = Option (A × Run S)} (some (d, u)) (some (e, t))
    → u ≡ t
same_run h = cc

module _ {S : Type 0} (env : Env S) where
  requests-Processed :
      (item : Item) (s : Run S) {r : Result (Unit {0})} {t : Run S}
      → Processed env item s r t
      → t.db.requests ≡ s.db.requests
  requests-Processed item s (settled _ _ _ _ _ _ requests _) = requests
  requests-Processed item s (given_up _ _ _ _ _ requests _) = requests
  requests-Processed item s (stopped _ _ _ requests _) = requests

  requests-process_items :
      (cursor : ℕ) (items : List Item) (any : Bool) (s : Run S)
      → (process_items env cursor items any s).1.db.requests ≡ s.db.requests
  unfolding process_items
  requests-process_items cursor [] any s = refl
  requests-process_items cursor (item ∷ items) any s = elim (Bool-cases (leb item.nsu cursor)) [
    | inl stale ↦ rw stale (requests-process_items cursor items any (with_rt s (skip_stale s.rt)))
    | inr fresh ↦
        let one = requests-Processed item s (process_item-Processed env item s) in
        rw fresh (
          bind_rule (λ r t. t.db.requests ≡ s.db.requests) (process_item env item)
            (λ _. process_items env cursor items true) s (λ e bad. one)
            λ u good. requests-process_items cursor items true (process_item env item s).1 ∙ one)
  ]

  requests-process_batch :
      (cursor : ℕ) (s : Run S)
      → (process_batch env cursor s).1.db.requests
        ≡ record (s.db.requests) { sent = s.tick ∷ s.db.requests.sent }
  unfolding process_batch
  requests-process_batch cursor s =
      let Sent = λ (r : Result Batch) (t : Run S).
        t.db.requests ≡ record (s.db.requests) { sent = s.tick ∷ s.db.requests.sent } in
      let one = fetch_batch-sent env cursor s in
      bind_rule Sent (fetch_batch env cursor) _ s (λ e bad. one)
        λ batch got.
          let two = requests-record_wait env batch _ ∙ one in
          bind_rule Sent (record_wait env batch) _ _ (λ e bad. two)
            λ u waited.
              let three = requests-process_items cursor batch.items false _ ∙ two in
              bind_rule Sent (process_items env cursor batch.items false) _ _ (λ e bad. three)
                λ any finished.
                  let four = (checkpoint_batch-Closed env batch any _).requests ∙ three in
                  bind_rule Sent (checkpoint_batch env batch any) _ _ (λ e bad. four)
                    λ v closed.
                      let five = requests-complete_initial_sync env batch _ ∙ four in
                      bind_rule Sent (complete_initial_sync env batch) (λ _. pure batch) _
                        (λ e bad. five) λ w completed. five

-- the log with a request at the time `now`, and without those of more than a day before
abbrev pub logged : ℕ → Traffic → Traffic
logged now a = record a { log = requests_from (now - 24 * hour) (now ∷ a.log) }

module _ {S : Type 0} (env : Env S) (limit : ℕ) where
  -- the hour before the call `m` has room for a request
  abbrev pub HasRoom : ℕ → Traffic → Type 0
  HasRoom m a = length (requests_from (env.now m - hour) a.log) < limit

  -- What one turn of the loop does to the requests. A request goes to the service only after a row
  -- of its own was logged, at an earlier call `m` at which the hour before had room for it.
  pub data Turn (a : Traffic) : Traffic → Type 0 where
    idle : Turn a a
    unsent : (m : ℕ) → HasRoom m a → Turn a (logged (env.now m) a)
    sent :
        (m n : ℕ)
        → HasRoom m a
        → m < n
        → Turn a (record (logged (env.now m) a) { sent = n ∷ a.sent })

  -- The turns of a run, one after the other.
  pub data Paid : Traffic → Traffic → Type 0 where
    paid_nothing : {a : Traffic} → Paid a a
    paid_first : {a b c : Traffic} → Turn a b → Paid b c → Paid a c

module _ {S : Type 0} (env : Env S) (limit : 0 < env.requests_per_hour) where
  abbrev Turned : Run S → Run S → Type 0
  Turned s t = Turn env env.requests_per_hour s.db.requests t.db.requests

  after_budget-Turn :
      (cursor : ℕ) (s : Run S) (r : Result Bool) (t : Run S)
      → Answered env env.requests_per_hour s (r, t)
      → (r ≡ ok true → s.tick < t.tick)
      → Turned s (after_budget env cursor r t).1
  after_budget-Turn cursor s (fail e) t same later =
      subst (λ (d : Db S). Turn env env.requests_per_hour s.db.requests d.requests) (sym same) idle
  after_budget-Turn cursor s (ok false) t refused later =
      subst (Turn env env.requests_per_hour s.db.requests) (sym (refused.unsent)) idle
  after_budget-Turn cursor s (ok true) t granted later =
      after (process_batch env cursor t).0 (process_batch env cursor t).1 (
        subst (Turn env env.requests_per_hour s.db.requests)
          (sym (
            requests-process_batch env cursor t
            ∙ ap (λ (a : Traffic). record a { sent = t.tick ∷ a.sent }) (granted.sent)))
          (sent s.tick t.tick (granted.room) (later refl)))
    where
      after : (r : Result Batch) (u : Run S) → Turned s u → Turned s (after_batch env cursor r u).1
      after (fail e) u h = h
      after (ok batch) u h = ground arith

  round-Turn : (cursor : ℕ) (s : Run S) → Turned s (round env cursor s).1
  unfolding round
  round-Turn cursor s = elim (Bool-cases (env.done s.tick)) [
    | inl e ↦ rw e idle
    | inr e ↦ rw e (
        after_budget-Turn cursor (advance s) (spend_request env env.requests_per_hour (advance s)).0
          (spend_request env env.requests_per_hour (advance s)).1
          (spend_request-Answered env env.requests_per_hour (advance s) limit)
          (spend_request-later env env.requests_per_hour (advance s) limit))
  ]

  abbrev PaidTo : Run S → Run S → Type 0
  PaidTo s t = Paid env env.requests_per_hour s.db.requests t.db.requests

  go_on-Paid :
      (again : ℕ → Run S → Option (Ending × Run S)) {e : Ending} {t : Run S}
      → ((cursor : ℕ) (u : Run S) → again cursor u ≡ some (e, t) → PaidTo u t)
      → (r : Round) (u : Run S) → go_on env r u again ≡ some (e, t)
      → PaidTo u t
  go_on-Paid again ih (stop d) u eq = subst (PaidTo u) (same_run eq) paid_nothing
  go_on-Paid again ih (next cursor) u eq = ih cursor u eq

  rounds-Paid :
      (fuel cursor : ℕ) (s : Run S) {e : Ending} {t : Run S}
      → rounds env fuel cursor s ≡ some (e, t)
      → PaidTo s t
  unfolding rounds
  rounds-Paid zero cursor s eq = absurd (cc)
  rounds-Paid (suc fuel) cursor s eq = paid_first (round-Turn cursor s) (
      go_on-Paid (rounds env fuel) (λ c u again. rounds-Paid fuel c u again) (round env cursor s).0
        (round env cursor s).1 eq)

  finish_all-Paid :
      (a : Traffic) (end : Option (Ending × Run S)) (t : Run S) {r : Option Err}
      → ((e : Ending) (u : Run S)
          → end ≡ some (e, u)
          → Paid env env.requests_per_hour a u.db.requests)
      → finish_all env end ≡ some (r, t)
      → Paid env env.requests_per_hour a t.db.requests
  finish_all-Paid a none t h eq = absurd (cc)
  finish_all-Paid a (some (e, u)) t h eq =
      let (state, content, requests) = finish_run-frame env (finish_params env e u.rt) u in
      subst (λ (v : Run S). Paid env env.requests_per_hour a v.db.requests) (same_run eq)
        (rw requests (h e u refl))

  after_set_up-Paid :
      (fuel : ℕ) (x : Result ℕ) (u t : Run S) {r : Option Err}
      → after_set_up env fuel x u ≡ some (r, t)
      → PaidTo u t
  after_set_up-Paid fuel (fail e) u t eq = subst (PaidTo u) (same_run eq) paid_nothing
  after_set_up-Paid fuel (ok cursor) u t eq =
      finish_all-Paid u.db.requests (rounds env fuel cursor u) t
        (λ e v ended. rounds-Paid fuel cursor u ended) eq

Turn-IsWithinBudget :
    {S : Type 0} (env : Env S) (limit : ℕ) {a b : Traffic}
    → Turn env limit a b
    → IsWithinBudget limit a.log
    → IsWithinBudget limit b.log
Turn-IsWithinBudget env limit idle h = h
Turn-IsWithinBudget env limit {a} (unsent m room) h = record_IsWithinBudget limit _ _ a.log room h
Turn-IsWithinBudget env limit {a} (sent m n room before) h =
    record_IsWithinBudget limit _ _ a.log room h

Paid-IsWithinBudget :
    {S : Type 0} (env : Env S) (limit : ℕ) {a b : Traffic}
    → Paid env limit a b
    → IsWithinBudget limit a.log
    → IsWithinBudget limit b.log
Paid-IsWithinBudget env limit paid_nothing h = h
Paid-IsWithinBudget env limit (paid_first one others) h =
    Paid-IsWithinBudget env limit others (Turn-IsWithinBudget env limit one h)

module _ {S : Type 0} (env : Env S) where
  requests-set_up :
      (mode : SyncMode) (s : Run S) → (set_up env mode s).1.db.requests ≡ s.db.requests
  requests-set_up mode s =
      let Same = λ (r : Result ℕ) (t : Run S). t.db.requests ≡ s.db.requests in
      let one = requests-get_or_create_state env s in
      bind_rule Same (on_error (wrap "failed to load sync state") (get_or_create_state env)) _ s
        (λ e bad. one)
        λ st loaded.
          let two = ap (λ (d : Db S). d.requests) (source_state-frame env _) ∙ one in
          bind_rule Same (on_error (wrap "failed to load source state") (source_state env)) _ _
            (λ e bad. two)
            λ source read.
              let (state, content, requests) = start_run-frame env mode st.last_processed_nsu _ in
              bind_rule Same
                (on_error (wrap "failed to create sync run")
                  (start_run env mode st.last_processed_nsu))
                _ _ (λ e bad. requests ∙ two) λ id started. requests ∙ two

  -- Let the source have a limit, and no hour hold more rows of the log than it before a run. Then,
  -- whatever the world does, every request of the run that reaches the service was paid for: by a
  -- row of its own, logged at an earlier call when the hour before held fewer rows than the limit.
  -- And no hour holds more rows than the limit after the run.
  pub sync-Paid :
      (fuel : ℕ) (mode : SyncMode) (s t : Run S) {r : Option Err}
      → 0 < env.requests_per_hour
      → IsWithinBudget env.requests_per_hour s.db.requests.log
      → sync env fuel mode s ≡ some (r, t)
      → Paid env env.requests_per_hour s.db.requests t.db.requests
        × IsWithinBudget env.requests_per_hour t.db.requests.log
  unfolding sync
  sync-Paid fuel mode s t limit h eq =
      let paid =
        subst (λ (a : Traffic). Paid env env.requests_per_hour a t.db.requests)
          (requests-set_up mode s)
          (after_set_up-Paid env limit fuel (set_up env mode s).0 (set_up env mode s).1 t eq) in
      (paid, Paid-IsWithinBudget env env.requests_per_hour paid h)

-- ===== src/Sync/Content.antt =====
-- A predicate on the content of a source that ProcessItem keeps, over a whole run of internal/sync/loop.go.
use nanci.Prelude.{
  ℕ, zero, suc, ◌≡◌, refl, sym, ap, inl, inr, Bool, true, false, List, [], ◌∷◌, Option, none, some,
  leb, Bool-cases,
}
use mathlib.Core.Path.{subst}
use nanci.Sync.Error.{Err, wrap}
use nanci.Sync.Types.{Item, ItemOutcome, Batch, SourceState, SyncMode}
use nanci.Sync.Env.{Env, Db, Run, Result, ok, fail, Write, with_rt, advance, on_error}
use nanci.Sync.Store.{get_or_create_state, source_state, start_run, finish_run}
use nanci.Sync.Store.Start.{
  content-get_or_create_state, source_state-frame, start_run-frame, finish_run-frame,
}
use nanci.Sync.Item.{process_item}
use nanci.Sync.Item.Effect.{Processed, settled, given_up, stopped, process_item-Processed}
use nanci.Sync.Batch.{
  skip_stale, fetch_batch, record_wait, process_items, checkpoint_batch, complete_initial_sync,
  process_batch,
}
use nanci.Sync.Batch.Stages.{
  bind_rule, fetch_batch-Still, record_wait-Still, checkpoint_batch-Closed,
  complete_initial_sync-Still,
}
use nanci.Sync.Budget.{spend_request}
use nanci.Sync.Budget.Limit.{spend_request-frame}
use nanci.Sync.Count.Whole.{some_run}
use nanci.Sync.Loop.{
  Ending, Round, stop, next, after_batch, after_budget, round, rounds, go_on, sync, set_up,
  after_set_up, finish_all, finish_params,
}

-- What ProcessItem keeps: before its commit, and by the write that it commits.
pub record Keeps {S : Type 0} (P : S → Type 0)
    (prepare : ℕ → SourceState → Item → S → Result (Write S) × S) : Type 0 where
  pub before :
      (n : ℕ) (source : SourceState) (item : Item) (c : S) → P c → P (prepare n source item c).1
  pub writes :
      (n : ℕ) (source : SourceState) (item : Item) (c : S) (write : Write S) (o : ItemOutcome)
      (c' : S)
      → P c
      → (prepare n source item c).0 ≡ ok write
      → write (prepare n source item c).1 ≡ ok (o, c')
      → P c'

module _ {S : Type 0} (env : Env S) (P : S → Type 0) (keeps : Keeps P env.prepare) where
  abbrev Holds : Run S → Type 0
  Holds s = P s.db.content

  holds : (s t : Run S) → t.db.content ≡ s.db.content → Holds s → Holds t
  holds s t same h = subst P (sym same) h

  Processed-Holds :
      (item : Item) (s : Run S) {r : Result (Unit {0})} {t : Run S}
      → Processed env item s r t
      → Holds s
      → Holds t
  Processed-Holds item s
        (settled {o = o} {content = content} write prepares writes same cursor source requests rt)
        h =
      subst P (sym same)
        (keeps.writes s.tick s.rt.source item s.db.content write o content h prepares writes)
  Processed-Holds item s (given_up src bad same cursor source requests rt) h =
      subst P (sym same) (keeps.before s.tick s.rt.source item s.db.content h)
  Processed-Holds item s (stopped same cursor source requests rt) h =
      subst P (sym same) (keeps.before s.tick s.rt.source item s.db.content h)

  process_items-Holds :
      (cursor : ℕ) (items : List Item) (any : Bool) (s : Run S)
      → Holds s
      → Holds (process_items env cursor items any s).1
  unfolding process_items
  process_items-Holds cursor [] any s h = h
  process_items-Holds cursor (item ∷ items) any s h = elim (Bool-cases (leb item.nsu cursor)) [
    | inl stale ↦ rw stale (process_items-Holds cursor items any (with_rt s (skip_stale s.rt)) h)
    | inr fresh ↦
        let one = Processed-Holds item s (process_item-Processed env item s) h in
        rw fresh (
          bind_rule (λ r t. Holds t) (process_item env item)
            (λ _. process_items env cursor items true) s (λ e bad. one)
            (λ u good. process_items-Holds cursor items true (process_item env item s).1 one))
  ]

  process_batch-Holds : (cursor : ℕ) (s : Run S) → Holds s → Holds (process_batch env cursor s).1
  unfolding process_batch
  process_batch-Holds cursor s h =
      let t = (fetch_batch env cursor s).1 in
      let fetched = holds s t (fetch_batch-Still env cursor s).content h in
      bind_rule Q (fetch_batch env cursor) _ s (λ e bad. fetched)
        λ batch got.
          let v = (record_wait env batch t).1 in
          let waited = holds t v (record_wait-Still env batch t).content fetched in
          bind_rule Q (record_wait env batch) _ t (λ e bad. waited)
            λ x good.
              let w = (process_items env cursor batch.items false v).1 in
              let processed = process_items-Holds cursor batch.items false v waited in
              bind_rule Q (process_items env cursor batch.items false) _ v (λ e bad. processed)
                λ any went.
                  let y = (checkpoint_batch env batch any w).1 in
                  let closed =
                    holds w y (checkpoint_batch-Closed env batch any w).content processed in
                  bind_rule Q (checkpoint_batch env batch any) _ w (λ e bad. closed)
                    λ u ended.
                      let z = (complete_initial_sync env batch y).1 in
                      let completed =
                        holds y z (complete_initial_sync-Still env batch y).content closed in
                      bind_rule Q (complete_initial_sync env batch) _ y (λ e bad. completed)
                        λ q done. completed
    where
      Q : {A : Type 0} → Result A → Run S → Type 0
      Q r t = Holds t

  after_batch-Holds :
      (cursor : ℕ) (r : Result Batch) (s : Run S) → Holds s → Holds (after_batch env cursor r s).1
  after_batch-Holds cursor (fail e) s h = h
  after_batch-Holds cursor (ok batch) s h = elim (Bool-cases batch.done) [
    | inl d ↦ rw d h
    | inr d ↦ elim (Bool-cases (leb batch.next_cursor cursor)) [
      | inl l ↦ rw (d, l) h
      | inr l ↦ elim (Bool-cases (env.done s.tick)) [
        | inl c ↦ rw (d, l, c) h
        | inr c ↦ rw (d, l, c) h
      ]
    ]
  ]

  after_budget-Holds :
      (cursor : ℕ) (r : Result Bool) (s : Run S) → Holds s → Holds (after_budget env cursor r s).1
  after_budget-Holds cursor (fail e) s h = h
  after_budget-Holds cursor (ok false) s h = h
  after_budget-Holds cursor (ok true) s h =
      after_batch-Holds cursor (process_batch env cursor s).0 (process_batch env cursor s).1
        (process_batch-Holds cursor s h)

  round-Holds : (cursor : ℕ) (s : Run S) → Holds s → Holds (round env cursor s).1
  unfolding round
  round-Holds cursor s h = elim (Bool-cases (env.done s.tick)) [
    | inl c ↦ rw c h
    | inr c ↦
        let spent = spend_request env env.requests_per_hour (advance s) in
        let (state, content, rt) = spend_request-frame env env.requests_per_hour (advance s) in
        rw c (after_budget-Holds cursor spent.0 spent.1 (holds s spent.1 content h))
  ]

  go_on-Holds :
      (again : ℕ → Run S → Option (Ending × Run S)) {e : Ending} {t : Run S}
      → ((c : ℕ) (u : Run S) → Holds u → again c u ≡ some (e, t) → Holds t)
      → (r : Round) (u : Run S) → Holds u
      → go_on env r u again ≡ some (e, t)
      → Holds t
  go_on-Holds again ih (stop d) u h eq = subst Holds (some_run eq).1 h
  go_on-Holds again ih (next c) u h eq = ih c u h eq

  rounds-Holds :
      (fuel cursor : ℕ) (s : Run S) (e : Ending) (t : Run S)
      → Holds s
      → rounds env fuel cursor s ≡ some (e, t)
      → Holds t
  unfolding rounds
  rounds-Holds zero cursor s e t h eq = absurd (cc)
  rounds-Holds (suc fuel) cursor s e t h eq =
      go_on-Holds (rounds env fuel) (λ c u k same. rounds-Holds fuel c u e t k same)
        (round env cursor s).0 (round env cursor s).1 (round-Holds cursor s h) eq

  set_up-Holds : (mode : SyncMode) (s : Run S) → Holds s → Holds (set_up env mode s).1
  set_up-Holds mode s h =
      let s1 = (get_or_create_state env s).1 in
      let s2 = (source_state env s1).1 in
      let h1 = holds s s1 (content-get_or_create_state env s) h in
      let h2 = holds s1 s2 (ap (λ (d : Db S). d.content) (source_state-frame env s1)) h1 in
      bind_rule Q (on_error (wrap "failed to load sync state") (get_or_create_state env)) _ s
        (λ e bad. h1)
        λ st loaded.
          bind_rule Q (on_error (wrap "failed to load source state") (source_state env)) _ s1
            (λ e bad. h2)
            λ source read.
              let (state, content, requests) = start_run-frame env mode st.last_processed_nsu s2 in
              let h3 = holds s2 (start_run env mode st.last_processed_nsu s2).1 content h2 in
              bind_rule Q
                (on_error (wrap "failed to create sync run")
                  (start_run env mode st.last_processed_nsu))
                _ s2 (λ e bad. h3) λ id started. h3
    where
      Q : {A : Type 0} → Result A → Run S → Type 0
      Q r t = Holds t

  finish_all-Holds :
      (end : Option (Ending × Run S)) (r : Option Err) (t : Run S)
      → ((e : Ending) (u : Run S) → end ≡ some (e, u) → Holds u)
      → finish_all env end ≡ some (r, t)
      → Holds t
  finish_all-Holds none r t h eq = absurd (cc)
  finish_all-Holds (some (e, u)) r t h eq =
      let (state, content, requests) = finish_run-frame env (finish_params env e u.rt) u in
      subst Holds (some_run eq).1
        (holds u (finish_run env (finish_params env e u.rt) u).1 content (h e u refl))

  pub sync-Holds :
      (fuel : ℕ) (mode : SyncMode) (s t : Run S) (r : Option Err)
      → Holds s
      → sync env fuel mode s ≡ some (r, t)
      → Holds t
  unfolding sync
  sync-Holds fuel mode s t r h eq =
      go (set_up env mode s).0 (set_up env mode s).1 (set_up-Holds mode s h) eq
    where
      go : (x : Result ℕ) (u : Run S) → Holds u → after_set_up env fuel x u ≡ some (r, t) → Holds t
      go (fail e) u k same = subst Holds (some_run same).1 k
      go (ok cursor) u k same =
          finish_all-Holds (rounds env fuel cursor u) r t
            (λ e v ended. rounds-Holds fuel cursor u e v k ended) same

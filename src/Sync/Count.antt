-- ===== src/Sync/Count.antt =====
-- The counts of a run: every item that the source returned is counted once.
pub mod Whole
use nanci.Prelude.{
  ℕ, zero, suc, ◌+◌, ◌≤◌, ◌<◌, ◌≡◌, refl, sym, ◌∙◌, ap, ap₂, inl, inr, Bool, true, false, List, [],
  ◌∷◌, Option, none, some, arith, leb, Bool-cases, Option-cases, length, if◌then◌else◌, not, ◌&&◌,
}
use mathlib.Core.Path.{subst}
use nanci.Sync.Error.{Err, is_canceled}
use nanci.Sync.Types.{Item, Batch, ItemOutcome, Runtime, SyncMode}
use nanci.Sync.Env.{Env, Run, Result, ok, fail, ok-injective, advance, with_rt, pure}
use nanci.Sync.Store.{finish_run, set_blocked_until, mark_initial_sync_completed}
use nanci.Sync.Store.Commit.{Result-cases}
use nanci.Sync.Budget.{spend_request}
use nanci.Sync.Budget.Limit.{spend_request-frame}
use nanci.Sync.Item.{settle, count_error, process_item, give_up_outcome}
use nanci.Sync.Item.Effect.{Processed, settled, given_up, stopped, process_item-Processed}
use nanci.Sync.Batch.{
  process_batch, fetch_batch, record_wait, process_items, checkpoint_batch, complete_initial_sync,
  skip_stale, observe, close_batch, ends_initial_sync,
}
use nanci.Sync.Batch.Stages.{bind_rule, checkpoint_batch-Closed}
use nanci.Sync.Loop.{
  Ending, Round, stop, next, round, rounds, go_on, sync, set_up, after_set_up, after_batch,
  after_budget, finish_all, finish_params,
}

-- how many items the counts of a run account for
abbrev pub accounted : Runtime → ℕ
accounted rt =
    rt.documents_skipped_stale + rt.documents_skipped_dup + rt.documents_skipped_policy
    + rt.events_skipped_policy + rt.unsupported + rt.documents_inserted + rt.events_inserted

abbrev pub Accounted : Runtime → Type 0
Accounted rt = accounted rt ≡ rt.documents_returned

accounted-settle :
    (item : Item) (o : ItemOutcome) (rt : Runtime) → accounted (settle item o rt) ≡ accounted rt + 1
unfolding settle
accounted-settle item o rt = ground arith

returned-settle :
    (item : Item) (o : ItemOutcome) (rt : Runtime)
    → (settle item o rt).documents_returned ≡ rt.documents_returned
unfolding settle
returned-settle item o rt = ground arith

-- The run state moved on by `n` items.
abbrev Counted : ℕ → Runtime → Runtime → Type 0
Counted n rt rt' =
    (accounted rt' ≡ accounted rt + n) × (rt'.documents_returned ≡ rt.documents_returned)

Counted-trans : (m n : ℕ) (a b c : Runtime) → Counted m a b → Counted n b c → Counted (m + n) a c
Counted-trans m n a b c (h, r) (k, q) = (omega (arith, h, k), q ∙ r)

module _ {S : Type 0} (env : Env S) where
  -- where an action goes on, it has counted `n` items
  abbrev Goes : {A : Type 0} → ℕ → Runtime → Result A → Run S → Type 0
  Goes n rt (ok a) t = Counted n rt t.rt
  Goes n rt (fail e) t = Unit

  Processed-Goes :
      (item : Item) (s : Run S) {r : Result (Unit {0})} {t : Run S}
      → Processed env item s r t
      → Goes 1 s.rt r t
  Processed-Goes item s (settled {o = o} write prepares writes content cursor source requests rt) =
      rw rt (accounted-settle item o s.rt, returned-settle item o s.rt)
  Processed-Goes item s (given_up src bad content cursor source requests rt) = rw rt (
    accounted-settle item (give_up_outcome item) (count_error s.rt),
    returned-settle item (give_up_outcome item) (count_error s.rt),
  )
  Processed-Goes item s (stopped content cursor source requests rt) = tt

  Goes-trans :
      {A : Type 0} (m n : ℕ) (a b : Runtime) (r : Result A) (t : Run S)
      → Counted m a b
      → Goes n b r t
      → Goes (m + n) a r t
  Goes-trans m n a b (ok x) t h k = Counted-trans m n a b t.rt h k
  Goes-trans m n a b (fail e) t h k = tt

  Goes-ok :
      {A : Type 0} (n : ℕ) (rt : Runtime) (r : Result A) (t : Run S) {a : A}
      → r ≡ ok a
      → Goes n rt r t
      → Counted n rt t.rt
  Goes-ok n rt (ok b) t e h = h
  Goes-ok n rt (fail d) t e h = absurd (cc)

  process_items-Goes :
      (cursor : ℕ) (items : List Item) (any : Bool) (s : Run S)
      → Goes
          (length items)
          s.rt
          (process_items env cursor items any s).0
          (process_items env cursor items any s).1
  unfolding process_items
  process_items-Goes cursor [] any s = (omega arith, refl)
  process_items-Goes cursor (item ∷ items) any s =
      let n : suc (length items) ≡ 1 + length items = omega arith in
      elim (Bool-cases (leb item.nsu cursor)) [
        | inl stale ↦
            let t = with_rt s (skip_stale s.rt) in
            rw (stale, n)
              (Goes-trans 1 (length items) s.rt t.rt (process_items env cursor items any t).0
                (process_items env cursor items any t).1 (omega arith, refl)
                (process_items-Goes cursor items any t))
        | inr fresh ↦
            let one = Processed-Goes item s (process_item-Processed env item s) in
            rw (fresh, n)
              (bind_rule (λ r t. Goes (1 + length items) s.rt r t) (process_item env item)
                (λ _. process_items env cursor items true) s (λ e bad. tt)
                λ u good.
                  let t = (process_item env item s).1 in
                  Goes-trans 1 (length items) s.rt t.rt (process_items env cursor items true t).0
                    (process_items env cursor items true t).1
                    (Goes-ok 1 s.rt (process_item env item s).0 t good one)
                    (process_items-Goes cursor items true t))
      ]

  -- the items of a batch that are still to be counted
  abbrev Owes : ℕ → Runtime → Type 0
  Owes n rt = accounted rt + n ≡ rt.documents_returned

  settled_up : (n : ℕ) (a b c : Runtime) → Owes n a → b ≡ a → Counted n b c → Accounted c
  settled_up n a b c owes same (h, r) = let back : Owes n b = rw same owes in h ∙ back ∙ sym r

  fetch_batch-Owes :
      (cursor : ℕ) (s : Run S) (batch : Batch)
      → Accounted s.rt
      → (fetch_batch env cursor s).0 ≡ ok batch
      → Owes (length batch.items) (fetch_batch env cursor s).1.rt
  unfolding fetch_batch
  fetch_batch-Owes cursor s batch h e = elim (Result-cases (env.fetch s.tick cursor)) [
    | inl (b, f) ↦
        let same : b ≡ batch = ok-injective (rw f at e) in
        rw (f, same) (ap (λ n. n + length batch.items) h)
    | inr (d, f) ↦ elim (Bool-cases (is_canceled d)) [
      | inl c ↦ absurd (cc (rw (f, c) at e))
      | inr c ↦ absurd (cc (rw (f, c) at e))
    ]
  ]

  rt-record_wait : (batch : Batch) (s : Run S) → (record_wait env batch s).1.rt ≡ s.rt
  unfolding record_wait set_blocked_until
  rt-record_wait batch s = ground arith

  Accounted-close_batch :
      (batch : Batch) (rt : Runtime) → Accounted rt → Accounted (close_batch batch rt)
  Accounted-close_batch batch rt h = ground (arith, h)

  Accounted-complete_initial_sync :
      (batch : Batch) (s : Run S)
      → Accounted s.rt
      → Accounted (complete_initial_sync env batch s).1.rt
  unfolding complete_initial_sync mark_initial_sync_completed
  Accounted-complete_initial_sync batch s h = elim (Bool-cases (ends_initial_sync batch s.rt)) [
    | inr e ↦ rw e h
    | inl e ↦ elim (Option-cases (env.fault s.tick)) [
      | inl f ↦ rw (e, f) h
      | inr (d, f) ↦ rw (e, f) h
    ]
  ]

  -- where a batch ends without an error, its items are counted
  abbrev pub KeptCount : Result Batch → Run S → Type 0
  KeptCount (ok batch) t = Accounted t.rt
  KeptCount (fail e) t = Unit

  pub process_batch-Accounted :
      (cursor : ℕ) (s : Run S)
      → Accounted s.rt
      → KeptCount (process_batch env cursor s).0 (process_batch env cursor s).1
  unfolding process_batch
  process_batch-Accounted cursor s h =
      bind_rule KeptCount (fetch_batch env cursor) _ s (λ e bad. tt)
        λ batch got.
          let t = (fetch_batch env cursor s).1 in
          let owes = fetch_batch-Owes cursor s batch h got in
          bind_rule KeptCount (record_wait env batch) _ t (λ e bad. tt)
            λ u waited.
              let v = (record_wait env batch t).1 in
              let same : v.rt ≡ t.rt = rt-record_wait batch t in
              bind_rule KeptCount (process_items env cursor batch.items false) _ v (λ e bad. tt)
                λ any finished.
                  let w = (process_items env cursor batch.items false v).1 in
                  let counted =
                    Goes-ok (length batch.items) v.rt
                      (process_items env cursor batch.items false v).0 w finished
                      (process_items-Goes cursor batch.items false v) in
                  let all = settled_up (length batch.items) t.rt v.rt w.rt owes same counted in
                  bind_rule KeptCount (checkpoint_batch env batch any) _ w (λ e bad. tt)
                    λ x closed.
                      let y = (checkpoint_batch env batch any w).1 in
                      let kept : Accounted y.rt =
                        rw (checkpoint_batch-Closed env batch any w).rt
                          (Accounted-close_batch batch w.rt all) in
                      bind_rule KeptCount (complete_initial_sync env batch) (λ _. pure batch) y
                        (λ e bad. tt) λ z completed. Accounted-complete_initial_sync batch y kept

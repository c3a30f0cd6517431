-- ===== src/Sync/Batch/Stages.antt =====
-- What each stage of a batch leaves alone.
use nanci.Prelude.{
  List, [], ◌∷◌, ℕ, ◌≡◌, refl, ◌⊎◌, inl, inr, Bool, not, ◌||◌, Bool-cases, Option-cases, ap, ◌∙◌,
}
use nanci.Sync.Error.{Err, is_canceled}
use nanci.Sync.Types.{Item, Batch, Runtime}
use nanci.Sync.Env.{Env, Run, Result, ok, fail, with_rt, Action, ◌>>=◌}
use nanci.Sync.Store.{set_blocked_until, mark_initial_sync_completed}
use nanci.Sync.Store.Commit.{
  cursor_of, moved, Result-cases, Persisted, unwritten, written, persist_progress-Persisted,
}
use nanci.Sync.Item.{progress_params}
use nanci.Sync.Batch.{
  fetch_batch, record_wait, checkpoint_batch, complete_initial_sync, close_batch, passes,
  count_empty, ends_initial_sync,
}

-- The rule for a bind: one case where the action fails, and one where it goes on.
pub bind_rule :
    {S A B : Type 0} (Q : Result B → Run S → Type 0) (m : Action S A) (f : A → Action S B)
    (s : Run S)
    → ((e : Err) → (m s).0 ≡ fail e → Q (fail e) (m s).1)
    → ((a : A) → (m s).0 ≡ ok a → Q (f a (m s).1).0 (f a (m s).1).1)
    → Q ((m >>= f) s).0 ((m >>= f) s).1
bind_rule Q m f s fails goes = elim (Result-cases (m s).0) [
  | inl (a, e) ↦ rw e (goes a e)
  | inr (d, e) ↦ rw e (fails d e)
]

module _ {S : Type 0} where
  -- Content and cursors are the same.
  pub record Still (s t : Run S) : Type 0 where
    pub content : t.db.content ≡ s.db.content
    pub cursor : cursor_of t.db.state ≡ cursor_of s.db.state
    pub last : t.rt.last_processed_nsu ≡ s.rt.last_processed_nsu

  Still-refl : (s : Run S) → Still s s
  Still-refl s = record { content = refl; cursor = refl; last = refl }

module _ {S : Type 0} (env : Env S) where
  pub fetch_batch-Still : (cursor : ℕ) (s : Run S) → Still s (fetch_batch env cursor s).1
  unfolding fetch_batch
  fetch_batch-Still cursor s = elim (Result-cases (env.fetch s.tick cursor)) [
    | inl (batch, e) ↦ rw e (record { content = refl; cursor = refl; last = refl })
    | inr (d, e) ↦ elim (Bool-cases (is_canceled d)) [
      | inl c ↦ rw (e, c) (record { content = refl; cursor = refl; last = refl })
      | inr c ↦ rw (e, c) (record { content = refl; cursor = refl; last = refl })
    ]
  ]

  -- a call of Fetch is sent, whatever it gives
  pub fetch_batch-sent :
      (cursor : ℕ) (s : Run S)
      → (fetch_batch env cursor s).1.db.requests
        ≡ record (s.db.requests) { sent = s.tick ∷ s.db.requests.sent }
  unfolding fetch_batch
  fetch_batch-sent cursor s = elim (Result-cases (env.fetch s.tick cursor)) [
    | inl (batch, e) ↦ rw e refl
    | inr (d, e) ↦ elim (Bool-cases (is_canceled d)) [
      | inl c ↦ rw (e, c) refl
      | inr c ↦ rw (e, c) refl
    ]
  ]

  pub requests-record_wait :
      (batch : Batch) (s : Run S) → (record_wait env batch s).1.db.requests ≡ s.db.requests
  unfolding record_wait set_blocked_until
  requests-record_wait batch s = elim (Option-cases batch.wait_until) [
    | inl e ↦ rw e refl
    | inr (until, e) ↦ elim (Option-cases (env.fault s.tick)) [
      | inl f ↦ rw (e, f) refl
      | inr (d, f) ↦ rw (e, f) refl
    ]
  ]

  pub requests-complete_initial_sync :
      (batch : Batch) (s : Run S)
      → (complete_initial_sync env batch s).1.db.requests ≡ s.db.requests
  unfolding complete_initial_sync mark_initial_sync_completed
  requests-complete_initial_sync batch s = elim (Bool-cases (ends_initial_sync batch s.rt)) [
    | inr e ↦ rw e refl
    | inl e ↦ elim (Option-cases (env.fault s.tick)) [
      | inl f ↦ rw (e, f) refl
      | inr (d, f) ↦ rw (e, f) refl
    ]
  ]

  pub fetch_batch-fetch :
      (cursor : ℕ) (s : Run S) (batch : Batch)
      → (fetch_batch env cursor s).0 ≡ ok batch
      → env.fetch s.tick cursor ≡ ok batch
  unfolding fetch_batch
  fetch_batch-fetch cursor s batch h = elim (Result-cases (env.fetch s.tick cursor)) [
    | inl (b, e) ↦ e ∙ (rw e at h)
    | inr (d, e) ↦ elim (Bool-cases (is_canceled d)) [
      | inl c ↦ absurd (cc (rw (e, c) at h))
      | inr c ↦ absurd (cc (rw (e, c) at h))
    ]
  ]

  pub record_wait-Still : (batch : Batch) (s : Run S) → Still s (record_wait env batch s).1
  unfolding record_wait set_blocked_until
  record_wait-Still batch s = elim (Option-cases batch.wait_until) [
    | inl e ↦ rw e (Still-refl s)
    | inr (until, e) ↦ elim (Option-cases (env.fault s.tick)) [
      | inl f ↦ rw (e, f) (record { content = refl; cursor = refl; last = refl })
      | inr (d, f) ↦ rw (e, f) (record { content = refl; cursor = refl; last = refl })
    ]
  ]

  pub complete_initial_sync-Still :
      (batch : Batch) (s : Run S) → Still s (complete_initial_sync env batch s).1
  unfolding complete_initial_sync mark_initial_sync_completed
  complete_initial_sync-Still batch s = elim (Bool-cases (ends_initial_sync batch s.rt)) [
    | inr e ↦ rw e (Still-refl s)
    | inl e ↦ elim (Option-cases (env.fault s.tick)) [
      | inl f ↦ rw (e, f) (record { content = refl; cursor = refl; last = refl })
      | inr (d, f) ↦ rw (e, f) (record { content = refl; cursor = refl; last = refl })
    ]
  ]

  last-count_empty :
      (items : List Item) (rt : Runtime)
      → (count_empty items rt).last_processed_nsu ≡ rt.last_processed_nsu
  last-count_empty [] rt = refl
  last-count_empty (x ∷ xs) rt = refl

  -- The run state after a batch: its cursor moves forward only.
  pub last-close_batch :
      (batch : Batch) (rt : Runtime)
      → ((close_batch batch rt).last_processed_nsu ≡ rt.last_processed_nsu)
        ⊎ ((close_batch batch rt).last_processed_nsu ≡ batch.next_cursor)
  last-close_batch batch rt = elim (Bool-cases (passes batch (count_empty batch.items rt))) [
    | inl e ↦ inr (rw e)
    | inr e ↦ inl (rw e (last-count_empty batch.items rt))
  ]

  -- What the checkpoint of a batch leaves behind.
  pub record Closed (batch : Batch) (s t : Run S) : Type 0 where
    pub content : t.db.content ≡ s.db.content
    pub requests : t.db.requests ≡ s.db.requests
    pub rt : t.rt ≡ close_batch batch s.rt
    pub cursor :
        (cursor_of t.db.state ≡ cursor_of s.db.state)
        ⊎ (cursor_of t.db.state
            ≡ moved (cursor_of s.db.state) (close_batch batch s.rt).last_processed_nsu)

  last-progress_params :
      (rt : Runtime) → (progress_params rt).last_processed_nsu ≡ rt.last_processed_nsu
  unfolding progress_params
  last-progress_params rt = refl

  from_persist :
      (batch : Batch) (s : Run S) {r : Result (Unit {0})} {t : Run S}
      → Persisted env
          (progress_params (close_batch batch s.rt))
          (with_rt s (close_batch batch s.rt))
          r
          t
      → Closed batch s t
  from_persist batch s (unwritten k) = record {
    content = k.content;
    requests = k.requests;
    rt = k.rt;
    cursor = inl k.cursor;
  }
  from_persist batch s (written content cursor source requests rt) = record {
    content = content;
    requests = requests;
    rt = rt;
    cursor = inr (cursor ∙ ap (moved _) (last-progress_params (close_batch batch s.rt)));
  }

  pub checkpoint_batch-Closed :
      (batch : Batch) (any : Bool) (s : Run S) → Closed batch s (checkpoint_batch env batch any s).1
  unfolding checkpoint_batch
  checkpoint_batch-Closed batch any s =
      let rt = close_batch batch s.rt in
      elim (Bool-cases (not any || passes batch (count_empty batch.items s.rt))) [
        | inl e ↦ rw e (
            from_persist batch s
              (persist_progress-Persisted env (progress_params rt) (with_rt s rt)))
        | inr e ↦ rw e (record { content = refl; requests = refl; rt = refl; cursor = inl refl })
      ]

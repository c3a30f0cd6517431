-- ===== src/Sync/Store/Commit.antt =====
-- What the transactions of the store leave behind: a commit applies everything, an error nothing.
use nanci.Prelude.{ℕ, ◌+◌, ◌≡◌, refl, ◌⊎◌, inl, inr, Option, none, some, arith, Option-cases}
use nanci.Sync.Error.{Err}
use nanci.Sync.Types.{ItemOutcome, SyncState, Progress}
use nanci.Sync.Env.{Env, Run, Result, ok, fail, Write}
use nanci.Sync.Rows.{count_failure, map_state, count_inserted, update_state}
use nanci.Sync.Store.{record_item_failure, persist_progress, apply_with_progress}

-- the persisted cursor, where the row is there
abbrev pub cursor_of : Option SyncState → Option ℕ
cursor_of none = none
cursor_of (some st) = some st.last_processed_nsu

-- the cursor column after an UPDATE that writes `nsu`
abbrev pub moved : Option ℕ → ℕ → Option ℕ
moved none nsu = none
moved (some old) nsu = some nsu

pub Result-cases {ℓ} :
    {A : Type ℓ} (r : Result A) → ((a : A) × (r ≡ ok a)) ⊎ ((e : Err) × (r ≡ fail e))
Result-cases (ok a) = inl (a, refl)
Result-cases (fail e) = inr (e, refl)

module _ {S : Type 0} (env : Env S) where
  -- The two ways that a transaction with a checkpoint can end.
  pub data Applied (p : Progress) (write : Write S) (s : Run S)
      : Result ItemOutcome → Run S → Type 0 where
    rolled_back :
        {e : Err} {t : Run S}
        → ((n : ℕ) × (env.fault n ≡ some e)) ⊎ (write s.db.content ≡ fail e)
        → t.db ≡ s.db
        → t.rt ≡ s.rt
        → Applied p write s (fail e) t
    committed :
        {o : ItemOutcome} {content : S} {t : Run S}
        → write s.db.content ≡ ok (o, content)
        → t.db.content ≡ content
        → cursor_of t.db.state ≡ moved (cursor_of s.db.state) p.last_processed_nsu
        → t.db.source ≡ s.db.source
        → t.db.requests ≡ s.db.requests
        → t.rt ≡ s.rt
        → Applied p write s (ok o) t

  cursor_of-do_persist_progress :
      (at : ℕ) (o : ItemOutcome) (p : Progress) (st : Option SyncState)
      → cursor_of (map_state (update_state at (count_inserted o p)) st)
        ≡ moved (cursor_of st) p.last_processed_nsu
  unfolding update_state
  cursor_of-do_persist_progress at o p none = refl
  cursor_of-do_persist_progress at o p (some st) = ground arith

  pub apply_with_progress-Applied :
      (p : Progress) (write : Write S) (s : Run S)
      → Applied p write s
          (apply_with_progress env p write s).0
          (apply_with_progress env p write s).1
  unfolding apply_with_progress
  apply_with_progress-Applied p write s = elim (Option-cases (env.fault s.tick)) [
    | inr (e, begins) ↦ rw begins (rolled_back (inl (s.tick, begins)) refl refl)
    | inl begins ↦ elim (Result-cases (write s.db.content)) [
      | inr (e, writes) ↦ rw (begins, writes) (rolled_back (inr writes) refl refl)
      | inl ((o, content), writes) ↦ elim (Option-cases (env.fault (s.tick + 1))) [
        | inr (e, commits) ↦
            rw (begins, writes, commits) (rolled_back (inl (s.tick + 1, commits)) refl refl)
        | inl commits ↦
            rw (begins, writes, commits)
              (committed writes refl (cursor_of-do_persist_progress _ o p s.db.state) refl refl
                refl)
      ]
    ]
  ]

module _ {S : Type 0} where
  -- The two runs differ at most in the columns of the checkpoint that are not the cursor.
  pub record Kept (s t : Run S) : Type 0 where
    pub content : t.db.content ≡ s.db.content
    pub cursor : cursor_of t.db.state ≡ cursor_of s.db.state
    pub source : t.db.source ≡ s.db.source
    pub requests : t.db.requests ≡ s.db.requests
    pub rt : t.rt ≡ s.rt

  pub Kept-refl : (s : Run S) → Kept s s
  Kept-refl s = record { content = refl; cursor = refl; source = refl; requests = refl; rt = refl }

module _ {S : Type 0} (env : Env S) where
  -- The two ways that a checkpoint alone can end.
  pub data Persisted (p : Progress) (s : Run S) : Result (Unit {0}) → Run S → Type 0 where
    unwritten : {e : Err} {t : Run S} → Kept s t → Persisted p s (fail e) t
    written :
        {t : Run S}
        → t.db.content ≡ s.db.content
        → cursor_of t.db.state ≡ moved (cursor_of s.db.state) p.last_processed_nsu
        → t.db.source ≡ s.db.source
        → t.db.requests ≡ s.db.requests
        → t.rt ≡ s.rt
        → Persisted p s (ok tt) t

  cursor_of-update_state :
      (at : ℕ) (p : Progress) (st : Option SyncState)
      → cursor_of (map_state (update_state at p) st) ≡ moved (cursor_of st) p.last_processed_nsu
  unfolding update_state
  cursor_of-update_state at p none = refl
  cursor_of-update_state at p (some st) = refl

  pub persist_progress-Persisted :
      (p : Progress) (s : Run S)
      → Persisted p s (persist_progress env p s).0 (persist_progress env p s).1
  unfolding persist_progress
  persist_progress-Persisted p s = elim (Option-cases (env.fault s.tick)) [
    | inr (e, writes) ↦ rw writes (
        unwritten
          (record { content = refl; cursor = refl; source = refl; requests = refl; rt = refl }))
    | inl writes ↦ rw writes (written refl (cursor_of-update_state _ p s.db.state) refl refl refl)
  ]

  cursor_of-count_failure :
      (nsu : ℕ) (st : Option SyncState)
      → cursor_of (map_state (count_failure nsu) st) ≡ cursor_of st
  unfolding count_failure
  cursor_of-count_failure nsu none = refl
  cursor_of-count_failure nsu (some st) = refl

  -- Counting a failure moves no cursor.
  pub record_item_failure-Kept : (nsu : ℕ) (s : Run S) → Kept s (record_item_failure env nsu s).1
  unfolding record_item_failure
  record_item_failure-Kept nsu s = elim (Option-cases (env.fault s.tick)) [
    | inr (e, writes) ↦
        rw writes
          (record { content = refl; cursor = refl; source = refl; requests = refl; rt = refl })
    | inl writes ↦ elim (Option-cases s.db.state) [
      | inl absent ↦
          rw (writes, absent)
            (record { content = refl; cursor = refl; source = refl; requests = refl; rt = refl })
      | inr (st, found) ↦
          rw (writes, found)
            (record { content = refl; cursor = refl; source = refl; requests = refl; rt = refl })
    ]
  ]

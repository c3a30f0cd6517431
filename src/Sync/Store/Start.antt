-- ===== src/Sync/Store/Start.antt =====
-- What the first statements of a run leave alone.
use nanci.Prelude.{ℕ, ◌≡◌, ◌⊎◌, some, arith}
use nanci.Sync.Types.{SyncState, SyncMode}
use nanci.Sync.Env.{Env, Run, ok}
use nanci.Sync.Rows.{Finish, new_state}
use nanci.Sync.Store.{get_or_create_state, get_sync_state, source_state, start_run, finish_run}

module _ {S : Type 0} (env : Env S) where
  pub content-get_or_create_state :
      (s : Run S) → (get_or_create_state env s).1.db.content ≡ s.db.content
  unfolding get_or_create_state get_sync_state
  content-get_or_create_state s = ground arith

  pub requests-get_or_create_state :
      (s : Run S) → (get_or_create_state env s).1.db.requests ≡ s.db.requests
  unfolding get_or_create_state get_sync_state
  requests-get_or_create_state s = ground arith

  -- The row that is there stays, and a row that is not starts at NSU 0.
  pub state-get_or_create_state :
      (s : Run S)
      → ((get_or_create_state env s).1.db.state ≡ s.db.state)
        ⊎ ((get_or_create_state env s).1.db.state ≡ some new_state)
  unfolding get_or_create_state get_sync_state
  state-get_or_create_state s = ground arith

  pub get_or_create_state-ok :
      (s : Run S) (st : SyncState)
      → (get_or_create_state env s).0 ≡ ok st
      → (get_or_create_state env s).1.db.state ≡ some st
  unfolding get_or_create_state get_sync_state
  get_or_create_state-ok s st h = ground arith

  pub source_state-frame : (s : Run S) → (source_state env s).1.db ≡ s.db
  unfolding source_state
  source_state-frame s = ground arith

  pub start_run-frame :
      (mode : SyncMode) (nsu : ℕ) (s : Run S)
      → ((start_run env mode nsu s).1.db.state ≡ s.db.state)
        × ((start_run env mode nsu s).1.db.content ≡ s.db.content)
        × ((start_run env mode nsu s).1.db.requests ≡ s.db.requests)
  unfolding start_run
  start_run-frame mode nsu s = ground arith

  pub finish_run-frame :
      (p : Finish) (s : Run S)
      → ((finish_run env p s).1.db.state ≡ s.db.state)
        × ((finish_run env p s).1.db.content ≡ s.db.content)
        × ((finish_run env p s).1.db.requests ≡ s.db.requests)
  unfolding finish_run
  finish_run-frame p s = ground arith

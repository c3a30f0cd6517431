-- ===== src/Sync/Types.antt =====
-- The values that internal/sync passes about: items, batches, outcomes and the rows of the store.
use nanci.Prelude.{ℕ, String, Bool, List, Option}
use nanci.Sync.Error.{Status, StopReason, ErrorCode, Err}

-- syncstate.SyncSource
pub data SyncSource : Type 0 where
  nfse nfe cte : SyncSource

-- syncstate.SyncMode
pub data SyncMode : Type 0 where
  normal first_setup : SyncMode

-- A distributed item. NSUs are not negative; `payload` is the base64 text.
pub record Item : Type 0 where
  pub nsu : ℕ
  pub schema : String
  pub payload : String
  pub is_event : Bool

-- Times are whole seconds, as the store keeps them.
pub record Batch : Type 0 where
  pub items : List Item
  pub ult_nsu : ℕ
  pub max_nsu : ℕ
  pub next_cursor : ℕ
  pub done : Bool
  pub stop_reason : StopReason
  pub wait_until : Option ℕ

pub record ItemOutcome : Type 0 where
  pub inserted : Bool
  pub is_event : Bool
  pub skipped_by_policy : Bool
  pub unsupported : Bool
  pub partial : Bool

-- SourceState, and its row in company_sync_sources
pub record SourceState : Type 0 where
  pub initial_sync_done_at : Option ℕ
  pub blocked_until : Option ℕ
  pub blocked_reason : StopReason

-- The row of sync_state. The text of an error is kept as the error.
pub record SyncState : Type 0 where
  pub last_processed_nsu : ℕ
  pub last_found_nsu : Option ℕ
  pub max_nsu : Option ℕ
  pub last_empty_streak : ℕ
  pub last_success_at : Option ℕ
  pub last_error_at : Option ℕ
  pub last_error_code : Option ErrorCode
  pub last_error_message : Option Err
  pub failed_nsu : Option ℕ
  pub failed_nsu_attempts : ℕ

-- The row of sync_runs.
pub record SyncRun : Type 0 where
  pub id : ℕ
  pub mode : SyncMode
  pub started_at : ℕ
  pub finished_at : Option ℕ
  pub from_nsu : ℕ
  pub to_nsu : ℕ
  pub checked_count : ℕ
  pub documents_found : ℕ
  pub empty_count : ℕ
  pub consecutive_empty_count : ℕ
  pub errors_count : ℕ
  pub last_found_nsu : Option ℕ
  pub status : Status
  pub stop_reason : StopReason
  pub error_code : Option ErrorCode
  pub error_message : Option Err

-- syncstate.PersistSyncProgressParams, less the key of the row
pub record Progress : Type 0 where
  pub run_id : ℕ
  pub last_processed_nsu : ℕ
  pub last_found_nsu : Option ℕ
  pub max_nsu : Option ℕ
  pub last_empty_streak : ℕ
  pub checked_count : ℕ
  pub documents_found : ℕ
  pub empty_count : ℕ
  pub consecutive_empty_count : ℕ
  pub errors_count : ℕ
  pub error_code : Option ErrorCode
  pub error_message : Option Err
  pub mark_success : Bool

-- syncRuntimeState
pub record Runtime : Type 0 where
  pub run_id : ℕ
  pub last_processed_nsu : ℕ
  pub last_found_nsu : Option ℕ
  pub max_nsu : Option ℕ
  pub checked_count : ℕ
  pub documents_inserted : ℕ
  pub events_inserted : ℕ
  pub documents_returned : ℕ
  pub documents_skipped_stale : ℕ
  pub documents_skipped_dup : ℕ
  pub documents_skipped_policy : ℕ
  pub events_skipped_policy : ℕ
  pub unsupported : ℕ
  pub completas_saved : ℕ
  pub resumos_saved : ℕ
  pub empty_count : ℕ
  pub consecutive_empty : ℕ
  pub errors_count : ℕ
  pub source : SourceState

-- ===== src/Sync/Error.antt =====
-- The errors of internal/sync/loop.go and how the run reads them (errors.Is, errors.As).
use nanci.Prelude.{ℕ, String, Bool, true, false, ◌||◌, Option, none, some, if◌then◌else◌}

-- syncstate.SyncStatus
pub data Status : Type 0 where
  running completed failed interrupted : Status

-- syncstate.SyncStopReason; `unset` is the empty string.
pub data StopReason : Type 0 where
  unset empty_limit context_canceled fetch_error process_error : StopReason
  caught_up consumo_indevido rate_budget : StopReason

-- sync_runs.error_code and sync_state.last_error_code
pub data ErrorCode : Type 0 where
  process_error_code persist_error_code fetch_error_code context_canceled_code : ErrorCode

-- A Go error by what it wraps. `plain` is any error of a library: a database, network or file
-- error, a timeout. `wrap` is `fmt.Errorf` with `%w`, `join` is `errors.Join`.
pub data Err : Type 0 where
  canceled : Err
  plain : String → Err
  processing : ℕ → Err → Err
  wrap : String → Err → Err
  join : Err → Err → Err
  failure : Err → Status → StopReason → ErrorCode → Err

-- errors.Is(err, context.Canceled)
unfoldable pub is_canceled : Err → Bool
is_canceled canceled = true
is_canceled (plain text) = false
is_canceled (processing nsu e) = is_canceled e
is_canceled (wrap text e) = is_canceled e
is_canceled (join d e) = is_canceled d || is_canceled e
is_canceled (failure e status reason code) = is_canceled e

-- whether errors.As finds a *ProcessingError
unfoldable pub is_processing : Err → Bool
is_processing canceled = false
is_processing (plain text) = false
is_processing (processing nsu e) = true
is_processing (wrap text e) = is_processing e
is_processing (join d e) = is_processing d || is_processing e
is_processing (failure e status reason code) = is_processing e

-- what classifySyncError returns beside the text of the error
pub record Class : Type 0 where
  pub status : Status
  pub reason : StopReason
  pub code : ErrorCode

abbrev or_else : Option Class → Option Class → Option Class
or_else (some c) other = some c
or_else none other = other

-- errors.As(err, &syncErr)
unfoldable pub as_failure : Err → Option Class
as_failure canceled = none
as_failure (plain text) = none
as_failure (processing nsu e) = as_failure e
as_failure (wrap text e) = as_failure e
as_failure (join d e) = or_else (as_failure d) (as_failure e)
as_failure (failure e s r c) = some (record { status = s; reason = r; code = c })

abbrev interruption : Class
interruption = record {
  status = interrupted;
  reason = context_canceled;
  code = context_canceled_code;
}

abbrev process_failure : Class
process_failure = record { status = failed; reason = process_error; code = process_error_code }

abbrev or_process_failure : Option Class → Class
or_process_failure none = process_failure
or_process_failure (some c) = c

unfoldable pub classify_sync_error : Err → Class
unfolding is_canceled as_failure
classify_sync_error e = if is_canceled e then interruption else or_process_failure (as_failure e)

unfoldable pub persist_failure : Err → Err
persist_failure e = failure e failed process_error persist_error_code

-- ===== src/Sync/Budget.antt =====
-- The request budget of internal/sync/loop.go (spendRequest), and the waits of
-- internal/sync/errors.go and dist.go that forbid a query.
pub mod Limit
use nanci.Prelude.{
  ℕ, ◌+◌, ◌-◌, ◌*◌, ◌/◌, Bool, true, false, not, List, [], ◌∷◌, Option, none, some, ltb, leb, ◌==◌,
  any_by, if◌then◌else◌,
}
use nanci.Sync.Error.{Err, StopReason, wrap, rate_budget}
use nanci.Sync.Types.{SyncSource, SourceState}
use nanci.Sync.Env.{Env, Run, Result, Action, pure, raise, on_error, ◌>>=◌, ◌>>◌}
use nanci.Sync.Rows.{hour}
use nanci.Sync.Store.{requests_since, set_blocked_until, record_request}

abbrev day : ℕ
day = 24 * hour

-- requestsPerHour
unfoldable pub requests_per_hour : SyncSource → ℕ
requests_per_hour SyncSource.nfe = 20
requests_per_hour SyncSource.cte = 20
requests_per_hour SyncSource.nfse = 0

abbrev block_end : ℕ → Option ℕ → ℕ
block_end now none = now + hour
block_end now (some t) = t + hour

module _ {S : Type 0} (env : Env S) where
  abbrev spend : ℕ → ℕ → ℕ × Option ℕ → Action S Bool
  spend limit now (count, oldest) =
      if leb limit count
      then (do
        on_error (wrap "failed to block source after request budget")
            (set_blocked_until env (block_end now oldest) rate_budget)
        pure false)
      else (do on_error (wrap "failed to record request") (record_request env now); pure true)

  -- A limit of 0 means unlimited. The request is recorded before it is sent.
  unfoldable pub spend_request : ℕ → Action S Bool
  unfolding requests_since set_blocked_until record_request
  spend_request limit s =
      let now = env.now s.tick in
      if limit == 0
      then pure true s
      else (on_error (wrap "failed to read request budget") (requests_since env (now - hour))
            >>= spend limit now)
          s

-- The block that checkBlocked returns as a *BlockedError.
pub record Blocked : Type 0 where
  pub source : SyncSource
  pub until : ℕ
  pub reason : StopReason

abbrev pub reason_index : StopReason → ℕ
reason_index StopReason.unset = 0
reason_index StopReason.empty_limit = 1
reason_index StopReason.context_canceled = 2
reason_index StopReason.fetch_error = 3
reason_index StopReason.process_error = 4
reason_index StopReason.caught_up = 5
reason_index StopReason.consumo_indevido = 6
reason_index StopReason.rate_budget = 7

abbrev pub same_reason : StopReason → StopReason → Bool
same_reason a b = reason_index a == reason_index b

-- `len(reasons) > 0 && !slices.Contains(reasons, reason)`
abbrev pub other_reason : List StopReason → StopReason → Bool
other_reason [] reason = false
other_reason (r ∷ rs) reason = not (any_by (same_reason reason) (r ∷ rs))

abbrev pub blocked_at : SyncSource → Option ℕ → StopReason → ℕ → List StopReason → Option Blocked
blocked_at source none reason now reasons = none
blocked_at source (some until) reason now reasons =
    if not (ltb now until)
    then none
    else if other_reason reasons reason
    then none
    else some (record { source = source; until = until; reason = reason })

unfoldable pub check_blocked : SyncSource → SourceState → ℕ → List StopReason → Option Blocked
check_blocked source st now reasons =
    blocked_at source st.blocked_until st.blocked_reason now reasons

abbrev dist_idle_warning_days : ℕ
dist_idle_warning_days = 45

-- DistIdle. A `last` after `now` gives a negative number of days in Go, and 0 here and there.
unfoldable pub dist_idle : Option ℕ → ℕ → ℕ
dist_idle none now = 0
dist_idle (some last) now =
    let days = (now - last) / day in if ltb days dist_idle_warning_days then 0 else days

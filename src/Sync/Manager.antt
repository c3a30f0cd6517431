-- ===== src/Sync/Manager.antt =====
-- internal/sync/manager.go: the marks of the pulls in flight, the blocks and limits of a source, and the
-- texts that name a source and a mode (internal/syncstate).
pub mod Exclusive
pub mod Limits
pub mod Names
pub mod Reasons
mod Tests
use nanci.Prelude.{
  ℕ, ◌-◌, Bool, true, false, List, [], ◌∷◌, ◌++◌, Option, none, some, ltb, any_by, if◌then◌else◌,
}
use nanci.Text.{Bytes, codes, bytes_eq}
use nanci.Sync.Error.{StopReason, unset, wrap}
use nanci.Sync.Types.{SyncSource, nfse, nfe, cte, SyncMode, normal, first_setup, SourceState}
use nanci.Sync.Env.{Env, Run, Action, pure, on_error, ◌>>=◌}
use nanci.Sync.Rows.{hour}
use nanci.Sync.Store.{source_state, requests_since}
use nanci.Sync.Budget.{requests_per_hour, Blocked, check_blocked}

-- string(source)
abbrev pub source_text : SyncSource → Bytes
source_text nfse = codes "nfse"
source_text nfe = codes "nfe"
source_text cte = codes "cte"

unfoldable pub parse_sync_source : Bytes → Option SyncSource
parse_sync_source text =
    if bytes_eq text (codes "nfse")
    then some nfse
    else if bytes_eq text (codes "nfe")
    then some nfe
    else if bytes_eq text (codes "cte")
    then some cte
    else none

-- resolveSyncSource
unfoldable pub resolve_sync_source : Bytes → Option SyncSource
unfolding parse_sync_source
resolve_sync_source [] = some nfse
resolve_sync_source (c ∷ text) = parse_sync_source (c ∷ text)

-- ParseSyncMode
unfoldable parse_sync_mode : Bytes → Option SyncMode
parse_sync_mode text =
    if bytes_eq text (codes "normal")
    then some normal
    else if bytes_eq text (codes "first_setup")
    then some first_setup
    else none

-- parsePullMode
unfoldable parse_pull_mode : Bytes → Option SyncMode
unfolding parse_sync_mode
parse_pull_mode [] = some normal
parse_pull_mode (c ∷ text) = parse_sync_mode (c ∷ text)

-- the key of `running`
abbrev pub key_of : Bytes → SyncSource → Bytes
key_of company source = company ++ (codes ":" ++ source_text source)

-- Manager.running: the keys that are marked. The map holds no value but true.
abbrev pub Running : Type 0
Running = List Bytes

abbrev pub marked : Bytes → Running → Bool
marked key running = any_by (bytes_eq key) running

-- delete(m.running, key)
unfoldable pub without : Bytes → Running → Running
without key [] = []
without key (k ∷ ks) = let rest = without key ks in if bytes_eq key k then rest else k ∷ rest

-- ReserveSource, under its mutex. `none` is ErrSyncRunning.
unfoldable pub reserve_source : Bytes → SyncSource → Running → Option Running
reserve_source company source running =
    let key = key_of company source in if marked key running then none else some (key ∷ running)

-- the func that ReserveSource returns
unfoldable pub release_source : Bytes → SyncSource → Running → Running
unfolding without
release_source company source running = without (key_of company source) running

pub record SourceLimits : Type 0 where
  pub next_allowed_at : Option ℕ
  pub blocked_reason : StopReason
  pub requests_last_hour : ℕ
  pub request_budget : ℕ

-- `state.BlockedUntil` where it is after now, with its reason
abbrev pub block_ahead : Option ℕ → StopReason → ℕ → Option ℕ × StopReason
block_ahead none reason now = (none, unset)
block_ahead (some until) reason now = if ltb now until then (some until, reason) else (none, unset)

abbrev limits_of : SyncSource → Option ℕ × StopReason → ℕ → SourceLimits
limits_of source (until, reason) count = record {
  next_allowed_at = until;
  blocked_reason = reason;
  requests_last_hour = count;
  request_budget = requests_per_hour source;
}

module _ {S : Type 0} (env : Env S) where
  -- BlockedFor; the clock is read after the row
  unfoldable pub blocked_for : List StopReason → Action S (Option Blocked)
  unfolding source_state check_blocked
  blocked_for reasons = on_error (wrap "failed to load source state") (source_state env) >>= λ st s.
      pure (check_blocked env.kind st (env.now s.tick) reasons) s

  -- Manager.SourceLimits
  unfoldable pub source_limits : Action S SourceLimits
  unfolding source_state requests_since requests_per_hour
  source_limits s =
      let now = env.now s.tick in
      (on_error (wrap "failed to load source state") (source_state env) >>= λ st.
      on_error (wrap "failed to count requests") (requests_since env (now - hour)) >>= λ rows.
      pure (limits_of env.kind (block_ahead st.blocked_until st.blocked_reason now) rows.0))
        s

-- ===== src/Sync/Manager/Tests.antt =====
-- Two pulls of one company, the limits of its NF-e, and the names of the sources.
use nanci.Prelude.{ℕ, ◌≡◌, refl, ◌↔◌, ◌⊎◌, List, [], ◌∷◌, some, In}
use nanci.Text.{codes}
use nanci.Sync.Error.{caught_up, rate_budget}
use nanci.Sync.Types.{nfse, nfe}
use nanci.Sync.Env.{Run, ok}
use nanci.Sync.Rows.{requests_from, oldest}
use nanci.Sync.Store.{source_state, requests_since}
use nanci.Sync.Budget.{requests_per_hour, Blocked}
use nanci.Sync.Manager.{
  blocked_for, source_text, resolve_sync_source, reserve_source, release_source, without,
  SourceLimits, source_limits,
}
use nanci.Sync.Manager.Reasons.{blocked_for-In}
use nanci.Sync.Samples.{demo, before}
use nanci.Sync.Manager.Exclusive.{
  Holder, Pulls, Reachable, reserved, refused, released, start, later, IsExclusive,
  Reachable-IsExclusive,
}
use nanci.Sync.Manager.Limits.{Agrees, source_limits-Agrees}
use nanci.Sync.Manager.Names.{resolve_sync_source-source_text}

abbrev one : Holder
one = record { company = codes "c1"; source = nfe }

abbrev two : Holder
two = record { company = codes "c1"; source = nfse }

-- the NF-e, the NFS-e, the NF-e again in vain, and the end of the first
abbrev pulls : Pulls
pulls = record { running = codes "c1:nfse" ∷ []; holders = two ∷ [] }

pulls_reached : Reachable pulls
unfolding reserve_source release_source without
pulls_reached =
    later
      (later
        (later (later start (reserved one (codes "c1:nfe" ∷ []) refl))
          (reserved two (codes "c1:nfse" ∷ codes "c1:nfe" ∷ []) refl))
        (refused one refl))
      (released (two ∷ []) [] one refl)

two_pulls_example : IsExclusive pulls
two_pulls_example = Reachable-IsExclusive pulls_reached

-- the source waits until 5000, and has sent one request
abbrev waiting : Run (List ℕ)
waiting = record before {
  db = record (before.db) {
    source = record (before.db.source) { blocked_until = some 5000; blocked_reason = caught_up };
    requests = record { log = 900 ∷ []; sent = [] };
  };
}

abbrev wait_of : Blocked
wait_of = record { source = nfe; until = 5000; reason = caught_up }

abbrev reported : SourceLimits
reported = record {
  next_allowed_at = some 5000;
  blocked_reason = caught_up;
  requests_last_hour = 1;
  request_budget = 20;
}

report : (source_limits demo waiting).0 ≡ ok reported
unfolding source_limits source_state requests_since requests_per_hour requests_from oldest
report = refl

limits_example : Agrees demo waiting reported
limits_example = source_limits-Agrees demo waiting reported report

names_example :
    (resolve_sync_source (codes "nfe") ≡ some nfe)
    ↔ (((codes "nfe" ≡ []) × (nfe ≡ nfse)) ⊎ (codes "nfe" ≡ source_text nfe))
names_example = resolve_sync_source-source_text (codes "nfe") nfe

reasons_example :
    ((blocked_for demo (rate_budget ∷ []) waiting).0 ≡ ok (some wait_of))
    ↔ (((blocked_for demo [] waiting).0 ≡ ok (some wait_of)) × In wait_of.reason (rate_budget ∷ []))
reasons_example = blocked_for-In demo rate_budget [] waiting wait_of

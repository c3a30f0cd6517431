-- ===== src/Sync/Manager/Limits.antt =====
-- What SourceLimits reports is what a pull meets.
use nanci.Prelude.{
  ℕ, ◌+◌, ◌-◌, ◌≡◌, refl, sym, Bool, ◌||◌, [], Option, none, some, inl, inr, arith, ltb, leb, ◌==◌,
  length, Bool-cases, Option-cases,
}
use nanci.Sync.Error.{StopReason}
use nanci.Sync.Types.{SyncSource, SourceState}
use nanci.Sync.Env.{Env, Run, ok, ok-injective}
use nanci.Sync.Rows.{hour, requests_from}
use nanci.Sync.Store.{source_state, requests_since}
use nanci.Sync.Budget.{requests_per_hour, Blocked, check_blocked, spend_request}
use nanci.Sync.Manager.{block_ahead, SourceLimits, source_limits}

-- the block that the limits speak of
abbrev pub block_of : SyncSource → Option ℕ → StopReason → Option Blocked
block_of source none reason = none
block_of source (some until) reason =
    some (record { source = source; until = until; reason = reason })

block-check_blocked :
    (source : SyncSource) (st : SourceState) (now : ℕ)
    → check_blocked source st now []
      ≡ block_of source
          (block_ahead st.blocked_until st.blocked_reason now).0
          (block_ahead st.blocked_until st.blocked_reason now).1
unfolding check_blocked
block-check_blocked source st now = elim (Option-cases st.blocked_until) [
  | inl e ↦ rw e refl
  | inr (until, e) ↦ elim (Bool-cases (ltb now until)) [
    | inl f ↦ rw (e, f) refl
    | inr f ↦ rw (e, f) refl
  ]
]

module _ {S : Type 0} (env : Env S) where
  source_limits_frame : (s : Run S) → (source_limits env s).1.db ≡ s.db
  unfolding source_limits source_state requests_since
  source_limits_frame s = ground arith

  pub record Agrees (s : Run S) (limits : SourceLimits) : Type 0 where
    pub block :
        check_blocked env.kind s.db.source (env.now s.tick) []
        ≡ block_of env.kind limits.next_allowed_at limits.blocked_reason
    pub budget : limits.request_budget ≡ requests_per_hour env.kind
    pub grant :
        (b : Bool)
        → (spend_request env limits.request_budget s).0 ≡ ok b
        → b ≡ ((limits.request_budget == 0) || ltb limits.requests_last_hour limits.request_budget)
    pub unchanged : (source_limits env s).1.db ≡ s.db

  granted :
      (limit : ℕ) (s : Run S) (b : Bool)
      → (spend_request env limit s).0 ≡ ok b
      → b ≡ (
          (limit == 0)
          || ltb (length (requests_from (env.now s.tick - hour) s.db.requests.log)) limit)
  unfolding spend_request
  granted limit s b h =
      let rows = requests_from (env.now s.tick - hour) s.db.requests.log in
      elim (Bool-cases (limit == 0)) [
        | inl free ↦ rw free (sym (ok-injective (rw free at h)))
        | inr bounded ↦ elim (Option-cases (env.fault s.tick)) [
          | inr (e, read_fails) ↦ absurd (cc (rw (bounded, read_fails) at h))
          | inl reads ↦ elim (Bool-cases (leb limit (length rows))) [
            | inl full ↦ elim (Option-cases (env.fault (s.tick + 1))) [
              | inr (e, write_fails) ↦ absurd (cc (rw (bounded, reads, full, write_fails) at h))
              | inl writes ↦
                  let same = ok-injective (rw (bounded, reads, full, writes) at h) in
                  rw (bounded, ← same) (ground (arith, full))
            ]
            | inr room ↦ elim (Option-cases (env.fault (s.tick + 1))) [
              | inr (e, write_fails) ↦ absurd (cc (rw (bounded, reads, room, write_fails) at h))
              | inl writes ↦
                  let same = ok-injective (rw (bounded, reads, room, writes) at h) in
                  rw (bounded, ← same) (ground (arith, room))
            ]
          ]
        ]
      ]

  -- The limits that SourceLimits reports say what a pull meets at that time: they hold a wait exactly where a
  -- pull is blocked, for the same time and reason, and spendRequest, where no database call fails, grants a
  -- request exactly where the budget is unlimited or not spent. The report changes no row.
  pub source_limits-Agrees :
      (s : Run S) (limits : SourceLimits) → (source_limits env s).0 ≡ ok limits → Agrees s limits
  unfolding source_limits source_state requests_since
  source_limits-Agrees s limits h = elim (Option-cases (env.fault s.tick)) [
    | inr (e, fails) ↦ absurd (cc (rw fails at h))
    | inl reads ↦ elim (Option-cases (env.fault (s.tick + 1))) [
      | inr (e, fails) ↦ absurd (cc (rw (reads, fails) at h))
      | inl counts ↦
          let same = ok-injective (rw (reads, counts) at h) in
          rw (← same) (record {
            block = block-check_blocked env.kind s.db.source (env.now s.tick);
            budget = refl;
            grant = granted (requests_per_hour env.kind) s;
            unchanged = source_limits_frame s;
          })
    ]
  ]

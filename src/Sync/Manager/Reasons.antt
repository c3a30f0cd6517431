-- ===== src/Sync/Manager/Reasons.antt =====
-- The blocks of a source by their reasons.
use nanci.Prelude.{
  any_by-In, In-any_by, ℕ, ◌+◌, ◌≡◌, refl, sym, ap, ◌∙◌, ◌↔◌, inl, inr, true, List, [], ◌∷◌, some,
  ltb, any_by, In, get_or, Bool-cases, Option-cases, ==_iff,
}
use mathlib.Core.Path.{subst}
use nanci.Sync.Error.{StopReason}
use nanci.Sync.Types.{SyncSource, SourceState}
use nanci.Sync.Env.{Env, Run, ok, ok-injective}
use nanci.Sync.Store.{source_state}
use nanci.Sync.Budget.{Blocked, check_blocked, reason_index, same_reason}
use nanci.Sync.Manager.{blocked_for}

of_index : ℕ → StopReason
of_index n =
    get_or
      (StopReason.unset ∷ StopReason.empty_limit ∷ StopReason.context_canceled
        ∷ StopReason.fetch_error ∷ StopReason.process_error ∷ StopReason.caught_up
        ∷ StopReason.consumo_indevido ∷ StopReason.rate_budget ∷ [])
      n StopReason.unset

of_index-reason_index : (r : StopReason) → of_index (reason_index r) ≡ r
unfolding of_index
of_index-reason_index StopReason.unset = refl
of_index-reason_index StopReason.empty_limit = refl
of_index-reason_index StopReason.context_canceled = refl
of_index-reason_index StopReason.fetch_error = refl
of_index-reason_index StopReason.process_error = refl
of_index-reason_index StopReason.caught_up = refl
of_index-reason_index StopReason.consumo_indevido = refl
of_index-reason_index StopReason.rate_budget = refl

same_reason-eq : (a b : StopReason) → same_reason a b ≡ true → a ≡ b
same_reason-eq a b h =
    sym (of_index-reason_index a)
    ∙ ap of_index ((==_iff (reason_index a) (reason_index b)).0 h)
    ∙ of_index-reason_index b

same_reason_refl : (a : StopReason) → same_reason a a ≡ true
same_reason_refl a = (==_iff (reason_index a) (reason_index a)).1 refl

named :
    (reason : StopReason) (rs : List StopReason)
    → In reason rs
    → any_by (same_reason reason) rs ≡ true
named reason rs h = elim (Bool-cases (any_by (same_reason reason) rs)) [
  | inl e ↦ e
  | inr e ↦ absurd (cc (In-any_by (same_reason reason) rs e reason h, same_reason_refl reason))
]

reason_of : (a b : Blocked) → some a ≡ some b → a.reason ≡ b.reason
reason_of a b h = let same : a ≡ b = cc in ap (λ (x : Blocked). x.reason) same

among :
    (source : SyncSource) (st : SourceState) (now : ℕ) (r : StopReason) (rs : List StopReason)
    (b : Blocked)
    → (check_blocked source st now (r ∷ rs) ≡ some b)
      ↔ ((check_blocked source st now [] ≡ some b) × In b.reason (r ∷ rs))
unfolding check_blocked
among source st now r rs b = elim (Option-cases st.blocked_until) [
  | inl e ↦ rw e ((λ h. absurd (cc)), λ (h, i). absurd (cc))
  | inr (until, e) ↦ elim (Bool-cases (ltb now until)) [
    | inr past ↦ rw (e, past) ((λ h. absurd (cc)), λ (h, i). absurd (cc))
    | inl ahead ↦ elim (Bool-cases (any_by (same_reason st.blocked_reason) (r ∷ rs))) [
      | inl is ↦
          let (x, found, same) = any_by-In (same_reason st.blocked_reason) (r ∷ rs) is in
          let here : In st.blocked_reason (r ∷ rs) =
            subst (λ y. In y (r ∷ rs)) (sym (same_reason-eq st.blocked_reason x same)) found in
          rw (e, ahead, is)
            ((λ h. (h, subst (λ y. In y (r ∷ rs)) (reason_of _ b h) here)), λ (h, i). h)
      | inr other ↦
          rw (e, ahead, other)
            (
              (λ h. absurd (cc)),
              λ (h, i). absurd (
                  cc (
                    named st.blocked_reason (r ∷ rs)
                        (subst (λ y. In y (r ∷ rs)) (sym (reason_of _ b h)) i),
                    other,
                  )),
            )
    ]
  ]
]

module _ {S : Type 0} (env : Env S) where
  -- With reasons, BlockedFor reports a block exactly where it reports it without them and the reason of the
  -- block is one of those given.
  pub blocked_for-In :
      (r : StopReason) (rs : List StopReason) (s : Run S) (b : Blocked)
      → ((blocked_for env (r ∷ rs) s).0 ≡ ok (some b))
        ↔ (((blocked_for env [] s).0 ≡ ok (some b)) × In b.reason (r ∷ rs))
  unfolding blocked_for source_state
  blocked_for-In r rs s b = elim (Option-cases (env.fault s.tick)) [
    | inr (e, fails) ↦ rw fails ((λ h. absurd (cc)), λ (h, i). absurd (cc))
    | inl reads ↦
        let both = among env.kind s.db.source (env.now (s.tick + 1)) r rs b in
        rw reads (
          (λ h. let (same, i) = both.0 (ok-injective h) in (ap ok same, i)),
          λ (h, i). ap ok (both.1 (ok-injective h, i)),
        )
  ]

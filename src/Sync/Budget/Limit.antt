-- ===== src/Sync/Budget/Limit.antt =====
-- What spendRequest guarantees of the log of requests.
use nanci.Prelude.{
  ℕ, ◌+◌, ◌-◌, ◌*◌, ◌≤◌, ◌<◌, ◌≡◌, refl, Bool, true, false, ◌&&◌, List, [], ◌∷◌, some, arith, ltb,
  leb, length, Bool-cases, inl, inr, if◌then◌else◌, Option-cases, ◌==◌,
}
use nanci.Sync.Env.{Env, Run, Result, ok, fail}
use nanci.Sync.Error.{rate_budget}
use nanci.Sync.Rows.{hour, requests_from, oldest}
use nanci.Sync.Budget.{spend_request}

-- how many of the times lie in the closed hour that begins at `a`
abbrev pub in_hour : ℕ → List ℕ → ℕ
in_hour a [] = 0
in_hour a (t ∷ ts) = (if leb a t && leb t (a + hour) then 1 else 0) + in_hour a ts

-- No hour, wherever it begins, holds more than `limit` requests.
abbrev pub IsWithinBudget : ℕ → List ℕ → Type 0
IsWithinBudget limit ts = (a : ℕ) → in_hour a ts ≤ limit

in_hour-requests_from :
    (a since : ℕ) (ts : List ℕ) → in_hour a (requests_from since ts) ≤ in_hour a ts
unfolding requests_from
in_hour-requests_from a since [] = omega arith
in_hour-requests_from a since (t ∷ ts) = ground (arith, in_hour-requests_from a since ts)

in_hour-le-length :
    (a since : ℕ) (ts : List ℕ) → since ≤ a → in_hour a ts ≤ length (requests_from since ts)
unfolding requests_from
in_hour-le-length a since [] h = omega arith
in_hour-le-length a since (t ∷ ts) h = ground (arith, in_hour-le-length a since ts)

pub record_IsWithinBudget :
    (limit now old : ℕ) (ts : List ℕ)
    → length (requests_from (now - hour) ts) < limit
    → IsWithinBudget limit ts
    → IsWithinBudget limit (requests_from old (now ∷ ts))
record_IsWithinBudget limit now old ts room h a =
    ground (arith, h a, in_hour-requests_from a old (now ∷ ts), in_hour-le-length a (now - hour) ts)

oldest-requests_from :
    (since t : ℕ) (ts : List ℕ) → oldest (requests_from since ts) ≡ some t → since ≤ t
unfolding oldest requests_from
oldest-requests_from since t [] h = absurd (cc)
oldest-requests_from since t (u ∷ ts) h = elim (Option-cases (oldest (requests_from since ts))) [
  | inl e ↦ ground (arith, e)
  | inr (v, e) ↦ ground (arith, e, oldest-requests_from since v ts e)
]

oldest-some : (ts : List ℕ) → 0 < length ts → (t : ℕ) × (oldest ts ≡ some t)
unfolding oldest
oldest-some [] h = elim h [ ]
oldest-some (t ∷ ts) h = elim (Option-cases (oldest ts)) [
  | inl e ↦ (t, rw e)
  | inr (v, e) ↦ elim (Bool-cases (ltb t v)) [
    | inl lt ↦ (t, ground (arith, e))
    | inr ge ↦ (v, ground (arith, e))
  ]
]

module _ {S : Type 0} (env : Env S) where
  -- what a refusal leaves behind
  pub record Refused (limit : ℕ) (s t : Run S) : Type 0 where
    pub full : limit ≤ length (requests_from (env.now s.tick - hour) s.db.requests.log)
    pub unsent : t.db.requests ≡ s.db.requests
    pub until : ℕ
    pub blocked : t.db.source.blocked_until ≡ some until
    pub reason : t.db.source.blocked_reason ≡ rate_budget
    pub later : env.now s.tick ≤ until

  -- what a grant leaves behind
  pub record Granted (limit : ℕ) (s t : Run S) : Type 0 where
    pub room : length (requests_from (env.now s.tick - hour) s.db.requests.log) < limit
    pub sent : t.db.requests ≡ record (s.db.requests) {
      log = requests_from (env.now s.tick - 24 * hour) (env.now s.tick ∷ s.db.requests.log);
    }
    pub unblocked : t.db.source ≡ s.db.source

  abbrev pub Answered : ℕ → Run S → Result Bool × Run S → Type 0
  Answered limit s (fail e, t) = t.db ≡ s.db
  Answered limit s (ok false, t) = Refused limit s t
  Answered limit s (ok true, t) = Granted limit s t

  pub spend_request-Answered :
      (limit : ℕ) (s : Run S) → 0 < limit → Answered limit s (spend_request env limit s)
  unfolding spend_request
  spend_request-Answered limit s pos =
      let rows = requests_from (env.now s.tick - hour) s.db.requests.log in
      let nonzero : (limit == 0) ≡ false = ground arith in
      elim (Option-cases (env.fault s.tick)) [
        | inr (e, read_fails) ↦ rw (nonzero, read_fails) refl
        | inl reads ↦ elim (Bool-cases (leb limit (length rows))) [
          | inl full ↦ elim (Option-cases (env.fault (s.tick + 1))) [
            | inr (e, write_fails) ↦ rw (nonzero, reads, full, write_fails) refl
            | inl writes ↦
                let (t, first) = oldest-some rows (ground arith) in
                rw (nonzero, reads, full, writes, first)
                  (record {
                    full = ground arith;
                    unsent = refl;
                    until = t + hour;
                    blocked = refl;
                    reason = refl;
                    later = ground (
                      arith,
                      oldest-requests_from (env.now s.tick - hour) t s.db.requests.log first,
                    );
                  })
          ]
          | inr room ↦ elim (Option-cases (env.fault (s.tick + 1))) [
            | inr (e, write_fails) ↦ rw (nonzero, reads, room, write_fails) refl
            | inl writes ↦
                rw (nonzero, reads, room, writes)
                  (record { room = ground arith; sent = refl; unblocked = refl })
          ]
        ]
      ]

  pub spend_request-frame :
      (limit : ℕ) (s : Run S)
      → ((spend_request env limit s).1.db.state ≡ s.db.state)
        × ((spend_request env limit s).1.db.content ≡ s.db.content)
        × ((spend_request env limit s).1.rt ≡ s.rt)
  unfolding spend_request
  spend_request-frame limit s = ground arith

  -- a grant takes a call of the database, at least
  pub spend_request-later :
      (limit : ℕ) (s : Run S)
      → 0 < limit
      → (spend_request env limit s).0 ≡ ok true
      → s.tick < (spend_request env limit s).1.tick
  unfolding spend_request
  spend_request-later limit s pos = ground arith

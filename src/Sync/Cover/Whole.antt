-- ===== src/Sync/Cover/Whole.antt =====
-- What a whole run of internal/sync/loop.go leaves covered.
use nanci.Prelude.{ap, ℕ, ◌≡◌, refl, inl, inr, Option, none, some, arith}
use mathlib.Core.Path.{subst}
use nanci.Sync.Error.{Err}
use nanci.Sync.Types.{Item, SyncMode, SyncState, normal, first_setup}
use nanci.Sync.Env.{Env, Run, Result, ok, fail}
use nanci.Sync.Store.Commit.{cursor_of, Result-cases}
use nanci.Sync.Store.{get_or_create_state, source_state, start_run}
use nanci.Sync.Store.Start.{
  content-get_or_create_state, state-get_or_create_state, get_or_create_state-ok,
  source_state-frame, start_run-frame, finish_run-frame,
}
use nanci.Sync.Loop.{
  Ending, rounds, sync, set_up, after_set_up, finish_all, finish_params, start_cursor,
}
use nanci.Sync.Cover.{IsFeed, Covers, Covered, IsCovered}
use nanci.Sync.Cover.Rounds.{rounds-IsCovered, same_start, same_run}

module _ {S : Type 0} (env : Env S) (Feed : Item → Type 0) (Seen : S → Item → Type 0)
    (feed : IsFeed env Feed Seen) where
  -- what the start of a run leaves
  record Ready (r : Result ℕ) (t : Run S) : Type 0 where
    persisted : Covered env Feed Seen t.db.content (cursor_of t.db.state)
    start :
        (cursor : ℕ)
        → r ≡ ok cursor
        → IsCovered env Feed Seen t × Covers env Feed Seen t.db.content cursor

  -- after the row is read or made
  Covered-loaded :
      (s : Run S)
      → Covered env Feed Seen s.db.content (cursor_of s.db.state)
      → Covered env Feed Seen
          (get_or_create_state env s).1.db.content
          (cursor_of (get_or_create_state env s).1.db.state)
  Covered-loaded s h = elim (state-get_or_create_state env s) [
    | inl e ↦ rw (content-get_or_create_state, e) h
    | inr e ↦
        rw (content-get_or_create_state, e)
          (λ x fed le. absurd (omega (arith, le, feed.positive x fed)))
  ]

  Covered-zero : (c : S) → Covers env Feed Seen c 0
  Covered-zero c x fed le = absurd (omega (arith, le, feed.positive x fed))

  Covers-start_cursor :
      (c : S) (mode : SyncMode) (st : SyncState)
      → Covers env Feed Seen c st.last_processed_nsu
      → Covers env Feed Seen c (start_cursor env mode st)
  Covers-start_cursor c normal st h = h
  Covers-start_cursor c first_setup st h = Covered-zero c

  unready :
      (e : Err) (t : Run S)
      → Covered env Feed Seen t.db.content (cursor_of t.db.state)
      → Ready (fail e) t
  unready e t h = record { persisted = h; start = λ cursor bad. absurd (cc) }

  set_up-Ready :
      (mode : SyncMode) (s : Run S)
      → Covered env Feed Seen s.db.content (cursor_of s.db.state)
      → Ready (set_up env mode s).0 (set_up env mode s).1
  set_up-Ready mode s h = elim (Result-cases (get_or_create_state env s).0) [
    | inr (e, a) ↦ rw a (unready _ s1 h1)
    | inl (st, a) ↦
        let h1' : Covered env Feed Seen s1.db.content (some st.last_processed_nsu) =
          rw (ap cursor_of (get_or_create_state-ok env s st a)) at h1 in
        elim (Result-cases (source_state env s1).0) [
          | inr (e, b) ↦ rw (a, b) (unready _ s2 h2)
          | inl (source, b) ↦
              let (state, content, requests) = start_run-frame env mode st.last_processed_nsu s2 in
              let s3 = (start_run env mode st.last_processed_nsu s2).1 in
              let h3 : Covered env Feed Seen s3.db.content (cursor_of s3.db.state) =
                rw (content, state) h2 in
              elim (Result-cases (start_run env mode st.last_processed_nsu s2).0) [
                | inr (e, c) ↦ rw (a, b, c) (unready _ s3 h3)
                | inl (id, c) ↦
                    let covered : Covers env Feed Seen s3.db.content st.last_processed_nsu =
                      rw (content, frame) h1' in
                    rw (a, b, c)
                      (record {
                        persisted = h3;
                        start = λ cursor same. (
                          record { in_memory = covered; persisted = h3 },
                          rw (← (same_start same))
                              (Covers-start_cursor s3.db.content mode st covered),
                        );
                      })
              ]
        ]
  ]
    where
      s1 : Run S
      s1 = (get_or_create_state env s).1

      h1 : Covered env Feed Seen s1.db.content (cursor_of s1.db.state)
      h1 = Covered-loaded s h

      s2 : Run S
      s2 = (source_state env s1).1

      frame : s2.db ≡ s1.db
      frame = source_state-frame env s1

      h2 : Covered env Feed Seen s2.db.content (cursor_of s2.db.state)
      h2 = rw frame h1

  finish_all-Covered :
      (end : Option (Ending × Run S)) (t : Run S) {r : Option Err}
      → ((e : Ending) (u : Run S) → end ≡ some (e, u) → IsCovered env Feed Seen u)
      → finish_all env end ≡ some (r, t)
      → Covered env Feed Seen t.db.content (cursor_of t.db.state)
  finish_all-Covered none t inv h = absurd (cc)
  finish_all-Covered (some (e, u)) t inv h =
      let (state, content, requests) = finish_run-frame env (finish_params env e u.rt) u in
      subst (λ (x : Run S). Covered env Feed Seen x.db.content (cursor_of x.db.state)) (same_run h)
        (rw (content, state) (inv e u refl).persisted)

  after_set_up-Covered :
      (fuel : ℕ) (x : Result ℕ) (u t : Run S) {r : Option Err}
      → Ready x u
      → after_set_up env fuel x u ≡ some (r, t)
      → Covered env Feed Seen t.db.content (cursor_of t.db.state)
  after_set_up-Covered fuel (fail e) u t ready h =
      subst (λ (x : Run S). Covered env Feed Seen x.db.content (cursor_of x.db.state)) (same_run h)
        ready.persisted
  after_set_up-Covered fuel (ok cursor) u t ready h =
      let (inv, behind) = ready.start cursor refl in
      finish_all-Covered (rounds env fuel cursor u) t
        (λ e v ended. rounds-IsCovered env Feed Seen feed fuel cursor u inv behind ended) h

  -- What Sync/Cover/Journal applies: a run keeps the persisted cursor covered.
  pub sync-Covered :
      (fuel : ℕ) (mode : SyncMode) (s t : Run S) {r : Option Err}
      → Covered env Feed Seen s.db.content (cursor_of s.db.state)
      → sync env fuel mode s ≡ some (r, t)
      → Covered env Feed Seen t.db.content (cursor_of t.db.state)
  unfolding sync
  sync-Covered fuel mode s t h eq =
      after_set_up-Covered fuel (set_up env mode s).0 (set_up env mode s).1 t
        (set_up-Ready mode s h) eq

-- ===== src/Sync/Item/Poison.antt =====
-- An item that cannot be read: it stops the run twice, and the third time it is given up.
use nanci.Prelude.{
  ℕ, ◌+◌, ◌≤◌, ◌<◌, ◌≡◌, ◌≢◌, refl, sym, ap, ◌==◌, ==_iff, Option-cases, ◌⊎◌, inl, inr, true, false,
  none, some, arith, ltb, Bool-cases,
}
use nanci.Sync.Error.{
  Err, is_processing, is_canceled, failure, wrap, failed, process_error, process_error_code,
}
use nanci.Sync.Types.{Item, SyncState}
use nanci.Sync.Env.{Env, Run, ok, fail}
use nanci.Sync.Rows.{count_failure, do_persist_progress, update_state}
use nanci.Sync.Store.{record_item_failure, persist_progress, apply_with_progress}
use nanci.Sync.Item.{
  process_item, source_process_item, skip_poison_item, checkpoint_failure, item_progress,
  progress_params, settle, failed_progress, count_error,
}
use nanci.Sync.Item.Source.{prepared}

-- How many runs in a row have failed on the NSU, with this one: one more than the row says where it names the NSU, and
-- the first where it names another or none.
pub data IsAttempt (nsu : ℕ) (st : SyncState) : ℕ → Type 0 where
  again : st.failed_nsu ≡ some nsu → IsAttempt nsu st (st.failed_nsu_attempts + 1)
  anew : st.failed_nsu ≢ some nsu → IsAttempt nsu st 1

count_failure-IsAttempt :
    (nsu : ℕ) (st : SyncState) → IsAttempt nsu st (count_failure nsu st).failed_nsu_attempts
unfolding count_failure
count_failure-IsAttempt nsu st = elim (Option-cases st.failed_nsu) [
  | inl e ↦ rw e (anew (λ h. absurd (cc)))
  | inr (n, e) ↦ elim (Bool-cases (nsu == n)) [
    | inl same ↦ rw (e, same) (again (ap some (sym ((==_iff nsu n).0 same))))
    | inr other ↦
        rw (e, other)
          (anew (λ h.
            let eq : n ≡ nsu = cc in
            let hit : (nsu == n) ≡ true = (==_iff nsu n).1 (sym eq) in absurd (cc (hit, other))))
  ]
]

module _ {S : Type 0} (env : Env S) where
  -- the run failed on the item for the `attempts`th time in a row, and the cursor did not move
  pub record IsHeld (item : Item) (attempts : ℕ) (s t : Run S) : Type 0 where
    pub state : SyncState
    pub stored : t.db.state ≡ some state
    pub cursor : state.last_processed_nsu ≡ s.rt.last_processed_nsu
    pub failing : state.failed_nsu ≡ some item.nsu
    pub count : state.failed_nsu_attempts ≡ attempts
    pub early : attempts < 3
    pub error : t.rt.errors_count ≡ s.rt.errors_count + 1

  -- the item was passed over as unsupported
  pub record IsSkipped (item : Item) (attempts : ℕ) (s t : Run S) : Type 0 where
    pub state : SyncState
    pub stored : t.db.state ≡ some state
    pub cursor : state.last_processed_nsu ≡ item.nsu
    pub late : 3 ≤ attempts
    pub unsupported : t.rt.unsupported ≡ s.rt.unsupported + 1
    pub last : t.rt.last_processed_nsu ≡ item.nsu

  counted :
      (item : Item) (s : Run S) (st : SyncState) (e : Err)
      → ((n : ℕ) → env.fault n ≡ none)
      → s.db.state ≡ some st
      → (prepared env item s).0 ≡ fail e
      → is_processing e ≡ true
      → is_canceled e ≡ false
      → (((process_item env item s).0
            ≡ fail
                (failure (wrap "failed to process NSU" e) failed process_error process_error_code))
          × IsHeld item
              (count_failure item.nsu st).failed_nsu_attempts
              s
              (process_item env item s).1)
        ⊎ (((process_item env item s).0 ≡ ok tt)
            × IsSkipped item
                (count_failure item.nsu st).failed_nsu_attempts
                s
                (process_item env item s).1)
  unfolding process_item source_process_item skip_poison_item record_item_failure checkpoint_failure
      persist_progress apply_with_progress do_persist_progress update_state item_progress
      progress_params settle
  counted item s st e works found refuses bad other =
      elim (Bool-cases (ltb (count_failure item.nsu st).failed_nsu_attempts 3)) [
        | inl early ↦ inl (
          rw (refuses, other, bad, works (s.tick + 1), found, early, works (s.tick + 1 + 1)) refl,
          rw (refuses, other, bad, works (s.tick + 1), found, early, works (s.tick + 1 + 1))
              (record {
                state =
                    update_state (env.now (s.tick + 1 + 1)) (failed_progress e (count_error s.rt))
                      (count_failure item.nsu st);
                stored = refl;
                cursor = refl;
                failing = refl;
                count = refl;
                early = ground (arith, early);
                error = refl;
              }),
        )
        | inr late ↦ inr (
          rw
              (
                refuses,
                other,
                bad,
                works (s.tick + 1),
                found,
                late,
                works (s.tick + 1 + 1),
                works (s.tick + 1 + 1 + 1),
              )
              refl,
          rw
              (
                refuses,
                other,
                bad,
                works (s.tick + 1),
                found,
                late,
                works (s.tick + 1 + 1),
                works (s.tick + 1 + 1 + 1),
              )
              (record {
                state =
                    update_state (env.now (s.tick + 1 + 1 + 1)) (item_progress item s.rt)
                      (count_failure item.nsu st);
                stored = refl;
                cursor = refl;
                late = ground (arith, late);
                unsupported = ground arith;
                last = refl;
              }),
        )
      ]

  -- An item that fails to decode or parse, on a database that works, is counted as one more attempt if the failing NSU
  -- of the row is its own, and as the first otherwise. Below three attempts the run fails and the cursor stays, with the
  -- count in the row; from three on the run passes the item as unsupported.
  pub process_item-poison :
      (item : Item) (s : Run S) (st : SyncState) (e : Err)
      → ((n : ℕ) → env.fault n ≡ none)
      → s.db.state ≡ some st
      → (prepared env item s).0 ≡ fail e
      → is_processing e ≡ true
      → is_canceled e ≡ false
      → (attempts : ℕ) × IsAttempt item.nsu st attempts
        × ((((process_item env item s).0
                ≡ fail (
                    failure
                      (wrap "failed to process NSU" e)
                      failed
                      process_error
                      process_error_code))
              × IsHeld item attempts s (process_item env item s).1)
            ⊎ (((process_item env item s).0 ≡ ok tt)
                × IsSkipped item attempts s (process_item env item s).1))
  process_item-poison item s st e works found refuses bad other = (
    (count_failure item.nsu st).failed_nsu_attempts,
    count_failure-IsAttempt item.nsu st,
    counted item s st e works found refuses bad other,
  )

-- ===== src/Sync/Cover/OneBatch.antt =====
-- One batch keeps the cursors covered, and its next cursor too.
use nanci.Prelude.{ℕ, ◌≡◌, inl, inr, Bool, false, arith, leb, Bool-cases}
use nanci.Sync.Error.{Err}
use nanci.Sync.Types.{Item, Batch}
use nanci.Sync.Env.{Env, Run, Result, ok, fail, pure, ◌>>◌}
use nanci.Sync.Store.Commit.{cursor_of}
use nanci.Sync.Batch.{
  process_batch, process_items, close_batch, fetch_batch, record_wait, checkpoint_batch,
  complete_initial_sync,
}
use nanci.Sync.Batch.Stages.{
  bind_rule, Still, fetch_batch-Still, fetch_batch-fetch, record_wait-Still,
  complete_initial_sync-Still, last-close_batch, Closed, checkpoint_batch-Closed,
}
use nanci.Sync.Cover.{IsFeed, Covers, IsCovered}
use nanci.Sync.Cover.Items.{Covered-moved, Ahead, process_items-Reached}

same_batch : {a b : Batch} → ◌≡◌ {A = Result Batch} (ok a) (ok b) → a ≡ b
same_batch e = cc

module _ {S : Type 0} (env : Env S) (Feed : Item → Type 0) (Seen : S → Item → Type 0)
    (feed : IsFeed env Feed Seen) where
  Still-IsCovered :
      (s t : Run S) → Still s t → IsCovered env Feed Seen s → IsCovered env Feed Seen t
  Still-IsCovered s t k inv = record {
    in_memory = rw (k.content, k.last) inv.in_memory;
    persisted = rw (k.content, k.cursor) inv.persisted;
  }

  Closed-IsCovered :
      (batch : Batch) (s t : Run S)
      → Closed env batch s t
      → Covers env Feed Seen s.db.content batch.next_cursor
      → IsCovered env Feed Seen s
      → IsCovered env Feed Seen t
  Closed-IsCovered batch s t k all inv =
      let reached : Covers env Feed Seen s.db.content (close_batch batch s.rt).last_processed_nsu =
        elim (last-close_batch env batch s.rt) [ inl e ↦ rw e inv.in_memory | inr e ↦ rw e all ] in
      record {
        in_memory = rw (k.content, k.rt) reached;
        persisted = elim k.cursor [
          | inl e ↦ rw (k.content, e) inv.persisted
          | inr e ↦
              rw (k.content, e)
                (Covered-moved env Feed Seen feed _ (cursor_of s.db.state) _ reached)
        ];
      }

  -- what a batch leaves: the cursors covered, and its next cursor too where it succeeds
  pub record BatchDone (r : Result Batch) (t : Run S) : Type 0 where
    pub inv : IsCovered env Feed Seen t
    pub all : (b : Batch) → r ≡ ok b → Covers env Feed Seen t.db.content b.next_cursor

  failed_batch : (e : Err) (t : Run S) → IsCovered env Feed Seen t → BatchDone (fail e) t
  failed_batch e t inv = record { inv = inv; all = λ b bad. absurd (cc) }

  -- before its first item, the fetched batch holds all that is left up to its next cursor
  ahead :
      (cursor : ℕ) (batch : Batch) (s t : Run S)
      → env.fetch s.tick cursor ≡ ok batch
      → IsCovered env Feed Seen t
      → Covers env Feed Seen t.db.content cursor
      → Ahead env Feed Seen feed cursor batch.next_cursor batch.items t
  ahead cursor batch s t fetched inv behind = record {
    inv = inv;
    behind = behind;
    left = λ x fed le. elim (Bool-cases (leb x.nsu cursor)) [
      | inl old ↦ inl (behind x fed (ground arith))
      | inr new ↦ inr (feed.complete s.tick cursor batch x fetched fed (ground arith) le)
    ];
    order = feed.ascending s.tick cursor batch fetched;
    bound = feed.within s.tick cursor batch fetched;
  }

  -- the end of a batch whose items are done
  close :
      (batch : Batch) (any : Bool) (s : Run S)
      → IsCovered env Feed Seen s
      → Covers env Feed Seen s.db.content batch.next_cursor
      → BatchDone
          ((checkpoint_batch env batch any >> (complete_initial_sync env batch >> pure batch)) s).0
          ((checkpoint_batch env batch any >> (complete_initial_sync env batch >> pure batch)) s).1
  close batch any s inv all =
      let k1 = checkpoint_batch-Closed env batch any s in
      let s1 = (checkpoint_batch env batch any s).1 in
      let inv1 = Closed-IsCovered batch s s1 k1 all inv in
      let k2 = complete_initial_sync-Still env batch s1 in
      let inv2 = Still-IsCovered s1 _ k2 inv1 in
      bind_rule BatchDone (checkpoint_batch env batch any) _ s (λ e bad. failed_batch e _ inv1)
        λ u closed.
          bind_rule BatchDone (complete_initial_sync env batch) (λ _. pure batch) s1
            (λ e bad. failed_batch e _ inv2)
            λ v completed. record {
              inv = inv2;
              all = λ b same. rw (k2.content, k1.content, ← (same_batch same)) all;
            }

  pub process_batch-BatchDone :
      (cursor : ℕ) (s : Run S)
      → IsCovered env Feed Seen s
      → Covers env Feed Seen s.db.content cursor
      → BatchDone (process_batch env cursor s).0 (process_batch env cursor s).1
  unfolding process_batch
  process_batch-BatchDone cursor s inv behind =
      bind_rule BatchDone (fetch_batch env cursor) _ s
        (λ e bad. failed_batch e _ (Still-IsCovered s _ (fetch_batch-Still env cursor s) inv))
        λ batch got.
          let k1 = fetch_batch-Still env cursor s in
          let s1 = (fetch_batch env cursor s).1 in
          let inv1 = Still-IsCovered s s1 k1 inv in
          bind_rule BatchDone (record_wait env batch) _ s1
            (λ e bad. failed_batch e _ (Still-IsCovered s1 _ (record_wait-Still env batch s1) inv1))
            λ u waited.
              let k2 = record_wait-Still env batch s1 in
              let s2 = (record_wait env batch s1).1 in
              let inv2 = Still-IsCovered s1 s2 k2 inv1 in
              let behind2 : Covers env Feed Seen s2.db.content cursor =
                rw (k2.content, k1.content) behind in
              let fetched = fetch_batch-fetch env cursor s batch got in
              let done =
                process_items-Reached env Feed Seen feed cursor batch.next_cursor batch.items false
                  s2 (ahead cursor batch s s2 fetched inv2 behind2) in
              bind_rule BatchDone (process_items env cursor batch.items false) _ s2
                (λ e bad. failed_batch e _ done.inv)
                λ any finished. close batch any _ done.inv (done.all any finished)

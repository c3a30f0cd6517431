-- ===== src/Sync/Item/Source.antt =====
-- What ProcessItem of the source and skipPoisonItem leave behind, on every branch.
use nanci.Prelude.{ℕ, ◌+◌, ◌≡◌, ap, ◌∙◌, refl, ◌⊎◌, inl, inr, true, some, ltb, Bool-cases}
use nanci.Sync.Error.{Err, is_processing, wrap}
use nanci.Sync.Types.{Item, ItemOutcome, Progress}
use nanci.Sync.Env.{Env, Db, Run, Result, ok, fail, Write, relabel}
use nanci.Sync.Store.{record_item_failure}
use nanci.Sync.Store.Commit.{
  cursor_of, moved, Result-cases, Applied, rolled_back, committed, apply_with_progress-Applied,
  Kept, Kept-refl, record_item_failure-Kept,
}
use nanci.Sync.Item.{give_up_outcome, source_process_item, skip_poison_item}

module _ {S : Type 0} (env : Env S) where
  -- what `prepare` gives for the item, and the content that it leaves
  abbrev pub prepared : Item → Run S → Result (Write S) × S
  prepared item s = env.prepare s.tick s.rt.source item s.db.content

  -- where the item is prepared, and not yet committed
  abbrev pub at_content : Run S → S → Db S
  at_content s content = record (s.db) { content = content }

  -- How ProcessItem of the source can end.
  pub data Sourced (item : Item) (p : Progress) (s : Run S)
      : Result ItemOutcome → Run S → Type 0 where
    refused :
        {e : Err} {t : Run S}
        → (prepared item s).0 ≡ fail e
        → t.db ≡ at_content s (prepared item s).1
        → t.rt ≡ s.rt
        → Sourced item p s (fail e) t
    uncommitted :
        {d : Err} {t : Run S} (write : Write S)
        → (prepared item s).0 ≡ ok write
        → ((n : ℕ) × (env.fault n ≡ some d)) ⊎ (write (prepared item s).1 ≡ fail d)
        → t.db ≡ at_content s (prepared item s).1
        → t.rt ≡ s.rt
        → Sourced item p s (fail (wrap "db apply failed" d)) t
    stored :
        {o : ItemOutcome} {content : S} {t : Run S} (write : Write S)
        → (prepared item s).0 ≡ ok write
        → write (prepared item s).1 ≡ ok (o, content)
        → t.db.content ≡ content
        → cursor_of t.db.state ≡ moved (cursor_of s.db.state) p.last_processed_nsu
        → t.db.source ≡ s.db.source
        → t.db.requests ≡ s.db.requests
        → t.rt ≡ s.rt
        → Sourced item p s (ok o) t

  -- the state in which ProcessItem calls commit
  abbrev to_commit : Item → Run S → Run S
  to_commit item s = record s { db = at_content s (prepared item s).1; tick = s.tick + 1 }

  from_commit :
      (item : Item) (p : Progress) (s : Run S) (write : Write S) {r : Result ItemOutcome}
      {t : Run S}
      → (prepared item s).0 ≡ ok write
      → Applied env p write (to_commit item s) r t
      → Sourced item p s (relabel (wrap "db apply failed") r) t
  from_commit item p s write prepares (rolled_back cause db rt) =
      uncommitted write prepares cause db rt
  from_commit item p s write prepares (committed writes content cursor source requests rt) =
      stored write prepares writes content cursor source requests rt

  pub source_process_item-Sourced :
      (item : Item) (p : Progress) (s : Run S)
      → Sourced item p s (source_process_item env item p s).0 (source_process_item env item p s).1
  unfolding source_process_item
  source_process_item-Sourced item p s = elim (Result-cases (prepared item s).0) [
    | inr (e, refuses) ↦ rw refuses (refused refuses refl refl)
    | inl (write, prepares) ↦ rw prepares (
        from_commit item p s write prepares
          (apply_with_progress-Applied env p write (to_commit item s)))
  ]

  -- How skipPoisonItem can end.
  pub data Skipped (item : Item) (e : Err) (p : Progress) (s : Run S)
      : Result ItemOutcome → Run S → Type 0 where
    gave_up :
        {t : Run S}
        → is_processing e ≡ true
        → t.db.content ≡ s.db.content
        → cursor_of t.db.state ≡ moved (cursor_of s.db.state) p.last_processed_nsu
        → t.db.source ≡ s.db.source
        → t.db.requests ≡ s.db.requests
        → t.rt ≡ s.rt
        → Skipped item e p s (ok (give_up_outcome item)) t
    held : {d : Err} {t : Run S} → Kept s t → Skipped item e p s (fail d) t

  abbrev give_up_write : Item → Write S
  give_up_write item = λ content. ok (give_up_outcome item, content)

  from_give_up :
      (item : Item) (e : Err) (p : Progress) (s u : Run S) {r : Result ItemOutcome} {t : Run S}
      → is_processing e ≡ true
      → Kept s u
      → Applied env p (give_up_write item) u r t
      → Skipped item e p s (relabel (wrap "persist unsupported item progress failed") r) t
  from_give_up item e p s u bad k (rolled_back cause db rt) = held (record {
    content = ap (λ (d : Db S). d.content) db ∙ k.content;
    cursor = ap (λ (d : Db S). cursor_of d.state) db ∙ k.cursor;
    source = ap (λ (d : Db S). d.source) db ∙ k.source;
    requests = ap (λ (d : Db S). d.requests) db ∙ k.requests;
    rt = rt ∙ k.rt;
  })
  from_give_up item e p s u bad k (committed {o = o} writes content cursor source requests rt) =
      let same : o ≡ give_up_outcome item = cc in
      rw same (
        gave_up bad (cc (content, k.content)) (rw (← k.cursor) cursor) (source ∙ k.source)
          (requests ∙ k.requests) (rt ∙ k.rt))

  pub skip_poison_item-Skipped :
      (item : Item) (e : Err) (p : Progress) (s : Run S)
      → Skipped item e p s (skip_poison_item env item e p s).0 (skip_poison_item env item e p s).1
  unfolding skip_poison_item
  skip_poison_item-Skipped item e p s = elim (Bool-cases (is_processing e)) [
    | inr other ↦ rw other (held (Kept-refl s))
    | inl bad ↦
        let (r, u) = record_item_failure env item.nsu s in
        let kept : Kept s u = record_item_failure-Kept env item.nsu s in
        rw bad (elim (Result-cases r) [
          | inr (d, unknown) ↦ rw unknown (held kept)
          | inl (attempts, counted) ↦ elim (Bool-cases (ltb attempts 3)) [
            | inl early ↦ rw (counted, early) (held kept)
            | inr late ↦
                rw (counted, late)
                  (from_give_up item e p s u bad kept
                    (apply_with_progress-Applied env p (give_up_write item) u))
          ]
        ])
  ]

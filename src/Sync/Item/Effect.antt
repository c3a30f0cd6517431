-- ===== src/Sync/Item/Effect.antt =====
-- What processing one item leaves behind, on every branch.
use nanci.Prelude.{◌≡◌, ap, ap₂, ◌∙◌, refl, ◌⊎◌, inl, inr, true, Bool-cases}
use nanci.Sync.Error.{Err, is_processing, is_canceled, wrap}
use nanci.Sync.Types.{Item, ItemOutcome, Progress, Runtime}
use nanci.Sync.Env.{Env, Db, Run, Result, ok, fail, Write, with_rt}
use nanci.Sync.Store.Commit.{
  cursor_of, moved, Persisted, unwritten, written, persist_progress-Persisted,
}
use nanci.Sync.Item.{
  progress_params, item_progress, failed_progress, item_failure, after_poison, after_process,
  settle, give_up_outcome, count_error, checkpoint_failure, process_item,
}
use nanci.Sync.Item.Source.{
  prepared, at_content, Sourced, refused, uncommitted, stored, source_process_item-Sourced, Skipped,
  gave_up, held, skip_poison_item-Skipped,
}

module _ {S : Type 0} (env : Env S) where
  -- How processItem can end: the item is stored and settled, or given up after failing to parse, or
  -- the cursor stays where the run state has it.
  pub data Processed (item : Item) (s : Run S) : Result (Unit {0}) → Run S → Type 0 where
    settled :
        {o : ItemOutcome} {content : S} {t : Run S} (write : Write S)
        → (prepared env item s).0 ≡ ok write
        → write (prepared env item s).1 ≡ ok (o, content)
        → t.db.content ≡ content
        → cursor_of t.db.state ≡ moved (cursor_of s.db.state) item.nsu
        → t.db.source ≡ s.db.source
        → t.db.requests ≡ s.db.requests
        → t.rt ≡ settle item o s.rt
        → Processed item s (ok tt) t
    given_up :
        {e : Err} {u t : Run S}
        → Sourced env item (item_progress item s.rt) s (fail e) u
        → is_processing e ≡ true
        → t.db.content ≡ (prepared env item s).1
        → cursor_of t.db.state ≡ moved (cursor_of s.db.state) item.nsu
        → t.db.source ≡ s.db.source
        → t.db.requests ≡ s.db.requests
        → t.rt ≡ settle item (give_up_outcome item) (count_error s.rt)
        → Processed item s (ok tt) t
    stopped :
        {e : Err} {t : Run S}
        → t.db.content ≡ (prepared env item s).1
        → (cursor_of t.db.state ≡ cursor_of s.db.state)
          ⊎ (cursor_of t.db.state ≡ moved (cursor_of s.db.state) s.rt.last_processed_nsu)
        → t.db.source ≡ s.db.source
        → t.db.requests ≡ s.db.requests
        → (t.rt ≡ s.rt) ⊎ (t.rt ≡ count_error s.rt)
        → Processed item s (fail e) t

  -- where a failed ProcessItem leaves the rows
  record Unsettled (item : Item) (s u : Run S) : Type 0 where
    content : u.db.content ≡ (prepared env item s).1
    cursor : cursor_of u.db.state ≡ cursor_of s.db.state
    source : u.db.source ≡ s.db.source
    requests : u.db.requests ≡ s.db.requests

  of_db :
      (item : Item) (s u : Run S)
      → u.db ≡ at_content env s (prepared env item s).1
      → Unsettled item s u
  of_db item s u db = record {
    content = ap (λ (d : Db S). d.content) db;
    cursor = ap (λ (d : Db S). cursor_of d.state) db;
    source = ap (λ (d : Db S). d.source) db;
    requests = ap (λ (d : Db S). d.requests) db;
  }

  Sourced-Unsettled :
      (item : Item) (p : Progress) (s : Run S) {e : Err} {u : Run S}
      → Sourced env item p s (fail e) u
      → Unsettled item s u × (u.rt ≡ s.rt)
  Sourced-Unsettled item p s (refused prepares db rt) = (of_db item s _ db, rt)
  Sourced-Unsettled item p s (uncommitted write prepares cause db rt) = (of_db item s _ db, rt)

  last-failed_progress :
      (e : Err) (rt : Runtime) → (failed_progress e rt).last_processed_nsu ≡ rt.last_processed_nsu
  unfolding progress_params
  last-failed_progress e rt = refl

  last-item_progress :
      (item : Item) (rt : Runtime) → (item_progress item rt).last_processed_nsu ≡ item.nsu
  unfolding item_progress
  last-item_progress item rt = refl

  -- A checkpoint of a failure ends the item, and writes the cursor of the run state if anything.
  from_checkpoint :
      (item : Item) (e : Err) (s u : Run S) {r : Result (Unit {0})} {t : Run S}
      → Unsettled item s u
      → u.rt ≡ count_error s.rt
      → Persisted env (failed_progress e u.rt) u r t
      → Processed item s (item_failure env e r t).0 (item_failure env e r t).1
  from_checkpoint item e s u k counted (unwritten kept) =
      stopped (kept.content ∙ k.content) (inl (kept.cursor ∙ k.cursor)) (kept.source ∙ k.source)
        (kept.requests ∙ k.requests) (inr (kept.rt ∙ counted))
  from_checkpoint item e s u k counted (written content cursor source requests rt) =
      stopped (content ∙ k.content)
        (inr (
          cursor
          ∙ ap₂ moved k.cursor
              (last-failed_progress e u.rt ∙ ap (λ (x : Runtime). x.last_processed_nsu) counted)))
        (source ∙ k.source) (requests ∙ k.requests) (inr (rt ∙ counted))

  from_skip :
      (item : Item) (e : Err) (s u v : Run S) {r : Result ItemOutcome} {t : Run S}
      → Sourced env item (item_progress item s.rt) s (fail e) u
      → Unsettled item s v
      → v.rt ≡ count_error s.rt
      → Skipped env item e (item_progress item s.rt) v r t
      → Processed item s (after_poison env item r t).0 (after_poison env item r t).1
  from_skip item e s u v src k counted (gave_up bad content cursor source requests rt) =
      given_up src bad (content ∙ k.content)
        (cursor ∙ ap₂ moved k.cursor (last-item_progress item s.rt)) (source ∙ k.source)
        (requests ∙ k.requests) (ap (settle item (give_up_outcome item)) (rt ∙ counted))
  from_skip item e s u v src k counted (held {d = d} {t = t} kept) =
      unfold checkpoint_failure in
      from_checkpoint item d s t
        (record {
          content = kept.content ∙ k.content;
          cursor = kept.cursor ∙ k.cursor;
          source = kept.source ∙ k.source;
          requests = kept.requests ∙ k.requests;
        })
        (kept.rt ∙ counted) (persist_progress-Persisted env (failed_progress d t.rt) t)

  from_error :
      (item : Item) (s : Run S) (e : Err) (u : Run S)
      → Sourced env item (item_progress item s.rt) s (fail e) u
      → Processed item s
          (after_process env item (item_progress item s.rt) (fail e) u).0
          (after_process env item (item_progress item s.rt) (fail e) u).1
  from_error item s e u src =
      let (k, same) = Sourced-Unsettled item (item_progress item s.rt) s src in
      elim (Bool-cases (is_canceled e)) [
        | inl cancel ↦ rw cancel (stopped k.content (inl k.cursor) k.source k.requests (inl same))
        | inr other ↦
            let v = with_rt u (count_error u.rt) in
            rw other (
              from_skip item e s u v src
                (record {
                  content = k.content;
                  cursor = k.cursor;
                  source = k.source;
                  requests = k.requests;
                })
                (ap count_error same)
                (skip_poison_item-Skipped env item e (item_progress item s.rt) v))
      ]

  from_source :
      (item : Item) (s : Run S) {r : Result ItemOutcome} {t : Run S}
      → Sourced env item (item_progress item s.rt) s r t
      → Processed item s
          (after_process env item (item_progress item s.rt) r t).0
          (after_process env item (item_progress item s.rt) r t).1
  from_source item s (stored write prepares writes content cursor source requests rt) =
      settled write prepares writes content (cursor ∙ ap (moved _) (last-item_progress item s.rt))
        source requests (ap (settle item _) rt)
  from_source item s (refused {e = e} {t = u} prepares db rt) =
      from_error item s e u (refused prepares db rt)
  from_source item s (uncommitted {d = d} {t = u} write prepares cause db rt) =
      from_error item s (wrap "db apply failed" d) u (uncommitted write prepares cause db rt)

  pub process_item-Processed :
      (item : Item) (s : Run S)
      → Processed item s (process_item env item s).0 (process_item env item s).1
  unfolding process_item
  process_item-Processed item s =
      from_source item s (source_process_item-Sourced env item (item_progress item s.rt) s)

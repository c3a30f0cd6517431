-- ===== src/Sync/Cover/Journal.antt =====
-- The journal of a run: which items of the feed had their write committed, for every source.
use nanci.Prelude.{ℕ, ◌<◌, ◌≤◌, ◌≡◌, false, if◌then◌else◌, List, ◌∷◌, some, All, In}
use nanci.Sync.Error.{Err, is_processing}
use nanci.Sync.Types.{Item, Batch, ItemOutcome}
use nanci.Sync.Env.{Env, Result, ok, fail, Write}
use nanci.Sync.Cover.{Ascending}

-- What became of an item: its write was committed, with the outcome that ProcessItem gave (stored, skipped by policy,
-- unsupported), or ProcessItem failed on it with a ProcessingError before the commit.
pub data Note : Type 0 where
  done_as : ItemOutcome → Note
  refused_with : Err → Note

-- The content of a source with the items that were handed over and what became of them. The newest is first.
abbrev pub Journaled : Type 0 → Type 0
Journaled S = S × List (Item × Note)

module _ {S : Type 0} where
  abbrev pub jot :
      Item → List (Item × Note) → Result (ItemOutcome × S) → Result (ItemOutcome × Journaled S)
  jot item journal (fail e) = fail e
  jot item journal (ok (o, c)) = ok (o, (c, (item, done_as o) ∷ journal))

  abbrev pub noted : Item → Result (Write S) → Result (Write (Journaled S))
  noted item (fail e) = fail e
  noted item (ok write) = ok (λ (x : Journaled S). jot item x.1 (write x.0))

  abbrev pub refusal : Item → Result (Write S) → List (Item × Note) → List (Item × Note)
  refusal item (fail e) journal =
      if is_processing e then (item, refused_with e) ∷ journal else journal
  refusal item (ok write) journal = journal

-- The same world and source, with the journal beside the content: a committed write adds its item, and so does a
-- ProcessingError.
abbrev pub journaled : {S : Type 0} → Env S → Env (Journaled S)
journaled {S} env = record {
  fault = env.fault;
  now = env.now;
  new_id = env.new_id;
  done = env.done;
  kind = env.kind;
  requests_per_hour = env.requests_per_hour;
  fetch = env.fetch;
  prepare = λ n source item (x : Journaled S).
      let (r, c) = env.prepare n source item x.0 in (noted item r, (c, refusal item r x.1));
}

module _ {S : Type 0} where
  abbrev pub IsNoted : Journaled S → Item → Type 0
  IsNoted x item = (o : Note) × In (item, o) x.1

module _ {S : Type 0} (env : Env S) (Feed : Item → Type 0) where
  -- What is asked of the service and of the database, and nothing of ProcessItem: NSUs start at 1, a fault of the
  -- database is no ProcessingError, and a batch holds every item of the feed after the cursor up to its next cursor,
  -- in ascending order.
  pub record IsFed : Type 0 where
    pub positive : (x : Item) → Feed x → 0 < x.nsu
    pub plain_fault : (n : ℕ) (e : Err) → env.fault n ≡ some e → is_processing e ≡ false
    pub complete :
        (n cursor : ℕ) (batch : Batch) (x : Item)
        → env.fetch n cursor ≡ ok batch
        → Feed x
        → cursor < x.nsu
        → x.nsu ≤ batch.next_cursor
        → In x batch.items
    pub ascending :
        (n cursor : ℕ) (batch : Batch) → env.fetch n cursor ≡ ok batch → Ascending batch.items
    pub within :
        (n cursor : ℕ) (batch : Batch)
        → env.fetch n cursor ≡ ok batch
        → All (λ (x : Item). x.nsu ≤ batch.next_cursor) batch.items

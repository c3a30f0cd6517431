-- ===== src/Sync/Cover.antt =====
-- No item at or below a persisted cursor is lost: what a run keeps, whatever the world does.
pub mod Rounds
pub mod Items
pub mod OneBatch
pub mod Whole
pub mod Journal
use nanci.Prelude.{ℕ, ◌<◌, ◌≤◌, ◌≡◌, ◌⊎◌, true, false, List, [], ◌∷◌, Option, none, some, All, In}
use nanci.Sync.Error.{Err, is_processing}
use nanci.Sync.Types.{Item, Batch, ItemOutcome, SourceState}
use nanci.Sync.Env.{Env, Run, ok, fail, Write}
use nanci.Sync.Store.Commit.{cursor_of}

abbrev pub Ascending : List Item → Type 0
Ascending [] = Unit
Ascending (x ∷ xs) = All (λ (y : Item). x.nsu < y.nsu) xs × Ascending xs

module _ {S : Type 0} (env : Env S) where
  -- The commit of the item fails with a ProcessingError, which is then given up like one that does
  -- not parse.
  pub data Unwritable (x : Item) : Type 0 where
    unwritable :
        (n : ℕ) (src : SourceState) (content : S) (write : Write S) (e : Err)
        → (env.prepare n src x content).0 ≡ ok write
        → write (env.prepare n src x content).1 ≡ fail e
        → is_processing e ≡ true
        → Unwritable x

  -- `Feed` is the items that the distribution holds for the company; `Seen c x` says that the content
  -- `c` shows what became of `x`: contents only grow, and a committed write shows its item, as does a
  -- ProcessingError before the commit. NSUs start at 1, a fault of the database is no
  -- ProcessingError, and a batch holds every item after the cursor up to its next cursor, in
  -- ascending order.
  pub record IsFeed (Feed : Item → Type 0) (Seen : S → Item → Type 0) : Type 0 where
    pub positive : (x : Item) → Feed x → 0 < x.nsu
    pub seen_prepare :
        (n : ℕ) (src : SourceState) (item x : Item) (c : S)
        → Seen c x
        → Seen (env.prepare n src item c).1 x
    pub seen_write :
        (n : ℕ) (src : SourceState) (item x : Item) (b c d : S) (write : Write S) (o : ItemOutcome)
        → (env.prepare n src item b).0 ≡ ok write
        → write c ≡ ok (o, d)
        → Seen c x
        → Seen d x
    pub stores :
        (n : ℕ) (src : SourceState) (item : Item) (b c d : S) (write : Write S) (o : ItemOutcome)
        → (env.prepare n src item b).0 ≡ ok write
        → write c ≡ ok (o, d)
        → Seen d item
    pub refuses :
        (n : ℕ) (src : SourceState) (item : Item) (c : S) (e : Err)
        → (env.prepare n src item c).0 ≡ fail e
        → is_processing e ≡ true
        → Seen (env.prepare n src item c).1 item
    pub plain_fault : (n : ℕ) (e : Err) → env.fault n ≡ some e → is_processing e ≡ false
    pub complete :
        (n cursor : ℕ) (batch : Batch) (x : Item)
        → env.fetch n cursor ≡ ok batch
        → Feed x
        → cursor < x.nsu
        → x.nsu ≤ batch.next_cursor
        → In x batch.items
    pub ascending :
        (n cursor : ℕ) (batch : Batch) → env.fetch n cursor ≡ ok batch → Ascending batch.items
    pub within :
        (n cursor : ℕ) (batch : Batch)
        → env.fetch n cursor ≡ ok batch
        → All (λ (x : Item). x.nsu ≤ batch.next_cursor) batch.items

  module _ (Feed : Item → Type 0) (Seen : S → Item → Type 0) where
    abbrev pub Handled : S → Item → Type 0
    Handled c x = Seen c x ⊎ Unwritable x

    abbrev pub Covers : S → ℕ → Type 0
    Covers c n = (x : Item) → Feed x → x.nsu ≤ n → Handled c x

    abbrev pub Covered : S → Option ℕ → Type 0
    Covered c none = Unit
    Covered c (some n) = Covers c n

    -- The cursor of the run state and the persisted one are both covered.
    pub record IsCovered (s : Run S) : Type 0 where
      pub in_memory : Covers s.db.content s.rt.last_processed_nsu
      pub persisted : Covered s.db.content (cursor_of s.db.state)

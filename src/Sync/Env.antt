-- ===== src/Sync/Env.antt =====
-- The state that a run changes, the world around it, and the actions of the run.
use nanci.Prelude.{ℕ, ◌+◌, ◌≡◌, ◌≢◌, Bool, List, Option, none, some}
use nanci.Sync.Error.{Err}
use nanci.Sync.Types.{
  SyncSource, Item, Batch, ItemOutcome, SourceState, SyncState, SyncRun, Runtime,
}

pub data Result {ℓ} (A : Type ℓ) : Type ℓ where
  ok : A → Result A
  fail : Err → Result A

pub ok-injective : {A : Type 0} {a b : A} → ok a ≡ ok b → a ≡ b
ok-injective h = cc

pub fail-ne-ok : {A : Type 0} {e : Err} {a : A} → fail e ≢ ok a
fail-ne-ok h = cc

-- sync_requests, the log that spendRequest keeps, newest first; and beside it what the service was really sent: the
-- ticks of the calls of Fetch, newest first, which no code reads.
pub record Traffic : Type 0 where
  pub log : List ℕ
  pub sent : List ℕ

-- The rows of one company, source, environment and CNPJ. `content` is what the source itself keeps:
-- the document and event tables and the XML files.
pub record Db (S : Type 0) : Type 0 where
  pub state : Option SyncState
  pub runs : List SyncRun
  pub source : SourceState
  pub requests : Traffic
  pub content : S

-- `tick` counts the steps at which the world may act: database calls, fetches and tests of the context.
pub record Run (S : Type 0) : Type 0 where
  pub db : Db S
  pub rt : Runtime
  pub tick : ℕ

-- What an item writes in its transaction.
abbrev pub Write : Type 0 → Type 0
Write S = S → Result (ItemOutcome × S)

-- The world: `fault n` is the error of the database call made at tick n, `now n` the clock,
-- `new_id n` a generated identifier, `done n` whether the context is cancelled by then. `fetch` and `prepare` are the source. `prepare`
-- is the part of ProcessItem before it calls commit, which it does once, with the write returned.
pub record Env (S : Type 0) : Type 0 where
  pub fault : ℕ → Option Err
  pub now : ℕ → ℕ
  pub new_id : ℕ → ℕ
  pub done : ℕ → Bool
  pub kind : SyncSource
  pub requests_per_hour : ℕ
  pub fetch : ℕ → ℕ → Result Batch
  pub prepare : ℕ → SourceState → Item → S → Result (Write S) × S

abbrev pub Action : Type 0 → Type 0 → Type 0
Action S A = Run S → Result A × Run S

module _ {S : Type 0} where
  abbrev pub advance : Run S → Run S
  advance s = record s { tick = s.tick + 1 }

  abbrev pub with_db : Run S → Db S → Run S
  with_db s db = record s { db = db }

  abbrev pub with_rt : Run S → Runtime → Run S
  with_rt s rt = record s { rt = rt }

module _ {S A : Type 0} (env : Env S) where
  abbrev run_statement : Option Err → (Db S → A) → (Db S → Db S) → Action S A
  run_statement (some e) read write s = (fail e, advance s)
  run_statement none read write s = (ok (read s.db), record (advance s) { db = write s.db })

  -- One statement: it fails and changes nothing, or reads and writes.
  abbrev pub statement : (Db S → A) → (Db S → Db S) → Action S A
  statement read write s = run_statement (env.fault s.tick) read write s

module _ {S A B : Type 0} where
  abbrev pub continue : Result A → (A → Action S B) → Action S B
  continue (ok a) f s = f a s
  continue (fail e) f s = (fail e, s)

  infixl 5 ◌>>=◌ ◌>>◌
  abbrev pub ◌>>=◌ : Action S A → (A → Action S B) → Action S B
  ◌>>=◌ m f s = let (r, s') = m s in continue r f s'

  abbrev pub ◌>>◌ : Action S A → Action S B → Action S B
  m >> n = m >>= λ _. n

  -- The error is looked at, and not returned.
  abbrev pub attempt : Action S A → (Result A → Action S B) → Action S B
  attempt m f s = let (r, s') = m s in f r s'

abbrev pub relabel {ℓ} : {A : Type ℓ} → (Err → Err) → Result A → Result A
relabel f (ok a) = ok a
relabel f (fail e) = fail (f e)

module _ {S A : Type 0} where
  abbrev pub pure : A → Action S A
  pure a s = (ok a, s)

  abbrev pub raise : Err → Action S A
  raise e s = (fail e, s)

  -- `if err != nil { return f(err) }`
  abbrev pub on_error : (Err → Err) → Action S A → Action S A
  on_error f m s = let (r, s') = m s in (relabel f r, s')

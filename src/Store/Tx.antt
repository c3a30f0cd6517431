-- ===== src/Store/Tx.antt =====
-- The transactions of internal/store: statements in a row, of which each may fail, over the rows of the tables.
pub mod Rules
use nanci.Prelude.{ℕ, ◌+◌, Option, none, some}
use nanci.Text.{Bytes}
use nanci.Sync.Error.{Err}
use nanci.Sync.Env.{Result, ok, fail}

-- The world of one call of a repository: `fault n` is the error of its n-th statement, `now` the clock, which
-- it reads once, and `new_id n` the identifier that dfe.GenerateID gives before its n-th statement.
pub record World : Type 0 where
  pub fault : ℕ → Option Err
  pub now : ℕ
  pub new_id : ℕ → Bytes

pub record Session (T : Type 0) : Type 0 where
  pub tables : T
  pub tick : ℕ

-- An error ends the transaction, and the rollback drops what it wrote.
abbrev pub Tx : Type 0 → Type 0 → Type 0
Tx T A = Session T → Result (A × Session T)

module _ {T A : Type 0} where
  abbrev pub pure : A → Tx T A
  pure a s = ok (a, s)

  abbrev pub raise : Err → Tx T A
  raise e s = fail e

module _ {T A B : Type 0} where
  abbrev pub continue : Result (A × Session T) → (A → Tx T B) → Result (B × Session T)
  continue (ok (a, s)) f = f a s
  continue (fail e) f = fail e

  infixl 5 ◌>>=◌ ◌>>◌
  abbrev pub ◌>>=◌ : Tx T A → (A → Tx T B) → Tx T B
  ◌>>=◌ m f s = continue (m s) f

  abbrev pub ◌>>◌ : Tx T A → Tx T B → Tx T B
  m >> n = m >>= λ _. n

module _ {T A : Type 0} (w : World) where
  abbrev ran : Result (A × T) → ℕ → Result (A × Session T)
  ran (ok (a, t)) n = ok (a, record { tables = t; tick = n + 1 })
  ran (fail e) n = fail e

  abbrev unless : Option Err → (T → Result (A × T)) → Tx T A
  unless none f s = ran (f s.tables) s.tick
  unless (some e) f s = fail e

  -- One statement. `f` is what it does where the database works; a violated constraint is its own error.
  unfoldable pub statement : (T → Result (A × T)) → Tx T A
  statement f s = unless (w.fault s.tick) f s

module _ {T A : Type 0} (w : World) where
  -- SELECT
  unfoldable pub query : (T → A) → Tx T A
  unfolding statement
  query f = statement w λ t. ok (f t, t)

module _ {T A : Type 0} (w : World) where
  abbrev pub finished : Result (A × Session T) → Result (A × T)
  finished (ok (a, s)) = ok (a, s.tables)
  finished (fail e) = fail e

  -- BeginTx, the statements, Commit
  unfoldable pub in_transaction : Tx T A → T → Result (A × T)
  unfolding query
  in_transaction m t =
      let step : Tx T (Unit {0}) = query w (λ _. tt) in
      finished ((step >> m >>= λ a. step >> pure a) (record { tables = t; tick = 0 }))

abbrev pub wrote : {T : Type 0} → Result T → Result (Unit {0} × T)
wrote (ok t) = ok (tt, t)
wrote (fail e) = fail e

module _ {T : Type 0} (w : World) where
  -- INSERT, UPDATE or DELETE
  unfoldable pub execute : (T → Result T) → Tx T (Unit {0})
  unfolding statement
  execute f = statement w λ t. wrote (f t)

  unfoldable pub update : (T → T) → Tx T (Unit {0})
  unfolding statement
  update f = statement w λ t. ok (tt, f t)

  -- dfe.GenerateID
  abbrev pub generate_id : Tx T Bytes
  generate_id s = ok (w.new_id s.tick, s)

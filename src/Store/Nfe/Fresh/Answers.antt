-- ===== src/Store/Nfe/Fresh/Answers.antt =====
-- ApplyEventTx and RecordManifestacoes of internal/store/nfe.go keep the derived columns fresh.
use nanci.Prelude.{◌≡◌, ap, inl, inr, Bool, not, List, [], ◌∷◌, Bool-cases, if◌then◌else◌, ℕ}
use mathlib.Core.Path.{subst}
use nanci.Text.{Bytes, Unicode}
use nanci.Sync.Env.{ok}
use nanci.Nfe.Types.{Event}
use nanci.Store.Tx.{World, Session, query, pure, ◌>>=◌, generate_id, execute}
use nanci.Store.Tx.Rules.{bind_ok, query_ok, execute_ok}
use nanci.Store.Nfe.Tables.{
  Tables, ManifestacaoRecord, ManifestacaoStatus, registrada, ja_registrada, rejeitada, erro,
}
use nanci.Store.Nfe.Rows.Events.{has_event, insert_manifestacao_row}
use nanci.Store.Nfe.Apply.{
  refresh_chave, upsert_event, apply_event_tx, keep_event, record_event, record_items,
  manifestacao_event,
}
use nanci.Store.Nfe.Fresh.{IsFresh, IsFreshBut-IsFresh}
use nanci.Store.Nfe.Fresh.Whole.{refresh_chave-IsFresh}
use nanci.Store.Nfe.Fresh.Operations.{upsert_event-IsFreshBut, inserted-IsFresh, merged_ok}

module _ ⦃u : Unicode⦄ (order : List (Event × ℕ) → List (Event × ℕ)) (w : World) where
  kept_event-IsFresh :
      (e : Event) (s : Session Tables) {x : Unit {0}} {s' : Session Tables}
      → keep_event order w e s ≡ ok (x, s')
      → IsFresh order s.tables
      → IsFresh order s'.tables
  kept_event-IsFresh e s h fresh =
      let (x, s1, stored, h1) =
        bind_ok (upsert_event order w e) (λ _. refresh_chave order w e.chave_acesso) s h in
      refresh_chave-IsFresh order w e.chave_acesso s1 h1 (
        upsert_event-IsFreshBut order w e s stored
          (IsFreshBut-IsFresh order e.chave_acesso s.tables fresh))

  -- ApplyEventTx, in the transaction of its caller
  pub apply_event_tx-IsFresh :
      (e : Event) (s : Session Tables) {b : Bool} {s' : Session Tables}
      → apply_event_tx order w e s ≡ ok (b, s')
      → IsFresh order s.tables
      → IsFresh order s'.tables
  unfolding apply_event_tx
  apply_event_tx-IsFresh e s {b} {s'} h fresh =
      let end = λ (exists : Bool) (x : Unit {0}). pure (not exists) in
      let rest = λ (exists : Bool).
        upsert_event order w e >>= λ _. refresh_chave order w e.chave_acesso >>= end exists in
      let (exists, s1, read, h1) = bind_ok (query w (has_event e)) rest s h in
      let (x, s2, stored, h2) =
        bind_ok (upsert_event order w e) (λ _. refresh_chave order w e.chave_acesso >>= end exists)
          s1 h1 in
      let (y, s3, refreshed, h3) =
        bind_ok (refresh_chave order w e.chave_acesso) (end exists) s2 h2 in
      let kept = (query_ok w (has_event e) s read).1 in
      subst (IsFresh order)
        (ap (λ (z : Session Tables). z.tables) (merged_ok (not exists) b s3 s' h3).1)
        (refresh_chave-IsFresh order w e.chave_acesso s2 refreshed (
          upsert_event-IsFreshBut order w e s1 stored
            (IsFreshBut-IsFresh order e.chave_acesso s1.tables (subst (IsFresh order) kept fresh))))

  record_event-IsFresh :
      (status : ManifestacaoStatus) (e : Event) (s : Session Tables) {x : Unit {0}}
      {s' : Session Tables}
      → record_event order w status e s ≡ ok (x, s')
      → IsFresh order s.tables
      → IsFresh order s'.tables
  record_event-IsFresh registrada e s h fresh = kept_event-IsFresh e s h fresh
  record_event-IsFresh rejeitada e s {x} {s'} h fresh =
      subst (IsFresh order) (ap (λ (z : Session Tables). z.tables) (merged_ok tt x s s' h).1) fresh
  record_event-IsFresh erro e s {x} {s'} h fresh =
      subst (IsFresh order) (ap (λ (z : Session Tables). z.tables) (merged_ok tt x s s' h).1) fresh
  record_event-IsFresh ja_registrada e s {x} {s'} h fresh =
      let (exists, s1, read, h1) =
        bind_ok (query w (has_event e)) (λ exists. if exists then pure tt else keep_event order w e)
          s h in
      let here = subst (IsFresh order) (query_ok w (has_event e) s read).1 fresh in
      elim (Bool-cases exists) [
        | inl old ↦
            subst (IsFresh order)
              (ap (λ (z : Session Tables). z.tables) (merged_ok tt x s1 s' (rw old at h1)).1) here
        | inr new ↦ kept_event-IsFresh e s1 (rw new at h1) here
      ]

  -- the loop of RecordManifestacoes
  pub record_items-IsFresh :
      (items : List ManifestacaoRecord) (s : Session Tables) {x : Unit {0}} {s' : Session Tables}
      → record_items order w items s ≡ ok (x, s')
      → IsFresh order s.tables
      → IsFresh order s'.tables
  unfolding record_items
  record_items-IsFresh [] s {x} {s'} h fresh =
      subst (IsFresh order) (ap (λ (z : Session Tables). z.tables) (merged_ok tt x s s' h).1) fresh
  record_items-IsFresh (item ∷ items) s h fresh =
      let insert = λ (id : Bytes). insert_manifestacao_row id item w.now in
      let keep = λ (x : Unit {0}). record_event order w item.status (manifestacao_event item) in
      let one = generate_id w >>= λ id. execute w (insert id) >>= keep in
      let (x, s1, first, more) = bind_ok one (λ _. record_items order w items) s h in
      let (y, s2, inserted, recorded) =
        bind_ok (execute w (insert (w.new_id s.tick))) keep s first in
      record_items-IsFresh items s1 more (
        record_event-IsFresh item.status (manifestacao_event item) s2 recorded (
          inserted-IsFresh order w (w.new_id s.tick) item s.tables
            (execute_ok w (insert (w.new_id s.tick)) s inserted) fresh))

-- ===== src/Store/Nfe/Fresh/Operations.antt =====
-- Every operation of the NF-e repository keeps the derived columns those of the events.
use nanci.Prelude.{◌≡◌, sym, ap, ◌∙◌, Bool, not, List, Option, none, some, ℕ, arith}
use mathlib.Core.Path.{subst}
use nanci.Text.{Bytes, Unicode, bytes_eq-eq}
use nanci.Sync.Env.{Result, ok}
use nanci.Nfe.Types.{Document, Event}
use nanci.Nfe.Merge.{merge_document}
use nanci.Nfe.Participation.{classify_participation}
use nanci.Store.Tx.{World, Session, query, pure, ◌>>=◌, ◌>>◌, generate_id, statement, execute}
use nanci.Store.Tx.Rules.{bind_ok, query_ok, statement_ok, execute_ok}
use nanci.Store.Select.{find, find-some}
use nanci.Store.Nfe.Tables.{DocumentRow, Tables, has_chave, ManifestacaoRecord}
use nanci.Store.Nfe.Rows.{upsert_document_row, sees, upsert_relation_row}
use nanci.Store.Nfe.Rows.Events.{upsert_event_row, insert_manifestacao_row}
use nanci.Store.Nfe.Apply.{
  ApplyDocumentParams, refresh_chave, merge_found, or_id, apply_document_tx, upsert_event,
  identified,
}
use nanci.Store.Nfe.Fresh.{chave_of, IsFresh, IsFreshBut, IsFreshBut-IsFresh}
use nanci.Store.Nfe.Fresh.Documents.{guarded_ok, Owns, upsert_document_row-IsFreshBut}
use nanci.Store.Nfe.Fresh.Events.{upsert_event_row-IsFreshBut}
use nanci.Store.Nfe.Fresh.Views.{upsert_relation_row-IsFreshBut}
use nanci.Store.Nfe.Fresh.Whole.{refresh_chave-IsFresh}

pub merged_ok :
    {A : Type 0} (a b : A) (s s' : Session Tables)
    → ◌≡◌ {A = Result (A × Session Tables)} (ok (a, s)) (ok (b, s'))
    → (a ≡ b) × (s ≡ s')
merged_ok a b s s' h = (cc, cc)

chave-merge_document :
    (e i : Document)
    → e.chave_acesso ≡ i.chave_acesso
    → (merge_document e i).chave_acesso ≡ i.chave_acesso
unfolding merge_document
chave-merge_document e i h = ground (arith, h)

module _ ⦃u : Unicode⦄ (order : List (Event × ℕ) → List (Event × ℕ)) (w : World) where
  merge_found_ok :
      (found : Option DocumentRow) (doc : Document) (s : Session Tables) {d : Document}
      {s' : Session Tables}
      → find (has_chave doc.chave_acesso) s.tables.documents ≡ found
      → merge_found order w found doc s ≡ ok (d, s')
      → (d.chave_acesso ≡ doc.chave_acesso) × (s.tables ≡ s'.tables)
  merge_found_ok none doc s {d} {s'} found h =
      let same = merged_ok (record doc { id = or_id doc.id (w.new_id s.tick) }) d s s' h in
      (
        sym (ap (λ (x : Document). x.chave_acesso) same.0),
        ap (λ (x : Session Tables). x.tables) same.1,
      )
  merge_found_ok (some row) doc s {d} {s'} found h =
      let same = merged_ok (merge_document row.document doc) d s s' h in
      let (there, hit) = find-some (has_chave doc.chave_acesso) s.tables.documents row found in
      (
        sym (ap (λ (x : Document). x.chave_acesso) same.0)
            ∙ chave-merge_document row.document doc
                (bytes_eq-eq (chave_of row) doc.chave_acesso hit),
        ap (λ (x : Session Tables). x.tables) same.1,
      )

  pub upsert_event-IsFreshBut :
      (e : Event) (s : Session Tables) {x : Unit {0}} {s' : Session Tables}
      → upsert_event order w e s ≡ ok (x, s')
      → IsFreshBut order e.chave_acesso s.tables
      → IsFreshBut order e.chave_acesso s'.tables
  unfolding upsert_event
  upsert_event-IsFreshBut e s h fresh =
      let named = identified order w e (w.new_id s.tick) in
      upsert_event_row-IsFreshBut order named w.now s.tables
        (execute_ok w (upsert_event_row named w.now) s h) fresh

  pub inserted-IsFresh :
      (id : Bytes) (item : ManifestacaoRecord) (t : Tables) {t' : Tables}
      → insert_manifestacao_row id item w.now t ≡ ok t'
      → IsFresh order t
      → IsFresh order t'
  unfolding insert_manifestacao_row
  inserted-IsFresh id item t h fresh = subst (IsFresh order) (guarded_ok _ _ h).1 (record {
    keyed = record {
      chaves = fresh.keyed.chaves;
      ids = fresh.keyed.ids;
      relations = fresh.keyed.relations;
      companies = fresh.keyed.companies;
    };
    fresh = λ other.
        let f = fresh.fresh other in
        record { situacao = f.situacao; manifestacao = f.manifestacao };
  })

  related-IsFresh :
      (p : ApplyDocumentParams) (doc : Document) (document_id : Bytes) (seen : Bool) (id : Bytes)
      (s : Session Tables) {b : Bool} {s' : Session Tables}
      → (execute w (
              upsert_relation_row id p.company_id document_id
                (classify_participation doc p.company_cnpj)
                p.nsu
                w.now)
            >>= λ _. refresh_chave order w p.document.chave_acesso >> pure (not seen))
          s
        ≡ ok (b, s')
      → IsFreshBut order p.document.chave_acesso s.tables
      → Owns p.document.chave_acesso document_id s.tables
      → IsFresh order s'.tables
  related-IsFresh p doc document_id seen id s {b} {s'} h fresh owns =
      let chave = p.document.chave_acesso in
      let relate =
        upsert_relation_row id p.company_id document_id (classify_participation doc p.company_cnpj)
          p.nsu w.now in
      let (x, s1, related, h1) =
        bind_ok (execute w relate) (λ _. refresh_chave order w chave >> pure (not seen)) s h in
      let (y, s2, refreshed, h2) =
        bind_ok (refresh_chave order w chave) (λ _. pure (not seen)) s1 h1 in
      subst (IsFresh order)
        (ap (λ (z : Session Tables). z.tables) (merged_ok (not seen) b s2 s' h2).1)
        (refresh_chave-IsFresh order w chave s1 refreshed (
          upsert_relation_row-IsFreshBut order chave id p.company_id document_id
            (classify_participation doc p.company_cnpj) p.nsu w.now s.tables
            (execute_ok w relate s related) owns fresh))

  stored-IsFresh :
      (p : ApplyDocumentParams) (doc : Document) (document_id : Bytes) (s : Session Tables)
      {b : Bool} {s' : Session Tables}
      → (query w (sees p.company_id p.document.chave_acesso) >>= λ seen. generate_id w >>= λ id.
            execute w (
              upsert_relation_row id p.company_id document_id
                (classify_participation doc p.company_cnpj)
                p.nsu
                w.now)
            >>= λ _. refresh_chave order w p.document.chave_acesso >> pure (not seen))
          s
        ≡ ok (b, s')
      → IsFreshBut order p.document.chave_acesso s.tables
      → Owns p.document.chave_acesso document_id s.tables
      → IsFresh order s'.tables
  stored-IsFresh p doc document_id s h fresh owns =
      let (seen, s1, counted, h1) =
        bind_ok (query w (sees p.company_id p.document.chave_acesso))
          (λ seen. generate_id w >>= λ id.
            execute w (
              upsert_relation_row id p.company_id document_id
                (classify_participation doc p.company_cnpj) p.nsu w.now)
            >>= λ _. refresh_chave order w p.document.chave_acesso >> pure (not seen))
          s h in
      let kept = (query_ok w (sees p.company_id p.document.chave_acesso) s counted).1 in
      related-IsFresh p doc document_id seen (w.new_id s1.tick) s1 h1
        (subst (IsFreshBut order p.document.chave_acesso) kept fresh)
        (subst (Owns p.document.chave_acesso document_id) kept owns)

  -- ApplyDocumentTx, in the transaction of its caller
  pub apply_document_tx-IsFresh :
      (p : ApplyDocumentParams) (s : Session Tables) {b : Bool} {s' : Session Tables}
      → apply_document_tx order w p s ≡ ok (b, s')
      → IsFresh order s.tables
      → IsFresh order s'.tables
  unfolding apply_document_tx
  apply_document_tx-IsFresh p s h fresh =
      let chave = p.document.chave_acesso in
      let select = λ (t : Tables). find (has_chave chave) t.documents in
      let rest2 = λ (doc : Document) (document_id : Bytes).
        query w (sees p.company_id chave) >>= λ seen. generate_id w >>= λ id.
        execute w (
          upsert_relation_row id p.company_id document_id
            (classify_participation doc p.company_cnpj) p.nsu w.now)
        >>= λ _. refresh_chave order w chave >> pure (not seen) in
      let rest1 = λ (doc : Document). statement w (upsert_document_row doc w.now) >>= rest2 doc in
      let rest0 = λ (found : Option DocumentRow). merge_found order w found p.document >>= rest1 in
      let (found, s1, read, h1) = bind_ok (query w select) rest0 s h in
      let (doc, s2, merged, h2) = bind_ok (merge_found order w found p.document) rest1 s1 h1 in
      let (document_id, s3, upserted, h3) =
        bind_ok (statement w (upsert_document_row doc w.now)) (rest2 doc) s2 h2 in
      let (same, kept) = query_ok w select s read in
      let (chave_kept, unchanged) =
        merge_found_ok found p.document s1 (sym (ap select kept) ∙ same) merged in
      let start : IsFreshBut order doc.chave_acesso s2.tables =
        subst (IsFreshBut order doc.chave_acesso) (kept ∙ unchanged)
          (IsFreshBut-IsFresh order doc.chave_acesso s.tables fresh) in
      let (fresh3, owns3) =
        upsert_document_row-IsFreshBut order doc w.now s2.tables
          (statement_ok w (upsert_document_row doc w.now) s2 upserted) start in
      stored-IsFresh p doc document_id s3 h3
        (subst (λ c. IsFreshBut order c s3.tables) chave_kept fresh3)
        (subst (λ c. Owns c document_id s3.tables) chave_kept owns3)

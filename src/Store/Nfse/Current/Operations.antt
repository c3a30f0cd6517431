-- ===== src/Store/Nfse/Current/Operations.antt =====
-- doApplyEvent and doApplyDocument of internal/sync/store.go leave every status current.
use nanci.Prelude.{
  ℕ, ◌≡◌, sym, ap, ◌∙◌, inl, inr, Bool, List, Option, In, Bool-cases, if◌then◌else◌,
}
use mathlib.Core.Path.{subst}
use nanci.Text.{Bytes, bytes_eq, bytes_eq-eq}
use nanci.Sync.Env.{Result, ok}
use nanci.Nfse.{NfseStatus, NfseEventType, NfseEvent}
use nanci.Store.Tx.{
  World, Session, pure, ◌>>=◌, ◌>>◌, statement, query, execute, update, generate_id,
}
use nanci.Store.Tx.Rules.{bind_ok, statement_ok, query_ok, update_ok, execute_ok}
use nanci.Store.Select.{In-map}
use nanci.Store.Nfe.Fresh.Documents.{differ}
use nanci.Store.Nfse.{ApplyNotaParams, recompute_document_status, do_apply_document, do_apply_event}
use nanci.Store.Nfse.Rows.{
  NfseRow, NfseTables, nota_of, upsert_nota_rows, upsert_nota_view, company_document_missing,
  link_nota_events, types_of_nota, status_of, with_status, update_status_rows, document_id_of,
  event_hash_missing, insert_event_row,
}
use nanci.Store.Nfse.Current.{chave_of_nota, IsCurrent, But, IsCurrent-But, events-But, updated-But}
use nanci.Store.Nfse.Current.Statements.{
  upsert_nota_rows-But, upsert_nota_view-But, types-link, insert_event_row-But,
}

-- The rows of the chave have this status.
abbrev HasStatus : NfseStatus → Bytes → NfseTables → Type 0
HasStatus s chave t =
    (row : NfseRow) → In row t.documents → chave_of_nota row ≡ chave → row.document.status ≡ s

update_status_rows-HasStatus :
    (s : NfseStatus) (now : ℕ) (chave : Bytes) (t : NfseTables)
    → HasStatus s chave (update_status_rows s now chave t)
update_status_rows-HasStatus s now chave t row i e =
    let (before, j, same) =
      In-map (λ r. if nota_of chave r then with_status s now r else r) t.documents row i in
    elim (Bool-cases (nota_of chave before)) [
      | inl hit ↦
          ap (λ (r : NfseRow). r.document.status)
            (same ∙ ap (λ b. if b then with_status s now before else before) hit)
      | inr miss ↦
          let old : row ≡ before =
            same ∙ ap (λ b. if b then with_status s now before else before) miss in
          absurd (differ (chave_of_nota before) chave miss (sym (ap chave_of_nota old) ∙ e))
    ]

-- With its status recomputed, the chave is no exception.
But-IsCurrent :
    (chave : Bytes) (t : NfseTables)
    → But chave t
    → HasStatus (status_of (types_of_nota chave t)) chave t
    → IsCurrent t
But-IsCurrent chave t h is = record {
  chaves = h.chaves;
  status = λ row i _. elim (Bool-cases (bytes_eq row.document.chave_acesso chave)) [
    | inr e ↦ h.status row i (differ row.document.chave_acesso chave e)
    | inl e ↦
        let same = bytes_eq-eq row.document.chave_acesso chave e in
        is row i same ∙ ap (λ c. status_of (types_of_nota c t)) (sym same)
  ];
}

pure_ok :
    {A : Type 0} (a b : A) (s s' : Session NfseTables)
    → ◌≡◌ {A = Result (A × Session NfseTables)} (ok (a, s)) (ok (b, s'))
    → s ≡ s'
pure_ok a b s s' h = cc

module _ (w : World) where
  recompute-IsCurrent :
      (chave : Bytes) (s : Session NfseTables) {x : Unit {0}} {s' : Session NfseTables}
      → recompute_document_status w chave s ≡ ok (x, s')
      → But chave s.tables
      → IsCurrent s'.tables
  unfolding recompute_document_status
  recompute-IsCurrent chave s h fresh =
      let write = λ (types : List NfseEventType).
        update w (update_status_rows (status_of types) w.now chave) in
      let (types, s1, read, h1) = bind_ok (query w (types_of_nota chave)) write s h in
      let (listed, kept) = query_ok w (types_of_nota chave) s read in
      let wrote = update_ok w (update_status_rows (status_of types) w.now chave) s1 h1 in
      let here : But chave s1.tables = subst (But chave) kept fresh in
      let now : types_of_nota chave s1.tables ≡ types =
        ap (types_of_nota chave) (sym kept) ∙ listed in
      subst IsCurrent wrote (
        But-IsCurrent chave (update_status_rows (status_of types) w.now chave s1.tables)
          (updated-But chave (with_status (status_of types) w.now) (λ row e. e) s1.tables here)
          (subst
            (λ ts.
              HasStatus (status_of ts) chave
                (update_status_rows (status_of types) w.now chave s1.tables))
            (sym now) (update_status_rows-HasStatus (status_of types) w.now chave s1.tables)))

  ended-IsCurrent :
      (chave : Bytes) (inserted : Bool) (s : Session NfseTables) {b : Bool}
      {s' : Session NfseTables}
      → (recompute_document_status w chave >> pure inserted) s ≡ ok (b, s')
      → But chave s.tables
      → IsCurrent s'.tables
  ended-IsCurrent chave inserted s {b} {s'} h fresh =
      let (x, s1, recomputed, end) =
        bind_ok (recompute_document_status w chave) (λ _. pure inserted) s h in
      subst (λ (z : Session NfseTables). IsCurrent z.tables) (pure_ok inserted b s1 s' end)
        (recompute-IsCurrent chave s recomputed fresh)

  -- doApplyEvent, in the transaction of its caller
  pub do_apply_event-IsCurrent :
      (e : NfseEvent) (s : Session NfseTables) {b : Bool} {s' : Session NfseTables}
      → do_apply_event w e s ≡ ok (b, s')
      → IsCurrent s.tables
      → IsCurrent s'.tables
  unfolding do_apply_event
  do_apply_event-IsCurrent e s h fresh =
      let end = λ (inserted : Bool) (x : Unit {0}).
        recompute_document_status w e.chave_acesso >> pure inserted in
      let insert = λ (id : Option Bytes) (inserted : Bool).
        execute w (insert_event_row e id w.now) >>= end inserted in
      let (id, s1, found, h1) =
        bind_ok (query w (document_id_of e.chave_acesso))
          (λ id. query w (event_hash_missing e.raw_hash) >>= insert id) s h in
      let (inserted, s2, missing, h2) =
        bind_ok (query w (event_hash_missing e.raw_hash)) (insert id) s1 h1 in
      let (x, s3, stored, h3) =
        bind_ok (execute w (insert_event_row e id w.now)) (end inserted) s2 h2 in
      let kept =
        (query_ok w (document_id_of e.chave_acesso) s found).1
        ∙ (query_ok w (event_hash_missing e.raw_hash) s1 missing).1 in
      ended-IsCurrent e.chave_acesso inserted s3 h3 (
        insert_event_row-But e id w.now s2.tables
          (execute_ok w (insert_event_row e id w.now) s2 stored)
          (subst (But e.chave_acesso) kept (IsCurrent-But e.chave_acesso s.tables fresh)))

  -- doApplyDocument, in the transaction of its caller
  pub do_apply_document-IsCurrent :
      (p : ApplyNotaParams) (s : Session NfseTables) {b : Bool} {s' : Session NfseTables}
      → do_apply_document w p s ≡ ok (b, s')
      → IsCurrent s.tables
      → IsCurrent s'.tables
  unfolding do_apply_document
  do_apply_document-IsCurrent p s h fresh =
      let chave = p.document.chave_acesso in
      let view = λ (document_id id : Bytes).
        upsert_nota_view id p.company_id document_id p.participation p.nsu w.now in
      let end =
        λ (inserted : Bool) (x : Unit {0}). recompute_document_status w chave >> pure inserted in
      let linked = λ (document_id : Bytes) (inserted : Bool) (x : Unit {0}).
        update w (link_nota_events document_id chave) >>= end inserted in
      let viewed = λ (document_id : Bytes) (inserted : Bool).
        generate_id w >>= λ id. execute w (view document_id id) >>= linked document_id inserted in
      let (document_id, s1, upserted, h1) =
        bind_ok (statement w (upsert_nota_rows p.document w.now))
          (λ document_id.
            query w (company_document_missing p.company_id document_id) >>= viewed document_id)
          s h in
      let (inserted, s2, missing, h2) =
        bind_ok (query w (company_document_missing p.company_id document_id)) (viewed document_id)
          s1 h1 in
      let id = w.new_id s2.tick in
      let (x, s3, related, h3) =
        bind_ok (execute w (view document_id id)) (linked document_id inserted) s2 h2 in
      let (y, s4, link, h4) =
        bind_ok (update w (link_nota_events document_id chave)) (end inserted) s3 h3 in
      let f1 =
        upsert_nota_rows-But p.document w.now s.tables
          (statement_ok w (upsert_nota_rows p.document w.now) s upserted)
          (IsCurrent-But chave s.tables fresh) in
      let f2 =
        subst (But chave)
          (query_ok w (company_document_missing p.company_id document_id) s1 missing).1 f1 in
      let f3 =
        upsert_nota_view-But chave id p.company_id document_id p.participation p.nsu w.now s2.tables
          (execute_ok w (view document_id id) s2 related) f2 in
      let f4 = subst (But chave) (update_ok w (link_nota_events document_id chave) s3 link) (
        events-But chave s3.tables _
          (λ other ne. types-link document_id chave other s3.tables.events _) f3) in
      ended-IsCurrent chave inserted s4 h4 f4

-- ===== src/Store/Nfe/Calls/Kept.antt =====
-- Every sequence of calls keeps the derived columns those of the events.
use nanci.Prelude.{
  ℕ, any_by, ◌≡◌, refl, sym, ap, ◌∙◌, inl, inr, Bool, List, [], ◌∷◌, Bool-cases, if◌then◌else◌,
}
use mathlib.Core.Path.{subst}
use nanci.Text.{Bytes, Unicode}
use nanci.Sync.Env.{Result, ok}
use nanci.Sync.Store.Commit.{Result-cases}
use nanci.Nfe.Types.{Event}
use nanci.Store.Tx.{World, Session, Tx, execute, in_transaction}
use nanci.Store.Tx.Rules.{bind_ok, statement_ok, execute_ok, in_transaction_ok, finished_ok}
use nanci.Store.Select.{update_where, In-map, OneEach-map}
use nanci.Store.Nfe.Tables.{Relation, Tables}
use nanci.Store.Nfe.Marks.{
  Exported, to_view, viewed, mark_viewed, put_mark, is_export_kind, same_mark, upsert_mark_rows,
  mark_all, mark_exported,
}
use nanci.Store.Nfe.Fresh.{relation_id_of, IsFresh}
use nanci.Store.Nfe.Fresh.Documents.{guarded_ok}
use nanci.Store.Nfe.Fresh.Views.{pair}
use nanci.Store.Nfe.Calls.{committed, view_statement}

-- The predicate holds of the tables that a call commits.
abbrev pub Keeps : {A : Type 0} → (Tables → Type 0) → (Tables → Result (A × Tables)) → Type 0
Keeps {A} P f = (t : Tables) (a : A) (t' : Tables) → f t ≡ ok (a, t') → P t → P t'

pub committed-kept :
    (P : Tables → Type 0) {A : Type 0} (f : Tables → Result (A × Tables)) (t : Tables)
    → Keeps P f
    → P t
    → P (committed (f t) t)
committed-kept P f t keeps h = elim (Result-cases (f t)) [
  | inr (e, fails) ↦ rw fails h
  | inl ((a, t'), works) ↦ rw works (keeps t a t' works h)
]

-- as a transaction does what its body does
pub in_transaction-kept :
    (P : Tables → Type 0) (w : World) {A : Type 0} (m : Tx Tables A)
    → ((s : Session Tables) (a : A) (s' : Session Tables)
        → m s ≡ ok (a, s')
        → P s.tables
        → P s'.tables)
    → Keeps P (in_transaction w m)
in_transaction-kept P w m keeps t a t' h here =
    let (s, s', begun, ran, ended) = in_transaction_ok w m t h in
    subst P ended (keeps s a s' ran (subst P (sym begun) here))

module _ ⦃u : Unicode⦄ (order : List (Event × ℕ) → List (Event × ℕ)) where
  viewed-IsFresh :
      (test : Relation → Bool) (now : ℕ) (t : Tables)
      → IsFresh order t
      → IsFresh order (record t { relations = update_where test (viewed now) t.relations })
  viewed-IsFresh test now t h = record {
    keyed = record {
      chaves = h.keyed.chaves;
      ids = h.keyed.ids;
      relations = OneEach-map relation_id_of again t.relations id h.keyed.relations;
      companies = h.keyed.companies;
    };
    fresh = λ chave. record {
      situacao = (h.fresh chave).situacao;
      manifestacao = λ row r' c i e j d k q.
          let (r, l, same) = In-map again t.relations r' j in
          ap pair same
          ∙ manifestacao r
          ∙ (h.fresh chave).manifestacao row r c i e l
              (sym (ap (λ (x : Relation). x.document_id) same ∙ document r) ∙ d) k
              (q ∙ ap (λ (x : Relation). x.company_id) same ∙ company r);
    };
  }
    where
      again : Relation → Relation
      again r = if test r then viewed now r else r

      id : (r : Relation) → (again r).relation_id ≡ r.relation_id
      id r = elim (Bool-cases (test r)) [ inl e ↦ rw e refl | inr e ↦ rw e refl ]

      company : (r : Relation) → (again r).company_id ≡ r.company_id
      company r = elim (Bool-cases (test r)) [ inl e ↦ rw e refl | inr e ↦ rw e refl ]

      document : (r : Relation) → (again r).document_id ≡ r.document_id
      document r = elim (Bool-cases (test r)) [ inl e ↦ rw e refl | inr e ↦ rw e refl ]

      manifestacao : (r : Relation) → pair (again r) ≡ pair r
      manifestacao r = elim (Bool-cases (test r)) [ inl e ↦ rw e refl | inr e ↦ rw e refl ]

  pub view_statement-IsFresh :
      (w : World) (company : Bytes) (chaves : List Bytes)
      → Keeps (IsFresh order) (view_statement w company chaves)
  unfolding view_statement mark_viewed
  view_statement-IsFresh w company [] t a t' h here =
      (let same : t ≡ t' = cc in subst (IsFresh order) same here)
  view_statement-IsFresh w company (chave ∷ chaves) t a t' h here =
      let mark = λ (t : Tables). ok (mark_viewed w.now company (chave ∷ chaves) t) in
      let (s, ran, ended) = finished_ok w _ h in
      let done = statement_ok w mark (record { tables = t; tick = 0 }) ran in
      subst (IsFresh order) (marked w.now company chave chaves t done ∙ ended)
        (viewed-IsFresh (to_view company (chave ∷ chaves) t) w.now t here)
    where
      marked :
          (now : ℕ) (company chave : Bytes) (chaves : List Bytes) (t : Tables) {n : ℕ} {t' : Tables}
          → ◌≡◌ {A = Result (ℕ × Tables)}
              (ok (mark_viewed now company (chave ∷ chaves) t))
              (ok (n, t'))
          → record t {
            relations = update_where (to_view company (chave ∷ chaves) t) (viewed now) t.relations;
          }
            ≡ t'
      marked now company chave chaves t k = cc

  -- the marks are no part of it
  marks-IsFresh :
      (t t' : Tables)
      → t'.documents ≡ t.documents
      → t'.relations ≡ t.relations
      → t'.events ≡ t.events
      → t'.companies ≡ t.companies
      → IsFresh order t
      → IsFresh order t'
  marks-IsFresh t t' d r e c h = subst (IsFresh order) whole there
    where
      there :
          IsFresh order
            (record t { export_marks = t'.export_marks; manifestacoes = t'.manifestacoes })
      there = record {
        keyed = record {
          chaves = h.keyed.chaves;
          ids = h.keyed.ids;
          relations = h.keyed.relations;
          companies = h.keyed.companies;
        };
        fresh = λ other.
            let f = h.fresh other in
            record { situacao = f.situacao; manifestacao = f.manifestacao };
      }

      whole : record t { export_marks = t'.export_marks; manifestacoes = t'.manifestacoes } ≡ t'
      whole = λ i. record {
        documents = sym d i;
        relations = sym r i;
        events = sym e i;
        companies = sym c i;
        manifestacoes = t'.manifestacoes;
        export_marks = t'.export_marks;
      }

  put_mark-IsFresh :
      (company kind : Bytes) (now : ℕ) (e : Exported) (t : Tables)
      → IsFresh order t
      → IsFresh order (put_mark company kind now e t)
  put_mark-IsFresh company kind now e t h =
      elim (Bool-cases (any_by (same_mark company e.document_id kind) t.export_marks)) [
        | inl old ↦
            marks-IsFresh t (put_mark company kind now e t) (rw old refl) (rw old refl)
              (rw old refl) (rw old refl) h
        | inr new ↦
            marks-IsFresh t (put_mark company kind now e t) (rw new refl) (rw new refl)
              (rw new refl) (rw new refl) h
      ]

  mark_all-IsFresh :
      (w : World) (company kind : Bytes) (es : List Exported) (s : Session Tables) {x : Unit {0}}
      {s' : Session Tables}
      → mark_all w company kind es s ≡ ok (x, s')
      → IsFresh order s.tables
      → IsFresh order s'.tables
  unfolding mark_all upsert_mark_rows
  mark_all-IsFresh w company kind [] s {x} {s'} h fresh =
      let same : s ≡ s' = cc in subst (λ (z : Session Tables). IsFresh order z.tables) same fresh
  mark_all-IsFresh w company kind (e ∷ es) s h fresh =
      let (x, s1, first, more) =
        bind_ok (execute w (upsert_mark_rows company kind w.now e))
          (λ _. mark_all w company kind es) s h in
      let (allowed, wrote) =
        guarded_ok (is_export_kind kind) (put_mark company kind w.now e s.tables)
          (execute_ok w (upsert_mark_rows company kind w.now e) s first) in
      mark_all-IsFresh w company kind es s1 more
        (subst (IsFresh order) wrote (put_mark-IsFresh company kind w.now e s.tables fresh))

  pub mark_exported-IsFresh :
      (w : World) (company kind : Bytes) (es : List Exported)
      → Keeps (IsFresh order) (mark_exported w company kind es)
  unfolding mark_exported
  mark_exported-IsFresh w company kind [] t a t' h fresh =
      (let same : t ≡ t' = cc in subst (IsFresh order) same fresh)
  mark_exported-IsFresh w company kind (e ∷ es) t a t' h fresh =
      in_transaction-kept (IsFresh order) w (mark_all w company kind (e ∷ es))
        (λ s x s' k. mark_all-IsFresh w company kind (e ∷ es) s k) t a t' h fresh

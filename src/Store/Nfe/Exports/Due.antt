-- ===== src/Store/Nfe/Exports/Due.antt =====
-- A MarkExported of internal/store/dfe.go that goes through, over all its marks.
use nanci.Prelude.{
  ◌≡◌, refl, sym, ap, ◌∙◌, inl, inr, Bool, true, false, ◌&&◌, List, [], ◌∷◌, none, Bool-cases,
  if◌then◌else◌, arith,
}
use mathlib.Core.Path.{subst}
use nanci.Text.{Bytes, bytes_eq}
use nanci.Sync.Env.{ok}
use nanci.Nfe.Types.{Document}
use nanci.Store.Tx.{World, Session, execute}
use nanci.Store.Tx.Rules.{bind_ok, execute_ok, in_transaction_ok}
use nanci.Store.Nfe.Tables.{Relation, Tables}
use nanci.Store.Nfe.Fresh.Documents.{guarded_ok}
use nanci.Store.Nfe.Marks.{
  Exported, is_export_kind, put_mark, upsert_mark_rows, mark_all, mark_exported, pending_export,
}
use nanci.Store.Nfe.Exports.Marked.{
  last_for, due, Aside, put_mark-Aside, put_mark-other, put_mark-due,
}

Aside-trans : (a b c : Tables) → Aside a b → Aside b c → Aside a c
Aside-trans a b c h k = record {
  documents = k.documents ∙ h.documents;
  relations = k.relations ∙ h.relations;
  events = k.events ∙ h.events;
}

module _ (w : World) (company kind : Bytes) where
  -- what the first of the marks leaves, and the others from there
  mark_all-put :
      (e : Exported) (es : List Exported) (s : Session Tables) {x : Unit {0}} {s' : Session Tables}
      → mark_all w company kind (e ∷ es) s ≡ ok (x, s')
      → (s1 : Session Tables) × (put_mark company kind w.now e s.tables ≡ s1.tables)
        × (mark_all w company kind es s1 ≡ ok (x, s'))
  unfolding mark_all upsert_mark_rows
  mark_all-put e es s h =
      let (x, s1, first, more) =
        bind_ok (execute w (upsert_mark_rows company kind w.now e))
          (λ _. mark_all w company kind es) s h in
      let (allowed, wrote) =
        guarded_ok (is_export_kind kind) (put_mark company kind w.now e s.tables)
          (execute_ok w (upsert_mark_rows company kind w.now e) s first) in
      (s1, wrote, more)

  mark_all-none :
      (s : Session Tables) {x : Unit {0}} {s' : Session Tables}
      → mark_all w company kind [] s ≡ ok (x, s')
      → s.tables ≡ s'.tables
  unfolding mark_all
  mark_all-none s {x} {s'} h = let same : s ≡ s' = cc in ap (λ (z : Session Tables). z.tables) same

  mark_all-Aside :
      (es : List Exported) (s : Session Tables) {x : Unit {0}} {s' : Session Tables}
      → mark_all w company kind es s ≡ ok (x, s')
      → Aside s.tables s'.tables
  mark_all-Aside [] s h =
      subst (Aside s.tables) (mark_all-none s h)
        (record { documents = refl; relations = refl; events = refl })
  mark_all-Aside (e ∷ es) s {x} {s'} h =
      let (s1, wrote, more) = mark_all-put e es s h in
      Aside-trans s.tables s1.tables s'.tables
        (subst (Aside s.tables) wrote (put_mark-Aside company kind w.now e s.tables))
        (mark_all-Aside es s1 more)

  mark_all-due :
      (k : Bytes) (d : Document) (r : Relation)
      → bytes_eq company r.company_id ≡ true
      → bytes_eq kind k ≡ true
      → (es : List Exported) (s : Session Tables) {x : Unit {0}} {s' : Session Tables}
      → mark_all w company kind es s ≡ ok (x, s')
      → pending_export k d r s'.tables ≡ due k d r s.tables (last_for r.document_id es)
  mark_all-due k d r own this [] s h = ap (pending_export k d r) (sym (mark_all-none s h))
  mark_all-due k d r own this (e ∷ es) s h =
      let (s1, wrote, more) = mark_all-put e es s h in
      mark_all-due k d r own this es s1 more
      ∙ ap (λ t. due k d r t (last_for r.document_id es)) (sym wrote)
      ∙ put_mark-due company kind w.now e s.tables k d r own this (last_for r.document_id es)

  mark_all-other :
      (k : Bytes) (d : Document) (r : Relation)
      → (bytes_eq company r.company_id && bytes_eq kind k) ≡ false
      → (es : List Exported) (s : Session Tables) {x : Unit {0}} {s' : Session Tables}
      → mark_all w company kind es s ≡ ok (x, s')
      → pending_export k d r s'.tables ≡ pending_export k d r s.tables
  mark_all-other k d r apart [] s h = ap (pending_export k d r) (sym (mark_all-none s h))
  mark_all-other k d r apart (e ∷ es) s h =
      let (s1, wrote, more) = mark_all-put e es s h in
      mark_all-other k d r apart es s1 more
      ∙ ap (pending_export k d r) (sym wrote)
      ∙ put_mark-other company kind w.now e s.tables k d r
          (some_false _ _ (bytes_eq e.document_id r.document_id) apart)
    where
      some_false : (a c b : Bool) → (a && c) ≡ false → (a && b && c) ≡ false
      some_false a c b h = ground (arith, h)

-- After a MarkExported that goes through, a document named by its marks is pending export, for that company and kind,
-- where its hash or its count of events differs from those of the last mark that names it. For any other document,
-- company or kind it is pending if it was.
pub mark_exported-due :
    (w : World) (company kind : Bytes) (es : List Exported) (t t' : Tables) (x : Unit {0})
    → mark_exported w company kind es t ≡ ok (x, t')
    → (k : Bytes) (d : Document) (r : Relation)
    → pending_export k d r t'
      ≡ due k d r t (
          if bytes_eq company r.company_id && bytes_eq kind k
          then last_for r.document_id es
          else none)
unfolding mark_exported
mark_exported-due w company kind [] t t' x h k d r =
    let same : t ≡ t' = cc in
    elim (Bool-cases (bytes_eq company r.company_id && bytes_eq kind k)) [
      | inl e ↦ rw e (ap (pending_export k d r) (sym same))
      | inr e ↦ rw e (ap (pending_export k d r) (sym same))
    ]
mark_exported-due w company kind (e ∷ es) t t' x h k d r =
    let (s, s', begun, ran, ended) = in_transaction_ok w (mark_all w company kind (e ∷ es)) t h in
    elim (Bool-cases (bytes_eq company r.company_id && bytes_eq kind k)) [
      | inl hit ↦
          let (own, this) = both_true _ _ hit in
          ap (pending_export k d r) (sym ended)
          ∙ mark_all-due w company kind k d r own this (e ∷ es) s ran
          ∙ ap (λ z. due k d r z (last_for r.document_id (e ∷ es))) begun
          ∙ ap (λ b. due k d r t (if b then last_for r.document_id (e ∷ es) else none)) (sym hit)
      | inr miss ↦
          ap (pending_export k d r) (sym ended)
          ∙ mark_all-other w company kind k d r miss (e ∷ es) s ran
          ∙ ap (pending_export k d r) begun
          ∙ ap (λ b. due k d r t (if b then last_for r.document_id (e ∷ es) else none)) (sym miss)
    ]
  where
    both_true : (a b : Bool) → (a && b) ≡ true → (a ≡ true) × (b ≡ true)
    both_true a b h = (ground (arith, h), ground (arith, h))

-- and it changes no document, no view and no event
pub mark_exported-Aside :
    (w : World) (company kind : Bytes) (es : List Exported) (t t' : Tables) (x : Unit {0})
    → mark_exported w company kind es t ≡ ok (x, t')
    → Aside t t'
unfolding mark_exported
mark_exported-Aside w company kind [] t t' x h =
    let same : t ≡ t' = cc in
    subst (Aside t) same (record { documents = refl; relations = refl; events = refl })
mark_exported-Aside w company kind (e ∷ es) t t' x h =
    let (s, s', begun, ran, ended) = in_transaction_ok w (mark_all w company kind (e ∷ es)) t h in
    subst (λ z. Aside z t') begun
      (subst (Aside s.tables) ended (mark_all-Aside w company kind (e ∷ es) s ran))

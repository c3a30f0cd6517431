-- ===== src/Store/Nfe/Reset/Outcome.antt =====
-- What ResetCompany leaves: nothing of the company's view, and everything of the others'.
use nanci.Prelude.{
  ℕ, ◌≡◌, refl, sym, ap, ◌∙◌, inl, inr, Bool, true, false, not, ◌&&◌, List, [], ◌∷◌, none, In,
  any_by, any_by-In, In-any_by, Bool-cases, arith, length,
}
use mathlib.Core.Path.{subst}
use nanci.Text.{Bytes, bytes_eq, bytes_eq-eq, bytes_eq_refl}
use nanci.Sync.Env.{ok}
use nanci.Store.Tx.{World, statement, query, update}
use nanci.Store.Select.{keep, update_where, In-keep, In-map}
use nanci.Store.Nfe.Tables.{DocumentRow, Relation, EventRow, ManifestacaoRow, ExportMark, Tables}
use nanci.Store.Nfe.Marks.{is_named}
use nanci.Store.Nfe.Reset.{
  ResetCounts, of_company, is_exclusive, exclusive_ids, dropped, linked_to, unlink, reset_mark_rows,
  reset_event_rows, unlink_event_rows, reset_relation_rows, is_referenced, unless_referenced,
  reset_document_rows, reset_company_documents, reset_company_by, reset_company,
  preview_reset_company,
}

-- The tables after the reset.
abbrev pub left : Bytes → Tables → Tables
left company t =
    let ids = exclusive_ids company t in
    record t {
      documents = keep (λ (d : DocumentRow). not (is_named ids d.document.id)) t.documents;
      relations = keep (λ r. not (of_company company r)) t.relations;
      events =
          update_where (λ (row : EventRow). linked_to ids row.document_id) unlink
            (keep (λ row. not (dropped company ids t row)) t.events);
      export_marks = keep (λ (m : ExportMark). not (bytes_eq m.company_id company)) t.export_marks;
    }

abbrev pub counted : Bytes → Tables → ResetCounts
counted company t =
    let ids = exclusive_ids company t in
    record {
      company_documents = length (keep (of_company company) t.relations);
      documents = length (keep (λ (d : DocumentRow). is_named ids d.document.id) t.documents);
      events = length (keep (dropped company ids t) t.events);
      export_marks =
          length (keep (λ (m : ExportMark). bytes_eq m.company_id company) t.export_marks);
      manifestacoes_kept =
          length
            (keep (λ (m : ManifestacaoRow). bytes_eq m.sent.company_id company) t.manifestacoes);
    }

-- Each of these tables is as the statements before resetDocumentsQuery leave it.
abbrev unlinked : Bytes → Tables → Tables
unlinked company t = record (left company t) { documents = t.documents }

named-In : (ids : List Bytes) (id : Bytes) → is_named ids id ≡ true → In id ids
named-In ids id h =
    let (x, i, same) = any_by-In (bytes_eq id) ids h in
    subst (λ y. In y ids) (sym (bytes_eq-eq id x same)) i

and_false : (a : Bool) → (a && false) ≡ false
and_false true = refl
and_false false = refl

-- A document of the list has no view but the company's.
pub exclusive-only :
    (company : Bytes) (t : Tables) (r : Relation)
    → In r t.relations
    → is_named (exclusive_ids company t) r.document_id ≡ true
    → of_company company r ≡ true
unfolding exclusive_ids
exclusive-only company t r i named =
    let (own, k, same) =
      In-map (λ (x : Relation). x.document_id) (keep (is_exclusive company t.relations) t.relations)
        r.document_id (named-In _ r.document_id named) in
    let (there, only) = In-keep (is_exclusive company t.relations) t.relations own k in
    elim (Bool-cases (of_company company r)) [
      | inl e ↦ e
      | inr e ↦
          let none_other =
            In-any_by
              (λ (other : Relation).
                bytes_eq other.document_id own.document_id && not (of_company company other))
              t.relations (alone _ _ only) r i in
          absurd (
            cc (
              rw (ap (λ d. bytes_eq r.document_id d) (sym same) ∙ bytes_eq_refl r.document_id, e) at
                none_other))
    ]
  where
    alone : (a b : Bool) → (a && not b) ≡ true → b ≡ false
    alone a b h = ground (arith, h)

no_view :
    (company : Bytes) (t : Tables)
    → any_by
        (λ (r : Relation). is_named (exclusive_ids company t) r.document_id)
        (left company t).relations
      ≡ false
no_view company t =
    elim (Bool-cases (
      any_by (λ (r : Relation). is_named (exclusive_ids company t) r.document_id)
        (left company t).relations)) [
          | inr e ↦ e
          | inl e ↦
              let (r, k, named) =
                any_by-In (λ (r : Relation). is_named (exclusive_ids company t) r.document_id)
                  (left company t).relations e in
              let (i, other) = In-keep (λ r. not (of_company company r)) t.relations r k in
              absurd (cc (rw (exclusive-only company t r i named) at other))
        ]

-- No row keeps a link that unlinkKeptEventsQuery clears.
no_link :
    (ids : List Bytes) (rows : List EventRow)
    → any_by
        (λ (row : EventRow). linked_to ids row.document_id)
        (update_where (λ (row : EventRow). linked_to ids row.document_id) unlink rows)
      ≡ false
no_link ids [] = refl
no_link ids (row ∷ rows) = elim (Bool-cases (linked_to ids row.document_id)) [
  | inl e ↦ rw e (no_link ids rows)
  | inr e ↦ rw (e, e) (no_link ids rows)
]

-- Where the last DELETE is made, no foreign key refuses it.
reset_document_rows-left :
    (company : Bytes) (t : Tables)
    → reset_document_rows (exclusive_ids company t) (unlinked company t)
      ≡ ok ((counted company t).documents, left company t)
unfolding reset_document_rows
reset_document_rows-left company t =
    let ids = exclusive_ids company t in
    let free : is_referenced ids (unlinked company t) ≡ false =
      rw (no_view company t, no_link ids (keep (λ row. not (dropped company ids t row)) t.events))
        refl in
    let unbarred =
      ap (λ b. any_by (λ (d : DocumentRow). is_named ids d.document.id) t.documents && b) free
      ∙ and_false (any_by (λ (d : DocumentRow). is_named ids d.document.id) t.documents) in
    ap (λ b. unless_referenced b ((counted company t).documents, left company t)) unbarred

module _ (w : World) where
  pub reset_company-works :
      (company : Bytes) (t : Tables)
      → ((n : ℕ) → w.fault n ≡ none)
      → reset_company w company t ≡ ok (counted company t, left company t)
  unfolding reset_company reset_company_by reset_company_documents reset_mark_rows reset_event_rows
      unlink_event_rows reset_relation_rows statement query update
  reset_company-works company t works =
      rw
        (
          works 0,
          works 1,
          works 2,
          works 3,
          works 4,
          works 5,
          works 6,
          works 7,
          reset_document_rows-left company t,
          works 8,
          works 9,
          works 10,
        )
        refl

  pub reset_company_ok :
      (company : Bytes) (t : Tables) {counts : ResetCounts} {t' : Tables}
      → reset_company w company t ≡ ok (counts, t')
      → (counts ≡ counted company t) × (t' ≡ left company t)
  unfolding reset_company reset_company_by reset_company_documents reset_mark_rows reset_event_rows
      unlink_event_rows reset_relation_rows statement query update
  reset_company_ok company t h = ground (arith, h, reset_document_rows-left company t)

  pub preview_reset_company-works :
      (company : Bytes) (t : Tables)
      → ((n : ℕ) → w.fault n ≡ none)
      → preview_reset_company w company t ≡ ok (counted company t, t)
  unfolding preview_reset_company reset_company_by reset_company_documents reset_mark_rows
      reset_event_rows unlink_event_rows reset_relation_rows statement query update
  preview_reset_company-works company t works =
      rw
        (
          works 0,
          works 1,
          works 2,
          works 3,
          works 4,
          works 5,
          works 6,
          works 7,
          reset_document_rows-left company t,
        )
        refl

  pub preview_ok :
      (company : Bytes) (t : Tables) {counts : ResetCounts} {t' : Tables}
      → preview_reset_company w company t ≡ ok (counts, t')
      → (counts ≡ counted company t) × (t' ≡ t)
  unfolding preview_reset_company reset_company_by reset_company_documents reset_mark_rows
      reset_event_rows unlink_event_rows reset_relation_rows statement query update
  preview_ok company t h = ground (arith, h, reset_document_rows-left company t)

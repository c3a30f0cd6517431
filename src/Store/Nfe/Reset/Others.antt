-- ===== src/Store/Nfe/Reset/Others.antt =====
-- What ResetCompany leaves of the other companies' views.
use nanci.Prelude.{
  ◌≡◌, ◌≢◌, refl, sym, ap, ◌∙◌, inl, inr, Bool, true, false, not, ◌&&◌, ◌||◌, List, [], ◌∷◌, map,
  In, Bool-cases, arith, ◌+◌, if◌then◌else◌, length, length-map, ◌==◌,
}
use nanci.Text.{Bytes, Unicode, bytes_eq, bytes_eq-eq}
use nanci.Sync.Env.{ok}
use nanci.Nfe.Types.{Document}
use nanci.Store.Tx.{World}
use nanci.Store.Select.{
  keep, keep_congr, keep_within, keep_empty, flat_map-keep, flat_map_empty, In-keep, OneEach,
  length-keep,
}
use nanci.Store.Nfe.Tables.{
  DocumentRow, Relation, EventRow, ExportMark, Tables, has_document_id, of_chave,
}
use nanci.Store.Nfe.Apply.{stamped}
use nanci.Store.Nfe.Marks.{
  is_named, same_mark, DocumentFilter, selects, event_count, pending_by, pending_export, wanted,
  company_documents,
}
use nanci.Store.Nfe.Reset.{
  ResetCounts, unlink, of_company, exclusive_ids, dropped, linked_to, reset_company,
  preview_reset_company,
}
use nanci.Store.Nfe.Reset.Outcome.{left, exclusive-only, reset_company_ok, preview_ok}
use nanci.Store.Nfe.Fresh.{chave_of, IsKeyed}
use nanci.Store.Nfe.Fresh.Left.{stamped-left, dropped-false}

first_true : (a b c : Bool) → (a && b && c) ≡ true → a ≡ true
first_true a b c h = ground (arith, h)

-- the row of a document that the view of another company shows stays
stays :
    (company : Bytes) (t : Tables) (r : Relation) (row : DocumentRow)
    → In r t.relations
    → of_company company r ≡ false
    → has_document_id r.document_id row ≡ true
    → is_named (exclusive_ids company t) row.document.id ≡ false
stays company t r row i other shows =
    elim (Bool-cases (is_named (exclusive_ids company t) row.document.id)) [
      | inr e ↦ e
      | inl e ↦
          let own = exclusive-only company t r i (
            ap (is_named (exclusive_ids company t))
              (sym (bytes_eq-eq row.document.id r.document_id shows))
            ∙ e) in
          absurd (cc (own, other))
    ]

event_count-left :
    (company : Bytes) (t : Tables) (row : DocumentRow)
    → OneEach chave_of t.documents
    → In row t.documents
    → is_named (exclusive_ids company t) row.document.id ≡ false
    → event_count row.document.chave_acesso (left company t)
      ≡ event_count row.document.chave_acesso t
event_count-left company t row one i kept =
    let chave = row.document.chave_acesso in
    sym (length-map (keep (of_chave chave) (left company t).events) stamped)
    ∙ ap length (
        stamped-left chave (dropped company (exclusive_ids company t) t)
          (λ e. linked_to (exclusive_ids company t) e.document_id) t.events
          (λ e hit. dropped-false company (exclusive_ids company t) t row e one i kept hit))
    ∙ length-map (keep (of_chave chave) t.events) stamped

marks-left :
    (company kind : Bytes) (t : Tables) (r : Relation)
    → of_company company r ≡ false
    → keep (same_mark r.company_id r.document_id kind) (left company t).export_marks
      ≡ keep (same_mark r.company_id r.document_id kind) t.export_marks
marks-left company kind t r other =
    keep_within (same_mark r.company_id r.document_id kind)
      (λ (m : ExportMark). not (bytes_eq m.company_id company)) t.export_marks
      (λ m i hit.
        let same = bytes_eq-eq m.company_id r.company_id (
          first_true (bytes_eq m.company_id r.company_id) (bytes_eq m.document_id r.document_id)
            (bytes_eq m.export_kind kind) hit) in
        ap (λ c. not (bytes_eq c company)) same ∙ ap not other)

wanted-left :
    (company kind : Bytes) (t : Tables) (r : Relation) (row : DocumentRow)
    → OneEach chave_of t.documents
    → In row t.documents
    → is_named (exclusive_ids company t) row.document.id ≡ false
    → of_company company r ≡ false
    → wanted kind (left company t) row.document r ≡ wanted kind t row.document r
unfolding pending_export
wanted-left company [] t r row one i kept other = refl
wanted-left company (c ∷ kind) t r row one i kept other =
    ap (pending_by row.document (left company t)) (marks-left company (c ∷ kind) t r other)
    ∙ counts (keep (same_mark r.company_id r.document_id (c ∷ kind)) t.export_marks)
  where
    counts :
        (marks : List ExportMark)
        → pending_by row.document (left company t) marks ≡ pending_by row.document t marks
    counts [] = refl
    counts (m ∷ ms) =
        ap
          (λ n.
            not (bytes_eq m.exported_hash row.document.raw_hash) || not (m.exported_events == n))
          (event_count-left company t row one i kept)

module _ ⦃u : Unicode⦄ (other : Bytes) (f : DocumentFilter) (kind : Bytes) where
  -- the rows that a view of the listing is joined with
  abbrev shown : Tables → Relation → DocumentRow → Bool
  shown t r row =
      has_document_id r.document_id row
      && selects other f row.document r
      && wanted kind t row.document r

  shown-left :
      (company : Bytes) (t : Tables) (r : Relation)
      → OneEach chave_of t.documents
      → In r t.relations
      → of_company company r ≡ false
      → keep (shown (left company t) r) (left company t).documents ≡ keep (shown t r) t.documents
  shown-left company t r one i apart =
      keep_within (shown (left company t) r)
        (λ (d : DocumentRow). not (is_named (exclusive_ids company t) d.document.id)) t.documents
        (λ row j hit. ap not (
          stays company t r row i apart (
            first_true (has_document_id r.document_id row) (selects other f row.document r)
              (wanted kind (left company t) row.document r) hit)))
      ∙ keep_congr (shown (left company t) r) (shown t r) t.documents (λ row j.
        elim (Bool-cases (has_document_id r.document_id row)) [
          | inr e ↦ rw e refl
          | inl e ↦
              ap (λ b. has_document_id r.document_id row && selects other f row.document r && b)
                (wanted-left company kind t r row one j (stays company t r row i apart e) apart)
        ])

  shown_foreign :
      (t : Tables) (r : Relation) (row : DocumentRow)
      → of_company other r ≡ false
      → shown t r row ≡ false
  unfolding selects
  shown_foreign t r row foreign =
      rw foreign (none_of (has_document_id r.document_id row) (wanted kind t row.document r))
    where
      none_of : (a b : Bool) → (a && false && b) ≡ false
      none_of a b = ground (arith)

  foreign-own :
      (company : Bytes) (r : Relation)
      → other ≢ company
      → of_company company r ≡ true
      → of_company other r ≡ false
  foreign-own company r ne own = elim (Bool-cases (of_company other r)) [
    | inr e ↦ e
    | inl e ↦
        absurd (ne (sym (bytes_eq-eq r.company_id other e) ∙ bytes_eq-eq r.company_id company own))
  ]

  listing-left :
      (company : Bytes) (t : Tables)
      → IsKeyed t
      → other ≢ company
      → company_documents other f kind (left company t) ≡ company_documents other f kind t
  unfolding company_documents
  listing-left company t keyed ne =
      flat_map-keep (rows (left company t)) (rows t) (λ r. not (of_company company r)) t.relations
        (λ r i apart.
          ap (map (λ (row : DocumentRow). (row.document, r)))
            (shown-left company t r keyed.chaves i (is_false _ apart)))
        (λ r i own. ap (map (λ (row : DocumentRow). (row.document, r))) (
          keep_empty (shown t r) t.documents
            (λ row. shown_foreign t r row (foreign-own company r ne (is_true _ own)))))
    where
      rows : Tables → Relation → List (Document × Relation)
      rows t r = map (λ (row : DocumentRow). (row.document, r)) (keep (shown t r) t.documents)

      is_false : (a : Bool) → not a ≡ true → a ≡ false
      is_false a h = ground (arith, h)

      is_true : (a : Bool) → not a ≡ false → a ≡ true
      is_true a h = ground (arith, h)

  listing_empty : (t : Tables) → company_documents other f kind (left other t) ≡ []
  unfolding company_documents
  listing_empty t = flat_map_empty _ (left other t).relations (λ r i.
      ap (map (λ (row : DocumentRow). (row.document, r))) (
        keep_empty (shown (left other t) r) (left other t).documents
          (λ row. shown_foreign (left other t) r row (is_false _ (In-keep _ t.relations r i).1))))
    where
      is_false : (a : Bool) → not a ≡ true → a ≡ false
      is_false a h = ground (arith, h)

-- A ResetCompany that goes through leaves every listing of the company empty, and every listing of every other
-- company as it was, whatever its filter, with or without an export kind, in tables whose keys hold.
pub reset_company-listings :
    ⦃u : Unicode⦄ (f : DocumentFilter) (kind other company : Bytes) (w : World) (t : Tables)
    (counts : ResetCounts) (t' : Tables)
    → IsKeyed t
    → other ≢ company
    → reset_company w company t ≡ ok (counts, t')
    → (company_documents company f kind t' ≡ [])
      × (company_documents other f kind t' ≡ company_documents other f kind t)
reset_company-listings f kind other company w t counts t' keyed ne h =
    let end = (reset_company_ok w company t h).1 in
    (
      ap (company_documents company f kind) end ∙ listing_empty company f kind t,
      ap (company_documents other f kind) end ∙ listing-left other f kind company t keyed ne,
    )

-- What a preview of ResetCompany says of the reset that follows: the rows that each table loses.
pub record IsPreview (seen counts : ResetCounts) (t previewed reset : Tables) : Type 0 where
  pub unchanged : previewed ≡ t
  pub foreseen : seen ≡ counts
  pub views : seen.company_documents + length reset.relations ≡ length t.relations
  pub documents : seen.documents + length reset.documents ≡ length t.documents
  pub events : seen.events + length reset.events ≡ length t.events
  pub marks : seen.export_marks + length reset.export_marks ≡ length t.export_marks
  pub answers : reset.manifestacoes ≡ t.manifestacoes

-- A PreviewResetCompany that goes through leaves the tables as they were. A ResetCompany of the same tables that goes
-- through then gives the same counts, and they are the numbers of views, documents, events and export marks that the
-- tables have less after it; it removes no answered manifestação.
pub preview_reset_company-counts :
    (w w' : World) (company : Bytes) (t : Tables) (seen counts : ResetCounts) (t1 t2 : Tables)
    → preview_reset_company w company t ≡ ok (seen, t1)
    → reset_company w' company t ≡ ok (counts, t2)
    → IsPreview seen counts t t1 t2
preview_reset_company-counts w w' company t seen counts t1 t2 h k =
    let (same, kept) = preview_ok w company t h in
    let (given, end) = reset_company_ok w' company t k in
    let ids = exclusive_ids company t in
    record {
      unchanged = kept;
      foreseen = same ∙ sym given;
      views = rw (same, end) (length-keep (of_company company) t.relations);
      documents =
          rw (same, end)
            (length-keep (λ (d : DocumentRow). is_named ids d.document.id) t.documents);
      events =
          rw (same, end)
            (ap (λ n. length (keep (dropped company ids t) t.events) + n)
                (length-map (keep (λ row. not (dropped company ids t row)) t.events)
                  (λ (row : EventRow). if linked_to ids row.document_id then unlink row else row))
              ∙ length-keep (dropped company ids t) t.events);
      marks =
          rw (same, end)
            (length-keep (λ (m : ExportMark). bytes_eq m.company_id company) t.export_marks);
      answers = ap (λ (x : Tables). x.manifestacoes) end;
    }

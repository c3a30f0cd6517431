-- ===== src/Store/Nfe/Exports/Cleared.antt =====
-- What the marks of an export leave pending of its documents and of the others (internal/store/dfe.go).
use nanci.Prelude.{
  ℕ, ◌≡◌, ◌≢◌, refl, sym, ap, ◌∙◌, inl, inr, Bool, true, false, not, List, [], ◌∷◌, map, none, some,
  In, Bool-cases, Option-cases, ◌==◌, arith,
}
use nanci.Text.{Bytes, Unicode, bytes_eq, bytes_eq-eq}
use nanci.Sync.Env.{ok}
use nanci.Nfe.Types.{Document}
use nanci.Store.Tx.{World}
use nanci.Store.Select.{
  keep, keep_congr, keep_empty, In-keep, keep-In, In-map, map-In, In-flat_map, flat_map-In,
}
use nanci.Store.Nfe.Tables.{DocumentRow, Relation, Tables, has_document_id}
use nanci.Store.Nfe.Marks.{
  Exported, mark_exported, DocumentFilter, selects, event_count, pending_export, wanted,
  company_documents,
}
use nanci.Store.Nfe.Fresh.{IsKeyed}
use nanci.Store.Nfe.Exports.{exported_of}
use nanci.Store.Nfe.Exports.Marked.{last_for, due, bytes_eq_refl}
use nanci.Store.Nfe.Exports.Due.{mark_exported-due}

last_for-In :
    (id : Bytes) (es : List Exported) (e : Exported)
    → last_for id es ≡ some e
    → In e es × (bytes_eq e.document_id id ≡ true)
last_for-In id [] e h = absurd (cc)
last_for-In id (x ∷ xs) e h = elim (Option-cases (last_for id xs)) [
  | inr (later, found) ↦ let (i, q) = last_for-In id xs e (found ∙ (rw found at h)) in (inr i, q)
  | inl none_later ↦ elim (Bool-cases (bytes_eq x.document_id id)) [
    | inl hit ↦
        let same : x ≡ e = cc (rw (none_later, hit) at h) in
        (inl (sym same), ap (λ (y : Exported). bytes_eq y.document_id id) (sym same) ∙ hit)
    | inr miss ↦ absurd (cc (rw (none_later, miss) at h))
  ]
]

last_for-none :
    (id : Bytes) (es : List Exported) (e : Exported)
    → last_for id es ≡ none
    → In e es
    → bytes_eq e.document_id id ≡ false
last_for-none id [] e h i = absurd i
last_for-none id (x ∷ xs) e h i = elim (Option-cases (last_for id xs)) [
  | inr (later, found) ↦ absurd (cc (rw found at h))
  | inl none_later ↦ elim (Bool-cases (bytes_eq x.document_id id)) [
    | inl hit ↦ absurd (cc (rw (none_later, hit) at h))
    | inr miss ↦ elim i [
      | inl same ↦ ap (λ (y : Exported). bytes_eq y.document_id id) same ∙ miss
      | inr k ↦ last_for-none id xs e none_later k
    ]
  ]
]

pub keep_none :
    {A : Type 0} (p : A → Bool) (xs : List A) → ((x : A) → In x xs → p x ≡ false) → keep p xs ≡ []
keep_none p xs never = keep_congr p (λ x. false) xs never ∙ keep_empty (λ x. false) xs (λ x. refl)

-- a mark with what is stored leaves its document at rest
at_rest :
    (kind : Bytes) (d : Document) (r : Relation) (t : Tables)
    → due kind d r t (some (exported_of t (d, r))) ≡ false
at_rest kind d r t = rw (bytes_eq_refl d.raw_hash) (same (event_count d.chave_acesso t))
  where
    same : (n : ℕ) → not (n == n) ≡ false
    same n = ground (arith)

module _ ⦃u : Unicode⦄ (f : DocumentFilter) (company kind : Bytes) (t : Tables)
    (keyed : IsKeyed t) where
  -- what is pending, before ORDER BY and LIMIT
  abbrev listed : List (Document × Relation)
  listed = company_documents company f kind t

  -- a listed document, and the row it is
  pub listed-In :
      (p : Document × Relation)
      → In p listed
      → (row : DocumentRow) × In row t.documents × (p.0 ≡ row.document)
  unfolding company_documents
  listed-In p i =
      let (r, j, k) = In-flat_map _ t.relations p i in
      let (row, l, e) = In-map (λ (row : DocumentRow). (row.document, r)) _ p k in
      (row, (In-keep _ t.documents row l).0, ap (λ (x : Document × Relation). x.0) e)

  pub In-listed :
      (row : DocumentRow) (r : Relation)
      → In row t.documents
      → In r t.relations
      → has_document_id r.document_id row ≡ true
      → selects company f row.document r ≡ true
      → wanted kind t row.document r ≡ true
      → In (row.document, r) listed
  unfolding company_documents
  In-listed row r i j shows chosen due_now =
      flat_map-In _ t.relations r (row.document, r) j
        (map-In (λ (row : DocumentRow). (row.document, r)) _ row
          (keep-In _ t.documents row i (rw (shows, chosen, due_now) refl)))

  -- what the listing shows is of the company
  selects-own :
      (d : Document) (r : Relation)
      → selects company f d r ≡ true
      → bytes_eq r.company_id company ≡ true
  unfolding selects
  selects-own d r h = elim (Bool-cases (bytes_eq r.company_id company)) [
    | inl e ↦ e
    | inr e ↦ absurd (cc (rw e at h))
  ]

  module _ (docs : List (Document × Relation))
      (inside : (p : Document × Relation) → In p docs → In p listed) where
    abbrev marks : List Exported
    marks = map (exported_of t) docs

    -- a mark that names the document is of what is stored
    pub marked_rests :
        (row : DocumentRow) (r : Relation) (e : Exported)
        → In row t.documents
        → has_document_id r.document_id row ≡ true
        → last_for r.document_id marks ≡ some e
        → due kind row.document r t (last_for r.document_id marks) ≡ false
    marked_rests row r e i shows found =
        let (k, names) = last_for-In r.document_id _ e found in
        let (p, l, same) = In-map (exported_of t) docs e k in
        let (other, m, d) = listed-In p (inside p l) in
        let ids : other.document.id ≡ row.document.id =
          ap (λ (x : Document). x.id) (sym d)
          ∙ ap (λ (x : Exported). x.document_id) (sym same)
          ∙ bytes_eq-eq e.document_id r.document_id names
          ∙ sym (bytes_eq-eq row.document.id r.document_id shows) in
        let whole : e ≡ exported_of t (row.document, r) =
          same
          ∙ ap (λ (x : Document). exported_of t (x, r))
              (d ∙ ap (λ (x : DocumentRow). x.document) (keyed.ids other row m i ids)) in
        rw (found, whole) (at_rest kind row.document r t)

    -- a document that is exported is due no more
    exported_rests :
        (row : DocumentRow) (r : Relation)
        → In row t.documents
        → has_document_id r.document_id row ≡ true
        → In (row.document, r) docs
        → due kind row.document r t (last_for r.document_id marks) ≡ false
    exported_rests row r i shows sent = elim (Option-cases (last_for r.document_id marks)) [
      | inr (e, found) ↦ marked_rests row r e i shows found
      | inl nothing ↦ absurd (
          cc (
            last_for-none r.document_id _ _ nothing
                (map-In (exported_of t) docs (row.document, r) sent),
            shows,
          ))
    ]

    module _ (w : World) (t' : Tables) (x : Unit {0})
        (marked : mark_exported w company kind marks t ≡ ok (x, t')) where
      -- for the company, pending is what is due
      pub pending-due :
          (row : DocumentRow) (r : Relation)
          → selects company f row.document r ≡ true
          → pending_export kind row.document r t'
            ≡ due kind row.document r t (last_for r.document_id marks)
      pending-due row r chosen =
          let own : bytes_eq company r.company_id ≡ true =
            ap (bytes_eq company)
              (bytes_eq-eq r.company_id company (selects-own row.document r chosen))
            ∙ bytes_eq_refl company in
          mark_exported-due w company kind marks t t' x marked kind row.document r
          ∙ rw (own, bytes_eq_refl kind) refl

      -- no exported document is shown again
      pub exported-hidden :
          (row : DocumentRow) (r : Relation)
          → In row t.documents
          → has_document_id r.document_id row ≡ true
          → selects company f row.document r ≡ true
          → In (row.document, r) docs
          → pending_export kind row.document r t' ≡ false
      exported-hidden row r i shows chosen sent =
          pending-due row r chosen ∙ exported_rests row r i shows sent

      -- a document that no mark names stays as it was
      pub unnamed-kept :
          (row : DocumentRow) (r : Relation)
          → has_document_id r.document_id row ≡ true
          → selects company f row.document r ≡ true
          → ((p : Document × Relation) → In p docs → p.0.id ≢ row.document.id)
          → pending_export kind row.document r t' ≡ pending_export kind row.document r t
      unnamed-kept row r shows chosen others = elim (Option-cases (last_for r.document_id marks)) [
        | inl nothing ↦ pending-due row r chosen ∙ ap (due kind row.document r t) nothing
        | inr (e, found) ↦
            let (k, names) = last_for-In r.document_id _ e found in
            let (p, l, same) = In-map (exported_of t) docs e k in
            absurd (
              others p l (
                ap (λ (x : Exported). x.document_id) (sym same)
                ∙ bytes_eq-eq e.document_id r.document_id names
                ∙ sym (bytes_eq-eq row.document.id r.document_id shows)))
      ]

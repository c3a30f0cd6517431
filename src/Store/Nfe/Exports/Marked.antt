-- ===== src/Store/Nfe/Exports/Marked.antt =====
-- What MarkExported of internal/store/dfe.go leaves pending.
use nanci.Prelude.{
  ℕ, ◌≡◌, refl, sym, ap, ◌∙◌, inl, inr, Bool, true, false, not, ◌&&◌, ◌||◌, List, [], ◌∷◌, Option,
  none, some, any_by, Bool-cases, if◌then◌else◌, ◌==◌, arith, length,
}
use nanci.Text.{Bytes, bytes_eq, bytes_eq-eq}
use nanci.Nfe.Types.{Document}
use nanci.Store.Select.{keep, update_where}
use nanci.Store.Nfe.Tables.{Relation, ExportMark, EventRow, Tables, of_chave}
use nanci.Store.Nfe.Fresh.Refresh.{bytes_eq_of}
use nanci.Store.Nfe.Marks.{
  Exported, same_mark, mark_of, put_mark, mark_differs, pending_by, pending_export, event_count,
}

-- the last of the marks that names the document
abbrev pub or_first : Option Exported → Bool → Exported → Option Exported
or_first (some later) hit e = some later
or_first none hit e = if hit then some e else none

abbrev pub last_for : Bytes → List Exported → Option Exported
last_for id [] = none
last_for id (e ∷ es) = or_first (last_for id es) (bytes_eq e.document_id id) e

-- pending by the mark that was put last, and as before without one
abbrev pub due : Bytes → Document → Relation → Tables → Option Exported → Bool
due kind d r t none = pending_export kind d r t
due kind d r t (some e) =
    not (bytes_eq e.raw_hash d.raw_hash) || not (e.events == event_count d.chave_acesso t)

-- What a put leaves but for the marks.
pub record Aside (t t' : Tables) : Type 0 where
  pub documents : t'.documents ≡ t.documents
  pub relations : t'.relations ≡ t.relations
  pub events : t'.events ≡ t.events

pub put_mark-Aside :
    (company kind : Bytes) (now : ℕ) (e : Exported) (t : Tables)
    → Aside t (put_mark company kind now e t)
put_mark-Aside company kind now e t =
    elim (Bool-cases (any_by (same_mark company e.document_id kind) t.export_marks)) [
      | inl old ↦ record { documents = rw old refl; relations = rw old refl; events = rw old refl }
      | inr new ↦ record { documents = rw new refl; relations = rw new refl; events = rw new refl }
    ]

module _ (d : Document) (t : Tables) (m : ExportMark) where
  -- a mark in the place of those of its key
  replaced-pending_by :
      (p : ExportMark → Bool) (ms : List ExportMark)
      → p m ≡ true
      → any_by p ms ≡ true
      → pending_by d t (keep p (update_where p (λ x. m) ms)) ≡ mark_differs d t m
  replaced-pending_by p [] own h = absurd (cc)
  replaced-pending_by p (x ∷ xs) own h = elim (Bool-cases (p x)) [
    | inl e ↦ rw (e, own) refl
    | inr e ↦ rw (e, e) (replaced-pending_by p xs own (rw e at h))
  ]

  -- it leaves the marks of the other keys
  keep-replaced :
      (p q : ExportMark → Bool) (ms : List ExportMark)
      → q m ≡ false
      → ((x : ExportMark) → p x ≡ true → q x ≡ false)
      → keep q (update_where p (λ x. m) ms) ≡ keep q ms
  keep-replaced p q [] apart other = refl
  keep-replaced p q (x ∷ xs) apart other =
      let ih = keep-replaced p q xs apart other in
      elim (Bool-cases (p x)) [
        | inl e ↦ rw (e, apart, other x e) ih
        | inr e ↦ elim (Bool-cases (q x)) [
          | inl g ↦ rw (e, g) (ap (◌∷◌ x) ih)
          | inr g ↦ rw (e, g) ih
        ]
      ]

pub bytes_eq_refl : (s : Bytes) → bytes_eq s s ≡ true
bytes_eq_refl s = bytes_eq_of {s = s} refl

three : (a b c : Bool) → (a && b && c) ≡ true → (a ≡ true) × (b ≡ true) × (c ≡ true)
three a b c h = (ground (arith, h), ground (arith, h), ground (arith, h))

same_mark-keys :
    (company id kind : Bytes) (x : ExportMark)
    → same_mark company id kind x ≡ true
    → (x.company_id ≡ company) × (x.document_id ≡ id) × (x.export_kind ≡ kind)
same_mark-keys company id kind x h =
    let (a, b, c) = three _ _ _ h in
    (
      bytes_eq-eq x.company_id company a,
      bytes_eq-eq x.document_id id b,
      bytes_eq-eq x.export_kind kind c,
    )

-- two marks of one key are marks of the same keys
same_mark-same :
    (company id kind : Bytes) (x m : ExportMark) (company' id' kind' : Bytes)
    → same_mark company id kind x ≡ true
    → same_mark company id kind m ≡ true
    → same_mark company' id' kind' x ≡ same_mark company' id' kind' m
same_mark-same company id kind x m company' id' kind' h k =
    let (a, b, c) = same_mark-keys company id kind x h in
    let (a', b', c') = same_mark-keys company id kind m k in
    λ i.
      bytes_eq ((a ∙ sym a') i) company'
      && bytes_eq ((b ∙ sym b') i) id'
      && bytes_eq ((c ∙ sym c') i) kind'

module _ (company kind : Bytes) (now : ℕ) (e : Exported) (t : Tables) where
  put_own : same_mark company e.document_id kind (mark_of company kind now e) ≡ true
  put_own = rw (bytes_eq_refl company, bytes_eq_refl e.document_id, bytes_eq_refl kind) refl

  pub put_mark-other :
      (k : Bytes) (d : Document) (r : Relation)
      → same_mark r.company_id r.document_id k (mark_of company kind now e) ≡ false
      → pending_export k d r (put_mark company kind now e t) ≡ pending_export k d r t
  unfolding pending_export
  put_mark-other k d r apart =
      elim (Bool-cases (any_by (same_mark company e.document_id kind) t.export_marks)) [
        | inr new ↦ rw (new, apart) refl
        | inl old ↦ rw old (
            ap (pending_by d t) (
              keep-replaced d t (mark_of company kind now e) (same_mark company e.document_id kind)
                (same_mark r.company_id r.document_id k) t.export_marks apart
                (λ x own.
                  same_mark-same company e.document_id kind x (mark_of company kind now e)
                    r.company_id r.document_id k own put_own
                  ∙ apart)))
      ]

  put_mark-own :
      (d : Document)
      → pending_by d
          (put_mark company kind now e t)
          (keep (same_mark company e.document_id kind) (put_mark company kind now e t).export_marks)
        ≡ mark_differs d t (mark_of company kind now e)
  put_mark-own d =
      elim (Bool-cases (any_by (same_mark company e.document_id kind) t.export_marks)) [
        | inr new ↦ rw (new, put_own) refl
        | inl old ↦ rw old (
            replaced-pending_by d t (mark_of company kind now e)
              (same_mark company e.document_id kind) t.export_marks put_own old)
      ]

  put_mark-same :
      (k : Bytes) (d : Document) (r : Relation)
      → same_mark r.company_id r.document_id k (mark_of company kind now e) ≡ true
      → pending_export k d r (put_mark company kind now e t)
        ≡ mark_differs d t (mark_of company kind now e)
  unfolding pending_export
  put_mark-same k d r same =
      let (a, b, c) =
        same_mark-keys r.company_id r.document_id k (mark_of company kind now e) same in
      (λ i. pending_by d (put_mark company kind now e t) (
        keep (same_mark (sym a i) (sym b i) (sym c i))
          (put_mark company kind now e t).export_marks))
      ∙ put_mark-own d

  -- one put, for the documents of the company and kind
  pub put_mark-due :
      (k : Bytes) (d : Document) (r : Relation)
      → bytes_eq company r.company_id ≡ true
      → bytes_eq kind k ≡ true
      → (later : Option Exported)
      → due k d r (put_mark company kind now e t) later
        ≡ due k d r t (or_first later (bytes_eq e.document_id r.document_id) e)
  put_mark-due k d r own this (some later) =
      ap
        (λ (events : List EventRow).
          not (bytes_eq later.raw_hash d.raw_hash)
          || not (later.events == length (keep (of_chave d.chave_acesso) events)))
        (put_mark-Aside company kind now e t).events
  put_mark-due k d r own this none = elim (Bool-cases (bytes_eq e.document_id r.document_id)) [
    | inl hit ↦ put_mark-same k d r (rw (own, hit, this) refl) ∙ rw hit refl
    | inr miss ↦ put_mark-other k d r (rw (own, miss) refl) ∙ rw miss refl
  ]

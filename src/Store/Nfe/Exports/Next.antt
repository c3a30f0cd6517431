-- ===== src/Store/Nfe/Exports/Next.antt =====
-- The next ListPendingExport of internal/store/nfe.go after an export of what the last one gave.
use nanci.Prelude.{
  ℕ, zero, suc, ◌≡◌, ◌≢◌, refl, sym, ap, ◌∙◌, ◌↔◌, inl, inr, Bool, true, ◌&&◌, List, [], ◌∷◌, map,
  take, In, Bool-cases, Option-cases, ◌==◌, arith,
}
use mathlib.Core.Path.{subst}
use nanci.Text.{Bytes, Unicode}
use nanci.Sync.Env.{ok, ok-injective}
use nanci.Nfe.Types.{Document}
use nanci.Store.Tx.{World}
use nanci.Store.Select.{In-keep, keep-In, In-map, map-In, In-flat_map, flat_map-In}
use nanci.Store.Nfe.Tables.{DocumentRow, Relation, Tables, has_document_id}
use nanci.Store.Nfe.Marks.{
  DocumentFilter, selects, pending_export, mark_exported, wanted, company_documents,
}
use nanci.Store.Nfe.Fresh.{IsKeyed}
use nanci.Store.Nfe.Exports.{exported_of, mark_listed, limited, list_pending_export}
use nanci.Store.Nfe.Exports.Marked.{last_for, due, Aside}
use nanci.Store.Nfe.Exports.Due.{mark_exported-Aside}
use nanci.Store.Nfe.Exports.Cleared.{
  In-listed, marked_rests, pending-due, exported-hidden, unnamed-kept,
}

In-take : {A : Type 0} (n : ℕ) (xs : List A) (x : A) → In x (take n xs) → In x xs
In-take zero xs x i = absurd i
In-take (suc n) [] x i = absurd i
In-take (suc n) (y ∷ ys) x i = elim i [ inl e ↦ inl e | inr k ↦ inr (In-take n ys x k) ]

In-limited : {A : Type 0} (n : ℕ) (xs : List A) (x : A) → In x (limited n xs) → In x xs
In-limited n xs x i = elim (Bool-cases (n == 0)) [
  | inl e ↦ rw e at i
  | inr e ↦ In-take n xs x (rw e at i)
]

nothing_in : {A : Type 0} (xs : List A) → ((x : A) → In x xs → ⊥) → xs ≡ []
nothing_in [] h = refl
nothing_in (x ∷ xs) h = absurd (h x (inl refl))

-- A row that a listing shows.
record Shown ⦃u : Unicode⦄ (company : Bytes) (f : DocumentFilter) (t : Tables)
    (p : Document × Relation) : Type 0 where
  row : DocumentRow
  view : Relation
  same : p ≡ (row.document, view)
  there : In row t.documents
  seen : In view t.relations
  shows : has_document_id view.document_id row ≡ true
  chosen : selects company f row.document view ≡ true

three_true : (a b c : Bool) → (a && b && c) ≡ true → (a ≡ true) × (b ≡ true) × (c ≡ true)
three_true a b c h = (ground (arith, h), ground (arith, h), ground (arith, h))

module _ ⦃u : Unicode⦄ (company : Bytes) (f : DocumentFilter) (c : ℕ) (kind : Bytes) where
  abbrev pub pending : Tables → List (Document × Relation)
  pending t = company_documents company f (c ∷ kind) t

  pending-Shown :
      (t : Tables) (p : Document × Relation)
      → In p (pending t)
      → (x : Shown company f t p) × (pending_export (c ∷ kind) x.row.document x.view t ≡ true)
  unfolding company_documents
  pending-Shown t p i =
      let (r, j, k) = In-flat_map _ t.relations p i in
      let (row, l, e) = In-map (λ (row : DocumentRow). (row.document, r)) _ p k in
      let (there, passes) = In-keep _ t.documents row l in
      let (shows, chosen, due_now) =
        three_true (has_document_id r.document_id row) (selects company f row.document r)
          (wanted (c ∷ kind) t row.document r) passes in
      (
        record {
          row = row;
          view = r;
          same = e;
          there = there;
          seen = j;
          shows = shows;
          chosen = chosen;
        },
        due_now,
      )

  -- The listing `next` of the tables `t'`, after the export of `docs` out of the tables `t`.
  pub record IsNext (docs next : List (Document × Relation)) (t t' : Tables) : Type 0 where
    pub gone : (p : Document × Relation) → In p docs → In p next → ⊥
    pub waited : (p : Document × Relation) → In p next → In p (pending t)
    pub kept :
        (p : Document × Relation)
        → In p (pending t)
        → ((q : Document × Relation) → In q docs → q.0.id ≢ p.0.id)
        → In p (pending t')
    pub emptied : f.limit ≡ 0 → next ≡ []

  module _ (w : World) (t t' : Tables) (docs : List (Document × Relation)) (x : Unit {0})
      (keyed : IsKeyed t) (inside : (p : Document × Relation) → In p docs → In p (pending t))
      (marked : mark_exported w company (c ∷ kind) (map (exported_of t) docs) t ≡ ok (x, t')) where
    aside : Aside t t'
    aside = mark_exported-Aside w company (c ∷ kind) (map (exported_of t) docs) t t' x marked

    abbrev still : {p : Document × Relation} → Shown company f t' p → Shown company f t p
    still {p} s = record {
      row = s.row;
      view = s.view;
      same = s.same;
      there = subst (In s.row) aside.documents s.there;
      seen = subst (In s.view) aside.relations s.seen;
      shows = s.shows;
      chosen = s.chosen;
    }

    -- what is shown again was not exported
    hidden : (p : Document × Relation) → In p docs → In p (pending t') → ⊥
    hidden p sent i =
        let (s, held) = pending-Shown t' p i in
        let o = still s in
        let no =
          exported-hidden f company (c ∷ kind) t keyed docs inside w t' x marked o.row o.view
            o.there o.shows o.chosen (subst (λ q. In q docs) o.same sent) in
        absurd (cc (held, no))

    -- and it was pending before
    waiting : (p : Document × Relation) → In p (pending t') → In p (pending t)
    waiting p i =
        let (s, held) = pending-Shown t' p i in
        let o = still s in
        let here =
          pending-due f company (c ∷ kind) t keyed docs inside w t' x marked o.row o.view
            o.chosen in
        elim (Option-cases (last_for o.view.document_id (map (exported_of t) docs))) [
          | inr (e, found) ↦
              let no =
                marked_rests f company (c ∷ kind) t keyed docs inside o.row o.view e o.there o.shows
                  found in
              absurd (cc (held, here, no))
          | inl nothing ↦
              let was : pending_export (c ∷ kind) o.row.document o.view t ≡ true =
                sym (here ∙ ap (due (c ∷ kind) o.row.document o.view t) nothing) ∙ held in
              subst (λ q. In q (pending t)) (sym o.same)
                (In-listed f company (c ∷ kind) t keyed o.row o.view o.there o.seen o.shows o.chosen
                  was)
        ]

    unlimited :
        ((p : Document × Relation) → In p (pending t) → In p docs)
        → (p : Document × Relation) → In p (pending t')
        → ⊥
    unlimited all p i = hidden p (all p (waiting p i)) i

    staying :
        (p : Document × Relation)
        → In p (pending t)
        → ((q : Document × Relation) → In q docs → q.0.id ≢ p.0.id)
        → In p (pending t')
    unfolding company_documents
    staying p i others =
        let (s, was) = pending-Shown t p i in
        let same_id = ap (λ (q : Document × Relation). q.0.id) s.same in
        let yes =
          unnamed-kept f company (c ∷ kind) t keyed docs inside w t' x marked s.row s.view s.shows
            s.chosen (λ q sent e. others q sent (e ∙ sym same_id))
          ∙ was in
        subst (λ q. In q (pending t')) (sym s.same)
          (flat_map-In _ t'.relations s.view (s.row.document, s.view)
            (subst (In s.view) (sym aside.relations) s.seen)
            (map-In (λ (row : DocumentRow). (row.document, s.view)) _ s.row
              (keep-In _ t'.documents s.row (subst (In s.row) (sym aside.documents) s.there)
                (rw (s.shows, s.chosen, yes) refl))))

-- Once the MarkExported of what ListPendingExport gave goes through, and nothing else changes meanwhile, in tables whose
-- keys hold: the next ListPendingExport gives none of the exported documents, and only documents that were pending
-- before; every pending document whose ID was not exported stays pending; and where the filter has no limit the next
-- listing is empty. `sort` stands for the ORDER BY, and leaves the rows of a listing.
pub mark_listed-IsNext :
    ⦃u : Unicode⦄ (sort : List (Document × Relation) → List (Document × Relation))
    (f : DocumentFilter) (company : Bytes) (c : ℕ) (kind : Bytes) (w : World) (t t' : Tables)
    (docs next : List (Document × Relation)) (x : Unit {0})
    → ((xs : List (Document × Relation)) (p : Document × Relation) → In p (sort xs) ↔ In p xs)
    → IsKeyed t
    → list_pending_export sort company f (c ∷ kind) t ≡ ok docs
    → mark_listed w company (c ∷ kind) t docs t ≡ ok (x, t')
    → list_pending_export sort company f (c ∷ kind) t' ≡ ok next
    → IsNext company f c kind docs next t t'
unfolding list_pending_export mark_listed
mark_listed-IsNext sort f company c kind w t t' docs next x same_rows keyed before marked after =
    record {
      gone =
          λ p sent i. hidden company f c kind w t t' docs x keyed inside marked p sent (shown p i);
      waited = λ p i. waiting company f c kind w t t' docs x keyed inside marked p (shown p i);
      kept = λ p i others. staying company f c kind w t t' docs x keyed inside marked p i others;
      emptied = λ none_set. nothing_in next (λ p i.
          unlimited company f c kind w t t' docs x keyed inside marked (all none_set) p
            (shown p i));
    }
  where
    inside : (p : Document × Relation) → In p docs → In p (pending company f c kind t)
    inside p i = (same_rows (pending company f c kind t) p).0 (
        In-limited f.limit (sort (pending company f c kind t)) p
          (subst (In p) (sym (ok-injective before)) i))

    shown : (p : Document × Relation) → In p next → In p (pending company f c kind t')
    shown p i = (same_rows (pending company f c kind t') p).0 (
        In-limited f.limit (sort (pending company f c kind t')) p
          (subst (In p) (sym (ok-injective after)) i))

    all : f.limit ≡ 0 → (p : Document × Relation) → In p (pending company f c kind t) → In p docs
    all none_set p i =
        subst (In p)
          (ap (λ n. limited n (sort (pending company f c kind t))) (sym none_set)
            ∙ ok-injective before)
          ((same_rows (pending company f c kind t) p).1 i)

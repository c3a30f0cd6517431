-- ===== src/Store/Nfe/Fresh/Left.antt =====
-- ResetCompany leaves the events of a chave whose document stays.
use nanci.Prelude.{
  ℕ, ◌≡◌, refl, sym, ap, ◌∙◌, inl, inr, Bool, true, false, not, ◌&&◌, ◌||◌, List, [], ◌∷◌, map, In,
  any_by, any_by-In, In-any_by, Bool-cases, arith,
}
use mathlib.Core.Path.{subst}
use nanci.Text.{Bytes, Unicode, bytes_eq, bytes_eq-eq, bytes_eq_refl}
use nanci.Nfe.Types.{Event}
use nanci.Nfe.Merge.{is_cancelamento}
use nanci.Nfe.Manifestacao.{manifestacao_and_time_from_events}
use nanci.Store.Select.{keep, update_where, In-keep, OneEach}
use nanci.Store.Nfe.Tables.{DocumentRow, EventRow, Tables, has_chave, of_chave}
use nanci.Store.Nfe.Apply.{events_of_chave, event_of, stamped, registered_types}
use nanci.Store.Nfe.Marks.{is_named}
use nanci.Store.Nfe.Reset.{exclusive_ids, of_removed, own_orphan, dropped, linked_to, unlink}
use nanci.Store.Nfe.Reset.Outcome.{left}
use nanci.Store.Nfe.Fresh.{chave_of, id_of, relation_id_of, IsFresh}

OneEach-keep :
    {A K : Type 0} (key : A → K) (p : A → Bool) (xs : List A)
    → OneEach key xs
    → OneEach key (keep p xs)
OneEach-keep key p xs one a b i j = one a b (In-keep p xs a i).0 (In-keep p xs b j).0

pub stamped-left :
    (chave : Bytes) (gone linked : EventRow → Bool) (rows : List EventRow)
    → ((row : EventRow) → of_chave chave row ≡ true → gone row ≡ false)
    → map stamped
        (keep (of_chave chave) (update_where linked unlink (keep (λ row. not (gone row)) rows)))
      ≡ map stamped (keep (of_chave chave) rows)
stamped-left chave gone linked [] stay = refl
stamped-left chave gone linked (row ∷ rows) stay =
    let ih = stamped-left chave gone linked rows stay in
    elim (Bool-cases (of_chave chave row)) [
      | inl here ↦ elim (Bool-cases (linked row)) [
        | inl l ↦ rw (stay row here, l, here) (ap (◌∷◌ (stamped row)) ih)
        | inr l ↦ rw (stay row here, l, here) (ap (◌∷◌ (stamped row)) ih)
      ]
      | inr other ↦ elim (Bool-cases (gone row)) [
        | inl g ↦ rw (g, other) ih
        | inr g ↦ elim (Bool-cases (linked row)) [
          | inl l ↦ rw (g, l, other) ih
          | inr l ↦ rw (g, l, other) ih
        ]
      ]
    ]

and_or_false : (a b c : Bool) → b ≡ false → c ≡ false → (not a && (b || c)) ≡ false
and_or_false a b c h k = ground (arith, h, k)

-- no event of a document that stays is dropped
pub dropped-false :
    (company : Bytes) (ids : List Bytes) (t : Tables) (kept : DocumentRow) (row : EventRow)
    → OneEach chave_of t.documents
    → In kept t.documents
    → is_named ids kept.document.id ≡ false
    → of_chave kept.document.chave_acesso row ≡ true
    → dropped company ids t row ≡ false
dropped-false company ids t kept row one i stays hit = and_or_false _ _ _ removed orphan
  where
    and_not : (a b : Bool) → b ≡ true → (a && not b) ≡ false
    and_not a b h = ground (arith, h)

    parts : (a b : Bool) → (a && b) ≡ true → (a ≡ true) × (b ≡ true)
    parts a b h = ground (arith, h)

    same : row.event.chave_acesso ≡ kept.document.chave_acesso
    same = bytes_eq-eq row.event.chave_acesso kept.document.chave_acesso hit

    removed : of_removed ids t row ≡ false
    removed = elim (Bool-cases (of_removed ids t row)) [
      | inr e ↦ e
      | inl e ↦
          let (d, j, both) =
            any_by-In
              (λ (d : DocumentRow).
                is_named ids d.document.id && has_chave row.event.chave_acesso d)
              t.documents e in
          let (named, chave) =
            parts (is_named ids d.document.id) (has_chave row.event.chave_acesso d) both in
          let it : d ≡ kept =
            one d kept j i (bytes_eq-eq (chave_of d) row.event.chave_acesso chave ∙ same) in
          absurd (cc (named, ap (λ (x : DocumentRow). is_named ids x.document.id) it, stays))
    ]

    orphan : own_orphan company t row ≡ false
    orphan = elim (Bool-cases (any_by (has_chave row.event.chave_acesso) t.documents)) [
      | inl there ↦ and_not _ _ there
      | inr none_there ↦
          let miss = In-any_by (has_chave row.event.chave_acesso) t.documents none_there kept i in
          let hits =
            ap (λ c. bytes_eq c row.event.chave_acesso) (sym same)
            ∙ bytes_eq_refl row.event.chave_acesso in
          absurd (cc (miss, hits))
    ]

-- the events of a chave whose document stays
kept_events :
    ⦃u : Unicode⦄ (order : List (Event × ℕ) → List (Event × ℕ)) (company : Bytes) (t : Tables)
    (kept : DocumentRow)
    → OneEach chave_of t.documents
    → In kept t.documents
    → is_named (exclusive_ids company t) kept.document.id ≡ false
    → events_of_chave order kept.document.chave_acesso (left company t)
      ≡ events_of_chave order kept.document.chave_acesso t
kept_events order company t kept one i stays =
    ap (λ xs. map event_of (order xs))
      (stamped-left kept.document.chave_acesso (dropped company (exclusive_ids company t) t)
        (λ row. linked_to (exclusive_ids company t) row.document_id) t.events
        (λ row hit. dropped-false company (exclusive_ids company t) t kept row one i stays hit))

module _ ⦃u : Unicode⦄ (order : List (Event × ℕ) → List (Event × ℕ)) where
  pub left-IsFresh :
      (company : Bytes) (t : Tables) → IsFresh order t → IsFresh order (left company t)
  left-IsFresh company t h = record {
    keyed = record {
      chaves = OneEach-keep chave_of _ t.documents h.keyed.chaves;
      ids = OneEach-keep id_of _ t.documents h.keyed.ids;
      relations = OneEach-keep relation_id_of _ t.relations h.keyed.relations;
      companies = h.keyed.companies;
    };
    fresh = λ chave. record {
      situacao = λ row i e any.
          let (j, stays) =
            In-keep (λ (d : DocumentRow). not (is_named ids d.document.id)) t.documents row i in
          (h.fresh chave).situacao row j e
            (ap (λ es. any_by is_cancelamento (registered_types es)) (same chave row i e) ∙ any);
      manifestacao = λ row r c i e j d k q.
          (h.fresh chave).manifestacao row r c (In-keep _ t.documents row i).0 e
            (In-keep _ t.relations r j).0 d k q
          ∙ ap (λ es. manifestacao_and_time_from_events es c.cnpj) (same chave row i e);
    };
  }
    where
      ids : List Bytes
      ids = exclusive_ids company t

      is_false : (a : Bool) → not a ≡ true → a ≡ false
      is_false a k = ground (arith, k)

      same :
          (chave : Bytes) (row : DocumentRow)
          → In row (left company t).documents
          → row.document.chave_acesso ≡ chave
          → events_of_chave order chave t ≡ events_of_chave order chave (left company t)
      same chave row i e =
          let (j, stays) =
            In-keep (λ (d : DocumentRow). not (is_named ids d.document.id)) t.documents row i in
          subst (λ c. events_of_chave order c t ≡ events_of_chave order c (left company t)) e
            (sym (kept_events order company t row h.keyed.chaves j (is_false _ stays)))

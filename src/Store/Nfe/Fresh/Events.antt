-- ===== src/Store/Nfe/Fresh/Events.antt =====
-- UpsertNFeEvent touches the events of one chave.
use nanci.Prelude.{
  ℕ, ◌≡◌, ◌≢◌, refl, sym, ap, ◌∙◌, inl, inr, true, false, List, [], ◌∷◌, map, any_by, Bool-cases,
  arith,
}
use mathlib.Core.Path.{subst}
use nanci.Text.{Bytes, Unicode, bytes_eq, bytes_eq-eq}
use nanci.Sync.Env.{ok, ok-injective}
use nanci.Nfe.Types.{Event}
use nanci.Nfe.Merge.{is_cancelamento}
use nanci.Nfe.Manifestacao.{manifestacao_and_time_from_events}
use nanci.Store.Select.{keep, update_where}
use nanci.Store.Nfe.Tables.{EventRow, Tables, of_chave, allowed_event}
use nanci.Store.Nfe.Rows.Events.{same_event, with_event, new_event, has_event, upsert_event_row}
use nanci.Store.Nfe.Apply.{events_of_chave, event_of, stamped, registered_types}
use nanci.Store.Nfe.Fresh.{IsFreshBut}
use nanci.Store.Nfe.Fresh.Documents.{guarded_ok}

event_chave : EventRow → Bytes
event_chave row = row.event.chave_acesso

differs : (s t : Bytes) → s ≢ t → bytes_eq s t ≡ false
differs s t ne = elim (Bool-cases (bytes_eq s t)) [
  | inl e ↦ absurd (ne (bytes_eq-eq s t e))
  | inr e ↦ e
]

of_event :
    (e : Event) (row : EventRow) → same_event e row ≡ true → row.event.chave_acesso ≡ e.chave_acesso
of_event e row h = bytes_eq-eq row.event.chave_acesso e.chave_acesso (ground (arith, h))

chave-with_event :
    (e : Event) (now : ℕ) (row : EventRow)
    → row.event.chave_acesso ≡ e.chave_acesso
    → (with_event e now row).event.chave_acesso ≡ e.chave_acesso
chave-with_event e now row h = ground (arith, h)

stamped-with_event :
    (e : Event) (now : ℕ) (other : Bytes) (rows : List EventRow)
    → other ≢ e.chave_acesso
    → map stamped (keep (of_chave other) (update_where (same_event e) (with_event e now) rows))
      ≡ map stamped (keep (of_chave other) rows)
stamped-with_event e now other [] ne = refl
stamped-with_event e now other (row ∷ rows) ne =
    let ih = stamped-with_event e now other rows ne in
    elim (Bool-cases (same_event e row)) [
      | inr f ↦ elim (Bool-cases (of_chave other row)) [
        | inl g ↦ rw (f, g) (ap (◌∷◌ (stamped row)) ih)
        | inr g ↦ rw (f, g) ih
      ]
      | inl f ↦
          let here = of_event e row f in
          let before : of_chave other row ≡ false =
            differs row.event.chave_acesso other (λ d. ne (sym d ∙ here)) in
          let later : of_chave other (with_event e now row) ≡ false =
            differs (with_event e now row).event.chave_acesso other
              (λ d. ne (sym d ∙ chave-with_event e now row here)) in
          rw (f, before, later) ih
    ]

module _ ⦃u : Unicode⦄ (order : List (Event × ℕ) → List (Event × ℕ)) where
  -- Tables that differ in the events of one chave only.
  events-IsFreshBut :
      (chave : Bytes) (t : Tables) (events : List EventRow)
      → ((other : Bytes)
          → other ≢ chave
          → map stamped (keep (of_chave other) events)
            ≡ map stamped (keep (of_chave other) t.events))
      → IsFreshBut order chave t
      → IsFreshBut order chave (record t { events = events })
  events-IsFreshBut chave t events kept h = record {
    keyed = record {
      chaves = h.keyed.chaves;
      ids = h.keyed.ids;
      relations = h.keyed.relations;
      companies = h.keyed.companies;
    };
    fresh = λ other ne.
        let f = h.fresh other ne in
        let same : events_of_chave order other (record t { events = events })
            ≡ events_of_chave order other t =
          ap (λ xs. map event_of (order xs)) (kept other ne) in
        record {
          situacao = λ row i e any.
              f.situacao row i e
                (ap (λ es. any_by is_cancelamento (registered_types es)) (sym same) ∙ any);
          manifestacao = λ row r c i e j d k q.
              f.manifestacao row r c i e j d k q
              ∙ ap (λ es. manifestacao_and_time_from_events es c.cnpj) (sym same);
        };
  }

  pub upsert_event_row-IsFreshBut :
      (e : Event) (now : ℕ) (t : Tables) {t' : Tables}
      → upsert_event_row e now t ≡ ok t'
      → IsFreshBut order e.chave_acesso t
      → IsFreshBut order e.chave_acesso t'
  unfolding upsert_event_row
  upsert_event_row-IsFreshBut e now t h fresh = elim (Bool-cases (allowed_event e)) [
    | inr bad ↦ absurd (cc (rw bad at h))
    | inl allowed ↦ elim (Bool-cases (has_event e t)) [
      | inl old ↦ subst (IsFreshBut order e.chave_acesso) (ok-injective (rw (allowed, old) at h)) (
          events-IsFreshBut e.chave_acesso t
            (update_where (same_event e) (with_event e now) t.events)
            (λ other ne. stamped-with_event e now other t.events ne) fresh)
      | inr new ↦
          let (test, same) = guarded_ok _ _ (rw (allowed, new) at h) in
          subst (IsFreshBut order e.chave_acesso) same (
            events-IsFreshBut e.chave_acesso t (new_event e now ∷ t.events)
              (λ other ne. rw (differs e.chave_acesso other (λ d. ne (sym d))) refl) fresh)
    ]
  ]

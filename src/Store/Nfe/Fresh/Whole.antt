-- ===== src/Store/Nfe/Fresh/Whole.antt =====
-- refreshChave as a whole.
use nanci.Prelude.{
  ◌≡◌, refl, sym, ap, ◌∙◌, inl, inr, true, List, Option, none, some, In, any_by, Bool-cases,
  if◌then◌else◌, ℕ, map,
}
use mathlib.Core.Path.{subst}
use nanci.Text.{Bytes, Unicode, bytes_eq, bytes_eq-eq}
use nanci.Sync.Env.{ok}
use nanci.Nfe.Types.{Event, EventType, Situacao, cancelada}
use nanci.Nfe.Merge.{is_cancelamento, situacao_from_events}
use nanci.Store.Tx.{World, Session, query, update, ◌>>=◌, ◌>>◌}
use nanci.Store.Tx.Rules.{bind_ok, query_ok, update_ok}
use nanci.Store.Select.{find, find-none, find-some, In-map, keep}
use nanci.Store.Nfe.Tables.{DocumentRow, EventRow, Tables, has_chave, of_chave}
use nanci.Store.Nfe.Rows.{update_situacao_rows, relations_of_chave, with_situacao}
use nanci.Store.Nfe.Rows.Events.{link_event_rows}
use nanci.Store.Nfe.Apply.{
  events_of_chave, event_of, stamped, registered_types, refresh_chave, refresh_found,
  refresh_relations, set_situacao, no_change,
}
use nanci.Store.Nfe.Fresh.{chave_of, IsFresh, IsFreshBut}
use nanci.Store.Nfe.Fresh.Documents.{differ, update_situacao-IsFreshBut}
use nanci.Store.Nfe.Fresh.Views.{refreshed}
use nanci.Store.Nfe.Fresh.Refresh.{no_change-eq, link-IsFreshBut, refresh_relations-map}
use nanci.Store.Nfe.Fresh.Chave.{loop-IsFresh}

module _ ⦃u : Unicode⦄ (order : List (Event × ℕ) → List (Event × ℕ)) (w : World) where
  -- the situação of every row of the chave
  abbrev Is : Situacao → Bytes → Tables → Type 0
  Is s chave t =
      (row : DocumentRow)
      → In row t.documents
      → row.document.chave_acesso ≡ chave
      → row.document.situacao ≡ s

  update_situacao-Is :
      (s : Situacao) (now : ℕ) (chave : Bytes) (t : Tables)
      → Is s chave (update_situacao_rows s now chave t)
  update_situacao-Is s now chave t row i e =
      let (before, j, same) =
        In-map (λ r. if has_chave chave r then with_situacao s now r else r) t.documents row i in
      elim (Bool-cases (has_chave chave before)) [
        | inl hit ↦
            ap (λ (r : DocumentRow). r.document.situacao)
              (same ∙ ap (λ b. if b then with_situacao s now before else before) hit)
        | inr miss ↦
            let old : row ≡ before =
              same ∙ ap (λ b. if b then with_situacao s now before else before) miss in
            absurd (differ (chave_of before) chave miss (sym (ap chave_of old) ∙ e))
      ]

  set_situacao_ok :
      (old new : Situacao) (chave : Bytes) (s : Session Tables) {x : Unit {0}} {s' : Session Tables}
      → set_situacao order w old new chave s ≡ ok (x, s')
      → IsFreshBut order chave s.tables
      → Is old chave s.tables
      → IsFreshBut order chave s'.tables
        × Is new chave s'.tables
        × (s'.tables.events ≡ s.tables.events)
  set_situacao_ok old new chave s {x} {s'} h fresh is = elim (Bool-cases (no_change new old)) [
    | inl e ↦
        let same : s ≡ s' = cc (rw e at h) in
        let named = no_change-eq new old e in
        rw (← same) (fresh, (λ row i k. is row i k ∙ sym named), refl)
    | inr e ↦
        let wrote = update_ok w (update_situacao_rows new w.now chave) s (rw e at h) in
        rw (← wrote) (
          update_situacao-IsFreshBut order new w.now chave s.tables fresh,
          update_situacao-Is new w.now chave s.tables,
          refl,
        )
  ]

  abbrev looped : List Event → List (Bytes × Bytes) → Tables → Tables
  looped events rows t = record t { relations = map (refreshed events rows) t.relations }

  cancelled :
      (old : Situacao) (types : List EventType)
      → any_by is_cancelamento types ≡ true
      → situacao_from_events old types ≡ cancelada
  unfolding situacao_from_events
  cancelled old types any = rw any refl

  -- the end of refresh_found
  looped-IsFresh :
      (chave : Bytes) (old : Situacao) (events : List Event) (rows : List (Bytes × Bytes))
      (s t : Session Tables) {x : Unit {0}} {s' : Session Tables}
      → IsFreshBut order chave s.tables
      → Is (situacao_from_events old (registered_types events)) chave s.tables
      → events_of_chave order chave s.tables ≡ events
      → relations_of_chave chave s.tables ≡ rows
      → s.tables ≡ t.tables
      → refresh_relations order w events rows t ≡ ok (x, s')
      → IsFresh order s'.tables
  looped-IsFresh chave old events rows s t fresh is now listed kept h =
      let at_end = loop-IsFresh order chave s.tables fresh (λ r i k any.
        is r i k
        ∙ cancelled old (registered_types events)
            (sym (ap (λ es. any_by is_cancelamento (registered_types es)) now) ∙ any)) in
      subst (IsFresh order)
        (ap (λ es. looped es (relations_of_chave chave s.tables) s.tables) now
          ∙ ap (λ rs. looped events rs s.tables) listed
          ∙ ap (looped events rows) kept
          ∙ refresh_relations-map order w events rows t h)
        at_end

  refresh_found-IsFresh :
      (chave : Bytes) (found : Option DocumentRow) (s : Session Tables) {x : Unit {0}}
      {s' : Session Tables}
      → find (has_chave chave) s.tables.documents ≡ found
      → refresh_found order w chave found s ≡ ok (x, s')
      → IsFreshBut order chave s.tables
      → IsFresh order s'.tables
  refresh_found-IsFresh chave none s {x} {s'} absent h fresh =
      let same : s ≡ s' = cc in
      rw (← same) (record {
        keyed = fresh.keyed;
        fresh = λ other. elim (Bool-cases (bytes_eq other chave)) [
          | inr e ↦ fresh.fresh other (differ other chave e)
          | inl e ↦
              let named = bytes_eq-eq other chave e in
              let never : (row : DocumentRow)
                  → In row s.tables.documents
                  → chave_of row ≡ other
                  → ⊥ =
                λ row i k.
                  differ (chave_of row) chave
                    (find-none (has_chave chave) s.tables.documents absent row i) (k ∙ named) in
              record {
                situacao = λ row i k any. absurd (never row i k);
                manifestacao = λ row r c i k. absurd (never row i k);
              }
        ];
      })
  refresh_found-IsFresh chave (some row) s found h fresh =
      let old = row.document.situacao in
      let new = λ (events : List Event). situacao_from_events old (registered_types events) in
      let loop = λ (events : List Event).
        query w (relations_of_chave chave) >>= λ rows. refresh_relations order w events rows in
      let (x1, s1, linked, h1) =
        bind_ok (update w (link_event_rows row.document.id chave))
          (λ _. query w (events_of_chave order chave) >>= λ events.
            set_situacao order w old (new events) chave >> loop events)
          s h in
      let (events, s2, listed, h2) =
        bind_ok (query w (events_of_chave order chave))
          (λ events. set_situacao order w old (new events) chave >> loop events) s1 h1 in
      let (x3, s3, set, h3) =
        bind_ok (set_situacao order w old (new events) chave) (λ _. loop events) s2 h2 in
      let (rows, s4, joined, h4) =
        bind_ok (query w (relations_of_chave chave)) (λ rows. refresh_relations order w events rows)
          s3 h3 in
      let link = update_ok w (link_event_rows row.document.id chave) s linked in
      let (read, kept) = query_ok w (events_of_chave order chave) s1 listed in
      let (there, hit) = find-some (has_chave chave) s.tables.documents row found in
      let at_link : IsFreshBut order chave (link_event_rows row.document.id chave s.tables) =
        link-IsFreshBut order row.document.id chave s.tables fresh in
      let before : Is old chave (link_event_rows row.document.id chave s.tables) = λ r i k.
        ap (λ (y : DocumentRow). y.document.situacao)
          (fresh.keyed.chaves r row i there (k ∙ sym (bytes_eq-eq (chave_of row) chave hit))) in
      let (fresh3, is3, same_events) =
        set_situacao_ok old (new events) chave s2 set
          (subst (IsFreshBut order chave) (link ∙ kept) at_link)
          (subst (Is old chave) (link ∙ kept) before) in
      let (rows_read, kept4) = query_ok w (relations_of_chave chave) s3 joined in
      let now : events_of_chave order chave s3.tables ≡ events =
        ap (λ (es : List EventRow). map event_of (order (map stamped (keep (of_chave chave) es))))
          same_events
        ∙ sym (ap (events_of_chave order chave) kept)
        ∙ read in
      looped-IsFresh chave old events rows s3 s4 fresh3 is3 now rows_read kept4 h4

  pub refresh_chave-IsFresh :
      (chave : Bytes) (s : Session Tables) {x : Unit {0}} {s' : Session Tables}
      → refresh_chave order w chave s ≡ ok (x, s')
      → IsFreshBut order chave s.tables
      → IsFresh order s'.tables
  unfolding refresh_chave
  refresh_chave-IsFresh chave s h fresh =
      let select = λ (t : Tables). find (has_chave chave) t.documents in
      let (found, s1, read, h1) =
        bind_ok (query w select) (λ found. refresh_found order w chave found) s h in
      let (same, kept) = query_ok w select s read in
      refresh_found-IsFresh chave found s1 (sym (ap select kept) ∙ same) h1
        (subst (IsFreshBut order chave) kept fresh)

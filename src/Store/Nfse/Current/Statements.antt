-- ===== src/Store/Nfse/Current/Statements.antt =====
-- What one statement of internal/sync/store.go on the NFS-e leaves current.
use nanci.Prelude.{
  ℕ, ◌≡◌, refl, sym, ap, inl, inr, Bool, List, [], ◌∷◌, map, Option, none, some, any_by, Bool-cases,
}
use mathlib.Core.Path.{subst}
use nanci.Text.{Bytes, bytes_eq, bytes_eq-eq}
use nanci.Sync.Env.{ok, ok-injective}
use nanci.Nfse.{NfseDocument, NfseEvent, NfseParticipation}
use nanci.Store.Select.{find, find-none, keep, update_where, OneEach-cons}
use nanci.Store.Nfe.Fresh.Documents.{differ, guarded_ok}
use nanci.Store.Nfse.Rows.{
  NfseRow, NfseEventRow, NfseTables, nota_of, with_nota, new_nota, upsert_found, upsert_nota_rows,
  upsert_nota_view, nota_view, event_of_nota, link_nota, type_of, event_hash_missing,
  new_nota_event, insert_event_row,
}
use nanci.Store.Nfse.Current.{
  chave_of_nota, But, documents-But, events-But, relations-But, updated-But,
}

upserted-But :
    (doc : NfseDocument) (now : ℕ) (t : NfseTables) (found : Option NfseRow) {id : Bytes}
    {t' : NfseTables}
    → find (nota_of doc.chave_acesso) t.documents ≡ found
    → upsert_found found doc now t ≡ ok (id, t')
    → But doc.chave_acesso t
    → But doc.chave_acesso t'
upserted-But doc now t none absent h fresh =
    let (test, same) = guarded_ok _ _ h in
    subst (λ (x : Bytes × NfseTables). But doc.chave_acesso x.1) same
      (documents-But doc.chave_acesso t (new_nota doc now ∷ t.documents)
        (OneEach-cons chave_of_nota (new_nota doc now) t.documents
          (λ y i.
            differ (chave_of_nota y) doc.chave_acesso
              (find-none (nota_of doc.chave_acesso) t.documents absent y i))
          fresh.chaves)
        (λ row i ne. elim i [ inl e ↦ absurd (ne (ap chave_of_nota e)) | inr k ↦ k ]) fresh)
upserted-But doc now t (some old) found h fresh =
    let (test, same) = guarded_ok _ _ h in
    subst (λ (x : Bytes × NfseTables). But doc.chave_acesso x.1) same
      (updated-But doc.chave_acesso (with_nota doc now) (λ row e. refl) t fresh)

pub upsert_nota_rows-But :
    (doc : NfseDocument) (now : ℕ) (t : NfseTables) {id : Bytes} {t' : NfseTables}
    → upsert_nota_rows doc now t ≡ ok (id, t')
    → But doc.chave_acesso t
    → But doc.chave_acesso t'
unfolding upsert_nota_rows
upsert_nota_rows-But doc now t h fresh =
    upserted-But doc now t (find (nota_of doc.chave_acesso) t.documents) refl h fresh

pub upsert_nota_view-But :
    (chave id company document : Bytes) (p : NfseParticipation) (nsu now : ℕ) (t : NfseTables)
    {t' : NfseTables}
    → upsert_nota_view id company document p nsu now t ≡ ok t'
    → But chave t
    → But chave t'
unfolding upsert_nota_view
upsert_nota_view-But chave id company document p nsu now t h fresh =
    elim (Bool-cases (any_by (nota_view company document) t.relations)) [
      | inl e ↦ subst (But chave) (ok-injective (rw e at h)) (relations-But chave t _ fresh)
      | inr e ↦ subst (But chave) (guarded_ok _ _ (rw e at h)).1 (relations-But chave t _ fresh)
    ]

-- The links change no type.
pub types-link :
    (id chave other : Bytes) (rows : List NfseEventRow) (test : NfseEventRow → Bool)
    → map type_of (keep (event_of_nota other) (update_where test (link_nota id) rows))
      ≡ map type_of (keep (event_of_nota other) rows)
types-link id chave other [] test = refl
types-link id chave other (row ∷ rows) test =
    let ih = types-link id chave other rows test in
    elim (Bool-cases (test row)) [
      | inl e ↦ elim (Bool-cases (event_of_nota other row)) [
        | inl g ↦ rw (e, g) (ap (◌∷◌ (type_of row)) ih)
        | inr g ↦ rw (e, g) ih
      ]
      | inr e ↦ elim (Bool-cases (event_of_nota other row)) [
        | inl g ↦ rw (e, g) (ap (◌∷◌ (type_of row)) ih)
        | inr g ↦ rw (e, g) ih
      ]
    ]

pub insert_event_row-But :
    (e : NfseEvent) (id : Option Bytes) (now : ℕ) (t : NfseTables) {t' : NfseTables}
    → insert_event_row e id now t ≡ ok t'
    → But e.chave_acesso t
    → But e.chave_acesso t'
unfolding insert_event_row
insert_event_row-But e id now t h fresh = elim (Bool-cases (event_hash_missing e.raw_hash t)) [
  | inr old ↦ subst (But e.chave_acesso) (ok-injective (rw old at h)) fresh
  | inl new ↦
      let (test, same) = guarded_ok _ _ (rw new at h) in
      subst (But e.chave_acesso) same (
        events-But e.chave_acesso t (new_nota_event e id now ∷ t.events)
          (λ other ne. elim (Bool-cases (bytes_eq e.chave_acesso other)) [
            | inl hit ↦ absurd (ne (sym (bytes_eq-eq e.chave_acesso other hit)))
            | inr miss ↦ rw miss refl
          ])
          fresh)
]

-- ===== src/Store/Nfse/Current.antt =====
-- The status of every NFS-e is that of its stored events.
pub mod Statements
pub mod Operations
use nanci.Prelude.{
  ℕ, ◌≡◌, ◌≢◌, refl, sym, ap, ◌∙◌, inl, inr, Bool, List, [], ◌∷◌, map, Option, none, some, In,
  any_by, Bool-cases, if◌then◌else◌,
}
use mathlib.Core.Path.{subst}
use nanci.Text.{Bytes, bytes_eq, bytes_eq-eq}
use nanci.Sync.Env.{Result, ok, ok-injective}
use nanci.Nfse.{NfseStatus, NfseEventType, NfseDocument, NfseEvent, NfseParticipation}
use nanci.Store.Tx.{
  World, Session, pure, ◌>>=◌, ◌>>◌, statement, query, execute, update, generate_id,
}
use nanci.Store.Tx.Rules.{bind_ok, statement_ok, query_ok, update_ok, execute_ok}
use nanci.Store.Select.{
  find, find-none, keep, update_where, In-map, OneEach, OneEach-map, OneEach-cons,
}
use nanci.Store.Nfe.Fresh.Documents.{differ, guarded_ok}
use nanci.Store.Nfse.{ApplyNotaParams, recompute_document_status, do_apply_document, do_apply_event}
use nanci.Store.Nfse.Rows.{
  NfseRow, NfseRelation, NfseEventRow, NfseTables, nota_of, with_nota, new_nota, upsert_found,
  upsert_nota_rows, upsert_nota_view, nota_view, company_document_missing, event_of_nota, link_nota,
  link_nota_events, type_of, types_of_nota, status_of, with_status, update_status_rows,
  document_id_of, event_hash_missing, new_nota_event, insert_event_row,
}

abbrev pub chave_of_nota : NfseRow → Bytes
chave_of_nota row = row.document.chave_acesso

-- Chaves are unique, and every status is that of the events of the chave, but perhaps where `stale` holds.
pub record CurrentBut (stale : Bytes → Type 0) (t : NfseTables) : Type 0 where
  pub chaves : OneEach chave_of_nota t.documents
  pub status :
      (row : NfseRow)
      → In row t.documents
      → (stale row.document.chave_acesso → ⊥)
      → row.document.status ≡ status_of (types_of_nota row.document.chave_acesso t)

abbrev pub IsCurrent : NfseTables → Type 0
IsCurrent = CurrentBut (λ chave. ⊥)

abbrev pub But : Bytes → NfseTables → Type 0
But chave = CurrentBut (λ other. other ≡ chave)

pub IsCurrent-But : (chave : Bytes) (t : NfseTables) → IsCurrent t → But chave t
IsCurrent-But chave t h = record { chaves = h.chaves; status = λ row i ne. h.status row i (λ x. x) }

-- New documents, where those of every other chave are old ones.
pub documents-But :
    (chave : Bytes) (t : NfseTables) (documents : List NfseRow)
    → OneEach chave_of_nota documents
    → ((row : NfseRow) → In row documents → chave_of_nota row ≢ chave → In row t.documents)
    → But chave t
    → But chave (record t { documents = documents })
documents-But chave t documents one old h = record {
  chaves = one;
  status = λ row i ne. h.status row (old row i ne) ne;
}

-- New events, where those of every other chave have the types they had.
pub events-But :
    (chave : Bytes) (t : NfseTables) (events : List NfseEventRow)
    → ((other : Bytes)
        → other ≢ chave
        → map type_of (keep (event_of_nota other) events) ≡ types_of_nota other t)
    → But chave t
    → But chave (record t { events = events })
events-But chave t events same h = record {
  chaves = h.chaves;
  status = λ row i ne. h.status row i ne ∙ ap status_of (sym (same row.document.chave_acesso ne));
}

pub relations-But :
    (chave : Bytes) (t : NfseTables) (relations : List NfseRelation)
    → But chave t
    → But chave (record t { relations = relations })
relations-But chave t relations h = record { chaves = h.chaves; status = h.status }

module _ (chave : Bytes) (f : NfseRow → NfseRow)
    (kept : (row : NfseRow) → chave_of_nota row ≡ chave → chave_of_nota (f row) ≡ chave) where
  one_row : NfseRow → NfseRow
  one_row row = if nota_of chave row then f row else row

  chave-one_row : (row : NfseRow) → chave_of_nota (one_row row) ≡ chave_of_nota row
  unfolding one_row
  chave-one_row row = elim (Bool-cases (nota_of chave row)) [
    | inl e ↦ let same = bytes_eq-eq (chave_of_nota row) chave e in rw e (kept row same ∙ sym same)
    | inr e ↦ rw e refl
  ]

  -- An UPDATE of the rows of the chave that keeps it.
  pub updated-But :
      (t : NfseTables)
      → But chave t
      → But chave (record t { documents = update_where (nota_of chave) f t.documents })
  unfolding one_row
  updated-But t h =
      documents-But chave t (map one_row t.documents)
        (OneEach-map chave_of_nota one_row t.documents chave-one_row h.chaves) old h
    where
      old :
          (row : NfseRow)
          → In row (map one_row t.documents)
          → chave_of_nota row ≢ chave
          → In row t.documents
      old row i ne =
          let (before, j, e) = In-map one_row t.documents row i in
          elim (Bool-cases (nota_of chave before)) [
            | inl hit ↦ absurd (
                ne (
                  ap chave_of_nota e
                  ∙ chave-one_row before
                  ∙ bytes_eq-eq (chave_of_nota before) chave hit))
            | inr miss ↦
                let same : row ≡ before = e ∙ ap (λ b. if b then f before else before) miss in
                rw same j
          ]

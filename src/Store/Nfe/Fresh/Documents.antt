-- ===== src/Store/Nfe/Fresh/Documents.antt =====
-- UpsertNFeDocument and UpdateNFeSituacao touch the document of one chave.
use nanci.Prelude.{
  ◌≡◌, ◌≢◌, refl, sym, ap, ◌∙◌, inl, inr, Bool, true, false, not, ◌||◌, List, ◌∷◌, Option, none,
  some, In, In-any_by, Bool-cases, if◌then◌else◌, ℕ, arith,
}
use mathlib.Core.Path.{subst}
use nanci.Text.{Bytes, Unicode, bytes_eq, bytes_eq-eq, bytes_eq_refl}
use nanci.Sync.Env.{ok}
use nanci.Nfe.Types.{Document, Event, Situacao}
use nanci.Store.Select.{
  find, find-none, find-some, update_where, In-map, OneEach, OneEach-map, OneEach-cons,
}
use nanci.Store.Nfe.Tables.{DocumentRow, Tables, has_chave, allowed_document}
use nanci.Store.Nfe.Rows.{
  upsert_document_row, insert_or_update, guarded, with_document, new_document, with_situacao,
  update_situacao_rows,
}
use nanci.Store.Nfe.Fresh.{chave_of, id_of, IsFreshBut}

pub differ : (s t : Bytes) → bytes_eq s t ≡ false → s ≢ t
differ s t h e = cc (rw (e, bytes_eq_refl t) at h)

pub or_false : (a b : Bool) → (a || b) ≡ false → (a ≡ false) × (b ≡ false)
or_false a b h = ground (arith, h)

pub negation : (a : Bool) → not a ≡ true → a ≡ false
negation a h = ground (arith, h)

pub guarded_ok : {A : Type 0} (b : Bool) (a : A) {x : A} → guarded b a ≡ ok x → (b ≡ true) × (a ≡ x)
guarded_ok true a h = (refl, cc)
guarded_ok false a h = absurd (cc)

-- The document with this id is the one of the chave.
abbrev pub Owns : Bytes → Bytes → Tables → Type 0
Owns chave id t =
    (row : DocumentRow)
    → In row t.documents
    → row.document.id ≡ id
    → row.document.chave_acesso ≡ chave

module _ ⦃u : Unicode⦄ (order : List (Event × ℕ) → List (Event × ℕ)) where
  -- New documents are as fresh as the old, where the rows of every other chave are old ones.
  pub documents-IsFreshBut :
      (chave : Bytes) (t : Tables) (documents : List DocumentRow)
      → OneEach chave_of documents
      → OneEach id_of documents
      → ((row : DocumentRow)
          → In row documents
          → row.document.chave_acesso ≢ chave
          → In row t.documents)
      → IsFreshBut order chave t
      → IsFreshBut order chave (record t { documents = documents })
  documents-IsFreshBut chave t documents chaves ids old h = record {
    keyed = record {
      chaves = chaves;
      ids = ids;
      relations = h.keyed.relations;
      companies = h.keyed.companies;
    };
    fresh = λ other ne.
        let f = h.fresh other ne in
        record {
          situacao = λ row i e. f.situacao row (old row i (λ d. ne (sym e ∙ d))) e;
          manifestacao = λ row r c i e. f.manifestacao row r c (old row i (λ d. ne (sym e ∙ d))) e;
        };
  }

  -- an UPDATE of the rows of the chave that keeps their keys
  pub update-IsFreshBut :
      (chave : Bytes) (t : Tables) (f : DocumentRow → DocumentRow)
      → ((row : DocumentRow) → chave_of row ≡ chave → chave_of (f row) ≡ chave)
      → ((row : DocumentRow) → id_of (f row) ≡ id_of row)
      → IsFreshBut order chave t
      → IsFreshBut order chave
          (record t { documents = update_where (has_chave chave) f t.documents })
  update-IsFreshBut chave t f chaves ids h =
      documents-IsFreshBut chave t (update_where (has_chave chave) f t.documents)
        (OneEach-map chave_of one t.documents kept h.keyed.chaves)
        (OneEach-map id_of one t.documents kept_id h.keyed.ids) old h
    where
      one : DocumentRow → DocumentRow
      one row = if has_chave chave row then f row else row

      kept : (row : DocumentRow) → chave_of (one row) ≡ chave_of row
      kept row = elim (Bool-cases (has_chave chave row)) [
        | inl e ↦ let same = bytes_eq-eq (chave_of row) chave e in rw e (chaves row same ∙ sym same)
        | inr e ↦ rw e refl
      ]

      kept_id : (row : DocumentRow) → id_of (one row) ≡ id_of row
      kept_id row = elim (Bool-cases (has_chave chave row)) [
        | inl e ↦ rw e (ids row)
        | inr e ↦ rw e refl
      ]

      old :
          (row : DocumentRow)
          → In row (update_where (has_chave chave) f t.documents)
          → row.document.chave_acesso ≢ chave
          → In row t.documents
      old row i ne =
          let (before, j, e) = In-map one t.documents row i in
          elim (Bool-cases (has_chave chave before)) [
            | inl hit ↦
                absurd (ne (ap chave_of e ∙ kept before ∙ bytes_eq-eq (chave_of before) chave hit))
            | inr miss ↦
                let same : row ≡ before = e ∙ ap (λ b. if b then f before else before) miss in
                rw same j
          ]

  pub update_situacao-IsFreshBut :
      (s : Situacao) (now : ℕ) (chave : Bytes) (t : Tables)
      → IsFreshBut order chave t
      → IsFreshBut order chave (update_situacao_rows s now chave t)
  update_situacao-IsFreshBut s now chave t h =
      update-IsFreshBut chave t (with_situacao s now) (λ row e. e) (λ row. refl) h

  -- what an upsert of the document leaves
  abbrev Upserted : Document → Bytes → Tables → Type 0
  Upserted doc id t = IsFreshBut order doc.chave_acesso t × Owns doc.chave_acesso id t

  inserted :
      (doc : Document) (now : ℕ) (t : Tables)
      → find (has_chave doc.chave_acesso) t.documents ≡ none
      → ((y : DocumentRow) → In y t.documents → id_of y ≢ doc.id)
      → IsFreshBut order doc.chave_acesso t
      → Upserted doc doc.id (record t { documents = new_document doc now ∷ t.documents })
  inserted doc now t absent new h =
      let other : (y : DocumentRow) → In y t.documents → chave_of y ≢ doc.chave_acesso = λ y i.
        differ (chave_of y) doc.chave_acesso
          (find-none (has_chave doc.chave_acesso) t.documents absent y i) in
      (
        documents-IsFreshBut doc.chave_acesso t (new_document doc now ∷ t.documents)
            (OneEach-cons chave_of (new_document doc now) t.documents other h.keyed.chaves)
            (OneEach-cons id_of (new_document doc now) t.documents new h.keyed.ids)
            (λ row i ne. elim i [ inl e ↦ absurd (ne (ap chave_of e)) | inr k ↦ k ]) h,
        λ row i same. elim i [ inl e ↦ ap chave_of e | inr k ↦ absurd (new row k same) ],
      )

  updated :
      (doc : Document) (now : ℕ) (t : Tables) (old : DocumentRow)
      → In old t.documents
      → has_chave doc.chave_acesso old ≡ true
      → IsFreshBut order doc.chave_acesso t
      → Upserted doc old.document.id (record t {
        documents = update_where (has_chave doc.chave_acesso) (with_document doc now) t.documents;
      })
  updated doc now t old there hit h = (
    update-IsFreshBut doc.chave_acesso t (with_document doc now) (λ row e. refl) (λ row. refl) h,
    λ row i same.
        let (before, j, e) = In-map one t.documents row i in
        let origin : before ≡ old =
          h.keyed.ids before old j there (sym (kept before) ∙ sym (ap id_of e) ∙ same) in
        ap chave_of
          (e ∙ ap one origin ∙ ap (λ b. if b then with_document doc now old else old) hit),
  )
    where
      one : DocumentRow → DocumentRow
      one row = if has_chave doc.chave_acesso row then with_document doc now row else row

      kept : (row : DocumentRow) → id_of (one row) ≡ id_of row
      kept row = elim (Bool-cases (has_chave doc.chave_acesso row)) [
        | inl e ↦ rw e refl
        | inr e ↦ rw e refl
      ]

  upserted :
      (doc : Document) (now : ℕ) (t : Tables) (found : Option DocumentRow) {id : Bytes}
      {t' : Tables}
      → find (has_chave doc.chave_acesso) t.documents ≡ found
      → insert_or_update found doc now t ≡ ok (id, t')
      → IsFreshBut order doc.chave_acesso t
      → Upserted doc id t'
  upserted doc now t none absent h fresh =
      let (test, same) = guarded_ok _ _ h in
      let new : (y : DocumentRow) → In y t.documents → id_of y ≢ doc.id = λ y i.
        differ (id_of y) doc.id (or_false _ _ (In-any_by _ t.documents (negation _ test) y i)).0 in
      subst (λ (x : Bytes × Tables). Upserted doc x.0 x.1) same
        (inserted doc now t absent new fresh)
  upserted doc now t (some old) found h fresh =
      let (test, same) = guarded_ok _ _ h in
      let (there, hit) = find-some (has_chave doc.chave_acesso) t.documents old found in
      subst (λ (x : Bytes × Tables). Upserted doc x.0 x.1) same
        (updated doc now t old there hit fresh)

  -- UpsertNFeDocument
  pub upsert_document_row-IsFreshBut :
      (doc : Document) (now : ℕ) (t : Tables) {id : Bytes} {t' : Tables}
      → upsert_document_row doc now t ≡ ok (id, t')
      → IsFreshBut order doc.chave_acesso t
      → IsFreshBut order doc.chave_acesso t' × Owns doc.chave_acesso id t'
  unfolding upsert_document_row
  upsert_document_row-IsFreshBut doc now t h fresh = elim (Bool-cases (allowed_document doc)) [
    | inr e ↦ absurd (cc (rw e at h))
    | inl e ↦
        upserted doc now t (find (has_chave doc.chave_acesso) t.documents) refl (rw e at h) fresh
  ]

-- ===== src/Store/Nfe/Exports/Tests.antt =====
-- One NF-e that is pending, and its export.
use nanci.Prelude.{
  ◌≡◌, refl, sym, ◌∙◌, inl, inr, false, none, some, In, List, [], ◌∷◌, if◌then◌else◌, ◌&&◌,
}
use nanci.Text.{codes, bytes_eq, remove_byte, trim_space, to_upper, trim_ascii, drop_spaces}
use nanci.Cnpj.{clean, unmask}
use nanci.Sync.Env.{ok}
use nanci.Nfe.Types.{Document, CompanyRole, VisibilityReason, Manifestacao}
use nanci.Store.Tx.{World, statement, query, execute, in_transaction}
use nanci.Store.Nfe.Tables.{DocumentRow, Relation, Tables}
use nanci.Store.Nfe.Marks.{
  DocumentFilter, company_documents, selects, pending_export, mark_exported, mark_all,
  upsert_mark_rows,
}
use nanci.Store.Nfe.Fresh.{IsKeyed}
use nanci.Store.Nfe.Samples.{ascii, nota, empty, empty-IsFresh}
use nanci.Store.Nfe.Exports.{exported_of, mark_listed, list_pending_export}
use nanci.Store.Nfe.Exports.Marked.{due, last_for}
use nanci.Store.Nfe.Exports.Due.{mark_exported-due}
use nanci.Store.Nfe.Exports.Next.{IsNext, mark_listed-IsNext}

abbrev works : World
works = record { fault = λ n. none; now = 9; new_id = λ n. n ∷ [] }

abbrev row : DocumentRow
row = record { document = record nota { id = codes "d" }; created_at = 1; updated_at = 1 }

abbrev view : Relation
view = record {
  relation_id = codes "r";
  company_id = codes "one";
  document_id = codes "d";
  company_role = CompanyRole.destinatario;
  visibility_reason = VisibilityReason.exact_destinatario;
  manifestacao = Manifestacao.nenhuma;
  manifestacao_at = none;
  first_seen_nsu = some 1;
  last_seen_nsu = some 1;
  first_synced_at = 1;
  last_synced_at = 1;
  viewed_at = none;
}

abbrev held : Tables
held = record empty { documents = row ∷ []; relations = view ∷ [] }

held-IsKeyed : IsKeyed held
held-IsKeyed = record {
  chaves = λ a b i j same. alone row a b i j;
  ids = λ a b i j same. alone row a b i j;
  relations = λ a b i j same. alone view a b i j;
  companies = empty-IsFresh.keyed.companies;
}
  where
    alone : {A : Type 0} (x a b : A) → In a (x ∷ []) → In b (x ∷ []) → a ≡ b
    alone x a b (inl e) (inl d) = e ∙ sym d
    alone x a b (inl e) (inr j) = absurd j
    alone x a b (inr i) j = absurd i

abbrev no_filter : DocumentFilter
no_filter = record {
  competence = [];
  situacao = none;
  completeness = none;
  role = none;
  manifestacao = none;
  emitente_cnpj = [];
  chaves_acesso = [];
  tp_amb = [];
  pending_manifestacao = false;
  only_unread = false;
  limit = 0;
}

abbrev as_is : List (Document × Relation) → List (Document × Relation)
as_is xs = xs

abbrev docs : List (Document × Relation)
docs = (row.document, view) ∷ []

abbrev exported : Tables
exported = record held {
  export_marks =
      record {
        company_id = codes "one";
        document_id = codes "d";
        export_kind = codes "xml";
        exported_hash = codes "r";
        exported_at = 9;
        exported_events = 0;
      }
      ∷ [];
}

is_listed : list_pending_export as_is (codes "one") no_filter (codes "xml") held ≡ ok docs
unfolding list_pending_export company_documents selects pending_export clean unmask remove_byte
    trim_space to_upper trim_ascii drop_spaces
is_listed = refl

is_exported : mark_listed works (codes "one") (codes "xml") held docs held ≡ ok (tt, exported)
unfolding mark_listed mark_exported mark_all upsert_mark_rows statement query execute in_transaction
is_exported = refl

is_cleared : list_pending_export as_is (codes "one") no_filter (codes "xml") exported ≡ ok []
unfolding list_pending_export company_documents selects pending_export clean unmask remove_byte
    trim_space to_upper trim_ascii drop_spaces
is_cleared = refl

next_example : IsNext (codes "one") no_filter b'x' (codes "ml") docs [] held exported
next_example =
    mark_listed-IsNext as_is no_filter (codes "one") b'x' (codes "ml") works held exported docs []
      tt (λ xs p. (λ i. i, λ i. i)) held-IsKeyed is_listed is_exported is_cleared

is_marked :
    mark_exported works
      (codes "one")
      (codes "xml")
      (exported_of held (row.document, view) ∷ [])
      held
    ≡ ok (tt, exported)
unfolding mark_exported mark_all upsert_mark_rows statement query execute in_transaction
is_marked = refl

due_example :
    pending_export (codes "xml") row.document view exported
    ≡ due (codes "xml") row.document view held (
        if bytes_eq (codes "one") view.company_id && bytes_eq (codes "xml") (codes "xml")
        then last_for view.document_id (exported_of held (row.document, view) ∷ [])
        else none)
due_example =
    mark_exported-due works (codes "one") (codes "xml") (exported_of held (row.document, view) ∷ [])
      held exported tt is_marked (codes "xml") row.document view

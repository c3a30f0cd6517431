-- ===== src/Nfe/Merge/Laws.antt =====
-- What survives a merge, whatever the order in which documents arrive.
use nanci.Prelude.{ℕ, ◌≡◌, refl, sym, ◌∙◌, ap₂, ◌≢◌, ap, [], ◌∷◌, Option, none, some, ◌⊎◌, inl, inr}
use nanci.Text.{Bytes}
use nanci.Nfe.Types.{
  Situacao, autorizada, denegada, cancelada, other_situacao, Completeness, resumo, completa,
  other_completeness, Document,
}
use nanci.Nfe.Merge.Severest.{IsSeverest, more_severe-IsSeverest}
use nanci.Nfe.Merge.{severity, more_severe, merge_document, merged_by, or_text, or_time}

pub more_severe_comm : (a b : Situacao) → severity a ≢ 0 → more_severe a b ≡ more_severe b a
unfolding more_severe severity
more_severe_comm autorizada autorizada h = refl
more_severe_comm autorizada denegada h = refl
more_severe_comm autorizada cancelada h = refl
more_severe_comm autorizada (other_situacao s) h = refl
more_severe_comm denegada autorizada h = refl
more_severe_comm denegada denegada h = refl
more_severe_comm denegada cancelada h = refl
more_severe_comm denegada (other_situacao s) h = refl
more_severe_comm cancelada autorizada h = refl
more_severe_comm cancelada denegada h = refl
more_severe_comm cancelada cancelada h = refl
more_severe_comm cancelada (other_situacao s) h = refl
more_severe_comm (other_situacao s) b h = absurd (h refl)

-- What a merge keeps of the two documents.
pub record IsMerged (e i m : Document) : Type 0 where
  pub id : m.id ≡ e.id
  pub severe : IsSeverest e.situacao i.situacao m.situacao
  pub keeps :
      e.completeness ≡ completa
      → (i.completeness ≡ resumo) ⊎ (i.completeness ≡ completa)
      → m.completeness ≡ completa
  pub upgrades : i.completeness ≡ completa → m.completeness ≡ completa
  pub hash : m.completeness ≡ completa → e.completeness ≡ resumo → m.resumo_raw_hash ≡ e.raw_hash
  pub first_hash :
      e.completeness ≡ completa
      → i.completeness ≡ completa
      → (i.resumo_raw_hash ≢ [] → m.resumo_raw_hash ≡ i.resumo_raw_hash)
        × (i.resumo_raw_hash ≡ [] → m.resumo_raw_hash ≡ e.resumo_raw_hash)
  pub held :
      e.completeness ≡ completa
      → i.completeness ≡ resumo
      → m ≡ record e {
        authorized_at = m.authorized_at;
        protocolo = m.protocolo;
        resumo_raw_hash = i.raw_hash;
        situacao = m.situacao;
      }
  pub time :
      e.completeness ≡ completa
      → i.completeness ≡ resumo
      → (e.authorized_at ≢ none → m.authorized_at ≡ e.authorized_at)
        × (e.authorized_at ≡ none → m.authorized_at ≡ i.authorized_at)
  pub protocol :
      e.completeness ≡ completa
      → i.completeness ≡ resumo
      → (e.protocolo ≢ [] → m.protocolo ≡ e.protocolo)
        × (e.protocolo ≡ [] → m.protocolo ≡ i.protocolo)
  pub replaced :
      (e.completeness ≡ completa → i.completeness ≡ resumo → ⊥)
      → m ≡ record i { id = e.id; situacao = m.situacao; resumo_raw_hash = m.resumo_raw_hash }

id-merged_by : (c d : Completeness) (e i : Document) → (merged_by c d e i).id ≡ e.id
id-merged_by resumo resumo e i = refl
id-merged_by resumo completa e i = refl
id-merged_by resumo (other_completeness s) e i = refl
id-merged_by completa resumo e i = refl
id-merged_by completa completa e i = refl
id-merged_by completa (other_completeness s) e i = refl
id-merged_by (other_completeness s) resumo e i = refl
id-merged_by (other_completeness s) completa e i = refl
id-merged_by (other_completeness s) (other_completeness t) e i = refl

-- the completeness of the merged row, from that of the two
abbrev kind : Completeness → Completeness → Completeness
kind completa resumo = completa
kind _ d = d

kind-merged_by :
    (c d : Completeness) (e i : Document)
    → e.completeness ≡ c
    → i.completeness ≡ d
    → (merged_by c d e i).completeness ≡ kind c d
kind-merged_by resumo resumo e i h k = k
kind-merged_by resumo completa e i h k = k
kind-merged_by resumo (other_completeness s) e i h k = k
kind-merged_by completa resumo e i h k = h
kind-merged_by completa completa e i h k = k
kind-merged_by completa (other_completeness s) e i h k = k
kind-merged_by (other_completeness s) resumo e i h k = k
kind-merged_by (other_completeness s) completa e i h k = k
kind-merged_by (other_completeness s) (other_completeness t) e i h k = k

kind-completa : (c : Completeness) → kind c completa ≡ completa
kind-completa resumo = refl
kind-completa completa = refl
kind-completa (other_completeness s) = refl

kind-resumo : (d : Completeness) → kind resumo d ≡ d
kind-resumo resumo = refl
kind-resumo completa = refl
kind-resumo (other_completeness s) = refl

abbrev in_situacao : Situacao → Document → Document
in_situacao s doc = record doc { situacao = s }

abbrev pub with_id : Bytes → Document → Document
with_id id doc = record doc { id = id }

or_time_some : (a b : Option ℕ) → a ≢ none → or_time a b ≡ a
or_time_some none b h = absurd (h refl)
or_time_some (some a) b h = refl

or_text_some : (a b : Bytes) → a ≢ [] → or_text a b ≡ a
or_text_some [] b h = absurd (h refl)
or_text_some (c ∷ a) b h = refl

replaced-merged_by :
    (c d : Completeness) (e i : Document)
    → (c ≡ completa → d ≡ resumo → ⊥)
    → merged_by c d e i
      ≡ record i { id = e.id; resumo_raw_hash = (merged_by c d e i).resumo_raw_hash }
replaced-merged_by completa resumo e i h = absurd (h refl refl)
replaced-merged_by completa completa e i h = refl
replaced-merged_by completa (other_completeness s) e i h = refl
replaced-merged_by resumo resumo e i h = refl
replaced-merged_by resumo completa e i h = refl
replaced-merged_by resumo (other_completeness s) e i h = refl
replaced-merged_by (other_completeness s) resumo e i h = refl
replaced-merged_by (other_completeness s) completa e i h = refl
replaced-merged_by (other_completeness s) (other_completeness t) e i h = refl

-- A merge keeps the ID and gives the situação that the order cancelada, denegada, autorizada decides. A completa is
-- never lost to a resumo: it stays whole but for a missing authorization time and protocol, which the resumo fills, and
-- for the hash of the resumo. Every other document replaces the row. When a resumo becomes a completa its hash is kept,
-- and a completa after a completa keeps that hash unless it brings one.
pub merge_document-IsMerged : (e i : Document) → IsMerged e i (merge_document e i)
unfolding merge_document
merge_document-IsMerged e i =
    let whole = kind-merged_by e.completeness i.completeness e i refl refl in
    record {
      id = id-merged_by e.completeness i.completeness e i;
      severe = more_severe-IsSeverest e.situacao i.situacao;
      keeps = λ c d. elim d [ inl r ↦ whole ∙ ap₂ kind c r | inr k ↦ whole ∙ ap₂ kind c k ];
      upgrades = λ c. whole ∙ ap (kind e.completeness) c ∙ kind-completa e.completeness;
      hash = λ m c.
          let d : i.completeness ≡ completa =
            sym (kind-resumo i.completeness)
            ∙ ap (λ x. kind x i.completeness) (sym c)
            ∙ sym whole
            ∙ m in
          rw (c, d) refl;
      first_hash = λ c d. (
        λ some_hash. rw (c, d) (or_text_some i.resumo_raw_hash e.resumo_raw_hash some_hash),
        λ no_hash. rw (c, d) (ap (λ s. or_text s e.resumo_raw_hash) no_hash),
      );
      held = λ c d. rw (c, d) refl;
      time = λ c d. (
        λ some_time. rw (c, d) (or_time_some e.authorized_at i.authorized_at some_time),
        λ no_time. rw (c, d) (ap (λ s. or_time s i.authorized_at) no_time),
      );
      protocol = λ c d. (
        λ some_text. rw (c, d) (or_text_some e.protocolo i.protocolo some_text),
        λ no_text. rw (c, d) (ap (λ s. or_text s i.protocolo) no_text),
      );
      replaced = λ h.
          ap (in_situacao (more_severe e.situacao i.situacao))
            (replaced-merged_by e.completeness i.completeness e i h);
    }

-- An authorized completa and a resumo give the same row, but for its ID, in whichever order they arrive.
pub merge_document_order :
    (full short : Document) (id : Bytes)
    → full.completeness ≡ completa
    → short.completeness ≡ resumo
    → severity full.situacao ≢ 0
    → full.authorized_at ≢ none
    → full.protocolo ≢ []
    → with_id id (merge_document full short) ≡ with_id id (merge_document short full)
unfolding merge_document
merge_document_order full short id c r known authorized protocol =
    ap₂
      (λ a b.
        with_id id
          (in_situacao (more_severe full.situacao short.situacao) (merged_by a b full short)))
      c r
    ∙ rw
        (
          or_time_some full.authorized_at short.authorized_at authorized,
          or_text_some full.protocolo short.protocolo protocol,
          more_severe_comm full.situacao short.situacao known,
        )
        refl
    ∙ sym (
        ap₂
          (λ a b.
            with_id id
              (in_situacao (more_severe short.situacao full.situacao) (merged_by a b short full)))
          r c)

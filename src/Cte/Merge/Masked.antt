-- ===== src/Cte/Merge/Masked.antt =====
-- A masked copy of a CT-e never replaces the full one.
use nanci.Prelude.{◌≡◌, ◌≢◌, ap, ap₂, true, false, not, ◌&&◌, if◌then◌else◌}
use nanci.Text.{Bytes}
use nanci.Nfe.Types.{Situacao, other_situacao}
use nanci.Nfe.Merge.Laws.{more_severe_comm}
use nanci.Nfe.Merge.Severest.{IsSeverest, more_severe-IsSeverest, known_severity}
use nanci.Cte.Types.{Conhecimento}
use nanci.Cte.Merge.{merge_cte, kept}

-- what a row says but for its ID and its situação
abbrev pub same_but : Bytes → Situacao → Conhecimento → Conhecimento
same_but id s doc = record doc { id = id; situacao = s }

-- What a masked copy and the full CT-e give.
pub record IsUnmasked (full masked : Conhecimento) : Type 0 where
  pub later :
      (id : Bytes) (s : Situacao) → same_but id s (merge_cte full masked) ≡ same_but id s full
  pub earlier :
      (id : Bytes) (s : Situacao) → same_but id s (merge_cte masked full) ≡ same_but id s full
  pub situacao : (merge_cte full masked).situacao ≡ (merge_cte masked full).situacao
  pub severe : IsSeverest full.situacao masked.situacao (merge_cte full masked).situacao

-- A masked copy and the full CT-e of a known situação give the full one but for its ID and its situação in
-- whichever order they arrive, and the same situação, which the order cancelada, denegada, autorizada decides.
pub merge_cte-IsUnmasked :
    (full masked : Conhecimento)
    → full.masked_keys ≡ false
    → masked.masked_keys ≡ true
    → ((s : Bytes) → full.situacao ≢ other_situacao s)
    → IsUnmasked full masked
unfolding merge_cte
merge_cte-IsUnmasked full masked f m known =
    let late : kept full masked ≡ full = ap₂ (λ a b. if a && not b then full else masked) m f in
    let early : kept masked full ≡ full =
      ap (λ a. if a && not masked.masked_keys then masked else full) f in
    record {
      later = λ id s. ap (same_but id s) late;
      earlier = λ id s. ap (same_but id s) early;
      situacao =
          more_severe_comm full.situacao masked.situacao (known_severity full.situacao known);
      severe = more_severe-IsSeverest full.situacao masked.situacao;
    }

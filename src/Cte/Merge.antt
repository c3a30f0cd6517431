-- ===== src/Cte/Merge.antt =====
-- internal/cte/merge.go: the row kept when a CT-e arrives again. moreSevere is the one of the NF-e.
pub mod Masked
use nanci.Prelude.{Bool, not, ◌&&◌, if◌then◌else◌}
use nanci.Nfe.Merge.{more_severe}
use nanci.Cte.Types.{Conhecimento}

-- the side that stays
abbrev pub kept : Conhecimento → Conhecimento → Conhecimento
kept existing incoming =
    if incoming.masked_keys && not existing.masked_keys then existing else incoming

unfoldable pub merge_cte : Conhecimento → Conhecimento → Conhecimento
unfolding more_severe
merge_cte existing incoming = record (kept existing incoming) {
  id = existing.id;
  situacao = more_severe existing.situacao incoming.situacao;
}

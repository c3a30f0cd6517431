-- ===== src/Nfe/Merge.antt =====
-- internal/nfe/merge.go: the row kept when a document arrives again.
pub mod Laws
pub mod Severest
use nanci.Prelude.{
  ℕ, Bool, true, false, ◌||◌, List, [], ◌∷◌, Option, none, some, ltb, any_by, if◌then◌else◌,
}
use nanci.Text.{Bytes}
use nanci.Nfe.Types.{
  Situacao, autorizada, denegada, cancelada, other_situacao, Completeness, resumo, completa,
  other_completeness, Document, EventType, cancelamento,
}

unfoldable pub severity : Situacao → ℕ
severity cancelada = 3
severity denegada = 2
severity autorizada = 1
severity (other_situacao s) = 0

unfoldable pub more_severe : Situacao → Situacao → Situacao
unfolding severity
more_severe a b = if ltb (severity a) (severity b) then b else a

abbrev pub or_time : Option ℕ → Option ℕ → Option ℕ
or_time none t = t
or_time (some s) t = some s

abbrev pub or_text : Bytes → Bytes → Bytes
or_text [] t = t
or_text (c ∷ s) t = c ∷ s

-- a resumo over a completa
abbrev pub keep_completa : Document → Document → Document
keep_completa existing incoming = record existing {
  authorized_at = or_time existing.authorized_at incoming.authorized_at;
  protocolo = or_text existing.protocolo incoming.protocolo;
  resumo_raw_hash = incoming.raw_hash;
}

-- every other document replaces the row
abbrev pub replace : Bytes → Document → Document → Document
replace hash existing incoming = record incoming { id = existing.id; resumo_raw_hash = hash }

abbrev pub merged_by : Completeness → Completeness → Document → Document → Document
merged_by completa resumo e i = keep_completa e i
merged_by resumo completa e i = replace e.raw_hash e i
merged_by _ _ e i = replace (or_text i.resumo_raw_hash e.resumo_raw_hash) e i

unfoldable pub merge_document : Document → Document → Document
unfolding more_severe
merge_document existing incoming =
    record (merged_by existing.completeness incoming.completeness existing incoming) {
      situacao = more_severe existing.situacao incoming.situacao;
    }

abbrev pub is_cancelamento : EventType → Bool
is_cancelamento cancelamento = true
is_cancelamento _ = false

unfoldable pub situacao_from_events : Situacao → List EventType → Situacao
situacao_from_events base events = if any_by is_cancelamento events then cancelada else base

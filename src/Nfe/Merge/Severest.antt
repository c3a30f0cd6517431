-- ===== src/Nfe/Merge/Severest.antt =====
-- The situação that two sources of a document agree on (internal/nfe/merge.go): a cancelamento is final, a denegação
-- outranks an authorization, and an unknown text is outranked by all three.
use nanci.Prelude.{◌≢◌, refl, arith}
use nanci.Text.{Bytes}
use nanci.Nfe.Types.{Situacao, autorizada, denegada, cancelada, other_situacao}
use nanci.Nfe.Merge.{severity, more_severe}

-- `m` is the situação of `a` and `b`, of which the order cancelada, denegada, autorizada decides.
pub data IsSeverest : Situacao → Situacao → Situacao → Type 0 where
  cancelled_before : {b : Situacao} → IsSeverest cancelada b cancelada
  cancelled_now : {a : Situacao} → IsSeverest a cancelada cancelada
  denied_before : {b : Situacao} → b ≢ cancelada → IsSeverest denegada b denegada
  denied_now : {a : Situacao} → a ≢ cancelada → IsSeverest a denegada denegada
  authorized_before :
      {b : Situacao} → b ≢ cancelada → b ≢ denegada → IsSeverest autorizada b autorizada
  authorized_now :
      {a : Situacao} → a ≢ cancelada → a ≢ denegada → IsSeverest a autorizada autorizada
  unknown : (s t : Bytes) → IsSeverest (other_situacao s) (other_situacao t) (other_situacao s)

pub more_severe-IsSeverest : (a b : Situacao) → IsSeverest a b (more_severe a b)
unfolding more_severe severity
more_severe-IsSeverest cancelada autorizada = cancelled_before
more_severe-IsSeverest cancelada denegada = cancelled_before
more_severe-IsSeverest cancelada cancelada = cancelled_before
more_severe-IsSeverest cancelada (other_situacao s) = cancelled_before
more_severe-IsSeverest autorizada cancelada = cancelled_now
more_severe-IsSeverest denegada cancelada = cancelled_now
more_severe-IsSeverest (other_situacao s) cancelada = cancelled_now
more_severe-IsSeverest denegada autorizada = denied_before (λ h. absurd (cc))
more_severe-IsSeverest denegada denegada = denied_before (λ h. absurd (cc))
more_severe-IsSeverest denegada (other_situacao s) = denied_before (λ h. absurd (cc))
more_severe-IsSeverest autorizada denegada = denied_now (λ h. absurd (cc))
more_severe-IsSeverest (other_situacao s) denegada = denied_now (λ h. absurd (cc))
more_severe-IsSeverest autorizada autorizada =
    authorized_before (λ h. absurd (cc)) (λ h. absurd (cc))
more_severe-IsSeverest autorizada (other_situacao s) =
    authorized_before (λ h. absurd (cc)) (λ h. absurd (cc))
more_severe-IsSeverest (other_situacao s) autorizada =
    authorized_now (λ h. absurd (cc)) (λ h. absurd (cc))
more_severe-IsSeverest (other_situacao s) (other_situacao t) = unknown s t

pub known_severity : (s : Situacao) → ((t : Bytes) → s ≢ other_situacao t) → severity s ≢ 0
unfolding severity
known_severity cancelada known h = absurd (ground (arith, h))
known_severity denegada known h = absurd (ground (arith, h))
known_severity autorizada known h = absurd (ground (arith, h))
known_severity (other_situacao s) known h = known s refl

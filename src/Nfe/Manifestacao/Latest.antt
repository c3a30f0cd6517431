-- ===== src/Nfe/Manifestacao/Latest.antt =====
-- The manifestação is that of a latest conclusive event.
use nanci.Prelude.{ℕ, ◌≡◌, refl, ◌∙◌, ap, ◌⊎◌, inl, inr, true, false, List, Option, none, In}
use nanci.Text.{Bytes, Unicode}
use nanci.Cnpj.{clean}
use nanci.Nfe.Types.{
  Manifestacao, nenhuma, ciente, confirmada, desconhecida, nao_realizada_manifestada, Event,
}
use nanci.Nfe.Manifestacao.{
  Walk, walk, walk_start, event_time, is_before, time_of, manifestacao_and_time_from_events,
}
use nanci.Nfe.Manifestacao.Seen.{Seen, concluded, aware, quiet, Concludes, Informs}
use nanci.Nfe.Manifestacao.Walked.{walk-Seen}

module _ ⦃u : Unicode⦄ (company : Bytes) where
  -- What the manifestação of a list of events is.
  pub data Derived (events : List Event) : Manifestacao × Option ℕ → Type 0 where
    by_conclusive :
        {m : Manifestacao} {t : Option ℕ} (e : Event)
        → In e events
        → Concludes company e m
        → t ≡ event_time e
        → ((x : Event) (n : Manifestacao)
            → In x events
            → Concludes company x n
            → is_before (event_time e) (event_time x) ≡ false)
        → Derived events (m, t)
    by_ciencia :
        {m : Manifestacao} {t : Option ℕ} (e : Event)
        → In e events
        → Informs company e
        → m ≡ ciente
        → ((x : Event) (n : Manifestacao) → In x events → Concludes company x n → ⊥)
        → Derived events (m, t)
    by_none :
        {m : Manifestacao} {t : Option ℕ}
        → m ≡ nenhuma
        → t ≡ none
        → ((x : Event) → In x events → Informs company x → ⊥)
        → ((x : Event) (n : Manifestacao) → In x events → Concludes company x n → ⊥)
        → Derived events (m, t)

  time_of_concluded :
      (m : Manifestacao) (w : Walk) → w.has_conclusive ≡ true → time_of m w ≡ w.latest_conclusive
  time_of_concluded nenhuma w h = rw h refl
  time_of_concluded ciente w h = rw h refl
  time_of_concluded confirmada w h = rw h refl
  time_of_concluded desconhecida w h = rw h refl
  time_of_concluded nao_realizada_manifestada w h = rw h refl

  time_of-nenhuma :
      (w : Walk) → w.has_conclusive ≡ false → w.result ≡ nenhuma → time_of w.result w ≡ none
  time_of-nenhuma w h r = ap (λ m. time_of m w) r ∙ rw h refl

  Seen-Derived :
      (events : List Event) (w : Walk)
      → Seen company (λ x. In x events ⊎ ⊥) w
      → Derived events (w.result, time_of w.result w)
  Seen-Derived events w (concluded e has p k at latest) =
      by_conclusive e (elim p [ inl here ↦ here | inr left ↦ absurd left ]) k
        (time_of_concluded w.result w has ∙ at) (λ x n q l. rw at at (latest x n (inl q) l))
  Seen-Derived events w (aware e has p i r never) =
      by_ciencia e (elim p [ inl here ↦ here | inr left ↦ absurd left ]) i r
        (λ x n q l. never x n (inl q) l)
  Seen-Derived events w (quiet has r never none_left) =
      by_none r (time_of-nenhuma w has r) (λ x q i. never x (inl q) i)
        (λ x n q l. none_left x n (inl q) l)

-- The manifestação of a company is that of a latest one of its registered conclusive events, with
-- the time of that event; without one it is a ciência if the company registered any, and otherwise none.
pub manifestacao_and_time_from_events-Derived :
    ⦃u : Unicode⦄ (events : List Event) (company_cnpj : Bytes)
    → Derived (clean company_cnpj) events (manifestacao_and_time_from_events events company_cnpj)
unfolding manifestacao_and_time_from_events
manifestacao_and_time_from_events-Derived events company_cnpj =
    let company = clean company_cnpj in
    Seen-Derived company events (walk company events walk_start) (
      walk-Seen company (λ x. ⊥) events walk_start
        (quiet refl refl (λ x p i. absurd p) (λ x m p k. absurd p)))

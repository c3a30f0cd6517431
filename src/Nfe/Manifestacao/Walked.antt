-- ===== src/Nfe/Manifestacao/Walked.antt =====
-- What the loop of manifestacaoAndTimeFromEvents in internal/nfe/manifestacao.go has seen after each event.
use nanci.Prelude.{
  ◌≡◌, refl, ◌⊎◌, inl, inr, true, not, ◌||◌, List, [], ◌∷◌, if◌then◌else◌, Bool-cases, In,
}
use nanci.Text.{Bytes, Unicode}
use nanci.Nfe.Types.{
  EventType, cancelamento, carta_correcao, ciencia, confirmacao, desconhecimento, nao_realizada,
  unknown_event, Manifestacao, confirmada, desconhecida, nao_realizada_manifestada, Event,
}
use nanci.Nfe.Manifestacao.{
  Walk, walk, see, see_ciencia, see_conclusive, counts, event_time, is_before,
}
use nanci.Nfe.Manifestacao.Seen.{
  concluded, aware, quiet, Concludes, Informs, Seen, Seen-map, Plus, without, ignored_conclusion,
  ignored, takes_over, stands,
}

module _ ⦃u : Unicode⦄ (company : Bytes) where
  see_conclusive-Seen :
      {P : Event → Type 0} (w : Walk) (e : Event) (m : Manifestacao)
      → Concludes company e m
      → Seen company P w
      → Seen company (Plus company P e) (see_conclusive m (event_time e) w)
  see_conclusive-Seen w e m c h =
      elim (Bool-cases
        (not w.has_conclusive || not (is_before (event_time e) w.latest_conclusive))) [
          | inl t ↦ rw t (takes_over company e m c t h)
          | inr t ↦ rw t (stands company e t h)
        ]

  -- a ciência concludes nothing
  never-Concludes : (e : Event) → e.type ≡ ciencia → (m : Manifestacao) → Concludes company e m → ⊥
  never-Concludes e i m (registered, c) = cc (rw i at c)

  see_ciencia-Seen :
      {P : Event → Type 0} (w : Walk) (e : Event)
      → Informs company e
      → Seen company P w
      → Seen company (Plus company P e) (see_ciencia (event_time e) w)
  see_ciencia-Seen w e i (concluded d has p k at latest) =
      let grown =
        ignored_conclusion company w.latest_conclusive e (λ m c. never-Concludes e (i.1) m c)
          latest in
      concluded d has (inr p) (rw has k) at grown
  see_ciencia-Seen w e i (aware d has p k r never) =
      aware d has (inr p) k (rw has refl)
        (without company e (λ m c. never-Concludes e (i.1) m c) never)
  see_ciencia-Seen w e i (quiet has r never none_left) =
      aware e has (inl refl) i (rw has refl)
        (without company e (λ m c. never-Concludes e (i.1) m c) none_left)

  see-Seen :
      {P : Event → Type 0} (w : Walk) (e : Event)
      → counts company e ≡ true
      → (t : EventType) → e.type ≡ t
      → Seen company P w
      → Seen company (Plus company P e) (see t (event_time e) w)
  see-Seen w e c ciencia same h = see_ciencia-Seen w e (c, same) h
  see-Seen w e c confirmacao same h = see_conclusive-Seen w e confirmada (c, rw same refl) h
  see-Seen w e c desconhecimento same h = see_conclusive-Seen w e desconhecida (c, rw same refl) h
  see-Seen w e c nao_realizada same h =
      see_conclusive-Seen w e nao_realizada_manifestada (c, rw same refl) h
  see-Seen w e c cancelamento same h =
      ignored company e (λ i. cc (same, i.1)) (λ m k. cc (rw same at (k.1))) h
  see-Seen w e c carta_correcao same h =
      ignored company e (λ i. cc (same, i.1)) (λ m k. cc (rw same at (k.1))) h
  see-Seen w e c unknown_event same h =
      ignored company e (λ i. cc (same, i.1)) (λ m k. cc (rw same at (k.1))) h

  abbrev step : Event → Walk → Walk
  step e w = if counts company e then see e.type (event_time e) w else w

  step-Seen :
      {P : Event → Type 0} (w : Walk) (e : Event)
      → Seen company P w
      → Seen company (Plus company P e) (step e w)
  step-Seen w e h = elim (Bool-cases (counts company e)) [
    | inl c ↦ rw c (see-Seen w e c e.type refl h)
    | inr c ↦ rw c (ignored company e (λ i. cc (c, i.0)) (λ m k. cc (c, k.0)) h)
  ]

  pub walk-Seen :
      (P : Event → Type 0) (events : List Event) (w : Walk)
      → Seen company P w
      → Seen company (λ x. In x events ⊎ P x) (walk company events w)
  unfolding walk
  walk-Seen P [] w h =
      Seen-map company (λ x p. inr p) (λ x q. elim q [ inl left ↦ absurd left | inr p ↦ p ]) h
  walk-Seen P (e ∷ events) w h =
      Seen-map company
        (λ x q. elim q [
          | inl later ↦ inl (inr later)
          | inr q ↦ elim q [ inl same ↦ inl (inl same) | inr p ↦ inr p ]
        ])
        (λ x q. elim q [
          | inl q ↦ elim q [ inl same ↦ inr (inl same) | inr later ↦ inl later ]
          | inr p ↦ inr (inr p)
        ])
        (walk-Seen (Plus company P e) events (step e w) (step-Seen w e h))

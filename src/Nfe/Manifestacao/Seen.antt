-- ===== src/Nfe/Manifestacao/Seen.antt =====
-- What the variables of ManifestacaoAndTimeFromEvents say of the events seen so far.
use nanci.Prelude.{ℕ, ◌≡◌, refl, ◌⊎◌, inl, inr, arith, true, false, not, ◌||◌, Option, none, some}
use nanci.Text.{Bytes, Unicode}
use nanci.Nfe.Types.{
  EventType, ciencia, confirmacao, desconhecimento, nao_realizada, Manifestacao, nenhuma, ciente,
  confirmada, desconhecida, nao_realizada_manifestada, Event,
}
use nanci.Nfe.Manifestacao.{Walk, counts, event_time, is_before}

-- the manifestação that a conclusive event sets
abbrev pub conclusion : EventType → Option Manifestacao
conclusion confirmacao = some confirmada
conclusion desconhecimento = some desconhecida
conclusion nao_realizada = some nao_realizada_manifestada
conclusion _ = none

module _ ⦃u : Unicode⦄ (company : Bytes) where
  -- a registered event of the company that concludes with `m`
  abbrev pub Concludes : Event → Manifestacao → Type 0
  Concludes e m = (counts company e ≡ true) × (conclusion e.type ≡ some m)

  abbrev pub Informs : Event → Type 0
  Informs e = (counts company e ≡ true) × (e.type ≡ ciencia)

  -- What the variables of the loop say of the events seen so far.
  pub data Seen (P : Event → Type 0) (w : Walk) : Type 0 where
    concluded :
        (e : Event)
        → w.has_conclusive ≡ true
        → P e
        → Concludes e w.result
        → w.latest_conclusive ≡ event_time e
        → ((x : Event) (m : Manifestacao)
            → P x
            → Concludes x m
            → is_before w.latest_conclusive (event_time x) ≡ false)
        → Seen P w
    aware :
        (e : Event)
        → w.has_conclusive ≡ false
        → P e
        → Informs e
        → w.result ≡ ciente
        → ((x : Event) (m : Manifestacao) → P x → Concludes x m → ⊥)
        → Seen P w
    quiet :
        w.has_conclusive ≡ false
        → w.result ≡ nenhuma
        → ((x : Event) → P x → Informs x → ⊥)
        → ((x : Event) (m : Manifestacao) → P x → Concludes x m → ⊥)
        → Seen P w

  pub Seen-map :
      {P Q : Event → Type 0} {w : Walk}
      → ((x : Event) → P x → Q x)
      → ((x : Event) → Q x → P x)
      → Seen P w
      → Seen Q w
  Seen-map f g (concluded e has p c at latest) =
      concluded e has (f e p) c at (λ x m q c. latest x m (g x q) c)
  Seen-map f g (aware e has p i r never) = aware e has (f e p) i r (λ x m q c. never x m (g x q) c)
  Seen-map f g (quiet has r never none_left) =
      quiet has r (λ x q i. never x (g x q) i) (λ x m q c. none_left x m (g x q) c)

  abbrev pub Plus : (Event → Type 0) → Event → Event → Type 0
  Plus P e x = (x ≡ e) ⊎ P x

  pub without :
      {P : Event → Type 0} (e : Event)
      → ((m : Manifestacao) → Concludes e m → ⊥)
      → ((x : Event) (m : Manifestacao) → P x → Concludes x m → ⊥)
      → (x : Event) (m : Manifestacao) → Plus P e x
      → Concludes x m
      → ⊥
  without e c never x m (inl same) k = c m (rw same at k)
  without e c never x m (inr old) k = never x m old k

  pub ignored_conclusion :
      {P : Event → Type 0} (t : Option ℕ) (e : Event)
      → ((m : Manifestacao) → Concludes e m → ⊥)
      → ((x : Event) (m : Manifestacao) → P x → Concludes x m → is_before t (event_time x) ≡ false)
      → (x : Event) (m : Manifestacao) → Plus P e x
      → Concludes x m
      → is_before t (event_time x) ≡ false
  ignored_conclusion t e c latest x m (inl same) k = absurd (c m (rw same at k))
  ignored_conclusion t e c latest x m (inr old) k = latest x m old k

  -- an event that neither concludes nor informs
  pub ignored :
      {P : Event → Type 0} {w : Walk} (e : Event)
      → (Informs e → ⊥)
      → ((m : Manifestacao) → Concludes e m → ⊥)
      → Seen P w
      → Seen (Plus P e) w
  ignored e i c (concluded d has p k at latest) =
      concluded d has (inr p) k at
        (λ x m q k. elim q [ inl same ↦ absurd (c m (rw same at k)) | inr old ↦ latest x m old k ])
  ignored e i c (aware d has p k r never) =
      aware d has (inr p) k r
        (λ x m q k. elim q [ inl same ↦ c m (rw same at k) | inr old ↦ never x m old k ])
  ignored e i c (quiet has r never none_left) =
      quiet has r (λ x q k. elim q [ inl same ↦ i (rw same at k) | inr old ↦ never x old k ])
        (λ x m q k. elim q [ inl same ↦ c m (rw same at k) | inr old ↦ none_left x m old k ])

  is_before_irrefl : (a : Option ℕ) → is_before a a ≡ false
  is_before_irrefl a = ground arith

  later_of :
      (a b c : Option ℕ) → is_before b c ≡ false → is_before a b ≡ false → is_before a c ≡ false
  later_of a b c h k = ground (arith, h, k)

  not_after : (a b : Option ℕ) → is_before a b ≡ true → is_before b a ≡ false
  not_after a b h = ground (arith, h)

  -- the event takes the place of the latest
  pub takes_over :
      {P : Event → Type 0} {w : Walk} (e : Event) (m : Manifestacao)
      → Concludes e m
      → (not w.has_conclusive || not (is_before (event_time e) w.latest_conclusive)) ≡ true
      → Seen P w
      → Seen
          (Plus P e)
          (record w { result = m; latest_conclusive = event_time e; has_conclusive = true })
  takes_over e m c h (concluded d has p k at latest) =
      let after : is_before (event_time e) _ ≡ false = ground (arith, h, has) in
      concluded e refl (inl refl) c refl (λ x n q l. elim q [
        | inl same ↦ rw same (is_before_irrefl (event_time e))
        | inr old ↦ later_of (event_time e) _ (event_time x) (latest x n old l) after
      ])
  takes_over e m c h (aware d has p k r never) = concluded e refl (inl refl) c refl (λ x n q l.
      elim q [
        | inl same ↦ rw same (is_before_irrefl (event_time e))
        | inr old ↦ absurd (never x n old l)
      ])
  takes_over e m c h (quiet has r never none_left) = concluded e refl (inl refl) c refl (λ x n q l.
      elim q [
        | inl same ↦ rw same (is_before_irrefl (event_time e))
        | inr old ↦ absurd (none_left x n old l)
      ])

  -- the event is before the latest
  pub stands :
      {P : Event → Type 0} {w : Walk} (e : Event)
      → (not w.has_conclusive || not (is_before (event_time e) w.latest_conclusive)) ≡ false
      → Seen P w
      → Seen (Plus P e) w
  stands e h (concluded d has p k at latest) =
      let earlier : is_before (event_time e) _ ≡ true = ground (arith, h, has) in
      concluded d has (inr p) k at (λ x n q l. elim q [
        | inl same ↦ rw same (not_after (event_time e) _ earlier)
        | inr old ↦ latest x n old l
      ])
  stands e h (aware d has p k r never) = absurd (cc (rw has at h))
  stands e h (quiet has r never none_left) = absurd (cc (rw has at h))

-- ===== src/Store/Tx/Rules.antt =====
-- What a transaction that went through has done.
use nanci.Prelude.{◌≡◌, refl, sym, ◌∙◌, ap, Option-cases, inl, inr}
use nanci.Sync.Env.{Result, ok, fail}
use nanci.Sync.Store.Commit.{Result-cases}
use nanci.Store.Tx.{
  World, Session, Tx, pure, ◌>>=◌, ◌>>◌, continue, statement, query, update, execute, wrote,
  in_transaction, finished,
}

ok-pair :
    {A B : Type 0} {a b : A} {s t : B}
    → ◌≡◌ {A = Result (A × B)} (ok (a, s)) (ok (b, t))
    → (a ≡ b) × (s ≡ t)
ok-pair h = (cc, cc)

module _ {T A B : Type 0} where
  -- what a bind that went through consists of
  pub bind_ok :
      (m : Tx T A) (f : A → Tx T B) (s : Session T) {b : B} {s' : Session T}
      → (m >>= f) s ≡ ok (b, s')
      → (a : A) × (s1 : Session T) × (m s ≡ ok (a, s1)) × (f a s1 ≡ ok (b, s'))
  bind_ok m f s {b} {s'} h = go (m s) refl h
    where
      go :
          (r : Result (A × Session T))
          → m s ≡ r
          → continue r f ≡ ok (b, s')
          → (a : A) × (s1 : Session T) × (m s ≡ ok (a, s1)) × (f a s1 ≡ ok (b, s'))
      go (ok (a, s1)) e k = (a, s1, e, k)
      go (fail d) e k = absurd (cc)

module _ {T A : Type 0} (w : World) where
  pub statement_ok :
      (f : T → Result (A × T)) (s : Session T) {a : A} {s' : Session T}
      → statement w f s ≡ ok (a, s')
      → f s.tables ≡ ok (a, s'.tables)
  unfolding statement
  statement_ok f s h = elim (Option-cases (w.fault s.tick)) [
    | inr (e, fails) ↦ absurd (cc (rw fails at h))
    | inl works ↦ elim (Result-cases (f s.tables)) [
      | inr (e, refuses) ↦ absurd (cc (rw (works, refuses) at h))
      | inl ((b, t), runs) ↦
          let (same, end) = ok-pair (rw (works, runs) at h) in
          runs ∙ ap ok (λ i. (same i, (end i).tables))
    ]
  ]

  pub query_ok :
      (f : T → A) (s : Session T) {a : A} {s' : Session T}
      → query w f s ≡ ok (a, s')
      → (f s.tables ≡ a) × (s.tables ≡ s'.tables)
  unfolding query
  query_ok f s h = ok-pair (statement_ok (λ t. ok (f t, t)) s h)

module _ {T : Type 0} (w : World) where
  pub update_ok :
      (f : T → T) (s : Session T) {u : Unit {0}} {s' : Session T}
      → update w f s ≡ ok (u, s')
      → f s.tables ≡ s'.tables
  unfolding update
  update_ok f s h = (ok-pair (statement_ok w (λ t. ok (tt, f t)) s h)).1

  pub execute_ok :
      (f : T → Result T) (s : Session T) {u : Unit {0}} {s' : Session T}
      → execute w f s ≡ ok (u, s')
      → f s.tables ≡ ok s'.tables
  unfolding execute
  execute_ok f s {u} {s'} h = go (f s.tables) refl (statement_ok w (λ t. wrote (f t)) s h)
    where
      go : (r : Result T) → f s.tables ≡ r → wrote r ≡ ok (u, s'.tables) → f s.tables ≡ ok s'.tables
      go (ok t) e k = e ∙ ap ok (ok-pair k).1
      go (fail d) e k = absurd (cc)

module _ {T A : Type 0} (w : World) where
  pub in_transaction_ok :
      (m : Tx T A) (t : T) {a : A} {t' : T}
      → in_transaction w m t ≡ ok (a, t')
      → (s : Session T) × (s' : Session T) × (s.tables ≡ t) × (m s ≡ ok (a, s')) × (s'.tables ≡ t')
  unfolding in_transaction
  in_transaction_ok m t {a} {t'} h = go (run start) refl h
    where
      step : Tx T (Unit {0})
      step = query w (λ _. tt)

      run : Tx T A
      run = step >> m >>= λ b. step >> pure b

      start : Session T
      start = record { tables = t; tick = 0 }

      go :
          (r : Result (A × Session T))
          → run start ≡ r
          → finished w r ≡ ok (a, t')
          → (s : Session T) × (s' : Session T) × (s.tables ≡ t)
            × (m s ≡ ok (a, s'))
            × (s'.tables ≡ t')
      go (fail d) e k = absurd (cc)
      go (ok (b, end)) e k =
          let (same, kept) = ok-pair k in
          let (c, s2, both, last) = bind_ok (step >> m) (λ b. step >> pure b) start e in
          let (u, s1, begun, body) = bind_ok step (λ _. m) start both in
          let (v, s3, done, gave) = bind_ok step (λ _. pure c) s2 last in
          let (named, final) = ok-pair gave in
          (
            s1,
            s2,
            sym (query_ok w (λ _. tt) start begun).1,
            body ∙ ap (λ x. ok (x, s2)) (named ∙ same),
            (query_ok w (λ _. tt) s2 done).1 ∙ ap (λ (x : Session T). x.tables) final ∙ kept,
          )

module _ {T A : Type 0} (w : World) where
  pub finished_ok :
      (r : Result (A × Session T)) {a : A} {t' : T}
      → finished w r ≡ ok (a, t')
      → (s : Session T) × (r ≡ ok (a, s)) × (s.tables ≡ t')
  finished_ok (ok (b, s)) h = let (same, kept) = ok-pair h in (s, ap (λ x. ok (x, s)) same, kept)
  finished_ok (fail e) h = absurd (cc)

-- ===== src/Sync/Manager/Exclusive.antt =====
-- The pulls in flight of one process: no company and source is held twice.
use nanci.Prelude.{
  ◌≡◌, refl, sym, ap, ap₂, ◌∙◌, ◌↔◌, ◌⊎◌, inl, inr, true, not, ◌&&◌, List, [], ◌∷◌, ◌++◌, none,
  some, arith, In, Bool-cases, drop,
}
use mathlib.Core.Path.{subst}
use mathlib.Core.List.{reverse, reverse-append, reverse-reverse}
use nanci.Text.{Bytes, bytes_eq, bytes_eq-eq, bytes_eq_refl, codes}
use nanci.Sync.Types.{SyncSource, nfse, nfe, cte}
use nanci.Sync.Manager.{key_of, Running, marked, without, reserve_source, release_source}

-- who holds a reservation
pub record Holder : Type 0 where
  pub company : Bytes
  pub source : SyncSource

pub record Pulls : Type 0 where
  pub running : Running
  pub holders : List Holder

abbrev key : Holder → Bytes
key h = key_of h.company h.source

-- One call of ReserveSource, or one of the func that it returned, which its holder calls once. The mutex
-- makes each call one step.
pub data Step (p : Pulls) : Pulls → Type 0 where
  reserved :
      (h : Holder) (running : Running)
      → reserve_source h.company h.source p.running ≡ some running
      → Step p (record { running = running; holders = h ∷ p.holders })
  refused : (h : Holder) → reserve_source h.company h.source p.running ≡ none → Step p p
  released :
      (before after : List Holder) (h : Holder)
      → p.holders ≡ before ++ h ∷ after
      → Step p (record {
        running = release_source h.company h.source p.running;
        holders = before ++ after;
      })

pub data Reachable : Pulls → Type 0 where
  start : Reachable (record { running = []; holders = [] })
  later : {p q : Pulls} → Reachable p → Step p q → Reachable q

-- The key tells the company and the source apart.
abbrev backwards : SyncSource → Bytes
backwards nfse = codes "esfn:"
backwards nfe = codes "efn:"
backwards cte = codes "etc:"

reverse_key :
    (company : Bytes) (source : SyncSource)
    → reverse (key_of company source) ≡ backwards source ++ reverse company
reverse_key company nfse = reverse-append company (codes ":nfse")
reverse_key company nfe = reverse-append company (codes ":nfe")
reverse_key company cte = reverse-append company (codes ":cte")

same_holder :
    (c d : Bytes) (s t : SyncSource)
    → backwards s ++ reverse c ≡ backwards t ++ reverse d
    → (reverse c ≡ reverse d) × (s ≡ t)
same_holder c d nfse nfse h = (ap (drop 5) h, refl)
same_holder c d nfe nfe h = (ap (drop 4) h, refl)
same_holder c d cte cte h = (ap (drop 4) h, refl)
same_holder c d nfse nfe h = absurd (ground (arith, h))
same_holder c d nfse cte h = absurd (ground (arith, h))
same_holder c d nfe nfse h = absurd (ground (arith, h))
same_holder c d nfe cte h = absurd (ground (arith, h))
same_holder c d cte nfse h = absurd (ground (arith, h))
same_holder c d cte nfe h = absurd (ground (arith, h))

key-injective : (h k : Holder) → key h ≡ key k → h ≡ k
key-injective h k e =
    let (back, source) =
      same_holder h.company k.company h.source k.source
        (sym (reverse_key h.company h.source) ∙ ap reverse e ∙ reverse_key k.company k.source) in
    let company : h.company ≡ k.company =
      sym (reverse-reverse h.company) ∙ ap reverse back ∙ reverse-reverse k.company in
    ap₂ (λ c s. record { company = c; source = s }) company source

marked-without :
    (a b : Bytes) (running : Running)
    → marked a (without b running) ≡ (not (bytes_eq b a) && marked a running)
unfolding without
marked-without a b [] = ground arith
marked-without a b (k ∷ ks) =
    let ih = marked-without a b ks in
    elim (Bool-cases (bytes_eq a k)) [
      | inr f ↦ elim (Bool-cases (bytes_eq b k)) [
        | inr e ↦ rw (e, f, ih) refl
        | inl e ↦ rw (e, f, ih) refl
      ]
      | inl f ↦
          let same : bytes_eq b a ≡ bytes_eq b k = ap (bytes_eq b) (bytes_eq-eq a k f) in
          elim (Bool-cases (bytes_eq b k)) [
            | inr e ↦ rw (e, f, same, e) refl
            | inl e ↦ rw (e, ih, same, e) refl
          ]
    ]

some-injective : {A : Type 0} {a b : A} → some a ≡ some b → a ≡ b
some-injective h = cc

module _ {A : Type 0} where
  abbrev pub Alone : List A → Type 0
  Alone [] = Unit
  Alone (x ∷ xs) = (In x xs → ⊥) × Alone xs

  In-drop_middle : (x y : A) (b a : List A) → In x (b ++ y ∷ a) → (x ≡ y) ⊎ In x (b ++ a)
  In-drop_middle x y [] a h = h
  In-drop_middle x y (z ∷ b) a (inl e) = inr (inl e)
  In-drop_middle x y (z ∷ b) a (inr h) = elim (In-drop_middle x y b a h) [
    | inl e ↦ inl e
    | inr k ↦ inr (inr k)
  ]

  In-add_middle : (x y : A) (b a : List A) → In x (b ++ a) → In x (b ++ y ∷ a)
  In-add_middle x y [] a h = inr h
  In-add_middle x y (z ∷ b) a (inl e) = inl e
  In-add_middle x y (z ∷ b) a (inr h) = inr (In-add_middle x y b a h)

  In-middle : (y : A) (b a : List A) → In y (b ++ y ∷ a)
  In-middle y [] a = inl refl
  In-middle y (z ∷ b) a = inr (In-middle y b a)

  Alone-middle : (y : A) (b a : List A) → Alone (b ++ y ∷ a) → (In y (b ++ a) → ⊥) × Alone (b ++ a)
  Alone-middle y [] a h = h
  Alone-middle y (z ∷ b) a (new, h) =
      let (gone, rest) = Alone-middle y b a h in
      (
        λ k. elim k [ inl e ↦ new (rw (← e) (In-middle y b a)) | inr i ↦ gone i ],
        (λ i. new (In-add_middle z y b a i), rest),
      )

-- No company and source has two holders, and those marked are those held.
pub record IsExclusive (p : Pulls) : Type 0 where
  pub alone : Alone p.holders
  pub marks : (h : Holder) → (marked (key_of h.company h.source) p.running ≡ true) ↔ In h p.holders

reserved-IsExclusive :
    (p : Pulls) (h : Holder) (running : Running)
    → IsExclusive p
    → reserve_source h.company h.source p.running ≡ some running
    → IsExclusive (record { running = running; holders = h ∷ p.holders })
unfolding reserve_source
reserved-IsExclusive p h running ex got = elim (Bool-cases (marked (key h) p.running)) [
  | inl busy ↦ absurd (cc (rw busy at got))
  | inr free ↦
      let grown : key h ∷ p.running ≡ running = some-injective (rw free at got) in
      rw (← grown) (record {
        alone = (λ i. absurd (cc ((ex.marks h).1 i, free)), ex.alone);
        marks = λ k. elim (Bool-cases (bytes_eq (key k) (key h))) [
          | inl e ↦
              let same = key-injective k h (bytes_eq-eq (key k) (key h) e) in
              rw e ((λ t. inl same), (λ i. refl))
          | inr e ↦ rw e (
            (λ t. inr ((ex.marks k).0 t)),
            λ i. elim i [
              | inl same ↦ absurd (cc (rw (same, bytes_eq_refl (key h)) at e))
              | inr j ↦ (ex.marks k).1 j
            ],
          )
        ];
      })
]

released-IsExclusive :
    (p : Pulls) (before after : List Holder) (h : Holder)
    → IsExclusive p
    → p.holders ≡ before ++ h ∷ after
    → IsExclusive (record {
      running = release_source h.company h.source p.running;
      holders = before ++ after;
    })
unfolding release_source
released-IsExclusive p before after h ex held =
    let (gone, alone) = Alone-middle h before after (subst Alone held ex.alone) in
    record {
      alone = alone;
      marks = λ k.
          rw (marked-without (key k) (key h) p.running)
            (elim (Bool-cases (bytes_eq (key h) (key k))) [
              | inl e ↦
                  let same = key-injective h k (bytes_eq-eq (key h) (key k) e) in
                  rw e ((λ t. absurd (cc)), λ i. absurd (gone (rw same i)))
              | inr e ↦ rw e (
                (λ t.
                    elim (In-drop_middle k h before after (subst (In k) held ((ex.marks k).0 t))) [
                      | inl same ↦ absurd (cc (rw (same, bytes_eq_refl (key h)) at e))
                      | inr i ↦ i
                    ]),
                λ i. (ex.marks k).1 (subst (In k) (sym held) (In-add_middle k h before after i)),
              )
            ]);
    }

Step-IsExclusive : {p q : Pulls} → Step p q → IsExclusive p → IsExclusive q
Step-IsExclusive {p} (reserved h running got) ex = reserved-IsExclusive p h running ex got
Step-IsExclusive (refused h busy) ex = ex
Step-IsExclusive {p} (released before after h held) ex =
    released-IsExclusive p before after h ex held

-- Whatever the order of the calls, no company and source has two holders at one time, and ReserveSource
-- marks exactly those that are held.
pub Reachable-IsExclusive : {p : Pulls} → Reachable p → IsExclusive p
Reachable-IsExclusive start = record { alone = tt; marks = λ h. (λ e. absurd (cc), λ i. absurd i) }
Reachable-IsExclusive (later r step) = Step-IsExclusive step (Reachable-IsExclusive r)

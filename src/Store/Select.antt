-- ===== src/Store/Select.antt =====
-- Selections of rows: SELECT, UPDATE and DELETE … WHERE, and joins, with what they leave in a table.
use nanci.Prelude.{
  ◌≡◌, refl, sym, ap, ◌∙◌, inl, inr, Bool, true, false, List, [], ◌∷◌, ◌++◌, map, Option, none,
  some, In, In-append, Bool-cases, if◌then◌else◌, ◌+◌, length, not, arith,
}

module _ {A : Type 0} (p : A → Bool) where
  -- the first row that is selected
  abbrev pub find : List A → Option A
  find [] = none
  find (x ∷ xs) = if p x then some x else find xs

  -- the rows that are selected
  abbrev pub keep : List A → List A
  keep [] = []
  keep (x ∷ xs) = let rest = keep xs in if p x then x ∷ rest else rest

  -- UPDATE … WHERE
  abbrev pub update_where : (A → A) → List A → List A
  update_where f xs = map (λ x. if p x then f x else x) xs

  pub find-none : (xs : List A) → find xs ≡ none → (x : A) → In x xs → p x ≡ false
  find-none [] h x i = absurd i
  find-none (y ∷ ys) h x i = elim (Bool-cases (p y)) [
    | inl e ↦ absurd (cc (rw e at h))
    | inr e ↦ elim i [ inl same ↦ ap p same ∙ e | inr k ↦ find-none ys (rw e at h) x k ]
  ]

  pub find-some : (xs : List A) (x : A) → find xs ≡ some x → In x xs × (p x ≡ true)
  find-some [] x h = absurd (cc)
  find-some (y ∷ ys) x h = elim (Bool-cases (p y)) [
    | inl e ↦ let same : y ≡ x = cc (rw e at h) in (inl (sym same), ap p (sym same) ∙ e)
    | inr e ↦ let (i, q) = find-some ys x (rw e at h) in (inr i, q)
  ]

  pub In-keep : (xs : List A) (x : A) → In x (keep xs) → In x xs × (p x ≡ true)
  In-keep [] x i = absurd i
  In-keep (y ∷ ys) x i = elim (Bool-cases (p y)) [
    | inl e ↦ elim (rw e at i) [
      | inl same ↦ (inl same, ap p same ∙ e)
      | inr k ↦ let (j, q) = In-keep ys x k in (inr j, q)
    ]
    | inr e ↦ let (j, q) = In-keep ys x (rw e at i) in (inr j, q)
  ]

  pub keep-In : (xs : List A) (x : A) → In x xs → p x ≡ true → In x (keep xs)
  keep-In [] x i q = absurd i
  keep-In (y ∷ ys) x i q = elim i [
    | inl same ↦ rw (ap p (sym same) ∙ q) (inl same)
    | inr k ↦ elim (Bool-cases (p y)) [
      | inl e ↦ rw e (inr (keep-In ys x k q))
      | inr e ↦ rw e (keep-In ys x k q)
    ]
  ]

module _ {A B : Type 0} where
  pub In-map : (f : A → B) (xs : List A) (y : B) → In y (map f xs) → (x : A) × In x xs × (y ≡ f x)
  In-map f [] y i = absurd i
  In-map f (x ∷ xs) y i = elim i [
    | inl e ↦ (x, inl refl, e)
    | inr k ↦ let (z, j, e) = In-map f xs y k in (z, inr j, e)
  ]

  pub map-In : (f : A → B) (xs : List A) (x : A) → In x xs → In (f x) (map f xs)
  map-In f [] x i = absurd i
  map-In f (y ∷ ys) x i = elim i [ inl e ↦ inl (ap f e) | inr k ↦ inr (map-In f ys x k) ]

  -- a join
  abbrev pub flat_map : (A → List B) → List A → List B
  flat_map f [] = []
  flat_map f (x ∷ xs) = f x ++ flat_map f xs

  pub In-flat_map :
      (f : A → List B) (xs : List A) (y : B) → In y (flat_map f xs) → (x : A) × In x xs × In y (f x)
  In-flat_map f [] y i = absurd i
  In-flat_map f (x ∷ xs) y i = elim ((In-append y (f x) (flat_map f xs)).0 i) [
    | inl k ↦ (x, inl refl, k)
    | inr k ↦ let (z, j, l) = In-flat_map f xs y k in (z, inr j, l)
  ]

  pub flat_map-In :
      (f : A → List B) (xs : List A) (x : A) (y : B) → In x xs → In y (f x) → In y (flat_map f xs)
  flat_map-In f [] x y i k = absurd i
  flat_map-In f (z ∷ xs) x y i k =
      (In-append y (f z) (flat_map f xs)).1
        (elim i [ inl e ↦ inl (rw (← e) k) | inr j ↦ inr (flat_map-In f xs x y j k) ])

module _ {A K : Type 0} (key : A → K) where
  -- No two rows share the key.
  abbrev pub OneEach : List A → Type 0
  OneEach xs = (a b : A) → In a xs → In b xs → key a ≡ key b → a ≡ b

  pub OneEach-map :
      (f : A → A) (xs : List A) → ((x : A) → key (f x) ≡ key x) → OneEach xs → OneEach (map f xs)
  OneEach-map f xs kept one a b i j same =
      let (x, k, e) = In-map f xs a i in
      let (y, l, d) = In-map f xs b j in
      let origin : x ≡ y = one x y k l (sym (kept x) ∙ ap key (sym e) ∙ same ∙ ap key d ∙ kept y) in
      e ∙ ap f origin ∙ sym d

  pub OneEach-cons :
      (x : A) (xs : List A)
      → ((y : A) → In y xs → key y ≡ key x → ⊥)
      → OneEach xs
      → OneEach (x ∷ xs)
  OneEach-cons x xs new one a b i j same = elim i [
    | inl e ↦ elim j [ inl d ↦ e ∙ sym d | inr l ↦ absurd (new b l (sym same ∙ ap key e)) ]
    | inr k ↦ elim j [ inl d ↦ absurd (new a k (same ∙ ap key d)) | inr l ↦ one a b k l same ]
  ]

module _ {A : Type 0} where
  pub keep_congr :
      (p q : A → Bool) (xs : List A) → ((x : A) → In x xs → p x ≡ q x) → keep p xs ≡ keep q xs
  keep_congr p q [] same = refl
  keep_congr p q (x ∷ xs) same =
      let ih = keep_congr p q xs (λ y i. same y (inr i)) in
      elim (Bool-cases (q x)) [
        | inl e ↦ rw (same x (inl refl) ∙ e, e) (ap (◌∷◌ x) ih)
        | inr e ↦ rw (same x (inl refl) ∙ e, e) ih
      ]

  -- a selection from one that it lies within
  pub keep_within :
      (p q : A → Bool) (xs : List A)
      → ((x : A) → In x xs → p x ≡ true → q x ≡ true)
      → keep p (keep q xs) ≡ keep p xs
  keep_within p q [] within = refl
  keep_within p q (x ∷ xs) within =
      let ih = keep_within p q xs (λ y i. within y (inr i)) in
      elim (Bool-cases (p x)) [
        | inl e ↦ rw (within x (inl refl) e, e) (ap (◌∷◌ x) ih)
        | inr e ↦ elim (Bool-cases (q x)) [ inl d ↦ rw (d, e) ih | inr d ↦ rw (d, e) ih ]
      ]

  pub keep_empty : (p : A → Bool) (xs : List A) → ((x : A) → p x ≡ false) → keep p xs ≡ []
  keep_empty p [] never = refl
  keep_empty p (x ∷ xs) never = rw (never x) (keep_empty p xs never)

module _ {A : Type 0} where
  -- the rows that go and those that stay
  pub length-keep :
      (p : A → Bool) (xs : List A)
      → length (keep p xs) + length (keep (λ x. not (p x)) xs) ≡ length xs
  length-keep p [] = omega arith
  length-keep p (x ∷ xs) =
      let ih = length-keep p xs in
      elim (Bool-cases (p x)) [
        | inl e ↦ rw e (omega (arith, ih))
        | inr e ↦ rw e (omega (arith, ih))
      ]

module _ {A B : Type 0} where
  -- a join over the rows that stay, where those that go give nothing
  pub flat_map-keep :
      (f g : A → List B) (q : A → Bool) (xs : List A)
      → ((x : A) → In x xs → q x ≡ true → f x ≡ g x)
      → ((x : A) → In x xs → q x ≡ false → g x ≡ [])
      → flat_map f (keep q xs) ≡ flat_map g xs
  flat_map-keep f g q [] same gone = refl
  flat_map-keep f g q (x ∷ xs) same gone =
      let ih = flat_map-keep f g q xs (λ y i. same y (inr i)) (λ y i. gone y (inr i)) in
      elim (Bool-cases (q x)) [
        | inl e ↦ rw e (
            ap (λ ys. ys ++ flat_map f (keep q xs)) (same x (inl refl) e) ∙ ap (λ ys. g x ++ ys) ih)
        | inr e ↦ rw e (ih ∙ ap (λ ys. ys ++ flat_map g xs) (sym (gone x (inl refl) e)))
      ]

  pub flat_map_empty :
      (f : A → List B) (xs : List A) → ((x : A) → In x xs → f x ≡ []) → flat_map f xs ≡ []
  flat_map_empty f [] none_of = refl
  flat_map_empty f (x ∷ xs) none_of =
      rw (none_of x (inl refl)) (flat_map_empty f xs (λ y i. none_of y (inr i)))

-- ===== src/Sync/Dist/Rules.antt =====
-- The rules of the batches: when a run stops, how long the source waits, and that nothing is passed over.
use nanci.Prelude.{
  ℕ, ◌+◌, ◌≤◌, ◌<◌, ◌≡◌, refl, ◌⊎◌, inl, inr, ◌↔◌, max, String, Bool, true, false, List, [], ◌∷◌,
  map, none, some, leb, ltb, if◌then◌else◌, arith, All, In, Bool-cases,
}
use nanci.Sync.Error.{Err, StopReason, caught_up, consumo_indevido}
use nanci.Sync.Types.{Item, Batch, SyncSource}
use nanci.Sync.Env.{Env, Run, Result, ok, fail}
use nanci.Sync.Rows.{hour}
use nanci.Sync.Store.{set_blocked_until}
use nanci.Sync.Budget.{check_blocked}
use nanci.Sync.Batch.{record_wait}
use nanci.Sync.Dist.{
  CStat, documento_localizado, nenhum_documento, uso_indevido, other_cstat, DistResult, dist_batch,
  by_cstat, item_of, AdnResponse, last_of, insert, sort_by_nsu, nfse_batch, no_items,
}

-- when a distribution says to stop, and why
pub data Stops (resp : DistResult) : StopReason → Type 0 where
  no_more : resp.c_stat ≡ documento_localizado → resp.max_nsu ≤ resp.ult_nsu → Stops resp caught_up
  nothing : resp.c_stat ≡ nenhum_documento → Stops resp caught_up
  abuse : resp.c_stat ≡ uso_indevido → Stops resp consumo_indevido

-- What a batch of SEFAZ tells the loop.
pub data Told (is_event : String → Bool) (now : ℕ) (resp : DistResult) (cursor : ℕ)
    : Result Batch → Type 0 where
  told_stop :
      {batch : Batch}
      → Stops resp batch.stop_reason
      → batch.done ≡ true
      → batch.wait_until ≡ some (now + hour)
      → batch.next_cursor ≡ max cursor resp.ult_nsu
      → Told is_event now resp cursor (ok batch)
  told_more :
      {batch : Batch}
      → resp.c_stat ≡ documento_localizado
      → resp.ult_nsu < resp.max_nsu
      → batch.items ≡ map (item_of is_event) resp.docs
      → batch.done ≡ false
      → batch.wait_until ≡ none
      → batch.next_cursor ≡ max cursor resp.ult_nsu
      → Told is_event now resp cursor (ok batch)
  told_error :
      {e : Err} (s : String) → resp.c_stat ≡ other_cstat s → Told is_event now resp cursor (fail e)

by_cstat-Told :
    (is_event : String → Bool) (now : ℕ) (resp : DistResult) (cursor : ℕ) (c : CStat)
    → resp.c_stat ≡ c
    → Told is_event now resp cursor (by_cstat is_event c now resp cursor)
by_cstat-Told is_event now resp cursor documento_localizado e =
    elim (Bool-cases (leb resp.max_nsu resp.ult_nsu)) [
      | inl l ↦ rw l (told_stop (no_more e (ground (arith, l))) refl refl refl)
      | inr l ↦ rw l (told_more e (ground (arith, l)) refl refl refl refl)
    ]
by_cstat-Told is_event now resp cursor nenhum_documento e = told_stop (nothing e) refl refl refl
by_cstat-Told is_event now resp cursor uso_indevido e = told_stop (abuse e) refl refl refl
by_cstat-Told is_event now resp cursor (other_cstat s) e = told_error s e

-- distBatch stops and waits an hour exactly on 137, 656 and a 138 that is caught up, goes on with the
-- documents of another 138, never moves the cursor back, and fails on every other cStat.
pub dist_batch-Told :
    (is_event : String → Bool) (now : ℕ) (resp : DistResult) (cursor : ℕ)
    → Told is_event now resp cursor (dist_batch is_event now resp cursor)
unfolding dist_batch
dist_batch-Told is_event now resp cursor = by_cstat-Told is_event now resp cursor resp.c_stat refl

last_of-within :
    (cursor : ℕ) (xs : List Item)
    → (cursor ≤ last_of cursor xs) × ((x : Item) → In x xs → x.nsu ≤ last_of cursor xs)
unfolding last_of
last_of-within cursor [] = (omega arith, λ x found. absurd found)
last_of-within cursor (y ∷ ys) =
    let (grows, rest) = last_of-within (max cursor y.nsu) ys in
    (
      omega (arith, grows),
      λ x found. elim found [ inl e ↦ rw e (omega (arith, grows)) | inr later ↦ rest x later ],
    )

-- sorted by NSU
abbrev pub Sorted : List Item → Type 0
Sorted [] = Unit
Sorted (x ∷ xs) = All (λ (y : Item). x.nsu ≤ y.nsu) xs × Sorted xs

insert-In : (x : Item) (ys : List Item) (z : Item) → In z (insert x ys) → (z ≡ x) ⊎ In z ys
unfolding insert
insert-In x [] z (inl e) = inl e
insert-In x [] z (inr found) = absurd found
insert-In x (y ∷ ys) z h = elim (Bool-cases (leb x.nsu y.nsu)) [
  | inl e ↦ rw e at h
  | inr e ↦ elim (rw e at h) [
    | inl same ↦ inr (inl same)
    | inr found ↦ elim (insert-In x ys z found) [ inl same ↦ inl same | inr old ↦ inr (inr old) ]
  ]
]

In-insert : (x : Item) (ys : List Item) (z : Item) → (z ≡ x) ⊎ In z ys → In z (insert x ys)
unfolding insert
In-insert x [] z h = h
In-insert x (y ∷ ys) z h = elim (Bool-cases (leb x.nsu y.nsu)) [
  | inl e ↦ rw e h
  | inr e ↦ rw e (elim h [
    | inl same ↦ inr (In-insert x ys z (inl same))
    | inr q ↦ elim q [ inl same ↦ inl same | inr old ↦ inr (In-insert x ys z (inr old)) ]
  ])
]

All-le :
    (n m : ℕ) (ys : List Item)
    → n ≤ m
    → All (λ (y : Item). m ≤ y.nsu) ys
    → All (λ (y : Item). n ≤ y.nsu) ys
All-le n m [] h k = tt
All-le n m (y ∷ ys) h (k, rest) = (omega (arith, h, k), All-le n m ys h rest)

All-insert :
    (n : ℕ) (x : Item) (ys : List Item)
    → n ≤ x.nsu
    → All (λ (y : Item). n ≤ y.nsu) ys
    → All (λ (y : Item). n ≤ y.nsu) (insert x ys)
unfolding insert
All-insert n x [] h k = (h, tt)
All-insert n x (y ∷ ys) h (k, rest) = elim (Bool-cases (leb x.nsu y.nsu)) [
  | inl e ↦ rw e (h, (k, rest))
  | inr e ↦ rw e (k, All-insert n x ys h rest)
]

insert-Sorted : (x : Item) (ys : List Item) → Sorted ys → Sorted (insert x ys)
unfolding insert
insert-Sorted x [] h = (tt, tt)
insert-Sorted x (y ∷ ys) (k, rest) = elim (Bool-cases (leb x.nsu y.nsu)) [
  | inl e ↦
      let le : x.nsu ≤ y.nsu = ground (arith, e) in
      rw e ((le, All-le x.nsu y.nsu ys le k), (k, rest))
  | inr e ↦ rw e (All-insert y.nsu x ys (ground (arith, e)) k, insert-Sorted x ys rest)
]

sort_by_nsu-Sorted : (xs : List Item) → Sorted (sort_by_nsu xs)
unfolding sort_by_nsu
sort_by_nsu-Sorted [] = tt
sort_by_nsu-Sorted (x ∷ xs) = insert-Sorted x (sort_by_nsu xs) (sort_by_nsu-Sorted xs)

sort_by_nsu-In : (xs : List Item) (z : Item) → In z (sort_by_nsu xs) ↔ In z xs
unfolding sort_by_nsu
sort_by_nsu-In [] z = (λ h. h, λ h. h)
sort_by_nsu-In (x ∷ xs) z =
    let ih = sort_by_nsu-In xs z in
    (
      λ h. elim (insert-In x (sort_by_nsu xs) z h) [
        | inl same ↦ inl same
        | inr found ↦ inr (ih.0 found)
      ],
      λ h.
          In-insert x (sort_by_nsu xs) z
            (elim h [ inl same ↦ inl same | inr found ↦ inr (ih.1 found) ]),
    )

-- What a batch of the ADN is, whatever the order of the answer.
pub record IsInOrder (docs : List Item) (cursor : ℕ) (batch : Batch) : Type 0 where
  pub sorted : Sorted batch.items
  pub same : (x : Item) → In x batch.items ↔ In x docs
  pub forward : cursor ≤ batch.next_cursor
  pub within : (x : Item) → In x batch.items → x.nsu ≤ batch.next_cursor
  pub ends : (batch.done ≡ true) ↔ (docs ≡ [])

done-empty : (docs : List Item) → (no_items docs ≡ true) ↔ (docs ≡ [])
done-empty [] = (λ h. refl, λ h. refl)
done-empty (x ∷ xs) = (λ h. absurd (cc), λ h. absurd (cc))

-- The NFS-e batch holds the documents of the answer in the order of their NSUs, its next cursor passes all
-- of them and never goes back, and only an empty answer ends the run.
pub nfse_batch-IsInOrder :
    (resp : AdnResponse) (cursor : ℕ) → IsInOrder resp.docs cursor (nfse_batch resp cursor)
unfolding nfse_batch
nfse_batch-IsInOrder resp cursor =
    let (grows, covers) = last_of-within cursor resp.docs in
    record {
      sorted = sort_by_nsu-Sorted resp.docs;
      same = sort_by_nsu-In resp.docs;
      forward = grows;
      within = λ x found. covers x ((sort_by_nsu-In resp.docs x).0 found);
      ends = done-empty resp.docs;
    }

-- A source that has said to wait until a time cannot be queried before it, and can be from then on.
pub record_wait-Blocks :
    {S : Type 0} (env : Env S) (source : SyncSource) (batch : Batch) (until now : ℕ) (s : Run S)
    → batch.wait_until ≡ some until
    → env.fault s.tick ≡ none
    → let after = (record_wait env batch s).1.db.source in
      check_blocked source after now [] ≡ (
        if ltb now until
        then some (record { source = source; until = until; reason = batch.stop_reason })
        else none)
unfolding record_wait set_blocked_until check_blocked
record_wait-Blocks env source batch until now s waits works = elim (Bool-cases (ltb now until)) [
  | inl e ↦ rw (waits, works, e) refl
  | inr e ↦ rw (waits, works, e) refl
]

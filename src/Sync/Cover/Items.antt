-- ===== src/Sync/Cover/Items.antt =====
-- Processing the items of a batch keeps the cursors covered.
use nanci.Prelude.{
  ℕ, ◌≤◌, ◌<◌, ◌≡◌, refl, ap, ◌⊎◌, inl, inr, Bool, true, List, [], ◌∷◌, Option, none, some, arith,
  leb, All, Bool-cases, In,
}
use nanci.Sync.Error.{Err, is_processing}
use nanci.Sync.Types.{Item, ItemOutcome, Progress, Runtime}
use nanci.Sync.Env.{Env, Run, Result, ok, fail, Action, with_rt, continue}
use nanci.Sync.Store.Commit.{cursor_of, moved}
use nanci.Sync.Item.{settle, process_item, count_error}
use nanci.Sync.Item.Source.{Sourced, refused, uncommitted}
use nanci.Sync.Item.Effect.{Processed, settled, given_up, stopped, process_item-Processed}
use nanci.Sync.Batch.{process_items, skip_stale}
use nanci.Sync.Cover.{Ascending, unwritable, IsFeed, Handled, Covers, Covered, IsCovered}

last-settle :
    (item : Item) (o : ItemOutcome) (rt : Runtime)
    → (settle item o rt).last_processed_nsu ≡ item.nsu
unfolding settle
last-settle item o rt = refl

same_last :
    {a b : Runtime} → (b ≡ a) ⊎ (b ≡ count_error a) → b.last_processed_nsu ≡ a.last_processed_nsu
same_last (inl e) = ap (λ (x : Runtime). x.last_processed_nsu) e
same_last (inr e) = ap (λ (x : Runtime). x.last_processed_nsu) e

module _ {S : Type 0} (env : Env S) (Feed : Item → Type 0) (Seen : S → Item → Type 0)
    (feed : IsFeed env Feed Seen) where
  keep :
      {c d : S}
      → ((x : Item) → Seen c x → Seen d x)
      → (x : Item) → Handled env Feed Seen c x
      → Handled env Feed Seen d x
  keep grows x (inl seen) = inl (grows x seen)
  keep grows x (inr bad) = inr bad

  Sourced-Handled :
      (item : Item) {p : Progress} (s : Run S) {e : Err} {u : Run S}
      → Sourced env item p s (fail e) u
      → is_processing e ≡ true
      → Handled env Feed Seen (env.prepare s.tick s.rt.source item s.db.content).1 item
  Sourced-Handled item s (refused {e = e} prepares db rt) bad =
      inl (feed.refuses s.tick s.rt.source item s.db.content e prepares bad)
  Sourced-Handled item s (uncommitted {d = d} write prepares (inl (n, cause)) db rt) bad =
      unfold is_processing in cc (feed.plain_fault n d cause)
  Sourced-Handled item s (uncommitted {d = d} write prepares (inr cause) db rt) bad = inr (
      unwritable s.tick s.rt.source s.db.content write d prepares cause
        (unfold is_processing in bad))

  -- contents grow
  Processed-grows :
      (item : Item) (s : Run S) {r : Result (Unit {0})} {t : Run S}
      → Processed env item s r t
      → (x : Item) → Seen s.db.content x
      → Seen t.db.content x
  Processed-grows item s (settled {o = o} {content = c} write prepares writes content _ _ _ _) x
        seen =
      rw content (
        feed.seen_write s.tick s.rt.source item x s.db.content _ c write o prepares writes
          (feed.seen_prepare s.tick s.rt.source item x s.db.content seen))
  Processed-grows item s (given_up src bad content _ _ _ _) x seen =
      rw content (feed.seen_prepare s.tick s.rt.source item x s.db.content seen)
  Processed-grows item s (stopped content _ _ _ _) x seen =
      rw content (feed.seen_prepare s.tick s.rt.source item x s.db.content seen)

  Processed-handles :
      (item : Item) (s : Run S) {r : Result (Unit {0})} {t : Run S}
      → Processed env item s r t
      → r ≡ ok tt
      → Handled env Feed Seen t.db.content item
  Processed-handles item s (settled {o = o} {content = c} write prepares writes content _ _ _ _) e =
      inl
        (rw content (feed.stores s.tick s.rt.source item s.db.content _ c write o prepares writes))
  Processed-handles item s (given_up src bad content _ _ _ _) e =
      rw content (Sourced-Handled item s src bad)
  Processed-handles item s (stopped content _ _ _ _) e = absurd (cc)

  pub Covered-moved :
      (c : S) (o : Option ℕ) (n : ℕ)
      → Covers env Feed Seen c n
      → Covered env Feed Seen c (moved o n)
  Covered-moved c none n h = tt
  Covered-moved c (some old) n h = h

  Covered-grows :
      {c d : S} (o : Option ℕ)
      → ((x : Item) → Seen c x → Seen d x)
      → Covered env Feed Seen c o
      → Covered env Feed Seen d o
  Covered-grows none grows h = tt
  Covered-grows (some n) grows h = λ x fed le. keep grows x (h x fed le)

  Processed-IsCovered :
      (item : Item) (s : Run S) {r : Result (Unit {0})} {t : Run S}
      → Processed env item s r t
      → IsCovered env Feed Seen s
      → (r ≡ ok tt → Covers env Feed Seen t.db.content item.nsu)
      → IsCovered env Feed Seen t
  Processed-IsCovered item s {t = t}
        (settled write prepares writes content cursor source requests rt) inv reach =
      record {
        in_memory = rw (rt, last-settle) (reach refl);
        persisted = rw cursor (Covered-moved _ (cursor_of s.db.state) _ (reach refl));
      }
  Processed-IsCovered item s (given_up src bad content cursor source requests rt) inv reach =
      record {
        in_memory = rw (rt, last-settle) (reach refl);
        persisted = rw cursor (Covered-moved _ (cursor_of s.db.state) _ (reach refl));
      }
  Processed-IsCovered item s {t = t} (stopped {e = e} content cursor source requests rt) inv reach =
      let grows : (x : Item) → Seen s.db.content x → Seen t.db.content x =
        Processed-grows item s (stopped {e = e} {t = t} content cursor source requests rt) in
      let last = same_last rt in
      let covered : Covers env Feed Seen t.db.content s.rt.last_processed_nsu =
        λ x fed le. keep grows x (inv.in_memory x fed le) in
      record {
        in_memory = rw last covered;
        persisted = elim cursor [
          | inl same ↦ rw same (Covered-grows (cursor_of s.db.state) grows inv.persisted)
          | inr back ↦ rw back (Covered-moved _ (cursor_of s.db.state) _ covered)
        ];
      }

  -- the result of the rest of a batch whose next cursor is `top`
  pub record Reached (top : ℕ) (r : Result Bool) (t : Run S) : Type 0 where
    pub inv : IsCovered env Feed Seen t
    pub all : (any : Bool) → r ≡ ok any → Covers env Feed Seen t.db.content top

  -- what is known before the items that are left
  pub record Ahead (cursor top : ℕ) (items : List Item) (s : Run S) : Type 0 where
    pub inv : IsCovered env Feed Seen s
    pub behind : Covers env Feed Seen s.db.content cursor
    pub left : (x : Item) → Feed x → x.nsu ≤ top → Handled env Feed Seen s.db.content x ⊎ In x items
    pub order : Ascending items
    pub bound : All (λ (x : Item). x.nsu ≤ top) items

  not_later :
      (x y : Item) (items : List Item)
      → All (λ (z : Item). y.nsu < z.nsu) items
      → In x items
      → x.nsu ≤ y.nsu
      → ⊥
  not_later x y [] h at le = at
  not_later x y (z ∷ items) (h, hs) (inl e) le =
      absurd (omega (arith, h, le, ap (λ (i : Item). i.nsu) e))
  not_later x y (z ∷ items) (h, hs) (inr at) le = not_later x y items hs at le

  -- with the head handled, the tail is what is left
  drop_head :
      (cursor top : ℕ) (item : Item) (items : List Item) (s t : Run S)
      → Ahead cursor top (item ∷ items) s
      → ((x : Item) → Seen s.db.content x → Seen t.db.content x)
      → (Feed item → Handled env Feed Seen t.db.content item)
      → IsCovered env Feed Seen t
      → Ahead cursor top items t
  drop_head cursor top item items s t a grows done inv = record {
    inv = inv;
    behind = λ x fed le. keep grows x (a.behind x fed le);
    left = λ x fed le. elim (a.left x fed le) [
      | inl h ↦ inl (keep grows x h)
      | inr (inl e) ↦ inl (rw e (done (rw e at fed)))
      | inr (inr at) ↦ inr at
    ];
    order = a.order.1;
    bound = a.bound.1;
  }

  -- the items up to the head's NSU are handled once the head is
  reach_head :
      (cursor top : ℕ) (item : Item) (items : List Item) (s t : Run S)
      → Ahead cursor top (item ∷ items) s
      → ((x : Item) → Seen s.db.content x → Seen t.db.content x)
      → Handled env Feed Seen t.db.content item
      → Covers env Feed Seen t.db.content item.nsu
  reach_head cursor top item items s t a grows done x fed le =
      elim (a.left x fed (omega (arith, le, a.bound.0))) [
        | inl h ↦ keep grows x h
        | inr (inl e) ↦ rw e done
        | inr (inr at) ↦ absurd (not_later x item items a.order.0 at le)
      ]

  step :
      (cursor top : ℕ) (item : Item) (items : List Item) (s : Run S)
      → Ahead cursor top (item ∷ items) s
      → (later : Action S Bool)
      → ((t : Run S) → Ahead cursor top items t → Reached top (later t).0 (later t).1)
      → (r : Result (Unit {0})) (t : Run S) → Processed env item s r t
      → Reached top (continue r (λ _. later) t).0 (continue r (λ _. later) t).1
  step cursor top item items s a later go (ok u) t done =
      let grows = Processed-grows item s done in
      let handled = Processed-handles item s done refl in
      go t (
        drop_head cursor top item items s t a grows (λ _. handled)
          (Processed-IsCovered item s done a.inv
            (λ _. reach_head cursor top item items s t a grows handled)))
  step cursor top item items s a later go (fail e) t done = record {
    inv = Processed-IsCovered item s done a.inv (λ bad. absurd (cc));
    all = λ any bad. absurd (cc);
  }

  pub process_items-Reached :
      (cursor top : ℕ) (items : List Item) (any : Bool) (s : Run S)
      → Ahead cursor top items s
      → Reached top
          (process_items env cursor items any s).0
          (process_items env cursor items any s).1
  unfolding process_items
  process_items-Reached cursor top [] any s a = record {
    inv = a.inv;
    all = λ any e x fed le. elim (a.left x fed le) [ inl h ↦ h | inr at ↦ absurd at ];
  }
  process_items-Reached cursor top (item ∷ items) any s a =
      elim (Bool-cases (leb item.nsu cursor)) [
        | inl stale ↦
            let t = with_rt s (skip_stale s.rt) in
            rw stale (
              process_items-Reached cursor top items any t (
                drop_head cursor top item items s t a (λ x seen. seen)
                  (λ fed. a.behind item fed (ground arith))
                  (record { in_memory = a.inv.in_memory; persisted = a.inv.persisted })))
        | inr fresh ↦ rw fresh (
            step cursor top item items s a (process_items env cursor items true)
              (process_items-Reached cursor top items true) (process_item env item s).0
              (process_item env item s).1 (process_item-Processed env item s))
      ]

-- ===== src/Events/Bus/Async/Listing.antt =====
-- What the operations on the table of subscriptions do to the entry at one id, and that the ids stay
-- different.
use boardwalk.Common.{
  ℕ, ◌+◌, false, none, some, List, [], ◌∷◌, ◌++◌, ◌==◌, ==_iff, if◌then◌else◌, ◌≡◌, ◌≢◌, refl,
  arith, Bool-cases, Option-cases, inl, inr, find, put, delete, find-put, find-put_self,
  find-delete, nat_eq,
}
use boardwalk.Events.Crates.{Crates}
use boardwalk.Events.Envelope.{EventEnvelope}
use boardwalk.Events.Bus.Mpsc.{Channels}
use boardwalk.Events.Bus.Offer.{SubscriptionId, Subscription}
use boardwalk.Events.Bus.Fanout.{Subs, remove_one, remove_all}
use boardwalk.Events.Bus.Survivors.{NotIn, HasDistinctIds}
use boardwalk.Events.Bus.Async.{Match, snapshot, change}

-- How often an id is listed.
abbrev pub count_id : SubscriptionId → List SubscriptionId → ℕ
count_id j [] = 0
count_id j (i ∷ ids) = (if i == j then 1 else 0) + count_id j ids

abbrev pub count_matches : SubscriptionId → List Match → ℕ
count_matches j [] = 0
count_matches j (m ∷ ms) = (if m.id == j then 1 else 0) + count_matches j ms

pub count_id-append :
    (j : SubscriptionId) (xs ys : List SubscriptionId)
    → count_id j (xs ++ ys) ≡ count_id j xs + count_id j ys
count_id-append j [] ys = omega arith
count_id-append j (x ∷ xs) ys = omega (arith, count_id-append j xs ys)

module _ (crates : Crates) (channels : Channels crates) where
  pub find-change_self :
      (id : SubscriptionId) (f : Subscription crates channels → Subscription crates channels)
      (subs : Subs crates channels)
      → find id (change crates channels id f subs)
        ≡ elim (find id subs) [ none ↦ none | some sub ↦ some (f sub) ]
  unfolding change
  find-change_self id f subs = elim (Option-cases (find id subs)) [
    | inl miss ↦ rw (miss, change) miss
    | inr (sub, hit) ↦ rw (hit, change) (find-put_self id (f sub) subs)
  ]

  pub find-change_other :
      (j id : SubscriptionId) (f : Subscription crates channels → Subscription crates channels)
      (subs : Subs crates channels)
      → (id == j) ≡ false
      → find j (change crates channels id f subs) ≡ find j subs
  unfolding change
  find-change_other j id f subs ne = elim (Option-cases (find id subs)) [
    | inl miss ↦ rw (miss, change) refl
    | inr (sub, hit) ↦ rw (hit, change) (rw ne at (find-put j id (f sub) subs))
  ]

  pub find-removed :
      (j id : SubscriptionId) (subs detached : Subs crates channels)
      → find j (remove_one crates channels id subs detached).0
        ≡ (if id == j then none else find j subs)
  unfolding remove_one
  find-removed j id subs detached = ground (arith, find-delete j id subs, ==_iff id j)

  -- The ids stay different.
  pub NotIn-put :
      (j id : SubscriptionId) (v : Subscription crates channels) (m : Subs crates channels)
      → id ≢ j
      → NotIn crates channels j m
      → NotIn crates channels j (put id v m)
  unfolding put
  NotIn-put j id v [] ne h = (ne, tt)
  NotIn-put j id v ((k, w) ∷ m) ne (a, h) = elim (Bool-cases (k == id)) [
    | inl same ↦ rw same (a, h)
    | inr other ↦ rw other (a, NotIn-put j id v m ne h)
  ]

  pub put-HasDistinctIds :
      (id : SubscriptionId) (v : Subscription crates channels) (m : Subs crates channels)
      → HasDistinctIds crates channels m
      → HasDistinctIds crates channels (put id v m)
  unfolding put
  put-HasDistinctIds id v [] d = (tt, tt)
  put-HasDistinctIds id v ((k, w) ∷ m) (a, d) = elim (Bool-cases (k == id)) [
    | inl same ↦ rw same (a, d)
    | inr other ↦
        rw other
          (NotIn-put k id v m (λ e. ground (arith, ==_iff k id)) a, put-HasDistinctIds id v m d)
  ]

  NotIn-delete :
      (j id : SubscriptionId) (m : Subs crates channels)
      → NotIn crates channels j m
      → NotIn crates channels j (delete id m)
  unfolding delete
  NotIn-delete j id [] h = tt
  NotIn-delete j id ((k, w) ∷ m) (a, h) = elim (Bool-cases (k == id)) [
    | inl same ↦ rw same (NotIn-delete j id m h)
    | inr other ↦ rw other (a, NotIn-delete j id m h)
  ]

  pub delete-HasDistinctIds :
      (id : SubscriptionId) (m : Subs crates channels)
      → HasDistinctIds crates channels m
      → HasDistinctIds crates channels (delete id m)
  unfolding delete
  delete-HasDistinctIds id [] d = tt
  delete-HasDistinctIds id ((k, w) ∷ m) (a, d) = elim (Bool-cases (k == id)) [
    | inl same ↦ rw same (delete-HasDistinctIds id m d)
    | inr other ↦ rw other (NotIn-delete k id m a, delete-HasDistinctIds id m d)
  ]

  pub change-HasDistinctIds :
      (id : SubscriptionId) (f : Subscription crates channels → Subscription crates channels)
      (subs : Subs crates channels)
      → HasDistinctIds crates channels subs
      → HasDistinctIds crates channels (change crates channels id f subs)
  unfolding change
  change-HasDistinctIds id f subs d = elim (Option-cases (find id subs)) [
    | inl miss ↦ rw (miss, change) d
    | inr (sub, hit) ↦ rw (hit, change) (put-HasDistinctIds id (f sub) subs d)
  ]

  pub removed-HasDistinctIds :
      (id : SubscriptionId) (subs detached : Subs crates channels)
      → HasDistinctIds crates channels subs
      → HasDistinctIds crates channels (remove_one crates channels id subs detached).0
  unfolding remove_one
  removed-HasDistinctIds id subs detached d = elim (Option-cases (find id subs)) [
    | inl miss ↦ rw (miss, remove_one) d
    | inr (sub, hit) ↦ rw (hit, remove_one) (delete-HasDistinctIds id subs d)
  ]

  pub remove_all-HasDistinctIds :
      (ids : List SubscriptionId) (subs detached : Subs crates channels)
      → HasDistinctIds crates channels subs
      → HasDistinctIds crates channels (remove_all crates channels ids subs detached).0
  unfolding remove_all
  remove_all-HasDistinctIds [] subs detached d = d
  remove_all-HasDistinctIds (id ∷ ids) subs detached d =
      let r = remove_one crates channels id subs detached in
      remove_all-HasDistinctIds ids r.0 r.1 (removed-HasDistinctIds id subs detached d)

  NotIn-snapshot :
      (e : EventEnvelope crates) (j : SubscriptionId) (subs : Subs crates channels)
      → NotIn crates channels j subs
      → NotIn crates channels j (snapshot crates channels e subs).0
  unfolding snapshot
  NotIn-snapshot e j [] h = tt
  NotIn-snapshot e j ((id, sub) ∷ subs) (ne, h) = (ne, NotIn-snapshot e j subs h)

  pub snapshot-HasDistinctIds :
      (e : EventEnvelope crates) (subs : Subs crates channels)
      → HasDistinctIds crates channels subs
      → HasDistinctIds crates channels (snapshot crates channels e subs).0
  unfolding snapshot
  snapshot-HasDistinctIds e [] d = tt
  snapshot-HasDistinctIds e ((id, sub) ∷ subs) (n, d) =
      (NotIn-snapshot e id subs n, snapshot-HasDistinctIds e subs d)

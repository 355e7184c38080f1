-- ===== src/Events/Bus/Async/Commit.antt =====
-- The table of subscriptions after a delivery is committed.
use boardwalk.Common.{
  ℕ, suc, ◌+◌, Bool, true, false, ◌&&◌, ◌==◌, ==_iff, Option, none, some, List, if◌then◌else◌, ◌≡◌,
  refl, sym, ◌∙◌, subst, arith, Bool-cases, inl, inr, find, nat_eq,
}
use boardwalk.Events.Crates.{Crates}
use boardwalk.Events.Envelope.{EventEnvelope}
use boardwalk.Events.Bus.Mpsc.{Channels}
use boardwalk.Events.Bus.Offer.{SubscriptionId, Subscription}
use boardwalk.Events.Bus.Fanout.{Subs, remove_one}
use boardwalk.Events.Bus.Survivors.{HasDistinctIds}
use boardwalk.Events.Bus.Claims.{commit_delivery, is_spent}
use boardwalk.Events.Bus.Async.{change, is_spent_at, commit_delivered}
use boardwalk.Events.Bus.Async.Step.{Publish, System}
use boardwalk.Events.Bus.Async.Listing.{
  count_id, find-change_self, find-change_other, find-removed, change-HasDistinctIds,
  removed-HasDistinctIds,
}
use boardwalk.Events.Bus.Async.Slots.{Quota}
use boardwalk.Events.Bus.Async.Totals.{unsent_of, held_of, total, Fits, Quota-cast}
use boardwalk.Events.Bus.Async.Quota.{Inv}

module _ (crates : Crates) (channels : Channels crates) where
  -- A removal under a condition.
  find-removed_if :
      (b : Bool) (j id : SubscriptionId) (subs detached : Subs crates channels)
      → find j (if b then remove_one crates channels id subs detached else (subs, detached)).0
        ≡ (if b && (id == j) then none else find j subs)
  find-removed_if true j id subs detached = find-removed crates channels j id subs detached
  find-removed_if false j id subs detached = refl

  removed_if-HasDistinctIds :
      (b : Bool) (id : SubscriptionId) (subs detached : Subs crates channels)
      → HasDistinctIds crates channels subs
      → HasDistinctIds crates channels
          (if b then remove_one crates channels id subs detached else (subs, detached)).0
  removed_if-HasDistinctIds true id subs detached d =
      removed-HasDistinctIds crates channels id subs detached d
  removed_if-HasDistinctIds false id subs detached d = d

  if-and_true :
      {A : Type 0} (b : Bool) (x y : A) → (if b && true then x else y) ≡ (if b then x else y)
  if-and_true true x y = refl
  if-and_true false x y = refl

  find-spent :
      (f : Subscription crates channels → Subscription crates channels) (id : SubscriptionId)
      (subs : Subs crates channels) (o : Option (Subscription crates channels))
      → find id subs ≡ elim o [ none ↦ none | some sub ↦ some (f sub) ]
      → (if is_spent_at crates channels id subs && (id == id) then none else find id subs)
        ≡ elim o [
          | none ↦ none
          | some sub ↦ if is_spent crates channels (f sub) then none else some (f sub)
        ]
  unfolding is_spent_at
  find-spent f id subs none e = rw (e, is_spent_at) refl
  find-spent f id subs (some sub) e =
      let same : (id == id) ≡ true = (==_iff id id).1 refl in
      rw (e, is_spent_at, same) (if-and_true (is_spent crates channels (f sub)) none (some (f sub)))

  pub find-delivered_self :
      (e : EventEnvelope crates) (id : SubscriptionId) (subs detached : Subs crates channels)
      → find id (commit_delivered crates channels e id (subs, detached)).0 ≡ elim (find id subs) [
        | none ↦ none
        | some sub ↦
            if is_spent crates channels (commit_delivery crates channels e sub)
            then none
            else some (commit_delivery crates channels e sub)
      ]
  unfolding commit_delivered
  find-delivered_self e id subs detached =
      let f = commit_delivery crates channels e in
      let subs' = change crates channels id f subs in
      find-removed_if (is_spent_at crates channels id subs') id id subs' detached
      ∙ find-spent f id subs' (find id subs) (find-change_self crates channels id f subs)

  pub find-delivered_other :
      (e : EventEnvelope crates) (j id : SubscriptionId) (subs detached : Subs crates channels)
      → (id == j) ≡ false
      → find j (commit_delivered crates channels e id (subs, detached)).0 ≡ find j subs
  unfolding commit_delivered
  find-delivered_other e j id subs detached ne =
      let f = commit_delivery crates channels e in
      let subs' = change crates channels id f subs in
      let b = is_spent_at crates channels id subs' in
      find-removed_if b j id subs' detached
      ∙ ground (arith, find-change_other crates channels j id f subs ne)

  pub delivered-HasDistinctIds :
      (e : EventEnvelope crates) (id : SubscriptionId) (subs detached : Subs crates channels)
      → HasDistinctIds crates channels subs
      → HasDistinctIds crates channels (commit_delivered crates channels e id (subs, detached)).0
  unfolding commit_delivered
  delivered-HasDistinctIds e id subs detached d =
      let f = commit_delivery crates channels e in
      let subs' = change crates channels id f subs in
      removed_if-HasDistinctIds (is_spent_at crates channels id subs') id subs' detached
        (change-HasDistinctIds crates channels id f subs d)

  -- A claim of `id` ends: at `j`, the entry and the two totals afterwards. `k` is 1 where the claim
  -- could still be sent to.
  abbrev pub Ends :
      ℕ → ℕ → Option (Subscription crates channels) → Option (Subscription crates channels) → Type 0
  Ends n k before after =
      (d q p : ℕ)
      → Quota crates channels n d (k + q) (suc p) before
      → Quota crates channels n d q p after

  pub end-Inv :
      {j n : ℕ} (s : System crates channels) (p x : Publish crates channels)
      (b : Publish crates channels → List (Publish crates channels)) (id k : ℕ)
      (subs detached : Subs crates channels)
      → Fits crates channels s.publishes (some (p, b))
      → unsent_of crates channels j p ≡ (if id == j then k else 0) + unsent_of crates channels j x
      → held_of crates channels j p ≡ (if id == j then 1 else 0) + held_of crates channels j x
      → HasDistinctIds crates channels subs
      → Ends n k (find id s.bus.subs) (find id subs)
      → ((id == j) ≡ false → find j subs ≡ find j s.bus.subs)
      → Inv crates channels j n s
      → Inv crates channels j n
          (record s { bus = record (s.bus) { subs = subs; detached = detached }; publishes = b x })
  end-Inv {j} {n} s p x b id k subs detached fits un hd distinct self other h =
      let d = count_id j s.sent in
      let moved = fits (unsent_of crates channels j) x in
      let freed = fits (held_of crates channels j) x in
      let q = total crates channels (unsent_of crates channels j) (b x) in
      let r = total crates channels (held_of crates channels j) (b x) in
      let q0 = total crates channels (unsent_of crates channels j) s.publishes in
      let r0 = total crates channels (held_of crates channels j) s.publishes in
      record {
        distinct = distinct;
        earlier = h.earlier;
        quota = elim (Bool-cases (id == j)) [
          | inl same ↦
              let more : q0 ≡ k + q = (let un' = (rw same at un) in omega (arith, un', moved)) in
              let held : r0 ≡ suc r = (let hd' = (rw same at hd) in omega (arith, hd', freed)) in
              subst (λ i. Ends n k (find i s.bus.subs) (find i subs)) ((==_iff id j).0 same) self d
                q r
                (Quota-cast crates channels n d d q0 (k + q) r0 (suc r) (find j s.bus.subs) refl
                  more held h.quota)
          | inr differs ↦
              let same_unsent : q0 ≡ q =
                (let un' = (rw differs at un) in omega (arith, un', moved)) in
              let same_held : r0 ≡ r =
                (let hd' = (rw differs at hd) in omega (arith, hd', freed)) in
              subst (Quota crates channels n d q r) (sym (other differs)) (
                Quota-cast crates channels n d d q0 q r0 r (find j s.bus.subs) refl same_unsent
                  same_held h.quota)
        ];
      }

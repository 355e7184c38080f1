-- ===== src/Events/Bus/Async/Ends.antt =====
-- A step that ends a claim, committed or given back, keeps the quota of every subscription.
use boardwalk.Common.{
  ℕ, suc, ◌+◌, ◌^◌, ◌<◌, Bool, true, false, ◌==◌, ==_iff, none, some, List, [], ◌∷◌, if◌then◌else◌,
  ◌≡◌, refl, sym, ◌∙◌, ap, subst, arith, find, nat_eq,
}
use boardwalk.Events.Crates.{Crates}
use boardwalk.Events.Envelope.{EventEnvelope}
use boardwalk.Events.Bus.Mpsc.{Channels}
use boardwalk.Events.Bus.Offer.{SubscriptionId}
use boardwalk.Events.Bus.Fanout.{Subs, remove_one}
use boardwalk.Events.Bus.Claims.{SendResult, refund}
use boardwalk.Events.Bus.Async.{Match, change, commit_delivered, commit, slow_notice, count_result}
use boardwalk.Events.Bus.Async.Step.{
  Phase, sending, committing, cancelled, Publish, System, commit_with, drop_with, commit_at,
  drop_at,
}
use boardwalk.Events.Bus.Async.Listing.{
  count_matches, find-change_self, find-change_other, find-removed, change-HasDistinctIds,
  removed-HasDistinctIds,
}
use boardwalk.Events.Bus.Async.Slots.{Quota}
use boardwalk.Events.Bus.Async.Totals.{
  unsent, unsent_of, Fits, Quota-cast, Quota-remove, Quota-refund, Quota-delivered,
}
use boardwalk.Events.Bus.Async.Quota.{Inv}
use boardwalk.Events.Bus.Async.Commit.{
  find-delivered_self, find-delivered_other, delivered-HasDistinctIds, Ends, end-Inv,
}

module _ (crates : Crates) (channels : Channels crates) where
  if_zero : (b : Bool) (n : ℕ) → n ≡ (if b then 0 else 0) + n
  if_zero true n = omega arith
  if_zero false n = omega arith

  Ends-delivered :
      (n : ℕ) (e : EventEnvelope crates) (id : SubscriptionId)
      (subs detached : Subs crates channels)
      → Ends crates channels n 0
          (find id subs)
          (find id (commit_delivered crates channels e id (subs, detached)).0)
  Ends-delivered n e id subs detached = λ d q p h.
      subst (Quota crates channels n d q p)
        (sym (find-delivered_self crates channels e id subs detached))
        (Quota-delivered crates channels n d q p e (find id subs) (
          Quota-cast crates channels n d d (0 + q) q (suc p) (suc p) (find id subs) refl
            (omega arith) refl h))

  Ends-refund :
      (n : ℕ) (id : SubscriptionId) (subs : Subs crates channels)
      → n < 2 ^ 64
      → Ends crates channels n 1
          (find id subs)
          (find id (change crates channels id (refund crates channels) subs))
  Ends-refund n id subs small = λ d q p h.
      subst (Quota crates channels n d q p)
        (sym (find-change_self crates channels id (refund crates channels) subs))
        (Quota-refund crates channels n d q p (find id subs) small (
          Quota-cast crates channels n d d (1 + q) (suc q) (suc p) (suc p) (find id subs) refl
            (omega arith) refl h))

  Ends-removed :
      (n : ℕ) (id : SubscriptionId) (subs detached : Subs crates channels)
      → Ends crates channels n 1
          (find id subs)
          (find id (remove_one crates channels id subs detached).0)
  Ends-removed n id subs detached = λ d q p h.
      let same : (id == id) ≡ true = (==_iff id id).1 refl in
      subst (Quota crates channels n d q p) {x = none}
        (sym (find-removed crates channels id id subs detached ∙ rw same refl))
        (Quota-remove crates channels n d q p (find id subs) (
          Quota-cast crates channels n d d (1 + q) (suc q) (suc p) (suc p) (find id subs) refl
            (omega arith) refl h))

  find-removed_other :
      (j id : SubscriptionId) (subs detached : Subs crates channels)
      → (id == j) ≡ false
      → find j (remove_one crates channels id subs detached).0 ≡ find j subs
  find-removed_other j id subs detached ne =
      find-removed crates channels j id subs detached ∙ rw ne refl

  removed-Inv :
      {j n : ℕ} (s : System crates channels) (p : Publish crates channels)
      (b : Publish crates channels → List (Publish crates channels)) (m : Match) (ms : List Match)
      (result : SendResult)
      → unsent_of crates channels j p ≡ (if m.id == j then 1 else 0) + count_matches j ms
      → p.matches ≡ m ∷ ms
      → Fits crates channels s.publishes (some (p, b))
      → Inv crates channels j n s
      → Inv crates channels j n (record s {
        bus = record (s.bus) {
          subs = (remove_one crates channels m.id s.bus.subs s.bus.detached).0;
          detached = (remove_one crates channels m.id s.bus.subs s.bus.detached).1;
        };
        publishes = b (record p {
          matches = ms;
          tally =
              count_result crates channels m.id result
                (slow_notice crates channels m.id s.bus.subs)
                p.tally;
          phase = sending;
        });
      })
  removed-Inv {j} {n} s p b m ms result un k fits h =
      end-Inv crates channels s p
        (record p {
          matches = ms;
          tally =
              count_result crates channels m.id result (slow_notice crates channels m.id s.bus.subs)
                p.tally;
          phase = sending;
        })
        b m.id 1 (remove_one crates channels m.id s.bus.subs s.bus.detached).0
        (remove_one crates channels m.id s.bus.subs s.bus.detached).1 fits un
        (ap (count_matches j) k)
        (removed-HasDistinctIds crates channels m.id s.bus.subs s.bus.detached h.distinct)
        (Ends-removed n m.id s.bus.subs s.bus.detached)
        (find-removed_other j m.id s.bus.subs s.bus.detached) h

  commit_with-Inv :
      {j n : ℕ} (s : System crates channels) (p : Publish crates channels)
      (b : Publish crates channels → List (Publish crates channels)) (ms : List Match)
      (result : SendResult)
      → n < 2 ^ 64
      → p.phase ≡ committing result
      → p.matches ≡ ms
      → Fits crates channels s.publishes (some (p, b))
      → Inv crates channels j n s
      → Inv crates channels j n (commit_with crates channels b p ms result s)
  unfolding commit_with commit
  commit_with-Inv s p b [] result small e k fits h = h
  commit_with-Inv {j} {n} s p b (m ∷ ms) SendResult.delivered small e k fits h =
      end-Inv crates channels s p
        (record p {
          matches = ms;
          tally =
              count_result crates channels m.id SendResult.delivered
                (slow_notice crates channels m.id s.bus.subs) p.tally;
          phase = sending;
        })
        b m.id 0 (commit_delivered crates channels p.envelope m.id (s.bus.subs, s.bus.detached)).0
        (commit_delivered crates channels p.envelope m.id (s.bus.subs, s.bus.detached)).1 fits
        (ap (λ a. unsent crates channels j a p.matches) e
          ∙ ap (unsent crates channels j (committing SendResult.delivered)) k
          ∙ if_zero (m.id == j) (count_matches j ms))
        (ap (count_matches j) k)
        (delivered-HasDistinctIds crates channels p.envelope m.id s.bus.subs s.bus.detached
          h.distinct)
        (Ends-delivered n p.envelope m.id s.bus.subs s.bus.detached)
        (find-delivered_other crates channels p.envelope j m.id s.bus.subs s.bus.detached) h
  commit_with-Inv {j} {n} s p b (m ∷ ms) SendResult.dropped small e k fits h =
      end-Inv crates channels s p
        (record p {
          matches = ms;
          tally =
              count_result crates channels m.id SendResult.dropped
                (slow_notice crates channels m.id s.bus.subs) p.tally;
          phase = sending;
        })
        b m.id 1 (change crates channels m.id (refund crates channels) s.bus.subs) s.bus.detached
        fits (ap (λ a. unsent crates channels j a p.matches) e ∙ ap (count_matches j) k)
        (ap (count_matches j) k)
        (change-HasDistinctIds crates channels m.id (refund crates channels) s.bus.subs h.distinct)
        (Ends-refund n m.id s.bus.subs small)
        (find-change_other crates channels j m.id (refund crates channels) s.bus.subs) h
  commit_with-Inv {j} {n} s p b (m ∷ ms) SendResult.disconnect_slow_consumer small e k fits h =
      removed-Inv s p b m ms SendResult.disconnect_slow_consumer
        (ap (λ a. unsent crates channels j a p.matches) e ∙ ap (count_matches j) k) k fits h
  commit_with-Inv {j} {n} s p b (m ∷ ms) SendResult.closed small e k fits h =
      removed-Inv s p b m ms SendResult.closed
        (ap (λ a. unsent crates channels j a p.matches) e ∙ ap (count_matches j) k) k fits h

  pub commit_at-Inv :
      {j n : ℕ} (s : System crates channels) (p : Publish crates channels)
      (b : Publish crates channels → List (Publish crates channels)) (phase : Phase)
      → n < 2 ^ 64
      → p.phase ≡ phase
      → Fits crates channels s.publishes (some (p, b))
      → Inv crates channels j n s
      → Inv crates channels j n (commit_at crates channels phase b p s)
  unfolding commit_at
  commit_at-Inv s p b sending small e fits h = h
  commit_at-Inv s p b (committing result) small e fits h =
      commit_with-Inv s p b p.matches result small e refl fits h
  commit_at-Inv s p b cancelled small e fits h = h

  drop_with-Inv :
      {j n : ℕ} (s : System crates channels) (p : Publish crates channels)
      (b : Publish crates channels → List (Publish crates channels)) (ms : List Match)
      → n < 2 ^ 64
      → p.phase ≡ cancelled
      → p.matches ≡ ms
      → Fits crates channels s.publishes (some (p, b))
      → Inv crates channels j n s
      → Inv crates channels j n (drop_with crates channels b p ms s)
  unfolding drop_with
  drop_with-Inv s p b [] small e k fits h = h
  drop_with-Inv {j} {n} s p b (m ∷ ms) small e k fits h =
      let x : Publish crates channels = record p { matches = ms } in
      end-Inv crates channels s p x b m.id 1
        (change crates channels m.id (refund crates channels) s.bus.subs) s.bus.detached fits
        (ap (λ a. unsent crates channels j a p.matches) e
          ∙ ap (count_matches j) k
          ∙ ap (λ c. (if m.id == j then 1 else 0) + c)
              (sym (ap (λ a. unsent crates channels j a ms) e)))
        (ap (count_matches j) k)
        (change-HasDistinctIds crates channels m.id (refund crates channels) s.bus.subs h.distinct)
        (Ends-refund n m.id s.bus.subs small)
        (find-change_other crates channels j m.id (refund crates channels) s.bus.subs) h

  pub drop_at-Inv :
      {j n : ℕ} (s : System crates channels) (p : Publish crates channels)
      (b : Publish crates channels → List (Publish crates channels)) (phase : Phase)
      → n < 2 ^ 64
      → p.phase ≡ phase
      → Fits crates channels s.publishes (some (p, b))
      → Inv crates channels j n s
      → Inv crates channels j n (drop_at crates channels phase b p s)
  unfolding drop_at
  drop_at-Inv s p b sending small e fits h = h
  drop_at-Inv s p b (committing result) small e fits h = h
  drop_at-Inv s p b cancelled small e fits h = drop_with-Inv s p b p.matches small e refl fits h

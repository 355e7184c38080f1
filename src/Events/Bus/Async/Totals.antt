-- ===== src/Events/Bus/Async/Totals.antt =====
-- The claims that the publishes under way hold, in total, and what a claim that ends does to a quota.
use boardwalk.Common.{
  ℕ, zero, suc, ◌+◌, ◌^◌, ◌<◌, Option, none, some, List, [], ◌∷◌, if◌then◌else◌, ◌≡◌, subst, arith,
  nat_eq,
}
use boardwalk.Events.Crates.{Crates}
use boardwalk.Events.Envelope.{EventEnvelope}
use boardwalk.Events.Bus.Mpsc.{Channels}
use boardwalk.Events.Bus.Offer.{SubscriptionId, Subscription, Outcome}
use boardwalk.Events.Bus.Claims.{
  SendResult, Claim, inline, claimed, commit_delivery, is_spent, refund,
}
use boardwalk.Events.Bus.Async.{Match}
use boardwalk.Events.Bus.Async.Step.{Phase, sending, committing, cancelled, Publish, pick}
use boardwalk.Events.Bus.Async.Listing.{count_matches}
use boardwalk.Events.Bus.Async.Snapped.{drops, sends_one, claims_one}
use boardwalk.Events.Bus.Async.Slots.{
  Slots, Quota, Quota-le, Claims, Quota-commit_delivery, Slots-refund,
}

module _ (crates : Crates) (channels : Channels crates) where
  -- The matches of a publish that it may still send to, and those that it has not committed.
  abbrev pub unsent : SubscriptionId → Phase → List Match → ℕ
  unsent j (committing SendResult.delivered) [] = 0
  unsent j (committing SendResult.delivered) (m ∷ ms) = count_matches j ms
  unsent j (committing SendResult.dropped) ms = count_matches j ms
  unsent j (committing SendResult.disconnect_slow_consumer) ms = count_matches j ms
  unsent j (committing SendResult.closed) ms = count_matches j ms
  unsent j sending ms = count_matches j ms
  unsent j cancelled ms = count_matches j ms

  abbrev pub unsent_of : SubscriptionId → Publish crates channels → ℕ
  unsent_of j p = unsent j p.phase p.matches

  abbrev pub held_of : SubscriptionId → Publish crates channels → ℕ
  held_of j p = count_matches j p.matches

  abbrev pub total : (Publish crates channels → ℕ) → List (Publish crates channels) → ℕ
  total w [] = 0
  total w (p ∷ ps) = w p + total w ps

  -- Putting another publish in the place of one changes a total by the difference of the two.
  abbrev pub Fits :
      List (Publish crates channels)
      → Option
          (Publish crates channels × (Publish crates channels → List (Publish crates channels)))
      → Type 0
  Fits ps none = Unit
  Fits ps (some (p, put_back)) =
      (w : Publish crates channels → ℕ) (x : Publish crates channels)
      → total w (put_back x) + w p ≡ total w ps + w x

  pub Fits-next :
      (q : Publish crates channels) (ps : List (Publish crates channels))
      (o : Option
        (Publish crates channels × (Publish crates channels → List (Publish crates channels))))
      → Fits ps o
      → Fits (q ∷ ps) (elim o [ none ↦ none | some (p, put_back) ↦ some (p, λ x. q ∷ put_back x) ])
  Fits-next q ps none h = tt
  Fits-next q ps (some (p, put_back)) h = λ w x. omega (arith, h w x)

  pub pick-Fits :
      (i : ℕ) (ps : List (Publish crates channels)) → Fits ps (pick crates channels i ps)
  unfolding pick
  pick-Fits i [] = tt
  pick-Fits zero (q ∷ ps) = λ w x. omega arith
  pick-Fits (suc i) (q ∷ ps) = Fits-next q ps (pick crates channels i ps) (pick-Fits i ps)

  pub Quota-cast :
      (n d e q r p s : ℕ) (o : Option (Subscription crates channels))
      → d ≡ e
      → q ≡ r
      → p ≡ s
      → Quota crates channels n d q p o
      → Quota crates channels n e r s o
  Quota-cast n d e q r p s o a b c h =
      subst (λ k. Quota crates channels n e r k o) c
        (subst (λ k. Quota crates channels n e k p o) b
          (subst (λ k. Quota crates channels n k q p o) a h))

  pub Quota-sent :
      (n d q p : ℕ) (o : Option (Subscription crates channels))
      → Quota crates channels n d (suc q) p o
      → Quota crates channels n (suc d) q p o
  Quota-sent n d q p none h = omega arith
  Quota-sent n d q p (some sub) h = record {
    rem = h.rem;
    left = h.left;
    pending = h.pending;
    total = omega (arith, h.total);
    live = h.live;
    claims = omega (arith, h.claims);
    kind = h.kind;
  }

  pub Quota-zero :
      (n d q p : ℕ) (sub : Subscription crates channels)
      → Slots crates channels n d q p sub
      → Slots crates channels n (0 + d) (0 + q) (0 + p) sub
  Quota-zero n d q p sub h =
      Quota-cast n d (0 + d) q (0 + q) p (0 + p) (some sub) (omega arith) (omega arith)
        (omega arith) h

  pub Quota-Claims :
      (n d q p : ℕ) (sub : Subscription crates channels) (c : Claim crates channels)
      → Claims crates channels n d q p (sub, c)
      → Quota crates channels n
          (sends_one crates channels c + d)
          (claims_one crates channels c + q)
          (claims_one crates channels c + p)
          (if drops crates channels c then none else some sub)
  Quota-Claims n d q p sub claimed h =
      Quota-cast n d (0 + d) (suc q) (1 + q) (suc p) (1 + p) (some sub) (omega arith) (omega arith)
        (omega arith) h
  Quota-Claims n d q p sub (inline Outcome.delivered) h =
      Quota-cast n (suc d) (1 + d) q (0 + q) p (0 + p) (some sub) (omega arith) (omega arith)
        (omega arith) h
  Quota-Claims n d q p sub (inline Outcome.last_delivery) h = omega arith
  Quota-Claims n d q p sub (inline (Outcome.slow x)) h = omega arith
  Quota-Claims n d q p sub (inline Outcome.gone) h = omega arith
  Quota-Claims n d q p sub (inline Outcome.skipped) h = Quota-zero n d q p sub h
  Quota-Claims n d q p sub (inline Outcome.overwritten) h = Quota-zero n d q p sub h
  Quota-Claims n d q p sub (inline Outcome.overflowed) h = Quota-zero n d q p sub h
  Quota-Claims n d q p sub (inline Outcome.unreachable) h = Quota-zero n d q p sub h

  -- What the end of one claim of `j` does: the entry at `j`, the numbers before and after it.
  pub Quota-remove :
      (n d q p : ℕ) (o : Option (Subscription crates channels))
      → Quota crates channels n d (suc q) (suc p) o
      → Quota crates channels n d q p none
  Quota-remove n d q p o h =
      let le = Quota-le crates channels n d (suc q) (suc p) o h in omega arith

  pub Quota-refund :
      (n d q p : ℕ) (o : Option (Subscription crates channels))
      → n < 2 ^ 64
      → Quota crates channels n d (suc q) (suc p) o
      → Quota crates channels n d q p
          (elim o [ none ↦ none | some sub ↦ some (refund crates channels sub) ])
  Quota-refund n d q p none small h = omega arith
  Quota-refund n d q p (some sub) small h = Slots-refund crates channels n d q p sub small h

  pub Quota-delivered :
      (n d q p : ℕ) (e : EventEnvelope crates) (o : Option (Subscription crates channels))
      → Quota crates channels n d q (suc p) o
      → Quota crates channels n d q p (elim o [
        | none ↦ none
        | some sub ↦
            if is_spent crates channels (commit_delivery crates channels e sub)
            then none
            else some (commit_delivery crates channels e sub)
      ])
  Quota-delivered n d q p e none h = h
  Quota-delivered n d q p e (some sub) h = Quota-commit_delivery crates channels n d q p e sub h

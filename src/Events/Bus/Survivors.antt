-- ===== src/Events/Bus/Survivors.antt =====
-- Which subscriptions a publish leaves, and in what state.
use boardwalk.Common.{
  Bool, true, false, ◌&&◌, ◌==◌, ==_iff, Option, none, some, List, [], ◌∷◌, All, if◌then◌else◌, ◌≡◌,
  ◌≢◌, refl, ◌∙◌, subst, arith, Bool-cases, inl, inr, find, find-delete, nat_eq,
}
use boardwalk.Events.Crates.{Crates}
use boardwalk.Events.Envelope.{EventEnvelope}
use boardwalk.Events.Bus.Mpsc.{Channels}
use boardwalk.Events.Bus.Offer.{SubscriptionId, Subscription, Outcome, offer}
use boardwalk.Events.Bus.Fanout.{Tally, Subs, note, fan_out, remove_one, remove_all}

-- `id` is one of the ids.
abbrev pub is_in : SubscriptionId → List SubscriptionId → Bool
is_in id [] = false
is_in id (j ∷ ids) = if j == id then true else is_in id ids

module _ (crates : Crates) (channels : Channels crates) where
  -- The outcomes after which the loop removes the subscription.
  abbrev pub removes : Outcome crates channels → Bool
  removes Outcome.last_delivery = true
  removes (Outcome.slow n) = true
  removes Outcome.gone = true
  removes _ = false

  abbrev pub NotIn : SubscriptionId → Subs crates channels → Type 0
  NotIn id subs = All (λ p. p.0 ≢ id) subs

  abbrev pub HasDistinctIds : Subs crates channels → Type 0
  HasDistinctIds [] = Unit
  HasDistinctIds (p ∷ subs) = NotIn p.0 subs × HasDistinctIds subs

  -- What a subscription is after it was offered an envelope, `none` if it is removed.
  unfoldable pub after_offer :
      EventEnvelope crates → Subscription crates channels → Option (Subscription crates channels)
  after_offer envelope sub =
      if removes (offer crates channels envelope sub).1
      then none
      else some (offer crates channels envelope sub).0

  pub is_in-note :
      (id j : SubscriptionId) (o : Outcome crates channels) (t : Tally)
      → is_in j (note crates channels id o t).to_remove
        ≡ (if id == j && removes o then true else is_in j t.to_remove)
  unfolding note
  is_in-note id j Outcome.skipped t = ground arith
  is_in-note id j Outcome.delivered t = ground arith
  is_in-note id j Outcome.last_delivery t = ground arith
  is_in-note id j Outcome.overwritten t = ground arith
  is_in-note id j Outcome.overflowed t = ground arith
  is_in-note id j (Outcome.slow none) t = ground arith
  is_in-note id j (Outcome.slow (some n)) t = ground arith
  is_in-note id j Outcome.gone t = ground arith
  is_in-note id j Outcome.unreachable t = ground arith

  find-remove_one :
      (id : SubscriptionId) (subs detached : Subs crates channels) (j : SubscriptionId) (b : Bool)
      → (if b then none else find j (remove_one crates channels id subs detached).0)
        ≡ (if (if id == j then true else b) then none else find j subs)
  unfolding remove_one
  find-remove_one id subs detached j b = ground (arith, find-delete j id subs, ==_iff id j)

  pub find-remove_all :
      (ids : List SubscriptionId) (subs detached : Subs crates channels) (j : SubscriptionId)
      → find j (remove_all crates channels ids subs detached).0
        ≡ (if is_in j ids then none else find j subs)
  unfolding remove_all
  find-remove_all [] subs detached j = refl
  find-remove_all (id ∷ ids) subs detached j =
      let r = remove_one crates channels id subs detached in
      find-remove_all ids r.0 r.1 j ∙ find-remove_one id subs detached j (is_in j ids)

  NotIn-to_remove :
      (envelope : EventEnvelope crates) (subs : Subs crates channels) (j : SubscriptionId)
      → NotIn j subs
      → is_in j (fan_out crates channels envelope subs).1.to_remove ≡ false
  unfolding fan_out
  NotIn-to_remove envelope [] j h = refl
  NotIn-to_remove envelope ((id, sub) ∷ subs) j (ne, h) = ground (
    arith,
    is_in-note id j (offer crates channels envelope sub).1
        (fan_out crates channels envelope subs).1,
    NotIn-to_remove envelope subs j h,
  )

  removed_or_kept :
      (b : Bool) (sub : Subscription crates channels)
      → ◌≡◌ {A = Option (Subscription crates channels)}
          (if (if b then true else false) then none else some sub)
          (if b then none else some sub)
  removed_or_kept true sub = refl
  removed_or_kept false sub = refl

  -- What the loop leaves of a subscription, removals included.
  pub find-fan_out :
      (envelope : EventEnvelope crates) (subs : Subs crates channels) (j : SubscriptionId)
      → HasDistinctIds subs
      → (if is_in j (fan_out crates channels envelope subs).1.to_remove
          then none
          else find j (fan_out crates channels envelope subs).0)
        ≡ elim (find j subs) [ none ↦ none | some sub ↦ after_offer envelope sub ]
  unfolding fan_out find after_offer
  find-fan_out envelope [] j d = refl
  find-fan_out envelope ((id, sub) ∷ subs) j (notin, d) = elim (Bool-cases (id == j)) [
    | inl same ↦
        let eq : id ≡ j = (==_iff id j).0 same in
        let absent = NotIn-to_remove envelope subs j (subst (λ k. NotIn k subs) eq notin) in
        rw
          (
            is_in-note id j (offer crates channels envelope sub).1
                (fan_out crates channels envelope subs).1,
            same,
            absent,
          )
          (removed_or_kept (removes (offer crates channels envelope sub).1)
            (offer crates channels envelope sub).0)
    | inr other ↦
        rw
          (
            is_in-note id j (offer crates channels envelope sub).1
                (fan_out crates channels envelope subs).1,
            other,
          )
          (find-fan_out envelope subs j d)
  ]

  NotIn-fan_out :
      (envelope : EventEnvelope crates) (subs : Subs crates channels) (j : SubscriptionId)
      → NotIn j subs
      → NotIn j (fan_out crates channels envelope subs).0
  unfolding fan_out
  NotIn-fan_out envelope [] j h = tt
  NotIn-fan_out envelope ((id, sub) ∷ subs) j (ne, h) = (ne, NotIn-fan_out envelope subs j h)

  fan_out-HasDistinctIds :
      (envelope : EventEnvelope crates) (subs : Subs crates channels)
      → HasDistinctIds subs
      → HasDistinctIds (fan_out crates channels envelope subs).0
  unfolding fan_out
  fan_out-HasDistinctIds envelope [] h = tt
  fan_out-HasDistinctIds envelope ((id, sub) ∷ subs) (n, h) =
      (NotIn-fan_out envelope subs id n, fan_out-HasDistinctIds envelope subs h)

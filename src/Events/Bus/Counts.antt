-- ===== src/Events/Bus/Counts.antt =====
-- The counters of a publish account for every subscription that the envelope is addressed to.
use boardwalk.Common.{
  ℕ, ◌+◌, Bool, true, false, not, ◌&&◌, none, some, [], ◌∷◌, length, All, if◌then◌else◌, ◌≡◌, refl,
  arith, Bool-cases, inl, inr,
}
use boardwalk.Events.Crates.{Crates}
use boardwalk.Events.Envelope.{EventEnvelope}
use boardwalk.Events.Policy.{SlowConsumerPolicy, disconnect, backpressure, drop_newest, coalesce}
use boardwalk.Events.Coalesce.{CoalesceState, push}
use boardwalk.Events.Bus.Mpsc.{Channels, TrySend, sent, full, closed}
use boardwalk.Events.Bus.Offer.{
  SubscriptionId, Subscription, Outbound, Outcome, note_delivery, disconnect_slow_consumer,
  overflow, after_send, after_push, send_to, is_addressed, offer,
}
use boardwalk.Events.Bus.Fanout.{Tally, PublishResult, Subs, note, fan_out}

module _ (crates : Crates) (channels : Channels crates) where
  open channels use {values, try_send}

  -- What `subscribe` sets up: a coalescing policy has a queue, any other a channel.
  abbrev pub FitsPolicy : Outbound crates channels → SlowConsumerPolicy → Type 0
  FitsPolicy (Outbound.queue s) (coalesce key_path) = Unit
  FitsPolicy (Outbound.queue s) _ = ⊥
  FitsPolicy (Outbound.mpsc tx) (coalesce key_path) = ⊥
  FitsPolicy (Outbound.mpsc tx) _ = Unit

  abbrev pub IsWellFormed : Subscription crates channels → Type 0
  IsWellFormed sub = FitsPolicy sub.outbound sub.slow_consumer_policy

  abbrev is_closed : TrySend → Bool
  is_closed closed = true
  is_closed _ = false

  -- The receiving end is gone: the channel says so, or the queue's flag does.
  unfoldable pub is_dead : EventEnvelope crates → Outbound crates channels → Bool
  is_dead envelope (Outbound.mpsc tx) = is_closed (try_send tx envelope).1
  is_dead envelope (Outbound.queue s) = s.receiver_dropped

  unfoldable pub is_reached : EventEnvelope crates → Subscription crates channels → Bool
  is_reached envelope sub =
      is_addressed crates channels envelope sub && not (is_dead envelope sub.outbound)

  -- The subscriptions that the envelope is addressed to and that have a receiver.
  unfoldable pub reached : EventEnvelope crates → Subs crates channels → ℕ
  reached envelope [] = 0
  reached envelope ((id, sub) ∷ subs) =
      (if is_reached envelope sub then 1 else 0) + reached envelope subs

  abbrev pub counted : PublishResult → ℕ
  counted r = r.delivered + r.dropped + r.coalesced + length r.disconnected_slow_consumers

  -- How much an outcome counts for.
  abbrev weight : Outcome crates channels → ℕ
  weight Outcome.skipped = 0
  weight Outcome.gone = 0
  weight Outcome.unreachable = 0
  weight _ = 1

  counted-note :
      (id : SubscriptionId) (o : Outcome crates channels) (t : Tally)
      → counted (note crates channels id o t).result ≡ weight o + counted t.result
  unfolding note
  counted-note id Outcome.skipped t = omega arith
  counted-note id Outcome.delivered t = omega arith
  counted-note id Outcome.last_delivery t = omega arith
  counted-note id Outcome.overwritten t = omega arith
  counted-note id Outcome.overflowed t = omega arith
  counted-note id (Outcome.slow none) t = omega arith
  counted-note id (Outcome.slow (some n)) t = omega arith
  counted-note id Outcome.gone t = omega arith
  counted-note id Outcome.unreachable t = omega arith

  weight-note_delivery :
      (envelope : EventEnvelope crates) (sub : Subscription crates channels)
      → weight (note_delivery crates channels envelope sub).1 ≡ 1
  unfolding note_delivery
  weight-note_delivery envelope sub = ground arith

  weight-overflow :
      (p : SlowConsumerPolicy) (tx : channels.Chan) (sub : Subscription crates channels)
      → FitsPolicy (Outbound.mpsc tx) p
      → weight (overflow crates channels p sub).1 ≡ 1
  unfolding overflow disconnect_slow_consumer
  weight-overflow disconnect tx sub h = ground arith
  weight-overflow backpressure tx sub h = refl
  weight-overflow drop_newest tx sub h = refl
  weight-overflow (coalesce key_path) tx sub h = absurd h

  weight-after_send :
      (envelope : EventEnvelope crates) (sub : Subscription crates channels) (tx : channels.Chan)
      (r : TrySend)
      → FitsPolicy (Outbound.mpsc tx) sub.slow_consumer_policy
      → weight (after_send crates channels envelope sub r).1 ≡ (if not (is_closed r) then 1 else 0)
  unfolding after_send
  weight-after_send envelope sub tx sent h = weight-note_delivery envelope sub
  weight-after_send envelope sub tx full h = weight-overflow sub.slow_consumer_policy tx sub h
  weight-after_send envelope sub tx closed h = refl

  weight-push :
      (envelope : EventEnvelope crates) (sub : Subscription crates channels)
      (s : CoalesceState crates)
      → weight (after_push crates channels envelope sub (push values s envelope).1).1
        ≡ (if not s.receiver_dropped then 1 else 0)
  unfolding after_push push
  weight-push envelope sub s = ground (arith, weight-note_delivery envelope sub)

  weight-send_to :
      (envelope : EventEnvelope crates) (sub : Subscription crates channels)
      (o : Outbound crates channels)
      → FitsPolicy o sub.slow_consumer_policy
      → weight (send_to crates channels envelope sub o).1
        ≡ (if not (is_dead envelope o) then 1 else 0)
  unfolding send_to is_dead
  weight-send_to envelope sub (Outbound.mpsc tx) h =
      let r = try_send tx envelope in
      weight-after_send envelope (record sub { outbound = Outbound.mpsc r.0 }) tx r.1 h
  weight-send_to envelope sub (Outbound.queue s) h =
      let r = push values s envelope in
      weight-push envelope (record sub { outbound = Outbound.queue r.0 }) s

  weight-offer :
      (envelope : EventEnvelope crates) (sub : Subscription crates channels)
      → IsWellFormed sub
      → weight (offer crates channels envelope sub).1 ≡ (if is_reached envelope sub then 1 else 0)
  unfolding offer is_reached
  weight-offer envelope sub h = elim (Bool-cases (is_addressed crates channels envelope sub)) [
    | inl yes' ↦ rw yes' (weight-send_to envelope sub sub.outbound h)
    | inr no' ↦ rw no' refl
  ]

  -- Where each subscription has the kind of outbound end that its policy asks for, those that an
  -- envelope is addressed to and that have a receiver are counted
  -- exactly once: as delivered, dropped, coalesced or disconnected. The others are not counted.
  pub fan_out_counts :
      (envelope : EventEnvelope crates) (subs : Subs crates channels)
      → All (λ p. IsWellFormed p.1) subs
      → counted (fan_out crates channels envelope subs).1.result ≡ reached envelope subs
  unfolding fan_out reached
  fan_out_counts envelope [] h = refl
  fan_out_counts envelope ((id, sub) ∷ subs) (w, h) =
      let tail = fan_out crates channels envelope subs in
      let o = offer crates channels envelope sub in
      omega (
        arith,
        counted-note id o.1 tail.1,
        weight-offer envelope sub w,
        fan_out_counts envelope subs h,
      )

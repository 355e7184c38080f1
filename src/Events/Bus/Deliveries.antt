-- ===== src/Events/Bus/Deliveries.antt =====
-- events/bus.rs, `try_publish`: an envelope is counted as delivered exactly where the end of the
-- subscription took it.
use boardwalk.Common.{ℕ, Bool, true, false, if◌then◌else◌, ◌≡◌, refl}
use boardwalk.Events.Crates.{Crates}
use boardwalk.Events.Envelope.{EventEnvelope}
use boardwalk.Events.Policy.{SlowConsumerPolicy, disconnect, backpressure, drop_newest, coalesce}
use boardwalk.Events.Coalesce.{PushOutcome, pushed, replaced, dropped, receiver_gone, push}
use boardwalk.Events.Bus.Mpsc.{Channels, TrySend, sent, full, closed}
use boardwalk.Events.Bus.Offer.{
  Subscription, Outbound, Outcome, use_quota, is_exhausted, note_delivery, disconnect_slow_consumer,
  overflow, after_send, after_push, send_to, is_addressed, offer,
}

module _ (crates : Crates) (channels : Channels crates) where
  open channels use {values, try_send}

  abbrev pub deliveries : Outcome crates channels → ℕ
  deliveries Outcome.delivered = 1
  deliveries Outcome.last_delivery = 1
  deliveries _ = 0

  -- What the end of a subscription takes of an envelope that is addressed to it, by its own answer: a
  -- channel what it was sent, a queue what was pushed as a new entry.
  abbrev pub in_channel : TrySend → ℕ
  in_channel sent = 1
  in_channel full = 0
  in_channel closed = 0

  abbrev pub in_queue : PushOutcome → ℕ
  in_queue pushed = 1
  in_queue replaced = 0
  in_queue dropped = 0
  in_queue receiver_gone = 0

  abbrev pub received_by : EventEnvelope crates → Outbound crates channels → ℕ
  received_by e (Outbound.mpsc tx) = in_channel (try_send tx e).1
  received_by e (Outbound.queue state) = in_queue (push values state e).1

  abbrev pub received : EventEnvelope crates → Subscription crates channels → ℕ
  received e sub = if is_addressed crates channels e sub then received_by e sub.outbound else 0

  deliveries-note_delivery :
      (e : EventEnvelope crates) (sub : Subscription crates channels)
      → deliveries (note_delivery crates channels e sub).1 ≡ 1
  unfolding note_delivery
  deliveries-note_delivery e sub =
      by_last (is_exhausted crates channels (use_quota crates channels sub.remaining))
    where
      by_last : (b : Bool) → deliveries (if b then Outcome.last_delivery else Outcome.delivered) ≡ 1
      by_last true = refl
      by_last false = refl

  deliveries-disconnect :
      (sub : Subscription crates channels)
      → deliveries (disconnect_slow_consumer crates channels sub).1 ≡ 0
  unfolding disconnect_slow_consumer
  deliveries-disconnect sub = by_notice sub.slow_consumer_notify _ _ refl refl
    where
      by_notice :
          (b : Bool) (x y : Subscription crates channels × Outcome crates channels)
          → deliveries x.1 ≡ 0
          → deliveries y.1 ≡ 0
          → deliveries (if b then x else y).1 ≡ 0
      by_notice true x y h k = h
      by_notice false x y h k = k

  deliveries-overflow :
      (policy : SlowConsumerPolicy) (sub : Subscription crates channels)
      → deliveries (overflow crates channels policy sub).1 ≡ 0
  unfolding overflow
  deliveries-overflow disconnect sub = deliveries-disconnect sub
  deliveries-overflow backpressure sub = refl
  deliveries-overflow drop_newest sub = refl
  deliveries-overflow (coalesce key_path) sub = refl

  deliveries-after_send :
      (e : EventEnvelope crates) (sub : Subscription crates channels) (r : TrySend)
      → deliveries (after_send crates channels e sub r).1 ≡ in_channel r
  unfolding after_send
  deliveries-after_send e sub sent = deliveries-note_delivery e sub
  deliveries-after_send e sub full = deliveries-overflow sub.slow_consumer_policy sub
  deliveries-after_send e sub closed = refl

  deliveries-after_push :
      (e : EventEnvelope crates) (sub : Subscription crates channels) (r : PushOutcome)
      → deliveries (after_push crates channels e sub r).1 ≡ in_queue r
  unfolding after_push
  deliveries-after_push e sub pushed = deliveries-note_delivery e sub
  deliveries-after_push e sub replaced = refl
  deliveries-after_push e sub dropped = refl
  deliveries-after_push e sub receiver_gone = refl

  deliveries-send_to :
      (e : EventEnvelope crates) (sub : Subscription crates channels)
      (end : Outbound crates channels)
      → deliveries (send_to crates channels e sub end).1 ≡ received_by e end
  unfolding send_to
  deliveries-send_to e sub (Outbound.mpsc tx) = deliveries-after_send e _ (try_send tx e).1
  deliveries-send_to e sub (Outbound.queue state) =
      deliveries-after_push e _ (push values state e).1

  -- What is counted as delivered is what the end took.
  pub deliveries-offer :
      (e : EventEnvelope crates) (sub : Subscription crates channels)
      → deliveries (offer crates channels e sub).1 ≡ received e sub
  unfolding offer
  deliveries-offer e sub = by_address (is_addressed crates channels e sub)
    where
      by_address :
          (b : Bool)
          → deliveries
              (if b then send_to crates channels e sub sub.outbound else (sub, Outcome.skipped)).1
            ≡ (if b then received_by e sub.outbound else 0)
      by_address true = deliveries-send_to e sub sub.outbound
      by_address false = refl

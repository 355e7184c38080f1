-- ===== src/Events/Bus/Offer.antt =====
-- events/bus.rs: subscriptions, and what `try_publish` does with one of them.
use boardwalk.Common.{ℕ, ◌-◌, Bool, false, Option, none, some, Str, codes, ◌==◌, if◌then◌else◌}
use boardwalk.Events.Crates.{Crates}
use boardwalk.Events.Envelope.{EventEnvelope, StreamId, topic}
use boardwalk.Events.Topic.{TopicPattern, matches_event}
use boardwalk.Events.Policy.{SlowConsumerPolicy, disconnect, backpressure, drop_newest, coalesce}
use boardwalk.Events.Coalesce.{
  CoalesceState, PushOutcome, pushed, replaced, dropped, receiver_gone, push,
}
use boardwalk.Events.Bus.Mpsc.{Channels, TrySend, sent, full, closed}

abbrev pub SubscriptionId : Type 0
SubscriptionId = ℕ

-- `REASON_SLOW_CONSUMER`.
abbrev pub reason_slow_consumer : Str
reason_slow_consumer = codes "slow_consumer"

pub record Notice : Type 0 where
  pub stream_id : Option StreamId
  pub last_delivered_sequence : Option ℕ
  pub reason : Str

module _ (crates : Crates) (channels : Channels crates) where
  open channels use {values, Chan, try_send}

  pub data Outbound : Type 0 where
    mpsc : Chan → Outbound
    queue : CoalesceState crates → Outbound

  -- `slow_consumer_notify` says whether the one-shot sender is still there.
  pub record Subscription : Type 0 where
    pub topic : TopicPattern crates
    pub outbound : Outbound
    pub remaining : Option ℕ
    pub slow_consumer_policy : SlowConsumerPolicy
    pub in_flight : ℕ
    pub last_delivered : Option (StreamId × ℕ)
    pub slow_consumer_notify : Bool

  -- What comes of an envelope at one subscription. `unreachable` is the `unreachable!` of the
  -- source, at a coalescing policy over an mpsc channel.
  pub data Outcome : Type 0 where
    skipped : Outcome
    delivered : Outcome
    last_delivery : Outcome
    overwritten : Outcome
    overflowed : Outcome
    slow : Option Notice → Outcome
    gone : Outcome
    unreachable : Outcome

  -- `rem.saturating_sub(1)` where there is a quota.
  unfoldable pub use_quota : Option ℕ → Option ℕ
  use_quota none = none
  use_quota (some rem) = some (rem - 1)

  -- `*rem == 0`.
  unfoldable pub is_exhausted : Option ℕ → Bool
  is_exhausted none = false
  is_exhausted (some rem) = rem == 0

  -- A delivery is noted, and uses the quota; the last one of the quota removes the subscription.
  unfoldable pub note_delivery : EventEnvelope crates → Subscription → Subscription × Outcome
  unfolding use_quota is_exhausted
  note_delivery envelope sub =
      let left = use_quota sub.remaining in
      (
        record sub {
          remaining = left;
          last_delivered = some (envelope.stream_id, envelope.sequence);
        },
        (if is_exhausted left then last_delivery else delivered),
      )

  notice_of : Option (StreamId × ℕ) → Notice
  notice_of none = record {
    stream_id = none;
    last_delivered_sequence = none;
    reason = reason_slow_consumer;
  }
  notice_of (some (s, n)) = record {
    stream_id = some s;
    last_delivered_sequence = some n;
    reason = reason_slow_consumer;
  }

  -- `disconnect_slow_consumer`: the notice is sent once.
  unfoldable pub disconnect_slow_consumer : Subscription → Subscription × Outcome
  unfolding notice_of
  disconnect_slow_consumer sub =
      if sub.slow_consumer_notify
      then (record sub { slow_consumer_notify = false }, slow (some (notice_of sub.last_delivered)))
      else (sub, slow none)

  unfoldable pub overflow : SlowConsumerPolicy → Subscription → Subscription × Outcome
  overflow disconnect sub = disconnect_slow_consumer sub
  overflow backpressure sub = (sub, overflowed)
  overflow drop_newest sub = (sub, overflowed)
  overflow (coalesce key_path) sub = (sub, unreachable)

  unfoldable pub after_send : EventEnvelope crates → Subscription → TrySend → Subscription × Outcome
  after_send envelope sub sent = note_delivery envelope sub
  after_send envelope sub full = overflow sub.slow_consumer_policy sub
  after_send envelope sub closed = (sub, gone)

  unfoldable pub after_push :
      EventEnvelope crates → Subscription → PushOutcome → Subscription × Outcome
  after_push envelope sub pushed = note_delivery envelope sub
  after_push envelope sub replaced = (sub, overwritten)
  after_push envelope sub dropped = (sub, overflowed)
  after_push envelope sub receiver_gone = (sub, gone)

  -- The `match` on the outbound end.
  unfoldable pub send_to : EventEnvelope crates → Subscription → Outbound → Subscription × Outcome
  send_to envelope sub (mpsc tx) =
      let (tx', r) = try_send tx envelope in
      after_send envelope (record sub { outbound = mpsc tx' }) r
  send_to envelope sub (queue state) =
      let (state', r) = push values state envelope in
      after_push envelope (record sub { outbound = queue state' }) r

  unfoldable pub is_addressed : EventEnvelope crates → Subscription → Bool
  is_addressed envelope sub = matches_event crates sub.topic (topic envelope) envelope.payload

  -- The body of the loop over the subscriptions.
  unfoldable pub offer : EventEnvelope crates → Subscription → Subscription × Outcome
  unfolding is_addressed send_to after_send after_push overflow
  offer envelope sub =
      if is_addressed envelope sub then send_to envelope sub sub.outbound else (sub, skipped)

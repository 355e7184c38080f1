-- ===== src/Events/Bus.antt =====
-- events/bus.rs: the event bus, with the synchronous `try_publish`. Each operation holds the lock of
-- the subscriptions while it uses them, so it is one step on the state. The map of subscriptions is
-- a list in the order of its iteration, which is any order.
pub mod Mpsc
pub mod Offer
pub mod Fanout
pub mod Counts
pub mod Survivors
pub mod Publish
pub mod Deliveries
pub mod Quota
pub mod Claims
pub mod Async
use boardwalk.Common.{
  ℕ, ◌+◌, ◌-◌, ◌%◌, ◌^◌, Bool, true, false, Option, none, some, List, [], ◌∷◌, ◌++◌, find, put,
  delete, nat_eq, ltb, length, if◌then◌else◌, Result, ok, err,
}
use boardwalk.Query.Ast.{FieldPath}
use boardwalk.Events.Crates.{Crates}
use boardwalk.Events.Envelope.{EventEnvelope, StreamId, topic}
use boardwalk.Events.Topic.{TopicPattern}
use boardwalk.Events.Policy.{
  SlowConsumerPolicy, coalesce, SubscribeOpts, resolved_outbound_capacity,
  default_max_event_size_bytes,
}
use boardwalk.Events.Coalesce.{Values, CoalesceState}
use boardwalk.Events.Coalesce
use boardwalk.Events.Replay.{StreamReplayCache, default_replay_capacity, record_envelope}
use boardwalk.Events.Replay
use boardwalk.Events.Sequencer.{StreamRegistry, evict}
use Mpsc.{Channels}
use Offer.{SubscriptionId, Subscription, Outbound, Notice}
use Fanout.{Tally, PublishResult, Subs, fan_out, remove_all, close_outbound}

pub data PublishError : Type 0 where
  too_large : ℕ → PublishError

module _ (crates : Crates) (channels : Channels crates) where
  open channels use {values, channel, serialized_len}

  -- `detached` keeps the sending ends of removed subscriptions, which a receiver may still read.
  pub record EventBus : Type 0 where
    pub next_id : SubscriptionId
    pub subs : Subs crates channels
    pub registry : StreamRegistry
    pub replay_cache : StreamReplayCache crates
    pub max_event_size : ℕ
    pub detached : Subs crates channels

  unfoldable pub with_registry_and_replay_capacity : StreamRegistry → ℕ → EventBus
  with_registry_and_replay_capacity registry replay_capacity = record {
    next_id = 1;
    subs = [];
    registry = registry;
    replay_cache = Replay.new replay_capacity;
    max_event_size = default_max_event_size_bytes;
    detached = [];
  }

  unfoldable pub with_registry : StreamRegistry → EventBus
  with_registry registry = with_registry_and_replay_capacity registry default_replay_capacity

  unfoldable pub with_max_event_size : EventBus → ℕ → EventBus
  with_max_event_size bus limit = record bus { max_event_size = limit }

  outbound_for : SlowConsumerPolicy → ℕ → Outbound crates channels
  outbound_for (coalesce key_path) capacity = Outbound.queue (Coalesce.new capacity key_path)
  outbound_for policy capacity = Outbound.mpsc (channel capacity)

  unfoldable pub subscribe :
      EventBus → TopicPattern crates → SubscribeOpts → SubscriptionId × EventBus
  unfolding outbound_for
  subscribe bus pattern opts = (
    bus.next_id,
    record bus {
      next_id = (bus.next_id + 1) % 2 ^ 64;
      subs =
          put bus.next_id
            (record {
              topic = pattern;
              outbound = outbound_for opts.slow_consumer_policy (resolved_outbound_capacity opts);
              remaining = opts.limit;
              slow_consumer_policy = opts.slow_consumer_policy;
              in_flight = 0;
              last_delivered = none;
              slow_consumer_notify = true;
            })
            bus.subs;
    },
  )

  unfoldable pub unsubscribe : EventBus → SubscriptionId → EventBus × Bool
  unsubscribe bus id = elim (find id bus.subs) [
    | none ↦ (bus, false)
    | some sub ↦ (
      record bus {
        subs = delete id bus.subs;
        detached = put id (close_outbound crates channels sub) bus.detached;
      },
      true,
    )
  ]

  -- `serde_json::to_vec(&envelope).map(|v| v.len()).unwrap_or(0)`.
  unfoldable pub size_of : EventEnvelope crates → ℕ
  size_of envelope = elim (serialized_len envelope) [ none ↦ 0 | some n ↦ n ]

  -- The branch of an accepted envelope: recorded first, then offered to every subscription.
  unfoldable pub accept :
      EventBus → EventEnvelope crates → EventBus × PublishResult × List (SubscriptionId × Notice)
  accept bus envelope =
      let (cache, registry) = record_envelope bus.replay_cache bus.registry envelope in
      let (subs, tally) = fan_out crates channels envelope bus.subs in
      let (kept, gone) = remove_all crates channels tally.to_remove subs bus.detached in
      (
        record bus { subs = kept; registry = registry; replay_cache = cache; detached = gone },
        tally.result,
        tally.notices,
      )

  -- What `try_publish` returns, and the notices that it sent.
  abbrev pub Published : Type 0
  Published = EventBus × Result PublishError PublishResult × List (SubscriptionId × Notice)

  unfoldable pub try_publish : EventBus → EventEnvelope crates → Published
  unfolding accept
  try_publish bus envelope =
      if ltb bus.max_event_size (size_of envelope)
      then (
        record bus { registry = evict bus.registry envelope.event_id },
        err (too_large bus.max_event_size),
        [],
      )
      else (let (bus', result, notices) = accept bus envelope in (bus', ok result, notices))

  unfoldable pub active_subscriptions : EventBus → ℕ
  active_subscriptions bus = length bus.subs

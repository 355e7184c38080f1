-- ===== src/Events/Bus/Publish.antt =====
-- `try_publish` as a whole: an oversized envelope changes nothing but the reverse index; any other
-- is recorded, and each subscription goes its own way.
use boardwalk.Common.{
  ◌<◌, ◌≤◌, false, none, some, [], ok, err, ltb, lt→ltb, ◌≡◌, refl, ◌∙◌, arith, find,
  find-delete_self, nat_eq, str_eq,
}
use boardwalk.Events.Crates.{Crates}
use boardwalk.Events.Envelope.{EventEnvelope}
use boardwalk.Events.Sequencer.{evict, stream_for}
use boardwalk.Events.Replay.{record_envelope}
use boardwalk.Events.Bus.{EventBus, too_large, size_of, accept, try_publish}
use boardwalk.Events.Bus.Mpsc.{Channels}
use boardwalk.Events.Bus.Offer.{SubscriptionId}
use boardwalk.Events.Bus.Fanout.{fan_out}
use boardwalk.Events.Bus.Survivors.{HasDistinctIds, after_offer, find-fan_out, find-remove_all}

module _ (crates : Crates) (channels : Channels crates) where
  -- An envelope above the limit is refused with the limit. The subscriptions and the replay cache
  -- stay as they were, no notice is sent, and the envelope's id is no longer in the reverse index.
  pub try_publish_oversized :
      (bus : EventBus crates channels) (envelope : EventEnvelope crates)
      → bus.max_event_size < size_of crates channels envelope
      → (bus' : EventBus crates channels) × (try_publish crates channels bus envelope
          ≡ (bus', err (too_large bus.max_event_size), []))
        × (bus'.subs ≡ bus.subs)
        × (bus'.replay_cache ≡ bus.replay_cache)
        × (bus'.next_id ≡ bus.next_id)
        × (stream_for bus'.registry envelope.event_id ≡ none)
  unfolding try_publish evict stream_for
  try_publish_oversized bus envelope h = (
    record bus { registry = evict bus.registry envelope.event_id },
    rw (lt→ltb _ _ h) refl,
    refl,
    refl,
    refl,
    find-delete_self envelope.event_id bus.registry.by_event_id,
  )

  pub try_publish_accepted :
      (bus : EventBus crates channels) (envelope : EventEnvelope crates)
      → size_of crates channels envelope ≤ bus.max_event_size
      → try_publish crates channels bus envelope ≡ (
        (accept crates channels bus envelope).0,
        ok (accept crates channels bus envelope).1,
        (accept crates channels bus envelope).2,
      )
  unfolding try_publish
  try_publish_accepted bus envelope h =
      let small : ltb bus.max_event_size (size_of crates channels envelope) ≡ false =
        ground arith in
      rw small refl

  -- For an envelope within the size limit, on a bus whose subscription ids differ: after the publish
  -- each id has what offering the envelope to its own subscription gives,
  -- and none that was removed or was not there; the cache and the registry are those after recording.
  pub find-try_publish :
      (bus : EventBus crates channels) (envelope : EventEnvelope crates) (id : SubscriptionId)
      → size_of crates channels envelope ≤ bus.max_event_size
      → HasDistinctIds crates channels bus.subs
      → let bus' = (try_publish crates channels bus envelope).0 in
        (find id bus'.subs ≡ elim (find id bus.subs) [
          | none ↦ none
          | some sub ↦ after_offer crates channels envelope sub
        ])
        × ((bus'.replay_cache, bus'.registry)
            ≡ record_envelope bus.replay_cache bus.registry envelope)
  unfolding accept
  find-try_publish bus envelope id h d = rw (try_publish_accepted bus envelope h) (
    find-remove_all crates channels (fan_out crates channels envelope bus.subs).1.to_remove
          (fan_out crates channels envelope bus.subs).0 bus.detached id
        ∙ find-fan_out crates channels envelope bus.subs id d,
    refl,
  )

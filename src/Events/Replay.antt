-- ===== src/Events/Replay.antt =====
-- events/replay.rs: the rings of the last envelopes of each stream. `record` holds the lock of the
-- rings while it changes them, and afterwards drops the evicted id from the shared registry.
pub mod Rings
use boardwalk.Common.{
  ℕ, Bool, Option, none, some, List, [], ◌∷◌, ◌++◌, Str, find, put, str_eq, leb, ltb, length, keep,
  if◌then◌else◌,
}
use boardwalk.Events.Crates.{Crates}
use boardwalk.Events.Envelope.{EventEnvelope, EventId, StreamId}
use boardwalk.Events.Sequencer.{StreamRegistry, evict}

abbrev pub default_replay_capacity : ℕ
default_replay_capacity = 1000

pub record StreamReplayCache (crates : Crates) : Type 0 where
  pub per_stream : List (StreamId × List (EventEnvelope crates))
  pub capacity_per_stream : ℕ

-- `if let Some(id) = evicted_event_id`.
unfoldable pub evict_id : Option EventId → StreamRegistry → StreamRegistry
evict_id none r = r
evict_id (some id) r = evict r id

module _ {crates : Crates} where
  unfoldable pub new : ℕ → StreamReplayCache crates
  new capacity_per_stream = record { per_stream = []; capacity_per_stream = capacity_per_stream }

  -- The ring of a stream, `entry(…).or_default()`.
  unfoldable pub ring : StreamReplayCache crates → StreamId → List (EventEnvelope crates)
  ring c stream_id = elim (find stream_id c.per_stream) [ none ↦ [] | some q ↦ q ]

  pop_front : List (EventEnvelope crates) → Option EventId × List (EventEnvelope crates)
  pop_front [] = (none, [])
  pop_front (e ∷ q) = (some e.event_id, q)

  -- The eviction from a ring that is at its capacity: the id evicted, and what is left.
  unfoldable pub make_room :
      ℕ → List (EventEnvelope crates) → Option EventId × List (EventEnvelope crates)
  unfolding pop_front
  make_room cap q = if leb cap (length q) then pop_front q else (none, q)

  unfoldable pub record_envelope :
      StreamReplayCache crates
      → StreamRegistry
      → EventEnvelope crates
      → StreamReplayCache crates × StreamRegistry
  unfolding evict_id
  record_envelope c r envelope =
      let (evicted, q) = make_room c.capacity_per_stream (ring c envelope.stream_id) in
      (
        record c { per_stream = put envelope.stream_id (q ++ envelope ∷ []) c.per_stream },
        evict_id evicted r,
      )

  unfoldable pub events_after :
      StreamReplayCache crates → StreamId → ℕ → List (EventEnvelope crates)
  events_after c stream_id after_sequence = elim (find stream_id c.per_stream) [
    | none ↦ []
    | some q ↦ keep (λ e. ltb after_sequence e.sequence) q
  ]

-- ===== src/Events/Sequencer.antt =====
-- events/sequencer.rs: the registry that hands out event ids and sequence numbers. Its two maps
-- are behind locks that each operation holds for as long as it uses the map.
pub mod Fresh
pub mod Runs
use boardwalk.Common.{
  ℕ, ◌+◌, ◌%◌, ◌^◌, Option, none, some, List, [], ◌∷◌, ◌++◌, Str, find, put, delete, str_eq,
  decimal, length,
}
use boardwalk.Events.Envelope.{EventId, StreamId}

-- `per_stream` holds the next sequence number of each stream that was used.
pub record StreamRegistry : Type 0 where
  pub per_stream : List (StreamId × ℕ)
  pub by_event_id : List (EventId × StreamId)

pub record Allocated : Type 0 where
  pub event_id : EventId
  pub sequence : ℕ

unfoldable pub new : StreamRegistry
new = record { per_stream = []; by_event_id = [] }

-- The counter of a stream, which `or_insert_with` starts at 1.
unfoldable pub next_sequence : StreamRegistry → StreamId → ℕ
next_sequence r stream_id = elim (find stream_id r.per_stream) [ none ↦ 1 | some n ↦ n ]

-- `format!("{}-{}", stream_id, sequence)`.
unfoldable pub event_id_of : StreamId → ℕ → EventId
event_id_of stream_id sequence = stream_id ++ (b'-' ∷ decimal sequence)

-- `fetch_add` wraps at 64 bits.
unfoldable pub allocate : StreamRegistry → StreamId → Allocated × StreamRegistry
unfolding next_sequence
allocate r stream_id =
    let sequence = next_sequence r stream_id in
    let event_id = event_id_of stream_id sequence in
    (
      record { event_id = event_id; sequence = sequence },
      record {
        per_stream = put stream_id ((sequence + 1) % 2 ^ 64) r.per_stream;
        by_event_id = put event_id stream_id r.by_event_id;
      },
    )

unfoldable pub stream_for : StreamRegistry → EventId → Option StreamId
stream_for r event_id = find event_id r.by_event_id

unfoldable pub evict : StreamRegistry → EventId → StreamRegistry
evict r event_id = record r { by_event_id = delete event_id r.by_event_id }

unfoldable pub active_streams : StreamRegistry → ℕ
active_streams r = length r.per_stream

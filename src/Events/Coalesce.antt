-- ===== src/Events/Coalesce.antt =====
-- events/coalesce.rs: the queue behind a coalescing subscription. An operation holds the queue's
-- lock while it reads and writes the queue, so each is one step here. `Notify` only wakes a
-- receiver to look again, and is not modelled.
pub mod Push
pub mod Keys
use boardwalk.Common.{
  ℕ, ◌+◌, ◌≤◌, Bool, true, false, Option, none, some, List, [], ◌∷◌, ◌++◌, Str, codes, ◌=s◌, ltb,
  length, if◌then◌else◌, Result, ok, err,
}
use boardwalk.Query.Json.{Json, get}
use boardwalk.Query.Ast.{FieldPath, walk, extract}
use boardwalk.Events.Crates.{Crates}
use boardwalk.Events.Envelope.{EventEnvelope}

pub data PushOutcome : Type 0 where
  pushed replaced dropped receiver_gone : PushOutcome

pub data TryRecvError : Type 0 where
  empty disconnected : TryRecvError

-- What the queue takes from serde_json: the equality of values, and the JSON view of an envelope,
-- `none` where the conversion fails.
pub record Values (crates : Crates) : Type 0 where
  pub value_eq : Json crates.numbers.Number → Json crates.numbers.Number → Bool
  pub to_value : EventEnvelope crates → Option (Json crates.numbers.Number)

pub record CoalesceState (crates : Crates) : Type 0 where
  pub queue : List (EventEnvelope crates)
  pub capacity : ℕ
  pub key_path : FieldPath
  pub closed : Bool
  pub receiver_dropped : Bool

-- `capacity.max(1)`.
unfoldable pub at_least_one : ℕ → ℕ
at_least_one n = if ltb n 1 then 1 else n

module _ {crates : Crates} where
  unfoldable pub new : ℕ → FieldPath → CoalesceState crates
  unfolding at_least_one
  new capacity key_path = record {
    queue = [];
    capacity = at_least_one capacity;
    key_path = key_path;
    closed = false;
    receiver_dropped = false;
  }

  pop_front :
      CoalesceState crates
      → List (EventEnvelope crates)
      → CoalesceState crates × Result TryRecvError (EventEnvelope crates)
  pop_front s [] = (s, err (if s.closed then disconnected else empty))
  pop_front s (env ∷ q) = (record s { queue = q }, ok env)

  unfoldable pub try_recv :
      CoalesceState crates → CoalesceState crates × Result TryRecvError (EventEnvelope crates)
  unfolding pop_front
  try_recv s = pop_front s s.queue

  unfoldable pub close : CoalesceState crates → CoalesceState crates
  close s = record s { closed = true }

  unfoldable pub mark_receiver_dropped : CoalesceState crates → CoalesceState crates
  mark_receiver_dropped s = record s { receiver_dropped = true; closed = true }

module _ {crates : Crates} (values : Values crates) where
  open values use {value_eq, to_value}

  -- A path below `data` is walked in the payload itself, any other in the envelope's JSON view.
  extract_from : EventEnvelope crates → List Str → Option (Json crates.numbers.Number)
  extract_from env [] = elim (to_value env) [ none ↦ none | some full ↦ walk [] full ]
  extract_from env (first ∷ segs) =
      if first =s codes "data"
      then walk segs env.payload
      else elim (to_value env) [ none ↦ none | some full ↦ walk (first ∷ segs) full ]

  unfoldable pub extract_key :
      EventEnvelope crates → FieldPath → Option (Json crates.numbers.Number)
  unfolding extract_from walk
  extract_key env path = extract_from env path.segments

  -- `slot_key == incoming`, for a slot that has a key.
  unfoldable pub has_key : FieldPath → Json crates.numbers.Number → EventEnvelope crates → Bool
  has_key path incoming slot = elim (extract_key slot path) [
    | none ↦ false
    | some slot_key ↦ value_eq slot_key incoming
  ]

  -- The loop over the slots: the queue with the first slot of the same key overwritten.
  unfoldable pub replace_slot :
      FieldPath
      → Json crates.numbers.Number
      → EventEnvelope crates
      → List (EventEnvelope crates)
      → Option (List (EventEnvelope crates))
  replace_slot path incoming env [] = none
  replace_slot path incoming env (slot ∷ q) =
      let rest = replace_slot path incoming env q in
      if has_key path incoming slot
      then some (env ∷ q)
      else elim rest [ none ↦ none | some q' ↦ some (slot ∷ q') ]

  unfoldable pub replace_queued :
      FieldPath
      → EventEnvelope crates
      → List (EventEnvelope crates)
      → Option (List (EventEnvelope crates))
  replace_queued path env q = elim (extract_key env path) [
    | none ↦ none
    | some incoming ↦ replace_slot path incoming env q
  ]

  unfoldable pub push :
      CoalesceState crates → EventEnvelope crates → CoalesceState crates × PushOutcome
  push s env =
      if s.receiver_dropped
      then (s, receiver_gone)
      else elim (replace_queued s.key_path env s.queue) [
        | some q ↦ (record s { queue = q }, replaced)
        | none ↦
            if ltb (length s.queue) s.capacity
            then (record s { queue = s.queue ++ env ∷ [] }, pushed)
            else (s, dropped)
      ]

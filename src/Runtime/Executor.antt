-- ===== src/Runtime/Executor.antt =====
-- runtime/executor.rs: an actor behind its bounded mailbox. Senders put commands in at any moment; the
-- task of the actor takes them out one at a time, and the actor works on one command from its start
-- to its reply. The actor is a parameter; reply slots are told apart by numbers.
pub mod Sequential
mod Tests
use boardwalk.Common.{
  ℕ, ◌+◌, ◌≤◌, Bool, true, false, Option, none, some, List, [], ◌∷◌, ◌++◌, Str, codes, length, ltb,
  leb, if◌then◌else◌, Result, ok, err,
}

pub data TransitionError : Type 0 where
  invalid_input not_allowed conflict resource_not_found internal : Str → TransitionError
  busy backpressure_required timeout : TransitionError

pub data ResourceError : Type 0 where
  not_found unavailable internal_error : Str → ResourceError

-- The `Actor` trait, with the state behind `&mut self`; an error of a lifecycle hook is ignored.
-- `with_actor` is the context of a transition with the identity of the actor put in.
pub record Actor : Type 1 where
  pub State : Type 0
  pub TransitionCtx : Type 0
  pub TransitionInput : Type 0
  pub TransitionOutcome : Type 0
  pub ResourceCtx : Type 0
  pub ResourceSnapshot : Type 0
  pub with_actor : TransitionCtx → TransitionCtx
  pub on_start : State → State
  pub transition :
      TransitionCtx
      → Str
      → TransitionInput
      → State
      → State × Result TransitionError TransitionOutcome
  pub snapshot : ResourceCtx → State → Result ResourceError ResourceSnapshot
  pub on_stop : State → State

module _ (A : Actor) where
  open A use {
    State, TransitionCtx, TransitionInput, TransitionOutcome, ResourceCtx, ResourceSnapshot,
  }

  pub data Command : Type 0 where
    transition : Str → TransitionInput → TransitionCtx → ℕ → Command
    snapshot : ResourceCtx → ℕ → Command
    stop : ℕ → Command

  -- What goes into a reply slot.
  pub data Reply : Type 0 where
    outcome : ℕ → Result TransitionError TransitionOutcome → Reply
    snapped : ℕ → Result ResourceError ResourceSnapshot → Reply
    stopped : ℕ → Reply

  -- `is_open` is whether the task still receives; `dropped` are the commands that were in the channel
  -- when it ended, whose slots are dropped.
  pub record Mailbox : Type 0 where
    pub capacity : ℕ
    pub queue : List Command
    pub is_open : Bool
    pub state : State
    pub replies : List Reply
    pub dropped : List Command

  unfoldable pub spawn : State → ℕ → Mailbox
  spawn state capacity = record {
    capacity = if leb 1 capacity then capacity else 1;
    queue = [];
    is_open = true;
    state = A.on_start state;
    replies = [];
    dropped = [];
  }

  pub data Sending : Type 0 where
    accepted full closed : Sending

  -- `tx.try_send`.
  unfoldable pub try_send : Mailbox → Command → Mailbox × Sending
  try_send m command =
      if m.is_open
      then (if ltb (length m.queue) m.capacity
          then (record m { queue = m.queue ++ command ∷ [] }, accepted)
          else (m, full))
      else (m, closed)

  unfoldable pub refusal : Sending → Option TransitionError
  refusal accepted = none
  refusal full = some busy
  refusal closed = some (internal (codes "actor task terminated"))

  -- `ActorHandle::try_transition`: the error, if the command was not taken.
  unfoldable pub try_transition :
      Mailbox → Str → TransitionInput → TransitionCtx → ℕ → Mailbox × Option TransitionError
  unfolding try_send refusal
  try_transition m name input ctx reply =
      let (m', sending) = try_send m (transition name input ctx reply) in (m', refusal sending)

  -- The actor and one command: its next state, and the reply.
  unfoldable pub perform : State → Command → State × Reply
  perform s (transition name input ctx reply) =
      let (s', result) = A.transition (A.with_actor ctx) name input s in (s', outcome reply result)
  perform s (snapshot ctx reply) = (s, snapped reply (A.snapshot ctx s))
  perform s (stop reply) = (A.on_stop s, stopped reply)

  unfoldable pub is_stop : Command → Bool
  is_stop (stop reply) = true
  is_stop _ = false

  -- One round of the task's loop; after `Stop` the channel is closed with what is left in it.
  unfoldable pub serve : Mailbox → List Command → Mailbox
  unfolding perform is_stop
  serve m [] = m
  serve m (command ∷ rest) =
      let (s', reply) = perform m.state command in
      if is_stop command
      then record m {
        queue = [];
        is_open = false;
        state = s';
        replies = m.replies ++ reply ∷ [];
        dropped = rest;
      }
      else record m { queue = rest; state = s'; replies = m.replies ++ reply ∷ [] }

  -- A sender puts a command in, where a send that waits for room is one at the moment of its room;
  -- or the task takes a turn.
  pub data Event : Type 0 where
    sends : Command → Event
    serves : Event

  unfoldable pub step : Mailbox → Event → Mailbox
  unfolding try_send serve
  step m (sends command) = (try_send m command).0
  step m serves = serve m m.queue

  unfoldable pub run : Mailbox → List Event → Mailbox
  unfolding step
  run m [] = m
  run m (event ∷ events) = run (step m event) events

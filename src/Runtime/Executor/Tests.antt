-- ===== src/Runtime/Executor/Tests.antt =====
-- An actor that adds up numbers, behind a mailbox for one command.
use boardwalk.Common.{ℕ, ◌+◌, List, [], ◌∷◌, codes, ok, length, ◌≡◌, refl}
use boardwalk.Runtime.Executor.{
  Actor, Command, Event, sends, serves, spawn, run, step, try_send, serve, perform, is_stop,
}
use boardwalk.Runtime.Executor.Sequential.{IsSequential, taken, run-IsSequential}

abbrev adder : Actor
adder = record {
  State = ℕ;
  TransitionCtx = Unit;
  TransitionInput = ℕ;
  TransitionOutcome = ℕ;
  ResourceCtx = Unit;
  ResourceSnapshot = ℕ;
  with_actor = λ c. c;
  on_start = λ s. s + 1;
  transition = λ c name n s. (s + n, ok (s + n));
  snapshot = λ c s. ok s;
  on_stop = λ s. 0;
}

abbrev add : ℕ → ℕ → Command adder
add n reply = Command.transition (codes "add") n tt reply

-- The second command finds no room; the third waits when the actor stops.
abbrev events : List (Event adder)
events =
    sends (add 5 0)
    ∷ sends (add 6 1)
    ∷ serves
    ∷ sends (Command.stop 2)
    ∷ serves
    ∷ sends (add 7 3)
    ∷ serves
    ∷ []

run-IsSequential_example :
    IsSequential adder 1 (taken adder (spawn adder 0 0) events) (run adder (spawn adder 0 0) events)
run-IsSequential_example = run-IsSequential adder 0 0 events

answered_test : length (run adder (spawn adder 0 0) events).replies ≡ 2
unfolding run step spawn try_send serve perform is_stop
answered_test = refl

-- ===== src/Runtime/Executor/Sequential.antt =====
-- The mailbox against an actor that is given its commands one after another.
use boardwalk.Common.{
  ℕ, ◌≤◌, Bool, true, false, List, [], ◌∷◌, ◌++◌, append_assoc, append-nil, length, length-append,
  ltb, if◌then◌else◌, Bool-cases, inl, inr, ◌≡◌, refl, sym, ◌∙◌, ap, ap₂, subst, arith,
}
use boardwalk.Runtime.Executor.{
  Actor, Command, Reply, Mailbox, spawn, Sending, accepted, full, closed, try_send, perform,
  is_stop, serve, Event, sends, serves, step, run,
}

module _ (A : Actor) where
  open A use {State}

  -- The actor by itself.
  abbrev pub performs : State → List (Command A) → State
  performs s [] = s
  performs s (c ∷ cs) = performs (perform A s c).0 cs

  abbrev pub replies_to : State → List (Command A) → List (Reply A)
  replies_to s [] = []
  replies_to s (c ∷ cs) = (perform A s c).1 ∷ replies_to (perform A s c).0 cs

  -- The commands of a run that the mailbox took, in their order.
  abbrev taken_one : Sending A → Command A → List (Command A) → List (Command A)
  taken_one accepted c rest = c ∷ rest
  taken_one full c rest = rest
  taken_one closed c rest = rest

  abbrev pub taken : Mailbox A → List (Event A) → List (Command A)
  taken m [] = []
  taken m (sends c ∷ events) = taken_one (try_send A m c).1 c (taken (step A m (sends c)) events)
  taken m (serves ∷ events) = taken (step A m serves) events

  performs-append :
      (s : State) (xs ys : List (Command A)) → performs s (xs ++ ys) ≡ performs (performs s xs) ys
  performs-append s [] ys = refl
  performs-append s (x ∷ xs) ys = performs-append (perform A s x).0 xs ys

  replies_to-append :
      (s : State) (xs ys : List (Command A))
      → replies_to s (xs ++ ys) ≡ replies_to s xs ++ replies_to (performs s xs) ys
  replies_to-append s [] ys = refl
  replies_to-append s (x ∷ xs) ys =
      ap (◌∷◌ (perform A s x).1) (replies_to-append (perform A s x).0 xs ys)

  -- After the commands that were taken so far: those that were answered come first, and the others
  -- wait or were dropped; nothing is dropped while the channel is open, nothing waits afterwards.
  pub record IsSequential (start : State) (all : List (Command A)) (m : Mailbox A) : Type 0 where
    pub answered : List (Command A)
    pub order : answered ++ (m.dropped ++ m.queue) ≡ all
    pub state : m.state ≡ performs start answered
    pub replies : m.replies ≡ replies_to start answered
    pub kept : m.is_open ≡ true → m.dropped ≡ []
    pub ended : m.is_open ≡ false → m.queue ≡ []
    pub room : length m.queue ≤ m.capacity

  spawn-IsSequential :
      (s : State) (capacity : ℕ) → IsSequential (A.on_start s) [] (spawn A s capacity)
  unfolding spawn
  spawn-IsSequential s capacity = record {
    answered = [];
    order = refl;
    state = refl;
    replies = refl;
    kept = λ e. refl;
    ended = λ e. refl;
    room = omega arith;
  }

  -- One more command is answered.
  more_state :
      (start s : State) (answered : List (Command A)) (c : Command A)
      → s ≡ performs start answered
      → (perform A s c).0 ≡ performs start (answered ++ c ∷ [])
  more_state start s answered c e =
      ap (λ x. (perform A x c).0) e ∙ sym (performs-append start answered (c ∷ []))

  more_replies :
      (start s : State) (answered : List (Command A)) (c : Command A) (replies : List (Reply A))
      → s ≡ performs start answered
      → replies ≡ replies_to start answered
      → replies ++ (perform A s c).1 ∷ [] ≡ replies_to start (answered ++ c ∷ [])
  more_replies start s answered c replies e r =
      ap₂ (λ xs x. xs ++ (perform A x c).1 ∷ []) r e
      ∙ sym (replies_to-append start answered (c ∷ []))

  more_order :
      (all answered dropped queue rest : List (Command A)) (c : Command A)
      → dropped ≡ []
      → queue ≡ c ∷ rest
      → answered ++ (dropped ++ queue) ≡ all
      → (answered ++ c ∷ []) ++ rest ≡ all
  more_order all answered dropped queue rest c d q e =
      append_assoc answered (c ∷ []) rest ∙ sym (ap₂ (λ x y. answered ++ (x ++ y)) d q) ∙ e

  serve-IsSequential :
      (start : State) (all : List (Command A)) (m : Mailbox A) (q : List (Command A))
      → m.queue ≡ q
      → IsSequential start all m
      → IsSequential start all (serve A m q)
  unfolding serve
  serve-IsSequential start all m [] e h = h
  serve-IsSequential start all m (c ∷ rest) e h = elim (Bool-cases m.is_open) [
    | inr shut ↦ absurd (let q = sym (h.ended shut) ∙ e in ground arith)
    | inl is_open ↦
        let order = more_order all h.answered m.dropped m.queue rest c (h.kept is_open) e h.order in
        elim (Bool-cases (is_stop A c)) [
          | inl ends ↦ rw ends (record {
            answered = h.answered ++ c ∷ [];
            order = ap (λ x. (h.answered ++ c ∷ []) ++ x) (append-nil rest) ∙ order;
            state = more_state start m.state h.answered c h.state;
            replies = more_replies start m.state h.answered c m.replies h.state h.replies;
            kept = λ k. ground arith;
            ended = λ k. refl;
            room = omega arith;
          })
          | inr goes_on ↦ rw goes_on (record {
            answered = h.answered ++ c ∷ [];
            order = ap (λ x. (h.answered ++ c ∷ []) ++ (x ++ rest)) (h.kept is_open) ∙ order;
            state = more_state start m.state h.answered c h.state;
            replies = more_replies start m.state h.answered c m.replies h.state h.replies;
            kept = h.kept;
            ended = λ k. absurd (let f = sym is_open ∙ k in ground arith);
            room = (let l = ap length e in omega (arith, h.room));
          })
        ]
  ]

  try_send-IsSequential :
      (start : State) (all : List (Command A)) (m : Mailbox A) (c : Command A)
      → IsSequential start all m
      → IsSequential start (all ++ taken_one (try_send A m c).1 c []) (try_send A m c).0
  unfolding try_send
  try_send-IsSequential start all m c h =
      by_tests m.is_open (ltb (length m.queue) m.capacity) refl refl
    where
      same : IsSequential start (all ++ []) m
      same = subst (λ x. IsSequential start x m) (sym (append-nil all)) h

      by_tests :
          (is_open has_room : Bool)
          → m.is_open ≡ is_open
          → ltb (length m.queue) m.capacity ≡ has_room
          → let r : Mailbox A × Sending A =
              if is_open
              then (if has_room
                  then (record m { queue = m.queue ++ c ∷ [] }, accepted)
                  else (m, full))
              else (m, closed) in
            IsSequential start (all ++ taken_one r.1 c []) r.0
      by_tests false has_room e f = same
      by_tests true false e f = same
      by_tests true true e f = record {
        answered = h.answered;
        order =
            ap (λ x. h.answered ++ x) (sym (append_assoc m.dropped m.queue (c ∷ [])))
            ∙ sym (append_assoc h.answered (m.dropped ++ m.queue) (c ∷ []))
            ∙ ap (λ x. x ++ c ∷ []) h.order;
        state = h.state;
        replies = h.replies;
        kept = h.kept;
        ended = λ k. absurd (let g = sym e ∙ k in ground arith);
        room = (let l = length-append m.queue (c ∷ []) in ground arith);
      }

  taken_one-append :
      (r : Sending A) (c : Command A) (all rest : List (Command A))
      → (all ++ taken_one r c []) ++ rest ≡ all ++ taken_one r c rest
  taken_one-append accepted c all rest = append_assoc all (c ∷ []) rest
  taken_one-append full c all rest = ap (λ x. x ++ rest) (append-nil all)
  taken_one-append closed c all rest = ap (λ x. x ++ rest) (append-nil all)

  run_from :
      (start : State) (events : List (Event A)) (all : List (Command A)) (m : Mailbox A)
      → IsSequential start all m
      → IsSequential start (all ++ taken m events) (run A m events)
  unfolding run step
  run_from start [] all m h = subst (λ x. IsSequential start x m) (sym (append-nil all)) h
  run_from start (sends c ∷ events) all m h =
      let r = try_send A m c in
      subst (λ x. IsSequential start x (run A r.0 events))
        (taken_one-append r.1 c all (taken r.0 events))
        (run_from start events (all ++ taken_one r.1 c []) r.0
          (try_send-IsSequential start all m c h))
  run_from start (serves ∷ events) all m h =
      run_from start events all (serve A m m.queue) (serve-IsSequential start all m m.queue refl h)

  -- Whatever senders and the task do, from the start on: the commands that the mailbox took were
  -- answered in their order up to some point, the others wait in their order or were dropped when
  -- the task ended. The state and the replies are those of an actor that is started and given the
  -- answered commands one after another. Nothing is dropped while the channel is open, nothing
  -- waits after it was closed, and no more wait than the capacity.
  pub run-IsSequential :
      (s : State) (capacity : ℕ) (events : List (Event A))
      → let m = spawn A s capacity in IsSequential (A.on_start s) (taken m events) (run A m events)
  run-IsSequential s capacity events =
      run_from (A.on_start s) events [] (spawn A s capacity) (spawn-IsSequential s capacity)

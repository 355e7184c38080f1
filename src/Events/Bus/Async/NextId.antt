-- ===== src/Events/Bus/Async/NextId.antt =====
-- No step lets the next id grow by more than one.
use boardwalk.Common.{
  ℕ, ◌+◌, ◌≤◌, Bool, Option, none, some, List, [], ◌∷◌, ltb, ◌≡◌, refl, arith, Bool-cases,
  Option-cases, inl, inr, find, nat_eq,
}
use boardwalk.Events.Crates.{Crates}
use boardwalk.Events.Envelope.{EventEnvelope}
use boardwalk.Events.Bus.Mpsc.{Channels, TrySend}
use boardwalk.Events.Bus.Offer.{SubscriptionId}
use boardwalk.Events.Bus.{size_of, subscribe, unsubscribe}
use boardwalk.Events.Bus.Claims.{SendResult, send_result}
use boardwalk.Events.Bus.Async.{Match}
use boardwalk.Events.Bus.Async.Step.{
  Phase, sending, committing, cancelled, Publish, System, Event, start, sends, was_taken, send_with,
  commit_with, drop_with, pick, send_at, commit_at, cancel_at, drop_at, turn, step,
}

module _ (crates : Crates) (channels : Channels crates) where
  next_id-send_with :
      (s : System crates channels) (p : Publish crates channels)
      (b : Publish crates channels → List (Publish crates channels)) (ms : List Match) (r : TrySend)
      (accepted : Bool)
      → (send_with crates channels b p ms r accepted s).bus.next_id ≡ s.bus.next_id
  unfolding send_with
  next_id-send_with s p b [] r accepted = refl
  next_id-send_with s p b (m ∷ ms) r accepted =
      by_result (send_result m.slow_consumer_policy r accepted)
    where
      by_result :
          (o : Option SendResult)
          → (elim o as (λ x. System crates channels) [
            | none ↦ record s { publishes = b (record p { phase = cancelled }) }
            | some result ↦ record s {
              publishes = b (record p { phase = committing result });
              sent =
                  sends crates channels m.id (was_taken m.slow_consumer_policy r accepted) s.sent;
            }
          ]).bus.next_id
            ≡ s.bus.next_id
      by_result none = refl
      by_result (some result) = refl

  next_id-commit_with :
      (s : System crates channels) (p : Publish crates channels)
      (b : Publish crates channels → List (Publish crates channels)) (ms : List Match)
      (result : SendResult)
      → (commit_with crates channels b p ms result s).bus.next_id ≡ s.bus.next_id
  unfolding commit_with
  next_id-commit_with s p b [] result = refl
  next_id-commit_with s p b (m ∷ ms) result = refl

  next_id-drop_with :
      (s : System crates channels) (p : Publish crates channels)
      (b : Publish crates channels → List (Publish crates channels)) (ms : List Match)
      → (drop_with crates channels b p ms s).bus.next_id ≡ s.bus.next_id
  unfolding drop_with
  next_id-drop_with s p b [] = refl
  next_id-drop_with s p b (m ∷ ms) = refl

  next_id-send_at :
      (s : System crates channels) (p : Publish crates channels)
      (b : Publish crates channels → List (Publish crates channels)) (phase : Phase) (r : TrySend)
      (accepted : Bool)
      → (send_at crates channels phase b p r accepted s).bus.next_id ≡ s.bus.next_id
  unfolding send_at
  next_id-send_at s p b sending r accepted = next_id-send_with s p b p.matches r accepted
  next_id-send_at s p b (committing result) r accepted = refl
  next_id-send_at s p b cancelled r accepted = refl

  next_id-commit_at :
      (s : System crates channels) (p : Publish crates channels)
      (b : Publish crates channels → List (Publish crates channels)) (phase : Phase)
      → (commit_at crates channels phase b p s).bus.next_id ≡ s.bus.next_id
  unfolding commit_at
  next_id-commit_at s p b sending = refl
  next_id-commit_at s p b (committing result) = next_id-commit_with s p b p.matches result
  next_id-commit_at s p b cancelled = refl

  next_id-cancel_at :
      (s : System crates channels) (p : Publish crates channels)
      (b : Publish crates channels → List (Publish crates channels)) (phase : Phase)
      → (cancel_at crates channels phase b p s).bus.next_id ≡ s.bus.next_id
  unfolding cancel_at
  next_id-cancel_at s p b sending = refl
  next_id-cancel_at s p b (committing result) = refl
  next_id-cancel_at s p b cancelled = refl

  next_id-drop_at :
      (s : System crates channels) (p : Publish crates channels)
      (b : Publish crates channels → List (Publish crates channels)) (phase : Phase)
      → (drop_at crates channels phase b p s).bus.next_id ≡ s.bus.next_id
  unfolding drop_at
  next_id-drop_at s p b sending = refl
  next_id-drop_at s p b (committing result) = refl
  next_id-drop_at s p b cancelled = next_id-drop_with s p b p.matches

  next_id-turn :
      (s : System crates channels) (i : ℕ)
      (f : (Publish crates channels → List (Publish crates channels))
        → Publish crates channels
        → System crates channels
        → System crates channels)
      → ((b : Publish crates channels → List (Publish crates channels))
            (p : Publish crates channels)
          → (f b p s).bus.next_id ≡ s.bus.next_id)
      → (turn crates channels f i s).bus.next_id ≤ s.bus.next_id + 1
  unfolding turn
  next_id-turn s i f same = by_pick (pick crates channels i s.publishes)
    where
      by_pick :
          (o : Option
            (Publish crates channels × (Publish crates channels → List (Publish crates channels))))
          → (elim o as (λ x. System crates channels) [
            | none ↦ s
            | some (p, b) ↦ f b p s
          ]).bus.next_id
            ≤ s.bus.next_id + 1
      by_pick none = omega arith
      by_pick (some (p, b)) = omega (arith, same b p)

  next_id-start :
      (s : System crates channels) (e : EventEnvelope crates)
      → (start crates channels e s).bus.next_id ≡ s.bus.next_id
  unfolding start
  next_id-start s e = elim (Bool-cases (ltb s.bus.max_event_size (size_of crates channels e))) [
    | inl big ↦ rw (start, big) refl
    | inr fits ↦ rw (start, fits) refl
  ]

  next_id-unsubscribe :
      (s : System crates channels) (id : SubscriptionId)
      → (unsubscribe crates channels s.bus id).0.next_id ≡ s.bus.next_id
  unfolding unsubscribe
  next_id-unsubscribe s id = elim (Option-cases (find id s.bus.subs)) [
    | inl miss ↦ rw (miss, unsubscribe) refl
    | inr (sub, hit) ↦ rw (hit, unsubscribe) refl
  ]

  pub next_id-step :
      (s : System crates channels) (event : Event crates channels)
      → (step crates channels event s).bus.next_id ≤ s.bus.next_id + 1
  unfolding step subscribe
  next_id-step s (Event.begin e) = omega (arith, next_id-start s e)
  next_id-step s (Event.send i r accepted) =
      next_id-turn s i (λ b p. send_at crates channels p.phase b p r accepted)
        (λ b p. next_id-send_at s p b p.phase r accepted)
  next_id-step s (Event.committed i) =
      next_id-turn s i (λ b p. commit_at crates channels p.phase b p)
        (λ b p. next_id-commit_at s p b p.phase)
  next_id-step s (Event.cancel i) =
      next_id-turn s i (λ b p. cancel_at crates channels p.phase b p)
        (λ b p. next_id-cancel_at s p b p.phase)
  next_id-step s (Event.drop_guard i) =
      next_id-turn s i (λ b p. drop_at crates channels p.phase b p)
        (λ b p. next_id-drop_at s p b p.phase)
  next_id-step s (Event.subscribing pattern opts) = omega arith
  next_id-step s (Event.unsubscribing id) = omega (arith, next_id-unsubscribe s id)

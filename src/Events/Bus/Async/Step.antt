-- ===== src/Events/Bus/Async/Step.antt =====
-- The publishes that are under way, and the steps of the bus with them.
use boardwalk.Common.{
  ℕ, zero, suc, Bool, true, false, Option, none, some, List, [], ◌∷◌, ◌++◌, nat_eq, ltb,
  if◌then◌else◌,
}
use boardwalk.Events.Crates.{Crates}
use boardwalk.Events.Envelope.{EventEnvelope}
use boardwalk.Events.Topic.{TopicPattern}
use boardwalk.Events.Policy.{
  SubscribeOpts, SlowConsumerPolicy, backpressure, drop_newest, coalesce, disconnect,
}
use boardwalk.Events.Sequencer.{evict}
use boardwalk.Events.Replay.{record_envelope}
use boardwalk.Events.Bus.Mpsc.{Channels, TrySend}
use boardwalk.Events.Bus.Offer.{SubscriptionId, Outcome}
use boardwalk.Events.Bus.Fanout.{Tally, Subs, remove_all}
use boardwalk.Events.Bus.{EventBus, size_of, subscribe, unsubscribe}
use boardwalk.Events.Bus.Claims.{SendResult, send_result, Claim, inline, claim, refund}
use boardwalk.Events.Bus.Async.{Match, snapshot, commit, slow_notice, count_result, change}

-- What a publish does next: send to its first match, commit the outcome of that, or, once it was
-- cancelled, drop its guards.
pub data Phase : Type 0 where
  sending : Phase
  committing : SendResult → Phase
  cancelled : Phase

-- Whether the channel took the envelope, by what it answered. Only a backpressure send waits at a full
-- channel, and `accepted` says how that ended.
unfoldable pub was_taken : SlowConsumerPolicy → TrySend → Bool → Bool
was_taken policy TrySend.sent accepted = true
was_taken policy TrySend.closed accepted = false
was_taken backpressure TrySend.full accepted = accepted
was_taken drop_newest TrySend.full accepted = false
was_taken (coalesce key_path) TrySend.full accepted = false
was_taken disconnect TrySend.full accepted = false

module _ (crates : Crates) (channels : Channels crates) where
  -- A publish between two of its steps, with the matches that it has not yet committed.
  pub record Publish : Type 0 where
    pub envelope : EventEnvelope crates
    pub matches : List Match
    pub tally : Tally
    pub phase : Phase

  -- `sent` lists the subscriptions whose ends took an envelope, one entry for each envelope.
  pub record System : Type 0 where
    pub bus : EventBus crates channels
    pub publishes : List Publish
    pub sent : List SubscriptionId

  pub data Event : Type 0 where
    begin : EventEnvelope crates → Event
    send : ℕ → TrySend → Bool → Event
    committed : ℕ → Event
    cancel : ℕ → Event
    drop_guard : ℕ → Event
    subscribing : TopicPattern crates → SubscribeOpts → Event
    unsubscribing : SubscriptionId → Event

  unfoldable pub sent_inline :
      SubscriptionId → Claim crates channels → List SubscriptionId → List SubscriptionId
  sent_inline id (inline Outcome.delivered) sent = id ∷ sent
  sent_inline id (inline Outcome.last_delivery) sent = id ∷ sent
  sent_inline id _ sent = sent

  -- The subscriptions that the loop under the lock sends to.
  unfoldable pub sent_by : EventEnvelope crates → Subs crates channels → List SubscriptionId
  sent_by envelope [] = []
  sent_by envelope ((id, sub) ∷ subs) =
      let rest = sent_by envelope subs in sent_inline id (claim crates channels envelope sub).1 rest

  -- The part of `publish` up to the first send.
  unfoldable pub start : EventEnvelope crates → System → System
  start envelope s =
      if ltb s.bus.max_event_size (size_of crates channels envelope)
      then record s { bus = record (s.bus) { registry = evict s.bus.registry envelope.event_id } }
      else (let (cache, registry) = record_envelope s.bus.replay_cache s.bus.registry envelope in
          let (subs, tally, matches) = snapshot crates channels envelope s.bus.subs in
          let (kept, gone) = remove_all crates channels tally.to_remove subs s.bus.detached in
          record {
            bus = record (s.bus) {
              subs = kept;
              registry = registry;
              replay_cache = cache;
              detached = gone;
            };
            publishes =
                record { envelope = envelope; matches = matches; tally = tally; phase = sending }
                ∷ s.publishes;
            sent = sent_by envelope s.bus.subs ++ s.sent;
          })

  unfoldable pub sends : SubscriptionId → Bool → List SubscriptionId → List SubscriptionId
  sends id true sent = id ∷ sent
  sends id false sent = sent

  -- The first half of a round of the send loop: the channel is sent to, without the lock. The
  -- `unreachable!` unwinds the publish, which drops its guards.
  unfoldable pub send_with :
      (Publish → List Publish) → Publish → List Match → TrySend → Bool → System → System
  send_with put_back p [] r accepted s = s
  send_with put_back p (m ∷ ms) r accepted s =
      elim (send_result m.slow_consumer_policy r accepted) [
        | none ↦ record s { publishes = put_back (record p { phase = cancelled }) }
        | some result ↦ record s {
          publishes = put_back (record p { phase = committing result });
          sent = sends m.id (was_taken m.slow_consumer_policy r accepted) s.sent;
        }
      ]

  -- The second half: the outcome is committed under the lock.
  unfoldable pub commit_with :
      (Publish → List Publish) → Publish → List Match → SendResult → System → System
  commit_with put_back p [] result s = s
  commit_with put_back p (m ∷ ms) result s =
      let (subs, detached) =
        commit crates channels p.envelope m.id result (s.bus.subs, s.bus.detached) in
      record s {
        bus = record (s.bus) { subs = subs; detached = detached };
        publishes = put_back (record p {
          matches = ms;
          tally =
              count_result crates channels m.id result (slow_notice crates channels m.id s.bus.subs)
                p.tally;
          phase = sending;
        });
      }

  -- `ClaimGuard::drop`, for the first guard that a cancelled publish still has.
  unfoldable pub drop_with : (Publish → List Publish) → Publish → List Match → System → System
  drop_with put_back p [] s = s
  drop_with put_back p (m ∷ ms) s = record s {
    bus = record (s.bus) { subs = change crates channels m.id (refund crates channels) s.bus.subs };
    publishes = put_back (record p { matches = ms });
  }

  -- The publish at an index, with the function that puts another in its place.
  unfoldable pub pick : ℕ → List Publish → Option (Publish × (Publish → List Publish))
  pick i [] = none
  pick zero (p ∷ ps) = some (p, λ q. q ∷ ps)
  pick (suc i) (p ∷ ps) = elim (pick i ps) [
    | none ↦ none
    | some (q, put_back) ↦ some (q, λ x. p ∷ put_back x)
  ]

  -- A step of a publish in its phase; one that does not fit the phase changes nothing. A publish
  -- can be cancelled where it waits for a channel, and not between a send and its commit.
  unfoldable pub send_at :
      Phase → (Publish → List Publish) → Publish → TrySend → Bool → System → System
  send_at sending put_back p r accepted s = send_with put_back p p.matches r accepted s
  send_at (committing result) put_back p r accepted s = s
  send_at cancelled put_back p r accepted s = s

  unfoldable pub commit_at : Phase → (Publish → List Publish) → Publish → System → System
  commit_at (committing result) put_back p s = commit_with put_back p p.matches result s
  commit_at sending put_back p s = s
  commit_at cancelled put_back p s = s

  unfoldable pub cancel_at : Phase → (Publish → List Publish) → Publish → System → System
  cancel_at sending put_back p s = record s {
    publishes = put_back (record p { phase = cancelled });
  }
  cancel_at (committing result) put_back p s = s
  cancel_at cancelled put_back p s = s

  unfoldable pub drop_at : Phase → (Publish → List Publish) → Publish → System → System
  drop_at cancelled put_back p s = drop_with put_back p p.matches s
  drop_at sending put_back p s = s
  drop_at (committing result) put_back p s = s

  -- A step of the publish at an index.
  unfoldable pub turn : ((Publish → List Publish) → Publish → System → System) → ℕ → System → System
  turn f i s = elim (pick i s.publishes) [ none ↦ s | some (p, put_back) ↦ f put_back p s ]

  unfoldable pub step : Event → System → System
  unfolding start turn send_at commit_at cancel_at drop_at
  step (begin envelope) s = start envelope s
  step (send i r accepted) s = turn (λ b p. send_at p.phase b p r accepted) i s
  step (committed i) s = turn (λ b p. commit_at p.phase b p) i s
  step (cancel i) s = turn (λ b p. cancel_at p.phase b p) i s
  step (drop_guard i) s = turn (λ b p. drop_at p.phase b p) i s
  step (subscribing pattern opts) s = record s {
    bus = (subscribe crates channels s.bus pattern opts).1;
  }
  step (unsubscribing id) s = record s { bus = (unsubscribe crates channels s.bus id).0 }

  unfoldable pub run : List Event → System → System
  run [] s = s
  run (e ∷ es) s = run es (step e s)

-- ===== src/Events/Bus/Async/Tests.antt =====
-- Two publishes that overlap on a subscription with a quota of one.
use boardwalk.Common.{
  put, split, ◌=s◌, ◌≤◌, true, false, none, some, List, [], ◌∷◌, find, nat_eq, ◌≡◌, refl, arith,
}
use boardwalk.Samples.{crates, channels, on, off, pattern, bus}
use boardwalk.Events.Policy.{SubscribeOpts, disconnect}
use boardwalk.Events.Bus.Mpsc.{sent, full}
use boardwalk.Events.Bus.Offer.{is_addressed}
use boardwalk.Events.Bus.{subscribe, size_of}
use boardwalk.Events.Bus.Claims.{claim, claim_slot, take_slot}
use boardwalk.Events.Bus.Async.{snapshot, add_match}
use boardwalk.Events.Topic.{matches_event, matches_topic, matches_at}
use boardwalk.Events.Envelope.{topic}
use boardwalk.Events.Bus.Async.Step.{
  pick, System, Event, begin, send, committed, cancel, drop_guard, step, run,
}
use boardwalk.Events.Bus.Async.Listing.{count_id}
use boardwalk.Events.Bus.Async.Slots.{Quota}
use boardwalk.Events.Bus.Async.Totals.{unsent_of, held_of, total}
use boardwalk.Events.Bus.Async.Runs.{run-Quota}
use boardwalk.Events.Bus.Async.Turns.{drain, left_of}
use boardwalk.Events.Bus.Async.Settled.{IsSettled, drain-IsSettled}

abbrev opts : SubscribeOpts
opts = record { limit = some 1; outbound_capacity = none; slow_consumer_policy = disconnect }

abbrev quiet : System crates channels
quiet = record { bus = record bus { subs = [] }; publishes = []; sent = [] }

-- The second publish starts while the first holds the only slot; the first is cancelled and gives
-- the slot back, which a third one then takes and sends for.
abbrev events : List (Event crates channels)
events =
    begin on ∷ begin off ∷ cancel 1 ∷ drop_guard 1 ∷ begin off ∷ send 0 sent true ∷ committed 0 ∷ []

run-Quota_example :
    let t =
      run crates channels events
        (record quiet { bus = (subscribe crates channels quiet.bus pattern opts).1; sent = [] }) in
    (count_id 4 t.sent ≤ 1)
    × Quota crates channels 1
        (count_id 4 t.sent)
        (total crates channels (unsent_of crates channels 4) t.publishes)
        (total crates channels (held_of crates channels 4) t.publishes)
        (find 4 t.bus.subs)
run-Quota_example =
    run-Quota crates channels 1 quiet pattern opts events refl (omega arith) (omega arith) tt refl
      (omega arith)

abbrev begun : System crates channels
begun = record quiet { bus = (subscribe crates channels quiet.bus pattern opts).1; sent = [] }

-- The publish takes the only slot.
begun_left :
    total crates channels
      (left_of crates channels)
      (run crates channels (begin on ∷ []) begun).publishes
    ≡ 1
unfolding run step pick subscribe size_of snapshot put add_match claim is_addressed matches_event
    matches_topic matches_at split topic ◌=s◌ claim_slot take_slot
begun_left = refl

-- The channel is full, and the slow consumer is disconnected.
drain-IsSettled_example :
    let t =
      drain crates channels
        ((full, false) ∷ (full, false) ∷ [])
        (run crates channels (begin on ∷ []) begun) in
    (total crates channels (left_of crates channels) t.publishes ≡ 0)
    × IsSettled crates channels 1 (count_id 4 t.sent) (find 4 t.bus.subs)
drain-IsSettled_example =
    drain-IsSettled crates channels 1 quiet pattern opts (begin on ∷ [])
      ((full, false) ∷ (full, false) ∷ []) refl (omega arith) (omega arith) tt refl (omega arith)
      (omega (arith, begun_left))

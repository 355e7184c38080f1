-- ===== src/Events/Bus/Async/Settled.antt =====
-- events/bus.rs, `publish`: no claim on a quota is lost. When the publishes under way have had their
-- turns, the slots of a subscription are as if there had been no claims.
use boardwalk.Common.{
  ℕ, ◌+◌, ◌*◌, ◌^◌, ◌≤◌, ◌<◌, Bool, Option, none, some, List, [], ◌∷◌, length, ◌≡◌, ◌∙◌, arith,
  find, nat_eq,
}
use boardwalk.Events.Crates.{Crates}
use boardwalk.Events.Topic.{TopicPattern}
use boardwalk.Events.Policy.{SubscribeOpts}
use boardwalk.Events.Bus.Mpsc.{Channels, TrySend}
use boardwalk.Events.Bus.Offer.{Subscription, SubscriptionId}
use boardwalk.Events.Bus.{subscribe}
use boardwalk.Events.Bus.Survivors.{HasDistinctIds}
use boardwalk.Events.Bus.Async.{Match}
use boardwalk.Events.Bus.Async.Step.{Publish, System, Event, step, run}
use boardwalk.Events.Bus.Async.Listing.{count_id, count_matches}
use boardwalk.Events.Bus.Async.Slots.{Quota}
use boardwalk.Events.Bus.Async.Totals.{unsent_of, held_of, total}
use boardwalk.Events.Bus.Async.Quota.{Inv}
use boardwalk.Events.Bus.Async.Begin.{step-Inv}
use boardwalk.Events.Bus.Async.NextId.{next_id-step}
use boardwalk.Events.Bus.Async.Runs.{run-Inv, total-unsent_le, subscribed-Inv, room_after}
use boardwalk.Events.Bus.Async.Turns.{next, drain, left_of}
use boardwalk.Events.Bus.Async.Progress.{left-drain}

count_matches-le : (j : SubscriptionId) (ms : List Match) → count_matches j ms ≤ length ms
count_matches-le j [] = omega arith
count_matches-le j (m ∷ ms) = ground (arith, count_matches-le j ms)

module _ (crates : Crates) (channels : Channels crates) where
  next_id-run :
      (events : List (Event crates channels)) (s : System crates channels)
      → (run crates channels events s).bus.next_id ≤ s.bus.next_id + length events
  unfolding run
  next_id-run [] s = omega arith
  next_id-run (e ∷ es) s =
      omega (arith, next_id-run es (step crates channels e s), next_id-step crates channels s e)

  next_id-subscribe :
      (s : System crates channels) (pattern : TopicPattern crates) (opts : SubscribeOpts)
      → (subscribe crates channels s.bus pattern opts).1.next_id ≤ s.bus.next_id + 1
  unfolding subscribe
  next_id-subscribe s pattern opts = omega arith

  drain-Inv :
      {j n : ℕ} (answers : List (TrySend × Bool)) (s : System crates channels)
      → n < 2 ^ 64
      → s.bus.next_id + length answers < 2 ^ 64
      → Inv crates channels j n s
      → Inv crates channels j n (drain crates channels answers s)
  drain-Inv [] s small room h = h
  drain-Inv (answer ∷ answers) s small room h =
      let event = next crates channels answer s in
      drain-Inv answers (step crates channels event s) small
        (omega (arith, next_id-step crates channels s event))
        (step-Inv crates channels s event small (omega arith) h)

  held-le-left :
      (j : SubscriptionId) (ps : List (Publish crates channels))
      → total crates channels (held_of crates channels j) ps
        ≤ total crates channels (left_of crates channels) ps
  held-le-left j [] = omega arith
  held-le-left j (p ∷ ps) = omega (arith, held-le-left j ps, count_matches-le j p.matches)

  -- Of a quota of `n`, `d` envelopes were sent, no slot is claimed, and all others are left.
  abbrev pub IsSettled : ℕ → ℕ → Option (Subscription crates channels) → Type 0
  IsSettled n d none = d ≤ n
  IsSettled n d (some sub) =
      (rem : ℕ) × (sub.remaining ≡ some rem) × (sub.in_flight ≡ 0) × (d + rem ≡ n) × (1 ≤ rem)

  Quota-IsSettled :
      (n d q p : ℕ) (o : Option (Subscription crates channels))
      → q ≡ 0
      → p ≡ 0
      → Quota crates channels n d q p o
      → IsSettled n d o
  Quota-IsSettled n d q p none e k h = omega arith
  Quota-IsSettled n d q p (some sub) e k h =
      (h.rem, h.left, h.pending ∙ k, omega (arith, h.total), omega (arith, h.live))

  -- Subscribe with a limit of `n`, where `n` is between 1 and `2 ^ 64 - 1`, the ids of the table are
  -- different, and no publish under way holds a claim on the new id. Let any events happen, in any
  -- order, and then let the publishes under way have their turns, two for each match that is left,
  -- whatever the channels answer, all within the 64-bit ids; a turn that sends is one that the
  -- channel answers. Then no match is left, so every publish is at its end. If the subscription is still in the table, its `in_flight` is 0, and what was sent
  -- to it and its `remaining`, which is at least 1, make `n`: every slot that was claimed and not
  -- sent for was given back. If it is not in the table, at most `n` envelopes were sent to it.
  pub drain-IsSettled :
      (n : ℕ) (s : System crates channels) (pattern : TopicPattern crates) (opts : SubscribeOpts)
      (events : List (Event crates channels)) (answers : List (TrySend × Bool))
      → opts.limit ≡ some n
      → 1 ≤ n
      → n < 2 ^ 64
      → HasDistinctIds crates channels s.bus.subs
      → total crates channels (held_of crates channels s.bus.next_id) s.publishes ≡ 0
      → s.bus.next_id + 1 + length events + length answers < 2 ^ 64
      → 2
          * total crates channels
              (left_of crates channels)
              (run crates channels events (record s {
                bus = (subscribe crates channels s.bus pattern opts).1;
                sent = [];
              })).publishes
        ≤ length answers
      → let id = s.bus.next_id in
        let begun = record s {
          bus = (subscribe crates channels s.bus pattern opts).1;
          sent = [];
        } in
        let t = drain crates channels answers (run crates channels events begun) in
        (total crates channels (left_of crates channels) t.publishes ≡ 0)
        × IsSettled n (count_id id t.sent) (find id t.bus.subs)
  drain-IsSettled n s pattern opts events answers limit pos small d held room turns =
      let begun = record s { bus = (subscribe crates channels s.bus pattern opts).1; sent = [] } in
      let t = run crates channels events begun in
      let u = drain crates channels answers t in
      let id = s.bus.next_id in
      let bound = next_id-run events begun in
      let first = next_id-subscribe s pattern opts in
      let kept : Inv crates channels id n u = drain-Inv answers t small (omega arith) (
        run-Inv crates channels events begun small
          (room_after crates channels s pattern opts events (omega arith))
          (subscribed-Inv crates channels n s pattern opts limit pos d held (omega arith))) in
      let nothing = left-drain crates channels answers t turns in
      let held_none = held-le-left id u.publishes in
      let unsent_none = total-unsent_le crates channels id u.publishes in
      (
        nothing,
        Quota-IsSettled n (count_id id u.sent)
            (total crates channels (unsent_of crates channels id) u.publishes)
            (total crates channels (held_of crates channels id) u.publishes) (find id u.bus.subs)
            (omega arith) (omega arith) kept.quota,
      )

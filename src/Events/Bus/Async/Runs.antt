-- ===== src/Events/Bus/Async/Runs.antt =====
-- The quota of a subscription over every run: any number of publishes, in any interleaving.
use boardwalk.Common.{
  ℕ, ◌+◌, ◌^◌, ◌≤◌, ◌<◌, some, List, [], ◌∷◌, length, ◌≡◌, sym, subst, arith, find, find-put_self,
  nat_eq,
}
use boardwalk.Events.Crates.{Crates}
use boardwalk.Events.Topic.{TopicPattern}
use boardwalk.Events.Policy.{SubscribeOpts}
use boardwalk.Events.Bus.Mpsc.{Channels}
use boardwalk.Events.Bus.Offer.{Outbound, SubscriptionId}
use boardwalk.Events.Bus.{subscribe}
use boardwalk.Events.Bus.Survivors.{HasDistinctIds}
use boardwalk.Events.Bus.Claims.{SendResult}
use boardwalk.Events.Bus.Async.{Match}
use boardwalk.Events.Bus.Async.Step.{
  Phase, sending, committing, cancelled, Publish, System, Event, step, run,
}
use boardwalk.Events.Bus.Async.Listing.{count_id, count_matches, put-HasDistinctIds}
use boardwalk.Events.Bus.Async.Slots.{Claimable, Quota, Quota-le}
use boardwalk.Events.Bus.Async.Totals.{unsent, unsent_of, held_of, total}
use boardwalk.Events.Bus.Async.Quota.{Inv}
use boardwalk.Events.Bus.Async.Begin.{step-Inv}
use boardwalk.Events.Bus.Async.NextId.{next_id-step}

module _ (crates : Crates) (channels : Channels crates) where
  pub run-Inv :
      {j n : ℕ} (events : List (Event crates channels)) (s : System crates channels)
      → n < 2 ^ 64
      → s.bus.next_id + length events < 2 ^ 64
      → Inv crates channels j n s
      → Inv crates channels j n (run crates channels events s)
  unfolding run
  run-Inv [] s small room h = h
  run-Inv (event ∷ events) s small room h =
      run-Inv events (step crates channels event s) small
        (omega (arith, next_id-step crates channels s event))
        (step-Inv crates channels s event small (omega arith) h)

  unsent_le :
      (j : SubscriptionId) (phase : Phase) (ms : List Match)
      → unsent crates channels j phase ms ≤ count_matches j ms
  unsent_le j sending ms = omega arith
  unsent_le j (committing SendResult.delivered) [] = omega arith
  unsent_le j (committing SendResult.delivered) (m ∷ ms) = omega arith
  unsent_le j (committing SendResult.dropped) ms = omega arith
  unsent_le j (committing SendResult.disconnect_slow_consumer) ms = omega arith
  unsent_le j (committing SendResult.closed) ms = omega arith
  unsent_le j cancelled ms = omega arith

  pub total-unsent_le :
      (j : SubscriptionId) (ps : List (Publish crates channels))
      → total crates channels (unsent_of crates channels j) ps
        ≤ total crates channels (held_of crates channels j) ps
  total-unsent_le j [] = omega arith
  total-unsent_le j (p ∷ ps) = omega (arith, total-unsent_le j ps, unsent_le j p.phase p.matches)

  Claimable-none : (p : ℕ) (o : Outbound crates channels) → p ≡ 0 → Claimable crates channels p o
  Claimable-none p (Outbound.queue state) e = e
  Claimable-none p (Outbound.mpsc tx) e = tt

  -- The subscription that `subscribe` makes with a limit of `n`.
  pub subscribed-Inv :
      (n : ℕ) (s : System crates channels) (pattern : TopicPattern crates) (opts : SubscribeOpts)
      → opts.limit ≡ some n
      → 1 ≤ n
      → HasDistinctIds crates channels s.bus.subs
      → total crates channels (held_of crates channels s.bus.next_id) s.publishes ≡ 0
      → s.bus.next_id + 1 < 2 ^ 64
      → Inv crates channels s.bus.next_id n
          (record s { bus = (subscribe crates channels s.bus pattern opts).1; sent = [] })
  unfolding subscribe
  subscribed-Inv n s pattern opts limit pos d held room =
      let unsent = total-unsent_le s.bus.next_id s.publishes in
      record {
        distinct = put-HasDistinctIds crates channels s.bus.next_id _ s.bus.subs d;
        earlier = omega arith;
        quota =
            subst (Quota crates channels n 0 _ _) (sym (find-put_self s.bus.next_id _ s.bus.subs))
              (record {
                rem = n;
                left = limit;
                pending = sym held;
                total = omega (arith, unsent);
                live = omega arith;
                claims = omega (arith, held);
                kind = Claimable-none _ _ held;
              });
      }

  pub room_after :
      (s : System crates channels) (pattern : TopicPattern crates) (opts : SubscribeOpts)
      (events : List (Event crates channels))
      → s.bus.next_id + 1 + length events < 2 ^ 64
      → (subscribe crates channels s.bus pattern opts).1.next_id + length events < 2 ^ 64
  unfolding subscribe
  room_after s pattern opts events room = omega arith

  below :
      (n : ℕ) (t : System crates channels) (j : SubscriptionId)
      → Inv crates channels j n t
      → count_id j t.sent ≤ n
  below n t j h =
      let le =
        Quota-le crates channels n (count_id j t.sent)
          (total crates channels (unsent_of crates channels j) t.publishes)
          (total crates channels (held_of crates channels j) t.publishes) (find j t.bus.subs)
          h.quota in
      omega (arith, le)

  -- Subscribe with a limit of `n`, where `n` is between 1 and `2 ^ 64 - 1`, the ids of the table are
  -- different, and no publish under way holds a claim on the new id. Then let any events happen, in
  -- any order: publishes that start, send, commit, are cancelled and drop their guards, other
  -- subscriptions and unsubscriptions, as many as the 64-bit ids last for. At the end at most `n`
  -- envelopes were sent to the subscription. While it is in the table, the envelopes sent to it,
  -- the claims that may still be sent and the slots left make `n`, its `in_flight` is the number of
  -- claims that the publishes hold, and some slot is left or claimed: an entry whose slots are
  -- all used up never stays.
  pub run-Quota :
      (n : ℕ) (s : System crates channels) (pattern : TopicPattern crates) (opts : SubscribeOpts)
      (events : List (Event crates channels))
      → opts.limit ≡ some n
      → 1 ≤ n
      → n < 2 ^ 64
      → HasDistinctIds crates channels s.bus.subs
      → total crates channels (held_of crates channels s.bus.next_id) s.publishes ≡ 0
      → s.bus.next_id + 1 + length events < 2 ^ 64
      → let id = s.bus.next_id in
        let begun = record s {
          bus = (subscribe crates channels s.bus pattern opts).1;
          sent = [];
        } in
        let t = run crates channels events begun in
        (count_id id t.sent ≤ n)
        × Quota crates channels n
            (count_id id t.sent)
            (total crates channels (unsent_of crates channels id) t.publishes)
            (total crates channels (held_of crates channels id) t.publishes)
            (find id t.bus.subs)
  run-Quota n s pattern opts events limit pos small d held room =
      let begun = record s { bus = (subscribe crates channels s.bus pattern opts).1; sent = [] } in
      let kept : Inv crates channels s.bus.next_id n (run crates channels events begun) =
        run-Inv events begun small (room_after s pattern opts events room)
          (subscribed-Inv n s pattern opts limit pos d held (omega arith)) in
      (below n (run crates channels events begun) s.bus.next_id kept, kept.quota)

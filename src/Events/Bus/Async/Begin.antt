-- ===== src/Events/Bus/Async/Begin.antt =====
-- Every step keeps the quota of a subscription, and so does every run.
use boardwalk.Common.{
  ℕ, ◌+◌, ◌^◌, ◌<◌, Bool, true, false, ◌==◌, Option, none, some, ◌++◌, ltb, if◌then◌else◌, ◌≡◌,
  refl, sym, subst, arith, Bool-cases, Option-cases, inl, inr, find, put, find-put, find-delete,
  nat_eq,
}
use boardwalk.Events.Crates.{Crates}
use boardwalk.Events.Envelope.{EventEnvelope}
use boardwalk.Events.Topic.{TopicPattern}
use boardwalk.Events.Policy.{SubscribeOpts}
use boardwalk.Events.Bus.Mpsc.{Channels}
use boardwalk.Events.Bus.Offer.{SubscriptionId, Subscription}
use boardwalk.Events.Bus.Fanout.{Subs}
use boardwalk.Events.Bus.{size_of, subscribe, unsubscribe}
use boardwalk.Events.Bus.Survivors.{is_in, find-remove_all}
use boardwalk.Events.Bus.Claims.{claim}
use boardwalk.Events.Bus.Async.{snapshot}
use boardwalk.Events.Bus.Async.Step.{
  System, Event, sent_by, start, send_at, commit_at, cancel_at, drop_at, step,
}
use boardwalk.Events.Bus.Async.Listing.{
  count_id, count_matches, count_id-append, put-HasDistinctIds, delete-HasDistinctIds,
  remove_all-HasDistinctIds, snapshot-HasDistinctIds,
}
use boardwalk.Events.Bus.Async.Snapped.{Snapped, snapshot-Snapped}
use boardwalk.Events.Bus.Async.Slots.{Quota, Quota-le, Claims-claim}
use boardwalk.Events.Bus.Async.Totals.{unsent_of, held_of, total, Quota-cast}
use boardwalk.Events.Bus.Async.Quota.{Inv}
use boardwalk.Events.Bus.Async.Quota.{turn-Inv, send_at-Inv, cancel_at-Inv}
use boardwalk.Events.Bus.Async.Totals.{Quota-Claims}
use boardwalk.Events.Bus.Async.Ends.{commit_at-Inv, drop_at-Inv}

module _ (crates : Crates) (channels : Channels crates) where
  -- The quota after the loop under the lock, from what the loop does at an id.
  Quota-Snapped :
      (n : ℕ) (e : EventEnvelope crates) (j d q r : ℕ) (subs : Subs crates channels)
      (o : Option (Subscription crates channels))
      → n < 2 ^ 64
      → Snapped crates channels e j subs o
      → Quota crates channels n d q r o
      → let x = snapshot crates channels e subs in
        Quota crates channels n
          (count_id j (sent_by crates channels e subs) + d)
          (count_matches j x.2 + q)
          (count_matches j x.2 + r)
          (if is_in j x.1.to_remove then none else find j x.0)
  Quota-Snapped n e j d q r subs none small (a, b, c, s) h = rw (a, b, c, s) (omega (arith, h))
  Quota-Snapped n e j d q r subs (some sub) small (a, b, c, s) h =
      rw (a, b, c, s)
        (Quota-Claims crates channels n d q r (claim crates channels e sub).0
          (claim crates channels e sub).1 (Claims-claim crates channels n d q r e sub small h))

  start-Inv :
      {j n : ℕ} (s : System crates channels) (e : EventEnvelope crates)
      → n < 2 ^ 64
      → Inv crates channels j n s
      → Inv crates channels j n (start crates channels e s)
  unfolding start
  start-Inv {j} {n} s e small h =
      elim (Bool-cases (ltb s.bus.max_event_size (size_of crates channels e))) [
        | inl big ↦
            rw (start, big) (record { distinct = h.distinct; earlier = h.earlier; quota = h.quota })
        | inr fits ↦
            let x = snapshot crates channels e s.bus.subs in
            rw (start, fits)
              (record {
                distinct =
                    remove_all-HasDistinctIds crates channels x.1.to_remove x.0 s.bus.detached
                      (snapshot-HasDistinctIds crates channels e s.bus.subs h.distinct);
                earlier = h.earlier;
                quota =
                    subst
                      (Quota crates channels n
                        (count_id j (sent_by crates channels e s.bus.subs ++ s.sent))
                        (count_matches j x.2
                          + total crates channels (unsent_of crates channels j) s.publishes)
                        (count_matches j x.2
                          + total crates channels (held_of crates channels j) s.publishes))
                      (sym (find-remove_all crates channels x.1.to_remove x.0 s.bus.detached j))
                      (Quota-cast crates channels n
                        (count_id j (sent_by crates channels e s.bus.subs) + count_id j s.sent)
                        (count_id j (sent_by crates channels e s.bus.subs ++ s.sent))
                        (count_matches j x.2
                          + total crates channels (unsent_of crates channels j) s.publishes)
                        (count_matches j x.2
                          + total crates channels (unsent_of crates channels j) s.publishes)
                        (count_matches j x.2
                          + total crates channels (held_of crates channels j) s.publishes)
                        (count_matches j x.2
                          + total crates channels (held_of crates channels j) s.publishes)
                        (if is_in j x.1.to_remove then none else find j x.0)
                        (sym (count_id-append j (sent_by crates channels e s.bus.subs) s.sent)) refl
                        refl
                        (Quota-Snapped n e j (count_id j s.sent)
                          (total crates channels (unsent_of crates channels j) s.publishes)
                          (total crates channels (held_of crates channels j) s.publishes) s.bus.subs
                          (find j s.bus.subs) small
                          (snapshot-Snapped crates channels e j s.bus.subs h.distinct) h.quota));
              })
      ]

  find-put_earlier :
      (j id : SubscriptionId) (v : Subscription crates channels) (subs : Subs crates channels)
      → j < id
      → find j (put id v subs) ≡ find j subs
  find-put_earlier j id v subs less = ground (arith, find-put j id v subs)

  Quota-if_gone :
      (n d q r : ℕ) (o : Option (Subscription crates channels)) (b : Bool)
      → Quota crates channels n d q r o
      → Quota crates channels n d q r (if b then none else o)
  Quota-if_gone n d q r o true h = Quota-le crates channels n d q r o h
  Quota-if_gone n d q r o false h = h

  subscribe-Inv :
      {j n : ℕ} (s : System crates channels) (pattern : TopicPattern crates) (opts : SubscribeOpts)
      → s.bus.next_id + 1 < 2 ^ 64
      → Inv crates channels j n s
      → Inv crates channels j n
          (record s { bus = (subscribe crates channels s.bus pattern opts).1 })
  unfolding subscribe
  subscribe-Inv {j} {n} s pattern opts room h = record {
    distinct = put-HasDistinctIds crates channels s.bus.next_id _ s.bus.subs h.distinct;
    earlier = omega (arith, h.earlier);
    quota =
        subst
          (Quota crates channels n (count_id j s.sent)
            (total crates channels (unsent_of crates channels j) s.publishes)
            (total crates channels (held_of crates channels j) s.publishes))
          (sym (find-put_earlier j s.bus.next_id _ s.bus.subs h.earlier)) h.quota;
  }

  unsubscribe-Inv :
      {j n : ℕ} (s : System crates channels) (id : SubscriptionId)
      → Inv crates channels j n s
      → Inv crates channels j n (record s { bus = (unsubscribe crates channels s.bus id).0 })
  unfolding unsubscribe
  unsubscribe-Inv {j} {n} s id h = elim (Option-cases (find id s.bus.subs)) [
    | inl miss ↦ rw (miss, unsubscribe) h
    | inr (sub, hit) ↦
        rw (hit, unsubscribe)
          (record {
            distinct = delete-HasDistinctIds crates channels id s.bus.subs h.distinct;
            earlier = h.earlier;
            quota =
                subst
                  (Quota crates channels n (count_id j s.sent)
                    (total crates channels (unsent_of crates channels j) s.publishes)
                    (total crates channels (held_of crates channels j) s.publishes))
                  (sym (find-delete j id s.bus.subs))
                  (Quota-if_gone n (count_id j s.sent)
                    (total crates channels (unsent_of crates channels j) s.publishes)
                    (total crates channels (held_of crates channels j) s.publishes)
                    (find j s.bus.subs) (id == j) h.quota);
          })
  ]

  pub step-Inv :
      {j n : ℕ} (s : System crates channels) (event : Event crates channels)
      → n < 2 ^ 64
      → s.bus.next_id + 1 < 2 ^ 64
      → Inv crates channels j n s
      → Inv crates channels j n (step crates channels event s)
  unfolding step
  step-Inv s (Event.begin e) small room h = start-Inv s e small h
  step-Inv s (Event.send i r accepted) small room h =
      turn-Inv crates channels s i (λ b p. send_at crates channels p.phase b p r accepted) h
        (λ b p fits. send_at-Inv crates channels s p b p.phase r accepted refl fits h)
  step-Inv s (Event.committed i) small room h =
      turn-Inv crates channels s i (λ b p. commit_at crates channels p.phase b p) h
        (λ b p fits. commit_at-Inv crates channels s p b p.phase small refl fits h)
  step-Inv s (Event.cancel i) small room h =
      turn-Inv crates channels s i (λ b p. cancel_at crates channels p.phase b p) h
        (λ b p fits. cancel_at-Inv crates channels s p b p.phase refl fits h)
  step-Inv s (Event.drop_guard i) small room h =
      turn-Inv crates channels s i (λ b p. drop_at crates channels p.phase b p) h
        (λ b p fits. drop_at-Inv crates channels s p b p.phase small refl fits h)
  step-Inv s (Event.subscribing pattern opts) small room h = subscribe-Inv s pattern opts room h
  step-Inv s (Event.unsubscribing id) small room h = unsubscribe-Inv s id h

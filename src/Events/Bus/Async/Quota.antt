-- ===== src/Events/Bus/Async/Quota.antt =====
-- The quota of a subscription over every interleaving of asynchronous publishes.
use boardwalk.Common.{
  ℕ, suc, ◌+◌, ◌<◌, Bool, true, false, eq-of_some, subst, ◌==◌, Option, none, some, List, [], ◌∷◌,
  if◌then◌else◌, ◌≡◌, refl, sym, ◌∙◌, ap, arith, Bool-cases, inl, inr, find, nat_eq,
}
use boardwalk.Events.Crates.{Crates}
use boardwalk.Events.Policy.{SlowConsumerPolicy, backpressure, drop_newest, coalesce, disconnect}
use boardwalk.Events.Bus.Mpsc.{Channels, TrySend}
use boardwalk.Events.Bus.Offer.{SubscriptionId}
use boardwalk.Events.Bus.Survivors.{HasDistinctIds}
use boardwalk.Events.Bus.Claims.{SendResult, send_result, when_full}
use boardwalk.Events.Bus.Async.{Match}
use boardwalk.Events.Bus.Async.Step.{
  Phase, sending, committing, cancelled, Publish, System, sends, was_taken, send_with, pick,
  send_at, cancel_at, turn,
}
use boardwalk.Events.Bus.Async.Listing.{count_id, count_matches}
use boardwalk.Events.Bus.Async.Slots.{Quota}
use boardwalk.Events.Bus.Async.Totals.{
  unsent, unsent_of, held_of, total, Fits, pick-Fits, Quota-cast, Quota-sent,
}

abbrev is_delivered : SendResult → Bool
is_delivered SendResult.delivered = true
is_delivered SendResult.dropped = false
is_delivered SendResult.disconnect_slow_consumer = false
is_delivered SendResult.closed = false

-- What the loop takes for delivered is what the channel took.
was_taken-is_delivered :
    (policy : SlowConsumerPolicy) (r : TrySend) (accepted : Bool) (result : SendResult)
    → send_result policy r accepted ≡ some result
    → was_taken policy r accepted ≡ is_delivered result
unfolding was_taken send_result when_full
was_taken-is_delivered policy TrySend.sent accepted result e = ap is_delivered (eq-of_some e)
was_taken-is_delivered policy TrySend.closed accepted result e = ap is_delivered (eq-of_some e)
was_taken-is_delivered backpressure TrySend.full true result e = ap is_delivered (eq-of_some e)
was_taken-is_delivered backpressure TrySend.full false result e = ap is_delivered (eq-of_some e)
was_taken-is_delivered drop_newest TrySend.full accepted result e = ap is_delivered (eq-of_some e)
was_taken-is_delivered (coalesce key_path) TrySend.full accepted result e = absurd (cc)
was_taken-is_delivered disconnect TrySend.full accepted result e = ap is_delivered (eq-of_some e)

module _ (crates : Crates) (channels : Channels crates) where
  pub record Inv (j : SubscriptionId) (n : ℕ) (s : System crates channels) : Type 0 where
    pub distinct : HasDistinctIds crates channels s.bus.subs
    pub earlier : j < s.bus.next_id
    pub quota :
        Quota crates channels n
          (count_id j s.sent)
          (total crates channels (unsent_of crates channels j) s.publishes)
          (total crates channels (held_of crates channels j) s.publishes)
          (find j s.bus.subs)

  pub turn-Inv :
      {j n : ℕ} (s : System crates channels) (i : ℕ)
      (f : (Publish crates channels → List (Publish crates channels))
        → Publish crates channels
        → System crates channels
        → System crates channels)
      → Inv j n s
      → ((b : Publish crates channels → List (Publish crates channels))
            (p : Publish crates channels)
          → Fits crates channels s.publishes (some (p, b))
          → Inv j n (f b p s))
      → Inv j n (turn crates channels f i s)
  unfolding turn
  turn-Inv {j} {n} s i f h next =
      by_pick (pick crates channels i s.publishes) (pick-Fits crates channels i s.publishes)
    where
      by_pick :
          (o : Option
            (Publish crates channels × (Publish crates channels → List (Publish crates channels))))
          → Fits crates channels s.publishes o
          → Inv j n (elim o [ none ↦ s | some (p, b) ↦ f b p s ])
      by_pick none fits = h
      by_pick (some (p, b)) fits = next b p fits

  -- A publish is put back with the same matches.
  pub same_totals :
      {j n : ℕ} (s : System crates channels) (p x : Publish crates channels)
      (b : Publish crates channels → List (Publish crates channels))
      → Fits crates channels s.publishes (some (p, b))
      → unsent_of crates channels j x ≡ unsent_of crates channels j p
      → held_of crates channels j x ≡ held_of crates channels j p
      → Inv j n s
      → Inv j n (record s { publishes = b x })
  same_totals {j} {n} s p x b fits u k h = record {
    distinct = h.distinct;
    earlier = h.earlier;
    quota =
        Quota-cast crates channels n (count_id j s.sent) (count_id j s.sent)
          (total crates channels (unsent_of crates channels j) s.publishes)
          (total crates channels (unsent_of crates channels j) (b x))
          (total crates channels (held_of crates channels j) s.publishes)
          (total crates channels (held_of crates channels j) (b x)) (find j s.bus.subs) refl
          (omega (arith, fits (unsent_of crates channels j) x))
          (omega (arith, fits (held_of crates channels j) x)) h.quota;
  }

  pub cancel_at-Inv :
      {j n : ℕ} (s : System crates channels) (p : Publish crates channels)
      (b : Publish crates channels → List (Publish crates channels)) (phase : Phase)
      → p.phase ≡ phase
      → Fits crates channels s.publishes (some (p, b))
      → Inv j n s
      → Inv j n (cancel_at crates channels phase b p s)
  unfolding cancel_at
  cancel_at-Inv {j} s p b sending e fits h =
      same_totals s p (record p { phase = cancelled }) b fits
        (sym (ap (λ k. unsent crates channels j k p.matches) e)) refl h
  cancel_at-Inv s p b (committing result) e fits h = h
  cancel_at-Inv s p b cancelled e fits h = h

  pub send-Inv :
      {j n : ℕ} (s : System crates channels) (p : Publish crates channels)
      (b : Publish crates channels → List (Publish crates channels)) (m : Match) (ms : List Match)
      (result : SendResult)
      → p.phase ≡ sending
      → p.matches ≡ m ∷ ms
      → Fits crates channels s.publishes (some (p, b))
      → Inv j n s
      → Inv j n (record s {
        publishes = b (record p { phase = committing result });
        sent = sends crates channels m.id (is_delivered result) s.sent;
      })
  unfolding sends
  send-Inv {j} {n} s p b m ms SendResult.delivered e k fits h =
      let x : Publish crates channels = record p { phase = committing SendResult.delivered } in
      let one : ℕ = if m.id == j then 1 else 0 in
      let before : unsent_of crates channels j p ≡ one + count_matches j ms =
        ap (λ a. unsent crates channels j a p.matches) e ∙ ap (count_matches j) k in
      let after : unsent_of crates channels j x ≡ count_matches j ms =
        ap (unsent crates channels j (committing SendResult.delivered)) k in
      let moved = fits (unsent_of crates channels j) x in
      let kept = fits (held_of crates channels j) x in
      record {
        distinct = h.distinct;
        earlier = h.earlier;
        quota = elim (Bool-cases (m.id == j)) [
          | inl same ↦
              let is_one : one ≡ 1 = rw same refl in
              Quota-cast crates channels n (suc (count_id j s.sent)) (one + count_id j s.sent)
                (total crates channels (unsent_of crates channels j) (b x))
                (total crates channels (unsent_of crates channels j) (b x))
                (total crates channels (held_of crates channels j) s.publishes)
                (total crates channels (held_of crates channels j) (b x)) (find j s.bus.subs)
                (omega arith) refl (omega arith)
                (Quota-sent crates channels n (count_id j s.sent)
                  (total crates channels (unsent_of crates channels j) (b x))
                  (total crates channels (held_of crates channels j) s.publishes)
                  (find j s.bus.subs)
                  (Quota-cast crates channels n (count_id j s.sent) (count_id j s.sent)
                    (total crates channels (unsent_of crates channels j) s.publishes)
                    (suc (total crates channels (unsent_of crates channels j) (b x)))
                    (total crates channels (held_of crates channels j) s.publishes)
                    (total crates channels (held_of crates channels j) s.publishes)
                    (find j s.bus.subs) refl (omega arith) refl h.quota))
          | inr other ↦
              let is_zero : one ≡ 0 = rw other refl in
              Quota-cast crates channels n (count_id j s.sent) (one + count_id j s.sent)
                (total crates channels (unsent_of crates channels j) s.publishes)
                (total crates channels (unsent_of crates channels j) (b x))
                (total crates channels (held_of crates channels j) s.publishes)
                (total crates channels (held_of crates channels j) (b x)) (find j s.bus.subs)
                (omega arith) (omega arith) (omega arith) h.quota
        ];
      }
  send-Inv {j} s p b m ms SendResult.dropped e k fits h =
      same_totals s p (record p { phase = committing SendResult.dropped }) b fits
        (sym (ap (λ a. unsent crates channels j a p.matches) e)) refl h
  send-Inv {j} s p b m ms SendResult.disconnect_slow_consumer e k fits h =
      same_totals s p (record p { phase = committing SendResult.disconnect_slow_consumer }) b fits
        (sym (ap (λ a. unsent crates channels j a p.matches) e)) refl h
  send-Inv {j} s p b m ms SendResult.closed e k fits h =
      same_totals s p (record p { phase = committing SendResult.closed }) b fits
        (sym (ap (λ a. unsent crates channels j a p.matches) e)) refl h

  pub send_with-Inv :
      {j n : ℕ} (s : System crates channels) (p : Publish crates channels)
      (b : Publish crates channels → List (Publish crates channels)) (ms : List Match) (r : TrySend)
      (accepted : Bool)
      → p.phase ≡ sending
      → p.matches ≡ ms
      → Fits crates channels s.publishes (some (p, b))
      → Inv j n s
      → Inv j n (send_with crates channels b p ms r accepted s)
  unfolding send_with
  send_with-Inv s p b [] r accepted e k fits h = h
  send_with-Inv {j} {n} s p b (m ∷ ms) r accepted e k fits h =
      by_result (send_result m.slow_consumer_policy r accepted)
        (was_taken m.slow_consumer_policy r accepted)
        (was_taken-is_delivered m.slow_consumer_policy r accepted)
    where
      by_result :
          (o : Option SendResult) (taken : Bool)
          → ((result : SendResult) → o ≡ some result → taken ≡ is_delivered result)
          → Inv j n (elim o [
            | none ↦ record s { publishes = b (record p { phase = cancelled }) }
            | some result ↦ record s {
              publishes = b (record p { phase = committing result });
              sent = sends crates channels m.id taken s.sent;
            }
          ])
      by_result none taken agree =
          same_totals s p (record p { phase = cancelled }) b fits
            (sym (ap (λ a. unsent crates channels j a p.matches) e)) refl h
      by_result (some result) taken agree =
          subst
            (λ x. Inv j n (record s {
              publishes = b (record p { phase = committing result });
              sent = sends crates channels m.id x s.sent;
            }))
            (sym (agree result refl)) (send-Inv s p b m ms result e k fits h)

  pub send_at-Inv :
      {j n : ℕ} (s : System crates channels) (p : Publish crates channels)
      (b : Publish crates channels → List (Publish crates channels)) (phase : Phase) (r : TrySend)
      (accepted : Bool)
      → p.phase ≡ phase
      → Fits crates channels s.publishes (some (p, b))
      → Inv j n s
      → Inv j n (send_at crates channels phase b p r accepted s)
  unfolding send_at
  send_at-Inv s p b sending r accepted e fits h =
      send_with-Inv s p b p.matches r accepted e refl fits h
  send_at-Inv s p b (committing result) r accepted e fits h = h
  send_at-Inv s p b cancelled r accepted e fits h = h

-- ===== src/Events/Bus/Quota.antt =====
-- The quota of a subscription (`limit` of its options) over a run of publishes, each of which
-- offers one envelope to it.
use boardwalk.Common.{
  ℕ, ◌+◌, ◌-◌, ◌≤◌, Bool, true, false, ◌==◌, Option, none, some, List, [], ◌∷◌, if◌then◌else◌, ◌≡◌,
  refl, ap, subst, arith, eq-of_some,
}
use boardwalk.Events.Crates.{Crates}
use boardwalk.Events.Envelope.{EventEnvelope}
use boardwalk.Events.Policy.{SlowConsumerPolicy, disconnect, backpressure, drop_newest, coalesce}
use boardwalk.Events.Coalesce.{PushOutcome, pushed, replaced, dropped, receiver_gone, push}
use boardwalk.Events.Bus.Mpsc.{Channels, TrySend, sent, full, closed}
use boardwalk.Events.Bus.Offer.{
  Subscription, Outbound, Notice, Outcome, use_quota, is_exhausted, note_delivery,
  disconnect_slow_consumer, overflow, after_send, after_push, send_to, is_addressed, offer,
}
use boardwalk.Events.Bus.Deliveries.{deliveries, received, deliveries-offer}
use boardwalk.Events.Bus.Survivors.{removes}

module _ (crates : Crates) (channels : Channels crates) where
  open channels use {values, try_send}

  -- How many envelopes of the list a subscription gets, and what is left of it: each is offered in
  -- turn, until the subscription is removed.
  unfoldable pub delivered_of : List (EventEnvelope crates) → Subscription crates channels → ℕ
  delivered_of [] sub = 0
  delivered_of (e ∷ es) sub =
      let o = offer crates channels e sub in
      let rest = delivered_of es o.0 in
      received crates channels e sub + (if removes crates channels o.1 then 0 else rest)

  unfoldable pub after_offers :
      List (EventEnvelope crates)
      → Subscription crates channels
      → Option (Subscription crates channels)
  after_offers [] sub = some sub
  after_offers (e ∷ es) sub =
      let o = offer crates channels e sub in
      let rest = after_offers es o.0 in if removes crates channels o.1 then none else rest

  -- What one offer does to a quota of `n`.
  abbrev Spends : ℕ → Subscription crates channels × Outcome crates channels → Type 0
  Spends n (sub, Outcome.delivered) = (sub.remaining ≡ some (n - 1)) × (2 ≤ n)
  Spends n (sub, Outcome.last_delivery) = n ≡ 1
  Spends n (sub, _) = sub.remaining ≡ some n

  Spends-if :
      (n : ℕ) (sub : Subscription crates channels) (b : Bool)
      → (b ≡ true → n ≡ 1)
      → (b ≡ false → 2 ≤ n)
      → sub.remaining ≡ some (n - 1)
      → Spends n (sub, (if b then Outcome.last_delivery else Outcome.delivered))
  Spends-if n sub true last more h = last refl
  Spends-if n sub false last more h = (h, more refl)

  Spends-note_delivery :
      (n : ℕ) (e : EventEnvelope crates) (sub : Subscription crates channels)
      → 1 ≤ n
      → sub.remaining ≡ some n
      → Spends n (note_delivery crates channels e sub)
  unfolding note_delivery
  Spends-note_delivery n e sub pos h =
      let left : use_quota crates channels sub.remaining ≡ some (n - 1) =
        ap (use_quota crates channels) h in
      Spends-if n
        (record sub {
          remaining = use_quota crates channels sub.remaining;
          last_delivered = some (e.stream_id, e.sequence);
        })
        (is_exhausted crates channels (use_quota crates channels sub.remaining))
        (λ b. let zero_left : ((n - 1) == 0) ≡ true = (rw left at b) in ground arith)
        (λ b. let some_left : ((n - 1) == 0) ≡ false = (rw left at b) in ground arith) left

  Spends-slow :
      (n : ℕ) (sub : Subscription crates channels) (x : Notice) (b : Bool)
      → sub.remaining ≡ some n
      → Spends n (
          if b
          then (record sub { slow_consumer_notify = false }, Outcome.slow (some x))
          else (sub, Outcome.slow none))
  Spends-slow n sub x true h = h
  Spends-slow n sub x false h = h

  Spends-disconnect :
      (n : ℕ) (sub : Subscription crates channels)
      → sub.remaining ≡ some n
      → Spends n (disconnect_slow_consumer crates channels sub)
  unfolding disconnect_slow_consumer
  Spends-disconnect n sub h = Spends-slow n sub _ sub.slow_consumer_notify h

  Spends-overflow :
      (n : ℕ) (p : SlowConsumerPolicy) (sub : Subscription crates channels)
      → sub.remaining ≡ some n
      → Spends n (overflow crates channels p sub)
  unfolding overflow
  Spends-overflow n disconnect sub h = Spends-disconnect n sub h
  Spends-overflow n backpressure sub h = h
  Spends-overflow n drop_newest sub h = h
  Spends-overflow n (coalesce key_path) sub h = h

  Spends-after_send :
      (n : ℕ) (e : EventEnvelope crates) (sub : Subscription crates channels) (r : TrySend)
      → 1 ≤ n
      → sub.remaining ≡ some n
      → Spends n (after_send crates channels e sub r)
  unfolding after_send
  Spends-after_send n e sub sent pos h = Spends-note_delivery n e sub pos h
  Spends-after_send n e sub full pos h = Spends-overflow n sub.slow_consumer_policy sub h
  Spends-after_send n e sub closed pos h = h

  Spends-after_push :
      (n : ℕ) (e : EventEnvelope crates) (sub : Subscription crates channels) (r : PushOutcome)
      → 1 ≤ n
      → sub.remaining ≡ some n
      → Spends n (after_push crates channels e sub r)
  unfolding after_push
  Spends-after_push n e sub pushed pos h = Spends-note_delivery n e sub pos h
  Spends-after_push n e sub replaced pos h = h
  Spends-after_push n e sub dropped pos h = h
  Spends-after_push n e sub receiver_gone pos h = h

  Spends-send_to :
      (n : ℕ) (e : EventEnvelope crates) (sub : Subscription crates channels)
      (o : Outbound crates channels)
      → 1 ≤ n
      → sub.remaining ≡ some n
      → Spends n (send_to crates channels e sub o)
  unfolding send_to
  Spends-send_to n e sub (Outbound.mpsc tx) pos h =
      let r = try_send tx e in
      Spends-after_send n e (record sub { outbound = Outbound.mpsc r.0 }) r.1 pos h
  Spends-send_to n e sub (Outbound.queue s) pos h =
      let r = push values s e in
      Spends-after_push n e (record sub { outbound = Outbound.queue r.0 }) r.1 pos h

  Spends-offer :
      (n : ℕ) (e : EventEnvelope crates) (sub : Subscription crates channels)
      → 1 ≤ n
      → sub.remaining ≡ some n
      → Spends n (offer crates channels e sub)
  unfolding offer
  Spends-offer n e sub pos h = by_address (is_addressed crates channels e sub)
    where
      by_address :
          (b : Bool)
          → Spends n
              (if b then send_to crates channels e sub sub.outbound else (sub, Outcome.skipped))
      by_address true = Spends-send_to n e sub sub.outbound pos h
      by_address false = h

  abbrev Kept : ℕ → ℕ → Option (Subscription crates channels) → Type 0
  Kept n d o =
      (d ≤ n)
      × ((sub' : Subscription crates channels)
          → o ≡ some sub'
          → (m : ℕ) × (sub'.remaining ≡ some m) × (1 ≤ m) × (d + m ≡ n))

  Kept-same : (n d : ℕ) (x : Option (Subscription crates channels)) → Kept n d x → Kept n (0 + d) x
  Kept-same n d x (le, left) =
      (omega arith, (λ sub' e. let (m, r, p, total) = left sub' e in (m, r, p, omega arith)))

  Kept-step :
      (n : ℕ) (s : Subscription crates channels) (o : Outcome crates channels) (d : ℕ)
      (x : Option (Subscription crates channels))
      → 1 ≤ n
      → ((m : ℕ) → 1 ≤ m → s.remaining ≡ some m → Kept m d x)
      → Spends n (s, o)
      → Kept n
          (deliveries crates channels o + (if removes crates channels o then 0 else d))
          (if removes crates channels o then none else x)
  Kept-step n s Outcome.skipped d x pos rest k = Kept-same n d x (rest n pos k)
  Kept-step n s Outcome.overwritten d x pos rest k = Kept-same n d x (rest n pos k)
  Kept-step n s Outcome.overflowed d x pos rest k = Kept-same n d x (rest n pos k)
  Kept-step n s Outcome.unreachable d x pos rest k = Kept-same n d x (rest n pos k)
  Kept-step n s (Outcome.slow y) d x pos rest k = (omega arith, (λ sub' e. cc))
  Kept-step n s Outcome.gone d x pos rest k = (omega arith, (λ sub' e. cc))
  Kept-step n s Outcome.last_delivery d x pos rest k = (omega arith, (λ sub' e. cc))
  Kept-step n s Outcome.delivered d x pos rest (k, two) =
      let (le, left) = rest (n - 1) (omega arith) k in
      (omega arith, (λ sub' e. let (m, r, p, total) = left sub' e in (m, r, p, omega arith)))

  -- Over any run of envelopes a subscription with a quota of `n`, at least 1, gets `n` of them at
  -- most; and if it is still there afterwards, what it got and what is left of the quota, which is
  -- at least 1, make `n`.
  pub quota_kept :
      (es : List (EventEnvelope crates)) (sub : Subscription crates channels) (n : ℕ)
      → 1 ≤ n
      → sub.remaining ≡ some n
      → (delivered_of es sub ≤ n)
        × ((sub' : Subscription crates channels)
            → after_offers es sub ≡ some sub'
            → (m : ℕ) × (sub'.remaining ≡ some m) × (1 ≤ m) × (delivered_of es sub + m ≡ n))
  unfolding delivered_of after_offers
  quota_kept [] sub n pos h = (
    omega arith,
    (λ sub' e. (n, subst (λ s. s.remaining ≡ some n) (eq-of_some e) h, pos, omega arith)),
  )
  quota_kept (e ∷ es) sub n pos h =
      let o = offer crates channels e sub in
      let rest : ℕ = if removes crates channels o.1 then 0 else delivered_of es o.0 in
      subst (λ a. Kept n (a + rest) (after_offers (e ∷ es) sub))
        (deliveries-offer crates channels e sub)
        (Kept-step n o.0 o.1 (delivered_of es o.0) (after_offers es o.0) pos
          (λ m p k. quota_kept es o.0 m p k) (Spends-offer n e sub pos h))

-- ===== src/Events/Bus/Async/Slots.antt =====
-- The slots of one subscription with a quota: what was sent, what is claimed, and what is left.
use boardwalk.Common.{
  ℕ, suc, ◌+◌, ◌-◌, ◌^◌, ◌≤◌, ◌<◌, Bool, true, false, ◌==◌, Option, none, some, if◌then◌else◌, ◌≡◌,
  refl, sym, ◌∙◌, ap, subst, arith, Bool-cases, inl, inr,
}
use boardwalk.Events.Crates.{Crates}
use boardwalk.Events.Envelope.{EventEnvelope}
use boardwalk.Events.Coalesce.{PushOutcome, pushed, replaced, dropped, receiver_gone, push}
use boardwalk.Events.Bus.Mpsc.{Channels}
use boardwalk.Events.Bus.Offer.{
  Subscription, Outbound, Outcome, use_quota, is_exhausted, note_delivery, after_push, is_addressed,
}
use boardwalk.Events.Bus.Claims.{
  take_slot, refund_slot, Claim, inline, claimed, claim_slot, claim_from, claim, commit_delivery,
  is_spent, refund,
}

module _ (crates : Crates) (channels : Channels crates) where
  open channels use {values}

  -- A coalescing subscription is never claimed.
  abbrev pub Claimable : ℕ → Outbound crates channels → Type 0
  Claimable p (Outbound.queue state) = p ≡ 0
  Claimable p (Outbound.mpsc tx) = Unit

  -- Of a quota of `n`, `d` envelopes were sent, `q` more may be sent for the claims there are, and
  -- the rest is left; `p` claims are not committed, and some slot is left or claimed.
  pub record Slots (n d q p : ℕ) (sub : Subscription crates channels) : Type 0 where
    pub rem : ℕ
    pub left : sub.remaining ≡ some rem
    pub pending : sub.in_flight ≡ p
    pub total : d + q + rem ≡ n
    pub live : 1 ≤ p + rem
    pub claims : p ≤ q + d
    pub kind : Claimable p sub.outbound

  -- The same for what may stand at an id.
  abbrev pub Quota : ℕ → ℕ → ℕ → ℕ → Option (Subscription crates channels) → Type 0
  Quota n d q p none = d + q ≤ n
  Quota n d q p (some sub) = Slots n d q p sub

  pub Quota-le :
      (n d q p : ℕ) (o : Option (Subscription crates channels)) → Quota n d q p o → d + q ≤ n
  Quota-le n d q p none h = h
  Quota-le n d q p (some sub) h = omega (arith, h.total)

  -- What the loop under the lock makes of a subscription.
  abbrev pub Claims : ℕ → ℕ → ℕ → ℕ → Subscription crates channels × Claim crates channels → Type 0
  Claims n d q p (sub, claimed) = Slots n d (suc q) (suc p) sub
  Claims n d q p (sub, inline Outcome.delivered) = Slots n (suc d) q p sub
  Claims n d q p (sub, inline Outcome.last_delivery) = suc d + q ≤ n
  Claims n d q p (sub, inline (Outcome.slow x)) = d + q ≤ n
  Claims n d q p (sub, inline Outcome.gone) = d + q ≤ n
  Claims n d q p (sub, inline Outcome.skipped) = Slots n d q p sub
  Claims n d q p (sub, inline Outcome.overwritten) = Slots n d q p sub
  Claims n d q p (sub, inline Outcome.overflowed) = Slots n d q p sub
  Claims n d q p (sub, inline Outcome.unreachable) = Slots n d q p sub

  Claims-if :
      (n d q p : ℕ) (sub : Subscription crates channels) (b : Bool)
      → (b ≡ true → suc d + q ≤ n)
      → (b ≡ false → Slots n (suc d) q p sub)
      → Claims n d q p (sub, inline (if b then Outcome.last_delivery else Outcome.delivered))
  Claims-if n d q p sub true last more = last refl
  Claims-if n d q p sub false last more = more refl

  as_claim :
      Subscription crates channels × Outcome crates channels
      → Subscription crates channels × Claim crates channels
  as_claim (sub, o) = (sub, inline o)

  Claims-note_delivery :
      (n d q : ℕ) (e : EventEnvelope crates) (sub : Subscription crates channels)
      → Slots n d q 0 sub
      → let r = note_delivery crates channels e sub in Claims n d q 0 (r.0, inline r.1)
  unfolding note_delivery
  Claims-note_delivery n d q e sub h =
      let less : use_quota crates channels sub.remaining ≡ some (h.rem - 1) =
        ap (use_quota crates channels) h.left in
      Claims-if n d q 0
        (record sub {
          remaining = use_quota crates channels sub.remaining;
          last_delivered = some (e.stream_id, e.sequence);
        })
        (is_exhausted crates channels (use_quota crates channels sub.remaining))
        (λ b. omega (arith, h.live, h.total))
        (λ b. record {
          rem = h.rem - 1;
          left = less;
          pending = h.pending;
          total = omega (arith, h.live, h.total);
          live = (let more : ((h.rem - 1) == 0) ≡ false = (rw less at b) in ground arith);
          claims = omega arith;
          kind = h.kind;
        })

  -- A change of the outbound end alone.
  Slots-queue :
      (n d q p : ℕ) (sub : Subscription crates channels) (state : _)
      → Slots n d q p sub
      → p ≡ 0
      → Slots n d q p (record sub { outbound = Outbound.queue state })
  Slots-queue n d q p sub state h zero' = record {
    rem = h.rem;
    left = h.left;
    pending = h.pending;
    total = h.total;
    live = h.live;
    claims = h.claims;
    kind = zero';
  }

  Claims-after_push :
      (n d q : ℕ) (e : EventEnvelope crates) (sub : Subscription crates channels) (r : PushOutcome)
      → Slots n d q 0 sub
      → let x = after_push crates channels e sub r in Claims n d q 0 (x.0, inline x.1)
  unfolding after_push
  Claims-after_push n d q e sub pushed h = Claims-note_delivery n d q e sub h
  Claims-after_push n d q e sub replaced h = h
  Claims-after_push n d q e sub dropped h = h
  Claims-after_push n d q e sub receiver_gone h = omega (arith, h.total)

  take_slot-some :
      (rem : ℕ) (b : Bool)
      → (rem == 0) ≡ b
      → take_slot (some rem) ≡ (if b then none else some (some (rem - 1)))
  unfolding take_slot
  take_slot-some rem b e = rw e refl

  Claims-claim_slot :
      (n d q p : ℕ) (sub : Subscription crates channels)
      → n < 2 ^ 64
      → Claimable (suc p) sub.outbound
      → Slots n d q p sub
      → Claims n d q p (claim_slot crates channels sub)
  unfolding claim_slot
  Claims-claim_slot n d q p sub small k h = elim (Bool-cases (h.rem == 0)) [
    | inl none_left ↦
        let t : take_slot sub.remaining ≡ none =
          ap take_slot h.left ∙ take_slot-some h.rem true none_left in
        rw (t, claim_slot) h
    | inr more ↦
        let t : take_slot sub.remaining ≡ some (some (h.rem - 1)) =
          ap take_slot h.left ∙ take_slot-some h.rem false more in
        let pos : 1 ≤ h.rem = ground arith in
        rw (t, claim_slot)
          (record {
            rem = h.rem - 1;
            left = refl;
            pending = omega (arith, h.pending, h.total, h.claims);
            total = omega (arith, h.total);
            live = omega arith;
            claims = omega (arith, h.claims);
            kind = k;
          })
  ]

  Claims-claim_from :
      (n d q p : ℕ) (e : EventEnvelope crates) (sub : Subscription crates channels)
      (o : Outbound crates channels)
      → n < 2 ^ 64
      → sub.outbound ≡ o
      → Slots n d q p sub
      → Claims n d q p (claim_from crates channels e sub o)
  unfolding claim_from
  Claims-claim_from n d q p e sub (Outbound.mpsc tx) small is h =
      Claims-claim_slot n d q p sub small (subst (Claimable (suc p)) (sym is) tt) h
  Claims-claim_from n d q p e sub (Outbound.queue state) small is h =
      let none_claimed : p ≡ 0 = subst (Claimable p) is h.kind in
      let r = push values state e in
      subst (λ k. Claims n d q k (claim_from crates channels e sub (Outbound.queue state)))
        (sym none_claimed)
        (Claims-after_push n d q e (record sub { outbound = Outbound.queue r.0 }) r.1
          (subst (λ k. Slots n d q k (record sub { outbound = Outbound.queue r.0 })) none_claimed
            (Slots-queue n d q p sub r.0 h none_claimed)))

  -- The loop under the lock, with the quota of the subscription.
  pub Claims-claim :
      (n d q p : ℕ) (e : EventEnvelope crates) (sub : Subscription crates channels)
      → n < 2 ^ 64
      → Slots n d q p sub
      → Claims n d q p (claim crates channels e sub)
  unfolding claim
  Claims-claim n d q p e sub small h = elim (Bool-cases (is_addressed crates channels e sub)) [
    | inl addressed ↦
        rw (claim, addressed) (Claims-claim_from n d q p e sub sub.outbound small refl h)
    | inr other ↦ rw (claim, other) h
  ]

  Claimable-fewer : (p : ℕ) (o : Outbound crates channels) → Claimable (suc p) o → Claimable p o
  Claimable-fewer p (Outbound.queue state) h = absurd (omega arith)
  Claimable-fewer p (Outbound.mpsc tx) h = tt

  Quota-if :
      (n d q p : ℕ) (sub : Subscription crates channels) (b : Bool)
      → d + q ≤ n
      → (b ≡ false → Slots n d q p sub)
      → Quota n d q p (if b then none else some sub)
  Quota-if n d q p sub true le more = le
  Quota-if n d q p sub false le more = more refl

  -- A delivery is committed: one claim less, and the subscription goes when it is spent.
  pub Quota-commit_delivery :
      (n d q p : ℕ) (e : EventEnvelope crates) (sub : Subscription crates channels)
      → Slots n d q (suc p) sub
      → Quota n d q p (
          if is_spent crates channels (commit_delivery crates channels e sub)
          then none
          else some (commit_delivery crates channels e sub))
  unfolding is_spent is_exhausted commit_delivery
  Quota-commit_delivery n d q p e sub h =
      let exhausted : is_exhausted crates channels sub.remaining ≡ (h.rem == 0) =
        ap (is_exhausted crates channels) h.left in
      Quota-if n d q p (commit_delivery crates channels e sub)
        (is_spent crates channels (commit_delivery crates channels e sub)) (omega (arith, h.total))
        (λ b. record {
          rem = h.rem;
          left = h.left;
          pending = omega (arith, h.pending);
          total = h.total;
          live = ground (arith, h.pending);
          claims = omega (arith, h.claims);
          kind = Claimable-fewer p sub.outbound h.kind;
        })

  -- A claim is given back.
  pub Slots-refund :
      (n d q p : ℕ) (sub : Subscription crates channels)
      → n < 2 ^ 64
      → Slots n d (suc q) (suc p) sub
      → Slots n d q p (refund crates channels sub)
  unfolding refund refund_slot
  Slots-refund n d q p sub small h = record {
    rem = h.rem + 1;
    left = ap refund_slot h.left ∙ wrap;
    pending = omega (arith, h.pending);
    total = omega (arith, h.total);
    live = omega arith;
    claims = omega (arith, h.claims);
    kind = Claimable-fewer p sub.outbound h.kind;
  }
    where
      wrap : refund_slot (some h.rem) ≡ some (h.rem + 1)
      wrap = ap (λ r. some r) (let small' = small in omega (arith, h.total))

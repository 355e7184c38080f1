-- ===== src/Events/Bus/Claims.antt =====
-- events/bus.rs, the asynchronous `publish`, on one subscription: the claim of a slot under the lock,
-- and what the outcome of a send does to the claim.
use boardwalk.Common.{ℕ, ◌+◌, ◌-◌, ◌%◌, ◌^◌, Bool, ◌&&◌, Option, none, some, ◌==◌, if◌then◌else◌}
use boardwalk.Events.Crates.{Crates}
use boardwalk.Events.Envelope.{EventEnvelope}
use boardwalk.Events.Policy.{SlowConsumerPolicy, disconnect, backpressure, drop_newest, coalesce}
use boardwalk.Events.Coalesce.{push}
use boardwalk.Events.Bus.Mpsc.{Channels, TrySend}
use boardwalk.Events.Bus.Offer.{
  Subscription, Outbound, Outcome, is_exhausted, after_push, is_addressed,
}

-- `SendResult`.
pub data SendResult : Type 0 where
  delivered dropped disconnect_slow_consumer closed : SendResult

-- The outcome of a full channel, `none` for the `unreachable!` at a coalescing policy. A
-- backpressure send waits: `accepted` says whether the channel took the envelope in the end, or was
-- closed.
unfoldable pub when_full : SlowConsumerPolicy → Bool → Option SendResult
when_full backpressure accepted =
    some (if accepted then SendResult.delivered else SendResult.closed)
when_full drop_newest accepted = some SendResult.dropped
when_full (coalesce key_path) accepted = none
when_full disconnect accepted = some SendResult.disconnect_slow_consumer

unfoldable pub send_result : SlowConsumerPolicy → TrySend → Bool → Option SendResult
send_result policy TrySend.sent accepted = some SendResult.delivered
send_result policy TrySend.closed accepted = some SendResult.closed
send_result policy TrySend.full accepted = when_full policy accepted

-- A slot of the quota is taken, `none` where no slot is left.
unfoldable pub take_slot : Option ℕ → Option (Option ℕ)
take_slot none = some none
take_slot (some rem) = if rem == 0 then none else some (some (rem - 1))

unfoldable pub refund_slot : Option ℕ → Option ℕ
refund_slot none = none
refund_slot (some rem) = some ((rem + 1) % 2 ^ 64)

module _ (crates : Crates) (channels : Channels crates) where
  open channels use {values}

  -- What the loop does with a subscription: finished inline, or claimed for a send.
  pub data Claim : Type 0 where
    inline : Outcome crates channels → Claim
    claimed : Claim

  unfoldable pub claim_slot : Subscription crates channels → Subscription crates channels × Claim
  claim_slot sub = elim (take_slot sub.remaining) [
    | none ↦ (sub, inline Outcome.skipped)
    | some left ↦
        (record sub { remaining = left; in_flight = (sub.in_flight + 1) % 2 ^ 64 }, claimed)
  ]

  as_inline :
      Subscription crates channels × Outcome crates channels → Subscription crates channels × Claim
  as_inline (sub, outcome) = (sub, inline outcome)

  -- The `match` on the outbound end: a coalescing queue is pushed to under the lock.
  unfoldable pub claim_from :
      EventEnvelope crates
      → Subscription crates channels
      → Outbound crates channels
      → Subscription crates channels × Claim
  unfolding as_inline
  claim_from envelope sub (Outbound.queue state) =
      let (state', r) = push values state envelope in
      as_inline
        (after_push crates channels envelope (record sub { outbound = Outbound.queue state' }) r)
  claim_from envelope sub (Outbound.mpsc tx) = claim_slot sub

  -- The body of the loop of `publish` under the lock.
  unfoldable pub claim :
      EventEnvelope crates → Subscription crates channels → Subscription crates channels × Claim
  unfolding claim_from
  claim envelope sub =
      if is_addressed crates channels envelope sub
      then claim_from envelope sub sub.outbound
      else (sub, inline Outcome.skipped)

  -- A delivery is committed: the claim ends, its slot stays used.
  unfoldable pub commit_delivery :
      EventEnvelope crates → Subscription crates channels → Subscription crates channels
  commit_delivery envelope sub = record sub {
    last_delivered = some (envelope.stream_id, envelope.sequence);
    in_flight = sub.in_flight - 1;
  }

  -- `sub.remaining == Some(0) && sub.in_flight == 0`.
  unfoldable pub is_spent : Subscription crates channels → Bool
  is_spent sub = is_exhausted crates channels sub.remaining && (sub.in_flight == 0)

  -- The claim ends and its slot is given back.
  unfoldable pub refund : Subscription crates channels → Subscription crates channels
  refund sub = record sub { remaining = refund_slot sub.remaining; in_flight = sub.in_flight - 1 }

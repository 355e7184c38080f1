-- ===== src/Events/Bus/Async.antt =====
-- events/bus.rs: the asynchronous `publish`. Any number of publishes run at once; each takes the lock
-- of the subscriptions once for its claims and once for each outcome, and the steps of different
-- publishes, `subscribe` and `unsubscribe` interleave in any order. The channels are shared with
-- receivers that run by themselves: what a send meets (room, a full channel, a closed one) is chosen
-- by the environment, and so is the moment at which a publish is cancelled.
pub mod Step
pub mod Listing
pub mod Snapped
pub mod Slots
pub mod Totals
pub mod Quota
pub mod Commit
pub mod Ends
pub mod Begin
pub mod NextId
pub mod Runs
pub mod Turns
pub mod Progress
pub mod Settled
mod Tests
use boardwalk.Common.{
  ℕ, Bool, true, false, Option, none, some, List, [], ◌∷◌, ◌++◌, find, put, nat_eq, if◌then◌else◌,
}
use boardwalk.Events.Crates.{Crates}
use boardwalk.Events.Envelope.{EventEnvelope}
use boardwalk.Events.Policy.{SlowConsumerPolicy}
use boardwalk.Events.Bus.Mpsc.{Channels}
use boardwalk.Events.Bus.Offer.{SubscriptionId, Notice, Subscription, Outcome}
use boardwalk.Events.Bus.Offer
use boardwalk.Events.Bus.Fanout.{Tally, PublishResult, Subs, no_tally, note, remove_one, remove_all}
use boardwalk.Events.Bus.Claims.{
  SendResult, Claim, inline, claimed, claim, commit_delivery, is_spent, refund,
}

-- `Match`, with the guard of its claim. The sender of the channel is that of the subscription.
pub record Match : Type 0 where
  pub id : SubscriptionId
  pub slow_consumer_policy : SlowConsumerPolicy

module _ (crates : Crates) (channels : Channels crates) where
  unfoldable pub note_claim : SubscriptionId → Claim crates channels → Tally → Tally
  note_claim id (inline outcome) t = note crates channels id outcome t
  note_claim id claimed t = t

  unfoldable pub add_match :
      SubscriptionId
      → Subscription crates channels
      → Claim crates channels
      → List Match
      → List Match
  add_match id sub (inline outcome) ms = ms
  add_match id sub claimed ms =
      record { id = id; slow_consumer_policy = sub.slow_consumer_policy } ∷ ms

  -- The loop under the lock: the subscriptions, the counters, and the matches to send to.
  unfoldable pub snapshot :
      EventEnvelope crates → Subs crates channels → Subs crates channels × Tally × List Match
  snapshot envelope [] = ([], no_tally, [])
  snapshot envelope ((id, sub) ∷ subs) =
      let (sub', c) = claim crates channels envelope sub in
      let (subs', tally, matches) = snapshot envelope subs in
      ((id, sub') ∷ subs', note_claim id c tally, add_match id sub c matches)

  -- The subscriptions and the senders that are detached from them.
  abbrev pub Table : Type 0
  Table = Subs crates channels × Subs crates channels

  -- `subs.get_mut(&id)` with a change of what is there.
  unfoldable pub change :
      SubscriptionId
      → (Subscription crates channels → Subscription crates channels)
      → Subs crates channels
      → Subs crates channels
  change id f subs = elim (find id subs) [ none ↦ subs | some sub ↦ put id (f sub) subs ]

  unfoldable pub is_spent_at : SubscriptionId → Subs crates channels → Bool
  is_spent_at id subs = elim (find id subs) [
    | none ↦ false
    | some sub ↦ is_spent crates channels sub
  ]

  unfoldable pub commit_delivered : EventEnvelope crates → SubscriptionId → Table → Table
  commit_delivered envelope id (subs, detached) =
      let subs' = change id (commit_delivery crates channels envelope) subs in
      if is_spent_at id subs'
      then remove_one crates channels id subs' detached
      else (subs', detached)

  notice_from : Outcome crates channels → Option Notice
  notice_from (Outcome.slow n) = n
  notice_from _ = none

  -- The notice that `disconnect_slow_consumer` sends, if the subscription is there and its sender
  -- was not yet used.
  unfoldable pub slow_notice : SubscriptionId → Subs crates channels → Option Notice
  unfolding notice_from
  slow_notice id subs = elim (find id subs) [
    | none ↦ none
    | some sub ↦ notice_from (Offer.disconnect_slow_consumer crates channels sub).1
  ]

  -- The outcome of one match is committed under the lock.
  unfoldable pub commit : EventEnvelope crates → SubscriptionId → SendResult → Table → Table
  unfolding commit_delivered
  commit envelope id SendResult.delivered t = commit_delivered envelope id t
  commit envelope id SendResult.dropped (subs, detached) =
      (change id (refund crates channels) subs, detached)
  commit envelope id SendResult.disconnect_slow_consumer (subs, detached) =
      remove_one crates channels id subs detached
  commit envelope id SendResult.closed (subs, detached) =
      remove_one crates channels id subs detached

  -- What the outcome adds to the counters, with the notice that a slow consumer gets.
  unfoldable pub count_result : SubscriptionId → SendResult → Option Notice → Tally → Tally
  count_result id SendResult.delivered notice t = note crates channels id Outcome.delivered t
  count_result id SendResult.dropped notice t = note crates channels id Outcome.overflowed t
  count_result id SendResult.disconnect_slow_consumer notice t =
      note crates channels id (Outcome.slow notice) t
  count_result id SendResult.closed notice t = t

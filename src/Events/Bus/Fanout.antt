-- ===== src/Events/Bus/Fanout.antt =====
-- events/bus.rs: the loop of `try_publish` over the subscriptions, its counters, and the removals.
use boardwalk.Common.{ℕ, ◌+◌, Option, none, some, List, [], ◌∷◌, find, put, delete, nat_eq}
use boardwalk.Events.Crates.{Crates}
use boardwalk.Events.Envelope.{EventEnvelope}
use boardwalk.Events.Coalesce.{close}
use boardwalk.Events.Bus.Mpsc.{Channels}
use boardwalk.Events.Bus.Offer.{SubscriptionId, Notice, Subscription, Outbound, Outcome, offer}

pub record PublishResult : Type 0 where
  pub delivered : ℕ
  pub dropped : ℕ
  pub coalesced : ℕ
  pub disconnected_slow_consumers : List SubscriptionId

-- The counters of the loop, the ids to remove, and the notices sent, in the order of the loop.
pub record Tally : Type 0 where
  pub result : PublishResult
  pub to_remove : List SubscriptionId
  pub notices : List (SubscriptionId × Notice)

unfoldable pub no_tally : Tally
no_tally = record {
  result = record { delivered = 0; dropped = 0; coalesced = 0; disconnected_slow_consumers = [] };
  to_remove = [];
  notices = [];
}

module _ (crates : Crates) (channels : Channels crates) where
  abbrev pub Subs : Type 0
  Subs = List (SubscriptionId × Subscription crates channels)

  count_delivered : Tally → Tally
  count_delivered t = record t { result = record (t.result) { delivered = t.result.delivered + 1 } }

  count_dropped : Tally → Tally
  count_dropped t = record t { result = record (t.result) { dropped = t.result.dropped + 1 } }

  count_coalesced : Tally → Tally
  count_coalesced t = record t { result = record (t.result) { coalesced = t.result.coalesced + 1 } }

  mark_removed : SubscriptionId → Tally → Tally
  mark_removed id t = record t { to_remove = id ∷ t.to_remove }

  count_slow : SubscriptionId → Tally → Tally
  count_slow id t = record t {
    result = record (t.result) {
      disconnected_slow_consumers = id ∷ t.result.disconnected_slow_consumers;
    };
  }

  send_notice : SubscriptionId → Option Notice → Tally → Tally
  send_notice id none t = t
  send_notice id (some n) t = record t { notices = (id, n) ∷ t.notices }

  -- What an outcome adds to the counters and lists.
  unfoldable pub note : SubscriptionId → Outcome crates channels → Tally → Tally
  unfolding count_delivered count_dropped count_coalesced mark_removed count_slow send_notice
  note id Outcome.skipped t = t
  note id Outcome.delivered t = count_delivered t
  note id Outcome.last_delivery t = mark_removed id (count_delivered t)
  note id Outcome.overwritten t = count_coalesced t
  note id Outcome.overflowed t = count_dropped t
  note id (Outcome.slow n) t = send_notice id n (count_slow id (mark_removed id t))
  note id Outcome.gone t = mark_removed id t
  note id Outcome.unreachable t = t

  -- The loop: each subscription is offered the envelope once. The lists come in the loop's order.
  unfoldable pub fan_out : EventEnvelope crates → Subs → Subs × Tally
  unfolding no_tally
  fan_out envelope [] = ([], no_tally)
  fan_out envelope ((id, sub) ∷ subs) =
      let (sub', outcome) = offer crates channels envelope sub in
      let (subs', tally) = fan_out envelope subs in ((id, sub') ∷ subs', note id outcome tally)

  close_end : Outbound crates channels → Outbound crates channels
  close_end (Outbound.mpsc tx) = Outbound.mpsc tx
  close_end (Outbound.queue state) = Outbound.queue (close state)

  -- A removed coalescing subscription closes its queue.
  unfoldable pub close_outbound : Subscription crates channels → Subscription crates channels
  unfolding close_end
  close_outbound sub = record sub { outbound = close_end sub.outbound }

  unfoldable pub remove_one : SubscriptionId → Subs → Subs → Subs × Subs
  remove_one id subs detached = elim (find id subs) [
    | none ↦ (subs, detached)
    | some sub ↦ (delete id subs, put id (close_outbound sub) detached)
  ]

  unfoldable pub remove_all : List SubscriptionId → Subs → Subs → Subs × Subs
  unfolding remove_one
  remove_all [] subs detached = (subs, detached)
  remove_all (id ∷ ids) subs detached =
      let (subs', detached') = remove_one id subs detached in remove_all ids subs' detached'

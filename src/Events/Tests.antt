-- ===== src/Events/Tests.antt =====
-- Runs of the events code: one bus with a subscription that has a quota of one, one whose channel
-- is full, and one that coalesces.
use boardwalk.Common.{
  ◌+◌, ℕ, ◌<◌, ◌≤◌, eq-of_some, subst, sym, true, none, some, List, [], ◌∷◌, Str, codes, length,
  find, split, ◌=s◌, nat_eq, str_eq, delete, put, join, All, Avoids, ok, err, ◌≡◌, ◌↔◌, refl, arith,
}
use boardwalk.Samples.{
  crates, values, channels, Envelope, lamp, on, off, state_path, pattern, view, queue, once,
  coalescing, bus, same_text_sym, same_text_trans,
}
use boardwalk.Query.Json.{Json, get}
use boardwalk.Query.Ast.{walk, extract}
use boardwalk.Query.Ast.Paths.{IsWritten}
use boardwalk.Events.Envelope.{topic}
use boardwalk.Events.Policy.{coalesce, drop_newest, from_query, query_value}
use boardwalk.Events.Policy.RoundTrip.{from_query-query_value, from_query_stable}
use boardwalk.Events.Sequencer.{
  StreamRegistry, next_sequence, event_id_of, allocate, stream_for, evict,
}
use boardwalk.Events.Sequencer
use boardwalk.Events.Sequencer.Fresh.{
  IsConsistent, new-IsConsistent, allocate-IsConsistent, allocate-fresh,
}
use boardwalk.Events.Sequencer.Runs.{Op, alloc, drop, run, Distinct, run-Distinct}
use boardwalk.Events.Topic.{braced, TopicPattern, parse, matches_at, matches_topic, matches_event}
use boardwalk.Events.Topic.Matching.{Matches, matches_at_iff}
use boardwalk.Events.Topic.Parsing.{IsPlain, parse_plain}
use boardwalk.Events.Coalesce.{push, replace_queued, replace_slot, has_key, extract_key}
use boardwalk.Events.Coalesce.Push.{PushSpec, push_cases, IsBounded, push-IsBounded}
use boardwalk.Events.Coalesce.Keys.{HasDistinctKeys, push-HasDistinctKeys, extract_key-extract}
use boardwalk.Events.Replay.{new, ring, make_room, events_after, record_envelope}
use boardwalk.Events.Replay.Rings.{record_all, events_after-record_all}
use boardwalk.Events.Bus.{EventBus, too_large, size_of, try_publish}
use boardwalk.Events.Bus.Offer.{Subscription, offer, note_delivery, disconnect_slow_consumer}
use boardwalk.Events.Bus.Fanout.{note, fan_out, remove_one, remove_all, close_outbound}
use boardwalk.Events.Bus.Counts.{counted, is_dead, is_reached, reached, fan_out_counts}
use boardwalk.Events.Bus.Survivors.{after_offer}
use boardwalk.Events.Bus.Quota.{delivered_of, after_offers, quota_kept}
use boardwalk.Events.Bus.Publish.{try_publish_oversized, find-try_publish}

-- What a publish unfolds.
run_publish : Unit {0}
unfolding try_publish size_of remove_all fan_out note offer matches_event matches_topic matches_at
    split topic ◌=s◌ note_delivery disconnect_slow_consumer push replace_queued replace_slot has_key
    extract_key get delete find put close_outbound remove_one record_envelope ring make_room evict
    after_offer reached is_reached is_dead
run_publish = tt

on-small : size_of crates channels on ≤ bus.max_event_size
unfolding size_of
on-small = omega arith

-- The subscription of quota one is served for the last time and removed.
served : after_offer crates channels on once ≡ none
unfolding run_publish
served = refl

-- One is delivered and removed, one is a slow consumer, and one is coalesced.
publish_test :
    (length (try_publish crates channels bus on).0.subs ≡ 1)
    × (length (try_publish crates channels bus on).2 ≡ 1)
unfolding run_publish
publish_test = (refl, refl)

find-try_publish_example :
    (find 3 (try_publish crates channels bus on).0.subs ≡ after_offer crates channels on coalescing)
    × ((
      (try_publish crates channels bus on).0.replay_cache,
      (try_publish crates channels bus on).0.registry,
    )
        ≡ record_envelope bus.replay_cache bus.registry on)
unfolding after_offer find
find-try_publish_example =
    find-try_publish crates channels bus on 3 on-small
      (((λ e. omega arith), ((λ e. omega arith), tt)), (((λ e. omega arith), tt), (tt, tt)))

fan_out_counts_example :
    counted crates channels (fan_out crates channels on bus.subs).1.result
    ≡ reached crates channels on bus.subs
fan_out_counts_example = fan_out_counts crates channels on bus.subs (tt, (tt, (tt, tt)))

reached_test : reached crates channels on bus.subs ≡ 3
unfolding run_publish
reached_test = refl

abbrev big : Envelope
big = record on { payload_version = 11 }

big-large : bus.max_event_size < size_of crates channels big
unfolding size_of
big-large = omega arith

try_publish_oversized_example :
    (bus' : EventBus crates channels) × (try_publish crates channels bus big
      ≡ (bus', err (too_large 10), []))
    × (bus'.subs ≡ bus.subs)
    × (bus'.replay_cache ≡ bus.replay_cache)
    × (bus'.next_id ≡ bus.next_id)
    × (stream_for bus'.registry (codes "s-1") ≡ none)
try_publish_oversized_example = try_publish_oversized crates channels bus big big-large

events_after-record_all_example :
    (length (
        ring
          (record_all {crates = crates}
            (new 2)
            bus.registry
            (on ∷ off ∷ lamp 3 (codes "on") ∷ [])).0
          (codes "s"))
      ≤ 2)
    × (events_after
          (record_all {crates = crates}
            (new 2)
            bus.registry
            (on ∷ off ∷ lamp 3 (codes "on") ∷ [])).0
          (codes "s")
          2
        ≡ lamp 3 (codes "on") ∷ [])
unfolding ◌=s◌
events_after-record_all_example =
    events_after-record_all 2 bus.registry (on ∷ off ∷ lamp 3 (codes "on") ∷ []) (codes "s") 2

abbrev twice : List Op
twice = alloc (codes "a") ∷ drop (codes "a-1") ∷ alloc (codes "a") ∷ alloc (codes "b") ∷ []

one_at_first : (s : Str) → next_sequence Sequencer.new s ≡ 1
unfolding Sequencer.new next_sequence find
one_at_first s = refl

run-Distinct_example : Distinct (run Sequencer.new twice).0
run-Distinct_example = run-Distinct Sequencer.new twice (λ s. omega (arith, one_at_first s))

allocate-fresh_example :
    stream_for Sequencer.new (allocate Sequencer.new (codes "a")).0.event_id ≡ none
allocate-fresh_example = allocate-fresh Sequencer.new (codes "a") new-IsConsistent

allocate-IsConsistent_example : IsConsistent (allocate Sequencer.new (codes "a")).1
allocate-IsConsistent_example =
    allocate-IsConsistent Sequencer.new (codes "a") (omega (arith, one_at_first (codes "a")))
      new-IsConsistent

push_cases_example : PushSpec values queue on (push values queue on).0 (push values queue on).1
push_cases_example = push_cases values queue on

push-IsBounded_example : IsBounded values (push values queue on).0
push-IsBounded_example =
    push-IsBounded values queue on (record { has_room = omega arith; bounded = omega arith })

extract_key-extract_example :
    extract_key values on state_path ≡ extract state_path (Json.obj (view on))
unfolding get ◌=s◌
extract_key-extract_example = extract_key-extract values on state_path (view on) refl refl (λ e. cc)

matches_at_iff_example :
    (matches_at crates pattern.segments
        (codes "hub" ∷ codes "lamp" ∷ codes "7" ∷ codes "state" ∷ [])
      ≡ true)
    ↔ Matches crates pattern.segments (codes "hub" ∷ codes "lamp" ∷ codes "7" ∷ codes "state" ∷ [])
matches_at_iff_example =
    matches_at_iff crates pattern.segments
      (codes "hub" ∷ codes "lamp" ∷ codes "7" ∷ codes "state" ∷ [])

state_path-HasText : IsWritten state_path
state_path-HasText = record {
  has_segment = λ e. cc;
  nonempty = ((λ e. cc), ((λ e. cc), tt));
  dotless = (
    ((λ e. omega arith), ((λ e. omega arith), ((λ e. omega arith), ((λ e. omega arith), tt)))),
    (
      (
        (λ e. omega arith),
        ((λ e. omega arith), ((λ e. omega arith), ((λ e. omega arith), ((λ e. omega arith), tt)))),
      ),
      tt,
    ),
  );
}

from_query-query_value_example :
    from_query (codes "coalesce") (some (codes "data.state")) ≡ ok (coalesce state_path)
unfolding query_value join
from_query-query_value_example = from_query-query_value (coalesce state_path) state_path-HasText

drop_newest-is_read : from_query (codes "Drop_Newest") none ≡ ok drop_newest
unfolding from_query ◌=s◌
drop_newest-is_read = refl

from_query_stable_example :
    from_query (query_value drop_newest).0 (query_value drop_newest).1 ≡ ok drop_newest
from_query_stable_example =
    from_query_stable (codes "Drop_Newest") none drop_newest drop_newest-is_read

abbrev any_lamp : Str
any_lamp = codes "hub/lamp"

any_lamp-IsPlain : All IsPlain (split b'/' any_lamp)
unfolding split ◌=s◌ braced
any_lamp-IsPlain = (
  record { no_star = refl; no_stars = refl; no_braces = refl },
  (record { no_star = refl; no_stars = refl; no_braces = refl }, tt),
)

any_lamp-Avoids : Avoids b'?' any_lamp
any_lamp-Avoids = (
  (λ e. omega arith),
  (
    (λ e. omega arith),
    (
      (λ e. omega arith),
      (
        (λ e. omega arith),
        ((λ e. omega arith), ((λ e. omega arith), ((λ e. omega arith), ((λ e. omega arith), tt)))),
      ),
    ),
  ),
)

parse_plain_example :
    (p : TopicPattern crates) × (parse crates any_lamp ≡ ok p)
    × (p.filter ≡ none)
    × ((u : Str) → (matches_topic crates p u ≡ true) ↔ (u ≡ any_lamp))
parse_plain_example = parse_plain crates any_lamp (λ e. cc) any_lamp-Avoids any_lamp-IsPlain

queue-HasDistinctKeys : HasDistinctKeys values queue.key_path queue.queue
unfolding extract_key walk get ◌=s◌
queue-HasDistinctKeys = (
  (
    (λ (k, l, ek, el, same).
        let k_is : Json.str (codes "off") ≡ k = eq-of_some ek in
        let l_is : Json.str (codes "on") ≡ l = eq-of_some el in
        let first = subst (λ x. values.value_eq x l ≡ true) (sym k_is) same in
        let both : values.value_eq (Json.str (codes "off")) (Json.str (codes "on")) ≡ true =
          subst (λ x. values.value_eq (Json.str (codes "off")) x ≡ true) (sym l_is) first in
        cc),
    tt,
  ),
  (tt, tt),
)

push-HasDistinctKeys_example :
    HasDistinctKeys values (push values queue on).0.key_path (push values queue on).0.queue
push-HasDistinctKeys_example =
    push-HasDistinctKeys values same_text_sym same_text_trans queue on queue-HasDistinctKeys

-- A subscription with a quota of two that is offered three envelopes gets two of them.
abbrev two_at_most : Subscription crates channels
two_at_most = record once { remaining = some 2 }

quota_kept_example :
    (delivered_of crates channels (on ∷ off ∷ on ∷ []) two_at_most ≤ 2)
    × ((sub' : Subscription crates channels)
        → after_offers crates channels (on ∷ off ∷ on ∷ []) two_at_most ≡ some sub'
        → (m : ℕ) × (sub'.remaining ≡ some m)
          × (1 ≤ m)
          × (delivered_of crates channels (on ∷ off ∷ on ∷ []) two_at_most + m ≡ 2))
quota_kept_example =
    quota_kept crates channels (on ∷ off ∷ on ∷ []) two_at_most 2 (omega arith) refl

delivered_test : delivered_of crates channels (on ∷ off ∷ on ∷ []) two_at_most ≡ 2
unfolding delivered_of run_publish
delivered_test = refl

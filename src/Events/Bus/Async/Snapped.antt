-- ===== src/Events/Bus/Async/Snapped.antt =====
-- What the loop under the lock of a publish does for one id.
use boardwalk.Common.{
  ℕ, ◌+◌, Bool, true, false, ◌&&◌, Option, none, some, List, [], ◌∷◌, ◌==◌, ==_iff, if◌then◌else◌,
  ◌≡◌, refl, sym, ◌∙◌, ap, subst, arith, Bool-cases, inl, inr, find, nat_eq,
}
use boardwalk.Events.Crates.{Crates}
use boardwalk.Events.Envelope.{EventEnvelope}
use boardwalk.Events.Bus.Mpsc.{Channels}
use boardwalk.Events.Bus.Offer.{SubscriptionId, Subscription, Outcome}
use boardwalk.Events.Bus.Fanout.{Tally, Subs, no_tally}
use boardwalk.Events.Bus.Survivors.{NotIn, HasDistinctIds, is_in, removes, is_in-note}
use boardwalk.Events.Bus.Claims.{Claim, inline, claimed, claim}
use boardwalk.Events.Bus.Async.{Match, note_claim, add_match, snapshot}
use boardwalk.Events.Bus.Async.Step.{sent_inline, sent_by}
use boardwalk.Events.Bus.Async.Listing.{count_id, count_matches}

module _ (crates : Crates) (channels : Channels crates) where
  -- What the loop under the lock does for one id: whether it removes, sends to, and claims it.
  abbrev pub drops : Claim crates channels → Bool
  drops (inline o) = removes crates channels o
  drops claimed = false

  abbrev pub sends_one : Claim crates channels → ℕ
  sends_one (inline Outcome.delivered) = 1
  sends_one (inline Outcome.last_delivery) = 1
  sends_one _ = 0

  abbrev pub claims_one : Claim crates channels → ℕ
  claims_one (inline o) = 0
  claims_one claimed = 1

  is_in-note_claim :
      (id j : SubscriptionId) (c : Claim crates channels) (t : Tally)
      → is_in j (note_claim crates channels id c t).to_remove
        ≡ (if id == j && drops c then true else is_in j t.to_remove)
  unfolding note_claim
  is_in-note_claim id j (inline o) t = is_in-note crates channels id j o t
  is_in-note_claim id j claimed t = ground arith

  count-sent_inline :
      (id j : SubscriptionId) (c : Claim crates channels) (ids : List SubscriptionId)
      → count_id j (sent_inline crates channels id c ids)
        ≡ (if id == j then sends_one c else 0) + count_id j ids
  unfolding sent_inline
  count-sent_inline id j (inline Outcome.delivered) ids = ground arith
  count-sent_inline id j (inline Outcome.last_delivery) ids = ground arith
  count-sent_inline id j (inline Outcome.skipped) ids = ground arith
  count-sent_inline id j (inline Outcome.overwritten) ids = ground arith
  count-sent_inline id j (inline Outcome.overflowed) ids = ground arith
  count-sent_inline id j (inline (Outcome.slow n)) ids = ground arith
  count-sent_inline id j (inline Outcome.gone) ids = ground arith
  count-sent_inline id j (inline Outcome.unreachable) ids = ground arith
  count-sent_inline id j claimed ids = ground arith

  count-add_match :
      (id j : SubscriptionId) (sub : Subscription crates channels) (c : Claim crates channels)
      (ms : List Match)
      → count_matches j (add_match crates channels id sub c ms)
        ≡ (if id == j then claims_one c else 0) + count_matches j ms
  unfolding add_match
  count-add_match id j sub (inline o) ms = ground arith
  count-add_match id j sub claimed ms = ground arith

  -- The same for the whole loop, at an id: the entry afterwards with removals, and the two counts.
  abbrev pub Snapped :
      EventEnvelope crates
      → SubscriptionId
      → Subs crates channels
      → Option (Subscription crates channels)
      → Type 0
  Snapped e j subs none =
      (find j (snapshot crates channels e subs).0 ≡ none)
      × (is_in j (snapshot crates channels e subs).1.to_remove ≡ false)
      × (count_matches j (snapshot crates channels e subs).2 ≡ 0)
      × (count_id j (sent_by crates channels e subs) ≡ 0)
  Snapped e j subs (some sub) =
      (find j (snapshot crates channels e subs).0 ≡ some (claim crates channels e sub).0)
      × (is_in j (snapshot crates channels e subs).1.to_remove
          ≡ drops (claim crates channels e sub).1)
      × (count_matches j (snapshot crates channels e subs).2
          ≡ claims_one (claim crates channels e sub).1)
      × (count_id j (sent_by crates channels e subs) ≡ sends_one (claim crates channels e sub).1)

  Snapped-other :
      (e : EventEnvelope crates) (j id : SubscriptionId) (sub : Subscription crates channels)
      (subs : Subs crates channels) (o : Option (Subscription crates channels))
      → (id == j) ≡ false
      → Snapped e j subs o
      → Snapped e j ((id, sub) ∷ subs) o
  unfolding snapshot sent_by find
  Snapped-other e j id sub subs none ne (a, b, c, d) =
      let cl = (claim crates channels e sub).1 in
      let rest = snapshot crates channels e subs in
      (
        rw ne a,
        is_in-note_claim id j cl rest.1 ∙ rw ne b,
        ground (arith, count-add_match id j sub cl rest.2),
        ground (arith, count-sent_inline id j cl (sent_by crates channels e subs)),
      )
  Snapped-other e j id sub subs (some x) ne (a, b, c, d) =
      let cl = (claim crates channels e sub).1 in
      let rest = snapshot crates channels e subs in
      (
        rw ne a,
        is_in-note_claim id j cl rest.1 ∙ rw ne b,
        count-add_match id j sub cl rest.2 ∙ rw ne (ap (λ n. 0 + n) c ∙ omega arith),
        count-sent_inline id j cl (sent_by crates channels e subs)
            ∙ rw ne (ap (λ n. 0 + n) d ∙ omega arith),
      )

  Snapped-NotIn :
      (e : EventEnvelope crates) (j : SubscriptionId) (subs : Subs crates channels)
      → NotIn crates channels j subs
      → Snapped e j subs none
  unfolding snapshot sent_by find no_tally
  Snapped-NotIn e j [] h = (refl, refl, refl, refl)
  Snapped-NotIn e j ((id, sub) ∷ subs) (ne, h) =
      Snapped-other e j id sub subs none (ground arith) (Snapped-NotIn e j subs h)

  Snapped-self :
      (e : EventEnvelope crates) (j id : SubscriptionId) (sub : Subscription crates channels)
      (subs : Subs crates channels)
      → (id == j) ≡ true
      → Snapped e j subs none
      → Snapped e j ((id, sub) ∷ subs) (some sub)
  unfolding snapshot sent_by find
  Snapped-self e j id sub subs same (a, b, c, d) =
      let cl = (claim crates channels e sub).1 in
      let rest = snapshot crates channels e subs in
      (
        rw same refl,
        is_in-note_claim id j cl rest.1 ∙ rw (same, b) (if_self (drops cl)),
        count-add_match id j sub cl rest.2 ∙ rw (same, c) (omega arith),
        count-sent_inline id j cl (sent_by crates channels e subs) ∙ rw (same, d) (omega arith),
      )
    where
      if_self : (b : Bool) → (if true && b then true else false) ≡ b
      if_self true = refl
      if_self false = refl

  find-here :
      (j id : SubscriptionId) (sub : Subscription crates channels) (subs : Subs crates channels)
      → (id == j) ≡ true
      → find j ((id, sub) ∷ subs) ≡ some sub
  unfolding find
  find-here j id sub subs same = rw same refl

  find-next :
      (j id : SubscriptionId) (sub : Subscription crates channels) (subs : Subs crates channels)
      → (id == j) ≡ false
      → find j ((id, sub) ∷ subs) ≡ find j subs
  unfolding find
  find-next j id sub subs other = rw other refl

  pub snapshot-Snapped :
      (e : EventEnvelope crates) (j : SubscriptionId) (subs : Subs crates channels)
      → HasDistinctIds crates channels subs
      → Snapped e j subs (find j subs)
  unfolding find snapshot sent_by no_tally
  snapshot-Snapped e j [] d = (refl, refl, refl, refl)
  snapshot-Snapped e j ((id, sub) ∷ subs) (n, d) = elim (Bool-cases (id == j)) [
    | inl same ↦
        let absent = subst (λ k. NotIn crates channels k subs) ((==_iff id j).0 same) n in
        subst (λ o. Snapped e j ((id, sub) ∷ subs) o) (sym (find-here j id sub subs same))
          (Snapped-self e j id sub subs same (Snapped-NotIn e j subs absent))
    | inr other ↦
        subst (λ o. Snapped e j ((id, sub) ∷ subs) o) (sym (find-next j id sub subs other))
          (Snapped-other e j id sub subs (find j subs) other (snapshot-Snapped e j subs d))
  ]

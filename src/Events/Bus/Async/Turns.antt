-- ===== src/Events/Bus/Async/Turns.antt =====
-- events/bus.rs, `publish`: turns for the publishes under way, and how many they need.
use boardwalk.Common.{
  ℕ, suc, ◌-◌, ◌*◌, ◌≤◌, Bool, Option, none, some, List, [], ◌∷◌, length, ◌≡◌, refl, ap, arith,
  nat_eq,
}
use boardwalk.Events.Crates.{Crates}
use boardwalk.Events.Bus.Mpsc.{Channels, TrySend}
use boardwalk.Events.Bus.Async.{Match}
use boardwalk.Events.Bus.Async.Totals.{total}
use boardwalk.Events.Bus.Async.Step.{
  Phase, sending, committing, cancelled, Publish, System, Event, pick, step,
}

module _ (crates : Crates) (channels : Channels crates) where
  -- The next step of a publish, by its phase; a send meets what the environment answers.
  abbrev pub next_event : ℕ → Phase → TrySend × Bool → Event crates channels
  next_event i sending (r, accepted) = Event.send i r accepted
  next_event i (committing result) answer = Event.committed i
  next_event i cancelled answer = Event.drop_guard i

  abbrev pub Picked : Type 0
  Picked =
      Option (Publish crates channels × (Publish crates channels → List (Publish crates channels)))

  abbrev pub next_of : ℕ → TrySend × Bool → Picked → Event crates channels
  next_of i answer none = Event.drop_guard i
  next_of i answer (some (p, b)) = next_event i p.phase answer

  abbrev index_from : List Match → ℕ → ℕ
  index_from [] later = suc later
  index_from (m ∷ ms) later = 0

  -- The first publish that has a match left.
  abbrev pub first_waiting : List (Publish crates channels) → ℕ
  first_waiting [] = 0
  first_waiting (p ∷ ps) = index_from p.matches (first_waiting ps)

  -- What the first publish that has a match left does next.
  abbrev pub next : TrySend × Bool → System crates channels → Event crates channels
  next answer s =
      let i = first_waiting s.publishes in next_of i answer (pick crates channels i s.publishes)

  -- Turns are given to the publishes that have matches left, one after another.
  abbrev pub drain : List (TrySend × Bool) → System crates channels → System crates channels
  drain [] s = s
  drain (answer ∷ answers) s = drain answers (step crates channels (next answer s) s)

  -- The matches that were not committed and whose claims were not given back.
  abbrev pub left_of : Publish crates channels → ℕ
  left_of p = length p.matches

  -- The turns that a publish needs at most.
  abbrev pub cost : Phase → ℕ → ℕ
  cost sending k = 2 * k
  cost (committing result) k = 2 * k - 1
  cost cancelled k = k

  abbrev pub cost_of : Publish crates channels → ℕ
  cost_of p = cost p.phase (length p.matches)

  abbrev pub costs : List (Publish crates channels) → ℕ
  costs ps = total crates channels cost_of ps

  left-le : (phase : Phase) (k : ℕ) → k ≤ cost phase k
  left-le sending k = omega arith
  left-le (committing result) k = omega arith
  left-le cancelled k = omega arith

  cost-le : (phase : Phase) (k : ℕ) → cost phase k ≤ 2 * k
  cost-le sending k = omega arith
  cost-le (committing result) k = omega arith
  cost-le cancelled k = omega arith

  pub total-left-le :
      (ps : List (Publish crates channels)) → total crates channels left_of ps ≤ costs ps
  total-left-le [] = omega arith
  total-left-le (p ∷ ps) = omega (arith, total-left-le ps, left-le p.phase (length p.matches))

  pub costs-le :
      (ps : List (Publish crates channels)) → costs ps ≤ 2 * total crates channels left_of ps
  costs-le [] = omega arith
  costs-le (p ∷ ps) = omega (arith, costs-le ps, cost-le p.phase (length p.matches))

  -- The picked publish has a match left.
  abbrev pub IsWaiting : Picked → Type 0
  IsWaiting none = ⊥
  IsWaiting (some (p, b)) = (m : Match) × (ms : List Match) × (p.matches ≡ m ∷ ms)

  IsWaiting-next :
      (q : Publish crates channels) (o : Picked)
      → IsWaiting o
      → IsWaiting (elim o [ none ↦ none | some (p, b) ↦ some (p, λ x. q ∷ b x) ])
  IsWaiting-next q none h = h
  IsWaiting-next q (some (p, b)) h = h

  first_waiting_by :
      (p : Publish crates channels) (ps : List (Publish crates channels)) (ms : List Match)
      → p.matches ≡ ms
      → (1 ≤ costs ps → IsWaiting (pick crates channels (first_waiting ps) ps))
      → 1 ≤ costs (p ∷ ps)
      → IsWaiting (pick crates channels (index_from ms (first_waiting ps)) (p ∷ ps))
  unfolding pick
  first_waiting_by p ps (m ∷ ms) e later h = (m, ms, e)
  first_waiting_by p ps [] e later h =
      let nothing = cost-le p.phase (length p.matches) in
      let none_left : length p.matches ≡ 0 = ap length e in
      IsWaiting-next p (pick crates channels (first_waiting ps) ps) (later (omega arith))

  -- While a publish has a match left, there is a first one.
  pub first_waiting_lem :
      (ps : List (Publish crates channels))
      → 1 ≤ costs ps
      → IsWaiting (pick crates channels (first_waiting ps) ps)
  first_waiting_lem [] h = absurd (omega arith)
  first_waiting_lem (p ∷ ps) h = first_waiting_by p ps p.matches refl (first_waiting_lem ps) h

  no_next :
      (q : Publish crates channels) (o : Picked)
      → o ≡ none
      → ◌≡◌ {A = Picked} (elim o [ none ↦ none | some (p, b) ↦ some (p, λ x. q ∷ b x) ]) none
  no_next q none e = refl
  no_next q (some (p, b)) e = absurd (cc)

  -- Without a match left, no publish is picked.
  none_waiting_by :
      (p : Publish crates channels) (ps : List (Publish crates channels)) (ms : List Match)
      → p.matches ≡ ms
      → (costs ps ≤ 0 → pick crates channels (first_waiting ps) ps ≡ none)
      → costs (p ∷ ps) ≤ 0
      → pick crates channels (index_from ms (first_waiting ps)) (p ∷ ps) ≡ none
  unfolding pick
  none_waiting_by p ps (m ∷ ms) e later h =
      let more : length p.matches ≡ suc (length ms) = ap length e in
      let least = left-le p.phase (length p.matches) in absurd (omega arith)
  none_waiting_by p ps [] e later h =
      no_next p (pick crates channels (first_waiting ps) ps) (later (omega arith))

  pub none_waiting :
      (ps : List (Publish crates channels))
      → costs ps ≤ 0
      → pick crates channels (first_waiting ps) ps ≡ none
  unfolding pick
  none_waiting [] h = refl
  none_waiting (p ∷ ps) h = none_waiting_by p ps p.matches refl (none_waiting ps) h

-- ===== src/Events/Bus/Async/Progress.antt =====
-- events/bus.rs, `publish`: publishes that get their turns come to their end.
use boardwalk.Common.{
  ℕ, suc, ◌+◌, ◌-◌, ◌*◌, ◌≤◌, Bool, Option, none, some, List, [], ◌∷◌, length, ◌≡◌, refl, sym, ap,
  subst, arith, nat_eq,
}
use native.Mathlib.Decide.{dec_lt}
use boardwalk.Events.Crates.{Crates}
use boardwalk.Events.Bus.Mpsc.{Channels, TrySend}
use boardwalk.Events.Bus.Claims.{SendResult, send_result}
use boardwalk.Events.Bus.Async.{Match, slow_notice, count_result}
use boardwalk.Events.Bus.Async.Totals.{total, Fits, pick-Fits}
use boardwalk.Events.Bus.Async.Step.{
  Phase, sending, committing, cancelled, Publish, System, sends, was_taken, send_with, commit_with,
  drop_with, pick, send_at, commit_at, drop_at, turn, step,
}
use boardwalk.Events.Bus.Async.Turns.{
  next_event, Picked, next_of, first_waiting, next, drain, left_of, cost, cost_of, costs,
  total-left-le, costs-le, IsWaiting, first_waiting_lem, none_waiting,
}

module _ (crates : Crates) (channels : Channels crates) where
  cost-send :
      (s : System crates channels) (p : Publish crates channels)
      (b : Publish crates channels → List (Publish crates channels)) (m : Match) (ms : List Match)
      (r : TrySend) (accepted : Bool)
      → p.phase ≡ sending
      → p.matches ≡ m ∷ ms
      → Fits crates channels s.publishes (some (p, b))
      → costs crates channels (send_with crates channels b p (m ∷ ms) r accepted s).publishes + 1
        ≤ costs crates channels s.publishes
  unfolding send_with
  cost-send s p b m ms r accepted e k fits =
      by_result (send_result m.slow_consumer_policy r accepted)
    where
      before : cost_of crates channels p ≡ 2 * length p.matches
      before = ap (λ a. cost crates channels a (length p.matches)) e

      more : length p.matches ≡ suc (length ms)
      more = ap length k

      by_result :
          (o : Option SendResult)
          → costs crates channels
                (elim o as (λ x. System crates channels) [
                  | none ↦ record s { publishes = b (record p { phase = cancelled }) }
                  | some result ↦ record s {
                    publishes = b (record p { phase = committing result });
                    sent =
                        sends crates channels m.id
                          (was_taken m.slow_consumer_policy r accepted)
                          s.sent;
                  }
                ]).publishes
              + 1
            ≤ costs crates channels s.publishes
      by_result none =
          omega
            (arith, fits (cost_of crates channels) (record p { phase = cancelled }), before, more)
      by_result (some result) = omega (
        arith,
        fits (cost_of crates channels) (record p { phase = committing result }),
        before,
        more,
      )

  cost-commit :
      (s : System crates channels) (p : Publish crates channels)
      (b : Publish crates channels → List (Publish crates channels)) (m : Match) (ms : List Match)
      (result : SendResult)
      → p.phase ≡ committing result
      → p.matches ≡ m ∷ ms
      → Fits crates channels s.publishes (some (p, b))
      → costs crates channels (commit_with crates channels b p (m ∷ ms) result s).publishes + 1
        ≤ costs crates channels s.publishes
  unfolding commit_with
  cost-commit s p b m ms result e k fits =
      let more : length p.matches ≡ suc (length ms) = ap length k in
      let before : cost_of crates channels p ≡ 2 * length p.matches - 1 =
        ap (λ a. cost crates channels a (length p.matches)) e in
      let c = fits (cost_of crates channels) (record p {
        matches = ms;
        tally =
            count_result crates channels m.id result (slow_notice crates channels m.id s.bus.subs)
              p.tally;
        phase = sending;
      }) in
      omega arith

  cost-drop :
      (s : System crates channels) (p : Publish crates channels)
      (b : Publish crates channels → List (Publish crates channels)) (m : Match) (ms : List Match)
      → p.phase ≡ cancelled
      → p.matches ≡ m ∷ ms
      → Fits crates channels s.publishes (some (p, b))
      → costs crates channels (drop_with crates channels b p (m ∷ ms) s).publishes + 1
        ≤ costs crates channels s.publishes
  unfolding drop_with
  cost-drop s p b m ms e k fits =
      let more : length p.matches ≡ suc (length ms) = ap length k in
      let before : cost_of crates channels p ≡ length p.matches =
        ap (λ a. cost crates channels a (length p.matches)) e in
      let after : cost crates channels p.phase (length ms) ≡ length ms =
        ap (λ a. cost crates channels a (length ms)) e in
      let c = fits (cost_of crates channels) (record p { matches = ms }) in omega arith

  -- The costs crates channels after a step, where the phase and the matches of the publish are as given.
  cost-by_phase :
      (i : ℕ) (s : System crates channels) (p : Publish crates channels)
      (b : Publish crates channels → List (Publish crates channels)) (phase : Phase)
      (answer : TrySend × Bool) (m : Match) (ms : List Match)
      → p.phase ≡ phase
      → p.matches ≡ m ∷ ms
      → Fits crates channels s.publishes (some (p, b))
      → pick crates channels i s.publishes ≡ some (p, b)
      → costs crates channels
            (step crates channels (next_event crates channels i phase answer) s).publishes
          + 1
        ≤ costs crates channels s.publishes
  unfolding step turn send_at commit_at drop_at
  cost-by_phase i s p b sending (r, accepted) m ms e k fits at =
      rw (at, turn)
        (subst
          (λ a.
            costs crates channels (send_at crates channels a b p r accepted s).publishes + 1
            ≤ costs crates channels s.publishes)
          (sym e)
          (subst
            (λ l.
              costs crates channels (send_with crates channels b p l r accepted s).publishes + 1
              ≤ costs crates channels s.publishes)
            (sym k) (cost-send s p b m ms r accepted e k fits)))
  cost-by_phase i s p b (committing result) answer m ms e k fits at =
      rw (at, turn)
        (subst
          (λ a.
            costs crates channels (commit_at crates channels a b p s).publishes + 1
            ≤ costs crates channels s.publishes)
          (sym e)
          (subst
            (λ l.
              costs crates channels (commit_with crates channels b p l result s).publishes + 1
              ≤ costs crates channels s.publishes)
            (sym k) (cost-commit s p b m ms result e k fits)))
  cost-by_phase i s p b cancelled answer m ms e k fits at =
      rw (at, turn)
        (subst
          (λ a.
            costs crates channels (drop_at crates channels a b p s).publishes + 1
            ≤ costs crates channels s.publishes)
          (sym e)
          (subst
            (λ l.
              costs crates channels (drop_with crates channels b p l s).publishes + 1
              ≤ costs crates channels s.publishes)
            (sym k) (cost-drop s p b m ms e k fits)))

  cost-step :
      (i : ℕ) (s : System crates channels) (o : Picked crates channels) (answer : TrySend × Bool)
      → IsWaiting crates channels o
      → Fits crates channels s.publishes o
      → pick crates channels i s.publishes ≡ o
      → costs crates channels
            (step crates channels (next_of crates channels i answer o) s).publishes
          + 1
        ≤ costs crates channels s.publishes
  cost-step i s none answer w fits at = absurd w
  cost-step i s (some (p, b)) answer (m, ms, k) fits at =
      cost-by_phase i s p b p.phase answer m ms refl k fits at

  idle-step :
      (i : ℕ) (s : System crates channels) (o : Picked crates channels) (answer : TrySend × Bool)
      → o ≡ none
      → pick crates channels i s.publishes ≡ o
      → costs crates channels
          (step crates channels (next_of crates channels i answer o) s).publishes
        ≡ costs crates channels s.publishes
  unfolding step turn
  idle-step i s none answer e at = rw (at, turn) refl
  idle-step i s (some (p, b)) answer e at = absurd (cc)

  costs-next :
      (answer : TrySend × Bool) (s : System crates channels) (k : ℕ)
      → costs crates channels s.publishes ≤ suc k
      → costs crates channels (step crates channels (next crates channels answer s) s).publishes ≤ k
  costs-next answer s k h = elim (dec_lt 0 (costs crates channels s.publishes)) [
    | yes some_left ↦
        let less =
          cost-step (first_waiting crates channels s.publishes) s
            (pick crates channels (first_waiting crates channels s.publishes) s.publishes) answer
            (first_waiting_lem crates channels s.publishes (omega arith))
            (pick-Fits crates channels (first_waiting crates channels s.publishes) s.publishes)
            refl in
        omega arith
    | no none_left ↦
        let same =
          idle-step (first_waiting crates channels s.publishes) s
            (pick crates channels (first_waiting crates channels s.publishes) s.publishes) answer
            (none_waiting crates channels s.publishes (omega arith)) refl in
        omega arith
  ]

  costs-drain :
      (answers : List (TrySend × Bool)) (s : System crates channels)
      → costs crates channels s.publishes ≤ length answers
      → costs crates channels (drain crates channels answers s).publishes ≤ 0
  costs-drain [] s h = h
  costs-drain (answer ∷ answers) s h =
      costs-drain answers (step crates channels (next crates channels answer s) s)
        (costs-next answer s (length answers) h)

  -- Two turns for each match are enough.
  pub left-drain :
      (answers : List (TrySend × Bool)) (s : System crates channels)
      → 2 * total crates channels (left_of crates channels) s.publishes ≤ length answers
      → total crates channels (left_of crates channels) (drain crates channels answers s).publishes
        ≡ 0
  left-drain answers s h =
      let start = costs-le crates channels s.publishes in
      let done = costs-drain answers s (omega arith) in
      let rest = total-left-le crates channels (drain crates channels answers s).publishes in
      omega arith

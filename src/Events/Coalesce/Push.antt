-- ===== src/Events/Coalesce/Push.antt =====
-- What a push does to the queue, on every branch, and the bound on the queue.
use boardwalk.Common.{
  ℕ, suc, ◌≤◌, ◌<◌, true, false, none, some, List, [], ◌∷◌, ◌++◌, ltb, length, length-append, ◌≡◌,
  refl, sym, ap, arith, inl, inr, All, Option-cases, Bool-cases, subst, eq-of_some, ltb→lt,
}
use boardwalk.Query.Json.{Json}
use boardwalk.Query.Ast.{FieldPath}
use boardwalk.Events.Crates.{Crates}
use boardwalk.Events.Envelope.{EventEnvelope}
use boardwalk.Events.Coalesce.{
  PushOutcome, pushed, replaced, dropped, receiver_gone, Values, CoalesceState, at_least_one, new,
  extract_key, has_key, replace_slot, replace_queued, push,
}

module _ {crates : Crates} (values : Values crates) where
  open values use {value_eq, to_value}

  -- The two queues differ in one slot, which held an envelope of the key and now holds `env`; no
  -- slot before it has the key.
  pub data Overwrites (path : FieldPath) (key : Json crates.numbers.Number)
      (env : EventEnvelope crates)
      : List (EventEnvelope crates) → List (EventEnvelope crates) → Type 0 where
    here :
        {slot : EventEnvelope crates} {q : List (EventEnvelope crates)}
        → has_key values path key slot ≡ true
        → Overwrites path key env (slot ∷ q) (env ∷ q)
    later :
        {slot : EventEnvelope crates} {q q' : List (EventEnvelope crates)}
        → has_key values path key slot ≡ false
        → Overwrites path key env q q'
        → Overwrites path key env (slot ∷ q) (slot ∷ q')

  -- No envelope of the queue has the key.
  abbrev pub IsAbsent :
      FieldPath → Json crates.numbers.Number → List (EventEnvelope crates) → Type 0
  IsAbsent path key q = All (λ slot. has_key values path key slot ≡ false) q

  replace_slot-some :
      (path : FieldPath) (key : Json crates.numbers.Number) (env : EventEnvelope crates)
      (q q' : List (EventEnvelope crates))
      → replace_slot values path key env q ≡ some q'
      → Overwrites path key env q q'
  unfolding replace_slot
  replace_slot-some path key env [] q' h = cc
  replace_slot-some path key env (slot ∷ q) q' h =
      elim (Bool-cases (has_key values path key slot)) [
        | inl same ↦
            let e : env ∷ q ≡ q' = eq-of_some (rw same at h) in
            subst (λ x. Overwrites path key env (slot ∷ q) x) e (here same)
        | inr other ↦ elim (Option-cases (replace_slot values path key env q)) [
          | inl miss ↦ absurd (ground arith)
          | inr (r, hit) ↦
              let e : slot ∷ r ≡ q' = eq-of_some (rw (other, hit) at h) in
              subst (λ x. Overwrites path key env (slot ∷ q) x) e
                (later other (replace_slot-some path key env q r hit))
        ]
      ]

  replace_slot-none :
      (path : FieldPath) (key : Json crates.numbers.Number) (env : EventEnvelope crates)
      (q : List (EventEnvelope crates))
      → replace_slot values path key env q ≡ none
      → IsAbsent path key q
  unfolding replace_slot
  replace_slot-none path key env [] h = tt
  replace_slot-none path key env (slot ∷ q) h = elim (Bool-cases (has_key values path key slot)) [
    | inl same ↦ absurd (ground arith)
    | inr other ↦ elim (Option-cases (replace_slot values path key env q)) [
      | inl miss ↦ (other, replace_slot-none path key env q miss)
      | inr (r, hit) ↦ absurd (ground arith)
    ]
  ]

  pub Overwrites-length :
      {path : FieldPath} {key : Json crates.numbers.Number} {env : EventEnvelope crates}
      {q q' : List (EventEnvelope crates)}
      → Overwrites path key env q q'
      → length q' ≡ length q
  Overwrites-length (here h) = refl
  Overwrites-length (later h o) = ap suc (Overwrites-length o)

  -- What a push may do, by its outcome.
  pub data PushSpec (s : CoalesceState crates) (env : EventEnvelope crates)
      : CoalesceState crates → PushOutcome → Type 0 where
    spec_gone : s.receiver_dropped ≡ true → PushSpec s env s receiver_gone
    spec_replaced :
        (key : Json crates.numbers.Number) (q : List (EventEnvelope crates))
        → s.receiver_dropped ≡ false
        → extract_key values env s.key_path ≡ some key
        → Overwrites s.key_path key env s.queue q
        → PushSpec s env (record s { queue = q }) replaced
    spec_pushed :
        s.receiver_dropped ≡ false
        → ((key : Json crates.numbers.Number)
            → extract_key values env s.key_path ≡ some key
            → IsAbsent s.key_path key s.queue)
        → length s.queue < s.capacity
        → PushSpec s env (record s { queue = s.queue ++ env ∷ [] }) pushed
    spec_dropped :
        s.receiver_dropped ≡ false
        → ((key : Json crates.numbers.Number)
            → extract_key values env s.key_path ≡ some key
            → IsAbsent s.key_path key s.queue)
        → s.capacity ≤ length s.queue
        → PushSpec s env s dropped

  replace_queued-some :
      (path : FieldPath) (env : EventEnvelope crates) (q q' : List (EventEnvelope crates))
      → replace_queued values path env q ≡ some q'
      → (key : Json crates.numbers.Number) × (extract_key values env path ≡ some key)
        × Overwrites path key env q q'
  unfolding replace_queued
  replace_queued-some path env q q' h = elim (Option-cases (extract_key values env path)) [
    | inl miss ↦ absurd (let bad = rw (miss, replace_queued) at h in cc)
    | inr (key, hit) ↦
        (key, hit, replace_slot-some path key env q q' (rw (hit, replace_queued) at h))
  ]

  replace_queued-none :
      (path : FieldPath) (env : EventEnvelope crates) (q : List (EventEnvelope crates))
      → replace_queued values path env q ≡ none
      → (key : Json crates.numbers.Number) → extract_key values env path ≡ some key
      → IsAbsent path key q
  unfolding replace_queued
  replace_queued-none path env q h key hit =
      replace_slot-none path key env q (rw (hit, replace_queued) at h)

  PushSpec-of_eq :
      (s : CoalesceState crates) (env : EventEnvelope crates)
      (r : CoalesceState crates × PushOutcome)
      → push values s env ≡ r
      → PushSpec s env r.0 r.1
      → PushSpec s env (push values s env).0 (push values s env).1
  PushSpec-of_eq s env r e p = subst (λ x. PushSpec s env x.0 x.1) (sym e) p

  -- Every push has one of four outcomes: the receiver is gone and nothing changes; the first queued
  -- envelope of the same key is overwritten; with no such envelope the new one comes last if there
  -- is room, and nothing changes if there is none.
  pub push_cases :
      (s : CoalesceState crates) (env : EventEnvelope crates)
      → PushSpec s env (push values s env).0 (push values s env).1
  unfolding push
  push_cases s env = elim (Bool-cases s.receiver_dropped) [
    | inl gone ↦ PushSpec-of_eq s env (s, receiver_gone) (ground arith) (spec_gone gone)
    | inr live ↦ elim (Option-cases (replace_queued values s.key_path env s.queue)) [
      | inr (q, hit) ↦
          let (key, has, over) = replace_queued-some s.key_path env s.queue q hit in
          PushSpec-of_eq s env (record s { queue = q }, replaced) (ground arith)
            (spec_replaced key q live has over)
      | inl miss ↦
          let absent = replace_queued-none s.key_path env s.queue miss in
          elim (Bool-cases (ltb (length s.queue) s.capacity)) [
            | inl room ↦
                PushSpec-of_eq s env (record s { queue = s.queue ++ env ∷ [] }, pushed)
                  (ground arith) (spec_pushed live absent (ltb→lt _ _ room))
            | inr full ↦
                PushSpec-of_eq s env (s, dropped) (ground arith)
                  (spec_dropped live absent (ground arith))
          ]
    ]
  ]

  -- The bound on the queue; a new queue meets it whatever capacity is asked for.
  pub record IsBounded (s : CoalesceState crates) : Type 0 where
    pub has_room : 1 ≤ s.capacity
    pub bounded : length s.queue ≤ s.capacity

  PushSpec-IsBounded :
      {s s' : CoalesceState crates} {env : EventEnvelope crates} {o : PushOutcome}
      → IsBounded s
      → PushSpec s env s' o
      → IsBounded s'
  PushSpec-IsBounded b (spec_gone h) = b
  PushSpec-IsBounded b (spec_replaced key q live has over) = record {
    has_room = b.has_room;
    bounded = omega (arith, Overwrites-length over, b.bounded);
  }
  PushSpec-IsBounded {s} {env} b (spec_pushed live absent room) = record {
    has_room = b.has_room;
    bounded = omega (arith, length-append s.queue (env ∷ []));
  }
  PushSpec-IsBounded b (spec_dropped live absent full) = b

  -- A push keeps a queue within its capacity, which stays at least 1.
  pub push-IsBounded :
      (s : CoalesceState crates) (env : EventEnvelope crates)
      → IsBounded s
      → IsBounded (push values s env).0
  push-IsBounded s env b = PushSpec-IsBounded b (push_cases s env)

  pub new-IsBounded :
      (capacity : ℕ) (path : FieldPath) → IsBounded (new {crates = crates} capacity path)
  unfolding new at_least_one
  new-IsBounded capacity path = ground arith

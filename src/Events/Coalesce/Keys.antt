-- ===== src/Events/Coalesce/Keys.antt =====
-- A coalescing queue holds one envelope at most for each key; and the short way to a key below
-- `data` finds what the envelope's JSON view holds there.
use boardwalk.Common.{
  true, false, some, List, [], ◌∷◌, ◌++◌, Str, codes, ◌=s◌, ◌≡◌, ◌≢◌, refl, sym, ◌∙◌, subst, inl,
  inr, All, All-append, Option-cases, Bool-cases, eq-of_some, eq-of_=s,
}
use boardwalk.Query.Json.{Json, Fields, get}
use boardwalk.Query.Ast.{FieldPath, walk, extract}
use boardwalk.Events.Crates.{Crates}
use boardwalk.Events.Envelope.{EventEnvelope}
use boardwalk.Events.Coalesce.{
  PushOutcome, Values, CoalesceState, extract_from, extract_key, has_key, push,
}
use boardwalk.Events.Coalesce.Push.{
  Overwrites, here, later, IsAbsent, PushSpec, spec_gone, spec_replaced, spec_pushed, spec_dropped,
  push_cases,
}

module _ {crates : Crates} (values : Values crates) where
  open values use {value_eq, to_value}

  -- Both envelopes have a key, and the keys are equal.
  abbrev pub SameKey : FieldPath → EventEnvelope crates → EventEnvelope crates → Type 0
  SameKey path a b =
      (k : Json crates.numbers.Number) × (l : Json crates.numbers.Number) × (extract_key values a
          path
        ≡ some k)
      × (extract_key values b path ≡ some l)
      × (value_eq k l ≡ true)

  abbrev pub HasDistinctKeys : FieldPath → List (EventEnvelope crates) → Type 0
  HasDistinctKeys path [] = Unit
  HasDistinctKeys path (a ∷ q) = All (λ b. ¬ SameKey path a b) q × HasDistinctKeys path q

  has_key-eq :
      (path : FieldPath) (key : Json crates.numbers.Number) (slot : EventEnvelope crates)
      (k : Json crates.numbers.Number)
      → extract_key values slot path ≡ some k
      → has_key values path key slot ≡ value_eq k key
  unfolding has_key
  has_key-eq path key slot k e = rw (e, has_key)

  key_of_has_key :
      (path : FieldPath) (key : Json crates.numbers.Number) (slot : EventEnvelope crates)
      → has_key values path key slot ≡ true
      → (k : Json crates.numbers.Number) × (extract_key values slot path ≡ some k)
        × (value_eq k key ≡ true)
  unfolding has_key
  key_of_has_key path key slot h = elim (Option-cases (extract_key values slot path)) [
    | inl miss ↦ absurd (let bad = rw (miss, has_key) at h in cc)
    | inr (k, hit) ↦ (k, hit, rw (hit, has_key) at h)
  ]

  -- An envelope that a slot does not match has another key than the incoming one.
  differs_of_absent :
      (path : FieldPath) (key : Json crates.numbers.Number) (slot env : EventEnvelope crates)
      → extract_key values env path ≡ some key
      → has_key values path key slot ≡ false
      → ¬ SameKey path slot env
  differs_of_absent path key slot env is_key miss (k, l, ek, el, same) =
      let l_is : key ≡ l = eq-of_some (sym is_key ∙ el) in
      let apart = sym (has_key-eq path key slot k ek) ∙ miss in
      let both : value_eq k key ≡ true = subst (λ x. value_eq k x ≡ true) (sym l_is) same in cc

  append-HasDistinctKeys :
      (path : FieldPath) (q : List (EventEnvelope crates)) (env : EventEnvelope crates)
      → HasDistinctKeys path q
      → ((key : Json crates.numbers.Number)
          → extract_key values env path ≡ some key
          → IsAbsent values path key q)
      → HasDistinctKeys path (q ++ env ∷ [])
  append-HasDistinctKeys path [] env d h = (tt, tt)
  append-HasDistinctKeys path (a ∷ q) env (da, d) h = (
    All-append (λ b. ¬ SameKey path a b) q (env ∷ []) da
        (
          (λ (k, l, ek, el, same).
              differs_of_absent path l a env el (h l el).0 (k, l, ek, el, same)),
          tt,
        ),
    append-HasDistinctKeys path q env d (λ key e. (h key e).1),
  )

  module _
      (value_eq_sym : (a b : Json crates.numbers.Number)
        → value_eq a b ≡ true
        → value_eq b a ≡ true)
      (value_eq_trans : (a b c : Json crates.numbers.Number)
        → value_eq a b ≡ true
        → value_eq b c ≡ true
        → value_eq a c ≡ true) where
    -- What has another key than a slot has another key than what overwrites the slot.
    differs_after :
        (path : FieldPath) (key : Json crates.numbers.Number) (env slot : EventEnvelope crates)
        → extract_key values env path ≡ some key
        → has_key values path key slot ≡ true
        → (q : List (EventEnvelope crates)) → All (λ b. ¬ SameKey path slot b) q
        → All (λ b. ¬ SameKey path env b) q
    differs_after path key env slot is_key hit [] h = tt
    differs_after path key env slot is_key hit (b ∷ q) (apart, h) = (
      (λ (k, l, ek, el, same).
          let (j, ej, match) = key_of_has_key path key slot hit in
          let k_is : key ≡ k = eq-of_some (sym is_key ∙ ek) in
          let jk : value_eq j k ≡ true = subst (λ x. value_eq j x ≡ true) k_is match in
          apart (j, l, ej, el, value_eq_trans j k l jk same)),
      differs_after path key env slot is_key hit q h,
    )

    differs_overwritten :
        {path : FieldPath} {key : Json crates.numbers.Number} {env : EventEnvelope crates}
        {q q' : List (EventEnvelope crates)} (a : EventEnvelope crates)
        → ¬ SameKey path a env
        → Overwrites values path key env q q'
        → All (λ b. ¬ SameKey path a b) q
        → All (λ b. ¬ SameKey path a b) q'
    differs_overwritten a apart (here h) (_, k) = (apart, k)
    differs_overwritten a apart (later h o) (d, k) = (d, differs_overwritten a apart o k)

    Overwrites-HasDistinctKeys :
        {path : FieldPath} {key : Json crates.numbers.Number} {env : EventEnvelope crates}
        {q q' : List (EventEnvelope crates)}
        → extract_key values env path ≡ some key
        → Overwrites values path key env q q'
        → HasDistinctKeys path q
        → HasDistinctKeys path q'
    Overwrites-HasDistinctKeys {path} {key} {env} is_key (here {slot} {q} h) (d, k) =
        (differs_after path key env slot is_key h q d, k)
    Overwrites-HasDistinctKeys {path} {key} {env} is_key (later {slot} h o) (d, k) = (
      differs_overwritten slot (differs_of_absent path key slot env is_key h) o d,
      Overwrites-HasDistinctKeys is_key o k,
    )

    PushSpec-HasDistinctKeys :
        {s s' : CoalesceState crates} {env : EventEnvelope crates} {o : PushOutcome}
        → HasDistinctKeys s.key_path s.queue
        → PushSpec values s env s' o
        → HasDistinctKeys s'.key_path s'.queue
    PushSpec-HasDistinctKeys d (spec_gone h) = d
    PushSpec-HasDistinctKeys d (spec_replaced key q live has over) =
        Overwrites-HasDistinctKeys has over d
    PushSpec-HasDistinctKeys {s} {env} d (spec_pushed live absent room) =
        append-HasDistinctKeys s.key_path s.queue env d absent
    PushSpec-HasDistinctKeys d (spec_dropped live absent full) = d

    -- If the equality of JSON values is symmetric and transitive, a push keeps the keys of the
    -- queued envelopes different: no two that have a key have equal keys.
    pub push-HasDistinctKeys :
        (s : CoalesceState crates) (env : EventEnvelope crates)
        → HasDistinctKeys s.key_path s.queue
        → HasDistinctKeys (push values s env).0.key_path (push values s env).0.queue
    push-HasDistinctKeys s env d = PushSpec-HasDistinctKeys d (push_cases values s env)

  -- If the JSON view of an envelope is an object whose field `data` is the payload, then the key of
  -- any path that has a segment is what the path extracts from that view: the walk of the payload
  -- for paths below `data` is only a short way there.
  pub extract_key-extract :
      (env : EventEnvelope crates) (path : FieldPath) (m : Fields crates.numbers.Number)
      → to_value env ≡ some (Json.obj m)
      → get (codes "data") m ≡ some env.payload
      → path.segments ≢ []
      → extract_key values env path ≡ extract path (Json.obj m)
  unfolding extract_key extract
  extract_key-extract env path m view has_data nonempty = by_segments path.segments nonempty
    where
      by_segments :
          (segs : List Str) → segs ≢ [] → extract_from values env segs ≡ walk segs (Json.obj m)
      by_segments [] h = absurd (h refl)
      by_segments (first ∷ segs) h = elim (Bool-cases (first =s codes "data")) [
        | inl is_data ↦ rw (is_data, eq-of_=s first (codes "data") is_data, has_data, walk) refl
        | inr other ↦ rw (other, view)
      ]

-- ===== src/Events/Sequencer/Fresh.antt =====
-- Event ids are never handed out twice.
use boardwalk.Common.{
  ℕ, ◌+◌, ◌%◌, ◌^◌, ◌<◌, none, some, [], ◌∷◌, ◌++◌, Str, Avoids, ◌≡◌, refl, sym, ◌∙◌, subst, find,
  find-put, find-delete, str_eq, =s_iff, ◌=s◌, decimal, decimal-Avoids, decimal-injective, arith,
  Bool-cases, Option-cases, inl, inr, if◌then◌else◌, eq-of_some,
}
use boardwalk.Events.Envelope.{EventId, StreamId}
use boardwalk.Events.Sequencer.{
  StreamRegistry, new, next_sequence, event_id_of, allocate, stream_for, evict,
}

-- The last separator of a text splits it in one way.
cut_unique :
    (sep : ℕ) (s t d e : Str)
    → Avoids sep d
    → Avoids sep e
    → (s ++ (sep ∷ d)) ≡ (t ++ (sep ∷ e))
    → (s ≡ t) × (d ≡ e)
cut_unique sep [] [] d e hd he p = (refl, cc)
cut_unique sep [] (x ∷ t) d e hd he p = absurd (not_in t (subst (Avoids sep) tail_eq hd))
  where
    tail_eq : d ≡ t ++ (sep ∷ e)
    tail_eq = cc

    not_in : (u : Str) → ¬ Avoids sep (u ++ (sep ∷ e))
    not_in [] h = h.0 refl
    not_in (c ∷ u) h = not_in u h.1
cut_unique sep (x ∷ s) [] d e hd he p = absurd (not_in s (subst (Avoids sep) tail_eq he))
  where
    tail_eq : e ≡ s ++ (sep ∷ d)
    tail_eq = cc

    not_in : (u : Str) → ¬ Avoids sep (u ++ (sep ∷ d))
    not_in [] h = h.0 refl
    not_in (c ∷ u) h = not_in u h.1
cut_unique sep (x ∷ s) (y ∷ t) d e hd he p =
    let (a, b) = cut_unique sep s t d e hd he (cc) in let same : x ≡ y = cc in (cc, b)

-- An event id determines its stream and its sequence number.
pub event_id_of-injective :
    (s t : StreamId) (m n : ℕ) → event_id_of s m ≡ event_id_of t n → (s ≡ t) × (m ≡ n)
unfolding event_id_of
event_id_of-injective s t m n e =
    let (same, digits) =
      cut_unique b'-' s t (decimal m) (decimal n) (decimal-Avoids b'-' m (omega arith))
        (decimal-Avoids b'-' n (omega arith)) e in
    (same, decimal-injective m n digits)

-- Each id in the reverse index is that of a sequence number which its stream has handed out.
pub record IsIssued (r : StreamRegistry) (event_id : EventId) (stream_id : StreamId) : Type 0 where
  pub sequence : ℕ
  pub is_id : event_id ≡ event_id_of stream_id sequence
  pub below_next : sequence < next_sequence r stream_id

abbrev pub IsConsistent : StreamRegistry → Type 0
IsConsistent r =
    (event_id : EventId) (stream_id : StreamId)
    → stream_for r event_id ≡ some stream_id
    → IsIssued r event_id stream_id

-- How an allocation moves the counters.
pub next_sequence-allocate :
    (r : StreamRegistry) (s t : StreamId)
    → next_sequence (allocate r s).1 t
      ≡ (if s =s t then (next_sequence r s + 1) % 2 ^ 64 else next_sequence r t)
unfolding allocate next_sequence
next_sequence-allocate r s t =
    ground (arith, find-put t s ((next_sequence r s + 1) % 2 ^ 64) r.per_stream)

stream_for-allocate :
    (r : StreamRegistry) (s : StreamId) (id : EventId)
    → stream_for (allocate r s).1 id
      ≡ (if event_id_of s (next_sequence r s) =s id then some s else stream_for r id)
unfolding allocate stream_for
stream_for-allocate r s id = find-put id _ s r.by_event_id

pub new-IsConsistent : IsConsistent new
unfolding new stream_for find
new-IsConsistent event_id stream_id h = cc

-- An allocation whose counter is below the wrap-around keeps a registry consistent.
pub allocate-IsConsistent :
    (r : StreamRegistry) (s : StreamId)
    → next_sequence r s + 1 < 2 ^ 64
    → IsConsistent r
    → IsConsistent (allocate r s).1
allocate-IsConsistent r s small c id t h =
    elim (Bool-cases (event_id_of s (next_sequence r s) =s id)) [
      | inl same ↦
          let st : s ≡ t = eq-of_some (sym (rw same at (stream_for-allocate r s id)) ∙ h) in
          record {
            sequence = next_sequence r s;
            is_id =
                subst (λ x. id ≡ event_id_of x (next_sequence r s)) st (sym ((=s_iff _ id).0 same));
            below_next = ground (arith, next_sequence-allocate r s t, =s_iff s t);
          }
      | inr other ↦
          let i = c id t (sym (rw other at (stream_for-allocate r s id)) ∙ h) in
          record {
            sequence = i.sequence;
            is_id = i.is_id;
            below_next = ground (arith, next_sequence-allocate r s t, =s_iff s t);
          }
    ]

pub evict-IsConsistent :
    (r : StreamRegistry) (id : EventId) → IsConsistent r → IsConsistent (evict r id)
unfolding evict stream_for next_sequence
evict-IsConsistent r id c other t h = elim (Bool-cases (id =s other)) [
  | inl same ↦ absurd (let none_left = rw same at (find-delete other id r.by_event_id) in cc)
  | inr diff ↦
      let i = c other t (sym (rw diff at (find-delete other id r.by_event_id)) ∙ h) in
      record { sequence = i.sequence; is_id = i.is_id; below_next = i.below_next }
]

-- In a consistent registry the id that an allocation hands out is not in the reverse index, so
-- no entry is overwritten.
pub allocate-fresh :
    (r : StreamRegistry) (s : StreamId)
    → IsConsistent r
    → stream_for r (allocate r s).0.event_id ≡ none
unfolding allocate
allocate-fresh r s c = elim (Option-cases (stream_for r (event_id_of s (next_sequence r s)))) [
  | inl fresh ↦ fresh
  | inr (t, found) ↦
      let i = c _ t found in
      let (st, mn) = event_id_of-injective s t (next_sequence r s) i.sequence i.is_id in
      let below = subst (λ x. i.sequence < next_sequence r x) (sym st) i.below_next in
      absurd (omega arith)
]

-- ===== src/Events/Replay/Rings.antt =====
-- The rings of the replay cache hold the most recent envelopes of each stream.
use boardwalk.Common.{
  ℕ, suc, ◌-◌, ◌≤◌, ◌<◌, List, [], ◌∷◌, ◌++◌, append_assoc, append-nil, ◌=s◌, =s_iff, find,
  find-put, str_eq, leb, ltb, length, keep, keep-append, drop, drop-append, drop-drop_one,
  length-drop, length-append, leb→le, last_n, length-last_n, if◌then◌else◌, ◌≡◌, refl, sym, ◌∙◌, ap,
  arith, Bool-cases, inl, inr,
}
use boardwalk.Events.Crates.{Crates}
use boardwalk.Events.Envelope.{EventEnvelope, StreamId}
use boardwalk.Events.Sequencer.{StreamRegistry}
use boardwalk.Events.Replay.{
  StreamReplayCache, new, ring, pop_front, make_room, record_envelope, events_after,
}

-- A ring of capacity 0 still holds the last envelope.
abbrev pub ring_size : ℕ → ℕ
ring_size cap = if ltb cap 1 then 1 else cap

ring_size_pos : (n : ℕ) → 1 ≤ ring_size n
ring_size_pos n = ground arith

ring_size-le : (n : ℕ) → n ≤ ring_size n
ring_size-le n = ground arith

ring_size_of_pos : (n : ℕ) → 1 ≤ n → ring_size n ≡ n
ring_size_of_pos n h = ground arith

new-capacity : (crates : Crates) (n : ℕ) → (new {crates = crates} n).capacity_per_stream ≡ n
unfolding new
new-capacity crates n = refl

module _ {crates : Crates} where
  -- Envelopes are recorded one after the other.
  unfoldable pub record_all :
      StreamReplayCache crates
      → StreamRegistry
      → List (EventEnvelope crates)
      → StreamReplayCache crates × StreamRegistry
  record_all c r [] = (c, r)
  record_all c r (e ∷ es) = let (c', r') = record_envelope c r e in record_all c' r' es

  -- The envelopes of one stream.
  abbrev pub on_stream : StreamId → List (EventEnvelope crates) → List (EventEnvelope crates)
  on_stream s es = keep (λ e. e.stream_id =s s) es

  pop_front-drop : (q : List (EventEnvelope crates)) → (pop_front q).1 ≡ drop 1 q
  unfolding pop_front
  pop_front-drop [] = refl
  pop_front-drop (e ∷ q) = refl

  last_n_small : (n : ℕ) (h : List (EventEnvelope crates)) → length h ≤ n → last_n n h ≡ h
  last_n_small n h le = let e : length h - n ≡ 0 = omega arith in ap (λ k. drop k h) e

  last_n_snoc :
      (n : ℕ) (h : List (EventEnvelope crates)) (e : EventEnvelope crates)
      → n ≤ length h
      → 1 ≤ n
      → last_n n (h ++ e ∷ []) ≡ drop 1 (last_n n h) ++ e ∷ []
  last_n_snoc n h e le pos =
      let k : length (h ++ e ∷ []) - n ≡ suc (length h - n) =
        omega (arith, length-append h (e ∷ [])) in
      ap (λ j. drop j (h ++ e ∷ [])) k
      ∙ drop-append (suc (length h - n)) h (e ∷ []) (omega arith)
      ∙ ap (λ x. x ++ e ∷ []) (sym (drop-drop_one (length h - n) h))

  make_room-nil : (cap : ℕ) → (make_room cap (let q : List (EventEnvelope crates) = [] in q)).1 ≡ []
  unfolding make_room pop_front
  make_room-nil cap = ground arith

  -- Making room and appending moves the window of the last envelopes by one.
  make_room-last_n :
      (cap : ℕ) (h : List (EventEnvelope crates)) (e : EventEnvelope crates)
      → (make_room cap (last_n (ring_size cap) h)).1 ++ e ∷ []
        ≡ last_n (ring_size cap) (h ++ e ∷ [])
  unfolding make_room
  make_room-last_n cap [] e =
      let pos = ring_size_pos cap in
      rw
        (
          last_n_small (ring_size cap) [] (omega arith),
          make_room-nil cap,
          last_n_small (ring_size cap) (e ∷ []) (omega arith),
        )
        refl
  make_room-last_n cap (x ∷ h) e =
      let pos = ring_size_pos cap in
      let size = length-drop (length (x ∷ h) - ring_size cap) (x ∷ h) in
      elim (Bool-cases (leb cap (length (last_n (ring_size cap) (x ∷ h))))) [
        | inl full ↦
            let fits : cap ≤ length (last_n (ring_size cap) (x ∷ h)) = leb→le _ _ full in
            let le : ring_size cap ≤ length (x ∷ h) = grind (arith, ring_size_of_pos cap) in
            rw (full, pop_front-drop) (sym (last_n_snoc (ring_size cap) (x ∷ h) e le pos))
        | inr room ↦
            let less : length (last_n (ring_size cap) (x ∷ h)) < cap = ground arith in
            let wider = ring_size-le cap in
            let short : length (x ∷ h) < ring_size cap = omega arith in
            rw (room, last_n_small (ring_size cap) (x ∷ h) (omega arith))
              (sym (
                last_n_small (ring_size cap) ((x ∷ h) ++ e ∷ [])
                  (omega (arith, length-append h (e ∷ [])))))
      ]

  -- Each ring of a cache holds the last envelopes of its stream in a history.
  abbrev pub Holds : StreamReplayCache crates → List (EventEnvelope crates) → Type 0
  Holds c h = (s : StreamId) → ring c s ≡ last_n (ring_size c.capacity_per_stream) (on_stream s h)

  ring-record :
      (c : StreamReplayCache crates) (r : StreamRegistry) (e : EventEnvelope crates) (s : StreamId)
      → ring (record_envelope c r e).0 s ≡ (
          if e.stream_id =s s
          then (make_room c.capacity_per_stream (ring c e.stream_id)).1 ++ e ∷ []
          else ring c s)
  unfolding record_envelope ring
  ring-record c r e s = ground (
    arith,
    find-put s e.stream_id ((make_room c.capacity_per_stream (ring c e.stream_id)).1 ++ e ∷ [])
        c.per_stream,
  )

  on_stream-snoc :
      (s : StreamId) (h : List (EventEnvelope crates)) (e : EventEnvelope crates)
      → on_stream s (h ++ e ∷ [])
        ≡ (if e.stream_id =s s then on_stream s h ++ e ∷ [] else on_stream s h)
  on_stream-snoc s h e = elim (Bool-cases (e.stream_id =s s)) [
    | inl same ↦ keep-append (λ x. x.stream_id =s s) h (e ∷ []) ∙ rw same
    | inr other ↦ keep-append (λ x. x.stream_id =s s) h (e ∷ []) ∙ rw (other, append-nil)
  ]

  record-Holds :
      (c : StreamReplayCache crates) (r : StreamRegistry) (e : EventEnvelope crates)
      (h : List (EventEnvelope crates))
      → Holds c h
      → Holds (record_envelope c r e).0 (h ++ e ∷ [])
  unfolding record_envelope
  record-Holds c r e h holds s = elim (Bool-cases (e.stream_id =s s)) [
    | inl same ↦
        let id : e.stream_id ≡ s = (=s_iff e.stream_id s).0 same in
        let old : ring c e.stream_id ≡ last_n (ring_size c.capacity_per_stream) (on_stream s h) =
          ap (ring c) id ∙ holds s in
        ring-record c r e s
        ∙ rw (same, old, on_stream-snoc, same)
            (make_room-last_n c.capacity_per_stream (on_stream s h) e)
    | inr other ↦ ring-record c r e s ∙ rw (other, on_stream-snoc, other) (holds s)
  ]

  new-Holds : (n : ℕ) → Holds (new n) []
  unfolding new ring find
  new-Holds n s = sym (last_n_small (ring_size n) [] (let pos = ring_size_pos n in omega arith))

  record_all-Holds :
      (c : StreamReplayCache crates) (r : StreamRegistry) (h es : List (EventEnvelope crates))
      → Holds c h
      → Holds (record_all c r es).0 (h ++ es)
  unfolding record_all
  record_all-Holds c r h [] holds = rw append-nil holds
  record_all-Holds c r h (e ∷ es) holds =
      let next = record_envelope c r e in
      rw (← append_assoc h (e ∷ []) es)
        (record_all-Holds next.0 next.1 (h ++ e ∷ []) es (record-Holds c r e h holds))

  record_all-capacity :
      (c : StreamReplayCache crates) (r : StreamRegistry) (es : List (EventEnvelope crates))
      → (record_all c r es).0.capacity_per_stream ≡ c.capacity_per_stream
  unfolding record_all record_envelope
  record_all-capacity c r [] = refl
  record_all-capacity c r (e ∷ es) =
      let next = record_envelope c r e in record_all-capacity next.0 next.1 es

  events_after-ring :
      (c : StreamReplayCache crates) (s : StreamId) (k : ℕ)
      → events_after c s k ≡ keep (λ e. ltb k e.sequence) (ring c s)
  unfolding events_after ring
  events_after-ring c s k = ground arith

  -- After any run of recordings into a new cache, the ring of each stream is bounded by the
  -- capacity (by 1 if that is 0), and a replay of a stream gives exactly those of the last so many
  -- envelopes of the stream whose sequence is above the one asked for, in the order of recording.
  pub events_after-record_all :
      (n : ℕ) (r : StreamRegistry) (es : List (EventEnvelope crates)) (s : StreamId) (k : ℕ)
      → (length (ring (record_all (new n) r es).0 s) ≤ ring_size n)
        × (events_after (record_all (new n) r es).0 s k
            ≡ keep (λ e. ltb k e.sequence) (last_n (ring_size n) (on_stream s es)))
  events_after-record_all n r es s k =
      let last = (record_all (new n) r es).0 in
      let cap : last.capacity_per_stream ≡ n =
        record_all-capacity (new n) r es ∙ new-capacity crates n in
      let held : ring last s ≡ last_n (ring_size n) (on_stream s es) =
        record_all-Holds (new n) r [] es (new-Holds n) s
        ∙ ap (λ c. last_n (ring_size c) (on_stream s es)) cap in
      (
        rw held (length-last_n (ring_size n) (on_stream s es)),
        events_after-ring last s k ∙ ap (keep (λ e. ltb k e.sequence)) held,
      )

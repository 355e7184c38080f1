-- ===== src/Events/Sequencer/Runs.antt =====
-- Event ids over a whole run of the registry.
use boardwalk.Common.{
  ℕ, ◌+◌, ◌^◌, ◌<◌, ◌≤◌, List, [], ◌∷◌, All, length, ◌≡◌, ◌≢◌, refl, ◌∙◌, =s_iff, arith,
}
use boardwalk.Events.Envelope.{EventId, StreamId}
use boardwalk.Events.Sequencer.{StreamRegistry, next_sequence, event_id_of, allocate, evict}
use boardwalk.Events.Sequencer.Fresh.{event_id_of-injective, next_sequence-allocate}

-- A run of the registry: allocations and evictions in any order, and the ids handed out.
pub data Op : Type 0 where
  alloc : StreamId → Op
  drop : EventId → Op

unfoldable pub run : StreamRegistry → List Op → List EventId × StreamRegistry
run r [] = ([], r)
run r (alloc s ∷ ops) =
    let (a, r') = allocate r s in let (ids, last) = run r' ops in (a.event_id ∷ ids, last)
run r (drop id ∷ ops) = run (evict r id) ops

abbrev pub Differs : EventId → List EventId → Type 0
Differs id ids = All (λ other. id ≢ other) ids

abbrev pub Distinct : List EventId → Type 0
Distinct [] = Unit
Distinct (id ∷ ids) = Differs id ids × Distinct ids

-- No counter comes to its wrap-around within the run.
abbrev pub HasRoom : StreamRegistry → List Op → Type 0
HasRoom r ops = (s : StreamId) → next_sequence r s + length ops < 2 ^ 64

-- An id of a stream with a number that the stream has not yet reached.
abbrev IsLater : StreamRegistry → EventId → Type 0
IsLater r id = (s : StreamId) × (n : ℕ) × (id ≡ event_id_of s n) × (next_sequence r s ≤ n)

next_sequence-le-allocate :
    (r : StreamRegistry) (s t : StreamId)
    → next_sequence r s + 1 < 2 ^ 64
    → next_sequence r t ≤ next_sequence (allocate r s).1 t
next_sequence-le-allocate r s t h = ground (arith, next_sequence-allocate r s t, =s_iff s t)

allocate-HasRoom :
    (r : StreamRegistry) (s : StreamId) (ops : List Op)
    → HasRoom r (alloc s ∷ ops)
    → HasRoom (allocate r s).1 ops
allocate-HasRoom r s ops h t = ground (arith, next_sequence-allocate r s t, =s_iff s t, h t, h s)

evict-next_sequence :
    (r : StreamRegistry) (id : EventId) (s : StreamId)
    → next_sequence (evict r id) s ≡ next_sequence r s
unfolding evict next_sequence
evict-next_sequence r id s = refl

IsLater-All :
    (r r' : StreamRegistry) (ids : List EventId)
    → ((s : StreamId) → next_sequence r s ≤ next_sequence r' s)
    → All (IsLater r') ids
    → All (IsLater r) ids
IsLater-All r r' [] le h = tt
IsLater-All r r' (id ∷ ids) le ((s, n, e, k), h) =
    ((s, n, e, omega (arith, le s)), IsLater-All r r' ids le h)

run-IsLater : (r : StreamRegistry) (ops : List Op) → HasRoom r ops → All (IsLater r) (run r ops).0
unfolding run allocate
run-IsLater r [] room = tt
run-IsLater r (alloc s ∷ ops) room = (
  (s, next_sequence r s, refl, omega arith),
  IsLater-All r (allocate r s).1 (run (allocate r s).1 ops).0
      (λ t. next_sequence-le-allocate r s t (omega (arith, room s)))
      (run-IsLater (allocate r s).1 ops (allocate-HasRoom r s ops room)),
)
run-IsLater r (drop id ∷ ops) room =
    IsLater-All r (evict r id) (run (evict r id) ops).0
      (λ t. omega (arith, evict-next_sequence r id t))
      (run-IsLater (evict r id) ops (λ t. omega (arith, room t, evict-next_sequence r id t)))

Differs-of_IsLater :
    (r : StreamRegistry) (s : StreamId) (ids : List EventId)
    → next_sequence r s + 1 < 2 ^ 64
    → All (IsLater (allocate r s).1) ids
    → Differs (event_id_of s (next_sequence r s)) ids
Differs-of_IsLater r s [] small h = tt
Differs-of_IsLater r s (id ∷ ids) small ((t, n, e, k), h) = (
  (λ same.
      let (st, mn) = event_id_of-injective s t (next_sequence r s) n (same ∙ e) in
      ground (arith, next_sequence-allocate r s t, =s_iff s t)),
  Differs-of_IsLater r s ids small h,
)

-- Whatever the order of allocations and evictions, all the ids that a run hands out are different,
-- if no stream's counter comes to its wrap-around at 64 bits within the run.
pub run-Distinct : (r : StreamRegistry) (ops : List Op) → HasRoom r ops → Distinct (run r ops).0
unfolding run allocate
run-Distinct r [] room = tt
run-Distinct r (alloc s ∷ ops) room = (
  Differs-of_IsLater r s (run (allocate r s).1 ops).0 (omega (arith, room s))
      (run-IsLater (allocate r s).1 ops (allocate-HasRoom r s ops room)),
  run-Distinct (allocate r s).1 ops (allocate-HasRoom r s ops room),
)
run-Distinct r (drop id ∷ ops) room =
    run-Distinct (evict r id) ops (λ t. omega (arith, room t, evict-next_sequence r id t))

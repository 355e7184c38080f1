-- ===== src/Peer/Capabilities/RoundTrip.antt =====
-- The names of a set of capabilities, printed and parsed.
use boardwalk.Common.{
  ℕ, zero, suc, ◌<◌, Bool, true, false, not, ◌&&◌, ◌==◌, ==_iff, Option, none, some, List, [], ◌∷◌,
  map, Str, ◌=s◌, split, join, split-join, All, Avoids, Result, ok, err, Bool-cases, inl, inr, ◌≡◌,
  refl, sym, ◌∙◌, ap, subst, arith,
}
use boardwalk.Peer.Capabilities.{
  PeerCapabilities, Axis, capability_axes, ◌or8◌, ◌and8◌, bitwise, union, find_name, trim,
  trim_start, trim_end, PeerModelError, parse_parts, parse_list, set_axes, to_capabilities, names,
  display, find_cap, axis_of, add_all, from_capabilities,
}

abbrev avoids : ℕ → Str → Bool
avoids sep [] = true
avoids sep (c ∷ s) = not (c == sep) && avoids sep s

Avoids-of : (sep : ℕ) (s : Str) → avoids sep s ≡ true → Avoids sep s
Avoids-of sep [] h = tt
Avoids-of sep (c ∷ s) h = ((λ e. ground arith), Avoids-of sep s (ground arith))

abbrev is_named : Str → Bool
is_named [] = false
is_named (c ∷ s) = true

-- A row that its own name and its own capability find, and whose name stands as it is in a list.
abbrev IsRow : Axis → Type 0
IsRow axis =
    (trim axis.name ≡ axis.name)
    × (is_named axis.name ≡ true)
    × (avoids 44 axis.name ≡ true)
    × (find_name axis.name capability_axes ≡ some axis)
    × (find_cap axis.cap capability_axes ≡ some axis)

rows : All IsRow capability_axes
unfolding trim trim_start trim_end find_name find_cap ◌=s◌
rows = (
  (refl, refl, refl, refl, refl),
  (
    (refl, refl, refl, refl, refl),
    (
      (refl, refl, refl, refl, refl),
      (
        (refl, refl, refl, refl, refl),
        ((refl, refl, refl, refl, refl), ((refl, refl, refl, refl, refl), tt)),
      ),
    ),
  ),
)

-- The rows that are set are rows.
set_axes-IsRow :
    (caps : PeerCapabilities) (axes : List Axis) → All IsRow axes → All IsRow (set_axes caps axes)
unfolding set_axes
set_axes-IsRow caps [] h = tt
set_axes-IsRow caps (axis ∷ axes) (r, h) = elim (Bool-cases (caps.bits and8 axis.bit == 0)) [
  | inl clear ↦ rw clear (set_axes-IsRow caps axes h)
  | inr is_set ↦ rw is_set (r, set_axes-IsRow caps axes h)
]

-- What the loop does after a name is trimmed.
abbrev after : List Str → ℕ → Str → Result PeerModelError ℕ
after parts bits [] = parse_parts parts bits
after parts bits (c ∷ s) = elim (find_name (c ∷ s) capability_axes) [
  | none ↦ err (PeerModelError.unknown_capability (c ∷ s))
  | some a ↦ parse_parts parts (bits or8 a.bit)
]

after-found :
    (parts : List Str) (bits : ℕ) (axis : Axis) (name : Str)
    → is_named name ≡ true
    → find_name name capability_axes ≡ some axis
    → after parts bits name ≡ parse_parts parts (bits or8 axis.bit)
after-found parts bits axis [] e f = ground arith
after-found parts bits axis (c ∷ s) e f = rw (f, after) refl

parse_parts-after :
    (raw : Str) (parts : List Str) (bits : ℕ)
    → parse_parts (raw ∷ parts) bits ≡ after parts bits (trim raw)
unfolding parse_parts
parse_parts-after raw parts bits = by_name (trim raw)
  where
    by_name :
        (t : Str)
        → elim t as (λ x. Result PeerModelError ℕ) [
          | [] ↦ parse_parts parts bits
          | c ∷ name ↦ elim (find_name (c ∷ name) capability_axes) [
            | none ↦ err (PeerModelError.unknown_capability (c ∷ name))
            | some axis ↦ parse_parts parts (bits or8 axis.bit)
          ]
        ]
          ≡ after parts bits t
    by_name [] = refl
    by_name (c ∷ name) = refl

-- The loop over the names of rows takes their bits together.
parse_parts-names :
    (axes : List Axis) (bits : ℕ)
    → All IsRow axes
    → parse_parts (map (λ axis. axis.name) axes) bits ≡ ok (union axes bits)
unfolding parse_parts union
parse_parts-names [] bits h = refl
parse_parts-names (axis ∷ axes) bits ((trimmed, named, apart, by_name, by_cap), h) =
    let parts = map (λ a. a.name) axes in
    parse_parts-after axis.name parts bits
    ∙ ap (after parts bits) trimmed
    ∙ after-found parts bits axis axis.name named by_name
    ∙ parse_parts-names axes (bits or8 axis.bit) h

-- So does the loop over their capabilities.
add_all-caps :
    (axes : List Axis) (bits : ℕ)
    → All IsRow axes
    → add_all (map (λ axis. axis.cap) axes) bits ≡ some (union axes bits)
unfolding add_all axis_of union
add_all-caps [] bits h = refl
add_all-caps (axis ∷ axes) bits ((trimmed, named, apart, by_name, by_cap), h) =
    rw (by_cap, add_all) (add_all-caps axes (bits or8 axis.bit) h)

All-Avoids : (axes : List Axis) → All IsRow axes → All (Avoids 44) (map (λ axis. axis.name) axes)
All-Avoids [] h = tt
All-Avoids (axis ∷ axes) ((trimmed, named, apart, by_name, by_cap), h) =
    (Avoids-of 44 axis.name apart, All-Avoids axes h)

parse_parts-join :
    (axes : List Axis)
    → All IsRow axes
    → parse_parts (split 44 (join 44 (map (λ axis. axis.name) axes))) 0 ≡ ok (union axes 0)
unfolding parse_parts join split trim trim_start trim_end union
parse_parts-join [] h = refl
parse_parts-join (axis ∷ axes) h =
    ap (λ parts. parse_parts parts 0)
      (split-join 44 axis.name (map (λ a. a.name) axes) (All-Avoids (axis ∷ axes) h))
    ∙ parse_parts-names (axis ∷ axes) 0 h

-- On numbers below a bound, by trying each.
abbrev all_below : ℕ → (ℕ → Bool) → Bool
all_below zero p = true
all_below (suc n) p = p n && all_below n p

of_all_below : (n : ℕ) (p : ℕ → Bool) (k : ℕ) → all_below n p ≡ true → k < n → p k ≡ true
of_all_below zero p k h less = absurd (omega arith)
of_all_below (suc n) p k h less = elim (Bool-cases (k == n)) [
  | inl same ↦ subst (λ x. p x ≡ true) (sym ((==_iff k n).0 same)) (ground arith)
  | inr other ↦ of_all_below n p k (ground arith) (ground arith)
]

-- The rows that are set make the set again.
union-set_axes :
    (bits : ℕ) → bits < 64 → union (set_axes (record { bits = bits }) capability_axes) 0 ≡ bits
unfolding union set_axes ◌or8◌ ◌and8◌ bitwise
union-set_axes bits h =
    (==_iff (union (set_axes (record { bits = bits }) capability_axes) 0) bits).0 (
      of_all_below 64 (λ b. union (set_axes (record { bits = b }) capability_axes) 0 == b) bits refl
        h)

-- A set of the six capabilities, printed and parsed, is that set; so is the set made of the list of
-- its capabilities.
pub parse_list-display :
    (caps : PeerCapabilities)
    → caps.bits < 64
    → (parse_list (display caps) ≡ ok caps) × (from_capabilities (to_capabilities caps) ≡ some caps)
unfolding parse_list display names from_capabilities to_capabilities
parse_list-display caps h =
    let axes = set_axes caps capability_axes in
    let are_rows = set_axes-IsRow caps capability_axes rows in
    let again = union-set_axes caps.bits h in
    (
      ap
          (λ r. elim r as (λ x. Result PeerModelError PeerCapabilities) [
            | ok bits ↦ ok (record { bits = bits })
            | err e ↦ err e
          ])
          (parse_parts-join axes are_rows ∙ ap ok again),
      ap
          (λ r. elim r as (λ x. Option PeerCapabilities) [
            | none ↦ none
            | some bits ↦ some (record { bits = bits })
          ])
          (add_all-caps axes 0 are_rows ∙ ap some again),
    )

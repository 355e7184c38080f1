-- ===== src/Peer/Capabilities.antt =====
-- The capabilities of a peer as the bits of a `u8`, their names, and the list of names on the wire.
pub mod Lattice
pub mod RoundTrip
use boardwalk.Common.{
  ℕ, zero, suc, ◌+◌, ◌*◌, ◌/◌, ◌%◌, Bool, true, false, not, ◌&&◌, ◌||◌, Option, none, some, List,
  [], ◌∷◌, ◌++◌, map, Str, codes, ◌=s◌, ◌==◌, leb, split, join, if◌then◌else◌, Result, ok, err,
}

-- `x op y` on so many low bits.
unfoldable pub bitwise : (Bool → Bool → Bool) → ℕ → ℕ → ℕ → ℕ
bitwise op zero a b = 0
bitwise op (suc w) a b =
    let rest = bitwise op w (a / 2) (b / 2) in
    (if op (a % 2 == 1) (b % 2 == 1) then 1 else 0) + 2 * rest

-- `|` and `&` of a `u8`.
infix 60 ◌or8◌ ◌and8◌
unfoldable pub ◌or8◌ : ℕ → ℕ → ℕ
a or8 b = bitwise ◌||◌ 8 a b

unfoldable pub ◌and8◌ : ℕ → ℕ → ℕ
a and8 b = bitwise ◌&&◌ 8 a b

pub data PeerCapability : Type 0 where
  resource_read resource_query stream_subscribe transition_invoke resource_register peer_admin :
      PeerCapability

pub record PeerCapabilities : Type 0 where
  pub bits : ℕ

-- A row of `CAPABILITY_AXES`.
pub record Axis : Type 0 where
  pub bit : ℕ
  pub cap : PeerCapability
  pub name : Str

abbrev pub capability_axes : List Axis
capability_axes =
    record { bit = 1; cap = resource_read; name = codes "resource.read" }
    ∷ record { bit = 2; cap = resource_query; name = codes "resource.query" }
    ∷ record { bit = 4; cap = stream_subscribe; name = codes "stream.subscribe" }
    ∷ record { bit = 8; cap = transition_invoke; name = codes "transition.invoke" }
    ∷ record { bit = 16; cap = resource_register; name = codes "resource.register" }
    ∷ record { bit = 32; cap = peer_admin; name = codes "peer.admin" }
    ∷ []

unfoldable pub empty : PeerCapabilities
empty = record { bits = 0 }

unfoldable pub union : List Axis → ℕ → ℕ
unfolding ◌or8◌
union [] bits = bits
union (axis ∷ axes) bits = union axes (bits or8 axis.bit)

unfoldable pub all : PeerCapabilities
unfolding union
all = record { bits = union capability_axes 0 }

-- `axes.iter().find(|(_, _, axis)| *axis == name)`.
unfoldable pub find_name : Str → List Axis → Option Axis
find_name name [] = none
find_name name (axis ∷ axes) =
    let rest = find_name name axes in if axis.name =s name then some axis else rest

-- `char::is_whitespace`.
abbrev pub is_whitespace : ℕ → Bool
is_whitespace c =
    (leb 9 c && leb c 13)
    || (c == 32
        || (c == 0x85
            || (c == 0xA0
                || (c == 0x1680
                    || ((leb 0x2000 c && leb c 0x200A)
                        || (c == 0x2028
                            || (c == 0x2029 || (c == 0x202F || (c == 0x205F || c == 0x3000)))))))))

unfoldable pub trim_start : Str → Str
trim_start [] = []
trim_start (c ∷ s) = if is_whitespace c then trim_start s else c ∷ s

-- A text that has nothing after its trailing whitespace.
unfoldable pub trim_end : Str → Str
trim_end [] = []
trim_end (c ∷ s) = elim (trim_end s) [
  | [] ↦ if is_whitespace c then [] else c ∷ []
  | d ∷ t ↦ c ∷ d ∷ t
]

unfoldable pub trim : Str → Str
unfolding trim_start trim_end
trim s = trim_end (trim_start s)

pub data PeerModelError : Type 0 where
  empty_node_id empty_peer_id empty_route_name : PeerModelError
  invalid_route_name unknown_capability invalid_url : Str → PeerModelError

-- The loop of `parse_list` over the parts.
unfoldable pub parse_parts : List Str → ℕ → Result PeerModelError ℕ
unfolding find_name trim ◌or8◌
parse_parts [] bits = ok bits
parse_parts (raw ∷ parts) bits = elim (trim raw) [
  | [] ↦ parse_parts parts bits
  | c ∷ name ↦ elim (find_name (c ∷ name) capability_axes) [
    | none ↦ err (unknown_capability (c ∷ name))
    | some axis ↦ parse_parts parts (bits or8 axis.bit)
  ]
]

unfoldable pub parse_list : Str → Result PeerModelError PeerCapabilities
unfolding parse_parts
parse_list input = elim (parse_parts (split 44 input) 0) [
  | ok bits ↦ ok (record { bits = bits })
  | err e ↦ err e
]

-- The rows whose bit is set.
unfoldable pub set_axes : PeerCapabilities → List Axis → List Axis
unfolding ◌and8◌
set_axes caps [] = []
set_axes caps (axis ∷ axes) =
    let rest = set_axes caps axes in
    if not (caps.bits and8 axis.bit == 0) then axis ∷ rest else rest

unfoldable pub to_capabilities : PeerCapabilities → List PeerCapability
unfolding set_axes
to_capabilities caps = map (λ axis. axis.cap) (set_axes caps capability_axes)

unfoldable pub names : PeerCapabilities → List Str
unfolding set_axes
names caps = map (λ axis. axis.name) (set_axes caps capability_axes)

-- `Display`: the names with commas between them.
unfoldable pub display : PeerCapabilities → Str
unfolding names
display caps = join 44 (names caps)

-- The derived equality: by the position of the variant.
abbrev pub position : PeerCapability → ℕ
position resource_read = 0
position resource_query = 1
position stream_subscribe = 2
position transition_invoke = 3
position resource_register = 4
position peer_admin = 5

unfoldable pub find_cap : PeerCapability → List Axis → Option Axis
find_cap cap [] = none
find_cap cap (axis ∷ axes) =
    let rest = find_cap cap axes in if position axis.cap == position cap then some axis else rest

-- `axis`, with `none` for the panic of `expect`.
unfoldable pub axis_of : PeerCapability → Option Axis
unfolding find_cap
axis_of cap = find_cap cap capability_axes

unfoldable pub as_dotted_name : PeerCapability → Option Str
unfolding axis_of
as_dotted_name cap = elim (axis_of cap) [ none ↦ none | some axis ↦ some axis.name ]

unfoldable pub add_all : List PeerCapability → ℕ → Option ℕ
unfolding axis_of ◌or8◌
add_all [] bits = some bits
add_all (cap ∷ caps) bits = elim (axis_of cap) [
  | none ↦ none
  | some axis ↦ add_all caps (bits or8 axis.bit)
]

unfoldable pub from_capabilities : List PeerCapability → Option PeerCapabilities
unfolding add_all
from_capabilities caps = elim (add_all caps 0) [
  | none ↦ none
  | some bits ↦ some (record { bits = bits })
]

unfoldable pub intersection : PeerCapabilities → PeerCapabilities → PeerCapabilities
unfolding ◌and8◌
intersection a b = record { bits = a.bits and8 b.bits }

unfoldable pub contains : PeerCapabilities → PeerCapabilities → Bool
unfolding ◌and8◌
contains a required = (a.bits and8 required.bits) == required.bits

unfoldable pub is_empty : PeerCapabilities → Bool
is_empty caps = caps.bits == 0

pub data PeerConfigError : Type 0 where
  bad_route_name bad_url bad_capability bad_proxy_url : Str → PeerConfigError

-- `PeerCapability::from_str`.
unfoldable pub from_str : Str → Result PeerConfigError PeerCapability
unfolding find_name
from_str s = elim (find_name s capability_axes) [
  | some axis ↦ ok axis.cap
  | none ↦ err (bad_capability s)
]

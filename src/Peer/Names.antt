-- ===== src/Peer/Names.antt =====
-- The names of peers and nodes, and their errors.
use boardwalk.Common.{
  ℕ, Bool, true, false, ◌&&◌, ◌||◌, ◌==◌, leb, Option, none, [], ◌∷◌, Str, if◌then◌else◌, Result,
  ok, err, codes,
}
use boardwalk.Peer.Capabilities.{
  PeerCapabilities, all, PeerModelError, empty_node_id, empty_peer_id, empty_route_name,
  invalid_route_name, unknown_capability, invalid_url, PeerConfigError, bad_route_name, bad_url,
  bad_capability, trim,
}
pub mod Letters

unfoldable pub is_blank : Str → Bool
is_blank s = elim (trim s) [ [] ↦ true | c ∷ t ↦ false ]

unfoldable pub peer_id : Str → Result PeerModelError Str
peer_id id = if is_blank id then err empty_peer_id else ok id

-- `ch.is_ascii_alphanumeric() || matches!(ch, '-' | '.' | '_' | '~')`.
unfoldable pub is_route_name_char : ℕ → Bool
is_route_name_char c =
    ((leb 48 c && leb c 57) || ((leb 65 c && leb c 90) || (leb 97 c && leb c 122)))
    || (c == 45 || (c == 46 || (c == 95 || c == 126)))

unfoldable pub all_chars : (ℕ → Bool) → Str → Bool
all_chars p [] = true
all_chars p (c ∷ s) = p c && all_chars p s

unfoldable pub route_name : Str → Result PeerModelError Str
route_name name =
    if is_blank name
    then err empty_route_name
    else if all_chars is_route_name_char name
    then ok name
    else err (invalid_route_name name)

pub record NodeIdentity : Type 0 where
  pub node_id : Str
  pub display_name : Str
  pub route_name : Str

unfoldable pub node_identity : Str → Str → Str → Result PeerModelError NodeIdentity
unfolding route_name
node_identity node_id display_name name =
    if is_blank node_id then err empty_node_id else elim (route_name name) [
      | ok route ↦
          ok (record { node_id = node_id; display_name = display_name; route_name = route })
      | err e ↦ err e
    ]

-- `From<PeerModelError> for PeerConfigError`, with the text of the two other errors.
unfoldable pub config_error : PeerModelError → PeerConfigError
config_error empty_route_name = bad_route_name []
config_error (invalid_route_name name) = bad_route_name name
config_error (invalid_url message) = bad_url message
config_error (unknown_capability name) = bad_capability name
config_error empty_node_id = bad_route_name (codes "node id cannot be empty")
config_error empty_peer_id = bad_route_name (codes "peer id cannot be empty")

pub record Peer : Type 0 where
  pub peer_id : Str
  pub route_name : Str
  pub expected_node_id : Option Str
  pub display_name : Option Str
  pub allowed_capabilities : PeerCapabilities

unfoldable pub configured : Str → Str → Option Str → Result PeerModelError Peer
unfolding peer_id route_name
configured id name expected = elim (peer_id id) [
  | err e ↦ err e
  | ok pid ↦ elim (route_name name) [
    | err e ↦ err e
    | ok route ↦ ok (record {
      peer_id = pid;
      route_name = route;
      expected_node_id = expected;
      display_name = none;
      allowed_capabilities = all;
    })
  ]
]

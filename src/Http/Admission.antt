-- ===== src/Http/Admission.antt =====
-- http/routes.rs: the admission of a peer that connects. `HeaderMap` is a parameter: the value of a
-- header, where there is one and it is text. The log of a refusal is left out.
pub mod Safety
mod Tests
use boardwalk.Common.{
  ℕ, Bool, true, false, Option, none, some, List, [], ◌∷◌, ◌++◌, Str, codes, ◌=s◌, ◌==◌, keep,
  if◌then◌else◌, Result, ok, err, ◌>>=◌,
}
use boardwalk.Peer.Capabilities.{
  PeerCapabilities, intersection, is_empty, parse_list, PeerModelError, empty_node_id,
  empty_peer_id, empty_route_name, invalid_route_name, unknown_capability, invalid_url,
}
use boardwalk.Peer.Names.{is_blank}
use boardwalk.Peer.Tokens.{verify}
use boardwalk.Peer.Admitted.{AdmittedPeerConnection, unauthenticated, token_bound}

abbrev pub Headers : Type 0
Headers = Str → Option Str

pub record PeerAdmissionConfig : Type 0 where
  pub allowed_route_name : Str
  pub token_id : Str
  pub secret : Str
  pub expected_node_id : Option Str
  pub allowed_capabilities : PeerCapabilities

-- The response of a refusal.
pub record Denied : Type 0 where
  pub status : ℕ
  pub reason : Str

abbrev pub peer_token_id_header : Str
peer_token_id_header = codes "boardwalk-peer-token-id"

abbrev pub peer_node_id_header : Str
peer_node_id_header = codes "boardwalk-node-id"

abbrev pub peer_node_name_header : Str
peer_node_name_header = codes "boardwalk-node-name"

abbrev pub peer_capabilities_header : Str
peer_capabilities_header = codes "boardwalk-peer-capabilities"

abbrev pub not_blank : Option Str → Option Str
not_blank none = none
not_blank (some value) = if is_blank value then none else some value

unfoldable pub optional_header : Headers → Str → Option Str
optional_header headers name = not_blank (headers name)

-- `ok_or_else` with a refusal.
abbrev pub or_deny : {A : Type 0} → Option A → ℕ → Str → Result Denied A
or_deny (some a) status reason = ok a
or_deny none status reason = err (record { status = status; reason = reason })

unfoldable pub required_header : Headers → Str → Result Denied Str
unfolding optional_header
required_header headers name = or_deny (optional_header headers name) 400 (codes "missing " ++ name)

unfoldable pub strip_prefix : Str → Str → Option Str
strip_prefix [] s = some s
strip_prefix (c ∷ p) [] = none
strip_prefix (c ∷ p) (d ∷ s) = let rest = strip_prefix p s in if c == d then rest else none

unfoldable pub bearer_token : Headers → Option Str
unfolding strip_prefix
bearer_token headers = elim (headers (codes "authorization")) [
  | none ↦ none
  | some raw ↦ not_blank (strip_prefix (codes "Bearer ") raw)
]

abbrev pub if_some : {A : Type 0} → List A → Str → Result Denied (List A)
if_some [] reason = err (record { status = 401; reason = reason })
if_some (a ∷ as') reason = ok (a ∷ as')

unfoldable pub verified_admissions :
    List PeerAdmissionConfig → Str → Str → Result Denied (List PeerAdmissionConfig)
verified_admissions admissions token_id bearer =
    if_some (keep (λ config. config.token_id =s token_id) admissions)
      (codes "unknown peer token id")
    >>= λ token_matches.
        if_some (keep (λ config. verify config.secret bearer) token_matches)
          (codes "invalid bearer token")

unfoldable pub find_route : Str → List PeerAdmissionConfig → Option PeerAdmissionConfig
find_route route [] = none
find_route route (config ∷ configs) =
    let rest = find_route route configs in
    if config.allowed_route_name =s route then some config else rest

unfoldable pub check_node : PeerAdmissionConfig → Str → Result Denied Unit
check_node config node_id = elim config.expected_node_id [
  | none ↦ ok tt
  | some expected ↦
      if expected =s node_id
      then ok tt
      else err (record { status = 403; reason = codes "peer node id mismatch" })
]

-- `to_string` of a `PeerModelError`.
unfoldable pub message : PeerModelError → Str
message empty_node_id = codes "node id cannot be empty"
message empty_peer_id = codes "peer id cannot be empty"
message empty_route_name = codes "route name cannot be empty"
message (invalid_route_name name) =
    codes "route name `" ++ name ++ codes "` is not a URL path segment"
message (unknown_capability name) = codes "unknown peer capability `" ++ name ++ codes "`"
message (invalid_url text) = codes "invalid peer url: " ++ text

unfoldable pub requested_capabilities : Headers → Result Denied PeerCapabilities
unfolding required_header message
requested_capabilities headers = required_header headers peer_capabilities_header >>= λ raw.
    elim (parse_list raw) [
      | ok caps ↦ ok caps
      | err e ↦ err (record { status = 400; reason = message e })
    ]

unfoldable pub negotiate : PeerAdmissionConfig → PeerCapabilities → Result Denied PeerCapabilities
negotiate config requested =
    let negotiated = intersection requested config.allowed_capabilities in
    if is_empty negotiated
    then err (record { status = 403; reason = codes "peer capabilities are not allowed" })
    else ok negotiated

-- The checks one after another, each with what those before it gave.
module _ {Uuid : Type 0} (peer_name : Str) (connection_id : Uuid) (headers : Headers) where
  abbrev pub admitted_as :
      Str
      → PeerAdmissionConfig
      → Str
      → PeerCapabilities
      → Result Denied (AdmittedPeerConnection Uuid)
  admitted_as token_id config node_id negotiated = ok (
      token_bound peer_name token_id connection_id node_id
        (optional_header headers peer_node_name_header) config.allowed_capabilities negotiated)

  abbrev pub with_request :
      Str
      → PeerAdmissionConfig
      → Str
      → PeerCapabilities
      → Result Denied (AdmittedPeerConnection Uuid)
  with_request token_id config node_id requested =
      negotiate config requested >>= admitted_as token_id config node_id

  abbrev pub with_pin :
      Str → PeerAdmissionConfig → Str → Unit {0} → Result Denied (AdmittedPeerConnection Uuid)
  with_pin token_id config node_id pinned =
      requested_capabilities headers >>= with_request token_id config node_id

  abbrev pub with_node :
      Str → PeerAdmissionConfig → Str → Result Denied (AdmittedPeerConnection Uuid)
  with_node token_id config node_id = check_node config node_id >>= with_pin token_id config node_id

  abbrev pub with_config : Str → PeerAdmissionConfig → Result Denied (AdmittedPeerConnection Uuid)
  with_config token_id config =
      required_header headers peer_node_id_header >>= with_node token_id config

  abbrev pub with_verified :
      Str → List PeerAdmissionConfig → Result Denied (AdmittedPeerConnection Uuid)
  with_verified token_id verified =
      or_deny (find_route peer_name verified) 403 (codes "peer token is not valid for route")
      >>= with_config token_id

  abbrev pub with_bearer :
      List PeerAdmissionConfig → Str → Str → Result Denied (AdmittedPeerConnection Uuid)
  with_bearer admissions token_id bearer =
      verified_admissions admissions token_id bearer >>= with_verified token_id

  abbrev pub with_token_id :
      List PeerAdmissionConfig → Str → Result Denied (AdmittedPeerConnection Uuid)
  with_token_id admissions token_id =
      or_deny (bearer_token headers) 401 (codes "missing bearer token")
      >>= with_bearer admissions token_id

  unfoldable pub admit_with_token :
      List PeerAdmissionConfig → Result Denied (AdmittedPeerConnection Uuid)
  admit_with_token admissions =
      or_deny (optional_header headers peer_token_id_header) 401 (codes "missing peer token id")
      >>= with_token_id admissions

module _ {Uuid : Type 0} where
  -- With no admission configured, the policy for local development decides.
  unfoldable pub admit_peer_connection :
      Str
      → Uuid
      → Headers
      → List PeerAdmissionConfig
      → Option PeerCapabilities
      → Result Denied (AdmittedPeerConnection Uuid)
  unfolding admit_with_token
  admit_peer_connection peer_name connection_id headers [] none =
      err (record { status = 403; reason = codes "peer admission is not configured" })
  admit_peer_connection peer_name connection_id headers [] (some ceiling) =
      ok (unauthenticated peer_name connection_id ceiling)
  admit_peer_connection peer_name connection_id headers (config ∷ configs) policy =
      admit_with_token peer_name connection_id headers (config ∷ configs)

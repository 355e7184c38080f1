-- ===== src/Http/Admission/Tests.antt =====
-- A peer that is admitted for one capability.
use boardwalk.Common.{ℕ, ◌=s◌, none, some, [], ◌∷◌, codes, str_eq, find, split, utf8, ok, ◌≡◌, refl}
use boardwalk.Peer.Capabilities.{
  parse_list, parse_parts, find_name, trim, trim_start, trim_end, ◌or8◌, ◌and8◌, bitwise,
  intersection, is_empty,
}
use boardwalk.Peer.Names.{is_blank}
use boardwalk.Peer.Tokens.{verify, constant_time_eq, differences, xor8}
use boardwalk.Peer.Admitted.{AdmittedPeerConnection, token_bound}
use boardwalk.Http.Admission.{
  Headers, PeerAdmissionConfig, peer_token_id_header, peer_node_id_header, peer_capabilities_header,
  optional_header, required_header, strip_prefix, bearer_token, verified_admissions, find_route,
  check_node, requested_capabilities, negotiate, admit_with_token, admit_peer_connection,
}
use boardwalk.Http.Admission.Safety.{IsAdmitted, admit_peer_connection-IsAdmitted}

abbrev headers : Headers
headers name = find name (
    (peer_token_id_header, codes "t")
    ∷ (codes "authorization", codes "Bearer k")
    ∷ (peer_node_id_header, codes "n")
    ∷ (peer_capabilities_header, codes "peer.admin")
    ∷ [])

abbrev config : PeerAdmissionConfig
config = record {
  allowed_route_name = codes "hub";
  token_id = codes "t";
  secret = codes "k";
  expected_node_id = some (codes "n");
  allowed_capabilities = record { bits = 33 };
}

abbrev hub : AdmittedPeerConnection ℕ
hub = record {
  route_name = codes "hub";
  peer_id = codes "peer-hub-t";
  token_id = some (codes "t");
  connection_id = 7;
  node_id = some (codes "n");
  display_name = none;
  allowed_capabilities = record { bits = 33 };
  negotiated_capabilities = record { bits = 32 };
}

admitted_test : admit_peer_connection (codes "hub") 7 headers (config ∷ []) none ≡ ok hub
unfolding admit_peer_connection admit_with_token optional_header required_header bearer_token
    strip_prefix verified_admissions find_route check_node requested_capabilities negotiate find
    ◌=s◌ is_blank trim trim_start trim_end verify constant_time_eq differences xor8 ◌or8◌ ◌and8◌
    bitwise utf8 split parse_list parse_parts find_name intersection is_empty token_bound
admitted_test = refl

admit_peer_connection-IsAdmitted_example : IsAdmitted (codes "hub") 7 headers (config ∷ []) hub
admit_peer_connection-IsAdmitted_example =
    admit_peer_connection-IsAdmitted (codes "hub") 7 headers config [] none hub admitted_test

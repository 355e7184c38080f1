-- ===== src/Peer/Admitted.antt =====
-- A peer that was admitted, and the state of its connection.
use boardwalk.Common.{Option, none, some, Str, codes, ◌++◌}
use boardwalk.Peer.Capabilities.{PeerCapabilities}

pub record AdmittedPeerConnection (Uuid : Type 0) : Type 0 where
  pub route_name : Str
  pub peer_id : Str
  pub token_id : Option Str
  pub connection_id : Uuid
  pub node_id : Option Str
  pub display_name : Option Str
  pub allowed_capabilities : PeerCapabilities
  pub negotiated_capabilities : PeerCapabilities

module _ {Uuid : Type 0} where
  unfoldable pub unauthenticated : Str → Uuid → PeerCapabilities → AdmittedPeerConnection Uuid
  unauthenticated route_name connection_id allowed = record {
    route_name = route_name;
    peer_id = codes "peer-" ++ route_name;
    token_id = none;
    connection_id = connection_id;
    node_id = none;
    display_name = none;
    allowed_capabilities = allowed;
    negotiated_capabilities = allowed;
  }

  unfoldable pub token_bound :
      Str
      → Str
      → Uuid
      → Str
      → Option Str
      → PeerCapabilities
      → PeerCapabilities
      → AdmittedPeerConnection Uuid
  token_bound route_name token_id connection_id node_id display_name allowed negotiated = record {
    route_name = route_name;
    peer_id = codes "peer-" ++ route_name ++ codes "-" ++ token_id;
    token_id = some token_id;
    connection_id = connection_id;
    node_id = some node_id;
    display_name = display_name;
    allowed_capabilities = allowed;
    negotiated_capabilities = negotiated;
  }

pub data PeerConnectionStatus : Type 0 where
  opening connected disconnected failed : PeerConnectionStatus

-- ===== src/Persistence/Records.antt =====
-- The records, their keys, and the errors of a store.
use boardwalk.Common.{
  ℕ, Bool, true, false, ◌&&◌, Option, List, Str, codes, ◌=s◌, =s_iff, Eq, leb, ◌≡◌, arith, ◌↔◌,
}
use boardwalk.Peer.Capabilities.{PeerCapabilities}
use boardwalk.Peer.Admitted.{PeerConnectionStatus}

pub data StorageError : Type 0 where
  unavailable conflict corrupt internal : Str → StorageError

-- The numbers of an `i64`.
pub data ℤ : Type 0 where
  pos : ℕ → ℤ
  negsuc : ℕ → ℤ

abbrev pub leb_int : ℤ → ℤ → Bool
leb_int (pos a) (pos b) = leb a b
leb_int (pos a) (negsuc b) = false
leb_int (negsuc a) (pos b) = true
leb_int (negsuc a) (negsuc b) = leb b a

pub record IdentityKey : Type 0 where
  pub namespace : Str
  pub kind : Str
  pub key : Str

unfoldable pub static_name : Str → Str → IdentityKey
static_name kind name = record { namespace = codes "static"; kind = kind; key = name }

unfoldable pub static_unnamed : Str → IdentityKey
static_unnamed kind = record { namespace = codes "static"; kind = kind; key = codes "" }

abbrev pub same_key : IdentityKey → IdentityKey → Bool
same_key a b = a.namespace =s b.namespace && (a.kind =s b.kind && a.key =s b.key)

pub same_key_iff : (a b : IdentityKey) → (same_key a b ≡ true) ↔ (a ≡ b)
same_key_iff a b =
    ground (arith, =s_iff a.namespace b.namespace, =s_iff a.kind b.kind, =s_iff a.key b.key)

instance abbrev pub key_eq : Eq IdentityKey
key_eq = record { same = same_key; same_iff = same_key_iff }

pub record ResourceIdentityRecord : Type 0 where
  pub id : Str
  pub kind : Str
  pub name : Option Str
  pub identity_keys : List IdentityKey
  pub labels : List (Str × Str)
  pub created_ms : ℤ
  pub updated_ms : ℤ

pub record ResourceSnapshotRecord (Snapshot : Type 0) : Type 0 where
  pub resource_id : Str
  pub node_id : Str
  pub snapshot : Snapshot
  pub revision : Option Str
  pub updated_ms : ℤ
  pub source_event_id : Option Str

pub record NodeConfigRecord : Type 0 where
  pub node_id : Str
  pub display_name : Str
  pub route_name : Str
  pub updated_ms : ℤ

pub record PeerConfigRecord : Type 0 where
  pub peer_id : Str
  pub route_name : Str
  pub node_id : Option Str
  pub display_name : Option Str
  pub allowed_capabilities : PeerCapabilities
  pub updated_ms : ℤ

pub data PeerConnectionDirection : Type 0 where
  initiator acceptor : PeerConnectionDirection

pub record PeerConnectionStatusRecord : Type 0 where
  pub connection_id : Str
  pub peer_id : Str
  pub route_name : Str
  pub direction : PeerConnectionDirection
  pub status : PeerConnectionStatus
  pub negotiated_capabilities : PeerCapabilities
  pub updated_ms : ℤ

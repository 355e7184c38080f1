-- ===== src/Persistence/Memory.antt =====
-- The state in memory that the five stores share, and what each of their operations does with it
-- under the lock.
use boardwalk.Common.{
  not, Option, none, some, List, [], ◌∷◌, ◌++◌, Str, codes, ◌=s◌, str_eq, find, put, delete, keep,
  if◌then◌else◌, Result, ok, err,
}
use boardwalk.Persistence.{
  StorageError, conflict, leb_int, IdentityKey, key_eq, ResourceIdentityRecord,
  ResourceSnapshotRecord, NodeConfigRecord, PeerConfigRecord, PeerConnectionStatusRecord,
}

pub record RepositoryState (Snapshot : Type 0) : Type 0 where
  pub identities : List (Str × ResourceIdentityRecord)
  pub identity_keys : List (IdentityKey × Str)
  pub latest_snapshots : List (Str × ResourceSnapshotRecord Snapshot)
  pub node_configs : List (Str × NodeConfigRecord)
  pub peer_configs : List (Str × PeerConfigRecord)
  pub peer_connection_statuses : List (Str × PeerConnectionStatusRecord)

-- `\0local`.
abbrev pub local_node_sentinel_key : Str
local_node_sentinel_key = 0 ∷ codes "local"

-- The first of the keys that another resource has: the id of that resource.
unfoldable pub taken_by : Str → List IdentityKey → List (IdentityKey × Str) → Option Str
taken_by id [] assigned = none
taken_by id (key ∷ keys) assigned =
    let rest = taken_by id keys assigned in
    elim (find key assigned) [
      | none ↦ rest
      | some existing_id ↦ if existing_id =s id then rest else some existing_id
    ]

unfoldable pub release : List IdentityKey → List (IdentityKey × Str) → List (IdentityKey × Str)
release [] assigned = assigned
release (key ∷ keys) assigned = release keys (delete key assigned)

unfoldable pub assign : List IdentityKey → Str → List (IdentityKey × Str) → List (IdentityKey × Str)
assign [] id assigned = assigned
assign (key ∷ keys) id assigned = assign keys id (put key id assigned)

unfoldable pub previous_keys : Str → List (Str × ResourceIdentityRecord) → List IdentityKey
previous_keys id identities = elim (find id identities) [
  | none ↦ []
  | some previous ↦ previous.identity_keys
]

-- `max_by_key` on `updated_ms`: the last of those with the greatest.
unfoldable pub latest_of : List (Str × NodeConfigRecord) → Option NodeConfigRecord
latest_of [] = none
latest_of ((key, r) ∷ rs) =
    let rest = latest_of rs in
    elim rest [
      | none ↦ some r
      | some best ↦ if leb_int r.updated_ms best.updated_ms then some best else some r
    ]

module _ {Snapshot : Type 0} where
  unfoldable pub new : RepositoryState Snapshot
  new = record {
    identities = [];
    identity_keys = [];
    latest_snapshots = [];
    node_configs = [];
    peer_configs = [];
    peer_connection_statuses = [];
  }

  -- `ResourceIdentityStore`.
  unfoldable pub get_identity : Str → RepositoryState Snapshot → Option ResourceIdentityRecord
  get_identity id s = find id s.identities

  unfoldable pub insert_identity :
      ResourceIdentityRecord → RepositoryState Snapshot → RepositoryState Snapshot
  insert_identity r s = record s {
    identities = put r.id r s.identities;
    identity_keys =
        assign r.identity_keys r.id (release (previous_keys r.id s.identities) s.identity_keys);
  }

  unfoldable pub put_identity :
      ResourceIdentityRecord
      → RepositoryState Snapshot
      → Result StorageError (RepositoryState Snapshot)
  put_identity r s = elim (taken_by r.id r.identity_keys s.identity_keys) [
    | some existing_id ↦
        err (conflict (codes "identity key is already assigned to `" ++ existing_id ++ codes "`"))
    | none ↦ ok (insert_identity r s)
  ]

  unfoldable pub find_by_identity_key :
      IdentityKey → RepositoryState Snapshot → Option ResourceIdentityRecord
  find_by_identity_key key s = elim (find key s.identity_keys) [
    | none ↦ none
    | some id ↦ find id s.identities
  ]

  -- `NodeConfigStore`.
  unfoldable pub put_node : NodeConfigRecord → RepositoryState Snapshot → RepositoryState Snapshot
  put_node r s = record s {
    node_configs = put r.node_id r (put local_node_sentinel_key r s.node_configs);
  }

  unfoldable pub get_node : Str → RepositoryState Snapshot → Option NodeConfigRecord
  get_node node_id s = find node_id s.node_configs

  unfoldable pub get_local : RepositoryState Snapshot → Option NodeConfigRecord
  get_local s = elim (find local_node_sentinel_key s.node_configs) [
    | some r ↦ some r
    | none ↦ latest_of (keep (λ p. not (p.0 =s local_node_sentinel_key)) s.node_configs)
  ]

  -- `PeerConfigStore` and `PeerConnectionStatusStore`.
  unfoldable pub put_peer : PeerConfigRecord → RepositoryState Snapshot → RepositoryState Snapshot
  put_peer r s = record s { peer_configs = put r.route_name r s.peer_configs }

  unfoldable pub get_by_route : Str → RepositoryState Snapshot → Option PeerConfigRecord
  get_by_route route_name s = find route_name s.peer_configs

  unfoldable pub put_latest :
      PeerConnectionStatusRecord → RepositoryState Snapshot → RepositoryState Snapshot
  put_latest r s = record s {
    peer_connection_statuses = put r.route_name r s.peer_connection_statuses;
  }

  unfoldable pub latest_by_route :
      Str → RepositoryState Snapshot → Option PeerConnectionStatusRecord
  latest_by_route route_name s = find route_name s.peer_connection_statuses

  -- `ResourceSnapshotStore`.
  unfoldable pub upsert_latest :
      ResourceSnapshotRecord Snapshot → RepositoryState Snapshot → RepositoryState Snapshot
  upsert_latest r s = record s { latest_snapshots = put r.resource_id r s.latest_snapshots }

  unfoldable pub latest : Str → RepositoryState Snapshot → Option (ResourceSnapshotRecord Snapshot)
  latest resource_id s = find resource_id s.latest_snapshots

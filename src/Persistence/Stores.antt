-- ===== src/Persistence/Stores.antt =====
-- The operations of the stores, with the lock that they share.
use boardwalk.Common.{Bool, Option, Str, codes, if◌then◌else◌, Result, ok, err}
use boardwalk.Persistence.{
  StorageError, internal, IdentityKey, ResourceIdentityRecord, ResourceSnapshotRecord,
  NodeConfigRecord, PeerConfigRecord, PeerConnectionStatusRecord,
}
use boardwalk.Persistence.Memory.{RepositoryState}
use boardwalk.Persistence.Memory

-- A `Mutex`: its contents, and whether a thread panicked while it held the lock.
pub record Mutex (A : Type 0) : Type 0 where
  pub contents : A
  pub is_poisoned : Bool

abbrev pub Lock : Type 0 → Type 0
Lock Snapshot = Mutex (RepositoryState Snapshot)

module _ {Snapshot : Type 0} where
  unfoldable pub lock_state : Lock Snapshot → Result StorageError (RepositoryState Snapshot)
  lock_state m =
      if m.is_poisoned then err (internal (codes "repository lock poisoned")) else ok m.contents

  -- A reader gives what `f` reads; a writer leaves the lock with new contents, unless it fails.
  unfoldable pub reading :
      {A : Type 0} → (RepositoryState Snapshot → A) → Lock Snapshot → Result StorageError A
  unfolding lock_state
  reading f m = elim (lock_state m) [ ok s ↦ ok (f s) | err e ↦ err e ]

  unfoldable pub writing :
      (RepositoryState Snapshot → Result StorageError (RepositoryState Snapshot))
      → Lock Snapshot
      → Lock Snapshot × Result StorageError Unit
  unfolding lock_state
  writing f m = elim (lock_state m) [
    | err e ↦ (m, err e)
    | ok s ↦ elim (f s) [ err e ↦ (m, err e) | ok s' ↦ (record m { contents = s' }, ok tt) ]
  ]

  unfoldable pub get_identity :
      Lock Snapshot → Str → Result StorageError (Option ResourceIdentityRecord)
  unfolding reading
  get_identity m id = reading (Memory.get_identity id) m

  unfoldable pub put_identity :
      Lock Snapshot → ResourceIdentityRecord → Lock Snapshot × Result StorageError Unit
  unfolding writing
  put_identity m r = writing (Memory.put_identity r) m

  unfoldable pub find_by_identity_key :
      Lock Snapshot → IdentityKey → Result StorageError (Option ResourceIdentityRecord)
  unfolding reading
  find_by_identity_key m key = reading (Memory.find_by_identity_key key) m

  unfoldable pub put_node :
      Lock Snapshot → NodeConfigRecord → Lock Snapshot × Result StorageError Unit
  unfolding writing
  put_node m r = writing (λ s. ok (Memory.put_node r s)) m

  unfoldable pub get_node : Lock Snapshot → Str → Result StorageError (Option NodeConfigRecord)
  unfolding reading
  get_node m node_id = reading (Memory.get_node node_id) m

  unfoldable pub get_local : Lock Snapshot → Result StorageError (Option NodeConfigRecord)
  unfolding reading
  get_local m = reading Memory.get_local m

  unfoldable pub put_peer :
      Lock Snapshot → PeerConfigRecord → Lock Snapshot × Result StorageError Unit
  unfolding writing
  put_peer m r = writing (λ s. ok (Memory.put_peer r s)) m

  unfoldable pub get_by_route : Lock Snapshot → Str → Result StorageError (Option PeerConfigRecord)
  unfolding reading
  get_by_route m route_name = reading (Memory.get_by_route route_name) m

  unfoldable pub put_latest :
      Lock Snapshot → PeerConnectionStatusRecord → Lock Snapshot × Result StorageError Unit
  unfolding writing
  put_latest m r = writing (λ s. ok (Memory.put_latest r s)) m

  unfoldable pub latest_by_route :
      Lock Snapshot → Str → Result StorageError (Option PeerConnectionStatusRecord)
  unfolding reading
  latest_by_route m route_name = reading (Memory.latest_by_route route_name) m

  unfoldable pub upsert_latest :
      Lock Snapshot → ResourceSnapshotRecord Snapshot → Lock Snapshot × Result StorageError Unit
  unfolding writing
  upsert_latest m r = writing (λ s. ok (Memory.upsert_latest r s)) m

  unfoldable pub latest :
      Lock Snapshot → Str → Result StorageError (Option (ResourceSnapshotRecord Snapshot))
  unfolding reading
  latest m resource_id = reading (Memory.latest resource_id) m

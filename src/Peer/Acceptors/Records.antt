-- ===== src/Peer/Acceptors/Records.antt =====
-- peer.rs, `write_peer`: what it leaves in a store that works.
use boardwalk.Common.{Bool, true, false, Option, none, some, str_eq, ok, ◌≡◌, ◌∙◌}
use boardwalk.Peer.Admitted.{
  AdmittedPeerConnection, PeerConnectionStatus, connected, disconnected, failed,
}
use boardwalk.Persistence.{ℤ}
use boardwalk.Peer.Acceptors.{Uuids, Repositories, config_record, status_record, write_peer}

-- The status that the task leaves.
abbrev pub final_status : Bool → Bool → PeerConnectionStatus
final_status false sender_active = failed
final_status true true = connected
final_status true false = disconnected

module _ (uuids : Uuids) (repos : Repositories) where
  open uuids use {Uuid}

  -- A store that works and has the configuration of the peer and a status under its route.
  abbrev pub IsRecorded :
      Option repos.Store → AdmittedPeerConnection Uuid → PeerConnectionStatus → Type 0
  IsRecorded none admitted status = ⊥
  IsRecorded (some store) admitted status =
      repos.Works store
      × ((now_ms : ℤ) × (repos.latest_by_route store admitted.route_name
            ≡ ok (some (status_record uuids admitted status now_ms)))
          × (repos.get_by_route store admitted.route_name
              ≡ ok (some (config_record uuids admitted now_ms))))

  abbrev pub Works : Option repos.Store → Type 0
  Works none = ⊥
  Works (some store) = repos.Works store

  pub write_peer-IsRecorded :
      (o : Option repos.Store) (admitted : AdmittedPeerConnection Uuid)
      (status : PeerConnectionStatus) (now_ms : ℤ)
      → Works o
      → IsRecorded (write_peer uuids repos o admitted status now_ms) admitted status
  unfolding write_peer
  write_peer-IsRecorded none admitted status now_ms h = absurd h
  write_peer-IsRecorded (some store) admitted status now_ms h =
      let config = config_record uuids admitted now_ms in
      let stored = repos.put-Works store config h in
      let latest = status_record uuids admitted status now_ms in
      (
        repos.put_latest-Works (repos.put store config).0 latest stored,
        (
          now_ms,
          repos.latest_by_route-put_latest (repos.put store config).0 latest stored,
          (repos.get_by_route-put_latest (repos.put store config).0 latest admitted.route_name
                stored
              ∙ repos.get_by_route-put store config h),
        ),
      )

  pub Works-IsRecorded :
      (o : Option repos.Store) (admitted : AdmittedPeerConnection Uuid)
      (status : PeerConnectionStatus)
      → IsRecorded o admitted status
      → Works o
  Works-IsRecorded none admitted status h = h
  Works-IsRecorded (some store) admitted status h = h.0

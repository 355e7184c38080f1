-- ===== src/Peer/Acceptors.antt =====
-- peer.rs: the accepting side of a peer connection. `on_upgraded` spawns a task, which drives the
-- HTTP/2 handshake and the confirmation; `drive_acceptor` in it spawns a second task, which cleans up
-- once the connection has ended. The steps of the two, and that of `on_upgraded` after it has spawned
-- the first, come in any order.
use boardwalk.Common.{
  ℕ, ◌+◌, ◌%◌, ◌^◌, Bool, true, false, not, ◌&&◌, Option, none, some, List, [], ◌∷◌, Str, str_eq,
  find, put, delete, if◌then◌else◌, Result, ok, ◌≡◌,
}
use boardwalk.Peer.Admitted.{
  AdmittedPeerConnection, PeerConnectionStatus, connected, disconnected, failed,
}
use boardwalk.Persistence.{StorageError, ℤ, PeerConfigRecord, PeerConnectionStatusRecord, acceptor}
pub mod Records
pub mod Steps
pub mod Ends
pub mod Actives
pub mod Runs
pub mod Stores

-- Connection ids, and how they are printed.
pub record Uuids : Type 1 where
  pub Uuid : Type 0
  pub to_string : Uuid → Str

-- What the task uses of `dyn Repositories`: `peer_configs()` and `peer_connection_status()`. In a
-- store that works, what was put is found under its route, and the status does not touch the
-- configuration.
pub record Repositories : Type 1 where
  pub Store : Type 0
  pub put : Store → PeerConfigRecord → Store × Result StorageError Unit
  pub get_by_route : Store → Str → Result StorageError (Option PeerConfigRecord)
  pub put_latest : Store → PeerConnectionStatusRecord → Store × Result StorageError Unit
  pub latest_by_route : Store → Str → Result StorageError (Option PeerConnectionStatusRecord)
  pub Works : Store → Type 0
  pub put-Works : (s : Store) (r : PeerConfigRecord) → Works s → Works (put s r).0
  pub put_latest-Works :
      (s : Store) (r : PeerConnectionStatusRecord) → Works s → Works (put_latest s r).0
  pub get_by_route-put :
      (s : Store) (r : PeerConfigRecord)
      → Works s
      → get_by_route (put s r).0 r.route_name ≡ ok (some r)
  pub latest_by_route-put_latest :
      (s : Store) (r : PeerConnectionStatusRecord)
      → Works s
      → latest_by_route (put_latest s r).0 r.route_name ≡ ok (some r)
  pub get_by_route-put_latest :
      (s : Store) (r : PeerConnectionStatusRecord) (route_name : Str)
      → Works s
      → get_by_route (put_latest s r).0 route_name ≡ get_by_route s route_name

unfoldable pub should_record_disconnected : Bool → Bool → Bool
should_record_disconnected drive_succeeded sender_active = drive_succeeded && not sender_active

-- Where the task stands: it enters the context, awaits the handshake, awaits the answer to its
-- confirmation, registers the sender, has come back from `drive_acceptor`, and looks at the senders
-- at last. When it is finished it knows whether the drive succeeded and whether the sender was there.
pub data Phase : Type 0 where
  entering handshaking confirming registering : Phase
  driven finishing : Bool → Phase
  finished : Bool → Bool → Phase

-- The clean-up task.
pub data Cleanup : Type 0 where
  not_spawned running done : Cleanup

-- What happens next: the task takes its next step, where what it waits for on the network succeeds or
-- not, and the clock shows a time; the connection has ended and the clean-up runs; `on_upgraded`
-- enters the handle of the task.
pub data Event : Type 0 where
  proceed : Bool → ℤ → Event
  clean_up : Event
  enlist : Event

unfoldable pub is_active {ℓ} : {A : Type ℓ} → Option A → Bool
is_active none = false
is_active (some s) = true

module _ (uuids : Uuids) where
  open uuids use {Uuid, to_string}

  unfoldable pub config_record : AdmittedPeerConnection Uuid → ℤ → PeerConfigRecord
  config_record admitted now_ms = record {
    peer_id = admitted.peer_id;
    route_name = admitted.route_name;
    node_id = admitted.node_id;
    display_name = admitted.display_name;
    allowed_capabilities = admitted.allowed_capabilities;
    updated_ms = now_ms;
  }

  unfoldable pub status_record :
      AdmittedPeerConnection Uuid → PeerConnectionStatus → ℤ → PeerConnectionStatusRecord
  status_record admitted status now_ms = record {
    connection_id = to_string admitted.connection_id;
    peer_id = admitted.peer_id;
    route_name = admitted.route_name;
    direction = acceptor;
    status = status;
    negotiated_capabilities = admitted.negotiated_capabilities;
    updated_ms = now_ms;
  }

module _ (uuids : Uuids) (repos : Repositories) where
  -- An error of the store is logged only.
  unfoldable pub write_peer :
      Option repos.Store
      → AdmittedPeerConnection uuids.Uuid
      → PeerConnectionStatus
      → ℤ
      → Option repos.Store
  unfolding config_record status_record
  write_peer none admitted status now_ms = none
  write_peer (some store) admitted status now_ms =
      let configured = (repos.put store (config_record uuids admitted now_ms)).0 in
      some (repos.put_latest configured (status_record uuids admitted status now_ms)).0

-- Handles of tasks and senders of HTTP/2 connections are values of the libraries. `notify`, which only
-- wakes up who waits for a confirmation, is left out.
module _ (uuids : Uuids) (repos : Repositories) (JoinHandle SendRequest : Type 0) where
  open uuids use {Uuid}

  pub record PeerAcceptors : Type 0 where
    pub inner : List (Str × JoinHandle)
    pub senders : List (Str × SendRequest)
    pub contexts : List (Str × AdmittedPeerConnection Uuid)
    pub confirmations : ℕ
    pub repositories : Option repos.Store

  -- One accepted connection under way, with the maps that it shares.
  pub record Accepting : Type 0 where
    pub acceptors : PeerAcceptors
    pub phase : Phase
    pub cleanup : Cleanup
    pub is_enlisted : Bool

  module _ (admitted : AdmittedPeerConnection Uuid) (task : JoinHandle) (sender : SendRequest) where
    -- The end of the spawned task, under the locks of the handles and the senders.
    unfoldable pub end_task : Bool → ℤ → PeerAcceptors → Bool × PeerAcceptors
    unfolding is_active should_record_disconnected
    end_task drive_succeeded now_ms a =
        let sender_active = is_active (find admitted.route_name a.senders) in
        (
          sender_active,
          record a {
            inner = delete admitted.route_name a.inner;
            repositories =
                if should_record_disconnected drive_succeeded sender_active
                then write_peer uuids repos a.repositories admitted disconnected now_ms
                else a.repositories;
          },
        )

    -- A step of the spawned task.
    unfoldable pub advance : Phase → Cleanup → Bool → ℤ → Accepting → Accepting
    unfolding end_task
    advance entering c succeeds now_ms t = record t {
      acceptors = record (t.acceptors) {
        contexts = put admitted.route_name admitted t.acceptors.contexts;
      };
      phase = handshaking;
      cleanup = c;
    }
    advance handshaking c succeeds now_ms t = record t {
      phase = if succeeds then confirming else driven false;
      cleanup = if succeeds then running else c;
    }
    advance confirming c succeeds now_ms t = record t {
      phase = if succeeds then registering else driven false;
      cleanup = c;
    }
    advance registering c succeeds now_ms t = record t {
      acceptors = record (t.acceptors) {
        senders = put admitted.route_name sender t.acceptors.senders;
      };
      phase = driven true;
      cleanup = c;
    }
    advance (driven true) c succeeds now_ms t = record t {
      acceptors = record (t.acceptors) {
        repositories = write_peer uuids repos t.acceptors.repositories admitted connected now_ms;
        confirmations = (t.acceptors.confirmations + 1) % 2 ^ 64;
      };
      phase = finishing true;
      cleanup = c;
    }
    advance (driven false) c succeeds now_ms t = record t {
      acceptors = record (t.acceptors) {
        contexts = delete admitted.route_name t.acceptors.contexts;
        repositories = write_peer uuids repos t.acceptors.repositories admitted failed now_ms;
      };
      phase = finishing false;
      cleanup = c;
    }
    advance (finishing drive_succeeded) c succeeds now_ms t =
        let (sender_active, a) = end_task drive_succeeded now_ms t.acceptors in
        record t { acceptors = a; phase = finished drive_succeeded sender_active; cleanup = c }
    advance (finished drive_succeeded sender_active) c succeeds now_ms t = t

    -- The clean-up removes the sender, and the context while it holds the lock of the senders.
    unfoldable pub clean : Cleanup → Accepting → Accepting
    clean not_spawned t = t
    clean running t = record t {
      acceptors = record (t.acceptors) {
        senders = delete admitted.route_name t.acceptors.senders;
        contexts = delete admitted.route_name t.acceptors.contexts;
      };
      cleanup = done;
    }
    clean done t = t

    unfoldable pub enter_task : Bool → Accepting → Accepting
    enter_task true t = t
    enter_task false t = record t {
      acceptors = record (t.acceptors) { inner = put admitted.route_name task t.acceptors.inner };
      is_enlisted = true;
    }

    unfoldable pub step : Event → Accepting → Accepting
    unfolding advance clean enter_task
    step (proceed succeeds now_ms) t = advance t.phase t.cleanup succeeds now_ms t
    step clean_up t = clean t.cleanup t
    step enlist t = enter_task t.is_enlisted t

    unfoldable pub run : List Event → Accepting → Accepting
    run [] t = t
    run (e ∷ es) t = run es (step e t)

  -- `on_upgraded` spawns the task, and then steps follow in any order.
  unfoldable pub on_upgraded :
      AdmittedPeerConnection Uuid
      → JoinHandle
      → SendRequest
      → List Event
      → PeerAcceptors
      → Accepting
  unfolding run
  on_upgraded admitted task sender events a =
      run admitted task sender events
        (record { acceptors = a; phase = entering; cleanup = not_spawned; is_enlisted = false })

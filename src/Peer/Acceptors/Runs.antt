-- ===== src/Peer/Acceptors/Runs.antt =====
-- peer.rs, `on_upgraded`: what an accepted connection leaves behind, over every order of the steps of
-- its tasks.
use boardwalk.Common.{
  ◌≤◌, Bool, true, false, Option, none, some, List, [], length, str_eq, find, ◌≡◌, refl, sym, subst,
}
use boardwalk.Peer.Admitted.{AdmittedPeerConnection}
use boardwalk.Peer.Acceptors.Records.{IsRecorded, Works, final_status}
use boardwalk.Peer.Acceptors.Steps.{Stands, At, run-Holds}
use boardwalk.Peer.Acceptors.Ends.{answers, drive_succeeds, Heads-finished, run-Heads}
use boardwalk.Peer.Acceptors.Actives.{remains, Expects, run-Foresees}
use boardwalk.Peer.Acceptors.{
  Uuids, Repositories, entering, finished, Cleanup, not_spawned, running, done, Event,
  PeerAcceptors, Accepting, run, on_upgraded,
}

module _ (uuids : Uuids) (repos : Repositories) where
  open uuids use {Uuid}

  module _ (JoinHandle SendRequest : Type 0) (admitted : AdmittedPeerConnection Uuid)
      (task : JoinHandle) (sender : SendRequest) where
    -- What is there of the peer besides its records, once the task is finished.
    abbrev pub Leaves :
        Bool → Bool → Cleanup → Option SendRequest → Option (AdmittedPeerConnection Uuid) → Type 0
    Leaves false active u s c = (s ≡ none) × (c ≡ none)
    Leaves true false u s c = (s ≡ none) × (c ≡ none)
    Leaves true true not_spawned s c = ⊥
    Leaves true true running s c = (s ≡ some sender) × (c ≡ some admitted)
    Leaves true true done s c = c ≡ none

    Stands-Leaves :
        (d active : Bool) (u : Cleanup) (s : Option SendRequest)
        (c : Option (AdmittedPeerConnection Uuid)) (o : Option repos.Store)
        → Stands uuids repos JoinHandle SendRequest admitted task sender (finished d active) u s c o
        → IsRecorded uuids repos o admitted (final_status d active) × Leaves d active u s c
    Stands-Leaves false active u s c o (p, q, w) = (w, (p, q))
    Stands-Leaves true false u s c o (p, q, w) = (w, (p, q))
    Stands-Leaves true true not_spawned s c o h = absurd h
    Stands-Leaves true true running s c o (p, q, w) = (w, (p, q))
    Stands-Leaves true true done s c o (q, w) = (w, q)

    -- What the task found is what was to be expected from the order of the steps.
    as_expected :
        (d active x : Bool) (u : Cleanup) (s : Option SendRequest)
        (c : Option (AdmittedPeerConnection Uuid)) (o : Option repos.Store)
        → Expects uuids repos JoinHandle SendRequest x (finished d active) u s []
        → IsRecorded uuids repos o admitted (final_status d active) × Leaves d active u s c
        → IsRecorded uuids repos o admitted (final_status d x) × Leaves d x u s c
    as_expected false active x u s c o e h = h
    as_expected true active x u s c o e h =
        subst (λ b. IsRecorded uuids repos o admitted (final_status true b) × Leaves true b u s c)
          (sym e) h

    -- Where the store works and no sender stands under the peer's route, whatever the order of the
    -- steps of the task and of its clean-up and whatever the network answers, a task that gets six
    -- steps is finished. The drive succeeded exactly if the handshake and the confirmation did, the
    -- second and the third of the steps. The configuration of the peer and one status are then
    -- recorded under its route: `failed` if the drive did not succeed, `disconnected` if it did and
    -- the clean-up came between the fourth step, which registers the sender, and the sixth, and
    -- `connected` otherwise. With `failed` and `disconnected` neither a sender nor a context is left
    -- under the route; with `connected` both are there until the clean-up has run, and the context
    -- is gone after it.
    pub on_upgraded-IsRecorded :
        (events : List Event) (a : PeerAcceptors uuids repos JoinHandle SendRequest)
        (store : repos.Store)
        → a.repositories ≡ some store
        → repos.Works store
        → find admitted.route_name a.senders ≡ none
        → 6 ≤ length (answers events)
        → let t = on_upgraded uuids repos JoinHandle SendRequest admitted task sender events a in
          let d = drive_succeeds entering (answers events) in
          let there = remains 0 events in
          (active : Bool) × (t.phase ≡ finished d active)
          × IsRecorded uuids repos t.acceptors.repositories admitted (final_status d there)
          × Leaves d there t.cleanup
              (find admitted.route_name t.acceptors.senders)
              (find admitted.route_name t.acceptors.contexts)
    unfolding on_upgraded
    on_upgraded-IsRecorded events a store e works free enough =
        let start : Accepting uuids repos JoinHandle SendRequest = record {
          acceptors = a;
          phase = entering;
          cleanup = not_spawned;
          is_enlisted = false;
        } in
        let t = run uuids repos JoinHandle SendRequest admitted task sender events start in
        let d = drive_succeeds entering (answers events) in
        let (active, ends) =
          Heads-finished uuids repos JoinHandle SendRequest admitted task sender d t.phase (
            run-Heads uuids repos JoinHandle SendRequest admitted task sender d events start
              (enough, refl)) in
        let held =
          run-Holds uuids repos JoinHandle SendRequest admitted task sender events start
            (free, subst (Works uuids repos) (sym e) works) in
        let s = find admitted.route_name t.acceptors.senders in
        let c = find admitted.route_name t.acceptors.contexts in
        let found =
          subst
            (λ x. Expects uuids repos JoinHandle SendRequest (remains 0 events) x t.cleanup s [])
            ends
            (run-Foresees uuids repos JoinHandle SendRequest admitted task sender (remains 0 events)
              events start (free, subst (Works uuids repos) (sym e) works) refl) in
        let left =
          as_expected d active (remains 0 events) t.cleanup s c t.acceptors.repositories found (
            Stands-Leaves d active t.cleanup s c t.acceptors.repositories (
              subst (λ x. At uuids repos JoinHandle SendRequest admitted task sender t x t.cleanup)
                ends held)) in
        (active, ends, left.0, left.1)

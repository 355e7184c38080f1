-- ===== src/Peer/Acceptors/Steps.antt =====
-- peer.rs: what stands under the route of a peer, from step to step of the two tasks.
use boardwalk.Common.{
  Bool, true, false, Option, none, some, List, [], ◌∷◌, str_eq, find, if◌then◌else◌, ◌≡◌, refl, sym,
  find-put_self, find-delete_self, subst,
}
use boardwalk.Peer.Admitted.{AdmittedPeerConnection, connected, disconnected, failed}
use boardwalk.Persistence.{ℤ}
use boardwalk.Peer.Acceptors.Records.{IsRecorded, Works, write_peer-IsRecorded, Works-IsRecorded}
use boardwalk.Peer.Acceptors.{
  Uuids, Repositories, Phase, entering, handshaking, confirming, registering, driven, finishing,
  finished, Cleanup, not_spawned, running, done, Event, proceed, clean_up, enlist, is_active,
  write_peer, Accepting, should_record_disconnected, end_task, advance, clean, enter_task, step,
  run,
}

module _ (uuids : Uuids) (repos : Repositories) where
  open uuids use {Uuid}

  module _ (JoinHandle SendRequest : Type 0) (admitted : AdmittedPeerConnection Uuid)
      (task : JoinHandle) (sender : SendRequest) where
    -- What is there under the route of the peer, by where the two tasks stand.
    abbrev pub Stands :
        Phase
        → Cleanup
        → Option SendRequest
        → Option (AdmittedPeerConnection Uuid)
        → Option repos.Store
        → Type 0
    Stands entering not_spawned s c o = (s ≡ none) × Works uuids repos o
    Stands entering running s c o = ⊥
    Stands entering done s c o = ⊥
    Stands handshaking not_spawned s c o = (s ≡ none) × (c ≡ some admitted) × Works uuids repos o
    Stands handshaking running s c o = ⊥
    Stands handshaking done s c o = ⊥
    Stands confirming not_spawned s c o = ⊥
    Stands confirming running s c o = (s ≡ none) × (c ≡ some admitted) × Works uuids repos o
    Stands confirming done s c o = (s ≡ none) × (c ≡ none) × Works uuids repos o
    Stands registering not_spawned s c o = ⊥
    Stands registering running s c o = (s ≡ none) × (c ≡ some admitted) × Works uuids repos o
    Stands registering done s c o = (s ≡ none) × (c ≡ none) × Works uuids repos o
    Stands (driven false) u s c o = (s ≡ none) × Works uuids repos o
    Stands (driven true) not_spawned s c o = ⊥
    Stands (driven true) running s c o =
        (s ≡ some sender) × (c ≡ some admitted) × Works uuids repos o
    Stands (driven true) done s c o = (c ≡ none) × Works uuids repos o
    Stands (finishing false) u s c o =
        (s ≡ none) × (c ≡ none) × IsRecorded uuids repos o admitted failed
    Stands (finishing true) not_spawned s c o = ⊥
    Stands (finishing true) running s c o =
        (s ≡ some sender) × (c ≡ some admitted) × IsRecorded uuids repos o admitted connected
    Stands (finishing true) done s c o = (c ≡ none) × IsRecorded uuids repos o admitted connected
    Stands (finished false active) u s c o =
        (s ≡ none) × (c ≡ none) × IsRecorded uuids repos o admitted failed
    Stands (finished true false) u s c o =
        (s ≡ none) × (c ≡ none) × IsRecorded uuids repos o admitted disconnected
    Stands (finished true true) not_spawned s c o = ⊥
    Stands (finished true true) running s c o =
        (s ≡ some sender) × (c ≡ some admitted) × IsRecorded uuids repos o admitted connected
    Stands (finished true true) done s c o =
        (c ≡ none) × IsRecorded uuids repos o admitted connected

    abbrev pub At : Accepting uuids repos JoinHandle SendRequest → Phase → Cleanup → Type 0
    At t phase cleanup =
        Stands phase cleanup (find admitted.route_name t.acceptors.senders)
          (find admitted.route_name t.acceptors.contexts) t.acceptors.repositories

    abbrev pub Holds : Accepting uuids repos JoinHandle SendRequest → Type 0
    Holds t = At t t.phase t.cleanup

    end_task-Holds :
        (d : Bool) (u : Cleanup) (now_ms : ℤ) (s : Option SendRequest)
        (c : Option (AdmittedPeerConnection Uuid)) (o : Option repos.Store)
        → Stands (finishing d) u s c o
        → Stands (finished d (is_active s)) u s c (
            if should_record_disconnected d (is_active s)
            then write_peer uuids repos o admitted disconnected now_ms
            else o)
    unfolding is_active should_record_disconnected
    end_task-Holds false u now_ms s c o h = h
    end_task-Holds true not_spawned now_ms s c o h = absurd h
    end_task-Holds true running now_ms none c o h = absurd (cc (h.0))
    end_task-Holds true running now_ms (some x) c o h = h
    end_task-Holds true done now_ms none c o (gone, kept) = (
      refl,
      gone,
      write_peer-IsRecorded uuids repos o admitted disconnected now_ms
          (Works-IsRecorded uuids repos o admitted connected kept),
    )
    end_task-Holds true done now_ms (some x) c o h = h

    advance-Holds :
        (phase : Phase) (cleanup : Cleanup) (succeeds : Bool) (now_ms : ℤ)
        (t : Accepting uuids repos JoinHandle SendRequest)
        → t.phase ≡ phase
        → t.cleanup ≡ cleanup
        → At t phase cleanup
        → Holds (
            advance uuids repos JoinHandle SendRequest admitted task sender phase cleanup succeeds
              now_ms t)
    unfolding advance end_task
    advance-Holds entering not_spawned succeeds now_ms t p q (s, w) =
        (s, find-put_self admitted.route_name admitted t.acceptors.contexts, w)
    advance-Holds entering running succeeds now_ms t p q h = absurd h
    advance-Holds entering done succeeds now_ms t p q h = absurd h
    advance-Holds handshaking not_spawned true now_ms t p q h = h
    advance-Holds handshaking not_spawned false now_ms t p q (s, c, w) = (s, w)
    advance-Holds handshaking running succeeds now_ms t p q h = absurd h
    advance-Holds handshaking done succeeds now_ms t p q h = absurd h
    advance-Holds confirming not_spawned succeeds now_ms t p q h = absurd h
    advance-Holds confirming running true now_ms t p q h = h
    advance-Holds confirming running false now_ms t p q (s, c, w) = (s, w)
    advance-Holds confirming done true now_ms t p q h = h
    advance-Holds confirming done false now_ms t p q (s, c, w) = (s, w)
    advance-Holds registering not_spawned succeeds now_ms t p q h = absurd h
    advance-Holds registering running succeeds now_ms t p q (s, c, w) =
        (find-put_self admitted.route_name sender t.acceptors.senders, c, w)
    advance-Holds registering done succeeds now_ms t p q (s, c, w) = (c, w)
    advance-Holds (driven false) u succeeds now_ms t p q (s, w) = (
      s,
      find-delete_self admitted.route_name t.acceptors.contexts,
      write_peer-IsRecorded uuids repos t.acceptors.repositories admitted failed now_ms w,
    )
    advance-Holds (driven true) not_spawned succeeds now_ms t p q h = absurd h
    advance-Holds (driven true) running succeeds now_ms t p q (s, c, w) = (
      s,
      c,
      write_peer-IsRecorded uuids repos t.acceptors.repositories admitted connected now_ms w,
    )
    advance-Holds (driven true) done succeeds now_ms t p q (c, w) =
        (c, write_peer-IsRecorded uuids repos t.acceptors.repositories admitted connected now_ms w)
    advance-Holds (finishing d) u succeeds now_ms t p q h =
        end_task-Holds d u now_ms (find admitted.route_name t.acceptors.senders)
          (find admitted.route_name t.acceptors.contexts) t.acceptors.repositories h
    advance-Holds (finished d active) u succeeds now_ms t p q h =
        subst (λ a. At t a t.cleanup) (sym p) (subst (λ b. At t (finished d active) b) (sym q) h)

    clean-Stands :
        (phase : Phase) (s s' : Option SendRequest) (c c' : Option (AdmittedPeerConnection Uuid))
        (o : Option repos.Store)
        → s' ≡ none
        → c' ≡ none
        → Stands phase running s c o
        → Stands phase done s' c' o
    clean-Stands entering s s' c c' o p q h = absurd h
    clean-Stands handshaking s s' c c' o p q h = absurd h
    clean-Stands confirming s s' c c' o p q (_, _, w) = (p, q, w)
    clean-Stands registering s s' c c' o p q (_, _, w) = (p, q, w)
    clean-Stands (driven false) s s' c c' o p q (_, w) = (p, w)
    clean-Stands (driven true) s s' c c' o p q (_, _, w) = (q, w)
    clean-Stands (finishing false) s s' c c' o p q (_, _, w) = (p, q, w)
    clean-Stands (finishing true) s s' c c' o p q (_, _, w) = (q, w)
    clean-Stands (finished false active) s s' c c' o p q (_, _, w) = (p, q, w)
    clean-Stands (finished true false) s s' c c' o p q (_, _, w) = (p, q, w)
    clean-Stands (finished true true) s s' c c' o p q (_, _, w) = (q, w)

    clean-Holds :
        (cleanup : Cleanup) (t : Accepting uuids repos JoinHandle SendRequest)
        → t.cleanup ≡ cleanup
        → At t t.phase cleanup
        → Holds (clean uuids repos JoinHandle SendRequest admitted task sender cleanup t)
    unfolding clean
    clean-Holds not_spawned t q h = subst (λ b. At t t.phase b) (sym q) h
    clean-Holds running t q h =
        clean-Stands t.phase (find admitted.route_name t.acceptors.senders) _
          (find admitted.route_name t.acceptors.contexts) _ t.acceptors.repositories
          (find-delete_self admitted.route_name t.acceptors.senders)
          (find-delete_self admitted.route_name t.acceptors.contexts) h
    clean-Holds done t q h = subst (λ b. At t t.phase b) (sym q) h

    enter_task-Holds :
        (is_enlisted : Bool) (t : Accepting uuids repos JoinHandle SendRequest)
        → Holds t
        → Holds (enter_task uuids repos JoinHandle SendRequest admitted task sender is_enlisted t)
    unfolding enter_task
    enter_task-Holds true t h = h
    enter_task-Holds false t h = h

    pub step-Holds :
        (e : Event) (t : Accepting uuids repos JoinHandle SendRequest)
        → Holds t
        → Holds (step uuids repos JoinHandle SendRequest admitted task sender e t)
    unfolding step
    step-Holds (proceed succeeds now_ms) t h =
        advance-Holds t.phase t.cleanup succeeds now_ms t refl refl h
    step-Holds clean_up t h = clean-Holds t.cleanup t refl h
    step-Holds enlist t h = enter_task-Holds t.is_enlisted t h

    pub run-Holds :
        (es : List Event) (t : Accepting uuids repos JoinHandle SendRequest)
        → Holds t
        → Holds (run uuids repos JoinHandle SendRequest admitted task sender es t)
    unfolding run
    run-Holds [] t h = h
    run-Holds (e ∷ es) t h =
        run-Holds es (step uuids repos JoinHandle SendRequest admitted task sender e t)
          (step-Holds e t h)

-- ===== src/Peer/Acceptors/Actives.antt =====
-- peer.rs, `on_upgraded`: whether the task finds its sender at the end, from the order of the steps.
use boardwalk.Common.{
  ℕ, suc, ◌≤◌, ltb, leb, Bool, true, false, Option, none, List, [], ◌∷◌, str_eq, find,
  if◌then◌else◌, ◌≡◌, ◌≢◌, refl, ◌∙◌, sym, ap, arith, find-put_self, find-delete_self, subst,
}
use boardwalk.Peer.Admitted.{AdmittedPeerConnection}
use boardwalk.Persistence.{ℤ}
use boardwalk.Peer.Acceptors.{
  Uuids, Repositories, Phase, entering, handshaking, confirming, registering, driven, finishing,
  finished, Cleanup, not_spawned, running, done, Event, proceed, clean_up, enlist, is_active,
  Accepting, end_task, advance, clean, enter_task, step, run,
}
use boardwalk.Peer.Acceptors.Steps.{Stands, Holds, At, step-Holds}

-- The sender that a task registers with its fourth step is there at its sixth, unless the clean-up
-- comes between the two. From `n` steps on, where the clean-up has not run: before the second step
-- there is no clean-up task.
abbrev pub remains : ℕ → List Event → Bool
remains n [] = true
remains n (proceed succeeds now_ms ∷ es) = remains (suc n) es
remains n (enlist ∷ es) = remains n es
remains n (clean_up ∷ es) =
    let later = remains n es in if ltb n 2 then later else if ltb n 4 then true else leb 6 n

remains_late : (n : ℕ) (es : List Event) → 6 ≤ n → remains n es ≡ true
remains_late n [] h = refl
remains_late n (proceed succeeds now_ms ∷ es) h = remains_late (suc n) es (omega arith)
remains_late n (enlist ∷ es) h = remains_late n es h
remains_late n (clean_up ∷ es) h = ground arith

module _ (uuids : Uuids) (repos : Repositories) (JoinHandle SendRequest : Type 0) where
  -- `x` is what the task of a drive that succeeds finds, by where the two tasks stand.
  abbrev pub Expects : Bool → Phase → Cleanup → Option SendRequest → List Event → Type 0
  Expects x entering u s es = x ≡ remains 0 es
  Expects x handshaking u s es = x ≡ remains 1 es
  Expects x confirming not_spawned s es = x ≡ remains 2 es
  Expects x confirming running s es = x ≡ remains 2 es
  Expects x confirming done s es = x ≡ true
  Expects x registering not_spawned s es = x ≡ remains 3 es
  Expects x registering running s es = x ≡ remains 3 es
  Expects x registering done s es = x ≡ true
  Expects x (driven false) u s es = Unit
  Expects x (driven true) not_spawned s es = x ≡ remains 4 es
  Expects x (driven true) running s es = x ≡ remains 4 es
  Expects x (driven true) done s es = x ≡ is_active s
  Expects x (finishing false) u s es = Unit
  Expects x (finishing true) not_spawned s es = x ≡ remains 5 es
  Expects x (finishing true) running s es = x ≡ remains 5 es
  Expects x (finishing true) done s es = x ≡ is_active s
  Expects x (finished false active) u s es = Unit
  Expects x (finished true active) u s es = x ≡ active

  module _ (admitted : AdmittedPeerConnection uuids.Uuid) (task : JoinHandle)
      (sender : SendRequest) where
    abbrev ExpectsAt :
        Bool → Phase → Cleanup → Accepting uuids repos JoinHandle SendRequest → List Event → Type 0
    ExpectsAt x phase cleanup t es =
        Expects x phase cleanup (find admitted.route_name t.acceptors.senders) es

    abbrev pub Foresees : Bool → Accepting uuids repos JoinHandle SendRequest → List Event → Type 0
    Foresees x t es = ExpectsAt x t.phase t.cleanup t es

    advance-Foresees :
        (x : Bool) (phase : Phase) (cleanup : Cleanup) (succeeds : Bool) (now_ms : ℤ)
        (es : List Event) (t : Accepting uuids repos JoinHandle SendRequest)
        → t.phase ≡ phase
        → t.cleanup ≡ cleanup
        → At uuids repos JoinHandle SendRequest admitted task sender t phase cleanup
        → ExpectsAt x phase cleanup t (proceed succeeds now_ms ∷ es)
        → Foresees x
            (advance uuids repos JoinHandle SendRequest admitted task sender phase cleanup succeeds
              now_ms t)
            es
    unfolding advance end_task is_active
    advance-Foresees x entering u succeeds now_ms es t p q h k = k
    advance-Foresees x handshaking u true now_ms es t p q h k = k
    advance-Foresees x handshaking u false now_ms es t p q h k = tt
    advance-Foresees x confirming not_spawned succeeds now_ms es t p q h k = absurd h
    advance-Foresees x confirming running true now_ms es t p q h k = k
    advance-Foresees x confirming running false now_ms es t p q h k = tt
    advance-Foresees x confirming done true now_ms es t p q h k = k
    advance-Foresees x confirming done false now_ms es t p q h k = tt
    advance-Foresees x registering not_spawned succeeds now_ms es t p q h k = absurd h
    advance-Foresees x registering running succeeds now_ms es t p q h k = k
    advance-Foresees x registering done succeeds now_ms es t p q h k =
        k ∙ ap is_active (sym (find-put_self admitted.route_name sender t.acceptors.senders))
    advance-Foresees x (driven false) u succeeds now_ms es t p q h k = tt
    advance-Foresees x (driven true) not_spawned succeeds now_ms es t p q h k = absurd h
    advance-Foresees x (driven true) running succeeds now_ms es t p q h k = k
    advance-Foresees x (driven true) done succeeds now_ms es t p q h k = k
    advance-Foresees x (finishing false) u succeeds now_ms es t p q h k = tt
    advance-Foresees x (finishing true) not_spawned succeeds now_ms es t p q h k = absurd h
    advance-Foresees x (finishing true) running succeeds now_ms es t p q h k =
        k ∙ remains_late 6 es (omega arith) ∙ ap is_active (sym h.0)
    advance-Foresees x (finishing true) done succeeds now_ms es t p q h k = k
    advance-Foresees x (finished false active) u succeeds now_ms es t p q h k =
        subst (λ a. ExpectsAt x a t.cleanup t es) (sym p) tt
    advance-Foresees x (finished true active) u succeeds now_ms es t p q h k =
        subst (λ a. ExpectsAt x a t.cleanup t es) (sym p) k

    -- The clean-up finds the sender, or not, by the phase of the task.
    cleaned :
        (x : Bool) (phase : Phase) (s s' : Option SendRequest)
        (c : Option (AdmittedPeerConnection uuids.Uuid)) (o : Option repos.Store) (es : List Event)
        → s' ≡ none
        → Stands uuids repos JoinHandle SendRequest admitted task sender phase running s c o
        → Expects x phase running s (clean_up ∷ es)
        → Expects x phase done s' es
    unfolding is_active
    cleaned x entering s s' c o es e h k = absurd h
    cleaned x handshaking s s' c o es e h k = absurd h
    cleaned x confirming s s' c o es e h k = k
    cleaned x registering s s' c o es e h k = k
    cleaned x (driven false) s s' c o es e h k = tt
    cleaned x (driven true) s s' c o es e h k = k ∙ ap is_active (sym e)
    cleaned x (finishing false) s s' c o es e h k = tt
    cleaned x (finishing true) s s' c o es e h k = k ∙ ap is_active (sym e)
    cleaned x (finished false active) s s' c o es e h k = tt
    cleaned x (finished true active) s s' c o es e h k = k

    -- A clean-up that has nothing to do changes nothing.
    skipped :
        (x : Bool) (phase : Phase) (cleanup : Cleanup) (s : Option SendRequest)
        (c : Option (AdmittedPeerConnection uuids.Uuid)) (o : Option repos.Store) (es : List Event)
        → cleanup ≢ running
        → Stands uuids repos JoinHandle SendRequest admitted task sender phase cleanup s c o
        → Expects x phase cleanup s (clean_up ∷ es)
        → Expects x phase cleanup s es
    skipped x phase running s c o es e h k = absurd (e refl)
    skipped x entering not_spawned s c o es e h k = k
    skipped x entering done s c o es e h k = absurd h
    skipped x handshaking not_spawned s c o es e h k = k
    skipped x handshaking done s c o es e h k = absurd h
    skipped x confirming not_spawned s c o es e h k = absurd h
    skipped x confirming done s c o es e h k = k
    skipped x registering not_spawned s c o es e h k = absurd h
    skipped x registering done s c o es e h k = k
    skipped x (driven false) not_spawned s c o es e h k = tt
    skipped x (driven false) done s c o es e h k = tt
    skipped x (driven true) not_spawned s c o es e h k = absurd h
    skipped x (driven true) done s c o es e h k = k
    skipped x (finishing false) not_spawned s c o es e h k = tt
    skipped x (finishing false) done s c o es e h k = tt
    skipped x (finishing true) not_spawned s c o es e h k = absurd h
    skipped x (finishing true) done s c o es e h k = k
    skipped x (finished false active) not_spawned s c o es e h k = tt
    skipped x (finished false active) done s c o es e h k = tt
    skipped x (finished true active) not_spawned s c o es e h k = k
    skipped x (finished true active) done s c o es e h k = k

    clean-Foresees :
        (x : Bool) (cleanup : Cleanup) (es : List Event)
        (t : Accepting uuids repos JoinHandle SendRequest)
        → t.cleanup ≡ cleanup
        → At uuids repos JoinHandle SendRequest admitted task sender t t.phase cleanup
        → ExpectsAt x t.phase cleanup t (clean_up ∷ es)
        → Foresees x (clean uuids repos JoinHandle SendRequest admitted task sender cleanup t) es
    unfolding clean
    clean-Foresees x not_spawned es t q h k =
        subst (λ u. ExpectsAt x t.phase u t es) (sym q)
          (skipped x t.phase not_spawned _ _ t.acceptors.repositories es (λ e. cc) h k)
    clean-Foresees x running es t q h k =
        cleaned x t.phase (find admitted.route_name t.acceptors.senders) _
          (find admitted.route_name t.acceptors.contexts) t.acceptors.repositories es
          (find-delete_self admitted.route_name t.acceptors.senders) h k
    clean-Foresees x done es t q h k =
        subst (λ u. ExpectsAt x t.phase u t es) (sym q)
          (skipped x t.phase done _ _ t.acceptors.repositories es (λ e. cc) h k)

    -- To enter the handle says nothing of the sender.
    enlisted :
        (x : Bool) (phase : Phase) (cleanup : Cleanup) (s : Option SendRequest) (es : List Event)
        → Expects x phase cleanup s (enlist ∷ es)
        → Expects x phase cleanup s es
    enlisted x entering u s es k = k
    enlisted x handshaking u s es k = k
    enlisted x confirming not_spawned s es k = k
    enlisted x confirming running s es k = k
    enlisted x confirming done s es k = k
    enlisted x registering not_spawned s es k = k
    enlisted x registering running s es k = k
    enlisted x registering done s es k = k
    enlisted x (driven false) u s es k = k
    enlisted x (driven true) not_spawned s es k = k
    enlisted x (driven true) running s es k = k
    enlisted x (driven true) done s es k = k
    enlisted x (finishing false) u s es k = k
    enlisted x (finishing true) not_spawned s es k = k
    enlisted x (finishing true) running s es k = k
    enlisted x (finishing true) done s es k = k
    enlisted x (finished false active) u s es k = k
    enlisted x (finished true active) u s es k = k

    enter_task-Foresees :
        (x is_enlisted : Bool) (es : List Event) (t : Accepting uuids repos JoinHandle SendRequest)
        → Foresees x t (enlist ∷ es)
        → Foresees x
            (enter_task uuids repos JoinHandle SendRequest admitted task sender is_enlisted t)
            es
    unfolding enter_task
    enter_task-Foresees x true es t k =
        enlisted x t.phase t.cleanup (find admitted.route_name t.acceptors.senders) es k
    enter_task-Foresees x false es t k =
        enlisted x t.phase t.cleanup (find admitted.route_name t.acceptors.senders) es k

    step-Foresees :
        (x : Bool) (e : Event) (es : List Event) (t : Accepting uuids repos JoinHandle SendRequest)
        → Holds uuids repos JoinHandle SendRequest admitted task sender t
        → Foresees x t (e ∷ es)
        → Foresees x (step uuids repos JoinHandle SendRequest admitted task sender e t) es
    unfolding step
    step-Foresees x (proceed succeeds now_ms) es t h k =
        advance-Foresees x t.phase t.cleanup succeeds now_ms es t refl refl h k
    step-Foresees x clean_up es t h k = clean-Foresees x t.cleanup es t refl h k
    step-Foresees x enlist es t h k = enter_task-Foresees x t.is_enlisted es t k

    pub run-Foresees :
        (x : Bool) (es : List Event) (t : Accepting uuids repos JoinHandle SendRequest)
        → Holds uuids repos JoinHandle SendRequest admitted task sender t
        → Foresees x t es
        → Foresees x (run uuids repos JoinHandle SendRequest admitted task sender es t) []
    unfolding run
    run-Foresees x [] t h k = k
    run-Foresees x (e ∷ es) t h k =
        run-Foresees x es (step uuids repos JoinHandle SendRequest admitted task sender e t)
          (step-Holds uuids repos JoinHandle SendRequest admitted task sender e t h)
          (step-Foresees x e es t h k)

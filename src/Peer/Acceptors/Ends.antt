-- ===== src/Peer/Acceptors/Ends.antt =====
-- peer.rs, `on_upgraded`: how many steps a task takes, and what decides whether its drive succeeds.
use boardwalk.Common.{
  ℕ, ◌≤◌, Bool, true, false, ◌&&◌, List, [], ◌∷◌, length, str_eq, ◌≡◌, refl, sym, ap, arith, subst,
}
use boardwalk.Peer.Admitted.{AdmittedPeerConnection}
use boardwalk.Persistence.{ℤ}
use boardwalk.Peer.Acceptors.{
  Uuids, Repositories, Phase, entering, handshaking, confirming, registering, driven, finishing,
  finished, Cleanup, not_spawned, running, done, Event, proceed, clean_up, enlist, Accepting,
  end_task, advance, clean, enter_task, step, run,
}

-- What the network answers to the steps of the task, in their order.
abbrev pub answers : List Event → List Bool
answers [] = []
answers (proceed succeeds now_ms ∷ es) = succeeds ∷ answers es
answers (clean_up ∷ es) = answers es
answers (enlist ∷ es) = answers es

-- Whether the drive succeeds, from the answers that are to come.
abbrev pub drive_succeeds : Phase → List Bool → Bool
drive_succeeds entering [] = false
drive_succeeds entering (a ∷ rest) = drive_succeeds handshaking rest
drive_succeeds handshaking [] = false
drive_succeeds handshaking (a ∷ rest) = a && drive_succeeds confirming rest
drive_succeeds confirming [] = false
drive_succeeds confirming (a ∷ rest) = a
drive_succeeds registering rest = true
drive_succeeds (driven d) rest = d
drive_succeeds (finishing d) rest = d
drive_succeeds (finished d active) rest = d

-- The steps that the task takes at most from a phase on.
abbrev rank : Phase → ℕ
rank entering = 6
rank handshaking = 5
rank confirming = 4
rank registering = 3
rank (driven d) = 2
rank (finishing d) = 1
rank (finished d active) = 0

module _ (uuids : Uuids) (repos : Repositories) where
  open uuids use {Uuid}

  module _ (JoinHandle SendRequest : Type 0) (admitted : AdmittedPeerConnection Uuid)
      (task : JoinHandle) (sender : SendRequest) where
    -- How far a run has come: enough answers are left to finish, and they decide the drive.
    abbrev pub Heads : Bool → List Event → Phase → Type 0
    Heads d es phase = (rank phase ≤ length (answers es)) × (drive_succeeds phase (answers es) ≡ d)

    advance-Heads :
        (d : Bool) (phase : Phase) (cleanup : Cleanup) (succeeds : Bool) (now_ms : ℤ)
        (es : List Event) (t : Accepting uuids repos JoinHandle SendRequest)
        → t.phase ≡ phase
        → Heads d (proceed succeeds now_ms ∷ es) phase
        → Heads d es
            (advance uuids repos JoinHandle SendRequest admitted task sender phase cleanup succeeds
              now_ms t).phase
    unfolding advance end_task
    advance-Heads d entering u succeeds now_ms es t p (r, k) = (omega arith, k)
    advance-Heads d handshaking u true now_ms es t p (r, k) = (omega arith, k)
    advance-Heads d handshaking u false now_ms es t p (r, k) = (omega arith, k)
    advance-Heads d confirming u true now_ms es t p (r, k) = (omega arith, k)
    advance-Heads d confirming u false now_ms es t p (r, k) = (omega arith, k)
    advance-Heads d registering u succeeds now_ms es t p (r, k) = (omega arith, k)
    advance-Heads d (driven true) u succeeds now_ms es t p (r, k) = (omega arith, k)
    advance-Heads d (driven false) u succeeds now_ms es t p (r, k) = (omega arith, k)
    advance-Heads d (finishing b) u succeeds now_ms es t p (r, k) = (omega arith, k)
    advance-Heads d (finished b active) u succeeds now_ms es t p (r, k) =
        subst (Heads d es) (sym p) (omega arith, k)

    clean-phase :
        (cleanup : Cleanup) (t : Accepting uuids repos JoinHandle SendRequest)
        → (clean uuids repos JoinHandle SendRequest admitted task sender cleanup t).phase ≡ t.phase
    unfolding clean
    clean-phase not_spawned t = refl
    clean-phase running t = refl
    clean-phase done t = refl

    enter_task-phase :
        (is_enlisted : Bool) (t : Accepting uuids repos JoinHandle SendRequest)
        → (enter_task uuids repos JoinHandle SendRequest admitted task sender is_enlisted t).phase
          ≡ t.phase
    unfolding enter_task
    enter_task-phase true t = refl
    enter_task-phase false t = refl

    step-Heads :
        (d : Bool) (e : Event) (es : List Event) (t : Accepting uuids repos JoinHandle SendRequest)
        → Heads d (e ∷ es) t.phase
        → Heads d es (step uuids repos JoinHandle SendRequest admitted task sender e t).phase
    unfolding step
    step-Heads d (proceed succeeds now_ms) es t h =
        advance-Heads d t.phase t.cleanup succeeds now_ms es t refl h
    step-Heads d clean_up es t h = subst (Heads d es) (sym (clean-phase t.cleanup t)) h
    step-Heads d enlist es t h = subst (Heads d es) (sym (enter_task-phase t.is_enlisted t)) h

    pub run-Heads :
        (d : Bool) (es : List Event) (t : Accepting uuids repos JoinHandle SendRequest)
        → Heads d es t.phase
        → Heads d [] (run uuids repos JoinHandle SendRequest admitted task sender es t).phase
    unfolding run
    run-Heads d [] t h = h
    run-Heads d (e ∷ es) t h =
        run-Heads d es (step uuids repos JoinHandle SendRequest admitted task sender e t)
          (step-Heads d e es t h)

    pub Heads-finished :
        (d : Bool) (phase : Phase)
        → Heads d [] phase
        → (active : Bool) × (phase ≡ finished d active)
    Heads-finished d entering (r, k) = absurd (omega arith)
    Heads-finished d handshaking (r, k) = absurd (omega arith)
    Heads-finished d confirming (r, k) = absurd (omega arith)
    Heads-finished d registering (r, k) = absurd (omega arith)
    Heads-finished d (driven b) (r, k) = absurd (omega arith)
    Heads-finished d (finishing b) (r, k) = absurd (omega arith)
    Heads-finished d (finished b active) (r, k) = (active, ap (λ x. finished x active) k)

-- ===== src/Peer/Tests.antt =====
-- A hub that asks for two capabilities and is admitted.
use boardwalk.Common.{
  ℕ, ◌+◌, ◌%◌, ◌≤◌, Bool, true, false, ◌&&◌, none, some, List, [], ◌∷◌, All, codes, str_eq, ◌=s◌,
  find, put, delete, ok, ◌≡◌, ◌≢◌, ◌↔◌, refl, arith,
}
use boardwalk.Peer.Capabilities.{
  PeerCapabilities, display, parse_list, intersection, contains, from_capabilities, to_capabilities,
}
use boardwalk.Peer.Capabilities.Lattice.{contains-intersection}
use boardwalk.Peer.Capabilities.RoundTrip.{parse_list-display}
use boardwalk.Peer.Names.{route_name}
use boardwalk.Peer.Names.Letters.{IsLetter, route_name_iff}
use boardwalk.Peer.Tokens.{constant_time_eq, constant_time_eq_iff}
use boardwalk.Peer.Backoff.{backoff_ms, backoff_ms_bounds}
use boardwalk.Peer.Admitted.{AdmittedPeerConnection}
use boardwalk.Peer.Acceptors.{
  Uuids, PeerAcceptors, write_peer, step, Event, proceed, clean_up, enlist, finished, on_upgraded,
}
use boardwalk.Peer.Acceptors.Records.{IsRecorded, final_status}
use boardwalk.Peer.Acceptors.Runs.{on_upgraded-IsRecorded}
use boardwalk.Peer.Acceptors.Stores.{memory}
use boardwalk.Persistence.{pos}
use boardwalk.Persistence.Memory.{new}
use boardwalk.Persistence.Stores.{Lock}

abbrev asked : PeerCapabilities
asked = record { bits = 5 }

abbrev ceiling : PeerCapabilities
ceiling = record { bits = 3 }

parse_list-display_example :
    (parse_list (display asked) ≡ ok asked)
    × (from_capabilities (to_capabilities asked) ≡ some asked)
parse_list-display_example = parse_list-display asked (omega arith)

contains-intersection_example :
    contains (intersection asked ceiling) (record { bits = 1 })
    ≡ (contains asked (record { bits = 1 }) && contains ceiling (record { bits = 1 }))
contains-intersection_example = contains-intersection asked ceiling (record { bits = 1 })

route_name_iff_example :
    (route_name (codes "hub-1") ≡ ok (codes "hub-1"))
    ↔ ((codes "hub-1" ≢ []) × All IsLetter (codes "hub-1"))
route_name_iff_example = route_name_iff (codes "hub-1")

abbrev secret : List ℕ
secret = 1 ∷ 2 ∷ []

abbrev guess : List ℕ
guess = 1 ∷ 3 ∷ []

constant_time_eq_iff_example : (constant_time_eq secret guess ≡ true) ↔ (secret ≡ guess)
constant_time_eq_iff_example =
    constant_time_eq_iff secret guess (omega arith, (omega arith, tt))
      (omega arith, (omega arith, tt))

backoff_ms_bounds_example :
    (100 + 1234 % 1000 ≤ backoff_ms 3 1234)
    × (backoff_ms 3 1234 ≤ 30000 + 1234 % 1000)
    × (backoff_ms 3 1234 ≤ backoff_ms (3 + 2) 1234)
    × (backoff_ms (9 + 2) 1234 ≡ 30000 + 1234 % 1000)
backoff_ms_bounds_example = backoff_ms_bounds 3 2 1234

abbrev uuids : Uuids
uuids = record { Uuid = ℕ; to_string = λ n. n ∷ [] }

abbrev store : Lock Unit
store = record { contents = new; is_poisoned = false }

-- The tasks and the senders are numbered.
abbrev acceptors : PeerAcceptors uuids (memory Unit) ℕ ℕ
acceptors = record {
  inner = [];
  senders = [];
  contexts = [];
  confirmations = 0;
  repositories = some store;
}

abbrev hub : AdmittedPeerConnection ℕ
hub = record {
  route_name = codes "hub";
  peer_id = codes "peer-hub";
  token_id = none;
  connection_id = 7;
  node_id = none;
  display_name = none;
  allowed_capabilities = ceiling;
  negotiated_capabilities = ceiling;
}

-- The connection ends between the confirmation of the peer and the end of the task.
abbrev dropped_early : List Event
dropped_early =
    proceed true (pos 0)
    ∷ enlist
    ∷ proceed true (pos 0)
    ∷ proceed true (pos 0)
    ∷ proceed true (pos 0)
    ∷ clean_up
    ∷ proceed true (pos 1)
    ∷ proceed true (pos 2)
    ∷ []

on_upgraded-IsRecorded_example :
    let t = on_upgraded uuids (memory Unit) ℕ ℕ hub 1 9 dropped_early acceptors in
    (active : Bool) × (t.phase ≡ finished true active)
    × IsRecorded uuids (memory Unit) t.acceptors.repositories hub (final_status true false)
    × ((find (codes "hub") t.acceptors.senders ≡ none)
        × (find (codes "hub") t.acceptors.contexts ≡ none))
unfolding find
on_upgraded-IsRecorded_example =
    on_upgraded-IsRecorded uuids (memory Unit) ℕ ℕ hub 1 9 dropped_early acceptors store refl refl
      refl (omega arith)

-- The sender is gone at the end.
dropped_early_test :
    (on_upgraded uuids (memory Unit) ℕ ℕ hub 1 9 dropped_early acceptors).phase
    ≡ finished true false
unfolding on_upgraded find put delete ◌=s◌ write_peer step
dropped_early_test = refl

-- Where the connection ends before the task registers its sender, the sender stays, without a
-- context, and the status is `connected`.
abbrev too_early : List Event
too_early =
    proceed true (pos 0)
    ∷ proceed true (pos 0)
    ∷ proceed true (pos 0)
    ∷ clean_up
    ∷ proceed true (pos 1)
    ∷ proceed true (pos 2)
    ∷ proceed true (pos 3)
    ∷ []

too_early_test :
    let t = on_upgraded uuids (memory Unit) ℕ ℕ hub 1 9 too_early acceptors in
    (t.phase ≡ finished true true)
    × (find (codes "hub") t.acceptors.senders ≡ some 9)
    × (find (codes "hub") t.acceptors.contexts ≡ none)
unfolding on_upgraded find put delete ◌=s◌ write_peer step
too_early_test = (refl, refl, refl)

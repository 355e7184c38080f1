-- ===== src/Http/PeerStreams/Tests.antt =====
-- Runs of the hub.
use boardwalk.Common.{
  true, false, some, List, [], ◌∷◌, codes, find, ◌=s◌, ◌≡◌, refl, put, delete, arith,
}
use boardwalk.Http.PeerStreams.{Key, key_eq, new, subscribe, unsubscribe, refcount}
use boardwalk.Http.PeerStreams.Clients.{
  Op, join, leave, run, clients, subscribers, IsLive, clients-run,
}

abbrev lamps : Key
lamps = (codes "hub", codes "lamps")

abbrev doors : Key
doors = (codes "hub", codes "doors")

-- Two subscribers of one stream, one of a peer with no connection, and two that go.
abbrev calls : List Op
calls =
    join lamps true
    ∷ join lamps false
    ∷ join doors false
    ∷ leave lamps
    ∷ leave lamps
    ∷ join doors true
    ∷ []

no_clients : (key : Key) → clients new key ≡ 0
unfolding clients new find
no_clients key = refl

new-IsLive : IsLive new
unfolding new find
new-IsLive key = tt

clients-run_example :
    (clients (run new calls) doors ≡ subscribers doors calls (clients new doors))
    × IsLive (run new calls)
clients-run_example = clients-run new calls doors new-IsLive (λ key. omega (arith, no_clients key))

doors_test : (subscribers doors calls 0 ≡ 1) × (subscribers lamps calls 0 ≡ 0)
unfolding subscribers ◌=s◌
doors_test = (refl, refl)

refcount_test : refcount (run new calls) doors ≡ some 1
unfolding refcount run new subscribe unsubscribe find put delete ◌=s◌
refcount_test = refl

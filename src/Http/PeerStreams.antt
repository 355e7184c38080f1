-- ===== src/Http/PeerStreams.antt =====
-- http/peer_streams.rs: the hub that shares one upstream stream among the subscribers of a topic of a
-- peer. Each operation holds the lock of the map from its beginning to its end, so it is one step.
-- A stream task is a number; what the task does with the network is not modelled.
pub mod Clients
mod Tests
use boardwalk.Common.{
  ℕ, ◌+◌, ◌-◌, ◌%◌, ◌^◌, Bool, true, false, ◌&&◌, Option, none, some, List, [], ◌∷◌, Str, ◌==◌,
  ◌=s◌, =s_iff, Eq, find, put, delete, length, if◌then◌else◌, ◌≡◌, refl, ◌↔◌, ap, ap₂, arith,
}

-- The peer and the topic.
abbrev pub Key : Type 0
Key = Str × Str

abbrev pub same_key : Key → Key → Bool
same_key (p, t) (q, u) = p =s q && t =s u

pub same_key_iff : (a b : Key) → (same_key a b ≡ true) ↔ (a ≡ b)
same_key_iff (p, t) (q, u) = (
  (λ h. ap₂ (λ x y. (x, y)) ((=s_iff p q).0 (ground arith)) ((=s_iff t u).0 (ground arith))),
  (λ e. ground (arith, =s_iff p q, =s_iff t u, ap (λ k. k.0) e, ap (λ k. k.1) e)),
)

instance abbrev pub key_eq : Eq Key
key_eq = record { same = same_key; same_iff = same_key_iff }

-- `sender` and `task` are those of one stream, here its number.
pub record PeerStreamEntry : Type 0 where
  pub sender : ℕ
  pub task : Option ℕ
  pub refcount : ℕ

-- `spawned` counts the tasks that were spawned; `aborted` lists those that were aborted.
pub record PeerStreamHub : Type 0 where
  pub streams : List (Key × PeerStreamEntry)
  pub spawned : ℕ
  pub aborted : List ℕ

unfoldable pub new : PeerStreamHub
new = record { streams = []; spawned = 0; aborted = [] }

-- The branch of a key with no stream: `connected` says whether the peer has a connection.
unfoldable pub open_stream : PeerStreamHub → Key → Bool → PeerStreamHub × Option ℕ
open_stream hub key false = (hub, none)
open_stream hub key true = (
  record {
    streams =
        put key (record { sender = hub.spawned; task = some hub.spawned; refcount = 1 })
          hub.streams;
    spawned = hub.spawned + 1;
    aborted = hub.aborted;
  },
  some hub.spawned,
)

-- `subscribe`, and the stream whose receiver it returns; `fetch_add` wraps at 64 bits.
unfoldable pub subscribe : PeerStreamHub → Key → Bool → PeerStreamHub × Option ℕ
unfolding open_stream
subscribe hub key connected = elim (find key hub.streams) [
  | some entry ↦ (
    record hub {
      streams = put key (record entry { refcount = (entry.refcount + 1) % 2 ^ 64 }) hub.streams;
    },
    some entry.sender,
  )
  | none ↦ open_stream hub key connected
]

abort : Option ℕ → List ℕ → List ℕ
abort none tasks = tasks
abort (some t) tasks = t ∷ tasks

-- `fetch_sub` wraps too, and returns the count before.
unfoldable pub unsubscribe : PeerStreamHub → Key → PeerStreamHub
unfolding abort
unsubscribe hub key = elim (find key hub.streams) [
  | none ↦ hub
  | some entry ↦
      if entry.refcount == 1
      then record hub { streams = delete key hub.streams; aborted = abort entry.task hub.aborted }
      else record hub {
        streams =
            put key (record entry { refcount = (entry.refcount + (2 ^ 64 - 1)) % 2 ^ 64 })
              hub.streams;
      }
]

unfoldable pub refcount : PeerStreamHub → Key → Option ℕ
refcount hub key = elim (find key hub.streams) [ none ↦ none | some entry ↦ some entry.refcount ]

unfoldable pub active_streams : PeerStreamHub → ℕ
active_streams hub = length hub.streams

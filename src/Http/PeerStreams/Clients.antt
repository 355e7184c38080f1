-- ===== src/Http/PeerStreams/Clients.antt =====
-- The reference counts of the hub are the numbers of subscribers.
use boardwalk.Common.{
  ℕ, ◌+◌, ◌-◌, ◌%◌, ◌^◌, ◌≤◌, ◌<◌, Bool, true, false, Option, none, some, List, [], ◌∷◌, ◌==◌, find,
  put, delete, find-put, find-delete, length, if◌then◌else◌, ◌≡◌, refl, sym, ◌∙◌, ap, subst, arith,
  Bool-cases, Option-cases, inl, inr,
}
use boardwalk.Http.PeerStreams.{
  Key, key_eq, PeerStreamEntry, PeerStreamHub, open_stream, subscribe, unsubscribe,
}

-- The count of an entry that may be missing.
abbrev count : Option PeerStreamEntry → ℕ
count none = 0
count (some entry) = entry.refcount

unfoldable pub clients : PeerStreamHub → Key → ℕ
clients hub key = count (find key hub.streams)

-- No entry has the count 0.
abbrev Live : Option PeerStreamEntry → Type 0
Live none = Unit
Live (some entry) = 1 ≤ entry.refcount

abbrev pub IsLive : PeerStreamHub → Type 0
IsLive hub = (key : Key) → Live (find key hub.streams)

pub data Op : Type 0 where
  join : Key → Bool → Op
  leave : Key → Op

unfoldable pub run : PeerStreamHub → List Op → PeerStreamHub
run hub [] = hub
run hub (join key connected ∷ ops) = run (subscribe hub key connected).0 ops
run hub (leave key ∷ ops) = run (unsubscribe hub key) ops

-- What one call of its own key does to the number of subscribers: the first one needs a connection.
abbrev pub joined : Bool → ℕ → ℕ
joined connected n = if n == 0 then (if connected then 1 else 0) else n + 1

-- The number of subscribers of `j` after the calls, from `n` of them.
unfoldable pub subscribers : Key → List Op → ℕ → ℕ
subscribers j [] n = n
subscribers j (join key connected ∷ ops) n =
    subscribers j ops (if key_eq.same key j then joined connected n else n)
subscribers j (leave key ∷ ops) n = subscribers j ops (if key_eq.same key j then n - 1 else n)

count_same :
    (m : List (Key × PeerStreamEntry)) (key j : Key) (entry : Option PeerStreamEntry)
    → key_eq.same key j ≡ true
    → find key m ≡ entry
    → count (find j m) ≡ count entry
count_same m key j entry same e =
    ap (λ k. count (find k m)) (sym ((key_eq.same_iff key j).0 same)) ∙ ap count e

-- What the change of one entry does to the count of any key.
find-put-count :
    (m : List (Key × PeerStreamEntry)) (key j : Key) (old : Option PeerStreamEntry)
    (entry : PeerStreamEntry) (f : ℕ → ℕ)
    → ((k : Key) → Live (find k m))
    → find key m ≡ old
    → 1 ≤ entry.refcount
    → entry.refcount ≡ f (count old)
    → (count (find j (put key entry m))
        ≡ (if key_eq.same key j then f (count (find j m)) else count (find j m)))
      × Live (find j (put key entry m))
find-put-count m key j old entry f live e pos new_count = elim (Bool-cases (key_eq.same key j)) [
  | inl same ↦
      let found : find j (put key entry m) ≡ some entry = rw same at (find-put j key entry m) in
      rw (found, same, count_same m key j old same e) (new_count, pos)
  | inr other ↦
      let found : find j (put key entry m) ≡ find j m = rw other at (find-put j key entry m) in
      rw (found, other) (refl, live j)
]

-- A key with no entry, on a hub that the call leaves as it is.
count_missing :
    (m : List (Key × PeerStreamEntry)) (key j : Key) (f : ℕ → ℕ)
    → find key m ≡ none
    → f 0 ≡ 0
    → count (find j m) ≡ (if key_eq.same key j then f (count (find j m)) else count (find j m))
count_missing m key j f miss e = elim (Bool-cases (key_eq.same key j)) [
  | inl same ↦ rw (same, count_same m key j none same miss) (sym e)
  | inr other ↦ rw other refl
]

live_entry :
    (hub : PeerStreamHub) (key : Key) (entry : PeerStreamEntry)
    → IsLive hub
    → find key hub.streams ≡ some entry
    → 1 ≤ entry.refcount
live_entry hub key entry live hit = subst Live hit (live key)

-- What a hub answers about a key after a call of `key` that does `f` to its count.
abbrev Answers : PeerStreamHub → Key → Key → (ℕ → ℕ) → ℕ → Type 0
Answers hub key j f n =
    (count (find j hub.streams) ≡ (if key_eq.same key j then f n else n))
    × Live (find j hub.streams)

Answers-open_stream :
    (hub : PeerStreamHub) (key j : Key) (connected : Bool)
    → IsLive hub
    → find key hub.streams ≡ none
    → Answers
        (open_stream hub key connected).0
        key
        j
        (joined connected)
        (count (find j hub.streams))
unfolding open_stream
Answers-open_stream hub key j false live miss =
    (count_missing hub.streams key j (joined false) miss refl, live j)
Answers-open_stream hub key j true live miss =
    find-put-count hub.streams key j none _ (joined true) live miss (omega arith) refl

Answers-subscribe :
    (hub : PeerStreamHub) (key j : Key) (connected : Bool)
    → IsLive hub
    → clients hub key + 1 < 2 ^ 64
    → Answers (subscribe hub key connected).0 key j (joined connected) (count (find j hub.streams))
unfolding clients subscribe
Answers-subscribe hub key j connected live small = elim (Option-cases (find key hub.streams)) [
  | inr (entry, hit) ↦
      let pos = live_entry hub key entry live hit in
      let room : entry.refcount + 1 < 2 ^ 64 = rw hit at small in
      rw (hit, subscribe)
        (find-put-count hub.streams key j (some entry)
          (record entry { refcount = (entry.refcount + 1) % 2 ^ 64 }) (joined connected) live hit
          (omega arith) (ground arith))
  | inl miss ↦ rw (miss, subscribe) (Answers-open_stream hub key j connected live miss)
]

find-delete-count :
    (m : List (Key × PeerStreamEntry)) (key j : Key) (entry : PeerStreamEntry)
    → ((k : Key) → Live (find k m))
    → find key m ≡ some entry
    → entry.refcount ≡ 1
    → (count (find j (delete key m))
        ≡ (if key_eq.same key j then count (find j m) - 1 else count (find j m)))
      × Live (find j (delete key m))
find-delete-count m key j entry live e one = elim (Bool-cases (key_eq.same key j)) [
  | inl same ↦
      let gone : find j (delete key m) ≡ none = rw same at (find-delete j key m) in
      rw (gone, same, count_same m key j (some entry) same e) (omega arith, tt)
  | inr other ↦
      let kept : find j (delete key m) ≡ find j m = rw other at (find-delete j key m) in
      rw (kept, other) (refl, live j)
]

Answers-unsubscribe :
    (hub : PeerStreamHub) (key j : Key)
    → IsLive hub
    → clients hub key < 2 ^ 64
    → Answers (unsubscribe hub key) key j (λ n. n - 1) (count (find j hub.streams))
unfolding clients unsubscribe
Answers-unsubscribe hub key j live small = elim (Option-cases (find key hub.streams)) [
  | inl miss ↦
      rw (miss, unsubscribe) (count_missing hub.streams key j (λ n. n - 1) miss refl, live j)
  | inr (entry, hit) ↦
      let pos = live_entry hub key entry live hit in
      let room : entry.refcount < 2 ^ 64 = rw hit at small in
      elim (Bool-cases (entry.refcount == 1)) [
        | inl last ↦
            rw (hit, unsubscribe, last)
              (find-delete-count hub.streams key j entry live hit (ground arith))
        | inr more ↦
            let two : 2 ≤ entry.refcount = ground arith in
            rw (hit, unsubscribe, more)
              (find-put-count hub.streams key j (some entry)
                (record entry { refcount = (entry.refcount + (2 ^ 64 - 1)) % 2 ^ 64 }) (λ n. n - 1)
                live hit (omega arith) (omega arith))
      ]
]

-- No count comes to its wrap-around within the calls.
abbrev pub HasRoom : PeerStreamHub → List Op → Type 0
HasRoom hub ops = (key : Key) → clients hub key + length ops < 2 ^ 64

joined-le : (connected : Bool) (n : ℕ) → joined connected n ≤ n + 1
joined-le connected n = ground arith

-- On a hub with no entry of count 0, whatever calls are made, the count of each key is the number of its subscribers: it goes up by one
-- with each subscription (the first needs a connection to the peer) and down by one with each
-- unsubscription, as far as 0; and again no entry has the count 0, so a stream stays as long as it has a
-- subscriber. No count may come to its wrap-around at 64 bits within the calls.
pub clients-run :
    (hub : PeerStreamHub) (ops : List Op) (j : Key)
    → IsLive hub
    → HasRoom hub ops
    → (clients (run hub ops) j ≡ subscribers j ops (clients hub j)) × IsLive (run hub ops)
unfolding run subscribers clients
clients-run hub [] j live room = (refl, live)
clients-run hub (join key connected ∷ ops) j live room =
    let next = (subscribe hub key connected).0 in
    let answers =
      λ (k : Key). Answers-subscribe hub key k connected live (omega (arith, room key)) in
    let (total, all_live) =
      clients-run next ops j (λ k. (answers k).1)
        (λ k.
          ground
            (arith, (answers k).0, room k, joined-le connected (count (find k hub.streams)))) in
    (total ∙ ap (subscribers j ops) (answers j).0, all_live)
clients-run hub (leave key ∷ ops) j live room =
    let next = unsubscribe hub key in
    let answers = λ (k : Key). Answers-unsubscribe hub key k live (omega (arith, room key)) in
    let (total, all_live) =
      clients-run next ops j (λ k. (answers k).1) (λ k. ground (arith, (answers k).0, room k)) in
    (total ∙ ap (subscribers j ops) (answers j).0, all_live)

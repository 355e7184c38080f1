-- ===== src/Peer/Acceptors/Stores.antt =====
-- The in-memory store as the repositories of an accepting task.
use boardwalk.Common.{Str, some, false, ok, ◌≡◌, refl, sym, ◌∙◌, ap, find-put_self, str_eq}
use boardwalk.Persistence.{PeerConfigRecord, PeerConnectionStatusRecord}
use boardwalk.Persistence.Memory
use boardwalk.Persistence.Stores.{
  Lock, put_peer, get_by_route, put_latest, latest_by_route, reading, writing,
}
use boardwalk.Persistence.Lookups.{locked}
use boardwalk.Peer.Acceptors.{Repositories}

module _ (Snapshot : Type 0) where
  put_peer_open :
      (m : Lock Snapshot) (r : PeerConfigRecord)
      → m.is_poisoned ≡ false
      → (put_peer m r).0 ≡ record m { contents = Memory.put_peer r m.contents }
  unfolding put_peer writing
  put_peer_open m r good = rw (locked m good, writing) refl

  put_latest_open :
      (m : Lock Snapshot) (r : PeerConnectionStatusRecord)
      → m.is_poisoned ≡ false
      → (put_latest m r).0 ≡ record m { contents = Memory.put_latest r m.contents }
  unfolding put_latest writing
  put_latest_open m r good = rw (locked m good, writing) refl

  latest_by_route_open :
      (m : Lock Snapshot) (route : Str)
      → m.is_poisoned ≡ false
      → latest_by_route m route ≡ ok (Memory.latest_by_route route m.contents)
  unfolding latest_by_route reading
  latest_by_route_open m route good = rw (locked m good, reading) refl

  get_by_route_open :
      (m : Lock Snapshot) (route : Str)
      → m.is_poisoned ≡ false
      → get_by_route m route ≡ ok (Memory.get_by_route route m.contents)
  unfolding get_by_route reading
  get_by_route_open m route good = rw (locked m good, reading) refl

  pub put_peer-good :
      (m : Lock Snapshot) (r : PeerConfigRecord)
      → m.is_poisoned ≡ false
      → (put_peer m r).0.is_poisoned ≡ false
  put_peer-good m r good = ap (λ k. k.is_poisoned) (put_peer_open m r good) ∙ good

  pub put_latest-good :
      (m : Lock Snapshot) (r : PeerConnectionStatusRecord)
      → m.is_poisoned ≡ false
      → (put_latest m r).0.is_poisoned ≡ false
  put_latest-good m r good = ap (λ k. k.is_poisoned) (put_latest_open m r good) ∙ good

  pub get_by_route-put_peer :
      (m : Lock Snapshot) (r : PeerConfigRecord)
      → m.is_poisoned ≡ false
      → get_by_route (put_peer m r).0 r.route_name ≡ ok (some r)
  unfolding Memory.put_peer Memory.get_by_route
  get_by_route-put_peer m r good =
      ap (λ k. get_by_route k r.route_name) (put_peer_open m r good)
      ∙ get_by_route_open (record m { contents = Memory.put_peer r m.contents }) r.route_name good
      ∙ ap ok (find-put_self r.route_name r m.contents.peer_configs)

  pub latest_by_route-put_latest :
      (m : Lock Snapshot) (r : PeerConnectionStatusRecord)
      → m.is_poisoned ≡ false
      → latest_by_route (put_latest m r).0 r.route_name ≡ ok (some r)
  unfolding Memory.put_latest Memory.latest_by_route
  latest_by_route-put_latest m r good =
      ap (λ k. latest_by_route k r.route_name) (put_latest_open m r good)
      ∙ latest_by_route_open (record m { contents = Memory.put_latest r m.contents }) r.route_name
          good
      ∙ ap ok (find-put_self r.route_name r m.contents.peer_connection_statuses)

  pub get_by_route-put_latest :
      (m : Lock Snapshot) (r : PeerConnectionStatusRecord) (route : Str)
      → m.is_poisoned ≡ false
      → get_by_route (put_latest m r).0 route ≡ get_by_route m route
  unfolding Memory.put_latest Memory.get_by_route
  get_by_route-put_latest m r route good =
      ap (λ k. get_by_route k route) (put_latest_open m r good)
      ∙ get_by_route_open (record m { contents = Memory.put_latest r m.contents }) route good
      ∙ sym (get_by_route_open m route good)

  abbrev pub memory : Repositories
  memory = record {
    Store = Lock Snapshot;
    put = put_peer;
    get_by_route = get_by_route;
    put_latest = put_latest;
    latest_by_route = latest_by_route;
    Works = λ m. m.is_poisoned ≡ false;
    put-Works = put_peer-good;
    put_latest-Works = put_latest-good;
    get_by_route-put = get_by_route-put_peer;
    latest_by_route-put_latest = latest_by_route-put_latest;
    get_by_route-put_latest = get_by_route-put_latest;
  }

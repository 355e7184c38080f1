-- ===== src/Persistence/Tests.antt =====
-- Records of two lamps and of two nodes.
use boardwalk.Common.{
  ℕ, false, some, [], ◌∷◌, Str, codes, ◌=s◌, =s_iff, str_eq, find, put, ◌⊎◌, ◌≡◌, refl, arith,
}
use boardwalk.Persistence.{
  pos, static_name, ResourceIdentityRecord, NodeConfigRecord, IdentityKey, key_eq,
}
use boardwalk.Persistence.Memory.{
  RepositoryState, new, put_node, get_node, get_local, local_node_sentinel_key, taken_by,
  insert_identity, previous_keys, assign, release,
}
use boardwalk.Persistence.Memory
use boardwalk.Persistence.Stores.{Lock, put_identity, lock_state, writing}
use boardwalk.Persistence.Identities.{IsIndexed}
use boardwalk.Persistence.Lookups.{
  new-IsIndexed, puts, puts-IsIndexed, Accepted, Refused, put_identity_cases,
}
use boardwalk.Persistence.Nodes.{
  put_nodes, last_with, get_local-put_nodes, IsLatestOf, get_local-IsLatestOf,
}

abbrev lamp_key : IdentityKey
unfolding static_name
lamp_key = static_name (codes "lamp") (codes "desk")

abbrev lamp : Str → ResourceIdentityRecord
lamp id = record {
  id = id;
  kind = codes "lamp";
  name = some (codes "desk");
  identity_keys = lamp_key ∷ [];
  labels = [];
  created_ms = pos 1;
  updated_ms = pos 2;
}

abbrev empty : Lock Unit
empty = record { contents = new; is_poisoned = false }

puts-IsIndexed_example :
    IsIndexed (puts (lamp (codes "1") ∷ lamp (codes "2") ∷ lamp (codes "1") ∷ []) empty).contents
puts-IsIndexed_example =
    puts-IsIndexed (lamp (codes "1") ∷ lamp (codes "2") ∷ lamp (codes "1") ∷ []) empty new-IsIndexed

-- The key of the first lamp is refused to the second.
abbrev one_lamp : Lock Unit
one_lamp = puts (lamp (codes "1") ∷ []) empty

put_identity_cases_example : Accepted empty (lamp (codes "2")) ⊎ Refused empty (lamp (codes "2"))
put_identity_cases_example = put_identity_cases empty (lamp (codes "2")) refl new-IsIndexed

refused_test :
    (put_identity one_lamp (lamp (codes "2"))).0.contents.identity_keys ≡ (lamp_key, codes "1") ∷ []
unfolding put_identity writing lock_state Memory.put_identity taken_by insert_identity previous_keys
    assign release find put ◌=s◌ new lamp_key static_name
refused_test = refl

abbrev node : Str → ℕ → NodeConfigRecord
node id ms = record { node_id = id; display_name = id; route_name = id; updated_ms = pos ms }

get_local-put_nodes_example :
    (get_local {Snapshot = Unit}
        (put_nodes (node (codes "old") 100 ∷ node (codes "new") 50 ∷ []) new)
      ≡ some (node (codes "new") 50))
    × (get_node {Snapshot = Unit}
          (codes "old")
          (put_nodes (node (codes "old") 100 ∷ node (codes "new") 50 ∷ []) new)
        ≡ last_with
            (codes "old")
            (node (codes "old") 100 ∷ node (codes "new") 50 ∷ [])
            (get_node {Snapshot = Unit} (codes "old") new))
get_local-put_nodes_example =
    get_local-put_nodes (node (codes "new") 50 ∷ []) (node (codes "old") 100) new (codes "old")
      (λ e. ground (arith, =s_iff (codes "old") local_node_sentinel_key))

abbrev legacy : RepositoryState Unit
legacy = record (new) {
  node_configs = (codes "old", node (codes "old") 100) ∷ (codes "new", node (codes "new") 50) ∷ [];
}

get_local-IsLatestOf_example : IsLatestOf legacy.node_configs (get_local legacy)
unfolding find ◌=s◌
get_local-IsLatestOf_example = get_local-IsLatestOf legacy refl

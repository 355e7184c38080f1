-- ===== src/Query/Json.antt =====
-- The JSON values of serde_json. An object is its list of fields; `get` reads the first field with
-- a key, and `insert` replaces that field or adds a last one.
pub mod Laws
use boardwalk.Common.{ℕ, Bool, Option, none, some, Str, ◌=s◌, if◌then◌else◌}

mutual
  pub data Json (N : Type 0) : Type 0 where
    null : Json N
    bool : Bool → Json N
    num : N → Json N
    str : Str → Json N
    arr : Items N → Json N
    obj : Fields N → Json N

  pub data Items (N : Type 0) : Type 0 where
    no_items : Items N
    item : Json N → Items N → Items N

  pub data Fields (N : Type 0) : Type 0 where
    no_fields : Fields N
    field : Str → Json N → Fields N → Fields N

module _ {N : Type 0} where
  unfoldable pub get : Str → Fields N → Option (Json N)
  get k no_fields = none
  get k (field j v m) = if j =s k then some v else get k m

  unfoldable pub insert : Str → Json N → Fields N → Fields N
  insert k v no_fields = field k v no_fields
  insert k v (field j w m) = if j =s k then field k v m else field j w (insert k v m)

  abbrev pub any_item : (Json N → Bool) → Items N → Bool
  any_item p no_items = Bool.false
  any_item p (item x xs) = if p x then Bool.true else any_item p xs

-- ===== src/Query/Json/Laws.antt =====
-- How `get` and `insert` of an object's fields interact.
use boardwalk.Common.{
  some, Str, ◌=s◌, =s_iff, =s_self, if◌then◌else◌, ◌≡◌, refl, ap, arith, Bool-cases, inl, inr,
}
use boardwalk.Query.Json.{Json, Fields, no_fields, field, get, insert}

module _ {N : Type 0} where
  -- Reading after writing, at the same key or another.
  pub get-insert :
      (j k : Str) (v : Json N) (m : Fields N)
      → get j (insert k v m) ≡ (if k =s j then some v else get j m)
  unfolding get insert
  get-insert j k v no_fields = refl
  get-insert j k v (field i w m) =
      ground (arith, =s_iff k j, =s_iff i k, =s_iff i j, get-insert j k v m)

  pub get-insert_self : (k : Str) (v : Json N) (m : Fields N) → get k (insert k v m) ≡ some v
  get-insert_self k v m = simp (get-insert, =s_self)

  -- Writing the value that is there changes nothing.
  pub insert_same : (k : Str) (v : Json N) (m : Fields N) → get k m ≡ some v → insert k v m ≡ m
  unfolding get insert
  insert_same k v no_fields e = cc
  insert_same k v (field i w m) e = elim (Bool-cases (i =s k)) [
    | inl h ↦ rw h (ground (arith, =s_iff i k))
    | inr h ↦ rw h (ap (field i w) (insert_same k v m (ground arith)))
  ]

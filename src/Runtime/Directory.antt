-- ===== src/Runtime/Directory.antt =====
-- runtime/directory.rs: the resources of a node, in the order of their registration, with an index
-- by id. What an entry carries besides its id and kind (its specification, and the handle and task of
-- its actor) is the parameter `Slot`.
pub mod Laws
mod Tests
use boardwalk.Common.{
  ℕ, zero, suc, Bool, true, false, Option, none, some, List, [], ◌∷◌, ◌++◌, Str, codes, str_eq,
  find, put, length, if◌then◌else◌, Result, ok, err,
}

pub record Entry (Slot : Type 0) : Type 0 where
  pub id : Str
  pub kind : Str
  pub slot : Slot

-- The one error of `ResourceError` that the directory makes.
pub data ResourceError : Type 0 where
  internal : Str → ResourceError

pub record ResourceDirectory (Slot : Type 0) : Type 0 where
  pub entries : List (Entry Slot)
  pub by_id : List (Str × ℕ)

module _ {Slot : Type 0} where
  unfoldable pub new : ResourceDirectory Slot
  new = record { entries = []; by_id = [] }

  unfoldable pub len : ResourceDirectory Slot → ℕ
  len d = length d.entries

  unfoldable pub is_empty : ResourceDirectory Slot → Bool
  is_empty d = elim d.entries [ [] ↦ true | e ∷ es ↦ false ]

  -- `entries[i]`, with `none` for the panic of an index that is out of range.
  unfoldable pub get_elem? : List (Entry Slot) → ℕ → Option (Entry Slot)
  get_elem? [] i = none
  get_elem? (e ∷ es) zero = some e
  get_elem? (e ∷ es) (suc i) = get_elem? es i

  -- `Some(None)` is the panic.
  unfoldable pub get_by_id : ResourceDirectory Slot → Str → Option (Option (Entry Slot))
  get_by_id d id = elim (find id d.by_id) [ none ↦ none | some i ↦ some (get_elem? d.entries i) ]

  unfoldable pub contains_id : ResourceDirectory Slot → Str → Bool
  contains_id d id = elim (find id d.by_id) [ none ↦ false | some i ↦ true ]

  unfoldable pub insert :
      ResourceDirectory Slot → Str → Str → Slot → Result ResourceError (ResourceDirectory Slot)
  insert d id kind slot =
      if contains_id d id
      then err (internal (codes "duplicate resource id: " ++ id))
      else ok (record {
        entries = d.entries ++ record { id = id; kind = kind; slot = slot } ∷ [];
        by_id = put id (length d.entries) d.by_id;
      })

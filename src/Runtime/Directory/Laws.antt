-- ===== src/Runtime/Directory/Laws.antt =====
-- The index of a directory leads to the entries, over any run of insertions.
use boardwalk.Common.{
  ℕ, zero, suc, true, false, Option, none, some, List, [], ◌∷◌, ◌++◌, Str, ◌=s◌, =s_iff, str_eq,
  find, put, find-put, length, if◌then◌else◌, Result, ok, err, ◌≡◌, refl, sym, ◌∙◌, subst,
  Bool-cases, inl, inr, eq-of_some,
}
use boardwalk.Runtime.Directory.{
  Entry, ResourceError, ResourceDirectory, get_elem?, get_by_id, contains_id, insert,
}

module _ {Slot : Type 0} where
  get_elem?-append :
      (es fs : List (Entry Slot)) (i : ℕ) (e : Entry Slot)
      → get_elem? es i ≡ some e
      → get_elem? (es ++ fs) i ≡ some e
  unfolding get_elem?
  get_elem?-append [] fs i e h = cc
  get_elem?-append (x ∷ es) fs zero e h = h
  get_elem?-append (x ∷ es) fs (suc i) e h = get_elem?-append es fs i e h

  get_elem?-last :
      (es : List (Entry Slot)) (e : Entry Slot) → get_elem? (es ++ e ∷ []) (length es) ≡ some e
  unfolding get_elem?
  get_elem?-last [] e = refl
  get_elem?-last (x ∷ es) e = get_elem?-last es e

  -- Each id of the index leads to an entry of that id.
  abbrev pub IsIndexed : ResourceDirectory Slot → Type 0
  IsIndexed d =
      (id : Str) (i : ℕ)
      → find id d.by_id ≡ some i
      → (e : Entry Slot) × (get_elem? d.entries i ≡ some e) × (e.id ≡ id)

  insert-IsIndexed :
      (d : ResourceDirectory Slot) (e : Entry Slot)
      → IsIndexed d
      → IsIndexed
          (record { entries = d.entries ++ e ∷ []; by_id = put e.id (length d.entries) d.by_id })
  insert-IsIndexed d e indexed id i h = elim (Bool-cases (e.id =s id)) [
    | inl same ↦
        let found : find id (put e.id (length d.entries) d.by_id) ≡ some (length d.entries) =
          rw same at (find-put id e.id (length d.entries) d.by_id) in
        let here : length d.entries ≡ i = eq-of_some (sym found ∙ h) in
        (
          e,
          subst (λ k. get_elem? (d.entries ++ e ∷ []) k ≡ some e) here (get_elem?-last d.entries e),
          (=s_iff e.id id).0 same,
        )
    | inr other ↦
        let found : find id (put e.id (length d.entries) d.by_id) ≡ find id d.by_id =
          rw other at (find-put id e.id (length d.entries) d.by_id) in
        let (x, at_i, is_id) = indexed id i (sym found ∙ h) in
        (x, get_elem?-append d.entries (e ∷ []) i x at_i, is_id)
  ]

  get_by_id-insert :
      (d : ResourceDirectory Slot) (e : Entry Slot) (other : Str)
      → IsIndexed d
      → get_by_id
          (record { entries = d.entries ++ e ∷ []; by_id = put e.id (length d.entries) d.by_id })
          other
        ≡ (if e.id =s other then some (some e) else get_by_id d other)
  unfolding get_by_id
  get_by_id-insert d e other indexed = elim (Bool-cases (e.id =s other)) [
    | inl same ↦
        let found : find other (put e.id (length d.entries) d.by_id) ≡ some (length d.entries) =
          rw same at (find-put other e.id (length d.entries) d.by_id) in
        rw (get_by_id, found, same, get_elem?-last d.entries e) refl
    | inr diff ↦
        let found : find other (put e.id (length d.entries) d.by_id) ≡ find other d.by_id =
          rw diff at (find-put other e.id (length d.entries) d.by_id) in
        rw (get_by_id, found, diff) (by_index (find other d.by_id) refl)
  ]
    where
      by_index :
          (o : Option ℕ)
          → find other d.by_id ≡ o
          → elim o [ none ↦ none | some i ↦ some (get_elem? (d.entries ++ e ∷ []) i) ]
            ≡ elim o [ none ↦ none | some i ↦ some (get_elem? d.entries i) ]
      by_index none h = refl
      by_index (some i) h =
          let (x, at_i, is_id) = indexed other i h in
          rw (at_i, get_elem?-append d.entries (e ∷ []) i x at_i) refl

  -- What comes of an insertion: a refusal where the id is there; or an indexed directory with one
  -- entry more at the end, where the new id leads to the new entry and any other id where it led
  -- before.
  abbrev pub Inserted :
      ResourceDirectory Slot
      → Str
      → Str
      → Slot
      → Result ResourceError (ResourceDirectory Slot)
      → Type 0
  Inserted d id kind slot (err e) = contains_id d id ≡ true
  Inserted d id kind slot (ok d') =
      (contains_id d id ≡ false)
      × IsIndexed d'
      × (d'.entries ≡ d.entries ++ record { id = id; kind = kind; slot = slot } ∷ [])
      × ((other : Str)
          → get_by_id d' other ≡ (
              if id =s other
              then some (some (record { id = id; kind = kind; slot = slot }))
              else get_by_id d other))

  -- On an indexed directory an insertion is refused exactly where the id is there; any other gives
  -- an indexed directory with the new entry last, where the new id leads to the new entry and each
  -- other id leads where it led before.
  pub insert-Inserted :
      (d : ResourceDirectory Slot) (id kind : Str) (slot : Slot)
      → IsIndexed d
      → Inserted d id kind slot (insert d id kind slot)
  unfolding insert
  insert-Inserted d id kind slot indexed = elim (Bool-cases (contains_id d id)) [
    | inl there ↦ rw (Inserted, insert, there) there
    | inr absent ↦
        let e : Entry Slot = record { id = id; kind = kind; slot = slot } in
        rw (Inserted, insert, absent)
          (
            absent,
            insert-IsIndexed d e indexed,
            refl,
            (λ other. get_by_id-insert d e other indexed),
          )
  ]

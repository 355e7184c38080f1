-- ===== src/Persistence/Identities.antt =====
-- The index of identity keys: each key leads to the one record that has it.
use boardwalk.Common.{
  Bool, true, false, Option, none, some, List, [], ◌∷◌, Str, ◌=s◌, =s_iff, str_eq, find, put,
  delete, find-put, find-put_self, find-delete, if◌then◌else◌, Bool-cases, Option-cases, inl, inr,
  ◌⊎◌, eq-of_some, ◌≡◌, refl, sym, ◌∙◌, ap, subst, arith,
}
use boardwalk.Persistence.{IdentityKey, same_key, same_key_iff, key_eq, ResourceIdentityRecord}
use boardwalk.Persistence.Memory.{
  RepositoryState, taken_by, release, assign, previous_keys, insert_identity,
}

abbrev pub is_among : IdentityKey → List IdentityKey → Bool
is_among key [] = false
is_among key (k ∷ keys) = if same_key k key then true else is_among key keys

find-release :
    (key : IdentityKey) (keys : List IdentityKey) (m : List (IdentityKey × Str))
    → find key (release keys m) ≡ (if is_among key keys then none else find key m)
unfolding release
find-release key [] m = refl
find-release key (k ∷ keys) m =
    find-release key keys (delete k m)
    ∙ if_delete (same_key k key) (is_among key keys) (find-delete key k m)
  where
    if_delete :
        (b c : Bool)
        → find key (delete k m) ≡ (if b then none else find key m)
        → (if c then none else find key (delete k m))
          ≡ (if (if b then true else c) then none else find key m)
    if_delete true true e = refl
    if_delete true false e = e
    if_delete false true e = refl
    if_delete false false e = e

find-assign :
    (key : IdentityKey) (keys : List IdentityKey) (id : Str) (m : List (IdentityKey × Str))
    → find key (assign keys id m) ≡ (if is_among key keys then some id else find key m)
unfolding assign
find-assign key [] id m = refl
find-assign key (k ∷ keys) id m =
    find-assign key keys id (put k id m)
    ∙ if_put (same_key k key) (is_among key keys) (find-put key k id m)
  where
    if_put :
        (b c : Bool)
        → find key (put k id m) ≡ (if b then some id else find key m)
        → (if c then some id else find key (put k id m))
          ≡ (if (if b then true else c) then some id else find key m)
    if_put true true e = refl
    if_put true false e = e
    if_put false true e = refl
    if_put false false e = e

-- A record that is refused has a key of another; one that is accepted has none.
abbrev pub Free : Str → List (IdentityKey × Str) → IdentityKey → Type 0
Free id m key = (owner : Str) → find key m ≡ some owner → owner ≡ id

-- The first key of a list that passes has no owner but the id.
first_free :
    (id : Str) (o rest : Option Str)
    → elim o [
      | none ↦ rest
      | some existing_id ↦ if existing_id =s id then rest else some existing_id
    ]
      ≡ none
    → (rest ≡ none) × ((owner : Str) → o ≡ some owner → owner ≡ id)
first_free id none rest h = (h, λ owner f. ground arith)
first_free id (some x) rest h =
    let same : (x =s id) ≡ true = ground arith in
    ((rw same at h), λ owner f. (sym (eq-of_some f) ∙ (=s_iff x id).0 same))

pub taken_by-none :
    (id : Str) (keys : List IdentityKey) (m : List (IdentityKey × Str)) (key : IdentityKey)
    → taken_by id keys m ≡ none
    → is_among key keys ≡ true
    → Free id m key
unfolding taken_by
taken_by-none id [] m key t h owner f = ground arith
taken_by-none id (k ∷ keys) m key t h owner f =
    let (rest, first) = first_free id (find k m) (taken_by id keys m) t in
    elim (Bool-cases (same_key k key)) [
      | inl same ↦
          first owner (subst (λ x. find x m ≡ some owner) (sym ((same_key_iff k key).0 same)) f)
      | inr other ↦ taken_by-none id keys m key rest (rw other at h) owner f
    ]

first_taken :
    (id owner : Str) (o rest : Option Str)
    → elim o [
      | none ↦ rest
      | some existing_id ↦ if existing_id =s id then rest else some existing_id
    ]
      ≡ some owner
    → (rest ≡ some owner) ⊎ ((o ≡ some owner) × ((owner =s id) ≡ false))
first_taken id owner none rest h = inl h
first_taken id owner (some x) rest h = elim (Bool-cases (x =s id)) [
  | inl same ↦ inl (rw same at h)
  | inr other ↦
      let e : some x ≡ some owner = (rw other at h) in
      inr (e, subst (λ k. (k =s id) ≡ false) (eq-of_some e) other)
]

pub taken_by-some :
    (id owner : Str) (keys : List IdentityKey) (m : List (IdentityKey × Str))
    → taken_by id keys m ≡ some owner
    → (key : IdentityKey) × (is_among key keys ≡ true)
      × (find key m ≡ some owner)
      × ((owner =s id) ≡ false)
unfolding taken_by
taken_by-some id owner [] m t = ground arith
taken_by-some id owner (k ∷ keys) m t =
    by_first (first_taken id owner (find k m) (taken_by id keys m) t)
      (taken_by-some id owner keys m)
  where
    by_first :
        (taken_by id keys m ≡ some owner) ⊎ ((find k m ≡ some owner) × ((owner =s id) ≡ false))
        → (taken_by id keys m ≡ some owner
            → (key : IdentityKey) × (is_among key keys ≡ true)
              × (find key m ≡ some owner)
              × ((owner =s id) ≡ false))
        → (key : IdentityKey) × (is_among key (k ∷ keys) ≡ true)
          × (find key m ≡ some owner)
          × ((owner =s id) ≡ false)
    by_first (inr (here, differs)) more = (k, rw ((same_key_iff k k).1 refl) refl, here, differs)
    by_first (inl later) more =
        let (key, among, at, differs) = more later in (key, if_among key among, at, differs)
      where
        if_among : (key : IdentityKey) → is_among key keys ≡ true → is_among key (k ∷ keys) ≡ true
        if_among key h = if_true (same_key k key) h
          where
            if_true : (b : Bool) {c : Bool} → c ≡ true → (if b then true else c) ≡ true
            if_true true e = refl
            if_true false e = e

module _ {Snapshot : Type 0} where
  -- Every assigned key is a key of the record it leads to, and every record has its keys assigned.
  pub record IsIndexed (s : RepositoryState Snapshot) : Type 0 where
    pub owned :
        (key : IdentityKey) (id : Str)
        → find key s.identity_keys ≡ some id
        → (r : ResourceIdentityRecord) × (find id s.identities ≡ some r)
          × (is_among key r.identity_keys ≡ true)
    pub named : (id : Str) (r : ResourceIdentityRecord) → find id s.identities ≡ some r → r.id ≡ id
    pub assigned :
        (id : Str) (r : ResourceIdentityRecord) (key : IdentityKey)
        → find id s.identities ≡ some r
        → is_among key r.identity_keys ≡ true
        → find key s.identity_keys ≡ some id

  -- What a key leads to after an insertion.
  pub find-insert_identity :
      (r : ResourceIdentityRecord) (s : RepositoryState Snapshot) (key : IdentityKey)
      → find key (insert_identity r s).identity_keys ≡ (
          if is_among key r.identity_keys
          then some r.id
          else if is_among key (previous_keys r.id s.identities)
          then none
          else find key s.identity_keys)
  unfolding insert_identity
  find-insert_identity r s key =
      find-assign key r.identity_keys r.id
        (release (previous_keys r.id s.identities) s.identity_keys)
      ∙ ap (λ o. if is_among key r.identity_keys then some r.id else o)
          (find-release key (previous_keys r.id s.identities) s.identity_keys)

  pub find-identities_self :
      (r : ResourceIdentityRecord) (s : RepositoryState Snapshot)
      → find r.id (insert_identity r s).identities ≡ some r
  unfolding insert_identity
  find-identities_self r s = find-put_self r.id r s.identities

  pub find-identities_other :
      (r : ResourceIdentityRecord) (s : RepositoryState Snapshot) (id : Str)
      → (r.id =s id) ≡ false
      → find id (insert_identity r s).identities ≡ find id s.identities
  unfolding insert_identity
  find-identities_other r s id ne = find-put id r.id r s.identities ∙ rw ne refl

  pub previous_of :
      (s : RepositoryState Snapshot) (id : Str) (x : ResourceIdentityRecord)
      → find id s.identities ≡ some x
      → previous_keys id s.identities ≡ x.identity_keys
  unfolding previous_keys
  previous_of s id x hit = rw (hit, previous_keys) refl

  -- A key of the record that was there before.
  pub previous-assigned :
      (s : RepositoryState Snapshot) (id : Str) (key : IdentityKey)
      → IsIndexed s
      → is_among key (previous_keys id s.identities) ≡ true
      → find key s.identity_keys ≡ some id
  unfolding previous_keys
  previous-assigned s id key h e = elim (Option-cases (find id s.identities)) [
    | inl miss ↦ (let none_left = (rw (previous_keys, miss) at e) in ground arith)
    | inr (r, hit) ↦ h.assigned id r key hit (rw (previous_keys, hit) at e)
  ]

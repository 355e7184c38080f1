-- ===== src/Persistence/Lookups.antt =====
-- What a put does to the lookups by key, and runs of puts.
use boardwalk.Common.{
  true, false, Option, none, some, List, [], ◌∷◌, ◌++◌, Str, codes, ◌=s◌, =s_iff, str_eq, find,
  if◌then◌else◌, ok, err, Bool-cases, Option-cases, inl, inr, ◌⊎◌, ◌≡◌, ◌≢◌, refl, sym, ◌∙◌, ap,
  subst, arith,
}
use boardwalk.Persistence.{IdentityKey, key_eq, ResourceIdentityRecord}
use boardwalk.Persistence.Memory.{
  RepositoryState, new, taken_by, previous_keys, insert_identity, find_by_identity_key,
}
use boardwalk.Persistence.Identities.{
  taken_by-some, is_among, IsIndexed, find-identities_self, find-identities_other, previous_of,
  previous-assigned,
}
use boardwalk.Persistence.{conflict, internal, StorageError}
use boardwalk.Persistence.Memory
use boardwalk.Persistence.Stores.{Lock, lock_state, writing, put_identity}
use boardwalk.Persistence.Laws.{Owner, Owner-of, insert-IsIndexed}

-- The lookup by key after an insertion, from the lookup before it.
abbrev pub looked_up :
    ResourceIdentityRecord
    → IdentityKey
    → Option ResourceIdentityRecord
    → Option ResourceIdentityRecord
looked_up r key before =
    if is_among key r.identity_keys
    then some r
    else elim before [ none ↦ none | some x ↦ if x.id =s r.id then none else some x ]

refused : Str → StorageError
refused owner = conflict (codes "identity key is already assigned to `" ++ owner ++ codes "`")

module _ {Snapshot : Type 0} where
  through_owner : RepositoryState Snapshot → Option Str → Option ResourceIdentityRecord
  through_owner s o = elim o [ none ↦ none | some id ↦ find id s.identities ]

  untouched-looked_up :
      (r : ResourceIdentityRecord) (s : RepositoryState Snapshot) (key : IdentityKey)
      (o : Option Str)
      → IsIndexed s
      → find key s.identity_keys ≡ o
      → is_among key (previous_keys r.id s.identities) ≡ false
      → through_owner (insert_identity r s) o
        ≡ elim (through_owner s o) [ none ↦ none | some x ↦ if x.id =s r.id then none else some x ]
  unfolding through_owner
  untouched-looked_up r s key none h e apart = refl
  untouched-looked_up r s key (some id) h e apart =
      let (x, at, has) = h.owned key id e in
      let named = h.named id x at in
      elim (Bool-cases (r.id =s id)) [
        | inl same ↦
            let was : find r.id s.identities ≡ some x =
              subst (λ i. find i s.identities ≡ some x) (sym ((=s_iff r.id id).0 same)) at in
            let gone : is_among key x.identity_keys ≡ false =
              ap (is_among key) (sym (previous_of s r.id x was)) ∙ apart in
            ground arith
        | inr other ↦
            let differs : (x.id =s r.id) ≡ false =
              ground (arith, =s_iff x.id r.id, =s_iff r.id id) in
            find-identities_other r s id other ∙ rw (at, differs) refl
      ]

  pub find_by-insert :
      (r : ResourceIdentityRecord) (s : RepositoryState Snapshot) (key : IdentityKey)
      → IsIndexed s
      → find_by_identity_key key (insert_identity r s)
        ≡ looked_up r key (find_by_identity_key key s)
  unfolding find_by_identity_key through_owner
  find_by-insert r s key h =
      by_owner (find key (insert_identity r s).identity_keys) (Owner-of r s key)
    where
      from_previous :
          is_among key (previous_keys r.id s.identities) ≡ true
          → none ≡ elim (through_owner s (find key s.identity_keys)) [
            | none ↦ none
            | some x ↦ if x.id =s r.id then none else some x
          ]
      from_previous before =
          let assigned = previous-assigned s r.id key h before in
          let (x, at, has) = h.owned key r.id assigned in
          let named : (x.id =s r.id) ≡ true = (=s_iff x.id r.id).1 (h.named r.id x at) in
          rw (assigned, at, named) refl

      by_owner :
          (o : Option Str)
          → Owner r s key o
          → through_owner (insert_identity r s) o
            ≡ looked_up r key (through_owner s (find key s.identity_keys))
      by_owner _ (Owner.mine own) = rw own (find-identities_self r s)
      by_owner _ (Owner.given_up own before) = rw own (from_previous before)
      by_owner _ (Owner.untouched own apart) =
          rw own (untouched-looked_up r s key (find key s.identity_keys) h refl apart)

  pub new-IsIndexed : IsIndexed (new {Snapshot = Snapshot})
  unfolding new find
  new-IsIndexed = record {
    owned = λ key id e. ground arith;
    named = λ id r e. ground arith;
    assigned = λ id r key e has. ground arith;
  }

  -- Records put one after another, those that are refused included.
  abbrev pub puts : List ResourceIdentityRecord → Lock Snapshot → Lock Snapshot
  puts [] m = m
  puts (r ∷ rs) m = puts rs (put_identity m r).0

  pub locked : (m : Lock Snapshot) → m.is_poisoned ≡ false → lock_state m ≡ ok m.contents
  unfolding lock_state
  locked m e =
      ap (λ b. if b then err (internal (codes "repository lock poisoned")) else ok m.contents) e

  -- What a put does, by the owner of a key that is taken.
  put_identity_of :
      (m : Lock Snapshot) (r : ResourceIdentityRecord) (o : Option Str)
      → m.is_poisoned ≡ false
      → taken_by r.id r.identity_keys m.contents.identity_keys ≡ o
      → put_identity m r ≡ elim o [
        | none ↦ (record m { contents = insert_identity r m.contents }, ok tt)
        | some owner ↦ (m, err (refused owner))
      ]
  unfolding put_identity writing Memory.put_identity refused
  put_identity_of m r none good free = rw (locked m good, writing, free, Memory.put_identity) refl
  put_identity_of m r (some owner) good taken =
      rw (locked m good, writing, taken, Memory.put_identity) refl

  put_identity_poisoned :
      (m : Lock Snapshot) (r : ResourceIdentityRecord)
      → m.is_poisoned ≡ true
      → (put_identity m r).0 ≡ m
  unfolding put_identity writing lock_state
  put_identity_poisoned m r bad =
      let shut : lock_state m ≡ err (internal (codes "repository lock poisoned")) =
        ap (λ b. if b then err (internal (codes "repository lock poisoned")) else ok m.contents)
          bad in
      rw (shut, writing) refl

  put-IsIndexed :
      (m : Lock Snapshot) (r : ResourceIdentityRecord)
      → IsIndexed m.contents
      → IsIndexed (put_identity m r).0.contents
  put-IsIndexed m r h = elim (Bool-cases m.is_poisoned) [
    | inl bad ↦ subst (λ k. IsIndexed k.contents) (sym (put_identity_poisoned m r bad)) h
    | inr good ↦ elim (Option-cases (taken_by r.id r.identity_keys m.contents.identity_keys)) [
      | inl free ↦
          subst (λ k. IsIndexed k.0.contents) (sym (put_identity_of m r none good free))
            (insert-IsIndexed r m.contents free h)
      | inr (owner, taken) ↦
          subst (λ k. IsIndexed k.0.contents) (sym (put_identity_of m r (some owner) good taken)) h
    ]
  ]

  -- Whatever records are put into the empty store, refused or not, at the end each assigned key leads
  -- to a record that has it, each record stands under its id, and each key of a record leads to it.
  pub puts-IsIndexed :
      (rs : List ResourceIdentityRecord) (m : Lock Snapshot)
      → IsIndexed m.contents
      → IsIndexed (puts rs m).contents
  puts-IsIndexed [] m h = h
  puts-IsIndexed (r ∷ rs) m h = puts-IsIndexed rs (put_identity m r).0 (put-IsIndexed m r h)

  -- The answer of a put while the lock is not poisoned: accepted, with the lookups by key that come
  -- of it, or refused for a key that leads to another record.
  abbrev pub Accepted : Lock Snapshot → ResourceIdentityRecord → Type 0
  Accepted m r =
      (put_identity m r ≡ (record m { contents = insert_identity r m.contents }, ok tt))
      × IsIndexed (put_identity m r).0.contents
      × ((key : IdentityKey)
          → find_by_identity_key key (put_identity m r).0.contents
            ≡ looked_up r key (find_by_identity_key key m.contents))

  abbrev pub Refused : Lock Snapshot → ResourceIdentityRecord → Type 0
  Refused m r =
      (key : IdentityKey) × (x : ResourceIdentityRecord) × (is_among key r.identity_keys ≡ true)
      × (find_by_identity_key key m.contents ≡ some x)
      × (x.id ≢ r.id)
      × (put_identity m r ≡ (
        m,
        err (conflict (codes "identity key is already assigned to `" ++ x.id ++ codes "`")),
      ))

  by_owner :
      (s : RepositoryState Snapshot) (key : IdentityKey) (id : Str) (x : ResourceIdentityRecord)
      → find key s.identity_keys ≡ some id
      → find id s.identities ≡ some x
      → find_by_identity_key key s ≡ some x
  unfolding find_by_identity_key
  by_owner s key id x at found = rw (at, find_by_identity_key) found

  -- With an indexed store whose lock is not poisoned, a put is either accepted or refused. Accepted,
  -- it leaves an indexed store where each key of the record leads to the record, each other key of
  -- the record that had its id leads nowhere, and every other key leads where it led. Refused, it
  -- names the id of another record, which has one of the keys, and changes nothing.
  pub put_identity_cases :
      (m : Lock Snapshot) (r : ResourceIdentityRecord)
      → m.is_poisoned ≡ false
      → IsIndexed m.contents
      → Accepted m r ⊎ Refused m r
  unfolding refused
  put_identity_cases m r good h =
      elim (Option-cases (taken_by r.id r.identity_keys m.contents.identity_keys)) [
        | inl free ↦
            let e = put_identity_of m r none good free in
            inl (
              e,
              put-IsIndexed m r h,
              λ key.
                  (ap (λ k. find_by_identity_key key k.0.contents) e
                    ∙ find_by-insert r m.contents key h),
            )
        | inr (owner, taken) ↦
            let (key, among, at, differs) =
              taken_by-some r.id owner r.identity_keys m.contents.identity_keys taken in
            let (x, found, has) = h.owned key owner at in
            let named = h.named owner x found in
            inr (
              key,
              x,
              among,
              by_owner m.contents key owner x at found,
              λ e. ground (arith, =s_iff owner r.id),
              put_identity_of m r (some owner) good taken
                  ∙ ap (λ k. (m, err (refused k))) (sym named),
            )
      ]

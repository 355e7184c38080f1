-- ===== src/Persistence/Laws.antt =====
-- Every run of the identity store keeps its index, and what a put does to the lookups by key.
use boardwalk.Common.{
  true, false, Option, none, some, Str, ◌=s◌, =s_iff, str_eq, find, Bool-cases, inl, inr,
  eq-of_some, ◌≡◌, refl, sym, ◌∙◌, ap, subst, arith,
}
use boardwalk.Persistence.{IdentityKey, key_eq, ResourceIdentityRecord}
use boardwalk.Persistence.Memory.{RepositoryState, taken_by, previous_keys, insert_identity}
use boardwalk.Persistence.Identities.{
  is_among, taken_by-none, IsIndexed, find-insert_identity, find-identities_self,
  find-identities_other, previous_of, previous-assigned,
}

module _ {Snapshot : Type 0} where
  -- What an insertion makes of the owner of a key, as one of three cases.
  pub data Owner (r : ResourceIdentityRecord) (s : RepositoryState Snapshot) (key : IdentityKey)
      : Option Str → Type 0 where
    mine : is_among key r.identity_keys ≡ true → Owner r s key (some r.id)
    given_up :
        is_among key r.identity_keys ≡ false
        → is_among key (previous_keys r.id s.identities) ≡ true
        → Owner r s key none
    untouched :
        is_among key r.identity_keys ≡ false
        → is_among key (previous_keys r.id s.identities) ≡ false
        → Owner r s key (find key s.identity_keys)

  pub Owner-of :
      (r : ResourceIdentityRecord) (s : RepositoryState Snapshot) (key : IdentityKey)
      → Owner r s key (find key (insert_identity r s).identity_keys)
  Owner-of r s key =
      subst (Owner r s key) (sym (find-insert_identity r s key))
        (elim (Bool-cases (is_among key r.identity_keys)) [
          | inl mine' ↦ rw mine' (Owner.mine mine')
          | inr not_mine ↦ elim (Bool-cases (is_among key (previous_keys r.id s.identities))) [
            | inl before ↦ rw (not_mine, before) (Owner.given_up not_mine before)
            | inr apart ↦ rw (not_mine, apart) (Owner.untouched not_mine apart)
          ]
        ])

  owned_by :
      (r : ResourceIdentityRecord) (s : RepositoryState Snapshot) (key : IdentityKey) (id : Str)
      (o : Option Str)
      → IsIndexed s
      → Owner r s key o
      → o ≡ some id
      → (x : ResourceIdentityRecord) × (find id (insert_identity r s).identities ≡ some x)
        × (is_among key x.identity_keys ≡ true)
  owned_by r s key id _ h (Owner.mine own) e = (
    r,
    subst (λ i. find i (insert_identity r s).identities ≡ some r) (eq-of_some e)
        (find-identities_self r s),
    own,
  )
  owned_by r s key id _ h (Owner.given_up own before) e = ground arith
  owned_by r s key id _ h (Owner.untouched own apart) e = elim (Bool-cases (r.id =s id)) [
    | inl same ↦
        let (x, at, has) = h.owned key id e in
        let was : find r.id s.identities ≡ some x =
          subst (λ i. find i s.identities ≡ some x) (sym ((=s_iff r.id id).0 same)) at in
        let gone : is_among key x.identity_keys ≡ false =
          ap (is_among key) (sym (previous_of s r.id x was)) ∙ apart in
        ground arith
    | inr other ↦
        let (x, at, has) = h.owned key id e in (x, find-identities_other r s id other ∙ at, has)
  ]

  assigned_to :
      (r x : ResourceIdentityRecord) (s : RepositoryState Snapshot) (id : Str) (key : IdentityKey)
      (o : Option Str)
      → IsIndexed s
      → taken_by r.id r.identity_keys s.identity_keys ≡ none
      → find id (insert_identity r s).identities ≡ some x
      → is_among key x.identity_keys ≡ true
      → Owner r s key o
      → o ≡ some id
  assigned_to r x s id key o h free at has own = elim (Bool-cases (r.id =s id)) [
    | inl same ↦
        let is_id : r.id ≡ id = (=s_iff r.id id).0 same in
        let is_r : r ≡ x = eq-of_some (
          sym (find-identities_self r s)
          ∙ subst (λ i. find i (insert_identity r s).identities ≡ some x) (sym is_id) at) in
        mine_only o own (subst (λ y. is_among key y.identity_keys ≡ true) (sym is_r) has)
        ∙ ap some is_id
    | inr other ↦
        let was : find id s.identities ≡ some x = sym (find-identities_other r s id other) ∙ at in
        let assigned = h.assigned id x key was has in not_mine other assigned o own
  ]
    where
      mine_only :
          (o : Option Str) → Owner r s key o → is_among key r.identity_keys ≡ true → o ≡ some r.id
      mine_only _ (Owner.mine own) e = refl
      mine_only _ (Owner.given_up own before) e = ground arith
      mine_only _ (Owner.untouched own apart) e = ground arith

      not_mine :
          (r.id =s id) ≡ false
          → find key s.identity_keys ≡ some id
          → (o : Option Str) → Owner r s key o
          → o ≡ some id
      not_mine other assigned _ (Owner.mine own) =
          let same = taken_by-none r.id r.identity_keys s.identity_keys key free own id assigned in
          ground (arith, =s_iff r.id id)
      not_mine other assigned _ (Owner.given_up own before) =
          let same = eq-of_some (sym (previous-assigned s r.id key h before) ∙ assigned) in
          ground (arith, =s_iff r.id id)
      not_mine other assigned _ (Owner.untouched own apart) = assigned

  named_by :
      (r x : ResourceIdentityRecord) (s : RepositoryState Snapshot) (id : Str)
      → IsIndexed s
      → find id (insert_identity r s).identities ≡ some x
      → x.id ≡ id
  named_by r x s id h at = elim (Bool-cases (r.id =s id)) [
    | inl same ↦
        let is_id : r.id ≡ id = (=s_iff r.id id).0 same in
        let is_r : r ≡ x = eq-of_some (
          sym (find-identities_self r s)
          ∙ subst (λ i. find i (insert_identity r s).identities ≡ some x) (sym is_id) at) in
        subst (λ y. y.id ≡ id) is_r is_id
    | inr other ↦ h.named id x (sym (find-identities_other r s id other) ∙ at)
  ]

  pub insert-IsIndexed :
      (r : ResourceIdentityRecord) (s : RepositoryState Snapshot)
      → taken_by r.id r.identity_keys s.identity_keys ≡ none
      → IsIndexed s
      → IsIndexed (insert_identity r s)
  insert-IsIndexed r s free h = record {
    owned = λ key id e.
        owned_by r s key id (find key (insert_identity r s).identity_keys) h (Owner-of r s key) e;
    named = λ id x at. named_by r x s id h at;
    assigned = λ id x key at has.
        assigned_to r x s id key (find key (insert_identity r s).identity_keys) h free at has
          (Owner-of r s key);
  }

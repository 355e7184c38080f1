-- ===== src/Persistence/Nodes.antt =====
-- The record of the local node: the one that was put last, or, in a store written before the
-- reserved key was, the one that was updated last.
use boardwalk.Common.{
  Bool, true, false, not, Option, none, some, List, [], ◌∷◌, Str, ◌=s◌, =s_iff, str_eq, find, put,
  find-put, find-put_self, keep, All, Any, if◌then◌else◌, Bool-cases, inl, inr, ◌≡◌, ◌≢◌, refl, sym,
  ◌∙◌, ap, subst, arith,
}
use boardwalk.Persistence.{ℤ, pos, negsuc, leb_int, NodeConfigRecord}
use boardwalk.Persistence.Memory.{
  RepositoryState, local_node_sentinel_key, put_node, get_node, latest_of, get_local,
}

leb_int_total : (a b : ℤ) → leb_int a b ≡ false → leb_int b a ≡ true
leb_int_total (pos a) (pos b) h = ground arith
leb_int_total (pos a) (negsuc b) h = refl
leb_int_total (negsuc a) (pos b) h = ground arith
leb_int_total (negsuc a) (negsuc b) h = ground arith

leb_int_self : (a : ℤ) → leb_int a a ≡ true
leb_int_self (pos a) = ground arith
leb_int_self (negsuc a) = ground arith

leb_int_trans : (a b c : ℤ) → leb_int a b ≡ true → leb_int b c ≡ true → leb_int a c ≡ true
leb_int_trans (pos a) (pos b) (pos c) h k = ground arith
leb_int_trans (pos a) (pos b) (negsuc c) h k = ground arith
leb_int_trans (pos a) (negsuc b) c h k = ground arith
leb_int_trans (negsuc a) (pos b) (pos c) h k = refl
leb_int_trans (negsuc a) (pos b) (negsuc c) h k = ground arith
leb_int_trans (negsuc a) (negsuc b) (pos c) h k = refl
leb_int_trans (negsuc a) (negsuc b) (negsuc c) h k = ground arith

abbrev pub Rows : Type 0
Rows = List (Str × NodeConfigRecord)

-- The record is one of the rows, and no row was updated after it.
abbrev pub IsLatest : Rows → NodeConfigRecord → Type 0
IsLatest rows best =
    Any (λ p. p.1 ≡ best) rows × All (λ p. leb_int p.1.updated_ms best.updated_ms ≡ true) rows

-- The same for what was looked up: nothing only if there is no row.
abbrev pub IsLatestOf : Rows → Option NodeConfigRecord → Type 0
IsLatestOf rows none = rows ≡ []
IsLatestOf rows (some best) = IsLatest rows best

All-later :
    (rows : Rows) (a b : ℤ)
    → leb_int a b ≡ true
    → All (λ p. leb_int p.1.updated_ms a ≡ true) rows
    → All (λ p. leb_int p.1.updated_ms b ≡ true) rows
All-later [] a b h k = tt
All-later (p ∷ rows) a b h (e, k) = (leb_int_trans p.1.updated_ms a b e h, All-later rows a b h k)

IsLatest-next :
    (key : Str) (r : NodeConfigRecord) (rows : Rows) (o : Option NodeConfigRecord)
    → IsLatestOf rows o
    → IsLatestOf ((key, r) ∷ rows) (elim o [
      | none ↦ some r
      | some best ↦ if leb_int r.updated_ms best.updated_ms then some best else some r
    ])
IsLatest-next key r rows none h =
    subst (λ k. IsLatest ((key, r) ∷ k) r) (sym h) (inl refl, (leb_int_self r.updated_ms, tt))
IsLatest-next key r rows (some best) (has, all) =
    elim (Bool-cases (leb_int r.updated_ms best.updated_ms)) [
      | inl le ↦ rw le (inr has, (le, all))
      | inr gt ↦
          let later = leb_int_total r.updated_ms best.updated_ms gt in
          rw gt (
            inl refl,
            (leb_int_self r.updated_ms, All-later rows best.updated_ms r.updated_ms later all),
          )
    ]

latest_of-IsLatestOf : (rows : Rows) → IsLatestOf rows (latest_of rows)
unfolding latest_of
latest_of-IsLatestOf [] = refl
latest_of-IsLatestOf ((key, r) ∷ rows) =
    IsLatest-next key r rows (latest_of rows) (latest_of-IsLatestOf rows)

-- Without a row at the reserved key, that key drops nothing.
keep_of_absent :
    (rows : Rows) (sentinel : Str)
    → find sentinel rows ≡ none
    → keep (λ p. not (p.0 =s sentinel)) rows ≡ rows
unfolding find
keep_of_absent [] sentinel h = refl
keep_of_absent ((key, r) ∷ rows) sentinel h = elim (Bool-cases (key =s sentinel)) [
  | inl same ↦ (let found : some r ≡ none = (rw same at h) in ground arith)
  | inr other ↦ rw other (ap (◌∷◌ (key, r)) (keep_of_absent rows sentinel (rw other at h)))
]

-- The last of the records with a node id, and the last of all.
abbrev pub last_with :
    Str → List NodeConfigRecord → Option NodeConfigRecord → Option NodeConfigRecord
last_with id [] before = before
last_with id (r ∷ rs) before = last_with id rs (if r.node_id =s id then some r else before)

abbrev pub last_of : NodeConfigRecord → List NodeConfigRecord → NodeConfigRecord
last_of r [] = r
last_of r (q ∷ rs) = last_of q rs

module _ {Snapshot : Type 0} where
  -- Without a row at the reserved key, the local node is the row that was updated last, and there is
  -- none only in a store with no row.
  pub get_local-IsLatestOf :
      (s : RepositoryState Snapshot)
      → find local_node_sentinel_key s.node_configs ≡ none
      → IsLatestOf s.node_configs (get_local s)
  unfolding get_local
  get_local-IsLatestOf s absent =
      rw (absent, get_local)
        (subst (λ rows. IsLatestOf s.node_configs (latest_of rows))
          (sym (keep_of_absent s.node_configs local_node_sentinel_key absent))
          (latest_of-IsLatestOf s.node_configs))

  -- Put one after another.
  abbrev pub put_nodes : List NodeConfigRecord → RepositoryState Snapshot → RepositoryState Snapshot
  put_nodes [] s = s
  put_nodes (r ∷ rs) s = put_nodes rs (put_node r s)

  find-put_node :
      (r : NodeConfigRecord) (s : RepositoryState Snapshot) (id : Str)
      → id ≢ local_node_sentinel_key
      → get_node id (put_node r s) ≡ (if r.node_id =s id then some r else get_node id s)
  unfolding get_node put_node
  find-put_node r s id ne =
      let apart : (local_node_sentinel_key =s id) ≡ false =
        ground (arith, =s_iff local_node_sentinel_key id) in
      find-put id r.node_id r (put local_node_sentinel_key r s.node_configs)
      ∙ ap (λ o. if r.node_id =s id then some r else o)
          (find-put id local_node_sentinel_key r s.node_configs ∙ rw apart refl)

  find-put_local :
      (r : NodeConfigRecord) (s : RepositoryState Snapshot)
      → find local_node_sentinel_key (put_node r s).node_configs ≡ some r
  unfolding put_node
  find-put_local r s =
      find-put local_node_sentinel_key r.node_id r (put local_node_sentinel_key r s.node_configs)
      ∙ if_same (r.node_id =s local_node_sentinel_key)
          (find-put_self local_node_sentinel_key r s.node_configs)
    where
      if_same :
          (b : Bool) {o : Option NodeConfigRecord} → o ≡ some r → (if b then some r else o) ≡ some r
      if_same true e = refl
      if_same false e = e

  -- After any puts, the local node is the record that was put last, whenever it was updated, and
  -- every node id but the reserved key leads to the record that was put last with that id.
  pub get_local-put_nodes :
      (rs : List NodeConfigRecord) (r : NodeConfigRecord) (s : RepositoryState Snapshot) (id : Str)
      → id ≢ local_node_sentinel_key
      → (get_local (put_nodes (r ∷ rs) s) ≡ some (last_of r rs))
        × (get_node id (put_nodes (r ∷ rs) s) ≡ last_with id (r ∷ rs) (get_node id s))
  unfolding get_local
  get_local-put_nodes [] r s id ne =
      ((rw (find-put_local r s, get_local) refl), find-put_node r s id ne)
  get_local-put_nodes (q ∷ rs) r s id ne =
      let (a, b) = get_local-put_nodes rs q (put_node r s) id ne in
      (a, b ∙ ap (last_with id (q ∷ rs)) (find-put_node r s id ne))

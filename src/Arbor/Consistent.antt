-- ===== src/Arbor/Consistent.antt =====
-- src/activations/arbor: the count of a tree is the sum of the counts of its owners.
use mneme_substrate.Base.{
  ℕ, String, Bool, true, false, ◌||◌, Option, none, some, List, [], ◌∷◌, any, map, if◌then◌else◌,
  ◌==◌, ◌≡◌, refl, sym, ap, ◌∙◌, subst, arith, inl, inr, Bool-cases, Option-cases, ==_iff, ==_refl,
  Result, ok, err,
}
use mneme_substrate.Base.Int.{ℤ, pos, ◌+ℤ◌, ◌-ℤ◌, ltb_ℤ, is_zero, add_zero}
use mneme_substrate.Base.Json.{Value}
use mneme_substrate.Arbor.Types.{
  TreeId, NodeId, ArborError, TreeRow, RefRow, NodeRow, ArborStorage, has_tree, has_node, is_ref,
  is_archived, storage_error, invalid_state, text, external,
}
use mneme_substrate.Arbor.Trees.{
  find_tree, update_tree, get_refs, tree_create_with_id, tree_update_metadata, set_metadata,
  tree_claim, claim_ref, reactivate, count_more, fetch_count, commit, tree_release, release_ref,
  count_less, schedule, schedule_unused, find_ref, archive, cleanup_scheduled_trees, new_tree,
  new_ref, insert_tree, claim_live, count_or_error, released, claim_rows, release_rows,
  release_enough,
}
use mneme_substrate.Arbor.Nodes.{
  node_create_text, node_create_external, node_create_external_ephemeral, create_node, active_row,
  ephemeral_row,
}
use mneme_substrate.Arbor.Service.{
  Call, handle, serve, create, update_metadata, claim, release, add_text, add_external,
  add_ephemeral, cleanup,
}
use mneme_substrate.Arbor.Counts.{
  total, get_refs-total, recorded, count_in, total-claim, total-release, recorded-update,
  recorded-change, find_tree-update,
}
use mneme_substrate.Arbor.Untouched.{rows_of, create_node-rows}

abbrev pub Agrees : List TreeRow × List RefRow → Type 0
Agrees (trees, refs) = (id : TreeId) → recorded id trees ≡ total id refs

-- The count in a tree's row is the one that `get_tree_refs` sums, and no reference is counted
-- for an id that has no row.
abbrev pub IsConsistent : ArborStorage → Type 0
IsConsistent s = (id : TreeId) → recorded id s.trees ≡ (get_refs id s.tree_refs).ref_count

pub to_agree : (s : ArborStorage) → IsConsistent s → Agrees (rows_of s)
to_agree s h id = h id ∙ get_refs-total id s.tree_refs

pub of_agree : (s : ArborStorage) → Agrees (rows_of s) → IsConsistent s
of_agree s h id = h id ∙ sym (get_refs-total id s.tree_refs)

pub absent :
    (id : TreeId) (ts : List TreeRow)
    → any (λ (t : TreeRow). t.id == id) ts ≡ false
    → find_tree id ts ≡ none
unfolding find_tree
absent id [] eq = refl
absent id (t ∷ ts) eq = ground (arith, absent id ts, eq)

module _ (trees : List TreeRow) (refs : List RefRow) (h : Agrees (trees, refs)) where
  Agrees-update :
      (id : TreeId) (f : TreeRow → TreeRow)
      → ((t : TreeRow) → (f t).id ≡ t.id)
      → ((t : TreeRow) → (f t).ref_count ≡ t.ref_count)
      → Agrees (update_tree id f trees, refs)
  Agrees-update id f same_id same j = recorded-update j id f trees same_id same ∙ h j

  Agrees-create :
      (id : TreeId) (root : NodeId) (metadata : Option Value) (owner : String) (now : ℕ)
      → any (λ (t : TreeRow). t.id == id) trees ≡ false
      → Agrees (new_tree id root metadata now ∷ trees, new_ref id owner (pos 1) now ∷ refs)
  unfolding find_tree total
  Agrees-create id root metadata owner now fresh j = elim (Bool-cases (id == j)) [
    | inl same ↦
        let at : recorded j trees ≡ pos 0 =
          ap count_in (
            subst (λ k. find_tree k trees ≡ none) ((==_iff id j).0 same) (absent id trees fresh)) in
        simp (same, sym (h j) ∙ at) (sym (add_zero (pos 1)))
    | inr other ↦ simp (other) (h j)
  ]

  Agrees-change :
      (id : TreeId) (f : TreeRow → TreeRow) (g : ℤ → ℤ) (t : TreeRow) (refs' : List RefRow)
      → ((u : TreeRow) → (f u).id ≡ u.id)
      → ((u : TreeRow) → (f u).ref_count ≡ g u.ref_count)
      → find_tree id trees ≡ some t
      → ((j : TreeId) → total j refs' ≡ (if id == j then g (total j refs) else total j refs))
      → Agrees (update_tree id f trees, refs')
  Agrees-change id f g t refs' same_id change eq sums j =
      recorded-change j id f trees same_id g t change eq
      ∙ ap (λ n. if id == j then g n else n) (h j)
      ∙ sym (sums j)

Agrees-archive :
    (now : ℕ) (trees : List TreeRow) (j : TreeId)
    → recorded j (map (archive now) trees) ≡ recorded j trees
unfolding find_tree
Agrees-archive now [] j = refl
Agrees-archive now (t ∷ ts) j = ground (arith, Agrees-archive now ts j)

-- A transaction leaves what it wrote, or what was there.
commit-Agrees :
    {A : Type 0} (r : Result ArborError A) (new old : ArborStorage)
    → Agrees (rows_of new)
    → Agrees (rows_of old)
    → Agrees (rows_of (commit r new old).1)
commit-Agrees (ok a) new old h k = h
commit-Agrees (err e) new old h k = k

if-Agrees :
    {A : Type 0} (b : Bool) (x y : Result ArborError A × ArborStorage)
    → (b ≡ true → Agrees (rows_of x.1))
    → (b ≡ false → Agrees (rows_of y.1))
    → Agrees (rows_of (if b then x else y).1)
if-Agrees true x y h k = h refl
if-Agrees false x y h k = k refl

pub left_false : (a b c : Bool) → (a || b || c) ≡ false → a ≡ false
left_false true b c eq = cc eq
left_false false b c eq = refl

pub reactivate_id : (now : ℕ) (t : TreeRow) → (reactivate now t).id ≡ t.id
reactivate_id now t = ground arith

pub reactivate_count : (now : ℕ) (t : TreeRow) → (reactivate now t).ref_count ≡ t.ref_count
reactivate_count now t = ground arith

pub set_metadata_id :
    (metadata : Value) (now : ℕ) (t : TreeRow) → (set_metadata metadata now t).id ≡ t.id
set_metadata_id metadata now t = ground arith

set_metadata_count :
    (metadata : Value) (now : ℕ) (t : TreeRow)
    → (set_metadata metadata now t).ref_count ≡ t.ref_count
set_metadata_count metadata now t = ground arith

pub found-update :
    (id : TreeId) (f : TreeRow → TreeRow) (ts : List TreeRow) (t : TreeRow)
    → ((u : TreeRow) → (f u).id ≡ u.id)
    → find_tree id ts ≡ some t
    → find_tree id (update_tree id f ts) ≡ some (f t)
found-update id f ts t same_id eq = find_tree-update id id f ts same_id ∙ simp (==_refl id, eq) refl

pub missing-update :
    (id : TreeId) (f : TreeRow → TreeRow) (ts : List TreeRow)
    → ((u : TreeRow) → (f u).id ≡ u.id)
    → find_tree id ts ≡ none
    → find_tree id (update_tree id f ts) ≡ none
missing-update id f ts same_id gone =
    find_tree-update id id f ts same_id ∙ simp (==_refl id, gone) refl

claim-Agrees :
    (id : TreeId) (owner : String) (n : ℤ) (s : ArborStorage)
    → Agrees (rows_of s)
    → Agrees (rows_of (tree_claim id owner n s).1)
unfolding tree_claim
claim-Agrees id owner n s h = elim (Option-cases (find_tree id s.trees)) [
  | inl eq ↦ rw eq h
  | inr (t, eq) ↦
      let live = update_tree id (reactivate s.now) s.trees in
      rw eq (
        if-Agrees (is_archived t.state) (err (invalid_state id), s) (claim_live id owner n s)
          (λ _. h)
          (λ _.
            commit-Agrees (fetch_count id (claim_rows id n s)) _ s
              (Agrees-change live s.tree_refs
                (Agrees-update s.trees s.tree_refs h id (reactivate s.now) (reactivate_id s.now)
                  (reactivate_count s.now))
                id (count_more n s.now) (λ m. m +ℤ n) (reactivate s.now t)
                (claim_ref id owner n s.now s.tree_refs) (λ u. refl) (λ u. refl)
                (found-update id (reactivate s.now) s.trees t (reactivate_id s.now) eq)
                (λ j. total-claim j id owner n s.now s.tree_refs))
              h))
]

schedule-Agrees :
    (id : TreeId) (now : ℕ) (r : Result ArborError ℤ) (rows : List TreeRow) (refs : List RefRow)
    → Agrees (rows, refs)
    → Agrees (schedule_unused id now r rows, refs)
schedule-Agrees id now (err e) rows refs h = h
schedule-Agrees id now (ok n) rows refs h = elim (Bool-cases (is_zero n)) [
  | inl e ↦ rw e (Agrees-update rows refs h id (schedule now) (λ t. refl) (λ t. refl))
  | inr e ↦ rw e h
]

enough-Agrees :
    (id : TreeId) (owner : String) (n c : ℤ) (s : ArborStorage)
    → Agrees (rows_of s)
    → find_ref id owner s.tree_refs ≡ some c
    → Agrees (rows_of (release_enough id owner n c s).1)
enough-Agrees id owner n c s h eq = elim (Option-cases (find_tree id s.trees)) [
  | inl gone ↦
      let missing : find_tree id (release_rows id n s) ≡ none =
        missing-update id (count_less n s.now) s.trees (λ u. refl) gone in
      subst (λ r. Agrees (rows_of (commit r (released id owner n c s) s).1))
        (sym (ap count_or_error missing)) h
  | inr (t, at) ↦
      let rows = release_rows id n s in
      let left = release_ref id owner (c -ℤ n) s.now s.tree_refs in
      commit-Agrees (fetch_count id rows) _ s
        (schedule-Agrees id s.now (fetch_count id rows) rows left (
          Agrees-change s.trees s.tree_refs h id (count_less n s.now) (λ m. m -ℤ n) t left
            (λ u. refl) (λ u. refl) at (λ j. total-release j id owner n c s.now s.tree_refs eq)))
        h
]

release-Agrees :
    (id : TreeId) (owner : String) (n : ℤ) (s : ArborStorage)
    → Agrees (rows_of s)
    → Agrees (rows_of (tree_release id owner n s).1)
unfolding tree_release
release-Agrees id owner n s h = elim (Option-cases (find_ref id owner s.tree_refs)) [
  | inl eq ↦ rw eq h
  | inr (c, eq) ↦ rw eq (
      if-Agrees (ltb_ℤ c n) (err (storage_error "unknown"), s) (release_enough id owner n c s)
        (λ _. h) (λ _. enough-Agrees id owner n c s h eq))
]

create-Agrees :
    (id : TreeId) (root : NodeId) (metadata : Option Value) (owner : String) (s : ArborStorage)
    → Agrees (rows_of s)
    → Agrees (rows_of (tree_create_with_id id root metadata owner s).1)
unfolding tree_create_with_id
create-Agrees id root metadata owner s h =
    if-Agrees (has_tree id s || any (is_ref id owner) s.tree_refs || has_node root s)
      (err (storage_error "unknown"), s) (ok id, insert_tree id root metadata owner s) (λ _. h)
      (λ new.
        Agrees-create s.trees s.tree_refs h id root metadata owner s.now
          (left_false (has_tree id s) (any (is_ref id owner) s.tree_refs) (has_node root s) new))

node-Agrees :
    (row : NodeRow) (s : ArborStorage) → Agrees (rows_of s) → Agrees (rows_of (create_node row s).1)
node-Agrees row s h = subst Agrees (sym (create_node-rows row s)) h

pub handle-Agrees :
    (c : Call) (s : ArborStorage) → Agrees (rows_of s) → Agrees (rows_of (handle c s))
unfolding handle tree_update_metadata node_create_text node_create_external
    node_create_external_ephemeral cleanup_scheduled_trees
handle-Agrees (create id root metadata owner) s h = create-Agrees id root metadata owner s h
handle-Agrees (update_metadata id metadata) s h =
    Agrees-update s.trees s.tree_refs h id (set_metadata metadata s.now)
      (λ t. set_metadata_id metadata s.now t) (λ t. set_metadata_count metadata s.now t)
handle-Agrees (claim id owner n) s h = claim-Agrees id owner n s h
handle-Agrees (release id owner n) s h = release-Agrees id owner n s h
handle-Agrees (add_text id tree parent content metadata) s h =
    node-Agrees (active_row id tree parent (text content) metadata s.now) s h
handle-Agrees (add_external id tree parent hd metadata) s h =
    node-Agrees (active_row id tree parent (external hd) metadata s.now) s h
handle-Agrees (add_ephemeral id tree parent hd metadata) s h =
    node-Agrees (ephemeral_row id tree parent hd metadata s.now) s h
handle-Agrees cleanup s h = λ j. Agrees-archive s.now s.trees j ∙ h j

-- Any calls keep it true that the count in the row of each tree is the one that get_tree_refs sums
-- over its owners, and that what is held of an id without a row sums to zero.
pub serve-IsConsistent :
    (calls : List (ℕ × Call)) (s : ArborStorage) → IsConsistent s → IsConsistent (serve calls s)
unfolding serve
serve-IsConsistent [] s h = h
serve-IsConsistent ((now, c) ∷ calls) s h =
    let timed : ArborStorage = record s { now = now } in
    serve-IsConsistent calls (handle c timed)
      (of_agree (handle c timed) (handle-Agrees c timed (to_agree s h)))

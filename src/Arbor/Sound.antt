-- ===== src/Arbor/Sound.antt =====
-- src/activations/arbor: the states of trees follow their counts whatever calls are served.
use mneme_substrate.Base.{
  ℕ, String, Bool, true, false, ◌||◌, Option, some, List, [], ◌∷◌, any, if◌then◌else◌, ◌==◌, ◌≡◌,
  ◌≤◌, refl, sym, ap, subst, arith, Option-cases, inl, inr, Result, ok, err,
}
use mneme_substrate.Base.Int.{ℤ, ◌-ℤ◌, ltb_ℤ, IsPositive, pos_part, neg_part, -ℤ-parts}
use mneme_substrate.Base.Json.{Value}
use mneme_substrate.Arbor.Types.{
  TreeId, NodeId, ArborError, TreeRow, RefRow, NodeRow, ArborStorage, text, external, storage_error,
  invalid_state, is_archived, has_tree, has_node, is_ref,
}
use mneme_substrate.Arbor.Trees.{
  find_tree, find_ref, tree_create_with_id, insert_tree, new_tree, tree_claim, claim_live, claimed,
  claim_rows, tree_release, release_enough, released, release_rows, fetch_count, count_or_error,
  commit, count_less, tree_update_metadata, set_metadata, cleanup_scheduled_trees,
}
use mneme_substrate.Arbor.Nodes.{
  create_node, node_create_text, node_create_external, node_create_external_ephemeral, active_row,
  ephemeral_row,
}
use mneme_substrate.Arbor.Service.{
  Call, handle, serve, create, update_metadata, claim, release, add_text, add_external,
  add_ephemeral, cleanup,
}
use mneme_substrate.Arbor.Untouched.{rows_of, create_node-rows}
use mneme_substrate.Arbor.Consistent.{
  Agrees, IsConsistent, to_agree, of_agree, handle-Agrees, set_metadata_id, found-update,
  missing-update,
}
use mneme_substrate.Arbor.Positive.{AllPositive, claim_ref-AllPositive, release_ref-AllPositive}
use mneme_substrate.Arbor.Live.{
  IsLive, AllLive, row_inj, update-AllLive, archive-AllLive, set_metadata-IsLive, claim-AllLive,
  release-AllLive,
}

abbrev pub Follows : List TreeRow × List RefRow → Type 0
Follows (trees, refs) = Agrees (trees, refs) × AllPositive refs × AllLive trees

abbrev Rest : List TreeRow × List RefRow → Type 0
Rest (trees, refs) = AllPositive refs × AllLive trees

-- A claim is for at least one reference.
abbrev pub ClaimsMore : Call → Type 0
ClaimsMore (claim id owner n) = IsPositive n
ClaimsMore _ = Unit

commit-Rest :
    {A : Type 0} (r : Result ArborError A) (new old : ArborStorage)
    → Rest (rows_of new)
    → Rest (rows_of old)
    → Rest (rows_of (commit r new old).1)
commit-Rest (ok a) new old h k = h
commit-Rest (err e) new old h k = k

if-Rest :
    {A : Type 0} (b : Bool) (x y : Result ArborError A × ArborStorage)
    → Rest (rows_of x.1)
    → (b ≡ false → Rest (rows_of y.1))
    → Rest (rows_of (if b then x else y).1)
if-Rest true x y h k = h
if-Rest false x y h k = k refl

new_tree-AllLive :
    (id : TreeId) (root : NodeId) (metadata : Option Value) (now : ℕ) (ts : List TreeRow)
    → AllLive ts
    → AllLive (new_tree id root metadata now ∷ ts)
unfolding find_tree
new_tree-AllLive id root metadata now ts h j u eq = go (id == j) eq
  where
    go :
        (b : Bool)
        → (if b then some (new_tree id root metadata now) else find_tree j ts) ≡ some u
        → IsLive u
    go true e = subst IsLive (row_inj e) refl
    go false e = h j u e

not_less : (c n : ℤ) → ltb_ℤ c n ≡ false → neg_part (c -ℤ n) ≤ pos_part (c -ℤ n)
not_less c n h = ground (arith, h, -ℤ-parts c n)

module _ (id : TreeId) (owner : String) (n : ℤ) (s : ArborStorage) (agrees : Agrees (rows_of s))
    (positive : AllPositive s.tree_refs) (live : AllLive s.trees) where
  claim-Rest : IsPositive n → Rest (rows_of (tree_claim id owner n s).1)
  unfolding tree_claim
  claim-Rest p = elim (Option-cases (find_tree id s.trees)) [
    | inl eq ↦ rw eq (positive, live)
    | inr (t, eq) ↦ rw eq (
        if-Rest (is_archived t.state) (err (invalid_state id), s) (claim_live id owner n s)
          (positive, live)
          (λ kept.
            commit-Rest (fetch_count id (claim_rows id n s)) (claimed id owner n s) s
              (
                claim_ref-AllPositive id owner n s.now s.tree_refs p positive,
                claim-AllLive s.trees s.tree_refs agrees positive id t eq n s.now p kept live,
              )
              (positive, live)))
  ]

  enough-Rest :
      (c : ℤ)
      → find_ref id owner s.tree_refs ≡ some c
      → ltb_ℤ c n ≡ false
      → Rest (rows_of (release_enough id owner n c s).1)
  enough-Rest c eq enough = elim (Option-cases (find_tree id s.trees)) [
    | inl gone ↦
        let missing : fetch_count id (release_rows id n s) ≡ err (storage_error "unknown") =
          ap count_or_error (missing-update id (count_less n s.now) s.trees (λ u. refl) gone) in
        subst (λ r. Rest (rows_of (commit r (released id owner n c s) s).1)) (sym missing)
          (positive, live)
    | inr (t, at) ↦
        let count : fetch_count id (release_rows id n s) ≡ ok (t.ref_count -ℤ n) =
          ap count_or_error (found-update id (count_less n s.now) s.trees t (λ u. refl) at) in
        commit-Rest (fetch_count id (release_rows id n s)) (released id owner n c s) s
          (
            release_ref-AllPositive id owner (c -ℤ n) s.now s.tree_refs (not_less c n enough)
                positive,
            rw count (
                release-AllLive s.trees s.tree_refs agrees positive id t at owner n c s.now eq
                  live),
          )
          (positive, live)
  ]

  release-Rest : Rest (rows_of (tree_release id owner n s).1)
  unfolding tree_release
  release-Rest = elim (Option-cases (find_ref id owner s.tree_refs)) [
    | inl eq ↦ rw eq (positive, live)
    | inr (c, eq) ↦ rw eq (
        if-Rest (ltb_ℤ c n) (err (storage_error "unknown"), s) (release_enough id owner n c s)
          (positive, live) (λ enough. enough-Rest c eq enough))
  ]

node-Rest :
    (row : NodeRow) (s : ArborStorage) → Rest (rows_of s) → Rest (rows_of (create_node row s).1)
node-Rest row s h = subst Rest (sym (create_node-rows row s)) h

handle-Rest :
    (c : Call) (s : ArborStorage) → ClaimsMore c → Follows (rows_of s) → Rest (rows_of (handle c s))
unfolding handle tree_update_metadata node_create_text node_create_external
    node_create_external_ephemeral cleanup_scheduled_trees tree_create_with_id
handle-Rest (create id root metadata owner) s p (agrees, positive, live) =
    if-Rest (has_tree id s || any (is_ref id owner) s.tree_refs || has_node root s)
      (err (storage_error "unknown"), s) (ok id, insert_tree id root metadata owner s)
      (positive, live)
      (λ _. ((omega arith, positive), new_tree-AllLive id root metadata s.now s.trees live))
handle-Rest (update_metadata id metadata) s p (agrees, positive, live) = (
  positive,
  update-AllLive id (set_metadata metadata s.now) s.trees (set_metadata_id metadata s.now) live
      (λ t at. set_metadata-IsLive metadata s.now t (live id t at)),
)
handle-Rest (claim id owner n) s p (agrees, positive, live) =
    claim-Rest id owner n s agrees positive live p
handle-Rest (release id owner n) s p (agrees, positive, live) =
    release-Rest id owner n s agrees positive live
handle-Rest (add_text id tree parent content metadata) s p (agrees, positive, live) =
    node-Rest (active_row id tree parent (text content) metadata s.now) s (positive, live)
handle-Rest (add_external id tree parent hd metadata) s p (agrees, positive, live) =
    node-Rest (active_row id tree parent (external hd) metadata s.now) s (positive, live)
handle-Rest (add_ephemeral id tree parent hd metadata) s p (agrees, positive, live) =
    node-Rest (ephemeral_row id tree parent hd metadata s.now) s (positive, live)
handle-Rest cleanup s p (agrees, positive, live) = (positive, archive-AllLive s.now s.trees live)

pub handle-Follows :
    (c : Call) (s : ArborStorage)
    → ClaimsMore c
    → Follows (rows_of s)
    → Follows (rows_of (handle c s))
handle-Follows c s p h = let rest = handle-Rest c s p h in (handle-Agrees c s h.0, rest.0, rest.1)

abbrev pub AllClaimMore : List (ℕ × Call) → Type 0
AllClaimMore [] = Unit
AllClaimMore ((_, c) ∷ calls) = ClaimsMore c × AllClaimMore calls

-- The counts agree, each owner holds a positive count, and a tree is active exactly when its
-- count is not 0.
abbrev pub IsSound : ArborStorage → Type 0
IsSound s = IsConsistent s × AllPositive s.tree_refs × AllLive s.trees

pub to_follow : (s : ArborStorage) → IsSound s → Follows (rows_of s)
to_follow s (consistent, positive, live) = (to_agree s consistent, positive, live)

-- Calls that claim no less than one reference keep the storage sound: the counts agree, no owner
-- holds less than one reference, and a tree is active exactly when its count is not 0.
pub serve-IsSound :
    (calls : List (ℕ × Call)) (s : ArborStorage)
    → AllClaimMore calls
    → IsSound s
    → IsSound (serve calls s)
unfolding serve
serve-IsSound [] s p h = h
serve-IsSound ((now, c) ∷ calls) s (p, ps) h =
    let timed : ArborStorage = record s { now = now } in
    let after = handle-Follows c timed p (to_follow timed h) in
    serve-IsSound calls (handle c timed) ps (of_agree (handle c timed) after.0, after.1, after.2)

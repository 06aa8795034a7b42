-- ===== src/Arbor/Roundtrip.antt =====
-- src/activations/arbor/storage.rs: a release takes back what a claim added.
use mneme_substrate.Base.{
  ℕ, String, true, false, Option, none, some, List, [], ◌∷◌, ==_refl, ◌≡◌, refl, sym, ap, ◌∙◌,
  arith, Bool-cases, Option-cases, inl, inr, ok,
}
use mneme_substrate.Base.Int.{
  ℤ, pos, ltb_ℤ, is_zero, IsPositive, ◌+ℤ◌, ◌-ℤ◌, add-sub_cancel, +ℤ-parts, -ℤ-parts,
}
use mneme_substrate.Arbor.Types.{TreeId, TreeRow, RefRow, ArborStorage, is_archived, is_ref}
use mneme_substrate.Arbor.Trees.{
  find_tree, find_ref, claim_ref, release_ref, new_ref, tree_claim, claimed, tree_release, released,
  count_or_error, commit, count_less, count_more, reactivate,
}
use mneme_substrate.Arbor.Consistent.{reactivate_id, reactivate_count, found-update}
use mneme_substrate.Arbor.Positive.{AllPositive}
use text.Mathlib.TextEquality.{eq_iff}

-- What an owner holds, 0 without a row.
abbrev held_by : Option ℤ → ℤ
held_by none = pos 0
held_by (some c) = c

is_ref_refl :
    (id : ℕ) (owner : String) (n : ℤ) (now : ℕ) → is_ref id owner (new_ref id owner n now) ≡ true
is_ref_refl id owner n now = simp (==_refl id, (eq_iff owner owner).1 refl) refl

find_ref-claim :
    (id : TreeId) (owner : String) (n : ℤ) (now : ℕ) (rs : List RefRow)
    → find_ref id owner (claim_ref id owner n now rs)
      ≡ some (elim (find_ref id owner rs) [ none ↦ n | some c ↦ c +ℤ n ])
unfolding find_ref claim_ref
find_ref-claim id owner n now [] = simp (is_ref_refl id owner n now) refl
find_ref-claim id owner n now (r ∷ rs) = elim (Bool-cases (is_ref id owner r)) [
  | inl e ↦ simp (e) refl
  | inr e ↦ simp (e) (find_ref-claim id owner n now rs)
]

-- The row of the owner, or none again.
release-claim_new :
    (j : TreeId) (o : String) (id : TreeId) (owner : String) (n : ℤ) (now later : ℕ) (left : ℤ)
    (rs : List RefRow)
    → find_ref id owner rs ≡ none
    → is_zero left ≡ true
    → find_ref j o (release_ref id owner left later (claim_ref id owner n now rs)) ≡ find_ref j o rs
unfolding find_ref claim_ref release_ref
release-claim_new j o id owner n now later left [] eq zero =
    simp (is_ref_refl id owner n now, zero) refl
release-claim_new j o id owner n now later left (r ∷ rs) eq zero =
    elim (Bool-cases (is_ref id owner r)) [
      | inl e ↦ absurd (wrong (sym (simp (e) refl) ∙ eq))
      | inr e ↦
          simp
            (e, release-claim_new j o id owner n now later left rs (sym (simp (e) refl) ∙ eq) zero)
            refl
    ]
  where
    wrong : ◌≡◌ {A = Option ℤ} (some r.held) none → ⊥
    wrong e = cc e

release-claim_more :
    (j : TreeId) (o : String) (id : TreeId) (owner : String) (n c : ℤ) (now later : ℕ)
    (rs : List RefRow)
    → find_ref id owner rs ≡ some c
    → is_zero c ≡ false
    → find_ref j o (release_ref id owner c later (claim_ref id owner n now rs)) ≡ find_ref j o rs
unfolding find_ref claim_ref release_ref
release-claim_more j o id owner n c now later [] eq left = absurd (cc eq)
release-claim_more j o id owner n c now later (r ∷ rs) eq left =
    elim (Bool-cases (is_ref id owner r)) [
      | inl e ↦
          let same : r.held ≡ c = some_inj (sym (simp (e) refl) ∙ eq) in simp (e, left, same) refl
      | inr e ↦
          simp (e, release-claim_more j o id owner n c now later rs (sym (simp (e) refl) ∙ eq) left)
            refl
    ]
  where
    some_inj : {a b : ℤ} → ◌≡◌ {A = Option ℤ} (some a) (some b) → a ≡ b
    some_inj {a} e = ap held_by e

tree_claim-lands :
    (id : TreeId) (owner : String) (n : ℤ) (s : ArborStorage) (t : TreeRow)
    → find_tree id s.trees ≡ some t
    → is_archived t.state ≡ false
    → (tree_claim id owner n s).1 ≡ claimed id owner n s
unfolding tree_claim
tree_claim-lands id owner n s t eq kept =
    let e = ap count_or_error (
      found-update id (count_more n s.now) _ (reactivate s.now t) (λ u. refl)
        (found-update id (reactivate s.now) s.trees t (reactivate_id s.now) eq)) in
    rw (eq, kept) (ap (λ r. (commit r (claimed id owner n s) s).1) e)

-- A release of what is held from a tree that is there.
tree_release-lands :
    (id : TreeId) (owner : String) (n c : ℤ) (s : ArborStorage) (t : TreeRow)
    → find_tree id s.trees ≡ some t
    → find_ref id owner s.tree_refs ≡ some c
    → ltb_ℤ c n ≡ false
    → ((tree_release id owner n s).0 ≡ ok (t.ref_count -ℤ n))
      × ((tree_release id owner n s).1.tree_refs ≡ release_ref id owner (c -ℤ n) s.now s.tree_refs)
unfolding tree_release
tree_release-lands id owner n c s t eq held enough =
    let e = ap count_or_error (found-update id (count_less n s.now) s.trees t (λ u. refl) eq) in
    rw (held, enough)
      (
        ap (λ r. (commit r (released id owner n c s) s).0) e,
        ap (λ r. (commit r (released id owner n c s) s).1.tree_refs) e,
      )

find_ref-IsPositive :
    (id : TreeId) (owner : String) (c : ℤ) (rs : List RefRow)
    → AllPositive rs
    → find_ref id owner rs ≡ some c
    → IsPositive c
unfolding find_ref
find_ref-IsPositive id owner c [] h eq = absurd (cc eq)
find_ref-IsPositive id owner c (r ∷ rs) (here, there) eq =
    ground (arith, here, find_ref-IsPositive id owner c rs there, eq)

not_less_self : (n : ℤ) → ltb_ℤ n n ≡ false
not_less_self n = ground arith

self_zero : (n : ℤ) → is_zero (n -ℤ n) ≡ true
self_zero n = ground (arith, -ℤ-parts n n)

not_less_more : (c n : ℤ) → IsPositive c → ltb_ℤ (c +ℤ n) n ≡ false
not_less_more c n p = ground (arith, p, +ℤ-parts c n)

not_zero : (c : ℤ) → IsPositive c → is_zero c ≡ false
not_zero c p = ground (arith, p)

module _ (id : TreeId) (owner : String) (n : ℤ) (s : ArborStorage) (t : TreeRow)
    (found : find_tree id s.trees ≡ some t) (kept : is_archived t.state ≡ false)
    (positive : AllPositive s.tree_refs) where
  -- What is held after the claim, and what the release leaves of it.
  round :
      (c : ℤ)
      → find_ref id owner (claimed id owner n s).tree_refs ≡ some c
      → ltb_ℤ c n ≡ false
      → ((j : TreeId) (o : String)
          → find_ref j o (release_ref id owner (c -ℤ n) s.now (claimed id owner n s).tree_refs)
            ≡ find_ref j o s.tree_refs)
      → ((tree_release id owner n (claimed id owner n s)).0 ≡ ok t.ref_count)
        × ((j : TreeId) (o : String)
            → find_ref j o (tree_release id owner n (claimed id owner n s)).1.tree_refs
              ≡ find_ref j o s.tree_refs)
  round c held enough back =
      let after =
        tree_release-lands id owner n c (claimed id owner n s)
          (count_more n s.now (reactivate s.now t))
          (found-update id (count_more n s.now) _ (reactivate s.now t) (λ u. refl)
            (found-update id (reactivate s.now) s.trees t (reactivate_id s.now) found))
          held enough in
      (
        after.0
            ∙ ap ok (add-sub_cancel (reactivate s.now t).ref_count n ∙ reactivate_count s.now t),
        λ j o. ap (find_ref j o) after.1 ∙ back j o,
      )

  -- Where a tree is there and not archived, and each owner holds a positive count, releasing
  -- what was just claimed returns the count that the tree had, and leaves each owner of each tree
  -- with what they held before the claim.
  pub tree_release-tree_claim :
      IsPositive n
      → (let s' = (tree_claim id owner n s).1 in
          ((tree_release id owner n s').0 ≡ ok t.ref_count)
          × ((j : TreeId) (o : String)
              → find_ref j o (tree_release id owner n s').1.tree_refs ≡ find_ref j o s.tree_refs))
  tree_release-tree_claim p =
      rw (tree_claim-lands id owner n s t found kept)
        (elim (Option-cases (find_ref id owner s.tree_refs)) [
          | inl none_held ↦
              round n (find_ref-claim id owner n s.now s.tree_refs ∙ simp (none_held) refl)
                (not_less_self n)
                (λ j o.
                  release-claim_new j o id owner n s.now s.now (n -ℤ n) s.tree_refs none_held
                    (self_zero n))
          | inr (c, held) ↦
              let more = find_ref-IsPositive id owner c s.tree_refs positive held in
              round (c +ℤ n) (find_ref-claim id owner n s.now s.tree_refs ∙ simp (held) refl)
                (not_less_more c n more)
                (λ j o. rw (add-sub_cancel c n) (
                  release-claim_more j o id owner n c s.now s.now s.tree_refs held
                    (not_zero c more)))
        ])

-- ===== src/Arbor/Counts.antt =====
-- src/activations/arbor/storage.rs: what each statement does to the counts of the trees and to the
-- sums of their owners' counts.
use mathlib.Core.Option
use mneme_substrate.Base.{
  ℕ, String, Bool, true, false, Option, none, some, List, [], ◌∷◌, if◌then◌else◌, ◌==◌, ◌≡◌, refl,
  sym, ap, ◌∙◌, subst, ==_iff, inl, inr, arith, Bool-cases,
}
use mneme_substrate.Base.Int.{
  ℤ, pos, ◌+ℤ◌, ◌-ℤ◌, is_zero, is_zero_iff, int_rules, add_zero, zero_add, add_assoc,
  add_right_comm, sub-add, pos_part, neg_part,
}
use mneme_substrate.Arbor.Types.{TreeId, ResourceRefs, TreeRow, RefRow}
use mneme_substrate.Arbor.Trees.{
  find_tree, update_tree, add_refs, get_refs, claim_ref, find_ref, release_ref,
}

-- The sum of the counts that the owners of a resource hold.
unfoldable pub total : ℕ → List RefRow → ℤ
total id [] = pos 0
total id (r ∷ rs) = let rest = total id rs in if r.resource_id == id then r.held +ℤ rest else rest

add_refs-total :
    (id : ℕ) (rows : List RefRow) (acc : ResourceRefs)
    → (add_refs id rows acc).ref_count ≡ acc.ref_count +ℤ total id rows
unfolding add_refs total
add_refs-total id [] acc = sym (add_zero acc.ref_count)
add_refs-total id (r ∷ rs) acc =
    let more : ResourceRefs = record {
      ref_count = acc.ref_count +ℤ r.held;
      owners = (r.owner_id, r.held) ∷ acc.owners;
    } in
    elim (Bool-cases (r.resource_id == id)) [
      | inl same ↦
          simp (same) (add_refs-total id rs more ∙ add_assoc acc.ref_count r.held (total id rs))
      | inr other ↦ simp (other) (add_refs-total id rs acc)
    ]

-- The sum that the code makes.
pub get_refs-total : (id : ℕ) (rows : List RefRow) → (get_refs id rows).ref_count ≡ total id rows
unfolding get_refs
get_refs-total id rows = add_refs-total id rows _ ∙ zero_add (total id rows)

abbrev pub count_in : Option TreeRow → ℤ
count_in none = pos 0
count_in (some t) = t.ref_count

-- The `ref_count` of a tree's row, 0 where there is none.
abbrev pub recorded : TreeId → List TreeRow → ℤ
recorded id ts = count_in (find_tree id ts)

pub total-claim :
    (j id : TreeId) (owner : String) (n : ℤ) (now : ℕ) (rs : List RefRow)
    → total j (claim_ref id owner n now rs) ≡ (if id == j then total j rs +ℤ n else total j rs)
unfolding total claim_ref
total-claim j id owner n now [] = ground (arith, add_zero n, zero_add n)
total-claim j id owner n now (r ∷ rs) = ground (
  arith,
  total-claim j id owner n now rs,
  add_right_comm r.held n (total j rs),
  add_assoc r.held (total j rs) n,
)

nothing_left : (a n r : ℤ) → is_zero (a -ℤ n) ≡ true → r ≡ a +ℤ r -ℤ n
nothing_left a n r h =
    omega (
      int_rules,
      ap pos_part ((is_zero_iff (a -ℤ n)).0 h),
      ap neg_part ((is_zero_iff (a -ℤ n)).0 h),
    )

add-sub : (a r n : ℤ) → a +ℤ (r -ℤ n) ≡ a +ℤ r -ℤ n
add-sub a r n = omega int_rules

pub total-release :
    (j id : TreeId) (owner : String) (n c : ℤ) (now : ℕ) (rs : List RefRow)
    → find_ref id owner rs ≡ some c
    → total j (release_ref id owner (c -ℤ n) now rs)
      ≡ (if id == j then total j rs -ℤ n else total j rs)
unfolding total release_ref find_ref
total-release j id owner n c now [] eq = absurd (cc eq)
total-release j id owner n c now (r ∷ rs) eq = ground (
  arith,
  total-release j id owner n c now rs,
  nothing_left r.held n (total j rs),
  sub-add r.held n (total j rs),
  add-sub r.held (total j rs) n,
  eq,
)

-- Which row a changed table has for an id.
pub find_tree-update :
    (j id : TreeId) (f : TreeRow → TreeRow) (ts : List TreeRow)
    → ((t : TreeRow) → (f t).id ≡ t.id)
    → find_tree j (update_tree id f ts)
      ≡ (if id == j then Option.map f (find_tree j ts) else find_tree j ts)
unfolding update_tree find_tree
find_tree-update j id f [] same_id = ground arith
find_tree-update j id f (t ∷ ts) same_id =
    ground (arith, find_tree-update j id f ts same_id, same_id t)

module _ (j id : TreeId) (f : TreeRow → TreeRow) (ts : List TreeRow)
    (same_id : (u : TreeRow) → (f u).id ≡ u.id) where
  pub recorded-update :
      ((u : TreeRow) → (f u).ref_count ≡ u.ref_count)
      → recorded j (update_tree id f ts) ≡ recorded j ts
  recorded-update same =
      ap count_in (find_tree-update j id f ts same_id) ∙ kept (id == j) (find_tree j ts)
    where
      kept :
          (b : Bool) (o : Option TreeRow) → count_in (if b then Option.map f o else o) ≡ count_in o
      kept true none = refl
      kept true (some u) = same u
      kept false o = refl

  -- Where the tree has a row.
  pub recorded-change :
      (g : ℤ → ℤ) (t : TreeRow)
      → ((u : TreeRow) → (f u).ref_count ≡ g u.ref_count)
      → find_tree id ts ≡ some t
      → recorded j (update_tree id f ts) ≡ (if id == j then g (recorded j ts) else recorded j ts)
  recorded-change g t change eq = elim (Bool-cases (id == j)) [
    | inl same ↦
        let at : find_tree j ts ≡ some t =
          subst (λ k. find_tree k ts ≡ some t) ((==_iff id j).0 same) eq in
        ap count_in (find_tree-update j id f ts same_id) ∙ simp (same, at) (change t)
    | inr other ↦ ap count_in (find_tree-update j id f ts same_id) ∙ simp (other) refl
  ]

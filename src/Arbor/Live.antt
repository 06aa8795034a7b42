-- ===== src/Arbor/Live.antt =====
-- src/activations/arbor: the states of trees follow their counts, and a tree that is archived stays.
use mathlib.Core.Option
use mneme_substrate.Base.{
  ℕ, String, Bool, true, false, not, Option, none, some, List, [], ◌∷◌, map, if◌then◌else◌, ◌==◌,
  ==_iff, ◌≡◌, refl, sym, ap, ◌∙◌, subst, arith, inl, inr, Bool-cases, unwrap_or, ok, ◌≤◌,
}
use mneme_substrate.Base.Int.{ℤ, ◌-ℤ◌, is_zero, IsPositive, pos_part, neg_part, +ℤ-parts}
use mneme_substrate.Base.Json.{Value}
use mneme_substrate.Arbor.Types.{TreeId, TreeRow, RefRow, is_active, is_archived}
use mneme_substrate.Arbor.Trees.{
  find_tree, update_tree, reactivate, count_more, count_less, schedule, schedule_unused, archive,
  set_metadata, find_ref,
}
use mneme_substrate.Arbor.Counts.{total, count_in, find_tree-update}
use mneme_substrate.Arbor.Positive.{AllPositive, total_nonneg, total-IsPositive}
use mneme_substrate.Arbor.Consistent.{Agrees, reactivate_id}

-- A tree is active exactly when its count is not 0.
abbrev pub IsLive : TreeRow → Type 0
IsLive t = is_active t.state ≡ not (is_zero t.ref_count)

abbrev pub AllLive : List TreeRow → Type 0
AllLive ts = (id : TreeId) (t : TreeRow) → find_tree id ts ≡ some t → IsLive t

pub row_inj : {t u : TreeRow} → ◌≡◌ {A = Option TreeRow} (some t) (some u) → t ≡ u
row_inj {t = t} e = ap (unwrap_or t) e

update_twice :
    (id : TreeId) (f g : TreeRow → TreeRow) (ts : List TreeRow)
    → ((t : TreeRow) → (f t).id ≡ t.id)
    → update_tree id g (update_tree id f ts) ≡ update_tree id (λ t. g (f t)) ts
unfolding update_tree
update_twice id f g [] same = refl
update_twice id f g (t ∷ ts) same = elim (Bool-cases (t.id == id)) [
  | inl e ↦ simp (e, same t, update_twice id f g ts same) refl
  | inr e ↦ simp (e, update_twice id f g ts same) refl
]

-- A change of the rows of an id, where it makes a live row of the row that is found.
pub update-AllLive :
    (id : TreeId) (f : TreeRow → TreeRow) (ts : List TreeRow)
    → ((t : TreeRow) → (f t).id ≡ t.id)
    → AllLive ts
    → ((t : TreeRow) → find_tree id ts ≡ some t → IsLive (f t))
    → AllLive (update_tree id f ts)
update-AllLive id f ts same h good j u eq =
    go (id == j) refl (find_tree j ts) refl (sym (find_tree-update j id f ts same) ∙ eq)
  where
    go :
        (b : Bool)
        → (id == j) ≡ b
        → (o : Option TreeRow) → find_tree j ts ≡ o
        → (if b then Option.map f o else o) ≡ some u
        → IsLive u
    go true e none at eq' = absurd (cc eq')
    go true e (some t) at eq' =
        subst IsLive (row_inj eq')
          (good t (subst (λ k. find_tree k ts ≡ some t) (sym ((==_iff id j).0 e)) at))
    go false e o at eq' = h j u (at ∙ eq')

pub archived_row :
    (now : ℕ) (j : TreeId) (ts : List TreeRow)
    → find_tree j (map (archive now) ts) ≡ Option.map (archive now) (find_tree j ts)
unfolding find_tree
archived_row now j [] = refl
archived_row now j (t ∷ ts) = ground (arith, archived_row now j ts)

archive-IsLive : (now : ℕ) (t : TreeRow) → IsLive t → IsLive (archive now t)
archive-IsLive now t h = ground (arith, h)

pub archive-AllLive : (now : ℕ) (ts : List TreeRow) → AllLive ts → AllLive (map (archive now) ts)
archive-AllLive now ts h j u eq = go (find_tree j ts) refl (sym (archived_row now j ts) ∙ eq)
  where
    go : (o : Option TreeRow) → find_tree j ts ≡ o → Option.map (archive now) o ≡ some u → IsLive u
    go none at eq' = absurd (cc eq')
    go (some t) at eq' = subst IsLive (row_inj eq') (archive-IsLive now t (h j t at))

pub set_metadata-IsLive :
    (m : Value) (now : ℕ) (t : TreeRow) → IsLive t → IsLive (set_metadata m now t)
set_metadata-IsLive m now t h = ground (arith, h)

-- What the counts of the owners say of a live row.
module _ (trees : List TreeRow) (refs : List RefRow) (agrees : Agrees (trees, refs))
    (positive : AllPositive refs) (id : TreeId) (t : TreeRow)
    (found : find_tree id trees ≡ some t) where
  count_total : t.ref_count ≡ total id refs
  count_total = sym (ap count_in found) ∙ agrees id

  count_nonneg : neg_part t.ref_count ≤ pos_part t.ref_count
  count_nonneg = rw count_total (total_nonneg id refs positive)

  pub count-IsPositive :
      (owner : String) (c : ℤ) → find_ref id owner refs ≡ some c → IsPositive t.ref_count
  count-IsPositive owner c eq = rw count_total (total-IsPositive id owner c refs eq positive)

  pub claim-IsLive :
      (n : ℤ) (now : ℕ)
      → IsPositive n
      → is_archived t.state ≡ false
      → IsLive (count_more n now (reactivate now t))
  claim-IsLive n now p kept = ground (arith, count_nonneg, p, kept, +ℤ-parts t.ref_count n)

  release-IsLive :
      (owner : String) (n c : ℤ) (now : ℕ)
      → find_ref id owner refs ≡ some c
      → IsLive t
      → is_zero (t.ref_count -ℤ n) ≡ false
      → IsLive (count_less n now t)
  release-IsLive owner n c now eq live left =
      ground (arith, count-IsPositive owner c eq, live, left)

  pub release-AllLive :
      (owner : String) (n c : ℤ) (now : ℕ)
      → find_ref id owner refs ≡ some c
      → AllLive trees
      → AllLive
          (schedule_unused id now (ok (t.ref_count -ℤ n)) (update_tree id (count_less n now) trees))
  release-AllLive owner n c now eq live = elim (Bool-cases (is_zero (t.ref_count -ℤ n))) [
    | inl none_left ↦
        rw (none_left, update_twice id (count_less n now) (schedule now) trees (λ u. refl))
          (update-AllLive id (λ u. schedule now (count_less n now u)) trees (λ u. refl) live
            (λ u at.
              let e : t ≡ u = row_inj (sym found ∙ at) in
              subst (λ v. IsLive (schedule now (count_less n now v))) e (rw none_left refl)))
    | inr some_left ↦ rw some_left (
        update-AllLive id (count_less n now) trees (λ u. refl) live
          (λ u at.
            let e : t ≡ u = row_inj (sym found ∙ at) in
            subst (λ v. IsLive (count_less n now v)) e
              (release-IsLive owner n c now eq (live id t found) some_left)))
  ]

  pub claim-AllLive :
      (n : ℤ) (now : ℕ)
      → IsPositive n
      → is_archived t.state ≡ false
      → AllLive trees
      → AllLive (update_tree id (count_more n now) (update_tree id (reactivate now) trees))
  claim-AllLive n now p kept live =
      rw (update_twice id (reactivate now) (count_more n now) trees (reactivate_id now)) (
        update-AllLive id (λ u. count_more n now (reactivate now u)) trees (reactivate_id now) live
          (λ u at.
            let e : t ≡ u = row_inj (sym found ∙ at) in
            subst (λ v. IsLive (count_more n now (reactivate now v))) e
              (claim-IsLive n now p kept)))

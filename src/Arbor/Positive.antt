-- ===== src/Arbor/Positive.antt =====
-- src/activations/arbor/storage.rs: owners hold positive counts, and so sums that tell whether there
-- is an owner.
use mneme_substrate.Base.{
  ℕ, String, Bool, true, false, some, List, [], ◌∷◌, All, if◌then◌else◌, ◌≡◌, ◌≤◌, refl, arith,
}
use mneme_substrate.Base.Int.{ℤ, ◌+ℤ◌, is_zero, IsPositive, pos_part, neg_part, +ℤ-parts}
use mneme_substrate.Arbor.Types.{TreeId, RefRow, is_ref}
use mneme_substrate.Arbor.Trees.{claim_ref, find_ref, release_ref}
use mneme_substrate.Arbor.Counts.{total}

abbrev pub AllPositive : List RefRow → Type 0
AllPositive rows = All (λ (r : RefRow). IsPositive r.held) rows

pub total_nonneg :
    (id : TreeId) (rs : List RefRow)
    → AllPositive rs
    → neg_part (total id rs) ≤ pos_part (total id rs)
unfolding total
total_nonneg id [] h = omega arith
total_nonneg id (r ∷ rs) (here, there) =
    ground (arith, total_nonneg id rs there, here, +ℤ-parts r.held (total id rs))

pub total-IsPositive :
    (id : TreeId) (owner : String) (c : ℤ) (rs : List RefRow)
    → find_ref id owner rs ≡ some c
    → AllPositive rs
    → IsPositive (total id rs)
unfolding total find_ref
total-IsPositive id owner c [] eq h = absurd (cc eq)
total-IsPositive id owner c (r ∷ rs) eq (here, there) = ground (
  arith,
  total-IsPositive id owner c rs,
  total_nonneg id rs there,
  here,
  eq,
  there,
  +ℤ-parts r.held (total id rs),
)

pub claim_ref-AllPositive :
    (id : TreeId) (owner : String) (n : ℤ) (now : ℕ) (rs : List RefRow)
    → IsPositive n
    → AllPositive rs
    → AllPositive (claim_ref id owner n now rs)
unfolding claim_ref
claim_ref-AllPositive id owner n now [] p h = (p, tt)
claim_ref-AllPositive id owner n now (r ∷ rs) p (here, there) =
    go (is_ref id owner r) (claim_ref-AllPositive id owner n now rs p there)
  where
    go :
        (b : Bool)
        → AllPositive (claim_ref id owner n now rs)
        → AllPositive (
            if b
            then record r { held = r.held +ℤ n; claimed_at = now } ∷ rs
            else r ∷ claim_ref id owner n now rs)
    go true rest = (omega (arith, +ℤ-parts r.held n), there)
    go false rest = (here, rest)

pub release_ref-AllPositive :
    (id : TreeId) (owner : String) (left : ℤ) (now : ℕ) (rs : List RefRow)
    → neg_part left ≤ pos_part left
    → AllPositive rs
    → AllPositive (release_ref id owner left now rs)
unfolding release_ref
release_ref-AllPositive id owner left now [] p h = tt
release_ref-AllPositive id owner left now (r ∷ rs) p (here, there) =
    go (is_ref id owner r) (is_zero left) refl
      (release_ref-AllPositive id owner left now rs p there)
  where
    go :
        (b z : Bool)
        → is_zero left ≡ z
        → AllPositive (release_ref id owner left now rs)
        → AllPositive (
            if b
            then (if z then rs else record r { held = left; claimed_at = now } ∷ rs)
            else r ∷ release_ref id owner left now rs)
    go true true zero rest = there
    go true false some_left rest = (ground (arith, p, some_left), there)
    go false z _ rest = (here, rest)

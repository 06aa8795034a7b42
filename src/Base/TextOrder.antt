-- ===== src/Base/TextOrder.antt =====
-- The order of texts: Rust's `cmp` on `str`.
use Prim.Native.Char.{code}
use Prim.Native.Nat.{ℕ, Ordering, compare as compare_ℕ}
use Prim.Native.String.{String, compare, then}
use Prim.Native.String.compare
use mathlib.Core.Path.{◌≡◌, sym, ◌∙◌}
use native.Mathlib.Omega.{arith}

then-flip :
    (m n : ℕ) (o p : Ordering)
    → (o ≡ Ordering.gt → p ≡ Ordering.lt)
    → then (compare_ℕ m n) o ≡ Ordering.gt
    → then (compare_ℕ n m) p ≡ Ordering.lt
then-flip m n o p ih h = ground (arith, ih, h)

then_trans :
    (l m n : ℕ) (o p q : Ordering)
    → (o ≡ Ordering.lt → p ≡ Ordering.lt → q ≡ Ordering.lt)
    → then (compare_ℕ l m) o ≡ Ordering.lt
    → then (compare_ℕ m n) p ≡ Ordering.lt
    → then (compare_ℕ l n) q ≡ Ordering.lt
then_trans l m n o p q ih h k = ground (arith, ih, h, k)

pub compare-flip : (s t : String) → compare s t ≡ Ordering.gt → compare t s ≡ Ordering.lt
compare-flip String.[] String.[] h = absurd (cc (h, compare.nil-nil))
compare-flip String.[] (String.◌∷◌ d t) h = absurd (cc (sym (compare.nil-cons d t) ∙ h))
compare-flip (String.◌∷◌ c s) String.[] h = compare.nil-cons c s
compare-flip (String.◌∷◌ c s) (String.◌∷◌ d t) h =
    compare.cons-cons d c t s
    ∙ then-flip (code c) (code d) (compare s t) (compare t s) (compare-flip s t)
        (sym (compare.cons-cons c d s t) ∙ h)

pub compare_trans :
    (s t u : String)
    → compare s t ≡ Ordering.lt
    → compare t u ≡ Ordering.lt
    → compare s u ≡ Ordering.lt
compare_trans String.[] String.[] u h k = k
compare_trans String.[] (String.◌∷◌ d t) String.[] h k =
    absurd (cc (sym (compare.cons-nil d t) ∙ k))
compare_trans String.[] (String.◌∷◌ d t) (String.◌∷◌ e u) h k = compare.nil-cons e u
compare_trans (String.◌∷◌ c s) String.[] u h k = absurd (cc (sym (compare.cons-nil c s) ∙ h))
compare_trans (String.◌∷◌ c s) (String.◌∷◌ d t) String.[] h k =
    absurd (cc (sym (compare.cons-nil d t) ∙ k))
compare_trans (String.◌∷◌ c s) (String.◌∷◌ d t) (String.◌∷◌ e u) h k =
    compare.cons-cons c e s u
    ∙ then_trans (code c) (code d) (code e) (compare s t) (compare t u) (compare s u)
        (compare_trans s t u) (sym (compare.cons-cons c d s t) ∙ h)
        (sym (compare.cons-cons d e t u) ∙ k)

then-back :
    (m n : ℕ) (o p : Ordering)
    → (o ≡ Ordering.lt → p ≡ Ordering.gt)
    → then (compare_ℕ m n) o ≡ Ordering.lt
    → then (compare_ℕ n m) p ≡ Ordering.gt
then-back m n o p ih h = ground (arith, ih, h)

pub compare-back : (s t : String) → compare s t ≡ Ordering.lt → compare t s ≡ Ordering.gt
compare-back String.[] String.[] h = absurd (cc (h, compare.nil-nil))
compare-back String.[] (String.◌∷◌ d t) h = compare.cons-nil d t
compare-back (String.◌∷◌ c s) String.[] h = absurd (cc (sym (compare.cons-nil c s) ∙ h))
compare-back (String.◌∷◌ c s) (String.◌∷◌ d t) h =
    compare.cons-cons d c t s
    ∙ then-back (code c) (code d) (compare s t) (compare t s) (compare-back s t)
        (sym (compare.cons-cons c d s t) ∙ h)

-- ===== src/Base/Exec/Safe.antt =====
-- Actions that never raise where `P` holds, keep `P`, and return a value of which `Q` holds: one
-- rule for each way to build an action.
use mneme_substrate.Base.Lists.{All}
use mneme_substrate.Base.Tests.{if◌then◌else◌}
use mathlib.Core.Bool.{Bool, true, false}
use mathlib.Core.List.{List, [], ◌∷◌}
use mathlib.Core.Path.{◌≡◌, refl, subst}
use mneme_substrate.Base.Outcome.{Result, ok, err}
use mneme_substrate.Base.Exec.{
  Exec, pure, gets, attempt, to_option, modify, continue, ◌>>=◌, fold_exec,
}

pub record Lands {S E A : Type 0} (P : S → Type 0) (Q : A → Type 0) (r : Result E A × S)
    : Type 0 where
  pub value : A
  pub returns : r.0 ≡ ok value
  pub good : Q value
  pub holds : P r.1

pub record Safe {S E A : Type 0} (P : S → Type 0) (Q : A → Type 0) (m : Exec S E A) : Type 0 where
  pub at : (s : S) → P s → Lands P Q (m s)

abbrev pub Any : {A : Type 0} → A → Type 0
Any _ = Unit

module _ {S E A : Type 0} {P : S → Type 0} {Q : A → Type 0} where
  pub Safe-pure : (a : A) → Q a → Safe {E = E} P Q (pure a)
  unfolding pure
  Safe-pure a q = record { at = λ s h. record { value = a; returns = refl; good = q; holds = h } }

  pub Safe-attempt : (m : Exec S E A) → Safe P Q m → Safe P Any (attempt m)
  unfolding attempt
  Safe-attempt m k = record {
    at = λ s h. record {
      value = to_option (m s).0;
      returns = refl;
      good = tt;
      holds = (k.at s h).holds;
    };
  }

  pub Safe-if :
      (b : Bool) (m n : Exec S E A) → Safe P Q m → Safe P Q n → Safe P Q (if b then m else n)
  Safe-if true m n km kn = km
  Safe-if false m n km kn = kn

module _ {S E : Type 0} {P : S → Type 0} where
  pub Safe-modify : (f : S → S) → ((s : S) → P s → P (f s)) → Safe {E = E} P Any (modify f)
  unfolding modify
  Safe-modify f k = record {
    at = λ s h. record { value = tt; returns = refl; good = tt; holds = k s h };
  }

returned : {E A : Type 0} {a b : A} → ◌≡◌ {A = Result E A} (ok a) (ok b) → b ≡ a
returned e = cc

module _ {S E A B : Type 0} {P : S → Type 0} {Q : A → Type 0} {R : B → Type 0} where
  Safe-continue :
      (r : Result E A) (s : S) (f : A → Exec S E B)
      → ((a : A) → Q a → Safe P R (f a))
      → Lands P Q (r, s)
      → Lands P R (continue r f s)
  Safe-continue (ok a) s f k l = (k a (subst Q (returned l.returns) l.good)).at s l.holds
  Safe-continue (err e) s f k l = absurd (cc l.returns)

  pub Lands-bind :
      (m : Exec S E A) (f : A → Exec S E B) (s : S)
      → Lands P Q (m s)
      → ((a : A) → Q a → Safe P R (f a))
      → Lands P R ((m >>= f) s)
  unfolding ◌>>=◌
  Lands-bind m f s l k = Safe-continue (m s).0 (m s).1 f k l

  pub Safe-bind :
      (m : Exec S E A) (f : A → Exec S E B)
      → Safe P Q m
      → ((a : A) → Q a → Safe P R (f a))
      → Safe P R (m >>= f)
  unfolding ◌>>=◌
  Safe-bind m f km kf = record { at = λ s h. Safe-continue (m s).0 (m s).1 f kf (km.at s h) }

module _ {S E A B : Type 0} {P : S → Type 0} {R : B → Type 0} where
  -- What is read from a state of which `P` holds can be used behind it.
  pub Safe-gets :
      (f : S → A) (k : A → Exec S E B)
      → ((s : S) → P s → Lands P R (k (f s) s))
      → Safe P R (gets f >>= k)
  unfolding ◌>>=◌
  Safe-gets f k h = record { at = h }

module _ {S E A B : Type 0} {P : S → Type 0} {Q : A → Type 0} {R : B → Type 0} where
  pub Safe-fold :
      (body : A → B → Exec S E A) (a : A) (xs : List B)
      → Q a
      → All R xs
      → ((a : A) (x : B) → Q a → R x → Safe P Q (body a x))
      → Safe P Q (fold_exec body a xs)
  unfolding fold_exec
  Safe-fold body a [] q r k = Safe-pure a q
  Safe-fold body a (x ∷ xs) q r k =
      Safe-bind (body a x) (λ a'. fold_exec body a' xs) (k a x q r.0)
        (λ a' q'. Safe-fold body a' xs q' r.1 k)

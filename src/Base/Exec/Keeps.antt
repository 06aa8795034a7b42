-- ===== src/Base/Exec/Keeps.antt =====
-- Invariants of actions, whether they return or raise: one rule for each way to build an action.
use mneme_substrate.Base.Tests.{if◌then◌else◌}
use mathlib.Core.Bool.{Bool, true, false}
use mathlib.Core.List.{List, [], ◌∷◌}
use mneme_substrate.Base.Outcome.{Result, ok, err}
use mneme_substrate.Base.Exec.{Exec, pure, raise, gets, attempt, modify, continue, ◌>>=◌, fold_exec}

pub record Keeps {S E A : Type 0} (P : S → Type 0) (m : Exec S E A) : Type 0 where
  pub at : (s : S) → P s → P (m s).1

module _ {S E A : Type 0} {P : S → Type 0} where
  pub Keeps-pure : (a : A) → Keeps {E = E} P (pure a)
  unfolding pure
  Keeps-pure a = record { at = λ s h. h }

  pub Keeps-raise : (e : E) → Keeps P (raise {A = A} e)
  unfolding raise
  Keeps-raise e = record { at = λ s h. h }

  pub Keeps-gets : (f : S → A) → Keeps {E = E} P (gets f)
  unfolding gets
  Keeps-gets f = record { at = λ s h. h }

  pub Keeps-attempt : (m : Exec S E A) → Keeps P m → Keeps P (attempt m)
  unfolding attempt
  Keeps-attempt m k = record { at = k.at }

  pub Keeps-if :
      (b : Bool) (m n : Exec S E A) → Keeps P m → Keeps P n → Keeps P (if b then m else n)
  Keeps-if true m n km kn = km
  Keeps-if false m n km kn = kn

-- At one state, where the test reads the state.
pub keeps_if :
    {S E A : Type 0} (P : S → Type 0) (b : Bool) (m n : Exec S E A) (s : S)
    → P (m s).1
    → P (n s).1
    → P ((if b then m else n) s).1
keeps_if P true m n s hm hn = hm
keeps_if P false m n s hm hn = hn

module _ {S E : Type 0} {P : S → Type 0} where
  pub Keeps-modify : (f : S → S) → ((s : S) → P s → P (f s)) → Keeps {E = E} P (modify f)
  unfolding modify
  Keeps-modify f k = record { at = k }

module _ {S E A B : Type 0} {P : S → Type 0} where
  Keeps-continue :
      (r : Result E A) (f : A → Exec S E B) → ((a : A) → Keeps P (f a)) → Keeps P (continue r f)
  Keeps-continue (ok a) f k = record { at = (k a).at }
  Keeps-continue (err e) f k = record { at = λ s h. h }

  pub Keeps-bind :
      (m : Exec S E A) (f : A → Exec S E B)
      → Keeps P m
      → ((a : A) → Keeps P (f a))
      → Keeps P (m >>= f)
  unfolding ◌>>=◌
  Keeps-bind m f km kf = record { at = λ s h. (Keeps-continue (m s).0 f kf).at (m s).1 (km.at s h) }

module _ {S E A B : Type 0} {P : S → Type 0} where
  pub Keeps-fold :
      (body : A → B → Exec S E A) (a : A) (xs : List B)
      → ((a : A) (x : B) → Keeps P (body a x))
      → Keeps P (fold_exec body a xs)
  unfolding fold_exec
  Keeps-fold body a [] k = Keeps-pure a
  Keeps-fold body a (x ∷ xs) k =
      Keeps-bind (body a x) (λ a'. fold_exec body a' xs) (k a x) (λ a'. Keeps-fold body a' xs k)

pub ruleset keeps_rules = (
  Keeps-pure, Keeps-raise, Keeps-gets, Keeps-attempt, Keeps-if, Keeps-modify, Keeps-bind,
  Keeps-fold,
)

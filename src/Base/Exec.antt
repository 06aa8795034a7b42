-- ===== src/Base/Exec.antt =====
-- Code that changes a state and may return early with `?`. What was written before an error stays
-- written (no statement of the modelled code runs in a transaction), so the state comes back
-- beside the error too.
pub mod Keeps
pub mod Safe
use mathlib.Core.Bool.{Bool, true, false}
use mathlib.Core.List.{List, [], ◌∷◌}
use mathlib.Core.Option.{Option, none, some}
use mneme_substrate.Base.Outcome.{Result, ok, err}

abbrev pub Exec : Type 0 → Type 0 → Type 0 → Type 0
Exec S E A = S → Result E A × S

abbrev pub to_option : {E A : Type 0} → Result E A → Option A
to_option (ok a) = some a
to_option (err e) = none

module _ {S E A : Type 0} where
  unfoldable pub pure : A → Exec S E A
  pure a s = (ok a, s)

  unfoldable pub raise : E → Exec S E A
  raise e s = (err e, s)

  unfoldable pub gets : (S → A) → Exec S E A
  gets f s = (ok (f s), s)

  -- `if let Ok(a) = …` and `let _ = …`: the error is dropped, and the writes stay.
  unfoldable pub attempt : Exec S E A → Exec S E (Option A)
  attempt m s = let (r, s') = m s in (ok (to_option r), s')

module _ {S E : Type 0} where
  unfoldable pub modify : (S → S) → Exec S E (Unit {0})
  modify f s = (ok tt, f s)

module _ {S E A B : Type 0} where
  abbrev pub continue : Result E A → (A → Exec S E B) → Exec S E B
  continue (ok a) f s = f a s
  continue (err e) f s = (err e, s)

  infixl 10 ◌>>=◌ ◌>>◌
  -- Opening this opens the other actions too.
  unfoldable pub ◌>>=◌ : Exec S E A → (A → Exec S E B) → Exec S E B
  unfolding pure raise gets attempt modify
  ◌>>=◌ m f s = let (r, s') = m s in continue r f s'

  abbrev pub ◌>>◌ : Exec S E A → Exec S E B → Exec S E B
  m >> n = m >>= λ _. n

module _ {S E A B : Type 0} where
  -- `for x in xs { acc = body(acc, x)? }`
  unfoldable pub fold_exec : (A → B → Exec S E A) → A → List B → Exec S E A
  unfolding ◌>>=◌
  fold_exec body a [] = pure a
  fold_exec body a (x ∷ xs) = do a' ← body a x; fold_exec body a' xs

abbrev pub with_error : {E F A : Type 0} → (E → F) → Result E A → Result F A
with_error f (ok a) = ok a
with_error f (err e) = err (f e)

module _ {S E F A : Type 0} where
  -- `m.map_err(f)`
  unfoldable pub map_err : (E → F) → Exec S E A → Exec S F A
  map_err f m s = let (r, s') = m s in (with_error f r, s')

-- ===== src/Base/Outcome.antt =====
-- Rust's `Result<A, E>`.
use mathlib.Core.Path.{◌≡◌, refl, ap}
use mathlib.Core.Bool.{Bool, true, false}

pub data Result {ℓ κ} (E : Type ℓ) (A : Type κ) : Type (ℓ ⊔ κ) where
  ok : A → Result E A
  err : E → Result E A

-- `?`
abbrev pub and_then {ℓ κ} : {E : Type ℓ} {A B : Type κ} → Result E A → (A → Result E B) → Result E B
and_then (ok a) f = f a
and_then (err e) f = err e

abbrev pub is_ok {ℓ κ} : {E : Type ℓ} {A : Type κ} → Result E A → Bool
is_ok (ok _) = true
is_ok (err _) = false

abbrev result_or {ℓ κ} : {E : Type ℓ} {A : Type κ} → A → Result E A → A
result_or d (ok a) = a
result_or d (err _) = d

pub ok_inj {ℓ κ} : {E : Type ℓ} {A : Type κ} {a b : A} → ◌≡◌ {A = Result E A} (ok a) (ok b) → a ≡ b
ok_inj {a = a} eq = ap (result_or a) eq

module _ {ℓ κ} {E : Type ℓ} {A B : Type κ} where
  -- A chain that returns has a first step that returns.
  pub and_then-ok :
      (r : Result E A) {f : A → Result E B} {b : B}
      → and_then r f ≡ ok b
      → (a : A) × (r ≡ ok a) × (f a ≡ ok b)
  and_then-ok (ok a) eq = (a, refl, eq)
  and_then-ok (err e) eq = cc eq

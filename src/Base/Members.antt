-- ===== src/Base/Members.antt =====
-- Members of mapped and flattened lists.
use mathlib.Core.List.{List, [], ◌∷◌, ◌++◌, Memᴰ}
use mathlib.Core.List.Memᴰ
use mathlib.Core.Path.{◌≡◌, refl, sym, ap, ◌∙◌, subst}
use mathlib.Core.Bool.{Bool, true, false, ◌||◌, or_assoc, or-true, false≢true}
use mathlib.Core.Logic.{◌⊎◌, inl, inr}
use mneme_substrate.Base.Lists.{All, any, filter, insert_by, sort_by}
use mneme_substrate.Base.Tests.{leb, if◌then◌else◌}
use Prim.Native.Nat.{ℕ}

module _ {ℓ} {A B : Type ℓ} where
  abbrev pub flat_map : (A → List B) → List A → List B
  flat_map f [] = []
  flat_map f (x ∷ xs) = f x ++ flat_map f xs

  -- A member of what a list maps to comes from a member.
  pub flat_map-Mem :
      (f : A → List B) (xs : List A) {y : B}
      → Memᴰ y (flat_map f xs)
      → (x : A) × Memᴰ x xs × Memᴰ y (f x)
  flat_map-Mem f [] m = absurd (Memᴰ.not-nil m)
  flat_map-Mem f (x ∷ xs) m = elim (Memᴰ.append_cases (f x) m) [
    | inl here ↦ (x, Memᴰ.head refl, here)
    | inr there ↦ let (z, at, in_z) = flat_map-Mem f xs there in (z, Memᴰ.tail at, in_z)
  ]

  pub Mem-flat_map :
      (f : A → List B) {x : A} {y : B} {xs : List A}
      → Memᴰ x xs
      → Memᴰ y (f x)
      → Memᴰ y (flat_map f xs)
  Mem-flat_map f {xs = []} m _ = absurd (Memᴰ.not-nil m)
  Mem-flat_map f {y = y} {xs = z ∷ zs} (Memᴰ.head eq) m =
      Memᴰ.append_left (flat_map f zs) (subst (λ w. Memᴰ y (f w)) eq m)
  Mem-flat_map f {xs = z ∷ zs} (Memᴰ.tail at) m = Memᴰ.append_right (f z) (Mem-flat_map f at m)

module _ {ℓ κ} {A : Type ℓ} (P : A → Type κ) where
  pub All-Mem : (xs : List A) {x : A} → All P xs → Memᴰ x xs → P x
  All-Mem [] _ m = absurd (Memᴰ.not-nil m)
  All-Mem (y ∷ ys) (p, _) (Memᴰ.head eq) = subst P (sym eq) p
  All-Mem (y ∷ ys) (_, ps) (Memᴰ.tail m) = All-Mem ys ps m

pub any-++ {ℓ} :
    {A : Type ℓ} (p : A → Bool) (xs ys : List A) → any p (xs ++ ys) ≡ (any p xs || any p ys)
any-++ p [] ys = refl
any-++ p (x ∷ xs) ys = cc (or_assoc (p x) (any p xs) (any p ys), any-++ p xs ys)

-- Filtering keeps the members that pass, and sorting keeps all.
module _ {ℓ} {A : Type ℓ} where
  pub filter-Mem :
      (p : A → Bool) {x : A} (xs : List A) → p x ≡ true → Memᴰ x xs → Memᴰ x (filter p xs)
  filter-Mem p [] pass m = absurd (Memᴰ.not-nil m)
  filter-Mem p {x = x} (y ∷ ys) pass (Memᴰ.head eq) = here (p y) (sym (ap p eq) ∙ pass)
    where
      here : (b : Bool) → b ≡ true → Memᴰ x (if b then y ∷ filter p ys else filter p ys)
      here true _ = Memᴰ.head eq
      here false wrong = absurd (false≢true wrong)
  filter-Mem p {x = x} (y ∷ ys) pass (Memᴰ.tail m) = there (p y) (filter-Mem p ys pass m)
    where
      there :
          (b : Bool) → Memᴰ x (filter p ys) → Memᴰ x (if b then y ∷ filter p ys else filter p ys)
      there true m' = Memᴰ.tail m'
      there false m' = m'

  insert_by-Mem :
      (key : A → ℕ) (y : A) {x : A} (xs : List A)
      → (x ≡ y) ⊎ Memᴰ x xs
      → Memᴰ x (insert_by key y xs)
  insert_by-Mem key y [] (inl eq) = Memᴰ.head eq
  insert_by-Mem key y [] (inr m) = absurd (Memᴰ.not-nil m)
  insert_by-Mem key y {x = x} (z ∷ zs) at = go (leb (key y) (key z)) at (insert_by-Mem key y zs)
    where
      go :
          (b : Bool)
          → (x ≡ y) ⊎ Memᴰ x (z ∷ zs)
          → ((x ≡ y) ⊎ Memᴰ x zs → Memᴰ x (insert_by key y zs))
          → Memᴰ x (if b then y ∷ z ∷ zs else z ∷ insert_by key y zs)
      go true (inl eq) _ = Memᴰ.head eq
      go true (inr m) _ = Memᴰ.tail m
      go false (inl eq) rest = Memᴰ.tail (rest (inl eq))
      go false (inr (Memᴰ.head eq)) rest = Memᴰ.head eq
      go false (inr (Memᴰ.tail m)) rest = Memᴰ.tail (rest (inr m))

  pub sort_by-Mem : (key : A → ℕ) {x : A} (xs : List A) → Memᴰ x xs → Memᴰ x (sort_by key xs)
  sort_by-Mem key [] m = absurd (Memᴰ.not-nil m)
  sort_by-Mem key (y ∷ ys) (Memᴰ.head eq) = insert_by-Mem key y (sort_by key ys) (inl eq)
  sort_by-Mem key (y ∷ ys) (Memᴰ.tail m) =
      insert_by-Mem key y (sort_by key ys) (inr (sort_by-Mem key ys m))

  pub any-Mem : (p : A → Bool) {x : A} (xs : List A) → p x ≡ true → Memᴰ x xs → any p xs ≡ true
  any-Mem p [] pass m = absurd (Memᴰ.not-nil m)
  any-Mem p (y ∷ ys) pass (Memᴰ.head eq) = ap (λ b. b || any p ys) (sym (ap p eq) ∙ pass)
  any-Mem p (y ∷ ys) pass (Memᴰ.tail m) = ap (λ b. p y || b) (any-Mem p ys pass m) ∙ or-true (p y)

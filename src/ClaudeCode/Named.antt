-- ===== src/ClaudeCode/Named.antt =====
-- src/activations/claudecode/storage.rs: each session of the table is found by its id and by its name.
use Prim.Native.String.{String}
use text.Mathlib.TextEquality.{eq_iff}
use mathlib.Core.List.{Memᴰ}
use mathlib.Core.List.Memᴰ
use mathlib.Core.Bool.{false≢true}
use mneme_substrate.Base.{
  ℕ, Bool, true, false, some, List, [], ◌∷◌, any, if◌then◌else◌, ◌==◌, ==_iff, ◌||◌, ◌≡◌, refl, sym,
  ap, ◌∙◌, subst, arith, inl, inr, Bool-cases,
}
use mneme_substrate.Base.Members.{any-Mem}
use mneme_substrate.Base.Text.{same_text}
use mneme_substrate.ClaudeCode.Types.{ClaudeCodeId, Model}
use mneme_substrate.ClaudeCode.SessionTable.{
  SessionRow, as_str, from_str, find_id, find_name, has_id, has_name,
}
use mneme_substrate.ClaudeCode.Sessions.{change_row}

-- The ids differ, and the names, and each model is one that is read.
abbrev pub IsNamed : List SessionRow → Type 0
IsNamed [] = Unit
IsNamed (r ∷ rows) =
    (has_id r.id rows ≡ false)
    × (has_name r.name rows ≡ false)
    × ((m : Model) × (from_str r.model ≡ some m))
    × IsNamed rows

none-Mem :
    (p : SessionRow → Bool) {r : SessionRow} (rows : List SessionRow)
    → any p rows ≡ false
    → Memᴰ r rows
    → p r ≡ false
none-Mem p {r = r} rows h m = elim (Bool-cases (p r)) [
  | inl pass ↦ absurd (false≢true (sym h ∙ any-Mem p rows pass m))
  | inr fail ↦ fail
]

flip_id : (a b : ℕ) → (a == b) ≡ false → (b == a) ≡ false
flip_id a b h = ground (arith, h)

pub flip_name : (a b : String) → same_text a b ≡ false → same_text b a ≡ false
flip_name a b h = elim (Bool-cases (same_text b a)) [
  | inl same ↦ absurd (false≢true (sym h ∙ (eq_iff a b).1 (sym ((eq_iff b a).0 same))))
  | inr apart ↦ apart
]

-- A member of the table is the first row with its id, and the first with its name.
pub find-Mem :
    (r : SessionRow) (rows : List SessionRow)
    → IsNamed rows
    → Memᴰ r rows
    → (find_id r.id rows ≡ some r) × (find_name r.name rows ≡ some r)
unfolding find_id find_name
find-Mem r [] h m = absurd (Memᴰ.not-nil m)
find-Mem r (y ∷ rows) h (Memᴰ.head eq) =
    subst (λ z. (find_id r.id (z ∷ rows) ≡ some r) × (find_name r.name (z ∷ rows) ≡ some r)) eq
      (simp ((==_iff r.id r.id).1 refl) refl, simp ((eq_iff r.name r.name).1 refl) refl)
find-Mem r (y ∷ rows) (ids, names, typed, rest) (Memᴰ.tail m) =
    let (by_id, by_name) = find-Mem r rows rest m in
    let id_apart = flip_id r.id y.id (none-Mem (λ (z : SessionRow). z.id == y.id) rows ids m) in
    let name_apart =
      flip_name r.name y.name
        (none-Mem (λ (z : SessionRow). same_text z.name y.name) rows names m) in
    (simp (id_apart) by_id, simp (name_apart) by_name)

pub as_str-from_str : (m : Model) → from_str (as_str m) ≡ some m
unfolding from_str as_str
as_str-from_str Model.opus = refl
as_str-from_str Model.sonnet = refl
as_str-from_str Model.haiku = refl

module _ (id : ClaudeCodeId) (f : SessionRow → SessionRow) where
  pub change_row-absent :
      (rows : List SessionRow) → has_id id rows ≡ false → change_row id f rows ≡ rows
  unfolding change_row
  change_row-absent [] h = refl
  change_row-absent (r ∷ rows) h = go (r.id == id) h (change_row-absent rows)
    where
      go :
          (b : Bool)
          → (b || has_id id rows) ≡ false
          → (has_id id rows ≡ false → change_row id f rows ≡ rows)
          → (if b then f r else r) ∷ change_row id f rows ≡ r ∷ rows
      go true h ih = absurd (false≢true (sym h))
      go false h ih = ap (λ rest. r ∷ rest) (ih h)

  pub has_id-change_row :
      ((r : SessionRow) → (f r).id ≡ r.id)
      → (j : ClaudeCodeId) (rows : List SessionRow)
      → has_id j (change_row id f rows) ≡ has_id j rows
  unfolding change_row
  has_id-change_row keep j [] = refl
  has_id-change_row keep j (r ∷ rows) =
      ap (λ b. b || has_id j (change_row id f rows)) (go (r.id == id))
      ∙ ap (λ b. (r.id == j) || b) (has_id-change_row keep j rows)
    where
      go : (b : Bool) → ((if b then f r else r).id == j) ≡ (r.id == j)
      go true = ap (λ i. i == j) (keep r)
      go false = refl

  -- Changes that keep the names.
  module _
      (keep : (r : SessionRow)
        → ((f r).id ≡ r.id) × ((f r).name ≡ r.name) × ((f r).model ≡ r.model)) where
    has_name-change_row :
        (t : String) (rows : List SessionRow) → has_name t (change_row id f rows) ≡ has_name t rows
    unfolding change_row
    has_name-change_row t [] = refl
    has_name-change_row t (r ∷ rows) =
        ap (λ b. b || has_name t (change_row id f rows)) (go (r.id == id))
        ∙ ap (λ b. same_text r.name t || b) (has_name-change_row t rows)
      where
        go : (b : Bool) → same_text (if b then f r else r).name t ≡ same_text r.name t
        go true = ap (λ n. same_text n t) ((keep r).1)
        go false = refl

    pub change_row-IsNamed :
        (rows : List SessionRow) → IsNamed rows → IsNamed (change_row id f rows)
    unfolding change_row
    change_row-IsNamed [] h = tt
    change_row-IsNamed (r ∷ rows) (ids, names, (m, typed), rest) =
        go (r.id == id) (change_row-IsNamed rows rest)
      where
        at_id : (j : ClaudeCodeId) → has_id j (change_row id f rows) ≡ has_id j rows
        at_id j = has_id-change_row (λ r. (keep r).0) j rows

        go :
            (b : Bool)
            → IsNamed (change_row id f rows)
            → IsNamed ((if b then f r else r) ∷ change_row id f rows)
        go true ih = (
          at_id (f r).id ∙ ap (λ j. has_id j rows) (keep r).0 ∙ ids,
          has_name-change_row (f r).name rows ∙ ap (λ n. has_name n rows) (keep r).1 ∙ names,
          (m, ap from_str (keep r).2 ∙ typed),
          ih,
        )
        go false ih = (at_id r.id ∙ ids, has_name-change_row r.name rows ∙ names, (m, typed), ih)

-- ===== src/ClaudeCode/Renamed.antt =====
-- src/activations/claudecode/storage.rs: a session that gets a name no other has.
use Prim.Native.String.{String}
use mathlib.Core.Bool.{false≢true}
use mneme_substrate.Base.{
  Bool, true, false, not, some, List, [], ◌∷◌, if◌then◌else◌, ◌==◌, ==_iff, ◌||◌, ◌&&◌, ◌≡◌, refl,
  sym, ap, ◌∙◌, subst,
}
use mneme_substrate.Base.Text.{same_text}
use mneme_substrate.ClaudeCode.Types.{ClaudeCodeId, Model}
use mneme_substrate.ClaudeCode.SessionTable.{SessionRow, from_str, has_id, has_name}
use mneme_substrate.ClaudeCode.Sessions.{change_row, is_taken}
use mneme_substrate.ClaudeCode.Named.{IsNamed, change_row-absent, has_id-change_row, flip_name}

taken-absent :
    (id : ClaudeCodeId) (name : String) (rows : List SessionRow)
    → has_id id rows ≡ false
    → is_taken id name rows ≡ false
    → has_name name rows ≡ false
taken-absent id name [] absent free = refl
taken-absent id name (r ∷ rows) absent free =
    go (r.id == id) (same_text r.name name) absent free (taken-absent id name rows)
  where
    go :
        (a b : Bool)
        → (a || has_id id rows) ≡ false
        → ((not a && b) || is_taken id name rows) ≡ false
        → (has_id id rows ≡ false → is_taken id name rows ≡ false → has_name name rows ≡ false)
        → (b || has_name name rows) ≡ false
    go true b absent free ih = absurd (false≢true (sym absent))
    go false true absent free ih = absurd (false≢true (sym free))
    go false false absent free ih = ih absent free

-- The session gets a name that no other has.
module _ (id : ClaudeCodeId) (name : String) (f : SessionRow → SessionRow)
    (keep : (r : SessionRow) → (f r).id ≡ r.id) (named : (r : SessionRow) → (f r).name ≡ name)
    (typed : (r : SessionRow) → (m : Model) × (from_str (f r).model ≡ some m)) where
  renamed-apart :
      (t : String) (rows : List SessionRow)
      → same_text name t ≡ false
      → has_name t rows ≡ false
      → has_name t (change_row id f rows) ≡ false
  unfolding change_row
  renamed-apart t [] apart h = refl
  renamed-apart t (r ∷ rows) apart h =
      go (r.id == id) (same_text r.name t) refl h (renamed-apart t rows apart)
    where
      go :
          (a b : Bool)
          → same_text r.name t ≡ b
          → (b || has_name t rows) ≡ false
          → (has_name t rows ≡ false → has_name t (change_row id f rows) ≡ false)
          → has_name t ((if a then f r else r) ∷ change_row id f rows) ≡ false
      go a true at h ih = absurd (false≢true (sym h))
      go true false at h ih =
          ap (λ b. b || has_name t (change_row id f rows))
            (ap (λ n. same_text n t) (named r) ∙ apart)
          ∙ ih h
      go false false at h ih = ap (λ b. b || has_name t (change_row id f rows)) at ∙ ih h

  pub renamed-IsNamed :
      (rows : List SessionRow)
      → is_taken id name rows ≡ false
      → IsNamed rows
      → IsNamed (change_row id f rows)
  unfolding change_row
  renamed-IsNamed [] free h = tt
  renamed-IsNamed (r ∷ rows) free (ids, names, of_model, rest) =
      go (r.id == id) (same_text r.name name) refl refl free
        (λ free. renamed-IsNamed rows free rest)
    where
      go :
          (a b : Bool)
          → (r.id == id) ≡ a
          → same_text r.name name ≡ b
          → ((not a && b) || is_taken id name rows) ≡ false
          → (is_taken id name rows ≡ false → IsNamed (change_row id f rows))
          → IsNamed ((if a then f r else r) ∷ change_row id f rows)
      go true b same at free ih =
          let absent : has_id id rows ≡ false =
            ap (λ i. has_id i rows) (sym ((==_iff r.id id).0 same)) ∙ ids in
          subst (λ rest. IsNamed (f r ∷ rest)) (sym (change_row-absent id f rows absent))
            (
              ap (λ i. has_id i rows) (keep r) ∙ ids,
              ap (λ n. has_name n rows) (named r) ∙ taken-absent id name rows absent free,
              typed r,
              rest,
            )
      go false true same at free ih = absurd (false≢true (sym free))
      go false false same at free ih = (
        has_id-change_row id f keep r.id rows ∙ ids,
        renamed-apart r.name rows (flip_name r.name name at) names,
        of_model,
        ih free,
      )

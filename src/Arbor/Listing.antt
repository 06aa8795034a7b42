-- ===== src/Arbor/Listing.antt =====
-- src/activations/arbor/activation.rs: what the methods list.
use mathlib.Core.List.{Memᴰ}
use mathlib.Core.List.Memᴰ
use mneme_substrate.Base.{
  ℕ, Bool, true, false, ◌||◌, some, List, [], ◌∷◌, filter, map, if◌then◌else◌, ◌≡◌, refl, sym,
  arith,
}
use mneme_substrate.Arbor.Types.{
  TreeId, TreeRow, ArborStorage, is_active, is_scheduled, is_archived,
}
use mneme_substrate.Arbor.Trees.{tree_list}
use mneme_substrate.Arbor.Service.{answer, list_archived, trees_archived}

-- What is listed is the id of a row that passes.
listed :
    (p : TreeRow → Bool) (ts : List TreeRow) (id : TreeId)
    → Memᴰ id (map (λ (t : TreeRow). t.id) (filter p ts))
    → (t : TreeRow) × Memᴰ t ts × (t.id ≡ id) × (p t ≡ true)
listed p [] id m = absurd (Memᴰ.not-nil m)
listed p (t ∷ ts) id m = go (p t) refl m (listed p ts id)
  where
    go :
        (b : Bool)
        → p t ≡ b
        → Memᴰ id (map (λ (u : TreeRow). u.id) (if b then t ∷ filter p ts else filter p ts))
        → (Memᴰ id (map (λ (u : TreeRow). u.id) (filter p ts))
            → (u : TreeRow) × Memᴰ u ts × (u.id ≡ id) × (p u ≡ true))
        → (u : TreeRow) × Memᴰ u (t ∷ ts) × (u.id ≡ id) × (p u ≡ true)
    go true e (Memᴰ.head eq) ih = (t, Memᴰ.head refl, sym eq, e)
    go true e (Memᴰ.tail m') ih = let (u, at, eq, pass) = ih m' in (u, Memᴰ.tail at, eq, pass)
    go false e m' ih = let (u, at, eq, pass) = ih m' in (u, Memᴰ.tail at, eq, pass)

not_archived :
    (t : TreeRow) → (is_active t.state || is_scheduled t.state) ≡ true → is_archived t.state ≡ false
not_archived t h = ground (arith, h)

-- The method `tree_list_archived` answers with a list of archived trees, and each id in
-- it is that of a row that is not archived.
pub tree_list_archived-wrong :
    (fuel : ℕ) (s : ArborStorage)
    → (ids : List TreeId) × (answer fuel list_archived s ≡ some (trees_archived ids))
      × ((id : TreeId)
          → Memᴰ id ids
          → (t : TreeRow) × Memᴰ t s.trees × (t.id ≡ id) × (is_archived t.state ≡ false))
unfolding answer tree_list
tree_list_archived-wrong fuel s = (
  tree_list true s,
  refl,
  λ id m. let (t, at, eq, pass) = listed _ s.trees id m in (t, at, eq, not_archived t pass),
)

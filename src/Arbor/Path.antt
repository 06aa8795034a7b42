-- ===== src/Arbor/Path.antt =====
-- src/activations/arbor/storage.rs: `node_get_path` ends, and its answer is the way down to the node.
use mneme_substrate.Base.{
  ℕ, zero, suc, ◌&&◌, Option, none, some, List, [], ◌∷◌, length, All, ◌==◌, ◌≡◌, ◌≢◌, refl, sym, ap,
  ◌∙◌, subst, arith, inl, inr, Bool-cases, Result, ok, err, ok_inj,
}
use mneme_substrate.Arbor.Types.{TreeId, NodeId, ArborError, NodeRow, ArborStorage}
use mneme_substrate.Arbor.Nodes.{find_parent, path_loop, node_get_path, in_tree, then_parent}

-- No row has the id, and none names it as its parent.
abbrev pub IsNew : NodeId → List NodeRow → Type 0
IsNew id rows = All (λ (n : NodeRow). (n.id ≢ id) × (n.parent_id ≢ some id)) rows

-- The id of each row was new when the row was written.
abbrev pub IsForest : List NodeRow → Type 0
IsForest [] = Unit
IsForest (n ∷ ns) = (n.parent_id ≢ some n.id) × IsNew n.id ns × IsForest ns

-- The path goes down from `from`, each node the parent of the next, to `last`.
abbrev pub Descends : TreeId → List NodeRow → Option NodeId → List NodeId → NodeId → Type 0
Descends tree rows from [] last = from ≡ some last
Descends tree rows from (id ∷ ids) last =
    (find_parent tree id rows ≡ ok from) × Descends tree rows (some id) ids last

find_parent-IsNew :
    (tree : TreeId) (id c : NodeId) (p : Option NodeId) (rows : List NodeRow)
    → IsNew id rows
    → find_parent tree c rows ≡ ok p
    → p ≢ some id
unfolding find_parent
find_parent-IsNew tree id c p [] new eq = absurd (cc eq)
find_parent-IsNew tree id c p (n ∷ ns) (here, there) eq =
    elim (Bool-cases (in_tree tree n && (n.id == c))) [
      | inl found ↦
          let at : n.parent_id ≡ p = ok_inj (sym (simp (found) refl) ∙ eq) in λ e. here.1 (at ∙ e)
      | inr other ↦ find_parent-IsNew tree id c p ns there (sym (simp (other) refl) ∙ eq)
    ]

-- A parent is not the newest node.
find_parent-apart :
    (tree : TreeId) (c : NodeId) (p : Option NodeId) (n : NodeRow) (ns : List NodeRow)
    → IsForest (n ∷ ns)
    → find_parent tree c (n ∷ ns) ≡ ok p
    → p ≢ some n.id
unfolding find_parent
find_parent-apart tree c p n ns (self, new, forest) eq =
    elim (Bool-cases (in_tree tree n && (n.id == c))) [
      | inl found ↦
          let at : n.parent_id ≡ p = ok_inj (sym (simp (found) refl) ∙ eq) in λ e. self (at ∙ e)
      | inr other ↦ find_parent-IsNew tree n.id c p ns new (sym (simp (other) refl) ∙ eq)
    ]

find_parent-skip :
    (tree : TreeId) (c : NodeId) (n : NodeRow) (ns : List NodeRow)
    → n.id ≢ c
    → find_parent tree c (n ∷ ns) ≡ find_parent tree c ns
unfolding find_parent
find_parent-skip tree c n ns apart = ground arith

-- A walk that does not start at the newest node never meets it.
path_loop-skip :
    (fuel : ℕ) (tree : TreeId) (cur : Option NodeId) (path : List NodeId) (n : NodeRow)
    (ns : List NodeRow)
    → IsNew n.id ns
    → cur ≢ some n.id
    → path_loop fuel tree cur path (n ∷ ns) ≡ path_loop fuel tree cur path ns
unfolding path_loop
path_loop-skip fuel tree none path n ns new apart = refl
path_loop-skip zero tree (some c) path n ns new apart = refl
path_loop-skip (suc fuel) tree (some c) path n ns new apart =
    ap (λ r. then_parent r (λ p. path_loop fuel tree p (c ∷ path) (n ∷ ns)))
      (find_parent-skip tree c n ns (λ e. apart (ap some (sym e))))
    ∙ go (find_parent tree c ns) refl (λ p. path_loop-skip fuel tree p (c ∷ path) n ns new)
  where
    go :
        (r : Result ArborError (Option NodeId))
        → find_parent tree c ns ≡ r
        → ((p : Option NodeId)
            → p ≢ some n.id
            → path_loop fuel tree p (c ∷ path) (n ∷ ns) ≡ path_loop fuel tree p (c ∷ path) ns)
        → then_parent r (λ p. path_loop fuel tree p (c ∷ path) (n ∷ ns))
          ≡ then_parent r (λ p. path_loop fuel tree p (c ∷ path) ns)
    go (err e) eq ih = refl
    go (ok p) eq ih = ih p (find_parent-IsNew tree n.id c p ns new eq)

abbrev pub Ends : Option (Result ArborError (List NodeId)) → Type 0
Ends o = (r : Result ArborError (List NodeId)) × (o ≡ some r)

-- One round for each node, and one more, are enough.
path_loop-Ends :
    (tree : TreeId) (cur : Option NodeId) (path : List NodeId) (rows : List NodeRow)
    → IsForest rows
    → Ends (path_loop (suc (length rows)) tree cur path rows)
unfolding path_loop find_parent
path_loop-Ends tree none path rows forest = (ok path, refl)
path_loop-Ends tree (some c) path [] forest = (_, refl)
path_loop-Ends tree (some c) path (n ∷ ns) forest =
    go (find_parent tree c (n ∷ ns)) refl (λ p. path_loop-Ends tree p (c ∷ path) ns (forest.2))
  where
    go :
        (found : Result ArborError (Option NodeId))
        → find_parent tree c (n ∷ ns) ≡ found
        → ((p : Option NodeId) → Ends (path_loop (suc (length ns)) tree p (c ∷ path) ns))
        → Ends (then_parent found λ p. path_loop (suc (length ns)) tree p (c ∷ path) (n ∷ ns))
    go (err e) eq ih = (err e, refl)
    go (ok p) eq ih =
        let (r, at) = ih p in
        (
          r,
          path_loop-skip (suc (length ns)) tree p (c ∷ path) n ns forest.1
                (find_parent-apart tree c p n ns forest eq)
              ∙ at,
        )

path_inj :
    {a b : List NodeId}
    → ◌≡◌ {A = Option (Result ArborError (List NodeId))} (some (ok a)) (some (ok b))
    → a ≡ b
path_inj e = cc e

-- The walk keeps a way down to the node.
path_loop-Descends :
    (fuel : ℕ) (tree : TreeId) (cur : Option NodeId) (path out : List NodeId) (last : NodeId)
    (rows : List NodeRow)
    → Descends tree rows cur path last
    → path_loop fuel tree cur path rows ≡ some (ok out)
    → Descends tree rows none out last
unfolding path_loop
path_loop-Descends fuel tree none path out last rows down eq =
    subst (λ ids. Descends tree rows none ids last) (path_inj eq) down
path_loop-Descends zero tree (some c) path out last rows down eq = absurd (cc eq)
path_loop-Descends (suc fuel) tree (some c) path out last rows down eq =
    go (find_parent tree c rows) refl eq
      (λ p. path_loop-Descends fuel tree p (c ∷ path) out last rows)
  where
    go :
        (r : Result ArborError (Option NodeId))
        → find_parent tree c rows ≡ r
        → then_parent r (λ p. path_loop fuel tree p (c ∷ path) rows) ≡ some (ok out)
        → ((p : Option NodeId)
            → Descends tree rows p (c ∷ path) last
            → path_loop fuel tree p (c ∷ path) rows ≡ some (ok out)
            → Descends tree rows none out last)
        → Descends tree rows none out last
    go (err e) at eq ih = absurd (cc eq)
    go (ok p) at eq ih = ih p (at, down) eq

-- Where the id of each row was new when the row was written, the walk up from any id ends within
-- one round for each row and one more; if it answers with a path, this starts at a
-- node that has no parent, each of its nodes is the parent of the next, and it ends at the id.
pub node_get_path-Descends :
    (tree : TreeId) (id : NodeId) (s : ArborStorage)
    → IsForest s.nodes
    → Ends (node_get_path (suc (length s.nodes)) tree id s)
      × ((path : List NodeId)
          → node_get_path (suc (length s.nodes)) tree id s ≡ some (ok path)
          → Descends tree s.nodes none path id)
unfolding node_get_path
node_get_path-Descends tree id s forest = (
  path_loop-Ends tree (some id) [] s.nodes forest,
  λ path. path_loop-Descends (suc (length s.nodes)) tree (some id) [] path id s.nodes refl,
)

-- ===== src/Arbor/Created.antt =====
-- src/activations/arbor/storage.rs: a new node among its parent's children, and the node that is
-- written although its parent is missing.
use mathlib.Core.Bool.{or-true, and-false}
use mathlib.Core.List.{append-nil}
use mneme_substrate.Base.{
  ℕ, String, Bool, true, false, Option, some, List, [], ◌∷◌, ◌++◌, filter, map, insert_by, sort_by,
  All, if◌then◌else◌, leb, ◌==◌, ==_refl, ◌≡◌, ◌≢◌, ◌<◌, ◌≤◌, ==_iff, subst, refl, ap, ◌∙◌, arith,
  inl, inr, Bool-cases, ok, err,
}
use mneme_substrate.Base.Json.{Value}
use mneme_substrate.Arbor.Types.{
  TreeId, NodeId, ChildRow, NodeRow, ArborStorage, storage_error, text, has_tree, has_node,
}
use mneme_substrate.Arbor.Nodes.{
  get_node_children_internal, next_position, of_parent, add_child_to_parent, has_child,
  node_create_text, node_get_parent, find_parent, create_node, active_row,
}

abbrev place : ChildRow → ℕ
place c = c.position

-- The next place is behind those of the parent's children.
next_position-lt :
    (parent : NodeId) (m : ℕ) (cs : List ChildRow)
    → next_position parent cs ≤ m
    → All (λ c. place c < m) (filter (of_parent parent) cs)
unfolding next_position
next_position-lt parent m [] h = tt
next_position-lt parent m (c ∷ cs) h =
    go (of_parent parent c) refl (next_position-lt parent m cs (ground (arith, h)))
  where
    go :
        (b : Bool)
        → of_parent parent c ≡ b
        → All (λ d. place d < m) (filter (of_parent parent) cs)
        → All
            (λ d. place d < m)
            (if b then c ∷ filter (of_parent parent) cs else filter (of_parent parent) cs)
    go true mine rest = (ground (arith, h, mine), rest)
    go false other rest = rest

module _ {A : Type 0} (p : A → Bool) where
  filter-++ :
      (xs : List A) (y : A) → filter p (xs ++ y ∷ []) ≡ filter p xs ++ (if p y then y ∷ [] else [])
  filter-++ [] y = refl
  filter-++ (x ∷ xs) y = elim (Bool-cases (p x)) [
    | inl e ↦ simp (e, filter-++ xs y) refl
    | inr e ↦ simp (e, filter-++ xs y) refl
  ]

-- A row behind all others stays behind them in the order of the places.
insert_by-last :
    (c d : ChildRow) (cs : List ChildRow)
    → place c < place d
    → insert_by place c (cs ++ d ∷ []) ≡ insert_by place c cs ++ d ∷ []
insert_by-last c d [] lt = ground arith
insert_by-last c d (e ∷ cs) lt = elim (Bool-cases (leb (place c) (place e))) [
  | inl first ↦ simp (first) refl
  | inr later ↦ simp (later, insert_by-last c d cs lt) refl
]

sort_by-last :
    (d : ChildRow) (cs : List ChildRow)
    → All (λ c. place c < place d) cs
    → sort_by place (cs ++ d ∷ []) ≡ sort_by place cs ++ d ∷ []
sort_by-last d [] h = refl
sort_by-last d (c ∷ cs) (lt, rest) =
    ap (insert_by place c) (sort_by-last d cs rest) ∙ insert_by-last c d (sort_by place cs) lt

map-++ :
    {A B : Type 0} (f : A → B) (xs : List A) (y : A) → map f (xs ++ y ∷ []) ≡ map f xs ++ f y ∷ []
map-++ f [] y = refl
map-++ f (x ∷ xs) y = ap (λ l. f x ∷ l) (map-++ f xs y)

-- The children of each node after a row has been written for a parent.
children_of : NodeId → List ChildRow → List NodeId
children_of parent cs =
    map (λ (c : ChildRow). c.child_id) (sort_by place (filter (of_parent parent) cs))

children_of-last :
    (q p child : NodeId) (cs : List ChildRow)
    → (let c : ChildRow = record {
      parent_id = p;
      child_id = child;
      position = next_position p cs;
    } in
        children_of q (cs ++ c ∷ [])
        ≡ (if p == q then children_of q cs ++ child ∷ [] else children_of q cs))
unfolding children_of
children_of-last q p child cs =
    let c : ChildRow = record { parent_id = p; child_id = child; position = next_position p cs } in
    let mine = filter (of_parent q) cs in
    elim (Bool-cases (p == q)) [
      | inl same ↦
          let lt : All (λ d. place d < place c) mine =
            subst (λ r. All (λ d. place d < place c) (filter (of_parent r) cs))
              ((==_iff p q).0 same) (next_position-lt p (next_position p cs) cs (omega arith)) in
          simp (filter-++ (of_parent q) cs c, same, sort_by-last c mine lt)
            (map-++ (λ (d : ChildRow). d.child_id) (sort_by place mine) c)
      | inr other ↦ simp (filter-++ (of_parent q) cs c, other, append-nil mine) refl
    ]

module _ (id : NodeId) (tree : TreeId) (p : NodeId) (content : String) (metadata : Option Value)
    (s : ArborStorage) (free : has_node id s ≡ false) (known : has_tree tree s ≡ true) where
  -- A text node that is created below a node that is there comes behind the children that its
  -- parent has, and the children of the other nodes stay, where its id is new.
  pub node_create_text-children :
      has_node p s ≡ true
      → has_child p id s ≡ false
      → ((node_create_text id tree (some p) content metadata s).0 ≡ ok id)
        × ((q : NodeId)
            → get_node_children_internal q (node_create_text id tree (some p) content metadata s).1
              ≡ (if p == q
                  then get_node_children_internal q s ++ id ∷ []
                  else get_node_children_internal q s))
  unfolding node_create_text create_node add_child_to_parent get_node_children_internal children_of
  node_create_text-children there apart =
      let row : NodeRow = active_row id tree (some p) (text content) metadata s.now in
      let found : has_node p (record s { nodes = row ∷ s.nodes }) ≡ true =
        simp (there) (or-true (id == p)) in
      (
        simp (free, known, apart, found, ==_refl id) refl,
        λ q. simp (free, known, apart, found, ==_refl id) (children_of-last q p id s.node_children),
      )

  -- Where the parent is not there, creating a text node is an error, and yet the node is in the
  -- tree afterwards, with the missing parent, and is no node's child.
  pub node_create_text-orphan :
      has_node p s ≡ false
      → p ≢ id
      → ((node_create_text id tree (some p) content metadata s).0 ≡ err (storage_error "unknown"))
        × (node_get_parent tree id (node_create_text id tree (some p) content metadata s).1
            ≡ ok (some p))
        × ((q : NodeId)
            → get_node_children_internal q (node_create_text id tree (some p) content metadata s).1
              ≡ get_node_children_internal q s)
  unfolding node_create_text create_node add_child_to_parent node_get_parent find_parent
      get_node_children_internal
  node_create_text-orphan gone apart =
      let row : NodeRow = active_row id tree (some p) (text content) metadata s.now in
      let missing : has_node p (record s { nodes = row ∷ s.nodes }) ≡ false =
        ground (arith, gone, apart) in
      (
        simp (free, known, missing, and-false) refl,
        simp (free, known, missing, and-false, ==_refl tree, ==_refl id) refl,
        λ q. simp (free, known, missing, and-false) refl,
      )

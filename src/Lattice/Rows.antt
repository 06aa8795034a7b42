-- ===== src/Lattice/Rows.antt =====
-- Facts about the rows that the statements of the storage read and write.
use mneme_substrate.Base.{
  ℕ, suc, ◌≤◌, ◌+◌, Bool, true, false, Option, some, List, [], ◌∷◌, ◌++◌, ◌≡◌, refl, arith, ◌==◌,
  any, if◌then◌else◌, Bool-cases, inl, inr, String, All,
}
use mathlib.Core.Option
use mneme_substrate.Lattice.Types.{NodeId, EdgeId, NodeStatus, NodeOutput, NodeSpec, gather}
use mneme_substrate.Lattice.Store.{
  Node, EdgeToken, find_node, update_node, write_status, count_on_edge, taken,
}

abbrev pub is_gather : NodeSpec → Bool
is_gather (gather _) = true
is_gather _ = false

-- Whether the first row of a node is a Gather.
unfoldable pub gather_at : NodeId → List Node → Bool
gather_at n [] = false
gather_at n (r ∷ rs) = if r.id == n then is_gather r.spec else gather_at n rs

module _ (status : NodeStatus) (output : Option NodeOutput) (error : Option String) (now : ℕ) where
  abbrev pub written : Node → Node
  written = write_status status output error now

  pub find_node-written :
      (n m : NodeId) (rs : List Node)
      → find_node m (update_node n written rs)
        ≡ (if m == n then Option.map written (find_node m rs) else find_node m rs)
  unfolding find_node update_node write_status
  find_node-written n m [] = ground arith
  find_node-written n m (r ∷ rs) = ground (arith, find_node-written n m rs)

  pub has_node-written :
      (n m : NodeId) (rs : List Node)
      → any (λ (r : Node). r.id == m) (update_node n written rs) ≡ any (λ (r : Node). r.id == m) rs
  unfolding update_node write_status
  has_node-written n m [] = refl
  has_node-written n m (r ∷ rs) = ground (arith, has_node-written n m rs)

  pub gather_at-written :
      (n m : NodeId) (rs : List Node) → gather_at m (update_node n written rs) ≡ gather_at m rs
  unfolding update_node write_status gather_at
  gather_at-written n m [] = refl
  gather_at-written n m (r ∷ rs) = ground (arith, gather_at-written n m rs)

-- The row that is found carries the id that was asked for, and decides `gather_at`.
pub find_node-id : (n : NodeId) (rs : List Node) {r : Node} → find_node n rs ≡ some r → r.id ≡ n
unfolding find_node
find_node-id n [] e = cc
find_node-id n (x ∷ xs) {r} e = ground (arith, find_node-id n xs {r = r})

pub gather_at-found :
    (n : NodeId) (rs : List Node) {r : Node}
    → find_node n rs ≡ some r
    → gather_at n rs ≡ is_gather r.spec
unfolding find_node gather_at
gather_at-found n [] e = cc
gather_at-found n (x ∷ xs) {r} e = ground (arith, gather_at-found n xs {r = r})

pub find_node-of_any :
    (n : NodeId) (rs : List Node)
    → any (λ (r : Node). r.id == n) rs ≡ true
    → (r : Node) × (find_node n rs ≡ some r)
unfolding find_node
find_node-of_any n [] h = absurd (cc h)
find_node-of_any n (x ∷ xs) h = elim (Bool-cases (x.id == n)) [
  | inl e ↦ (x, rw e)
  | inr e ↦ rw e (find_node-of_any n xs (rw e at h))
]

-- Tokens are numbered within their edge.
abbrev pub IsNumbered : List EdgeToken → List EdgeToken → Type 0
IsNumbered all = All (λ (t : EdgeToken). t.seq ≤ count_on_edge t.edge_id all)

count_on_edge-append :
    (e : EdgeId) (ts : List EdgeToken) (t : EdgeToken)
    → count_on_edge e (ts ++ t ∷ []) ≡ count_on_edge e ts + (if t.edge_id == e then 1 else 0)
unfolding count_on_edge
count_on_edge-append e [] t = ground arith
count_on_edge-append e (x ∷ xs) t = ground (arith, count_on_edge-append e xs t)

IsNumbered-later :
    (whole ts : List EdgeToken) (t : EdgeToken)
    → IsNumbered whole ts
    → IsNumbered (whole ++ t ∷ []) ts
IsNumbered-later whole [] t h = tt
IsNumbered-later whole (x ∷ xs) t h =
    (ground (arith, count_on_edge-append x.edge_id whole t), IsNumbered-later whole xs t h.1)

IsNumbered-snoc :
    (whole ts : List EdgeToken) (t : EdgeToken)
    → IsNumbered whole ts
    → t.seq ≤ count_on_edge t.edge_id whole
    → IsNumbered whole (ts ++ t ∷ [])
IsNumbered-snoc whole [] t h k = (k, tt)
IsNumbered-snoc whole (x ∷ xs) t h k = (h.0, IsNumbered-snoc whole xs t h.1 k)

pub IsNumbered-append :
    (ts : List EdgeToken) (t : EdgeToken)
    → IsNumbered ts ts
    → t.seq ≡ suc (count_on_edge t.edge_id ts)
    → IsNumbered (ts ++ t ∷ []) (ts ++ t ∷ [])
IsNumbered-append ts t h k =
    IsNumbered-snoc (ts ++ t ∷ []) ts t (IsNumbered-later ts ts t h)
      (ground (arith, count_on_edge-append t.edge_id ts t))

-- So the number that comes next is free: the primary key (edge_id, seq) cannot refuse it.
pub taken-fresh :
    (e : EdgeId) (seq : ℕ) (whole ts : List EdgeToken)
    → IsNumbered whole ts
    → count_on_edge e whole ≤ seq
    → taken e (suc seq) ts ≡ false
unfolding taken
taken-fresh e seq whole [] h k = refl
taken-fresh e seq whole (t ∷ ts) h k = ground (arith, taken-fresh e seq whole ts)

-- ===== src/Lattice/Halting.antt =====
-- The loop of `advance_graph`: a height over the edges between Gathers, and the fuel that it gives.
use mneme_substrate.Base.{
  ℕ, zero, suc, ◌+◌, ◌<◌, Bool, true, false, Option, List, [], ◌∷◌, ◌++◌, String, ◌≡◌, refl, sym,
  arith, All, ok, if◌then◌else◌,
}
use mathlib.Core.Path.{subst}
use mneme_substrate.Base.Exec.{pure, ◌>>=◌}
use mneme_substrate.Base.Exec.Safe.{Lands, Safe, Any, Safe-if, Safe-pure, Lands-bind}
use mneme_substrate.Lattice.Types.{GraphId, NodeId, NodeOutput}
use mneme_substrate.Lattice.Store.{Edge, Store}
use mneme_substrate.Lattice.Engine.{
  Entry, Flow, go_on, stopped, visit, drain, finish_graph, advance_graph,
}
use mneme_substrate.Lattice.Sound.{Shape, shape_of, IsSound}
use mneme_substrate.Lattice.Safety.{IsPushed, OnFlow, Behind, visit-Safe, finish_graph-Safe}

-- Every edge leads to a node.
abbrev pub HasTargets : Shape → Type 0
HasTargets shape = All (λ (e : Edge). shape.present e.to_node ≡ true) shape.edges

-- The height falls along every edge from a Gather to a Gather. Other edges are free: a graph of
-- tasks may have loops.
abbrev pub IsRanked : (NodeId → ℕ) → Shape → Type 0
IsRanked height shape =
    All
      (λ (e : Edge).
        shape.gathers e.from_node ≡ true
        → shape.gathers e.to_node ≡ true
        → height e.to_node < height e.from_node)
      shape.edges

record Halts (shape : Shape) (g : GraphId) (queue : List Entry) (s : Store) : Type 0 where
  fuel : ℕ
  ends : Lands (IsSound shape) Any (drain fuel g queue s)

module _ (shape : Shape) (height : NodeId → ℕ) (g : GraphId) where
  abbrev IsBelow : ℕ → NodeId → Type 0
  IsBelow k n = (shape.gathers n ≡ true) × (height n < k)

  abbrev GatherBelow : ℕ → Entry → Type 0
  GatherBelow k x = IsBelow k x.node

  Behind-IsBelow :
      (k : ℕ) (n : NodeId) (edges : List Edge)
      → IsBelow (suc k) n
      → All (λ (e : Edge). shape.present e.to_node ≡ true) edges
      → All
          (λ (e : Edge).
            shape.gathers e.from_node ≡ true
            → shape.gathers e.to_node ≡ true
            → height e.to_node < height e.from_node)
          edges
      → All (Behind shape (IsBelow k) n) edges
  Behind-IsBelow k n [] below targets ranked = tt
  Behind-IsBelow k n (e ∷ es) below targets ranked = (
    (λ from_n. record {
      target = targets.0;
      gather = λ to_gather.
          let same : e.from_node ≡ n = ground arith in
          let falls = ranked.0 (rw same below.0) to_gather in
          let falls' : height e.to_node < height n = rw same at falls in (to_gather, omega arith);
    }),
    Behind-IsBelow k n es below targets.1 ranked.1,
  )

  Halts-visit :
      (C : NodeId → Type 0) (x : Entry) (queue : List Entry) (s : Store)
      → Lands (IsSound shape) (OnFlow C queue) (visit g x queue s)
      → ((new : List Entry) (s' : Store)
          → IsSound shape s'
          → IsPushed C queue new
          → Halts shape g new s')
      → Halts shape g (x ∷ queue) s
  unfolding drain ◌>>=◌
  Halts-visit C x queue s l go = split l.value l.returns l.good
    where
      split :
          (flow : Flow)
          → (visit g x queue s).0 ≡ ok flow
          → OnFlow C queue flow
          → Halts shape g (x ∷ queue) s
      split stopped e q = record {
        fuel = 1;
        ends = rw e (record { value = false; returns = refl; good = tt; holds = l.holds });
      }
      split (go_on new) e q =
          let h = go new (visit g x queue s).1 l.holds q in
          record { fuel = suc h.fuel; ends = rw e h.ends }

  IsBelow-later : (k : ℕ) (xs : List Entry) → All (GatherBelow k) xs → All (GatherBelow (suc k)) xs
  IsBelow-later k [] h = tt
  IsBelow-later k (x ∷ xs) h = ((h.0.0, omega arith), IsBelow-later k xs h.1)

  module _ (targets : HasTargets shape) (ranked : IsRanked height shape) where
    -- The queue is a stack: what a Gather pushes is lower than the Gather, and is worked off before
    -- what lay under it.
    Halts-append :
        (k : ℕ) (front queue : List Entry)
        → All (GatherBelow k) front
        → ((s : Store) → IsSound shape s → Halts shape g queue s)
        → (s : Store) → IsSound shape s
        → Halts shape g (front ++ queue) s
    Halts-append zero [] queue below base s h = base s h
    Halts-append zero (x ∷ xs) queue below base s h = absurd (omega arith)
    Halts-append (suc k) [] queue below base s h = base s h
    Halts-append (suc k) (x ∷ xs) queue below base s h =
        let visited =
          (visit-Safe (xs ++ queue) g x
              (Behind-IsBelow k x.node shape.edges below.0 targets ranked)).at
            s h in
        Halts-visit (IsBelow k) x (xs ++ queue) s visited λ new s' h' pushed.
          subst (λ (q : List Entry). Halts shape g q s') (sym pushed.split)
            (Halts-append k pushed.front (xs ++ queue) pushed.each
              (Halts-append (suc k) xs queue below.1 base) s' h')

    abbrev IsGather : NodeId → Type 0
    IsGather n = shape.gathers n ≡ true

    -- A bound above the heights of a list of Gathers.
    All-below :
        (xs : List Entry)
        → All (λ (x : Entry). IsGather x.node) xs
        → (k : ℕ) × All (GatherBelow k) xs
    All-below [] h = (0, tt)
    All-below (x ∷ xs) h =
        let (k, below) = All-below xs h.1 in
        (k + suc (height x.node), ((h.0, omega arith), raise_by (suc (height x.node)) k xs below))
      where
        raise_by :
            (d k : ℕ) (xs : List Entry) → All (GatherBelow k) xs → All (GatherBelow (k + d)) xs
        raise_by d k [] h = tt
        raise_by d k (x ∷ xs) h = ((h.0.0, omega arith), raise_by d k xs h.1)

    Halts-nil : (s : Store) → IsSound shape s → Halts shape g [] s
    unfolding drain pure
    Halts-nil s h = record {
      fuel = 1;
      ends = record { value = true; returns = refl; good = tt; holds = h };
    }

    Behind-IsGather :
        (n : NodeId) (edges : List Edge)
        → All (λ (e : Edge). shape.present e.to_node ≡ true) edges
        → All (Behind shape IsGather n) edges
    Behind-IsGather n [] h = tt
    Behind-IsGather n (e ∷ es) h =
        ((λ _. record { target = h.0; gather = λ is. is }), Behind-IsGather n es h.1)

    Halts-entry : (x : Entry) (s : Store) → IsSound shape s → Halts shape g (x ∷ []) s
    Halts-entry x s h =
        let visited = (visit-Safe [] g x (Behind-IsGather x.node shape.edges targets)).at s h in
        Halts-visit IsGather x [] s visited λ new s' h' pushed.
          let (k, below) = All-below pushed.front pushed.each in
          subst (λ (q : List Entry). Halts shape g q s') (sym pushed.split)
            (Halts-append k pushed.front [] below Halts-nil s' h')

after_drain :
    {shape : Shape} (g : GraphId) (emptied : Bool)
    → Safe (IsSound shape) Any (if emptied then finish_graph g else pure tt)
after_drain g emptied = Safe-if emptied _ _ (finish_graph-Safe g) (Safe-pure tt tt)

-- In a store that is sound, where the edges lead to nodes and no cycle runs through Gathers alone,
-- `advance_graph` returns `Ok` with some amount of fuel, for any node and any outcome of it, and
-- leaves the store sound.
pub advance_graph_total :
    (height : NodeId → ℕ) (s : Store)
    → IsSound (shape_of s) s
    → HasTargets (shape_of s)
    → IsRanked height (shape_of s)
    → (g : GraphId) (n : NodeId) (output : Option NodeOutput) (error : Option String)
    → (fuel : ℕ) × ((advance_graph fuel g n output error s).0 ≡ ok tt)
      × IsSound (shape_of s) (advance_graph fuel g n output error s).1
unfolding advance_graph ◌>>=◌
advance_graph_total height s sound targets ranked g n output error =
    let x : Entry = record { node = n; output = output; error = error } in
    let h = Halts-entry (shape_of s) height g targets ranked x s sound in
    let end =
      Lands-bind (drain h.fuel g (x ∷ [])) (λ emptied. if emptied then finish_graph g else pure tt)
        s h.ends (λ emptied _. after_drain g emptied) in
    (h.fuel, end.returns, end.holds)

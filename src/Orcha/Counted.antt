-- ===== src/Orcha/Counted.antt =====
-- src/activations/orcha/storage.rs: the agents of a session are counted by their states.
use Prim.Native.Nat.{◌%◌}
use native.Mathlib.Nat.{mod-eq_of_lt}
use mathlib.Core.Path.{ap₂}
use mneme_substrate.Base.{
  ℕ, suc, Bool, true, false, ◌+◌, ◌≤◌, ◌<◌, List, [], ◌∷◌, filter, count, length, insert_by,
  sort_by, leb, All, if◌then◌else◌, ◌≡◌, refl, sym, ap, ◌∙◌, subst, arith, ok, and_then,
}
use mneme_substrate.Orcha.Types.{SessionId, AgentState, AgentInfo}
use mneme_substrate.Orcha.States.{u32, serialize_agent_state, deserialize_agent_state}
use mneme_substrate.Orcha.Storage.{
  AgentRow, OrchaStorage, Call, serve, get_agent_counts, is_active_agent, is_type, of_session,
  row_to_agent, read_agents, list_agents,
}
use mneme_substrate.Orcha.Typed.{IsTyped, AllTyped, filter-AllTyped, serve-AllTyped}

-- The states, told apart by their constructors.
abbrev pub works : AgentInfo → Bool
works i = elim i.state [ AgentState.complete ↦ false | AgentState.failed _ ↦ false | _ ↦ true ]

abbrev pub has_completed : AgentInfo → Bool
has_completed i = elim i.state [ AgentState.complete ↦ true | _ ↦ false ]

abbrev pub has_failed : AgentInfo → Bool
has_failed i = elim i.state [ AgentState.failed _ ↦ true | _ ↦ false ]

-- An agent that is read has the kind that its row is counted by.
abbrev Reads : AgentRow → Type 0
Reads a =
    (i : AgentInfo) × (row_to_agent a ≡ ok i)
    × (is_active_agent a ≡ works i)
    × (is_type "complete" a ≡ has_completed i)
    × (is_type "failed" a ≡ has_failed i)

written-Reads :
    (a : AgentRow) (st : AgentState)
    → Reads (record a { state_type = (serialize_agent_state st).0 })
unfolding row_to_agent deserialize_agent_state serialize_agent_state
written-Reads a AgentState.idle = (_, refl, refl, refl, refl)
written-Reads a (AgentState.running seq) = (_, refl, refl, refl, refl)
written-Reads a (AgentState.waiting_approval id) = (_, refl, refl, refl, refl)
written-Reads a (AgentState.validating command) = (_, refl, refl, refl, refl)
written-Reads a AgentState.complete = (_, refl, refl, refl, refl)
written-Reads a (AgentState.failed error) = (_, refl, refl, refl, refl)

IsTyped-Reads : (a : AgentRow) → IsTyped a → Reads a
IsTyped-Reads a (st, eq) =
    subst (λ kind. Reads (record a { state_type = kind })) (sym eq) (written-Reads a st)

-- The agents that are read, with their numbers.
ReadAll : List AgentRow → Type 0
ReadAll agents =
    (is : List AgentInfo) × (read_agents agents ≡ ok is)
    × (count is_active_agent agents ≡ count works is)
    × (count (is_type "complete") agents ≡ count has_completed is)
    × (count (is_type "failed") agents ≡ count has_failed is)

AllTyped-ReadAll : (agents : List AgentRow) → All IsTyped agents → ReadAll agents
unfolding ReadAll read_agents
AllTyped-ReadAll [] h = ([], refl, refl, refl, refl)
AllTyped-ReadAll (a ∷ agents) (typed, rest) =
    let (i, at, active, completed, failed) = IsTyped-Reads a typed in
    let (is, ats, actives, completeds, faileds) = AllTyped-ReadAll agents rest in
    (
      i ∷ is,
      ap (λ r. and_then r λ i. and_then (read_agents agents) λ is. ok (i ∷ is)) at
          ∙ ap (λ r. and_then r λ is. ok (i ∷ is)) ats,
      ap₂ (λ (b : Bool) n. if b then suc n else n) active actives,
      ap₂ (λ (b : Bool) n. if b then suc n else n) completed completeds,
      ap₂ (λ (b : Bool) n. if b then suc n else n) failed faileds,
    )

insert-AllTyped :
    (a : AgentRow) (agents : List AgentRow)
    → IsTyped a
    → All IsTyped agents
    → All IsTyped (insert_by (λ (a : AgentRow). a.created_at) a agents)
insert-AllTyped a [] typed h = (typed, tt)
insert-AllTyped a (b ∷ agents) typed (here, rest) =
    go (leb a.created_at b.created_at) (insert-AllTyped a agents typed rest)
  where
    later : List AgentRow
    later = insert_by (λ (a : AgentRow). a.created_at) a agents

    go : (c : Bool) → All IsTyped later → All IsTyped (if c then a ∷ b ∷ agents else b ∷ later)
    go true ih = (typed, (here, rest))
    go false ih = (here, ih)

sort-AllTyped :
    (agents : List AgentRow)
    → All IsTyped agents
    → All IsTyped (sort_by (λ (a : AgentRow). a.created_at) agents)
sort-AllTyped [] h = tt
sort-AllTyped (a ∷ agents) (typed, rest) =
    insert-AllTyped a (sort_by (λ (a : AgentRow). a.created_at) agents) typed
      (sort-AllTyped agents rest)

module _ (p : AgentRow → Bool) where
  count-insert_by :
      (a : AgentRow) (agents : List AgentRow)
      → count p (insert_by (λ (a : AgentRow). a.created_at) a agents) ≡ count p (a ∷ agents)
  count-insert_by a [] = refl
  count-insert_by a (b ∷ agents) = ground (arith, count-insert_by a agents)

  count-sort_by :
      (agents : List AgentRow)
      → count p (sort_by (λ (a : AgentRow). a.created_at) agents) ≡ count p agents
  count-sort_by [] = refl
  count-sort_by (a ∷ agents) =
      count-insert_by a (sort_by (λ (a : AgentRow). a.created_at) agents)
      ∙ ap (λ n. if p a then suc n else n) (count-sort_by agents)

  count-length : (agents : List AgentRow) → count p agents ≤ length agents
  count-length [] = omega arith
  count-length (a ∷ agents) = ground (arith, count-length agents)

  -- The cast keeps the number.
  cast-sort_by :
      (agents : List AgentRow)
      → length agents < u32
      → count p agents % u32 ≡ count p (sort_by (λ (a : AgentRow). a.created_at) agents)
  cast-sort_by agents small =
      mod-eq_of_lt (omega (arith, count-length agents, small)) ∙ sym (count-sort_by agents)

triple :
    {a b c a' b' c' : ℕ} → a ≡ a' → b ≡ b' → c ≡ c' → ◌≡◌ {A = ℕ × ℕ × ℕ} (a, b, c) (a', b', c')
triple p q r = rw (p, q, r) refl

one_kind :
    (i : AgentInfo)
    → (if works i then 1 else 0)
        + (if has_completed i then 1 else 0)
        + (if has_failed i then 1 else 0)
      ≡ 1
one_kind i = go i.state
  where
    go :
        (st : AgentState)
        → (let j : AgentInfo = record i { state = st } in
            (if works j then 1 else 0)
              + (if has_completed j then 1 else 0)
              + (if has_failed j then 1 else 0)
            ≡ 1)
    go AgentState.idle = refl
    go (AgentState.running seq) = refl
    go (AgentState.waiting_approval id) = refl
    go (AgentState.validating command) = refl
    go AgentState.complete = refl
    go (AgentState.failed error) = refl

each_once :
    (is : List AgentInfo)
    → count works is + count has_completed is + count has_failed is ≡ length is
each_once [] = refl
each_once (i ∷ is) = go (works i) (has_completed i) (has_failed i) (one_kind i) (each_once is)
  where
    go :
        (b c d : Bool)
        → (if b then 1 else 0) + (if c then 1 else 0) + (if d then 1 else 0) ≡ 1
        → count works is + count has_completed is + count has_failed is ≡ length is
        → (if b then suc (count works is) else count works is)
            + (if c then suc (count has_completed is) else count has_completed is)
            + (if d then suc (count has_failed is) else count has_failed is)
          ≡ suc (length is)
    go b c d e h = ground (arith, e, h)

-- After any calls, from a state in which the column of each agent's state holds a type that the
-- code writes, and where the session has fewer than 2 ^ 32 agents, they can all be listed, and the
-- counts of the session are the numbers of the listed agents that are neither complete nor failed, of
-- those that are complete, and of those that have failed, which add up to all of them.
pub get_agent_counts-serve :
    (calls : List (ℕ × Call)) (s : OrchaStorage) (id : SessionId)
    → AllTyped s
    → length (filter (of_session id) (serve calls s).orcha_agents) < u32
    → (is : List AgentInfo) × (list_agents id (serve calls s) ≡ ok is)
      × (get_agent_counts id (serve calls s)
          ≡ (count works is, count has_completed is, count has_failed is))
      × (count works is + count has_completed is + count has_failed is ≡ length is)
unfolding get_agent_counts list_agents ReadAll
get_agent_counts-serve calls s id h small =
    let agents = filter (of_session id) (serve calls s).orcha_agents in
    let typed =
      filter-AllTyped (of_session id) (serve calls s).orcha_agents (serve-AllTyped calls s h) in
    let (is, at, active, completed, failed) =
      AllTyped-ReadAll (sort_by (λ (a : AgentRow). a.created_at) agents)
        (sort-AllTyped agents typed) in
    (
      is,
      at,
      triple (cast-sort_by is_active_agent agents small ∙ active)
          (cast-sort_by (is_type "complete") agents small ∙ completed)
          (cast-sort_by (is_type "failed") agents small ∙ failed),
      each_once is,
    )

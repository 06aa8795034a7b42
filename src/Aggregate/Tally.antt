-- ===== src/Aggregate/Tally.antt =====
-- `majority_enum`: the votes for a text are the trials that carry it.
use Prim.Native.Nat.{Ordering}
use Prim.Native.String.{compare}
use text.Mathlib.TextEquality.{eq_iff, path_by_compare}
use text.Mathlib.TextPositions.{compare_refl}
use mneme_substrate.Base.{
  ℕ, ◌+◌, ◌≤◌, ◌<◌, String, false, List, [], ◌∷◌, if◌then◌else◌, length, count, All, ◌≡◌, refl, sym,
  ap, ◌∙◌, subst, arith, inl, inr, Bool-cases,
}
use mneme_substrate.Base.Text.{same_text}
use mneme_substrate.Base.TextOrder.{compare-flip, compare_trans}
use mneme_substrate.Aggregate.Rules.{Votes, vote, add_vote}
use mneme_substrate.Aggregate.Majority.{vote_all, total, total-vote}

-- The votes for a text.
abbrev pub votes_of : String → Votes → ℕ
votes_of q [] = 0
votes_of q ((k, n) ∷ rest) = if same_text k q then n else votes_of q rest

abbrev pub IsAbove : String → Votes → Type 0
IsAbove k votes = All (λ (v : String × ℕ). compare k v.0 ≡ Ordering.lt) votes

-- The keys rise.
abbrev pub IsSorted : Votes → Type 0
IsSorted [] = Unit
IsSorted ((k, n) ∷ rest) = IsAbove k rest × IsSorted rest

abbrev pub IsVoted : Votes → Type 0
IsVoted votes = All (λ (v : String × ℕ). 1 ≤ v.1) votes

lt_apart : (s t : String) → compare s t ≡ Ordering.lt → same_text t s ≡ false
lt_apart s t h = elim (Bool-cases (same_text t s)) [
  | inl same ↦ absurd (cc (sym (compare_refl s) ∙ ap (compare s) (sym ((eq_iff t s).0 same)) ∙ h))
  | inr apart ↦ apart
]

above-votes_of : (k : String) (votes : Votes) → IsAbove k votes → votes_of k votes ≡ 0
above-votes_of k [] h = refl
above-votes_of k ((j, n) ∷ rest) (here, there) =
    simp (lt_apart k j here) (above-votes_of k rest there)

IsAbove-trans :
    (s k : String) (votes : Votes) → compare s k ≡ Ordering.lt → IsAbove k votes → IsAbove s votes
IsAbove-trans s k [] h above = tt
IsAbove-trans s k ((j, n) ∷ rest) h (here, there) =
    (compare_trans s k j h here, IsAbove-trans s k rest h there)

vote-IsAbove :
    (j s : String) (votes : Votes)
    → compare j s ≡ Ordering.lt
    → IsAbove j votes
    → IsAbove j (vote s votes)
unfolding vote
vote-IsAbove j s [] h above = (h, tt)
vote-IsAbove j s ((k, n) ∷ rest) h (here, there) = go (compare s k) (vote-IsAbove j s rest h there)
  where
    go : (o : Ordering) → IsAbove j (vote s rest) → IsAbove j (add_vote o s k n rest (vote s rest))
    go Ordering.lt ih = (h, (here, there))
    go Ordering.eq ih = (here, there)
    go Ordering.gt ih = (here, ih)

pub vote-IsSorted : (s : String) (votes : Votes) → IsSorted votes → IsSorted (vote s votes)
unfolding vote
vote-IsSorted s [] h = (tt, tt)
vote-IsSorted s ((k, n) ∷ rest) (above, sorted) =
    go (compare s k) refl (vote-IsSorted s rest sorted)
  where
    go :
        (o : Ordering)
        → compare s k ≡ o
        → IsSorted (vote s rest)
        → IsSorted (add_vote o s k n rest (vote s rest))
    go Ordering.lt at ih = ((at, IsAbove-trans s k rest at above), (above, sorted))
    go Ordering.eq at ih = (above, sorted)
    go Ordering.gt at ih = (vote-IsAbove k s rest (compare-flip s k at) above, ih)

pub vote-IsVoted :
    (s : String) (votes : Votes)
    → total votes + 1 < 4294967296
    → IsVoted votes
    → IsVoted (vote s votes)
unfolding vote
vote-IsVoted s [] small h = (omega arith, tt)
vote-IsVoted s ((k, n) ∷ rest) small (here, there) =
    go (compare s k) (vote-IsVoted s rest (omega (arith, small)) there)
  where
    go : (o : Ordering) → IsVoted (vote s rest) → IsVoted (add_vote o s k n rest (vote s rest))
    go Ordering.lt ih = (omega arith, (here, there))
    go Ordering.eq ih = (omega (arith, here, small), there)
    go Ordering.gt ih = (here, ih)

-- A vote adds one for its text, and for no other.
pub votes_of-vote :
    (q s : String) (votes : Votes)
    → total votes + 1 < 4294967296
    → IsSorted votes
    → votes_of q (vote s votes) ≡ votes_of q votes + (if same_text s q then 1 else 0)
unfolding vote
votes_of-vote q s [] small h = omega arith
votes_of-vote q s ((k, n) ∷ rest) small (above, sorted) =
    go (compare s k) refl (votes_of-vote q s rest (omega (arith, small)) sorted)
  where
    old : ℕ
    old = if same_text k q then n else votes_of q rest

    go :
        (o : Ordering)
        → compare s k ≡ o
        → votes_of q (vote s rest) ≡ votes_of q rest + (if same_text s q then 1 else 0)
        → votes_of q (add_vote o s k n rest (vote s rest)) ≡ old + (if same_text s q then 1 else 0)
    go Ordering.lt at ih = elim (Bool-cases (same_text s q)) [
      | inl same ↦
          let none_yet : old ≡ 0 =
            subst (λ x. votes_of x ((k, n) ∷ rest) ≡ 0) ((eq_iff s q).0 same)
              (above-votes_of s ((k, n) ∷ rest) (at, IsAbove-trans s k rest at above)) in
          simp (same) (omega (arith, none_yet))
      | inr apart ↦ simp (apart) (omega arith)
    ]
    go Ordering.eq at ih =
        let same : s ≡ k = path_by_compare s k at in
        let alike : same_text s q ≡ same_text k q = ap (λ x. same_text x q) same in
        elim (Bool-cases (same_text k q)) [
          | inl found ↦ simp (alike, found) (omega (arith, small))
          | inr missed ↦ simp (alike, missed) (omega arith)
        ]
    go Ordering.gt at ih = elim (Bool-cases (same_text k q)) [
      | inl found ↦
          let other : same_text s q ≡ false =
            ap (same_text s) (sym ((eq_iff k q).0 found)) ∙ lt_apart k s (compare-flip s k at) in
          simp (found, other) (omega arith)
      | inr missed ↦ simp (missed) ih
    ]

-- The votes of the texts: the keys rise, each was voted for, and each text has as many votes as
-- there are texts like it.
abbrev pub IsTally : List String → Votes → Type 0
IsTally ts votes =
    IsSorted votes
    × IsVoted votes
    × ((q : String) → votes_of q votes ≡ count (λ t. same_text t q) ts)

-- Each vote is counted behind those that were there.
votes_of-vote_all :
    (ts : List String) (votes : Votes)
    → total votes + length ts < 4294967296
    → IsSorted votes
    → IsVoted votes
    → IsSorted (vote_all votes ts)
      × IsVoted (vote_all votes ts)
      × ((q : String)
          → votes_of q (vote_all votes ts) ≡ votes_of q votes + count (λ t. same_text t q) ts)
votes_of-vote_all [] votes small sorted voted = (sorted, voted, λ q. omega arith)
votes_of-vote_all (t ∷ ts) votes small sorted voted =
    let room : total votes + 1 < 4294967296 = omega (arith, small) in
    let (sorted', voted', counts) =
      votes_of-vote_all ts (vote t votes) (omega (arith, small, total-vote t votes room))
        (vote-IsSorted t votes sorted) (vote-IsVoted t votes room voted) in
    (sorted', voted', λ q. counts q ∙ one q (votes_of-vote q t votes room sorted))
  where
    one :
        (q : String)
        → votes_of q (vote t votes) ≡ votes_of q votes + (if same_text t q then 1 else 0)
        → votes_of q (vote t votes) + count (λ t. same_text t q) ts
          ≡ votes_of q votes + count (λ t. same_text t q) (t ∷ ts)
    one q eq = elim (Bool-cases (same_text t q)) [
      | inl found ↦ simp (found) (omega (arith, simp (found) at eq))
      | inr missed ↦ simp (missed) (omega (arith, simp (missed) at eq))
    ]

pub vote_all-IsTally : (ts : List String) → length ts < 4294967296 → IsTally ts (vote_all [] ts)
vote_all-IsTally ts small =
    let (sorted, voted, counts) = votes_of-vote_all ts [] (omega (arith, small)) tt tt in
    (sorted, voted, λ q. counts q ∙ omega arith)

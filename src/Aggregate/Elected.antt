-- ===== src/Aggregate/Elected.antt =====
-- `majority_enum`: the votes that are returned are those of the trials, and the winner is elected.
use mathlib.Core.List.{Memᴰ}
use mathlib.Core.List.Memᴰ
use mneme_substrate.Base.{
  ℕ, suc, ◌+◌, ◌≤◌, ◌<◌, String, List, [], ◌∷◌, length, count, All, ◌≡◌, refl, sym, ap, ◌∙◌, subst,
  arith, Result, ok, and_then,
}
use mneme_substrate.Base.Json.{Value, string, object, field, end}
use mneme_substrate.Base.Text.{same_text}
use mneme_substrate.Base.Members.{All-Mem}
use mneme_substrate.Aggregate.Rules.{
  AggregateError, Votes, max_from, vote_fields, winner_value, fold_trials, tally, majority_enum,
}
use mneme_substrate.Aggregate.Majority.{vote_all, loop-texts}
use mneme_substrate.Aggregate.Texts.{Carries, texts-Carries}
use mneme_substrate.Aggregate.Tally.{IsTally, vote_all-IsTally}
use mneme_substrate.Aggregate.Winner.{
  Beats, IsBest, max_from-IsBest, votes_of-Mem, Mem-votes_of, count-Mem, Mem-count,
}

abbrev pub votes_for : List String → String → String × ℕ
votes_for ts q = (q, count (λ t. same_text t q) ts)

-- One of the texts, that beats each of them.
abbrev pub IsElected : List String → String → Type 0
IsElected ts winner = Memᴰ winner ts × All (λ t. Beats (votes_for ts winner) (votes_for ts t)) ts

abbrev pub result : String → Votes → Value
result winner votes =
    object (field "aggregated" (string winner) (field "votes" (object (vote_fields votes)) end))

module _ (ts : List String) (votes : Votes) (h : IsTally ts votes) where
  counted : (w : String × ℕ) → Memᴰ w votes → votes_for ts w.0 ≡ w
  counted (k, n) m = ap (λ c. (k, c)) (sym (h.2 k) ∙ votes_of-Mem k n votes h.0 m)

  listed : (t : String) → Memᴰ t ts → Memᴰ (votes_for ts t) votes
  listed t m =
      let (n, eq) = count-Mem t ts m in
      subst (λ c. Memᴰ (t, c) votes) (sym eq) (Mem-votes_of t n votes (h.2 t ∙ eq))

  best-IsElected : (w : String × ℕ) → IsBest w votes → IsElected ts w.0
  best-IsElected (k, n) (m, beats) = (
    Mem-count k ts (
        subst (λ c. 1 ≤ c) (sym (ap (λ (v : String × ℕ). v.1) (counted (k, n) m)))
          (All-Mem (λ (v : String × ℕ). 1 ≤ v.1) votes h.1 m)),
    each ts (λ t at. at),
  )
    where
      each :
          (us : List String)
          → ((t : String) → Memᴰ t us → Memᴰ t ts)
          → All (λ t. Beats (votes_for ts k) (votes_for ts t)) us
      each [] sub = tt
      each (u ∷ us) sub = (
        subst (λ w. Beats w (votes_for ts u)) (sym (counted (k, n) m))
            (All-Mem (Beats (k, n)) votes beats (listed u (sub u (Memᴰ.head refl)))),
        each us (λ t at. sub t (Memᴰ.tail at)),
      )

-- On trials that carry texts in the field, at least one and fewer than 2 ^ 32, majority_enum returns
-- for each text the number of the trials that carry it, with the texts in rising order, and as the
-- winner one of the texts, which each other text has fewer votes than, or as many and comes later.
pub majority_enum-IsElected :
    (trials : List Value) (name : String) (t : String) (ts : List String)
    → Carries name trials (t ∷ ts)
    → 1 + length ts < 4294967296
    → (winner : String) × (votes : Votes) × (majority_enum trials name ≡ ok (result winner votes))
      × IsTally (t ∷ ts) votes
      × IsElected (t ∷ ts) winner
unfolding majority_enum
majority_enum-IsElected trials name t ts carried small =
    let h = vote_all-IsTally (t ∷ ts) (omega (arith, small)) in
    let (m, positive) = count-Mem t (t ∷ ts) (Memᴰ.head refl) in
    go (vote_all [] (t ∷ ts)) (fold_trials (tally name) [] 0 trials) h m
      (Mem-votes_of t m (vote_all [] (t ∷ ts)) (h.2 t ∙ positive))
      (loop-texts name [] 0 trials
        ∙ ap (λ r. and_then r λ qs. ok (vote_all [] qs))
            (texts-Carries name 0 trials (t ∷ ts) carried))
  where
    go :
        (votes : Votes) (r : Result AggregateError Votes)
        → IsTally (t ∷ ts) votes
        → (m : ℕ) → Memᴰ (t, suc m) votes
        → r ≡ ok votes
        → (winner : String) × (votes : Votes) × (and_then r winner_value ≡ ok (result winner votes))
          × IsTally (t ∷ ts) votes
          × IsElected (t ∷ ts) winner
    go [] r h m at eq = absurd (Memᴰ.not-nil at)
    go (v ∷ rest) r h m at eq = (
      (max_from v rest).0,
      v ∷ rest,
      ap (λ r. and_then r winner_value) eq,
      h,
      best-IsElected (t ∷ ts) (v ∷ rest) h (max_from v rest) (max_from-IsBest v rest h.0),
    )

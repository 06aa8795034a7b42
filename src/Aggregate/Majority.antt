-- ===== src/Aggregate/Majority.antt =====
-- `majority_enum`: the loop over the trials, and the total of the votes.
use Prim.Native.Nat.{Ordering, ◌%◌}
use Prim.Native.String.{compare}
use mneme_substrate.Base.{
  ℕ, suc, ◌+◌, ◌<◌, String, List, [], ◌∷◌, length, Result, ok, err, and_then, ◌≡◌, refl, ap, ◌∙◌,
  arith,
}
use mneme_substrate.Base.Json.{Value}
use mneme_substrate.Aggregate.Rules.{
  AggregateError, trial_text, fold_trials, Votes, vote, add_vote, tally,
}

-- The text of each trial, or the first error.
abbrev pub texts : String → ℕ → List Value → Result AggregateError (List String)
texts name i [] = ok []
texts name i (trial ∷ trials) =
    let rest = texts name (suc i) trials in
    and_then (trial_text name i trial) (λ s. and_then rest (λ ss. ok (s ∷ ss)))

abbrev pub vote_all : Votes → List String → Votes
vote_all votes [] = votes
vote_all votes (s ∷ ss) = vote_all (vote s votes) ss

abbrev pub total : Votes → ℕ
total [] = 0
total ((_, n) ∷ rest) = n + total rest

loop-step :
    (text : Result AggregateError String) (votes : Votes)
    (loop : Votes → Result AggregateError Votes) (rest : Result AggregateError (List String))
    → ((v : Votes) → loop v ≡ and_then rest (λ ss. ok (vote_all v ss)))
    → and_then (and_then text (λ s. ok (vote s votes))) loop
      ≡ and_then
          (and_then text (λ s. and_then rest (λ ss. ok (s ∷ ss))))
          (λ ss. ok (vote_all votes ss))
loop-step (err e) votes loop rest eq = refl
loop-step (ok s) votes loop rest eq = eq (vote s votes) ∙ tail rest
  where
    tail :
        (r : Result AggregateError (List String))
        → and_then r (λ ss. ok (vote_all (vote s votes) ss))
          ≡ and_then (and_then r (λ ss. ok (s ∷ ss))) (λ ss. ok (vote_all votes ss))
    tail (ok ss) = refl
    tail (err e) = refl

pub loop-texts :
    (name : String) (votes : Votes) (i : ℕ) (trials : List Value)
    → fold_trials (tally name) votes i trials
      ≡ and_then (texts name i trials) (λ ss. ok (vote_all votes ss))
unfolding fold_trials tally
loop-texts name votes i [] = refl
loop-texts name votes i (trial ∷ trials) =
    loop-step (trial_text name i trial) votes (λ v. fold_trials (tally name) v (suc i) trials)
      (texts name (suc i) trials) (λ v. loop-texts name v (suc i) trials)

smaller : (n k : ℕ) → n + k + 1 < 4294967296 → k + 1 < 4294967296
smaller n k small = ground (arith)

counted : (n k : ℕ) → n + k + 1 < 4294967296 → (n + 1) % 4294967296 + k ≡ n + k + 1
counted n k small = ground (arith)

-- A vote adds one to the total, below the bound of u32.
pub total-vote :
    (s : String) (votes : Votes)
    → total votes + 1 < 4294967296
    → total (vote s votes) ≡ total votes + 1
unfolding vote
total-vote s [] small = refl
total-vote s ((k, n) ∷ rest) small =
    go (compare s k) (total-vote s rest (smaller n (total rest) small))
  where
    go :
        (o : Ordering)
        → total (vote s rest) ≡ total rest + 1
        → total (add_vote o s k n rest (vote s rest)) ≡ n + total rest + 1
    go Ordering.lt below = ground (arith)
    go Ordering.eq below = counted n (total rest) small
    go Ordering.gt below = ground (arith)

first_small : (t k : ℕ) → t + suc k < 4294967296 → t + 1 < 4294967296
first_small t k small = ground (arith)

rest_small : (t k t' : ℕ) → t' ≡ t + 1 → t + suc k < 4294967296 → t' + k < 4294967296
rest_small t k t' eq small = ground (arith)

from_zero : (k : ℕ) → 1 + k < 4294967296 → 0 + suc k < 4294967296
from_zero k small = ground (arith)

zero_suc : (k : ℕ) → 0 + suc k ≡ 1 + k
zero_suc k = ground (arith)

pub total-vote_all :
    (ss : List String) (votes : Votes)
    → total votes + length ss < 4294967296
    → total (vote_all votes ss) ≡ total votes + length ss
total-vote_all [] votes small = ground (arith)
total-vote_all (s ∷ ss) votes small =
    let one = total-vote s votes (first_small (total votes) (length ss) small) in
    total-vote_all ss (vote s votes)
      (rest_small (total votes) (length ss) (total (vote s votes)) one small)
    ∙ ap (λ n. n + length ss) one
    ∙ ground (arith)

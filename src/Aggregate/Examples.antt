-- ===== src/Aggregate/Examples.antt =====
-- Three reviews, rated on a ladder and by majority.
use mathlib.Core.List.{Memᴰ}
use mneme_substrate.Base.{ℕ, String, List, [], ◌∷◌, ok, ◌≡◌, refl, arith}
use mneme_substrate.Base.Json.{Value, string, object, field, end}
use mneme_substrate.Aggregate.Rules.{
  Votes, vote, trial_text, position, fold_trials, max_from, majority_enum, severity_value, decimal,
  aggregate, severity, concat,
}
use mneme_substrate.Aggregate.Texts.{Carries}
use mneme_substrate.Aggregate.Highest.{IsHighestOf, max_severity-highest}
use mneme_substrate.Aggregate.Tally.{IsTally}
use mneme_substrate.Aggregate.Elected.{IsElected, result, majority_enum-IsElected}

abbrev rated : String → Value
rated s = object (field "severity" (string s) end)

abbrev trials : List Value
trials = rated "low" ∷ rated "high" ∷ rated "high" ∷ []

abbrev ladder : List String
ladder = "low" ∷ "medium" ∷ "high" ∷ []

carried : Carries "severity" trials ("low" ∷ "high" ∷ "high" ∷ [])
carried = (refl, (refl, (refl, tt)))

max_severity-highest_example :
    (level : String) × IsHighestOf ladder ("low" ∷ "high" ∷ "high" ∷ []) trials "severity" level
max_severity-highest_example =
    max_severity-highest trials "severity" ladder "low" ("high" ∷ "high" ∷ []) carried
      (Memᴰ.head refl, (high, (high, tt))) (omega arith)
  where
    high : Memᴰ "high" ladder
    high = Memᴰ.tail (Memᴰ.tail (Memᴰ.head refl))

majority_enum-IsElected_example :
    (winner : String) × (votes : Votes) × (majority_enum trials "severity"
      ≡ ok (result winner votes))
    × IsTally ("low" ∷ "high" ∷ "high" ∷ []) votes
    × IsElected ("low" ∷ "high" ∷ "high" ∷ []) winner
majority_enum-IsElected_example =
    majority_enum-IsElected trials "severity" "low" ("high" ∷ "high" ∷ []) carried (omega arith)

majority_run : majority_enum trials "severity" ≡ ok (result "high" (("high", 2) ∷ ("low", 1) ∷ []))
unfolding majority_enum trial_text fold_trials vote max_from
majority_run = refl

severity_run :
    aggregate {Float = ℕ} (λ _ _ _ _. ok (string "none")) trials (severity "severity" ladder)
    ≡ ok (severity_value "high" 2)
unfolding aggregate trial_text position fold_trials
severity_run = refl

concat_run :
    aggregate {Float = ℕ} (λ _ _ _ _. ok (string "none")) trials (concat "severity" "; ")
    ≡ ok (
        object (field "aggregated" (string "[trial 1]: low; [trial 2]: high; [trial 3]: high") end))
unfolding aggregate trial_text fold_trials decimal
concat_run = refl

-- ===== src/Aggregate/Rules.antt =====
-- src/mneme/swarm/aggregate (mod.rs, concat.rs, majority.rs, severity.rs): the four rules. What a
-- message is formatted from stands for the message.
use Prim.Native.Nat.{Ordering, compare as compare_ℕ, ◌%◌, ◌/◌}
use Prim.Native.String.{compare, ◌++◌ as append}
use mneme_substrate.Base.{
  ℕ, zero, suc, ◌+◌, String, Option, none, some, List, [], ◌∷◌, ◌++◌, if◌then◌else◌, unwrap_or,
  ◌==◌, ltb, is_empty, Result, ok, err, and_then,
}
use mneme_substrate.Base.Json.{
  Value, string, number, pos_int, object, Fields, field, end, get, as_str,
}
use mneme_substrate.Base.Text.{same_text, join}

-- `{:?}` of the value, or of the text and the ladder.
pub data Detail : Type 0 where
  not_string : Value → Detail
  not_on_ladder : String → List String → Detail

pub data AggregateError : Type 0 where
  no_trials : AggregateError
  missing_field : ℕ → String → AggregateError
  wrong_type : ℕ → String → Detail → AggregateError
  invalid_param : String → AggregateError
  -- The model's own: an `expect` that fails.
  panic : AggregateError

-- The string in a field of a trial.
abbrev pub as_text : ℕ → String → Value → Option String → Result AggregateError String
as_text i name v none = err (wrong_type i name (not_string v))
as_text i name v (some s) = ok s

abbrev pub text_of : ℕ → String → Option Value → Result AggregateError String
text_of i name none = err (missing_field i name)
text_of i name (some v) = as_text i name v (as_str v)

unfoldable pub trial_text : String → ℕ → Value → Result AggregateError String
trial_text name i trial = text_of i name (get name trial)

-- `for (i, trial) in trials.iter().enumerate() { acc = body(acc, i, trial)? }`
unfoldable pub fold_trials {ℓ} :
    {A : Type ℓ}
    → (A → ℕ → Value → Result AggregateError A)
    → A
    → ℕ
    → List Value
    → Result AggregateError A
fold_trials body acc i [] = ok acc
fold_trials body acc i (trial ∷ trials) =
    and_then (body acc i trial) (λ acc'. fold_trials body acc' (suc i) trials)

-- `ladder.iter().position(|l| l == s)`
unfoldable pub position : String → List String → Option ℕ
position s [] = none
position s (l ∷ ls) =
    if same_text l s then some 0 else elim (position s ls) [ none ↦ none | some n ↦ some (suc n) ]

abbrev pub on_ladder : ℕ → String → String → List String → Option ℕ → Result AggregateError ℕ
on_ladder i name s ladder none = err (wrong_type i name (not_on_ladder s ladder))
on_ladder i name s ladder (some pos) = ok pos

-- The highest position so far with the number of trials at it (a u32).
abbrev pub Highest : Type 0
Highest = Option ℕ × ℕ

abbrev pub raise_to : Highest → ℕ → Highest
raise_to (none, _) pos = (some pos, 1)
raise_to (some prev, n) pos =
    if ltb prev pos
    then (some pos, 1)
    else if pos == prev
    then (some prev, (n + 1) % 4294967296)
    else (some prev, n)

unfoldable pub rate : List String → String → Highest → ℕ → Value → Result AggregateError Highest
unfolding trial_text position
rate ladder name highest i trial = and_then (trial_text name i trial) (λ s.
    and_then (on_ladder i name s ladder (position s ladder)) (λ pos. ok (raise_to highest pos)))

abbrev pub nth : ℕ → List String → Option String
nth n [] = none
nth zero (x ∷ xs) = some x
nth (suc n) (x ∷ xs) = nth n xs

abbrev pub severity_value : String → ℕ → Value
severity_value level n =
    object (field "aggregated" (string level) (field "count" (number (pos_int n)) end))

abbrev pub level_value : ℕ → Option String → Result AggregateError Value
level_value n none = err panic
level_value n (some level) = ok (severity_value level n)

-- `max_index.expect(…)`, then `&ladder[winner_idx]`
abbrev pub highest_value : List String → Highest → Result AggregateError Value
highest_value ladder (none, _) = err panic
highest_value ladder (some pos, n) = level_value n (nth pos ladder)

unfoldable pub max_severity : List Value → String → List String → Result AggregateError Value
unfolding rate fold_trials
max_severity trials name ladder =
    if is_empty ladder
    then err (invalid_param "severity ladder must be non-empty")
    else and_then (fold_trials (rate ladder name) (none, 0) 0 trials) (highest_value ladder)

-- `votes`, a BTreeMap: sorted by the texts, with the count of each (a u32).
abbrev pub Votes : Type 0
Votes = List (String × ℕ)

abbrev pub add_vote : Ordering → String → String → ℕ → Votes → Votes → Votes
add_vote Ordering.lt s k n rest voted = (s, 1) ∷ (k, n) ∷ rest
add_vote Ordering.eq s k n rest voted = (k, (n + 1) % 4294967296) ∷ rest
add_vote Ordering.gt s k n rest voted = (k, n) ∷ voted

-- `*votes.entry(s).or_insert(0) += 1`
unfoldable pub vote : String → Votes → Votes
vote s [] = (s, 1) ∷ []
vote s ((k, n) ∷ rest) = add_vote (compare s k) s k n rest (vote s rest)

unfoldable pub tally : String → Votes → ℕ → Value → Result AggregateError Votes
unfolding trial_text vote
tally name votes i trial = and_then (trial_text name i trial) (λ s. ok (vote s votes))

-- `a.1.cmp(b.1).then_with(|| b.0.cmp(a.0))`
abbrev pub by_count : String × ℕ → String × ℕ → Ordering
by_count (k, n) (j, m) = elim (compare_ℕ n m) [
  | Ordering.lt ↦ Ordering.lt
  | Ordering.eq ↦ compare j k
  | Ordering.gt ↦ Ordering.gt
]

abbrev pub later_unless_greater : Ordering → String × ℕ → String × ℕ → String × ℕ
later_unless_greater Ordering.gt a b = a
later_unless_greater _ a b = b

-- `max_by`: of equal elements, the last.
unfoldable pub max_from : String × ℕ → Votes → String × ℕ
max_from best [] = best
max_from best (v ∷ rest) = max_from (later_unless_greater (by_count best v) best v) rest

abbrev pub vote_fields : Votes → Fields
vote_fields [] = end
vote_fields ((k, n) ∷ rest) = field k (number (pos_int n)) (vote_fields rest)

abbrev pub winner_value : Votes → Result AggregateError Value
winner_value [] = err panic
winner_value (v ∷ rest) = ok (
    object (
      field "aggregated" (string (max_from v rest).0)
        (field "votes" (object (vote_fields (v ∷ rest))) end)))

unfoldable pub majority_enum : List Value → String → Result AggregateError Value
unfolding tally fold_trials max_from
majority_enum trials name = and_then (fold_trials (tally name) [] 0 trials) winner_value

-- `{}` of a number, in decimal; each round drops a digit, so the number is fuel enough.
abbrev pub digit : ℕ → String
digit n = unwrap_or "" (nth n ("0" ∷ "1" ∷ "2" ∷ "3" ∷ "4" ∷ "5" ∷ "6" ∷ "7" ∷ "8" ∷ "9" ∷ []))

unfoldable pub decimal : ℕ → ℕ → String
decimal zero n = ""
decimal (suc fuel) n =
    let rest = decimal fuel (n / 10) in if ltb n 10 then digit n else append rest (digit (n % 10))

unfoldable pub attribute : String → List String → ℕ → Value → Result AggregateError (List String)
unfolding trial_text decimal
attribute name parts i trial = and_then (trial_text name i trial) (λ s.
    ok (parts ++ append "[trial " (append (decimal (suc (suc i)) (suc i)) (append "]: " s)) ∷ []))

unfoldable pub concat_evidence : List Value → String → String → Result AggregateError Value
unfolding attribute fold_trials join
concat_evidence trials name separator =
    and_then (fold_trials (attribute name) [] 0 trials)
      (λ parts. ok (object (field "aggregated" (string (join separator parts)) end)))

pub data AggregationRule (Float : Type 0) : Type 0 where
  logit : String → Float → Float → AggregationRule Float
  concat : String → String → AggregationRule Float
  majority : String → AggregationRule Float
  severity : String → List String → AggregationRule Float

-- The rule that computes with floats is a parameter.
module _ {Float : Type 0}
    (logit_shrinkage : List Value → String → Float → Float → Result AggregateError Value) where
  abbrev pub apply_rule : List Value → AggregationRule Float → Result AggregateError Value
  apply_rule trials (logit name prior lambda) = logit_shrinkage trials name prior lambda
  apply_rule trials (concat name separator) = concat_evidence trials name separator
  apply_rule trials (majority name) = majority_enum trials name
  apply_rule trials (severity name ladder) = max_severity trials name ladder

  unfoldable pub aggregate : List Value → AggregationRule Float → Result AggregateError Value
  unfolding concat_evidence majority_enum max_severity
  aggregate trials rule = if is_empty trials then err no_trials else apply_rule trials rule

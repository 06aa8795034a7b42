-- ===== src/Aggregate/Severity.antt =====
-- `max_severity`: the highest level of the trials, and how many trials are at it.
use mathlib.Core.List.{Memᴰ}
use mneme_substrate.Base.{
  ℕ, suc, ◌+◌, ◌≤◌, ◌<◌, String, false, none, some, List, [], ◌∷◌, if◌then◌else◌, ◌==◌, length,
  count, is_empty, All, Result, ok, err, and_then, ◌≡◌, refl, ap, ◌∙◌, arith, ◌⊎◌, inl, inr,
}
use mneme_substrate.Base.Json.{Value}
use mneme_substrate.Aggregate.Rules.{
  AggregateError, invalid_param, trial_text, fold_trials, position, on_ladder, Highest, raise_to,
  rate, nth, level_value, highest_value, max_severity,
}

-- The position of each trial on the ladder, or the first error.
abbrev pub ratings : List String → String → ℕ → List Value → Result AggregateError (List ℕ)
ratings ladder name i [] = ok []
ratings ladder name i (trial ∷ trials) =
    let rest = ratings ladder name (suc i) trials in
    and_then (trial_text name i trial) (λ s.
      and_then (on_ladder i name s ladder (position s ladder))
        (λ pos. and_then rest (λ ps. ok (pos ∷ ps))))

abbrev pub raise_all : Highest → List ℕ → Highest
raise_all h [] = h
raise_all h (p ∷ ps) = raise_all (raise_to h p) ps

loop-step :
    (text : Result AggregateError String) (rank : String → Result AggregateError ℕ) (h : Highest)
    (loop : Highest → Result AggregateError Highest) (rest : Result AggregateError (List ℕ))
    → ((h' : Highest) → loop h' ≡ and_then rest (λ ps. ok (raise_all h' ps)))
    → and_then (and_then text (λ s. and_then (rank s) (λ pos. ok (raise_to h pos)))) loop
      ≡ and_then
          (and_then text (λ s. and_then (rank s) (λ pos. and_then rest (λ ps. ok (pos ∷ ps)))))
          (λ ps. ok (raise_all h ps))
loop-step (err e) rank h loop rest eq = refl
loop-step (ok s) rank h loop rest eq = ranked (rank s)
  where
    tail :
        (pos : ℕ) (r : Result AggregateError (List ℕ))
        → and_then r (λ ps. ok (raise_all (raise_to h pos) ps))
          ≡ and_then (and_then r (λ ps. ok (pos ∷ ps))) (λ ps. ok (raise_all h ps))
    tail pos (ok ps) = refl
    tail pos (err e) = refl

    ranked :
        (r : Result AggregateError ℕ)
        → and_then (and_then r (λ pos. ok (raise_to h pos))) loop
          ≡ and_then
              (and_then r (λ pos. and_then rest (λ ps. ok (pos ∷ ps))))
              (λ ps. ok (raise_all h ps))
    ranked (ok pos) = eq (raise_to h pos) ∙ tail pos rest
    ranked (err e) = refl

-- The loop reads the positions, and fails where reading them does.
pub loop-ratings :
    (ladder : List String) (name : String) (h : Highest) (i : ℕ) (trials : List Value)
    → fold_trials (rate ladder name) h i trials
      ≡ and_then (ratings ladder name i trials) (λ ps. ok (raise_all h ps))
unfolding fold_trials rate
loop-ratings ladder name h i [] = refl
loop-ratings ladder name h i (trial ∷ trials) =
    loop-step (trial_text name i trial) (λ s. on_ladder i name s ladder (position s ladder)) h
      (λ h'. fold_trials (rate ladder name) h' (suc i) trials) (ratings ladder name (suc i) trials)
      (λ h'. loop-ratings ladder name h' (suc i) trials)

-- The highest of the positions `ps` and `m`, counted.
pub record IsHighest (m n : ℕ) (ps : List ℕ) (top : ℕ) : Type 0 where
  pub raised :
      raise_all (some m, n) ps ≡ (some top, (if top == m then n else 0) + count (λ p. p == top) ps)
  pub above_first : m ≤ top
  pub above : All (λ p. p ≤ top) ps
  pub reached : (top ≡ m) ⊎ Memᴰ top ps

-- What one more position adds to the count.
counted_above :
    (m n p top c : ℕ)
    → m < p
    → p ≤ top
    → (if top == p then 1 else 0) + c
      ≡ (if top == m then n else 0) + (if p == top then suc c else c)
counted_above m n p top c up le = ground (arith)

counted_same :
    (m n p top c : ℕ)
    → p ≡ m
    → (if top == m then n + 1 else 0) + c
      ≡ (if top == m then n else 0) + (if p == top then suc c else c)
counted_same m n p top c same = ground (arith)

counted_below :
    (m n p top c : ℕ)
    → p < m
    → m ≤ top
    → (if top == m then n else 0) + c
      ≡ (if top == m then n else 0) + (if p == top then suc c else c)
counted_below m n p top c down le = ground (arith)

raise_above : (m n p : ℕ) → m < p → raise_to (some m, n) p ≡ (some p, 1)
raise_above m n p up = ground (arith)

raise_same :
    (m n p k : ℕ) → p ≡ m → n + suc k < 4294967296 → raise_to (some m, n) p ≡ (some m, n + 1)
raise_same m n p k same small = ground (arith)

raise_below : (m n p : ℕ) → p < m → raise_to (some m, n) p ≡ (some m, n)
raise_below m n p down = ground (arith)

below_top : {m p top : ℕ} → m < p → p ≤ top → m ≤ top
below_top up le = ground (arith)

shorter : (n k : ℕ) → n + suc k < 4294967296 → n + k < 4294967296
shorter n k small = ground (arith)

first_counted : (n k : ℕ) → n + suc k < 4294967296 → 1 + k < 4294967296
first_counted n k small = ground (arith)

one_more : (n k : ℕ) → n + suc k < 4294967296 → n + 1 + k < 4294967296
one_more n k small = ground (arith)

same_top : {m p top : ℕ} → p ≡ m → m ≤ top → p ≤ top
same_top same le = ground (arith)

reached_tail : {top p : ℕ} {ps : List ℕ} → (top ≡ p) ⊎ Memᴰ top ps → Memᴰ top (p ∷ ps)
reached_tail (inl eq) = Memᴰ.head eq
reached_tail (inr m) = Memᴰ.tail m

reached_later :
    {top m p : ℕ} {ps : List ℕ} → (top ≡ m) ⊎ Memᴰ top ps → (top ≡ m) ⊎ Memᴰ top (p ∷ ps)
reached_later (inl eq) = inl eq
reached_later (inr m) = inr (Memᴰ.tail m)

order : (m p : ℕ) → (m < p) ⊎ ((p ≡ m) ⊎ (p < m))
order m p = ground (arith)

pub raise_all-IsHighest :
    (m n : ℕ) (ps : List ℕ) → n + length ps < 4294967296 → (top : ℕ) × IsHighest m n ps top
raise_all-IsHighest m n [] small = (
  m,
  record {
    raised = ap (λ k. (some m, k)) (ground (arith));
    above_first = ground (arith);
    above = tt;
    reached = inl refl;
  },
)
raise_all-IsHighest m n (p ∷ ps) small = elim (order m p) [
  | inl up ↦
      let (top, h) = raise_all-IsHighest p 1 ps (first_counted n (length ps) small) in
      (
        top,
        record {
          raised =
              ap (λ g. raise_all g ps) (raise_above m n p up)
              ∙ h.raised
              ∙ ap (λ k. (some top, k))
                  (counted_above m n p top (count (λ q. q == top) ps) up h.above_first);
          above_first = below_top up h.above_first;
          above = (h.above_first, h.above);
          reached = inr (reached_tail h.reached);
        },
      )
  | inr (inl same) ↦
      let (top, h) = raise_all-IsHighest m (n + 1) ps (one_more n (length ps) small) in
      (
        top,
        record {
          raised =
              ap (λ g. raise_all g ps) (raise_same m n p (length ps) same small)
              ∙ h.raised
              ∙ ap (λ k. (some top, k)) (counted_same m n p top (count (λ q. q == top) ps) same);
          above_first = h.above_first;
          above = (same_top same h.above_first, h.above);
          reached = reached_later h.reached;
        },
      )
  | inr (inr down) ↦
      let (top, h) = raise_all-IsHighest m n ps (shorter n (length ps) small) in
      (
        top,
        record {
          raised =
              ap (λ g. raise_all g ps) (raise_below m n p down)
              ∙ h.raised
              ∙ ap (λ k. (some top, k))
                  (counted_below m n p top (count (λ q. q == top) ps) down h.above_first);
          above_first = h.above_first;
          above = (below_top down h.above_first, h.above);
          reached = reached_later h.reached;
        },
      )
]

counted_first : (p top c : ℕ) → (if top == p then 1 else 0) + c ≡ (if p == top then suc c else c)
counted_first p top c = ground (arith)

-- The positions of the trials settle what is returned.
pub max_severity-ratings :
    (trials : List Value) (name : String) (ladder : List String) (p : ℕ) (ps : List ℕ)
    → is_empty ladder ≡ false
    → ratings ladder name 0 trials ≡ ok (p ∷ ps)
    → 1 + length ps < 4294967296
    → (top : ℕ) × Memᴰ top (p ∷ ps)
      × All (λ q. q ≤ top) (p ∷ ps)
      × (max_severity trials name ladder
          ≡ level_value (count (λ q. q == top) (p ∷ ps)) (nth top ladder))
unfolding max_severity
max_severity-ratings trials name ladder p ps ladders rated small =
    let (top, h) = raise_all-IsHighest p 1 ps small in
    (
      top,
      reached_tail h.reached,
      (h.above_first, h.above),
      ap
            (λ b.
              if b
              then err (invalid_param "severity ladder must be non-empty")
              else and_then (fold_trials (rate ladder name) (none, 0) 0 trials)
                  (highest_value ladder))
            ladders
          ∙ ap (λ r. and_then r (highest_value ladder))
              (loop-ratings ladder name (none, 0) 0 trials)
          ∙ ap
              (λ r.
                and_then (and_then r (λ qs. ok (raise_all (none, 0) qs))) (highest_value ladder))
              rated
          ∙ ap (highest_value ladder) h.raised
          ∙ ap (λ n. level_value n (nth top ladder))
              (counted_first p top (count (λ q. q == top) ps)),
    )

-- ===== src/Aggregate/Highest.antt =====
-- `max_severity`: the level that is returned is the highest of the trials' texts on the ladder.
use mathlib.Core.List.{Memᴰ}
use mathlib.Core.List.Memᴰ
use mneme_substrate.Base.{
  ℕ, suc, ◌==◌, some, ◌+◌, ◌<◌, String, false, List, [], ◌∷◌, ◌++◌, length, count, is_empty, All,
  ok, ◌≡◌, ◌≢◌, refl, sym, ap, ◌∙◌, subst, ◌⊎◌,
}
use mneme_substrate.Base.Json.{Value}
use mneme_substrate.Base.Text.{same_text}
use mneme_substrate.Aggregate.Rules.{position, level_value, severity_value, max_severity}
use mneme_substrate.Aggregate.Severity.{ratings, max_severity-ratings}
use mneme_substrate.Aggregate.Texts.{Carries}
use mneme_substrate.Aggregate.Ladder.{
  Ranked, split, position-nth, ratings-Ranked, Ranked-Mem, Ranked-earlier, Ranked-count,
}

-- The ladder is `before`, then the level, which does not stand in `before`, then others. The level
-- is one of the texts, and each text is the level or stands before it; the texts that are the
-- level are counted.
abbrev pub IsHighestOf : List String → List String → List Value → String → String → Type 0
IsHighestOf ladder ts trials name level =
    (before : List String) × (after : List String) × (ladder ≡ before ++ level ∷ after)
    × All (λ l. l ≢ level) before
    × Memᴰ level ts
    × All (λ t. (t ≡ level) ⊎ Memᴰ t before) ts
    × (max_severity trials name ladder
        ≡ ok (severity_value level (count (λ t. same_text t level) ts)))

not_empty : (s : String) (ladder : List String) → Memᴰ s ladder → is_empty ladder ≡ false
not_empty s [] m = absurd (Memᴰ.not-nil m)
not_empty s (l ∷ ls) m = refl

highest :
    (trials : List Value) (name : String) (ladder ts : List String) (p : ℕ) (ps : List ℕ)
    → is_empty ladder ≡ false
    → ratings ladder name 0 trials ≡ ok (p ∷ ps)
    → Ranked ladder ts (p ∷ ps)
    → 1 + length ps < 4294967296
    → (level : String) × IsHighestOf ladder ts trials name level
highest trials name ladder ts p ps some_level rated ranked small =
    let (top, in_ps, below, value) =
      max_severity-ratings trials name ladder p ps some_level rated small in
    let (level, in_ts, at) = Ranked-Mem ladder ts (p ∷ ps) top ranked in_ps in
    let (before, after, eq, len, fresh) = split level ladder top at in
    let at' = subst (λ l. position level l ≡ some top) eq at in
    let ranked' = subst (λ l. Ranked l ts (p ∷ ps)) eq ranked in
    (
      level,
      (
        before,
        after,
        eq,
        fresh,
        in_ts,
        Ranked-earlier level before after top at' len ts (p ∷ ps) ranked' below,
        value
            ∙ ap (level_value (count (λ q. q == top) (p ∷ ps))) (position-nth level ladder top at)
            ∙ ap (λ n. ok (severity_value level n))
                (Ranked-count level before after top at' len ts (p ∷ ps) ranked'),
      ),
    )

Ranked-length :
    (ladder ts : List String) (ps : List ℕ) → Ranked ladder ts ps → length ps ≡ length ts
Ranked-length ladder [] [] h = refl
Ranked-length ladder [] (p ∷ ps) h = absurd h
Ranked-length ladder (t ∷ ts) [] h = absurd h
Ranked-length ladder (t ∷ ts) (p ∷ ps) (at, rest) = ap suc (Ranked-length ladder ts ps rest)

-- On trials that carry texts of the ladder in the field, at least one and fewer than 2 ^ 32,
-- max_severity returns the highest of their levels: one that some trial carries, such that each trial
-- carries it or a level that stands before its first place on the ladder, with the number of the
-- trials that carry it.
pub max_severity-highest :
    (trials : List Value) (name : String) (ladder : List String) (t : String) (ts : List String)
    → Carries name trials (t ∷ ts)
    → All (λ t. Memᴰ t ladder) (t ∷ ts)
    → 1 + length ts < 4294967296
    → (level : String) × IsHighestOf ladder (t ∷ ts) trials name level
max_severity-highest trials name ladder t ts carried on small =
    let (ps, rated, ranked) = ratings-Ranked ladder name 0 trials (t ∷ ts) carried on in
    go ps rated ranked
  where
    go :
        (ps : List ℕ)
        → ratings ladder name 0 trials ≡ ok ps
        → Ranked ladder (t ∷ ts) ps
        → (level : String) × IsHighestOf ladder (t ∷ ts) trials name level
    go [] rated ranked = absurd ranked
    go (p ∷ ps) rated ranked =
        highest trials name ladder (t ∷ ts) p ps (not_empty t ladder on.0) rated ranked
          (subst (λ n. 1 + n < 4294967296) (sym (Ranked-length ladder ts ps ranked.1)) small)

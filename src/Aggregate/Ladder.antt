-- ===== src/Aggregate/Ladder.antt =====
-- `max_severity`: positions on the ladder, and what stands at them.
use text.Mathlib.TextEquality.{eq_iff}
use mathlib.Core.Bool.{false≢true}
use mathlib.Core.List.{Memᴰ}
use mathlib.Core.List.Memᴰ
use mathlib.Core.Path.{ap₂}
use mneme_substrate.Base.{
  ℕ, suc, ◌≤◌, String, Bool, true, false, Option, none, some, unwrap_or, List, [], ◌∷◌, ◌++◌,
  if◌then◌else◌, ◌==◌, ==_iff, length, count, All, ok, and_then, ◌≡◌, ◌≢◌, refl, sym, ap, ◌∙◌,
  arith, ◌⊎◌, inl, inr, Bool-cases,
}
use mneme_substrate.Base.Json.{Value}
use mneme_substrate.Base.Text.{same_text}
use mneme_substrate.Aggregate.Rules.{position, on_ladder, nth}
use mneme_substrate.Aggregate.Severity.{ratings}
use mneme_substrate.Aggregate.Texts.{Carries, trial_text-string}

same_refl : (s : String) → same_text s s ≡ true
same_refl s = (eq_iff s s).1 refl

some_inj : {m n : ℕ} → ◌≡◌ {A = Option ℕ} (some m) (some n) → m ≡ n
some_inj e = ap (unwrap_or 0) e

abbrev next : Option ℕ → Option ℕ
next o = elim o [ none ↦ none | some n ↦ some (suc n) ]

position-here :
    (s l : String) (ls : List String) → same_text l s ≡ true → position s (l ∷ ls) ≡ some 0
unfolding position
position-here s l ls same = simp (same) refl

position-there :
    (s l : String) (ls : List String)
    → same_text l s ≡ false
    → position s (l ∷ ls) ≡ next (position s ls)
unfolding position
position-there s l ls apart = simp (apart) refl

next-some : (o : Option ℕ) (p : ℕ) → next o ≡ some p → (q : ℕ) × (o ≡ some q) × (suc q ≡ p)
next-some none p h = absurd (cc h)
next-some (some q) p h = (q, refl, some_inj h)

-- A level of the ladder has a position.
place : (s : String) (ladder : List String) → Memᴰ s ladder → (p : ℕ) × (position s ladder ≡ some p)
place s [] m = absurd (Memᴰ.not-nil m)
place s (l ∷ ls) (Memᴰ.head eq) = (0, position-here s l ls ((eq_iff l s).1 (sym eq)))
place s (l ∷ ls) (Memᴰ.tail m) = elim (Bool-cases (same_text l s)) [
  | inl same ↦ (0, position-here s l ls same)
  | inr apart ↦ let (p, at) = place s ls m in (suc p, position-there s l ls apart ∙ ap next at)
]

-- What stands at the position: the level, for the first time.
abbrev pub IsFirst : String → List String → ℕ → Type 0
IsFirst s ladder p =
    (before : List String) × (after : List String) × (ladder ≡ before ++ s ∷ after)
    × (length before ≡ p)
    × All (λ l. l ≢ s) before

pub split :
    (s : String) (ladder : List String) (p : ℕ) → position s ladder ≡ some p → IsFirst s ladder p
unfolding position
split s [] p h = absurd (cc h)
split s (l ∷ ls) p h = elim (Bool-cases (same_text l s)) [
  | inl same ↦ (
    [],
    ls,
    ap (λ x. x ∷ ls) ((eq_iff l s).0 same),
    some_inj (sym (position-here s l ls same) ∙ h),
    tt,
  )
  | inr apart ↦
      let (q, at, eq_p) = next-some (position s ls) p (sym (position-there s l ls apart) ∙ h) in
      let (before, after, eq, len, fresh) = split s ls q at in
      (
        l ∷ before,
        after,
        ap (λ ls. l ∷ ls) eq,
        ap suc len ∙ eq_p,
        (λ e. false≢true (sym apart ∙ (eq_iff l s).1 e), fresh),
      )
]

-- A level whose position is no later than that of `s` is `s` or stands before it.
earlier :
    (t s : String) (before after : List String) (q : ℕ)
    → position t (before ++ s ∷ after) ≡ some q
    → q ≤ length before
    → (t ≡ s) ⊎ Memᴰ t before
earlier t s [] after q at le = elim (Bool-cases (same_text s t)) [
  | inl same ↦ inl (sym ((eq_iff s t).0 same))
  | inr apart ↦
      let (r, _, eq) = next-some (position t after) q (sym (position-there t s after apart) ∙ at) in
      absurd (omega (arith, eq, le))
]
earlier t s (b ∷ before) after q at le = elim (Bool-cases (same_text b t)) [
  | inl same ↦ inr (Memᴰ.head (sym ((eq_iff b t).0 same)))
  | inr apart ↦
      let (r, at', eq) =
        next-some (position t (before ++ s ∷ after)) q
          (sym (position-there t b (before ++ s ∷ after) apart) ∙ at) in
      elim (earlier t s before after r at' (omega (arith, eq, le))) [
        | inl same ↦ inl same
        | inr m ↦ inr (Memᴰ.tail m)
      ]
]

nth-split :
    (before : List String) (s : String) (after : List String)
    → nth (length before) (before ++ s ∷ after) ≡ some s
nth-split [] s after = refl
nth-split (b ∷ before) s after = nth-split before s after

pub position-nth :
    (s : String) (ladder : List String) (p : ℕ) → position s ladder ≡ some p → nth p ladder ≡ some s
position-nth s ladder p h =
    let (before, after, eq, len, fresh) = split s ladder p h in
    ap (nth p) eq ∙ ap (λ n. nth n (before ++ s ∷ after)) (sym len) ∙ nth-split before s after

text_inj : {s t : String} → ◌≡◌ {A = Option String} (some s) (some t) → s ≡ t
text_inj {s} e = ap (unwrap_or s) e

-- Two texts at one position are the same.
same_place :
    (s t : String) (ladder : List String) (p q : ℕ)
    → position s ladder ≡ some p
    → position t ladder ≡ some q
    → (q == p) ≡ same_text t s
same_place s t ladder p q at_s at_t = elim (Bool-cases (q == p)) [
  | inl same ↦
      same
      ∙ sym (
          (eq_iff t s).1 (
            text_inj (
              sym (position-nth t ladder q at_t)
              ∙ ap (λ n. nth n ladder) ((==_iff q p).0 same)
              ∙ position-nth s ladder p at_s)))
  | inr apart ↦ elim (Bool-cases (same_text t s)) [
    | inl same ↦ absurd (
        false≢true (
          sym apart
          ∙ (==_iff q p).1
              (some_inj (sym at_t ∙ ap (λ x. position x ladder) ((eq_iff t s).0 same) ∙ at_s))))
    | inr other ↦ apart ∙ sym other
  ]
]

-- The positions are those of the texts.
abbrev pub Ranked : List String → List String → List ℕ → Type 0
Ranked ladder [] [] = Unit
Ranked ladder (t ∷ ts) (p ∷ ps) = (position t ladder ≡ some p) × Ranked ladder ts ps
Ranked ladder _ _ = ⊥

pub ratings-Ranked :
    (ladder : List String) (name : String) (i : ℕ) (trials : List Value) (ts : List String)
    → Carries name trials ts
    → All (λ t. Memᴰ t ladder) ts
    → (ps : List ℕ) × (ratings ladder name i trials ≡ ok ps) × Ranked ladder ts ps
ratings-Ranked ladder name i [] [] h on = ([], refl, tt)
ratings-Ranked ladder name i [] (t ∷ ts) h on = absurd h
ratings-Ranked ladder name i (trial ∷ trials) [] h on = absurd h
ratings-Ranked ladder name i (trial ∷ trials) (t ∷ ts) (here, rest) (m, ms) =
    let (p, at) = place t ladder m in
    let (ps, rated, ranked) = ratings-Ranked ladder name (suc i) trials ts rest ms in
    (
      p ∷ ps,
      ap
            (λ r. and_then r λ s.
              and_then (on_ladder i name s ladder (position s ladder))
                λ pos. and_then (ratings ladder name (suc i) trials) λ ps. ok (pos ∷ ps))
            (trial_text-string name i trial t here)
          ∙ ap
              (λ o.
                and_then (on_ladder i name t ladder o)
                  λ pos. and_then (ratings ladder name (suc i) trials) λ ps. ok (pos ∷ ps))
              at
          ∙ ap (λ r. and_then r λ ps. ok (p ∷ ps)) rated,
      (at, ranked),
    )

pub Ranked-Mem :
    (ladder ts : List String) (ps : List ℕ) (p : ℕ)
    → Ranked ladder ts ps
    → Memᴰ p ps
    → (t : String) × Memᴰ t ts × (position t ladder ≡ some p)
Ranked-Mem ladder [] [] p h m = absurd (Memᴰ.not-nil m)
Ranked-Mem ladder [] (q ∷ ps) p h m = absurd h
Ranked-Mem ladder (t ∷ ts) [] p h m = absurd h
Ranked-Mem ladder (t ∷ ts) (q ∷ ps) p (at, rest) (Memᴰ.head eq) =
    (t, Memᴰ.head refl, at ∙ ap some (sym eq))
Ranked-Mem ladder (t ∷ ts) (q ∷ ps) p (at, rest) (Memᴰ.tail m) =
    let (u, in_ts, at_u) = Ranked-Mem ladder ts ps p rest m in (u, Memᴰ.tail in_ts, at_u)

module _ (level : String) (before after : List String) (top : ℕ)
    (at_top : position level (before ++ level ∷ after) ≡ some top) (len : length before ≡ top) where
  -- No text stands above the highest position.
  pub Ranked-earlier :
      (ts : List String) (ps : List ℕ)
      → Ranked (before ++ level ∷ after) ts ps
      → All (λ q. q ≤ top) ps
      → All (λ t. (t ≡ level) ⊎ Memᴰ t before) ts
  Ranked-earlier [] ps h below = tt
  Ranked-earlier (t ∷ ts) [] h below = absurd h
  Ranked-earlier (t ∷ ts) (q ∷ ps) (at, rest) (le, les) =
      (earlier t level before after q at (omega (arith, le, len)), Ranked-earlier ts ps rest les)

  pub Ranked-count :
      (ts : List String) (ps : List ℕ)
      → Ranked (before ++ level ∷ after) ts ps
      → count (λ q. q == top) ps ≡ count (λ t. same_text t level) ts
  Ranked-count [] [] h = refl
  Ranked-count [] (q ∷ ps) h = absurd h
  Ranked-count (t ∷ ts) [] h = absurd h
  Ranked-count (t ∷ ts) (q ∷ ps) (at, rest) =
      ap₂ (λ (b : Bool) n. if b then suc n else n)
        (same_place level t (before ++ level ∷ after) top q at_top at) (Ranked-count ts ps rest)

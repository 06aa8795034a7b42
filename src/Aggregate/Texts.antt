-- ===== src/Aggregate/Texts.antt =====
-- src/mneme/swarm/aggregate: the texts that trials carry in a field.
use mneme_substrate.Base.{ℕ, suc, String, some, List, [], ◌∷◌, ◌≡◌, refl, ap, ◌∙◌, ok, and_then}
use mneme_substrate.Base.Json.{Value, string, get}
use mneme_substrate.Aggregate.Rules.{trial_text, text_of}
use mneme_substrate.Aggregate.Majority.{texts}

-- Each trial has the text of the same place in the field.
abbrev pub Carries : String → List Value → List String → Type 0
Carries name [] [] = Unit
Carries name (trial ∷ trials) (t ∷ ts) = (get name trial ≡ some (string t)) × Carries name trials ts
Carries name _ _ = ⊥

pub trial_text-string :
    (name : String) (i : ℕ) (trial : Value) (t : String)
    → get name trial ≡ some (string t)
    → trial_text name i trial ≡ ok t
unfolding trial_text
trial_text-string name i trial t h = ap (text_of i name) h

pub texts-Carries :
    (name : String) (i : ℕ) (trials : List Value) (ts : List String)
    → Carries name trials ts
    → texts name i trials ≡ ok ts
texts-Carries name i [] [] h = refl
texts-Carries name i [] (t ∷ ts) h = absurd h
texts-Carries name i (trial ∷ trials) [] h = absurd h
texts-Carries name i (trial ∷ trials) (t ∷ ts) (here, rest) =
    ap (λ r. and_then r λ s. and_then (texts name (suc i) trials) λ ss. ok (s ∷ ss))
      (trial_text-string name i trial t here)
    ∙ ap (λ r. and_then r λ ss. ok (t ∷ ss)) (texts-Carries name (suc i) trials ts rest)

-- ===== src/ClaudeCode/Numbered.antt =====
-- src/activations/claudecode/storage.rs: the events of a stream are numbered from zero, so the position
-- behind the last event that is returned counts the events that were read.
use mneme_substrate.Base.{
  ℕ, zero, suc, List, [], ◌∷◌, ◌++◌, length, map, take, ◌≡◌, refl, sym, ap, ◌∙◌, subst, ◌+◌, ◌≤◌,
  ◌<◌, arith,
}
use mneme_substrate.ClaudeCode.Types.{BufferedEvent, ChatEvent}
use mneme_substrate.ClaudeCode.Streams.{skip, next_position, u64}

-- The numbers of the events go up by one from `n`.
abbrev pub IsNumbered : ℕ → List BufferedEvent → Type 0
IsNumbered n [] = Unit
IsNumbered n (e ∷ es) = (e.seq ≡ n) × IsNumbered (suc n) es

abbrev pub events_of : List BufferedEvent → List ChatEvent
events_of es = map (λ (e : BufferedEvent). e.event) es

pub append-IsNumbered :
    (n : ℕ) (es : List BufferedEvent) (e : BufferedEvent)
    → IsNumbered n es
    → e.seq ≡ n + length es
    → IsNumbered n (es ++ e ∷ [])
append-IsNumbered n [] e h at = (ground (arith, at), tt)
append-IsNumbered n (x ∷ es) e (here, rest) at =
    (here, append-IsNumbered (suc n) es e rest (ground (arith, at)))

pub skip-IsNumbered :
    (k n : ℕ) (es : List BufferedEvent) → IsNumbered n es → IsNumbered (n + k) (skip k es)
unfolding skip
skip-IsNumbered zero n es h = subst (λ m. IsNumbered m es) (omega arith) h
skip-IsNumbered (suc k) n [] h = tt
skip-IsNumbered (suc k) n (e ∷ es) (here, rest) =
    subst (λ m. IsNumbered m (skip k es)) (omega arith) (skip-IsNumbered k (suc n) es rest)

pub take-IsNumbered :
    (k n : ℕ) (es : List BufferedEvent) → IsNumbered n es → IsNumbered n (take k es)
take-IsNumbered zero n es h = tt
take-IsNumbered (suc k) n [] h = tt
take-IsNumbered (suc k) n (e ∷ es) (here, rest) = (here, take-IsNumbered k (suc n) es rest)

pub next_position-length :
    (n : ℕ) (es : List BufferedEvent)
    → IsNumbered n es
    → n + length es < u64
    → next_position n es ≡ n + length es
unfolding next_position
next_position-length n [] h small = omega arith
next_position-length n (e ∷ []) (here, rest) small = ground (arith, here)
next_position-length n (e ∷ e' ∷ es) (here, rest) small =
    next_position-any n (suc n) e' es
    ∙ next_position-length (suc n) (e' ∷ es) rest (ground (arith, small))
    ∙ ground arith
  where
    next_position-any :
        (n m : ℕ) (e : BufferedEvent) (es : List BufferedEvent)
        → next_position n (e ∷ es) ≡ next_position m (e ∷ es)
    next_position-any n m e [] = refl
    next_position-any n m e (e' ∷ es) = next_position-any n m e' es

skip-nothing : (k : ℕ) → skip k [] ≡ []
unfolding skip
skip-nothing zero = refl
skip-nothing (suc k) = refl

skip-add : (j k : ℕ) (es : List BufferedEvent) → skip (j + k) es ≡ skip k (skip j es)
unfolding skip
skip-add zero k es = ap (λ n. skip n es) (omega arith)
skip-add (suc j) k [] = skip-nothing (suc j + k) ∙ sym (skip-nothing k)
skip-add (suc j) k (e ∷ es) =
    ap (λ n. skip n (e ∷ es)) {x = suc j + k} {y = suc (j + k)} (omega arith) ∙ skip-add j k es

skip-length-take : (k : ℕ) (es : List BufferedEvent) → skip (length (take k es)) es ≡ skip k es
unfolding skip
skip-length-take zero es = refl
skip-length-take (suc k) [] = refl
skip-length-take (suc k) (e ∷ es) = skip-length-take k es

-- What is left behind the events that were taken.
pub skip-taken :
    (position k : ℕ) (es : List BufferedEvent)
    → skip (position + length (take k (skip position es))) es ≡ skip k (skip position es)
skip-taken position k es =
    skip-add position (length (take k (skip position es))) es
    ∙ skip-length-take k (skip position es)

pub take-skip :
    (k : ℕ) (es : List BufferedEvent)
    → events_of (take k es) ++ events_of (skip k es) ≡ events_of es
unfolding skip
take-skip zero es = refl
take-skip (suc k) [] = refl
take-skip (suc k) (e ∷ es) = ap (λ rest. e.event ∷ rest) (take-skip k es)

pub skip-append :
    (k : ℕ) (es : List BufferedEvent) (e : BufferedEvent)
    → k ≤ length es
    → skip k (es ++ e ∷ []) ≡ skip k es ++ e ∷ []
unfolding skip
skip-append zero es e h = refl
skip-append (suc k) [] e h = absurd (omega (arith, h))
skip-append (suc k) (x ∷ es) e h = skip-append k es e (omega (arith, h))

pub taken-length :
    (position k : ℕ) (es : List BufferedEvent)
    → position ≤ length es
    → position + length (take k (skip position es)) ≤ length es
unfolding skip
taken-length zero zero es h = omega arith
taken-length zero (suc k) [] h = omega arith
taken-length zero (suc k) (e ∷ es) h = ground (arith, taken-length zero k es (omega arith))
taken-length (suc position) k [] h = absurd (omega (arith, h))
taken-length (suc position) k (e ∷ es) h =
    ground (arith, taken-length position k es (omega (arith, h)))

pub skip-all : (k : ℕ) (es : List BufferedEvent) → length es ≤ k → skip k es ≡ []
unfolding skip
skip-all zero [] h = refl
skip-all zero (e ∷ es) h = absurd (omega (arith, h))
skip-all (suc k) [] h = refl
skip-all (suc k) (e ∷ es) h = skip-all k es (omega (arith, h))

pub taken-enough :
    (position k m : ℕ) (es : List BufferedEvent)
    → length es ≤ position + (k + m)
    → length es ≤ position + length (take k (skip position es)) + m
unfolding skip
taken-enough zero zero m es h = omega (arith, h)
taken-enough zero (suc k) m [] h = omega arith
taken-enough zero (suc k) m (e ∷ es) h = ground (arith, taken-enough zero k m es (omega (arith, h)))
taken-enough (suc position) k m [] h = omega arith
taken-enough (suc position) k m (e ∷ es) h =
    ground (arith, taken-enough position k m es (omega (arith, h)))

-- ===== src/Aggregate/Winner.antt =====
-- `majority_enum`: the winner has the most votes, and is the first of the texts that have as many.
use Prim.Native.Nat.{Ordering, compare as compare_ℕ}
use Prim.Native.String.{compare}
use text.Mathlib.TextEquality.{eq_iff}
use text.Mathlib.TextPositions.{compare_refl}
use mathlib.Core.List.{Memᴰ}
use mathlib.Core.List.Memᴰ
use mneme_substrate.Base.{
  ℕ, suc, ◌≤◌, ◌<◌, String, false, List, [], ◌∷◌, count, All, ◌≡◌, refl, sym, ap, ◌∙◌, subst, arith,
  ◌⊎◌, inl, inr, Bool-cases,
}
use mneme_substrate.Base.Text.{same_text}
use mneme_substrate.Base.TextOrder.{compare-back, compare_trans}
use mneme_substrate.Aggregate.Rules.{Votes, by_count, later_unless_greater, max_from}
use mneme_substrate.Aggregate.Tally.{votes_of, IsAbove, IsSorted}

-- The first entry has more votes, or as many and is not the later text.
abbrev pub Beats : String × ℕ → String × ℕ → Type 0
Beats w v = (v.1 < w.1) ⊎ ((v.1 ≡ w.1) × ((w.0 ≡ v.0) ⊎ (compare w.0 v.0 ≡ Ordering.lt)))

Beats-fewer : (w b v : String × ℕ) → v.1 < b.1 → Beats w b → Beats w v
Beats-fewer w b v fewer (inl more) = inl (omega (arith, fewer, more))
Beats-fewer w b v fewer (inr (eq, _)) = inl (omega (arith, fewer, eq))

Beats-later :
    (w b v : String × ℕ) → v.1 ≡ b.1 → compare b.0 v.0 ≡ Ordering.lt → Beats w b → Beats w v
Beats-later w b v eq lt (inl more) = inl (omega (arith, eq, more))
Beats-later w b v eq lt (inr (same, inl at)) =
    inr (eq ∙ same, inr (ap (λ x. compare x v.0) at ∙ lt))
Beats-later w b v eq lt (inr (same, inr before)) =
    inr (eq ∙ same, inr (compare_trans w.0 b.0 v.0 before lt))

kept_at :
    (o : Ordering) (n m : ℕ) (k j : String)
    → o ≡ Ordering.gt
    → (let chosen =
          later_unless_greater
            (elim (compare_ℕ n m) [
              | Ordering.lt ↦ Ordering.lt
              | Ordering.eq ↦ o
              | Ordering.gt ↦ Ordering.gt
            ])
            (k, n)
            (j, m) in
        ((chosen ≡ (k, n)) × ((m < n) ⊎ (m ≡ n))) ⊎ ((chosen ≡ (j, m)) × (n < m)))
kept_at o n m k j at = ground (arith, at)

-- What `max_by` keeps of an entry and a later one.
kept :
    (b v : String × ℕ)
    → compare b.0 v.0 ≡ Ordering.lt
    → ((later_unless_greater (by_count b v) b v ≡ b) × ((v.1 < b.1) ⊎ (v.1 ≡ b.1)))
      ⊎ ((later_unless_greater (by_count b v) b v ≡ v) × (b.1 < v.1))
kept (k, n) (j, m) lt = kept_at (compare j k) n m k j (compare-back k j lt)

-- The entry beats each, and is one of them.
abbrev pub IsBest : String × ℕ → Votes → Type 0
IsBest w votes = Memᴰ w votes × All (Beats w) votes

insert_second :
    (w b v : String × ℕ) (rest : Votes) → Beats w v → IsBest w (b ∷ rest) → IsBest w (b ∷ v ∷ rest)
insert_second w b v rest beats (Memᴰ.head eq, (here, there)) =
    (Memᴰ.head eq, (here, (beats, there)))
insert_second w b v rest beats (Memᴰ.tail m, (here, there)) =
    (Memᴰ.tail (Memᴰ.tail m), (here, (beats, there)))

pub max_from-IsBest :
    (b : String × ℕ) (rest : Votes) → IsSorted (b ∷ rest) → IsBest (max_from b rest) (b ∷ rest)
unfolding max_from
max_from-IsBest b [] h = (Memᴰ.head refl, (inr (refl, inl refl), tt))
max_from-IsBest b (v ∷ rest) ((lt, above), (above_v, sorted)) = elim (kept b v lt) [
  | inl (eq, behind) ↦
      let best = max_from-IsBest b rest (above, sorted) in
      let w = max_from b rest in
      let beats : Beats w v = elim behind [
        | inl fewer ↦ Beats-fewer w b v fewer best.1.0
        | inr same ↦ Beats-later w b v same lt best.1.0
      ] in
      subst (λ x. IsBest (max_from x rest) (b ∷ v ∷ rest)) (sym eq)
        (insert_second w b v rest beats best)
  | inr (eq, fewer) ↦
      let best = max_from-IsBest v rest (above_v, sorted) in
      let w = max_from v rest in
      subst (λ x. IsBest (max_from x rest) (b ∷ v ∷ rest)) (sym eq)
        (Memᴰ.tail best.0, (Beats-fewer w v b fewer best.1.0, best.1))
]

lt_apart_flip : (s t : String) → compare s t ≡ Ordering.lt → same_text s t ≡ false
lt_apart_flip s t h = elim (Bool-cases (same_text s t)) [
  | inl same ↦ absurd (cc (sym (compare_refl s) ∙ ap (compare s) ((eq_iff s t).0 same) ∙ h))
  | inr apart ↦ apart
]

-- An entry is found by its text, and a text with votes has an entry.
pub votes_of-Mem :
    (k : String) (n : ℕ) (votes : Votes) → IsSorted votes → Memᴰ (k, n) votes → votes_of k votes ≡ n
votes_of-Mem k n [] h m = absurd (Memᴰ.not-nil m)
votes_of-Mem k n ((j, c) ∷ rest) h (Memᴰ.head eq) =
    simp ((eq_iff j k).1 (sym (ap (λ (v : String × ℕ). v.0) eq)))
      (sym (ap (λ (v : String × ℕ). v.1) eq))
votes_of-Mem k n ((j, c) ∷ rest) (above, sorted) (Memᴰ.tail m) =
    simp (apart rest above m) (votes_of-Mem k n rest sorted m)
  where
    apart : (rest : Votes) → IsAbove j rest → Memᴰ (k, n) rest → same_text j k ≡ false
    apart [] above m = absurd (Memᴰ.not-nil m)
    apart (v ∷ rest) (here, there) (Memᴰ.head eq) =
        lt_apart_flip j k (ap (λ (x : String × ℕ). compare j x.0) eq ∙ here)
    apart (v ∷ rest) (here, there) (Memᴰ.tail m) = apart rest there m

pub Mem-votes_of :
    (k : String) (m : ℕ) (votes : Votes) → votes_of k votes ≡ suc m → Memᴰ (k, suc m) votes
Mem-votes_of k m [] h = absurd (omega (arith, h))
Mem-votes_of k m ((j, c) ∷ rest) h = elim (Bool-cases (same_text j k)) [
  | inl same ↦
      let at : c ≡ suc m = simp (same) at h in
      Memᴰ.head (ap (λ x. (x, suc m)) (sym ((eq_iff j k).0 same)) ∙ ap (λ x. (j, x)) (sym at))
  | inr apart ↦ Memᴰ.tail (Mem-votes_of k m rest (simp (apart) at h))
]

-- A text is counted exactly if it is there.
pub count-Mem :
    (k : String) (ts : List String) → Memᴰ k ts → (m : ℕ) × (count (λ t. same_text t k) ts ≡ suc m)
count-Mem k [] m = absurd (Memᴰ.not-nil m)
count-Mem k (t ∷ ts) (Memᴰ.head eq) =
    (count (λ t. same_text t k) ts, simp ((eq_iff t k).1 (sym eq)) refl)
count-Mem k (t ∷ ts) (Memᴰ.tail m) = elim (Bool-cases (same_text t k)) [
  | inl same ↦ (count (λ t. same_text t k) ts, simp (same) refl)
  | inr apart ↦ let (n, eq) = count-Mem k ts m in (n, simp (apart) eq)
]

pub Mem-count : (k : String) (ts : List String) → 1 ≤ count (λ t. same_text t k) ts → Memᴰ k ts
Mem-count k [] h = absurd (omega (arith, h))
Mem-count k (t ∷ ts) h = elim (Bool-cases (same_text t k)) [
  | inl same ↦ Memᴰ.head (sym ((eq_iff t k).0 same))
  | inr apart ↦ Memᴰ.tail (Mem-count k ts (simp (apart) at h))
]

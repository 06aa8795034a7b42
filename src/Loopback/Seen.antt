-- ===== src/Loopback/Seen.antt =====
-- src/activations/claudecode_loopback/storage.rs: who is told of a new request.
use mathlib.Core.List.{Memᴰ}
use mathlib.Core.List.Memᴰ
use text.Mathlib.TextEquality.{eq_iff}
use mneme_substrate.Base.{
  String, Bool, true, false, Option, none, some, List, [], ◌∷◌, ◌++◌, any, unwrap_or, ◌≡◌, refl,
  sym, ap, ◌∙◌, ◌⊎◌, inl, inr, Bool-cases,
}
use mneme_substrate.Base.Json.{Value}
use mneme_substrate.Base.Text.{same_text, get}
use mneme_substrate.Base.Members.{filter-Mem, sort_by-Mem, any-Mem}
use mneme_substrate.Loopback.Storage.{
  ApprovalId, ApprovalRequest, LoopbackStorage, has_approval, new_approval, create_approval,
  notify_session, wake, wake_parent, session_ids, list_pending,
}

-- A child is registered with its parent in both maps.
abbrev pub IsLinked : LoopbackStorage → Type 0
IsLinked s =
    (child of : String)
    → get child s.parents ≡ some of
    → Memᴰ child (unwrap_or [] (get of s.children))

pub some_inj : {a b : String} → ◌≡◌ {A = Option String} (some a) (some b) → a ≡ b
some_inj {a = a} eq = ap (unwrap_or a) eq

-- A notifier that holds a permit, if there is one.
abbrev pub with_permit : Option Bool → Option Bool
with_permit none = none
with_permit (some _) = some true

get-wake : (w : String) (ns : List (String × Bool)) → get w (wake w ns) ≡ with_permit (get w ns)
unfolding wake
get-wake w [] = refl
get-wake w ((k, n) ∷ ns) = elim (Bool-cases (same_text k w)) [
  | inl same ↦ simp (same)
  | inr apart ↦ simp (apart, get-wake w ns)
]

-- Waking a session leaves the permit of a notifier, or sets it.
wake_cases :
    (v w : String) (ns : List (String × Bool))
    → (get w (wake v ns) ≡ get w ns) ⊎ (get w (wake v ns) ≡ with_permit (get w ns))
unfolding wake
wake_cases v w [] = inl refl
wake_cases v w ((k, n) ∷ ns) = elim (Bool-cases (same_text k v)) [
  | inl woken ↦ elim (Bool-cases (same_text k w)) [
    | inl same ↦ inr (simp (woken, same))
    | inr apart ↦ elim (wake_cases v w ns) [
      | inl eq ↦ inl (simp (woken, apart, eq))
      | inr eq ↦ inr (simp (woken, apart, eq))
    ]
  ]
  | inr left ↦ elim (Bool-cases (same_text k w)) [
    | inl same ↦ inl (simp (left, same))
    | inr apart ↦ elim (wake_cases v w ns) [
      | inl eq ↦ inl (simp (left, apart, eq))
      | inr eq ↦ inr (simp (left, apart, eq))
    ]
  ]
]

with_permit_idem : (o : Option Bool) → with_permit (with_permit o) ≡ with_permit o
with_permit_idem none = refl
with_permit_idem (some _) = refl

wake-keeps :
    (v w : String) (o : Option Bool) (ns : List (String × Bool))
    → get w ns ≡ with_permit o
    → get w (wake v ns) ≡ with_permit o
wake-keeps v w o ns eq = elim (wake_cases v w ns) [
  | inl same ↦ same ∙ eq
  | inr set ↦ set ∙ ap with_permit eq ∙ with_permit_idem o
]

wake-permits :
    (v w : String) (ns : List (String × Bool))
    → with_permit (get w (wake v ns)) ≡ with_permit (get w ns)
wake-permits v w ns = elim (wake_cases v w ns) [
  | inl same ↦ ap with_permit same
  | inr set ↦ ap with_permit set ∙ with_permit_idem (get w ns)
]

-- The session itself, or its parent.
abbrev pub Watches : String → String → LoopbackStorage → Type 0
Watches w session s = (w ≡ session) ⊎ (get session s.parents ≡ some w)

woken :
    (w session : String) (parent : Option String) (ns : List (String × Bool))
    → (w ≡ session) ⊎ (parent ≡ some w)
    → get w (wake_parent parent (wake session ns)) ≡ with_permit (get w ns)
woken w session none ns (inl same) = ap (λ v. get w (wake v ns)) (sym same) ∙ get-wake w ns
woken w session none ns (inr eq) = absurd (cc eq)
woken w session (some p) ns (inl same) =
    wake-keeps p w (get w ns) (wake session ns)
      (ap (λ v. get w (wake v ns)) (sym same) ∙ get-wake w ns)
woken w session (some p) ns (inr eq) =
    ap (λ v. get w (wake v (wake session ns))) (some_inj eq)
    ∙ get-wake w (wake session ns)
    ∙ wake-permits session w ns

listed :
    (w session : String) (s : LoopbackStorage)
    → IsLinked s
    → Watches w session s
    → any (λ id. same_text id session) (session_ids w s) ≡ true
listed w session s linked (inl same) =
    any-Mem (λ id. same_text id session) (session_ids w s) ((eq_iff w session).1 same)
      (Memᴰ.head refl)
listed w session s linked (inr eq) =
    any-Mem (λ id. same_text id session) (session_ids w s) ((eq_iff session session).1 refl)
      (Memᴰ.tail (linked session w eq))

-- A request that is created is in the pending list of its session, and of the parent that is
-- registered for the session, and a waiter on either has a permit then, so that it cannot
-- miss the request.
pub create_approval-IsSeen :
    (id : ApprovalId) (session tool tool_use : String) (input : Value) (w : String)
    (s : LoopbackStorage)
    → has_approval id s ≡ false
    → IsLinked s
    → Watches w session s
    → Memᴰ
        (new_approval id session tool tool_use input s.now)
        (list_pending (some w) (create_approval id session tool tool_use input s).1)
      × (get w (create_approval id session tool tool_use input s).1.notifiers
          ≡ with_permit (get w s.notifiers))
unfolding create_approval list_pending notify_session
create_approval-IsSeen id session tool tool_use input w s fresh linked watches =
    let a = new_approval id session tool tool_use input s.now in
    rw fresh (
      sort_by-Mem (λ (b : ApprovalRequest). b.created_at) _
          (filter-Mem _ (s.approvals ++ a ∷ []) (simp (listed w session s linked watches))
            (Memᴰ.append_right s.approvals (Memᴰ.head refl))),
      woken w session (get session s.parents) s.notifiers watches,
    )

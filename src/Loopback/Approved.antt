-- ===== src/Loopback/Approved.antt =====
-- src/activations/claudecode_loopback/activation.rs: approvals and the answers of `permit`.
use mathlib.Core.Bool.{true≢false, and-false}
use mneme_substrate.Base.{
  ℕ, String, Bool, true, false, ◌&&◌, ◌||◌, Option, none, some, List, [], ◌∷◌, any, if◌then◌else◌,
  ◌==◌, ltb, All, ◌≡◌, refl, sym, ap, ◌∙◌, arith, Bool-cases, inl, inr, ok, unwrap_or,
}
use mneme_substrate.Base.Json.{Value}
use mneme_substrate.Base.Members.{any-++}
use mneme_substrate.Loopback.Storage.{
  ApprovalId, ApprovalStatus, ApprovalRequest, LoopbackStorage, has_approval, new_approval,
  create_approval, find_approval, found_approval, get_approval, resolve_rows, resolve_approval,
  get_or_create_notifier, has_notifier,
}
use mneme_substrate.Loopback.Methods.{
  Reply, allow, deny, denied_with, approval_timed_out, answer, permit_session, permit_round, Call,
  permit, round, respond, wait, forget, tool_session, tool_done, parent, handle, serve,
}

abbrev pub is_approved : ApprovalStatus → Bool
is_approved ApprovalStatus.approved = true
is_approved _ = false

-- The request `id` is approved.
abbrev pub approves : ApprovalId → ApprovalRequest → Bool
approves id a = (a.id == id) && is_approved a.status

abbrev pub is_granted : ApprovalId → LoopbackStorage → Bool
is_granted id s = any (approves id) s.approvals

-- The call that approves the request.
abbrev pub is_approval : ApprovalId → Call → Bool
is_approval id (respond j approve message) = approve && (j == id)
is_approval id _ = false

abbrev pub is_allow : Option Reply → Bool
is_allow (some (allow _)) = true
is_allow _ = false

or_parts : (a b : Bool) → (a || b) ≡ false → (a ≡ false) × (b ≡ false)
or_parts true b eq = absurd (true≢false eq)
or_parts false b eq = (refl, eq)

or_none : (a b : Bool) → a ≡ false → b ≡ false → (a || b) ≡ false
or_none a b p q = ap (λ c. c || b) p ∙ q

-- A request that is resolved is not `id`, or is not approved.
resolved-none :
    (id j k : ApprovalId) (approve : Bool)
    → (k == j) ≡ true
    → (approve && (j == id)) ≡ false
    → ((k == id)
        && is_approved (if approve then ApprovalStatus.approved else ApprovalStatus.denied))
      ≡ false
resolved-none id j k false same other = and-false (k == id)
resolved-none id j k true same other = ground (arith)

row-none :
    (id j : ApprovalId) (approve : Bool) (message : Option String) (now : ℕ) (a : ApprovalRequest)
    → (approve && (j == id)) ≡ false
    → approves id a ≡ false
    → approves id (
        if a.id == j
        then record a {
          status = if approve then ApprovalStatus.approved else ApprovalStatus.denied;
          response_message = message;
          resolved_at = some now;
        }
        else a)
      ≡ false
row-none id j approve message now a other h = elim (Bool-cases (a.id == j)) [
  | inl same ↦ rw same (resolved-none id j a.id approve same other)
  | inr apart ↦ rw apart h
]

resolve_rows-none :
    (id j : ApprovalId) (approve : Bool) (message : Option String) (now : ℕ)
    (rows : List ApprovalRequest)
    → (approve && (j == id)) ≡ false
    → any (approves id) rows ≡ false
    → any (approves id) (resolve_rows j approve message now rows) ≡ false
unfolding resolve_rows
resolve_rows-none id j approve message now [] other rest = refl
resolve_rows-none id j approve message now (a ∷ rows) other rest =
    let (first, others) = or_parts (approves id a) (any (approves id) rows) rest in
    or_none _ _ (row-none id j approve message now a other first)
      (resolve_rows-none id j approve message now rows other others)

resolve-none :
    (id j : ApprovalId) (approve : Bool) (message : Option String) (s : LoopbackStorage)
    → (approve && (j == id)) ≡ false
    → is_granted id s ≡ false
    → is_granted id (resolve_approval j approve message s).1 ≡ false
unfolding resolve_approval
resolve-none id j approve message s other h = elim (Bool-cases (has_approval j s)) [
  | inl there ↦ rw there (resolve_rows-none id j approve message s.now s.approvals other h)
  | inr missing ↦ rw missing h
]

create-none :
    (id j : ApprovalId) (session tool tool_use : String) (input : Value) (s : LoopbackStorage)
    → is_granted id s ≡ false
    → is_granted id (create_approval j session tool tool_use input s).1 ≡ false
unfolding create_approval
create-none id j session tool tool_use input s h = elim (Bool-cases (has_approval j s)) [
  | inl taken ↦ rw taken h
  | inr free ↦ rw free (
      any-++ (approves id) s.approvals (new_approval j session tool tool_use input s.now ∷ [])
      ∙ or_none _ _ h (simp (and-false)))
]

round-none :
    (id : ApprovalId) (elapsed : ℕ) (j : ApprovalId) (input : Value) (s : LoopbackStorage)
    → is_granted id s ≡ false
    → is_granted id (permit_round elapsed j input s).1 ≡ false
unfolding permit_round
round-none id elapsed j input s h = elim (Bool-cases (ltb 300 elapsed)) [
  | inl late ↦ rw late (resolve-none id j false (some "Timed out") s refl h)
  | inr early ↦ rw early h
]

wait-none :
    (id : ApprovalId) (session : String) (s : LoopbackStorage)
    → is_granted id s ≡ false
    → is_granted id (get_or_create_notifier session s) ≡ false
unfolding get_or_create_notifier
wait-none id session s h = elim (Bool-cases (has_notifier session s)) [
  | inl there ↦ rw there h
  | inr new ↦ rw new h
]

handle-none :
    (id : ApprovalId) (call : Call) (s : LoopbackStorage)
    → is_approval id call ≡ false
    → is_granted id s ≡ false
    → is_granted id (handle call s) ≡ false
unfolding handle
handle-none id (permit j c e tool tool_use input) s other h =
    create-none id j (permit_session c e tool_use s) tool tool_use input s h
handle-none id (round elapsed j input) s other h = round-none id elapsed j input s h
handle-none id (respond j approve message) s other h = resolve-none id j approve message s other h
handle-none id (wait session) s other h = wait-none id session s h
handle-none id (forget session) s other h = h
handle-none id (tool_session tool session) s other h = h
handle-none id (tool_done tool) s other h = h
handle-none id (parent child of) s other h = h

serve-none :
    (id : ApprovalId) (calls : List (ℕ × Call)) (s : LoopbackStorage)
    → All (λ c. is_approval id c.1 ≡ false) calls
    → is_granted id s ≡ false
    → is_granted id (serve calls s) ≡ false
unfolding serve
serve-none id [] s _ h = h
serve-none id ((now, call) ∷ calls) s (other, others) h =
    serve-none id calls (handle call (record s { now = now })) others
      (handle-none id call (record s { now = now }) other h)

status-none :
    (input : Value) (a : ApprovalRequest)
    → is_approved a.status ≡ false
    → is_allow (answer input (ok a)) ≡ false
status-none input a h = go a.status h
  where
    go :
        (st : ApprovalStatus)
        → is_approved st ≡ false
        → is_allow (elim st [
          | ApprovalStatus.approved ↦ some (allow input)
          | ApprovalStatus.denied ↦
              some (deny (denied_with (unwrap_or "Denied by parent" a.response_message)))
          | ApprovalStatus.timed_out ↦ some (deny approval_timed_out)
          | ApprovalStatus.pending ↦ none
        ])
          ≡ false
    go ApprovalStatus.approved eq = eq
    go ApprovalStatus.denied _ = refl
    go ApprovalStatus.timed_out _ = refl
    go ApprovalStatus.pending _ = refl

answer-none :
    (id : ApprovalId) (input : Value) (rows : List ApprovalRequest)
    → any (approves id) rows ≡ false
    → is_allow (answer input (found_approval id (find_approval id rows))) ≡ false
unfolding find_approval
answer-none id input [] h = refl
answer-none id input (a ∷ rows) h =
    let (first, others) = or_parts (approves id a) (any (approves id) rows) h in
    elim (Bool-cases (a.id == id)) [
      | inl same ↦
          rw same (status-none input a (sym (ap (λ b. b && is_approved a.status) same) ∙ first))
      | inr apart ↦ rw apart (answer-none id input rows others)
    ]

-- `permit` does not answer with allow, in any round, if no call since a time when the request was not
-- approved has approved it, whatever else was called, another request's approval included.
pub no_allow_without_approval :
    (id : ApprovalId) (calls : List (ℕ × Call)) (s : LoopbackStorage) (elapsed : ℕ) (input : Value)
    → is_granted id s ≡ false
    → All (λ c. is_approval id c.1 ≡ false) calls
    → is_allow (permit_round elapsed id input (serve calls s)).0 ≡ false
unfolding permit_round get_approval
no_allow_without_approval id calls s elapsed input h others = elim (Bool-cases (ltb 300 elapsed)) [
  | inl late ↦ simp (late)
  | inr early ↦
      rw early (answer-none id input (serve calls s).approvals (serve-none id calls s others h))
]

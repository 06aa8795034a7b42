-- ===== src/Loopback/Linked.antt =====
-- src/activations/claudecode_loopback/storage.rs: the two maps between sessions.
use mathlib.Core.List.{Memᴰ}
use mathlib.Core.List.Memᴰ
use mathlib.Core.Path.{subst}
use text.Mathlib.TextEquality.{eq_iff}
use mneme_substrate.Base.{
  ℕ, String, Bool, true, false, Option, some, List, [], ◌∷◌, ◌++◌, if◌then◌else◌, unwrap_or, ◌≡◌,
  refl, sym, ap, ◌∙◌, inl, inr, Bool-cases, ltb,
}
use mneme_substrate.Base.Json.{Value}
use mneme_substrate.Base.Text.{same_text, get}
use mneme_substrate.Loopback.Storage.{
  ApprovalId, LoopbackStorage, has_approval, has_notifier, create_approval, resolve_approval,
  get_or_create_notifier, notify_session, without, register_session_parent,
}
use mneme_substrate.Loopback.Methods.{
  Call, permit, round, respond, wait, forget, tool_session, tool_done, parent, permit_session,
  permit_round, handle, serve,
}
use mneme_substrate.Loopback.Seen.{IsLinked, some_inj}

-- Taking one key out leaves the others.
get-without {ℓ} :
    {A : Type ℓ} (k j : String) (m : List (String × A))
    → same_text k j ≡ false
    → get j (without k m) ≡ get j m
get-without k j [] apart = refl
get-without k j ((i, v) ∷ m) apart = elim (Bool-cases (same_text i k)) [
  | inl dropped ↦
      let other = ap (λ x. same_text x j) ((eq_iff i k).0 dropped) ∙ apart in
      simp (dropped, get-without k j m apart, other)
  | inr kept ↦ simp (kept, get-without k j m apart)
]

-- The children of `p` once `child` is registered with `of`.
abbrev children_after : Bool → String → String → String → LoopbackStorage → List String
children_after same child of p s = unwrap_or [] (
    if same
    then some (unwrap_or [] (get of s.children) ++ child ∷ [])
    else get p (without of s.children))

new_child :
    (child of p c : String) (s : LoopbackStorage)
    → c ≡ child
    → of ≡ p
    → Memᴰ c (children_after (same_text of p) child of p s)
new_child child of p c s same at =
    subst (λ b. Memᴰ c (children_after b child of p s)) (sym ((eq_iff of p).1 at))
      (Memᴰ.append_right (unwrap_or [] (get of s.children)) (Memᴰ.head same))

old_child :
    (child of p c : String) (s : LoopbackStorage)
    → Memᴰ c (unwrap_or [] (get p s.children))
    → Memᴰ c (children_after (same_text of p) child of p s)
old_child child of p c s m = go (same_text of p) refl
  where
    go : (b : Bool) → same_text of p ≡ b → Memᴰ c (children_after b child of p s)
    go true same =
        Memᴰ.append_left (child ∷ [])
          (subst (λ q. Memᴰ c (unwrap_or [] (get q s.children))) (sym ((eq_iff of p).0 same)) m)
    go false apart =
        subst (λ o. Memᴰ c (unwrap_or [] o)) (sym (get-without of p s.children apart)) m

register-IsLinked :
    (child of : String) (s : LoopbackStorage)
    → IsLinked s
    → IsLinked (register_session_parent child of s)
unfolding register_session_parent
register-IsLinked child of s linked c p = go (same_text child c) refl
  where
    go :
        (b : Bool)
        → same_text child c ≡ b
        → (if b then some of else get c (without child s.parents)) ≡ some p
        → Memᴰ c (children_after (same_text of p) child of p s)
    go true same eq = new_child child of p c s (sym ((eq_iff child c).0 same)) (some_inj eq)
    go false apart eq =
        old_child child of p c s (linked c p (sym (get-without child c s.parents apart) ∙ eq))

create-IsLinked :
    (id : ApprovalId) (session tool tool_use : String) (input : Value) (s : LoopbackStorage)
    → IsLinked s
    → IsLinked (create_approval id session tool tool_use input s).1
unfolding create_approval notify_session
create-IsLinked id session tool tool_use input s linked = elim (Bool-cases (has_approval id s)) [
  | inl taken ↦ rw taken linked
  | inr free ↦ rw free linked
]

resolve-IsLinked :
    (id : ApprovalId) (approve : Bool) (message : Option String) (s : LoopbackStorage)
    → IsLinked s
    → IsLinked (resolve_approval id approve message s).1
unfolding resolve_approval
resolve-IsLinked id approve message s linked = elim (Bool-cases (has_approval id s)) [
  | inl there ↦ rw there linked
  | inr missing ↦ rw missing linked
]

round-IsLinked :
    (elapsed : ℕ) (id : ApprovalId) (input : Value) (s : LoopbackStorage)
    → IsLinked s
    → IsLinked (permit_round elapsed id input s).1
unfolding permit_round
round-IsLinked elapsed id input s linked = elim (Bool-cases (ltb 300 elapsed)) [
  | inl late ↦ rw late (resolve-IsLinked id false (some "Timed out") s linked)
  | inr early ↦ rw early linked
]

wait-IsLinked :
    (session : String) (s : LoopbackStorage)
    → IsLinked s
    → IsLinked (get_or_create_notifier session s)
unfolding get_or_create_notifier
wait-IsLinked session s linked = elim (Bool-cases (has_notifier session s)) [
  | inl there ↦ rw there linked
  | inr new ↦ rw new linked
]

handle-IsLinked : (call : Call) (s : LoopbackStorage) → IsLinked s → IsLinked (handle call s)
unfolding handle
handle-IsLinked (permit id c e tool tool_use input) s linked =
    create-IsLinked id (permit_session c e tool_use s) tool tool_use input s linked
handle-IsLinked (round elapsed id input) s linked = round-IsLinked elapsed id input s linked
handle-IsLinked (respond id approve message) s linked = resolve-IsLinked id approve message s linked
handle-IsLinked (wait session) s linked = wait-IsLinked session s linked
handle-IsLinked (forget session) s linked = linked
handle-IsLinked (tool_session tool session) s linked = linked
handle-IsLinked (tool_done tool) s linked = linked
handle-IsLinked (parent child of) s linked = register-IsLinked child of s linked

-- Any calls keep the invariant that each child that has a parent is among the children of it.
pub serve-IsLinked :
    (calls : List (ℕ × Call)) (s : LoopbackStorage) → IsLinked s → IsLinked (serve calls s)
unfolding serve
serve-IsLinked [] s linked = linked
serve-IsLinked ((now, call) ∷ calls) s linked =
    serve-IsLinked calls (handle call (record s { now = now }))
      (handle-IsLinked call (record s { now = now }) linked)

-- ===== src/Orcha/Verdict.antt =====
-- src/activations/orcha/orchestrator.rs: what an attempt at a task comes to.
use mathlib.Core.Option
use Prim.Native.String.{◌++◌ as append}
use mneme_substrate.Base.{
  ℕ, String, Bool, true, false, Option, none, some, List, [], ◌∷◌, ◌++◌, if◌then◌else◌, ◌≡◌, refl,
  ap, ◌∙◌, Result, ok, err,
}
use mneme_substrate.Orcha.Types.{SessionId, SessionState, SessionInfo}
use mneme_substrate.Orcha.Storage.{OrchaStorage, find_info}
use mneme_substrate.Orcha.Task.{
  extract_validation_artifact, run_validation_test, RunTaskRequest, ValidationArtifact, ChatEvent,
  OrchaEvent, World, Run, Turn, start, complete, content, output, tool_use, tool_result, failure,
  other, failed, say, say_found, heard, process, task_prompt,
}

-- What an attempt comes to.
pub data Verdict : Type 0 where
  passes fails : Verdict
  broken : String → Verdict

abbrev pub last {ℓ} : {A : Type ℓ} → List A → Option A
last [] = none
last (x ∷ []) = some x
last (x ∷ y ∷ ys) = last (y ∷ ys)

pub last-++ : (es : List OrchaEvent) (e : OrchaEvent) → last (es ++ e ∷ []) ≡ some e
last-++ [] e = refl
last-++ (d ∷ []) e = refl
last-++ (d ∷ c ∷ es) e = last-++ (c ∷ es) e

pub say-storage : (v : Bool) (e : OrchaEvent) (r : Run) → (say v e r).storage ≡ r.storage
say-storage true e r = refl
say-storage false e r = refl

say_found-storage :
    (v : Bool) (old found : Option ValidationArtifact) (r : Run)
    → (say_found v old found r).storage ≡ r.storage
say_found-storage v none none r = refl
say_found-storage v none (some a) r = say-storage v _ r
say_found-storage v (some b) none r = refl
say_found-storage v (some b) (some a) r = refl

message_of : String → Result String Turn → String
message_of d (ok _) = d
message_of d (err m) = m

err_inj : {a b : String} → ◌≡◌ {A = Result String Turn} (err a) (err b) → a ≡ b
unfolding message_of
err_inj {a} e = ap (message_of a) e

module _ (w : World) (sid : SessionId) (agent : String) (req : RunTaskRequest) where
  -- What is heard of a chat.
  unfoldable pub hear : List ChatEvent → Turn → Result String Turn
  hear [] turn = ok turn
  hear (start ∷ es) turn = hear es turn
  hear (content t ∷ es) turn = hear es (heard w sid agent req t turn)
  hear (tool_use name id input ∷ es) turn = hear es turn
  hear (tool_result id out bad ∷ es) turn = hear es turn
  hear (complete ∷ es) turn = ok turn
  hear (failure message ∷ es) turn = err message
  hear (other ∷ es) turn = hear es turn

  abbrev pub of_test : ℕ → Option ValidationArtifact → Verdict
  of_test n none = passes
  of_test n (some a) = if (run_validation_test w n a).success then passes else fails

  abbrev pub of_chat : ℕ → Result String Turn → Verdict
  of_chat n (ok turn) = of_test n turn.artifact
  of_chat n (err message) = broken message

  -- An attempt passes if its chat ends and names no test or one that succeeds.
  unfoldable pub verdict : ℕ → Verdict
  verdict n =
      of_chat n
        (hear (w.chat n (task_prompt w sid agent req n)) (record { text = ""; artifact = none }))

  abbrev pub state_in : OrchaStorage → Option SessionState
  state_in s = Option.map (λ (i : SessionInfo). i.state) (find_info sid s.sessions)

  pub process-hear :
      (es : List ChatEvent) (turn : Turn) (r : Run)
      → ((process w sid agent req es turn r).0 ≡ hear es turn)
        × ((process w sid agent req es turn r).1.storage ≡ r.storage)
  unfolding process hear
  process-hear [] turn r = (refl, refl)
  process-hear (start ∷ es) turn r =
      let (a, b) = process-hear es turn (say req.verbose _ r) in
      (a, b ∙ say-storage req.verbose _ r)
  process-hear (content t ∷ es) turn r =
      let found = extract_validation_artifact w (append turn.text t) in
      let (a, b) =
        process-hear es (heard w sid agent req t turn)
          (say_found req.verbose turn.artifact found (say req.verbose (output t) r)) in
      (
        a,
        b
            ∙ say_found-storage req.verbose turn.artifact found _
            ∙ say-storage req.verbose (output t) r,
      )
  process-hear (tool_use name id input ∷ es) turn r =
      let (a, b) = process-hear es turn (say req.verbose _ _) in
      (a, b ∙ say-storage req.verbose _ _)
  process-hear (tool_result id out bad ∷ es) turn r =
      let (a, b) = process-hear es turn (say req.verbose _ r) in
      (a, b ∙ say-storage req.verbose _ r)
  process-hear (complete ∷ es) turn r = (refl, say-storage req.verbose _ r)
  process-hear (failure message ∷ es) turn r = (refl, refl)
  process-hear (other ∷ es) turn r = process-hear es turn r

  -- A chat that fails is the last that is said.
  pub process-last :
      (es : List ChatEvent) (turn : Turn) (r : Run) (m : String)
      → hear es turn ≡ err m
      → last (process w sid agent req es turn r).1.events
        ≡ some (failed sid (append "Chat error: " m))
  unfolding process hear
  process-last [] turn r m eq = absurd (cc eq)
  process-last (start ∷ es) turn r m eq = process-last es turn _ m eq
  process-last (content t ∷ es) turn r m eq = process-last es _ _ m eq
  process-last (tool_use name id input ∷ es) turn r m eq = process-last es turn _ m eq
  process-last (tool_result id out bad ∷ es) turn r m eq = process-last es turn _ m eq
  process-last (complete ∷ es) turn r m eq = absurd (cc eq)
  process-last (failure message ∷ es) turn r m eq =
      last-++ r.events (failed sid (append "Chat error: " message))
      ∙ ap (λ (x : String). some (failed sid (append "Chat error: " x))) (err_inj eq)
  process-last (other ∷ es) turn r m eq = process-last es turn r m eq

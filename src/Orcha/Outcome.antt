-- ===== src/Orcha/Outcome.antt =====
-- src/activations/orcha/orchestrator.rs: how a task ends, told by what its attempts come to.
use mathlib.Core.Option
use Prim.Native.String.{◌++◌ as append}
use mneme_substrate.Base.{
  ℕ, zero, suc, String, Bool, true, false, Option, none, some, List, [], ◌∷◌, if◌then◌else◌, leb,
  ◌==◌, ==_refl, ◌≡◌, ◌≤◌, ◌<◌, ◌+◌, refl, sym, ap, ◌∙◌, subst, ==_iff, arith, Bool-cases, inl, inr,
  Result, ok, err, any,
}
use mneme_substrate.Orcha.Types.{SessionId, SessionState, SessionInfo, AgentMode}
use mneme_substrate.Orcha.Storage.{
  OrchaStorage, find_info, change_info, update_state, increment_retry, create_session, is_session,
  new_row, new_info, set_info_state, retry_info,
}
use mneme_substrate.Loopback.Storage.{register_session_parent}
use mneme_substrate.Orcha.Task.{
  run_validation_test, RunTaskRequest, ValidationArtifact, OrchaEvent, World, Run, Turn, completed,
  failed, say, process, task_prompt, running_state, finish, give_up, gave_up_text, validating_run,
  retry_run, begin_run, set_state, state_change, progress, validation_result, validation_started,
  judged, validated, after_chat, task_loop, made, create_loop, creating, linked, with_context,
  run_created, run_orchestration_task,
}
use mneme_substrate.Orcha.Verdict.{
  Verdict, passes, fails, broken, last, last-++, say-storage, of_test, of_chat, verdict, state_in,
  process-hear, process-last,
}

module _ (w : World) (sid : SessionId) (agent : String) (req : RunTaskRequest) where
  found-change :
      (f : SessionInfo → SessionInfo) (is : List SessionInfo)
      → ((i : SessionInfo) → (f i).session_id ≡ i.session_id)
      → find_info sid (change_info sid f is) ≡ Option.map f (find_info sid is)
  unfolding find_info change_info
  found-change f [] same = refl
  found-change f (i ∷ is) same = ground (arith, found-change f is same, same i)

  abbrev HasSession : OrchaStorage → Type 0
  HasSession s = (i : SessionInfo) × (find_info sid s.sessions ≡ some i)

  update-state_in :
      (st : SessionState) (s : OrchaStorage)
      → HasSession s
      → state_in w sid agent req (update_state sid st s).1 ≡ some st
  unfolding update_state
  update-state_in st s (i, at) = ap (Option.map (λ (j : SessionInfo). j.state)) (
      found-change (set_info_state st s.now) s.sessions (λ j. refl)
      ∙ ap (Option.map (set_info_state st s.now)) at)

  update-HasSession :
      (st : SessionState) (s : OrchaStorage) → HasSession s → HasSession (update_state sid st s).1
  unfolding update_state
  update-HasSession st s (i, at) = (
    set_info_state st s.now i,
    found-change (set_info_state st s.now) s.sessions (λ j. refl)
        ∙ ap (Option.map (set_info_state st s.now)) at,
  )

  retry-HasSession : (s : OrchaStorage) → HasSession s → HasSession (increment_retry sid s).1
  unfolding increment_retry
  retry-HasSession s (i, at) =
      (retry_info i, found-change retry_info s.sessions (λ j. refl) ∙ ap (Option.map retry_info) at)

  -- How a run has ended in an attempt.
  abbrev pub Says : OrchaEvent → SessionState → Run → Type 0
  Says e st r = (last r.events ≡ some e) × (state_in w sid agent req r.storage ≡ some st)

  -- The attempts that are allowed: the first is made in any case.
  abbrev pub attempts : ℕ
  attempts = if leb req.max_retries 1 then 1 else req.max_retries

  abbrev pub EndsBy : Verdict → ℕ → Run → Type 0
  EndsBy passes n r = Says (completed sid) SessionState.complete r
  EndsBy (broken m) n r =
      Says (failed sid (append "Chat error: " m)) (running_state w sid agent req) r
  EndsBy fails n r =
      (suc n ≡ attempts)
      × Says (failed sid (gave_up_text w sid agent req (suc n)))
          (SessionState.failed (gave_up_text w sid agent req (suc n))) r

  finish-Says :
      (r : Run)
      → HasSession r.storage
      → Says (completed sid) SessionState.complete (finish w sid agent req r)
  unfolding update_state
  finish-Says r has =
      let stored : Run = set_state sid SessionState.complete r in
      let said : Run = say req.verbose (state_change sid SessionState.complete) stored in
      (
        last-++ said.events (completed sid),
        ap (state_in w sid agent req)
              (say-storage req.verbose (state_change sid SessionState.complete) stored)
            ∙ update-state_in SessionState.complete r.storage has,
      )

  give_up-Says :
      (n : ℕ) (r : Run)
      → HasSession r.storage
      → Says
          (failed sid (gave_up_text w sid agent req n))
          (SessionState.failed (gave_up_text w sid agent req n))
          (give_up w sid agent req n r)
  unfolding update_state gave_up_text
  give_up-Says n r has = (
    last-++ r.events (failed sid (gave_up_text w sid agent req n)),
    update-state_in (SessionState.failed (gave_up_text w sid agent req n)) r.storage has,
  )

  -- From an attempt on, the first that does not fail, or fails as the last that is allowed, tells
  -- how the run ends.
  abbrev pub Finds : ℕ → Option Run → Type 0
  Finds n o =
      (m : ℕ) × (r : Run) × (o ≡ some r)
      × (n ≤ m)
      × (m < attempts)
      × ((k : ℕ) → n ≤ k → k < m → verdict w sid agent req k ≡ fails)
      × EndsBy (verdict w sid agent req m) m r

  Finds-now :
      (n : ℕ) (r : Run) (v : Verdict)
      → n < attempts
      → verdict w sid agent req n ≡ v
      → EndsBy v n r
      → Finds n (some r)
  Finds-now n r v time eq ends = (
    n,
    r,
    refl,
    omega arith,
    time,
    λ k above below. absurd (omega (arith, above, below)),
    subst (λ u. EndsBy u n r) (sym eq) ends,
  )

  Finds-later :
      (n : ℕ) (o : Option Run) → verdict w sid agent req n ≡ fails → Finds (suc n) o → Finds n o
  Finds-later n o eq (m, r, at, above, time, before, ends) = (
    m,
    r,
    at,
    omega (arith, above),
    time,
    λ k le lt. elim (Bool-cases (n == k)) [
      | inl same ↦ subst (λ j. verdict w sid agent req j ≡ fails) ((==_iff n k).0 same) eq
      | inr apart ↦ before k (ground (arith, le, apart)) lt
    ],
    ends,
  )

  module _ (n : ℕ) (time : n < attempts) (next : ℕ → Run → Option Run)
      (more : (r : Run)
        → HasSession r.storage
        → suc n < req.max_retries
        → Finds (suc n) (next (suc n) r)) where
    judged-Finds :
        (b : Bool) (r : Run)
        → verdict w sid agent req n ≡ (if b then passes else fails)
        → HasSession r.storage
        → Finds n (judged w sid agent req n next b r)
    unfolding update_state gave_up_text increment_retry
    judged-Finds true r v has =
        Finds-now n (finish w sid agent req r) passes time v (finish-Says r has)
    judged-Finds false r v has = go (leb req.max_retries (suc n)) refl
      where
        retried : Run
        retried = retry_run w sid agent req (suc n) r

        go :
            (b : Bool)
            → leb req.max_retries (suc n) ≡ b
            → Finds n (if b then some (give_up w sid agent req (suc n) r) else next (suc n) retried)
        go true e =
            Finds-now n (give_up w sid agent req (suc n) r) fails time v
              (ground (arith, e, time), give_up-Says (suc n) r has)
        go false e = Finds-later n (next (suc n) retried) v (
            more retried
              (subst HasSession (sym (say-storage req.verbose _ _))
                (retry-HasSession r.storage has))
              (ground (arith, e)))

    validated-Finds :
        (a : Option ValidationArtifact) (r : Run)
        → verdict w sid agent req n ≡ of_test w sid agent req n a
        → HasSession r.storage
        → Finds n (validated w sid agent req n next a r)
    unfolding update_state gave_up_text increment_retry
    validated-Finds none r v has =
        Finds-now n (finish w sid agent req r) passes time v (finish-Says r has)
    validated-Finds (some a) r v has =
        judged-Finds (run_validation_test w n a).success
          (validating_run w sid agent req a (run_validation_test w n a) r) v
          (subst HasSession
            (sym (
              say-storage req.verbose (validation_result (run_validation_test w n a)) (
                set_state sid (SessionState.validating a.test_command)
                  (say req.verbose (validation_started a.test_command) r))))
            (update-HasSession (SessionState.validating a.test_command)
              (say req.verbose (validation_started a.test_command) r).storage
              (subst HasSession
                (sym (say-storage req.verbose (validation_started a.test_command) r)) has)))

    after-Finds :
        (h : Result String Turn) (r : Run)
        → verdict w sid agent req n ≡ of_chat w sid agent req n h
        → HasSession r.storage
        → state_in w sid agent req r.storage ≡ some (running_state w sid agent req)
        → ((m : String) → h ≡ err m → last r.events ≡ some (failed sid (append "Chat error: " m)))
        → Finds n (after_chat w sid agent req n next (h, r))
    unfolding update_state gave_up_text increment_retry
    after-Finds (ok turn) r v has state said = validated-Finds turn.artifact r v has
    after-Finds (err m) r v has state said = Finds-now n r (broken m) time v (said m refl, state)

  begin-HasSession :
      (r : Run)
      → HasSession r.storage
      → HasSession (begin_run w sid agent req r).storage
        × (state_in w sid agent req (begin_run w sid agent req r).storage
            ≡ some (running_state w sid agent req))
  unfolding update_state
  begin-HasSession r has =
      let said : Run = say req.verbose (progress "Starting task execution" 30) r in
      let stored : Run = set_state sid (running_state w sid agent req) said in
      let e = say-storage req.verbose (state_change sid (running_state w sid agent req)) stored in
      let has' =
        subst HasSession (sym (say-storage req.verbose (progress "Starting task execution" 30) r))
          has in
      (
        subst HasSession (sym e)
            (update-HasSession (running_state w sid agent req) said.storage has'),
        ap (state_in w sid agent req) e
            ∙ update-state_in (running_state w sid agent req) said.storage has',
      )

  module _ (n : ℕ) (time : n < attempts) (r : Run) (has : HasSession r.storage)
      (next : ℕ → Run → Option Run)
      (more : (r' : Run)
        → HasSession r'.storage
        → suc n < req.max_retries
        → Finds (suc n) (next (suc n) r')) where
    round-Finds : Finds n (
        after_chat w sid agent req n next (
          process w sid agent req
            (w.chat n (task_prompt w sid agent req n))
            (record { text = ""; artifact = none })
            (begin_run w sid agent req r)))
    unfolding verdict
    round-Finds =
        let begun = begin-HasSession r has in
        let turn : Turn = record { text = ""; artifact = none } in
        let es = w.chat n (task_prompt w sid agent req n) in
        let told = process-hear w sid agent req es turn (begin_run w sid agent req r) in
        let p = process w sid agent req es turn (begin_run w sid agent req r) in
        after-Finds n time next more p.0 p.1 (ap (of_chat w sid agent req n) (sym told.0))
          (subst HasSession (sym told.1) begun.0) (ap (state_in w sid agent req) told.1 ∙ begun.1)
          (λ m eq.
            process-last w sid agent req es turn (begin_run w sid agent req r) m (sym told.0 ∙ eq))

  pub task_loop-Finds :
      (fuel n : ℕ) (r : Run)
      → req.max_retries ≤ suc (n + fuel)
      → n < attempts
      → HasSession r.storage
      → Finds n (task_loop w sid agent req (suc fuel) n r)
  unfolding task_loop
  task_loop-Finds zero n r enough time has =
      round-Finds n time r has (task_loop w sid agent req zero)
        (λ r' has' lt. absurd (omega (arith, enough, lt)))
  task_loop-Finds (suc fuel) n r enough time has =
      round-Finds n time r has (task_loop w sid agent req (suc fuel)) (λ r' has' lt.
        task_loop-Finds fuel (suc n) r' (omega (arith, enough)) (ground (arith, lt)) has')

store_new : SessionId → RunTaskRequest → ℕ → Run → Run
store_new sid req tree r = record r {
  storage = record r.storage {
    orcha_sessions =
        new_row sid req.model req.working_directory req.rules req.max_retries AgentMode.single
          (some tree) r.storage.now
        ∷ r.storage.orcha_sessions;
    sessions =
        new_info sid req.model req.max_retries AgentMode.single (some tree) r.storage.now
        ∷ r.storage.sessions;
  };
}

created-HasSession :
    (w : World) (sid : SessionId) (agent : String) (req : RunTaskRequest) (tree : ℕ) (r : Run)
    → HasSession w sid agent req
        (linked w sid req.verbose agent (creating w sid req (store_new sid req tree r))).storage
unfolding find_info store_new register_session_parent
created-HasSession w sid agent req tree r =
    let info = new_info sid req.model req.max_retries AgentMode.single (some tree) r.storage.now in
    (info, ap (λ (s : OrchaStorage). find_info sid s.sessions) same ∙ simp (==_refl sid) refl)
  where
    stored : Run
    stored = store_new sid req tree r

    same : (linked w sid req.verbose agent (creating w sid req stored)).storage ≡ stored.storage
    same =
        say-storage req.verbose _ _ ∙ say-storage req.verbose _ _ ∙ say-storage req.verbose _ stored

-- Where the session's id is new, its tree could be made and the agent's session was created, a task
-- ends within as many rounds as retries are allowed and one more, after at most as many attempts as
-- retries are allowed, and at least one. With m the first attempt that does not fail, or the last
-- that is allowed where all fail: if m passes, the last event is that the session is complete,
-- and so is the state that is stored; if the chat of m breaks off, the last event is that the
-- session failed with its message, and the state that is stored is that it is running; if m fails,
-- it is the last that is allowed, and the last event and the state that is stored are that
-- validation failed after m + 1 retries.
pub run_orchestration_task-Finds :
    (w : World) (sid : SessionId) (agent : String) (req : RunTaskRequest) (tree : ℕ) (r : Run)
    → w.context ≡ ok tree
    → w.create ≡ made agent ∷ []
    → any (is_session sid) r.storage.orcha_sessions ≡ false
    → Finds w sid agent req 0 (run_orchestration_task w sid req (suc req.max_retries) r)
unfolding run_orchestration_task create_loop create_session find_info store_new
    register_session_parent
run_orchestration_task-Finds w sid agent req tree r known created fresh =
    let fuel = suc req.max_retries in
    let stored : Run = store_new sid req tree r in
    let begun : Run = linked w sid req.verbose agent (creating w sid req stored) in
    subst (λ c. Finds w sid agent req 0 (with_context w sid req fuel r c)) (sym known)
      (rw fresh (
        subst
          (λ c. Finds w sid agent req 0 (
            run_created w sid req fuel
              (create_loop w sid req.verbose c none (creating w sid req stored))))
          (sym created)
          (task_loop-Finds w sid agent req req.max_retries 0 begun (omega arith) (ground arith)
            (created-HasSession w sid agent req tree r))))

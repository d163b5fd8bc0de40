-- ===== src/Agent/Drive/Turns.antt =====
-- How many answers of the model a wakeup uses.
use xbotics_hey_robot.Prelude.{
  ℕ, zero, suc, ◌+◌, ◌<◌, ◌≡◌, ◌∙◌, refl, String, Bool, true, false, not, ◌&&◌, Option, none, some,
  List, [], ◌∷◌, ◌++◌, arith, ◌==◌, eq_refl,
}
use xbotics_hey_robot.Prelude.Result.{Result, ok}
use xbotics_hey_robot.Prelude.Text.{strip, truthy_text}
use xbotics_hey_robot.Prelude.Value.{Fields}
use xbotics_hey_robot.Tasks.Rows.{TaskStatus, TaskRow, AgentTask, Store, is_active}
use xbotics_hey_robot.Tasks.Queries.{active_task, task_row}
use xbotics_hey_robot.Tasks.Coordinator.{is_nil}
use xbotics_hey_robot.Tasks.Coordinator.Completion.{status_of}
use xbotics_hey_robot.Tasks.Updates.{pause_task, paused}
use xbotics_hey_robot.Tasks.Status.{task_row-id, task_row-update}
use xbotics_hey_robot.Tools.Calls.{tool_names}
use xbotics_hey_robot.Tools.Executor.{ExecutionError, Draws}
use xbotics_hey_robot.Agent.Messages.{ModelToolCall, ModelMessage, ModelResponse, Reply, Chat}
use xbotics_hey_robot.Agent.Runner.{
  allowed_definitions, content_of, read_calls, read_response, AgentTurnResult, TurnStatus,
}
use xbotics_hey_robot.Agent.Runner.Laws.{time_left, run-asks}
use xbotics_hey_robot.Agent.Drive.{
  AgentRunResult, RunStatus, Parts, Wakeup, Ticks, is_overdue, deadline_of, out_of_turns,
  turns_text, ask, request, decide, spoken, drive, max_model_turns, next_decision_deadline,
}

deadline_unbounded :
    (t : Option AgentTask) (now monotonic : ℕ)
    → deadline_of t ≡ none
    → next_decision_deadline t now monotonic ≡ monotonic + 120000
unfolding next_decision_deadline
deadline_unbounded t now monotonic h = rw h refl

overdue_unbounded :
    (t : Option AgentTask) (now : ℕ) → deadline_of t ≡ none → is_overdue t now ≡ false
overdue_unbounded t now h = rw (h, is_overdue) refl

is_nil-append :
    (messages : List ModelMessage) (more : List ModelMessage)
    → is_nil messages ≡ false
    → is_nil (messages ++ more) ≡ false
is_nil-append [] more h = absurd (ground (arith, h))
is_nil-append (m ∷ messages) more h = refl

decide-returned :
    (parts : Parts) (w : Wakeup) (d : Draws) (messages : List ModelMessage)
    (next : List ModelMessage → Store → Result ExecutionError AgentRunResult × Store)
    (r : AgentTurnResult) (s : Store)
    → r.status ≡ TurnStatus.returned
    → decide parts w d messages next r s ≡ next (messages ++ spoken parts w r) s
unfolding decide
decide-returned parts w d messages next r s h = rw h refl

pause_task-status :
    (now : ℕ) (id reason : String) (s : Store) {r : TaskRow}
    → task_row id s ≡ some r
    → r.status ≡ TaskStatus.active
    → status_of id (pause_task now id reason s) ≡ some TaskStatus.paused
unfolding pause_task status_of
pause_task-status now id reason s {r = r} known active = ground (
  arith,
  known,
  active,
  task_row-id id s known,
  eq_refl id,
  task_row-update id id (λ x. is_active x.status) (paused now reason) s (λ x. refl),
)

pause_task-steps :
    (now : ℕ) (id reason : String) (s : Store) → (pause_task now id reason s).steps ≡ s.steps
unfolding pause_task
pause_task-steps now id reason s = refl

pub drive-suc :
    (parts : Parts) (w : Wakeup) (ticks : ℕ → Ticks) (chat : ℕ → Chat) (n k : ℕ)
    (messages : List ModelMessage) (s : Store)
    → is_overdue (active_task w.session_key s) (ticks k).wall ≡ false
    → let decision = ask parts w (ticks k) (chat k) messages s in
      drive parts w ticks chat (suc n) k messages s
      ≡ decide parts w
          (ticks k).draws
          messages
          (drive parts w ticks chat n (k + 1))
          decision.1
          decision.0
unfolding drive
drive-suc parts w ticks chat n k messages s h = rw h refl

-- An answer in text, without a call.
abbrev pub is_talk : ModelResponse → Bool
is_talk r =
    not (r.finish_reason == "error") && is_nil r.tool_calls && truthy_text (strip (content_of r))

module _ (parts : Parts) (w : Wakeup) (ticks : ℕ → Ticks) (chat : ℕ → Chat)
    (answers : ℕ → ModelResponse)
    (talks : (k : ℕ) (messages : List ModelMessage) (tools : List Fields) (left : ℕ) (s : Store)
      → chat k messages tools left s ≡ (s, Reply.answered (answers k)))
    (talk : (k : ℕ) → is_talk (answers k) ≡ true)
    (in_time : (k : ℕ) → (ticks k).checked < (ticks k).monotonic + 120000) {tools : List Fields}
    (known : allowed_definitions parts.registry (tool_names parts.registry) ≡ some tools) where
  abbrev pub IsReturned : AgentTurnResult → Type 0
  IsReturned r = r.status ≡ TurnStatus.returned

  read_calls-talk :
      (response : ModelResponse) (calls : List ModelToolCall)
      → is_nil calls ≡ true
      → truthy_text (strip (content_of response)) ≡ true
      → IsReturned (
          read_calls parts.py parts.prepare_text parts.registry
            (tool_names parts.registry)
            response
            calls)
  read_calls-talk response [] bare said = ground (arith, said)
  read_calls-talk response (call ∷ calls) bare said = absurd (ground (arith, bare))

  read_response-talk :
      (response : ModelResponse)
      → is_talk response ≡ true
      → IsReturned (
          read_response parts.py parts.prepare_text parts.registry
            (tool_names parts.registry)
            response)
  unfolding read_response
  read_response-talk response h =
      let fine : response.finish_reason == "error" ≡ false = ground (arith, h) in
      rw (fine, read_response)
        (read_calls-talk response response.tool_calls (ground (arith, h)) (ground (arith, h)))

  module _ (s : Store) {t : Option AgentTask} (task : active_task w.session_key s ≡ t)
      (unbounded : deadline_of t ≡ none) where
    ask-talk :
        (k : ℕ) (messages : List ModelMessage)
        → is_nil messages ≡ false
        → ((ask parts w (ticks k) (chat k) messages s).0 ≡ s)
          × IsReturned (ask parts w (ticks k) (chat k) messages s).1
    ask-talk k messages filled =
        let q = request parts w (ticks k) (active_task w.session_key s) messages in
        let asked =
          run-asks parts.py parts.prepare_text parts.registry (chat k) (ticks k).checked
            (ticks k).sent q s filled known
            (ground (
              arith,
              in_time k,
              task,
              deadline_unbounded t (ticks k).timed_at (ticks k).monotonic unbounded,
            )) in
        rw
          (
            asked,
            talks k messages tools
                (time_left parts.py parts.prepare_text parts.registry q (ticks k).sent) s,
          )
          (refl, read_response-talk (answers k) (talk k))

    pub drive-talk_from :
        (n k : ℕ) (messages : List ModelMessage)
        → is_nil messages ≡ false
        → drive parts w ticks chat n k messages s ≡ out_of_turns (ticks (k + n)).closed_at t s
    unfolding drive
    drive-talk_from zero k messages filled =
        let here : k + 0 ≡ k = ground arith in
        rw (here, task, overdue_unbounded t (ticks k).wall unbounded, drive) refl
    drive-talk_from (suc n) k messages filled =
        let (same, silent) = ask-talk k messages filled in
        let later : k + suc n ≡ k + 1 + n = ground arith in
        let decision = ask parts w (ticks k) (chat k) messages s in
        rw later (
          drive-suc parts w ticks chat n k messages s
            (ground (arith, task, overdue_unbounded t (ticks k).wall unbounded))
          ∙ decide-returned parts w (ticks k).draws messages (drive parts w ticks chat n (k + 1))
              decision.1 decision.0 silent
          ∙ rw same (
              drive-talk_from n (k + 1) (messages ++ spoken parts w decision.1)
                (is_nil-append messages (spoken parts w decision.1) filled)))

  -- A model that only ever answers in text, in time, with the tools of the registry and the store
  -- left alone, does not keep the loop going: a wakeup on an active task without a deadline pauses
  -- the task after eight answers and ends as blocked, with no step written.
  pub drive_talk :
      (s : Store) {t : AgentTask} {r : TaskRow}
      → active_task w.session_key s ≡ some t
      → t.deadline_at ≡ none
      → task_row t.task_id s ≡ some r
      → r.status ≡ TaskStatus.active
      → (first : ModelMessage) (messages : List ModelMessage)
      → let (result, s') = drive parts w ticks chat max_model_turns 0 (first ∷ messages) s in
        (result
          ≡ ok (record { status = RunStatus.blocked; text = turns_text; operation_id = none }))
        × (status_of t.task_id s' ≡ some TaskStatus.paused)
        × (s'.steps ≡ s.steps)
  drive_talk s {t = t} {r = r} found unbounded row active first messages =
      rw (drive-talk_from s found unbounded max_model_turns 0 (first ∷ messages) refl) (
        refl,
        pause_task-status (ticks 8).closed_at t.task_id turns_text s row active,
        pause_task-steps (ticks 8).closed_at t.task_id turns_text s,
      )

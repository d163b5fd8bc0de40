-- ===== src/Agent/Drive/Endings.antt =====
-- How a wakeup ends where the agent runs a skill, or may not.
use xbotics_hey_robot.Prelude.{
  ℕ, zero, suc, ◌+◌, ◌≡◌, ◌∙◌, refl, sym, ap, String, true, false, none, some, List, [], ◌∷◌, arith,
  leb, any, Option-cases, inl, inr,
}
use xbotics_hey_robot.Prelude.Result.{Result, ok}
use xbotics_hey_robot.Protocol.{ToolStatus, PhysicalToolCall}
use xbotics_hey_robot.Tasks.Rows.{
  TaskStatus, TaskRow, AgentTask, Store, task_from_row, has_step_id, has_run,
}
use xbotics_hey_robot.Tasks.Queries.{active_task, task_row, task, active_run_ids}
use xbotics_hey_robot.Tasks.Updates.{control_task, finish}
use xbotics_hey_robot.Tasks.Status.{finish_lem}
use xbotics_hey_robot.Tasks.Wf.{IsWf}
use xbotics_hey_robot.Tasks.Coordinator.{Submission, command_of}
use xbotics_hey_robot.Tasks.Coordinator.Completion.{status_of}
use xbotics_hey_robot.Tasks.Coordinator.Laws.{persisted}
use xbotics_hey_robot.Tools.Calls.{PreparedCall}
use xbotics_hey_robot.Tools.Executor.{
  Directive, ToolExecution, told, plain, or_text, Draws, ExecutionError, bind, max_steps,
}
use xbotics_hey_robot.Tools.Execute.{budget_text, execute, execute_skill}
use xbotics_hey_robot.Tools.Execute.Skills.{asked, execute_skill-budget, execute_skill-waits}
use xbotics_hey_robot.Agent.Messages.{ModelMessage, Chat}
use xbotics_hey_robot.Agent.Runner.{AgentTurnResult, AgentToolCallRecord, TurnStatus, call_record}
use xbotics_hey_robot.Agent.Runner.Laws.{run-proposal}
use xbotics_hey_robot.Agent.Drive.{
  ended, told_text, AgentRunResult, RunStatus, Parts, Wakeup, Ticks, is_overdue, overdue_text,
  follow, turn_of, request, ask, decide, drive, finish_status,
}
use xbotics_hey_robot.Agent.Drive.Turns.{drive-suc}

decide-physical :
    (parts : Parts) (w : Wakeup) (d : Draws) (messages : List ModelMessage)
    (next : List ModelMessage → Store → Result ExecutionError AgentRunResult × Store)
    (r : AgentTurnResult) (s : Store) {call : PhysicalToolCall} {c : AgentToolCallRecord}
    → r.status ≡ TurnStatus.action_proposed
    → r.proposal ≡ some (PreparedCall.physical call)
    → r.tool_calls ≡ c ∷ []
    → decide parts w d messages next r s
      ≡ bind
          (execute_skill parts.client parts.stops parts.limits d (turn_of parts w c) call s)
          (follow parts w c messages next)
unfolding decide execute
decide-physical parts w d messages next r s status proposal calls =
    rw (status, proposal, calls) refl

-- An execution that finished with a task that is blocked now ends the wakeup as blocked.
follow-blocked :
    (parts : Parts) (w : Wakeup) (c : AgentToolCallRecord) (messages : List ModelMessage)
    (next : List ModelMessage → Store → Result ExecutionError AgentRunResult × Store)
    (m : Result ExecutionError ToolExecution × Store) (text : String) (proposal : PreparedCall)
    {t : AgentTask}
    → m.0 ≡ ok (told Directive.finish (plain ToolStatus.failed text) proposal (some t) text)
    → status_of t.task_id m.1 ≡ some TaskStatus.blocked
    → bind m (follow parts w c messages next)
      ≡ ended RunStatus.blocked (or_text (some text) (or_text (some text) "请求已经处理。")) none m.1
unfolding finish_status status_of task
follow-blocked parts w c messages next (m, s) text proposal {t = t} h blocked =
    elim (Option-cases (task_row t.task_id s)) [
      | inl lost ↦ absurd (ground (arith, lost, blocked))
      | inr (current, found) ↦
          let status : current.status ≡ TaskStatus.blocked = ground (arith, found, blocked) in
          let e = told Directive.finish (plain ToolStatus.failed text) proposal (some t) text in
          let here : finish_status e s ≡ RunStatus.blocked =
            rw (finish_status, found, status) refl in
          rw h (ap (λ x. ended x (told_text e "请求已经处理。") none s) here)
    ]

module _ (parts : Parts) (w : Wakeup) (ticks : ℕ → Ticks) (chat : ℕ → Chat) (k : ℕ)
    (messages : List ModelMessage) (s : Store) where
  -- Once the deadline of the active task has come, a turn of the agent does not ask the model: the
  -- task is blocked, no step is written, and the wakeup ends as blocked.
  pub drive_overdue :
      (n : ℕ) {t : AgentTask} {r : TaskRow}
      → active_task w.session_key s ≡ some t
      → is_overdue (some t) (ticks k).wall ≡ true
      → task_row t.task_id s ≡ some r
      → r.status ≡ TaskStatus.active
      → let (result, s') = drive parts w ticks chat n k messages s in
        (result
          ≡ ok (record { status = RunStatus.blocked; text = overdue_text; operation_id = none }))
        × (status_of t.task_id s' ≡ some TaskStatus.blocked)
        × (s'.steps ≡ s.steps)
  unfolding drive control_task finish status_of
  drive_overdue zero {t = t} found late known active = ground (
    arith,
    found,
    late,
    known,
    active,
    finish_lem (ticks k).closed_at t.task_id TaskStatus.blocked (some overdue_text)
        (some overdue_text) s known,
  )
  drive_overdue (suc n) {t = t} found late known active = ground (
    arith,
    found,
    late,
    known,
    active,
    finish_lem (ticks k).closed_at t.task_id TaskStatus.blocked (some overdue_text)
        (some overdue_text) s known,
  )

  module _ (n : ℕ) (timely : is_overdue (active_task w.session_key s) (ticks k).wall ≡ false)
      {s' : Store} {decision : AgentTurnResult} {call : PhysicalToolCall}
      (asked_model : ask parts w (ticks k) (chat k) messages s ≡ (s', decision))
      (proposed : decision.proposal ≡ some (PreparedCall.physical call)) where
    called :
        (c : AgentToolCallRecord) × (decision.tool_calls ≡ c ∷ [])
        × (decision.status ≡ TurnStatus.action_proposed)
    called =
        let q = request parts w (ticks k) (active_task w.session_key s) messages in
        let behind =
          run-proposal parts.py parts.prepare_text parts.registry (chat k) (ticks k).checked
            (ticks k).sent q s {p = PreparedCall.physical call}
            (ap (λ m. m.1.proposal) asked_model ∙ proposed) in
        let (
          response,
          tools,
          left,
          known,
          some_time,
          answer,
          (c, one, allowed, prepared, calls, status),
        ) =
          behind in
        (
          call_record c,
          sym (ap (λ m. m.1.tool_calls) asked_model) ∙ calls,
          sym (ap (λ m. m.1.status) asked_model) ∙ status,
        )

    drive-executes :
        (c : AgentToolCallRecord)
        → decision.tool_calls ≡ c ∷ []
        → drive parts w ticks chat (suc n) k messages s
          ≡ bind
              (execute_skill parts.client parts.stops parts.limits
                (ticks k).draws
                (turn_of parts w c)
                call
                s')
              (follow parts w c messages (drive parts w ticks chat n (k + 1)))
    drive-executes c h =
        drive-suc parts w ticks chat n k messages s timely
        ∙ ap
            (λ m.
              decide parts w (ticks k).draws messages (drive parts w ticks chat n (k + 1)) m.1 m.0)
            asked_model
        ∙ decide-physical parts w (ticks k).draws messages (drive parts w ticks chat n (k + 1))
            decision s' called.2 proposed h

    -- Where the model, asked before the deadline, proposes a skill for an active task that has used
    -- its steps, the wakeup ends as blocked, with the text of the budget; the task is blocked and no
    -- step is written.
    pub drive_budget :
        {t : AgentTask} {r : TaskRow}
        → active_task w.session_key s' ≡ some t
        → task_row t.task_id s' ≡ some r
        → r.status ≡ TaskStatus.active
        → leb (max_steps parts.limits) t.step_count ≡ true
        → let (result, s'') = drive parts w ticks chat (suc n) k messages s in
          (result
            ≡ ok (record { status = RunStatus.blocked; text = budget_text; operation_id = none }))
          × (status_of t.task_id s'' ≡ some TaskStatus.blocked)
          × (s''.steps ≡ s'.steps)
    drive_budget found known active used =
        let (c, one, status) = called in
        let d = (ticks k).draws in
        let (told, blocked, same) =
          execute_skill-budget parts.client parts.stops parts.limits d (turn_of parts w c) call s'
            found known active used in
        let end =
          follow-blocked parts w c messages (drive parts w ticks chat n (k + 1))
            (execute_skill parts.client parts.stops parts.limits d (turn_of parts w c) call s')
            budget_text (PreparedCall.physical call) told blocked in
        rw (drive-executes c one, end) (refl, blocked, same)

    module _ (c : AgentToolCallRecord) (one : decision.tool_calls ≡ c ∷ []) (wf : IsWf s')
        {t : AgentTask} {r : TaskRow} (found : active_task w.session_key s' ≡ some t)
        (known : task_row t.task_id s' ≡ some r) (active : r.status ≡ TaskStatus.active)
        (left : leb (max_steps parts.limits) t.step_count ≡ false)
        (idle : active_run_ids t.task_id s' ≡ [])
        (new_id : any (has_step_id (ticks k).draws.submission.step_id) s'.steps ≡ false)
        (new_run : any (has_run (ticks k).draws.submission.run_id) s'.steps ≡ false) where
      abbrev skill_submission : Submission
      skill_submission =
          asked parts.client parts.stops parts.limits (ticks k).draws (turn_of parts w c) call s' wf
            found known active left idle new_id new_run

      -- Where the model, asked before the deadline, proposes a skill, in a well-formed store, for an
      -- active task with steps left and no live run and for ids that are new, and the worker takes
      -- the command: the wakeup ends as waiting for that run, whose pending step was in the store
      -- before the worker was called.
      pub drive_waits :
          (after : Store)
          → parts.client.submit
              (command_of (ticks k).draws.submission skill_submission (task_from_row r))
              (persisted parts.client
                (ticks k).draws.submission
                skill_submission
                s'
                wf
                known
                active
                idle
                new_id
                new_run)
            ≡ (after, none)
          → drive parts w ticks chat (suc n) k messages s ≡ (
            ok (record {
              status = RunStatus.waiting;
              text = "已提交机器人操作，正在等待执行结果。";
              operation_id = some (ticks k).draws.submission.run_id;
            }),
            after,
          )
      drive_waits after taken =
          drive-executes c one
          ∙ ap (λ m. bind m (follow parts w c messages (drive parts w ticks chat n (k + 1))))
              (execute_skill-waits parts.client parts.stops parts.limits (ticks k).draws
                (turn_of parts w c) call s' wf found known active left idle new_id new_run after
                taken)

-- ===== src/Tools/Execute.antt =====
-- `AgentToolExecutor.execute` and what it dispatches to: `_respond` and `_execute_skill`.
pub mod Skills
pub mod Answers
use xbotics_hey_robot.Prelude.{
  ℕ, ◌+◌, String, Bool, true, false, not, ◌&&◌, ◌||◌, Option, none, some, List, [], ◌∷◌,
  if◌then◌else◌, leb, ◌==◌, or_else,
}
use xbotics_hey_robot.Prelude.Result.{Result, ok, raise}
use xbotics_hey_robot.Prelude.Text.{concat}
use xbotics_hey_robot.Prelude.Value.{end, entry, string}
use xbotics_hey_robot.Protocol.{ToolStatus, ToolOutcome, PhysicalToolCall}
use xbotics_hey_robot.Tasks.Rows.{TaskStatus, AgentTask, AgentTaskStep, Store}
use xbotics_hey_robot.Tasks.Queries.{active_task, task, active_run_ids, has_successful_step}
use xbotics_hey_robot.Tasks.Updates.{create_task, close_task, control_task}
use xbotics_hey_robot.Tasks.Coordinator.{Client, Submission, is_nil, submit}
use xbotics_hey_robot.Tools.Calls.{PreparedCall, AgentResponseCall, HarnessToolCall}
use xbotics_hey_robot.Tools.Executor.{
  Directive, ToolExecution, ExecutionError, Stops, Draws, Limits, Turn, Action, plain, refusal,
  told, bind_task, bind_submit, bind, request_of, or_text, max_steps, apply_control,
}

abbrev pub budget_text : String
budget_text = "任务已暂停：达到最大机器人步骤预算，需要你确认后再继续。"

abbrev pub is_pending_outcome : ToolStatus → Bool
is_pending_outcome ToolStatus.accepted = true
is_pending_outcome ToolStatus.waiting = true
is_pending_outcome s = false

abbrev pub is_final_failure : ToolOutcome → Bool
is_final_failure o = elim o.status [ ToolStatus.failed ↦ not o.retryable | _ ↦ false ]

abbrev pub with_step :
    Directive → AgentTaskStep → AgentTask → PreparedCall → Option String → ToolExecution
with_step directive st t proposal text = record {
  directive = directive;
  outcome = st.outcome;
  proposal = proposal;
  step = some st;
  task = some t;
  final_text = text;
}

module _ (client : Client) (stops : Stops) (limits : Limits) where
  -- What follows the submission.
  abbrev pub after_submit :
      Draws
      → PreparedCall
      → AgentTask
      → AgentTaskStep
      → Store
      → Result ExecutionError ToolExecution × Store
  after_submit d proposal old st s =
      let t = or_else (task old.task_id s) old in
      if is_pending_outcome st.outcome.status
      then (ok (with_step Directive.wait st t proposal none), s)
      else if is_final_failure st.outcome
      then bind_task
          (control_task d.closed_at t.task_id TaskStatus.blocked
            (or_text st.outcome.user_summary "操作没有完成。") s)
          (λ u s'. (
            ok (
                with_step Directive.finish st t proposal
                  (some (or_text st.outcome.user_summary "这次操作没有完成。"))),
            s',
          ))
      else (ok (with_step Directive.continue st t proposal none), s)

  abbrev pub submit_for :
      Draws
      → Turn
      → PhysicalToolCall
      → AgentTask
      → Store
      → Result ExecutionError ToolExecution × Store
  submit_for d turn call t s =
      bind_submit
        (submit client d.submission
          (record {
            task_id = t.task_id;
            proposal = call;
            envelope = turn.envelope;
            tool_call_id = turn.tool_call_id;
            deadline_at = t.deadline_at;
          })
          s)
        (after_submit d (PreparedCall.physical call) t)

  -- `_execute_skill`
  unfoldable pub execute_skill :
      Draws → Turn → PhysicalToolCall → Store → Result ExecutionError ToolExecution × Store
  execute_skill d turn call s = elim (active_task turn.session_key s) [
    | some t ↦
        if leb (max_steps limits) t.step_count
        then bind_task (control_task d.closed_at t.task_id TaskStatus.blocked budget_text s)
            (λ u s'. (
              ok (
                  told Directive.finish (plain ToolStatus.failed budget_text)
                    (PreparedCall.physical call) (some t) budget_text),
              s',
            ))
        else submit_for d turn call t s
    | none ↦
        bind_task (create_task d.created_at d.task_id (request_of limits d turn) s)
          (submit_for d turn call)
  ]

  abbrev pub complete_task :
      Draws
      → AgentResponseCall
      → Option AgentTask
      → Store
      → Result ExecutionError ToolExecution × Store
  complete_task d call none s =
      let text : String = "无法完成任务：当前没有进行中的持续任务。" in
      (
        ok (
            told Directive.finish (refusal text "task_not_active") (PreparedCall.response call) none
              text),
        s,
      )
  complete_task d call (some t) s =
      let running : String = "当前机器人操作仍在执行，暂时不能完成任务。" in
      let unproved : String = "当前没有可信的机器人执行结果，不能把任务标记为完成。" in
      let s' = close_task d.closed_at t.task_id call.message s in
      if not (is_nil (active_run_ids t.task_id s))
      then (
        ok (
            told Directive.respond (refusal running "skill_still_running")
              (PreparedCall.response call) (some t) running),
        s,
      )
      else if not (has_successful_step t.task_id s)
      then (
        ok (
            told Directive.respond (refusal unproved "task_evidence_missing")
              (PreparedCall.response call) (some t) unproved),
        s,
      )
      else (
        ok (
            told Directive.finish (plain ToolStatus.completed call.message)
              (PreparedCall.response call) (task t.task_id s') call.message),
        s',
      )

  abbrev pub cancel_task :
      Draws
      → Turn
      → AgentResponseCall
      → Option AgentTask
      → Store
      → Result ExecutionError ToolExecution × Store
  cancel_task d turn call none s =
      let text : String = "无法取消任务：当前没有进行中的持续任务。" in
      (
        ok (
            told Directive.finish (refusal text "task_not_active") (PreparedCall.response call) none
              text),
        s,
      )
  cancel_task d turn call (some t) s =
      bind
        (apply_control stops limits d.closed_at turn.session_key Action.cancel call.message
          turn.envelope.agent_id s)
        λ reason s'. (
          ok (
              told Directive.finish (plain ToolStatus.completed call.message)
                (PreparedCall.response call) (task t.task_id s') call.message),
          s',
        )

  abbrev pub answer :
      AgentResponseCall → Option AgentTask → Store → Result ExecutionError ToolExecution × Store
  answer call t s = (
    ok (
        told Directive.respond (plain ToolStatus.completed call.message)
          (PreparedCall.response call) t call.message),
    s,
  )

  abbrev pub answer_without_task :
      AgentResponseCall → Option AgentTask → Store → Result ExecutionError ToolExecution × Store
  answer_without_task call none s = answer call none s
  answer_without_task call (some t) s = (
    ok (record {
      directive = Directive.continue;
      outcome =
          refusal "当前存在进行中的持续任务；请明确选择 wait、complete 或 cancel，不能使用 none。"
            "active_task_state_required";
      proposal = PreparedCall.response call;
      step = none;
      task = some t;
      final_text = none;
    }),
    s,
  )

  abbrev pub answer_and_wait :
      Draws
      → Turn
      → AgentResponseCall
      → Option AgentTask
      → Store
      → Result ExecutionError ToolExecution × Store
  answer_and_wait d turn call (some t) s = answer call (some t) s
  answer_and_wait d turn call none s =
      bind_task (create_task d.created_at d.task_id (request_of limits d turn) s)
        λ t s'. answer call (some t) s'

  -- `_respond`
  unfoldable pub respond :
      Draws → Turn → AgentResponseCall → Store → Result ExecutionError ToolExecution × Store
  respond d turn call s =
      let t = active_task turn.session_key s in
      if call.task_state == "none"
      then answer_without_task call t s
      else if call.task_state == "wait"
      then answer_and_wait d turn call t s
      else if call.task_state == "complete"
      then complete_task d call t s
      else if call.task_state == "cancel"
      then cancel_task d turn call t s
      else (raise (ExecutionError.unsupported_state call.task_state), s)

  abbrev harness_outcome : HarnessToolCall → ToolOutcome
  harness_outcome call = elim call.run [
    | ok outcome ↦ outcome
    | raise e ↦ record {
      status = ToolStatus.failed;
      user_summary = some (concat "普通工具 " (concat call.name " 执行失败。"));
      extra = entry "failure_mode" (string "harness_tool_failed") (entry "error" (string e) end);
      operation_id = none;
      retryable = true;
    }
  ]

  unfoldable pub execute :
      Draws → Turn → PreparedCall → Store → Result ExecutionError ToolExecution × Store
  unfolding execute_skill respond
  execute d turn (PreparedCall.physical call) s = execute_skill d turn call s
  execute d turn (PreparedCall.response call) s = respond d turn call s
  execute d turn (PreparedCall.harness call) s = (
    ok (record {
      directive = Directive.continue;
      outcome = harness_outcome call;
      proposal = PreparedCall.harness call;
      step = none;
      task = none;
      final_text = none;
    }),
    s,
  )

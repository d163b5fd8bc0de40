-- ===== src/Agent/Drive.antt =====
-- `Agent._drive`, src/hey_robot/cognition/runtime/agent.py: the loop of one wakeup. Its recursion is on
-- the model turns that are left; `k` counts the turns taken. What turn `k` reads of the clocks and
-- draws is `ticks k`, and what the model answers in it is `chat k`. Times are milliseconds.
pub mod Turns
pub mod Endings
use xbotics_hey_robot.Prelude.{
  ℕ, zero, suc, ◌+◌, ◌-◌, String, Bool, true, false, Option, none, some, List, [], ◌∷◌, ◌++◌,
  if◌then◌else◌, leb, ltb, or_else,
}
use xbotics_hey_robot.Prelude.Result.{Result, ok, raise}
use xbotics_hey_robot.Prelude.Text.{truthy_text, concat}
use xbotics_hey_robot.Protocol.{Envelope, ToolStatus}
use xbotics_hey_robot.Tasks.Rows.{TaskStatus, AgentTask, Store}
use xbotics_hey_robot.Tasks.Queries.{active_task, task}
use xbotics_hey_robot.Tasks.Updates.{pause_task, control_task}
use xbotics_hey_robot.Tasks.Coordinator.{Client}
use xbotics_hey_robot.Tools.Schema.{Python}
use xbotics_hey_robot.Tools.Calls.{PreparedCall, PrepareError, Registry, tool_names}
use xbotics_hey_robot.Tools.Executor.{
  Directive, ToolExecution, ExecutionError, Stops, Draws, Limits, Turn, bind, bind_task, or_text,
}
use xbotics_hey_robot.Tools.Execute.{execute}
use xbotics_hey_robot.Agent.Messages.{Role, ModelMessage, message, Chat}
use xbotics_hey_robot.Agent.Runner.{
  AgentToolCallRecord, AgentTurnRequest, AgentTurnResult, TurnStatus, run,
}
use xbotics_hey_robot.Agent.Context.{Printing, tool_result_messages}

pub data RunStatus : Type 0 where
  responded waiting completed blocked cancelled failed : RunStatus

pub record AgentRunResult : Type 0 where
  pub status : RunStatus
  pub text : String
  pub operation_id : Option String

-- What the agent is made of.
pub record Parts : Type 0 where
  pub py : Python
  pub prepare_text : PrepareError → String
  pub registry : Registry
  pub printing : Printing
  pub client : Client
  pub stops : Stops
  pub limits : Limits

-- The arguments of `_drive` but the messages.
pub record Wakeup : Type 0 where
  pub session_key : String
  pub envelope : Envelope
  pub interaction_id : String
  pub objective : String

-- The readings of one turn: of the clock for the deadline of the task and for its closing, of both
-- clocks for the deadline of the decision, and of the runner; with what its execution draws.
pub record Ticks : Type 0 where
  pub wall : ℕ
  pub closed_at : ℕ
  pub timed_at : ℕ
  pub monotonic : ℕ
  pub checked : ℕ
  pub sent : ℕ
  pub draws : Draws

abbrev pub max_model_turns : ℕ
max_model_turns = 8

abbrev pub overdue_text : String
overdue_text = "任务已暂停：达到最长持续时间，需要你确认后再继续。"

abbrev pub turns_text : String
turns_text = "任务已暂停：单次唤醒达到模型轮次上限，请确认后继续。"

abbrev pub unstructured_text : String
unstructured_text = "模型没有按结构化回复协议完成这次请求。"

abbrev pub reply_hint : String
reply_hint = "普通文本不是有效的 Agent 响应。请使用当前 function schema 暴露的结构化响应能力。"

abbrev pub ended :
    RunStatus → String → Option String → Store → Result ExecutionError AgentRunResult × Store
ended status text operation_id s =
    (ok (record { status = status; text = text; operation_id = operation_id }), s)

abbrev pub deadline_of : Option AgentTask → Option ℕ
deadline_of none = none
deadline_of (some t) = t.deadline_at

abbrev pub is_overdue : Option AgentTask → ℕ → Bool
is_overdue t now = elim (deadline_of t) [ none ↦ false | some d ↦ leb d now ]

-- `_next_decision_deadline`
abbrev pub timeout : Option ℕ → ℕ → ℕ
timeout none now = 120000
timeout (some d) now =
    let left : ℕ = if ltb (d - now) 1 then 1 else d - now in
    if ltb left 120000 then left else 120000

unfoldable pub next_decision_deadline : Option AgentTask → ℕ → ℕ → ℕ
next_decision_deadline t now monotonic = monotonic + timeout (deadline_of t) now

abbrev pub out_of_turns :
    ℕ → Option AgentTask → Store → Result ExecutionError AgentRunResult × Store
out_of_turns now none s = ended RunStatus.failed unstructured_text none s
out_of_turns now (some t) s =
    ended RunStatus.blocked turns_text none (pause_task now t.task_id turns_text s)

abbrev pub status_of_task : TaskStatus → RunStatus
status_of_task TaskStatus.blocked = RunStatus.blocked
status_of_task TaskStatus.cancelled = RunStatus.cancelled
status_of_task TaskStatus.failed = RunStatus.failed
status_of_task _ = RunStatus.completed

-- The status of a wakeup that an execution finished.
unfoldable pub finish_status : ToolExecution → Store → RunStatus
finish_status e s = elim e.task [
  | some t ↦ elim (task t.task_id s) [
    | none ↦ RunStatus.completed
    | some c ↦ status_of_task c.status
  ]
  | none ↦ elim e.outcome.status [ ToolStatus.failed ↦ RunStatus.failed | _ ↦ RunStatus.completed ]
]

abbrev pub told_text : ToolExecution → String → String
told_text e d = or_text e.final_text (or_text e.outcome.user_summary d)

abbrev pub id_of : Option AgentTask → Option String
id_of none = none
id_of (some t) = some t.task_id

module _ (parts : Parts) (w : Wakeup) where
  -- The rest of a turn, after the executor; `next` goes on with more messages.
  abbrev pub follow :
      AgentToolCallRecord
      → List ModelMessage
      → (List ModelMessage → Store → Result ExecutionError AgentRunResult × Store)
      → ToolExecution
      → Store
      → Result ExecutionError AgentRunResult × Store
  follow call messages next e s = elim e.directive [
    | Directive.continue ↦
        next
          (messages
            ++ tool_result_messages parts.printing call.tool_call_id call.name call.arguments
                e.proposal e.outcome e.step e.task)
          s
    | Directive.wait ↦ ended RunStatus.waiting "已提交机器人操作，正在等待执行结果。" e.outcome.operation_id s
    | Directive.respond ↦ ended RunStatus.responded (told_text e "任务仍在进行中。") (id_of e.task) s
    | Directive.finish ↦ ended (finish_status e s) (told_text e "请求已经处理。") e.outcome.operation_id s
  ]

  abbrev pub turn_of : AgentToolCallRecord → Turn
  turn_of call = record {
    session_key = w.session_key;
    envelope = w.envelope;
    interaction_id = w.interaction_id;
    objective = w.objective;
    tool_call_id = call.tool_call_id;
  }

  abbrev pub act :
      Draws
      → List ModelMessage
      → (List ModelMessage → Store → Result ExecutionError AgentRunResult × Store)
      → Option PreparedCall
      → List AgentToolCallRecord
      → Store
      → Result ExecutionError AgentRunResult × Store
  act d messages next (some proposal) (call ∷ _) s =
      bind (execute parts.client parts.stops parts.limits d (turn_of call) proposal s)
        (follow call messages next)
  act d messages next _ _ s = ended RunStatus.failed "工具没有产生有效调用。" none s

  abbrev pub failure_text : AgentTurnResult → String
  failure_text r = concat "这次请求没有完成：" (elim r.failure [ none ↦ "模型决策失败" | some f ↦ f.text ])

  -- The messages that stand for an answer in text, which is not accepted.
  abbrev pub spoken : AgentTurnResult → List ModelMessage
  spoken r = message Role.assistant (or_else r.final_text "") ∷ message Role.user reply_hint ∷ []

  -- What the loop does with a decision.
  unfoldable pub decide :
      Draws
      → List ModelMessage
      → (List ModelMessage → Store → Result ExecutionError AgentRunResult × Store)
      → AgentTurnResult
      → Store
      → Result ExecutionError AgentRunResult × Store
  decide d messages next r s = elim r.status [
    | TurnStatus.failed ↦ ended RunStatus.failed (failure_text r) none s
    | TurnStatus.returned ↦ next (messages ++ spoken r) s
    | TurnStatus.action_proposed ↦ act d messages next r.proposal r.tool_calls s
  ]

  abbrev pub overdue : ℕ → Option AgentTask → Store → Result ExecutionError AgentRunResult × Store
  overdue now none s = ended RunStatus.blocked overdue_text none s
  overdue now (some t) s =
      bind_task (control_task now t.task_id TaskStatus.blocked overdue_text s)
        λ u s'. ended RunStatus.blocked overdue_text none s'

  abbrev pub request : Ticks → Option AgentTask → List ModelMessage → AgentTurnRequest
  request tick t messages = record {
    messages = messages;
    allowed_tools = tool_names parts.registry;
    deadline = next_decision_deadline t tick.timed_at tick.monotonic;
    run_id = w.interaction_id;
  }

  -- The decision of one turn, with the store as the model left it.
  abbrev pub ask : Ticks → Chat → List ModelMessage → Store → Store × AgentTurnResult
  ask tick chat messages s =
      run parts.py parts.prepare_text parts.registry chat tick.checked tick.sent
        (request tick (active_task w.session_key s) messages) s

  module _ (ticks : ℕ → Ticks) (chat : ℕ → Chat) where
    unfoldable pub drive :
        ℕ → ℕ → List ModelMessage → Store → Result ExecutionError AgentRunResult × Store
    unfolding decide
    drive zero k messages s =
        let t = active_task w.session_key s in
        if is_overdue t (ticks k).wall
        then overdue (ticks k).closed_at t s
        else out_of_turns (ticks k).closed_at t s
    drive (suc n) k messages s =
        let t = active_task w.session_key s in
        let next = drive n (k + 1) in
        if is_overdue t (ticks k).wall
        then overdue (ticks k).closed_at t s
        else let (s', r) = ask (ticks k) (chat k) messages s in
          decide (ticks k).draws messages next r s'

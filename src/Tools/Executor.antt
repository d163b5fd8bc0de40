-- ===== src/Tools/Executor.antt =====
-- AgentToolExecutor, src/hey_robot/cognition/tools/executor.py. A call of the skill client is
-- awaited: its functions take the task store and give it back as they leave it, with the text of
-- the exception that they raised, if any. The user texts are those of the source.
use xbotics_hey_robot.Prelude.{
  ℕ, ◌+◌, String, false, not, Option, none, some, List, [], ◌∷◌, if◌then◌else◌, ltb,
}
use xbotics_hey_robot.Prelude.Result.{Result, ok, raise}
use xbotics_hey_robot.Prelude.Text.{truthy_text}
use xbotics_hey_robot.Prelude.Value.{end, entry, string}
use xbotics_hey_robot.Protocol.{Envelope, robot_of, ToolStatus, ToolOutcome}
use xbotics_hey_robot.Tasks.Rows.{TaskStatus, AgentTask, AgentTaskStep, Store, is_paused}
use xbotics_hey_robot.Tasks.Queries.{current_task, active_run_ids}
use xbotics_hey_robot.Tasks.Updates.{Error, TaskRequest, pause_task, resume_task, control_task}
use xbotics_hey_robot.Tasks.Coordinator.{Drawn, SubmitError, is_nil}
use xbotics_hey_robot.Tools.Calls.{PreparedCall}

pub data Directive : Type 0 where
  continue wait respond finish : Directive

pub record ToolExecution : Type 0 where
  pub directive : Directive
  pub outcome : ToolOutcome
  pub proposal : PreparedCall
  pub step : Option AgentTaskStep
  pub task : Option AgentTask
  pub final_text : Option String

pub data ExecutionError : Type 0 where
  task_error : Error → ExecutionError
  submit_error : SubmitError → ExecutionError
  client_error : String → ExecutionError
  unsupported_state : String → ExecutionError

-- The other calls of `SkillClient`.
pub record Stops : Type 0 where
  pub cancel : String → String → Store → Store × Option String
  pub emergency_stop : String → String → Store → Store × Option String

-- What one execution draws: the ids and the readings of the clock.
pub record Draws : Type 0 where
  pub task_id : String
  pub created_at : ℕ
  pub closed_at : ℕ
  pub submission : Drawn

-- The parts of the deployment's configuration that are read; `default_robot` is
-- `config.default_robot_id`.
pub record Limits : Type 0 where
  pub hard_max_skills : ℕ
  pub hard_max_wall_time : ℕ
  pub default_robot : Option String → Option String

-- The arguments of `execute` but the call.
pub record Turn : Type 0 where
  pub session_key : String
  pub envelope : Envelope
  pub interaction_id : String
  pub objective : String
  pub tool_call_id : String

abbrev pub plain : ToolStatus → String → ToolOutcome
plain status text = record {
  status = status;
  user_summary = some text;
  extra = end;
  operation_id = none;
  retryable = false;
}

abbrev pub refusal : String → String → ToolOutcome
refusal text failure_mode = record (plain ToolStatus.failed text) {
  extra = entry "failure_mode" (string failure_mode) end;
}

abbrev pub told : Directive → ToolOutcome → PreparedCall → Option AgentTask → String → ToolExecution
told directive outcome proposal t text = record {
  directive = directive;
  outcome = outcome;
  proposal = proposal;
  step = none;
  task = t;
  final_text = some text;
}

-- `m` and then `f` of its value, in the store that it left.
abbrev pub bind_task {ℓ} :
    {A : Type 0} {B : Type ℓ}
    → Result Error A × Store
    → (A → Store → Result ExecutionError B × Store)
    → Result ExecutionError B × Store
bind_task (raise e, s) f = (raise (task_error e), s)
bind_task (ok a, s) f = f a s

abbrev pub bind_submit :
    Result SubmitError AgentTaskStep × Store
    → (AgentTaskStep → Store → Result ExecutionError ToolExecution × Store)
    → Result ExecutionError ToolExecution × Store
bind_submit (raise e, s) f = (raise (submit_error e), s)
bind_submit (ok a, s) f = f a s

abbrev pub bind_client {ℓ} :
    {B : Type ℓ}
    → Store × Option String
    → (Store → Result ExecutionError B × Store)
    → Result ExecutionError B × Store
bind_client (s, some e) f = (raise (client_error e), s)
bind_client (s, none) f = f s

abbrev pub bind {ℓ κ} :
    {A : Type ℓ} {B : Type κ}
    → Result ExecutionError A × Store
    → (A → Store → Result ExecutionError B × Store)
    → Result ExecutionError B × Store
bind (raise e, s) f = (raise e, s)
bind (ok a, s) f = f a s

abbrev pub request_of : Limits → Draws → Turn → TaskRequest
request_of limits d t = record {
  session_key = t.session_key;
  envelope = t.envelope;
  interaction_id = some t.interaction_id;
  objective = t.objective;
  ui_summary = t.objective;
  deadline_at = some (d.created_at + limits.hard_max_wall_time);
}

abbrev pub or_text : Option String → String → String
or_text none d = d
or_text (some s) d = if truthy_text s then s else d

abbrev pub text_or : String → String → String
text_or s d = if truthy_text s then s else d

pub data Action : Type 0 where
  pause resume cancel block emergency_stop : Action

abbrev pub default_reason : Action → String
default_reason Action.pause = "任务已暂停。"
default_reason Action.resume = "已恢复当前任务。"
default_reason Action.cancel = "任务已取消。"
default_reason Action.block = "任务已阻塞，需要人工确认。"
default_reason Action.emergency_stop = "已请求紧急停止。"

-- `max(1, int(hard_max_skills))`
abbrev pub max_steps : Limits → ℕ
max_steps limits = if ltb limits.hard_max_skills 1 then 1 else limits.hard_max_skills

abbrev pub no_task : String
no_task = "当前没有进行中的持续任务。"

-- The cancellations of `_apply_control`, one run after the other.
unfoldable pub cancel_runs : Stops → String → List String → Store → Store × Option String
cancel_runs stops reason [] s = (s, none)
cancel_runs stops reason (run ∷ runs) s =
    let (s', failure) = stops.cancel run reason s in
    elim failure [ some e ↦ (s', some e) | none ↦ cancel_runs stops reason runs s' ]

module _ (stops : Stops) (limits : Limits) where
  abbrev resume_control :
      ℕ → String → Option AgentTask → Store → Result ExecutionError String × Store
  resume_control now reason none s = (ok no_task, s)
  resume_control now reason (some t) s =
      if not (is_paused t.status)
      then (ok "当前任务不在暂停状态。", s)
      else if not (is_nil (active_run_ids t.task_id s))
      then (ok "当前机器人操作仍在停止中；收到终态后才能恢复任务。", s)
      else bind_task (resume_task now t.task_id s) λ r s'. (ok (text_or reason "已恢复当前任务。"), s')

  abbrev stop_control :
      ℕ → String → Option AgentTask → Option String → Store → Result ExecutionError String × Store
  stop_control now reason t none s = (ok "无法执行紧急停止：当前没有配置机器人。", s)
  stop_control now reason t (some robot) s = bind_client (stops.emergency_stop robot reason s) λ s'.
      elim t [
        | none ↦ (ok reason, s')
        | some r ↦
            bind_task (control_task now r.task_id TaskStatus.cancelled reason s')
              λ u s''. (ok reason, s'')
      ]

  abbrev end_control :
      ℕ → Action → String → AgentTask → Store → Result ExecutionError String × Store
  end_control now action reason t s = elim action [
    | Action.pause ↦ (ok reason, pause_task now t.task_id reason s)
    | Action.block ↦
        bind_task (control_task now t.task_id TaskStatus.blocked reason s) λ u s'. (ok reason, s')
    | _ ↦
        bind_task (control_task now t.task_id TaskStatus.cancelled reason s) λ u s'. (ok reason, s')
  ]

  -- `_apply_control`
  unfoldable pub apply_control :
      ℕ → String → Action → String → Option String → Store → Result ExecutionError String × Store
  unfolding cancel_runs
  apply_control now session action requested agent_id s =
      let t = current_task session s in
      let reason = text_or requested (default_reason action) in
      elim action [
        | Action.resume ↦ resume_control now requested t s
        | Action.emergency_stop ↦
            stop_control now reason t
              (elim t [
                | some r ↦ some (robot_of r.envelope)
                | none ↦ limits.default_robot agent_id
              ])
              s
        | other ↦ elim t [
          | none ↦ (ok no_task, s)
          | some r ↦
              bind_client (cancel_runs stops reason (active_run_ids r.task_id s) s)
                λ s'. end_control now other reason r s'
        ]
      ]

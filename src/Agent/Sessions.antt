-- ===== src/Agent/Sessions.antt =====
-- The session operations of `Agent`, src/hey_robot/cognition/runtime/agent.py: `prompt`, `steer` and
-- `resume`, each where no other wakeup of the session is under way. The others that run while the
-- model is awaited may add to the conversation: `meanwhile` is what they make of its rows.
pub mod Talk
mod Examples
use xbotics_hey_robot.Prelude.{
  ℕ, String, Bool, true, false, not, ◌&&◌, ◌||◌, Option, none, some, List, [], ◌∷◌, if◌then◌else◌,
  eqb, ◌==◌, find, last?, or_else,
}
use xbotics_hey_robot.Prelude.Result.{Result, ok, raise}
use xbotics_hey_robot.Prelude.Text.{truthy_text, concat}
use xbotics_hey_robot.Protocol.{Envelope}
use xbotics_hey_robot.Tasks.Rows.{TaskStatus, AgentTask, AgentTaskStep, Store, is_active, is_paused}
use xbotics_hey_robot.Tasks.Queries.{
  active_task, current_task, task, task_envelope, active_run_ids, recent_steps,
  resume_after_sequence,
}
use xbotics_hey_robot.Tasks.Updates.{Error, update_route, resume_task}
use xbotics_hey_robot.Tasks.Projection.{decimal, all_of}
use xbotics_hey_robot.Tools.Executor.{ExecutionError, or_text}
use xbotics_hey_robot.Agent.Messages.{Role, ModelMessage, Chat}
use xbotics_hey_robot.Agent.Context.{MessageRow, append, for_command, for_resume}
use xbotics_hey_robot.Agent.Drive.{
  AgentRunResult, RunStatus, Parts, Wakeup, Ticks, drive, max_model_turns,
}
use mathlib.Core.List as Lists

-- The task store and the conversations.
pub record World : Type 0 where
  pub tasks : Store
  pub rows : List MessageRow

pub record AgentCommand : Type 0 where
  pub session_key : String
  pub interaction_id : String
  pub envelope : Envelope
  pub text : String

pub data Source : Type 0 where
  skill_terminal startup_recovery user_resume : Source

pub record ResumeTrigger : Type 0 where
  pub task_id : String
  pub source : Source
  pub step_id : Option String

-- The readings of one call: of the clock for its rows, and of the turns.
pub record Readings : Type 0 where
  pub routed_at : ℕ
  pub heard_at : ℕ
  pub answered_at : ℕ
  pub ticks : ℕ → Ticks

abbrev pub is_waiting : RunStatus → Bool
is_waiting RunStatus.waiting = true
is_waiting _ = false

abbrev pub is_user_resume : Source → Bool
is_user_resume Source.user_resume = true
is_user_resume _ = false

abbrev pub is_step : String → AgentTaskStep → Bool
is_step id st = st.step_id == id

abbrev pub is_at : ℕ → AgentTaskStep → Bool
is_at sequence st = eqb st.sequence sequence

-- The step that a resumption goes on from.
unfoldable pub resumed_step : Option String → ℕ → List AgentTaskStep → Option AgentTaskStep
resumed_step wanted sequence steps =
    let id = or_else wanted "" in
    let p = if truthy_text id then is_step id else is_at sequence in
    elim (find p (Lists.reverse steps)) [ none ↦ last? steps | some st ↦ some st ]

abbrev pub stopped_status : TaskStatus → RunStatus
stopped_status TaskStatus.completed = RunStatus.completed
stopped_status _ = RunStatus.cancelled

abbrev pub answer :
    RunStatus → String → Option String → World → Result ExecutionError AgentRunResult × World
answer status text operation_id w =
    (ok (record { status = status; text = text; operation_id = operation_id }), w)

abbrev pub recorded_text : String
recorded_text = "已记录你的修改，将在当前机器人操作结束后从安全点继续。"

module _ (parts : Parts) (session : String) (readings : Readings) (chat : ℕ → Chat)
    (meanwhile : List MessageRow → List MessageRow) where
  -- The end of `_launch_drive`.
  abbrev pub noted :
      Result ExecutionError AgentRunResult × Store
      → List MessageRow
      → Result ExecutionError AgentRunResult × World
  noted (raise e, s) rows = (raise e, record { tasks = s; rows = rows })
  noted (ok result, s) rows = (
    ok result,
    record {
      tasks = s;
      rows =
          if truthy_text result.text && not (is_waiting result.status)
          then append readings.answered_at session Role.assistant result.text rows
          else rows;
    },
  )

  unfoldable pub launch_drive :
      List ModelMessage
      → Envelope
      → String
      → String
      → World
      → Result ExecutionError AgentRunResult × World
  launch_drive messages envelope interaction_id objective w =
      let wakeup : Wakeup = record {
        session_key = session;
        envelope = envelope;
        interaction_id = interaction_id;
        objective = objective;
      } in
      noted (drive parts wakeup readings.ticks chat max_model_turns 0 messages w.tasks)
        (meanwhile w.rows)

  abbrev pub routed : AgentCommand → Option AgentTask → Store → Store
  routed command none s = s
  routed command (some t) s =
      update_route readings.routed_at t.task_id command.envelope command.interaction_id s

  -- `prompt`, which is `_launch`
  unfoldable pub prompt : AgentCommand → World → Result ExecutionError AgentRunResult × World
  unfolding launch_drive
  prompt command w =
      let s = routed command (active_task command.session_key w.tasks) w.tasks in
      let messages = for_command parts.printing command.session_key command.text w.rows s in
      launch_drive messages command.envelope command.interaction_id command.text (record {
        tasks = s;
        rows = append readings.heard_at command.session_key Role.user command.text w.rows;
      })

  abbrev pub steer_on :
      AgentCommand → List String → World → Result ExecutionError AgentRunResult × World
  steer_on command [] w = prompt command w
  steer_on command (run ∷ runs) w = answer RunStatus.waiting recorded_text (some run) (record w {
    rows = append readings.heard_at command.session_key Role.user command.text w.rows;
  })

  unfoldable pub steer : AgentCommand → World → Result ExecutionError AgentRunResult × World
  unfolding prompt
  steer command w = elim (current_task session w.tasks) [
    | none ↦ prompt command w
    | some t ↦
        let s =
          if is_active t.status
          then update_route readings.routed_at t.task_id command.envelope command.interaction_id
              w.tasks
          else w.tasks in
        steer_on command (active_run_ids t.task_id s) (record w { tasks = s })
  ]

  abbrev pub resume_step :
      AgentTask
      → Option Envelope
      → Option AgentTaskStep
      → World
      → Result ExecutionError AgentRunResult × World
  resume_step t envelope none w = answer RunStatus.failed "无法恢复：没有可用的步骤结果。" none w
  resume_step t none (some st) w = answer RunStatus.failed "无法恢复：任务路由不完整。" none w
  resume_step t (some envelope) (some st) w =
      launch_drive (for_resume parts.printing t st w.rows w.tasks) envelope
        (all_of ("resume_" ∷ t.task_id ∷ "_" ∷ decimal st.sequence ∷ [])) t.objective w

  abbrev pub resume_task_now :
      ResumeTrigger → World → AgentTask → Result ExecutionError AgentRunResult × World
  resume_task_now trigger w t =
      if not (is_active t.status)
      then answer (stopped_status t.status) (or_text t.final_recap (or_text t.last_error "")) none w
      else let sequence = resume_after_sequence t.task_id w.tasks in
        let steps = recent_steps t.task_id 200 w.tasks in
        resume_step t (task_envelope t.task_id w.tasks)
          (resumed_step trigger.step_id sequence steps) w

  abbrev pub after_resume :
      ResumeTrigger
      → List MessageRow
      → Result Error AgentTask × Store
      → Result ExecutionError AgentRunResult × World
  after_resume trigger rows (raise e, s) =
      (raise (ExecutionError.task_error e), record { tasks = s; rows = rows })
  after_resume trigger rows (ok t, s) =
      resume_task_now trigger (record { tasks = s; rows = rows }) t

  unfoldable pub resume : ResumeTrigger → World → Result ExecutionError AgentRunResult × World
  unfolding launch_drive resumed_step
  resume trigger w = elim (task trigger.task_id w.tasks) [
    | none ↦ answer RunStatus.failed "无法恢复：任务不存在。" none w
    | some t ↦
        if is_paused t.status && is_user_resume trigger.source
        then after_resume trigger w.rows (resume_task readings.routed_at t.task_id w.tasks)
        else resume_task_now trigger w t
  ]

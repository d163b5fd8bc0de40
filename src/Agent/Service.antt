-- ===== src/Agent/Service.antt =====
-- AutonomousAgentService, src/hey_robot/cognition/autonomous_agent_service.py: what it makes of a start,
-- of a turn of the conversation and of an event of a skill run. What it publishes is a list. A
-- publication is not a point at which others run here.
pub mod Recovery
mod Examples
use xbotics_hey_robot.Prelude.{
  ℕ, String, Bool, true, false, not, ◌&&◌, ◌||◌, Option, none, some, List, [], ◌∷◌, ◌++◌,
  if◌then◌else◌, ◌==◌, or_else,
}
use xbotics_hey_robot.Prelude.Result.{Result, ok, raise}
use xbotics_hey_robot.Prelude.Text.{truthy_text, concat}
use xbotics_hey_robot.Protocol.{Envelope}
use xbotics_hey_robot.Skills.Models.{SkillEvent}
use xbotics_hey_robot.Tasks.Rows.{AgentTask, Store}
use xbotics_hey_robot.Tasks.Queries.{
  active_task, task, task_envelope, task_interaction_id, active_run_ids, resumable_tasks,
}
use xbotics_hey_robot.Tasks.Updates.{pause_task}
use xbotics_hey_robot.Tasks.Coordinator.{
  Client, AppliedSkillEvent, is_nil, apply_result, reconcile_active_run_results,
}
use xbotics_hey_robot.Tools.Executor.{ExecutionError, or_text}
use xbotics_hey_robot.Agent.Messages.{Chat}
use xbotics_hey_robot.Agent.Context.{MessageRow}
use xbotics_hey_robot.Agent.Drive.{AgentRunResult, Parts}
use xbotics_hey_robot.Agent.Sessions.{
  World, AgentCommand, ResumeTrigger, Source, Readings, is_waiting, prompt, steer, resume,
}

pub record ConversationResult : Type 0 where
  pub envelope : Envelope
  pub interaction_id : String
  pub text : String
  pub final : Bool

abbrev pub recovery_text : String
recovery_text = "检测到重启前尚未完成审议的任务。为避免自动触发新的机器人动作，任务已暂停；请确认后继续。"

abbrev pub publication : Option Envelope → String → String → Bool → List ConversationResult
publication none interaction_id text final = []
publication (some envelope) interaction_id text final =
    record { envelope = envelope; interaction_id = interaction_id; text = text; final = final } ∷ []

-- The first loop of `_recover_tasks`.
unfoldable pub tell_ended : List (SkillEvent × AppliedSkillEvent) → Store → List ConversationResult
tell_ended [] s = []
tell_ended ((event, applied) ∷ rest) s =
    let later = tell_ended rest s in
    elim applied.final_text [
      | none ↦ later
      | some text ↦
          publication (task_envelope applied.step.task_id s) event.run_id text true ++ later
    ]

-- The second loop: every task that a restart found to be resumed.
unfoldable pub pause_tasks : ℕ → List AgentTask → Store → List ConversationResult × Store
pause_tasks now [] s = ([], s)
pause_tasks now (t ∷ rest) s =
    let s' = pause_task now t.task_id recovery_text s in
    let id = or_text (task_interaction_id t.task_id s') (concat "recovery_" t.task_id) in
    let (later, s'') = pause_tasks now rest s' in
    (publication (task_envelope t.task_id s') id recovery_text true ++ later, s'')

-- `_recover_tasks`
unfoldable pub recover_tasks : Client → ℕ → Store → List ConversationResult × Store
unfolding tell_ended pause_tasks
recover_tasks client now s =
    let (ended, s') = reconcile_active_run_results client now s in
    let (paused, s'') = pause_tasks now (resumable_tasks s') s' in
    (tell_ended ended s' ++ paused, s'')

pub data TurnKind : Type 0 where
  prompted steered : TurnKind

-- What a call of the service raises, or the rest of its work.
abbrev pub published :
    Result ExecutionError AgentRunResult × World
    → (AgentRunResult → World → List ConversationResult)
    → Result ExecutionError (List ConversationResult) × World
published (raise e, w) f = (raise e, w)
published (ok result, w) f = (ok (f result w), w)

module _ (parts : Parts) (readings : Readings) (chat : ℕ → Chat)
    (meanwhile : List MessageRow → List MessageRow) (agent_id : String) where
  abbrev pub is_for_other : Envelope → Bool
  is_for_other envelope = elim envelope.agent_id [
    | none ↦ false
    | some id ↦ truthy_text id && not (id == agent_id)
  ]

  abbrev pub has_active_run : String → Store → Bool
  has_active_run session s = elim (active_task session s) [
    | none ↦ false
    | some t ↦ not (is_nil (active_run_ids t.task_id s))
  ]

  abbrev pub is_steered : TurnKind → Bool
  is_steered TurnKind.prompted = false
  is_steered TurnKind.steered = true

  -- `_on_turn`, for a turn with the fields of the command and its kind
  unfoldable pub on_turn :
      TurnKind → AgentCommand → World → Result ExecutionError (List ConversationResult) × World
  on_turn kind command w =
      if is_for_other command.envelope
      then (ok [], w)
      else let answer =
          if is_steered kind || has_active_run command.session_key w.tasks
          then steer parts command.session_key readings chat meanwhile command w
          else prompt parts command.session_key readings chat meanwhile command w in
        published answer λ result w'.
          publication (some command.envelope) command.interaction_id result.text
            (not (is_waiting result.status))

  -- `_resume_applied`
  unfoldable pub resume_applied :
      AgentTask
      → AppliedSkillEvent
      → String
      → World
      → Result ExecutionError (List ConversationResult) × World
  resume_applied t applied interaction_id w =
      published
        (resume parts t.session_key readings chat meanwhile
          (record {
            task_id = t.task_id;
            source = Source.skill_terminal;
            step_id = some applied.step.step_id;
          })
          w)
        λ result w'.
          publication (task_envelope t.task_id w'.tasks)
            (or_text (task_interaction_id t.task_id w'.tasks) interaction_id) result.text
            (not (is_waiting result.status))

  abbrev pub after_event :
      SkillEvent
      → Option AppliedSkillEvent × Store
      → List MessageRow
      → Result ExecutionError (List ConversationResult) × World
  after_event event (none, s) rows = (ok [], record { tasks = s; rows = rows })
  after_event event (some applied, s) rows =
      let w : World = record { tasks = s; rows = rows } in
      elim (task applied.step.task_id s) [
        | none ↦ (ok [], w)
        | some t ↦ elim (task_envelope t.task_id s) [
          | none ↦ (ok [], w)
          | some envelope ↦ elim applied.final_text [
            | some text ↦ (ok (publication (some envelope) event.run_id text true), w)
            | none ↦
                if applied.should_resume
                then resume_applied t applied event.run_id w
                else (ok [], w)
          ]
        ]
      ]

  -- `_handle_skill_event`
  unfoldable pub handle_skill_event :
      ℕ → ℕ → ℕ → SkillEvent → World → Result ExecutionError (List ConversationResult) × World
  unfolding resume_applied
  handle_skill_event c u now event w = after_event event (apply_result c u now event w.tasks) w.rows

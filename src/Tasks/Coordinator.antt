-- ===== src/Tasks/Coordinator.antt =====
-- src/hey_robot/cognition/runtime/task_coordinator.py. The client of the skill worker is a
-- parameter. A call of it is awaited, so other coroutines may change the store meanwhile: the
-- client's functions take the store and give it back as they leave it.
pub mod Laws
pub mod Completion
use xbotics_hey_robot.Prelude.{
  ℕ, ◌+◌, String, Bool, true, false, not, ◌&&◌, Option, none, some, List, [], ◌∷◌, if◌then◌else◌,
  ◌==◌, or_else,
}
use xbotics_hey_robot.Prelude.Result.{Result, ok, raise}
use xbotics_hey_robot.Prelude.Text.{truthy_text}
use xbotics_hey_robot.Prelude.Value.{Fields, end, entry, string, get_or_null, is_text}
use xbotics_hey_robot.Protocol.{
  Envelope, child, robot_of, ToolStatus, ToolOutcome, PhysicalToolCall,
}
use xbotics_hey_robot.Skills.Models.{
  SkillPhase, SkillResult, SkillCommand, SkillEvent, is_terminal_phase, to_tool_outcome,
}
use xbotics_hey_robot.Tasks.Rows.{
  TaskStatus, StepStatus, AgentTask, AgentTaskStep, Store, is_active,
}
use xbotics_hey_robot.Tasks.Queries.{task, active_run_ids, active_skill_steps}
use xbotics_hey_robot.Tasks.Updates.{Error, complete_from_environment}
use xbotics_hey_robot.Tasks.Steps.{StepReport, add_pending_step, apply_skill_event}

-- The port `SkillClient`: `submit` answers with the text of the exception it raised, if any.
pub record Client : Type 0 where
  pub submit : SkillCommand → Store → Store × Option String
  pub status : String → Store → Store × Option SkillEvent

pub data SubmitError : Type 0 where
  non_active_task already_active not_persisted : SubmitError
  store_error : Error → SubmitError

pub record Submission : Type 0 where
  pub task_id : String
  pub proposal : PhysicalToolCall
  pub envelope : Envelope
  pub tool_call_id : String
  pub deadline_at : Option ℕ

-- What a submission draws: its ids and its readings of the clock.
pub record Drawn : Type 0 where
  pub run_id : String
  pub step_id : String
  pub trace_id : String
  pub now : ℕ
  pub completed_now : ℕ
  pub updated_now : ℕ

abbrev pub command_of : Drawn → Submission → AgentTask → SkillCommand
command_of d q t = record {
  envelope = child q.envelope (robot_of t.envelope) d.trace_id;
  run_id = d.run_id;
  task_id = q.task_id;
  robot_id = robot_of t.envelope;
  name = q.proposal.name;
  arguments = q.proposal.arguments;
  deadline_at = q.deadline_at;
}

-- `error_text` is `str(exc) or type(exc).__name__`.
abbrev pub rejected : String → String → StepReport
rejected run_id error_text = record {
  outcome = record {
    status = ToolStatus.failed;
    user_summary = some "机器人操作提交失败。";
    extra =
        entry "failure_mode" (string "transport_submit_failed")
          (entry "error" (string error_text) end);
    operation_id = some run_id;
    retryable = true;
  };
  status = StepStatus.failed;
  event_sequence = 1;
}

unfoldable pub after_dispatch :
    Drawn → AgentTaskStep → Store × Option String → Result SubmitError AgentTaskStep × Store
after_dispatch d st (s, none) = (ok st, s)
after_dispatch d st (s, some error_text) =
    let (applied, s') =
      apply_skill_event d.completed_now d.updated_now d.run_id (rejected d.run_id error_text) s in
    elim applied [ none ↦ (raise not_persisted, s') | some failed ↦ (ok failed, s') ]

unfoldable pub dispatch :
    Client
    → Drawn
    → SkillCommand
    → Result Error AgentTaskStep × Store
    → Result SubmitError AgentTaskStep × Store
dispatch client d command (raise e, s) = (raise (store_error e), s)
dispatch client d command (ok st, s) = after_dispatch d st (client.submit command s)

abbrev pub is_nil {ℓ} : {A : Type ℓ} → List A → Bool
is_nil [] = true
is_nil (x ∷ xs) = false

unfoldable pub submit :
    Client → Drawn → Submission → Store → Result SubmitError AgentTaskStep × Store
submit client d q s = elim (task q.task_id s) [
  | none ↦ (raise non_active_task, s)
  | some t ↦
      if not (is_active t.status)
      then (raise non_active_task, s)
      else if not (is_nil (active_run_ids q.task_id s))
      then (raise already_active, s)
      else dispatch client d (command_of d q t)
          (add_pending_step d.now d.step_id q.task_id q.proposal d.run_id q.tool_call_id s)
]

-- `_apply_step`, as the report that it hands to the store.
abbrev final_report : SkillEvent → StepStatus → Option SkillResult → Option StepReport
final_report event status none = none
final_report event status (some result) = some (record {
  outcome = to_tool_outcome result event.run_id;
  status = status;
  event_sequence = event.sequence;
})

abbrev open_report : SkillEvent → ToolStatus → StepStatus → StepReport
open_report event tool status = record {
  outcome = record {
    status = tool;
    user_summary = event.summary;
    extra = end;
    operation_id = some event.run_id;
    retryable = false;
  };
  status = status;
  event_sequence = event.sequence;
}

unfoldable pub report : SkillEvent → Option StepReport
report event = elim event.phase [
  | SkillPhase.accepted ↦ some (open_report event ToolStatus.accepted StepStatus.pending)
  | SkillPhase.running ↦ some (open_report event ToolStatus.waiting StepStatus.running)
  | SkillPhase.progress ↦ some (open_report event ToolStatus.waiting StepStatus.running)
  | SkillPhase.completed ↦ final_report event StepStatus.completed event.result
  | SkillPhase.failed ↦ final_report event StepStatus.failed event.result
  | SkillPhase.cancelled ↦ final_report event StepStatus.cancelled event.result
]

unfoldable pub apply_step : ℕ → ℕ → SkillEvent → Store → Option AgentTaskStep × Store
apply_step c u event s = elim (report event) [
  | none ↦ (none, s)
  | some e ↦ apply_skill_event c u event.run_id e s
]

pub record AppliedSkillEvent : Type 0 where
  pub step : AgentTaskStep
  pub task_status : TaskStatus
  pub should_resume : Bool
  pub final_text : Option String

-- The text of an event by which the environment ends the task.
unfoldable pub environment_text : SkillEvent → Option String
environment_text event = elim event.result [
  | none ↦ none
  | some r ↦
      if is_terminal_phase event.phase
        && r.success
        && is_text (get_or_null r.extra "termination_reason") "environment_done"
      then some
          (if truthy_text r.summary then r.summary else "Environment reported task completion.")
      else none
]

abbrev pub applied_event :
    SkillEvent → AgentTaskStep → TaskStatus → Option String → AppliedSkillEvent
applied_event event st status text = record {
  step = st;
  task_status = status;
  should_resume = is_terminal_phase event.phase && is_active status;
  final_text = text;
}

abbrev pub status_or : TaskStatus → Option AgentTask → TaskStatus
status_or d none = d
status_or d (some t) = t.status

unfoldable pub settle :
    ℕ → SkillEvent → AgentTaskStep → AgentTask → Store → Option AppliedSkillEvent × Store
settle now event st t s = elim (environment_text event) [
  | none ↦ (some (applied_event event st t.status none), s)
  | some text ↦
      let s' = complete_from_environment now st.task_id text s in
      let status = status_or t.status (task st.task_id s') in
      (some (applied_event event st status (some text)), s')
]

unfoldable pub after_step :
    ℕ → SkillEvent → Option AgentTaskStep × Store → Option AppliedSkillEvent × Store
after_step now event (none, s) = (none, s)
after_step now event (some st, s) = elim (task st.task_id s) [
  | none ↦ (none, s)
  | some t ↦ settle now event st t s
]

-- The three readings of the clock are those of the step, of its task, and of the completion.
unfoldable pub apply_result : ℕ → ℕ → ℕ → SkillEvent → Store → Option AppliedSkillEvent × Store
apply_result c u now event s = after_step now event (apply_step c u event s)

-- `TaskCoordinator.apply`
unfoldable pub apply_event : ℕ → ℕ → ℕ → SkillEvent → Store → Option AgentTaskStep × Store
apply_event c u now event s =
    let (applied, s') = apply_result c u now event s in
    (elim applied [ none ↦ none | some a ↦ some a.step ], s')

-- The loop of `reconcile_active_run_results` over the steps listed at its start.
reconcile_steps :
    Client → ℕ → List AgentTaskStep → Store → List (SkillEvent × AppliedSkillEvent) × Store
reconcile_steps client now [] s = ([], s)
reconcile_steps client now (st ∷ rest) s =
    let skip = reconcile_steps client now rest in
    elim st.run_id [
      | none ↦ skip s
      | some run ↦
          let (s', answer) = client.status run s in
          elim answer [
            | none ↦ skip s'
            | some event ↦
                let (applied, s'') = apply_result now now now event s' in
                let (found, end_store) = skip s'' in
                (elim applied [ none ↦ found | some a ↦ (event, a) ∷ found ], end_store)
          ]
    ]

unfoldable pub reconcile_active_run_results :
    Client → ℕ → Store → List (SkillEvent × AppliedSkillEvent) × Store
unfolding reconcile_steps
reconcile_active_run_results client now s = reconcile_steps client now (active_skill_steps s) s

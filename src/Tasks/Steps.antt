-- ===== src/Tasks/Steps.antt =====
-- The operations of AgentTaskStore that write steps.
use xbotics_hey_robot.Prelude.{
  ℕ, ◌+◌, String, Bool, true, false, Option, none, some, [], if◌then◌else◌, leb, find, update_where,
}
use xbotics_hey_robot.Prelude.Result.{Result, ok, raise}
use xbotics_hey_robot.Prelude.Value.{end}
use xbotics_hey_robot.Protocol.{ToolStatus, ToolOutcome, PhysicalToolCall}
use xbotics_hey_robot.Tasks.Rows.{
  StepStatus, TaskRow, AgentTask, AgentTaskStep, Store, is_active, is_final, has_id, has_run,
  evidence_ids,
}
use xbotics_hey_robot.Tasks.Queries.{task}
use xbotics_hey_robot.Tasks.Updates.{Error, non_active_task, insert_step, update_active}

abbrev pub failed_tool : ToolStatus → Bool
failed_tool ToolStatus.failed = true
failed_tool _ = false

abbrev pub first_step : ℕ → String → String → ℕ → PhysicalToolCall → ToolOutcome → AgentTaskStep
first_step now step_id task_id sequence proposal outcome = record {
  step_id = step_id;
  task_id = task_id;
  sequence = sequence;
  proposal = proposal;
  outcome = outcome;
  started_at = now;
  completed_at = some now;
  evidence_ids = evidence_ids step_id outcome;
  status = if failed_tool outcome.status then StepStatus.failed else StepStatus.completed;
  run_id = none;
  tool_call_id = none;
  last_event_sequence = 0;
}

-- `UPDATE sustained_tasks SET ... WHERE task_id=?`, in the transaction of the INSERT before it.
abbrev pub then_update :
    AgentTaskStep
    → (TaskRow → TaskRow)
    → Result Error (Unit {0}) × Store
    → Result Error AgentTaskStep × Store
then_update st f (raise e, s) = (raise e, s)
then_update st f (ok _, s) =
    (ok st, record s { tasks = update_where (has_id st.task_id) f s.tasks })

abbrev pub with_active :
    String
    → (AgentTask → Store → Result Error AgentTaskStep × Store)
    → Store
    → Result Error AgentTaskStep × Store
with_active id f s = elim (task id s) [
  | none ↦ (raise non_active_task, s)
  | some t ↦ if is_active t.status then f t s else (raise non_active_task, s)
]

abbrev pub appended : ℕ → ℕ → TaskRow → TaskRow
appended now sequence r = record r {
  step_count = sequence;
  updated_at = now;
  resume_required = true;
  resume_after_sequence = sequence;
}

abbrev pub append_to :
    ℕ
    → String
    → String
    → PhysicalToolCall
    → ToolOutcome
    → AgentTask
    → Store
    → Result Error AgentTaskStep × Store
append_to now step_id task_id proposal outcome t s =
    let st = first_step now step_id task_id (t.step_count + 1) proposal outcome in
    then_update st (appended now (t.step_count + 1)) (insert_step st s)

unfoldable pub add_step :
    ℕ
    → String
    → String
    → PhysicalToolCall
    → ToolOutcome
    → Store
    → Result Error AgentTaskStep × Store
add_step now step_id task_id proposal outcome =
    with_active task_id (append_to now step_id task_id proposal outcome)

abbrev pub pending_step :
    ℕ → String → String → ℕ → PhysicalToolCall → String → String → AgentTaskStep
pending_step now step_id task_id sequence proposal run_id tool_call_id = record {
  step_id = step_id;
  task_id = task_id;
  sequence = sequence;
  proposal = proposal;
  outcome = record {
    status = ToolStatus.accepted;
    user_summary = none;
    extra = end;
    operation_id = some run_id;
    retryable = false;
  };
  started_at = now;
  completed_at = none;
  evidence_ids = [];
  status = StepStatus.pending;
  run_id = some run_id;
  tool_call_id = some tool_call_id;
  last_event_sequence = 0;
}

abbrev pub submitted : ℕ → ℕ → TaskRow → TaskRow
submitted now sequence r = record r {
  step_count = sequence;
  updated_at = now;
  resume_required = false;
}

abbrev pub submit_to :
    ℕ
    → String
    → String
    → PhysicalToolCall
    → String
    → String
    → AgentTask
    → Store
    → Result Error AgentTaskStep × Store
submit_to now step_id task_id proposal run_id tool_call_id t s =
    let st = pending_step now step_id task_id (t.step_count + 1) proposal run_id tool_call_id in
    then_update st (submitted now (t.step_count + 1)) (insert_step st s)

unfoldable pub add_pending_step :
    ℕ
    → String
    → String
    → PhysicalToolCall
    → String
    → String
    → Store
    → Result Error AgentTaskStep × Store
add_pending_step now step_id task_id proposal run_id tool_call_id =
    with_active task_id (submit_to now step_id task_id proposal run_id tool_call_id)

-- The arguments of `resolve_pending_step` but the run.
pub record StepReport : Type 0 where
  pub outcome : ToolOutcome
  pub status : StepStatus
  pub event_sequence : ℕ

-- The new columns of a step: the `AgentTaskStep` that the call returns.
abbrev pub resolved : ℕ → StepReport → AgentTaskStep → AgentTaskStep
resolved now e st = record st {
  outcome = e.outcome;
  evidence_ids = evidence_ids st.step_id e.outcome;
  status = e.status;
  completed_at = if is_final e.status then some now else none;
  last_event_sequence = e.event_sequence;
}

abbrev pub woken : ℕ → ℕ → TaskRow → TaskRow
woken now sequence r = record r {
  resume_required = true;
  resume_after_sequence = sequence;
  updated_at = now;
}

unfoldable pub wake : ℕ → AgentTaskStep → StepReport → Store → Store
wake now st e s =
    if is_final e.status then update_active st.task_id (woken now st.sequence) s else s

unfoldable pub find_run : String → Store → Option AgentTaskStep
find_run run s = find (has_run run) s.steps

-- `resolve_pending_step`, and `apply_skill_event`, which only calls it. The two readings of the
-- clock are that for `completed_at` and that for `updated_at`.
unfoldable pub apply_skill_event :
    ℕ → ℕ → String → StepReport → Store → Option AgentTaskStep × Store
apply_skill_event completed_now updated_now run e s = elim (find_run run s) [
  | none ↦ (none, s)
  | some st ↦ if leb e.event_sequence st.last_event_sequence then (none, s) else (
    some (resolved completed_now e st),
    wake updated_now st e
        (record s { steps = update_where (has_run run) (resolved completed_now e) s.steps }),
  )
]

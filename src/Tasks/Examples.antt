-- ===== src/Tasks/Examples.antt =====
-- The theorems of the task layer at concrete stores.
use xbotics_hey_robot.Prelude.{◌≡◌, refl, true, false, none, some, [], ◌∷◌, if◌then◌else◌, is_some}
use xbotics_hey_robot.Prelude.Result.{ok}
use xbotics_hey_robot.Prelude.Value.{end, entry, string}
use xbotics_hey_robot.Protocol.{ToolStatus}
use xbotics_hey_robot.Skills.Models.{SkillPhase, SkillStatus, SkillEvent, SkillResult}
use xbotics_hey_robot.Tasks.Rows.{TaskStatus, StepStatus, AgentTaskStep, empty}
use xbotics_hey_robot.Tasks.Queries.{task_row}
use xbotics_hey_robot.Tasks.Steps.{StepReport, find_run, resolved}
use xbotics_hey_robot.Tasks.Trace.{Op, run_ops}
use xbotics_hey_robot.Tasks.Finality.{run_ops_terminal}
use xbotics_hey_robot.Tasks.Wf.{IsWf}
use xbotics_hey_robot.Tasks.Wf.Operations.{run_ops-IsWf}
use xbotics_hey_robot.Tasks.Coordinator.{Submission, submit, rejected, apply_result, report}
use xbotics_hey_robot.Tasks.Coordinator.Laws.{submit_rejected}
use xbotics_hey_robot.Tasks.Coordinator.Completion.{apply_result-status, status_of, ended_by}
use xbotics_hey_robot.Tasks.Sample.{
  envelope, grasp, create_op, submit_op, opened, pending, busy_row, busy, done_row, ended, broken,
  drawn, opened-IsWf, task_row-opened, find_run-busy, task_row-busy, task_row-ended,
  active_run_ids-opened,
}

run_ops-IsWf_example : IsWf (run_ops (create_op ∷ submit_op ∷ []) empty)
run_ops-IsWf_example = run_ops-IsWf (create_op ∷ submit_op ∷ [])

abbrev moved : StepReport
moved = record {
  outcome = record {
    status = ToolStatus.completed;
    user_summary = some "grasped";
    extra = end;
    operation_id = some "run1";
    retryable = false;
  };
  status = StepStatus.completed;
  event_sequence = 3;
}

run_ops_terminal_example :
    task_row "task1"
      (run_ops (Op.event 30 31 "run1" moved ∷ Op.resume 32 "task1" ∷ create_op ∷ []) ended)
    ≡ some done_row
run_ops_terminal_example =
    run_ops_terminal "task1" done_row refl
      (Op.event 30 31 "run1" moved ∷ Op.resume 32 "task1" ∷ create_op ∷ []) ended task_row-ended

abbrev asked : Submission
asked = record {
  task_id = "task1";
  proposal = grasp;
  envelope = envelope;
  tool_call_id = "call1";
  deadline_at = none;
}

abbrev failed_step : AgentTaskStep
failed_step = resolved 12 (rejected "run1" "no route") pending

submit_rejected_example :
    ((submit broken drawn asked opened).0 ≡ ok failed_step)
    × (find_run "run1" (submit broken drawn asked opened).1 ≡ some failed_step)
submit_rejected_example =
    submit_rejected broken drawn asked opened opened-IsWf task_row-opened refl active_run_ids-opened
      refl refl busy "no route" refl find_run-busy

abbrev won : SkillResult
won = record {
  success = true;
  summary = "stacked";
  status = SkillStatus.completed;
  extra = entry "termination_reason" (string "environment_done") end;
  evidence_ids = [];
  observations = [];
  artifacts = [];
  failure_mode = none;
  error = none;
  observation_error = none;
}

abbrev won_event : SkillEvent
won_event = record {
  envelope = envelope;
  run_id = "run1";
  sequence = 3;
  name = "grasp";
  phase = SkillPhase.completed;
  timestamp = 40;
  progress = none;
  frame_id = none;
  summary = none;
  result = some won;
}

report-won : is_some (report won_event) ≡ true
unfolding report
report-won = refl

apply_result-status_example :
    status_of "task1" (apply_result 41 42 43 won_event busy).1
    ≡ some (if ended_by won_event pending busy_row then TaskStatus.completed else TaskStatus.active)
apply_result-status_example =
    apply_result-status 41 42 43 won_event busy find_run-busy task_row-busy

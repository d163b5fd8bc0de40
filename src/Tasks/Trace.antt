-- ===== src/Tasks/Trace.antt =====
-- Every write of AgentTaskStore as one operation, and the runs of a store. The clock readings and
-- the drawn ids of an operation are its arguments, so a run may have any.
use xbotics_hey_robot.Prelude.{ℕ, String, List, [], ◌∷◌}
use xbotics_hey_robot.Protocol.{Envelope, ToolOutcome, PhysicalToolCall}
use xbotics_hey_robot.Tasks.Rows.{TaskStatus, Store}
use xbotics_hey_robot.Tasks.Updates.{
  TaskRequest, create_task, update_route, pause_task, resume_task, close_task,
  complete_from_environment, control_task,
}
use xbotics_hey_robot.Tasks.Steps.{StepReport, add_step, add_pending_step, apply_skill_event}

pub data Op : Type 0 where
  create : (now : ℕ) (task_id : String) (request : TaskRequest) → Op
  route : (now : ℕ) (task_id : String) (envelope : Envelope) (interaction_id : String) → Op
  append : (now : ℕ) (step_id task_id : String) (call : PhysicalToolCall) (o : ToolOutcome) → Op
  submit :
      (now : ℕ) (step_id task_id : String) (call : PhysicalToolCall) (run_id tool_call_id : String)
      → Op
  event : (completed_now updated_now : ℕ) (run_id : String) (report : StepReport) → Op
  pause : (now : ℕ) (task_id reason : String) → Op
  resume : (now : ℕ) (task_id : String) → Op
  close : (now : ℕ) (task_id recap : String) → Op
  complete : (now : ℕ) (task_id recap : String) → Op
  control : (now : ℕ) (task_id : String) (status : TaskStatus) (reason : String) → Op

-- The store after an operation, whether it returned or raised.
unfoldable pub apply : Op → Store → Store
apply (create now id q) s = (create_task now id q s).1
apply (route now id e i) s = update_route now id e i s
apply (append now step id c o) s = (add_step now step id c o s).1
apply (submit now step id c run call) s = (add_pending_step now step id c run call s).1
apply (event c u run e) s = (apply_skill_event c u run e s).1
apply (pause now id reason) s = pause_task now id reason s
apply (resume now id) s = (resume_task now id s).1
apply (close now id recap) s = close_task now id recap s
apply (complete now id recap) s = complete_from_environment now id recap s
apply (control now id status reason) s = (control_task now id status reason s).1

unfoldable pub run_ops : List Op → Store → Store
run_ops [] s = s
run_ops (op ∷ ops) s = run_ops ops (apply op s)

-- ===== src/Tasks/Sample.antt =====
-- A store with one task, for the examples: as it is opened, with a pending step, and ended.
use xbotics_hey_robot.Prelude.{subst, ◌≡◌, refl, false, none, some, [], ◌∷◌}
use xbotics_hey_robot.Prelude.Value.{end}
use xbotics_hey_robot.Protocol.{Envelope, PhysicalToolCall}
use xbotics_hey_robot.Tasks.Rows.{TaskStatus, TaskRow, AgentTaskStep, Store, empty}
use xbotics_hey_robot.Tasks.Queries.{task_row, current_task, active_task, latest, active_run_ids}
use xbotics_hey_robot.Tasks.Updates.{TaskRequest, create_task, load_created, insert_task, finished}
use xbotics_hey_robot.Tasks.Steps.{find_run, pending_step, submitted}
use xbotics_hey_robot.Tasks.Trace.{Op, apply, run_ops}
use xbotics_hey_robot.Tasks.Wf.{IsWf}
use xbotics_hey_robot.Tasks.Wf.Operations.{run_ops-IsWf}
use xbotics_hey_robot.Tasks.Coordinator.{Client, Drawn}

abbrev pub envelope : Envelope
envelope = record {
  trace_id = "trace";
  episode_id = none;
  turn_id = none;
  channel = some "web";
  account_id = none;
  user_id = none;
  chat_id = none;
  chat_type = none;
  sender_id = none;
  message_id = none;
  reply_to_id = none;
  robot_id = some "arm";
  agent_id = none;
  deployment_id = none;
  timestamp = 5;
}

abbrev pub request : TaskRequest
request = record {
  session_key = "web:1";
  envelope = envelope;
  interaction_id = some "i1";
  objective = "stack the cups";
  ui_summary = "cups";
  deadline_at = none;
}

abbrev pub grasp : PhysicalToolCall
grasp = record { name = "grasp"; arguments = end }

abbrev pub create_op : Op
create_op = Op.create 10 "task1" request

abbrev pub submit_op : Op
submit_op = Op.submit 11 "step1" "task1" grasp "run1" "call1"

abbrev pub open_row : TaskRow
open_row = record {
  task_id = "task1";
  session_key = "web:1";
  envelope = envelope;
  interaction_id = some "i1";
  objective = "stack the cups";
  ui_summary = "cups";
  status = TaskStatus.active;
  created_at = 10;
  updated_at = 10;
  step_count = 0;
  deadline_at = none;
  last_error = none;
  final_recap = none;
  resume_required = false;
  resume_after_sequence = 0;
}

abbrev pub opened : Store
opened = record { tasks = open_row ∷ []; steps = [] }

abbrev pub pending : AgentTaskStep
pending = pending_step 11 "step1" "task1" 1 grasp "run1" "call1"

abbrev pub busy_row : TaskRow
busy_row = submitted 11 1 open_row

abbrev pub busy : Store
busy = record { tasks = busy_row ∷ []; steps = pending ∷ [] }

pub run_ops-opened : run_ops (create_op ∷ []) empty ≡ opened
unfolding run_ops apply create_task current_task active_task latest load_created insert_task
run_ops-opened = refl

pub opened-IsWf : IsWf opened
opened-IsWf = subst IsWf run_ops-opened (run_ops-IsWf (create_op ∷ []))

pub task_row-opened : task_row "task1" opened ≡ some open_row
unfolding task_row
task_row-opened = refl

pub find_run-busy : find_run "run1" busy ≡ some pending
unfolding find_run
find_run-busy = refl

pub task_row-busy : task_row "task1" busy ≡ some busy_row
unfolding task_row
task_row-busy = refl

abbrev pub done_row : TaskRow
done_row = finished 20 TaskStatus.completed none (some "done") busy_row

abbrev pub ended : Store
ended = record { tasks = done_row ∷ []; steps = pending ∷ [] }

pub task_row-ended : task_row "task1" ended ≡ some done_row
unfolding task_row
task_row-ended = refl

abbrev pub steady : Client
steady = record { submit = λ c s. (s, none); status = λ r s. (s, none) }

abbrev pub broken : Client
broken = record { submit = λ c s. (s, some "no route"); status = λ r s. (s, none) }

abbrev pub drawn : Drawn
drawn = record {
  run_id = "run1";
  step_id = "step1";
  trace_id = "trace2";
  now = 11;
  completed_now = 12;
  updated_now = 13;
}

pub active_run_ids-opened : active_run_ids "task1" opened ≡ []
unfolding active_run_ids
active_run_ids-opened = refl

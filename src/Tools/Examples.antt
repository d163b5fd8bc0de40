-- ===== src/Tools/Examples.antt =====
-- The theorems of the tool layer at concrete calls.
use xbotics_hey_robot.Prelude.{◌≡◌, refl, true, false, none, some, [], ◌∷◌}
use xbotics_hey_robot.Prelude.Int.{pos}
use xbotics_hey_robot.Prelude.Result.{ok}
use xbotics_hey_robot.Prelude.Value.{Fields, end, entry, string, number, dict, get_or_null}
use xbotics_hey_robot.Tasks.Rows.{TaskStatus, StepStatus, Store, task_from_row}
use xbotics_hey_robot.Tasks.Queries.{
  active_task, task_row, recent_steps, active_run_ids, has_successful_step,
}
use xbotics_hey_robot.Tasks.Coordinator.Completion.{status_of}
use xbotics_hey_robot.Tasks.Sample.{envelope, busy_row, busy, pending, steady, drawn}
use xbotics_hey_robot.Tools.Schema.{Python, required_error, values_error, validate_arguments}
use xbotics_hey_robot.Tools.Schema.Idempotence.{validate_arguments-again}
use xbotics_hey_robot.Tools.Calls.{AgentResponseCall}
use xbotics_hey_robot.Tools.Executor.{Stops, Draws, Limits, Turn}
use xbotics_hey_robot.Tools.Execute.{respond}
use xbotics_hey_robot.Tools.Execute.Answers.{is_done, respond-status}

abbrev py : Python
py = record { is_int = λ z. true; count = λ n. pos n; contains = λ v w. some false }

abbrev speed_schema : Fields
speed_schema = entry "type" (string "object") (
    entry "properties"
      (dict (
        entry "speed"
          (dict (entry "type" (string "integer") (entry "default" (number (pos 3)) end))) end))
      end)

abbrev at_speed : Fields
at_speed = entry "speed" (number (pos 3)) end

validate-empty : validate_arguments py speed_schema end ≡ ok at_speed
unfolding validate_arguments get_or_null required_error values_error
validate-empty = refl

validate_arguments-again_example : validate_arguments py speed_schema at_speed ≡ ok at_speed
validate_arguments-again_example = validate_arguments-again py speed_schema end validate-empty

abbrev stops : Stops
stops = record { cancel = λ run reason s. (s, none); emergency_stop = λ robot reason s. (s, none) }

abbrev limits : Limits
limits = record {
  hard_max_skills = 4;
  hard_max_wall_time = 100;
  default_robot = λ agent. some "arm";
}

abbrev draws : Draws
draws = record { task_id = "task2"; created_at = 20; closed_at = 21; submission = drawn }

abbrev turn : Turn
turn = record {
  session_key = "web:1";
  envelope = envelope;
  interaction_id = "i2";
  objective = "tea";
  tool_call_id = "call2";
}

abbrev claimed : AgentResponseCall
claimed = record { task_state = "complete"; message = "done" }

abbrev worked : Store
worked = record busy { steps = record pending { status = StepStatus.completed } ∷ [] }

active_task-worked : active_task "web:1" worked ≡ some (task_from_row busy_row)
unfolding active_task
active_task-worked = refl

task_row-worked : task_row "task1" worked ≡ some busy_row
unfolding task_row
task_row-worked = refl

respond-status_example :
    status_of "task1" (respond steady stops limits draws turn claimed worked).1
    ≡ some TaskStatus.completed
unfolding active_run_ids has_successful_step recent_steps is_done
respond-status_example =
    respond-status steady stops limits draws turn claimed worked active_task-worked task_row-worked
      refl refl

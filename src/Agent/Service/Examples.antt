-- ===== src/Agent/Service/Examples.antt =====
-- A restart with one task that waits for its resumption.
use xbotics_hey_robot.Prelude.{true, [], ◌∷◌}
use xbotics_hey_robot.Tasks.Rows.{Store}
use xbotics_hey_robot.Tasks.Sample.{open_row, pending}

abbrev stopped : Store
stopped = record {
  tasks = record open_row { resume_required = true; step_count = 1 } ∷ [];
  steps = pending ∷ [];
}

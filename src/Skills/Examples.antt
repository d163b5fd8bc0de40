-- ===== src/Skills/Examples.antt =====
-- The theorems of the termination policies at a concrete state.
use xbotics_hey_robot.Prelude.{Bool, true, false, ◌&&◌, ◌||◌, eqb}
use xbotics_hey_robot.Prelude.Value.{boolean, dict, end, entry}
use xbotics_hey_robot.Skills.Termination.{Stage, VlaOptionState, model_done, environment_done}

abbrev state : VlaOptionState
state = record {
  stage = Stage.after_actions;
  step_index = 3;
  max_steps = 10;
  model_data = entry "policy_result" (dict (entry "done" (boolean true) end)) end;
  environment_data = end;
  action_count = 4;
}

abbrev by_model : Bool
by_model = model_done state.model_data && (true || (false && eqb 4 0))

abbrev by_environment : Bool
by_environment = environment_done state.model_data || environment_done end

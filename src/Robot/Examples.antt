-- ===== src/Robot/Examples.antt =====
-- The theorems of the robot gates at concrete actions.
use xbotics_hey_robot.Prelude.{
  ◌≡◌, refl, ◌↔◌, String, true, false, not, ◌&&◌, ◌||◌, Option, none, some, [], ◌∷◌,
}
use xbotics_hey_robot.Prelude.Int.{pos}
use xbotics_hey_robot.Prelude.Float.{Float, finite}
use xbotics_hey_robot.Prelude.Result.{ok}
use xbotics_hey_robot.Prelude.Value.{
  Value, Fields, boolean, number, string, dict, end, entry, get_or_null, truthy,
}
use xbotics_hey_robot.Prelude.Text.{strip, lower}
use xbotics_hey_robot.Protocol.{Envelope}
use xbotics_hey_robot.Robot.Types.{
  RobotActionSpec, RobotStatus, RobotAction, RobotCapabilities, RobotHealth,
}
use xbotics_hey_robot.Robot.Gate.{
  is_set, missing_required_arguments, acceptance_decision, has_global_resource,
  normalized_resources, instance_resources, text_of,
}
use xbotics_hey_robot.Robot.Gate.Admission.{is_ready, is_fit, acceptance_decision-allowed}
use xbotics_hey_robot.Robot.Safety.{allowed, evaluate_action}
use xbotics_hey_robot.Robot.Safety.Soundness.{IsSafe, evaluate_action_iff}

abbrev repr : Value → String
repr v = "value"

abbrev parse : String → Option Float
parse s = none

abbrev no_envelope : Envelope
no_envelope = record {
  trace_id = "trace";
  episode_id = none;
  turn_id = none;
  channel = none;
  account_id = none;
  user_id = none;
  chat_id = none;
  chat_type = none;
  sender_id = none;
  message_id = none;
  reply_to_id = none;
  robot_id = some "arm";
  agent_id = none;
  deployment_id = none;
  timestamp = 0;
}

abbrev grasp : RobotActionSpec
grasp = record {
  name = "grasp";
  parameters = end;
  resources = "arm" ∷ "gripper" ∷ [];
  motion = true;
}

abbrev go : RobotActionSpec
go = record { name = "go"; parameters = end; resources = "robot" ∷ []; motion = true }

abbrev in_error : RobotStatus
in_error = record {
  envelope = no_envelope;
  frame_id = none;
  state = "error";
  task = none;
  skill_id = none;
  success = none;
  error = some "lost";
  metrics = entry "battery" (dict (entry "status" (string "normal") end)) end;
}

abbrev ready : Fields
ready = entry "arm" (boolean true) (entry "gripper" (boolean true) end)

acceptance_decision-allowed_example :
    (acceptance_decision repr grasp (some in_error) ready end).allowed ≡ (
      not (is_set (missing_required_arguments repr grasp end))
      && (false || (is_ready repr grasp ready end && is_fit repr grasp (some in_error))))
acceptance_decision-allowed_example =
    acceptance_decision-allowed repr grasp (some in_error) ready end

abbrev left_arm : Fields
left_arm = entry "arm" (string "left") end

drive_global : has_global_resource (normalized_resources repr go end) ≡ true
unfolding has_global_resource normalized_resources instance_resources strip lower text_of
    get_or_null truthy
drive_global = refl

abbrev action : RobotAction
action = record {
  envelope = no_envelope;
  values = finite (pos 3) ∷ Float.not_a_number ∷ [];
  action_id = "a1";
  skill_id = "s1";
  task_id = "t1";
  timestamp = 7;
  metadata = end;
}

abbrev capabilities : RobotCapabilities
capabilities = record {
  robot_id = "arm";
  driver_type = "mock";
  action_dimensions = some 2;
  metadata = entry "max_abs_action" (number (pos 10)) end;
}

abbrev health : RobotHealth
health = record {
  robot_id = "arm";
  online = true;
  state = "idle";
  frame_id = none;
  error = none;
  metrics = end;
}

evaluate_action_iff_example :
    evaluate_action repr parse action capabilities health ≡ ok allowed
    ↔ IsSafe repr parse action capabilities health
evaluate_action_iff_example = evaluate_action_iff repr parse action capabilities health

-- ===== src/Robot/Types.antt =====
-- The records that the robot gates read: RobotActionSpec, RobotCapabilities and RobotHealth of
-- src/hey_robot/robot_api/driver.py, RobotStatus and RobotAction of
-- src/hey_robot/protocol/messages.py.
use xbotics_hey_robot.Prelude.{ℕ, String, Bool, Option, List, map}
use xbotics_hey_robot.Prelude.Float.{Float}
use xbotics_hey_robot.Prelude.Value.{Fields, boolean, string, array, dict, end, entry, from_list}
use xbotics_hey_robot.Protocol.{Envelope}

pub record RobotActionSpec : Type 0 where
  pub name : String
  pub parameters : Fields
  pub resources : List String
  pub motion : Bool

unfoldable pub to_dict : RobotActionSpec → Fields
unfolding from_list
to_dict c = entry "name" (string c.name) (
    entry "parameters" (dict c.parameters) (
      entry "resources" (array (from_list (map string c.resources)))
        (entry "motion" (boolean c.motion) end)))

-- `state` is the text of the status; protocol/messages.py declares five values for it.
pub record RobotStatus : Type 0 where
  pub envelope : Envelope
  pub frame_id : Option ℕ
  pub state : String
  pub task : Option String
  pub skill_id : Option String
  pub success : Option Bool
  pub error : Option String
  pub metrics : Fields

pub record RobotAction : Type 0 where
  pub envelope : Envelope
  pub values : List Float
  pub action_id : String
  pub skill_id : String
  pub task_id : String
  pub timestamp : ℕ
  pub metadata : Fields

pub record RobotCapabilities : Type 0 where
  pub robot_id : String
  pub driver_type : String
  pub action_dimensions : Option ℕ
  pub metadata : Fields

pub record RobotHealth : Type 0 where
  pub robot_id : String
  pub online : Bool
  pub state : String
  pub frame_id : Option ℕ
  pub error : Option String
  pub metrics : Fields

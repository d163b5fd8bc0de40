-- ===== src/Protocol.antt =====
-- The message types of src/hey_robot/protocol/messages.py that the task layer keeps, and the
-- physical call of src/hey_robot/cognition/tools/models.py. Times are ticks of a clock.
use xbotics_hey_robot.Prelude.{ℕ, String, Bool, Option, some, if◌then◌else◌, or_else}
use xbotics_hey_robot.Prelude.Text.{truthy_text}
use xbotics_hey_robot.Prelude.Value.{Fields}

pub record Envelope : Type 0 where
  pub trace_id : String
  pub episode_id : Option String
  pub turn_id : Option String
  pub channel : Option String
  pub account_id : Option String
  pub user_id : Option String
  pub chat_id : Option String
  pub chat_type : Option String
  pub sender_id : Option String
  pub message_id : Option String
  pub reply_to_id : Option String
  pub robot_id : Option String
  pub agent_id : Option String
  pub deployment_id : Option String
  pub timestamp : ℕ

-- `envelope.child(robot_id=...)`, with the trace id to draw where the envelope has none.
unfoldable pub child : Envelope → String → String → Envelope
child e robot_id new_trace_id = record e {
  robot_id = some robot_id;
  trace_id = if truthy_text e.trace_id then e.trace_id else new_trace_id;
}

-- The robot of an envelope, `envelope.robot_id or ""`.
abbrev pub robot_of : Envelope → String
robot_of e = or_else e.robot_id ""

pub data ToolStatus : Type 0 where
  completed failed waiting accepted : ToolStatus

pub record ToolOutcome : Type 0 where
  pub status : ToolStatus
  pub user_summary : Option String
  pub extra : Fields  -- the field `data`
  pub operation_id : Option String
  pub retryable : Bool

pub record PhysicalToolCall : Type 0 where
  pub name : String
  pub arguments : Fields

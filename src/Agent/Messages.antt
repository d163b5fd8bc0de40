-- ===== src/Agent/Messages.antt =====
-- The messages exchanged with a language model, src/hey_robot/model/types.py, without images,
-- which the agent never sends, and the failures of src/hey_robot/protocol/messages.py. The model is a
-- parameter: while its answer is awaited, others may change the task store.
use xbotics_hey_robot.Prelude.{ℕ, String, Option, none, List, []}
use xbotics_hey_robot.Prelude.Value.{Fields}
use xbotics_hey_robot.Tasks.Rows.{Store}

pub data Role : Type 0 where
  system user assistant tool : Role

pub record ModelToolCall : Type 0 where
  pub id : String
  pub name : String
  pub arguments : Fields
  pub metadata : Fields

pub record ModelMessage : Type 0 where
  pub role : Role
  pub content : String
  pub tool_call_id : Option String
  pub tool_calls : List ModelToolCall

abbrev pub message : Role → String → ModelMessage
message role content = record {
  role = role;
  content = content;
  tool_call_id = none;
  tool_calls = [];
}

pub record ModelResponse : Type 0 where
  pub content : Option String
  pub tool_calls : List ModelToolCall
  pub finish_reason : String
  pub usage : Fields

pub record FailurePayload : Type 0 where
  pub stage : String
  pub code : String
  pub component : String
  pub text : String  -- the field `message`
  pub details : Fields

-- What becomes of an awaited request: an answer, a timeout, or another exception with its text.
pub data Reply : Type 0 where
  answered : ModelResponse → Reply
  timed_out : Reply
  failed : String → Reply

-- `model.chat` under `asyncio.wait_for`: the messages, the tools and the time left.
abbrev pub Chat : Type 0
Chat = List ModelMessage → List Fields → ℕ → Store → Store × Reply

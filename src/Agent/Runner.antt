-- ===== src/Agent/Runner.antt =====
-- AgentRunner, src/hey_robot/cognition/runtime/agent_runner.py: one decision of the model, as text
-- or as one prepared call. The clock is in milliseconds.
pub mod Laws
use xbotics_hey_robot.Prelude.{
  ℕ, ◌-◌, String, Bool, true, false, not, ◌&&◌, Option, none, some, List, [], ◌∷◌, all, find, map,
  if◌then◌else◌, leb, ltb, ◌==◌, or_else,
}
use xbotics_hey_robot.Prelude.Result.{Result, ok, raise}
use xbotics_hey_robot.Prelude.Text.{strip, has, truthy_text}
use xbotics_hey_robot.Prelude.Value.{Value, Fields, end, string, dict, get_or_null}
use xbotics_hey_robot.Tasks.Rows.{Store}
use xbotics_hey_robot.Tasks.Coordinator.{is_nil}
use xbotics_hey_robot.Tools.Schema.{Python}
use xbotics_hey_robot.Tools.Calls.{
  PreparedCall, PrepareError, unknown_tool, invalid_arguments, Registry, definitions, prepare,
}
use xbotics_hey_robot.Agent.Messages.{
  ModelToolCall, ModelMessage, ModelResponse, FailurePayload, Reply, Chat,
}

pub record AgentTurnRequest : Type 0 where
  pub messages : List ModelMessage
  pub allowed_tools : List String
  pub deadline : ℕ
  pub run_id : String

pub record AgentToolCallRecord : Type 0 where
  pub tool_call_id : String
  pub name : String
  pub arguments : Fields

pub data TurnStatus : Type 0 where
  returned action_proposed failed : TurnStatus

pub record AgentTurnResult : Type 0 where
  pub status : TurnStatus
  pub final_text : Option String
  pub stop_reason : String
  pub tool_calls : List AgentToolCallRecord
  pub proposal : Option PreparedCall
  pub failure : Option FailurePayload
  pub usage : Fields

-- `_failure`
abbrev pub failure : String → String → String → List AgentToolCallRecord → AgentTurnResult
failure stage code text calls = record {
  status = TurnStatus.failed;
  final_text = none;
  stop_reason = code;
  tool_calls = calls;
  proposal = none;
  failure = some (record {
    stage = stage;
    code = code;
    component = "AgentRunner";
    text = text;
    details = end;
  });
  usage = end;
}

-- The name under which a definition is offered, where it has one.
abbrev pub function_name : Fields → Option String
function_name definition = elim (get_or_null definition "function") [
  | dict function ↦ elim (get_or_null function "name") [ string name ↦ some name | _ ↦ none ]
  | _ ↦ none
]

-- `by_name[name] = definition`
unfoldable pub put_definition : String → Fields → List (String × Fields) → List (String × Fields)
put_definition name definition [] = (name, definition) ∷ []
put_definition name definition ((other, kept) ∷ rest) =
    let later = put_definition name definition rest in
    if other == name then (other, definition) ∷ rest else (other, kept) ∷ later

unfoldable pub by_name : List (String × Fields) → List Fields → List (String × Fields)
unfolding put_definition
by_name found [] = found
by_name found (definition ∷ rest) =
    by_name
      (elim (function_name definition) [
        | none ↦ found
        | some name ↦ put_definition name definition found
      ])
      rest

unfoldable pub chosen : List String → List (String × Fields) → List Fields
chosen allowed [] = []
chosen allowed ((name, definition) ∷ rest) =
    let later = chosen allowed rest in if has allowed name then definition ∷ later else later

-- `_allowed_definitions`
unfoldable pub allowed_definitions : Registry → List String → Option (List Fields)
unfolding by_name chosen
allowed_definitions registry allowed =
    let found = by_name [] (definitions registry) in
    if all (has (map (λ p. p.0) found)) allowed then some (chosen allowed found) else none

abbrev pub call_record : ModelToolCall → AgentToolCallRecord
call_record call = record { tool_call_id = call.id; name = call.name; arguments = call.arguments }

abbrev pub content_of : ModelResponse → String
content_of response = or_else response.content ""

abbrev pub content_or : ModelResponse → String → String
content_or response d = let text = content_of response in if truthy_text text then text else d

module _ (py : Python) (prepare_text : PrepareError → String) (registry : Registry) where
  abbrev pub proposed :
      AgentToolCallRecord → Fields → Result PrepareError PreparedCall → AgentTurnResult
  proposed call usage (raise e) =
      failure "TOOL_VALIDATION" "INVALID_TOOL_ARGUMENTS" (prepare_text e) (call ∷ [])
  proposed call usage (ok proposal) = record {
    status = TurnStatus.action_proposed;
    final_text = none;
    stop_reason = "stop_slice";
    tool_calls = call ∷ [];
    proposal = some proposal;
    failure = none;
    usage = usage;
  }

  abbrev pub read_call : List String → ModelToolCall → Fields → AgentTurnResult
  read_call allowed call usage =
      if not (has allowed call.name)
      then failure "TOOL_VALIDATION" "UNKNOWN_TOOL" call.name (call_record call ∷ [])
      else proposed (call_record call) usage (prepare py registry call.name call.arguments)

  abbrev pub read_text : String → Fields → AgentTurnResult
  read_text text usage =
      if not (truthy_text text)
      then failure "MODEL_PROTOCOL" "EMPTY_MODEL_RESPONSE"
          "model returned neither text nor a tool call" []
      else record {
        status = TurnStatus.returned;
        final_text = some text;
        stop_reason = "model_returned";
        tool_calls = [];
        proposal = none;
        failure = none;
        usage = usage;
      }

  abbrev pub read_calls : List String → ModelResponse → List ModelToolCall → AgentTurnResult
  read_calls allowed response [] = read_text (strip (content_of response)) response.usage
  read_calls allowed response (call ∷ []) = read_call allowed call response.usage
  read_calls allowed response (call ∷ other ∷ rest) =
      failure "MODEL_PROTOCOL" "MULTIPLE_ACTION_PROPOSALS" "model returned multiple tool calls" []

  -- What `run` makes of the answer.
  unfoldable pub read_response : List String → ModelResponse → AgentTurnResult
  read_response allowed response =
      if response.finish_reason == "error"
      then failure "MODEL_REQUEST" "MODEL_ERROR" (content_or response "model returned an error") []
      else read_calls allowed response response.tool_calls

  abbrev pub read_reply : List String → Reply → AgentTurnResult
  read_reply allowed (Reply.answered response) = read_response allowed response
  read_reply allowed Reply.timed_out =
      failure "MODEL_REQUEST" "MODEL_TIMEOUT" "model request timed out" []
  read_reply allowed (Reply.failed text) = failure "MODEL_REQUEST" "MODEL_ERROR" text []

  -- `AgentRunner.run`. `checked` and `sent` are the two readings of the clock.
  unfoldable pub run : Chat → ℕ → ℕ → AgentTurnRequest → Store → Store × AgentTurnResult
  unfolding read_response
  run chat checked sent request s =
      if is_nil request.messages
      then (
        s,
        failure "CONTEXT_BUILD" "INVALID_MODEL_MESSAGES" "messages must contain ModelMessage values"
            [],
      )
      else elim (allowed_definitions registry request.allowed_tools) [
        | none ↦ (
          s,
          failure "CONTEXT_BUILD" "INVALID_TOOL_SET"
              "allowed tools are not present in the configured registry" [],
        )
        | some tools ↦
            if leb request.deadline checked
            then (s, failure "MODEL_REQUEST" "MODEL_TIMEOUT" "decision deadline elapsed" [])
            else let left = request.deadline - sent in
              let (s', reply) = chat request.messages tools (if ltb left 1 then 1 else left) s in
              (s', read_reply request.allowed_tools reply)
      ]

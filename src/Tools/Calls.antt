-- ===== src/Tools/Calls.antt =====
-- The prepared calls of src/hey_robot/cognition/tools/models.py, the tool that answers the user,
-- cognition/tools/agent_response.py, and ToolRegistry, cognition/tools/registry.py. `repr` is
-- Python's `str` of a value that is no text.
use xbotics_hey_robot.Prelude.{
  String, Bool, false, not, ◌||◌, Option, none, some, List, [], ◌∷◌, ◌++◌, map, if◌then◌else◌, ◌==◌,
  find, any,
}
use xbotics_hey_robot.Prelude.Result.{Result, ok, raise}
use xbotics_hey_robot.Prelude.Text.{strip, truthy_text}
use xbotics_hey_robot.Prelude.Value.{
  Value, Fields, boolean, number, string, array, dict, end, entry, from_list, get_or_null,
}
use xbotics_hey_robot.Protocol.{ToolOutcome, PhysicalToolCall}
use xbotics_hey_robot.Tools.Schema.{Python, SchemaError, validate_arguments}

-- `task_state` is one of none, wait, complete and cancel.
pub record AgentResponseCall : Type 0 where
  pub task_state : String
  pub message : String

-- A call bound to its handler, whose answer is an outcome or the text of what it raised.
pub record HarnessToolCall : Type 0 where
  pub name : String
  pub run : Result String ToolOutcome

pub data PreparedCall : Type 0 where
  physical : PhysicalToolCall → PreparedCall
  response : AgentResponseCall → PreparedCall
  harness : HarnessToolCall → PreparedCall

-- What `prepare` raises: KeyError, or the ValueError of the schema.
pub data PrepareError : Type 0 where
  unknown_tool : String → PrepareError
  invalid_arguments : SchemaError → PrepareError

pub record ToolSpec : Type 0 where
  pub name : String
  pub description : String
  pub parameters : Fields

-- `ToolSpec.definition`
unfoldable pub definition : ToolSpec → Fields
definition s = entry "type" (string "function") (
    entry "function"
      (dict (
        entry "name" (string s.name) (
          entry "description" (string s.description) (entry "parameters" (dict s.parameters) end))))
      end)

pub record AgentTool : Type 0 where
  pub name : String
  pub schema : Fields
  pub prepare : Fields → Result PrepareError PreparedCall

abbrev pub state_names : List String
state_names = "none" ∷ "wait" ∷ "complete" ∷ "cancel" ∷ []

abbrev pub response_parameters : Python → Fields
response_parameters py = entry "type" (string "object") (
    entry "properties"
      (dict (
        entry "task_state"
          (dict (
            entry "type" (string "string")
              (entry "enum" (array (from_list (map string state_names))) end)))
          (entry "message"
            (dict (entry "type" (string "string") (entry "minLength" (number (py.count 1)) end)))
            end)))
      (entry "required" (array (from_list (string "task_state" ∷ string "message" ∷ [])))
        (entry "additionalProperties" (boolean false) end)))

abbrev pub text_at : (Value → String) → Fields → String → String
text_at repr d k = elim (get_or_null d k) [ string s ↦ s | v ↦ repr v ]

abbrev pub prepared :
    Result SchemaError Fields → (Fields → PreparedCall) → Result PrepareError PreparedCall
prepared (raise e) f = raise (invalid_arguments e)
prepared (ok d) f = ok (f d)

module _ (py : Python) (repr : Value → String) where
  -- `AgentResponseTool.prepare`
  unfoldable pub prepare_response : Fields → Result PrepareError PreparedCall
  prepare_response arguments =
      prepared (validate_arguments py (response_parameters py) arguments) λ d.
        PreparedCall.response (record {
          task_state = text_at repr d "task_state";
          message = strip (text_at repr d "message");
        })

pub record Registry : Type 0 where
  pub skills : List ToolSpec
  pub tools : List AgentTool

-- `__init__`: none where it raises. The texts of the errors are left out.
abbrev pub skill_named : String → ToolSpec → Bool
skill_named name s = s.name == name

abbrev pub tool_named : String → AgentTool → Bool
tool_named name t = t.name == name

unfoldable pub has_repeats : List ToolSpec → Bool
has_repeats [] = false
has_repeats (s ∷ ss) = any (skill_named s.name) ss || has_repeats ss

unfoldable pub clashes : List ToolSpec → List AgentTool → List AgentTool → Bool
clashes skills seen [] = false
clashes skills seen (t ∷ ts) =
    not (truthy_text t.name)
    || any (tool_named t.name) seen
    || any (skill_named t.name) skills
    || clashes skills (t ∷ seen) ts

unfoldable pub make_registry : List ToolSpec → List AgentTool → Option Registry
unfolding has_repeats clashes
make_registry skills tools =
    if has_repeats skills || clashes skills [] tools
    then none
    else some (record { skills = skills; tools = tools })

unfoldable pub definitions : Registry → List Fields
unfolding definition
definitions r = map definition r.skills ++ map (λ t. t.schema) r.tools

unfoldable pub tool_names : Registry → List String
tool_names r = map (λ s. s.name) r.skills ++ map (λ t. t.name) r.tools

-- `ToolRegistry.prepare`
unfoldable pub prepare : Python → Registry → String → Fields → Result PrepareError PreparedCall
prepare py r name arguments = elim (find (skill_named name) r.skills) [
  | some s ↦
      prepared (validate_arguments py s.parameters arguments)
        λ d. PreparedCall.physical (record { name = name; arguments = d })
  | none ↦ elim (find (tool_named name) r.tools) [
    | some t ↦ t.prepare arguments
    | none ↦ raise (unknown_tool name)
  ]
]

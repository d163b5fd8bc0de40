-- ===== src/Agent/Sample.antt =====
-- An agent with one skill, and models for it: one that calls the skill and two that talk.
use xbotics_hey_robot.Prelude.{
  ◌≡◌, refl, ℕ, String, true, false, none, some, List, [], ◌∷◌, ltb, if◌then◌else◌,
}
use xbotics_hey_robot.Prelude.Int.{pos}
use xbotics_hey_robot.Prelude.Value.{Fields, end, entry, string}
use xbotics_hey_robot.Tasks.Sample.{envelope, steady, drawn}
use xbotics_hey_robot.Tools.Schema.{Python}
use xbotics_hey_robot.Tools.Calls.{definition, PrepareError, Registry, ToolSpec}
use xbotics_hey_robot.Tools.Executor.{Stops, Limits}
use xbotics_hey_robot.Agent.Messages.{
  Role, ModelToolCall, ModelMessage, ModelResponse, Reply, Chat, message,
}
use xbotics_hey_robot.Agent.Context.{Printing}
use xbotics_hey_robot.Agent.Drive.{Parts, Wakeup, Ticks}
use xbotics_hey_robot.Agent.Drive.Turns.{is_talk}
use xbotics_hey_robot.Agent.Runner.{allowed_definitions}
use xbotics_hey_robot.Prelude.Text.{strip, has}
use xbotics_hey_robot.Prelude.Value.{get_or_null}
use xbotics_hey_robot.Tools.Calls.{tool_names, definitions}

abbrev pub py : Python
py = record { is_int = λ z. true; count = λ n. pos n; contains = λ v w. some false }

abbrev pub grasp_spec : ToolSpec
grasp_spec = record {
  name = "grasp";
  description = "take the cup";
  parameters = entry "type" (string "object") end;
}

abbrev pub registry : Registry
registry = record { skills = grasp_spec ∷ []; tools = [] }

abbrev pub stops : Stops
stops = record { cancel = λ run reason s. (s, none); emergency_stop = λ robot reason s. (s, none) }

-- Every task has one step.
abbrev pub one_step : Limits
one_step = record {
  hard_max_skills = 1;
  hard_max_wall_time = 100;
  default_robot = λ agent. some "arm";
}

abbrev pub printing : Printing
printing = record { render = λ name values. name; dumps = λ d. "{}" }

abbrev pub bad : PrepareError → String
bad e = "bad arguments"

abbrev pub parts : Parts
parts = record {
  py = py;
  prepare_text = bad;
  registry = registry;
  printing = printing;
  client = steady;
  stops = stops;
  limits = one_step;
}

abbrev pub wakeup : Wakeup
wakeup = record {
  session_key = "web:1";
  envelope = envelope;
  interaction_id = "i2";
  objective = "stack the cups";
}

abbrev pub ticks : ℕ → Ticks
ticks k = record {
  wall = 11;
  closed_at = 12;
  timed_at = 11;
  monotonic = 5;
  checked = 5;
  sent = 6;
  draws = record { task_id = "task2"; created_at = 20; closed_at = 21; submission = drawn };
}

abbrev pub hello : ModelMessage
hello = message Role.user "stack the cups"

abbrev pub grasp_call : ModelToolCall
grasp_call = record { id = "call1"; name = "grasp"; arguments = end; metadata = end }

abbrev pub acts : ModelResponse
acts = record {
  content = none;
  tool_calls = grasp_call ∷ [];
  finish_reason = "tool_calls";
  usage = end;
}

abbrev pub talks : ModelResponse
talks = record { content = some "hm"; tool_calls = []; finish_reason = "stop"; usage = end }

abbrev pub acting : ℕ → Chat
acting k messages tools left s = (s, Reply.answered acts)

abbrev pub talking : ℕ → Chat
talking k messages tools left s = (s, Reply.answered talks)

-- A model that is silent after its first eight answers.
abbrev pub ending : ℕ → Chat
ending k messages tools left s = (s, if ltb k 8 then Reply.answered talks else Reply.timed_out)

abbrev pub definition_list : List Fields
definition_list = definition grasp_spec ∷ []

pub allowed-registry : allowed_definitions registry (tool_names registry) ≡ some definition_list
unfolding allowed_definitions tool_names has definitions get_or_null
allowed-registry = refl

pub talks_said : is_talk talks ≡ true
unfolding strip
talks_said = refl

-- ===== src/Skills/Runner/Examples.antt =====
-- The theorems of the runner at one command.
use xbotics_hey_robot.Prelude.{ℕ, ◌≡◌, ◌⊎◌, refl, true, some, none, [], ◌∷◌, length}
use xbotics_hey_robot.Prelude.Int.{pos}
use xbotics_hey_robot.Prelude.Result.{ok, raise}
use xbotics_hey_robot.Prelude.Text.{has}
use xbotics_hey_robot.Prelude.Value.{end, entry, string, get_or_null}
use xbotics_hey_robot.Skills.Models.{SkillStatus, SkillResult, SkillCommand, to_tool_outcome}
use xbotics_hey_robot.Tasks.Rows.{StepStatus, AgentTaskStep}
use xbotics_hey_robot.Tasks.Steps.{find_run}
use xbotics_hey_robot.Tasks.Sample.{envelope, busy, find_run-busy}
use xbotics_hey_robot.Tools.Schema.{
  Python, SchemaError, validate_arguments, required_error, values_error,
}
use xbotics_hey_robot.Skills.Runner.{Skill, Runner, Texts, End, execute}
use xbotics_hey_robot.Skills.Runner.Sequence.{IsDone, execute_ends}
use xbotics_hey_robot.Skills.Runner.Reports.{apply_all, execute_reported}

abbrev py : Python
py = record { is_int = λ z. true; count = λ n. pos n; contains = λ v w. none }

-- What the handler returns: a success under the status of a failure.
abbrev held : SkillResult
held = record {
  success = true;
  summary = "held";
  status = SkillStatus.failed;
  extra = end;
  evidence_ids = [];
  observations = [];
  artifacts = [];
  failure_mode = none;
  error = none;
  observation_error = none;
}

abbrev normal : SkillResult
normal = record held { status = SkillStatus.completed }

abbrev grasp_skill : Skill
grasp_skill = record {
  name = "grasp";
  parameters = entry "type" (string "object") end;
  timeout = 3000;
  handler = λ left arguments. record {
    progress = (50, some "closing") ∷ (90, none) ∷ [];
    outcome = End.returned held;
  };
}

abbrev command : SkillCommand
command = record {
  envelope = envelope;
  run_id = "run1";
  task_id = "task1";
  robot_id = "arm";
  name = "grasp";
  arguments = end;
  deadline_at = none;
}

abbrev texts : Texts
texts = record { unknown = λ name. "unknown"; invalid = λ e. "invalid" }

abbrev idle : Runner
idle = record { cancelled = []; sequences = λ run. 0 }

abbrev clock : ℕ → ℕ
clock n = n

execute_ends_example :
    let m = execute clock py texts (grasp_skill ∷ []) 5 command idle in
    ((result : SkillResult) × IsDone clock command m result)
    ⊎ (m ≡ (raise SchemaError.type_error, record { events = []; runner = idle }))
execute_ends_example = execute_ends clock command py texts (grasp_skill ∷ []) 5 idle refl

execute-grasp : (execute clock py texts (grasp_skill ∷ []) 5 command idle).0 ≡ ok normal
unfolding execute validate_arguments get_or_null required_error values_error has
execute-grasp = refl

execute_reported_example :
    let t = (execute clock py texts (grasp_skill ∷ []) 5 command idle).1 in
    (st' : AgentTaskStep) × (find_run "run1" (apply_all 7 8 9 t.events busy) ≡ some st')
    × (st'.status ≡ StepStatus.completed)
    × (st'.outcome ≡ to_tool_outcome normal "run1")
    × (st'.last_event_sequence ≡ length t.events)
execute_reported_example =
    execute_reported 7 8 9 clock py texts (grasp_skill ∷ []) 5 command idle busy refl execute-grasp
      find_run-busy refl

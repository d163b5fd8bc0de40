-- ===== src/Tasks/Rows.antt =====
-- The tables of AgentTaskStore and the values it returns. A row of `sustained_tasks` is a
-- `TaskRow`, and its public view is `AgentTask`; a row of `task_steps` has the fields of the
-- public `AgentTaskStep`. The columns that hold JSON hold the decoded value here.
use xbotics_hey_robot.Prelude.{
  ℕ, String, Bool, true, false, not, ◌&&◌, ◌||◌, Option, none, some, List, [], ◌∷◌, ◌++◌,
  if◌then◌else◌, ◌==◌,
}
use xbotics_hey_robot.Prelude.Text.{strip, truthy_text, concat, has}
use xbotics_hey_robot.Prelude.Value.{Value, string, iterated, get_or_null}
use xbotics_hey_robot.Protocol.{Envelope, ToolOutcome, PhysicalToolCall}

pub data TaskStatus : Type 0 where
  active paused completed blocked cancelled failed : TaskStatus

pub data StepStatus : Type 0 where
  pending running completed failed cancelled : StepStatus

-- `status IN TERMINAL_STATUSES`
abbrev pub is_terminal : TaskStatus → Bool
is_terminal TaskStatus.active = false
is_terminal TaskStatus.paused = false
is_terminal _ = true

abbrev pub is_active : TaskStatus → Bool
is_active TaskStatus.active = true
is_active _ = false

abbrev pub is_paused : TaskStatus → Bool
is_paused TaskStatus.paused = true
is_paused _ = false

-- `status in {"completed", "failed", "cancelled"}`
abbrev pub is_final : StepStatus → Bool
is_final StepStatus.pending = false
is_final StepStatus.running = false
is_final _ = true

abbrev pub is_completed : StepStatus → Bool
is_completed StepStatus.completed = true
is_completed _ = false

pub record TaskRow : Type 0 where
  pub task_id : String
  pub session_key : String
  pub envelope : Envelope
  pub interaction_id : Option String
  pub objective : String
  pub ui_summary : String
  pub status : TaskStatus
  pub created_at : ℕ
  pub updated_at : ℕ
  pub step_count : ℕ
  pub deadline_at : Option ℕ
  pub last_error : Option String
  pub final_recap : Option String
  pub resume_required : Bool
  pub resume_after_sequence : ℕ

pub record AgentTask : Type 0 where
  pub task_id : String
  pub session_key : String
  pub envelope : Envelope
  pub objective : String
  pub ui_summary : String
  pub status : TaskStatus
  pub created_at : ℕ
  pub updated_at : ℕ
  pub step_count : ℕ
  pub deadline_at : Option ℕ
  pub last_error : Option String
  pub final_recap : Option String

abbrev pub task_from_row : TaskRow → AgentTask
task_from_row r = record {
  task_id = r.task_id;
  session_key = r.session_key;
  envelope = r.envelope;
  objective = r.objective;
  ui_summary = r.ui_summary;
  status = r.status;
  created_at = r.created_at;
  updated_at = r.updated_at;
  step_count = r.step_count;
  deadline_at = r.deadline_at;
  last_error = r.last_error;
  final_recap = r.final_recap;
}

pub record AgentTaskStep : Type 0 where
  pub step_id : String
  pub task_id : String
  pub sequence : ℕ
  pub proposal : PhysicalToolCall
  pub outcome : ToolOutcome
  pub started_at : ℕ
  pub completed_at : Option ℕ
  pub evidence_ids : List String
  pub status : StepStatus
  pub run_id : Option String
  pub tool_call_id : Option String
  pub last_event_sequence : ℕ

pub record Store : Type 0 where
  pub tasks : List TaskRow
  pub steps : List AgentTaskStep

abbrev pub empty : Store
empty = record { tasks = []; steps = [] }

-- `status IN ('active', 'paused')`
abbrev pub is_open : TaskStatus → Bool
is_open s = is_active s || is_paused s

abbrev pub has_id : String → TaskRow → Bool
has_id id r = r.task_id == id

-- The condition of the partial index `one_open_sustained_task`, at one session.
abbrev pub open_in : String → TaskRow → Bool
open_in session r = r.session_key == session && is_open r.status

abbrev pub has_step_id : String → AgentTaskStep → Bool
has_step_id id st = st.step_id == id

abbrev pub of_task : String → AgentTaskStep → Bool
of_task id st = st.task_id == id

abbrev pub has_run : String → AgentTaskStep → Bool
has_run run st = elim st.run_id [ none ↦ false | some r ↦ r == run ]

-- `status IN ('pending', 'running')`
abbrev pub is_live : AgentTaskStep → Bool
is_live st = not (is_final st.status)

-- `dict.fromkeys(ids)`: the first occurrence of each text, in order.
distinct_from : List String → List String → List String
unfolding has
distinct_from seen [] = []
distinct_from seen (s ∷ rest) =
    let kept = s ∷ distinct_from (s ∷ seen) rest in
    let skipped = distinct_from seen rest in elim (has seen s) [ true ↦ skipped | false ↦ kept ]

-- `[item.strip() for item in data if isinstance(item, str) and item.strip()]`
stripped_texts : List Value → List String
unfolding strip
stripped_texts [] = []
stripped_texts (string s ∷ vs) =
    let rest = stripped_texts vs in if truthy_text (strip s) then strip s ∷ rest else rest
stripped_texts (_ ∷ vs) = stripped_texts vs

tool_id : Option String → List String
tool_id none = []
tool_id (some s) = let id = concat "tool:" s in if truthy_text s then id ∷ [] else []

unfoldable pub evidence_ids : String → ToolOutcome → List String
unfolding distinct_from stripped_texts iterated get_or_null tool_id
evidence_ids step_id o = distinct_from [] (
    concat "step:" step_id
    ∷ (tool_id o.operation_id ++ stripped_texts (iterated (get_or_null o.extra "evidence_ids"))))

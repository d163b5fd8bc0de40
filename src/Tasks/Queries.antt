-- ===== src/Tasks/Queries.antt =====
-- The SELECT statements of AgentTaskStore. Among rows with equal sort keys SQL may answer in any
-- order; the model fixes one.
use xbotics_hey_robot.Prelude.{
  ℕ, String, Bool, true, false, not, ◌&&◌, ◌||◌, Option, none, some, List, [], ◌∷◌, if◌then◌else◌,
  ltb, ◌==◌, keep, find, any, take, map, is_some,
}
use xbotics_hey_robot.Prelude.Sort.{order_by}
use xbotics_hey_robot.Prelude.Text.{truthy_text}
use xbotics_hey_robot.Protocol.{Envelope}
use xbotics_hey_robot.Tasks.Rows.{
  TaskRow, AgentTask, AgentTaskStep, Store, task_from_row, is_active, is_completed, has_id, open_in,
  of_task, is_live,
}
use mathlib.Core.Option as Options
use mathlib.Core.List as Lists

-- `ORDER BY updated_at DESC LIMIT 1`
unfoldable pub latest : List TaskRow → Option TaskRow
latest [] = none
latest (r ∷ rs) = elim (latest rs) [
  | none ↦ some r
  | some m ↦ if ltb r.updated_at m.updated_at then some m else some r
]

abbrev pub active_in : String → TaskRow → Bool
active_in session r = r.session_key == session && is_active r.status

unfoldable pub active_task : String → Store → Option AgentTask
unfolding latest
active_task session s = Options.map task_from_row (latest (keep (active_in session) s.tasks))

unfoldable pub current_task : String → Store → Option AgentTask
unfolding latest
current_task session s = Options.map task_from_row (latest (keep (open_in session) s.tasks))

-- `WHERE task_id=?`
unfoldable pub task_row : String → Store → Option TaskRow
task_row id s = find (has_id id) s.tasks

unfoldable pub task : String → Store → Option AgentTask
unfolding task_row
task id s = Options.map task_from_row (task_row id s)

unfoldable pub task_envelope : String → Store → Option Envelope
unfolding task
task_envelope id s = Options.map (λ t. t.envelope) (task id s)

unfoldable pub task_interaction_id : String → Store → Option String
unfolding task_row
task_interaction_id id s = elim (task_row id s) [ none ↦ none | some r ↦ r.interaction_id ]

unfoldable pub resume_after_sequence : String → Store → ℕ
unfolding task_row
resume_after_sequence id s = elim (task_row id s) [ none ↦ 0 | some r ↦ r.resume_after_sequence ]

-- `ORDER BY updated_at ASC`
unfoldable pub resumable_tasks : Store → List AgentTask
unfolding order_by
resumable_tasks s =
    map task_from_row
      (order_by (λ r. r.updated_at) (keep (λ r. is_active r.status && r.resume_required) s.tasks))

-- `WHERE json_extract(envelope_json, '$.robot_id')=?`, where a robot is named.
abbrev on_robot : Option String → TaskRow → Bool
on_robot none r = true
on_robot (some robot) r =
    not (truthy_text robot) || elim r.envelope.robot_id [ none ↦ false | some id ↦ id == robot ]

unfoldable pub recent_tasks : ℕ → Option String → Store → List AgentTask
unfolding order_by
recent_tasks limit robot s =
    map task_from_row
      (take limit (Lists.reverse (order_by (λ r. r.updated_at) (keep (on_robot robot) s.tasks))))

unfoldable pub has_successful_step : String → Store → Bool
has_successful_step id s = any (λ st. of_task id st && is_completed st.status) s.steps

-- `ORDER BY sequence DESC LIMIT ?`, reversed
unfoldable pub recent_steps : String → ℕ → Store → List AgentTaskStep
unfolding order_by
recent_steps id limit s =
    Lists.reverse
      (take limit (Lists.reverse (order_by (λ st. st.sequence) (keep (of_task id) s.steps))))

run_ids : List AgentTaskStep → List String
run_ids [] = []
run_ids (st ∷ rest) = let ids = run_ids rest in elim st.run_id [ none ↦ ids | some r ↦ r ∷ ids ]

abbrev pub live_run_of : String → AgentTaskStep → Bool
live_run_of id st = of_task id st && is_some st.run_id && is_live st

unfoldable pub active_run_ids : String → Store → List String
unfolding run_ids order_by
active_run_ids id s = run_ids (order_by (λ st. st.sequence) (keep (live_run_of id) s.steps))

-- The join keeps a step for each row of its task that is active.
abbrev in_active_task : Store → AgentTaskStep → Bool
in_active_task s st = any (λ r. has_id st.task_id r && is_active r.status) s.tasks

-- `ORDER BY started_at ASC, sequence ASC`: the stable sort by the second key, then by the first.
unfoldable pub active_skill_steps : Store → List AgentTaskStep
unfolding order_by
active_skill_steps s =
    order_by (λ st. st.started_at)
      (order_by (λ st. st.sequence)
        (keep (λ st. in_active_task s st && is_some st.run_id && is_live st) s.steps))

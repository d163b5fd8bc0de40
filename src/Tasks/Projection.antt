-- ===== src/Tasks/Projection.antt =====
-- AgentTaskStore.projection and _project_task, src/hey_robot/cognition/runtime/agent_task_store.py:
-- the text about the active task that goes into the prompt.
use Prim.Native.String.{char_at, compare}
use Prim.Native.Nat.{Ordering}
use xbotics_hey_robot.Prelude.{
  ℕ, zero, suc, ◌+◌, ◌/◌, ◌%◌, String, Option, none, some, List, [], ◌∷◌, ◌++◌, map, if◌then◌else◌,
  ltb, ◌==◌,
}
use xbotics_hey_robot.Prelude.Text.{truthy_text, concat, join}
use xbotics_hey_robot.Protocol.{ToolStatus}
use xbotics_hey_robot.Tasks.Rows.{TaskStatus, AgentTask, AgentTaskStep, Store, is_completed}
use xbotics_hey_robot.Tasks.Queries.{active_task, recent_steps}

digit : ℕ → String
digit n = String.◌∷◌ (char_at "0123456789" n) String.[]

-- The digits of a number below 10 ^ fuel.
digits : ℕ → ℕ → String
unfolding digit
digits zero n = digit (n % 10)
digits (suc fuel) n =
    let rest = digits fuel (n / 10) in if ltb n 10 then digit n else concat rest (digit (n % 10))

-- `str` of a number; it has fewer digits than it counts.
unfoldable pub decimal : ℕ → String
unfolding digits
decimal n = digits n n

abbrev pub task_status_name : TaskStatus → String
task_status_name TaskStatus.active = "active"
task_status_name TaskStatus.paused = "paused"
task_status_name TaskStatus.completed = "completed"
task_status_name TaskStatus.blocked = "blocked"
task_status_name TaskStatus.cancelled = "cancelled"
task_status_name TaskStatus.failed = "failed"

abbrev pub tool_status_name : ToolStatus → String
tool_status_name ToolStatus.completed = "completed"
tool_status_name ToolStatus.failed = "failed"
tool_status_name ToolStatus.waiting = "waiting"
tool_status_name ToolStatus.accepted = "accepted"

-- `", ".join` and the like over pieces that stand one after the other.
abbrev pub all_of : List String → String
all_of = join ""

-- `counts[name] = counts.get(name, 0) + 1`
count_up : String → List (String × ℕ) → List (String × ℕ)
count_up name [] = (name, 1) ∷ []
count_up name ((other, n) ∷ rest) =
    let later = count_up name rest in
    if other == name then (other, n + 1) ∷ rest else (other, n) ∷ later

completed_counts : List (String × ℕ) → List AgentTaskStep → List (String × ℕ)
unfolding count_up
completed_counts counts [] = counts
completed_counts counts (st ∷ rest) =
    completed_counts (if is_completed st.status then count_up st.proposal.name counts else counts)
      rest

insert_count : String × ℕ → List (String × ℕ) → List (String × ℕ)
insert_count c [] = c ∷ []
insert_count c (d ∷ rest) =
    let later = insert_count c rest in
    elim (compare c.0 d.0) [ Ordering.gt ↦ d ∷ later | _ ↦ c ∷ d ∷ rest ]

-- `sorted(counts.items())`: the names are distinct.
sorted_counts : List (String × ℕ) → List (String × ℕ)
unfolding insert_count
sorted_counts [] = []
sorted_counts (c ∷ rest) = insert_count c (sorted_counts rest)

count_lines : List (String × ℕ) → List String
unfolding sorted_counts decimal
count_lines [] = []
count_lines (c ∷ rest) =
    let named = map (λ d. all_of (d.0 ∷ "×" ∷ decimal d.1 ∷ [])) (sorted_counts (c ∷ rest)) in
    all_of ("已确认完成动作汇总：" ∷ join "，" named ∷ "。" ∷ []) ∷ []

abbrev or_else_text : String → String → String
or_else_text s d = if truthy_text s then s else d

abbrev step_summary : Option String → String → String
step_summary none d = d
step_summary (some s) d = or_else_text s d

step_line : AgentTaskStep → String
unfolding decimal
step_line st = all_of (
    "- #"
    ∷ decimal st.sequence
    ∷ " "
    ∷ st.proposal.name
    ∷ " status="
    ∷ tool_status_name st.outcome.status
    ∷ " evidence="
    ∷ or_else_text (join ", " st.evidence_ids) "无"
    ∷ " summary="
    ∷ step_summary st.outcome.user_summary (tool_status_name st.outcome.status)
    ∷ [])

step_lines : List AgentTaskStep → List String
unfolding step_line
step_lines [] = []
step_lines (st ∷ rest) = "最近证据：" ∷ map step_line (st ∷ rest)

unfoldable pub project_task : AgentTask → Store → String
unfolding completed_counts count_lines step_lines decimal
project_task t s =
    let all_steps = recent_steps t.task_id (if ltb t.step_count 1 then 1 else t.step_count) s in
    let head = all_of (
      "当前持续任务：id="
      ∷ t.task_id
      ∷ "；status="
      ∷ task_status_name t.status
      ∷ "；objective="
      ∷ t.objective
      ∷ "；steps="
      ∷ decimal t.step_count
      ∷ "。"
      ∷ []) in
    join "\n" (
      head
      ∷ (count_lines (completed_counts [] all_steps) ++ step_lines (recent_steps t.task_id 6 s)))

unfoldable pub projection : String → Store → String
unfolding project_task
projection session s = elim (active_task session s) [
  | none ↦ "当前会话没有进行中的持续任务。"
  | some t ↦ project_task t s
]

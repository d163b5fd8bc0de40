-- ===== src/Agent/Service/Recovery.antt =====
-- A restart.
use xbotics_hey_robot.Prelude.{◌≤◌, ◌≡◌, Bool, true, ◌&&◌, List, keep, count_where, ◌==◌}
use xbotics_hey_robot.Tasks.Rows.{TaskRow, AgentTask, is_active, has_id}

abbrev is_resumable : TaskRow → Bool
is_resumable r = is_active r.status && r.resume_required

-- A row that is to be resumed has its id among those of the tasks.
abbrev IsListed : List AgentTask → TaskRow → Type 0
IsListed ts r = is_resumable r ≡ true → 1 ≤ count_where (λ t. t.task_id == r.task_id) ts

-- A row that is to be resumed is among those kept.
abbrev IsKept : List TaskRow → TaskRow → Type 0
IsKept rows r = is_resumable r ≡ true → 1 ≤ count_where (has_id r.task_id) (keep is_resumable rows)

-- ===== src/Tasks/Updates.antt =====
-- The operations of AgentTaskStore that write. Each takes the readings of `time.time()` and the
-- ids from `uuid4` that it uses, then its arguments, then the store. An `INSERT` checks the primary
-- key and the unique indices. No `UPDATE` of the class can break an index: it keeps every key, and
-- opens no task but a paused one, which is open already.
use xbotics_hey_robot.Prelude.{
  ℕ, String, Bool, true, false, not, ◌&&◌, ◌||◌, Option, none, some, [], ◌∷◌, ◌++◌, if◌then◌else◌,
  eqb, ◌==◌, any, last?, update_where, is_some,
}
use xbotics_hey_robot.Prelude.Result.{Result, ok, raise}
use xbotics_hey_robot.Prelude.Text.{truthy_text}
use xbotics_hey_robot.Protocol.{Envelope, robot_of}
use xbotics_hey_robot.Tasks.Rows.{
  TaskStatus, StepStatus, TaskRow, AgentTask, AgentTaskStep, Store, is_active, is_paused,
  is_terminal, is_open, has_id, open_in, has_step_id, has_run,
}
use xbotics_hey_robot.Tasks.Queries.{active_task, current_task, task, recent_steps}

pub data Error : Type 0 where
  session_has_task no_robot not_loaded non_active_task non_paused_task status_not_terminal : Error
  integrity : Error  -- sqlite3.IntegrityError

unfoldable pub insert_task : TaskRow → Store → Result Error (Unit {0}) × Store
insert_task r s =
    if any (has_id r.task_id) s.tasks || is_open r.status && any (open_in r.session_key) s.tasks
    then (raise integrity, s)
    else (ok tt, record s { tasks = s.tasks ++ r ∷ [] })

abbrev pub same_place : AgentTaskStep → AgentTaskStep → Bool
same_place st other = other.task_id == st.task_id && eqb other.sequence st.sequence

abbrev pub same_run : AgentTaskStep → AgentTaskStep → Bool
same_run st other = elim st.run_id [ none ↦ false | some r ↦ has_run r other ]

unfoldable pub insert_step : AgentTaskStep → Store → Result Error (Unit {0}) × Store
insert_step st s =
    if any (has_step_id st.step_id) s.steps
      || any (same_place st) s.steps
      || any (same_run st) s.steps
    then (raise integrity, s)
    else (ok tt, record s { steps = s.steps ++ st ∷ [] })

-- The keyword arguments of `create_task`.
pub record TaskRequest : Type 0 where
  pub session_key : String
  pub envelope : Envelope
  pub interaction_id : Option String
  pub objective : String
  pub ui_summary : String
  pub deadline_at : Option ℕ

abbrev pub new_row : ℕ → String → TaskRequest → TaskRow
new_row now task_id q = record {
  task_id = task_id;
  session_key = q.session_key;
  envelope = q.envelope;
  interaction_id = q.interaction_id;
  objective = q.objective;
  ui_summary = q.ui_summary;
  status = TaskStatus.active;
  created_at = now;
  updated_at = now;
  step_count = 0;
  deadline_at = q.deadline_at;
  last_error = none;
  final_recap = none;
  resume_required = false;
  resume_after_sequence = 0;
}

unfoldable pub load_created :
    String → Result Error (Unit {0}) × Store → Result Error AgentTask × Store
load_created session (raise e, s) = (raise e, s)
load_created session (ok _, s) = elim (active_task session s) [
  | none ↦ (raise not_loaded, s)
  | some t ↦ (ok t, s)
]

unfoldable pub create_task : ℕ → String → TaskRequest → Store → Result Error AgentTask × Store
create_task now task_id q s =
    if is_some (current_task q.session_key s)
    then (raise session_has_task, s)
    else if not (truthy_text (robot_of q.envelope))
    then (raise no_robot, s)
    else load_created q.session_key (insert_task (new_row now task_id q) s)

-- `UPDATE sustained_tasks SET ... WHERE task_id=? AND status='active'`
abbrev pub update_active : String → (TaskRow → TaskRow) → Store → Store
update_active id f s = record s {
  tasks = update_where (λ r. has_id id r && is_active r.status) f s.tasks;
}

abbrev pub rerouted : ℕ → Envelope → String → TaskRow → TaskRow
rerouted now envelope interaction_id r = record r {
  envelope = envelope;
  interaction_id = some interaction_id;
  updated_at = now;
}

unfoldable pub update_route : ℕ → String → Envelope → String → Store → Store
update_route now id envelope interaction_id =
    update_active id (rerouted now envelope interaction_id)

abbrev pub paused : ℕ → String → TaskRow → TaskRow
paused now reason r = record r {
  status = TaskStatus.paused;
  updated_at = now;
  last_error = some reason;
  resume_required = false;
}

unfoldable pub pause_task : ℕ → String → String → Store → Store
pause_task now id reason = update_active id (paused now reason)

abbrev pub resumed : ℕ → TaskRow → TaskRow
resumed now r = record r {
  status = TaskStatus.active;
  updated_at = now;
  last_error = none;
  resume_required = true;
}

-- The update is committed before the status is read back, so it stands where the call raises.
unfoldable pub resume_task : ℕ → String → Store → Result Error AgentTask × Store
resume_task now id s =
    let s' = record s {
      tasks = update_where (λ r. has_id id r && is_paused r.status) (resumed now) s.tasks;
    } in
    elim (task id s') [
      | none ↦ (raise non_paused_task, s')
      | some t ↦ if is_active t.status then (ok t, s') else (raise non_paused_task, s')
    ]

abbrev pub finished : ℕ → TaskStatus → Option String → Option String → TaskRow → TaskRow
finished now status last_error final_recap r = record r {
  status = status;
  updated_at = now;
  last_error = last_error;
  final_recap = final_recap;
  resume_required = false;
}

unfoldable pub finish : ℕ → String → TaskStatus → Option String → Option String → Store → Store
finish now id status last_error final_recap =
    update_active id (finished now status last_error final_recap)

-- The status that `close_task` gives, from the last step, and the error text that goes with it.
abbrev pub closing : Option AgentTaskStep → TaskStatus
closing none = TaskStatus.completed
closing (some st) = elim st.status [
  | StepStatus.failed ↦ TaskStatus.failed
  | StepStatus.cancelled ↦ TaskStatus.cancelled
  | _ ↦ TaskStatus.completed
]

abbrev pub closing_error : TaskStatus → String → Option String
closing_error TaskStatus.completed recap = none
closing_error _ recap = some recap

unfoldable pub close_task : ℕ → String → String → Store → Store
unfolding finish
close_task now id recap s =
    let status = closing (last? (recent_steps id 1 s)) in
    finish now id status (closing_error status recap) (some recap) s

unfoldable pub complete_from_environment : ℕ → String → String → Store → Store
unfolding finish
complete_from_environment now id recap s = elim (task id s) [
  | none ↦ s
  | some t ↦
      if is_active t.status then finish now id TaskStatus.completed none (some recap) s else s
]

unfoldable pub control_task :
    ℕ → String → TaskStatus → String → Store → Result Error (Unit {0}) × Store
unfolding finish
control_task now id status reason s =
    if is_terminal status
    then (ok tt, finish now id status (some reason) (some reason) s)
    else (raise status_not_terminal, s)

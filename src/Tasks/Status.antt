-- ===== src/Tasks/Status.antt =====
-- How the status of a task moves: what each control call does on each status, and that a finished
-- task stays as it ended.
use xbotics_hey_robot.Prelude.{
  ℕ, ◌≡◌, refl, String, Bool, true, ◌&&◌, Option, none, some, arith, if◌then◌else◌, find-holds,
  find-update_where, eq_iff, eq_refl, ◌==◌, Option-cases, inl, inr, update_where,
}
use xbotics_hey_robot.Prelude.Result.{Result, ok, raise}
use xbotics_hey_robot.Tasks.Rows.{TaskStatus, TaskRow, Store, is_active, is_paused, has_id}
use xbotics_hey_robot.Tasks.Queries.{task_row, active_task}
use xbotics_hey_robot.Tasks.Updates.{
  Error, load_created, pause_task, paused, resume_task, resumed, finish, finished,
}

-- The row of a task under `UPDATE ... WHERE task_id=?` with a further condition.
pub task_row-update :
    (id other : String) (c : TaskRow → Bool) (f : TaskRow → TaskRow) (s : Store)
    → ((r : TaskRow) → (f r).task_id ≡ r.task_id)
    → task_row id (record s { tasks = update_where (λ r. has_id other r && c r) f s.tasks })
      ≡ elim (task_row id s) [
        | none ↦ none
        | some r ↦ some (if r.task_id == other && c r then f r else r)
      ]
unfolding task_row
task_row-update id other c f s k =
    find-update_where (has_id id) (λ r. has_id other r && c r) f s.tasks (λ r. ground (arith, k r))

pub task_row-id : (id : String) (s : Store) {r : TaskRow} → task_row id s ≡ some r → r.task_id ≡ id
unfolding task_row
task_row-id id s {r = r} h = (eq_iff r.task_id id).0 (find-holds (has_id id) s.tasks h)

-- Ending an active task gives it the status, the error and the recap, and takes it off the list
-- of tasks to resume; a task that is not active is left as it is.
pub finish_lem :
    (now : ℕ) (id : String) (status : TaskStatus) (e recap : Option String) (s : Store)
    {r : TaskRow}
    → task_row id s ≡ some r
    → task_row id (finish now id status e recap s)
      ≡ some (if is_active r.status then finished now status e recap r else r)
unfolding finish
finish_lem now id status e recap s {r = r} h = ground (
  arith,
  h,
  task_row-id id s h,
  eq_refl id,
  task_row-update id id (λ x. is_active x.status) (finished now status e recap) s (λ x. refl),
)

-- `resume_task` leaves the same store on every branch.
pub resume_task_store :
    (now : ℕ) (id : String) (s : Store)
    → (resume_task now id s).1 ≡ record s {
      tasks = update_where (λ r. has_id id r && is_paused r.status) (resumed now) s.tasks;
    }
unfolding resume_task
resume_task_store now id s = ground arith

pub load_created_store :
    (session : String) (m : Result Error (Unit {0}) × Store) → (load_created session m).1 ≡ m.1
unfolding load_created
load_created_store session (raise e, s) = refl
load_created_store session (ok _, s) = elim (Option-cases (active_task session s)) [
  | inl h ↦ rw (h, load_created)
  | inr (t, h) ↦ rw (h, load_created)
]

-- Pausing an active task and resuming it gives the task back as it was, but for its time of
-- change, an error text that is cleared, and the mark that it is to be resumed.
pub resume-pause :
    (now later : ℕ) (id reason : String) (s : Store) {r : TaskRow}
    → task_row id s ≡ some r
    → r.status ≡ TaskStatus.active
    → task_row id (resume_task later id (pause_task now id reason s)).1
      ≡ some (record r { updated_at = later; last_error = none; resume_required = true })
unfolding pause_task
resume-pause now later id reason s {r = r} h a =
    rw (resume_task_store later id (pause_task now id reason s)) (
      ground (
        arith,
        h,
        task_row-id id s h,
        eq_refl id,
        task_row-update id id (λ x. is_paused x.status) (resumed later) (pause_task now id reason s)
            (λ x. refl),
        task_row-update id id (λ x. is_active x.status) (paused now reason) s (λ x. refl),
      ))

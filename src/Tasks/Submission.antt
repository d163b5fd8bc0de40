-- ===== src/Tasks/Submission.antt =====
-- A pending step is written whenever the task is active and the ids are new.
use xbotics_hey_robot.Prelude.{
  ℕ, ◌+◌, ◌≡◌, refl, String, false, some, [], ◌∷◌, ◌++◌, arith, update_where, any,
}
use xbotics_hey_robot.Prelude.Result.{ok}
use xbotics_hey_robot.Protocol.{PhysicalToolCall}
use xbotics_hey_robot.Tasks.Rows.{TaskStatus, TaskRow, Store, has_id, has_run, has_step_id}
use xbotics_hey_robot.Tasks.Queries.{task_row, task}
use xbotics_hey_robot.Tasks.Updates.{insert_step}
use xbotics_hey_robot.Tasks.Steps.{add_pending_step, pending_step, submitted}
use xbotics_hey_robot.Tasks.Wf.{IsWf}
use xbotics_hey_robot.Tasks.Wf.Inserts.{any-same_place, any-same_run}
use xbotics_hey_robot.Tasks.Wf.Operations.{submitted-Bumps}

module _ (now : ℕ) (step_id id : String) (c : PhysicalToolCall) (run call : String) (s : Store)
    (w : IsWf s) {r : TaskRow} (known : task_row id s ≡ some r)
    (active : r.status ≡ TaskStatus.active) (new_id : any (has_step_id step_id) s.steps ≡ false)
    (new_run : any (has_run run) s.steps ≡ false) where
  -- On an active task of a well-formed store, with a new step id and a new run id, a pending step
  -- is always written: it is the last step, numbered next, and the counter of the task says so.
  pub add_pending_step_total :
      let st = pending_step now step_id id (r.step_count + 1) c run call in
      add_pending_step now step_id id c run call s ≡ (
        ok st,
        record {
          tasks = update_where (has_id id) (submitted now (r.step_count + 1)) s.tasks;
          steps = s.steps ++ st ∷ [];
        },
      )
  unfolding add_pending_step task task_row insert_step
  add_pending_step_total =
      let st = pending_step now step_id id (r.step_count + 1) c run call in
      ground (
        arith,
        known,
        active,
        new_id,
        new_run,
        any-same_place st (submitted now (r.step_count + 1))
            (submitted-Bumps now (r.step_count + 1)) s w known refl new_id new_run,
        any-same_run st run s.steps refl,
      )

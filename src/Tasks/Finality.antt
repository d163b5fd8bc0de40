-- ===== src/Tasks/Finality.antt =====
-- A task that ended stays as it ended: no operation writes to its row again.
use xbotics_hey_robot.Prelude.{
  ℕ, ◌+◌, ◌≡◌, refl, String, true, false, not, Option, none, some, List, [], ◌∷◌, arith, find,
  find-holds, find-append, find-update_where, is_some, eq_iff, ◌==◌, Bool-cases, Option-cases, inl,
  inr, update_where, leb,
}
use xbotics_hey_robot.Prelude.Result.{Result}
use xbotics_hey_robot.Prelude.Text.{truthy_text}
use xbotics_hey_robot.Protocol.{robot_of}
use xbotics_hey_robot.Tasks.Rows.{
  TaskStatus, TaskRow, AgentTask, AgentTaskStep, Store, task_from_row, is_active, is_paused,
  is_terminal, is_final, has_id, has_run,
}
use xbotics_hey_robot.Tasks.Queries.{task_row, task, current_task}
use xbotics_hey_robot.Tasks.Updates.{
  Error, TaskRequest, new_row, insert_task, insert_step, update_active, create_task, update_route,
  pause_task, paused, resume_task, resumed, finish, finished, rerouted, close_task,
  complete_from_environment, control_task,
}
use xbotics_hey_robot.Tasks.Steps.{
  StepReport, add_step, add_pending_step, apply_skill_event, wake, woken, resolved, find_run,
  then_update, with_active, first_step, pending_step, append_to, submit_to, appended, submitted,
}
use xbotics_hey_robot.Tasks.Trace.{Op, apply, run_ops}
use xbotics_hey_robot.Tasks.Status.{task_row-update, resume_task_store, load_created_store}

module _ (id : String) (r : TaskRow) (ended : is_terminal r.status ≡ true) where
  abbrev Has : Store → Type 0
  Has s = task_row id s ≡ some r

  update_active-Has :
      (other : String) (f : TaskRow → TaskRow) (s : Store)
      → ((x : TaskRow) → (f x).task_id ≡ x.task_id)
      → Has s
      → Has (update_active other f s)
  update_active-Has other f s k h =
      ground (arith, h, ended, task_row-update id other (λ x. is_active x.status) f s k)

  insert_task-Has : (row : TaskRow) (s : Store) → Has s → Has (insert_task row s).1
  unfolding insert_task task_row
  insert_task-Has row s h = ground (arith, h, find-append (has_id id) s.tasks (row ∷ []))

  create_task-Has :
      (now : ℕ) (new_id : String) (q : TaskRequest) (s : Store)
      → Has s
      → Has (create_task now new_id q s).1
  unfolding create_task
  create_task-Has now new_id q s h =
      let m = insert_task (new_row now new_id q) s in
      let kept = load_created_store q.session_key m in
      let has = insert_task-Has (new_row now new_id q) s h in
      elim (Bool-cases (is_some (current_task q.session_key s))) [
        | inl busy ↦ rw busy h
        | inr free ↦ elim (Bool-cases (not (truthy_text (robot_of q.envelope)))) [
          | inl nameless ↦ rw (free, nameless) h
          | inr named ↦ rw (free, named, kept) has
        ]
      ]

  resume_task-Has : (now : ℕ) (other : String) (s : Store) → Has s → Has (resume_task now other s).1
  resume_task-Has now other s h = rw (resume_task_store now other s) (
      ground (
        arith,
        h,
        ended,
        task_row-update id other (λ x. is_paused x.status) (resumed now) s (λ x. refl),
      ))

  -- A step is written to an active task only, so to another one.
  then_update-Has :
      (st : AgentTaskStep) (f : TaskRow → TaskRow) (s : Store)
      → ((x : TaskRow) → (f x).task_id ≡ x.task_id)
      → (st.task_id == id) ≡ false
      → Has s
      → Has (then_update st f (insert_step st s)).1
  unfolding insert_step task_row
  then_update-Has st f s k other h = ground (
    arith,
    h,
    find-update_where (has_id id) (has_id st.task_id) f s.tasks (λ x. rw (k x)),
    find-holds (has_id id) s.tasks h,
    eq_iff r.task_id id,
    eq_iff r.task_id st.task_id,
    eq_iff st.task_id id,
  )

  with_active-Has :
      (other : String) (f : AgentTask → Store → Result Error AgentTaskStep × Store) (s : Store)
      → Has s
      → ((t : AgentTask) → (other == id) ≡ false → Has (f t s).1)
      → Has (with_active other f s).1
  unfolding task task_row
  with_active-Has other f s h step = elim (Bool-cases (other == id)) [
    | inl same ↦
        let e : other ≡ id = (eq_iff other id).0 same in
        rw e (rw (h, with_active) (ground (arith, h, ended)))
    | inr differs ↦ elim (Option-cases (find (has_id other) s.tasks)) [
      | inl none_found ↦ rw (none_found, with_active) h
      | inr (x, found) ↦ elim (Bool-cases (is_active x.status)) [
        | inl active ↦ rw (found, with_active, active) (step (task_from_row x) differs)
        | inr idle ↦ rw (found, with_active, idle) h
      ]
    ]
  ]

  apply_skill_event-Has :
      (c u : ℕ) (run : String) (e : StepReport) (s : Store)
      → Has s
      → Has (apply_skill_event c u run e s).1
  unfolding apply_skill_event wake task_row
  apply_skill_event-Has c u run e s h = elim (Option-cases (find_run run s)) [
    | inl gone ↦ rw (gone, apply_skill_event) h
    | inr (st, found) ↦ elim (Bool-cases (leb e.event_sequence st.last_event_sequence)) [
      | inl old ↦ rw (found, apply_skill_event, old) h
      | inr new ↦ elim (Bool-cases (is_final e.status)) [
        | inl final ↦
            let s' : Store = record s {
              steps = update_where (has_run run) (resolved c e) s.steps;
            } in
            rw (found, apply_skill_event, new, final)
              (update_active-Has st.task_id (woken u st.sequence) s' (λ x. refl) h)
        | inr live ↦ rw (found, apply_skill_event, new, live) h
      ]
    ]
  ]

  finish-Has :
      (now : ℕ) (other : String) (status : TaskStatus) (e recap : Option String) (s : Store)
      → Has s
      → Has (finish now other status e recap s)
  unfolding finish
  finish-Has now other status e recap s h =
      update_active-Has other (finished now status e recap) s (λ x. refl) h

  complete_from_environment-Has :
      (now : ℕ) (other recap : String) (s : Store)
      → Has s
      → Has (complete_from_environment now other recap s)
  unfolding complete_from_environment
  complete_from_environment-Has now other recap s h = elim (Option-cases (task other s)) [
    | inl gone ↦ rw (gone, complete_from_environment) h
    | inr (t, found) ↦ elim (Bool-cases (is_active t.status)) [
      | inl active ↦
          rw (found, complete_from_environment, active)
            (finish-Has now other TaskStatus.completed none (some recap) s h)
      | inr idle ↦ rw (found, complete_from_environment, idle) h
    ]
  ]

  control_task-Has :
      (now : ℕ) (other : String) (status : TaskStatus) (reason : String) (s : Store)
      → Has s
      → Has (control_task now other status reason s).1
  unfolding control_task
  control_task-Has now other status reason s h = elim (Bool-cases (is_terminal status)) [
    | inl t ↦ rw t (finish-Has now other status (some reason) (some reason) s h)
    | inr t ↦ rw t h
  ]

  apply-Has : (op : Op) (s : Store) → Has s → Has (apply op s)
  unfolding apply update_route pause_task close_task add_step add_pending_step
  apply-Has (Op.create now new_id q) s h = create_task-Has now new_id q s h
  apply-Has (Op.route now other e i) s h =
      update_active-Has other (rerouted now e i) s (λ x. refl) h
  apply-Has (Op.append now step other c o) s h =
      with_active-Has other (append_to now step other c o) s h λ t differs.
        then_update-Has (first_step now step other (t.step_count + 1) c o)
          (appended now (t.step_count + 1)) s (λ x. refl) differs h
  apply-Has (Op.submit now step other c run call) s h =
      with_active-Has other (submit_to now step other c run call) s h λ t differs.
        then_update-Has (pending_step now step other (t.step_count + 1) c run call)
          (submitted now (t.step_count + 1)) s (λ x. refl) differs h
  apply-Has (Op.event c u run e) s h = apply_skill_event-Has c u run e s h
  apply-Has (Op.pause now other reason) s h =
      update_active-Has other (paused now reason) s (λ x. refl) h
  apply-Has (Op.resume now other) s h = resume_task-Has now other s h
  apply-Has (Op.close now other recap) s h = finish-Has now other _ _ (some recap) s h
  apply-Has (Op.complete now other recap) s h = complete_from_environment-Has now other recap s h
  apply-Has (Op.control now other status reason) s h = control_task-Has now other status reason s h

  -- A task that is completed, blocked, cancelled or failed keeps its whole row, whatever operations
  -- follow, on it or on other tasks.
  pub run_ops_terminal :
      (ops : List Op) (s : Store) → task_row id s ≡ some r → task_row id (run_ops ops s) ≡ some r
  unfolding run_ops
  run_ops_terminal [] s h = h
  run_ops_terminal (op ∷ ops) s h = run_ops_terminal ops (apply op s) (apply-Has op s h)

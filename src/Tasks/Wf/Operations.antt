-- ===== src/Tasks/Wf/Operations.antt =====
-- Each operation of the task store keeps it well-formed.
use xbotics_hey_robot.Prelude.{
  ℕ, ◌+◌, ◌≡◌, refl, String, Option, none, some, List, [], ◌∷◌, arith, any, find, is_some, not,
  ◌&&◌, Bool-cases, Option-cases, inl, inr, update_where, leb,
}
use xbotics_hey_robot.Prelude.Result.{Result}
use xbotics_hey_robot.Prelude.Text.{truthy_text}
use xbotics_hey_robot.Protocol.{Envelope, ToolOutcome, PhysicalToolCall, robot_of}
use xbotics_hey_robot.Tasks.Rows.{
  TaskStatus, TaskRow, AgentTask, AgentTaskStep, Store, empty, task_from_row, is_active, is_paused,
  is_final, is_terminal, has_id, has_step_id, has_run,
}
use xbotics_hey_robot.Tasks.Queries.{current_task, task}
use xbotics_hey_robot.Tasks.Updates.{
  Error, TaskRequest, new_row, insert_step, same_place, same_run, create_task, update_route,
  pause_task, resume_task, resumed, finish, close_task, complete_from_environment, control_task,
}
use xbotics_hey_robot.Tasks.Steps.{
  StepReport, add_step, add_pending_step, apply_skill_event, resolved, wake, find_run, then_update,
  with_active, first_step, pending_step, appended, submitted, append_to, submit_to,
}
use xbotics_hey_robot.Tasks.Status.{resume_task_store, load_created_store}
use xbotics_hey_robot.Tasks.Trace.{Op, apply, run_ops}
use xbotics_hey_robot.Tasks.Wf.{IsWf, update_where-IsWf, update_steps-IsWf}
use xbotics_hey_robot.Tasks.Wf.Inserts.{insert_task-IsWf, Bumps, append_step-IsWf}

pub empty-IsWf : IsWf empty
empty-IsWf = record {
  one_task = λ id. omega arith;
  one_open = λ session. omega arith;
  one_step = λ id. omega arith;
  one_run = λ run. omega arith;
  one_place = λ id n. omega arith;
  counted = λ id. refl;
  numbered = λ id n h. refl;
}

pub update_route-IsWf :
    (now : ℕ) (id : String) (e : Envelope) (i : String) (s : Store)
    → IsWf s
    → IsWf (update_route now id e i s)
unfolding update_route
update_route-IsWf now id e i s =
    update_where-IsWf _ _
      (record { id = λ r. refl; session = λ r. refl; counter = λ r. refl; opened = λ r h o. o }) s

pub pause_task-IsWf :
    (now : ℕ) (id reason : String) (s : Store) → IsWf s → IsWf (pause_task now id reason s)
unfolding pause_task
pause_task-IsWf now id reason s =
    update_where-IsWf _ _
      (record {
        id = λ r. refl;
        session = λ r. refl;
        counter = λ r. refl;
        opened = λ r h o. ground arith;
      })
      s

pub finish-IsWf :
    (now : ℕ) (id : String) (status : TaskStatus) (e recap : Option String) (s : Store)
    → IsWf s
    → IsWf (finish now id status e recap s)
unfolding finish
finish-IsWf now id status e recap s =
    update_where-IsWf _ _
      (record {
        id = λ r. refl;
        session = λ r. refl;
        counter = λ r. refl;
        opened = λ r h o. ground arith;
      })
      s

pub resume_task-IsWf : (now : ℕ) (id : String) (s : Store) → IsWf s → IsWf (resume_task now id s).1
resume_task-IsWf now id s w = rw (resume_task_store now id s) (
    update_where-IsWf (λ r. has_id id r && is_paused r.status) (resumed now)
      (record {
        id = λ r. refl;
        session = λ r. refl;
        counter = λ r. refl;
        opened = λ r h o. ground arith;
      })
      s w)

pub create_task-IsWf :
    (now : ℕ) (id : String) (q : TaskRequest) (s : Store) → IsWf s → IsWf (create_task now id q s).1
unfolding create_task
create_task-IsWf now id q s w = elim (Bool-cases (is_some (current_task q.session_key s))) [
  | inl busy ↦ rw busy w
  | inr free ↦ elim (Bool-cases (not (truthy_text (robot_of q.envelope)))) [
    | inl nameless ↦ rw (free, nameless) w
    | inr named ↦
        rw (free, named, load_created_store) (insert_task-IsWf (new_row now id q) s refl w)
  ]
]

module _ (st : AgentTaskStep) (f : TaskRow → TaskRow) (b : Bumps st.sequence f) (s : Store)
    (w : IsWf s) {r : TaskRow} (known : find (has_id st.task_id) s.tasks ≡ some r)
    (next : st.sequence ≡ r.step_count + 1) where
  then_update-IsWf : IsWf (then_update st f (insert_step st s)).1
  unfolding insert_step
  then_update-IsWf = elim (Bool-cases (any (has_step_id st.step_id) s.steps)) [
    | inl h ↦ rw h w
    | inr new_id ↦ elim (Bool-cases (any (same_place st) s.steps)) [
      | inl h ↦ rw (new_id, h) w
      | inr new_place ↦ elim (Bool-cases (any (same_run st) s.steps)) [
        | inl h ↦ rw (new_id, new_place, h) w
        | inr new_run ↦
            rw (new_id, new_place, new_run) (append_step-IsWf st f b s w known next new_id new_run)
      ]
    ]
  ]

-- A step is written only where the task is found, with its row.
with_active-IsWf :
    (id : String) (f : AgentTask → Store → Result Error AgentTaskStep × Store) (s : Store)
    → IsWf s
    → ((r : TaskRow) → find (has_id id) s.tasks ≡ some r → IsWf (f (task_from_row r) s).1)
    → IsWf (with_active id f s).1
unfolding task
with_active-IsWf id f s w step = elim (Option-cases (find (has_id id) s.tasks)) [
  | inl h ↦ rw (h, with_active) w
  | inr (r, h) ↦ elim (Bool-cases (is_active r.status)) [
    | inl active ↦ rw (h, with_active, active) (step r h)
    | inr idle ↦ rw (h, with_active, idle) w
  ]
]

pub appended-Bumps : (now n : ℕ) → Bumps n (appended now n)
appended-Bumps now n = record {
  id = λ x. refl;
  session = λ x. refl;
  status = λ x. refl;
  counter = λ x. refl;
}

pub submitted-Bumps : (now n : ℕ) → Bumps n (submitted now n)
submitted-Bumps now n = record {
  id = λ x. refl;
  session = λ x. refl;
  status = λ x. refl;
  counter = λ x. refl;
}

pub add_step-IsWf :
    (now : ℕ) (step_id id : String) (c : PhysicalToolCall) (o : ToolOutcome) (s : Store)
    → IsWf s
    → IsWf (add_step now step_id id c o s).1
unfolding add_step
add_step-IsWf now step_id id c o s w = with_active-IsWf id (append_to now step_id id c o) s w λ r h.
    then_update-IsWf (first_step now step_id id (r.step_count + 1) c o)
      (appended now (r.step_count + 1)) (appended-Bumps now (r.step_count + 1)) s w h refl

pub add_pending_step-IsWf :
    (now : ℕ) (step_id id : String) (c : PhysicalToolCall) (run call : String) (s : Store)
    → IsWf s
    → IsWf (add_pending_step now step_id id c run call s).1
unfolding add_pending_step
add_pending_step-IsWf now step_id id c run call s w =
    with_active-IsWf id (submit_to now step_id id c run call) s w λ r h.
      then_update-IsWf (pending_step now step_id id (r.step_count + 1) c run call)
        (submitted now (r.step_count + 1)) (submitted-Bumps now (r.step_count + 1)) s w h refl

wake-IsWf :
    (now : ℕ) (st : AgentTaskStep) (e : StepReport) (s : Store) → IsWf s → IsWf (wake now st e s)
unfolding wake
wake-IsWf now st e s w = elim (Bool-cases (is_final e.status)) [
  | inl h ↦ rw h (
      update_where-IsWf _ _
        (record { id = λ r. refl; session = λ r. refl; counter = λ r. refl; opened = λ r _ o. o }) s
        w)
  | inr h ↦ rw h w
]

pub apply_skill_event-IsWf :
    (c u : ℕ) (run : String) (e : StepReport) (s : Store)
    → IsWf s
    → IsWf (apply_skill_event c u run e s).1
unfolding apply_skill_event
apply_skill_event-IsWf c u run e s w = elim (Option-cases (find_run run s)) [
  | inl h ↦ rw (h, apply_skill_event) w
  | inr (st, h) ↦ elim (Bool-cases (leb e.event_sequence st.last_event_sequence)) [
    | inl old ↦ rw (h, apply_skill_event, old) w
    | inr new ↦
        rw (h, apply_skill_event, new)
          (wake-IsWf u st e (record s { steps = update_where (has_run run) (resolved c e) s.steps })
            (update_steps-IsWf (has_run run) (resolved c e) s
              (record {
                step_id = λ x. refl;
                task_id = λ x. refl;
                sequence = λ x. refl;
                run_id = λ x. refl;
              })
              w))
  ]
]

pub close_task-IsWf :
    (now : ℕ) (id recap : String) (s : Store) → IsWf s → IsWf (close_task now id recap s)
unfolding close_task
close_task-IsWf now id recap s = finish-IsWf now id _ _ (some recap) s

pub complete_from_environment-IsWf :
    (now : ℕ) (id recap : String) (s : Store)
    → IsWf s
    → IsWf (complete_from_environment now id recap s)
unfolding complete_from_environment
complete_from_environment-IsWf now id recap s w = elim (Option-cases (task id s)) [
  | inl h ↦ rw (h, complete_from_environment) w
  | inr (t, h) ↦ elim (Bool-cases (is_active t.status)) [
    | inl active ↦
        rw (h, complete_from_environment, active)
          (finish-IsWf now id TaskStatus.completed none (some recap) s w)
    | inr idle ↦ rw (h, complete_from_environment, idle) w
  ]
]

pub control_task-IsWf :
    (now : ℕ) (id : String) (status : TaskStatus) (reason : String) (s : Store)
    → IsWf s
    → IsWf (control_task now id status reason s).1
unfolding control_task
control_task-IsWf now id status reason s w = elim (Bool-cases (is_terminal status)) [
  | inl h ↦ rw h (finish-IsWf now id status (some reason) (some reason) s w)
  | inr h ↦ rw h w
]

pub apply-IsWf : (op : Op) (s : Store) → IsWf s → IsWf (apply op s)
unfolding apply
apply-IsWf (Op.create now id q) s w = create_task-IsWf now id q s w
apply-IsWf (Op.route now id e i) s w = update_route-IsWf now id e i s w
apply-IsWf (Op.append now step id c o) s w = add_step-IsWf now step id c o s w
apply-IsWf (Op.submit now step id c run call) s w = add_pending_step-IsWf now step id c run call s w
apply-IsWf (Op.event c u run e) s w = apply_skill_event-IsWf c u run e s w
apply-IsWf (Op.pause now id reason) s w = pause_task-IsWf now id reason s w
apply-IsWf (Op.resume now id) s w = resume_task-IsWf now id s w
apply-IsWf (Op.close now id recap) s w = close_task-IsWf now id recap s w
apply-IsWf (Op.complete now id recap) s w = complete_from_environment-IsWf now id recap s w
apply-IsWf (Op.control now id status reason) s w = control_task-IsWf now id status reason s w

run_ops_from-IsWf : (ops : List Op) (s : Store) → IsWf s → IsWf (run_ops ops s)
unfolding run_ops
run_ops_from-IsWf [] s w = w
run_ops_from-IsWf (op ∷ ops) s w = run_ops_from-IsWf ops (apply op s) (apply-IsWf op s w)

-- Whatever operations run on a new store, with whatever clocks and ids, and whether they return or
-- raise: no two tasks share an id, no session has two tasks that are active or paused, no two
-- steps share an id, a run id, or a task and number, and each task's counter is the number of its
-- steps, none of which is numbered above it.
pub run_ops-IsWf : (ops : List Op) → IsWf (run_ops ops empty)
run_ops-IsWf ops = run_ops_from-IsWf ops empty empty-IsWf

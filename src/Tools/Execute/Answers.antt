-- ===== src/Tools/Execute/Answers.antt =====
-- When an answer of the model ends a task.
use xbotics_hey_robot.Prelude.{
  ℕ, ◌≡◌, refl, ap, ◌∙◌, String, Bool, true, false, ◌&&◌, ◌||◌, Option, none, some, List, [], ◌∷◌,
  any, arith, if◌then◌else◌, ◌==◌, last?, Bool-cases, inl, inr, eq_iff,
}
use xbotics_hey_robot.Tasks.Rows.{
  TaskStatus, StepStatus, TaskRow, AgentTask, AgentTaskStep, Store, is_completed, of_task,
}
use xbotics_hey_robot.Tasks.Queries.{
  active_task, task_row, active_run_ids, has_successful_step, recent_steps,
}
use xbotics_hey_robot.Tasks.Updates.{closing, closing_error, close_task}
use xbotics_hey_robot.Tasks.Status.{finish_lem}
use xbotics_hey_robot.Tasks.Coordinator.{Client, is_nil}
use xbotics_hey_robot.Tasks.Coordinator.Completion.{status_of}
use xbotics_hey_robot.Tools.Calls.{AgentResponseCall}
use xbotics_hey_robot.Tools.Executor.{Stops, Draws, Limits, Turn}
use xbotics_hey_robot.Tools.Execute.{respond}

close_task-status :
    (now : ℕ) (id recap : String) (s : Store) {r : TaskRow}
    → task_row id s ≡ some r
    → r.status ≡ TaskStatus.active
    → status_of id (close_task now id recap s) ≡ some (closing (last? (recent_steps id 1 s)))
unfolding close_task status_of
close_task-status now id recap s {r = r} known active =
    let status = closing (last? (recent_steps id 1 s)) in
    ground
      (arith, active, finish_lem now id status (closing_error status recap) (some recap) s known)

-- What an answer may ask of a task, said of its steps: one of them came to its end well.
unfoldable pub is_done : StepStatus → Bool
is_done StepStatus.completed = true
is_done StepStatus.pending = false
is_done StepStatus.running = false
is_done StepStatus.failed = false
is_done StepStatus.cancelled = false

abbrev pub one_succeeded : String → List AgentTaskStep → Bool
unfolding is_done
one_succeeded id [] = false
one_succeeded id (st ∷ rest) = (st.task_id == id && is_done st.status) || one_succeeded id rest

-- How the task ends, by the status of its last step.
abbrev pub ending : Option StepStatus → TaskStatus
ending (some StepStatus.failed) = TaskStatus.failed
ending (some StepStatus.cancelled) = TaskStatus.cancelled
ending (some StepStatus.completed) = TaskStatus.completed
ending (some StepStatus.running) = TaskStatus.completed
ending (some StepStatus.pending) = TaskStatus.completed
ending none = TaskStatus.completed

is_done-is_completed : (status : StepStatus) → is_completed status ≡ is_done status
unfolding is_done
is_done-is_completed StepStatus.completed = refl
is_done-is_completed StepStatus.pending = refl
is_done-is_completed StepStatus.running = refl
is_done-is_completed StepStatus.failed = refl
is_done-is_completed StepStatus.cancelled = refl

any-one_succeeded :
    (id : String) (steps : List AgentTaskStep)
    → any (λ st. of_task id st && is_completed st.status) steps ≡ one_succeeded id steps
unfolding is_done
any-one_succeeded id [] = refl
any-one_succeeded id (st ∷ rest) =
    ap (λ b. (st.task_id == id && b) || any (λ x. of_task id x && is_completed x.status) rest)
      (is_done-is_completed st.status)
    ∙ ap (λ b. (st.task_id == id && is_done st.status) || b) (any-one_succeeded id rest)

has_successful_step-one_succeeded :
    (id : String) (s : Store) → has_successful_step id s ≡ one_succeeded id s.steps
unfolding has_successful_step
has_successful_step-one_succeeded id s = any-one_succeeded id s.steps

closing-some :
    (st : AgentTaskStep) (status : StepStatus)
    → st.status ≡ status
    → closing (some st) ≡ ending (some status)
closing-some st StepStatus.completed h = rw h refl
closing-some st StepStatus.pending h = rw h refl
closing-some st StepStatus.running h = rw h refl
closing-some st StepStatus.failed h = rw h refl
closing-some st StepStatus.cancelled h = rw h refl

abbrev pub last_status : String → Store → Option StepStatus
last_status id s = elim (last? (recent_steps id 1 s)) [ none ↦ none | some st ↦ some st.status ]

closing-ending :
    (last : Option AgentTaskStep)
    → closing last
      ≡ ending (elim last as (λ x. Option StepStatus) [ none ↦ none | some st ↦ some st.status ])
closing-ending none = refl
closing-ending (some st) = closing-some st st.status refl

-- An answer other than "cancel" moves the active task of the session in one case only: it says
-- "complete", no run of the task is pending or running, and a step of the task is completed. The
-- task is then failed where its last step failed, cancelled where that one was cancelled, and
-- completed where it has any other status.
pub respond-status :
    (client : Client) (stops : Stops) (limits : Limits) (d : Draws) (turn : Turn)
    (call : AgentResponseCall) (s : Store) {t : AgentTask} {r : TaskRow}
    → active_task turn.session_key s ≡ some t
    → task_row t.task_id s ≡ some r
    → r.status ≡ TaskStatus.active
    → (call.task_state == "cancel") ≡ false
    → status_of t.task_id (respond client stops limits d turn call s).1
      ≡ some (
          if call.task_state == "complete"
            && is_nil (active_run_ids t.task_id s)
            && one_succeeded t.task_id s.steps
          then ending (last_status t.task_id s)
          else TaskStatus.active)
unfolding respond status_of
respond-status client stops limits d turn call s {t = t} {r = r} found known active going =
    let closed =
      close_task-status d.closed_at t.task_id call.message s known active
      ∙ ap some (closing-ending (last? (recent_steps t.task_id 1 s))) in
    let succeeded = has_successful_step-one_succeeded t.task_id s in
    elim (Bool-cases (call.task_state == "complete")) [
      | inl completes ↦
          let state = (eq_iff call.task_state "complete").0 completes in
          ground (
            arith,
            known,
            active,
            found,
            closed,
            succeeded,
            completes,
            ap (λ x. x == "none") state,
            ap (λ x. x == "wait") state,
          )
      | inr other ↦ elim (Bool-cases (call.task_state == "none")) [
        | inl none_said ↦ ground (arith, known, active, found, other, none_said)
        | inr said ↦ ground (arith, known, active, found, other, going, said)
      ]
    ]

-- ===== src/Tasks/Coordinator/Laws.antt =====
-- Submission persists before it dispatches and never runs two skills of one task; results are
-- applied once.
use xbotics_hey_robot.Prelude.{
  ℕ, ◌+◌, ◌≤◌, ◌≡◌, refl, ◌∙◌, String, true, false, ◌⊎◌, Option, none, some, [], ◌∷◌, ◌++◌, arith,
  if◌then◌else◌, leb, is_some, or_else, find-append, any, any_false→find, eq_refl, Option-cases,
  inl, inr, update_where,
}
use xbotics_hey_robot.Prelude.Result.{ok, raise}
use xbotics_hey_robot.Skills.Models.{SkillEvent}
use xbotics_hey_robot.Tasks.Rows.{
  TaskStatus, TaskRow, AgentTaskStep, Store, task_from_row, is_active, has_id, has_run, has_step_id,
}
use xbotics_hey_robot.Tasks.Queries.{task, task_row, active_run_ids}
use xbotics_hey_robot.Tasks.Updates.{finish, complete_from_environment}
use xbotics_hey_robot.Tasks.Steps.{StepReport, find_run, pending_step, submitted, resolved}
use xbotics_hey_robot.Tasks.Events.{
  find_run-apply_skill_event, fresh_event, stale_event, unknown_run,
}
use xbotics_hey_robot.Tasks.Wf.{IsWf}
use xbotics_hey_robot.Tasks.Submission.{add_pending_step_total}
use xbotics_hey_robot.Tasks.Coordinator.{
  Client, Drawn, Submission, non_active_task, already_active, command_of, rejected, after_dispatch,
  dispatch, is_nil, submit, report, apply_step, environment_text, settle, after_step, apply_result,
}

-- A task with a pending or running skill run, or one that is not active, gets no second run: the
-- submission raises, the store is as it was, and the client is never called.
pub submit_refused :
    (client : Client) (d : Drawn) (q : Submission) (s : Store) {r : TaskRow}
    → task_row q.task_id s ≡ some r
    → (is_active r.status ≡ false) ⊎ (is_nil (active_run_ids q.task_id s) ≡ false)
    → submit client d q s
      ≡ (raise (if is_active r.status then already_active else non_active_task), s)
unfolding submit task
submit_refused client d q s h (inl idle) = ground (arith, h, idle)
submit_refused client d q s {r = r} h (inr busy) = ground (arith, h, busy)

module _ (client : Client) (d : Drawn) (q : Submission) (s : Store) (w : IsWf s) {r : TaskRow}
    (known : task_row q.task_id s ≡ some r) (active : r.status ≡ TaskStatus.active)
    (idle : active_run_ids q.task_id s ≡ []) (new_id : any (has_step_id d.step_id) s.steps ≡ false)
    (new_run : any (has_run d.run_id) s.steps ≡ false) where
  -- The step that a submission writes, and the store with it.
  abbrev pub written : AgentTaskStep
  written =
      pending_step d.now d.step_id q.task_id (r.step_count + 1) q.proposal d.run_id q.tool_call_id

  abbrev pub persisted : Store
  persisted = record {
    tasks = update_where (has_id q.task_id) (submitted d.now (r.step_count + 1)) s.tasks;
    steps = s.steps ++ written ∷ [];
  }

  find_run-persisted : find_run d.run_id persisted ≡ some written
  unfolding find_run
  find_run-persisted = ground (
    arith,
    find-append (has_run d.run_id) s.steps (written ∷ []),
    any_false→find (has_run d.run_id) s.steps new_run,
    eq_refl d.run_id,
  )

  submit-after_dispatch :
      submit client d q s
      ≡ after_dispatch d written (client.submit (command_of d q (task_from_row r)) persisted)
  unfolding submit task dispatch
  submit-after_dispatch = ground (
    arith,
    known,
    active,
    idle,
    add_pending_step_total d.now d.step_id q.task_id q.proposal d.run_id q.tool_call_id s w known
        active new_id new_run,
  )

  -- In a well-formed store, for an active task with no live run and for ids that are new: the
  -- client is called with the pending step already in the store, under the run id of the command;
  -- if it raises nothing, that step is the answer, in the store as the client left it.
  pub submit_persists_first :
      (s' : Store)
      → client.submit (command_of d q (task_from_row r)) persisted ≡ (s', none)
      → (find_run d.run_id persisted ≡ some written) × (submit client d q s ≡ (ok written, s'))
  unfolding after_dispatch
  submit_persists_first s' h = (find_run-persisted, rw submit-after_dispatch (rw h))

  -- In a well-formed store, for an active task with no live run and for ids that are new: if the
  -- client raises and leaves the pending step as it is, the step is stored as failed under event
  -- number 1, and that failed step is the answer.
  pub submit_rejected :
      (s' : Store) (error_text : String)
      → client.submit (command_of d q (task_from_row r)) persisted ≡ (s', some error_text)
      → find_run d.run_id s' ≡ some written
      → let st = resolved d.completed_now (rejected d.run_id error_text) written in
        ((submit client d q s).0 ≡ ok st) × (find_run d.run_id (submit client d q s).1 ≡ some st)
  unfolding after_dispatch
  submit_rejected s' error_text h k =
      let e = rejected d.run_id error_text in
      rw (submit-after_dispatch, h)
        (ground (
          arith,
          fresh_event d.completed_now d.updated_now d.run_id e s' k refl,
          find_run-apply_skill_event d.completed_now d.updated_now d.run_id e s' k,
        ))

complete-steps :
    (now : ℕ) (id text : String) (s : Store)
    → (complete_from_environment now id text s).steps ≡ s.steps
unfolding complete_from_environment finish
complete-steps now id text s = ground arith

pub after_step-steps :
    (now : ℕ) (event : SkillEvent) (m : Option AgentTaskStep × Store)
    → (after_step now event m).1.steps ≡ m.1.steps
unfolding after_step settle
after_step-steps now event (none, s) = refl
after_step-steps now event (some st, s) =
    ground (arith, complete-steps now st.task_id (or_else (environment_text event) "") s)

pub find_run-steps :
    (run : String) (s t : Store) → t.steps ≡ s.steps → find_run run t ≡ find_run run s
unfolding find_run
find_run-steps run s t e = rw e

pub report-sequence :
    (event : SkillEvent) {e : StepReport}
    → report event ≡ some e
    → e.event_sequence ≡ event.sequence
unfolding report
report-sequence event h = ground arith

-- The run is unknown, or an event with this number or a higher one was applied to it.
abbrev pub IsSettled : String → ℕ → Store → Type 0
IsSettled run n s =
    (find_run run s ≡ none)
    ⊎ ((st : AgentTaskStep) × (find_run run s ≡ some st) × (n ≤ st.last_event_sequence))

leb_of_le : {a b n : ℕ} → a ≡ n → n ≤ b → leb a b ≡ true
leb_of_le e h = ground arith

IsSettled-steps :
    (run run' : String) (n n' : ℕ) (s t : Store)
    → t.steps ≡ s.steps
    → run' ≡ run
    → n' ≤ n
    → IsSettled run n s
    → IsSettled run' n' t
IsSettled-steps run run' n n' s t e same h (inl gone) =
    inl (rw same (find_run-steps run s t e ∙ gone))
IsSettled-steps run run' n n' s t e same h (inr (st, found, old)) =
    inr (st, rw same (find_run-steps run s t e ∙ found), omega arith)

apply_result_settled :
    (c u n : ℕ) (event : SkillEvent) (s : Store)
    → IsSettled event.run_id event.sequence s
    → apply_result c u n event s ≡ (none, s)
unfolding apply_result apply_step after_step
apply_result_settled c u n event s h = elim (Option-cases (report event)) [
  | inl silent ↦ rw (silent, apply_step)
  | inr (e, told) ↦ elim h [
    | inl gone ↦ ground (arith, told, unknown_run c u event.run_id e s gone)
    | inr (st, found, old) ↦ ground (
      arith,
      told,
      report-sequence event told,
      stale_event c u event.run_id e s found (leb_of_le (report-sequence event told) old),
    )
  ]
]

apply_step-IsSettled :
    (c u : ℕ) (event : SkillEvent) (s : Store) {e : StepReport}
    → report event ≡ some e
    → IsSettled event.run_id event.sequence (apply_step c u event s).1
unfolding apply_step
apply_step-IsSettled c u event s {e = e} told = elim (Option-cases (find_run event.run_id s)) [
  | inl gone ↦ inl (rw (told, apply_step) (rw (unknown_run c u event.run_id e s gone) gone))
  | inr (st, found) ↦
      let st' = if leb e.event_sequence st.last_event_sequence then st else resolved c e st in
      inr (
        st',
        rw (told, apply_step) (find_run-apply_skill_event c u event.run_id e s found),
        ground (arith, report-sequence event told),
      )
]

-- After an event whose phase gives a report, a result event of the same run with the same or a
-- lower number, the same event delivered again among them, is answered with nothing and leaves
-- the store as it is.
pub apply_result_late :
    (c u n c' u' n' : ℕ) (event late : SkillEvent) (s : Store)
    → late.run_id ≡ event.run_id
    → late.sequence ≤ event.sequence
    → is_some (report event) ≡ true
    → let s' = (apply_result c u n event s).1 in apply_result c' u' n' late s' ≡ (none, s')
unfolding apply_result
apply_result_late c u n c' u' n' event late s same h known = elim (Option-cases (report event)) [
  | inl silent ↦ absurd (ground arith)
  | inr (e, told) ↦
      let m = apply_step c u event s in
      apply_result_settled c' u' n' late (after_step n event m).1 (
        IsSettled-steps event.run_id late.run_id event.sequence late.sequence m.1
          (after_step n event m).1 (after_step-steps n event m) same h
          (apply_step-IsSettled c u event s told))
]

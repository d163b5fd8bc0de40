-- ===== src/Tasks/Events.antt =====
-- Skill events on the step of their run: stale and repeated events change nothing, and a newer one
-- is the last event of the step.
use xbotics_hey_robot.Prelude.{
  ℕ, ◌≤◌, ◌≡◌, refl, String, true, false, none, some, List, [], ◌∷◌, arith, if◌then◌else◌, not,
  ◌&&◌, find, find-holds, find-update_where, eq_iff, eq_refl, ◌==◌, Option-cases, inl, inr,
  update_where, leb,
}
use xbotics_hey_robot.Tasks.Rows.{
  TaskRow, AgentTaskStep, Store, is_active, is_final, has_id, has_run,
}
use xbotics_hey_robot.Tasks.Queries.{task_row}
use xbotics_hey_robot.Tasks.Steps.{StepReport, apply_skill_event, wake, resolved, find_run, woken}
use xbotics_hey_robot.Tasks.Status.{task_row-id}

find-other :
    (run other : String) (f : AgentTaskStep → AgentTaskStep) (xs : List AgentTaskStep)
    → (run == other) ≡ false
    → ((x : AgentTaskStep) → (f x).run_id ≡ x.run_id)
    → find (has_run other) (update_where (has_run run) f xs) ≡ find (has_run other) xs
find-other run other f [] h k = refl
find-other run other f (x ∷ xs) h k = elim (Option-cases x.run_id) [
  | inl e ↦ ground (arith, k x, find-other run other f xs h k)
  | inr (id, e) ↦
      ground (
        arith,
        k x,
        find-other run other f xs h k,
        eq_iff id run,
        eq_iff id other,
        eq_iff run other,
      )
]

-- The step of a run after an event on it: the event's report where it is newer than the last one
-- applied, and the old step where it is not. The call returns the new step in the first case only.
pub find_run-apply_skill_event :
    (c u : ℕ) (run : String) (e : StepReport) (s : Store) {st : AgentTaskStep}
    → find_run run s ≡ some st
    → find_run run (apply_skill_event c u run e s).1
      ≡ some (if leb e.event_sequence st.last_event_sequence then st else resolved c e st)
unfolding apply_skill_event wake find_run
find_run-apply_skill_event c u run e s {st = st} h = ground (
  arith,
  h,
  find-holds (has_run run) s.steps h,
  find-update_where (has_run run) (has_run run) (resolved c e) s.steps (λ x. refl),
)

pub unknown_run :
    (c u : ℕ) (run : String) (e : StepReport) (s : Store)
    → find_run run s ≡ none
    → apply_skill_event c u run e s ≡ (none, s)
unfolding apply_skill_event
unknown_run c u run e s h = rw (h, apply_skill_event)

pub stale_event :
    (c u : ℕ) (run : String) (e : StepReport) (s : Store) {st : AgentTaskStep}
    → find_run run s ≡ some st
    → leb e.event_sequence st.last_event_sequence ≡ true
    → apply_skill_event c u run e s ≡ (none, s)
unfolding apply_skill_event
stale_event c u run e s h old = rw (h, apply_skill_event, old)

pub fresh_event :
    (c u : ℕ) (run : String) (e : StepReport) (s : Store) {st : AgentTaskStep}
    → find_run run s ≡ some st
    → leb e.event_sequence st.last_event_sequence ≡ false
    → (apply_skill_event c u run e s).0 ≡ some (resolved c e st)
unfolding apply_skill_event
fresh_event c u run e s h new = rw (h, apply_skill_event, new)

-- An event that comes after one of its run with the same or a higher number, a repeated delivery
-- among them, is answered with nothing and leaves the store as the other left it.
pub apply_skill_event_late :
    (c u c' u' : ℕ) (run : String) (e late : StepReport) (s : Store)
    → late.event_sequence ≤ e.event_sequence
    → let s' = (apply_skill_event c u run e s).1 in apply_skill_event c' u' run late s' ≡ (none, s')
apply_skill_event_late c u c' u' run e late s h = elim (Option-cases (find_run run s)) [
  | inl gone ↦ rw (unknown_run c u run e s gone) (unknown_run c' u' run late s gone)
  | inr (st, found) ↦
      stale_event c' u' run late (apply_skill_event c u run e s).1
        (find_run-apply_skill_event c u run e s found) (ground arith)
]

-- The event of one run leaves the steps of every other run alone.
pub find_run-apply_skill_event_other :
    (c u : ℕ) (run other : String) (e : StepReport) (s : Store)
    → (run == other) ≡ false
    → find_run other (apply_skill_event c u run e s).1 ≡ find_run other s
unfolding apply_skill_event wake find_run
find_run-apply_skill_event_other c u run other e s h =
    ground (arith, h, find-other run other (resolved c e) s.steps h (λ x. refl))

-- A final event on an active task marks the task to be resumed after the step of the run; any
-- other event, and any event on a task that is not active, leaves the row of the task alone.
pub task_row-apply_skill_event :
    (c u : ℕ) (run : String) (e : StepReport) (s : Store) {st : AgentTaskStep} {r : TaskRow}
    → find_run run s ≡ some st
    → task_row st.task_id s ≡ some r
    → task_row st.task_id (apply_skill_event c u run e s).1
      ≡ some (
          if not (leb e.event_sequence st.last_event_sequence)
            && is_final e.status
            && is_active r.status
          then record r {
            resume_required = true;
            resume_after_sequence = st.sequence;
            updated_at = u;
          }
          else r)
unfolding apply_skill_event wake task_row
task_row-apply_skill_event c u run e s {st = st} {r = r} h k = ground (
  arith,
  h,
  k,
  task_row-id st.task_id s k,
  eq_refl st.task_id,
  find-update_where (has_id st.task_id) (λ x. has_id st.task_id x && is_active x.status)
      (woken u st.sequence) s.tasks (λ x. refl),
)

-- ===== src/Tasks/Coordinator/Completion.antt =====
-- Which events complete a task.
use xbotics_hey_robot.Prelude.{
  ℕ, ◌≡◌, refl, ◌==◌, String, false, Bool, true, not, ◌&&◌, Option, none, some, arith,
  if◌then◌else◌, leb, is_some, Bool-cases, Option-cases, inl, inr,
}
use xbotics_hey_robot.Prelude.Value.{Value, is_text, get_or_null}
use xbotics_hey_robot.Skills.Models.{SkillPhase, SkillResult, SkillEvent, is_terminal_phase}
use xbotics_hey_robot.Tasks.Rows.{TaskStatus, TaskRow, AgentTaskStep, Store, is_active}
use xbotics_hey_robot.Tasks.Queries.{task, task_row}
use xbotics_hey_robot.Tasks.Updates.{complete_from_environment}
use xbotics_hey_robot.Tasks.Steps.{apply_skill_event, find_run, resolved}
use xbotics_hey_robot.Tasks.Status.{finish_lem}
use xbotics_hey_robot.Tasks.Events.{fresh_event, stale_event, task_row-apply_skill_event}
use xbotics_hey_robot.Tasks.Coordinator.{
  report, apply_step, environment_text, settle, after_step, apply_result,
}
use xbotics_hey_robot.Tasks.Coordinator.Laws.{report-sequence}

-- The environment declares a task done by a text under this key of a result.
abbrev pub says_done : Value → Bool
says_done (Value.string reason) = reason == "environment_done"
says_done Value.null = false
says_done (Value.boolean b) = false
says_done (Value.number z) = false
says_done (Value.array xs) = false
says_done (Value.dict kvs) = false

abbrev pub is_end_of_run : SkillPhase → Bool
is_end_of_run SkillPhase.accepted = false
is_end_of_run SkillPhase.running = false
is_end_of_run SkillPhase.progress = false
is_end_of_run SkillPhase.completed = true
is_end_of_run SkillPhase.failed = true
is_end_of_run SkillPhase.cancelled = true

abbrev pub succeeded_done : Option SkillResult → Bool
succeeded_done none = false
succeeded_done (some r) = r.success && says_done (get_or_null r.extra "termination_reason")

-- The event is new to the run, the task is active, and the event is the end of the run with a
-- result that is a success and names the environment as its reason.
abbrev pub ended_by : SkillEvent → AgentTaskStep → TaskRow → Bool
ended_by event st r =
    not (leb event.sequence st.last_event_sequence)
    && (is_end_of_run event.phase && succeeded_done event.result)
    && is_active r.status

says_done-is_text : (v : Value) → is_text v "environment_done" ≡ says_done v
says_done-is_text (Value.string reason) = refl
says_done-is_text Value.null = refl
says_done-is_text (Value.boolean b) = refl
says_done-is_text (Value.number z) = refl
says_done-is_text (Value.array xs) = refl
says_done-is_text (Value.dict kvs) = refl

is_end_of_run-is_terminal : (phase : SkillPhase) → is_terminal_phase phase ≡ is_end_of_run phase
is_end_of_run-is_terminal SkillPhase.accepted = refl
is_end_of_run-is_terminal SkillPhase.running = refl
is_end_of_run-is_terminal SkillPhase.progress = refl
is_end_of_run-is_terminal SkillPhase.completed = refl
is_end_of_run-is_terminal SkillPhase.failed = refl
is_end_of_run-is_terminal SkillPhase.cancelled = refl

environment_text-declared :
    (event : SkillEvent)
    → is_some (environment_text event) ≡ is_end_of_run event.phase && succeeded_done event.result
unfolding environment_text
environment_text-declared event = elim (Option-cases event.result) [
  | inl silent ↦ ground (arith, silent)
  | inr (r, told) ↦ ground (
    arith,
    told,
    is_end_of_run-is_terminal event.phase,
    says_done-is_text (get_or_null r.extra "termination_reason"),
  )
]

unfoldable pub status_of : String → Store → Option TaskStatus
status_of id s = elim (task_row id s) [ none ↦ none | some r ↦ some r.status ]

complete_lem :
    (now : ℕ) (id text : String) (s : Store) {r : TaskRow}
    → task_row id s ≡ some r
    → status_of id (complete_from_environment now id text s)
      ≡ some (if is_active r.status then TaskStatus.completed else r.status)
unfolding status_of complete_from_environment task
complete_lem now id text s {r = r} h =
    ground (arith, h, finish_lem now id TaskStatus.completed none (some text) s h)

environment_reports :
    (event : SkillEvent) {text : String}
    → environment_text event ≡ some text
    → is_some (report event) ≡ true
unfolding environment_text report
environment_reports event h = ground arith

after_step-status :
    (now : ℕ) (event : SkillEvent) (st : AgentTaskStep) (s : Store) {r : TaskRow}
    → task_row st.task_id s ≡ some r
    → status_of st.task_id (after_step now event (some st, s)).1
      ≡ some (
          if is_some (environment_text event) && is_active r.status
          then TaskStatus.completed
          else r.status)
unfolding after_step settle task status_of
after_step-status now event st s {r = r} h = elim (Option-cases (environment_text event)) [
  | inl quiet ↦ ground (arith, h, quiet)
  | inr (text, told) ↦ ground (arith, h, told, complete_lem now st.task_id text s h)
]

-- A result event completes the task of its run exactly where it is new to the run, the task is
-- active, and the event ends the run with a result that is a success and whose
-- `termination_reason` is "environment_done". Any other event leaves the status of the task as it
-- was.
pub apply_result-status :
    (c u n : ℕ) (event : SkillEvent) (s : Store) {st : AgentTaskStep} {r : TaskRow}
    → find_run event.run_id s ≡ some st
    → task_row st.task_id s ≡ some r
    → status_of st.task_id (apply_result c u n event s).1
      ≡ some (if ended_by event st r then TaskStatus.completed else r.status)
unfolding apply_result apply_step status_of after_step
apply_result-status c u n event s {st = st} {r = r} h k = elim (Option-cases (report event)) [
  | inl silent ↦ elim (Option-cases (environment_text event)) [
    | inl quiet ↦ ground (arith, k, silent, quiet, environment_text-declared event)
    | inr (text, told) ↦ absurd (ground (arith, environment_reports event told))
  ]
  | inr (e, told) ↦ elim (Bool-cases (leb e.event_sequence st.last_event_sequence)) [
    | inl old ↦
        ground (arith, told, k, report-sequence event told, stale_event c u event.run_id e s h old)
    | inr new ↦
        let s1 = (apply_skill_event c u event.run_id e s).1 in
        ground (
          arith,
          told,
          report-sequence event told,
          environment_text-declared event,
          fresh_event c u event.run_id e s h new,
          after_step-status n event (resolved c e st) s1
              (task_row-apply_skill_event c u event.run_id e s h k),
        )
  ]
]

-- ===== src/Skills/Runner.antt =====
-- SkillRunner, src/hey_robot/skills/runner.py. What a handler does under `asyncio.wait_for`, with the
-- resources granted, is its course: the progress that it reports and its end. An event sink that
-- takes every event is the list of the events; `clock` gives their times by their numbers.
pub mod Sequence
pub mod Reports
mod Examples
use xbotics_hey_robot.Prelude.{
  ℕ, ◌+◌, ◌-◌, String, Bool, true, false, not, ◌&&◌, Option, none, some, List, [], ◌∷◌, ◌++◌,
  if◌then◌else◌, ltb, ◌==◌, find, keep,
}
use xbotics_hey_robot.Prelude.Result.{Result, ok, raise}
use xbotics_hey_robot.Prelude.Text.{concat, has}
use xbotics_hey_robot.Prelude.Value.{Fields, end}
use xbotics_hey_robot.Skills.Models.{SkillPhase, SkillStatus, SkillResult, SkillCommand, SkillEvent}
use xbotics_hey_robot.Tools.Schema.{Python, SchemaError, validate_arguments}

-- How a handler ends: by returning, or by an exception, with its text.
pub data End : Type 0 where
  returned : SkillResult → End
  task_cancelled timed_out : End
  skill_cancelled failed : String → End

pub record Course : Type 0 where
  pub progress : List (ℕ × Option String)
  pub outcome : End

-- The handler takes its timeout and its arguments.
pub record Skill : Type 0 where
  pub name : String
  pub parameters : Fields
  pub timeout : ℕ
  pub handler : ℕ → Fields → Course

-- A run without an entry in `_sequences` reads 0.
pub record Runner : Type 0 where
  pub cancelled : List String
  pub sequences : String → ℕ

unfoldable pub cancel : String → Runner → Runner
cancel run k = record k { cancelled = run ∷ k.cancelled }

abbrev pub set_sequence : String → ℕ → Runner → Runner
set_sequence run n k = record k {
  sequences = λ other. if other == run then n else k.sequences other;
}

-- `_clear_run_state`
unfoldable pub clear_run_state : String → Runner → Runner
clear_run_state run k = record (set_sequence run 0 k) {
  cancelled = keep (λ other. not (other == run)) k.cancelled;
}

abbrev pub plain_result : SkillStatus → String → Option String → Option String → SkillResult
plain_result status summary failure_mode error = record {
  success = false;
  summary = summary;
  status = status;
  extra = end;
  evidence_ids = [];
  observations = [];
  artifacts = [];
  failure_mode = failure_mode;
  error = error;
  observation_error = none;
}

abbrev pub is_completed_result : SkillResult → Bool
is_completed_result r = elim r.status [ SkillStatus.completed ↦ true | _ ↦ false ]

unfoldable pub normalize_result : SkillResult → SkillResult
normalize_result r =
    if r.success && not (is_completed_result r)
    then record r { status = SkillStatus.completed }
    else if not r.success && is_completed_result r
    then record r { status = SkillStatus.failed }
    else r

abbrev pub phase_of : SkillStatus → SkillPhase
phase_of SkillStatus.completed = SkillPhase.completed
phase_of SkillStatus.failed = SkillPhase.failed
phase_of SkillStatus.cancelled = SkillPhase.cancelled

-- `_effective_timeout`, in milliseconds
unfoldable pub effective_timeout : ℕ → Option ℕ → ℕ → ℕ
effective_timeout now none timeout = timeout
effective_timeout now (some deadline) timeout =
    let left = deadline - now in
    let least = if ltb timeout left then timeout else left in if ltb least 1 then 1 else least

unfoldable pub end_result : String → End → SkillResult
end_result name (returned r) = r
end_result name task_cancelled =
    plain_result SkillStatus.cancelled "skill cancelled" (some "cancelled") none
end_result name (skill_cancelled text) =
    plain_result SkillStatus.cancelled "skill cancelled" (some "cancelled") (some text)
end_result name timed_out =
    plain_result SkillStatus.failed (concat name " timed out") (some "timeout") none
end_result name (failed text) =
    plain_result SkillStatus.failed (concat name " failed") (some "internal_error") (some text)

-- `str` of the errors of a request: of the KeyError for an unknown skill, and of the schema.
pub record Texts : Type 0 where
  pub unknown : String → String
  pub invalid : SchemaError → String

-- What a call has done so far: its events, and the state of the runner.
pub record Trace : Type 0 where
  pub events : List SkillEvent
  pub runner : Runner

module _ (clock : ℕ → ℕ) (command : SkillCommand) where
  abbrev pub event_of :
      ℕ → String → SkillPhase → Option ℕ → Option String → Option SkillResult → SkillEvent
  event_of sequence name phase progress summary result = record {
    envelope = command.envelope;
    run_id = command.run_id;
    sequence = sequence;
    name = name;
    phase = phase;
    timestamp = clock sequence;
    progress = progress;
    frame_id = none;
    summary = summary;
    result = result;
  }

  -- `_emit`
  unfoldable pub emit :
      String → SkillPhase → Option ℕ → Option String → Option SkillResult → Trace → Trace
  emit name phase progress summary result t =
      let sequence = t.runner.sequences command.run_id + 1 in
      record {
        events = t.events ++ event_of sequence name phase progress summary result ∷ [];
        runner = set_sequence command.run_id sequence t.runner;
      }

  abbrev pub emit_phase : String → SkillPhase → Trace → Trace
  emit_phase name phase = emit name phase none none none

  abbrev pub emit_result : String → SkillResult → Trace → Trace
  emit_result name result = emit name (phase_of result.status) none none (some result)

  unfoldable pub emit_progress : String → List (ℕ × Option String) → Trace → Trace
  unfolding emit
  emit_progress name [] t = t
  emit_progress name ((value, summary) ∷ rest) t =
      emit_progress name rest (emit name SkillPhase.progress (some value) summary none t)

  -- `_execute_skill`
  abbrev pub course_of : ℕ → Skill → Fields → Runner → Course
  course_of now skill arguments k =
      if has k.cancelled command.run_id
      then record {
        progress = [];
        outcome = skill_cancelled (concat "skill run " (concat command.run_id " was cancelled"));
      }
      else skill.handler (effective_timeout now command.deadline_at skill.timeout) arguments

  abbrev pub finish_execution :
      String → SkillResult → Trace → Result SchemaError SkillResult × Trace
  finish_execution name result t =
      let t' = emit_result name result t in
      (ok result, record t' { runner = clear_run_state command.run_id t'.runner })

  abbrev pub run_skill : ℕ → Skill → Fields → Trace → Result SchemaError SkillResult × Trace
  run_skill now skill arguments t =
      let t' =
        emit_phase skill.name SkillPhase.running (emit_phase skill.name SkillPhase.accepted t) in
      let course = course_of now skill arguments t'.runner in
      finish_execution skill.name (normalize_result (end_result skill.name course.outcome))
        (emit_progress skill.name course.progress t')

  abbrev pub rejection : String → SkillResult
  rejection error =
      plain_result SkillStatus.failed (concat command.name " rejected") (some "invalid_request")
        (some error)

  abbrev pub reject_request : String → Trace → Result SchemaError SkillResult × Trace
  reject_request error t =
      finish_execution command.name (rejection error)
        (emit_phase command.name SkillPhase.accepted t)

  -- A TypeError of the validation is not caught.
  abbrev pub run_valid :
      ℕ → Texts → Skill → Result SchemaError Fields → Trace → Result SchemaError SkillResult × Trace
  run_valid now texts skill (ok arguments) t = run_skill now skill arguments t
  run_valid now texts skill (raise SchemaError.type_error) t = (raise SchemaError.type_error, t)
  run_valid now texts skill (raise e) t = reject_request (texts.invalid e) t

abbrev pub skill_called : String → Skill → Bool
skill_called name skill = skill.name == name

-- `SkillRunner.execute`
unfoldable pub execute :
    (ℕ → ℕ)
    → Python
    → Texts
    → List Skill
    → ℕ
    → SkillCommand
    → Runner
    → Result SchemaError SkillResult × Trace
unfolding emit emit_progress clear_run_state normalize_result end_result effective_timeout
execute clock py texts registry now command k =
    let t : Trace = record { events = []; runner = k } in
    elim (find (skill_called command.name) registry) [
      | none ↦ reject_request clock command (texts.unknown command.name) t
      | some skill ↦
          run_valid clock command now texts skill
            (validate_arguments py skill.parameters command.arguments) t
    ]

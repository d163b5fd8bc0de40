-- ===== src/Skills/Runner/Sequence.antt =====
-- The events that one execution emits.
use xbotics_hey_robot.Prelude.{
  ℕ, ◌+◌, ◌≡◌, ◌∙◌, refl, String, false, not, Option, none, some, List, [], ◌∷◌, ◌++◌, arith,
  length, length-append, keep, ◌==◌, eq_refl, find, Bool-cases, Option-cases, inl, inr, ◌⊎◌,
}
use xbotics_hey_robot.Prelude.Result.{Result, ok, raise}
use xbotics_hey_robot.Prelude.Text.{has}
use xbotics_hey_robot.Prelude.Value.{Fields}
use xbotics_hey_robot.Skills.Models.{
  SkillPhase, SkillResult, SkillCommand, SkillEvent, is_terminal_phase,
}
use xbotics_hey_robot.Tools.Schema.{Python, SchemaError, validate_arguments}
use xbotics_hey_robot.Skills.Runner.{
  rejection, Skill, Runner, Texts, Trace, phase_of, emit, event_of, emit_phase, emit_progress,
  end_result, course_of, finish_execution, run_skill, reject_request, run_valid, normalize_result,
  is_completed_result, clear_run_state, skill_called, execute,
}

-- Events of a run, numbered from `k + 1` on, none of which ends it.
abbrev pub IsGoing : String → ℕ → List SkillEvent → Type 0
IsGoing run k [] = Unit
IsGoing run k (e ∷ rest) =
    (e.run_id ≡ run)
    × (e.sequence ≡ k + 1)
    × (is_terminal_phase e.phase ≡ false)
    × IsGoing run (k + 1) rest

-- Events of a run, numbered from `k + 1` on, of which the last one, and no other, ends it with a
-- result.
abbrev pub IsWhole : String → ℕ → List SkillEvent → SkillResult → Type 0
IsWhole run k [] result = ⊥
IsWhole run k (e ∷ []) result =
    (e.run_id ≡ run)
    × (e.sequence ≡ k + 1)
    × (e.phase ≡ phase_of result.status)
    × (e.result ≡ some result)
IsWhole run k (e ∷ f ∷ rest) result =
    (e.run_id ≡ run)
    × (e.sequence ≡ k + 1)
    × (is_terminal_phase e.phase ≡ false)
    × IsWhole run (k + 1) (f ∷ rest) result

length_more : (es : List SkillEvent) (e : SkillEvent) → length (es ++ e ∷ []) ≡ length es + 1
length_more es e = length-append es (e ∷ []) ∙ omega arith

IsGoing-append :
    (run : String) (k : ℕ) (es : List SkillEvent) (e : SkillEvent)
    → IsGoing run k es
    → e.run_id ≡ run
    → e.sequence ≡ k + length es + 1
    → is_terminal_phase e.phase ≡ false
    → IsGoing run k (es ++ e ∷ [])
IsGoing-append run k [] e h own number open_ended = (own, ground (arith, number), open_ended, tt)
IsGoing-append run k (f ∷ es) e h own number open_ended =
    (h.0, h.1, h.2, IsGoing-append run (k + 1) es e h.3 own (ground (arith, number)) open_ended)

IsWhole-append :
    (run : String) (k : ℕ) (es : List SkillEvent) (e : SkillEvent) (result : SkillResult)
    → IsGoing run k es
    → e.run_id ≡ run
    → e.sequence ≡ k + length es + 1
    → e.phase ≡ phase_of result.status
    → e.result ≡ some result
    → IsWhole run k (es ++ e ∷ []) result
IsWhole-append run k [] e result h own number ends told = (own, ground (arith, number), ends, told)
IsWhole-append run k (f ∷ []) e result h own number ends told = (
  h.0,
  h.1,
  h.2,
  IsWhole-append run (k + 1) [] e result tt own (ground (arith, number)) ends told,
)
IsWhole-append run k (f ∷ g ∷ es) e result h own number ends told = (
  h.0,
  h.1,
  h.2,
  IsWhole-append run (k + 1) (g ∷ es) e result h.3 own (ground (arith, number)) ends told,
)

module _ (clock : ℕ → ℕ) (command : SkillCommand) where
  -- What was emitted is numbered without a gap and does not end the run.
  abbrev IsOpen : Trace → Type 0
  IsOpen t =
      IsGoing command.run_id 0 t.events × (t.runner.sequences command.run_id ≡ length t.events)

  emit-IsOpen :
      (name : String) (phase : SkillPhase) (progress : Option ℕ) (summary : Option String)
      (result : Option SkillResult) (t : Trace)
      → is_terminal_phase phase ≡ false
      → IsOpen t
      → IsOpen (emit clock command name phase progress summary result t)
  unfolding emit
  emit-IsOpen name phase progress summary result t going h =
      let n = t.runner.sequences command.run_id + 1 in
      let e = event_of clock command n name phase progress summary result in
      (
        IsGoing-append command.run_id 0 t.events e h.0 refl (ground (arith, h.1)) going,
        ground (arith, h.1, eq_refl command.run_id, length_more t.events e),
      )

  emit_progress-IsOpen :
      (name : String) (reports : List (ℕ × Option String)) (t : Trace)
      → IsOpen t
      → IsOpen (emit_progress clock command name reports t)
  unfolding emit_progress
  emit_progress-IsOpen name [] t h = h
  emit_progress-IsOpen name ((value, summary) ∷ rest) t h =
      emit_progress-IsOpen name rest
        (emit clock command name SkillPhase.progress (some value) summary none t)
        (emit-IsOpen name SkillPhase.progress (some value) summary none t refl h)

  -- What a call leaves behind it: its answer is the result of the last event, of which the status
  -- says whether it is a success, the events are whole, and nothing is kept of the run.
  abbrev pub IsDone : Result SchemaError SkillResult × Trace → SkillResult → Type 0
  IsDone m result =
      (m.0 ≡ ok result)
      × (is_completed_result result ≡ result.success)
      × IsWhole command.run_id 0 m.1.events result
      × (m.1.runner.sequences command.run_id ≡ 0)
      × (has m.1.runner.cancelled command.run_id ≡ false)

  discard-has :
      (run : String) (runs : List String)
      → has (keep (λ other. not (other == run)) runs) run ≡ false
  unfolding has
  discard-has run [] = refl
  discard-has run (other ∷ runs) = ground (arith, discard-has run runs)

  finish_execution-IsDone :
      (name : String) (result : SkillResult) (t : Trace)
      → is_completed_result result ≡ result.success
      → IsOpen t
      → IsDone (finish_execution clock command name result t) result
  unfolding emit clear_run_state
  finish_execution-IsDone name result t sound h =
      let n = t.runner.sequences command.run_id + 1 in
      let e = event_of clock command n name (phase_of result.status) none none (some result) in
      (
        refl,
        sound,
        IsWhole-append command.run_id 0 t.events e result h.0 refl (ground (arith, h.1)) refl refl,
        ground (arith, eq_refl command.run_id),
        discard-has command.run_id t.runner.cancelled,
      )

  normalize_result_sound :
      (r : SkillResult) → is_completed_result (normalize_result r) ≡ (normalize_result r).success
  unfolding normalize_result
  normalize_result_sound r = elim (Bool-cases r.success) [
    | inl won ↦ elim (Bool-cases (is_completed_result r)) [
      | inl kept ↦ ground (arith, won, kept)
      | inr other ↦ ground (arith, won, other)
    ]
    | inr lost ↦ elim (Bool-cases (is_completed_result r)) [
      | inl other ↦ ground (arith, lost, other)
      | inr kept ↦ ground (arith, lost, kept)
    ]
  ]

  run_skill-IsDone :
      (now : ℕ) (skill : Skill) (arguments : Fields) (t : Trace)
      → IsOpen t
      → (result : SkillResult) × IsDone (run_skill clock command now skill arguments t) result
  run_skill-IsDone now skill arguments t h =
      let accepted = emit_phase clock command skill.name SkillPhase.accepted t in
      let running = emit_phase clock command skill.name SkillPhase.running accepted in
      let course = course_of clock command now skill arguments running.runner in
      let result = normalize_result (end_result skill.name course.outcome) in
      (
        result,
        finish_execution-IsDone skill.name result
            (emit_progress clock command skill.name course.progress running)
            (normalize_result_sound (end_result skill.name course.outcome))
            (emit_progress-IsOpen skill.name course.progress running (
              emit-IsOpen skill.name SkillPhase.running none none none accepted refl
                (emit-IsOpen skill.name SkillPhase.accepted none none none t refl h))),
      )

  reject_request-IsDone :
      (error : String) (t : Trace)
      → IsOpen t
      → (result : SkillResult) × IsDone (reject_request clock command error t) result
  reject_request-IsDone error t h = (
    rejection clock command error,
    finish_execution-IsDone command.name (rejection clock command error)
        (emit_phase clock command command.name SkillPhase.accepted t) refl
        (emit-IsOpen command.name SkillPhase.accepted none none none t refl h),
  )

  run_valid-IsDone :
      (now : ℕ) (texts : Texts) (skill : Skill) (m : Result SchemaError Fields) (t : Trace)
      → IsOpen t
      → ((result : SkillResult) × IsDone (run_valid clock command now texts skill m t) result)
        ⊎ (run_valid clock command now texts skill m t ≡ (raise SchemaError.type_error, t))
  run_valid-IsDone now texts skill (ok arguments) t h =
      inl (run_skill-IsDone now skill arguments t h)
  run_valid-IsDone now texts skill (raise SchemaError.type_error) t h = inr refl
  run_valid-IsDone now texts skill (raise SchemaError.not_object) t h =
      inl (reject_request-IsDone (texts.invalid SchemaError.not_object) t h)
  run_valid-IsDone now texts skill (raise SchemaError.missing_other) t h =
      inl (reject_request-IsDone (texts.invalid SchemaError.missing_other) t h)
  run_valid-IsDone now texts skill (raise (SchemaError.unexpected ns)) t h =
      inl (reject_request-IsDone (texts.invalid (SchemaError.unexpected ns)) t h)
  run_valid-IsDone now texts skill (raise (SchemaError.missing n)) t h =
      inl (reject_request-IsDone (texts.invalid (SchemaError.missing n)) t h)
  run_valid-IsDone now texts skill (raise (SchemaError.wrong_type n k)) t h =
      inl (reject_request-IsDone (texts.invalid (SchemaError.wrong_type n k)) t h)
  run_valid-IsDone now texts skill (raise (SchemaError.not_among n)) t h =
      inl (reject_request-IsDone (texts.invalid (SchemaError.not_among n)) t h)
  run_valid-IsDone now texts skill (raise (SchemaError.too_short n z)) t h =
      inl (reject_request-IsDone (texts.invalid (SchemaError.too_short n z)) t h)
  run_valid-IsDone now texts skill (raise (SchemaError.too_small n z)) t h =
      inl (reject_request-IsDone (texts.invalid (SchemaError.too_small n z)) t h)
  run_valid-IsDone now texts skill (raise (SchemaError.too_large n z)) t h =
      inl (reject_request-IsDone (texts.invalid (SchemaError.too_large n z)) t h)

  -- A command whose run is new to the runner is answered with a result, whatever the handler does:
  -- the events of the run are numbered from 1 on without a gap, the last one and no other ends the
  -- run and carries that result, its status says whether it is a success, and the runner keeps
  -- nothing of the run. The one exception is a TypeError of the validation, which is passed on, with
  -- no event at all.
  pub execute_ends :
      (py : Python) (texts : Texts) (registry : List Skill) (now : ℕ) (k : Runner)
      → k.sequences command.run_id ≡ 0
      → ((result : SkillResult) × IsDone (execute clock py texts registry now command k) result)
        ⊎ (execute clock py texts registry now command k
            ≡ (raise SchemaError.type_error, record { events = []; runner = k }))
  unfolding execute
  execute_ends py texts registry now k fresh =
      let t : Trace = record { events = []; runner = k } in
      elim (Option-cases (find (skill_called command.name) registry)) [
        | inl unknown ↦
            rw (unknown, execute)
              (inl (reject_request-IsDone (texts.unknown command.name) t (tt, fresh)))
        | inr (skill, found) ↦
            rw (found, execute)
              (run_valid-IsDone now texts skill
                (validate_arguments py skill.parameters command.arguments) t (tt, fresh))
      ]

-- ===== src/Skills/Runner/Reports.antt =====
-- What the events of one execution make of the step of its run, once the coordinator has applied
-- them in order.
use xbotics_hey_robot.Prelude.{
  ℕ, ◌+◌, ◌≡◌, ◌∙◌, refl, ap, subst, String, false, some, List, [], ◌∷◌, arith, length, leb,
  Option-cases, inl, inr,
}
use xbotics_hey_robot.Tasks.Rows.{StepStatus, AgentTaskStep, Store}
use xbotics_hey_robot.Tasks.Steps.{StepReport, resolved, find_run}
use xbotics_hey_robot.Tasks.Events.{find_run-apply_skill_event}
use xbotics_hey_robot.Tasks.Coordinator.{report, apply_step, apply_result}
use xbotics_hey_robot.Tasks.Coordinator.Laws.{report-sequence, after_step-steps, find_run-steps}
use xbotics_hey_robot.Skills.Models.{
  SkillStatus, SkillResult, SkillCommand, SkillEvent, is_terminal_phase, to_tool_outcome,
}
use xbotics_hey_robot.Skills.Runner.{phase_of, Skill, Runner, Texts, execute}
use xbotics_hey_robot.Tools.Schema.{Python}
use xbotics_hey_robot.Prelude.Result.{ok}
use xbotics_hey_robot.Skills.Runner.Sequence.{IsWhole, execute_ends}

abbrev pub step_status : SkillStatus → StepStatus
step_status SkillStatus.completed = StepStatus.completed
step_status SkillStatus.failed = StepStatus.failed
step_status SkillStatus.cancelled = StepStatus.cancelled

-- The report of the event that ends a run.
abbrev pub last_report : String → ℕ → SkillResult → StepReport
last_report run sequence result = record {
  outcome = to_tool_outcome result run;
  status = step_status result.status;
  event_sequence = sequence;
}

module _ (c u n : ℕ) where
  -- The events applied one after the other.
  abbrev pub apply_all : List SkillEvent → Store → Store
  apply_all [] s = s
  apply_all (e ∷ es) s = apply_all es (apply_result c u n e s).1

  find_run-apply_result :
      (run : String) (event : SkillEvent) {e : StepReport} (s : Store) {st : AgentTaskStep}
      → event.run_id ≡ run
      → report event ≡ some e
      → leb event.sequence st.last_event_sequence ≡ false
      → find_run run s ≡ some st
      → find_run run (apply_result c u n event s).1 ≡ some (resolved c e st)
  unfolding apply_result apply_step
  find_run-apply_result run event {e = e} s {st = st} own told new found =
      find_run-steps run (apply_step c u event s).1 (apply_result c u n event s).1
        (after_step-steps n event (apply_step c u event s))
      ∙ ground (
        arith,
        own,
        told,
        new,
        report-sequence event told,
        find_run-apply_skill_event c u run e s found,
      )

  going-report :
      (event : SkillEvent)
      → is_terminal_phase event.phase ≡ false
      → (e : StepReport) × (report event ≡ some e)
  unfolding report
  going-report event h = elim (Option-cases (report event)) [
    | inl silent ↦ absurd (ground (arith, h, silent))
    | inr found ↦ found
  ]

  last-report :
      (event : SkillEvent) (result : SkillResult)
      → event.phase ≡ phase_of result.status
      → event.result ≡ some result
      → report event ≡ some (last_report event.run_id event.sequence result)
  unfolding report
  last-report event result ends told = of_status result.status refl
    where
      of_status :
          (status : SkillStatus)
          → result.status ≡ status
          → report event ≡ some (last_report event.run_id event.sequence result)
      of_status SkillStatus.completed same = ground (arith, ends, told, same)
      of_status SkillStatus.failed same = ground (arith, ends, told, same)
      of_status SkillStatus.cancelled same = ground (arith, ends, told, same)

  whole_from :
      (run : String) (k : ℕ) (events : List SkillEvent) (result : SkillResult) (s : Store)
      {st : AgentTaskStep}
      → IsWhole run k events result
      → find_run run s ≡ some st
      → st.last_event_sequence ≡ k
      → (st' : AgentTaskStep) × (find_run run (apply_all events s) ≡ some st')
        × (st'.status ≡ step_status result.status)
        × (st'.outcome ≡ to_tool_outcome result run)
        × (st'.last_event_sequence ≡ k + length events)
  whole_from run k [] result s h found at = absurd h
  whole_from run k (event ∷ []) result s {st = st} h found at =
      let e = last_report event.run_id event.sequence result in
      let after =
        find_run-apply_result run event s h.0 (last-report event result h.2 h.3)
          (ground (arith, at, h.1)) found in
      (resolved c e st, after, refl, ap (to_tool_outcome result) h.0, h.1 ∙ omega arith)
  whole_from run k (event ∷ next ∷ events) result s {st = st} h found at =
      let (e, told) = going-report event h.2 in
      let after = find_run-apply_result run event s h.0 told (ground (arith, at, h.1)) found in
      let (st', found', status, outcome, last) =
        whole_from run (k + 1) (next ∷ events) result (apply_result c u n event s).1 h.3 after
          (report-sequence event told ∙ h.1) in
      (st', found', status, outcome, ground (arith, last))

  apply_all-whole :
      (run : String) (events : List SkillEvent) (result : SkillResult) (s : Store)
      {st : AgentTaskStep}
      → IsWhole run 0 events result
      → find_run run s ≡ some st
      → st.last_event_sequence ≡ 0
      → (st' : AgentTaskStep) × (find_run run (apply_all events s) ≡ some st')
        × (st'.status ≡ step_status result.status)
        × (st'.outcome ≡ to_tool_outcome result run)
        × (st'.last_event_sequence ≡ length events)
  apply_all-whole run events result s h found new =
      let (st', after, status, outcome, last) = whole_from run 0 events result s h found new in
      (st', after, status, outcome, ground (arith, last))

  -- From the runner to the task store: where a command whose run is new to the runner is answered
  -- with a result, and its events are applied in their order to a store that has the step of the run
  -- with no event yet, the step ends with the status and the outcome of that result, and with the
  -- number of the events as the last one applied, so none of them was dropped.
  pub execute_reported :
      (clock : ℕ → ℕ) (py : Python) (texts : Texts) (registry : List Skill) (now : ℕ)
      (command : SkillCommand) (k : Runner) (s : Store) {st : AgentTaskStep} {result : SkillResult}
      → let (answer, t) = execute clock py texts registry now command k in
        k.sequences command.run_id ≡ 0
        → answer ≡ ok result
        → find_run command.run_id s ≡ some st
        → st.last_event_sequence ≡ 0
        → (st' : AgentTaskStep) × (find_run command.run_id (apply_all t.events s) ≡ some st')
          × (st'.status ≡ step_status result.status)
          × (st'.outcome ≡ to_tool_outcome result command.run_id)
          × (st'.last_event_sequence ≡ length t.events)
  execute_reported clock py texts registry now command k s {result = result} fresh answered found
        new =
      let m = execute clock py texts registry now command k in
      elim (execute_ends clock command py texts registry now k fresh) [
        | inr broken ↦ absurd (ground (arith, answered, broken))
        | inl (told, done) ↦
            let same : told ≡ result = ground (arith, answered, done.0) in
            apply_all-whole command.run_id m.1.events result s
              (subst (λ r. IsWhole command.run_id 0 m.1.events r) same done.2) found new
      ]

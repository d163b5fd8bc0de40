-- ===== src/Skills/Worker/Cancel/Stop.antt =====
-- What the emergency stop does to the runs of a robot, src/hey_robot/skills/worker.py, and what the
-- runner makes of a run with its mark, src/hey_robot/skills/runner.py.
use xbotics_hey_robot.Prelude.{
  ℕ, ◌≡◌, refl, ap, ◌∙◌, String, Bool, true, false, not, ◌||◌, Option, none, some, List, [], ◌∷◌,
  arith, find, map, find_some→any, ◌==◌, eq_iff, eq_refl, Bool-cases, inl, inr,
}
use xbotics_hey_robot.Prelude.Text.{concat, has}
use xbotics_hey_robot.Prelude.Result.{ok}
use xbotics_hey_robot.Prelude.Value.{Fields}
use xbotics_hey_robot.Skills.Models.{SkillCommand, SkillPhase, SkillEvent, SkillStatus, SkillResult}
use xbotics_hey_robot.Tools.Schema.{Python, validate_arguments}
use xbotics_hey_robot.Skills.Runner.{
  Runner, Skill, Texts, skill_called, execute, emit, emit_progress, normalize_result, end_result,
  run_skill, plain_result,
}
use xbotics_hey_robot.Skills.Runner as Runners
use xbotics_hey_robot.Skills.Worker.{Worker, is_owned, has_run_id}
use xbotics_hey_robot.Skills.Worker.Cancel.{
  Shell, holds, begin_cancel, end_cancel, each, run_ids_of, cancel_robot, emergency_stop,
}

-- A run that is being cancelled has its mark.
abbrev is_safe : String → Shell → Bool
is_safe id s = not (holds id s.cancelling) || has s.runner.cancelled id

begin_cancel-worker : (i : String) (s : Shell) → (begin_cancel i s).worker ≡ s.worker
unfolding begin_cancel
begin_cancel-worker i s = ground arith

begin_cancel-safe :
    (id i : String) (s : Shell) → is_safe id s ≡ true → is_safe id (begin_cancel i s) ≡ true
unfolding begin_cancel has Runners.cancel
begin_cancel-safe id i s h = ground (arith, h)

begin_cancel-has :
    (id i : String) (s : Shell)
    → has s.runner.cancelled id ≡ true
    → has (begin_cancel i s).runner.cancelled id ≡ true
unfolding begin_cancel has Runners.cancel
begin_cancel-has id i s h = ground (arith, h)

begin_cancel-marks :
    (id : String) (s : Shell)
    → is_owned id s.worker ≡ true
    → is_safe id s ≡ true
    → has (begin_cancel id s).runner.cancelled id ≡ true
unfolding begin_cancel has Runners.cancel
begin_cancel-marks id s owned h = ground (arith, owned, h, eq_refl id)

each-has :
    (id : String) (ids : List String) (s : Shell)
    → has s.runner.cancelled id ≡ true
    → has (each begin_cancel ids s).runner.cancelled id ≡ true
each-has id [] s h = h
each-has id (i ∷ ids) s h = each-has id ids (begin_cancel i s) (begin_cancel-has id i s h)

each-marks :
    (id : String) (ids : List String) (s : Shell)
    → has ids id ≡ true
    → is_owned id s.worker ≡ true
    → is_safe id s ≡ true
    → has (each begin_cancel ids s).runner.cancelled id ≡ true
unfolding has
each-marks id [] s within owned h = ground (arith, within)
each-marks id (i ∷ ids) s within owned h = elim (Bool-cases (i == id)) [
  | inl same ↦
      let here : i ≡ id = ground (arith, same, eq_iff i id) in
      each-has id ids (begin_cancel i s) (ground (arith, here, begin_cancel-marks id s owned h))
  | inr differs ↦
      each-marks id ids (begin_cancel i s) (ground (arith, within, differs))
        (ap (is_owned id) (begin_cancel-worker i s) ∙ owned) (begin_cancel-safe id i s h)
]

each-end : (ids : List String) (s : Shell) → (each end_cancel ids s).runner ≡ s.runner
unfolding end_cancel
each-end [] s = refl
each-end (i ∷ ids) s = each-end ids (end_cancel i s)

find-run_ids_of :
    (robot : String) (c : SkillCommand) (cs : List SkillCommand)
    → find (has_run_id c.run_id) cs ≡ some c
    → c.robot_id ≡ robot
    → has (run_ids_of robot cs) c.run_id ≡ true
unfolding has
find-run_ids_of robot c [] found own = ground (arith, found)
find-run_ids_of robot c (d ∷ cs) found own = elim (Bool-cases (d.run_id == c.run_id)) [
  | inl same ↦
      let here : d ≡ c = ground (arith, found, same) in
      ground (arith, same, ap (λ x. x.robot_id) here, own, eq_refl robot)
  | inr differs ↦
      ground (arith, differs, find-run_ids_of robot c cs (ground (arith, found, differs)) own)
]

found-owned :
    (c : SkillCommand) (w : Worker)
    → find (has_run_id c.run_id) w.pending ≡ some c
    → is_owned c.run_id w ≡ true
found-owned c w found = ground (arith, find_some→any (has_run_id c.run_id) w.pending found)

abbrev pub cancelled_result : SkillCommand → SkillResult
cancelled_result c =
    plain_result SkillStatus.cancelled "skill cancelled" (some "cancelled")
      (some (concat "skill run " (concat c.run_id " was cancelled")))

-- What events tell: the phase and the result of each, in their order.
abbrev pub told : List SkillEvent → List (SkillPhase × Option SkillResult)
told = map (λ e. (e.phase, e.result))

abbrev pub cancelled_events : SkillCommand → List (SkillPhase × Option SkillResult)
cancelled_events c =
    (SkillPhase.accepted, none)
    ∷ (SkillPhase.running, none)
    ∷ (SkillPhase.cancelled, some (cancelled_result c))
    ∷ []

-- A run without a task is not interrupted by the cancelling of any runs.
begin_cancel-interrupted :
    (id i : String) (s : Shell)
    → holds id s.worker.running ≡ false
    → holds id s.interrupted ≡ false
    → holds id (begin_cancel i s).interrupted ≡ false
unfolding begin_cancel
begin_cancel-interrupted id i s idle free = elim (Bool-cases (i == id)) [
  | inl same ↦
      let here : i ≡ id = (eq_iff i id).0 same in
      let stopped : holds i s.worker.running ≡ false =
        ap (λ x. holds x s.worker.running) here ∙ idle in
      ground (arith, free, stopped)
  | inr differs ↦ ground (arith, free, differs)
]

each-interrupted :
    (id : String) (ids : List String) (s : Shell)
    → holds id s.worker.running ≡ false
    → holds id s.interrupted ≡ false
    → holds id (each begin_cancel ids s).interrupted ≡ false
each-interrupted id [] s idle free = free
each-interrupted id (i ∷ ids) s idle free =
    each-interrupted id ids (begin_cancel i s)
      (ap (λ w. holds id w.running) (begin_cancel-worker i s) ∙ idle)
      (begin_cancel-interrupted id i s idle free)

each_end-interrupted :
    (ids : List String) (s : Shell) → (each end_cancel ids s).interrupted ≡ s.interrupted
unfolding end_cancel
each_end-interrupted [] s = refl
each_end-interrupted (i ∷ ids) s = each_end-interrupted ids (end_cancel i s)

module _ (clock : ℕ → ℕ) (c : SkillCommand) where
  run_skill-marked :
      (now : ℕ) (skill : Skill) (arguments : Fields) (k : Runner)
      → has k.cancelled c.run_id ≡ true
      → let m = run_skill clock c now skill arguments (record { events = []; runner = k }) in
        (m.0 ≡ ok (cancelled_result c)) × (told m.1.events ≡ cancelled_events c)
  unfolding emit emit_progress normalize_result end_result
  run_skill-marked now skill arguments k marked = rw marked (refl, refl)

  execute-marked :
      (py : Python) (texts : Texts) (registry : List Skill) (now : ℕ) (skill : Skill)
      (arguments : Fields) (k : Runner)
      → find (skill_called c.name) registry ≡ some skill
      → validate_arguments py skill.parameters c.arguments ≡ ok arguments
      → has k.cancelled c.run_id ≡ true
      → let m = execute clock py texts registry now c k in
        (m.0 ≡ ok (cancelled_result c)) × (told m.1.events ≡ cancelled_events c)
  unfolding execute
  execute-marked py texts registry now skill arguments k found valid marked =
      rw (found, execute, valid) (run_skill-marked now skill arguments k marked)

-- After an emergency stop of a robot, whether the control plane succeeds or fails, a pending command of
-- that robot that has no task yet, was not yet being cancelled, and that names a skill and fits its
-- schema, is left with no interrupt that would keep a task of it from its first step, and it
-- executes without its handler, whatever that is: its result is that of a cancelled skill, and its
-- events are, in this order, `accepted`, `running` and a `cancelled` one with the result.
pub emergency_stop-execute :
    (outcome : Option String) (robot : String) (s : Shell) (c : SkillCommand)
    → find (has_run_id c.run_id) s.worker.pending ≡ some c
    → c.robot_id ≡ robot
    → holds c.run_id s.worker.running ≡ false
    → holds c.run_id s.interrupted ≡ false
    → holds c.run_id s.cancelling ≡ false
    → (clock : ℕ → ℕ) (py : Python) (texts : Texts) (registry : List Skill) (now : ℕ)
      (skill : Skill) (arguments : Fields)
    → find (skill_called c.name) registry ≡ some skill
    → validate_arguments py skill.parameters c.arguments ≡ ok arguments
    → let s' = (emergency_stop (some outcome) robot s).1 in
      let m = execute clock py texts registry now c s'.runner in
      (holds c.run_id s'.interrupted ≡ false)
      × (m.0 ≡ ok (cancelled_result c))
      × (told m.1.events ≡ cancelled_events c)
unfolding emergency_stop cancel_robot
emergency_stop-execute outcome robot s c pending own idle calm free clock py texts registry now
      skill arguments found valid =
    let ids = run_ids_of robot s.worker.pending in
    let begun = each begin_cancel ids s in
    let marked : has begun.runner.cancelled c.run_id ≡ true =
      each-marks c.run_id ids s (find-run_ids_of robot c s.worker.pending pending own)
        (found-owned c s.worker pending) (ground (arith, free)) in
    let run =
      execute-marked clock c py texts registry now skill arguments
        (emergency_stop (some outcome) robot s).1.runner found valid
        (ap (λ k. has k.cancelled c.run_id) (each-end ids begun) ∙ marked) in
    (
      ap (holds c.run_id) (each_end-interrupted ids begun)
          ∙ each-interrupted c.run_id ids s idle calm,
      run.0,
      run.1,
    )

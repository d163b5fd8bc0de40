-- ===== src/Skills/Resources/Examples.antt =====
-- The theorems of the resource manager at concrete schedules.
use xbotics_hey_robot.Prelude.{◌≡◌, refl, none, some, List, [], ◌∷◌, true}
use xbotics_hey_robot.Skills.Resources.{new_lock}
use xbotics_hey_robot.Skills.Resources.Refinement.{Hold}
use xbotics_hey_robot.Skills.Resources.Schedule.{Event, run, key_run, is_proper, run_refines}
use xbotics_hey_robot.Skills.Resources.Waiting.{reentry_after_wait}

abbrev shared : List Event
shared =
    Event.arrives "run1"
    ∷ Event.arrives "run1"
    ∷ Event.arrives "run2"
    ∷ Event.departs "run1"
    ∷ Event.arrives "run3"
    ∷ []

shared_proper : is_proper shared (Hold.free, []) ≡ true
unfolding is_proper
shared_proper = refl

run_refines_example : (run shared new_lock).0 ≡ (key_run shared (Hold.free, [])).0
run_refines_example = run_refines shared shared_proper

reentry_after_wait_example :
    (run
      (Event.arrives "run1"
        ∷ Event.arrives "run2"
        ∷ Event.departs "run1"
        ∷ Event.wakes
        ∷ Event.arrives "run2"
        ∷ Event.wakes
        ∷ [])
      new_lock).0
    ≡ some "run1" ∷ none ∷ none ∷ some "run2" ∷ none ∷ none ∷ []
reentry_after_wait_example = reentry_after_wait "run1" "run2" (Event.wakes ∷ []) refl refl

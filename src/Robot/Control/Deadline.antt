-- ===== src/Robot/Control/Deadline.antt =====
-- Which deadline of an action counts for RobotControlPlane.evaluate,
-- src/hey_robot/robot_runtime/control_plane.py.
use xbotics_hey_robot.Prelude.{
  ℕ, ◌≡◌, refl, ap, ◌∙◌, Bool, true, false, not, ◌&&◌, leb, arith, Option, none, some,
  if◌then◌else◌,
}
use xbotics_hey_robot.Prelude.Int.{pos, negsuc}
use xbotics_hey_robot.Prelude.Float.{
  Float, finite, infinity, minus_infinity, not_a_number, ltb_float, add_float,
}
use xbotics_hey_robot.Prelude.Value.{Value, get_or_null, is_null}
use xbotics_hey_robot.Prelude.Result.{Result, ok, raise}
use xbotics_hey_robot.Robot.Types.{RobotAction}
use xbotics_hey_robot.Robot.Control.{
  ControlPlaneDecision, Failure, Floats, plus, given, product_of, deadline_at, decision_of,
  evaluate,
}

abbrev pub is_allowed : Result Failure ControlPlaneDecision → Bool
is_allowed (raise x) = false
is_allowed (ok decision) = decision.allowed

-- Whether an action is in time: its deadline is the `deadline_at` of its metadata, or its timestamp
-- with `deadline_sec`, or its timestamp with `dt` for each step of the `horizon`, the first of them
-- that is given; without one it always is, with one that `float` refuses it never is.
data Deadline : Type 0 where
  endless unreadable : Deadline
  due : Float → Deadline

is_given : Value → Bool
is_given Value.null = false
is_given (Value.boolean b) = true
is_given (Value.number z) = true
is_given (Value.string s) = true
is_given (Value.array xs) = true
is_given (Value.dict kvs) = true

read : Option Float → Deadline
read none = unreadable
read (some at) = due at

after : ℕ → Option Float → Deadline
after start none = unreadable
after start (some span) = due (add_float (finite (pos start)) span)

steps_of : Floats → Option Float → Option Float → Option Float
steps_of fl (some dt) (some horizon) = some (fl.product dt horizon)
steps_of fl none horizon = none
steps_of fl (some dt) none = none

deadline_of : Floats → ℕ → Value → Value → Value → Value → Deadline
unfolding is_given read after steps_of
deadline_of fl start at span dt horizon =
    if is_given at
    then read (fl.float at)
    else if is_given span
    then after start (fl.float span)
    else if is_given dt && is_given horizon
    then after start (steps_of fl (fl.float dt) (fl.float horizon))
    else endless

is_met : ℕ → Deadline → Bool
is_met now endless = true
is_met now unreadable = false
is_met now (due (finite (pos n))) = leb now n
is_met now (due (finite (negsuc n))) = false
is_met now (due infinity) = true
is_met now (due minus_infinity) = false
is_met now (due not_a_number) = true

pub is_timely : Floats → ℕ → RobotAction → Bool
unfolding deadline_of is_met get_or_null
is_timely fl now a = is_met now (
    deadline_of fl a.timestamp (get_or_null a.metadata "deadline_at")
      (get_or_null a.metadata "deadline_sec") (get_or_null a.metadata "dt")
      (get_or_null a.metadata "horizon"))

is_given-is_null : (v : Value) → is_null v ≡ not (is_given v)
unfolding is_given
is_given-is_null Value.null = refl
is_given-is_null (Value.boolean b) = refl
is_given-is_null (Value.number z) = refl
is_given-is_null (Value.string s) = refl
is_given-is_null (Value.array xs) = refl
is_given-is_null (Value.dict kvs) = refl

-- What the code makes of a deadline.
abbrev reading : Deadline → Result Failure (Option Float)
reading endless = ok none
reading unreadable = raise Failure.value_error
reading (due at) = ok (some at)

given-read : (o : Option Float) → given o ≡ reading (read o)
unfolding read
given-read none = refl
given-read (some at) = refl

plus-after : (start : ℕ) (o : Option Float) → plus start o ≡ reading (after start o)
unfolding after
plus-after start none = refl
plus-after start (some span) = refl

product_of-steps_of :
    (fl : Floats) (dt horizon : Option Float) → product_of fl dt horizon ≡ steps_of fl dt horizon
unfolding steps_of
product_of-steps_of fl (some dt) (some horizon) = refl
product_of-steps_of fl none horizon = refl
product_of-steps_of fl (some dt) none = refl

deadline_at-reading :
    (fl : Floats) (a : RobotAction)
    → deadline_at fl a
      ≡ reading (
          deadline_of fl a.timestamp
            (get_or_null a.metadata "deadline_at")
            (get_or_null a.metadata "deadline_sec")
            (get_or_null a.metadata "dt")
            (get_or_null a.metadata "horizon"))
unfolding deadline_at deadline_of
deadline_at-reading fl a =
    let at = get_or_null a.metadata "deadline_at" in
    let span = get_or_null a.metadata "deadline_sec" in
    let dt = get_or_null a.metadata "dt" in
    let horizon = get_or_null a.metadata "horizon" in
    ground (
      arith,
      is_given-is_null at,
      is_given-is_null span,
      is_given-is_null dt,
      is_given-is_null horizon,
      given-read (fl.float at),
      plus-after a.timestamp (fl.float span),
      plus-after a.timestamp (product_of fl (fl.float dt) (fl.float horizon)),
      product_of-steps_of fl (fl.float dt) (fl.float horizon),
    )

is_met-reading :
    (now : ℕ) (d : Deadline)
    → is_allowed (elim (reading d) as (λ x. Result Failure ControlPlaneDecision) [
      | raise x ↦ raise x
      | ok deadline ↦ ok (decision_of now deadline)
    ])
      ≡ is_met now d
unfolding is_met ltb_float
is_met-reading now endless = refl
is_met-reading now unreadable = refl
is_met-reading now (due (finite (pos n))) = ground arith
is_met-reading now (due (finite (negsuc n))) = ground arith
is_met-reading now (due infinity) = refl
is_met-reading now (due minus_infinity) = refl
is_met-reading now (due not_a_number) = refl

pub evaluate-is_timely :
    (fl : Floats) (now : ℕ) (a : RobotAction) → is_allowed (evaluate fl now a) ≡ is_timely fl now a
unfolding evaluate is_timely
evaluate-is_timely fl now a =
    ap
      (λ m. is_allowed (elim m as (λ x. Result Failure ControlPlaneDecision) [
        | raise x ↦ raise x
        | ok deadline ↦ ok (decision_of now deadline)
      ]))
      (deadline_at-reading fl a)
    ∙ is_met-reading now (
        deadline_of fl a.timestamp (get_or_null a.metadata "deadline_at")
          (get_or_null a.metadata "deadline_sec") (get_or_null a.metadata "dt")
          (get_or_null a.metadata "horizon"))

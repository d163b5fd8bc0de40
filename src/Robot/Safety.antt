-- ===== src/Robot/Safety.antt =====
-- RobotSafetySupervisor, src/hey_robot/robot_runtime/safety.py. `parse` is Python's `float` of a
-- text, `none` where it raises. A refusal keeps what its message names.
mod Conditions
pub mod Soundness
use xbotics_hey_robot.Prelude.{
  ℕ, zero, suc, ◌+◌, String, Bool, true, false, not, ◌&&◌, ◌||◌, Option, none, some, List, [], ◌∷◌,
  ◌++◌, if◌then◌else◌, ◌==◌, eqb, or_else, any, length, is_some,
}
use xbotics_hey_robot.Prelude.Int.{pos}
use xbotics_hey_robot.Prelude.Float.{Float, finite, ltb_float, abs_float}
use xbotics_hey_robot.Prelude.Result.{Result, ok, raise}
use xbotics_hey_robot.Prelude.Text.{lower}
use xbotics_hey_robot.Prelude.Value.{
  Value, Fields, Items, null, boolean, number, string, array, dict, nil, cons, get, get_or_null,
  flag, is_text, is_null, truthy,
}
use xbotics_hey_robot.Robot.Types.{RobotAction, RobotCapabilities, RobotHealth}

pub data Reason : Type 0 where
  offline : String → Reason
  active_flags : List String → Reason
  battery_critical : Value → Reason
  dimension_mismatch : ℕ → ℕ → Reason
  exceeds_max_abs : Float → Reason
  outside_bounds : Float → Float → Reason

-- `refused` carries the reason of a `SafetyDecision(False, ...)`.
pub data SafetyDecision : Type 0 where
  allowed : SafetyDecision
  refused : Reason → SafetyDecision

-- The exception of `float` on a value that is no number.
pub data FloatError : Type 0 where
  not_a_float : FloatError

abbrev pub safety_flags : List String
safety_flags =
    "emergency_stop" ∷ "estop" ∷ "safety_stop" ∷ "collision_detected" ∷ "protective_stop" ∷ []

unfoldable pub flags_set : Fields → List String → List String
flags_set metrics [] = []
flags_set metrics (k ∷ ks) =
    let rest = flags_set metrics ks in if flag metrics k then k ∷ rest else rest

-- `_safety_setting`
unfoldable pub safety_setting : RobotCapabilities → String → Value
safety_setting c key = elim (get_or_null c.metadata "safety") [
  | dict safety ↦ elim (get safety key) [ some v ↦ v | none ↦ get_or_null c.metadata key ]
  | _ ↦ get_or_null c.metadata key
]

unfoldable pub battery_critical_in : Fields → Bool
battery_critical_in metrics = elim (get_or_null metrics "battery") [
  | dict battery ↦ is_text (get_or_null battery "status") "critical"
  | _ ↦ false
]

abbrev pub voltage_of : Value → Value
voltage_of (dict battery) = get_or_null battery "voltage"
voltage_of _ = null

unfoldable pub wrong_dimension : RobotCapabilities → RobotAction → Bool
wrong_dimension c a = elim c.action_dimensions [
  | none ↦ false
  | some n ↦ not (eqb (length a.values) 0) && not (eqb (length a.values) n)
]

unfoldable pub beyond : Float → Float → Bool
unfolding ltb_float abs_float
beyond limit v = ltb_float limit (abs_float v)

unfoldable pub outside : Float → Float → Float → Bool
unfolding ltb_float
outside lower upper v = ltb_float v lower || ltb_float upper v

-- The bounds, where the setting is a list of two.
abbrev pub pair : Value → Option (Value × Value)
pair (array (cons a (cons b nil))) = some (a, b)
pair _ = none

abbrev pub expected : RobotCapabilities → ℕ
expected c = or_else c.action_dimensions 0

module _ (repr : Value → String) (parse : String → Option Float) where
  -- `float(value)`
  unfoldable pub to_float : Value → Option Float
  to_float (number z) = some (finite z)
  to_float (boolean b) = some (finite (pos (if b then 1 else 0)))
  to_float (string s) = parse s
  to_float _ = none

  -- `str(skill.get("name") or "").lower() == "stop_motion"`
  unfoldable pub named_stop : Value → Bool
  named_stop (string s) = lower s == "stop_motion"
  named_stop v = if truthy v then lower (repr v) == "stop_motion" else false

  unfoldable pub is_stop_action : RobotAction → Bool
  unfolding named_stop
  is_stop_action a = elim (get_or_null a.metadata "skill") [
    | dict skill ↦ named_stop (get_or_null skill "name")
    | _ ↦ false
  ]

  unfoldable pub check_bounds :
      Option (Value × Value) → RobotAction → Result FloatError SafetyDecision
  unfolding outside
  check_bounds none a = ok allowed
  check_bounds (some (lo, hi)) a = elim (to_float lo) [
    | none ↦ raise not_a_float
    | some lower ↦ elim (to_float hi) [
      | none ↦ raise not_a_float
      | some upper ↦
          if any (outside lower upper) a.values
          then ok (refused (outside_bounds lower upper))
          else ok allowed
    ]
  ]

  unfoldable pub check_limit :
      Value → RobotAction → Result FloatError SafetyDecision → Result FloatError SafetyDecision
  unfolding beyond
  check_limit setting a rest = if is_null setting then rest else elim (to_float setting) [
    | none ↦ raise not_a_float
    | some limit ↦
        if any (beyond limit) a.values then ok (refused (exceeds_max_abs limit)) else rest
  ]

  unfoldable pub evaluate_action :
      RobotAction → RobotCapabilities → RobotHealth → Result FloatError SafetyDecision
  evaluate_action a c h =
      if not h.online
      then ok (refused (offline h.robot_id))
      else elim (flags_set h.metrics safety_flags) [
        | f ∷ fs ↦ ok (refused (active_flags (f ∷ fs)))
        | [] ↦
            if battery_critical_in h.metrics && not (is_stop_action a)
            then ok (refused (battery_critical (voltage_of (get_or_null h.metrics "battery"))))
            else if wrong_dimension c a
            then ok (refused (dimension_mismatch (expected c) (length a.values)))
            else check_limit (safety_setting c "max_abs_action") a
                (check_bounds (pair (safety_setting c "action_bounds")) a)
      ]

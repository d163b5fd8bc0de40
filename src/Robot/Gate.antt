-- ===== src/Robot/Gate.antt =====
-- SkillAdmissionGate, src/hey_robot/robot_runtime/skill_gate.py. `repr` gives Python's `str` of a
-- value that is no text. A set is a list; its order is used only where the source sorts.
pub mod Admission
pub mod Conflicts
use mathlib.Core.List.{reverse}
use xbotics_hey_robot.Prelude.{
  ℕ, String, Bool, true, false, not, ◌&&◌, ◌||◌, Option, none, some, List, [], ◌∷◌, ◌++◌, map,
  if◌then◌else◌, ◌==◌, or_else, keep, find, is_some, any,
}
use xbotics_hey_robot.Prelude.Text.{
  strip, lower, concat, join, has, sort_texts, ends_with, truthy_text,
}
use xbotics_hey_robot.Prelude.Value.{
  Value, Fields, null, string, array, dict, end, entry, truthy, get, get_or_null, flag, is_end,
  is_null, items, from_list,
}
use xbotics_hey_robot.Robot.Types.{RobotActionSpec, RobotStatus, to_dict}

pub record Decision : Type 0 where
  pub allowed : Bool
  pub reason : String
  pub failure_mode : Option String
  pub metadata : Fields

abbrev pub allow : Fields → Decision
allow metadata = record {
  allowed = true;
  reason = "accepted";
  failure_mode = none;
  metadata = metadata;
}

abbrev pub reject : String → String → Fields → Decision
reject reason failure_mode metadata = record {
  allowed = false;
  reason = reason;
  failure_mode = some failure_mode;
  metadata = metadata;
}

abbrev pub texts : List String → Value
texts ts = array (from_list (map string ts))

-- `{"robot", "robot.actuation"}`
abbrev pub is_global : String → Bool
is_global r = r == "robot" || r == "robot.actuation"

unfoldable pub has_global_resource : List String → Bool
has_global_resource rs = any is_global rs

-- The resources that two actions may not hold at once: neither shared nor a camera.
abbrev pub is_exclusive : String → Bool
is_exclusive r = not (r == "camera") && not (ends_with r "_camera")

unfoldable pub exclusive_resources : List String → List String
exclusive_resources rs = keep is_exclusive rs

-- `left & right` and `left | right`
abbrev pub intersect : List String → List String → List String
intersect xs ys = keep (has ys) xs

abbrev pub union : List String → List String → List String
union xs ys = xs ++ keep (λ y. not (has xs y)) ys

-- `resolved.remove(old); resolved.add(new)`, where `old` is in the set.
abbrev pub swap_name : String → String → List String → List String
swap_name old new rs =
    if has rs old then new ∷ keep (λ r. not (r == old) && not (r == new)) rs else rs

abbrev pub or_robot : List String → List String
or_robot [] = "robot" ∷ []
or_robot (r ∷ rs) = r ∷ rs

-- `bool(list)`
abbrev pub is_set : List String → Bool
is_set [] = false
is_set (r ∷ rs) = true

unfoldable pub battery_issues : Option String → Bool → List String
battery_issues none motion = []
battery_issues (some s) motion =
    if s == "critical"
    then "battery critical" ∷ []
    else if s == "low" && motion
    then "battery low" ∷ []
    else []

abbrev pub readiness_rejection : RobotActionSpec → Fields → List String → Decision
readiness_rejection c readiness issues =
    reject (concat "readiness gate blocked " (concat c.name (concat ": " (join "; " issues))))
      "readiness_failed"
      (entry "issues" (texts issues)
        (entry "readiness" (dict readiness) (entry "contract" (dict (to_dict c)) end)))

abbrev pub blocking_state : String → Bool
blocking_state s =
    s == "failed" || s == "degraded" || s == "interrupted" || s == "emergency" || s == "estop"

abbrev battery_rejection : RobotActionSpec → String → Value → Decision
battery_rejection c what battery =
    reject (concat "battery " (concat what c.name)) "precondition_failed"
      (entry "battery" battery (entry "contract" (dict (to_dict c)) end))

-- The contract is one of a motion here.
unfoldable pub battery_block : RobotActionSpec → Value → Option String → Option Decision
battery_block c battery none = none
battery_block c battery (some s) =
    if s == "critical"
    then some (battery_rejection c "critical blocks skill " battery)
    else if s == "low"
    then some (battery_rejection c "low blocks motion skill " battery)
    else none

abbrev bare_spec : String → RobotActionSpec
bare_spec name = record { name = name; parameters = end; resources = "robot" ∷ []; motion = false }

-- `resolve`: `none` where it raises KeyError. The specs are looked up by name, the last of a
-- name first, as a dictionary built in order keeps it.
unfoldable pub resolve : List RobotActionSpec → String → Option RobotActionSpec
resolve [] name = if truthy_text name then some (bare_spec name) else none
resolve (c ∷ cs) name =
    if truthy_text name then find (λ x. x.name == name) (reverse (c ∷ cs)) else none

-- `str` of a KeyError is the quoted message.
abbrev unknown_reason : List RobotActionSpec → String → String
unknown_reason [] name = "'robot skill action name is required'"
unknown_reason (c ∷ cs) name = concat "'unknown robot skill action: " (concat name "'")

module _ (repr : Value → String) where
  -- `str(value or "")`
  unfoldable pub text_of : Value → String
  text_of (string s) = s
  text_of v = if truthy v then repr v else ""

  abbrev name_at : Fields → String → String
  name_at d k = lower (strip (text_of (get_or_null d k)))

  unfoldable pub instance_resources : List String → Fields → List String
  instance_resources [] arguments = "robot" ∷ []
  instance_resources (r ∷ rs) arguments =
      let arm = name_at arguments "arm" in
      let camera = name_at arguments "camera" in
      let armed =
        if truthy_text arm
        then swap_name "gripper" (concat arm "_gripper")
            (swap_name "arm" (concat arm "_arm") (r ∷ rs))
        else r ∷ rs in
      or_robot
        (if truthy_text camera then swap_name "camera" (concat camera "_camera") armed else armed)

  dedupe : List String → List String
  dedupe [] = []
  dedupe (r ∷ rs) = let rest = dedupe rs in r ∷ keep (λ s. not (s == r)) rest

  unfoldable pub normalized_resources : RobotActionSpec → Fields → List String
  unfolding dedupe
  normalized_resources c arguments =
      instance_resources
        (dedupe (map (λ r. lower (strip r)) (keep (λ r. truthy_text (strip r)) c.resources)))
        arguments

  unfoldable pub shared_or_global_resources :
      RobotActionSpec → RobotActionSpec → Fields → Fields → List String
  shared_or_global_resources left right left_arguments right_arguments =
      let ls = normalized_resources left left_arguments in
      let rs = normalized_resources right right_arguments in
      if has_global_resource ls || has_global_resource rs
      then union ls rs
      else intersect (exclusive_resources ls) (exclusive_resources rs)

  unfoldable pub resources_conflict : RobotActionSpec → RobotActionSpec → Fields → Fields → Bool
  resources_conflict left right left_arguments right_arguments =
      is_set (shared_or_global_resources left right left_arguments right_arguments)

  -- `[str(key) for key in required if key not in arguments or arguments.get(key) is None]`
  unfoldable pub missing_keys : List Value → Fields → List String
  missing_keys [] arguments = []
  missing_keys (string k ∷ keys) arguments =
      let rest = missing_keys keys arguments in
      if is_null (get_or_null arguments k) then k ∷ rest else rest
  missing_keys (v ∷ keys) arguments = repr v ∷ missing_keys keys arguments

  unfoldable pub missing_required_arguments : RobotActionSpec → Fields → List String
  unfolding missing_keys
  missing_required_arguments c arguments = elim (get_or_null c.parameters "required") [
    | array vs ↦ missing_keys (items vs) arguments
    | _ ↦ []
  ]

  -- `_resource_ready`
  dict_ready : Fields → Bool
  dict_ready d = elim (get d "ok") [
    | some v ↦ truthy v
    | none ↦ elim (get d "available") [
      | some v ↦ truthy v
      | none ↦ elim (get d "ready") [ some v ↦ truthy v | none ↦ true ]
    ]
  ]

  unfoldable pub resource_ready : String → Fields → Bool
  unfolding dict_ready
  resource_ready r readiness = elim (get_or_null readiness r) [
    | dict d ↦ dict_ready d
    | null ↦ flag readiness (concat r "_available") || flag readiness (concat r "_ready")
    | v ↦ truthy v
  ]

  unfoldable pub battery_status : Value → Option String
  battery_status (dict d) = some (lower (text_of (get_or_null d "status")))
  battery_status _ = none

  unfoldable pub resource_issues : List String → Fields → List String
  resource_issues [] readiness = []
  resource_issues (r ∷ rs) readiness =
      let rest = resource_issues rs readiness in
      if is_global r || resource_ready r readiness then rest else concat r " is not ready" ∷ rest

  unfoldable pub readiness_issues : RobotActionSpec → Fields → Fields → List String
  unfolding resource_issues battery_issues
  readiness_issues c readiness arguments =
      (if flag readiness "emergency_stop" || flag readiness "estop"
        then "emergency stop is active" ∷ []
        else [])
      ++ (resource_issues (sort_texts (normalized_resources c arguments)) readiness
          ++ battery_issues (battery_status (get_or_null readiness "battery")) c.motion)

  -- `readiness` is a dictionary or `None`, which an empty dictionary stands for here: the code
  -- treats both alike.
  unfoldable pub readiness_block : RobotActionSpec → Fields → Fields → Option Decision
  readiness_block c readiness arguments =
      if is_end readiness || c.name == "stop_motion"
      then none
      else elim (readiness_issues c readiness arguments) [
        | [] ↦ none
        | issue ∷ issues ↦ some (readiness_rejection c readiness (issue ∷ issues))
      ]

  unfoldable pub precondition_block : RobotActionSpec → Option RobotStatus → Option Decision
  unfolding battery_block
  precondition_block c none = none
  precondition_block c (some status) =
      let state = lower status.state in
      let battery = get_or_null status.metrics "battery" in
      if not c.motion || c.name == "stop_motion"
      then none
      else if blocking_state state
      then some (
          reject (concat "robot state '" (concat state (concat "' blocks motion action " c.name)))
            "precondition_failed"
            (entry "state" (string state) (entry "contract" (dict (to_dict c)) end)))
      else battery_block c battery (battery_status battery)

  unfoldable pub acceptance_decision :
      RobotActionSpec → Option RobotStatus → Fields → Fields → Decision
  acceptance_decision c status readiness arguments = elim (missing_required_arguments c arguments) [
    | m ∷ missing ↦
        reject
          (concat "skill "
            (concat c.name (concat " missing required arguments: " (join "," (m ∷ missing)))))
          "invalid_arguments"
          (entry "missing_arguments" (texts (m ∷ missing))
            (entry "contract" (dict (to_dict c)) end))
    | [] ↦ elim (readiness_block c readiness arguments) [
      | some blocked ↦ blocked
      | none ↦ elim (precondition_block c status) [
        | some blocked ↦ blocked
        | none ↦ allow (entry "contract" (dict (to_dict c)) end)
      ]
    ]
  ]

  unfoldable pub validate_action :
      List RobotActionSpec
      → String
      → Fields
      → Option RobotStatus
      → Fields
      → RobotActionSpec × Decision
  validate_action specs name arguments status readiness = elim (resolve specs name) [
    | none ↦ (
      bare_spec (if truthy_text name then name else "unknown_skill"),
      reject (unknown_reason specs name) "unknown_skill" end,
    )
    | some c ↦ (c, acceptance_decision c status readiness arguments)
  ]

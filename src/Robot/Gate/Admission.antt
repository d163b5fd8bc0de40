-- ===== src/Robot/Gate/Admission.antt =====
-- What the gate admits, as one condition without an order of checks.
use xbotics_hey_robot.Prelude.{
  ◌≡◌, refl, String, Bool, true, false, not, ◌&&◌, ◌||◌, Option, none, some, List, [], ◌∷◌, ◌++◌,
  arith, ◌==◌, any, is_some, Option-cases, inl, inr,
}
use xbotics_hey_robot.Prelude.Text.{lower, sort_texts, insert_text}
use xbotics_hey_robot.Prelude.Value.{Value, Fields, get_or_null, flag, is_end}
use xbotics_hey_robot.Robot.Types.{RobotActionSpec, RobotStatus}
use xbotics_hey_robot.Robot.Gate.{
  Decision, is_global, is_set, normalized_resources, missing_required_arguments, resource_ready,
  battery_status, blocking_state, resource_issues, battery_issues, readiness_issues,
  readiness_block, battery_block, precondition_block, acceptance_decision,
}

module _ (repr : Value → String) where
  abbrev pub not_ready : Fields → String → Bool
  not_ready readiness r = not (is_global r || resource_ready repr r readiness)

  -- A battery that lets the action run: not critical, and not low under a motion.
  abbrev pub battery_ok : Option String → Bool → Bool
  battery_ok none motion = true
  battery_ok (some s) motion = not (s == "critical") && not (s == "low" && motion)

  -- No readiness is known, or no stop is active, every resource of the action is ready, and the
  -- battery lets it run.
  unfoldable pub is_ready : RobotActionSpec → Fields → Fields → Bool
  is_ready c readiness arguments =
      is_end readiness
      || (not (flag readiness "emergency_stop")
          && not (flag readiness "estop")
          && not (any (not_ready readiness) (normalized_resources repr c arguments))
          && battery_ok (battery_status repr (get_or_null readiness "battery")) c.motion)

  -- The action is no motion, or the robot is in no blocking state and its battery lets it run.
  unfoldable pub is_fit : RobotActionSpec → Option RobotStatus → Bool
  is_fit c none = true
  is_fit c (some status) =
      not c.motion
      || (not (blocking_state (lower status.state))
          && battery_ok (battery_status repr (get_or_null status.metrics "battery")) true)

  any-insert_text :
      (p : String → Bool) (s : String) (ts : List String)
      → any p (insert_text s ts) ≡ (p s || any p ts)
  unfolding insert_text
  any-insert_text p s [] = refl
  any-insert_text p s (t ∷ ts) = ground (arith, any-insert_text p s ts)

  any-sort_texts : (p : String → Bool) (ts : List String) → any p (sort_texts ts) ≡ any p ts
  unfolding sort_texts
  any-sort_texts p [] = refl
  any-sort_texts p (t ∷ ts) =
      ground (arith, any-insert_text p t (sort_texts ts), any-sort_texts p ts)

  is_set-resource_issues :
      (rs : List String) (readiness : Fields)
      → is_set (resource_issues repr rs readiness) ≡ any (not_ready readiness) rs
  unfolding resource_issues
  is_set-resource_issues [] readiness = refl
  is_set-resource_issues (r ∷ rs) readiness = ground (arith, is_set-resource_issues rs readiness)

  is_set-append : (xs ys : List String) → is_set (xs ++ ys) ≡ (is_set xs || is_set ys)
  is_set-append [] ys = refl
  is_set-append (x ∷ xs) ys = refl

  is_set-battery_issues :
      (s : Option String) (motion : Bool)
      → is_set (battery_issues s motion) ≡ not (battery_ok s motion)
  unfolding battery_issues
  is_set-battery_issues none motion = refl
  is_set-battery_issues (some s) motion = ground arith

  is_set-readiness_issues :
      (c : RobotActionSpec) (readiness arguments : Fields)
      → not (is_set (readiness_issues repr c readiness arguments)) ≡ (
          not (flag readiness "emergency_stop")
          && not (flag readiness "estop")
          && not (any (not_ready readiness) (normalized_resources repr c arguments))
          && battery_ok (battery_status repr (get_or_null readiness "battery")) c.motion)
  unfolding readiness_issues
  is_set-readiness_issues c readiness arguments =
      let rs = normalized_resources repr c arguments in
      let level = battery_status repr (get_or_null readiness "battery") in
      ground (
        arith,
        is_set-resource_issues (sort_texts rs) readiness,
        any-sort_texts (not_ready readiness) rs,
        is_set-battery_issues level c.motion,
        is_set-append (resource_issues repr (sort_texts rs) readiness)
            (battery_issues level c.motion),
      )

  readiness_block_lem :
      (c : RobotActionSpec) (readiness arguments : Fields)
      → is_some (readiness_block repr c readiness arguments)
        ≡ not (c.name == "stop_motion" || is_ready c readiness arguments)
  unfolding readiness_block is_ready
  readiness_block_lem c readiness arguments =
      ground (arith, is_set-readiness_issues c readiness arguments)

  precondition_block_lem :
      (c : RobotActionSpec) (status : Option RobotStatus)
      → is_some (precondition_block repr c status)
        ≡ not (c.name == "stop_motion" || is_fit c status)
  unfolding precondition_block battery_block is_fit
  precondition_block_lem c none = ground arith
  precondition_block_lem c (some status) = ground arith

  readiness_block-rejects :
      (c : RobotActionSpec) (readiness arguments : Fields) {d : Decision}
      → readiness_block repr c readiness arguments ≡ some d
      → d.allowed ≡ false
  unfolding readiness_block
  readiness_block-rejects c readiness arguments h = ground arith

  precondition_block-rejects :
      (c : RobotActionSpec) (status : Option RobotStatus) {d : Decision}
      → precondition_block repr c status ≡ some d
      → d.allowed ≡ false
  unfolding precondition_block battery_block
  precondition_block-rejects c none h = ground arith
  precondition_block-rejects c (some status) h = ground arith

  -- An action is admitted exactly where it misses no required argument, and it is the stop action
  -- or the robot is ready for it and fit to carry it out.
  pub acceptance_decision-allowed :
      (c : RobotActionSpec) (status : Option RobotStatus) (readiness arguments : Fields)
      → (acceptance_decision repr c status readiness arguments).allowed ≡ (
          not (is_set (missing_required_arguments repr c arguments))
          && (c.name == "stop_motion" || (is_ready c readiness arguments && is_fit c status)))
  unfolding acceptance_decision
  acceptance_decision-allowed c status readiness arguments =
      elim (Option-cases (readiness_block repr c readiness arguments)) [
        | inr (d, blocked) ↦ ground (
          arith,
          blocked,
          readiness_block-rejects c readiness arguments blocked,
          readiness_block_lem c readiness arguments,
        )
        | inl free ↦ elim (Option-cases (precondition_block repr c status)) [
          | inr (d, blocked) ↦ ground (
            arith,
            free,
            blocked,
            precondition_block-rejects c status blocked,
            precondition_block_lem c status,
          )
          | inl fit ↦ ground (
            arith,
            free,
            fit,
            readiness_block_lem c readiness arguments,
            precondition_block_lem c status,
          )
        ]
      ]

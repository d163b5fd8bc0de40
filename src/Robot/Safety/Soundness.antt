-- ===== src/Robot/Safety/Soundness.antt =====
-- What an action that passes the safety supervisor satisfies, and that such an action passes.
use xbotics_hey_robot.Prelude.{
  ◌==◌, eq_iff, ap, ◌∙◌, if◌then◌else◌, Bool, ◌≡◌, refl, ◌↔◌, ◌⊎◌, inl, inr, String, true, false,
  Option, none, some, List, [], arith, All, Bool-cases, Option-cases,
}
use xbotics_hey_robot.Prelude.Float.{Float, abs_float}
use xbotics_hey_robot.Prelude.Text.{lower}
use xbotics_hey_robot.Prelude.Result.{Result, ok}
use xbotics_hey_robot.Prelude.Value.{Value, Fields, is_null, truthy, get_or_null}
use xbotics_hey_robot.Robot.Types.{RobotAction, RobotCapabilities, RobotHealth}
use xbotics_hey_robot.Robot.Safety.Conditions.{
  NotBelow, any-beyond, any-outside, stop_metrics, flags_set-nil, IsCritical, Fits,
  battery_critical_in_iff, wrong_dimension_iff,
}
use xbotics_hey_robot.Robot.Safety.{
  SafetyDecision, FloatError, allowed, safety_flags, flags_set, safety_setting, to_float,
  is_stop_action, named_stop, battery_critical_in, wrong_dimension, pair, check_bounds, check_limit,
  evaluate_action,
}

-- `str(name or "")`
abbrev pub name_text : (Value → String) → Value → String
name_text repr (Value.string s) = s
name_text repr v = if truthy v then repr v else ""

module _ (repr : Value → String) (parse : String → Option Float) where
  -- No limit is set, or every value is within it.
  abbrev pub WithinLimit : Value → List Float → Type 0
  WithinLimit setting values =
      (is_null setting ≡ true)
      ⊎ ((l : Float) × (to_float repr parse setting ≡ some l)
          × All (λ v. NotBelow l (abs_float v)) values)

  abbrev pub WithinBounds : Option (Value × Value) → List Float → Type 0
  WithinBounds none values = Unit
  WithinBounds (some (lo, hi)) values =
      (l : Float) × (u : Float) × (to_float repr parse lo ≡ some l)
      × (to_float repr parse hi ≡ some u)
      × All (λ v. NotBelow v l × NotBelow u v) values

  -- The action is that of a skill whose name, whatever its case, is that of the stop.
  abbrev pub IsStop : RobotAction → Type 0
  IsStop a =
      (skill : Fields) × (get_or_null a.metadata "skill" ≡ Value.dict skill)
      × (lower (name_text repr (get_or_null skill "name")) ≡ "stop_motion")

  optional_name :
      (told : Bool) (s : String)
      → (if told then lower s == "stop_motion" else false) ≡ true
        ↔ lower (if told then s else "") ≡ "stop_motion"
  unfolding lower
  optional_name true s = eq_iff (lower s) "stop_motion"
  optional_name false s =
      (λ h. absurd (ground (arith, h)), λ h. absurd (ground (arith, (eq_iff "" "stop_motion").1 h)))

  named_stop_iff :
      (v : Value) → named_stop repr parse v ≡ true ↔ lower (name_text repr v) ≡ "stop_motion"
  unfolding named_stop lower
  named_stop_iff (Value.string s) = eq_iff (lower s) "stop_motion"
  named_stop_iff v = optional_name (truthy v) (repr v)

  abbrev stop_test : Value → Bool
  stop_test v = elim v [
    | Value.dict skill ↦ named_stop repr parse (get_or_null skill "name")
    | _ ↦ false
  ]

  stop_value :
      (v : Value)
      → stop_test v ≡ true
      → (skill : Fields) × (v ≡ Value.dict skill)
        × (lower (name_text repr (get_or_null skill "name")) ≡ "stop_motion")
  stop_value (Value.dict skill) h = (skill, refl, (named_stop_iff (get_or_null skill "name")).0 h)
  stop_value Value.null h = absurd (ground (arith, h))
  stop_value (Value.boolean b) h = absurd (ground (arith, h))
  stop_value (Value.number z) h = absurd (ground (arith, h))
  stop_value (Value.string t) h = absurd (ground (arith, h))
  stop_value (Value.array xs) h = absurd (ground (arith, h))

  is_stop_action_iff : (a : RobotAction) → is_stop_action repr parse a ≡ true ↔ IsStop a
  unfolding is_stop_action
  is_stop_action_iff a = (
    stop_value (get_or_null a.metadata "skill"),
    λ k. ap stop_test k.1 ∙ (named_stop_iff (get_or_null k.0 "name")).1 k.2,
  )

  pub record IsSafe (a : RobotAction) (c : RobotCapabilities) (h : RobotHealth) : Type 0 where
    pub online : h.online ≡ true
    pub no_flag : All (λ k. truthy (get_or_null h.metrics k) ≡ false) stop_metrics
    pub powered : IsCritical h.metrics → IsStop a
    pub dimension : Fits c.action_dimensions a.values
    pub limit : WithinLimit (safety_setting c "max_abs_action") a.values
    pub bounds : WithinBounds (pair (safety_setting c "action_bounds")) a.values

  check_bounds_iff :
      (p : Option (Value × Value)) (a : RobotAction)
      → check_bounds repr parse p a ≡ ok allowed ↔ WithinBounds p a.values
  unfolding check_bounds
  check_bounds_iff none a = (λ h. tt, λ h. refl)
  check_bounds_iff (some (lo, hi)) a = elim (Option-cases (to_float repr parse lo)) [
    | inl e ↦ (λ h. absurd (ground (arith, h, e)), λ b. absurd (ground (arith, e, b.2)))
    | inr (l, e) ↦ elim (Option-cases (to_float repr parse hi)) [
      | inl f ↦ (λ h. absurd (ground (arith, h, e, f)), λ b. absurd (ground (arith, f, b.3)))
      | inr (u, f) ↦ (
        λ h. (l, u, e, f, (any-outside l u a.values).0 (ground (arith, h, e, f))),
        λ b.
            let (l', u', e', f', inside) = b in
            rw (e', check_bounds, f', (any-outside l' u' a.values).1 inside),
      )
    ]
  ]

  check_limit_iff :
      (setting : Value) (a : RobotAction) (rest : Result FloatError SafetyDecision)
      → check_limit repr parse setting a rest ≡ ok allowed
        ↔ WithinLimit setting a.values × (rest ≡ ok allowed)
  unfolding check_limit
  check_limit_iff setting a rest = elim (Bool-cases (is_null setting)) [
    | inl e ↦ (λ h. (inl e, ground (arith, h, e)), λ b. ground (arith, b.1, e))
    | inr e ↦ elim (Option-cases (to_float repr parse setting)) [
      | inl f ↦ (
        λ h. absurd (ground (arith, h, e, f)),
        λ b. elim b.0 [
          | inl g ↦ absurd (ground (arith, e, g))
          | inr (l, g, inside) ↦ absurd (ground (arith, f, g))
        ],
      )
      | inr (l, f) ↦ (
        λ h. (
          inr (l, f, (any-beyond l a.values).0 (ground (arith, h, e, f))),
          ground (arith, h, e, f),
        ),
        λ b. elim b.0 [
          | inl g ↦ absurd (ground (arith, e, g))
          | inr (l', g, inside) ↦ rw (e, g, (any-beyond l' a.values).1 inside) b.1
        ],
      )
    ]
  ]

  -- The checks before those of the values.
  record Preliminary (a : RobotAction) (c : RobotCapabilities) (h : RobotHealth) : Type 0 where
    online : h.online ≡ true
    no_flag : flags_set h.metrics safety_flags ≡ []
    powered : battery_critical_in h.metrics ≡ true → is_stop_action repr parse a ≡ true
    dimension : wrong_dimension c a ≡ false
    checked :
        check_limit repr parse
          (safety_setting c "max_abs_action")
          a
          (check_bounds repr parse (pair (safety_setting c "action_bounds")) a)
        ≡ ok allowed

  evaluate_action-Preliminary :
      (a : RobotAction) (c : RobotCapabilities) (h : RobotHealth)
      → evaluate_action repr parse a c h ≡ ok allowed
      → Preliminary a c h
  unfolding evaluate_action
  evaluate_action-Preliminary a c h e = ground arith

  evaluate_action_of_Preliminary :
      (a : RobotAction) (c : RobotCapabilities) (h : RobotHealth)
      → Preliminary a c h
      → evaluate_action repr parse a c h ≡ ok allowed
  unfolding evaluate_action
  evaluate_action_of_Preliminary a c h p = ground arith

  -- An action is let through to the driver exactly where the robot is online with none of its five
  -- stop and collision metrics set, its battery is not critical or the action is that of the stop,
  -- the action has no values or as many as the robot has dimensions, the limit and the bounds that
  -- are set are floats, and no value exceeds them. A value that is not a number exceeds none.
  pub evaluate_action_iff :
      (a : RobotAction) (c : RobotCapabilities) (h : RobotHealth)
      → evaluate_action repr parse a c h ≡ ok allowed ↔ IsSafe a c h
  evaluate_action_iff a c h =
      let bounds = pair (safety_setting c "action_bounds") in
      let limited =
        check_limit_iff (safety_setting c "max_abs_action") a (check_bounds repr parse bounds a) in
      let inside = check_bounds_iff bounds a in
      let flags = flags_set-nil h.metrics safety_flags in
      let critical = battery_critical_in_iff h.metrics in
      let stop = is_stop_action_iff a in
      let fits = wrong_dimension_iff c a in
      (
        λ e.
            let p = evaluate_action-Preliminary a c h e in
            record {
              online = p.online;
              no_flag = flags.0 p.no_flag;
              powered = λ low. stop.0 (p.powered (critical.1 low));
              dimension = fits.0 p.dimension;
              limit = (limited.0 p.checked).0;
              bounds = inside.0 (limited.0 p.checked).1;
            },
        λ safe. evaluate_action_of_Preliminary a c h (record {
          online = safe.online;
          no_flag = flags.1 safe.no_flag;
          powered = λ low. stop.1 (safe.powered (critical.0 low));
          dimension = fits.1 safe.dimension;
          checked = limited.1 (safe.limit, inside.1 safe.bounds);
        }),
      )

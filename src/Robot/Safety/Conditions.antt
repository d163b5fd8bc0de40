-- ===== src/Robot/Safety/Conditions.antt =====
-- The checks of RobotSafetySupervisor, src/hey_robot/robot_runtime/safety.py, each against the
-- condition that it stands for.
use xbotics_hey_robot.Prelude.{
  ℕ, length, eqb, not, ◌&&◌, eq_iff, eq_refl, ap, ◌∙◌, Bool, ◌≡◌, refl, ◌↔◌, ◌⊎◌, inl, inr, String,
  true, false, Option, none, some, List, [], ◌∷◌, arith, any, All, Bool-cases,
}
use xbotics_hey_robot.Prelude.Int.{◌≤ℤ◌}
use xbotics_hey_robot.Prelude.Float.{
  Float, finite, infinity, minus_infinity, not_a_number, ltb_float, abs_float,
}
use xbotics_hey_robot.Prelude.Value.{Value, Fields, is_text, truthy, flag, get_or_null}
use xbotics_hey_robot.Robot.Types.{RobotAction, RobotCapabilities}
use xbotics_hey_robot.Robot.Safety.{
  flags_set, battery_critical_in, wrong_dimension, beyond, outside,
}

-- One float is not below another: a number that is at least as large, or one of them is no number.
abbrev pub NotBelow : Float → Float → Type 0
NotBelow (finite a) (finite b) = b ≤ℤ a
NotBelow (finite a) infinity = ⊥
NotBelow (finite a) minus_infinity = Unit
NotBelow (finite a) not_a_number = Unit
NotBelow infinity b = Unit
NotBelow not_a_number b = Unit
NotBelow minus_infinity (finite b) = ⊥
NotBelow minus_infinity infinity = ⊥
NotBelow minus_infinity minus_infinity = Unit
NotBelow minus_infinity not_a_number = Unit

NotBelow-ltb_float : (a b : Float) → ltb_float a b ≡ false ↔ NotBelow a b
unfolding ltb_float
NotBelow-ltb_float (finite a) (finite b) = (λ h. ground arith, λ h. ground arith)
NotBelow-ltb_float (finite a) infinity = (λ h. absurd (ground (arith, h)), λ h. absurd h)
NotBelow-ltb_float (finite a) minus_infinity = (λ h. tt, λ h. refl)
NotBelow-ltb_float (finite a) not_a_number = (λ h. tt, λ h. refl)
NotBelow-ltb_float infinity b = (λ h. tt, λ h. refl)
NotBelow-ltb_float not_a_number b = (λ h. tt, λ h. refl)
NotBelow-ltb_float minus_infinity (finite b) = (λ h. absurd (ground (arith, h)), λ h. absurd h)
NotBelow-ltb_float minus_infinity infinity = (λ h. absurd (ground (arith, h)), λ h. absurd h)
NotBelow-ltb_float minus_infinity minus_infinity = (λ h. tt, λ h. refl)
NotBelow-ltb_float minus_infinity not_a_number = (λ h. tt, λ h. refl)

pub any-beyond :
    (l : Float) (vs : List Float)
    → any (beyond l) vs ≡ false ↔ All (λ v. NotBelow l (abs_float v)) vs
unfolding beyond
any-beyond l [] = (λ h. tt, λ h. refl)
any-beyond l (v ∷ vs) =
    let this = NotBelow-ltb_float l (abs_float v) in
    (
      λ h. (this.0 (ground (arith, h)), (any-beyond l vs).0 (ground (arith, h))),
      λ h. ground (arith, this.1 h.0, (any-beyond l vs).1 h.1),
    )

pub any-outside :
    (l u : Float) (vs : List Float)
    → any (outside l u) vs ≡ false ↔ All (λ v. NotBelow v l × NotBelow u v) vs
unfolding outside
any-outside l u [] = (λ h. tt, λ h. refl)
any-outside l u (v ∷ vs) =
    let above = NotBelow-ltb_float v l in
    let below = NotBelow-ltb_float u v in
    (
      λ h. (
        (above.0 (ground (arith, h)), below.0 (ground (arith, h))),
        (any-outside l u vs).0 (ground (arith, h)),
      ),
      λ h. ground (arith, above.1 h.0.0, below.1 h.0.1, (any-outside l u vs).1 h.1),
    )

-- The metrics that stop every action.
abbrev pub stop_metrics : List String
stop_metrics =
    "emergency_stop" ∷ "estop" ∷ "safety_stop" ∷ "collision_detected" ∷ "protective_stop" ∷ []

pub flags_set-nil :
    (metrics : Fields) (ks : List String)
    → flags_set metrics ks ≡ [] ↔ All (λ k. truthy (get_or_null metrics k) ≡ false) ks
unfolding flags_set flag
flags_set-nil metrics [] = (λ h. tt, λ h. refl)
flags_set-nil metrics (k ∷ ks) = (
  λ h. (ground (arith, h), (flags_set-nil metrics ks).0 (ground (arith, h))),
  λ h. ground (arith, h.0, (flags_set-nil metrics ks).1 h.1),
)

-- The battery reports that it is critical.
abbrev pub IsCritical : Fields → Type 0
IsCritical metrics =
    (b : Fields) × (get_or_null metrics "battery" ≡ Value.dict b)
    × (get_or_null b "status" ≡ Value.string "critical")

-- No values, or as many as the robot has dimensions, where it says how many.
abbrev pub Fits : Option ℕ → List Float → Type 0
Fits none values = Unit
Fits (some n) values = (values ≡ []) ⊎ (length values ≡ n)

is_text_iff : (v : Value) (t : String) → is_text v t ≡ true ↔ v ≡ Value.string t
is_text_iff (Value.string s) t =
    (λ h. ap Value.string ((eq_iff s t).0 h), λ h. ap (λ v. is_text v t) h ∙ eq_refl t)
is_text_iff Value.null t = (λ h. absurd (ground (arith, h)), λ h. absurd (ground (arith, h)))
is_text_iff (Value.boolean b) t = (λ h. absurd (ground (arith, h)), λ h. absurd (ground (arith, h)))
is_text_iff (Value.number z) t = (λ h. absurd (ground (arith, h)), λ h. absurd (ground (arith, h)))
is_text_iff (Value.array xs) t = (λ h. absurd (ground (arith, h)), λ h. absurd (ground (arith, h)))
is_text_iff (Value.dict kvs) t = (λ h. absurd (ground (arith, h)), λ h. absurd (ground (arith, h)))

abbrev battery_test : Value → Bool
battery_test v = elim v [
  | Value.dict battery ↦ is_text (get_or_null battery "status") "critical"
  | _ ↦ false
]

critical_value :
    (v : Value)
    → battery_test v ≡ true
    → (b : Fields) × (v ≡ Value.dict b) × (get_or_null b "status" ≡ Value.string "critical")
critical_value (Value.dict b) h = (b, refl, (is_text_iff (get_or_null b "status") "critical").0 h)
critical_value Value.null h = absurd (ground (arith, h))
critical_value (Value.boolean b) h = absurd (ground (arith, h))
critical_value (Value.number z) h = absurd (ground (arith, h))
critical_value (Value.string t) h = absurd (ground (arith, h))
critical_value (Value.array xs) h = absurd (ground (arith, h))

pub battery_critical_in_iff :
    (metrics : Fields) → battery_critical_in metrics ≡ true ↔ IsCritical metrics
unfolding battery_critical_in
battery_critical_in_iff metrics = (
  critical_value (get_or_null metrics "battery"),
  λ k. ap battery_test k.1 ∙ (is_text_iff (get_or_null k.0 "status") "critical").1 k.2,
)

length-nil : (values : List Float) → length values ≡ 0 → values ≡ []
length-nil [] h = refl
length-nil (v ∷ values) h = absurd (ground (arith, h))

pub wrong_dimension_iff :
    (c : RobotCapabilities) (a : RobotAction)
    → wrong_dimension c a ≡ false ↔ Fits c.action_dimensions a.values
unfolding wrong_dimension
wrong_dimension_iff c a = fits c.action_dimensions
  where
    fits :
        (o : Option ℕ)
        → (elim o as (λ x. Bool) [
          | none ↦ false
          | some n ↦ not (eqb (length a.values) 0) && not (eqb (length a.values) n)
        ])
            ≡ false
          ↔ Fits o a.values
    fits none = (λ h. tt, λ h. refl)
    fits (some n) = (
      λ h. elim (Bool-cases (eqb (length a.values) 0)) [
        | inl empty ↦ inl (length-nil a.values (ground (arith, empty)))
        | inr full ↦ inr (ground (arith, h, full))
      ],
      λ h. elim h [
        | inl empty ↦ let zero : length a.values ≡ 0 = ap length empty in ground (arith, zero)
        | inr same ↦ ground (arith, same)
      ],
    )

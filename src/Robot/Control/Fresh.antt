-- ===== src/Robot/Control/Fresh.antt =====
-- Which actions reach the driver.
use xbotics_hey_robot.Prelude.{
  ◌≡◌, refl, sym, ap, ◌∙◌, Option, some, List, [], ◌∷◌, ◌++◌, if◌then◌else◌, Bool-cases, inl, inr,
}
use mathlib.Core.List as Lists
use xbotics_hey_robot.Prelude.Float.{Float}
use xbotics_hey_robot.Prelude.Value.{flag}
use xbotics_hey_robot.Prelude.Result.{Result, ok, raise}
use xbotics_hey_robot.Robot.Types.{RobotStatus, RobotAction}
use xbotics_hey_robot.Robot.Control.Deadline.{is_allowed, is_timely, evaluate-is_timely}
use xbotics_hey_robot.Robot.Control.{
  ControlPlane, ControlPlaneDecision, Failure, Reply, Times, Floats, evaluate, answer, apply_locked,
  hold_action, release_action, note_preemption, apply_allowed, apply_action, apply_actions,
}

-- A driver that notes the actions that it is told to apply.
abbrev pub noting :
    {D : Type 0}
    → (RobotAction → D → Result Failure RobotStatus × D)
    → RobotAction
    → D × List RobotAction
    → Result Failure RobotStatus × (D × List RobotAction)
noting apply_fn a s = let m = apply_fn a s.0 in (m.0, (m.1, s.1 ++ a ∷ []))

-- A way to stop the robot that does not raise, beside the noted actions.
abbrev pub stopping :
    {D : Type 0}
    → (RobotAction → D → RobotStatus × D)
    → RobotAction
    → D × List RobotAction
    → Result Failure RobotStatus × (D × List RobotAction)
stopping stop a s = let m = stop a s.0 in (ok m.0, (m.1, s.1))

-- The actions of the requests that were in time when they were checked.
unfoldable pub in_time : Floats → List (Times × RobotAction) → List RobotAction
in_time fl [] = []
in_time fl ((at, a) ∷ rest) =
    let later = in_time fl rest in if is_timely fl at.checked a then a ∷ later else later

module _ {D : Type 0} (fl : Floats) (apply_fn : RobotAction → D → Result Failure RobotStatus × D)
    (stop : RobotAction → D → RobotStatus × D) where
  apply_locked-noting :
      (at : Times) (deadline : Option Float) (a : RobotAction) (p : ControlPlane)
      (s : D × List RobotAction)
      → (apply_locked fl (noting apply_fn) at deadline a p s).2.1 ≡ s.1 ++ a ∷ []
  unfolding apply_locked
  apply_locked-noting at deadline a p s = answered (apply_fn a s.0)
    where
      answered :
          (m : Result Failure RobotStatus × D)
          → (answer fl
              (noting apply_fn)
              (release_action at deadline a m.0 (hold_action at.submitted deadline a p))
              (m.1, s.1 ++ a ∷ [])
              m.0).2.1
            ≡ s.1 ++ a ∷ []
      answered (raise x, d) = refl
      answered (ok status, d) = refl

  pub apply_action-noting :
      (at : Times) (a : RobotAction) (p : ControlPlane) (s : D × List RobotAction)
      → (apply_action fl (noting apply_fn) (some (stopping stop)) at a p s).2.1
        ≡ s.1 ++ in_time fl ((at, a) ∷ [])
  unfolding apply_action in_time
  apply_action-noting at a p s =
      decided (evaluate fl at.checked a)
      ∙ ap (λ b. s.1 ++ (if b then a ∷ [] else [])) (evaluate-is_timely fl at.checked a)
    where
      decided :
          (m : Result Failure ControlPlaneDecision)
          → (elim m as (λ x. Result Failure Reply × ControlPlane × (D × List RobotAction)) [
            | raise x ↦ (raise x, p, s)
            | ok decision ↦
                if decision.allowed
                then apply_allowed fl
                    (noting apply_fn)
                    (some (stopping stop))
                    at
                    decision.deadline_at
                    a
                    p
                    s
                else (ok (Reply.refused decision), p, s)
          ]).2.1
            ≡ s.1 ++ (if is_allowed m then a ∷ [] else [])
      decided (raise x) = sym (Lists.append-nil s.1)
      decided (ok decision) = elim (Bool-cases decision.allowed) [
        | inr late ↦ rw late (sym (Lists.append-nil s.1))
        | inl fresh ↦ elim (Bool-cases (flag a.metadata "preempt")) [
          | inl first ↦
              rw (fresh, first)
                (apply_locked-noting at decision.deadline_at a (note_preemption a (stop a s.0).0 p)
                  ((stop a s.0).1, s.1))
          | inr plain ↦ rw (fresh, plain) (apply_locked-noting at decision.deadline_at a p s)
        ]
      ]

  in_time-append :
      (at : Times) (a : RobotAction) (rest : List (Times × RobotAction)) (told : List RobotAction)
      → told ++ in_time fl ((at, a) ∷ []) ++ in_time fl rest ≡ told ++ in_time fl ((at, a) ∷ rest)
  unfolding in_time
  in_time-append at a rest told = elim (Bool-cases (is_timely fl at.checked a)) [
    | inl fresh ↦ rw fresh (Lists.append_assoc told (a ∷ []) (in_time fl rest))
    | inr late ↦ rw late (ap (λ all. all ++ in_time fl rest) (Lists.append-nil told))
  ]

  -- Of any requests, whatever the driver answers or raises, exactly those reach it, once each and in
  -- their order, that were in time when the control plane checked them: the first deadline that the
  -- metadata gives, `deadline_at`, the timestamp with `deadline_sec`, or the timestamp with `dt` for
  -- each step of the `horizon`, is a float that is not before the time of the check, as one that
  -- is no number never is, or there is none; the way to stop the robot before a preempting action is any that does not raise.
  pub apply_actions-in_time :
      (requests : List (Times × RobotAction)) (p : ControlPlane) (s : D × List RobotAction)
      → (apply_actions fl (noting apply_fn) (some (stopping stop)) requests p s).1.1
        ≡ s.1 ++ in_time fl requests
  unfolding apply_actions in_time
  apply_actions-in_time [] p s = sym (Lists.append-nil s.1)
  apply_actions-in_time ((at, a) ∷ rest) p s =
      let m = apply_action fl (noting apply_fn) (some (stopping stop)) at a p s in
      apply_actions-in_time rest m.1 m.2
      ∙ ap (λ told. told ++ in_time fl rest) (apply_action-noting at a p s)
      ∙ in_time-append at a rest s.1

-- ===== src/Robot/Control/Policy.antt =====
-- What a success of `apply_policy_result` says of the actions of the policy.
use xbotics_hey_robot.Prelude.{
  ◌≡◌, refl, sym, ap, ◌∙◌, Bool, false, Option, some, List, [], ◌∷◌, ◌++◌, arith, if◌then◌else◌,
  Bool-cases, inl, inr,
}
use mathlib.Core.List as Lists
use xbotics_hey_robot.Prelude.Result.{Result, ok, raise}
use xbotics_hey_robot.Robot.Types.{RobotStatus, RobotAction}
use xbotics_hey_robot.Robot.Control.{
  ControlPlane, ControlPlaneDecision, Failure, Reply, Times, Floats, evaluate, apply_allowed,
  apply_action, reply_failed, apply_policy_actions,
}
use xbotics_hey_robot.Robot.Control.Deadline.{evaluate-is_timely}
use xbotics_hey_robot.Robot.Control.Fresh.{noting, stopping, in_time, apply_action-noting}

abbrev pub actions_of : List (Times × RobotAction) → List RobotAction
actions_of [] = []
actions_of ((at, a) ∷ rest) = a ∷ actions_of rest

module _ {D : Type 0} (fl : Floats) (apply_fn : RobotAction → D → Result Failure RobotStatus × D)
    (stop : RobotAction → D → RobotStatus × D) where
  -- A reply that is no failure is one of the driver, to the action.
  apply_action-went :
      (at : Times) (a : RobotAction) (p : ControlPlane) (s : D × List RobotAction) (reply : Reply)
      → (apply_action fl (noting apply_fn) (some (stopping stop)) at a p s).0 ≡ ok reply
      → reply_failed fl (noting apply_fn) reply ≡ false
      → in_time fl ((at, a) ∷ []) ≡ a ∷ []
  unfolding apply_action in_time
  apply_action-went at a p s reply answered well =
      ap (λ b. if b then a ∷ [] else []) (sym (evaluate-is_timely fl at.checked a))
      ∙ decided (evaluate fl at.checked a) answered
    where
      decided :
          (m : Result Failure ControlPlaneDecision)
          → ((elim m as (λ x. Result Failure Reply × ControlPlane × (D × List RobotAction)) [
            | raise x ↦ (raise x, p, s)
            | ok decision ↦
                if decision.allowed
                then apply_allowed fl
                    (noting apply_fn)
                    (some (stopping stop))
                    at
                    decision.deadline_at
                    a
                    p
                    s
                else (ok (Reply.refused decision), p, s)
          ]).0
              ≡ ok reply)
          → (if (elim m as (λ x. Bool) [ raise x ↦ false | ok decision ↦ decision.allowed ])
              then a ∷ []
              else [])
            ≡ a ∷ []
      decided (raise x) h = ground (arith, h)
      decided (ok decision) h = elim (Bool-cases decision.allowed) [
        | inl fresh ↦ rw fresh refl
        | inr late ↦ ground (arith, h, late, well)
      ]

  -- Where the actions of a policy are answered with a reply that is no failure, every one of them
  -- reached the driver, once each and in their order; the way to stop the robot before a preempting
  -- action is any that does not raise.
  pub apply_policy_actions-all :
      (requests : List (Times × RobotAction)) (last : Option Reply) (reply : Reply)
      (p : ControlPlane) (s : D × List RobotAction)
      → (apply_policy_actions fl (noting apply_fn) (some (stopping stop)) requests last p s).0
        ≡ ok (some reply)
      → reply_failed fl (noting apply_fn) reply ≡ false
      → (apply_policy_actions fl (noting apply_fn) (some (stopping stop)) requests last p s).2.1
        ≡ s.1 ++ actions_of requests
  unfolding apply_policy_actions
  apply_policy_actions-all [] last reply p s answered well = sym (Lists.append-nil s.1)
  apply_policy_actions-all ((at, a) ∷ rest) last reply p s answered well =
      let m = apply_action fl (noting apply_fn) (some (stopping stop)) at a p s in
      went m (apply_action-noting fl apply_fn stop at a p s) (λ r. apply_action-went at a p s r)
        (λ r next. apply_policy_actions-all rest (some r) reply m.1 m.2 next well) answered
    where
      rest_of :
          Result Failure Reply × ControlPlane × (D × List RobotAction)
          → Result Failure (Option Reply) × ControlPlane × (D × List RobotAction)
      rest_of m = elim m.0 [
        | raise x ↦ (raise x, m.1, m.2)
        | ok r ↦
            if reply_failed fl (noting apply_fn) r
            then (ok (some r), m.1, m.2)
            else apply_policy_actions fl (noting apply_fn) (some (stopping stop)) rest (some r) m.1
                m.2
      ]

      went :
          (m : Result Failure Reply × ControlPlane × (D × List RobotAction))
          → m.2.1 ≡ s.1 ++ in_time fl ((at, a) ∷ [])
          → ((r : Reply)
              → m.0 ≡ ok r
              → reply_failed fl (noting apply_fn) r ≡ false
              → in_time fl ((at, a) ∷ []) ≡ a ∷ [])
          → ((r : Reply)
              → (apply_policy_actions fl
                  (noting apply_fn)
                  (some (stopping stop))
                  rest
                  (some r)
                  m.1
                  m.2).0
                ≡ ok (some reply)
              → (apply_policy_actions fl
                  (noting apply_fn)
                  (some (stopping stop))
                  rest
                  (some r)
                  m.1
                  m.2).2.1
                ≡ m.2.1 ++ actions_of rest)
          → (rest_of m).0 ≡ ok (some reply)
          → (rest_of m).2.1 ≡ s.1 ++ a ∷ actions_of rest
      went (raise x, p', s') told fresh later h = ground (arith, h)
      went (ok r, p', s') told fresh later h =
          elim (Bool-cases (reply_failed fl (noting apply_fn) r)) [
            | inl failed ↦ ground (arith, h, failed, well)
            | inr fine ↦
                let next : (apply_policy_actions fl (noting apply_fn) (some (stopping stop)) rest
                      (some r) p' s').0
                    ≡ ok (some reply) =
                  ground (arith, h, fine) in
                rw fine (
                  later r next
                  ∙ ap (λ k. k ++ actions_of rest) (told ∙ ap (λ k. s.1 ++ k) (fresh r refl fine))
                  ∙ Lists.append_assoc s.1 (a ∷ []) (actions_of rest))
          ]

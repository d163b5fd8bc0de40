-- ===== src/Skills/Termination/Laws.antt =====
-- When and why an option ends.
use xbotics_hey_robot.Prelude.{
  ◌+◌, ◌≡◌, refl, true, ◌&&◌, ◌||◌, none, some, List, [], ◌∷◌, arith, if◌then◌else◌, leb, eqb, any,
}
use xbotics_hey_robot.Skills.Termination.{
  VlaOptionState, Policy, model_done, environment_done, is_after_model, is_after_actions, is_budget,
  environment_policy, model_policy, no_action_policy, budget_policy, first_decision, composite,
}

-- A composite ends the option exactly where one of its policies does.
pub first_decision-terminate :
    (ps : List Policy) (s : VlaOptionState)
    → (first_decision ps s).terminate ≡ any (λ p. (p s).terminate) ps
unfolding first_decision
first_decision-terminate [] s = refl
first_decision-terminate (p ∷ ps) s = ground (arith, first_decision-terminate ps s)

-- With the default policies the reason is the first that holds of: the environment is done, the
-- model is done and its actions were carried out or are none, the model proposed no action, and
-- the budget of steps is spent. The option succeeds at once in the first two cases only, and goes
-- on exactly where none holds.
pub composite-default :
    (s : VlaOptionState)
    → let d = composite [] s in
      let by_environment = environment_done s.model_data || environment_done s.environment_data in
      let idle = is_after_model s.stage && eqb s.action_count 0 in
      let by_model = model_done s.model_data && (is_after_actions s.stage || idle) in
      let spent = is_budget s.stage && leb s.max_steps (s.step_index + 1) in
      (d.terminate ≡ (by_environment || by_model || idle || spent))
      × (d.reason ≡ (
          if by_environment
          then some "environment_done"
          else if by_model
          then some "model_done"
          else if idle
          then some "no_action"
          else if spent
          then some "max_steps"
          else none))
      × (d.subgoal_succeeded ≡ (if by_environment || by_model then some true else none))
unfolding composite first_decision environment_policy model_policy no_action_policy budget_policy
composite-default s = ground arith

-- ===== src/Skills/Termination.antt =====
-- The termination policies of a VLA option, src/hey_robot/skills/vla/termination.py.
pub mod Laws
use xbotics_hey_robot.Prelude.{
  ℕ, ◌+◌, String, Bool, true, false, ◌&&◌, ◌||◌, Option, none, some, List, [], ◌∷◌, if◌then◌else◌,
  leb, eqb,
}
use xbotics_hey_robot.Prelude.Value.{Value, Fields, dict, get_or_null, flag}

pub data Stage : Type 0 where
  after_model after_actions budget : Stage

pub record VlaOptionState : Type 0 where
  pub stage : Stage
  pub step_index : ℕ
  pub max_steps : ℕ
  pub model_data : Fields
  pub environment_data : Fields
  pub action_count : ℕ

pub record TerminationDecision : Type 0 where
  pub terminate : Bool
  pub reason : Option String
  pub subgoal_succeeded : Option Bool

-- `any` of the flags set in the dictionary at one of the keys.
flag_under : Fields → List String → (Fields → Bool) → Bool
flag_under d [] p = false
flag_under d (k ∷ ks) p =
    (elim (get_or_null d k) [ dict inner ↦ p inner | _ ↦ false ]) || flag_under d ks p

unfoldable pub model_done : Fields → Bool
unfolding flag_under
model_done d =
    flag d "done"
    || flag_under d ("policy_result" ∷ "action_chunk" ∷ []) (λ inner. flag inner "done")

unfoldable pub environment_done : Fields → Bool
unfolding flag_under
environment_done d =
    flag d "environment_done"
    || flag_under d ("policy_result" ∷ "action_chunk" ∷ "environment" ∷ [])
        (λ inner. flag inner "environment_done" || flag inner "done_by_environment")

abbrev pub is_after_model : Stage → Bool
is_after_model Stage.after_model = true
is_after_model _ = false

abbrev pub is_after_actions : Stage → Bool
is_after_actions Stage.after_actions = true
is_after_actions _ = false

abbrev pub is_budget : Stage → Bool
is_budget Stage.budget = true
is_budget _ = false

abbrev decide : Bool → String → Option Bool → TerminationDecision
decide done reason succeeded = record {
  terminate = done;
  reason = if done then some reason else none;
  subgoal_succeeded = succeeded;
}

-- A policy is its `evaluate`.
abbrev pub Policy : Type 0
Policy = VlaOptionState → TerminationDecision

unfoldable pub environment_policy : Policy
environment_policy s =
    decide (environment_done s.model_data || environment_done s.environment_data) "environment_done"
      (some true)

unfoldable pub model_policy : Policy
model_policy s =
    decide
      (model_done s.model_data
        && (is_after_actions s.stage || (is_after_model s.stage && eqb s.action_count 0)))
      "model_done" (some true)

unfoldable pub no_action_policy : Policy
no_action_policy s = decide (is_after_model s.stage && eqb s.action_count 0) "no_action" none

unfoldable pub budget_policy : Policy
budget_policy s = decide (is_budget s.stage && leb s.max_steps (s.step_index + 1)) "max_steps" none

abbrev pub default_policies : List Policy
default_policies = environment_policy ∷ model_policy ∷ no_action_policy ∷ budget_policy ∷ []

abbrev pub go_on : TerminationDecision
go_on = record { terminate = false; reason = none; subgoal_succeeded = none }

-- The loop of `CompositeTermination.evaluate`.
unfoldable pub first_decision : List Policy → Policy
first_decision [] s = go_on
first_decision (p ∷ ps) s = let rest = first_decision ps s in if (p s).terminate then p s else rest

-- `policies or (...)`
abbrev pub or_default : List Policy → List Policy
or_default [] = default_policies
or_default (p ∷ ps) = p ∷ ps

unfoldable pub composite : List Policy → Policy
unfolding first_decision
composite policies s = first_decision (or_default policies) s

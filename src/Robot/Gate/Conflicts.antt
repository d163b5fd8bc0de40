-- ===== src/Robot/Gate/Conflicts.antt =====
-- Which actions may not run at once.
use xbotics_hey_robot.Prelude.{
  ◌≡◌, refl, sym, ◌∙◌, ap, String, Bool, true, false, ◌||◌, List, [], ◌∷◌, arith, ◌==◌, eq_iff,
  keep, any,
}
use xbotics_hey_robot.Prelude.Text.{has}
use xbotics_hey_robot.Prelude.Value.{Value, Fields}
use xbotics_hey_robot.Robot.Types.{RobotActionSpec}
use xbotics_hey_robot.Robot.Gate.{
  is_set, has_global_resource, exclusive_resources, union, or_robot, instance_resources,
  normalized_resources, shared_or_global_resources, resources_conflict,
}

==_comm : (s t : String) → (s == t) ≡ (t == s)
==_comm s t = ground (arith, eq_iff s t, eq_iff t s)

any-or :
    (x : String) (p : String → Bool) (ys : List String)
    → any (λ y. x == y || p y) ys ≡ (has ys x || any p ys)
unfolding has
any-or x p [] = refl
any-or x p (y ∷ ys) = ground (arith, any-or x p ys, ==_comm x y)

any-has_nil : (ys : List String) → any (has []) ys ≡ false
unfolding has
any-has_nil [] = refl
any-has_nil (y ∷ ys) = any-has_nil ys

-- Two lists share a text whichever of them is searched.
any-has_comm : (xs ys : List String) → any (has ys) xs ≡ any (has xs) ys
unfolding has
any-has_comm [] ys = sym (any-has_nil ys)
any-has_comm (x ∷ xs) ys = ap (λ b. has ys x || b) (any-has_comm xs ys) ∙ sym (any-or x (has xs) ys)

is_set-keep : (p : String → Bool) (xs : List String) → is_set (keep p xs) ≡ any p xs
is_set-keep p [] = refl
is_set-keep p (x ∷ xs) = ground (arith, is_set-keep p xs)

module _ (repr : Value → String) where
  instance_set :
      (rs : List String) (arguments : Fields) → is_set (instance_resources repr rs arguments) ≡ true
  unfolding instance_resources
  instance_set [] arguments = refl
  instance_set (r ∷ rs) arguments = or_robot_set _
    where
      or_robot_set : (l : List String) → is_set (or_robot l) ≡ true
      or_robot_set [] = refl
      or_robot_set (x ∷ xs) = refl

  normalized_set :
      (c : RobotActionSpec) (arguments : Fields)
      → is_set (normalized_resources repr c arguments) ≡ true
  unfolding normalized_resources
  normalized_set c arguments = instance_set _ arguments

  is_set-union : (xs ys : List String) → is_set xs ≡ true → is_set (union xs ys) ≡ true
  is_set-union [] ys h = absurd (ground arith)
  is_set-union (x ∷ xs) ys h = refl

  -- Two actions conflict whichever of them is asked about first.
  pub resources_conflict_comm :
      (left right : RobotActionSpec) (left_arguments right_arguments : Fields)
      → resources_conflict repr left right left_arguments right_arguments
        ≡ resources_conflict repr right left right_arguments left_arguments
  unfolding resources_conflict shared_or_global_resources
  resources_conflict_comm left right la ra =
      let ls = normalized_resources repr left la in
      let rs = normalized_resources repr right ra in
      let el = exclusive_resources ls in
      let er = exclusive_resources rs in
      ground (
        arith,
        is_set-union ls rs (normalized_set left la),
        is_set-union rs ls (normalized_set right ra),
        is_set-keep (has er) el,
        is_set-keep (has el) er,
        any-has_comm el er,
      )

  -- An action that takes the whole robot conflicts with every action.
  pub resources_conflict_global :
      (left right : RobotActionSpec) (left_arguments right_arguments : Fields)
      → has_global_resource (normalized_resources repr left left_arguments) ≡ true
      → resources_conflict repr left right left_arguments right_arguments ≡ true
  unfolding resources_conflict shared_or_global_resources
  resources_conflict_global left right la ra h =
      let ls = normalized_resources repr left la in
      let rs = normalized_resources repr right ra in
      ground (arith, h, is_set-union ls rs (normalized_set left la))

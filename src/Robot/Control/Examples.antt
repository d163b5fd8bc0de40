-- ===== src/Robot/Control/Examples.antt =====
-- The theorems of the control plane at two actions, of which the second comes too late.
use xbotics_hey_robot.Prelude.{ℕ, refl, suc, true, ◌≡◌, Option, none, some, [], ◌∷◌, ◌++◌, List}
use xbotics_hey_robot.Prelude.Int.{pos, ◌*ℤ◌, ◌+ℤ◌}
use xbotics_hey_robot.Prelude.Float.{Float, finite, not_a_number, ltb_float, add_float}
use xbotics_hey_robot.Prelude.Value.{Value, number, boolean, end, entry}
use xbotics_hey_robot.Prelude.Result.{Result, ok, raise}
use xbotics_hey_robot.Tasks.Sample.{envelope}
use xbotics_hey_robot.Robot.Types.{RobotStatus, RobotAction}
use xbotics_hey_robot.Robot.Control.{
  Failure, Reply, Times, Floats, new_plane, apply_action, apply_actions, apply_policy_actions,
}
use xbotics_hey_robot.Robot.Control.Policy.{actions_of, apply_policy_actions-all}
use xbotics_hey_robot.Robot.Control.Bounds.{IsIdle, apply_actions-IsIdle}
use xbotics_hey_robot.Robot.Control.Fresh.{noting, stopping, in_time, apply_actions-in_time}

abbrev float_of : Value → Option Float
float_of (number z) = some (finite z)
float_of v = none

-- On finite floats, which those of the actions are.
abbrev times : Float → Float → Float
times (finite a) (finite b) = finite (a *ℤ b)
times _ b = not_a_number

abbrev floats : Floats
floats = record { float = float_of; product = times }

abbrev in_time_action : RobotAction
in_time_action = record {
  envelope = envelope;
  values = [];
  action_id = "act_1";
  skill_id = "skill_1";
  task_id = "task1";
  timestamp = 10;
  metadata = entry "deadline_sec" (number (pos 5)) (entry "preempt" (boolean true) end);
}

abbrev late_action : RobotAction
late_action = record in_time_action {
  action_id = "act_2";
  metadata = entry "deadline_at" (number (pos 11)) end;
}

abbrev at : ℕ → Times
at n = record { checked = n; submitted = n; started = n; ended = n; judged = n }

abbrev requests : List (Times × RobotAction)
requests = (at 12, in_time_action) ∷ (at 12, late_action) ∷ []

abbrev done : RobotStatus
done = record {
  envelope = envelope;
  frame_id = none;
  state = "idle";
  task = none;
  skill_id = none;
  success = some true;
  error = none;
  metrics = end;
}

-- A driver that counts its calls, and loses the connection at the first action.
abbrev counting : RobotAction → ℕ → Result Failure RobotStatus × ℕ
counting a n = (raise (Failure.driver_error "lost"), suc n)

abbrev still : RobotAction → ℕ → RobotStatus × ℕ
still a n = (done, n)

apply_actions-IsIdle_example :
    IsIdle 1 (apply_actions floats counting none requests (new_plane 0) 0).0
apply_actions-IsIdle_example = apply_actions-IsIdle 0 floats counting none requests 0

apply_actions-in_time_example :
    (apply_actions floats
      (noting counting)
      (some (stopping still))
      requests
      (new_plane 3)
      (0, [])).1.1
    ≡ [] ++ in_time floats requests
apply_actions-in_time_example =
    apply_actions-in_time floats counting still requests (new_plane 3) (0, [])

abbrev obedient : RobotAction → ℕ → Result Failure RobotStatus × ℕ
obedient a n = (ok done, suc n)

abbrev policy_requests : List (Times × RobotAction)
policy_requests = (at 12, in_time_action) ∷ (at 14, in_time_action) ∷ []

abbrev policy_reply : Reply
policy_reply =
    Reply.applied done
      (apply_actions floats (noting obedient) (some (stopping still)) policy_requests (new_plane 3)
        (0, [])).0

apply_policy_actions-all_example :
    (apply_policy_actions floats
      (noting obedient)
      (some (stopping still))
      policy_requests
      none
      (new_plane 3)
      (0, [])).2.1
    ≡ [] ++ actions_of policy_requests
unfolding apply_policy_actions apply_actions apply_action ◌+ℤ◌ ltb_float add_float
apply_policy_actions-all_example =
    apply_policy_actions-all floats obedient still policy_requests none policy_reply (new_plane 3)
      (0, []) refl refl

-- ===== src/Robot/Control/Bounds.antt =====
-- What the control plane keeps of the actions.
use xbotics_hey_robot.Prelude.{
  ℕ, ◌≤◌, ◌≡◌, refl, Option, none, some, List, [], ◌∷◌, arith, length, if◌then◌else◌, Bool-cases,
  inl, inr, eq_refl,
}
use xbotics_hey_robot.Prelude.Bounded.{length-put_newest}
use xbotics_hey_robot.Prelude.Float.{Float}
use xbotics_hey_robot.Prelude.Value.{flag}
use xbotics_hey_robot.Prelude.Result.{Result, ok, raise}
use xbotics_hey_robot.Robot.Types.{RobotStatus, RobotAction}
use xbotics_hey_robot.Robot.Control.{
  ControlPlane, ControlPlaneDecision, new_plane, Failure, Reply, Times, Floats, evaluate,
  buffer_entry, hold_action, release_action, answer, apply_locked, preempted, note_preemption,
  apply_allowed, apply_action, apply_actions,
}

-- Between calls: the buffer is within its size, and no action is under way.
pub record IsIdle (size : ℕ) (p : ControlPlane) : Type 0 where
  pub sized : p.max_buffer_size ≡ size
  pub bounded : length p.action_buffer ≤ size
  pub idle : p.current_action_id ≡ none

hold_action_bounded :
    (size now : ℕ) (deadline : Option Float) (a : RobotAction) (p : ControlPlane)
    → 1 ≤ size
    → IsIdle size p
    → length (hold_action now deadline a p).action_buffer ≤ size
unfolding hold_action
hold_action_bounded size now deadline a p room h =
    let fits =
      length-put_newest p.max_buffer_size (buffer_entry now deadline a) p.action_buffer
        (ground (arith, room, h.sized)) (ground (arith, h.bounded, h.sized)) in
    ground (arith, fits.0, h.sized)

module _ {D : Type 0} (size : ℕ) (room : 1 ≤ size) (fl : Floats)
    (apply_fn : RobotAction → D → Result Failure RobotStatus × D) where
  apply_locked-IsIdle :
      (at : Times) (deadline : Option Float) (a : RobotAction) (p : ControlPlane) (d : D)
      → IsIdle size p
      → IsIdle size (apply_locked fl apply_fn at deadline a p d).1
  unfolding apply_locked hold_action release_action
  apply_locked-IsIdle at deadline a p d h = answered (apply_fn a d)
    where
      held :
          (m : Result Failure RobotStatus)
          → IsIdle size (release_action at deadline a m (hold_action at.submitted deadline a p))
      held m = record {
        sized = h.sized;
        bounded = hold_action_bounded size at.submitted deadline a p room h;
        idle = ground (arith, eq_refl a.action_id);
      }

      answered :
          (m : Result Failure RobotStatus × D)
          → IsIdle size
              (answer fl apply_fn
                (release_action at deadline a m.0 (hold_action at.submitted deadline a p))
                m.1
                m.0).1
      answered (raise x, d') = held (raise x)
      answered (ok status, d') = held (ok status)

  apply_action-IsIdle :
      (stop_fn : Option (RobotAction → D → Result Failure RobotStatus × D)) (at : Times)
      (a : RobotAction) (p : ControlPlane) (d : D)
      → IsIdle size p
      → IsIdle size (apply_action fl apply_fn stop_fn at a p d).1
  unfolding apply_action
  apply_action-IsIdle stop_fn at a p d h = decided (evaluate fl at.checked a)
    where
      preempted-IsIdle :
          (deadline : Option Float) (m : Result Failure RobotStatus × D)
          → IsIdle size (preempted fl apply_fn at deadline a p m).1
      preempted-IsIdle deadline (raise x, d') = h
      preempted-IsIdle deadline (ok status, d') =
          apply_locked-IsIdle at deadline a (note_preemption a status p) d'
            (record { sized = h.sized; bounded = h.bounded; idle = h.idle })

      allowed-IsIdle :
          (stop : Option (RobotAction → D → Result Failure RobotStatus × D))
          (deadline : Option Float)
          → IsIdle size (apply_allowed fl apply_fn stop at deadline a p d).1
      allowed-IsIdle none deadline = apply_locked-IsIdle at deadline a p d h
      allowed-IsIdle (some stop) deadline = elim (Bool-cases (flag a.metadata "preempt")) [
        | inl first ↦ rw first (preempted-IsIdle deadline (stop a d))
        | inr plain ↦ rw plain (apply_locked-IsIdle at deadline a p d h)
      ]

      decided :
          (m : Result Failure ControlPlaneDecision)
          → IsIdle size
              (elim m as (λ x. Result Failure Reply × ControlPlane × D) [
                | raise x ↦ (raise x, p, d)
                | ok decision ↦
                    if decision.allowed
                    then apply_allowed fl apply_fn stop_fn at decision.deadline_at a p d
                    else (ok (Reply.refused decision), p, d)
              ]).1
      decided (raise x) = h
      decided (ok decision) = elim (Bool-cases decision.allowed) [
        | inl fresh ↦ rw fresh (allowed-IsIdle stop_fn decision.deadline_at)
        | inr late ↦ rw late h
      ]

  apply_actions-from :
      (stop_fn : Option (RobotAction → D → Result Failure RobotStatus × D))
      (requests : List (Times × RobotAction)) (p : ControlPlane) (d : D)
      → IsIdle size p
      → IsIdle size (apply_actions fl apply_fn stop_fn requests p d).0
  unfolding apply_actions
  apply_actions-from stop_fn [] p d h = h
  apply_actions-from stop_fn ((at, a) ∷ rest) p d h =
      let m = apply_action fl apply_fn stop_fn at a p d in
      apply_actions-from stop_fn rest m.1 m.2 (apply_action-IsIdle stop_fn at a p d h)

-- A control plane of any asked size that applied any actions, whatever the driver answered or raised,
-- and whether it preempts or not, has at most as many entries in its buffer as its size, which is the
-- one asked for and at least 1, and names no action as under way.
pub apply_actions-IsIdle :
    {D : Type 0} (asked : ℕ) (fl : Floats)
    (apply_fn : RobotAction → D → Result Failure RobotStatus × D)
    (stop_fn : Option (RobotAction → D → Result Failure RobotStatus × D))
    (requests : List (Times × RobotAction)) (d : D)
    → IsIdle
        (new_plane asked).max_buffer_size
        (apply_actions fl apply_fn stop_fn requests (new_plane asked) d).0
apply_actions-IsIdle asked fl apply_fn stop_fn requests d =
    apply_actions-from (new_plane asked).max_buffer_size (ground arith) fl apply_fn stop_fn requests
      (new_plane asked) d (record { sized = refl; bounded = ground arith; idle = refl })

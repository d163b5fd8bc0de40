-- ===== src/Robot/Control.antt =====
-- RobotControlPlane, src/hey_robot/robot_runtime/control_plane.py: its checks, its bounded buffer and
-- its watchdog around the driver. The driver is a state that `apply_fn` and `stop_fn` change, and one
-- action after the other is applied, as the action lock has it. Python's `float` and its product are
-- parameters; clock readings are arguments, and the text of a refusal is what it names.
pub mod Bounds
pub mod Deadline
pub mod Fresh
pub mod Policy
mod Examples
use xbotics_hey_robot.Prelude.{
  ℕ, ◌+◌, ◌-◌, String, Bool, true, false, not, Option, none, some, List, [], ◌∷◌, ◌++◌,
  if◌then◌else◌, ltb, ◌==◌, or_else,
}
use xbotics_hey_robot.Prelude.Bounded.{put_newest}
use xbotics_hey_robot.Prelude.Int.{pos}
use xbotics_hey_robot.Prelude.Float.{Float, finite, ltb_float, add_float}
use xbotics_hey_robot.Prelude.Value.{Value, Fields, get_or_null, flag, is_null, truthy}
use xbotics_hey_robot.Prelude.Result.{Result, ok, raise}
use xbotics_hey_robot.Robot.Types.{RobotStatus, RobotAction}

pub record ControlPlaneDecision : Type 0 where
  pub allowed : Bool
  pub deadline_at : Option Float

pub record ActionBufferEntry : Type 0 where
  pub action_id : String
  pub skill_id : String
  pub submitted_at : ℕ
  pub deadline_at : Option Float
  pub action_type : Value
  pub kind : Value
  pub policy_session_id : Value

pub record Watchdog : Type 0 where
  pub action_id : String
  pub skill_id : String
  pub duration : ℕ
  pub deadline_at : Option Float
  pub deadline_missed : Bool
  pub success : Option Bool
  pub cancelled : Bool

pub record Preemption : Type 0 where
  pub action_id : String
  pub skill_id : String
  pub success : Option Bool
  pub error : Option String

pub record ControlPlane : Type 0 where
  pub max_buffer_size : ℕ
  pub action_buffer : List ActionBufferEntry
  pub current_action_id : Option String
  pub last_watchdog : Option Watchdog
  pub preemptions : List Preemption

-- `RobotControlPlane(max_buffer_size=size)`
abbrev pub new_plane : ℕ → ControlPlane
new_plane size = record {
  max_buffer_size = if ltb size 1 then 1 else size;
  action_buffer = [];
  current_action_id = none;
  last_watchdog = none;
  preemptions = [];
}

-- How a call of the driver ends, and what `apply_action` answers or raises.
pub data Failure : Type 0 where
  cancelled_call value_error : Failure
  driver_error : String → Failure

pub data Reply : Type 0 where
  refused : ControlPlaneDecision → Reply
  applied : RobotStatus → ControlPlane → Reply

-- The readings of the clock during one call.
pub record Times : Type 0 where
  pub checked : ℕ
  pub submitted : ℕ
  pub started : ℕ
  pub ended : ℕ
  pub judged : ℕ

pub record Floats : Type 0 where
  pub float : Value → Option Float
  pub product : Float → Float → Float

abbrev pub plus : ℕ → Option Float → Result Failure (Option Float)
plus at none = raise value_error
plus at (some span) = ok (some (add_float (finite (pos at)) span))

abbrev pub given : Option Float → Result Failure (Option Float)
given none = raise value_error
given (some at) = ok (some at)

abbrev pub product_of : Floats → Option Float → Option Float → Option Float
product_of fl (some a) (some b) = some (fl.product a b)
product_of fl a b = none

unfoldable pub deadline_at : Floats → RobotAction → Result Failure (Option Float)
unfolding get_or_null
deadline_at fl a =
    let at = get_or_null a.metadata "deadline_at" in
    let span = get_or_null a.metadata "deadline_sec" in
    let dt = get_or_null a.metadata "dt" in
    let horizon = get_or_null a.metadata "horizon" in
    if not (is_null at)
    then given (fl.float at)
    else if not (is_null span)
    then plus a.timestamp (fl.float span)
    else if is_null dt
    then ok none
    else if is_null horizon
    then ok none
    else plus a.timestamp (product_of fl (fl.float dt) (fl.float horizon))

abbrev pub is_past : ℕ → Option Float → Bool
is_past now none = false
is_past now (some deadline) = ltb_float deadline (finite (pos now))

abbrev pub decision_of : ℕ → Option Float → ControlPlaneDecision
decision_of now deadline = record { allowed = not (is_past now deadline); deadline_at = deadline }

unfoldable pub evaluate : Floats → ℕ → RobotAction → Result Failure ControlPlaneDecision
unfolding deadline_at
evaluate fl now a = elim (deadline_at fl a) [
  | raise x ↦ raise x
  | ok deadline ↦ ok (decision_of now deadline)
]

abbrev pub buffer_entry : ℕ → Option Float → RobotAction → ActionBufferEntry
buffer_entry now deadline a = record {
  action_id = a.action_id;
  skill_id = a.skill_id;
  submitted_at = now;
  deadline_at = deadline;
  action_type =
      let kind = get_or_null a.metadata "action_type" in
      if truthy kind then kind else Value.string "raw";
  kind = get_or_null a.metadata "kind";
  policy_session_id = get_or_null a.metadata "policy_session_id";
}

abbrev pub is_current : String → Option String → Bool
is_current id none = false
is_current id (some other) = other == id

abbrev pub is_cancelled : Result Failure RobotStatus → Bool
is_cancelled (raise cancelled_call) = true
is_cancelled m = false

abbrev pub success_of : Result Failure RobotStatus → Option Bool
success_of (raise x) = some false
success_of (ok status) = status.success

-- `self.action_buffer.append(entry)` and `self.current_action_id = action.action_id`
unfoldable pub hold_action : ℕ → Option Float → RobotAction → ControlPlane → ControlPlane
unfolding put_newest
hold_action now deadline a p = record p {
  action_buffer = put_newest p.max_buffer_size (buffer_entry now deadline a) p.action_buffer;
  current_action_id = some a.action_id;
}

-- The `finally` of `apply_action`.
unfoldable pub release_action :
    Times → Option Float → RobotAction → Result Failure RobotStatus → ControlPlane → ControlPlane
release_action at deadline a m p = record p {
  last_watchdog = some (record {
    action_id = a.action_id;
    skill_id = a.skill_id;
    duration = at.ended - at.started;
    deadline_at = deadline;
    deadline_missed = is_past at.judged deadline;
    success = success_of m;
    cancelled = is_cancelled m;
  });
  current_action_id =
      if is_current a.action_id p.current_action_id then none else p.current_action_id;
}

abbrev pub note_preemption : RobotAction → RobotStatus → ControlPlane → ControlPlane
note_preemption a status p = record p {
  preemptions =
      p.preemptions
      ++ (record {
        action_id = a.action_id;
        skill_id = a.skill_id;
        success = status.success;
        error = status.error;
      })
        ∷ [];
}

module _ {D : Type 0} (fl : Floats)
    (apply_fn : RobotAction → D → Result Failure RobotStatus × D) where
  abbrev pub answer :
      ControlPlane → D → Result Failure RobotStatus → Result Failure Reply × ControlPlane × D
  answer p d (raise x) = (raise x, p, d)
  answer p d (ok status) = (ok (applied status p), p, d)

  -- From the action lock on.
  unfoldable pub apply_locked :
      Times
      → Option Float
      → RobotAction
      → ControlPlane
      → D
      → Result Failure Reply × ControlPlane × D
  unfolding hold_action release_action
  apply_locked at deadline a p d =
      let m = apply_fn a d in
      answer (release_action at deadline a m.0 (hold_action at.submitted deadline a p)) m.1 m.0

  abbrev pub preempted :
      Times
      → Option Float
      → RobotAction
      → ControlPlane
      → Result Failure RobotStatus × D
      → Result Failure Reply × ControlPlane × D
  preempted at deadline a p (raise x, d) = (raise x, p, d)
  preempted at deadline a p (ok status, d) =
      apply_locked at deadline a (note_preemption a status p) d

  -- Python's `stop_fn` may be `None`.
  abbrev pub apply_allowed :
      Option (RobotAction → D → Result Failure RobotStatus × D)
      → Times
      → Option Float
      → RobotAction
      → ControlPlane
      → D
      → Result Failure Reply × ControlPlane × D
  apply_allowed none at deadline a p d = apply_locked at deadline a p d
  apply_allowed (some stop_fn) at deadline a p d =
      if flag a.metadata "preempt"
      then preempted at deadline a p (stop_fn a d)
      else apply_locked at deadline a p d

  unfoldable pub apply_action :
      Option (RobotAction → D → Result Failure RobotStatus × D)
      → Times
      → RobotAction
      → ControlPlane
      → D
      → Result Failure Reply × ControlPlane × D
  unfolding evaluate apply_locked flag
  apply_action stop_fn at a p d = elim (evaluate fl at.checked a) [
    | raise x ↦ (raise x, p, d)
    | ok decision ↦
        if decision.allowed
        then apply_allowed stop_fn at decision.deadline_at a p d
        else (ok (refused decision), p, d)
  ]

  -- Several calls, one after the other.
  unfoldable pub apply_actions :
      Option (RobotAction → D → Result Failure RobotStatus × D)
      → List (Times × RobotAction)
      → ControlPlane
      → D
      → ControlPlane × D
  unfolding apply_action
  apply_actions stop_fn [] p d = (p, d)
  apply_actions stop_fn ((at, a) ∷ rest) p d =
      let m = apply_action stop_fn at a p d in apply_actions stop_fn rest m.1 m.2

  abbrev pub reply_failed : Reply → Bool
  reply_failed (refused decision) = true
  reply_failed (applied status p) = elim status.success [
    | some success ↦ not success
    | none ↦ false
  ]

  -- The loop of `apply_policy_result` over the actions of the policy, whose last reply is its answer,
  -- and `none` where there is no action.
  unfoldable pub apply_policy_actions :
      Option (RobotAction → D → Result Failure RobotStatus × D)
      → List (Times × RobotAction)
      → Option Reply
      → ControlPlane
      → D
      → Result Failure (Option Reply) × ControlPlane × D
  unfolding apply_action
  apply_policy_actions stop_fn [] last p d = (ok last, p, d)
  apply_policy_actions stop_fn ((at, a) ∷ rest) last p d =
      let m = apply_action stop_fn at a p d in
      let go : Reply → Result Failure (Option Reply) × ControlPlane × D =
        λ reply. apply_policy_actions stop_fn rest (some reply) m.1 m.2 in
      elim m.0 [
        | raise x ↦ (raise x, m.1, m.2)
        | ok reply ↦ if reply_failed reply then (ok (some reply), m.1, m.2) else go reply
      ]

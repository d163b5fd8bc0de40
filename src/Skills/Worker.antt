-- ===== src/Skills/Worker.antt =====
-- SkillWorker, src/hey_robot/skills/worker.py: its command queue, its tables of pending and
-- running commands, and the run store behind it. An operation runs as far as its awaits of the
-- worker's own queues, which do not block; the subscribers and the projection are in Broadcast, and
-- cancelling, the emergency stop and `close` in Cancel.
pub mod Laws
pub mod Once
pub mod Broadcast
pub mod Cancel
mod Examples
use xbotics_hey_robot.Prelude.{
  ℕ, ◌+◌, String, Bool, true, false, not, ◌||◌, Option, none, some, List, [], ◌∷◌, ◌++◌,
  if◌then◌else◌, find, any, keep, is_some, ◌==◌,
}
use xbotics_hey_robot.Prelude.Result.{Result, ok, raise}
use xbotics_hey_robot.Prelude.Value.{end}
use xbotics_hey_robot.Protocol.{Envelope}
use xbotics_hey_robot.Skills.Models.{
  SkillPhase, SkillStatus, SkillResult, SkillCommand, SkillEvent, is_terminal_phase,
}
use xbotics_hey_robot.Runs.Files.{
  Run, RunError, Host, latest_event, append_event, record_submission, submission,
}

pub record Worker : Type 0 where
  pub closed : Bool
  pub pending : List SkillCommand
  pub running : List String
  pub queue : List SkillCommand
  pub runs : String → Run

pub data WorkerError : Type 0 where
  worker_closed conflicting_command : WorkerError
  store_error : RunError → WorkerError

abbrev pub has_run_id : String → SkillCommand → Bool
has_run_id id c = c.run_id == id

abbrev pub set_run : String → Run → (String → Run) → String → Run
set_run id run runs = λ other. if other == id then run else runs other

-- The command that `submit` compares with: the pending one, or else the stored one.
abbrev pub known_command : String → Worker → Option SkillCommand
known_command id w = elim (find (has_run_id id) w.pending) [
  | some c ↦ some c
  | none ↦ submission (w.runs id)
]

-- `run_id in self._pending or run_id in self._tasks`
abbrev pub is_owned : String → Worker → Bool
is_owned id w = any (has_run_id id) w.pending || any (λ r. r == id) w.running

abbrev pub is_ended : Option SkillEvent → Bool
is_ended none = false
is_ended (some e) = is_terminal_phase e.phase

abbrev pub next_sequence : Option SkillEvent → ℕ
next_sequence none = 1
next_sequence (some e) = e.sequence + 1

abbrev lost_text : String
lost_text = "skill execution ownership was lost during restart"

abbrev pub lost_event : ℕ → String → ℕ → Envelope → String → SkillEvent
lost_event now id sequence envelope name = record {
  envelope = envelope;
  run_id = id;
  sequence = sequence;
  name = name;
  phase = SkillPhase.failed;
  timestamp = now;
  progress = none;
  frame_id = none;
  summary = some lost_text;
  result = some (record {
    success = false;
    summary = lost_text;
    status = SkillStatus.failed;
    extra = end;
    evidence_ids = [];
    observations = [];
    artifacts = [];
    failure_mode = some "execution_lost";
    error = some "no active worker task owns this persisted non-terminal run";
    observation_error = none;
  });
}

-- `_consume`, one turn of its loop, and the end of `_run_command`.
unfoldable pub consume : Worker → Worker
consume w = elim w.queue [
  | [] ↦ w
  | c ∷ rest ↦
      if any (λ r. r == c.run_id) w.running
      then record w { queue = rest }
      else record w { queue = rest; running = c.run_id ∷ w.running }
]

unfoldable pub finish_run : String → Worker → Worker
finish_run id w = record w {
  running = keep (λ r. not (r == id)) w.running;
  pending = keep (λ c. not (has_run_id id c)) w.pending;
}

module _ (h : Host) where
  abbrev pub accept :
      SkillCommand → Worker → Result RunError (Unit {0}) × Run → Result WorkerError String × Worker
  accept c w (raise x, run) =
      (raise (store_error x), record w { runs = set_run c.run_id run w.runs })
  accept c w (ok _, run) = (
    ok c.run_id,
    record w {
      pending = w.pending ++ c ∷ [];
      queue = w.queue ++ c ∷ [];
      runs = set_run c.run_id run w.runs;
    },
  )

  unfoldable pub submit_command : SkillCommand → Worker → Result WorkerError String × Worker
  unfolding record_submission
  submit_command c w =
      if w.closed then (raise worker_closed, w) else elim (known_command c.run_id w) [
        | some old ↦
            if h.same_command old c then (ok c.run_id, w) else (raise conflicting_command, w)
        | none ↦ accept c w (record_submission h c (w.runs c.run_id))
      ]

  abbrev pub emitted :
      String
      → SkillEvent
      → Worker
      → Result RunError SkillEvent × Run
      → Result WorkerError (Option SkillEvent) × Worker
  emitted id e w (raise x, run) = (raise (store_error x), record w { runs = set_run id run w.runs })
  emitted id e w (ok _, run) = (ok (some e), record w { runs = set_run id run w.runs })

  abbrev pub emit_lost :
      ℕ
      → String
      → Option SkillEvent
      → Option SkillCommand
      → Worker
      → Result WorkerError (Option SkillEvent) × Worker
  emit_lost now id none none w = (ok none, w)
  emit_lost now id (some l) none w =
      let e = lost_event now id (l.sequence + 1) l.envelope l.name in
      emitted id e w (append_event h e (w.runs id))
  emit_lost now id latest (some c) w =
      let e = lost_event now id (next_sequence latest) c.envelope c.name in
      emitted id e w (append_event h e (w.runs id))

  unfoldable pub status : ℕ → String → Worker → Result WorkerError (Option SkillEvent) × Worker
  status now id w = elim (latest_event h (w.runs id)) [
    | raise x ↦ (raise (store_error x), w)
    | ok latest ↦
        if is_owned id w || is_ended latest
        then (ok latest, w)
        else emit_lost now id latest (submission (w.runs id)) w
  ]

-- ===== src/Skills/Worker/Examples.antt =====
-- The theorems of the worker at a concrete command and a run of an earlier process.
use xbotics_hey_robot.Prelude.{
  ◌≡◌, ◌≤◌, arith, refl, true, false, ◌&&◌, none, some, [], ◌∷◌, if◌then◌else◌, eqb, ◌==◌,
}
use xbotics_hey_robot.Prelude.Result.{ok}
use xbotics_hey_robot.Prelude.Value.{end}
use xbotics_hey_robot.Protocol.{Envelope}
use xbotics_hey_robot.Skills.Models.{SkillPhase, SkillCommand, SkillEvent}
use xbotics_hey_robot.Runs.Files.{Host, new_run}
use xbotics_hey_robot.Runs.Recovery.{run_with}
use xbotics_hey_robot.Skills.Worker.{Worker, lost_event, status}
use xbotics_hey_robot.Skills.Worker.Once.{Step, tasks_of, run_steps, run_steps-once}
use xbotics_hey_robot.Prelude.Int.{pos}
use xbotics_hey_robot.Prelude.Text.{has}
use xbotics_hey_robot.Prelude.Value.{entry, string, get_or_null}
use xbotics_hey_robot.Tools.Schema.{Python, validate_arguments, required_error, values_error}
use xbotics_hey_robot.Skills.Runner.{Skill, Runner, Texts, End, execute}
use xbotics_hey_robot.Skills.Worker.Broadcast.{queue_size, new_projection}
use xbotics_hey_robot.Skills.Worker.Broadcast.Conserved.{
  Move, emissions, run_moves, IsConserved, run_moves-IsConserved,
}
use xbotics_hey_robot.Skills.Worker.{is_owned}
use xbotics_hey_robot.Skills.Worker.Cancel
use xbotics_hey_robot.Skills.Worker.Cancel.{Shell, holds, begin_cancel, emergency_stop}
use xbotics_hey_robot.Skills.Worker.Cancel.Stuck.{begin_cancel-IsOwned}
use xbotics_hey_robot.Skills.Worker.Cancel.Stop.{
  cancelled_result, cancelled_events, told, emergency_stop-execute,
}

abbrev py : Python
py = record { is_int = λ z. true; count = λ n. pos n; contains = λ v w. none }

abbrev envelope : Envelope
envelope = record {
  trace_id = "trace";
  episode_id = none;
  turn_id = none;
  channel = none;
  account_id = none;
  user_id = none;
  chat_id = none;
  chat_type = none;
  sender_id = none;
  message_id = none;
  reply_to_id = none;
  robot_id = some "arm";
  agent_id = none;
  deployment_id = none;
  timestamp = 0;
}

abbrev grasp : SkillCommand
grasp = record {
  envelope = envelope;
  run_id = "run1";
  task_id = "task1";
  robot_id = "arm";
  name = "grasp";
  arguments = end;
  deadline_at = none;
}

abbrev other : SkillCommand
other = record grasp { name = "wave" }

abbrev accepted : SkillEvent
accepted = record {
  envelope = envelope;
  run_id = "run1";
  sequence = 1;
  name = "grasp";
  phase = SkillPhase.accepted;
  timestamp = 3;
  progress = none;
  frame_id = none;
  summary = none;
  result = none;
}

abbrev lost : SkillEvent
lost = lost_event 9 "run1" 2 envelope "grasp"

abbrev host : Host
host = record {
  encode = λ e. if eqb e.sequence 1 then "one" else "two";
  decode = λ s. if s == "one" then some accepted else if s == "two" then some lost else none;
  same_event = λ a b. eqb a.sequence b.sequence;
  same_command = λ a b. a.run_id == b.run_id && a.name == b.name;
  artifacts = none;
  encoded_size = λ d. 2;
  inline_limit = 65536;
}

abbrev worker : Worker
worker = record { closed = false; pending = []; running = []; queue = []; runs = λ id. new_run }

abbrev restarted : Worker
restarted = record {
  closed = false;
  pending = [];
  running = [];
  queue = [];
  runs = λ id. run_with (some grasp) none ("one" ∷ []) "tw";
}

run_steps-once_example :
    tasks_of "run1" (
      run_steps host
        (Step.submitted grasp ∷ Step.consumed ∷ Step.submitted grasp ∷ Step.consumed ∷ [])
        worker)
    ≤ 1
run_steps-once_example =
    run_steps-once host
      (Step.submitted grasp ∷ Step.consumed ∷ Step.submitted grasp ∷ Step.consumed ∷ []) worker
      (λ id. omega arith) "run1"

run_moves-IsConserved_example :
    let moves = Move.emitted accepted ∷ Move.emitted lost ∷ Move.taken ∷ Move.settled false ∷ [] in
    IsConserved (queue_size 0) (emissions moves) (run_moves (queue_size 0) moves new_projection)
run_moves-IsConserved_example =
    run_moves-IsConserved 0
      (Move.emitted accepted ∷ Move.emitted lost ∷ Move.taken ∷ Move.settled false ∷ [])

abbrev idle : Runner
idle = record { cancelled = []; sequences = λ run. 0 }

abbrev created : Shell
created = record {
  worker = record worker { running = "run1" ∷ []; pending = grasp ∷ [] };
  runner = idle;
  cancelling = [];
  begun = [];
  interrupted = [];
}

begin_cancel-IsOwned_example :
    let moves = Cancel.Move.task_begun "run1" ∷ Cancel.Move.task_finished true "run1" ∷ [] in
    let w = (Cancel.run_moves host moves (begin_cancel "run1" created)).worker in
    (is_owned "run1" w ≡ true) × ((status host 9 "run1" w).1 ≡ w)
begin_cancel-IsOwned_example =
    begin_cancel-IsOwned host "run1" created
      (Cancel.Move.task_begun "run1" ∷ Cancel.Move.task_finished true "run1" ∷ []) 9 refl refl refl

abbrev submitted : Shell
submitted = record created { worker = record worker { pending = grasp ∷ []; queue = grasp ∷ [] } }

abbrev grasp_skill : Skill
grasp_skill = record {
  name = "grasp";
  parameters = entry "type" (string "object") end;
  timeout = 3000;
  handler =
      λ left arguments. record { progress = (50, some "closing") ∷ []; outcome = End.timed_out };
}

abbrev texts : Texts
texts = record { unknown = λ name. "unknown"; invalid = λ e. "invalid" }

emergency_stop-execute_example :
    let s = (emergency_stop (some (some "no answer")) "arm" submitted).1 in
    let m = execute (λ n. n) py texts (grasp_skill ∷ []) 5 grasp s.runner in
    (holds "run1" s.interrupted ≡ false)
    × (m.0 ≡ ok (cancelled_result grasp))
    × (told m.1.events ≡ cancelled_events grasp)
unfolding validate_arguments get_or_null required_error values_error has
emergency_stop-execute_example =
    emergency_stop-execute (some "no answer") "arm" submitted grasp refl refl refl refl refl
      (λ n. n) py texts (grasp_skill ∷ []) 5 grasp_skill end refl refl

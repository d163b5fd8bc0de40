-- ===== src/Skills/Worker/Cancel.antt =====
-- SkillWorker's cancelling, emergency stop and close, src/hey_robot/skills/worker.py, over the tables
-- of Worker, the runner's marks, and what asyncio knows of the tasks: the ones that took their first
-- step, and the ones on which `cancel()` was called. `cancel` awaits the model client, so it is two
-- moves: up to that await, and after it.
pub mod Stuck
pub mod Stop
use xbotics_hey_robot.Prelude.{
  ℕ, String, Bool, true, false, not, ◌&&◌, ◌||◌, Option, none, some, List, [], ◌∷◌, map,
  if◌then◌else◌, any, keep, ◌==◌,
}
use xbotics_hey_robot.Prelude.Result.{Result, ok, raise}
use xbotics_hey_robot.Skills.Models.{SkillCommand}
use xbotics_hey_robot.Skills.Runner as Runners
use xbotics_hey_robot.Skills.Runner.{Runner, clear_run_state}
use xbotics_hey_robot.Runs.Files.{Host}
use xbotics_hey_robot.Skills.Worker.{Worker, is_owned, consume, finish_run, submit_command, status}

pub record Shell : Type 0 where
  pub worker : Worker
  pub runner : Runner
  pub cancelling : List String
  pub begun : List String
  pub interrupted : List String

abbrev pub holds : String → List String → Bool
holds id = any (λ other. other == id)

abbrev pub without : String → List String → List String
without id = keep (λ other. not (other == id))

-- `cancel`, up to the await of the model client, and from there.
unfoldable pub begin_cancel : String → Shell → Shell
begin_cancel id s = if holds id s.cancelling || not (is_owned id s.worker) then s else record s {
  cancelling = id ∷ s.cancelling;
  runner = Runners.cancel id s.runner;
  interrupted = if holds id s.worker.running then id ∷ s.interrupted else s.interrupted;
}

unfoldable pub end_cancel : String → Shell → Shell
end_cancel id s = record s { cancelling = without id s.cancelling }

abbrev pub each : (String → Shell → Shell) → List String → Shell → Shell
each f [] s = s
each f (id ∷ ids) s = each f ids (f id s)

abbrev pub run_ids_of : String → List SkillCommand → List String
run_ids_of robot [] = []
run_ids_of robot (c ∷ cs) =
    if c.robot_id == robot then c.run_id ∷ run_ids_of robot cs else run_ids_of robot cs

unfoldable pub cancel_robot : String → Shell → Shell
unfolding begin_cancel end_cancel
cancel_robot robot s =
    let ids = run_ids_of robot s.worker.pending in each end_cancel ids (each begin_cancel ids s)

-- `emergency_stop`, where the control plane, if there is one, stops the robot or fails with a text.
pub data StopError : Type 0 where
  unavailable : StopError
  stop_failed : String → StopError

abbrev pub stop_result : Option String → Result StopError (Unit {0})
stop_result none = ok tt
stop_result (some text) = raise (stop_failed text)

unfoldable pub emergency_stop :
    Option (Option String) → String → Shell → Result StopError (Unit {0}) × Shell
unfolding cancel_robot
emergency_stop none robot s = (raise unavailable, s)
emergency_stop (some outcome) robot s = (stop_result outcome, cancel_robot robot s)

-- The first step of a task, which a cancelled one never takes: it ends before its `try`.
unfoldable pub begin_task : String → Shell → Shell
begin_task id s =
    if holds id s.worker.running && not (holds id s.begun) && not (holds id s.interrupted)
    then record s { begun = id ∷ s.begun }
    else s

-- The end of a begun `_run_command`, whose `execute` cleared the state of the run or raised.
unfoldable pub finish_task : Bool → String → Shell → Shell
unfolding finish_run clear_run_state
finish_task cleared id s =
    if holds id s.begun
    then record s {
      worker = finish_run id s.worker;
      runner = if cleared then clear_run_state id s.runner else s.runner;
      begun = without id s.begun;
      interrupted = without id s.interrupted;
    }
    else s

-- `close`, up to the await of the tasks, and from there.
unfoldable pub begin_close : Shell → Shell
begin_close s =
    record (each
      (λ id s'. record s' {
        runner = Runners.cancel id s'.runner;
        interrupted = id ∷ s'.interrupted;
      })
      s.worker.running s) { worker = record s.worker { closed = true } }

unfoldable pub end_close : Shell → Shell
end_close s = record s { worker = record s.worker { running = []; pending = [] }; cancelling = [] }

-- What can happen to a worker, its consumer stopped once it is closed.
pub data Move : Type 0 where
  submitted : SkillCommand → Move
  asked : ℕ → String → Move
  consumed : Move
  task_begun cancel_begun cancel_ended : String → Move
  task_finished : Bool → String → Move
  stopped : Option (Option String) → String → Move

unfoldable pub move : Host → Move → Shell → Shell
unfolding submit_command status consume begin_cancel end_cancel begin_task finish_task
    emergency_stop
move h (Move.submitted c) s = record s { worker = (submit_command h c s.worker).1 }
move h (Move.asked now id) s = record s { worker = (status h now id s.worker).1 }
move h Move.consumed s = if s.worker.closed then s else record s { worker = consume s.worker }
move h (Move.task_begun id) s = begin_task id s
move h (Move.cancel_begun id) s = begin_cancel id s
move h (Move.cancel_ended id) s = end_cancel id s
move h (Move.task_finished cleared id) s = finish_task cleared id s
move h (Move.stopped outcome robot) s = (emergency_stop outcome robot s).1

unfoldable pub run_moves : Host → List Move → Shell → Shell
run_moves h [] s = s
run_moves h (m ∷ moves) s = run_moves h moves (move h m s)

-- ===== src/Skills/Worker/Cancel/Stuck.antt =====
-- What becomes of a task that is cancelled before its first step, src/hey_robot/skills/worker.py.
use xbotics_hey_robot.Prelude.{
  ℕ, ◌≡◌, refl, ap, ◌∙◌, String, Bool, true, false, ◌||◌, Option, none, some, List, [], ◌∷◌, arith,
  if◌then◌else◌, ◌==◌, eq_iff, eq_refl, Bool-cases, List-cases, inl, inr,
}
use xbotics_hey_robot.Prelude.Result.{Result, ok, raise}
use xbotics_hey_robot.Skills.Models.{SkillEvent}
use xbotics_hey_robot.Runs.Files.{Host, RunError, latest_event, submission}
use xbotics_hey_robot.Skills.Worker.{
  Worker, WorkerError, is_owned, is_ended, emit_lost, consume, finish_run, status,
}
use xbotics_hey_robot.Skills.Worker.Once.{submit_command-running, status-running}
use xbotics_hey_robot.Skills.Worker.Cancel.{
  Shell, holds, without, begin_cancel, end_cancel, each, run_ids_of, cancel_robot, emergency_stop,
  begin_task, finish_task, Move, move, run_moves,
}

record IsStuck (id : String) (s : Shell) : Type 0 where
  running : holds id s.worker.running ≡ true
  not_begun : holds id s.begun ≡ false
  interrupted : holds id s.interrupted ≡ true

holds-without :
    (id other : String) (xs : List String)
    → (other == id) ≡ false
    → holds id (without other xs) ≡ holds id xs
holds-without id other [] differs = refl
holds-without id other (x ∷ xs) differs =
    ground (arith, differs, holds-without id other xs differs, eq_iff x other, eq_iff other id)

begin_cancel-IsStuck : (id i : String) (s : Shell) → IsStuck id s → IsStuck id (begin_cancel i s)
unfolding begin_cancel
begin_cancel-IsStuck id i s h = record {
  running = ground (arith, h.running);
  not_begun = ground (arith, h.not_begun);
  interrupted = ground (arith, h.interrupted);
}

each-IsStuck :
    (f : String → Shell → Shell) (id : String)
    → ((i : String) (s : Shell) → IsStuck id s → IsStuck id (f i s))
    → (ids : List String) (s : Shell) → IsStuck id s
    → IsStuck id (each f ids s)
each-IsStuck f id kept [] s h = h
each-IsStuck f id kept (i ∷ ids) s h = each-IsStuck f id kept ids (f i s) (kept i s h)

end_cancel-IsStuck : (id i : String) (s : Shell) → IsStuck id s → IsStuck id (end_cancel i s)
unfolding end_cancel
end_cancel-IsStuck id i s h = record {
  running = h.running;
  not_begun = h.not_begun;
  interrupted = h.interrupted;
}

emergency_stop-IsStuck :
    (id : String) (outcome : Option (Option String)) (robot : String) (s : Shell)
    → IsStuck id s
    → IsStuck id (emergency_stop outcome robot s).1
unfolding emergency_stop cancel_robot
emergency_stop-IsStuck id none robot s h = h
emergency_stop-IsStuck id (some outcome) robot s h =
    let ids = run_ids_of robot s.worker.pending in
    each-IsStuck end_cancel id (end_cancel-IsStuck id) ids (each begin_cancel ids s)
      (each-IsStuck begin_cancel id (begin_cancel-IsStuck id) ids s h)

consume-holds :
    (id : String) (w : Worker) → holds id w.running ≡ true → holds id (consume w).running ≡ true
unfolding consume
consume-holds id w h = elim (List-cases w.queue) [
  | inl empty ↦ rw empty h
  | inr front ↦ ground (arith, h, front.2)
]

finish_task-IsStuck :
    (id i : String) (cleared : Bool) (s : Shell)
    → IsStuck id s
    → IsStuck id (finish_task cleared i s)
unfolding finish_task finish_run
finish_task-IsStuck id i cleared s h = elim (Bool-cases (holds i s.begun)) [
  | inl going ↦
      let differs : (i == id) ≡ false = ground (arith, going, h.not_begun, eq_iff i id) in
      rw going (record {
        running = holds-without id i s.worker.running differs ∙ h.running;
        not_begun = holds-without id i s.begun differs ∙ h.not_begun;
        interrupted = holds-without id i s.interrupted differs ∙ h.interrupted;
      })
  | inr still ↦ rw still h
]

begin_task-IsStuck : (id i : String) (s : Shell) → IsStuck id s → IsStuck id (begin_task i s)
unfolding begin_task
begin_task-IsStuck id i s h = record {
  running = ground (arith, h.running);
  not_begun = ground (arith, h.not_begun, h.interrupted, eq_iff i id);
  interrupted = ground (arith, h.interrupted);
}

move-IsStuck :
    (h : Host) (id : String) (m : Move) (s : Shell) → IsStuck id s → IsStuck id (move h m s)
unfolding move
move-IsStuck h id (Move.submitted c) s k = record {
  running = ap (holds id) (submit_command-running h c s.worker) ∙ k.running;
  not_begun = k.not_begun;
  interrupted = k.interrupted;
}
move-IsStuck h id (Move.asked now i) s k = record {
  running = ap (holds id) (status-running h now i s.worker) ∙ k.running;
  not_begun = k.not_begun;
  interrupted = k.interrupted;
}
move-IsStuck h id Move.consumed s k = record {
  running = ground (arith, consume-holds id s.worker k.running, k.running);
  not_begun = ground (arith, k.not_begun);
  interrupted = ground (arith, k.interrupted);
}
move-IsStuck h id (Move.task_begun i) s k = begin_task-IsStuck id i s k
move-IsStuck h id (Move.cancel_begun i) s k = begin_cancel-IsStuck id i s k
move-IsStuck h id (Move.cancel_ended i) s k = end_cancel-IsStuck id i s k
move-IsStuck h id (Move.task_finished cleared i) s k = finish_task-IsStuck id i cleared s k
move-IsStuck h id (Move.stopped outcome robot) s k = emergency_stop-IsStuck id outcome robot s k

run_moves-IsStuck :
    (h : Host) (id : String) (moves : List Move) (s : Shell)
    → IsStuck id s
    → IsStuck id (run_moves h moves s)
unfolding run_moves
run_moves-IsStuck h id [] s k = k
run_moves-IsStuck h id (m ∷ moves) s k =
    run_moves-IsStuck h id moves (move h m s) (move-IsStuck h id m s k)

new_cancel-IsStuck :
    (id : String) (s : Shell)
    → holds id s.worker.running ≡ true
    → holds id s.begun ≡ false
    → holds id s.cancelling ≡ false
    → IsStuck id (begin_cancel id s)
unfolding begin_cancel
new_cancel-IsStuck id s going still free = record {
  running = ground (arith, going);
  not_begun = ground (arith, still);
  interrupted = ground (arith, going, free, eq_refl id);
}

owned-answers :
    (h : Host) (now : ℕ) (id : String) (w : Worker)
    → holds id w.running ≡ true
    → (is_owned id w ≡ true) × ((status h now id w).1 ≡ w)
unfolding status
owned-answers h now id w going =
    let owned : is_owned id w ≡ true = ground (arith, going) in
    (owned, answer owned (latest_event h (w.runs id)))
  where
    answer :
        is_owned id w ≡ true
        → (m : Result RunError (Option SkillEvent))
        → ((elim m as (λ x. Result WorkerError (Option SkillEvent) × Worker) [
          | raise x ↦ (raise (WorkerError.store_error x), w)
          | ok latest ↦
              if is_owned id w || is_ended latest
              then (ok latest, w)
              else emit_lost h now id latest (submission (w.runs id)) w
        ]).1
            ≡ w)
    answer owned (raise x) = refl
    answer owned (ok latest) = rw owned refl

-- A run whose task is cancelled after the consumer created it, and before the task took its first
-- step, is never released: after any further submissions, questions, turns of the consumer, task
-- steps and ends, cancellations and emergency stops, the worker still counts the run as owned, and a
-- question for its status leaves the worker as it was.
pub begin_cancel-IsOwned :
    (h : Host) (id : String) (s : Shell) (moves : List Move) (now : ℕ)
    → holds id s.worker.running ≡ true
    → holds id s.begun ≡ false
    → holds id s.cancelling ≡ false
    → let w = (run_moves h moves (begin_cancel id s)).worker in
      (is_owned id w ≡ true) × ((status h now id w).1 ≡ w)
begin_cancel-IsOwned h id s moves now going still free =
    let k =
      run_moves-IsStuck h id moves (begin_cancel id s) (new_cancel-IsStuck id s going still free) in
    owned-answers h now id (run_moves h moves (begin_cancel id s)).worker k.running

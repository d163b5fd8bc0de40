-- ===== src/Skills/Worker/Once.antt =====
-- No run has two tasks at once.
use xbotics_hey_robot.Prelude.{
  ℕ, ◌≤◌, ◌≡◌, refl, String, Bool, not, ◌||◌, Option, none, some, List, [], ◌∷◌, arith,
  if◌then◌else◌, any, keep, count_where, any_false→count_where, ◌==◌, eq_iff, Bool-cases,
  Option-cases, inl, inr,
}
use xbotics_hey_robot.Prelude.Result.{Result, ok, raise}
use xbotics_hey_robot.Skills.Models.{SkillCommand, SkillEvent}
use xbotics_hey_robot.Runs.Files.{Run, RunError, Host, latest_event, record_submission, submission}
use xbotics_hey_robot.Skills.Worker.{
  Worker, WorkerError, known_command, is_owned, is_ended, accept, emitted, emit_lost, consume,
  finish_run, submit_command, status,
}

pub data Step : Type 0 where
  submitted : SkillCommand → Step
  asked : ℕ → String → Step
  consumed : Step
  ended : String → Step

abbrev pub step : Host → Step → Worker → Worker
step h (Step.submitted c) w = (submit_command h c w).1
step h (Step.asked now id) w = (status h now id w).1
step h Step.consumed w = consume w
step h (Step.ended id) w = finish_run id w

unfoldable pub run_steps : Host → List Step → Worker → Worker
run_steps h [] w = w
run_steps h (s ∷ steps) w = run_steps h steps (step h s w)

abbrev pub tasks_of : String → Worker → ℕ
tasks_of id w = count_where (λ r. r == id) w.running

count_where-keep :
    (p q : String → Bool) (xs : List String) → count_where p (keep q xs) ≤ count_where p xs
count_where-keep p q [] = omega arith
count_where-keep p q (x ∷ xs) = ground (arith, count_where-keep p q xs)

accept-running :
    (h : Host) (c : SkillCommand) (w : Worker) (m : Result RunError (Unit {0}) × Run)
    → (accept h c w m).1.running ≡ w.running
accept-running h c w (raise x, run) = refl
accept-running h c w (ok _, run) = refl

pub submit_command-running :
    (h : Host) (c : SkillCommand) (w : Worker) → (submit_command h c w).1.running ≡ w.running
unfolding submit_command
submit_command-running h c w = elim (Bool-cases w.closed) [
  | inl shut ↦ rw shut refl
  | inr up ↦ elim (Option-cases (known_command c.run_id w)) [
    | inl new ↦ rw (up, new) (accept-running h c w (record_submission h c (w.runs c.run_id)))
    | inr (old, known) ↦ ground (arith, up, known)
  ]
]

emitted-running :
    (h : Host) (id : String) (e : SkillEvent) (w : Worker) (m : Result RunError SkillEvent × Run)
    → (emitted h id e w m).1.running ≡ w.running
emitted-running h id e w (raise x, run) = refl
emitted-running h id e w (ok _, run) = refl

emit_lost-running :
    (h : Host) (now : ℕ) (id : String) (o : Option SkillEvent) (c : Option SkillCommand)
    (w : Worker)
    → (emit_lost h now id o c w).1.running ≡ w.running
emit_lost-running h now id none none w = refl
emit_lost-running h now id (some l) none w = emitted-running h id _ w _
emit_lost-running h now id none (some c) w = emitted-running h id _ w _
emit_lost-running h now id (some l) (some c) w = emitted-running h id _ w _

pub status-running :
    (h : Host) (now : ℕ) (id : String) (w : Worker) → (status h now id w).1.running ≡ w.running
unfolding status
status-running h now id w = answer (latest_event h (w.runs id))
  where
    answer :
        (m : Result RunError (Option SkillEvent))
        → ((elim m as (λ x. Result WorkerError (Option SkillEvent) × Worker) [
          | raise x ↦ (raise (WorkerError.store_error x), w)
          | ok latest ↦
              if is_owned id w || is_ended latest
              then (ok latest, w)
              else emit_lost h now id latest (submission (w.runs id)) w
        ]).1.running
            ≡ w.running)
    answer (raise x) = refl
    answer (ok latest) =
        ground (arith, emit_lost-running h now id latest (submission (w.runs id)) w)

consume-once :
    (w : Worker) → ((id : String) → tasks_of id w ≤ 1) → (id : String) → tasks_of id (consume w) ≤ 1
unfolding consume
consume-once w k id = next_once w.queue
  where
    next_once :
        (q : List SkillCommand)
        → tasks_of id (elim q as (λ x. Worker) [
          | [] ↦ w
          | c ∷ rest ↦
              if any (λ r. r == c.run_id) w.running
              then record w { queue = rest }
              else record w { queue = rest; running = c.run_id ∷ w.running }
        ])
          ≤ 1
    next_once [] = k id
    next_once (c ∷ rest) =
        ground
          (arith, k id, eq_iff c.run_id id, any_false→count_where (λ r. r == c.run_id) w.running)

-- Whatever is submitted and asked, and however the consumer and the ends of runs are interleaved
-- with it, no run has two tasks at once, if none had two at the start.
pub run_steps-once :
    (h : Host) (steps : List Step) (w : Worker)
    → ((id : String) → tasks_of id w ≤ 1)
    → (id : String) → tasks_of id (run_steps h steps w) ≤ 1
unfolding run_steps finish_run
run_steps-once h [] w k = k
run_steps-once h (s ∷ steps) w k = run_steps-once h steps (step h s w) (kept s)
  where
    kept : (s : Step) (id : String) → tasks_of id (step h s w) ≤ 1
    kept (Step.submitted c) id = rw (submit_command-running h c w) (k id)
    kept (Step.asked now other) id = rw (status-running h now other w) (k id)
    kept Step.consumed id = consume-once w k id
    kept (Step.ended other) id =
        omega (arith, k id, count_where-keep (λ r. r == id) (λ r. not (r == other)) w.running)

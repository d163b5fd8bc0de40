-- ===== src/Agent/Examples.antt =====
-- The theorems of the agent at a session with one task.
use xbotics_hey_robot.Prelude.{
  ℕ, ◌≡◌, ◌≤◌, ◌<◌, refl, ap, arith, true, false, none, some, List, [], ◌∷◌, ltb, leb,
  if◌then◌else◌,
}
use xbotics_hey_robot.Prelude.Result.{ok}
use xbotics_hey_robot.Prelude.Value.{Fields, end, get_or_null}
use xbotics_hey_robot.Prelude.Text.{has}
use xbotics_hey_robot.Tasks.Rows.{TaskStatus, AgentTask, Store, task_from_row}
use xbotics_hey_robot.Tasks.Queries.{active_task, task_row}
use xbotics_hey_robot.Tasks.Coordinator.Completion.{status_of}
use xbotics_hey_robot.Tasks.Sample.{
  grasp, open_row, opened, opened-IsWf, task_row-opened, busy, active_run_ids-opened,
}
use xbotics_hey_robot.Tools.Schema.{validate_arguments, required_error, values_error}
use xbotics_hey_robot.Tools.Calls.{definitions, PreparedCall, tool_names, prepare}
use xbotics_hey_robot.Tools.Execute.{budget_text}
use xbotics_hey_robot.Agent.Messages.{ModelResponse, Reply}
use xbotics_hey_robot.Agent.Runner.{
  AgentTurnRequest, AgentTurnResult, TurnStatus, allowed_definitions, run, call_record,
}
use xbotics_hey_robot.Agent.Runner.Laws.{IsProposal, run-proposal}
use xbotics_hey_robot.Agent.Drive.{
  RunStatus, next_decision_deadline, ask, drive, overdue_text, turns_text, max_model_turns,
}
use xbotics_hey_robot.Agent.Drive.Turns.{drive_talk}
use xbotics_hey_robot.Agent.Drive.Endings.{drive_overdue, drive_budget, drive_waits}
use xbotics_hey_robot.Agent.Sample.{
  allowed-registry, talks_said, py, registry, bad, parts, wakeup, ticks, hello, grasp_call, talks,
  acting, talking, ending,
}

soon : (k : ℕ) → k < 8 → true ≡ ltb k 8
soon k h = ground arith

ending_soon : (k : ℕ) → k < 8 → talking k ≡ ending k
ending_soon k h =
    λ i messages tools left s. (s, if soon k h i then Reply.answered talks else Reply.timed_out)

active_task-opened : active_task "web:1" opened ≡ some (task_from_row open_row)
unfolding active_task
active_task-opened = refl

drive_talk_example :
    let (result, s') = drive parts wakeup ticks talking max_model_turns 0 (hello ∷ []) opened in
    (result ≡ ok (record { status = RunStatus.blocked; text = turns_text; operation_id = none }))
    × (status_of "task1" s' ≡ some TaskStatus.paused)
    × (s'.steps ≡ [])
drive_talk_example =
    drive_talk parts wakeup ticks talking (λ k. talks) (λ k m d l s. refl) (λ k. talks_said)
      (λ k. omega arith) allowed-registry opened active_task-opened refl task_row-opened refl hello
      []

abbrev asked_for : ℕ → AgentTurnRequest
asked_for deadline = record {
  messages = hello ∷ [];
  allowed_tools = tool_names registry;
  deadline = deadline;
  run_id = "i2";
}

abbrev proposal : AgentTurnResult
proposal = record {
  status = TurnStatus.action_proposed;
  final_text = none;
  stop_reason = "stop_slice";
  tool_calls = call_record grasp_call ∷ [];
  proposal = some (PreparedCall.physical grasp);
  failure = none;
  usage = end;
}

run-acts :
    (deadline : ℕ) (s : Store)
    → leb deadline 5 ≡ false
    → run py bad registry (acting 0) 5 6 (asked_for deadline) s ≡ (s, proposal)
unfolding run allowed_definitions tool_names has definitions get_or_null prepare validate_arguments
    required_error values_error
run-acts deadline s h = rw h refl

run-proposal_example :
    let (s', r) = run py bad registry (acting 0) 5 6 (asked_for 100) opened in
    (response : ModelResponse) × (tools : List Fields) × (left : ℕ) × (allowed_definitions registry
        (tool_names registry)
      ≡ some tools)
    × (1 ≤ left)
    × (acting 0 (hello ∷ []) tools left opened ≡ (s', Reply.answered response))
    × IsProposal py bad registry
        (tool_names registry)
        response.tool_calls
        r
        (PreparedCall.physical grasp)
run-proposal_example =
    run-proposal py bad registry (acting 0) 5 6 (asked_for 100) opened
      (ap (λ m. m.1.proposal) (run-acts 100 opened refl))

ask-acts :
    (s : Store) {t : AgentTask}
    → active_task "web:1" s ≡ some t
    → t.deadline_at ≡ none
    → ask parts wakeup (ticks 0) (acting 0) (hello ∷ []) s ≡ (s, proposal)
unfolding next_decision_deadline
ask-acts s found free = rw (found, free) (run-acts 120005 s refl)

-- The task of the store, with its one step taken.
abbrev spent : Store
spent = record { tasks = record open_row { step_count = 1 } ∷ []; steps = [] }

active_task-spent :
    active_task "web:1" spent ≡ some (task_from_row (record open_row { step_count = 1 }))
unfolding active_task
active_task-spent = refl

task_row-spent : task_row "task1" spent ≡ some (record open_row { step_count = 1 })
unfolding task_row
task_row-spent = refl

drive_budget_example :
    let (result, s') = drive parts wakeup ticks acting 8 0 (hello ∷ []) spent in
    (result ≡ ok (record { status = RunStatus.blocked; text = budget_text; operation_id = none }))
    × (status_of "task1" s' ≡ some TaskStatus.blocked)
    × (s'.steps ≡ [])
drive_budget_example =
    drive_budget parts wakeup ticks acting 0 (hello ∷ []) spent 7 (rw active_task-spent refl)
      (ask-acts spent active_task-spent refl) refl active_task-spent task_row-spent refl refl

drive_waits_example : drive parts wakeup ticks acting 8 0 (hello ∷ []) opened ≡ (
  ok (record {
    status = RunStatus.waiting;
    text = "已提交机器人操作，正在等待执行结果。";
    operation_id = some "run1";
  }),
  busy,
)
drive_waits_example =
    drive_waits parts wakeup ticks acting 0 (hello ∷ []) opened 7 (rw active_task-opened refl)
      (ask-acts opened active_task-opened refl) refl (call_record grasp_call) refl opened-IsWf
      active_task-opened task_row-opened refl refl active_run_ids-opened refl refl busy refl

-- The task of the store, past its deadline.
abbrev late : Store
late = record { tasks = record open_row { deadline_at = some 9 } ∷ []; steps = [] }

active_task-late :
    active_task "web:1" late ≡ some (task_from_row (record open_row { deadline_at = some 9 }))
unfolding active_task
active_task-late = refl

task_row-late : task_row "task1" late ≡ some (record open_row { deadline_at = some 9 })
unfolding task_row
task_row-late = refl

drive_overdue_example :
    let (result, s') = drive parts wakeup ticks acting 8 0 (hello ∷ []) late in
    (result ≡ ok (record { status = RunStatus.blocked; text = overdue_text; operation_id = none }))
    × (status_of "task1" s' ≡ some TaskStatus.blocked)
    × (s'.steps ≡ [])
drive_overdue_example =
    drive_overdue parts wakeup ticks acting 0 (hello ∷ []) late 8 active_task-late refl
      task_row-late refl

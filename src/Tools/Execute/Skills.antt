-- ===== src/Tools/Execute/Skills.antt =====
-- When a call of a skill is submitted, and when it is not.
use xbotics_hey_robot.Prelude.{◌≡◌, true, false, none, some, arith, [], leb, is_some, any, or_else}
use xbotics_hey_robot.Prelude.Result.{ok, raise}
use xbotics_hey_robot.Protocol.{ToolStatus, PhysicalToolCall}
use xbotics_hey_robot.Tasks.Rows.{
  TaskStatus, TaskRow, AgentTask, Store, task_from_row, has_step_id, has_run,
}
use xbotics_hey_robot.Tasks.Queries.{active_task, current_task, task_row, task, active_run_ids}
use xbotics_hey_robot.Tasks.Updates.{session_has_task, finish, control_task, create_task}
use xbotics_hey_robot.Tasks.Status.{finish_lem}
use xbotics_hey_robot.Tasks.Wf.{IsWf}
use xbotics_hey_robot.Tasks.Coordinator.{Client, Submission, command_of}
use xbotics_hey_robot.Tasks.Coordinator.Completion.{status_of}
use xbotics_hey_robot.Tasks.Coordinator.Laws.{submit_persists_first, written, persisted}
use xbotics_hey_robot.Tools.Calls.{PreparedCall}
use xbotics_hey_robot.Tools.Executor.{
  Directive, ExecutionError, Stops, Draws, Limits, Turn, plain, told, max_steps,
}
use xbotics_hey_robot.Tools.Execute.{budget_text, with_step, execute_skill}

module _ (client : Client) (stops : Stops) (limits : Limits) (d : Draws) (turn : Turn)
    (call : PhysicalToolCall) (s : Store) where
  -- On an active task that has used its steps, whatever the client does: the call ends with the
  -- text of the budget, the task is blocked, and no step is written.
  pub execute_skill-budget :
      {t : AgentTask} {r : TaskRow}
      → active_task turn.session_key s ≡ some t
      → task_row t.task_id s ≡ some r
      → r.status ≡ TaskStatus.active
      → leb (max_steps limits) t.step_count ≡ true
      → let (result, s') = execute_skill client stops limits d turn call s in
        (result
          ≡ ok (
              told Directive.finish
                (plain ToolStatus.failed budget_text)
                (PreparedCall.physical call)
                (some t)
                budget_text))
        × (status_of t.task_id s' ≡ some TaskStatus.blocked)
        × (s'.steps ≡ s.steps)
  unfolding execute_skill control_task finish status_of
  execute_skill-budget {t = t} {r = r} found known active used = ground (
    arith,
    found,
    known,
    active,
    used,
    finish_lem d.closed_at t.task_id TaskStatus.blocked (some budget_text) (some budget_text) s
        known,
  )

  -- In a session whose task is paused, a call of a skill raises and changes nothing.
  pub execute_skill-paused :
      active_task turn.session_key s ≡ none
      → is_some (current_task turn.session_key s) ≡ true
      → execute_skill client stops limits d turn call s
        ≡ (raise (ExecutionError.task_error session_has_task), s)
  unfolding execute_skill create_task
  execute_skill-paused idle held = ground (arith, idle, held)

  module _ (w : IsWf s) {t : AgentTask} {r : TaskRow}
      (found : active_task turn.session_key s ≡ some t) (known : task_row t.task_id s ≡ some r)
      (active : r.status ≡ TaskStatus.active) (left : leb (max_steps limits) t.step_count ≡ false)
      (idle : active_run_ids t.task_id s ≡ [])
      (new_id : any (has_step_id d.submission.step_id) s.steps ≡ false)
      (new_run : any (has_run d.submission.run_id) s.steps ≡ false) where
    -- The submission that the call makes.
    abbrev pub asked : Submission
    asked = record {
      task_id = t.task_id;
      proposal = call;
      envelope = turn.envelope;
      tool_call_id = turn.tool_call_id;
      deadline_at = t.deadline_at;
    }

    -- In a well-formed store, for an active task with steps left and no live run and for ids that
    -- are new: if the client takes the command, the agent is told to wait, with the pending step
    -- that was stored before the client was called.
    pub execute_skill-waits :
        (s' : Store)
        → client.submit
            (command_of d.submission asked (task_from_row r))
            (persisted client d.submission asked s w known active idle new_id new_run)
          ≡ (s', none)
        → execute_skill client stops limits d turn call s ≡ (
          ok (
              with_step Directive.wait
                (written client d.submission asked s w known active idle new_id new_run)
                (or_else (task t.task_id s') t)
                (PreparedCall.physical call)
                none),
          s',
        )
    unfolding execute_skill
    execute_skill-waits s' h =
        let taken =
          (submit_persists_first client d.submission asked s w known active idle new_id new_run s'
            h).1 in
        ground (arith, found, left, taken)

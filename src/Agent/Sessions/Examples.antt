-- ===== src/Agent/Sessions/Examples.antt =====
-- The theorems of a session at one conversation.
use xbotics_hey_robot.Prelude.{◌≡◌, refl, none, List, [], ◌∷◌, ◌++◌, arith}
use xbotics_hey_robot.Prelude.Result.{ok}
use xbotics_hey_robot.Tasks.Rows.{empty}
use xbotics_hey_robot.Tasks.Queries.{active_task}
use xbotics_hey_robot.Tasks.Sample.{envelope, busy}
use xbotics_hey_robot.Agent.Messages.{Role, message}
use xbotics_hey_robot.Agent.Context.{for_command, MessageRow, recent}
use xbotics_hey_robot.Agent.Drive.{AgentRunResult, RunStatus, Wakeup, unstructured_text}
use xbotics_hey_robot.Agent.Sample.{
  parts, ticks, talks, printing, talks_said, allowed-registry, talking,
}
use xbotics_hey_robot.Agent.Sessions.{World, AgentCommand, Readings, prompt, launch_drive}
use xbotics_hey_robot.Agent.Drive.Turns.{drive-talk_from}
use xbotics_hey_robot.Agent.Sessions.Talk.{prompt_conversation}

abbrev readings : Readings
readings = record { routed_at = 30; heard_at = 31; answered_at = 32; ticks = ticks }

abbrev alone : List MessageRow → List MessageRow
alone rows = rows

abbrev command : AgentCommand
command = record {
  session_key = "web:1";
  interaction_id = "i3";
  envelope = envelope;
  text = "wait a moment";
}

abbrev said : MessageRow
said = record {
  session_key = "web:1";
  position = 1;
  role = Role.user;
  content = "stack the cups";
  created_at = 5;
}

abbrev working : World
working = record { tasks = busy; rows = said ∷ [] }

-- No task, and a model that only talks.
abbrev idle : World
idle = record { tasks = empty; rows = said ∷ [] }

abbrev given_up : AgentRunResult
given_up = record { status = RunStatus.failed; text = unstructured_text; operation_id = none }

active_task-empty : active_task "web:1" empty ≡ none
unfolding active_task
active_task-empty = refl

prompt-idle : (prompt parts "web:1" readings talking alone command idle).0 ≡ ok given_up
unfolding prompt launch_drive for_command
prompt-idle =
    let wakeup : Wakeup = record {
      session_key = "web:1";
      envelope = envelope;
      interaction_id = "i3";
      objective = "wait a moment";
    } in
    let silent =
      drive-talk_from parts wakeup ticks talking (λ k. talks) (λ k m d l s. refl) (λ k. talks_said)
        (λ k. omega arith) allowed-registry empty active_task-empty refl 8 0
        (for_command printing "web:1" "wait a moment" (said ∷ []) empty) refl in
    rw (active_task-empty, silent) refl

prompt_conversation_example :
    recent "web:1" 3 (prompt parts "web:1" readings talking alone command idle).1.rows
    ≡ recent "web:1" 1 (said ∷ [])
      ++ message Role.user "wait a moment" ∷ message Role.assistant unstructured_text ∷ []
prompt_conversation_example =
    prompt_conversation parts "web:1" readings talking alone command idle 1 refl (λ rows. refl)
      prompt-idle refl refl

-- ===== src/Agent/Sessions/Talk.antt =====
-- What a conversation keeps of the calls of a session.
use xbotics_hey_robot.Prelude.{
  ℕ, suc, ◌≡◌, ◌∙◌, refl, String, true, false, not, ◌&&◌, some, List, [], ◌∷◌, ◌++◌, arith,
  if◌then◌else◌, Bool-cases, inl, inr,
}
use xbotics_hey_robot.Prelude.Result.{Result, ok, raise}
use xbotics_hey_robot.Prelude.Text.{truthy_text}
use xbotics_hey_robot.Tasks.Rows.{AgentTask, Store, is_active}
use xbotics_hey_robot.Tasks.Queries.{active_task, current_task, active_run_ids}
use xbotics_hey_robot.Tasks.Updates.{update_route}
use xbotics_hey_robot.Tools.Executor.{ExecutionError}
use xbotics_hey_robot.Agent.Messages.{Role, message, Chat}
use xbotics_hey_robot.Agent.Context.{for_command, MessageRow, append, recent}
use xbotics_hey_robot.Agent.Context.Recent.{recent-append}
use xbotics_hey_robot.Agent.Drive.{AgentRunResult, RunStatus, Parts, Wakeup, drive, max_model_turns}
use mathlib.Core.List as Lists
use xbotics_hey_robot.Agent.Sessions.{
  World, AgentCommand, Readings, is_waiting, noted, routed, launch_drive, prompt, steer,
  recorded_text,
}

module _ (parts : Parts) (session : String) (readings : Readings) (chat : ℕ → Chat)
    (meanwhile : List MessageRow → List MessageRow) where
  noted-rows :
      (m : Result ExecutionError AgentRunResult × Store) (rows : List MessageRow)
      {result : AgentRunResult}
      → (noted parts session readings chat meanwhile m rows).0 ≡ ok result
      → (noted parts session readings chat meanwhile m rows).1.rows ≡ (
          if truthy_text result.text && not (is_waiting result.status)
          then append readings.answered_at session Role.assistant result.text rows
          else rows)
  noted-rows (raise e, s) rows h = absurd (ground (arith, h))
  noted-rows (ok answered, s) rows h = ground (arith, h)

  -- A prompt whose wakeup ends with a text, and not as waiting, adds the text of the user and then
  -- that text to the conversation, where nothing else is added meanwhile.
  pub prompt_conversation :
      (command : AgentCommand) (w : World) (n : ℕ) {result : AgentRunResult}
      → command.session_key ≡ session
      → ((rows : List MessageRow) → meanwhile rows ≡ rows)
      → (prompt parts session readings chat meanwhile command w).0 ≡ ok result
      → is_waiting result.status ≡ false
      → truthy_text result.text ≡ true
      → recent session (suc (suc n)) (prompt parts session readings chat meanwhile command w).1.rows
        ≡ recent session n w.rows
          ++ message Role.user command.text ∷ message Role.assistant result.text ∷ []
  unfolding prompt launch_drive
  prompt_conversation command w n {result = result} own alone h spoken said =
      let s =
        routed parts session readings chat meanwhile command
          (active_task command.session_key w.tasks) w.tasks in
      let wakeup : Wakeup = record {
        session_key = session;
        envelope = command.envelope;
        interaction_id = command.interaction_id;
        objective = command.text;
      } in
      let messages = for_command parts.printing command.session_key command.text w.rows s in
      let heard = append readings.heard_at command.session_key Role.user command.text w.rows in
      let added =
        noted-rows (drive parts wakeup readings.ticks chat max_model_turns 0 messages s)
          (meanwhile heard) h in
      rw (added, said, spoken, alone heard, own)
        (recent-append readings.answered_at session Role.assistant result.text (suc n)
            (append readings.heard_at session Role.user command.text w.rows)
          ∙ rw (recent-append readings.heard_at session Role.user command.text n w.rows) (
              Lists.append_assoc (recent session n w.rows) (message Role.user command.text ∷ [])
                (message Role.assistant result.text ∷ [])))

  -- A change of mind while a run of the session's task is live does not ask the model: the text of
  -- the user is added to the conversation, the run is the answer, and no step is touched.
  pub steer_busy :
      (command : AgentCommand) (w : World) (n : ℕ) {t : AgentTask} {run : String}
      {runs : List String}
      → command.session_key ≡ session
      → current_task session w.tasks ≡ some t
      → active_run_ids t.task_id w.tasks ≡ run ∷ runs
      → let (result, w') = steer parts session readings chat meanwhile command w in
        (result
          ≡ ok (record {
            status = RunStatus.waiting;
            text = recorded_text;
            operation_id = some run;
          }))
        × (recent session (suc n) w'.rows
            ≡ recent session n w.rows ++ message Role.user command.text ∷ [])
        × (w'.tasks.steps ≡ w.tasks.steps)
  unfolding steer update_route active_run_ids
  steer_busy command w n {t = t} {run = run} {runs = runs} own found live =
      elim (Bool-cases (is_active t.status)) [
        | inl active ↦
            rw (steer, found, active, live, own)
              (refl, recent-append readings.heard_at session Role.user command.text n w.rows, refl)
        | inr paused ↦
            rw (steer, found, paused, live, own)
              (refl, recent-append readings.heard_at session Role.user command.text n w.rows, refl)
      ]

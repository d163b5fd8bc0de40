-- ===== src/Lib.antt =====
-- Hey Robot: the agent, the task layer and the deterministic gates of the robot.
--
-- A turn of a user reaches the gateway (Gateway), which knows the user across channels, drops what
-- it has a receipt of, keeps the turn in its episode (Episodes), and passes it on as a control or
-- as a turn of the conversation. A conversation has at most one sustained task. The task store
-- (Tasks) keeps it in two tables, tasks and steps, across restarts. A wakeup of the agent (Agent)
-- asks the model for one call at a time, which the registry checks and the executor (Tools) carries
-- out: an answer to the user, or a physical call. For that the coordinator (Tasks.Coordinator)
-- writes a pending step, sends a command to the skill worker, and applies the events of the run to
-- the step and the task. Before an action reaches the driver it passes the admission gate, the
-- safety supervisor and the control plane with its deadlines (Robot). The termination policies
-- (Skills.Termination) end a running VLA option, the run store (Runs) keeps the events of each run
-- for the worker (Skills.Worker), the event store (Events) those of the runtime, and the servo
-- protocol (Servo) is the lowest layer under the drivers.
--
-- Files and sources:
--   Protocol            src/hey_robot/protocol/messages.py, cognition/tools/models.py
--   Tasks/Rows          AgentTaskStore's schema, AgentTask, AgentTaskStep, _evidence_ids
--   Tasks/Queries       the SELECT methods of AgentTaskStore
--   Tasks/Updates       create_task, update_route, pause_task, resume_task, close_task,
--                       complete_from_environment, control_task, _finish
--   Tasks/Steps         add_step, add_pending_step, resolve_pending_step, apply_skill_event
--   Tasks/Projection    projection and _project_task
--   Tasks/Trace         every write as an operation, and runs of them
--   Tasks/Wf, Finality, Status, Events, Submission
--                       the laws of the store, src/hey_robot/cognition/runtime/agent_task_store.py
--   Tasks/Coordinator   src/hey_robot/cognition/runtime/task_coordinator.py, skills/client.py
--   Tools/Schema        src/hey_robot/tool_schema.py
--   Tools/Calls         cognition/tools/models.py, agent_response.py and registry.py
--   Tools/Executor, Execute
--                       src/hey_robot/cognition/tools/executor.py
--   Agent/Messages      src/hey_robot/model/types.py
--   Agent/Runner        src/hey_robot/cognition/runtime/agent_runner.py
--   Agent/Context       conversation_store.py and agent_context.py beside it
--   Agent/Drive         Agent._drive, src/hey_robot/cognition/runtime/agent.py: Turns and Endings
--                       are its laws
--   Agent/Sessions      prompt, steer and resume of the same class
--   Agent/Service       src/hey_robot/cognition/autonomous_agent_service.py
--   Skills/Runner       src/hey_robot/skills/runner.py
--   Skills/Resources    src/hey_robot/skills/resources.py
--   Skills/Models       src/hey_robot/skills/models.py
--   Skills/Worker       src/hey_robot/skills/worker.py: Broadcast has its queues of events, Cancel
--                       the cancelling of runs, the emergency stop and the close
--   Skills/Termination  src/hey_robot/skills/vla/termination.py
--   Robot/Types         src/hey_robot/robot_api/driver.py and protocol/messages.py
--   Robot/Gate          src/hey_robot/robot_runtime/skill_gate.py
--   Robot/Safety        src/hey_robot/robot_runtime/safety.py
--   Robot/Control       src/hey_robot/robot_runtime/control_plane.py
--   Gateway             src/hey_robot/gateway: Identity is identity.py, Receipts is receipts.py, and
--                       Turns is _on_user_turn of service.py with what it calls
--   Episodes            src/hey_robot/episode/scope.py and store.py
--   Events/Store        src/hey_robot/events/store.py
--   Servo               src/hey_robot/robot_hardware/sms_sts.py
--   Runs                src/hey_robot/persistence/run_store.py: Artifacts moves large results out
--                       of an event, Files has the files of one run, Recovery their laws
--
-- A store is a record of two lists of rows; a method is a function from the store to its
-- result and the new store, and an exception is a value that keeps the writes before it. Clock
-- readings and the ids drawn from uuid4 are arguments, so a theorem holds for any of them, and one
-- reading stands for those of a reconciliation of the service; times are ticks, and a float of an
-- action or a deadline is an integer count of a fixed unit, infinite, or no number (Prelude/Float).
-- A JSON column holds the decoded value; the files of runs and of events hold encoded text, which
-- `splitlines` splits, with the codecs as parameters. The skill client and the model are parameters
-- that may change the store while they are awaited, as the coroutines do that run meanwhile.
-- Python's `str` and `float` of arbitrary values are the parameters `repr` and `parse` of the gates;
-- `lower` and `upper` fold ASCII letters. The event sink of the skill runner does not raise.
--
-- Recursion is structural but in the reader of servo replies and in the reading of the last lines
-- of the events, which run on fuel: for the events as much as there are bytes, for the replies one
-- more. Every round of their loops takes a byte, so this is enough. The loop of a wakeup recurs on
-- the model turns that are left, of which the source allows eight.
--
-- Not modelled: SQLite below its documented unique indices and transactions, network and file
-- access, the web front end, speech, the model servers, the simulators, the drivers, the
-- connections of the gateway and its replies; of the control plane its mapping of policy results,
-- which is geometry on floats; of the service its start and stop and the controls; of the agent the
-- cancelling of a wakeup and the joining of two; and of the run store the listing of recent runs.
pub mod Prelude
pub mod Protocol
pub mod Tasks
pub mod Skills
pub mod Robot
pub mod Servo
pub mod Runs
pub mod Tools
pub mod Agent
pub mod Episodes
pub mod Gateway
pub mod Events

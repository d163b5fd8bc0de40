-- ===== src/Agent/Context.antt =====
-- ConversationStore and AgentContextBuilder, src/hey_robot/cognition/runtime/conversation_store.py and
-- agent_context.py. The template engine and the JSON encoder are parameters; a conversation keeps
-- its rows in the order in which they were written.
pub mod Recent
use xbotics_hey_robot.Prelude.{
  ℕ, ◌+◌, String, Bool, true, false, not, ◌&&◌, Option, none, some, List, [], ◌∷◌, ◌++◌, map, keep,
  take, if◌then◌else◌, ltb, ◌==◌, or_else,
}
use xbotics_hey_robot.Prelude.Text.{truthy_text, concat, join}
use xbotics_hey_robot.Prelude.Value.{Fields, end}
use xbotics_hey_robot.Prelude.Sort.{order_by}
use xbotics_hey_robot.Protocol.{ToolOutcome, PhysicalToolCall}
use xbotics_hey_robot.Tasks.Rows.{AgentTask, AgentTaskStep, Store}
use xbotics_hey_robot.Tasks.Queries.{active_task, recent_steps}
use xbotics_hey_robot.Tasks.Coordinator.{is_nil}
use xbotics_hey_robot.Tasks.Projection.{projection, tool_status_name, all_of}
use xbotics_hey_robot.Tools.Calls.{PreparedCall}
use xbotics_hey_robot.Tools.Executor.{or_text}
use xbotics_hey_robot.Agent.Messages.{Role, ModelToolCall, ModelMessage, message}
use mathlib.Core.List as Lists

-- A row of the table `messages`.
pub record MessageRow : Type 0 where
  pub session_key : String
  pub position : ℕ
  pub role : Role
  pub content : String
  pub created_at : ℕ

abbrev pub in_session : String → MessageRow → Bool
in_session session r = r.session_key == session

abbrev pub max : ℕ → ℕ → ℕ
max m n = if ltb m n then n else m

-- `COALESCE(MAX(position), 0)` of a session
unfoldable pub last_position : String → List MessageRow → ℕ
last_position session [] = 0
last_position session (r ∷ rest) =
    let later = last_position session rest in
    if in_session session r then max r.position later else later

-- `ConversationStore.append`
unfoldable pub append : ℕ → String → Role → String → List MessageRow → List MessageRow
unfolding last_position
append now session role content rows =
    rows
    ++ record {
      session_key = session;
      position = last_position session rows + 1;
      role = role;
      content = content;
      created_at = now;
    }
      ∷ []

abbrev pub message_of_row : MessageRow → ModelMessage
message_of_row r = message r.role r.content

-- `ConversationStore.recent`
unfoldable pub recent : String → ℕ → List MessageRow → List ModelMessage
unfolding order_by
recent session limit rows = map message_of_row (
    Lists.reverse
      (take limit (Lists.reverse (order_by (λ r. r.position) (keep (in_session session) rows)))))

pub record AgentSessionView : Type 0 where
  pub session_key : String
  pub transcript : List ModelMessage
  pub active_task : Option AgentTask
  pub recent_steps : List AgentTaskStep

-- `AgentContextBuilder.view`
unfoldable pub view : String → List MessageRow → Store → AgentSessionView
view session rows s = record {
  session_key = session;
  transcript = recent session 16 rows;
  active_task = active_task session s;
  recent_steps = elim (active_task session s) [ none ↦ [] | some t ↦ recent_steps t.task_id 6 s ];
}

abbrev pub evidence_text : Option AgentTaskStep → String
evidence_text none = ""
evidence_text (some st) =
    if is_nil st.evidence_ids then "" else concat "; evidence_ids=" (join "," st.evidence_ids)

unfoldable pub outcome_context :
    PhysicalToolCall → ToolOutcome → Option AgentTaskStep → Option AgentTask → String
outcome_context call outcome step t = all_of (
    "tool_result status="
    ∷ tool_status_name outcome.status
    ∷ "; skill="
    ∷ call.name
    ∷ "; summary="
    ∷ or_text outcome.user_summary "no user-visible summary"
    ∷ evidence_text step
    ∷ elim t [ none ↦ [] | some known ↦ "\nactive_task id=" ∷ known.task_id ∷ [] ])

-- What the builder is made with: `render` of the templates, by name and values, and `json.dumps`.
pub record Printing : Type 0 where
  pub render : String → List (String × String) → String
  pub dumps : Fields → String

abbrev pub call_message : String → String → Fields → ModelMessage
call_message id name arguments = record (message Role.assistant "") {
  tool_calls = record { id = id; name = name; arguments = arguments; metadata = end } ∷ [];
}

abbrev pub answer_message : String → String → ModelMessage
answer_message id content = record (message Role.tool content) { tool_call_id = some id }

module _ (printing : Printing) where
  -- `_policy`
  unfoldable pub policy : String → Store → String
  policy session s = printing.render "agent/SYSTEM.md" (
      ("agent_soul", printing.render "agent/SOUL.md" [])
      ∷ ("task_context", projection session s)
      ∷ [])

  unfoldable pub for_command : String → String → List MessageRow → Store → List ModelMessage
  unfolding policy view
  for_command session text rows s =
      message Role.system (policy session s)
      ∷ ((view session rows s).transcript ++ message Role.user text ∷ [])

  unfoldable pub for_resume :
      AgentTask → AgentTaskStep → List MessageRow → Store → List ModelMessage
  unfolding policy view outcome_context
  for_resume t st rows s =
      let id = or_text st.tool_call_id (concat "resume_" st.step_id) in
      message Role.system (policy t.session_key s)
      ∷ ((view t.session_key rows s).transcript
          ++ call_message id st.proposal.name st.proposal.arguments
            ∷ answer_message id (outcome_context st.proposal st.outcome (some st) (some t))
            ∷ [])

  abbrev pub result_text :
      PreparedCall → ToolOutcome → Option AgentTaskStep → Option AgentTask → String
  result_text (PreparedCall.physical call) outcome step t = outcome_context call outcome step t
  result_text _ outcome step t = all_of (
      "tool_result status="
      ∷ tool_status_name outcome.status
      ∷ "; summary="
      ∷ or_else outcome.user_summary ""
      ∷ "; data="
      ∷ printing.dumps outcome.extra
      ∷ [])

  unfoldable pub tool_result_messages :
      String
      → String
      → Fields
      → PreparedCall
      → ToolOutcome
      → Option AgentTaskStep
      → Option AgentTask
      → List ModelMessage
  unfolding outcome_context
  tool_result_messages id name arguments proposal outcome step t =
      call_message id name arguments ∷ answer_message id (result_text proposal outcome step t) ∷ []

-- ===== src/Gateway/Turns.antt =====
-- The gateway's handling of a turn of a user, src/hey_robot/gateway/service.py. The bus and the
-- channels are what was published and sent so far. `binding_code` is the match of the pattern of a
-- binding command, and `digest` the hexadecimal digits of SHA-256.
pub mod Once
pub mod Compact
pub mod Emergency
mod Examples
use xbotics_hey_robot.Prelude.{
  ℕ, ◌+◌, String, Bool, true, false, not, ◌&&◌, ◌||◌, Option, none, some, List, [], ◌∷◌, ◌++◌, map,
  if◌then◌else◌, or_else, is_some, ◌==◌,
}
use xbotics_hey_robot.Prelude.Text.{
  concat, join, has, lower, upper, truthy_text, is_space, is_empty,
}
use xbotics_hey_robot.Prelude.Value.{Fields}
use xbotics_hey_robot.Protocol.{Envelope}
use xbotics_hey_robot.Episodes.{
  EpisodeRecord, EpisodeStore, default_episode_dimensions, text_or_default, allocate_episode,
  ensure, append_record,
}
use xbotics_hey_robot.Gateway.Identity.{Resolver, resolve, claim_binding}
use xbotics_hey_robot.Gateway.Receipts.{Receipt, claim, complete_receipt}

-- Of a media reference the gateway reads the uri.
pub record UserTurn : Type 0 where
  pub envelope : Envelope
  pub text : String
  pub media : List String
  pub intent : Option String
  pub metadata : Fields

pub data ConversationKind : Type 0 where
  prompt steer : ConversationKind

pub data ControlAction : Type 0 where
  pause resume cancel emergency_stop : ControlAction

-- ConversationTurn and AgentControl, as they are published.
pub data Message : Type 0 where
  conversation_turn : Envelope → String → String → String → ConversationKind → Message
  agent_control : Envelope → String → String → ControlAction → String → Message

pub record Settings : Type 0 where
  pub agents : List String
  pub default_agent_id : String
  pub default_robot_id : String → String
  pub deployment_id : String

pub record Host : Type 0 where
  pub settings : Settings
  pub binding_code : String → Option String
  pub digest : String → String
  pub payload_json : UserTurn → Envelope → String
  pub sanitize : String → String

pub record Gateway : Type 0 where
  pub identity : Resolver
  pub receipts : List Receipt
  pub episodes : EpisodeStore UserTurn
  pub published : List Message
  pub binding_replies : List (Envelope × Bool)

-- `text.split()`: the word that the text goes on with, and the words after it.
unfoldable pub split_parts : String → String × List String
unfolding is_space
split_parts String.[] = (String.[], [])
split_parts (String.◌∷◌ c s) =
    let parts = split_parts s in
    if is_space c
    then (String.[], if is_empty parts.0 then parts.1 else parts.0 ∷ parts.1)
    else (String.◌∷◌ c parts.0, parts.1)

abbrev pub split_words : String → List String
split_words s = let parts = split_parts s in if is_empty parts.0 then parts.1 else parts.0 ∷ parts.1

-- `text.replace(" ", "")`
unfoldable pub drop_blanks : String → String
drop_blanks String.[] = String.[]
drop_blanks (String.◌∷◌ c s) =
    let rest = drop_blanks s in if String.◌∷◌ c String.[] == " " then rest else String.◌∷◌ c rest

unfoldable pub compact_text : String → String
unfolding split_parts drop_blanks join lower
compact_text text = drop_blanks (join " " (split_words (lower text)))

abbrev pub emergency_words : List String
emergency_words = "emergency stop" ∷ "emergencystop" ∷ "e-stop" ∷ "estop" ∷ "急停" ∷ "紧急停止" ∷ []

abbrev pub cancel_words : List String
cancel_words = "cancel current task" ∷ "cancel task" ∷ "stop current task" ∷ "取消当前任务" ∷ []

abbrev pub pause_words : List String
pause_words = "pause" ∷ "pause task" ∷ "暂停" ∷ "暂停任务" ∷ []

abbrev pub confirmations : List String
confirmations = "confirm" ∷ "yes" ∷ "确认" ∷ "继续" ∷ []

-- The control that `_handle_safety_command` publishes for a text, if any.
unfoldable pub safety_command : String → Option ControlAction
unfolding compact_text drop_blanks has
safety_command text =
    let said = compact_text text in
    if has (map drop_blanks emergency_words) said
    then some emergency_stop
    else if has (map drop_blanks cancel_words) said
    then some cancel
    else if has (map drop_blanks pause_words) said
    then some pause
    else if has confirmations said
    then some resume
    else none

abbrev pub reason_of : ControlAction → String
reason_of emergency_stop = "gateway emergency stop"
reason_of cancel = "user cancelled current task"
reason_of pause = "user paused current task"
reason_of resume = "user resumed current task"

abbrev pub kind_of : Option String → ConversationKind
kind_of (some intent) = if intent == "steer" || intent == "follow_up" then steer else prompt
kind_of none = prompt

abbrev pub first_text : Option String → Option String → Option String
first_text none other = other
first_text (some text) other = if truthy_text text then some text else other

unfoldable pub interaction_id_of : Host → Envelope → String → String
unfolding join
interaction_id_of h e payload_hash =
    let source =
      or_else (first_text e.message_id e.turn_id) (concat e.trace_id (concat ":" payload_hash)) in
    h.digest (
      join "|" (
        text_or_default e.deployment_id ""
        ∷ text_or_default e.channel ""
        ∷ text_or_default e.account_id ""
        ∷ text_or_default e.user_id (text_or_default e.sender_id "")
        ∷ source
        ∷ []))

unfoldable pub agent_id_of : Host → Option String → String
unfolding has
agent_id_of h none = h.settings.default_agent_id
agent_id_of h (some requested) =
    if truthy_text requested && has h.settings.agents requested
    then requested
    else h.settings.default_agent_id

abbrev pub unified : Resolver → Envelope → Bool
unified r e = r.spec.unified_user_episodes && truthy_text (or_else e.user_id "")

unfoldable pub session_key : Host → Resolver → Envelope → String
unfolding agent_id_of
session_key h r e =
    let principal =
      if unified r e
      then or_else e.user_id ""
      else concat (text_or_default e.channel "unknown")
          (concat ":" (text_or_default e.chat_id (text_or_default e.sender_id "anonymous"))) in
    concat h.settings.deployment_id
      (concat ":" (concat (text_or_default e.agent_id (agent_id_of h none)) (concat ":" principal)))

abbrev pub episode_dimensions : Resolver → Envelope → List String
episode_dimensions r e = if unified r e then "user" ∷ "robot" ∷ [] else default_episode_dimensions

-- The envelope under which a turn is routed: `turn.envelope.child(...)` of the resolved names.
unfoldable pub routed_envelope : Host → String → Resolver → Envelope → Envelope
unfolding agent_id_of resolve
routed_envelope h new_trace_id r e =
    let agent_id = agent_id_of h e.agent_id in
    record e {
      agent_id = some agent_id;
      robot_id = some (h.settings.default_robot_id agent_id);
      user_id = (resolve r e).user_id;
      trace_id = if truthy_text e.trace_id then e.trace_id else new_trace_id;
    }

-- `_try_handle_identity_binding_turn`, of a turn that is a binding command.
unfoldable pub binding_turn : Host → ℕ → String → String → UserTurn → Gateway → Gateway
unfolding claim_binding upper routed_envelope
binding_turn h now new_trace_id code t g =
    let m = claim_binding now (upper code) t.envelope g.identity in
    let routed = routed_envelope h new_trace_id m.1 t.envelope in
    let e = record routed {
      deployment_id = some (text_or_default t.envelope.deployment_id h.settings.deployment_id);
    } in
    record g { identity = m.1; binding_replies = g.binding_replies ++ (e, is_some m.0) ∷ [] }

-- From the claimed receipt on: the episode, and then the control or the conversation turn.
unfoldable pub route_turn : Host → ℕ → Envelope → String → UserTurn → Gateway → Gateway
unfolding allocate_episode ensure append_record session_key safety_command
route_turn h now e id t g =
    let allocation =
      allocate_episode h.digest e (or_else e.agent_id "") (episode_dimensions g.identity e) in
    let in_episode = record e { episode_id = some allocation.episode_id } in
    let row : EpisodeRecord UserTurn = record {
      role = "user";
      content = t.text;
      timestamp = e.timestamp;
      payload = record t { envelope = in_episode };
    } in
    let kept = append_record h.sanitize now allocation.episode_id row (
      ensure h.sanitize now allocation.episode_id allocation.scope allocation.aliases g.episodes) in
    let key = session_key h g.identity e in
    elim (safety_command t.text) [
      | some action ↦ record g {
        episodes = kept;
        published = g.published ++ agent_control e key id action (reason_of action) ∷ [];
        receipts = complete_receipt now id "safety_command" g.receipts;
      }
      | none ↦ record g {
        episodes = kept;
        published =
            g.published ++ conversation_turn in_episode key id t.text (kind_of t.intent) ∷ [];
      }
    ]

unfoldable pub interaction_of : Host → String → Resolver → UserTurn → String × Envelope × String
unfolding routed_envelope interaction_id_of
interaction_of h new_trace_id r t =
    let e = routed_envelope h new_trace_id r t.envelope in
    let payload_hash = h.digest (h.payload_json t e) in
    (interaction_id_of h e payload_hash, e, payload_hash)

-- `_on_user_turn`
unfoldable pub on_user_turn : Host → ℕ → String → UserTurn → Gateway → Gateway
unfolding binding_turn interaction_of route_turn
on_user_turn h now new_trace_id t g = elim (h.binding_code t.text) [
  | some code ↦ binding_turn h now new_trace_id code t g
  | none ↦
      let i = interaction_of h new_trace_id g.identity t in
      let m = claim now i.0 i.2 g.receipts in
      if m.0 then route_turn h now i.1 i.0 t (record g { receipts = m.1 }) else g
]

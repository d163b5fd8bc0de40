-- ===== src/Skills/Models.antt =====
-- src/hey_robot/skills/models.py, with the media references of protocol/messages.py.
use xbotics_hey_robot.Prelude.{
  ℕ, String, Bool, true, false, ◌||◌, Option, none, some, List, map, if◌then◌else◌, ◌==◌,
}
use xbotics_hey_robot.Prelude.Int.{pos}
use xbotics_hey_robot.Prelude.Value.{
  Value, Fields, null, number, string, array, dict, end, entry, merge, from_list, opt_text,
}
use xbotics_hey_robot.Protocol.{Envelope, ToolStatus, ToolOutcome}

pub record ImageRef : Type 0 where
  pub uri : String
  pub camera : Option String
  pub width : Option ℕ
  pub height : Option ℕ
  pub timestamp : Option ℕ
  pub content_type : Option String
  pub size_bytes : Option ℕ
  pub sha256 : Option String
  pub metadata : Fields

pub record ArtifactRef : Type 0 where
  pub uri : String
  pub artifact_type : String
  pub role : Option String
  pub name : Option String
  pub content_type : Option String
  pub size_bytes : Option ℕ
  pub sha256 : Option String
  pub metadata : Fields

pub data SkillPhase : Type 0 where
  accepted running progress completed failed cancelled : SkillPhase

pub data SkillStatus : Type 0 where
  completed failed cancelled : SkillStatus

pub record SkillResult : Type 0 where
  pub success : Bool
  pub summary : String
  pub status : SkillStatus
  pub extra : Fields  -- the field `data`
  pub evidence_ids : List String
  pub observations : List ImageRef
  pub artifacts : List ArtifactRef
  pub failure_mode : Option String
  pub error : Option String
  pub observation_error : Option String

pub record SkillCommand : Type 0 where
  pub envelope : Envelope
  pub run_id : String
  pub task_id : String
  pub robot_id : String
  pub name : String
  pub arguments : Fields
  pub deadline_at : Option ℕ

pub record SkillEvent : Type 0 where
  pub envelope : Envelope
  pub run_id : String
  pub sequence : ℕ
  pub name : String
  pub phase : SkillPhase
  pub timestamp : ℕ
  pub progress : Option ℕ
  pub frame_id : Option ℕ
  pub summary : Option String
  pub result : Option SkillResult

-- `phase in {"completed", "failed", "cancelled"}`
abbrev pub is_terminal_phase : SkillPhase → Bool
is_terminal_phase SkillPhase.completed = true
is_terminal_phase SkillPhase.failed = true
is_terminal_phase SkillPhase.cancelled = true
is_terminal_phase _ = false

artifact_summary : ArtifactRef → Value
artifact_summary a = dict (
    entry "uri" (string a.uri)
      (entry "artifact_type" (string a.artifact_type) (entry "role" (opt_text a.role) end)))

opt_time : Option ℕ → Value
opt_time none = null
opt_time (some t) = number (pos t)

observation_summary : ImageRef → Value
unfolding opt_time
observation_summary o = dict (
    entry "uri" (string o.uri)
      (entry "camera" (opt_text o.camera) (entry "timestamp" (opt_time o.timestamp) end)))

is_retryable : Option String → Bool
is_retryable none = false
is_retryable (some m) = m == "timeout" || m == "unavailable"

unfoldable pub to_tool_outcome : SkillResult → String → ToolOutcome
unfolding merge from_list artifact_summary observation_summary is_retryable
to_tool_outcome r operation_id = record {
  status = if r.success then ToolStatus.completed else ToolStatus.failed;
  user_summary = some r.summary;
  extra = merge r.extra (
      entry "evidence_ids" (array (from_list (map string r.evidence_ids))) (
        entry "artifacts" (array (from_list (map artifact_summary r.artifacts))) (
          entry "observations" (array (from_list (map observation_summary r.observations))) (
            entry "failure_mode" (opt_text r.failure_mode) (
              entry "error" (opt_text r.error)
                (entry "observation_error" (opt_text r.observation_error) end))))));
  operation_id = some operation_id;
  retryable = is_retryable r.failure_mode;
}

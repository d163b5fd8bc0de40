-- ===== src/Runs/Artifacts.antt =====
-- How FileRunStore moves a large result out of an event, `_externalize_terminal_result`, and how it
-- knows the event again, `_matches_externalized_event`. The artifact store is a parameter.
use xbotics_hey_robot.Prelude.{
  ℕ, String, Bool, true, false, not, ◌&&◌, ◌||◌, Option, none, some, List, [], ◌∷◌, ◌++◌, map,
  if◌then◌else◌, ◌==◌, leb, eqb, any, length, or_else,
}
use xbotics_hey_robot.Prelude.Int.{pos}
use xbotics_hey_robot.Prelude.Text.{has}
use xbotics_hey_robot.Prelude.Value.{
  Value, Fields, number, string, array, end, entry, merge, keys, items, get_or_null,
}
use xbotics_hey_robot.Skills.Models.{
  ImageRef, ArtifactRef, SkillPhase, SkillStatus, SkillResult, SkillEvent,
}

-- The port `RunArtifactStore`: `pin_image` answers with nothing where it raises. The other calls
-- get the data, the robot of the envelope, the run and the skill.
pub record ArtifactStore : Type 0 where
  pub pin_image : ImageRef → String → Option ImageRef
  pub put_json : Fields → Option String → String → String → ArtifactRef
  pub put_npz : Fields → Option String → String → String → ArtifactRef

abbrev pub trace_keys : List String
trace_keys = "steps" ∷ "vla_history" ∷ "vln_history" ∷ "model_outputs" ∷ []

abbrev pub compact_keys : List String
compact_keys =
    "termination_reason" ∷ "option_completed" ∷ "subgoal_succeeded" ∷ "before_frame_id"
    ∷ "after_frame_id" ∷ "steps_used" ∷ "command" ∷ []

unfoldable pub keep_keys : List String → Fields → Fields
keep_keys ks end = end
keep_keys ks (entry k v d) = let rest = keep_keys ks d in if has ks k then entry k v rest else rest

-- `compact["steps_executed"]`, where the steps are a list.
unfoldable pub steps_executed : Value → Fields
steps_executed (array vs) = entry "steps_executed" (number (pos (length (items vs)))) end
steps_executed _ = end

unfoldable pub compact : Fields → String → Fields
unfolding keep_keys steps_executed merge
compact d uri =
    merge (merge (keep_keys compact_keys d) (steps_executed (get_or_null d "steps")))
      (entry "execution_trace" (string uri) end)

abbrev pub pin_or_keep : ArtifactStore → String → ImageRef → ImageRef
pin_or_keep a run_id o = or_else (a.pin_image o run_id) o

abbrev pub pinned : ArtifactStore → String → SkillResult → SkillResult
pinned a run_id r = record r { observations = map (pin_or_keep a run_id) r.observations }

abbrev pub put_artifact : ArtifactStore → SkillEvent → ℕ → Fields → ArtifactRef
put_artifact a e size d =
    if eqb size 0
    then a.put_npz d e.envelope.robot_id e.run_id e.name
    else a.put_json d e.envelope.robot_id e.run_id e.name

-- The size of the encoded data is 0 where `json.dumps` raises TypeError.
unfoldable pub store_trace :
    ArtifactStore → (Fields → ℕ) → ℕ → SkillEvent → SkillResult → SkillResult
unfolding compact
store_trace a encoded_size limit e r =
    if leb (encoded_size r.extra) limit && not (any (has trace_keys) (keys r.extra))
    then r
    else let artifact = put_artifact a e (encoded_size r.extra) r.extra in
      record r { extra = compact r.extra artifact.uri; artifacts = r.artifacts ++ artifact ∷ [] }

unfoldable pub externalize_result :
    Option ArtifactStore → (Fields → ℕ) → ℕ → SkillEvent → Option SkillResult
unfolding store_trace
externalize_result store encoded_size limit e = elim e.result [
  | none ↦ none
  | some r ↦ elim store [
    | none ↦ some r
    | some a ↦ some (store_trace a encoded_size limit e (pinned a e.run_id r))
  ]
]

unfoldable pub externalize : Option ArtifactStore → (Fields → ℕ) → ℕ → SkillEvent → SkillEvent
unfolding externalize_result
externalize store encoded_size limit e = record e {
  result = externalize_result store encoded_size limit e;
}

abbrev pub same_option : Option String → Option String → Bool
same_option none none = true
same_option (some s) (some t) = s == t
same_option _ _ = false

abbrev pub same_status : SkillStatus → SkillStatus → Bool
same_status SkillStatus.completed SkillStatus.completed = true
same_status SkillStatus.failed SkillStatus.failed = true
same_status SkillStatus.cancelled SkillStatus.cancelled = true
same_status _ _ = false

abbrev pub same_phase : SkillPhase → SkillPhase → Bool
same_phase SkillPhase.accepted SkillPhase.accepted = true
same_phase SkillPhase.running SkillPhase.running = true
same_phase SkillPhase.progress SkillPhase.progress = true
same_phase SkillPhase.completed SkillPhase.completed = true
same_phase SkillPhase.failed SkillPhase.failed = true
same_phase SkillPhase.cancelled SkillPhase.cancelled = true
same_phase _ _ = false

abbrev pub is_trace : ArtifactRef → Bool
is_trace a = same_option a.role (some "execution_trace")

-- The lists are as long as each other and their images have the same hashes.
unfoldable pub same_images : List ImageRef → List ImageRef → Bool
same_images [] [] = true
same_images (a ∷ left) (b ∷ right) = same_option a.sha256 b.sha256 && same_images left right
same_images _ _ = false

unfoldable pub matches_result : SkillResult → SkillResult → Bool
unfolding same_images
matches_result r q =
    (not r.success || q.success)
    && (r.success || not q.success)
    && same_status r.status q.status
    && r.summary == q.summary
    && same_option r.failure_mode q.failure_mode
    && same_option r.error q.error
    && (any is_trace r.artifacts || same_images r.observations q.observations)

unfoldable pub matches_externalized : SkillEvent → SkillEvent → Bool
unfolding matches_result
matches_externalized stored incoming =
    eqb stored.sequence incoming.sequence
    && stored.name == incoming.name
    && same_phase stored.phase incoming.phase
    && (elim stored.result [
      | none ↦ false
      | some r ↦ elim incoming.result [ none ↦ false | some q ↦ matches_result r q ]
    ])

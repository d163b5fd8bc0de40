-- ===== src/Runs/Examples.antt =====
-- The theorems of the run files at a concrete file with a torn record.
use xbotics_hey_robot.Prelude.{
  ◌≡◌, refl, true, none, some, [], ◌∷◌, inr, arith, if◌then◌else◌, eqb, ◌==◌,
}
use xbotics_hey_robot.Prelude.Result.{ok}
use xbotics_hey_robot.Prelude.Text.{strip, splitlines}
use xbotics_hey_robot.Prelude.Value.{end}
use xbotics_hey_robot.Protocol.{Envelope}
use xbotics_hey_robot.Skills.Models.{SkillPhase, SkillStatus, SkillEvent}
use xbotics_hey_robot.Runs.Artifacts.{externalize, externalize_result}
use xbotics_hey_robot.Runs.Files.{Host, Run, append_event}
use xbotics_hey_robot.Runs.Recovery.{Decodes, IsTorn, IsFaithful, run_with, append_event-again}

abbrev envelope : Envelope
envelope = record {
  trace_id = "trace";
  episode_id = none;
  turn_id = none;
  channel = none;
  account_id = none;
  user_id = none;
  chat_id = none;
  chat_type = none;
  sender_id = none;
  message_id = none;
  reply_to_id = none;
  robot_id = some "arm";
  agent_id = none;
  deployment_id = none;
  timestamp = 0;
}

abbrev accepted : SkillEvent
accepted = record {
  envelope = envelope;
  run_id = "run1";
  sequence = 1;
  name = "grasp";
  phase = SkillPhase.accepted;
  timestamp = 3;
  progress = none;
  frame_id = none;
  summary = none;
  result = none;
}

abbrev ended : SkillEvent
ended = record accepted {
  sequence = 2;
  phase = SkillPhase.completed;
  result = some (record {
    success = true;
    summary = "grasped";
    status = SkillStatus.completed;
    extra = end;
    evidence_ids = [];
    observations = [];
    artifacts = [];
    failure_mode = none;
    error = none;
    observation_error = none;
  });
}

abbrev host : Host
host = record {
  encode = λ e. if eqb e.sequence 1 then "one" else "two";
  decode = λ s. if s == "one" then some accepted else if s == "two" then some ended else none;
  same_event = λ a b. eqb a.sequence b.sequence;
  same_command = λ a b. a.run_id == b.run_id;
  artifacts = none;
  encoded_size = λ d. 2;
  inline_limit = 65536;
}

host-IsFaithful : IsFaithful host
host-IsFaithful = record {
  reflexive = λ e. ground arith;
  pins = λ a k run o. absurd (ground (arith, k));
  traces = λ a k e size d. absurd (ground (arith, k));
}

one-Decodes : Decodes host ("one" ∷ []) (accepted ∷ [])
unfolding strip
one-Decodes = (refl, refl, tt)

two-IsTorn : IsTorn host "tw"
unfolding strip
two-IsTorn = inr (refl, refl)

abbrev crashed : Run
crashed = run_with none none ("one" ∷ []) "tw"

append_event-again_example :
    append_event host ended (append_event host ended crashed).1
    ≡ (ok ended, (append_event host ended crashed).1)
unfolding externalize externalize_result strip splitlines
append_event-again_example =
    append_event-again host ended none none ("one" ∷ []) "tw" (accepted ∷ []) one-Decodes two-IsTorn
      refl refl refl refl host-IsFaithful

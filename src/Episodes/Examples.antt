-- ===== src/Episodes/Examples.antt =====
-- The theorem of the episode store at a store that knows the episode under another name.
use xbotics_hey_robot.Prelude.{ℕ, ◌≡◌, String, refl, some, [], ◌∷◌, last?, arith}
use xbotics_hey_robot.Prelude.Dict.{lookup}
use xbotics_hey_robot.Prelude.Text.{
  has, strip, lstrip, rstrip, is_space, lower, sort_texts, insert_text, join,
}
use xbotics_hey_robot.Protocol.{Envelope}
use xbotics_hey_robot.Tasks.Sample.{envelope}
use xbotics_hey_robot.Episodes.{
  allocate_episode, canonical_signature, clean_dimensions, dimension_values, dimension_value,
  default_episode_dimensions, EpisodeScope, EpisodeRecord, EpisodeStore, resolve_alias, ensure,
  append_record, history,
}
use xbotics_hey_robot.Episodes.Aliases.{history-append_record}

abbrev scope : EpisodeScope
scope = record { agent_id = "main"; dimensions = "user" ∷ []; values = ("user", "u1") ∷ [] }

abbrev said : EpisodeRecord ℕ
said = record { role = "user"; content = "hello"; timestamp = 7; payload = 1 }

abbrev store : EpisodeStore ℕ
store = record { aliases = ("old", "ep_1") ∷ []; metas = []; files = ("ep_1", said ∷ []) ∷ [] }

abbrev plain : String → String
plain s = s

history-append_record_example :
    let s' =
      append_record plain 9 "agent:main:user=u1" said
        (ensure plain 8 "old" scope ("agent:main:user=u1" ∷ []) store) in
    (resolve_alias plain s' "agent:main:user=u1" ≡ resolve_alias plain store "old")
    × (last? (history plain "agent:main:user=u1" 1 s') ≡ some said)
unfolding has
history-append_record_example =
    history-append_record plain 8 9 1 "old" "agent:main:user=u1" scope ("agent:main:user=u1" ∷ [])
      said store (ground arith) refl

abbrev first_user : Envelope
first_user = record envelope {
  channel = some "web";
  chat_id = some "c|robot=arm|sender=s";
  sender_id = some "t";
  robot_id = some "arm";
}

abbrev second_user : Envelope
second_user = record first_user { chat_id = some "c"; sender_id = some "s|robot=arm|sender=t" }

-- Two envelopes of different chats and senders share an episode.
allocate_episode-shared :
    (allocate_episode plain first_user "main" default_episode_dimensions).episode_id
    ≡ (allocate_episode plain second_user "main" default_episode_dimensions).episode_id
unfolding allocate_episode canonical_signature clean_dimensions dimension_values dimension_value
    sort_texts join lookup has strip lstrip rstrip is_space lower insert_text
allocate_episode-shared = refl

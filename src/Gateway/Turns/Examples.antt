-- ===== src/Gateway/Turns/Examples.antt =====
-- The theorems of the gateway at the turns of one user.
use xbotics_hey_robot.Prelude.{◌≡◌, refl, true, none, some, [], ◌∷◌, ◌++◌}
use xbotics_hey_robot.Prelude.Text.{has, lower, join, is_space}
use xbotics_hey_robot.Prelude.Value.{end}
use xbotics_hey_robot.Tasks.Sample.{envelope}
use xbotics_hey_robot.Gateway.Receipts.{receipt_status_of, ReceiptStatus}
use xbotics_hey_robot.Gateway.Turns.{
  UserTurn, Message, ControlAction, Host, Gateway, compact_text, drop_blanks, split_parts,
  interaction_of, on_user_turn, session_key,
}
use xbotics_hey_robot.Gateway.Turns.Once.{IsOnce, run_turns, run_turns-IsOnce}
use xbotics_hey_robot.Gateway.Turns.Compact.{unspaced}
use xbotics_hey_robot.Gateway.Turns.Emergency.{on_user_turn-emergency}

abbrev host : Host
host = record {
  settings = record {
    agents = "main" ∷ [];
    default_agent_id = "main";
    default_robot_id = λ agent. "arm";
    deployment_id = "home";
  };
  binding_code = λ text. none;
  digest = λ s. s;
  payload_json = λ t e. t.text;
  sanitize = λ s. s;
}

abbrev gateway : Gateway
gateway = record {
  identity = record {
    spec = record {
      enabled = true;
      unified_user_episodes = true;
      default_user_id = none;
      bindings = [];
    };
    now_bound = record { dynamic = []; pending = []; claimed = [] };
    saved = record { dynamic = []; pending = []; claimed = [] };
  };
  receipts = [];
  episodes = record { aliases = []; metas = []; files = [] };
  published = [];
  binding_replies = [];
}

abbrev stop_turn : UserTurn
stop_turn = record {
  envelope = record envelope { channel = some "web"; message_id = some "m1" };
  text = " Emergency \t STOP";
  media = [];
  intent = none;
  metadata = end;
}

run_turns-IsOnce_example :
    IsOnce (run_turns host ((3, "tr_1", stop_turn) ∷ (4, "tr_2", stop_turn) ∷ []) gateway)
run_turns-IsOnce_example =
    run_turns-IsOnce host ((3, "tr_1", stop_turn) ∷ (4, "tr_2", stop_turn) ∷ []) gateway refl refl

on_user_turn-emergency_example :
    let i = interaction_of host "tr_1" gateway.identity stop_turn in
    let g' = on_user_turn host 3 "tr_1" stop_turn gateway in
    (g'.published
      ≡ gateway.published
        ++ Message.agent_control i.1
            (session_key host gateway.identity i.1)
            i.0
            ControlAction.emergency_stop
            "gateway emergency stop"
          ∷ [])
    × (receipt_status_of i.0 g'.receipts ≡ some ReceiptStatus.completed)
    × (on_user_turn host 4 "tr_1" stop_turn g' ≡ g')
unfolding has lower join is_space compact_text drop_blanks split_parts unspaced
on_user_turn-emergency_example =
    on_user_turn-emergency host 3 4 "tr_1" stop_turn gateway refl refl refl

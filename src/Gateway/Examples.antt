-- ===== src/Gateway/Examples.antt =====
-- The theorems of the gateway at concrete users and envelopes.
use xbotics_hey_robot.Prelude.{◌≡◌, refl, true, none, some, [], arith, ◌∷◌}
use xbotics_hey_robot.Prelude.Text.{upper, strip, lstrip, rstrip, is_space}
use xbotics_hey_robot.Protocol.{Envelope}
use xbotics_hey_robot.Tasks.Sample.{envelope}
use xbotics_hey_robot.Gateway.Identity.{
  Bindings, Resolver, candidate_keys, resolve, load_state, create_binding, claim_binding,
}
use xbotics_hey_robot.Gateway.Identity.Binding.{claim_binding-create_binding}

abbrev no_bindings : Bindings
no_bindings = record { dynamic = []; pending = []; claimed = [] }

abbrev resolver : Resolver
resolver = record {
  spec = record {
    enabled = true;
    unified_user_episodes = true;
    default_user_id = none;
    bindings = [];
  };
  now_bound = no_bindings;
  saved = no_bindings;
}

abbrev on_web : Envelope
on_web = record envelope { channel = some "web"; user_id = none; sender_id = some "s1" }

abbrev on_phone : Envelope
on_phone = record envelope {
  channel = some "feishu";
  user_id = none;
  chat_id = none;
  account_id = none;
  sender_id = some "s2";
}

claim_binding-create_binding_example :
    let m = create_binding 5 "AB12" "user_1" 10 on_web resolver in
    let c = claim_binding 30 " ab12" on_phone m.1 in
    (c.0 ≡ some m.0)
    × ((resolve c.1 on_phone).user_id ≡ some m.0.user_id)
    × ((resolve (load_state 90 c.1) on_phone).user_id ≡ some m.0.user_id)
    × (claim_binding 90 " ab12" on_web c.1 ≡ (none, c.1))
unfolding candidate_keys upper strip lstrip rstrip is_space
claim_binding-create_binding_example =
    claim_binding-create_binding 5 30 90 "AB12" "user_1" " ab12" "feishu:sender:s2"
      ("sender:s2" ∷ []) 10 on_web on_phone on_web resolver refl refl (ground arith) refl refl refl

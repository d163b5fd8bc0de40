-- ===== src/Gateway/Identity.antt =====
-- IdentityResolver, src/hey_robot/gateway/identity.py. Its state file is what it last saved; a
-- restart reads it. The codes and user ids that it draws, and the time, are arguments.
pub mod Binding
use xbotics_hey_robot.Prelude.{
  ℕ, ◌+◌, String, Bool, true, false, not, ◌&&◌, ◌||◌, Option, none, some, List, [], ◌∷◌, ◌++◌,
  is_some, if◌then◌else◌, ltb, leb, ◌==◌, or_else, keep, any,
}
use xbotics_hey_robot.Prelude.Dict.{lookup, insert, pop}
use xbotics_hey_robot.Prelude.Text.{concat, strip, truthy_text, upper}
use xbotics_hey_robot.Protocol.{Envelope}

pub record IdentitySpec : Type 0 where
  pub enabled : Bool
  pub unified_user_episodes : Bool
  pub default_user_id : Option String
  pub bindings : List (String × String)

pub record IdentityResolution : Type 0 where
  pub user_id : Option String
  pub matched_key : Option String

pub record PendingBinding : Type 0 where
  pub code : String
  pub user_id : String
  pub source_channel : String
  pub source_sender_id : Option String
  pub source_chat_id : Option String
  pub created_at : ℕ
  pub expires_at : ℕ

pub record ClaimedBinding : Type 0 where
  pub binding : PendingBinding
  pub target_channel : String
  pub target_sender_id : Option String
  pub target_chat_id : Option String
  pub claimed_at : ℕ

-- The dictionaries, which are also what the state file holds.
pub record Bindings : Type 0 where
  pub dynamic : List (String × String)
  pub pending : List (String × PendingBinding)
  pub claimed : List (String × ClaimedBinding)

pub record Resolver : Type 0 where
  pub spec : IdentitySpec
  pub now_bound : Bindings
  pub saved : Bindings

-- `str(text or "").strip()`, and the same with `or None`
abbrev pub plain : Option String → String
plain text = strip (or_else text "")

abbrev pub or_none : String → Option String
or_none text = if truthy_text text then some text else none

abbrev pub key_of : String → String → String → List String → List String
key_of channel kind id rest =
    if truthy_text channel && truthy_text id
    then concat channel (concat ":" (concat kind (concat ":" id))) ∷ rest
    else rest

abbrev pub bare_key_of : String → String → List String → List String
bare_key_of kind id rest = if truthy_text id then concat kind (concat ":" id) ∷ rest else rest

unfoldable pub candidate_keys : Envelope → List String
unfolding strip
candidate_keys e =
    let channel = plain e.channel in
    let account = plain e.account_id in
    let sender = plain e.sender_id in
    let chat = plain e.chat_id in
    key_of channel "sender" sender (
      key_of channel "chat" chat (
        key_of channel "account" account (
          bare_key_of "sender" sender
            (bare_key_of "chat" chat (bare_key_of "account" account [])))))

-- `self._dynamic_bindings.get(key) or self._static_bindings.get(key)`, where it is a user id.
unfoldable pub bound_user : Resolver → String → Option String
unfolding lookup
bound_user r key = elim (lookup key r.now_bound.dynamic) [
  | some user ↦ if truthy_text user then some user else static_user r key
  | none ↦ static_user r key
]
  where
    static_user : Resolver → String → Option String
    static_user r key = elim (lookup key r.spec.bindings) [ some user ↦ or_none user | none ↦ none ]

unfoldable pub first_bound : Resolver → List String → Option IdentityResolution
unfolding bound_user
first_bound r [] = none
first_bound r (key ∷ keys) =
    let later = first_bound r keys in
    elim (bound_user r key) [
      | some user ↦ some (record { user_id = some user; matched_key = some key })
      | none ↦ later
    ]

abbrev pub default_resolution : IdentitySpec → IdentityResolution
default_resolution spec =
    let user = or_none (plain spec.default_user_id) in
    record {
      user_id = user;
      matched_key = if is_some user then some "identity.default_user_id" else none;
    }

unfoldable pub resolve : Resolver → Envelope → IdentityResolution
unfolding first_bound candidate_keys strip
resolve r e =
    let explicit = plain e.user_id in
    if truthy_text explicit
    then record { user_id = some explicit; matched_key = some "envelope.user_id" }
    else if not r.spec.enabled
    then record { user_id = none; matched_key = none }
    else or_else (first_bound r (candidate_keys e)) (default_resolution r.spec)

unfoldable pub bind_keys : List String → String → List (String × String) → List (String × String)
unfolding insert
bind_keys [] user d = d
bind_keys (key ∷ keys) user d = bind_keys keys user (insert key user d)

-- `_bind_envelope`
abbrev pub bind_envelope : Envelope → String → Bindings → Bindings
bind_envelope e user b = record b { dynamic = bind_keys (candidate_keys e) user b.dynamic }

-- `PendingBinding.expired`
abbrev pub is_expired : ℕ → PendingBinding → Bool
is_expired now b = leb b.expires_at now

abbrev pub unexpired : ℕ → List (String × PendingBinding) → List (String × PendingBinding)
unexpired now [] = []
unexpired now ((code, b) ∷ rest) =
    if is_expired now b then unexpired now rest else (code, b) ∷ unexpired now rest

-- `_save_state`, and `_load_state` by a new process
abbrev pub save_state : ℕ → Bindings → Resolver → Resolver
save_state now b r = record r {
  now_bound = b;
  saved = record b { pending = unexpired now b.pending };
}

unfoldable pub load_state : ℕ → Resolver → Resolver
load_state now r = record r {
  now_bound = record r.saved { pending = unexpired now r.saved.pending };
}

unfoldable pub create_binding :
    ℕ → String → String → ℕ → Envelope → Resolver → PendingBinding × Resolver
unfolding resolve bind_keys candidate_keys insert
create_binding now code new_user ttl e r =
    let user = or_else (resolve r e).user_id new_user in
    let binding : PendingBinding = record {
      code = code;
      user_id = user;
      source_channel = elim e.channel [
        | some channel ↦ if truthy_text channel then channel else "web"
        | none ↦ "web"
      ];
      source_sender_id = or_none (plain e.sender_id);
      source_chat_id = or_none (plain e.chat_id);
      created_at = now;
      expires_at = now + (if ltb ttl 30 then 30 else ttl);
    } in
    let bound = bind_envelope e user r.now_bound in
    (binding, save_state now (record bound { pending = insert code binding bound.pending }) r)

abbrev pub forget : ℕ → PendingBinding → Resolver → Resolver
forget now b r = save_state now (record r.now_bound { pending = pop b.code r.now_bound.pending }) r

unfoldable pub claim_found :
    ℕ → PendingBinding → Envelope → Resolver → Option PendingBinding × Resolver
unfolding bind_keys candidate_keys insert pop
claim_found now b e r =
    if is_expired now b
    then (none, forget now b r)
    else let bound = bind_envelope e b.user_id r.now_bound in
      let claim : ClaimedBinding = record {
        binding = b;
        target_channel = or_else e.channel "";
        target_sender_id = or_none (plain e.sender_id);
        target_chat_id = or_none (plain e.chat_id);
        claimed_at = now;
      } in
      (
        some b,
        save_state now
            (record bound {
              claimed = insert b.code claim bound.claimed;
              pending = pop b.code bound.pending;
            })
            r,
      )

unfoldable pub claim_binding : ℕ → String → Envelope → Resolver → Option PendingBinding × Resolver
unfolding claim_found lookup strip upper
claim_binding now code e r = elim (lookup (upper (strip code)) r.now_bound.pending) [
  | none ↦ (none, r)
  | some b ↦ claim_found now b e r
]

pub data BindingStatus : Type 0 where
  waiting : PendingBinding → BindingStatus
  done : ClaimedBinding → BindingStatus
  unknown : BindingStatus

abbrev pub claimed_status : Option ClaimedBinding → BindingStatus
claimed_status none = BindingStatus.unknown
claimed_status (some c) = done c

unfoldable pub binding_status : ℕ → String → Resolver → BindingStatus × Resolver
unfolding lookup strip upper pop
binding_status now code r = elim (lookup (upper (strip code)) r.now_bound.pending) [
  | none ↦ (claimed_status (lookup (upper (strip code)) r.now_bound.claimed), r)
  | some b ↦ if is_expired now b then (BindingStatus.unknown, forget now b r) else (waiting b, r)
]

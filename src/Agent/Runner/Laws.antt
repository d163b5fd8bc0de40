-- ===== src/Agent/Runner/Laws.antt =====
-- What a decision of the runner can be.
use xbotics_hey_robot.Prelude.{
  ℕ, ◌≤◌, ◌≡◌, refl, String, true, false, none, some, List, [], ◌∷◌, arith, if◌then◌else◌, ◌==◌,
  ltb, leb, ◌-◌, Bool-cases, Option-cases, inl, inr,
}
use xbotics_hey_robot.Prelude.Result.{Result, ok, raise}
use xbotics_hey_robot.Prelude.Text.{has, strip, truthy_text}
use xbotics_hey_robot.Prelude.Value.{Fields}
use xbotics_hey_robot.Tasks.Rows.{Store}
use xbotics_hey_robot.Tasks.Coordinator.{is_nil}
use xbotics_hey_robot.Tools.Schema.{Python}
use xbotics_hey_robot.Tools.Calls.{PreparedCall, PrepareError, Registry, prepare}
use xbotics_hey_robot.Agent.Messages.{ModelToolCall, ModelResponse, Reply, Chat}
use xbotics_hey_robot.Agent.Runner.{
  AgentTurnRequest, AgentTurnResult, AgentToolCallRecord, TurnStatus, allowed_definitions,
  call_record, proposed, read_call, read_text, read_calls, content_of, read_response, read_reply,
  run,
}

module _ (py : Python) (prepare_text : PrepareError → String) (registry : Registry) where
  -- The call behind a proposal.
  abbrev pub IsProposal : List String → List ModelToolCall → AgentTurnResult → PreparedCall → Type 0
  IsProposal allowed calls r p =
      (call : ModelToolCall) × (calls ≡ call ∷ [])
      × (has allowed call.name ≡ true)
      × (prepare py registry call.name call.arguments ≡ ok p)
      × (r.tool_calls ≡ call_record call ∷ [])
      × (r.status ≡ TurnStatus.action_proposed)

  proposed-proposal :
      (call : AgentToolCallRecord) (usage : Fields) (m : Result PrepareError PreparedCall)
      {p : PreparedCall}
      → (proposed py prepare_text registry call usage m).proposal ≡ some p
      → (m ≡ ok p)
        × ((proposed py prepare_text registry call usage m).tool_calls ≡ call ∷ [])
        × ((proposed py prepare_text registry call usage m).status ≡ TurnStatus.action_proposed)
  proposed-proposal call usage (raise e) h = absurd (ground arith)
  proposed-proposal call usage (ok q) h = (ground (arith, h), refl, refl)

  read_call-IsProposal :
      (allowed : List String) (call : ModelToolCall) (usage : Fields) {p : PreparedCall}
      → (read_call py prepare_text registry allowed call usage).proposal ≡ some p
      → IsProposal allowed (call ∷ []) (read_call py prepare_text registry allowed call usage) p
  read_call-IsProposal allowed call usage {p = p} h = elim (Bool-cases (has allowed call.name)) [
    | inr unknown ↦ absurd (ground (arith, h, unknown))
    | inl known ↦
        let m = prepare py registry call.name call.arguments in
        let found =
          proposed-proposal (call_record call) usage m {p = p} (ground (arith, h, known)) in
        (call, refl, known, found.0, ground (arith, known, found.1), ground (arith, known, found.2))
  ]

  read_text_silent :
      (text : String) (usage : Fields)
      → (read_text py prepare_text registry text usage).proposal ≡ none
  read_text_silent text usage = elim (Bool-cases (truthy_text text)) [
    | inl said ↦ ground (arith, said)
    | inr empty ↦ ground (arith, empty)
  ]

  read_calls-IsProposal :
      (allowed : List String) (response : ModelResponse) (calls : List ModelToolCall)
      {p : PreparedCall}
      → (read_calls py prepare_text registry allowed response calls).proposal ≡ some p
      → IsProposal allowed calls (read_calls py prepare_text registry allowed response calls) p
  read_calls-IsProposal allowed response [] h =
      absurd (ground (arith, h, read_text_silent (strip (content_of response)) response.usage))
  read_calls-IsProposal allowed response (call ∷ []) h =
      read_call-IsProposal allowed call response.usage h
  read_calls-IsProposal allowed response (call ∷ other ∷ rest) h = absurd (ground (arith, h))

  read_response-IsProposal :
      (allowed : List String) (response : ModelResponse) {p : PreparedCall}
      → (read_response py prepare_text registry allowed response).proposal ≡ some p
      → IsProposal allowed response.tool_calls
          (read_response py prepare_text registry allowed response)
          p
  unfolding read_response
  read_response-IsProposal allowed response {p = p} h =
      elim (Bool-cases (response.finish_reason == "error")) [
        | inl broken ↦ absurd (ground (arith, h, broken))
        | inr whole ↦
            rw (whole, read_response)
              (read_calls-IsProposal allowed response response.tool_calls
                (ground (arith, h, whole)))
      ]

  read_reply-IsProposal :
      (allowed : List String) (reply : Reply) {p : PreparedCall}
      → (read_reply py prepare_text registry allowed reply).proposal ≡ some p
      → (response : ModelResponse) × (reply ≡ Reply.answered response)
        × IsProposal allowed response.tool_calls
            (read_reply py prepare_text registry allowed reply)
            p
  read_reply-IsProposal allowed (Reply.answered response) h =
      (response, refl, read_response-IsProposal allowed response h)
  read_reply-IsProposal allowed Reply.timed_out h = absurd (ground (arith, h))
  read_reply-IsProposal allowed (Reply.failed text) h = absurd (ground (arith, h))

  abbrev pub time_left : AgentTurnRequest → ℕ → ℕ
  time_left request sent = let left = request.deadline - sent in if ltb left 1 then 1 else left

  -- A request with messages, known tools and time goes to the model.
  pub run-asks :
      (chat : Chat) (checked sent : ℕ) (request : AgentTurnRequest) (s : Store)
      {tools : List Fields}
      → is_nil request.messages ≡ false
      → allowed_definitions registry request.allowed_tools ≡ some tools
      → leb request.deadline checked ≡ false
      → let m = chat request.messages tools (time_left request sent) s in
        run py prepare_text registry chat checked sent request s
        ≡ (m.0, read_reply py prepare_text registry request.allowed_tools m.1)
  unfolding run
  run-asks chat checked sent request s filled known early = ground (arith, filled, known, early)

  -- A proposal is never made up: the runner asked the model with the definitions of the allowed tools
  -- and a time left, the model answered with one call and no other, the call is of an allowed tool,
  -- and the proposal is what the registry prepared from its arguments.
  pub run-proposal :
      (chat : Chat) (checked sent : ℕ) (request : AgentTurnRequest) (s : Store) {p : PreparedCall}
      → let (s', r) = run py prepare_text registry chat checked sent request s in
        r.proposal ≡ some p
        → (response : ModelResponse) × (tools : List Fields) × (left : ℕ) × (allowed_definitions
              registry request.allowed_tools
            ≡ some tools)
          × (1 ≤ left)
          × (chat request.messages tools left s ≡ (s', Reply.answered response))
          × IsProposal request.allowed_tools response.tool_calls r p
  unfolding run
  run-proposal chat checked sent request s {p = p} h = elim (Bool-cases (is_nil request.messages)) [
    | inl bare ↦ absurd (ground (arith, h, bare))
    | inr filled ↦ elim (Option-cases (allowed_definitions registry request.allowed_tools)) [
      | inl strange ↦ absurd (ground (arith, h, filled, strange))
      | inr (tools, known) ↦ elim (Bool-cases (leb request.deadline checked)) [
        | inl late ↦ absurd (ground (arith, h, filled, known, late))
        | inr early ↦
            let m = chat request.messages tools (time_left request sent) s in
            let asked = run-asks chat checked sent request s filled known early in
            let (response, answer, behind) =
              read_reply-IsProposal request.allowed_tools m.1 {p = p} (ground (arith, h, asked)) in
            rw asked (
              response,
              tools,
              time_left request sent,
              known,
              ground arith,
              ground (arith, answer),
              behind,
            )
      ]
    ]
  ]

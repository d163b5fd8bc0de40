-- ===== src/Gateway/Turns/Emergency.antt =====
-- What becomes of a turn whose text is an emergency stop.
use xbotics_hey_robot.Prelude.{
  ℕ, ◌≡◌, refl, subst, sym, ap, ◌∙◌, String, true, false, none, some, List, [], ◌∷◌, ◌++◌, map,
  arith, any, ◌==◌, eq_refl,
}
use xbotics_hey_robot.Prelude.Text.{has, lower}
use xbotics_hey_robot.Protocol.{Envelope}
use xbotics_hey_robot.Gateway.Receipts.{
  Receipt, has_interaction_id, new_receipt, complete_receipt, receipt_status_of, ReceiptStatus,
}
use xbotics_hey_robot.Gateway.Turns.Compact.{unspaced, compact_text-unspaced}
use xbotics_hey_robot.Gateway.Turns.{
  UserTurn, Message, ControlAction, Host, Gateway, safety_command, compact_text, drop_blanks,
  emergency_words, route_turn, interaction_of, on_user_turn, session_key, reason_of,
}

completed_one :
    (now : ℕ) (id kind : String) (r : Receipt)
    → (r.interaction_id == id) ≡ true
    → receipt_status_of id (complete_receipt now id kind (r ∷ [])) ≡ some ReceiptStatus.completed
completed_one now id kind r same =
    let r' : Receipt = record r {
      receipt_status = ReceiptStatus.completed;
      result_kind = some kind;
      completed_at = some now;
    } in
    let written : complete_receipt now id kind (r ∷ []) ≡ r' ∷ [] = rw same refl in
    let read : receipt_status_of id (r' ∷ []) ≡ some ReceiptStatus.completed =
      ground (arith, same) in
    ap (receipt_status_of id) written ∙ read

skipped :
    (id : String) (x : Receipt) (rs : List Receipt)
    → (x.interaction_id == id) ≡ false
    → receipt_status_of id (x ∷ rs) ≡ receipt_status_of id rs
skipped id x rs other = ground (arith, other)

completed_last :
    (now : ℕ) (id kind : String) (rs : List Receipt) (r : Receipt)
    → r.interaction_id ≡ id
    → any (has_interaction_id id) rs ≡ false
    → (receipt_status_of id (complete_receipt now id kind (rs ++ r ∷ []))
        ≡ some ReceiptStatus.completed)
      × (any (has_interaction_id id) (complete_receipt now id kind (rs ++ r ∷ [])) ≡ true)
completed_last now id kind [] r own fresh =
    let same : (r.interaction_id == id) ≡ true = ground (arith, own, eq_refl id) in
    (completed_one now id kind r same, rw same (ground (arith, same)))
completed_last now id kind (x ∷ rs) r own fresh =
    let other : (x.interaction_id == id) ≡ false = ground (arith, fresh) in
    let later : any (has_interaction_id id) rs ≡ false = ground (arith, fresh) in
    let rest = completed_last now id kind rs r own later in
    rw other (
      skipped id x (complete_receipt now id kind (rs ++ r ∷ [])) other ∙ rest.0,
      ground (arith, other, rest.1),
    )

-- The words for an emergency stop, without white space.
abbrev pub stop_words : List String
stop_words = "emergencystop" ∷ "e-stop" ∷ "estop" ∷ "急停" ∷ "紧急停止" ∷ []

stop_words-emergency :
    (said : String) → has stop_words said ≡ true → has (map drop_blanks emergency_words) said ≡ true
unfolding drop_blanks has
stop_words-emergency said h = ground (arith, h)

emergency-command :
    (text : String)
    → has stop_words (unspaced (lower text)) ≡ true
    → safety_command text ≡ some ControlAction.emergency_stop
unfolding safety_command
emergency-command text said =
    let known : has (map drop_blanks emergency_words) (compact_text text) ≡ true =
      stop_words-emergency (compact_text text)
        (ap (has stop_words) (compact_text-unspaced text) ∙ said) in
    rw (known, safety_command) refl

on_user_turn-seen :
    (h : Host) (now : ℕ) (trace_id : String) (t : UserTurn) (g : Gateway)
    → h.binding_code t.text ≡ none
    → any (has_interaction_id (interaction_of h trace_id g.identity t).0) g.receipts ≡ true
    → on_user_turn h now trace_id t g ≡ g
unfolding on_user_turn
on_user_turn-seen h now trace_id t g plain seen = rw (plain, on_user_turn, seen) refl

on_user_turn-new :
    (h : Host) (now : ℕ) (trace_id : String) (t : UserTurn) (g : Gateway)
    → h.binding_code t.text ≡ none
    → let i = interaction_of h trace_id g.identity t in
      any (has_interaction_id i.0) g.receipts ≡ false
      → on_user_turn h now trace_id t g
        ≡ route_turn h now i.1 i.0 t
            (record g { receipts = g.receipts ++ new_receipt now i.0 i.2 ∷ [] })
unfolding on_user_turn
on_user_turn-new h now trace_id t g plain fresh = rw (plain, on_user_turn, fresh) refl

route_turn-command :
    (h : Host) (now : ℕ) (e : Envelope) (id : String) (t : UserTurn) (g : Gateway)
    (action : ControlAction)
    → safety_command t.text ≡ some action
    → let g' = route_turn h now e id t g in
      (g'.published
        ≡ g.published
          ++ Message.agent_control e (session_key h g.identity e) id action (reason_of action) ∷ [])
      × (g'.receipts ≡ complete_receipt now id "safety_command" g.receipts)
      × (g'.identity ≡ g.identity)
unfolding route_turn
route_turn-command h now e id t g action said = rw (said, route_turn) (refl, refl, refl)

-- A turn that is no binding command, and whose text, in lower case and without any of its white
-- space, is "emergencystop", "e-stop", "estop", "急停" or "紧急停止", is published by a gateway that has no receipt of it as one control
-- that stops the robot; its receipt is then completed, and when the turn is delivered again under
-- the same trace nothing changes.
pub on_user_turn-emergency :
    (h : Host) (now later : ℕ) (trace_id : String) (t : UserTurn) (g : Gateway)
    → h.binding_code t.text ≡ none
    → has stop_words (unspaced (lower t.text)) ≡ true
    → any (has_interaction_id (interaction_of h trace_id g.identity t).0) g.receipts ≡ false
    → let i = interaction_of h trace_id g.identity t in
      let g' = on_user_turn h now trace_id t g in
      (g'.published
        ≡ g.published
          ++ Message.agent_control i.1
              (session_key h g.identity i.1)
              i.0
              ControlAction.emergency_stop
              "gateway emergency stop"
            ∷ [])
      × (receipt_status_of i.0 g'.receipts ≡ some ReceiptStatus.completed)
      × (on_user_turn h later trace_id t g' ≡ g')
on_user_turn-emergency h now later trace_id t g plain said fresh =
    let i = interaction_of h trace_id g.identity t in
    let r = new_receipt now i.0 i.2 in
    let claimed : Gateway = record g { receipts = g.receipts ++ r ∷ [] } in
    let routed = route_turn h now i.1 i.0 t claimed in
    let first : on_user_turn h now trace_id t g ≡ routed =
      on_user_turn-new h now trace_id t g plain fresh in
    let facts =
      route_turn-command h now i.1 i.0 t claimed ControlAction.emergency_stop
        (emergency-command t.text said) in
    let done = completed_last now i.0 "safety_command" g.receipts r refl fresh in
    let known : any (has_interaction_id (interaction_of h trace_id routed.identity t).0)
          routed.receipts
        ≡ true =
      ap (λ k. any (has_interaction_id (interaction_of h trace_id k t).0) routed.receipts) facts.2
      ∙ ap (any (has_interaction_id i.0)) facts.1
      ∙ done.1 in
    subst
      (λ g'.
        (g'.published
          ≡ g.published
            ++ Message.agent_control i.1 (session_key h g.identity i.1) i.0
                ControlAction.emergency_stop "gateway emergency stop"
              ∷ [])
        × (receipt_status_of i.0 g'.receipts ≡ some ReceiptStatus.completed)
        × (on_user_turn h later trace_id t g' ≡ g'))
      (sym first)
      (
        facts.0,
        ap (receipt_status_of i.0) facts.1 ∙ done.0,
        on_user_turn-seen h later trace_id t routed plain known,
      )

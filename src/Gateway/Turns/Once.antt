-- ===== src/Gateway/Turns/Once.antt =====
-- How often a turn that the channels deliver again and again is passed on.
use xbotics_hey_robot.Prelude.{
  ℕ, ◌+◌, ◌≤◌, ◌≡◌, refl, sym, ap, ◌∙◌, String, Bool, false, some, List, [], ◌∷◌, ◌++◌, map, arith,
  any, count_where, count_where-append, any_false→count_where, ◌==◌, if◌then◌else◌, or_else,
  Bool-cases, Option-cases, eq_iff, inl, inr,
}
use xbotics_hey_robot.Gateway.Receipts.{Receipt, has_interaction_id, new_receipt, complete_receipt}
use xbotics_hey_robot.Gateway.Turns.{
  UserTurn, Message, Host, Gateway, safety_command, binding_turn, route_turn, interaction_of,
  on_user_turn, session_key, episode_dimensions, kind_of, reason_of,
}
use xbotics_hey_robot.Episodes.{allocate_episode}
use xbotics_hey_robot.Protocol.{Envelope}

abbrev pub message_id : Message → String
message_id (Message.conversation_turn e key id text kind) = id
message_id (Message.agent_control e key id action reason) = id

abbrev pub receipt_id : Receipt → String
receipt_id r = r.interaction_id

abbrev pub is_of : String → Message → Bool
is_of id m = message_id m == id

-- A delivery: the time, the trace id to draw, and the turn.
unfoldable pub run_turns : Host → List (ℕ × String × UserTurn) → Gateway → Gateway
unfolding on_user_turn
run_turns h [] g = g
run_turns h ((now, trace_id, t) ∷ turns) g = run_turns h turns (on_user_turn h now trace_id t g)

-- The messages are those of the receipts, one for each, in the order of the claims.
pub record IsOnce (g : Gateway) : Type 0 where
  pub routed : map message_id g.published ≡ map receipt_id g.receipts
  pub once : (id : String) → count_where (is_of id) g.published ≤ 1

map-append {ℓ κ} :
    {A : Type ℓ} {B : Type κ} (f : A → B) (xs ys : List A) → map f (xs ++ ys) ≡ map f xs ++ map f ys
map-append f [] ys = refl
map-append f (x ∷ xs) ys = ap (λ l. f x ∷ l) (map-append f xs ys)

complete_receipt-ids :
    (now : ℕ) (id kind : String) (rs : List Receipt)
    → map receipt_id (complete_receipt now id kind rs) ≡ map receipt_id rs
complete_receipt-ids now id kind [] = refl
complete_receipt-ids now id kind (r ∷ rs) = elim (Bool-cases (has_interaction_id id r)) [
  | inl own ↦ rw own (ap (λ l. receipt_id r ∷ l) (complete_receipt-ids now id kind rs))
  | inr other ↦ rw other (ap (λ l. receipt_id r ∷ l) (complete_receipt-ids now id kind rs))
]

count_where-map {ℓ κ} :
    {A : Type ℓ} {B : Type κ} (f : A → B) (p : B → Bool) (xs : List A)
    → count_where (λ x. p (f x)) xs ≡ count_where p (map f xs)
count_where-map f p [] = refl
count_where-map f p (x ∷ xs) = ap (λ n. (if p (f x) then 1 else 0) + n) (count_where-map f p xs)

counted_alike :
    (id : String) (ms : List Message) (rs : List Receipt)
    → map message_id ms ≡ map receipt_id rs
    → count_where (is_of id) ms ≡ count_where (has_interaction_id id) rs
counted_alike id ms rs h =
    count_where-map message_id (λ x. x == id) ms
    ∙ ap (count_where (λ x. x == id)) h
    ∙ sym (count_where-map receipt_id (λ x. x == id) rs)

published_more :
    (g : Gateway) (m : Message) (rs : List Receipt)
    → any (has_interaction_id (message_id m)) g.receipts ≡ false
    → map receipt_id rs ≡ map receipt_id g.receipts ++ message_id m ∷ []
    → IsOnce g
    → (map message_id (g.published ++ m ∷ []) ≡ map receipt_id rs)
      × ((id : String) → count_where (is_of id) (g.published ++ m ∷ []) ≤ 1)
published_more g m rs fresh ids h = (
  map-append message_id g.published (m ∷ []) ∙ ap (λ l. l ++ message_id m ∷ []) h.routed ∙ sym ids,
  λ id. elim (Bool-cases (is_of id m)) [
    | inl own ↦
        let same : message_id m ≡ id = ground (arith, own, eq_iff (message_id m) id) in
        let unseen : any (has_interaction_id id) g.receipts ≡ false =
          ap (λ k. any (has_interaction_id k) g.receipts) (sym same) ∙ fresh in
        ground (
          arith,
          own,
          count_where-append (is_of id) g.published (m ∷ []),
          counted_alike id g.published g.receipts h.routed,
          any_false→count_where (has_interaction_id id) g.receipts unseen,
        )
    | inr other ↦
        ground (arith, other, count_where-append (is_of id) g.published (m ∷ []), h.once id)
  ],
)

route_turn-IsOnce :
    (h : Host) (now : ℕ) (e : Envelope) (id : String) (t : UserTurn) (g : Gateway)
    (rs : List Receipt)
    → any (has_interaction_id id) g.receipts ≡ false
    → map receipt_id rs ≡ map receipt_id g.receipts ++ id ∷ []
    → IsOnce g
    → IsOnce (route_turn h now e id t (record g { receipts = rs }))
unfolding route_turn
route_turn-IsOnce h now e id t g rs fresh ids k = elim (Option-cases (safety_command t.text)) [
  | inr (action, said) ↦
      let more =
        published_more g
          (Message.agent_control e (session_key h g.identity e) id action (reason_of action))
          (complete_receipt now id "safety_command" rs) fresh
          (complete_receipt-ids now id "safety_command" rs ∙ ids) k in
      rw (said, route_turn) (record { routed = more.0; once = more.1 })
  | inl plain ↦
      let in_episode = record e {
        episode_id =
            some
              (allocate_episode h.digest e (or_else e.agent_id "")
                (episode_dimensions g.identity e)).episode_id;
      } in
      let more =
        published_more g
          (Message.conversation_turn in_episode (session_key h g.identity e) id t.text
            (kind_of t.intent))
          rs fresh ids k in
      rw (plain, route_turn) (record { routed = more.0; once = more.1 })
]

on_user_turn-IsOnce :
    (h : Host) (now : ℕ) (trace_id : String) (t : UserTurn) (g : Gateway)
    → IsOnce g
    → IsOnce (on_user_turn h now trace_id t g)
unfolding on_user_turn binding_turn
on_user_turn-IsOnce h now trace_id t g k = elim (Option-cases (h.binding_code t.text)) [
  | inr (code, said) ↦ rw (said, on_user_turn) (record { routed = k.routed; once = k.once })
  | inl plain ↦
      let i = interaction_of h trace_id g.identity t in
      elim (Bool-cases (any (has_interaction_id i.0) g.receipts)) [
        | inl seen ↦ rw (plain, on_user_turn, seen) k
        | inr fresh ↦
            rw (plain, on_user_turn, fresh)
              (route_turn-IsOnce h now i.1 i.0 t g (g.receipts ++ new_receipt now i.0 i.2 ∷ [])
                fresh (map-append receipt_id g.receipts (new_receipt now i.0 i.2 ∷ [])) k)
      ]
]

run_turns-from :
    (h : Host) (turns : List (ℕ × String × UserTurn)) (g : Gateway)
    → IsOnce g
    → IsOnce (run_turns h turns g)
unfolding run_turns
run_turns-from h [] g k = k
run_turns-from h ((now, trace_id, t) ∷ turns) g k =
    run_turns-from h turns (on_user_turn h now trace_id t g)
      (on_user_turn-IsOnce h now trace_id t g k)

-- Whatever turns the channels deliver, again or not, to a gateway without receipts that has published
-- nothing: the published messages are those of the receipts, one for each in the order of the claims,
-- and no interaction has two.
pub run_turns-IsOnce :
    (h : Host) (turns : List (ℕ × String × UserTurn)) (g : Gateway)
    → g.receipts ≡ []
    → g.published ≡ []
    → IsOnce (run_turns h turns g)
run_turns-IsOnce h turns g unclaimed silent = run_turns-from h turns g (record {
  routed = ap (map message_id) silent ∙ sym (ap (map receipt_id) unclaimed);
  once = λ id. ground (arith, silent);
})

-- ===== src/Gateway/Receipts.antt =====
-- InteractionReceiptStore, src/hey_robot/gateway/receipts.py: the rows of its table, which has one row
-- for each interaction id at most.
use xbotics_hey_robot.Prelude.{
  ℕ, String, Bool, true, false, Option, none, some, List, [], ◌∷◌, ◌++◌, any, update_where, find,
  if◌then◌else◌, ◌==◌,
}

pub data ReceiptStatus : Type 0 where
  processing completed : ReceiptStatus

pub record Receipt : Type 0 where
  pub interaction_id : String
  pub payload_hash : String
  pub receipt_status : ReceiptStatus
  pub result_kind : Option String
  pub created_at : ℕ
  pub completed_at : Option ℕ

abbrev pub has_interaction_id : String → Receipt → Bool
has_interaction_id id r = r.interaction_id == id

abbrev pub new_receipt : ℕ → String → String → Receipt
new_receipt now id payload_hash = record {
  interaction_id = id;
  payload_hash = payload_hash;
  receipt_status = processing;
  result_kind = none;
  created_at = now;
  completed_at = none;
}

abbrev pub claim : ℕ → String → String → List Receipt → Bool × List Receipt
claim now id payload_hash receipts =
    if any (has_interaction_id id) receipts
    then (false, receipts)
    else (true, receipts ++ new_receipt now id payload_hash ∷ [])

abbrev pub complete_receipt : ℕ → String → String → List Receipt → List Receipt
complete_receipt now id kind receipts =
    update_where (has_interaction_id id)
      (λ r. record r {
        receipt_status = completed;
        result_kind = some kind;
        completed_at = some now;
      })
      receipts

abbrev pub receipt_status_of : String → List Receipt → Option ReceiptStatus
receipt_status_of id receipts = elim (find (has_interaction_id id) receipts) [
  | some r ↦ some r.receipt_status
  | none ↦ none
]

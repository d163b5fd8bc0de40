-- ===== src/Agent/Context/Recent.antt =====
-- What a conversation shows after it was added to.
use xbotics_hey_robot.Prelude.{
  ℕ, suc, ◌+◌, ◌≤◌, ◌≡◌, ◌≢◌, refl, String, List, [], ◌∷◌, ◌++◌, keep, keep-append, take, arith,
  All, eq_iff, eq_refl, Bool-cases, inl, inr,
}
use xbotics_hey_robot.Prelude.Sort.{order_by, order_by-last}
use xbotics_hey_robot.Agent.Messages.{Role, message}
use xbotics_hey_robot.Agent.Context.{
  MessageRow, in_session, last_position, append, message_of_row, recent, max,
}
use mathlib.Core.List as Lists

abbrev IsBelow : ℕ → MessageRow → Type 0
IsBelow n r = r.position ≤ n

IsBelow-mono :
    (m n : ℕ) (rows : List MessageRow) → m ≤ n → All (IsBelow m) rows → All (IsBelow n) rows
IsBelow-mono m n [] h k = tt
IsBelow-mono m n (r ∷ rows) h k = (omega arith, IsBelow-mono m n rows h k.1)

keep-IsBelow :
    (session : String) (rows : List MessageRow)
    → All (IsBelow (last_position session rows)) (keep (in_session session) rows)
unfolding last_position
keep-IsBelow session [] = tt
keep-IsBelow session (r ∷ rows) = elim (Bool-cases (in_session session r)) [
  | inr other ↦ rw (other, last_position) (keep-IsBelow session rows)
  | inl own ↦
      let top = last_position session rows in
      rw (own, last_position)
        (
          ground arith,
          IsBelow-mono top (max r.position top) (keep (in_session session) rows) (ground arith)
              (keep-IsBelow session rows),
        )
]

-- A message that is added to a conversation is the last one that it shows, after those that it
-- showed before.
pub recent-append :
    (now : ℕ) (session : String) (role : Role) (content : String) (n : ℕ) (rows : List MessageRow)
    → recent session (suc n) (append now session role content rows)
      ≡ recent session n rows ++ message role content ∷ []
unfolding recent append
recent-append now session role content n rows =
    let row : MessageRow = record {
      session_key = session;
      position = last_position session rows + 1;
      role = role;
      content = content;
      created_at = now;
    } in
    let kept = keep (in_session session) rows in
    let sorted = order_by (λ r. r.position) kept in
    let shown : keep (in_session session) (rows ++ row ∷ []) ≡ kept ++ row ∷ [] =
      ground (arith, keep-append (in_session session) rows (row ∷ []), eq_refl session) in
    let last : order_by (λ r. r.position) (kept ++ row ∷ []) ≡ sorted ++ row ∷ [] =
      order_by-last (λ r. r.position) row kept
        (IsBelow-mono (last_position session rows) row.position kept (ground arith)
          (keep-IsBelow session rows)) in
    rw
      (
        shown,
        last,
        Lists.reverse-append sorted (row ∷ []),
        Lists.reverse-cons row (take n (Lists.reverse sorted)),
      )
      (Lists.map-append message_of_row (Lists.reverse (take n (Lists.reverse sorted))) (row ∷ []))

-- A message leaves the other conversations as they are.
pub recent-append_other :
    (now : ℕ) (session other : String) (role : Role) (content : String) (n : ℕ)
    (rows : List MessageRow)
    → session ≢ other
    → recent other n (append now session role content rows) ≡ recent other n rows
unfolding recent append
recent-append_other now session other role content n rows h =
    let row : MessageRow = record {
      session_key = session;
      position = last_position session rows + 1;
      role = role;
      content = content;
      created_at = now;
    } in
    let hidden : keep (in_session other) (rows ++ row ∷ []) ≡ keep (in_session other) rows =
      ground (
        arith,
        keep-append (in_session other) rows (row ∷ []),
        h,
        eq_iff session other,
        Lists.append-nil (keep (in_session other) rows),
      ) in
    rw hidden refl

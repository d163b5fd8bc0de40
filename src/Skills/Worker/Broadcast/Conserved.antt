-- ===== src/Skills/Worker/Broadcast/Conserved.antt =====
-- No event is lost unseen: what the projection makes of the events under any schedule.
use xbotics_hey_robot.Prelude.{
  ℕ, ◌+◌, ◌≤◌, ◌≡◌, ◌∙◌, refl, sym, subst, ap, Option-cases, List-cases, Bool, Option, none, some,
  List, [], ◌∷◌, ◌++◌, arith, length, length-append, Bool-cases, inl, inr,
}
use xbotics_hey_robot.Prelude.Bounded.{length-put_newest, newest-put_newest}
use xbotics_hey_robot.Skills.Models.{SkillEvent}
use xbotics_hey_robot.Skills.Worker.Broadcast.{
  queue_size, Projection, new_projection, enqueue_projection, take_event, settle_event,
}
use mathlib.Core.List as Lists

pub data Move : Type 0 where
  emitted : SkillEvent → Move
  taken : Move
  settled : Bool → Move

abbrev pub move : ℕ → Move → Projection → Projection
move size (Move.emitted e) p = enqueue_projection size e p
move size Move.taken p = take_event p
move size (Move.settled well) p = settle_event well p

unfoldable pub run_moves : ℕ → List Move → Projection → Projection
run_moves size [] p = p
run_moves size (m ∷ moves) p = run_moves size moves (move size m p)

-- The events that a schedule emits, in their order.
abbrev pub emissions : List Move → List SkillEvent
emissions [] = []
emissions (Move.emitted e ∷ moves) = e ∷ emissions moves
emissions (Move.taken ∷ moves) = emissions moves
emissions (Move.settled well ∷ moves) = emissions moves

abbrev pub flights : Option SkillEvent → ℕ
flights none = 0
flights (some e) = 1

-- After the events `es`: the queue is within its size, it holds the last ones of them in their order,
-- and every event was published or failed, was dropped, is in flight, or is queued.
pub record IsConserved (size : ℕ) (es : List SkillEvent) (p : Projection) : Type 0 where
  pub bounded : length p.queue ≤ size
  pub newest : (before : List SkillEvent) × (es ≡ before ++ p.queue)
  pub counted :
      p.published + p.failed + p.dropped + flights p.in_flight + length p.queue ≡ length es

enqueue_projection-IsConserved :
    (size : ℕ) (es : List SkillEvent) (e : SkillEvent) (p : Projection)
    → 1 ≤ size
    → IsConserved size es p
    → IsConserved size (es ++ e ∷ []) (enqueue_projection size e p)
unfolding enqueue_projection
enqueue_projection-IsConserved size es e p room h =
    let long = length-put_newest size e p.queue room h.bounded in
    let kept = newest-put_newest size e h.newest.0 p.queue in
    record {
      bounded = long.0;
      newest = (kept.0, ap (λ all. all ++ e ∷ []) h.newest.1 ∙ kept.1);
      counted = ground (arith, long.1, h.counted, length-append es (e ∷ []));
    }

take_event-IsConserved :
    (size : ℕ) (es : List SkillEvent) (p : Projection)
    → IsConserved size es p
    → IsConserved size es (take_event p)
unfolding take_event
take_event-IsConserved size es p h = elim (Option-cases p.in_flight) [
  | inr busy ↦ rw (busy.1, take_event) h
  | inl idle ↦ elim (List-cases p.queue) [
    | inl empty ↦ rw (idle, take_event, empty) h
    | inr front ↦
        let e = front.0 in
        let rest = front.1 in
        let queued : p.queue ≡ e ∷ rest = front.2 in
        rw (idle, take_event, queued)
          (record {
            bounded = ground (arith, queued, h.bounded);
            newest = (
              h.newest.0 ++ e ∷ [],
              h.newest.1
                  ∙ ap (λ q. h.newest.0 ++ q) queued
                  ∙ sym (Lists.append_assoc h.newest.0 (e ∷ []) rest),
            );
            counted = ground (arith, queued, idle, h.counted);
          })
  ]
]

settle_event-IsConserved :
    (size : ℕ) (es : List SkillEvent) (well : Bool) (p : Projection)
    → IsConserved size es p
    → IsConserved size es (settle_event well p)
unfolding settle_event
settle_event-IsConserved size es well p h = elim (Option-cases p.in_flight) [
  | inl idle ↦ rw (idle, settle_event) h
  | inr busy ↦
      let held = busy.1 in
      elim (Bool-cases well) [
        | inl right ↦
            rw (held, settle_event, right)
              (record {
                bounded = h.bounded;
                newest = h.newest;
                counted = ground (arith, held, h.counted);
              })
        | inr wrong ↦
            rw (held, settle_event, wrong)
              (record {
                bounded = h.bounded;
                newest = h.newest;
                counted = ground (arith, held, h.counted);
              })
      ]
]

move-IsConserved :
    (size : ℕ) (es : List SkillEvent) (m : Move) (p : Projection)
    → 1 ≤ size
    → IsConserved size es p
    → IsConserved size (es ++ emissions (m ∷ [])) (move size m p)
move-IsConserved size es (Move.emitted e) p room h =
    enqueue_projection-IsConserved size es e p room h
move-IsConserved size es Move.taken p room h =
    subst (λ all. IsConserved size all (take_event p)) (sym (Lists.append-nil es))
      (take_event-IsConserved size es p h)
move-IsConserved size es (Move.settled well) p room h =
    subst (λ all. IsConserved size all (settle_event well p)) (sym (Lists.append-nil es))
      (settle_event-IsConserved size es well p h)

emissions-cons :
    (es : List SkillEvent) (m : Move) (moves : List Move)
    → es ++ emissions (m ∷ []) ++ emissions moves ≡ es ++ emissions (m ∷ moves)
emissions-cons es (Move.emitted e) moves = Lists.append_assoc es (e ∷ []) (emissions moves)
emissions-cons es Move.taken moves = ap (λ all. all ++ emissions moves) (Lists.append-nil es)
emissions-cons es (Move.settled well) moves =
    ap (λ all. all ++ emissions moves) (Lists.append-nil es)

queue_size-pos : (n : ℕ) → 1 ≤ queue_size n
queue_size-pos n = ground arith

run_moves-from :
    (size : ℕ) (moves : List Move) (es : List SkillEvent) (p : Projection)
    → 1 ≤ size
    → IsConserved size es p
    → IsConserved size (es ++ emissions moves) (run_moves size moves p)
unfolding run_moves
run_moves-from size [] es p room h =
    subst (λ all. IsConserved size all p) (sym (Lists.append-nil es)) h
run_moves-from size (m ∷ moves) es p room h =
    subst (λ all. IsConserved size all (run_moves size moves (move size m p)))
      (emissions-cons es m moves)
      (run_moves-from size moves (es ++ emissions (m ∷ [])) (move size m p) room
        (move-IsConserved size es m p room h))

-- Whatever the schedule of emitted, taken and settled events, and whatever queue size is asked for:
-- the queue of the projection never exceeds its size, it holds the last of the events in their order,
-- and the counts of published, failed and dropped events with the one in flight and the queued ones
-- add up to the number of the events.
pub run_moves-IsConserved :
    (n : ℕ) (moves : List Move)
    → IsConserved (queue_size n) (emissions moves) (run_moves (queue_size n) moves new_projection)
run_moves-IsConserved n moves =
    run_moves-from (queue_size n) moves [] new_projection (queue_size-pos n)
      (record { bounded = ground arith; newest = ([], refl); counted = ground arith })

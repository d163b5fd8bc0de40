-- ===== src/Skills/Worker/Broadcast.antt =====
-- What `SkillWorker._emit` does with an event beside storing it, src/hey_robot/skills/worker.py: the
-- bounded queues of the subscribers, and the projection with its queue, its loop and its counts.
pub mod Conserved
use xbotics_hey_robot.Prelude.{
  ℕ, ◌+◌, Bool, true, false, Option, none, some, List, [], ◌∷◌, ◌++◌, map, drop, length,
  if◌then◌else◌, leb, ltb,
}
use xbotics_hey_robot.Prelude.Bounded.{is_full, put_newest}
use xbotics_hey_robot.Prelude.Result.{Result, ok, raise}
use xbotics_hey_robot.Skills.Models.{SkillEvent}
use xbotics_hey_robot.Runs.Files.{Run, RunError, Host, append_event}

-- `max(1, int(subscriber_queue_size))`
abbrev pub queue_size : ℕ → ℕ
queue_size n = if ltb n 1 then 1 else n

pub record Projection : Type 0 where
  pub queue : List SkillEvent
  pub in_flight : Option SkillEvent
  pub published : ℕ
  pub failed : ℕ
  pub dropped : ℕ

abbrev pub new_projection : Projection
new_projection = record { queue = []; in_flight = none; published = 0; failed = 0; dropped = 0 }

-- `_enqueue_projection`
unfoldable pub enqueue_projection : ℕ → SkillEvent → Projection → Projection
unfolding put_newest
enqueue_projection size e p = record p {
  queue = put_newest size e p.queue;
  dropped = if is_full size p.queue then p.dropped + 1 else p.dropped;
}

-- `_projection_loop`: it takes an event while it has none, and goes on when the projection of that
-- event ends, well or not.
unfoldable pub take_event : Projection → Projection
take_event p = elim p.in_flight [
  | some e ↦ p
  | none ↦ elim p.queue [ [] ↦ p | e ∷ rest ↦ record p { queue = rest; in_flight = some e } ]
]

unfoldable pub settle_event : Bool → Projection → Projection
settle_event well p = elim p.in_flight [
  | none ↦ p
  | some e ↦
      if well
      then record p { in_flight = none; published = p.published + 1 }
      else record p { in_flight = none; failed = p.failed + 1 }
]

pub record Outlets : Type 0 where
  pub subscribers : List (List SkillEvent)
  pub projection : Option Projection

unfoldable pub broadcast : ℕ → SkillEvent → Outlets → Outlets
unfolding put_newest enqueue_projection
broadcast size e o = record {
  subscribers = map (put_newest size e) o.subscribers;
  projection = elim o.projection [ none ↦ none | some p ↦ some (enqueue_projection size e p) ];
}

abbrev pub told_all :
    ℕ → Outlets → Result RunError SkillEvent × Run → Result RunError SkillEvent × Run × Outlets
told_all size o (raise x, run) = (raise x, run, o)
told_all size o (ok e, run) = (ok e, run, broadcast size e o)

-- `_emit`
unfoldable pub emit_to_all :
    Host → ℕ → SkillEvent → Run → Outlets → Result RunError SkillEvent × Run × Outlets
unfolding broadcast append_event
emit_to_all h size e run o = told_all size o (append_event h e run)

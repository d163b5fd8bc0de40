-- ===== src/Skills/Worker/Laws.antt =====
-- A command is accepted once, and a run that lost its task in a restart is ended once.
use xbotics_hey_robot.Prelude.{
  ℕ, ◌≡◌, String, true, false, Option, none, some, List, [], ◌∷◌, ◌++◌, arith, find, find-append,
  last?, eq_refl, eq_iff, ap, Option-cases, inl, inr,
}
use xbotics_hey_robot.Prelude.Result.{Result, ok, raise}
use xbotics_hey_robot.Skills.Models.{SkillResult, SkillCommand, SkillEvent}
use xbotics_hey_robot.Runs.Files.{Host, record_submission}
use xbotics_hey_robot.Runs.Recovery.{Decodes, IsTorn, run_with}
use xbotics_hey_robot.Skills.Worker.{
  Worker, conflicting_command, has_run_id, known_command, is_owned, is_ended, next_sequence,
  lost_event, submit_command,
}

-- A command, equal to itself, that an open worker accepts under a new run id joins its queue;
-- submitted again, it is accepted again, and neither the queue nor any file changes.
pub submit_command-again :
    (h : Host) (c : SkillCommand) (w : Worker)
    → h.same_command c c ≡ true
    → w.closed ≡ false
    → known_command c.run_id w ≡ none
    → let m = submit_command h c w in
      (m.0 ≡ ok c.run_id)
      × (m.1.queue ≡ w.queue ++ c ∷ [])
      × (submit_command h c m.1 ≡ (ok c.run_id, m.1))
unfolding submit_command record_submission
submit_command-again h c w same up new =
    elim (Option-cases (find (has_run_id c.run_id) w.pending)) [
      | inr (p, old) ↦ absurd (ground (arith, new, old))
      | inl fresh ↦ ground (
        arith,
        same,
        up,
        new,
        fresh,
        eq_refl c.run_id,
        find-append (has_run_id c.run_id) w.pending (c ∷ []),
      )
    ]

-- At an open worker that accepted a command under a new run id, a different command under that id
-- is refused, and nothing changes.
pub submit_command_conflict :
    (h : Host) (c d : SkillCommand) (w : Worker)
    → w.closed ≡ false
    → known_command c.run_id w ≡ none
    → d.run_id ≡ c.run_id
    → h.same_command c d ≡ false
    → let w' = (submit_command h c w).1 in submit_command h d w' ≡ (raise conflicting_command, w')
unfolding submit_command record_submission
submit_command_conflict h c d w up new same differs =
    elim (Option-cases (find (has_run_id c.run_id) w.pending)) [
      | inr (p, old) ↦ absurd (ground (arith, new, old))
      | inl fresh ↦ ground (
        arith,
        differs,
        up,
        new,
        fresh,
        same,
        eq_refl c.run_id,
        find-append (has_run_id d.run_id) w.pending (c ∷ []),
        eq_iff c.run_id d.run_id,
        ap (λ id. find (has_run_id id) w.pending) same,
      )
    ]

module _ (h : Host) (now : ℕ) (id : String) (w : Worker) (c : SkillCommand) (r : Option SkillResult)
    (lines : List String) (tail : String) (es : List SkillEvent)
    (on_disk : w.runs id ≡ run_with (some c) r lines tail) (k : Decodes h lines es)
    (torn : IsTorn h tail) (unowned : is_owned id w ≡ false)
    (going : is_ended (last? es) ≡ false) where
  -- The event that ends the run.
  abbrev pub end_event : SkillEvent
  end_event = lost_event now id (next_sequence (last? es)) c.envelope c.name

-- ===== src/Skills/Resources/Waiting.antt =====
-- Who waits, and for whom.
use xbotics_hey_robot.Prelude.{
  ◌≡◌, refl, String, Bool, true, false, ◌&&◌, Option, none, some, List, [], ◌∷◌, ◌++◌, arith, ◌==◌,
  eq_refl,
}
use xbotics_hey_robot.Skills.Resources.{new_lock}
use xbotics_hey_robot.Skills.Resources.Refinement.{Hold}
use xbotics_hey_robot.Skills.Resources.Schedule.{
  Event, run, key_run, is_proper, run-Shows, new_lock-Shows,
}

abbrev pub stays : Event → Bool
stays (Event.departs o) = false
stays _ = true

abbrev pub all_stay : List Event → Bool
all_stay [] = true
all_stay (e ∷ es) = stays e && all_stay es

abbrev pub nobody : List Event → List (Option String)
nobody [] = []
nobody (e ∷ es) = none ∷ nobody es

lent-nobody :
    (b : String) (es : List Event) (q : List String)
    → all_stay es ≡ true
    → (is_proper es (Hold.lent b, q) ≡ true) × ((key_run es (Hold.lent b, q)).0 ≡ nobody es)
unfolding is_proper key_run
lent-nobody b [] q s = (refl, refl)
lent-nobody b (Event.arrives o ∷ es) q s = let m = lent-nobody b es (q ++ o ∷ []) s in (m.0, rw m.1)
lent-nobody b (Event.departs o ∷ es) q s = absurd (ground (arith, s))
lent-nobody b (Event.wakes ∷ es) q s = let m = lent-nobody b es q s in (m.0, rw m.1)

-- Where an owner b had to wait for another owner a, and enters the key again once it holds it, it
-- is not let in: it waits for itself, as nobody is let in before it departs.
pub reentry_after_wait :
    (a b : String) (es : List Event)
    → (a == b) ≡ false
    → all_stay es ≡ true
    → (run
        (Event.arrives a ∷ Event.arrives b ∷ Event.departs a ∷ Event.wakes ∷ Event.arrives b ∷ es)
        new_lock).0
      ≡ some a ∷ none ∷ none ∷ some b ∷ none ∷ nobody es
unfolding is_proper key_run
reentry_after_wait a b es differs s =
    let m = lent-nobody b es (b ∷ []) s in
    let all =
      Event.arrives a ∷ Event.arrives b ∷ Event.departs a ∷ Event.wakes ∷ Event.arrives b ∷ es in
    let p : is_proper all (Hold.free, []) ≡ true = ground (arith, differs, eq_refl a, m.0) in
    rw (run-Shows all new_lock (Hold.free, []) new_lock-Shows p).0 (ground (arith, differs, m.1))

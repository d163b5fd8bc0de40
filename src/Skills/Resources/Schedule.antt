-- ===== src/Skills/Resources/Schedule.antt =====
-- The manager under any schedule of entries, exits and wake-ups.
use xbotics_hey_robot.Prelude.{
  ℕ, ◌≡◌, refl, String, Bool, true, false, ◌&&◌, Option, none, some, List, [], ◌∷◌, ◌++◌, arith,
  if◌then◌else◌, ◌∙◌, Bool-cases, inl, inr, ap, subst,
}
use xbotics_hey_robot.Skills.Resources.{
  Lock, new_lock, Entry, entered, waiting, is_idle, enter, grant, leave,
}
use xbotics_hey_robot.Skills.Resources.Refinement.{
  Hold, Rep, may_enter, after_enter, after_leave, holds, enter_lem, leave_lem, after_grant, granted,
  names, grant_lem, enter-waiters, leave-waiters,
}

pub data Event : Type 0 where
  arrives : String → Event
  departs : String → Event
  wakes : Event

abbrev pub if_entered : String → Entry → Option String
if_entered o entered = some o
if_entered o waiting = none

-- The owner that an event lets in, and the manager after it.
abbrev pub step : Event → Lock → Option String × Lock
step (Event.arrives o) k = (if_entered o (enter o k).0, (enter o k).1)
step (Event.departs o) k = (none, leave o k)
step Event.wakes k = grant k

unfoldable pub run : List Event → Lock → List (Option String) × Lock
run [] k = ([], k)
run (e ∷ es) k = ((step e k).0 ∷ (run es (step e k).1).0, (run es (step e k).1).1)

-- The abstract key: its holder, and the names of those who wait, in order.
abbrev pub Key : Type 0
Key = Hold × List String

abbrev pub is_nil : List String → Bool
is_nil [] = true
is_nil (x ∷ xs) = false

abbrev pub key_step : Event → Key → Option String × Key
key_step (Event.arrives o) (h, q) =
    if may_enter h o (is_nil q) then (some o, (after_enter h o, q)) else (none, (h, q ++ o ∷ []))
key_step (Event.departs o) (h, q) = (none, (after_leave h, q))
key_step Event.wakes (h, q) = (granted h q, after_grant h q)

unfoldable pub key_run : List Event → Key → List (Option String) × Key
key_run [] x = ([], x)
key_run (e ∷ es) x =
    ((key_step e x).0 ∷ (key_run es (key_step e x).1).0, (key_run es (key_step e x).1).1)

-- Only a holder departs: the discipline of a context manager.
abbrev pub is_proper_event : Event → Key → Bool
is_proper_event (Event.departs o) (h, q) = holds h o
is_proper_event _ x = true

unfoldable pub is_proper : List Event → Key → Bool
is_proper [] x = true
is_proper (e ∷ es) x = is_proper_event e x && is_proper es (key_step e x).1

pub record Shows (k : Lock) (x : Key) : Type 0 where
  pub rep : Rep k x.0
  pub queue : names k.waiters ≡ x.1

idle-names : (k : Lock) → is_idle k ≡ is_nil (names k.waiters)
idle-names k = cases k.waiters
  where
    cases : (ws : List (String × ℕ)) → (elim ws [ [] ↦ true | w ∷ r ↦ false ]) ≡ is_nil (names ws)
    cases [] = refl
    cases ((o, r) ∷ ws) = refl

-- What an entry does, by whether it may be made at once.
Entered : String → Lock → Hold → List String → Bool → Type 0
Entered o k h q b =
    ((enter o k).0 ≡ (if b then entered else waiting))
    × Rep (enter o k).1 (if b then after_enter h o else h)
    × (names (enter o k).1.waiters ≡ (if b then q else q ++ o ∷ []))

enter-Entered :
    (o : String) (k : Lock) (h : Hold) (q : List String)
    → Shows k (h, q)
    → Entered o k h q (may_enter h o (is_nil q))
unfolding Entered
enter-Entered o k h q s =
    let e : is_idle k ≡ is_nil q = idle-names k ∙ ap is_nil s.queue in
    let m = enter_lem o k h s.rep in
    let n = enter-waiters o k h s.rep in
    subst (λ b. Entered o k h q (may_enter h o b)) e
      (
        m.0,
        m.1,
        subst
            (λ x.
              names (enter o k).1.waiters ≡ (if may_enter h o (is_idle k) then x else x ++ o ∷ []))
            s.queue n,
      )

arrives-Shows :
    (o : String) (k : Lock) (h : Hold) (q : List String) (b : Bool)
    → Entered o k h q b
    → (if_entered o (enter o k).0 ≡ (if b then some o else none))
      × Shows (enter o k).1 (if b then (after_enter h o, q) else (h, q ++ o ∷ []))
unfolding Entered
arrives-Shows o k h q true m = (rw m.0, record { rep = m.1; queue = m.2 })
arrives-Shows o k h q false m = (rw m.0, record { rep = m.1; queue = m.2 })

step-Shows :
    (e : Event) (k : Lock) (x : Key)
    → Shows k x
    → is_proper_event e x ≡ true
    → ((step e k).0 ≡ (key_step e x).0) × Shows (step e k).1 (key_step e x).1
step-Shows (Event.arrives o) k (h, q) s p = elim (Bool-cases (may_enter h o (is_nil q))) [
  | inl b ↦ rw b (arrives-Shows o k h q true (subst (Entered o k h q) b (enter-Entered o k h q s)))
  | inr b ↦ rw b (arrives-Shows o k h q false (subst (Entered o k h q) b (enter-Entered o k h q s)))
]
step-Shows (Event.departs o) k (h, q) s p =
    (refl, record { rep = leave_lem o k h s.rep p; queue = rw (leave-waiters o k h s.rep) s.queue })
step-Shows Event.wakes k (h, q) s p =
    let m =
      subst
        (λ x.
          ((grant k).0 ≡ granted h x)
          × Rep (grant k).1 (after_grant h x).0
          × (names (grant k).1.waiters ≡ (after_grant h x).1))
        s.queue (grant_lem k h s.rep) in
    (m.0, record { rep = m.1; queue = m.2 })

pub run-Shows :
    (es : List Event) (k : Lock) (x : Key)
    → Shows k x
    → is_proper es x ≡ true
    → ((run es k).0 ≡ (key_run es x).0) × Shows (run es k).1 (key_run es x).1
unfolding run key_run is_proper
run-Shows [] k x s p = (refl, s)
run-Shows (e ∷ es) k x s p = elim (Bool-cases (is_proper_event e x)) [
  | inr b ↦ absurd (ground (arith, p, b))
  | inl b ↦
      let m = step-Shows e k x s b in
      let n = run-Shows es (step e k).1 (key_step e x).1 m.1 (ground (arith, p, b)) in
      (rw (m.0, n.0) refl, n.1)
]

pub new_lock-Shows : Shows new_lock (Hold.free, [])
new_lock-Shows = record {
  rep = record {
    locked = refl;
    owners = refl;
    current_known = tt;
    waiters_known = tt;
    apart = λ e. refl;
  };
  queue = refl;
}

-- Under every schedule in which only holders depart, the manager lets in exactly whom the abstract
-- key lets in, at the same events: the key has one holder at a time, an owner that never waited
-- re-enters and is counted, and the others wait in the order in which they came.
pub run_refines :
    (es : List Event)
    → is_proper es (Hold.free, []) ≡ true
    → (run es new_lock).0 ≡ (key_run es (Hold.free, [])).0
run_refines es p = (run-Shows es new_lock (Hold.free, []) new_lock-Shows p).0

-- ===== src/Skills/Resources/Refinement.antt =====
-- The manager as a lock with one holder, and what of the re-entry survives a wait.
use xbotics_hey_robot.Prelude.{
  ℕ, zero, suc, ◌<◌, ◌≡◌, refl, String, Bool, true, false, Option, none, some, List, [], ◌∷◌, ◌++◌,
  arith, if◌then◌else◌, eqb, ◌==◌, Bool-cases, inl, inr,
}
use xbotics_hey_robot.Skills.Resources.{
  Owners, pop_owner, Lock, write, look_up, count_in, entered, waiting, is_idle, enter_at, enter,
  grant, release_if_empty, leave_at, leave,
}

-- Nobody holds the key; an owner that never waited holds it, entered n + 1 times; or an owner holds
-- it that was granted it after a wait.
pub data Hold : Type 0 where
  free : Hold
  held : String → ℕ → Hold
  lent : String → Hold

abbrev pub owners_of : Lock → Owners
owners_of k = elim k.current [ none ↦ [] | some r ↦ k.objects r ]

abbrev pub is_locked : Hold → Bool
is_locked Hold.free = false
is_locked _ = true

abbrev pub counted : Hold → Owners
counted (Hold.held o n) = (o, suc n) ∷ []
counted _ = []

abbrev pub IsBelow : ℕ → List (String × ℕ) → Type 0
IsBelow n [] = Unit
IsBelow n ((o, r) ∷ ws) = (r < n) × IsBelow n ws

abbrev pub IsCurrentBelow : ℕ → Option ℕ → Type 0
IsCurrentBelow n none = Unit
IsCurrentBelow n (some r) = r < n

-- The first waiter of a free key did not look up the current dictionary.
abbrev pub is_apart : Option ℕ → List (String × ℕ) → Bool
is_apart (some c) ((o, r) ∷ ws) = if eqb c r then false else true
is_apart _ _ = true

pub record Rep (k : Lock) (h : Hold) : Type 0 where
  pub locked : k.locked ≡ is_locked h
  pub owners : owners_of k ≡ counted h
  pub current_known : IsCurrentBelow k.fresh k.current
  pub waiters_known : IsBelow k.fresh k.waiters
  pub apart : k.locked ≡ false → is_apart k.current k.waiters ≡ true

-- Who may enter at once, and what is held then.
abbrev pub may_enter : Hold → String → Bool → Bool
may_enter Hold.free o idle = idle
may_enter (Hold.held p n) o idle = p == o
may_enter (Hold.lent p) o idle = false

abbrev pub after_enter : Hold → String → Hold
after_enter Hold.free o = Hold.held o 0
after_enter (Hold.held p n) o = Hold.held p (suc n)
after_enter (Hold.lent p) o = Hold.lent p

abbrev pub after_leave : Hold → Hold
after_leave Hold.free = Hold.free
after_leave (Hold.held p zero) = Hold.free
after_leave (Hold.held p (suc n)) = Hold.held p n
after_leave (Hold.lent p) = Hold.free

abbrev pub holds : Hold → String → Bool
holds Hold.free o = false
holds (Hold.held p n) o = p == o
holds (Hold.lent p) o = p == o

IsBelow-step : (n : ℕ) (ws : List (String × ℕ)) → IsBelow n ws → IsBelow (suc n) ws
IsBelow-step n [] b = tt
IsBelow-step n ((o, r) ∷ ws) b = (omega arith, IsBelow-step n ws b.1)

IsBelow-append :
    (n r : ℕ) (o : String) (ws : List (String × ℕ))
    → IsBelow n ws
    → r < n
    → IsBelow n (ws ++ (o, r) ∷ [])
IsBelow-append n r o [] b l = (l, tt)
IsBelow-append n r o ((p, q) ∷ ws) b l = (b.0, IsBelow-append n r o ws b.1 l)

-- A lookup shows the same owners, and makes the object that it gives the current one.
pub record Looked (k : Lock) (h : Hold) (r : ℕ) (k' : Lock) : Type 0 where
  pub rep : Rep k' h
  pub current : k'.current ≡ some r
  pub object : k'.objects r ≡ counted h
  pub waiters : k'.waiters ≡ k.waiters

abbrev made : (ℕ → Owners) → ℕ → Option ℕ → Bool → List (String × ℕ) → Lock
made objects fresh current locked waiters = record {
  objects = objects;
  fresh = fresh;
  current = current;
  locked = locked;
  waiters = waiters;
}

apart_of_IsBelow : (n : ℕ) (ws : List (String × ℕ)) → IsBelow n ws → is_apart (some n) ws ≡ true
apart_of_IsBelow n [] b = refl
apart_of_IsBelow n ((o, r) ∷ ws) b = ground (arith, b.0)

look_up-made :
    (objects : ℕ → Owners) (n : ℕ) (c : Option ℕ) (l : Bool) (ws : List (String × ℕ)) {h : Hold}
    → Rep (made objects n c l ws) h
    → Looked
        (made objects n c l ws)
        h
        (look_up (made objects n c l ws)).0
        (look_up (made objects n c l ws)).1
look_up-made objects n (some c) l ws w = record {
  rep = w;
  current = refl;
  object = w.owners;
  waiters = refl;
}
look_up-made objects n none l ws {h = h} w = record {
  rep = record {
    locked = w.locked;
    owners = ground (arith, w.owners);
    current_known = omega arith;
    waiters_known = IsBelow-step n ws w.waiters_known;
    apart = λ e. apart_of_IsBelow n ws w.waiters_known;
  };
  current = refl;
  object = ground (arith, w.owners);
  waiters = refl;
}

look_up-Looked : (k : Lock) {h : Hold} → Rep k h → Looked k h (look_up k).0 (look_up k).1
look_up-Looked k w = look_up-made k.objects k.fresh k.current k.locked k.waiters w

current_fresh : (n r : ℕ) (c : Option ℕ) → c ≡ some r → IsCurrentBelow n c → r < n
current_fresh n r none e b = absurd (ground (arith, e))
current_fresh n r (some c) e b = ground (arith, e, b)

is_apart-append :
    (c : Option ℕ) (ws : List (String × ℕ)) (w : String × ℕ)
    → (elim ws [ [] ↦ true | x ∷ xs ↦ false ]) ≡ false
    → is_apart c ws ≡ true
    → is_apart c (ws ++ w ∷ []) ≡ true
is_apart-append c [] w b a = absurd (ground (arith, b))
is_apart-append none (x ∷ ws) w b a = refl
is_apart-append (some c) ((p, q) ∷ ws) w b a = a

-- An owner that waits changes nothing but the queue.
queue-Rep :
    (o : String) (r : ℕ) (k : Lock) {h : Hold}
    → Rep k h
    → k.current ≡ some r
    → (k.locked ≡ false → is_idle k ≡ false)
    → Rep (record k { waiters = k.waiters ++ (o, r) ∷ [] }) h
queue-Rep o r k w c b = record {
  locked = w.locked;
  owners = w.owners;
  current_known = w.current_known;
  waiters_known =
      IsBelow-append k.fresh r o k.waiters w.waiters_known
        (current_fresh k.fresh r k.current c w.current_known);
  apart = λ e. is_apart-append k.current k.waiters (o, r) (b e) (w.apart e);
}

-- A write to the current object of a locked key.
write-Rep :
    (r : ℕ) (owners : Owners) (k : Lock) (h : Hold)
    → k.locked ≡ is_locked h
    → k.current ≡ some r
    → IsCurrentBelow k.fresh k.current
    → IsBelow k.fresh k.waiters
    → owners ≡ counted h
    → is_locked h ≡ true
    → Rep (write r owners k) h
write-Rep r owners k h l c b d e t = record {
  locked = l;
  owners = ground (arith, c, e);
  current_known = b;
  waiters_known = d;
  apart = λ f. absurd (ground (arith, f, l, t));
}

-- An owner that may enter does so at once, and is counted; any other waits at the end of the queue.
enter_at_lem :
    (o : String) (k k' : Lock) (r : ℕ) (h : Hold)
    → Looked k h r k'
    → ((enter_at o (r, k')).0 ≡ (if may_enter h o (is_idle k) then entered else waiting))
      × Rep (enter_at o (r, k')).1 (if may_enter h o (is_idle k) then after_enter h o else h)
enter_at_lem o k k' r Hold.free w = elim (Bool-cases (is_idle k)) [
  | inl idle ↦
      let e : enter_at o (r, k') ≡ (entered, count_in o r (record k' { locked = true })) =
        ground (arith, idle) in
      rw (e, idle)
        (
          refl,
          write-Rep r _ (record k' { locked = true }) (Hold.held o 0) refl w.current
              w.rep.current_known w.rep.waiters_known (ground arith) refl,
        )
  | inr queued ↦
      let e : enter_at o (r, k') ≡ (waiting, record k' { waiters = k'.waiters ++ (o, r) ∷ [] }) =
        ground (arith, queued) in
      rw (e, queued) (refl, queue-Rep o r k' w.rep w.current (λ _. ground (arith, queued)))
]
enter_at_lem o k k' r (Hold.held p n) w = elim (Bool-cases (p == o)) [
  | inl same ↦
      let e : enter_at o (r, k') ≡ (entered, count_in o r k') = ground (arith, same) in
      rw (e, same)
        (
          refl,
          write-Rep r _ k' (Hold.held p (suc n)) w.rep.locked w.current w.rep.current_known
              w.rep.waiters_known (ground (arith, same)) refl,
        )
  | inr other ↦
      let e : enter_at o (r, k') ≡ (waiting, record k' { waiters = k'.waiters ++ (o, r) ∷ [] }) =
        ground (arith, other) in
      rw (e, other) (refl, queue-Rep o r k' w.rep w.current (λ f. absurd (ground (arith, f))))
]
enter_at_lem o k k' r (Hold.lent p) w =
    let e : enter_at o (r, k') ≡ (waiting, record k' { waiters = k'.waiters ++ (o, r) ∷ [] }) =
      ground arith in
    rw e (refl, queue-Rep o r k' w.rep w.current (λ f. absurd (ground (arith, f))))

pub enter_lem :
    (o : String) (k : Lock) (h : Hold)
    → Rep k h
    → ((enter o k).0 ≡ (if may_enter h o (is_idle k) then entered else waiting))
      × Rep (enter o k).1 (if may_enter h o (is_idle k) then after_enter h o else h)
unfolding enter
enter_lem o k h w = enter_at_lem o k (look_up k).1 (look_up k).0 h (look_up-Looked k w)

-- The key without its current object is free, and no waiter looked up an object yet to come.
freed-Rep :
    (k : Lock)
    → IsBelow k.fresh k.waiters
    → Rep (record k { current = none; locked = false }) Hold.free
freed-Rep k b = record {
  locked = refl;
  owners = refl;
  current_known = tt;
  waiters_known = b;
  apart = λ e. refl;
}

leave_at_lem :
    (o : String) (k k' : Lock) (r : ℕ) (h : Hold)
    → Looked k h r k'
    → holds h o ≡ true
    → Rep (leave_at o (r, k')) (after_leave h)
leave_at_lem o k k' r Hold.free w t = absurd (ground (arith, t))
leave_at_lem o k k' r (Hold.held p zero) w t =
    let e : leave_at o (r, k') ≡ record (write r [] k') { current = none; locked = false } =
      ground (arith, t) in
    rw e (freed-Rep (write r [] k') w.rep.waiters_known)
leave_at_lem o k k' r (Hold.held p (suc n)) w t =
    let e : leave_at o (r, k') ≡ write r ((p, suc n) ∷ []) k' = ground (arith, t) in
    rw e (
      write-Rep r ((p, suc n) ∷ []) k' (Hold.held p n) w.rep.locked w.current w.rep.current_known
        w.rep.waiters_known refl refl)
leave_at_lem o k k' r (Hold.lent p) w t =
    let e : leave_at o (r, k') ≡ record (write r [] k') { current = none; locked = false } =
      ground (arith, t) in
    rw e (freed-Rep (write r [] k') w.rep.waiters_known)

pub leave_lem :
    (o : String) (k : Lock) (h : Hold)
    → Rep k h
    → holds h o ≡ true
    → Rep (leave o k) (after_leave h)
unfolding leave
leave_lem o k h w t = leave_at_lem o k (look_up k).1 (look_up k).0 h (look_up-Looked k w) t

abbrev pub after_grant : Hold → List String → Hold × List String
after_grant Hold.free (o ∷ q) = (Hold.lent o, q)
after_grant h q = (h, q)

abbrev pub granted : Hold → List String → Option String
granted Hold.free (o ∷ q) = some o
granted h q = none

abbrev pub names : List (String × ℕ) → List String
names [] = []
names ((o, r) ∷ ws) = o ∷ names ws

-- What a grant answers and leaves, in terms of the holder and the names of the waiters.
abbrev Granted : Lock → Hold → List String → Option String × Lock → Type 0
Granted k h q (a, k') =
    (a ≡ granted h q) × Rep k' (after_grant h q).0 × (names k'.waiters ≡ (after_grant h q).1)

lend-Rep :
    (objects : ℕ → Owners) (n : ℕ) (c : Option ℕ) (o : String) (r : ℕ) (ws : List (String × ℕ))
    → Rep (made objects n c false ((o, r) ∷ ws)) Hold.free
    → Rep (count_in o r (made objects n c true ws)) (Hold.lent o)
lend-Rep objects n none o r ws w = record {
  locked = refl;
  owners = refl;
  current_known = tt;
  waiters_known = w.waiters_known.1;
  apart = λ e. refl;
}
lend-Rep objects n (some c) o r ws w = record {
  locked = refl;
  owners = ground (arith, w.owners, w.apart refl);
  current_known = w.current_known;
  waiters_known = w.waiters_known.1;
  apart = λ e. absurd (ground (arith, e));
}

grant-made :
    (objects : ℕ → Owners) (n : ℕ) (c : Option ℕ) (l : Bool) (ws : List (String × ℕ)) (h : Hold)
    → Rep (made objects n c l ws) h
    → Granted (made objects n c l ws) h (names ws) (grant (made objects n c l ws))
unfolding grant
grant-made objects n c true ws Hold.free w = absurd (ground (arith, w.locked))
grant-made objects n c false [] Hold.free w = (refl, w, refl)
grant-made objects n c false ((o, r) ∷ ws) Hold.free w = (refl, lend-Rep objects n c o r ws w, refl)
grant-made objects n c true ws (Hold.held p m) w = (refl, w, refl)
grant-made objects n c false ws (Hold.held p m) w = absurd (ground (arith, w.locked))
grant-made objects n c true ws (Hold.lent p) w = (refl, w, refl)
grant-made objects n c false ws (Hold.lent p) w = absurd (ground (arith, w.locked))

pub grant_lem :
    (k : Lock) (h : Hold)
    → Rep k h
    → ((grant k).0 ≡ granted h (names k.waiters))
      × Rep (grant k).1 (after_grant h (names k.waiters)).0
      × (names (grant k).1.waiters ≡ (after_grant h (names k.waiters)).1)
grant_lem k h w = grant-made k.objects k.fresh k.current k.locked k.waiters h w

names-append :
    (ws : List (String × ℕ)) (o : String) (r : ℕ) → names (ws ++ (o, r) ∷ []) ≡ names ws ++ o ∷ []
names-append [] o r = refl
names-append ((p, q) ∷ ws) o r = rw (names-append ws o r)

-- What an entry and an exit do to the queue.
enter_at-waiters :
    (o : String) (k : Lock) (r : ℕ) (h : Hold)
    → k.locked ≡ is_locked h
    → k.objects r ≡ counted h
    → names (enter_at o (r, k)).1.waiters
      ≡ (if may_enter h o (is_idle k) then names k.waiters else names k.waiters ++ o ∷ [])
enter_at-waiters o k r Hold.free l e = ground (arith, names-append k.waiters o r)
enter_at-waiters o k r (Hold.held p n) l e = ground (arith, names-append k.waiters o r)
enter_at-waiters o k r (Hold.lent p) l e = ground (arith, names-append k.waiters o r)

pub enter-waiters :
    (o : String) (k : Lock) (h : Hold)
    → Rep k h
    → names (enter o k).1.waiters
      ≡ (if may_enter h o (is_idle k) then names k.waiters else names k.waiters ++ o ∷ [])
unfolding enter
enter-waiters o k h w =
    let s = look_up-Looked k w in
    ground
      (arith, s.waiters, enter_at-waiters o (look_up k).1 (look_up k).0 h s.rep.locked s.object)

release-waiters : (owners : Owners) (k : Lock) → (release_if_empty owners k).waiters ≡ k.waiters
release-waiters [] k = refl
release-waiters (x ∷ xs) k = refl

pub leave-waiters : (o : String) (k : Lock) (h : Hold) → Rep k h → (leave o k).waiters ≡ k.waiters
unfolding leave
leave-waiters o k h w =
    let (r, k') = look_up k in
    let s = look_up-Looked k w in
    ground (
      arith,
      s.waiters,
      release-waiters (pop_owner o ((look_up k).1.objects (look_up k).0))
          (write (look_up k).0 (pop_owner o ((look_up k).1.objects (look_up k).0)) (look_up k).1),
    )

-- ===== src/Skills/Resources.antt =====
-- ResourceManager, src/hey_robot/skills/resources.py, at one key; the keys share nothing. The
-- dictionaries of owners are objects: `current` is the one in `_owners`, and a coroutine that waits
-- for the lock keeps the one that it looked up. The lock is the fair one of asyncio: it is free only
-- to the first waiter while there are waiters.
pub mod Refinement
pub mod Schedule
pub mod Waiting
mod Examples
use xbotics_hey_robot.Prelude.{
  ℕ, suc, ◌+◌, ◌-◌, String, Bool, true, false, ◌||◌, Option, none, some, List, [], ◌∷◌, ◌++◌,
  if◌then◌else◌, ltb, eqb, ◌==◌,
}

-- A dictionary from owners to counts.
abbrev pub Owners : Type 0
Owners = List (String × ℕ)

abbrev pub count_of : String → Owners → ℕ
count_of o [] = 0
count_of o ((p, n) ∷ rest) = if p == o then n else count_of o rest

abbrev pub has_owner : String → Owners → Bool
has_owner o [] = false
has_owner o ((p, n) ∷ rest) = p == o || has_owner o rest

abbrev pub set_count : String → ℕ → Owners → Owners
set_count o n [] = (o, n) ∷ []
set_count o n ((p, m) ∷ rest) = if p == o then (p, n) ∷ rest else (p, m) ∷ set_count o n rest

abbrev pub pop_owner : String → Owners → Owners
pop_owner o [] = []
pop_owner o ((p, m) ∷ rest) = if p == o then rest else (p, m) ∷ pop_owner o rest

pub record Lock : Type 0 where
  pub objects : ℕ → Owners
  pub fresh : ℕ  -- the next object
  pub current : Option ℕ
  pub locked : Bool
  pub waiters : List (String × ℕ)

abbrev pub new_lock : Lock
new_lock = record { objects = λ r. []; fresh = 0; current = none; locked = false; waiters = [] }

abbrev pub write : ℕ → Owners → Lock → Lock
write r owners k = record k { objects = λ other. if eqb other r then owners else k.objects other }

-- `self._owners[key]`, of a defaultdict: the object, and the manager after the lookup.
abbrev pub look_up : Lock → ℕ × Lock
look_up k = elim k.current [
  | some r ↦ (r, k)
  | none ↦ (k.fresh, write k.fresh [] (record k { fresh = suc k.fresh; current = some k.fresh }))
]

-- `owners[owner] = owners.get(owner, 0) + 1`
abbrev pub count_in : String → ℕ → Lock → Lock
count_in o r k = write r (set_count o (count_of o (k.objects r) + 1) (k.objects r)) k

pub data Entry : Type 0 where
  entered waiting : Entry

abbrev pub is_idle : Lock → Bool
is_idle k = elim k.waiters [ [] ↦ true | w ∷ ws ↦ false ]

abbrev pub enter_at : String → ℕ × Lock → Entry × Lock
enter_at o (r, k) =
    if has_owner o (k.objects r)
    then (entered, count_in o r k)
    else if k.locked
    then (waiting, record k { waiters = k.waiters ++ (o, r) ∷ [] })
    else if is_idle k
    then (entered, count_in o r (record k { locked = true }))
    else (waiting, record k { waiters = k.waiters ++ (o, r) ∷ [] })

-- The entry of `acquire`, up to its first wait.
unfoldable pub enter : String → Lock → Entry × Lock
enter o k = enter_at o (look_up k)

-- The first waiter gets the free lock and goes on behind its wait.
unfoldable pub grant : Lock → Option String × Lock
grant k = if k.locked then (none, k) else elim k.waiters [
  | [] ↦ (none, k)
  | (o, r) ∷ ws ↦ (some o, count_in o r (record k { locked = true; waiters = ws }))
]

abbrev pub release_if_empty : Owners → Lock → Lock
release_if_empty [] k = record k { current = none; locked = false }
release_if_empty (x ∷ xs) k = k

abbrev pub leave_at : String → ℕ × Lock → Lock
leave_at o (r, k) =
    let owners = k.objects r in
    if ltb 1 (count_of o owners)
    then write r (set_count o (count_of o owners - 1) owners) k
    else release_if_empty (pop_owner o owners) (write r (pop_owner o owners) k)

-- The `finally` of `acquire`.
unfoldable pub leave : String → Lock → Lock
leave o k = leave_at o (look_up k)

-- ===== src/Tasks/Wf.antt =====
-- The well-formed stores: what the keys and indices of the two tables, and the step counters,
-- promise together.
pub mod Inserts
pub mod Operations
use xbotics_hey_robot.Prelude.{
  ℕ, ◌+◌, ◌≤◌, ◌<◌, ◌≡◌, refl, String, Bool, true, false, ◌&&◌, ◌||◌, Option, none, some, List, [],
  ◌∷◌, ◌++◌, arith, if◌then◌else◌, leb, eqb, ◌==◌, eq_iff, find, any, update_where, count_where,
  count_where-append, any_false→count_where, count_where-update_where_le, find-update_where,
  find-append, Bool-cases, inl, inr,
}
use xbotics_hey_robot.Tasks.Rows.{
  TaskRow, AgentTaskStep, Store, is_open, has_id, open_in, has_step_id, of_task, has_run,
}

-- The step counter of a task, 0 for a task that is not there.
abbrev pub step_count_of : String → List TaskRow → ℕ
step_count_of id rows = elim (find (has_id id) rows) [ none ↦ 0 | some r ↦ r.step_count ]

abbrev pub at_place : String → ℕ → AgentTaskStep → Bool
at_place id n st = of_task id st && eqb st.sequence n

pub record IsWf (s : Store) : Type 0 where
  pub one_task : (id : String) → count_where (has_id id) s.tasks ≤ 1
  pub one_open : (session : String) → count_where (open_in session) s.tasks ≤ 1
  pub one_step : (id : String) → count_where (has_step_id id) s.steps ≤ 1
  pub one_run : (run : String) → count_where (has_run run) s.steps ≤ 1
  pub one_place : (id : String) (n : ℕ) → count_where (at_place id n) s.steps ≤ 1
  pub counted : (id : String) → count_where (of_task id) s.steps ≡ step_count_of id s.tasks
  pub numbered :
      (id : String) (n : ℕ) → step_count_of id s.tasks < n → count_where (at_place id n) s.steps ≡ 0

-- The keys that an `UPDATE sustained_tasks` must keep: those of the indices, and the counter.
pub record KeepsKeys (q : TaskRow → Bool) (f : TaskRow → TaskRow) : Type 0 where
  pub id : (r : TaskRow) → (f r).task_id ≡ r.task_id
  pub session : (r : TaskRow) → (f r).session_key ≡ r.session_key
  pub counter : (r : TaskRow) → (f r).step_count ≡ r.step_count
  pub opened : (r : TaskRow) → q r ≡ true → is_open (f r).status ≡ true → is_open r.status ≡ true

module _ (q : TaskRow → Bool) (f : TaskRow → TaskRow) (k : KeepsKeys q f) where
  step_count_of-update_where :
      (id : String) (rows : List TaskRow)
      → step_count_of id (update_where q f rows) ≡ step_count_of id rows
  step_count_of-update_where id [] = refl
  step_count_of-update_where id (r ∷ rows) =
      ground (arith, k.id r, k.counter r, step_count_of-update_where id rows)

  pub update_where-IsWf :
      (s : Store) → IsWf s → IsWf (record s { tasks = update_where q f s.tasks })
  update_where-IsWf s w = record {
    one_task = λ id. omega (
      arith,
      w.one_task id,
      count_where-update_where_le (has_id id) q f s.tasks (λ r _ e. ground (arith, k.id r)),
    );
    one_open = λ session. omega (
      arith,
      w.one_open session,
      count_where-update_where_le (open_in session) q f s.tasks
          (λ r h e. ground (arith, k.session r, k.opened r)),
    );
    one_step = w.one_step;
    one_run = w.one_run;
    one_place = w.one_place;
    counted = λ id. omega (arith, w.counted id, step_count_of-update_where id s.tasks);
    numbered = λ id n h. w.numbered id n (omega (arith, step_count_of-update_where id s.tasks));
  }

-- The keys that an `UPDATE task_steps` must keep.
pub record KeepsStepKeys (f : AgentTaskStep → AgentTaskStep) : Type 0 where
  pub step_id : (st : AgentTaskStep) → (f st).step_id ≡ st.step_id
  pub task_id : (st : AgentTaskStep) → (f st).task_id ≡ st.task_id
  pub sequence : (st : AgentTaskStep) → (f st).sequence ≡ st.sequence
  pub run_id : (st : AgentTaskStep) → (f st).run_id ≡ st.run_id

module _ (q : AgentTaskStep → Bool) (f : AgentTaskStep → AgentTaskStep) where
  -- An update that changes no answer of a test keeps its count.
  count_where-update_where :
      (p : AgentTaskStep → Bool) (rows : List AgentTaskStep)
      → ((st : AgentTaskStep) → p (f st) ≡ p st)
      → count_where p (update_where q f rows) ≡ count_where p rows
  count_where-update_where p [] h = refl
  count_where-update_where p (st ∷ rows) h = ground (arith, h st, count_where-update_where p rows h)

  pub update_steps-IsWf :
      (s : Store) → KeepsStepKeys f → IsWf s → IsWf (record s { steps = update_where q f s.steps })
  update_steps-IsWf s k w = record {
    one_task = w.one_task;
    one_open = w.one_open;
    one_step = λ id.
        rw (count_where-update_where (has_step_id id) s.steps (λ st. rw (k.step_id st)))
          (w.one_step id);
    one_run = λ run.
        rw (count_where-update_where (has_run run) s.steps (λ st. rw (k.run_id st)))
          (w.one_run run);
    one_place = λ id n.
        rw
          (count_where-update_where (at_place id n) s.steps
            (λ st. rw (k.task_id st, k.sequence st)))
          (w.one_place id n);
    counted = λ id.
        rw (count_where-update_where (of_task id) s.steps (λ st. rw (k.task_id st))) (w.counted id);
    numbered = λ id n h.
        rw
          (count_where-update_where (at_place id n) s.steps
            (λ st. rw (k.task_id st, k.sequence st)))
          (w.numbered id n h);
  }

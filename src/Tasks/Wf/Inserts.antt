-- ===== src/Tasks/Wf/Inserts.antt =====
-- The two INSERT statements of AgentTaskStore, with the counter update that goes with a step.
use xbotics_hey_robot.Prelude.{
  ℕ, ◌+◌, ◌≤◌, ◌<◌, ◌≡◌, refl, sym, ◌∙◌, String, false, ◌&&◌, some, List, [], ◌∷◌, ◌++◌, arith,
  ◌==◌, eq_iff, find, any, update_where, count_where, count_where-append, any_false→count_where,
  count_where-update_where_le, find-update_where, find-holds, Bool-cases, Option-cases,
  count_where-any, inl, inr,
}
use xbotics_hey_robot.Tasks.Rows.{
  TaskRow, AgentTaskStep, Store, is_open, has_id, open_in, has_step_id, of_task, has_run,
}
use xbotics_hey_robot.Tasks.Updates.{insert_task, same_place, same_run}
use xbotics_hey_robot.Tasks.Wf.{IsWf, step_count_of, at_place}

step_count_of-append :
    (id : String) (r : TaskRow) (rows : List TaskRow)
    → r.step_count ≡ 0
    → step_count_of id (rows ++ r ∷ []) ≡ step_count_of id rows
step_count_of-append id r [] h = ground arith
step_count_of-append id r (x ∷ rows) h = ground (arith, step_count_of-append id r rows h)

module _ (r : TaskRow) (s : Store) (w : IsWf s) (zero_steps : r.step_count ≡ 0)
    (fresh : any (has_id r.task_id) s.tasks ≡ false)
    (alone : (is_open r.status && any (open_in r.session_key) s.tasks) ≡ false) where
  one_task-insert : (id : String) → count_where (has_id id) (s.tasks ++ r ∷ []) ≤ 1
  one_task-insert id = ground (
    arith,
    count_where-append (has_id id) s.tasks (r ∷ []),
    eq_iff r.task_id id,
    w.one_task id,
    any_false→count_where (has_id r.task_id) s.tasks fresh,
  )

  one_open-insert : (session : String) → count_where (open_in session) (s.tasks ++ r ∷ []) ≤ 1
  one_open-insert session = ground (
    arith,
    count_where-append (open_in session) s.tasks (r ∷ []),
    eq_iff r.session_key session,
    w.one_open session,
    any_false→count_where (open_in r.session_key) s.tasks,
  )

  append_task-IsWf : IsWf (record s { tasks = s.tasks ++ r ∷ [] })
  append_task-IsWf = record {
    one_task = one_task-insert;
    one_open = one_open-insert;
    one_step = w.one_step;
    one_run = w.one_run;
    one_place = w.one_place;
    counted = λ id. w.counted id ∙ sym (step_count_of-append id r s.tasks zero_steps);
    numbered =
        λ id n h. w.numbered id n (omega (arith, step_count_of-append id r s.tasks zero_steps));
  }

-- A new row with no steps keeps the store well-formed, and a refused one changes nothing.
pub insert_task-IsWf :
    (r : TaskRow) (s : Store) → r.step_count ≡ 0 → IsWf s → IsWf (insert_task r s).1
unfolding insert_task
insert_task-IsWf r s z w = elim (Bool-cases (any (has_id r.task_id) s.tasks)) [
  | inl taken ↦ rw taken w
  | inr fresh ↦ elim (Bool-cases (is_open r.status && any (open_in r.session_key) s.tasks)) [
    | inl busy ↦ rw (fresh, busy) w
    | inr alone ↦ rw (fresh, alone) (append_task-IsWf r s w z fresh alone)
  ]
]

-- What `add_step` and `add_pending_step` write to the row of the task.
pub record Bumps (n : ℕ) (f : TaskRow → TaskRow) : Type 0 where
  pub id : (r : TaskRow) → (f r).task_id ≡ r.task_id
  pub session : (r : TaskRow) → (f r).session_key ≡ r.session_key
  pub status : (r : TaskRow) → (f r).status ≡ r.status
  pub counter : (r : TaskRow) → (f r).step_count ≡ n

module _ (n : ℕ) (f : TaskRow → TaskRow) (b : Bumps n f) where
  step_count_of-bump :
      (id : String) (rows : List TaskRow) {r : TaskRow}
      → find (has_id id) rows ≡ some r
      → step_count_of id (update_where (has_id id) f rows) ≡ n
  step_count_of-bump id rows {r = r} h = ground (
    arith,
    find-update_where (has_id id) (has_id id) f rows (λ x. rw (b.id x)),
    b.counter r,
    b.id r,
    find-holds (has_id id) rows h,
  )

  step_count_of-bump_other :
      (id other : String) (rows : List TaskRow)
      → (other == id) ≡ false
      → step_count_of id (update_where (has_id other) f rows) ≡ step_count_of id rows
  step_count_of-bump_other id other [] h = refl
  step_count_of-bump_other id other (r ∷ rows) h = ground (
    arith,
    step_count_of-bump_other id other rows h,
    b.id r,
    eq_iff r.task_id other,
    eq_iff r.task_id id,
    eq_iff other id,
  )

pub any-same_run :
    (st : AgentTaskStep) (id : String) (xs : List AgentTaskStep)
    → st.run_id ≡ some id
    → any (same_run st) xs ≡ any (has_run id) xs
any-same_run st id [] e = refl
any-same_run st id (x ∷ xs) e = ground (arith, any-same_run st id xs e)

module _ (st : AgentTaskStep) (f : TaskRow → TaskRow) (b : Bumps st.sequence f) (s : Store)
    (w : IsWf s) {r : TaskRow} (known : find (has_id st.task_id) s.tasks ≡ some r)
    (next : st.sequence ≡ r.step_count + 1) (new_id : any (has_step_id st.step_id) s.steps ≡ false)
    (new_run : any (same_run st) s.steps ≡ false) where
  rows : List TaskRow
  rows = update_where (has_id st.task_id) f s.tasks

  step_count_of-old : step_count_of st.task_id s.tasks ≡ r.step_count
  step_count_of-old = ground arith

  step_count_of-new : step_count_of st.task_id rows ≡ st.sequence
  unfolding rows
  step_count_of-new = step_count_of-bump st.sequence f b st.task_id s.tasks known

  counted-insert :
      (id : String) → count_where (of_task id) (s.steps ++ st ∷ []) ≡ step_count_of id rows
  unfolding rows
  counted-insert id = elim (Bool-cases (st.task_id == id)) [
    | inl same ↦
        let e : st.task_id ≡ id = (eq_iff st.task_id id).0 same in
        ground (
          arith,
          count_where-append (of_task id) s.steps (st ∷ []),
          w.counted id,
          step_count_of-new,
          step_count_of-old,
        )
    | inr other ↦ ground (
      arith,
      count_where-append (of_task id) s.steps (st ∷ []),
      w.counted id,
      step_count_of-bump_other st.sequence f b id st.task_id s.tasks other,
    )
  ]

  one_place-insert : (id : String) (n : ℕ) → count_where (at_place id n) (s.steps ++ st ∷ []) ≤ 1
  one_place-insert id n = ground (
    arith,
    count_where-append (at_place id n) s.steps (st ∷ []),
    w.one_place id n,
    w.numbered id n,
    eq_iff st.task_id id,
    step_count_of-old,
  )

  numbered-insert :
      (id : String) (n : ℕ)
      → step_count_of id rows < n
      → count_where (at_place id n) (s.steps ++ st ∷ []) ≡ 0
  unfolding rows
  numbered-insert id n h = elim (Bool-cases (st.task_id == id)) [
    | inl same ↦
        let e : st.task_id ≡ id = (eq_iff st.task_id id).0 same in
        ground (
          arith,
          count_where-append (at_place id n) s.steps (st ∷ []),
          w.numbered id n,
          step_count_of-new,
          step_count_of-old,
        )
    | inr other ↦ ground (
      arith,
      count_where-append (at_place id n) s.steps (st ∷ []),
      w.numbered id n,
      step_count_of-bump_other st.sequence f b id st.task_id s.tasks other,
    )
  ]

  one_step-insert : (id : String) → count_where (has_step_id id) (s.steps ++ st ∷ []) ≤ 1
  one_step-insert id = ground (
    arith,
    count_where-append (has_step_id id) s.steps (st ∷ []),
    w.one_step id,
    eq_iff st.step_id id,
    any_false→count_where (has_step_id st.step_id) s.steps new_id,
  )

  one_run-insert : (run : String) → count_where (has_run run) (s.steps ++ st ∷ []) ≤ 1
  one_run-insert run = elim (Option-cases st.run_id) [
    | inl e ↦ ground (arith, count_where-append (has_run run) s.steps (st ∷ []), w.one_run run)
    | inr (id, e) ↦ ground (
      arith,
      count_where-append (has_run run) s.steps (st ∷ []),
      w.one_run run,
      eq_iff id run,
      any_false→count_where (has_run id) s.steps,
      any-same_run st id s.steps e,
    )
  ]

  -- A step numbered next, under a new id and a new run, keeps the store well-formed.
  pub append_step-IsWf :
      IsWf
        (record { tasks = update_where (has_id st.task_id) f s.tasks; steps = s.steps ++ st ∷ [] })
  unfolding rows
  append_step-IsWf = record {
    one_task = λ id. omega (
      arith,
      w.one_task id,
      count_where-update_where_le (has_id id) (has_id st.task_id) f s.tasks
          (λ x _ e. ground (arith, b.id x)),
    );
    one_open = λ session. omega (
      arith,
      w.one_open session,
      count_where-update_where_le (open_in session) (has_id st.task_id) f s.tasks
          (λ x _ e. ground (arith, b.session x, b.status x)),
    );
    one_step = one_step-insert;
    one_run = one_run-insert;
    one_place = one_place-insert;
    counted = counted-insert;
    numbered = numbered-insert;
  }

  -- The place of the new step is free, so the index on (task_id, sequence) never refuses it.
  pub any-same_place : any (same_place st) s.steps ≡ false
  any-same_place = elim (Bool-cases (any (same_place st) s.steps)) [
    | inr e ↦ e
    | inl e ↦ absurd (
        omega (
          arith,
          w.numbered st.task_id st.sequence (ground (arith, step_count_of-old)),
          count_where-any (at_place st.task_id st.sequence) s.steps e,
        ))
  ]

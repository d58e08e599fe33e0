-- ===== src/Task/Queue.antt =====
-- The doubly linked queue of tasks.
pub mod Unlink
pub mod Remove
pub mod Turns
use nuts_os.Base.{
  ℕ, zero, suc, ◌+◌, ◌-◌, ◌≡◌, ◌≢◌, ◌<◌, ◌==◌, if◌then◌else◌, ltb, update, arith, refl, Bool-cases,
  inl, inr, ap, sym, ◌∙◌,
}
use nuts_os.Task.{Task, Tasks, link_task, task_get_next, unlink, task_list_remove}

-- The tasks of the queue are `at 0` to `at (n - 1)`: not null, different, and linked both ways.
pub record IsQueue (s : Tasks) (n : ℕ) (at : ℕ → ℕ) : Type 0 where
  pub some_head : 0 < n → s.task_head ≡ at 0
  pub no_head : n ≡ 0 → s.task_head ≡ 0
  pub tail : 0 < n → s.task_tail ≡ at (n - 1)
  pub nonzero : (i : ℕ) → i < n → at i ≢ 0
  pub distinct : (i j : ℕ) → i < n → j < n → at i ≡ at j → i ≡ j
  pub next_of : (i : ℕ) → i + 1 < n → (s.task_at (at i)).next ≡ at (i + 1)
  pub last : (i : ℕ) → i + 1 ≡ n → (s.task_at (at i)).next ≡ 0
  pub prev_of : (i : ℕ) → i + 1 < n → (s.task_at (at (i + 1))).prev ≡ at i
  pub first : 0 < n → (s.task_at (at 0)).prev ≡ 0

abbrev pub snoc : ℕ → (ℕ → ℕ) → ℕ → ℕ → ℕ
snoc n at task = update at n task

link-next :
    (s : Tasks) (task a : ℕ)
    → s.task_head ≢ 0
    → s.task_tail ≢ task
    → ((link_task task s).task_at a).next ≡ (if s.task_tail == a then task else (s.task_at a).next)
unfolding link_task
link-next s task a ne other = ground arith

link-prev :
    (s : Tasks) (task a : ℕ)
    → s.task_head ≢ 0
    → s.task_tail ≢ task
    → ((link_task task s).task_at a).prev ≡ (if task == a then s.task_tail else (s.task_at a).prev)
unfolding link_task
link-prev s task a ne other = ground arith

link-head : (s : Tasks) (task : ℕ) → s.task_head ≢ 0 → (link_task task s).task_head ≡ s.task_head
unfolding link_task
link-head s task ne = ground arith

link-tail : (s : Tasks) (task : ℕ) → (link_task task s).task_tail ≡ task
unfolding link_task
link-tail s task = ground arith

link_first :
    (s : Tasks) (at : ℕ → ℕ) (task : ℕ)
    → s.task_head ≡ 0
    → task ≢ 0
    → (s.task_at task).next ≡ 0
    → (s.task_at task).prev ≡ 0
    → IsQueue (link_task task s) 1 (snoc 0 at task)
unfolding link_task
link_first s at task none_yet ne no_next no_prev = ground arith

link_last :
    (s : Tasks) (n : ℕ) (at : ℕ → ℕ) (task : ℕ)
    → IsQueue s (suc n) at
    → task ≢ 0
    → ((i : ℕ) → i < suc n → at i ≢ task)
    → (s.task_at task).next ≡ 0
    → (s.task_at task).prev ≡ 0
    → IsQueue (link_task task s) (suc n + 1) (snoc (suc n) at task)
link_last s n at task q ne fresh no_next no_prev = record {
  some_head = λ h.
      rw (old 0 (omega arith)) (ground (arith, link-head s task head, q.some_head (omega arith)));
  no_head = λ h. ground arith;
  tail = λ h. ground (arith, link-tail s task);
  nonzero = λ i h. ground (arith, q.nonzero i);
  distinct = λ i j h h' e. ground (arith, q.distinct i j, fresh i, fresh j);
  next_of = λ i h. elim (Bool-cases (i == n)) [
    | inl e ↦
        let end : i ≡ n = ground arith in
        rw (end, old n (omega arith), new (n + 1) (omega arith))
          (ground (arith, link-next s task (at n) head other, tail_at))
    | inr e ↦
        let apart : i ≢ n = ground arith in
        rw (old i (omega arith), old (i + 1) (omega arith))
          (ground (
            arith,
            link-next s task (at i) head other,
            tail_at,
            q.next_of i (omega arith),
            q.distinct i n,
          ))
  ];
  last = λ i h. rw (new i (omega arith)) (link-next s task task head other ∙ ground (arith, other));
  prev_of = λ i h. elim (Bool-cases (i == n)) [
    | inl e ↦
        let end : i ≡ n = ground arith in
        rw (end, old n (omega arith), new (n + 1) (omega arith))
          (ground (arith, link-prev s task task head other, tail_at))
    | inr e ↦
        let apart : i ≢ n = ground arith in
        rw (old i (omega arith), old (i + 1) (omega arith))
          (ground (
            arith,
            link-prev s task (at (i + 1)) head other,
            tail_at,
            q.prev_of i (omega arith),
            fresh (i + 1) (omega arith),
          ))
  ];
  first = λ h. rw (old 0 (omega arith)) (
      ground (
        arith,
        link-prev s task (at 0) head other,
        tail_at,
        q.first (omega arith),
        fresh 0 (omega arith),
      ));
}
  where
    head : s.task_head ≢ 0
    head = ground (arith, q.some_head (omega arith), q.nonzero 0 (omega arith))

    tail_at : s.task_tail ≡ at n
    tail_at = ground (arith, q.tail (omega arith))

    old : (i : ℕ) → i < suc n → snoc (suc n) at task i ≡ at i
    old i h = ground arith

    new : (i : ℕ) → i ≡ suc n → snoc (suc n) at task i ≡ task
    new i h = ground arith

    other : s.task_tail ≢ task
    other = ground (arith, fresh n (omega arith))

-- A task that is not in the queue yet and whose links are null is put at its end.
pub link_task-IsQueue :
    (s : Tasks) (n : ℕ) (at : ℕ → ℕ) (task : ℕ)
    → IsQueue s n at
    → task ≢ 0
    → ((i : ℕ) → i < n → at i ≢ task)
    → (s.task_at task).next ≡ 0
    → (s.task_at task).prev ≡ 0
    → IsQueue (link_task task s) (n + 1) (snoc n at task)
link_task-IsQueue s zero at task q ne fresh no_next no_prev =
    link_first s at task (q.no_head refl) ne no_next no_prev
link_task-IsQueue s (suc n) at task q ne fresh no_next no_prev =
    link_last s n at task q ne fresh no_next no_prev

-- A round-robin step: the task behind the current one, and the first behind the last.
pub task_get_next-IsQueue :
    (s : Tasks) (n : ℕ) (at : ℕ → ℕ) (i : ℕ)
    → IsQueue s n at
    → i < n
    → s.current_task ≡ at i
    → task_get_next s ≡ (if i + 1 == n then at 0 else at (i + 1))
unfolding task_get_next
task_get_next-IsQueue s n at i q small e = elim (Bool-cases (i + 1 == n)) [
  | inl last ↦ ground (arith, q.last i, q.some_head)
  | inr inner ↦ ground (arith, q.next_of i, q.nonzero (i + 1))
]

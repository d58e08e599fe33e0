-- ===== src/Task/Queue/Remove.antt =====
-- The removal of a task from the queue.
use nuts_os.Base.{
  ℕ, suc, ◌+◌, ◌-◌, ◌≡◌, ◌≢◌, ◌<◌, ◌==◌, if◌then◌else◌, ltb, arith, Bool-cases, inl, inr, ap, sym,
  ◌∙◌, ◌⊎◌, some, none,
}
use nuts_os.Task.{Task, Tasks, unlink, removed, task_list_remove}
use nuts_os.Task.Queue.{IsQueue}
use nuts_os.Task.Queue.Unlink.{
  unlink-next, unlink-prev, remove-task_at, remove-head, remove-tail, remove-current, unlink-head,
  unlink-tail,
}

-- The queue without its task `k`.
abbrev pub without : ℕ → (ℕ → ℕ) → ℕ → ℕ
without k at i = if ltb i k then at i else at (i + 1)

module _ (s : Tasks) (m : ℕ) (at : ℕ → ℕ) (j : ℕ) (q : IsQueue s (suc m) at)
    (less : suc j + 1 < suc m) where
  apart : (a b : ℕ) → a < suc m → b < suc m → a ≢ b → at a ≢ at b
  apart a b h h' ne e = ne (q.distinct a b h h' e)

  prev_is : (s.task_at (at (suc j))).prev ≡ at j
  prev_is = ground (arith, q.prev_of j (omega arith))

  next_is : (s.task_at (at (suc j))).next ≡ at (j + 2)
  next_is = ground (arith, q.next_of (suc j) (omega arith))

  next_after :
      (a : ℕ)
      → ((removed (at (suc j)) s).task_at a).next
        ≡ (if at j == a then at (j + 2) else (s.task_at a).next)
  next_after a =
      ap (λ (t : Task). t.next) (remove-task_at s (at (suc j)) a)
      ∙ unlink-next s (at (suc j)) (at j) (at (j + 2)) a prev_is next_is (q.nonzero j (omega arith))
          (apart j (suc j) (omega arith) (omega arith) (omega arith))

  prev_after :
      (a : ℕ)
      → ((removed (at (suc j)) s).task_at a).prev
        ≡ (if at (j + 2) == a then at j else (s.task_at a).prev)
  prev_after a =
      ap (λ (t : Task). t.prev) (remove-task_at s (at (suc j)) a)
      ∙ unlink-prev s (at (suc j)) (at j) (at (j + 2)) a prev_is next_is (q.nonzero j (omega arith))
          (apart j (suc j) (omega arith) (omega arith) (omega arith))

  before : (i : ℕ) → i < suc j → without (suc j) at i ≡ at i
  before i h = ground arith

  behind : (i : ℕ) → j < i → without (suc j) at i ≡ at (i + 1)
  behind i h = ground arith

  remove-next_of :
      (i : ℕ)
      → i + 1 < m
      → ((removed (at (suc j)) s).task_at (without (suc j) at i)).next ≡ without (suc j) at (i + 1)
  remove-next_of i h = elim (Bool-cases (ltb i j)) [
    | inl e ↦
        let small : i < j = ground arith in
        rw (before i (omega arith), before (i + 1) (omega arith))
          (ground (
            arith,
            next_after (at i),
            q.next_of i (omega arith),
            apart j i (omega arith) (omega arith) (omega arith),
          ))
    | inr e ↦ elim (Bool-cases (i == j)) [
      | inl e' ↦
          let here : i ≡ j = ground arith in
          rw (here, before j (omega arith), behind (j + 1) (omega arith))
            (ground (arith, next_after (at j)))
      | inr e' ↦
          let large : j < i = ground arith in
          rw (behind i (omega arith), behind (i + 1) (omega arith))
            (ground (
              arith,
              next_after (at (i + 1)),
              q.next_of (i + 1) (omega arith),
              apart j (i + 1) (omega arith) (omega arith) (omega arith),
            ))
    ]
  ]

  remove-prev_of :
      (i : ℕ)
      → i + 1 < m
      → ((removed (at (suc j)) s).task_at (without (suc j) at (i + 1))).prev ≡ without (suc j) at i
  remove-prev_of i h = elim (Bool-cases (ltb i j)) [
    | inl e ↦
        let small : i < j = ground arith in
        rw (before i (omega arith), before (i + 1) (omega arith))
          (ground (
            arith,
            prev_after (at (i + 1)),
            q.prev_of i (omega arith),
            apart (j + 2) (i + 1) (omega arith) (omega arith) (omega arith),
          ))
    | inr e ↦ elim (Bool-cases (i == j)) [
      | inl e' ↦
          let here : i ≡ j = ground arith in
          rw (here, before j (omega arith), behind (j + 1) (omega arith))
            (ground (arith, prev_after (at (j + 2))))
      | inr e' ↦
          let large : j < i = ground arith in
          rw (behind i (omega arith), behind (i + 1) (omega arith))
            (ground (
              arith,
              prev_after (at (i + 1 + 1)),
              q.prev_of (i + 1) (omega arith),
              apart (j + 2) (i + 1 + 1) (omega arith) (omega arith) (omega arith),
            ))
    ]
  ]

  remove-first : ((removed (at (suc j)) s).task_at (without (suc j) at 0)).prev ≡ 0
  remove-first = rw (before 0 (omega arith)) (
      ground (
        arith,
        prev_after (at 0),
        q.first (omega arith),
        apart (j + 2) 0 (omega arith) (omega arith) (omega arith),
      ))

  remove-last :
      (i : ℕ) → i + 1 ≡ m → ((removed (at (suc j)) s).task_at (without (suc j) at i)).next ≡ 0
  remove-last i h = rw (behind i (omega arith)) (
      ground (
        arith,
        next_after (at (i + 1)),
        q.last (i + 1) (omega arith),
        apart j (i + 1) (omega arith) (omega arith) (omega arith),
      ))

  remove-ends :
      ((removed (at (suc j)) s).task_head ≡ at 0) × ((removed (at (suc j)) s).task_tail ≡ at m)
  remove-ends =
      let head : s.task_head ≡ at 0 = q.some_head (omega arith) in
      let tail : s.task_tail ≡ at m = ground (arith, q.tail (omega arith)) in
      let front : at 0 ≢ at (suc j) = apart 0 (suc j) (omega arith) (omega arith) (omega arith) in
      let back : at m ≢ at (suc j) = apart m (suc j) (omega arith) (omega arith) (omega arith) in
      let same_head = unlink-head s (at (suc j)) in
      let same_tail = unlink-tail s (at (suc j)) in
      (
        remove-head s (at (suc j)) (λ e. front (sym head ∙ sym same_head ∙ e)) ∙ same_head ∙ head,
        remove-tail s (at (suc j)) (λ e. back (sym tail ∙ sym same_tail ∙ e)) ∙ same_tail ∙ tail,
      )

  remove-IsQueue : IsQueue (removed (at (suc j)) s) m (without (suc j) at)
  remove-IsQueue = record {
    some_head = λ h. remove-ends.0 ∙ sym (before 0 (omega arith));
    no_head = λ h. absurd (omega arith);
    tail = λ h. ground (arith, remove-ends.1, behind (m - 1) (omega arith));
    nonzero = λ i h. ground (arith, q.nonzero i, q.nonzero (i + 1));
    distinct = λ i k h h' e. ground (
      arith,
      q.distinct i k,
      q.distinct (i + 1) k,
      q.distinct i (k + 1),
      q.distinct (i + 1) (k + 1),
    );
    next_of = remove-next_of;
    last = remove-last;
    prev_of = remove-prev_of;
    first = λ h. remove-first;
  }

  current_after :
      (removed (at (suc j)) s).current_task
      ≡ (if at (suc j) == s.current_task then at (j + 2) else s.current_task)
  current_after =
      remove-current s (at (suc j)) (at (j + 2)) next_is (q.nonzero (j + 2) (omega arith))
        (λ e. apart j (suc j) (omega arith) (omega arith) (omega arith) (sym prev_is ∙ e))

comes_back :
    (s : Tasks) (task : ℕ)
    → ((s.task_at task).prev ≡ 0) ⊎ ((s.task_at task).next ≢ 0)
    → task_list_remove task s ≡ some (removed task s)
unfolding task_list_remove
comes_back s task linked = ground arith

-- A task between two others is removed with both its neighbours linked to each other; the order of
-- the rest is kept, and where it was the current task, the one behind it becomes current.
pub task_list_remove-IsQueue :
    (s : Tasks) (m : ℕ) (at : ℕ → ℕ) (j : ℕ)
    → IsQueue s (suc m) at
    → suc j + 1 < suc m
    → (s' : Tasks) × (task_list_remove (at (suc j)) s ≡ some s')
      × IsQueue s' m (without (suc j) at)
      × (s'.current_task ≡ (if at (suc j) == s.current_task then at (j + 2) else s.current_task))
task_list_remove-IsQueue s m at j q less =
    let followed : (s.task_at (at (suc j))).next ≢ 0 =
      λ e. q.nonzero (j + 2) (omega arith) (sym (next_is s m at j q less) ∙ e) in
    (
      removed (at (suc j)) s,
      comes_back s (at (suc j)) (inr followed),
      remove-IsQueue s m at j q less,
      current_after s m at j q less,
    )

-- The last of several tasks: the link of the task behind it, which is none, is written.
pub remove_last :
    (s : Tasks) (n : ℕ) (at : ℕ → ℕ) → IsQueue s (n + 2) at → task_list_remove (at (n + 1)) s ≡ none
unfolding task_list_remove
remove_last s n at q =
    let behind : (s.task_at (at (n + 1))).prev ≡ at n = q.prev_of n (omega arith) in
    ground (arith, behind, q.nonzero n (omega arith), q.last (n + 1) (omega arith))

remove_head :
    (s : Tasks) (task : ℕ)
    → (s.task_at task).prev ≡ 0
    → s.task_head ≡ task
    → (removed task s).task_head ≡ (s.task_at task).next
unfolding removed unlink
remove_head s task e e' = ground arith

unlink_first :
    (s : Tasks) (task a : ℕ)
    → (s.task_at task).prev ≡ 0
    → ((unlink task s).task_at a).prev ≡ (s.task_at a).prev
unfolding unlink
unlink_first s task a e = ground arith

-- Where the first of several tasks is removed, the task behind it becomes the head, but its link
-- back still names the removed task.
pub remove_first :
    (s : Tasks) (n : ℕ) (at : ℕ → ℕ)
    → IsQueue s n at
    → 1 < n
    → (s' : Tasks) × (task_list_remove (at 0) s ≡ some s')
      × (s'.task_head ≡ at 1)
      × ((s'.task_at (at 1)).prev ≡ at 0)
remove_first s n at q several = (
  removed (at 0) s,
  comes_back s (at 0) (inl (q.first (omega arith))),
  ground (
    arith,
    remove_head s (at 0) (q.first (omega arith)) (q.some_head (omega arith)),
    q.next_of 0 (omega arith),
  ),
  ap (λ (t : Task). t.prev) (remove-task_at s (at 0) (at 1))
      ∙ ground
          (arith, unlink_first s (at 0) (at 1) (q.first (omega arith)), q.prev_of 0 (omega arith)),
)

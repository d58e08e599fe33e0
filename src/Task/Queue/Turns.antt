-- ===== src/Task/Queue/Turns.antt =====
-- task_get_next and task_switch, step after step: the turns of the tasks of the queue.
use nuts_os.Base.{
  ℕ, zero, suc, ◌+◌, ◌-◌, ◌<◌, ◌≤◌, ◌≡◌, leb, arith, refl, Bool-cases, inl, inr, ap, ◌∙◌,
}
use nuts_os.Task.{Tasks, task_get_next, task_switch}
use nuts_os.Task.Queue.{IsQueue, task_get_next-IsQueue}

-- The state after `k` switches to the next task.
abbrev pub turns : ℕ → Tasks × ℕ → Tasks × ℕ
turns zero s = s
turns (suc k) s = turns k (task_switch (task_get_next (s.0)) s)

-- A switch changes the current task alone.
switch-IsQueue :
    (s : Tasks × ℕ) (task n : ℕ) (at : ℕ → ℕ)
    → IsQueue (s.0) n at
    → IsQueue (task_switch task s).0 n at
unfolding task_switch
switch-IsQueue s task n at q = record {
  some_head = q.some_head;
  no_head = q.no_head;
  tail = q.tail;
  nonzero = q.nonzero;
  distinct = q.distinct;
  next_of = q.next_of;
  last = q.last;
  prev_of = q.prev_of;
  first = q.first;
}

switched : (s : Tasks × ℕ) (task : ℕ) → (task_switch task s).0.current_task ≡ task
unfolding task_switch
switched s task = refl

turns-IsQueue :
    (k : ℕ) (s : Tasks × ℕ) (n : ℕ) (at : ℕ → ℕ) → IsQueue (s.0) n at → IsQueue (turns k s).0 n at
turns-IsQueue zero s n at q = q
turns-IsQueue (suc k) s n at q =
    turns-IsQueue k (task_switch (task_get_next (s.0)) s) n at
      (switch-IsQueue s (task_get_next (s.0)) n at q)

turns-add : (j k : ℕ) (s : Tasks × ℕ) → turns (j + k) s ≡ turns k (turns j s)
turns-add zero k s = let e : 0 + k ≡ k = omega arith in ap (λ n. turns n s) e
turns-add (suc j) k s =
    let e : suc j + k ≡ suc (j + k) = omega arith in
    ap (λ n. turns n s) e ∙ turns-add j k (task_switch (task_get_next (s.0)) s)

module _ (n : ℕ) (at : ℕ → ℕ) where
  -- Turns that do not come to the end of the queue.
  forward :
      (k i : ℕ) (s : Tasks × ℕ)
      → IsQueue (s.0) n at
      → i + k < n
      → s.0.current_task ≡ at i
      → (turns k s).0.current_task ≡ at (i + k)
  forward zero i s q small e = e ∙ ap at (omega arith)
  forward (suc k) i s q small e =
      let next = task_get_next (s.0) in
      let step : next ≡ at (i + 1) =
        ground (arith, task_get_next-IsQueue (s.0) n at i q (omega arith) e) in
      forward k (i + 1) (task_switch next s) (switch-IsQueue s next n at q) (omega arith)
        (switched s next ∙ step)
      ∙ ap at (omega arith)

  -- The turn behind the last task is the first one's.
  wrap :
      (s : Tasks × ℕ)
      → IsQueue (s.0) n at
      → 0 < n
      → s.0.current_task ≡ at (n - 1)
      → (turns 1 s).0.current_task ≡ at 0
  wrap s q some e =
      switched s (task_get_next (s.0))
      ∙ ground (arith, task_get_next-IsQueue (s.0) n at (n - 1) q (omega arith) e)

-- Where the current task is in a queue of `n` tasks, switching to the next task again and again
-- makes every task of the queue current after less than `n` switches.
pub every_task_has_its_turn :
    (s : Tasks × ℕ) (n : ℕ) (at : ℕ → ℕ) (i j : ℕ)
    → IsQueue (s.0) n at
    → i < n
    → j < n
    → s.0.current_task ≡ at i
    → (k : ℕ) × (k < n) × ((turns k s).0.current_task ≡ at j)
every_task_has_its_turn s n at i j q small small' e = elim (Bool-cases (leb i j)) [
  | inl ahead ↦
      let le : i ≤ j = ground arith in
      (j - i, omega arith, forward n at (j - i) i s q (omega arith) e ∙ ap at (omega arith))
  | inr behind ↦
      let lt : j < i = ground arith in
      let to_end = n - 1 - i in
      let s₁ = turns to_end s in
      let q₁ = turns-IsQueue to_end s n at q in
      let last : s₁.0.current_task ≡ at (n - 1) =
        forward n at to_end i s q (omega arith) e ∙ ap at (omega arith) in
      let s₂ = turns 1 s₁ in
      let q₂ = turns-IsQueue 1 s₁ n at q₁ in
      let start : s₂.0.current_task ≡ at 0 = wrap n at s₁ q₁ (omega arith) last in
      (
        to_end + (1 + j),
        omega arith,
        ap (λ (x : Tasks × ℕ). x.0.current_task) (turns-add to_end (1 + j) s ∙ turns-add 1 j s₁)
            ∙ forward n at j 0 s₂ q₂ (omega arith) start
            ∙ ap at (omega arith),
      )
]

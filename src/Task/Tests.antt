-- ===== src/Task/Tests.antt =====
-- The theorems on tasks at a queue of three.
use nuts_os.Base.{ℕ, ◌+◌, ◌<◌, ◌≡◌, ◌==◌, if◌then◌else◌, arith, refl, some}
use nuts_os.Task.{Task, Tasks, InterruptFrame, zero_registers, link_task, task_list_remove}
use nuts_os.Task.State.{frame_of}
use nuts_os.Task.Queue.Turns.{turns, every_task_has_its_turn}
use nuts_os.Task.Queue.{IsQueue, snoc, link_task-IsQueue}
use nuts_os.Task.Queue.Remove.{without, task_list_remove-IsQueue, remove_first}

abbrev task : ℕ → ℕ → Task
task next prev = record {
  page_directory = record { addr = 0; directory_entry = 0; dir_count = 0; entries_count = 0 };
  registers = zero_registers;
  process = 0;
  next = next;
  prev = prev;
}

-- The tasks at 1, 2 and 3, of which the second runs; 4 is not linked.
abbrev tasks : Tasks
tasks = record {
  task_at = λ a.
      if a == 1
      then task 2 0
      else if a == 2
      then task 3 1
      else if a == 3
      then task 0 2
      else task 0 0;
  current_task = 2;
  task_tail = 3;
  task_head = 1;
}

abbrev at : ℕ → ℕ
at i = i + 1

tasks-IsQueue : IsQueue tasks 3 at
tasks-IsQueue = record {
  some_head = λ h. refl;
  no_head = λ h. absurd (omega arith);
  tail = λ h. refl;
  nonzero = λ i h. omega arith;
  distinct = λ i j h h' e. omega arith;
  next_of = λ i h. ground arith;
  last = λ i h. ground arith;
  prev_of = λ i h. ground arith;
  first = λ h. refl;
}

link_task-IsQueue_example : IsQueue (link_task 4 tasks) 4 (snoc 3 at 4)
link_task-IsQueue_example =
    link_task-IsQueue tasks 3 at 4 tasks-IsQueue (omega arith) (λ i h. omega arith) refl refl

task_list_remove-IsQueue_example :
    (s' : Tasks) × (task_list_remove 2 tasks ≡ some s')
    × IsQueue s' 2 (without 1 at)
    × (s'.current_task ≡ (if 2 == tasks.current_task then at 2 else 2))
task_list_remove-IsQueue_example = task_list_remove-IsQueue tasks 2 at 0 tasks-IsQueue (omega arith)

remove_first_example :
    (s' : Tasks) × (task_list_remove 1 tasks ≡ some s')
    × (s'.task_head ≡ 2)
    × ((s'.task_at 2).prev ≡ 1)
remove_first_example = remove_first tasks 3 at tasks-IsQueue (omega arith)

abbrev frame : InterruptFrame
frame = frame_of 9 (record zero_registers { esp = 0x3ff000; eax = 7 })

-- From the second task, the first one is two switches ahead.
every_task_has_its_turn_example : (k : ℕ) × (k < 3) × ((turns k (tasks, 0)).0.current_task ≡ at 0)
every_task_has_its_turn_example =
    every_task_has_its_turn (tasks, 0) 3 at 1 0 tasks-IsQueue (omega arith) (omega arith) refl

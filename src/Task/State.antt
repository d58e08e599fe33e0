-- ===== src/Task/State.antt =====
-- The registers that a task keeps while it does not run.
use nuts_os.Base.{ℕ, ◌+◌, ◌*◌, ◌%◌, ◌^◌, ◌≡◌, ◌≢◌, some, arith}
use nuts_os.Paging.{Words}
use nuts_os.Task.{
  Registers, InterruptFrame, Tasks, task_save_state, task_current_save_state,
  task_current_get_stack_item,
}

-- The frame that a task's registers are restored from.
abbrev pub frame_of : ℕ → Registers → InterruptFrame
frame_of reserved r = record {
  edi = r.edi;
  esi = r.esi;
  ebp = r.ebp;
  reserved = reserved;
  ebx = r.ebx;
  edx = r.edx;
  ecx = r.ecx;
  eax = r.eax;
  ip = r.ip;
  cs = r.cs;
  flags = r.flags;
  esp = r.esp;
  ss = r.ss;
}

-- A running task is saved with every register of the interrupt frame, and no other task is
-- changed; the items of its stack are then read from the frame's stack pointer.
pub task_current_save_state_lem :
    (frame : InterruptFrame) (w : Words) (s : Tasks)
    → s.current_task ≢ 0
    → (s' : Tasks) × (task_current_save_state frame s ≡ some s')
      × (frame_of frame.reserved (s'.task_at s.current_task).registers ≡ frame)
      × ((task : ℕ) → task ≢ s.current_task → s'.task_at task ≡ s.task_at task)
      × ((index : ℕ)
          → task_current_get_stack_item w index s' ≡ some (w ((frame.esp + 4 * index) % 2 ^ 32)))
unfolding task_current_save_state task_save_state task_current_get_stack_item
task_current_save_state_lem frame w s ne = (
  task_save_state s.current_task frame s,
  ground arith,
  ground arith,
  λ task n. ground arith,
  λ index. ground arith,
)

-- ===== src/Idt/Syscall.antt =====
-- isr80h_handler of idt/idt.c: a system call of the running task, through the table of commands.
use nuts_os.Base.{
  ℕ, ◌+◌, ◌-◌, ◌*◌, ◌%◌, ◌^◌, ◌≡◌, ◌≢◌, Bool, if◌then◌else◌, Option, none, some, arith, refl, ap,
  Bool-cases, inl, inr,
}
use nuts_os.Base.Int.{ℤ, pos}
use nuts_os.Paging.{Words}
use nuts_os.Task.{
  InterruptFrame, Tasks, task_save_state, task_current_save_state, task_current_get_stack_item,
}
use nuts_os.Isr80h.{
  Isr80hCommands, PrintOps, isr80h_handle_command, isr80h_register_commands, isr80h_command_print,
}
use nuts_os.Isr80h.Commands.{no_commands, isr80h_register_commands_lem}

-- A state of the kernel that holds the tasks.
pub record TasksOf (K : Type 0) : Type 0 where
  pub tasks : K → Tasks
  pub with_tasks : Tasks → K → K

-- The state and the result of the command. none is the panic.
unfoldable pub isr80h_handler :
    {K : Type 0}
    → TasksOf K
    → Isr80hCommands InterruptFrame K
    → ℤ
    → InterruptFrame
    → K
    → Option (K × ℕ)
isr80h_handler held commands command frame k = elim (task_current_save_state frame (held.tasks k)) [
  | none ↦ none
  | some s ↦ some (isr80h_handle_command commands command frame (held.with_tasks s k))
]

-- The tasks beside what print changes.
abbrev pub beside : {Screen : Type 0} → TasksOf (Tasks × Screen)
beside = record { tasks = λ k. k.0; with_tasks = λ s k. (s, k.1) }

abbrev pub item_or_zero : Option ℕ → ℕ
item_or_zero none = 0
item_or_zero (some item) = item

-- The operations of the tasks that the print command calls. Without a current task the item is not
-- read, since the handler has panicked before.
abbrev pub task_ops :
    {Screen : Type 0}
    → Words
    → (Tasks → ℕ → Bool)
    → (ℕ → Screen → Screen)
    → PrintOps (Tasks × Screen)
task_ops w validate print = record {
  task_current_get_stack_item = λ k index. item_or_zero (task_current_get_stack_item w index k.0);
  task_current_validate_pointer = λ k p. validate k.0 p;
  print = λ k p. (k.0, print p k.1);
}

pub saved :
    (frame : InterruptFrame) (s : Tasks)
    → s.current_task ≢ 0
    → task_current_save_state frame s ≡ some (task_save_state s.current_task frame s)
unfolding task_current_save_state
saved frame s ne = ground arith

pub top_item :
    (frame : InterruptFrame) (w : Words) (s : Tasks)
    → s.current_task ≢ 0
    → task_current_get_stack_item w 0 (task_save_state s.current_task frame s)
      ≡ some (w (frame.esp % 2 ^ 32))
unfolding task_current_get_stack_item task_save_state
top_item frame w s ne = ground (arith, ap w index)
  where
    index : (frame.esp + 4 * 0) % 2 ^ 32 ≡ frame.esp % 2 ^ 32
    index = omega arith

-- With the kernel's commands registered, system call 1 of a running task saves the caller's
-- registers, takes the word at the caller's stack pointer, and prints at that address and returns
-- 0 if the task may read it; else it prints nothing and returns -1.
pub isr80h_handler-print :
    {Screen : Type 0} (w : Words) (validate : Tasks → ℕ → Bool) (print : ℕ → Screen → Screen)
    (frame : InterruptFrame) (s : Tasks) (screen : Screen)
    → s.current_task ≢ 0
    → let s' = task_save_state s.current_task frame s in
      let msg_ptr = w (frame.esp % 2 ^ 32) in
      (commands : Isr80hCommands InterruptFrame (Tasks × Screen)) × (isr80h_register_commands
          (task_ops w validate print)
          no_commands
        ≡ some commands)
      × (isr80h_handler beside commands (pos 1) frame (s, screen)
          ≡ some (
              if validate s' msg_ptr
              then ((s', print msg_ptr screen), 0)
              else ((s', screen), 2 ^ 32 - 1)))
unfolding isr80h_handler isr80h_command_print
isr80h_handler-print w validate print frame s screen ne =
    let s' = task_save_state s.current_task frame s in
    let (commands, e, run) = isr80h_register_commands_lem (task_ops w validate print) in
    (
      commands,
      e,
      elim (Bool-cases (validate s' (w (frame.esp % 2 ^ 32)))) [
        | inl ok ↦
            rw
              (
                saved frame s ne,
                isr80h_handler,
                run (pos 1) frame (s', screen),
                top_item frame w s ne,
                ok,
              )
              refl
        | inr bad ↦
            rw
              (
                saved frame s ne,
                isr80h_handler,
                run (pos 1) frame (s', screen),
                top_item frame w s ne,
                bad,
              )
              refl
      ],
    )

-- ===== src/Kernel/Syscall.antt =====
-- isr80h_handler on the state of the kernel: a system call of the running process.
mod Tests
use nuts_os.Base.{
  ℕ, ◌+◌, ◌-◌, ◌*◌, ◌%◌, ◌^◌, ◌<◌, ◌≤◌, ◌≡◌, ◌≢◌, ◌⊎◌, Bool, true, false, if◌then◌else◌, Option,
  none, some, List, arith, refl, ap, sym, ◌∙◌, Bool-cases, inl, inr,
}
use nuts_os.Base.Int.{ℤ, pos}
use nuts_os.Terminal.{Terminal, print}
use nuts_os.Terminal.Messages.{Stands, is_text, size, written, print-written}
use nuts_os.Task.{InterruptFrame, Tasks, Task, task_save_state, task_current_get_stack_item}
use nuts_os.Isr80h.{Isr80hCommands, isr80h_handle_command, isr80h_command_print}
use nuts_os.Isr80h.Commands.{command_result}
use nuts_os.Idt.Syscall.{TasksOf, isr80h_handler, saved, top_item, item_or_zero}
use nuts_os.Paging.Translate.{translate}
use nuts_os.Process.{Kernel, Process, task_current_validate_pointer, process_validate_pointer}
use nuts_os.Process.Pages.{IsLoaded}
use nuts_os.Process.Space.{physical}
use nuts_os.Kernel.{shown, kernel_ops, print_string, current_directory, virtual}

abbrev pub kernel_tasks : TasksOf (Kernel × Terminal)
kernel_tasks = record {
  tasks = λ s. s.0.tasks;
  with_tasks = λ tasks s. (record (s.0) { tasks = tasks }, s.1);
}

-- The kernel with the caller's registers saved.
abbrev pub entered : InterruptFrame → Kernel → Kernel
entered frame k = record k { tasks = task_save_state k.tasks.current_task frame k.tasks }

-- The commands of the kernel are in place.
abbrev pub IsRegistered : Isr80hCommands InterruptFrame (Kernel × Terminal) → Type 0
IsRegistered commands =
    (command : ℤ) (frame : InterruptFrame) (s : Kernel × Terminal)
    → isr80h_handle_command commands command frame s ≡ command_result kernel_ops command frame s

same_directory :
    (frame : InterruptFrame) (k : Kernel)
    → current_directory (entered frame k) ≡ current_directory k
unfolding task_save_state
same_directory frame k = ground arith

-- The word that the caller's stack pointer leads to.
abbrev pub argument : InterruptFrame → Kernel → ℕ
argument frame k = virtual k k.words (frame.esp % 2 ^ 32)

-- The print command: the test of the argument decides.
print_call :
    (commands : Isr80hCommands InterruptFrame (Kernel × Terminal)) (frame : InterruptFrame)
    (k : Kernel) (t : Terminal)
    → IsRegistered commands
    → k.tasks.current_task ≢ 0
    → isr80h_handler kernel_tasks commands (pos 1) frame (k, t)
      ≡ some (
          if task_current_validate_pointer (entered frame k) (argument frame k)
          then ((entered frame k, print_string (entered frame k) (argument frame k) t), 0)
          else ((entered frame k, t), 2 ^ 32 - 1))
unfolding isr80h_handler isr80h_command_print
print_call commands frame k t run ne =
    let k' = entered frame k in
    let top =
      ap item_or_zero (top_item frame (virtual k' k.words) k.tasks ne)
      ∙ ap (λ d. k.words (translate k.words d (frame.esp % 2 ^ 32))) (same_directory frame k) in
    elim (Bool-cases (task_current_validate_pointer k' (argument frame k))) [
      | inl good ↦
          rw (saved frame k.tasks ne, isr80h_handler)
            (rw (run (pos 1) frame (k', t)) (rw (top, good) refl))
      | inr bad ↦
          rw (saved frame k.tasks ne, isr80h_handler)
            (rw (run (pos 1) frame (k', t)) (rw (top, bad) refl))
    ]

-- The process of the running task.
abbrev pub running_process : Kernel → Process
running_process k = k.process_at (k.tasks.task_at k.tasks.current_task).process

validate-entered :
    (frame : InterruptFrame) (k : Kernel) (ptr : ℕ)
    → task_current_validate_pointer (entered frame k) ptr
      ≡ process_validate_pointer (running_process k) ptr
unfolding task_current_validate_pointer task_save_state
validate-entered frame k ptr =
    let same : ((entered frame k).tasks.task_at k.tasks.current_task).process
        ≡ (k.tasks.task_at k.tasks.current_task).process =
      ground arith in
    ap (λ q. process_validate_pointer (k.process_at q) ptr) same

-- The address space of a process, as load_task-space makes it.
abbrev pub IsPlaced : Kernel → Type 0
IsPlaced k =
    (v : ℕ)
    → v < 2 ^ 32
    → translate k.words (current_directory k) v ≡ physical (running_process k) v

in_program :
    (p : Process) (i : ℕ)
    → IsLoaded p
    → i < p.size
    → (process_validate_pointer p (0x400000 + i) ≡ true) × (physical p (0x400000 + i) ≡ p.ptr + i)
unfolding process_validate_pointer
in_program p i l inside = (ground (arith, l.at, l.fits_virt), ground arith)

program_byte :
    (frame : InterruptFrame) (k : Kernel) (i j : ℕ)
    → IsLoaded (running_process k)
    → IsPlaced k
    → i + j < (running_process k).size
    → translate k.words (current_directory (entered frame k)) (0x400000 + i + j)
      ≡ (running_process k).ptr + i + j
program_byte frame k i j l placed inside =
    let p = running_process k in
    let v = 0x400000 + i + j in
    let at : v ≡ 0x400000 + (i + j) = omega arith in
    ap (λ d. translate k.words d v) (same_directory frame k)
    ∙ placed v (omega (arith, l.fits_virt))
    ∙ ap (physical p) at
    ∙ (in_program p (i + j) l inside).1
    ∙ omega arith

-- System call 1 of a running process that is loaded, in the address space that it was given, with
-- the kernel's commands registered: where the word that its stack pointer leads to is an address of
-- its program, and a text stands there that ends inside the program, the call saves the caller's
-- registers, writes that text on the screen and returns 0.
pub print_program :
    (commands : Isr80hCommands InterruptFrame (Kernel × Terminal)) (frame : InterruptFrame)
    (k : Kernel) (t : Terminal) (cs : List ℕ) (i : ℕ)
    → IsRegistered commands
    → k.tasks.current_task ≢ 0
    → IsLoaded (running_process k)
    → IsPlaced k
    → k.words (physical (running_process k) (frame.esp % 2 ^ 32)) ≡ 0x400000 + i
    → is_text cs ≡ true
    → Stands k.files.store.memory ((running_process k).ptr + i) cs
    → i + size cs < (running_process k).size
    → isr80h_handler kernel_tasks commands (pos 1) frame (k, t)
      ≡ some ((entered frame k, written cs t), 0)
print_program commands frame k t cs i run ne l placed top text stands fits =
    let p = running_process k in
    let k' = entered frame k in
    let at : argument frame k ≡ 0x400000 + i =
      ap k.words (placed (frame.esp % 2 ^ 32) (omega arith)) ∙ top in
    let valid =
      validate-entered frame k (argument frame k)
      ∙ ap (process_validate_pointer p) at
      ∙ (in_program p i l (omega (arith, fits))).0 in
    let behind : Stands (virtual k' k.files.store.memory) (0x400000 + i) cs = λ j h.
      ap k.files.store.memory (program_byte frame k i j l placed (omega (arith, fits)))
      ∙ stands j h in
    let printed =
      print-written (2 ^ 32) (virtual k' k.files.store.memory) (0x400000 + i) cs t text behind
        (omega (arith, fits, l.fits_virt)) in
    print_call commands frame k t run ne
    ∙ rw valid (rw at (ap (λ r. some ((k', shown t r), 0)) printed))

-- An address below the program or from its end on, and below the stack or from its end on.
outside :
    (p : Process) (a : ℕ)
    → IsLoaded p
    → (a < 0x400000) ⊎ (0x400000 + p.size ≤ a)
    → (a < 0x3FB000) ⊎ (0x3FF000 ≤ a)
    → process_validate_pointer p a ≡ false
unfolding process_validate_pointer
outside p a l no_program no_stack = ground (arith, l.at, l.fits_virt, l.stack_at, l.stack_pages)

-- System call 1 of a running process that is loaded, with the kernel's commands registered, where
-- the word that its stack pointer leads to is an address that is neither in its program nor in its
-- stack of 16 KiB: the call saves the caller's registers, prints nothing and returns -1.
pub print_refused :
    (commands : Isr80hCommands InterruptFrame (Kernel × Terminal)) (frame : InterruptFrame)
    (k : Kernel) (t : Terminal)
    → IsRegistered commands
    → k.tasks.current_task ≢ 0
    → IsLoaded (running_process k)
    → (argument frame k < 0x400000) ⊎ (0x400000 + (running_process k).size ≤ argument frame k)
    → (argument frame k < 0x3FB000) ⊎ (0x3FF000 ≤ argument frame k)
    → isr80h_handler kernel_tasks commands (pos 1) frame (k, t)
      ≡ some ((entered frame k, t), 2 ^ 32 - 1)
print_refused commands frame k t run ne l no_program no_stack =
    let invalid =
      validate-entered frame k (argument frame k)
      ∙ outside (running_process k) (argument frame k) l no_program no_stack in
    print_call commands frame k t run ne ∙ rw invalid refl

-- ===== src/Isr80h.antt =====
-- isr80h/isr80h.c, isr80h/isr80h.h, isr80h/misc/misc.c and isr80h/io/io.c: the commands of
-- interrupt 0x80. A pointer that the code returns is the integer it is cast from.
pub mod Commands
use nuts_os.Base.{ℕ, ◌-◌, ◌^◌, if◌then◌else◌, ltb, update, Bool, Option, none, some}
use nuts_os.Base.Int.{ℤ, pos, negsuc}

abbrev pub int80h_command_sum : ℕ
int80h_command_sum = 0

abbrev pub int80h_command_print : ℕ
int80h_command_print = 1

abbrev pub int80h_commmand_max : ℕ
int80h_commmand_max = 2

-- A command is given the frame of its caller and the state of the kernel, on which the print
-- command writes, and returns the new state with its result.
abbrev pub Isr80hCommand : Type 0 → Type 0 → Type 0
Isr80hCommand Frame Kernel = Frame → Kernel → Kernel × ℕ

-- The array of commands: none is a null pointer.
abbrev pub Isr80hCommands : Type 0 → Type 0 → Type 0
Isr80hCommands Frame Kernel = ℕ → Option (Isr80hCommand Frame Kernel)

run_command :
    {Frame Kernel : Type 0} → Option (Isr80hCommand Frame Kernel) → Frame → Kernel → Kernel × ℕ
run_command none frame kernel = (kernel, 0)
run_command (some command_func) frame kernel = command_func frame kernel

unfoldable pub isr80h_handle_command :
    {Frame Kernel : Type 0} → Isr80hCommands Frame Kernel → ℤ → Frame → Kernel → Kernel × ℕ
unfolding run_command
isr80h_handle_command commands (negsuc n) frame kernel = (kernel, 0)
isr80h_handle_command commands (pos command) frame kernel =
    if ltb command int80h_commmand_max
    then run_command (commands command) frame kernel
    else (kernel, 0)

-- none is the panic, which does not return.
insert_command :
    {Frame Kernel : Type 0}
    → Isr80hCommands Frame Kernel
    → ℕ
    → Isr80hCommand Frame Kernel
    → Option (Isr80hCommand Frame Kernel)
    → Option (Isr80hCommands Frame Kernel)
insert_command commands command_id command (some old) = none
insert_command commands command_id command none = some (update commands command_id (some command))

unfoldable pub isr80h_register_command :
    {Frame Kernel : Type 0}
    → Isr80hCommands Frame Kernel
    → ℕ
    → Isr80hCommand Frame Kernel
    → Option (Isr80hCommands Frame Kernel)
unfolding insert_command
isr80h_register_command commands command_id command =
    if ltb command_id int80h_commmand_max
    then insert_command commands command_id command (commands command_id)
    else none

unfoldable pub isr80h_command_sum : {Frame Kernel : Type 0} → Isr80hCommand Frame Kernel
isr80h_command_sum frame kernel = (kernel, 10)

-- The task's side of the print command: the first item of the caller's stack, the test of
-- the pointer, and print.
pub record PrintOps (Kernel : Type 0) : Type 0 where
  pub task_current_get_stack_item : Kernel → ℕ → ℕ
  pub task_current_validate_pointer : Kernel → ℕ → Bool
  pub print : Kernel → ℕ → Kernel

unfoldable pub isr80h_command_print :
    {Frame Kernel : Type 0} → PrintOps Kernel → Isr80hCommand Frame Kernel
isr80h_command_print ops frame kernel =
    let msg_ptr = ops.task_current_get_stack_item kernel 0 in
    if ops.task_current_validate_pointer kernel msg_ptr
    then (ops.print kernel msg_ptr, 0)
    else (kernel, 2 ^ 32 - 1)

register_print :
    {Frame Kernel : Type 0}
    → PrintOps Kernel
    → Option (Isr80hCommands Frame Kernel)
    → Option (Isr80hCommands Frame Kernel)
register_print ops none = none
register_print ops (some commands) =
    isr80h_register_command commands int80h_command_print (isr80h_command_print ops)

unfoldable pub isr80h_register_commands :
    {Frame Kernel : Type 0}
    → PrintOps Kernel
    → Isr80hCommands Frame Kernel
    → Option (Isr80hCommands Frame Kernel)
unfolding register_print
isr80h_register_commands ops commands =
    register_print ops (isr80h_register_command commands int80h_command_sum isr80h_command_sum)

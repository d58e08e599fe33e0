-- ===== src/Isr80h/Commands.antt =====
-- What a program finds behind interrupt 0x80.
use nuts_os.Base.{ℕ, zero, suc, ◌≡◌, update, none, some, arith, refl}
use nuts_os.Base.Int.{ℤ, pos, negsuc}
use nuts_os.Isr80h.{
  Isr80hCommand, Isr80hCommands, PrintOps, isr80h_handle_command, isr80h_register_command,
  isr80h_register_commands, isr80h_command_sum, isr80h_command_print, insert_command,
  register_print,
}

-- What the source means each command to do: unknown ones leave the kernel as it is and give 0.
abbrev pub command_result :
    {Frame Kernel : Type 0} → PrintOps Kernel → ℤ → Frame → Kernel → Kernel × ℕ
command_result ops (negsuc n) frame kernel = (kernel, 0)
command_result ops (pos zero) frame kernel = (kernel, 10)
command_result ops (pos (suc zero)) frame kernel = isr80h_command_print ops frame kernel
command_result ops (pos (suc (suc n))) frame kernel = (kernel, 0)

abbrev pub no_commands : {Frame Kernel : Type 0} → Isr80hCommands Frame Kernel
no_commands k = none

abbrev registered : {Frame Kernel : Type 0} → PrintOps Kernel → Isr80hCommands Frame Kernel
registered ops =
    update (update no_commands 0 (some isr80h_command_sum)) 1 (some (isr80h_command_print ops))

handle_registered :
    {Frame Kernel : Type 0} (ops : PrintOps Kernel) (command : ℤ) (frame : Frame) (kernel : Kernel)
    → isr80h_handle_command (registered ops) command frame kernel
      ≡ command_result ops command frame kernel
unfolding isr80h_handle_command isr80h_command_sum
handle_registered ops (negsuc n) frame kernel = refl
handle_registered ops (pos zero) frame kernel = refl
handle_registered ops (pos (suc zero)) frame kernel = refl
handle_registered ops (pos (suc (suc n))) frame kernel = ground arith

registers :
    {Frame Kernel : Type 0} (ops : PrintOps Kernel)
    → isr80h_register_commands {Frame = Frame} ops no_commands ≡ some (registered ops)
unfolding isr80h_register_commands register_print isr80h_register_command insert_command
registers ops = refl

-- From the empty table, registering the commands of the kernel does not panic, and afterwards
-- interrupt 0x80 runs sum on 0 and print on 1; any other number, negative ones included, gives 0
-- and leaves the kernel as it is.
pub isr80h_register_commands_lem :
    {Frame Kernel : Type 0} (ops : PrintOps Kernel)
    → (commands : Isr80hCommands Frame Kernel) × (isr80h_register_commands ops no_commands
        ≡ some commands)
      × ((command : ℤ) (frame : Frame) (kernel : Kernel)
          → isr80h_handle_command commands command frame kernel
            ≡ command_result ops command frame kernel)
isr80h_register_commands_lem ops = (registered ops, registers ops, handle_registered ops)

insert_twice :
    {Frame Kernel : Type 0} (commands commands' : Isr80hCommands Frame Kernel) (command_id : ℕ)
    (command : Isr80hCommand Frame Kernel)
    → isr80h_register_command commands command_id command ≡ some commands'
    → (c : Isr80hCommand Frame Kernel) → isr80h_register_command commands' command_id c ≡ none
unfolding isr80h_register_command insert_command
insert_twice commands commands' command_id command e c = ground arith

-- ===== src/Idt/Traps.antt =====
-- The handlers of idt.c that the processor enters for a key, an unused interrupt and a division by
-- zero.
use nuts_os.Base.{ℕ, ◌≡◌, Option, none, some, List, ◌∷◌, refl}
use nuts_os.Terminal.{Terminal}
use nuts_os.Terminal.Messages.{codes, print_text, print_text-written, written}

-- The bytes that were put out, each with its port, the last one first.
pub record Device : Type 0 where
  pub terminal : Terminal
  pub ports : List (ℕ × ℕ)

abbrev pub outb : ℕ → ℕ → Device → Device
outb port val d = record d { ports = (port, val) ∷ d.ports }

abbrev on_screen : Device → Option Terminal → Option Device
on_screen d none = none
on_screen d (some t) = some (record d { terminal = t })

unfoldable pub no_interrupt_handler : Device → Device
no_interrupt_handler d = outb 0x20 0x20 d

abbrev pub acknowledged : Option Device → Option Device
acknowledged none = none
acknowledged (some d) = some (outb 0x20 0x20 d)

unfoldable pub int21h_handler : Device → Option Device
int21h_handler d = acknowledged (on_screen d (print_text (codes "Keyboard pressed!\n") d.terminal))

unfoldable pub idt_zero : Device → Option Device
idt_zero d = on_screen d (print_text (codes "Divide by zero error\n") d.terminal)

-- A key and an unused interrupt are acknowledged to the controller at port 0x20, once; a division
-- by zero is not. Each message is written on the screen, and printing it comes to an end.
pub traps_lem :
    (d : Device)
    → (int21h_handler d
        ≡ some (record {
          terminal = written (codes "Keyboard pressed!\n") d.terminal;
          ports = (0x20, 0x20) ∷ d.ports;
        }))
      × (idt_zero d
          ≡ some (record d { terminal = written (codes "Divide by zero error\n") d.terminal }))
      × (no_interrupt_handler d ≡ record d { ports = (0x20, 0x20) ∷ d.ports })
unfolding int21h_handler idt_zero no_interrupt_handler
traps_lem d = (
  rw (print_text-written (codes "Keyboard pressed!\n") d.terminal refl) refl,
  rw (print_text-written (codes "Divide by zero error\n") d.terminal refl) refl,
  refl,
)

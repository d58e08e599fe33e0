-- ===== src/Kernel/Boot.antt =====
-- kmain up to the first process: no part of it panics, and what it leaves.
use nuts_os.Base.{ℕ, ◌<◌, ◌≡◌, true, some}
use nuts_os.Base.Int.{ℤ}
use nuts_os.Terminal.{Terminal}
use nuts_os.Gdt.{gdt, get_raw_gdt_struct}
use nuts_os.Heap.Store.{Store}
use nuts_os.Idt.Gates.{target, handler}
use nuts_os.Task.{InterruptFrame}
use nuts_os.Isr80h.{isr80h_handle_command}
use nuts_os.Isr80h.Commands.{command_result}
use nuts_os.Process.{Kernel}
use nuts_os.Kernel.{Machine, Image, zero_tss, kernel_ops}

-- What the start leaves: every part set up, no process and no task touched.
pub record Booted (image : Image) (m m' : Machine) : Type 0 where
  pub segments : get_raw_gdt_struct (gdt image.tss_address) ≡ some m'.gdt_raw
  pub gates : (k : ℕ) → k < 512 → target (m'.idt k) ≡ handler image.handlers k
  pub tss : m'.tss ≡ record zero_tss { ss0 = 0x10; esp0 = 0x600000 }
  pub paging : m'.paging ≡ true
  pub directory : m'.directory ≡ m'.kernel_chunk.directory_entry
  pub commands :
      (command : ℤ) (frame : InterruptFrame) (s : Kernel × Terminal)
      → isr80h_handle_command m'.commands command frame s
        ≡ command_result kernel_ops command frame s
  pub tasks : m'.kernel.tasks ≡ m.kernel.tasks
  pub processes : m'.kernel.processes ≡ m.kernel.processes

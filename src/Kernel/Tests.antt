-- ===== src/Kernel/Tests.antt =====
-- The theorems on the start at a machine without files, tasks and commands.
use nuts_os.Base.{ℕ, some, false, [], ◌+◌, ◌==◌, if◌then◌else◌}
use nuts_os.File.{Filesystem, null_descriptor}
use nuts_os.Idt.{empty_gate}
use nuts_os.Isr80h.Commands.{no_commands}
use nuts_os.Task.{zero_registers}
use nuts_os.Process.{empty_process}
use nuts_os.Kernel.{Image, Machine, zero_tss}

-- A file system that accepts the disk and whose files hold 8 bytes.
abbrev system : ℕ → Filesystem
system address = record {
  resolve = λ disk s. (0, s);
  fs_open = λ disk path mode s. (0x6000, s);
  read = λ disk handle size nmemb out s. (nmemb, s);
  seek = λ handle offset mode s. (0, s);
  stat =
      λ disk handle stat s. (0, record s { memory = λ a. if a == stat + 4 then 8 else s.memory a });
  close = λ handle s. (0, s);
}

abbrev image : Image
image = record {
  handlers = record {
    no_interrupt = 0x100000;
    idt_zero = 0x100100;
    int21h = 0x100200;
    isr80h_wrapper = 0x100300;
  };
  tss_address = 0x110000;
  idt_address = 0x120000;
  fat16_fs = 0x130000;
  first_program = 0x140000;
  mode_str = 0x140100;
  stat = 0x150000;
  ops = record {
    system_at = system;
    parse = λ filename s. (some (0, 0x160000), s);
    filesystem_of = λ disk. 0x130000;
  };
}

abbrev machine : Machine
machine = record {
  terminal = record { video_mem = λ _. 0; terminal_row = 3; terminal_col = 4 };
  gdt_raw = [];
  kernel = record {
    files = record {
      filesystems = λ _. 0;
      file_descriptors = λ _. 0;
      descriptor_at = λ _. null_descriptor;
      store = record {
        heap = record { table = record { entries = λ i. i; total = 0 }; saddr = 0 };
        memory = λ a. if a == 0x140100 then b'r' else 0;
      };
      errno = 0;
    };
    words = λ a. a;
    tasks = record {
      task_at = λ _. record {
        page_directory = record { addr = 0; directory_entry = 0; dir_count = 0; entries_count = 0 };
        registers = zero_registers;
        process = 0;
        next = 0;
        prev = 0;
      };
      current_task = 0;
      task_tail = 0;
      task_head = 0;
    };
    processes = λ _. 0;
    process_at = λ _. empty_process;
  };
  disk = record { type = 0; sector_size = 0; id = 0; filesystem = 0 };
  idt = λ _. empty_gate;
  idtr = record { limit = 0; base = 0 };
  tss = zero_tss;
  kernel_chunk = record { addr = 0; directory_entry = 0; dir_count = 0; entries_count = 0 };
  directory = 0;
  paging = false;
  commands = no_commands;
}

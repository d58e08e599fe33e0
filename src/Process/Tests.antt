-- ===== src/Process/Tests.antt =====
-- The theorems on processes at one task, and at a kernel without processes.
use nuts_os.Base.{
  ℕ, ◌+◌, ◌<◌, ◌≡◌, ◌==◌, if◌then◌else◌, arith, refl, some, true, ok, bit_or, update, ◌*◌, ◌/◌, ◌^◌,
}
use nuts_os.File.{Filesystem, FileOps, null_descriptor}
use nuts_os.Paging.{Words}
use nuts_os.Paging.Table.{IsDirectory, entry_for}
use nuts_os.Paging.Translate.{translate}
use nuts_os.Paging.Tests.{words, words-IsDirectory}
use nuts_os.Task.{Tasks, zero_registers}
use nuts_os.Process.{
  Process, Kernel, directory_of, load_task, empty_process, process_map_memory,
  process_validate_pointer,
}
use nuts_os.Process.Pages.{IsLoaded, page_of, space, validated_is_mapped}
use nuts_os.Heap.Kernel.{kheap_init}
use nuts_os.Heap.Store.Start.{IsEmpty, kheap_init-IsEmpty}
use nuts_os.Task.Start.{first_registers}
use nuts_os.Process.Space.{physical, load_task-space}
use nuts_os.Process.Ends.{Ends}

abbrev tasks : Tasks
tasks = record {
  task_at = λ _. record {
    page_directory = record {
      addr = 0x3000;
      directory_entry = 0x1000;
      dir_count = 1024;
      entries_count = 1024;
    };
    registers = zero_registers;
    process = 0x5000;
    next = 0;
    prev = 0;
  };
  current_task = 0x4000;
  task_tail = 0x4000;
  task_head = 0x4000;
}

-- A program of 5000 bytes.
abbrev process : Process
process = record {
  id = 0;
  task = 0x4000;
  ptr = 0x01002000;
  ptr_virt = 0x400000;
  stack = 0x01004000;
  stack_virt = 0x3FB000;
  stack_size = 16384;
  size = 5000;
}

process-IsLoaded : IsLoaded process
process-IsLoaded = record {
  at = refl;
  stack_at = refl;
  stack_pages = refl;
  aligned = omega arith;
  stack_aligned = omega arith;
  fits = omega arith;
  fits_virt = omega arith;
  stack_fits = omega arith;
}

validated_is_mapped_example :
    (w' : Words) × (process_map_memory process tasks words ≡ (ok tt, w'))
    × IsDirectory w' 0x1000
    × ((a : ℕ)
        → process_validate_pointer process a ≡ true
        → entry_for w' 0x1000 a ≡ bit_or (page_of process a) 0b111)
validated_is_mapped_example =
    validated_is_mapped process tasks words process-IsLoaded words-IsDirectory

-- A file system whose files hold 8 bytes.
abbrev system : ℕ → Filesystem
system address = record {
  resolve = λ disk s. (0, s);
  fs_open = λ disk path mode s. (0x6000, s);
  read = λ disk handle size nmemb out s. (nmemb, s);
  seek = λ handle offset mode s. (0, s);
  stat =
      λ disk handle stat s. (0, record s { memory = λ a. if a == stat + 4 then 8 else s.memory a });
  close = λ handle s. (0, s);
}

abbrev ops : FileOps
ops = record {
  system_at = system;
  parse = λ filename s. (some (0, 0x8000), s);
  filesystem_of = λ disk. 0x7000;
}

abbrev kernel : Kernel
kernel = record {
  files = record {
    filesystems = λ _. 0x7000;
    file_descriptors = λ _. 0;
    descriptor_at = λ _. null_descriptor;
    store = record {
      heap = record { table = record { entries = λ _. 0; total = 2048 }; saddr = 0x01000000 };
      memory = λ a. if a == 20 then b'r' else 0;
    };
    errno = 0;
  };
  words = λ _. 0;
  tasks = tasks;
  processes = λ i. if i == 0 then 0x5000 else 0;
  process_at = λ _. empty_process;
}

-- A kernel with the heap that kheap_init makes, and a process that is loaded but for its task.
abbrev loaded : Kernel
loaded = record kernel {
  files = record (kernel.files) {
    store = record (kernel.files.store) { heap = (kheap_init kernel.files.store.heap (λ i. i)).0 };
  };
  process_at = λ _. process;
}

loaded-IsEmpty : IsEmpty loaded.files.store.heap
loaded-IsEmpty = kheap_init-IsEmpty kernel.files.store.heap (λ i. i)

load_task-space_example :
    (k' : Kernel) × (load_task 0 1 0x9400 loaded ≡ some (0, 0x9400, k'))
    × (k'.processes ≡ update loaded.processes 1 0x9400)
    × ((k'.tasks.task_at (k'.process_at 0x9400).task).registers ≡ first_registers)
    × ((v : ℕ)
        → v < 2 ^ 32
        → entry_for k'.words (directory_of (k'.process_at 0x9400) k'.tasks) v
          ≡ space process v (bit_or (v / 2 ^ 12 * 2 ^ 12) 0b101))
    × ((v : ℕ)
        → v < 2 ^ 32
        → translate k'.words (directory_of (k'.process_at 0x9400) k'.tasks) v ≡ physical process v)
load_task-space_example =
    load_task-space 0 1 0x9400 loaded process-IsLoaded loaded-IsEmpty.usable loaded-IsEmpty.whole
      (omega (arith, loaded-IsEmpty.room))

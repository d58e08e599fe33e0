-- ===== src/Kernel/First.antt =====
-- kmain to its end: the first process, or a panic.
use nuts_os.Base.{ℕ, ◌≡◌, ◌⊎◌, true, Option, none, some}
use nuts_os.Terminal.{Terminal}
use nuts_os.Fat.{is_err}
use nuts_os.Task.Start.{first_registers}
use nuts_os.Process.{Kernel, directory_of}
use nuts_os.Kernel.{Machine, Image, Outcome, running, panicked}

-- How kmain ends, by the way that process_load ends on the machine that was started.
abbrev pub Ending : Image → Machine → Option Outcome → Option (ℕ × ℕ × Kernel) → Type 0
Ending image m r none = r ≡ none
Ending image m r (some (res, process, k)) =
    ((is_err res ≡ true) × ((m' : Machine) × (r ≡ some (panicked m'))))
    ⊎ ((res ≡ 0)
        × ((m' : Machine) × (r ≡ some (running first_registers m'))
            × (m'.kernel.tasks.current_task ≡ (k.process_at process).task)
            × (m'.kernel.tasks.task_head ≡ (k.process_at process).task)
            × (m'.directory ≡ directory_of (k.process_at process) k.tasks)))

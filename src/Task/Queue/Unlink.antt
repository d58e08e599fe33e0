-- ===== src/Task/Queue/Unlink.antt =====
-- task_list_remove: what it does to the links of the tasks.
use nuts_os.Base.{ℕ, ◌≡◌, ◌≢◌, ◌==◌, if◌then◌else◌, arith}
use nuts_os.Task.{Tasks, task_get_next, unlink, removed}

pub unlink-next :
    (s : Tasks) (task prev next a : ℕ)
    → (s.task_at task).prev ≡ prev
    → (s.task_at task).next ≡ next
    → prev ≢ 0
    → prev ≢ task
    → ((unlink task s).task_at a).next ≡ (if prev == a then next else (s.task_at a).next)
unfolding unlink
unlink-next s task prev next a e e' ne other = ground arith

pub unlink-prev :
    (s : Tasks) (task prev next a : ℕ)
    → (s.task_at task).prev ≡ prev
    → (s.task_at task).next ≡ next
    → prev ≢ 0
    → prev ≢ task
    → ((unlink task s).task_at a).prev ≡ (if next == a then prev else (s.task_at a).prev)
unfolding unlink
unlink-prev s task prev next a e e' ne other = ground arith

-- The links and ends after the removal of a task between two others.
pub remove-task_at :
    (s : Tasks) (task a : ℕ) → (removed task s).task_at a ≡ (unlink task s).task_at a
unfolding removed
remove-task_at s task a = ground arith

pub remove-head :
    (s : Tasks) (task : ℕ)
    → (unlink task s).task_head ≢ task
    → (removed task s).task_head ≡ (unlink task s).task_head
unfolding removed
remove-head s task ne = ground arith

pub remove-tail :
    (s : Tasks) (task : ℕ)
    → (unlink task s).task_tail ≢ task
    → (removed task s).task_tail ≡ (unlink task s).task_tail
unfolding removed
remove-tail s task ne = ground arith

pub remove-current :
    (s : Tasks) (task next : ℕ)
    → (s.task_at task).next ≡ next
    → next ≢ 0
    → (s.task_at task).prev ≢ task
    → (removed task s).current_task ≡ (if task == s.current_task then next else s.current_task)
unfolding removed task_get_next unlink
remove-current s task next e ne other = ground arith

pub unlink-head : (s : Tasks) (task : ℕ) → (unlink task s).task_head ≡ s.task_head
unfolding unlink
unlink-head s task = ground arith

pub unlink-tail : (s : Tasks) (task : ℕ) → (unlink task s).task_tail ≡ s.task_tail
unfolding unlink
unlink-tail s task = ground arith

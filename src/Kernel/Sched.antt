-- ===== src/Kernel/Sched.antt =====
-- The tasks as a state machine: what may happen next, and who runs.
pub mod Switch
pub mod Pick
pub mod Keep
pub mod Create
pub mod Reap
pub mod Zombies
pub mod Code
use quaros.Base.{ℕ, ◌+◌, ◌%◌, ◌^◌, ◌<◌, ◌≡◌, ◌≢◌, Option, some, done, false}
use quaros.PageAlloc.{Machine}
use quaros.Kernel.{Kernel, running, scheduler, max_tasks}
use quaros.Kernel.Proc.{
  is_running, switch_to, pick, init_tasks, sleep, sys_exit, sys_wait, kill_off_zombies, alloc_task,
  enlist, adopt,
}

-- The task that runs is the only one that is `running`.
pub record IsScheduled (k : Kernel) : Type 0 where
  pub runs : (k.tasks k.curr).state ≡ running
  pub alone : (i : ℕ) → i ≢ k.curr → is_running (k.tasks i).state ≡ false

-- One thing that the kernel does between two moments at which it is settled which task runs.
-- `esp` is the stack pointer of the task that is left, `at` where the loop of `schedule` stands.
-- `registers` and `forks` take a task from `alloc_task` and make it ready; what they write to memory
-- meanwhile is left open: `h` is any memory, and any free pages.
pub data Step (k : Kernel) : Kernel → Type 0 where
  dispatch :
      (at esp i : ℕ)
      → k.curr ≡ scheduler
      → at < max_tasks
      → pick max_tasks at k.tasks ≡ some i
      → Step k (switch_to i esp k)
  timer :
      (esp : ℕ)
      → k.curr ≢ scheduler
      → Step k (switch_to scheduler esp (record k { ticks = (k.ticks + 1) % 2 ^ 32 }))
  registers :
      (context : ℕ) (h : Machine) {i : ℕ} {k' : Kernel}
      → alloc_task k ≡ done (some i, k')
      → Step k (enlist i context (record k' { machine = h }))
  forks :
      (context : ℕ) (h : Machine) {i : ℕ} {k' : Kernel}
      → alloc_task k ≡ done (some i, k')
      → Step k (adopt i context (record k' { machine = h }))
  sleeps : (esp : ℕ) {k' : Kernel} → sleep esp k ≡ done (tt, k') → Step k k'
  exits : (esp : ℕ) {k' : Kernel} → sys_exit esp k ≡ done (tt, k') → Step k k'
  waits : (esp : ℕ) {r : Option ℕ} {k' : Kernel} → sys_wait esp k ≡ done (r, k') → Step k k'
  reaps : {k' : Kernel} → kill_off_zombies k ≡ done (tt, k') → Step k k'

pub data Reach (kpgdir : ℕ) (k₀ : Kernel) : Kernel → Type 0 where
  boot : Reach kpgdir k₀ (init_tasks kpgdir k₀)
  step : {k k' : Kernel} → Reach kpgdir k₀ k → Step k k' → Reach kpgdir k₀ k'

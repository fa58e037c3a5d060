-- ===== src/Start/Scheduled.antt =====
-- Who runs when `main` calls `schedule`.
use quaros.Base.{ℕ, suc, ◌+◌, ◌%◌, ◌≡◌, refl, ◌∙◌, some, true, false, done, and_then-done, arith}
use quaros.Paging.{virt_to_phys}
use quaros.Kernel.{Kernel, Task, scheduler, max_tasks}
use quaros.Kernel.Proc.{on_machine, init_tasks, enlist, pick, is_runnable}
use quaros.Kernel.Sched.{IsScheduled, boot, step}
use quaros.Kernel.Sched.Create.{alloc_task-Allocated, alloc_task-first}
use quaros.Kernel.Sched.Reap.{Reach-IsScheduled}
use quaros.Kernel.Sched.Code.{create_init_task-Enlisted, create_init_task-registers}
use quaros.Start.{zero_globals, start_memory, start_rest, start_files, start_tasks, start_kernel}

pick-here :
    (tasks : ℕ → Task) (rounds i : ℕ)
    → is_runnable (tasks i).state ≡ true
    → pick (suc rounds) i tasks ≡ some i
unfolding pick
pick-here tasks rounds i ready = rw ready refl

pick-on :
    (tasks : ℕ → Task) (rounds i : ℕ)
    → is_runnable (tasks i).state ≡ false
    → pick (suc rounds) i tasks ≡ pick rounds ((i + 1) % max_tasks) tasks
unfolding pick
pick-on tasks rounds i taken = rw taken refl

-- The first task behind the scheduler's is the first that runs, if it can.
pick-second :
    (tasks : ℕ → Task)
    → is_runnable (tasks 0).state ≡ false
    → is_runnable (tasks 1).state ≡ true
    → pick max_tasks 0 tasks ≡ some 1
pick-second tasks taken ready = pick-on tasks 1023 0 taken ∙ pick-here tasks 1022 1 ready

start_tasks-first :
    (site kpgdir : ℕ) (k k' : Kernel)
    → start_tasks site kpgdir k ≡ done (tt, k')
    → IsScheduled k' × (k'.curr ≡ scheduler) × (pick max_tasks 0 k'.tasks ≡ some 1)
unfolding start_tasks init_tasks enlist quaros.Fs.find_index
start_tasks-first site kpgdir k k' e =
    let k₀ = init_tasks kpgdir k in
    let en = create_init_task-Enlisted site k₀ k' e in
    let first : en.slot ≡ 1 = alloc_task-first en.slot 1 k₀ en.between refl en.ran in
    let a = alloc_task-Allocated en.slot k₀ en.between en.ran in
    let others = a.keeps.others 0 (omega (arith, first)) in
    let scheduler_runs : is_runnable (k'.tasks 0).state ≡ false =
      rw (en.last, first, others) refl in
    let init_runs : is_runnable (k'.tasks 1).state ≡ true = rw (en.last, first) refl in
    (
      Reach-IsScheduled {kpgdir = kpgdir} {k₀ = k}
          (step boot (create_init_task-registers site k₀ k' e)),
      rw en.last a.keeps.curr,
      pick-second k'.tasks scheduler_runs init_runs,
    )

-- When `main` comes to its call of `schedule`, the scheduler's task runs and no other, and the first
-- task that the loop of schedule reaches is the init task.
start_kernel-IsScheduled :
    (site bss_start bss_end kernel_end fsar_start fsar_end : ℕ) (k k' : Kernel)
    → start_kernel site bss_start bss_end kernel_end fsar_start fsar_end k ≡ done (tt, k')
    → IsScheduled k' × (k'.curr ≡ scheduler) × (pick max_tasks 0 k'.tasks ≡ some 1)
unfolding start_kernel
start_kernel-IsScheduled site bss_start bss_end kernel_end fsar_start fsar_end k k' e =
    let (r, k₁, _, e₁) =
      and_then-done (on_machine (start_memory bss_start bss_end kernel_end) (zero_globals k)) _
        (tt, k') e in
    let (_, k₂, _, e₂) =
      and_then-done (on_machine start_rest (record k₁ { cr3 = virt_to_phys r.0 })) _ (tt, k') e₁ in
    let (_, k₃, _, e₃) = and_then-done (start_files fsar_start fsar_end k₂) _ (tt, k') e₂ in
    start_tasks-first site r.0 k₃ k' e₃

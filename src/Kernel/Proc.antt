-- ===== src/Kernel/Proc.antt =====
-- The operations of proc.c on tasks, and those of sys_proc.c that change their states.
use quaros.Base.{
  ℕ, zero, suc, ◌+◌, ◌-◌, ◌%◌, ◌^◌, Bool, true, false, ◌&&◌, not, Option, none, some, done, panic,
  M, pure, and_then, ◌>>=◌, ◌>>◌, ◌==◌, if◌then◌else◌,
}
use quaros.PageAlloc.{Machine, kmalloc, kfree, pgsize}
use quaros.Paging.{virt_to_phys, map_kernel, destroy_address_space}
use quaros.Fs.{update, find_index}
use quaros.Kernel.{
  Kernel, Task, ProcState, unused, sleeping, runnable, running, zombie, max_tasks, scheduler,
}

-- A test `s == t` of two states.
abbrev pub is_unused : ProcState → Bool
is_unused unused = true
is_unused _ = false

abbrev pub is_sleeping : ProcState → Bool
is_sleeping sleeping = true
is_sleeping _ = false

abbrev pub is_runnable : ProcState → Bool
is_runnable runnable = true
is_runnable _ = false

abbrev pub is_running : ProcState → Bool
is_running running = true
is_running _ = false

abbrev pub is_zombie : ProcState → Bool
is_zombie zombie = true
is_zombie _ = false

-- `p == &tasks[i]`, for a `struct task_struct *` that may be NULL
abbrev pub points_to : Option ℕ → ℕ → Bool
points_to none i = false
points_to (some j) i = j == i

abbrev pub set_state : ℕ → ProcState → (ℕ → Task) → ℕ → Task
set_state i s tasks = update tasks i (record (tasks i) { state = s })

-- KSTACK_TOP
abbrev pub kstack_top : ℕ → ℕ
kstack_top kstack = (kstack + pgsize - 4) % 2 ^ 32

-- sizeof(task_state), and the selector `KERN_DATA_SEG << 3`
abbrev pub tss_size : ℕ
tss_size = 104

abbrev pub kern_data_selector : ℕ
kern_data_selector = 8

-- `switch_to(&tasks[target])`, until the target runs; `esp` is the stack pointer that
-- `context_switch` saves in the task that is left.
unfoldable pub switch_to : ℕ → ℕ → Kernel → Kernel
switch_to target esp k =
    let t = k.tasks target in
    let rested =
      if is_running (k.tasks k.curr).state then set_state k.curr runnable k.tasks else k.tasks in
    let started = set_state target running rested in
    record k {
      task_state = record { ss0 = kern_data_selector; esp0 = kstack_top t.kstack; iomb = tss_size };
      cr3 = virt_to_phys t.pgdir;
      tasks = update started k.curr (record (started k.curr) { context = esp });
      curr = target;
    }

-- The task that the loop of `schedule` reaches next, from index `i` on, with `rounds` rounds left.
unfoldable pub pick : ℕ → ℕ → (ℕ → Task) → Option ℕ
pick zero i tasks = none
pick (suc rounds) i tasks =
    let rest = pick rounds ((i + 1) % max_tasks) tasks in
    if is_runnable (tasks i).state then some i else rest

abbrev pub blank_task : Task
blank_task = record {
  context = 0;
  pid = 0;
  state = unused;
  pgdir = 0;
  kstack = 0;
  open_files = λ _. none;
  parent = none;
}

-- `kpgdir` is the page directory that `init_kernel_memory` made.
unfoldable pub init_tasks : ℕ → Kernel → Kernel
init_tasks kpgdir k = record k {
  tasks =
      update (λ _. blank_task) scheduler (record blank_task { state = running; pgdir = kpgdir });
  curr = scheduler;
}

abbrev pub on_machine {ℓ} : {A : Type ℓ} → M Machine A → M Kernel A
on_machine m k = and_then (m k.machine) (λ a h. done (a, record k { machine = h }))

abbrev pub modify_task : ℕ → (Task → Task) → M Kernel (Unit {0})
modify_task i f k = done (tt, record k { tasks = update k.tasks i (f (k.tasks i)) })

-- The index of a task that is made ready to be filled; it stays `unused` until its caller says
-- otherwise. The test for a NULL `kstack` never passes, since `kmalloc` panics.
unfoldable pub alloc_task : M Kernel (Option ℕ)
alloc_task k = elim (find_index max_tasks 0 (λ i. is_unused (k.tasks i).state)) [
  | none ↦ done (none, k)
  | some i ↦
      (do
        modify_task i (λ t. record t { pid = i })
        kstack ← on_machine kmalloc
        modify_task i (λ t. record t { kstack = kstack })
        pgdir ← on_machine map_kernel
        modify_task i (λ t. record t { pgdir = pgdir })
        pure (some i))
        k
]

-- The end of `register_task`: the task's frames are built at `context`, and it may run.
unfoldable pub enlist : ℕ → ℕ → Kernel → Kernel
enlist i context k = record k {
  tasks = update k.tasks i (record (k.tasks i) { context = context; state = runnable });
}

-- What `sys_fork` assigns to the task that `alloc_task` gave it.
unfoldable pub adopt : ℕ → ℕ → Kernel → Kernel
adopt i context k = record k {
  tasks = update k.tasks i (record (k.tasks i) {
    context = context;
    open_files = (k.tasks k.curr).open_files;
    state = runnable;
    parent = some k.curr;
  });
}

unfoldable pub destroy_task : ℕ → M Kernel (Unit {0})
destroy_task i k =
    (do
      modify_task i (λ t. record t { context = 0; pid = 0; state = unused })
      on_machine (destroy_address_space (k.tasks i).pgdir)
      modify_task i (λ t. record t { pgdir = 0 })
      on_machine (kfree (k.tasks i).kstack)
      modify_task i (λ t. record t { kstack = 0; parent = none; open_files = λ _. none }))
      k

-- The loop of `kill_off_zombies`, from task `i` on.
unfoldable pub kill_zombies : ℕ → ℕ → M Kernel (Unit {0})
kill_zombies zero i k = done (tt, k)
kill_zombies (suc rounds) i k =
    let t = k.tasks i in
    let mine = points_to t.parent k.curr && is_zombie t.state in
    let awake = not (is_sleeping (k.tasks k.curr).state) in
    and_then (if mine && awake then destroy_task i k else done (tt, k))
      (λ _. kill_zombies rounds (i + 1))

unfoldable pub kill_off_zombies : M Kernel (Unit {0})
kill_off_zombies k =
    if k.zombie_exists
    then and_then (kill_zombies max_tasks 0 k)
        (λ _ k'. done (tt, record k' { zombie_exists = false }))
    else done (tt, k)

unfoldable pub sleep : ℕ → M Kernel (Unit {0})
sleep esp k =
    if k.curr == scheduler
    then panic "sleep: Sleep scheduler"
    else done (tt, switch_to scheduler esp (record k { tasks = set_state k.curr sleeping k.tasks }))

unfoldable pub wakeup_parent : M Kernel (Unit {0})
wakeup_parent k = elim ((k.tasks k.curr).parent) [
  | none ↦ panic "wakeup_parent: No parent to wakeup"
  | some p ↦ done (
    tt,
    if is_sleeping (k.tasks p).state then record k { tasks = set_state p runnable k.tasks } else k,
  )
]

-- `sys_exit`, up to the switch from which it does not return.
unfoldable pub sys_exit : ℕ → M Kernel (Unit {0})
sys_exit esp k =
    if k.curr == scheduler
    then panic "sys_exit: Exit scheulder"
    else and_then
        (wakeup_parent (record k { zombie_exists = true; tasks = set_state k.curr zombie k.tasks }))
        (λ _ k'. done (tt, switch_to scheduler esp k'))

-- What `sys_wait` does before it returns or switches away: the pid that it returns, if any.
unfoldable pub sys_wait : ℕ → M Kernel (Option ℕ)
sys_wait esp k = elim (find_index max_tasks 0 (λ i. points_to (k.tasks i).parent k.curr)) [
  | none ↦ done (none, k)
  | some i ↦
      let t = k.tasks i in
      if is_zombie t.state
      then done (some t.pid, k)
      else and_then (sleep esp k) (λ _ k'. done (some t.pid, k'))
]

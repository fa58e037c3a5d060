-- ===== src/Tests/Tasks.antt =====
-- Tasks at concrete inputs.
use quaros.Base.{true, ℕ, ◌≡◌, refl, some, none, [], done, arith, false, ◌==◌, if◌then◌else◌}
use quaros.Fs.{update, empty_file}
use quaros.Kernel.{zombie, Kernel, Task, running, runnable, sleeping, scheduler, max_tasks}
use quaros.Kernel.Proc.{
  set_state, kill_off_zombies, kill_zombies, blank_task, switch_to, pick, init_tasks, sys_exit,
  sys_wait,
}
use quaros.Kernel.Sched.{IsScheduled, waits, boot, step}
use quaros.Kernel.Sched.Switch.{Exited, sys_exit-Exited}
use quaros.Kernel.Sched.Pick.{IsNext, schedule-IsNext}
use quaros.Kernel.Sched.Zombies.{kill_off_zombies-orphans}
use quaros.Kernel.Sched.Reap.{Reach-IsScheduled}
use quaros.Trampoline.{trampoline}
use quaros.Trampoline.Scheduled.{trampoline-IsScheduled}
use quaros.Console.{Console}
use quaros.Tests.Memory.{one_page}

-- Task 0 runs, task 1 sleeps, and task 5, its child, can run.
abbrev pub three_tasks : ℕ → Task
three_tasks i =
    if i == 0
    then record blank_task { state = running }
    else if i == 1
    then record blank_task { pid = 1; state = sleeping; parent = some 0 }
    else if i == 5
    then record blank_task { pid = 5; state = runnable; parent = some 1 }
    else blank_task

abbrev pub idle_console : Console
idle_console = record {
  buf_len = 0;
  edit_len = 0;
  edit_i = 0;
  write_i = 0;
  read_i = 0;
  circular_buf = [];
}

abbrev pub busy : Kernel
busy = record {
  machine = one_page;
  tasks = three_tasks;
  curr = 0;
  zombie_exists = false;
  task_state = record { esp0 = 0; ss0 = 0; iomb = 0 };
  cr3 = 0;
  files = λ _. empty_file;
  console_file = empty_file;
  console = idle_console;
  ticks = 0;
}

busy-IsScheduled : IsScheduled busy
busy-IsScheduled = record { runs = refl; alone = λ i ne. ground arith }

Reach-IsScheduled_example : IsScheduled (init_tasks 0x2000 busy)
unfolding sys_wait quaros.Fs.find_index init_tasks
Reach-IsScheduled_example =
    Reach-IsScheduled {kpgdir = 0x2000} {k₀ = busy} (step boot (waits 0x9000 {r = none} refl))

schedule-IsNext_example :
    (d : ℕ) × (r : ℕ) × (pick max_tasks 7 three_tasks ≡ some r) × IsNext three_tasks 7 d r
schedule-IsNext_example = schedule-IsNext busy 7 5 (omega arith) (omega arith) refl

-- The child runs.
abbrev pub child_runs : Kernel
child_runs = record busy {
  tasks = update three_tasks 5 (record (three_tasks 5) { state = running });
  curr = 5;
}

sys_exit-Exited_example :
    (k' : Kernel) × (sys_exit 0x9000 child_runs ≡ done (tt, k')) × Exited child_runs 1 k'
sys_exit-Exited_example =
    sys_exit-Exited 0x9000 child_runs 1 (omega arith) refl (omega arith) (omega arith)

-- Beside the child that runs there is a zombie whose parent is task 1.
abbrev orphan : Kernel
orphan = record child_runs {
  zombie_exists = true;
  tasks =
      update child_runs.tasks 7 (record blank_task { pid = 7; state = zombie; parent = some 1 });
}

abbrev orphan_left : Kernel
orphan_left = record orphan { zombie_exists = false }

kill_off_zombies-orphans_example :
    ((orphan_left.tasks 7).state ≡ zombie) × (orphan_left.zombie_exists ≡ false)
unfolding kill_off_zombies kill_zombies
kill_off_zombies-orphans_example = kill_off_zombies-orphans 7 orphan orphan_left refl refl refl

-- Task 1 runs and makes the system call `wait` with the interrupt frame at 0x7fb4; task 5 is its
-- child.
abbrev call_memory : ℕ → ℕ
call_memory a = if a == 0x7fe4 then 0x80 else if a == 0x7fd0 then 7 else 0

abbrev calling : Kernel
calling = record busy {
  machine = record { mem = call_memory; free_pages = 0x1000; num_allocated = 0 };
  tasks =
      update (update three_tasks 0 blank_task) 1
        (record blank_task { pid = 1; state = running; parent = some 0 });
  curr = 1;
}

calling-IsScheduled : IsScheduled calling
calling-IsScheduled = record { runs = refl; alone = λ i ne. ground arith }

trampoline-IsScheduled_example :
    IsScheduled (switch_to 0 0x7f90 (record calling { tasks = set_state 1 sleeping calling.tasks }))
unfolding trampoline quaros.Ram.load32 quaros.Syscall.handle_syscall quaros.Fs.find_index sys_wait
    quaros.Kernel.Proc.sleep switch_to
trampoline-IsScheduled_example =
    trampoline-IsScheduled 0 100 0x7fb4 0x7f90 0 0 calling _ calling-IsScheduled refl

-- ===== src/Kernel.antt =====
-- The kernel's state: the tasks of proc.c beside memory, files and the console.
pub mod Proc
pub mod Frame
pub mod User
pub mod Calm
pub mod Exec
pub mod Sched
use quaros.Base.{ℕ, Option, none, Bool, false}
use quaros.PageAlloc.{Machine}
use quaros.Fs.{File, FileType}
use quaros.Console.{Console}

abbrev pub max_tasks : ℕ
max_tasks = 1024

abbrev pub max_open_files : ℕ
max_open_files = 8

-- `enum procstate`
pub data ProcState : Type 0 where
  unused embryo sleeping runnable running zombie : ProcState

-- A `struct file *` that is not NULL: `&filesystem[i]` or `&console_file`.
pub data FileRef : Type 0 where
  entry : ℕ → FileRef
  console : FileRef

-- `struct task_struct`; a parent is the index of a task.
pub record Task : Type 0 where
  pub context : ℕ
  pub pid : ℕ
  pub state : ProcState
  pub pgdir : ℕ
  pub kstack : ℕ
  pub open_files : ℕ → Option FileRef
  pub parent : Option ℕ

-- The fields of the task state segment that the kernel writes.
pub record TaskState : Type 0 where
  pub esp0 : ℕ
  pub ss0 : ℕ
  pub iomb : ℕ

pub record Kernel : Type 0 where
  pub machine : Machine
  pub tasks : ℕ → Task
  pub curr : ℕ  -- `curr_task`, as an index
  pub zombie_exists : Bool
  pub task_state : TaskState
  pub cr3 : ℕ
  pub files : ℕ → File
  pub console_file : File
  pub console : Console
  pub ticks : ℕ

-- `scheduler_task` is `&tasks[0]`.
abbrev pub scheduler : ℕ
scheduler = 0

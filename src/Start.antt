-- ===== src/Start.antt =====
-- What `main` of main.c does before the tasks: the memory, the devices, and the banner.
pub mod Memory
pub mod Scheduled
use quaros.Base.{
  ℕ, zero, suc, ◌+◌, ◌-◌, ◌*◌, ◌%◌, ◌^◌, Option, none, some, List, [], ◌∷◌, replicate, M, pure,
  done, fault, panic, and_then, ◌>>=◌, ◌>>◌, true, false, ltb, if◌then◌else◌,
}
use quaros.Ram.{Mem}
use quaros.Str.{memset}
use quaros.PageAlloc.{Machine, pgsize, kmalloc, register_free_mem}
use quaros.Paging.{kern_top, virt_to_phys, map_kernel, alloc_map_memory}
use quaros.Kernel.{Kernel}
use quaros.Kernel.Proc.{on_machine, blank_task, init_tasks}
use quaros.Kernel.Exec.{create_init_task}
use quaros.Fs.{File, empty_file, get_file}
use quaros.Fs.Archive.{init_fs, init_dev_file}
use quaros.SysFile.{on_fs}
use quaros.Console.{max_buf}
use quaros.Device.{Bus}
use quaros.Device.Lapic.{init_lapic, disable_pic}
use quaros.Device.Ioapic.{init_ioapic, enable_ioapic}
use quaros.Device.Serial.{printn}

-- `(KERN_LINK & ~0x00ffffff) + 4 MB`, where the map of the boot loader ends
abbrev pub entry_top : ℕ
entry_top = 0xc0000000 + 1024 * 1024 * 4

-- The globals of memory.c are in .bss, with NULL and 0 as zero bytes.
unfoldable pub zero_out_bss : ℕ → ℕ → M Machine (Unit {0})
zero_out_bss bss_start bss_end h =
    let m = memset bss_start 0 ((bss_end + 2 ^ 32 - bss_start) % 2 ^ 32) h.mem in
    done (tt, record h { mem = m; free_pages = 0; num_allocated = 0 })

-- `init_kernel_memory`; what it loads into cr3 is the result.
abbrev pub init_kernel_memory : M Machine ℕ
init_kernel_memory = map_kernel

-- `init_kstack(kmalloc() + PGSIZE)`; what it loads into esp is the result, beside the directory.
abbrev pub with_kstack : ℕ → M Machine (ℕ × ℕ)
with_kstack kpgdir = kmalloc >>= λ kstack. pure (kpgdir, kstack + pgsize)

-- From `zero_out_bss` to the kernel's own stack: the page directory, and the top of the stack.
unfoldable pub start_memory : ℕ → ℕ → ℕ → M Machine (ℕ × ℕ)
unfolding zero_out_bss
start_memory bss_start bss_end kernel_end = do
  zero_out_bss bss_start bss_end
  register_free_mem kernel_end entry_top
  kpgdir ← init_kernel_memory
  with_kstack kpgdir

-- The rest of the memory that is mapped.
abbrev pub start_rest : M Machine (Unit {0})
start_rest = register_free_mem entry_top kern_top

-- What `.bss` holds of the kernel's state, cleared. `curr_task` is NULL, which is no index: it has no
-- value yet.
abbrev pub zero_globals : Kernel → Kernel
zero_globals k = record k {
  tasks = λ i. blank_task;
  zombie_exists = false;
  task_state = record { esp0 = 0; ss0 = 0; iomb = 0 };
  files = λ i. empty_file;
  console_file = empty_file;
  console = record {
    buf_len = 0;
    edit_len = 0;
    edit_i = 0;
    write_i = 0;
    read_i = 0;
    circular_buf = replicate max_buf 0;
  };
  ticks = 0;
}

-- `lcr3`
abbrev pub load_cr3 : ℕ → M Kernel (Unit {0})
load_cr3 pgdir k = done (tt, record k { cr3 = virt_to_phys pgdir })

-- `init_tasks` and `create_init_task`
unfoldable pub start_tasks : ℕ → ℕ → M Kernel (Unit {0})
unfolding init_tasks create_init_task
start_tasks site kpgdir k = create_init_task site (init_tasks kpgdir k)

-- `init_fs` and `init_dev_file`; the archive is at [fsar_start, fsar_end).
unfoldable pub start_files : ℕ → ℕ → M Kernel (Unit {0})
unfolding init_fs init_dev_file
start_files fsar_start fsar_end = on_fs (init_fs fsar_start fsar_end) >>= λ id k.
    done (tt, record k { console_file = init_dev_file id k.console_file })

-- What `main` does with the kernel's state, in order, up to the call of `schedule`.
unfoldable pub start_kernel : ℕ → ℕ → ℕ → ℕ → ℕ → ℕ → M Kernel (Unit {0})
unfolding start_memory start_files start_tasks
start_kernel site bss_start bss_end kernel_end fsar_start fsar_end k =
    (on_machine (start_memory bss_start bss_end kernel_end) >>= λ r. load_cr3 r.0 >>= λ _.
    on_machine start_rest >>= λ _. start_files fsar_start fsar_end >>= λ _. start_tasks site r.0)
      (zero_globals k)

abbrev pub banner_path : List ℕ
banner_path = b'b' ∷ b'a' ∷ b'n' ∷ b'n' ∷ b'e' ∷ b'r' ∷ b'.' ∷ b't' ∷ b'x' ∷ b't' ∷ []

-- A space for the program, with as many bytes as its file has.
unfoldable pub setupuvm_task : List ℕ → M Kernel ℕ
setupuvm_task path k = and_then (on_machine map_kernel k) λ pgdir k'.
    elim (get_file k'.files path) [
      | none ↦ panic "setupuvm_task: No file found"
      | some j ↦ (do on_machine (alloc_map_memory pgdir 0 (k'.files j).size 6); pure pgdir) k'
    ]

module _ {D : Type 0} (bus : Bus D) where
  -- `IRQ_SERIAL` is 4.
  unfoldable pub start_devices : D → D
  unfolding init_lapic disable_pic init_ioapic enable_ioapic
  start_devices d = enable_ioapic bus 4 (init_ioapic bus (disable_pic bus (init_lapic bus d)))

  -- `banner_f` may be NULL. The cast of the size to `int` makes a large one negative.
  unfoldable pub show_banner : ℕ → (ℕ → File) → Mem → M D (Unit {0})
  unfolding printn
  show_banner fuel files m = elim (get_file files banner_path) [
    | none ↦ λ d. fault
    | some j ↦
        let f = files j in
        if ltb f.size (2 ^ 31) then printn bus fuel f.contents f.size m else pure tt
  ]

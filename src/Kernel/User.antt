-- ===== src/Kernel/User.antt =====
-- What a system call reads of its task's memory: `read_user_mem` and `read_syscall_arg` of syscall.c
-- through the page tables in force. `frame` is the address of the interrupt frame.
use quaros.Base.{
  ℕ, ◌+◌, ◌-◌, ◌*◌, ◌%◌, ◌^◌, Option, none, some, List, M, pure, done, and_then, ◌>>=◌,
}
use quaros.Ram.{Mem, load32}
use quaros.Paging.{phys_to_virt}
use quaros.Paging.Virtual.{read_word, read_string}
use quaros.Kernel.{Kernel}
use quaros.Kernel.Frame.{esp_at}
use quaros.Syscall.{read_user_mem}

-- The page directory in force: CR3 holds its physical address.
abbrev pub current : Kernel → ℕ
current k = phys_to_virt k.cr3

-- -1
abbrev pub minus_one : ℕ
minus_one = 2 ^ 32 - 1

abbrev pub modify_mem : (Mem → Mem) → M Kernel (Unit {0})
modify_mem f k = done (tt, record k { machine = record k.machine { mem = f k.machine.mem } })

-- `read_user_mem` through the page tables
unfoldable pub user_word : ℕ → M Kernel (Option ℕ)
user_word addr k = elim (read_user_mem k.machine.mem addr) [
  | none ↦ done (none, k)
  | some _ ↦
      and_then (read_word (current k) addr k.machine)
        (λ w h. done (some w, record k { machine = h }))
]

-- `read_syscall_arg`; the user's stack pointer is in the interrupt frame.
unfoldable pub user_arg : ℕ → ℕ → M Kernel (Option ℕ)
unfolding user_word
user_arg frame n k = user_word ((load32 k.machine.mem (frame + esp_at) + 4 + n * 4) % 2 ^ 32) k

-- `if (… < 0) return -1;`
abbrev pub or_fail : M Kernel (Option ℕ) → (ℕ → M Kernel ℕ) → M Kernel ℕ
or_fail m f = m >>= λ got. elim got [ none ↦ pure minus_one | some w ↦ f w ]

unfoldable pub user_string : ℕ → ℕ → M Kernel (List ℕ)
user_string fuel a k =
    and_then (read_string fuel (current k) a k.machine) (λ s h. done (s, record k { machine = h }))

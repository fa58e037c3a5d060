-- ===== src/Syscall/UserMem.antt =====
-- `read_user_mem`, by what memory below KERN_BASE holds.
use quaros.Base.{ℕ, ◌+◌, ◌^◌, ◌<◌, ◌≡◌, none, some, arith, leb, if◌then◌else◌}
use quaros.Ram.{Mem, load32}
use quaros.Paging.{kern_base}
use quaros.Syscall.{read_user_mem}

-- A word is read exactly if it ends, with a byte to spare, below the kernel.
pub read_user_mem-some :
    (user : Mem) (addr : ℕ)
    → addr < 2 ^ 32
    → read_user_mem user addr ≡ (if leb (addr + 5) kern_base then some (load32 user addr) else none)
unfolding read_user_mem
read_user_mem-some user addr h = ground arith

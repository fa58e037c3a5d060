-- ===== src/Syscall.antt =====
-- How a system call reads its arguments and finds its handler: syscall.c. `user` is memory as the
-- page tables in force show it, with the kernel's identity map below 4 MB.
pub mod UserMem
use quaros.Base.{ℕ, ◌+◌, ◌*◌, ◌%◌, ◌^◌, ◌||◌, Option, none, some, leb, ◌==◌, if◌then◌else◌}
use quaros.Ram.{Mem, load32}
use quaros.Paging.{kern_base}

-- `none` is the result -1.
unfoldable pub read_user_mem : Mem → ℕ → Option ℕ
read_user_mem user addr =
    if leb kern_base addr || leb kern_base ((addr + 4) % 2 ^ 32)
    then none
    else some (load32 user addr)

unfoldable pub read_syscall_arg : Mem → ℕ → ℕ → Option ℕ
unfolding read_user_mem
read_syscall_arg user esp argnum = read_user_mem user ((esp + 4 + argnum * 4) % 2 ^ 32)

-- `enum SYS_nums`, and what `handle_syscall` makes of the number in `eax`
pub data Handler : Type 0 where
  nr_open nr_read nr_write nr_close nr_execv nr_fork nr_exit nr_wait : Handler

pub data Dispatch : Type 0 where
  call : Handler → Dispatch
  no_such : Dispatch  -- the result 0
  out_of_table : Dispatch  -- the handler is read from before the table

-- `handlers[num]`, for a number that the test has let through
abbrev pub handler : ℕ → Dispatch
handler num =
    if num == 0
    then call nr_open
    else if num == 1
    then call nr_read
    else if num == 2
    then call nr_write
    else if num == 3
    then call nr_close
    else if num == 4
    then call nr_execv
    else if num == 5
    then call nr_fork
    else if num == 6
    then call nr_exit
    else call nr_wait

-- `num` is an `int`, and the test is signed.
unfoldable pub handle_syscall : ℕ → Dispatch
handle_syscall eax =
    if leb (2 ^ 31) eax then out_of_table else if leb 8 eax then no_such else handler eax

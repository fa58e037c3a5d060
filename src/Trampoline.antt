-- ===== src/Trampoline.antt =====
-- `trampoline` of interrupt.c, which every interrupt goes through, and the system calls behind it.
pub mod Scheduled
use quaros.Base.{
  ℕ, ◌+◌, ◌%◌, ◌^◌, Option, none, some, M, pure, done, panic, fault, and_then, ◌>>=◌, ◌>>◌, ◌==◌,
  if◌then◌else◌,
}
use quaros.Ram.{load32, store32}
use quaros.Console.{write_circular_buf}
use quaros.Uart.{handle_uartintr}
use quaros.Syscall.{
  Handler, nr_open, nr_read, nr_write, nr_close, nr_execv, nr_fork, nr_exit, nr_wait, call, no_such,
  out_of_table, handle_syscall,
}
use quaros.Kernel.{Kernel, scheduler}
use quaros.Kernel.Proc.{switch_to, kill_off_zombies, sys_exit, sys_wait}
use quaros.Kernel.Frame.{eax_at}
use quaros.Kernel.User.{minus_one, modify_mem}
use quaros.Kernel.Exec.{sys_fork, sys_execv}
use quaros.SysFile.{sys_open, sys_read, sys_write, sys_close}

-- `T_IRQ_BASE + IRQ_…`
abbrev pub irq_timer : ℕ
irq_timer = 0x20

abbrev pub irq_serial : ℕ
irq_serial = 0x24

abbrev pub irq_spurious : ℕ
irq_spurious = 0x27

abbrev pub irq_err : ℕ
irq_err = 0x28

abbrev pub irq_syscall : ℕ
irq_syscall = 0x20 + 0x60

abbrev pub vector_at : ℕ
vector_at = 48

-- the result of `sys_wait`
abbrev pub pid_or_fail : Option ℕ → ℕ
pid_or_fail none = minus_one
pid_or_fail (some pid) = pid

-- `site` is the address of `ret_to_int_site`, `frame` that of the interrupt frame, and `esp` the stack
-- pointer if the task is left. `fuel` bounds the strings that are read from user memory.
module _ (site fuel frame esp : ℕ) where
  unfoldable pub run_handler : Handler → M Kernel ℕ
  run_handler nr_open = sys_open fuel frame
  run_handler nr_read = sys_read frame
  run_handler nr_write = sys_write frame
  run_handler nr_close = sys_close frame
  run_handler nr_execv = sys_execv fuel frame
  run_handler nr_fork = sys_fork site frame
  run_handler nr_exit = sys_exit esp >> pure 0
  run_handler nr_wait = sys_wait esp >>= λ r. pure (pid_or_fail r)

  -- `handle_syscall`, with the handler called
  unfoldable pub run_syscall : M Kernel ℕ
  unfolding run_handler
  run_syscall k = elim (handle_syscall (load32 k.machine.mem (frame + eax_at))) [
    | call h ↦ run_handler h k
    | no_such ↦ done (0, k)
    | out_of_table ↦ fault
  ]

  -- What follows the system call, in the task that made it.
  unfoldable pub after_syscall : ℕ → M Kernel (Unit {0})
  after_syscall ret = modify_mem (λ m. store32 m (frame + eax_at) ret) >> kill_off_zombies

  -- If the call has left the task, the rest is done when the task runs again.
  unfoldable pub on_syscall : M Kernel (Unit {0})
  unfolding run_syscall after_syscall
  on_syscall k =
      and_then (run_syscall k)
        λ ret k'. if k'.curr == k.curr then after_syscall ret k' else done (tt, k')

  -- `status` and `byte` are what the serial port holds.
  unfoldable pub on_serial : ℕ → ℕ → M Kernel (Unit {0})
  on_serial status byte k =
      let (ch, _) = handle_uartintr status byte k.console.edit_len in
      and_then (write_circular_buf ch k.console) (λ _ c. done (tt, record k { console = c }))

  unfoldable pub on_timer : M Kernel (Unit {0})
  on_timer k = done (tt, switch_to scheduler esp (record k { ticks = (k.ticks + 1) % 2 ^ 32 }))

  unfoldable pub trampoline : ℕ → ℕ → M Kernel (Unit {0})
  unfolding on_syscall on_serial on_timer
  trampoline status byte k =
      let irq = load32 k.machine.mem (frame + vector_at) % 256 in
      if irq == irq_syscall
      then on_syscall k
      else if irq == irq_timer
      then on_timer k
      else if irq == irq_serial
      then on_serial status byte k
      else if irq == irq_spurious
      then done (tt, k)
      else if irq == irq_err
      then panic "Internal error in lapic"
      else panic "Don't know how to handle it :)"

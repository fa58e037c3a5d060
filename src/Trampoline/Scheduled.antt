-- ===== src/Trampoline/Scheduled.antt =====
-- Interrupts and system calls, and who runs.
use quaros.Base.{
  ℕ, ◌+◌, ◌%◌, ◌^◌, ◌≡◌, subst, Bool, true, false, Outcome, done, fault, M, and_then, and_then-done,
  done-state, pure, ◌==◌, if◌then◌else◌,
}
use quaros.Ram.{load32, store32}
use quaros.Console.{write_circular_buf}
use quaros.Uart.{handle_uartintr}
use quaros.Syscall.{
  Handler, Dispatch, nr_open, nr_read, nr_write, nr_close, nr_execv, nr_fork, nr_exit, nr_wait,
  call, no_such, out_of_table, handle_syscall,
}
use quaros.Kernel.{Kernel, scheduler}
use quaros.Kernel.Proc.{kill_off_zombies, sys_exit, sys_wait}
use quaros.Kernel.Frame.{eax_at}
use quaros.Kernel.User.{modify_mem}
use quaros.Kernel.Sched.{IsScheduled, exits, waits, reaps}
use quaros.Kernel.Sched.Switch.{switch_to-IsScheduled}
use quaros.Kernel.Sched.Reap.{Step-IsScheduled}
use quaros.Kernel.Sched.Code.{sys_fork-forks}
use quaros.Kernel.Calm.{CalmAt, Calm-IsScheduled}
use quaros.Kernel.Calm.Files.{sys_read-Calms, sys_write-Calms}
use quaros.Kernel.Calm.Open.{sys_open-Calms, sys_close-Calms}
use quaros.Kernel.Calm.Execv.{sys_execv-Calms, modify_mem-Calms}
use quaros.Trampoline.{
  run_handler, run_syscall, after_syscall, on_syscall, on_serial, on_timer, trampoline, pid_or_fail,
  irq_timer, irq_serial, irq_spurious, irq_err, irq_syscall, vector_at,
}

-- Wherever the outcome is a state, one task runs in it.
abbrev ScheduledAt : {A : Type 0} → Outcome (A × Kernel) → Type 0
ScheduledAt {A} o = (a : A) (k' : Kernel) → o ≡ done (a, k') → IsScheduled k'

calm-ScheduledAt :
    {A : Type 0} (k : Kernel) (o : Outcome (A × Kernel))
    → IsScheduled k
    → CalmAt k o
    → ScheduledAt o
calm-ScheduledAt k o s c a k' e = Calm-IsScheduled k k' (c a k' e) s

then-ScheduledAt :
    {A B : Type 0} (o : Outcome (A × Kernel)) (f : A → M Kernel B)
    → ScheduledAt o
    → ((a : A) (k : Kernel) → IsScheduled k → ScheduledAt (f a k))
    → ScheduledAt (and_then o f)
then-ScheduledAt o f p q b k' e =
    let (a, k₁, ran, rest) = and_then-done o f (b, k') e in q a k₁ (p a k₁ ran) b k' rest

done-ScheduledAt : {A : Type 0} (a : A) (k : Kernel) → IsScheduled k → ScheduledAt (done (a, k))
done-ScheduledAt a k s b k' e = subst IsScheduled (done-state a b k k' e) s

if-ScheduledAt :
    {A : Type 0} (c : Bool) (x y : Outcome (A × Kernel))
    → ScheduledAt x
    → ScheduledAt y
    → ScheduledAt (if c then x else y)
if-ScheduledAt true x y p q = p
if-ScheduledAt false x y p q = q

module _ (site fuel frame esp : ℕ) where
  run_handler-ScheduledAt :
      (h : Handler) (k : Kernel) → IsScheduled k → ScheduledAt (run_handler site fuel frame esp h k)
  unfolding run_handler
  run_handler-ScheduledAt nr_open k s = calm-ScheduledAt k _ s (sys_open-Calms fuel frame k)
  run_handler-ScheduledAt nr_read k s = calm-ScheduledAt k _ s (sys_read-Calms frame k)
  run_handler-ScheduledAt nr_write k s = calm-ScheduledAt k _ s (sys_write-Calms frame k)
  run_handler-ScheduledAt nr_close k s = calm-ScheduledAt k _ s (sys_close-Calms frame k)
  run_handler-ScheduledAt nr_execv k s = calm-ScheduledAt k _ s (sys_execv-Calms fuel frame k)
  run_handler-ScheduledAt nr_fork k s =
      λ r k' e. Step-IsScheduled (sys_fork-forks site frame r k k' e) s
  run_handler-ScheduledAt nr_exit k s =
      then-ScheduledAt (sys_exit esp k) (λ _. pure 0) (λ _ k' e. Step-IsScheduled (exits esp e) s)
        (λ _ k'. done-ScheduledAt 0 k')
  run_handler-ScheduledAt nr_wait k s =
      then-ScheduledAt (sys_wait esp k) (λ r. pure (pid_or_fail r))
        (λ _ k' e. Step-IsScheduled (waits esp e) s) (λ r k'. done-ScheduledAt (pid_or_fail r) k')

  dispatch-ScheduledAt :
      (d : Dispatch) (k : Kernel)
      → IsScheduled k
      → ScheduledAt (elim d [
        | call h ↦ run_handler site fuel frame esp h k
        | no_such ↦ done (0, k)
        | out_of_table ↦ fault
      ])
  dispatch-ScheduledAt (call h) k s = run_handler-ScheduledAt h k s
  dispatch-ScheduledAt no_such k s = done-ScheduledAt 0 k s
  dispatch-ScheduledAt out_of_table k s = λ a k' e. cc

  after_syscall-ScheduledAt :
      (ret : ℕ) (k : Kernel) → IsScheduled k → ScheduledAt (after_syscall site fuel frame esp ret k)
  unfolding after_syscall
  after_syscall-ScheduledAt ret k s =
      let put = modify_mem (λ m. store32 m (frame + eax_at) ret) in
      then-ScheduledAt (put k) (λ _. kill_off_zombies)
        (calm-ScheduledAt k (put k) s (modify_mem-Calms (λ m. store32 m (frame + eax_at) ret) k))
        (λ _ k₁ s₁ _ k' e. Step-IsScheduled (reaps e) s₁)

  on_syscall-ScheduledAt :
      (k : Kernel) → IsScheduled k → ScheduledAt (on_syscall site fuel frame esp k)
  unfolding on_syscall
  on_syscall-ScheduledAt k s =
      then-ScheduledAt (run_syscall site fuel frame esp k) _
        (dispatch-ScheduledAt (handle_syscall (load32 k.machine.mem (frame + eax_at))) k s)
        (λ ret k' s'.
          if-ScheduledAt (k'.curr == k.curr) _ _ (after_syscall-ScheduledAt ret k' s')
            (done-ScheduledAt tt k' s'))

  on_serial-ScheduledAt :
      (status byte : ℕ) (k : Kernel)
      → IsScheduled k
      → ScheduledAt (on_serial site fuel frame esp status byte k)
  unfolding on_serial
  on_serial-ScheduledAt status byte k s a k' e =
      let write = write_circular_buf (handle_uartintr status byte k.console.edit_len).0 k.console in
      let (_, c, _, rest) =
        and_then-done write (λ _ c. done (tt, record k { console = c })) (a, k') e in
      done-ScheduledAt tt (record k { console = c }) (record { runs = s.runs; alone = s.alone }) a
        k' rest

-- An interrupt or a system call that comes to its end, or that leaves its task for the scheduler,
-- keeps the current task running and no other: opening, reading, writing, closing, execv, fork,
-- exit, wait, the reaping behind them, the timer and the serial port.
pub trampoline-IsScheduled :
    (site fuel frame esp status byte : ℕ) (k k' : Kernel)
    → IsScheduled k
    → trampoline site fuel frame esp status byte k ≡ done (tt, k')
    → IsScheduled k'
unfolding trampoline on_timer
trampoline-IsScheduled site fuel frame esp status byte k k' s =
    let irq = load32 k.machine.mem (frame + vector_at) % 256 in
    if-ScheduledAt (irq == irq_syscall) _ _ (on_syscall-ScheduledAt site fuel frame esp k s)
      (if-ScheduledAt (irq == irq_timer) _ _
        (done-ScheduledAt tt _ (
          switch_to-IsScheduled scheduler esp (record k { ticks = (k.ticks + 1) % 2 ^ 32 })
            s.alone))
        (if-ScheduledAt (irq == irq_serial) _ _
          (on_serial-ScheduledAt site fuel frame esp status byte k s)
          (if-ScheduledAt (irq == irq_spurious) _ _ (done-ScheduledAt tt k s)
            (if-ScheduledAt (irq == irq_err) _ _ (λ a k₁ e. cc) (λ a k₁ e. cc)))))
      tt k'

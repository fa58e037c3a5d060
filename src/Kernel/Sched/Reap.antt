-- ===== src/Kernel/Sched/Reap.antt =====
-- Destroying tasks, and the invariant of the whole machine.
use quaros.Base.{
  ℕ, zero, suc, ◌+◌, ◌%◌, ◌^◌, ◌≡◌, ◌≢◌, sym, ◌∙◌, subst, false, ◌&&◌, not, none, done, ◌>>◌,
  and_then-done, done-state, M, arith, ◌==◌, if◌then◌else◌, Bool-cases, inl, inr, if_true, if_false,
}
use quaros.PageAlloc.{kfree}
use quaros.Paging.{destroy_address_space}
use quaros.Fs.{update}
use quaros.Kernel.{Kernel, unused, running, max_tasks}
use quaros.Kernel.Proc.{
  is_zombie, is_sleeping, points_to, on_machine, modify_task, destroy_task, kill_zombies,
  kill_off_zombies,
}
use quaros.Kernel.Sched.Keep.{Keeping, Keeping-then, Keeping-machine, Keeping-modify}
use quaros.Kernel.Sched.Create.{enlist-IsScheduled, adopt-IsScheduled}
use quaros.Kernel.Sched.{
  IsScheduled, Step, dispatch, timer, registers, forks, sleeps, exits, waits, reaps, Reach, boot,
  step,
}
use quaros.Kernel.Sched.Switch.{
  switch_to-IsScheduled, init_tasks-IsScheduled, sleep-IsScheduled, sys_exit-IsScheduled,
  sys_wait-IsScheduled,
}

-- What `destroy_task i` leaves: `i` is unused, and the other tasks are as they were.
pub record Destroyed (i : ℕ) (k k' : Kernel) : Type 0 where
  pub gone : (k'.tasks i).state ≡ unused
  pub others : (j : ℕ) → j ≢ i → k'.tasks j ≡ k.tasks j
  pub curr : k'.curr ≡ k.curr

-- the part of `destroy_task` after its first assignments
abbrev release : ℕ → ℕ → ℕ → M Kernel (Unit {0})
release i pgdir kstack = do
  on_machine (destroy_address_space pgdir)
  modify_task i (λ t. record t { pgdir = 0 })
  on_machine (kfree kstack)
  modify_task i (λ t. record t { kstack = 0; parent = none; open_files = λ _. none })

release-Keeping : (i pgdir kstack : ℕ) → Keeping i (release i pgdir kstack)
release-Keeping i pgdir kstack =
    Keeping-then i (on_machine (destroy_address_space pgdir)) _
      (Keeping-machine i (destroy_address_space pgdir))
      (Keeping-then i (modify_task i (λ t. record t { pgdir = 0 })) _
        (Keeping-modify i (λ t. record t { pgdir = 0 }) (λ t u. u))
        (Keeping-then i (on_machine (kfree kstack)) _ (Keeping-machine i (kfree kstack)) (
          Keeping-modify i (λ t. record t { kstack = 0; parent = none; open_files = λ _. none })
            (λ t u. u))))

pub destroy_task-Destroyed :
    (i : ℕ) (k k' : Kernel) → destroy_task i k ≡ done (tt, k') → Destroyed i k k'
unfolding destroy_task
destroy_task-Destroyed i k k' e =
    let t = record (k.tasks i) { context = 0; pid = 0; state = unused } in
    let k₁ = record k { tasks = update k.tasks i t } in
    let kept = release-Keeping i (k.tasks i).pgdir (k.tasks i).kstack k₁ k' tt e in
    record {
      gone = kept.still (ground arith);
      others = λ j ne. kept.others j ne ∙ ground arith;
      curr = kept.curr;
    }

-- Destroying a task that does not run keeps the invariant.
destroy_task-IsScheduled :
    (i : ℕ) (k k' : Kernel)
    → i ≢ k.curr
    → IsScheduled k
    → destroy_task i k ≡ done (tt, k')
    → IsScheduled k'
destroy_task-IsScheduled i k k' ne s e =
    let d = destroy_task-Destroyed i k k' e in
    record {
      runs = rw (d.curr, d.others k.curr (λ e'. ne (sym e'))) s.runs;
      alone = λ j nj. elim (Bool-cases (j == i)) [
        | inl e' ↦ (let here : j ≡ i = ground arith in rw (here, d.gone))
        | inr e' ↦ rw (d.others j (ground arith)) (s.alone j (rw d.curr at nj))
      ];
    }

-- one round of the loop of `kill_off_zombies`
abbrev pub round : ℕ → M Kernel (Unit {0})
round i k =
    if points_to (k.tasks i).parent k.curr
      && is_zombie (k.tasks i).state
      && not (is_sleeping (k.tasks k.curr).state)
    then destroy_task i k
    else done (tt, k)

round-IsScheduled :
    (i : ℕ) (k k' : Kernel) → IsScheduled k → round i k ≡ done (tt, k') → IsScheduled k'
round-IsScheduled i k k' s e =
    elim (Bool-cases (
      points_to (k.tasks i).parent k.curr
      && is_zombie (k.tasks i).state
      && not (is_sleeping (k.tasks k.curr).state))) [
        | inl mine ↦
            let not_curr : i ≢ k.curr =
              λ here. let state : (k.tasks i).state ≡ running = rw here s.runs in ground arith in
            destroy_task-IsScheduled i k k' not_curr s (rw mine at e)
        | inr other ↦ subst IsScheduled (done-state tt tt k k' (rw other at e)) s
      ]

kill_zombies-IsScheduled :
    (rounds i : ℕ) (k k' : Kernel)
    → IsScheduled k
    → kill_zombies rounds i k ≡ done (tt, k')
    → IsScheduled k'
unfolding kill_zombies
kill_zombies-IsScheduled zero i k k' s e = subst IsScheduled (done-state tt tt k k' e) s
kill_zombies-IsScheduled (suc rounds) i k k' s e =
    let (_, k₁, ran, rest) =
      and_then-done (round i k) (λ _. kill_zombies rounds (i + 1)) (tt, k') e in
    kill_zombies-IsScheduled rounds (i + 1) k₁ k' (round-IsScheduled i k k₁ s ran) rest

kill_off_zombies-IsScheduled :
    (k k' : Kernel) → IsScheduled k → kill_off_zombies k ≡ done (tt, k') → IsScheduled k'
unfolding kill_off_zombies
kill_off_zombies-IsScheduled k k' s e = elim (Bool-cases k.zombie_exists) [
  | inl some_died ↦
      let (_, k₁, ran, rest) =
        and_then-done (kill_zombies max_tasks 0 k)
          (λ _ k₂. done (tt, record k₂ { zombie_exists = false })) (tt, k')
          (sym (if_true k.zombie_exists _ (done (tt, k)) some_died) ∙ e) in
      let s₁ = kill_zombies-IsScheduled max_tasks 0 k k₁ s ran in
      subst IsScheduled (done-state tt tt (record k₁ { zombie_exists = false }) k' rest)
        (record { runs = s₁.runs; alone = s₁.alone })
  | inr none_died ↦
      subst IsScheduled
        (done-state tt tt k k' (sym (if_false k.zombie_exists _ (done (tt, k)) none_died) ∙ e)) s
]

-- Every step of the kernel keeps the current task running and no other.
pub Step-IsScheduled : {k k' : Kernel} → Step k k' → IsScheduled k → IsScheduled k'
Step-IsScheduled {k} (dispatch at esp i c lt found) s = switch_to-IsScheduled i esp k s.alone
Step-IsScheduled {k} (timer esp user) s =
    switch_to-IsScheduled 0 esp (record k { ticks = (k.ticks + 1) % 2 ^ 32 }) s.alone
Step-IsScheduled {k} (registers context h {i} {k'} e) s = enlist-IsScheduled context h i k k' s e
Step-IsScheduled {k} (forks context h {i} {k'} e) s = adopt-IsScheduled context h i k k' s e
Step-IsScheduled {k} {k'} (sleeps esp e) s = sleep-IsScheduled esp k k' s e
Step-IsScheduled {k} {k'} (exits esp e) s = sys_exit-IsScheduled esp k k' s e
Step-IsScheduled {k} {k'} (waits esp {r} e) s = sys_wait-IsScheduled esp k r k' s e
Step-IsScheduled {k} {k'} (reaps e) s = kill_off_zombies-IsScheduled k k' s e

-- In every state reached from boot by scheduling, timer interrupts, new tasks, forks, sleeping,
-- exiting, waiting and reaping, the current task is running and no other task is.
pub Reach-IsScheduled : {kpgdir : ℕ} {k₀ k : Kernel} → Reach kpgdir k₀ k → IsScheduled k
Reach-IsScheduled {kpgdir} {k₀} boot = init_tasks-IsScheduled kpgdir k₀
Reach-IsScheduled (step r st) = Step-IsScheduled st (Reach-IsScheduled r)

-- ===== src/Kernel/Sched/Switch.antt =====
-- `switch_to`, and the calls that end in it.
use quaros.Base.{
  panic, ℕ, ◌≡◌, ◌≢◌, refl, true, false, Option, none, some, done, and_then, arith, subst,
  Bool-cases, Option-cases, inl, inr, and_then-done, done-state, ◌⊎◌, sym, ◌∙◌, ◌==◌, if◌then◌else◌,
}
use quaros.Fs.{find_index}
use quaros.Kernel.{Kernel, sleeping, runnable, running, zombie, scheduler, max_tasks}
use quaros.Kernel.Proc.{
  is_running, is_sleeping, is_zombie, switch_to, set_state, init_tasks, sleep, sys_exit, sys_wait,
  wakeup_parent, points_to,
}
use quaros.Kernel.Sched.{IsScheduled}

-- Nothing but the current task is `running`.
abbrev pub IsQuiet : Kernel → Type 0
IsQuiet k = (i : ℕ) → i ≢ k.curr → is_running (k.tasks i).state ≡ false

-- `switch_to` leaves exactly the next task running, whatever the current task has become.
pub switch_to-IsScheduled :
    (next esp : ℕ) (k : Kernel) → IsQuiet k → IsScheduled (switch_to next esp k)
unfolding switch_to
switch_to-IsScheduled next esp k q = record {
  runs = ground arith;
  alone = λ i ne. ground (arith, q i);
}

-- A task that is neither left nor started keeps its whole record; the one that is left keeps its
-- state unless it was running, and then becomes runnable.
pub switch_to-other :
    (next esp : ℕ) (k : Kernel) (i : ℕ)
    → i ≢ next
    → i ≢ k.curr
    → (switch_to next esp k).tasks i ≡ k.tasks i
unfolding switch_to
switch_to-other next esp k i n c = ground arith

pub switch_to-left :
    (next esp : ℕ) (k : Kernel)
    → k.curr ≢ next
    → ((switch_to next esp k).tasks k.curr).state
      ≡ (if is_running (k.tasks k.curr).state then runnable else (k.tasks k.curr).state)
unfolding switch_to
switch_to-left next esp k n = ground arith

pub init_tasks-IsScheduled : (kpgdir : ℕ) (k : Kernel) → IsScheduled (init_tasks kpgdir k)
unfolding init_tasks
init_tasks-IsScheduled kpgdir k = record { runs = refl; alone = λ i ne. ground arith }

-- What `sleep` has done when it does not panic.
sleep-inv :
    (esp : ℕ) (k k' : Kernel)
    → sleep esp k ≡ done (tt, k')
    → (k.curr ≢ scheduler)
      × (switch_to scheduler esp (record k { tasks = set_state k.curr sleeping k.tasks }) ≡ k')
unfolding sleep
sleep-inv esp k k' e = (ground arith, ground arith)

pub sleep-IsScheduled :
    (esp : ℕ) (k k' : Kernel) → IsScheduled k → sleep esp k ≡ done (tt, k') → IsScheduled k'
sleep-IsScheduled esp k k' s e = subst IsScheduled (sleep-inv esp k k' e).1 (
    switch_to-IsScheduled scheduler esp (record k { tasks = set_state k.curr sleeping k.tasks })
      (λ i ne. ground (arith, s.alone i ne)))

-- The states of an exiting task and of its parent, just before the switch away.
abbrev pub dying : Kernel → Kernel
dying k = record k { zombie_exists = true; tasks = set_state k.curr zombie k.tasks }

abbrev pub woken : ℕ → Kernel → Kernel
woken p k =
    if is_sleeping (k.tasks p).state then record k { tasks = set_state p runnable k.tasks } else k

wakeup_parent-woken :
    (k : Kernel) (p : ℕ) → (k.tasks k.curr).parent ≡ some p → wakeup_parent k ≡ done (tt, woken p k)
unfolding wakeup_parent
wakeup_parent-woken k p e = rw (e, wakeup_parent)

dying-parent : (k : Kernel) → ((dying k).tasks k.curr).parent ≡ (k.tasks k.curr).parent
dying-parent k = ground arith

-- What `sys_exit` does to a task with a parent.
sys_exit-woken :
    (esp : ℕ) (k : Kernel) (p : ℕ)
    → k.curr ≢ scheduler
    → (k.tasks k.curr).parent ≡ some p
    → sys_exit esp k ≡ done (tt, switch_to scheduler esp (woken p (dying k)))
unfolding sys_exit
sys_exit-woken esp k p user has_parent =
    let not_scheduler : (k.curr == scheduler) ≡ false = ground arith in
    rw (not_scheduler, wakeup_parent-woken (dying k) p (dying-parent k ∙ has_parent))

-- A task has exited: it is a zombie, its parent does not sleep, the scheduler runs, and the others
-- are as they were.
pub record Exited (k : Kernel) (p : ℕ) (k' : Kernel) : Type 0 where
  pub gone : (k'.tasks k.curr).state ≡ zombie
  pub noted : k'.zombie_exists ≡ true
  pub curr : k'.curr ≡ scheduler
  pub runs : (k'.tasks scheduler).state ≡ running
  pub parent :
      (k'.tasks p).state ≡ (if is_sleeping (k.tasks p).state then runnable else (k.tasks p).state)
  pub others : (i : ℕ) → i ≢ k.curr → i ≢ p → i ≢ scheduler → k'.tasks i ≡ k.tasks i

-- sys_exit of a task that is not the scheduler and has another task than itself and the scheduler
-- as its parent succeeds: the task is a zombie and stays one through the switch, zombie_exists is
-- set, the scheduler is the current task and runs, the parent is runnable if it slept and else is
-- in the state that it was in, and every other task is as it was.
pub sys_exit-Exited :
    (esp : ℕ) (k : Kernel) (p : ℕ)
    → k.curr ≢ scheduler
    → (k.tasks k.curr).parent ≡ some p
    → p ≢ k.curr
    → p ≢ scheduler
    → (k' : Kernel) × (sys_exit esp k ≡ done (tt, k')) × Exited k p k'
unfolding switch_to
sys_exit-Exited esp k p user has_parent own above = (
  switch_to scheduler esp (woken p (dying k)),
  sys_exit-woken esp k p user has_parent,
  record {
    gone = ground arith;
    noted = ground arith;
    curr = refl;
    runs = ground arith;
    parent = ground arith;
    others = λ i c q n. ground arith;
  },
)

-- If the current task is the scheduler, or has no parent, sys_exit panics, with the message of
-- the one or of the other.
pub sys_exit-panics :
    (esp : ℕ) (k : Kernel)
    → (k.curr ≡ scheduler) ⊎ ((k.tasks k.curr).parent ≡ none)
    → (sys_exit esp k ≡ panic "sys_exit: Exit scheulder")
      ⊎ (sys_exit esp k ≡ panic "wakeup_parent: No parent to wakeup")
unfolding sys_exit wakeup_parent
sys_exit-panics esp k (inl e) = inl (ground arith)
sys_exit-panics esp k (inr e) =
    let no_parent : ((dying k).tasks k.curr).parent ≡ none = dying-parent k ∙ e in
    elim (Bool-cases (k.curr == scheduler)) [ inl c ↦ inl (rw c) | inr c ↦ inr (ground arith) ]

sys_exit-not_done :
    (esp : ℕ) (k k' : Kernel)
    → (k.curr ≡ scheduler) ⊎ ((k.tasks k.curr).parent ≡ none)
    → sys_exit esp k ≢ done (tt, k')
sys_exit-not_done esp k k' h e = elim (sys_exit-panics esp k h) [ inl p ↦ cc | inr p ↦ cc ]

sys_exit-inv :
    (esp : ℕ) (k k' : Kernel)
    → sys_exit esp k ≡ done (tt, k')
    → (p : ℕ) × (switch_to scheduler esp (woken p (dying k)) ≡ k')
sys_exit-inv esp k k' e = elim (Bool-cases (k.curr == scheduler)) [
  | inl c ↦ absurd (sys_exit-not_done esp k k' (inl (ground arith)) e)
  | inr c ↦ elim (Option-cases (k.tasks k.curr).parent) [
    | inl no_parent ↦ absurd (sys_exit-not_done esp k k' (inr no_parent) e)
    | inr (p, has_parent) ↦
        (p, done-state tt tt _ _ (sym (sys_exit-woken esp k p (ground arith) has_parent) ∙ e))
  ]
]

woken-IsQuiet : (p : ℕ) (k : Kernel) → IsScheduled k → IsQuiet (woken p (dying k))
woken-IsQuiet p k s i ne = ground (arith, s.alone i, s.alone p)

pub sys_exit-IsScheduled :
    (esp : ℕ) (k k' : Kernel) → IsScheduled k → sys_exit esp k ≡ done (tt, k') → IsScheduled k'
sys_exit-IsScheduled esp k k' s e =
    let (p, left) = sys_exit-inv esp k k' e in
    subst IsScheduled left
      (switch_to-IsScheduled scheduler esp (woken p (dying k)) (woken-IsQuiet p k s))

-- The first child of the current task, in the order of the table.
abbrev pub first_child : Kernel → Option ℕ
first_child k = find_index max_tasks 0 (λ i. points_to (k.tasks i).parent k.curr)

sys_wait-no_child : (esp : ℕ) (k : Kernel) → first_child k ≡ none → sys_wait esp k ≡ done (none, k)
unfolding sys_wait
sys_wait-no_child esp k e = rw (e, sys_wait)

sys_wait-zombie :
    (esp : ℕ) (k : Kernel) (i : ℕ)
    → first_child k ≡ some i
    → is_zombie (k.tasks i).state ≡ true
    → sys_wait esp k ≡ done (some (k.tasks i).pid, k)
unfolding sys_wait
sys_wait-zombie esp k i e z = rw (e, sys_wait, z)

sys_wait-alive :
    (esp : ℕ) (k : Kernel) (i : ℕ)
    → first_child k ≡ some i
    → is_zombie (k.tasks i).state ≡ false
    → sys_wait esp k ≡ and_then (sleep esp k) (λ _ k'. done (some (k.tasks i).pid, k'))
unfolding sys_wait
sys_wait-alive esp k i e z = rw (e, sys_wait, z)

pub sys_wait-IsScheduled :
    (esp : ℕ) (k : Kernel) (r : Option ℕ) (k' : Kernel)
    → IsScheduled k
    → sys_wait esp k ≡ done (r, k')
    → IsScheduled k'
sys_wait-IsScheduled esp k r k' s e = elim (Option-cases (first_child k)) [
  | inl no_child ↦
      subst IsScheduled (done-state none r k k' (sym (sys_wait-no_child esp k no_child) ∙ e)) s
  | inr (i, child) ↦ elim (Bool-cases (is_zombie (k.tasks i).state)) [
    | inl z ↦
        subst IsScheduled
          (done-state (some (k.tasks i).pid) r k k' (sym (sys_wait-zombie esp k i child z) ∙ e)) s
    | inr nz ↦
        let (_, k₁, slept, rest) =
          and_then-done (sleep esp k) (λ _ k₂. done (some (k.tasks i).pid, k₂)) (r, k')
            (sym (sys_wait-alive esp k i child nz) ∙ e) in
        subst IsScheduled (done-state (some (k.tasks i).pid) r k₁ k' rest)
          (sleep-IsScheduled esp k k₁ s slept)
  ]
]

-- ===== src/Kernel/Sched/Pick.antt =====
-- The loop of `schedule`.
use quaros.Base.{
  ℕ, zero, suc, ◌+◌, ◌-◌, ◌%◌, ◌<◌, ◌≤◌, ◌≡◌, ◌∙◌, true, false, some, arith, Bool-cases, inl, inr,
}
use quaros.Kernel.{Kernel, Task, max_tasks}
use quaros.Kernel.Proc.{is_runnable, pick}

-- the `d`th task that the loop of `schedule` looks at when it stands at `at`
abbrev pub nth : ℕ → ℕ → ℕ
nth at d = (at + d) % max_tasks

-- `r` is the first runnable task at or after `at`.
pub record IsNext (tasks : ℕ → Task) (at d r : ℕ) : Type 0 where
  pub place : r ≡ nth at d
  pub ready : is_runnable (tasks r).state ≡ true
  pub passed : (e : ℕ) → e < d → is_runnable (tasks (nth at e)).state ≡ false

-- The loop moves on by one: its `d`th task from the next place on is the one after.
nth-suc : (at d : ℕ) → at < max_tasks → nth ((at + 1) % max_tasks) d ≡ nth at (suc d)
nth-suc at d h = omega arith

module _ (tasks : ℕ → Task) where
  IsNext-here :
      (at : ℕ) → at < max_tasks → is_runnable (tasks at).state ≡ true → IsNext tasks at 0 at
  IsNext-here at hat here = record { place = omega arith; ready = here; passed = λ e h. elim h [ ] }

  passed-suc :
      (at d r : ℕ)
      → at < max_tasks
      → is_runnable (tasks at).state ≡ false
      → IsNext tasks ((at + 1) % max_tasks) d r
      → (e : ℕ) → e < suc d
      → is_runnable (tasks (nth at e)).state ≡ false
  passed-suc at d r hat not_here n zero h = let e : nth at 0 ≡ at = omega arith in rw e not_here
  passed-suc at d r hat not_here n (suc e) h = rw (← nth-suc at e hat) (n.passed e (omega arith))

  IsNext-suc :
      (at d r : ℕ)
      → at < max_tasks
      → is_runnable (tasks at).state ≡ false
      → IsNext tasks ((at + 1) % max_tasks) d r
      → IsNext tasks at (suc d) r
  IsNext-suc at d r hat not_here n = record {
    place = n.place ∙ nth-suc at d hat;
    ready = n.ready;
    passed = passed-suc at d r hat not_here n;
  }

  pick-here :
      (rounds at : ℕ) → is_runnable (tasks at).state ≡ true → pick (suc rounds) at tasks ≡ some at
  unfolding pick
  pick-here rounds at here = rw here

  pick-next :
      (rounds at : ℕ)
      → is_runnable (tasks at).state ≡ false
      → pick (suc rounds) at tasks ≡ pick rounds ((at + 1) % max_tasks) tasks
  unfolding pick
  pick-next rounds at not_here = rw not_here

  -- If a task within the rounds left is runnable, the loop finds the first one.
  pub pick-IsNext :
      (rounds at d : ℕ)
      → at < max_tasks
      → d < rounds
      → is_runnable (tasks (nth at d)).state ≡ true
      → (d' : ℕ) × (r : ℕ) × (pick rounds at tasks ≡ some r) × IsNext tasks at d' r × (d' ≤ d)
  pick-IsNext zero at d hat lt ready = elim lt [ ]
  pick-IsNext (suc rounds) at zero hat lt ready =
      let e : nth at 0 ≡ at = omega arith in
      let here : is_runnable (tasks at).state ≡ true = rw e at ready in
      (0, at, pick-here rounds at here, IsNext-here at hat here, omega arith)
  pick-IsNext (suc rounds) at (suc d) hat lt ready =
      elim (Bool-cases (is_runnable (tasks at).state)) [
        | inl here ↦ (0, at, pick-here rounds at here, IsNext-here at hat here, omega arith)
        | inr not_here ↦
            let (d', r, e, n, le) =
              pick-IsNext rounds ((at + 1) % max_tasks) d (omega arith) (omega arith)
                (rw (nth-suc at d hat) ready) in
            (
              suc d',
              r,
              pick-next rounds at not_here ∙ e,
              IsNext-suc at d' r hat not_here n,
              omega arith,
            )
      ]

-- If a task of the table is runnable, one turn of the loop of schedule, wherever it stands,
-- reaches the first runnable task in cyclic order.
pub schedule-IsNext :
    (k : Kernel) (at j : ℕ)
    → at < max_tasks
    → j < max_tasks
    → is_runnable (k.tasks j).state ≡ true
    → (d : ℕ) × (r : ℕ) × (pick max_tasks at k.tasks ≡ some r) × IsNext k.tasks at d r
schedule-IsNext k at j hat hj ready =
    let e : nth at ((j + max_tasks - at) % max_tasks) ≡ j = omega arith in
    let (d, r, found, n, _) =
      pick-IsNext k.tasks max_tasks at ((j + max_tasks - at) % max_tasks) hat (omega arith)
        (rw e ready) in
    (d, r, found, n)

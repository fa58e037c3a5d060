-- ===== src/Kernel/Sched/Zombies.antt =====
-- What `kill_off_zombies` leaves behind.
use quaros.Base.{
  ℕ, zero, suc, ◌+◌, ◌≡◌, ◌≢◌, ap, sym, ◌∙◌, false, ◌&&◌, not, done, and_then-done, done-state,
  arith, Bool-cases, inl, inr, if_true, if_false,
}
use quaros.Kernel.{Kernel, Task, zombie, max_tasks}
use quaros.Kernel.Proc.{is_zombie, is_sleeping, points_to, kill_zombies, kill_off_zombies}
use quaros.Kernel.Sched.Reap.{destroy_task-Destroyed, round}

-- Task `j` is as it was, and so is who runs.
record Spared (j : ℕ) (k k' : Kernel) : Type 0 where
  task : k'.tasks j ≡ k.tasks j
  curr : k'.curr ≡ k.curr

Spared-trans : (j : ℕ) (k k' k'' : Kernel) → Spared j k k' → Spared j k' k'' → Spared j k k''
Spared-trans j k k' k'' p q = record { task = q.task ∙ p.task; curr = q.curr ∙ p.curr }

Spared-eq : (j : ℕ) (k k' : Kernel) → k ≡ k' → Spared j k k'
Spared-eq j k k' e = record {
  task = ap (λ (x : Kernel). x.tasks j) (sym e);
  curr = ap (λ (x : Kernel). x.curr) (sym e);
}

round-Spared :
    (i j : ℕ) (k k' : Kernel)
    → points_to (k.tasks j).parent k.curr ≡ false
    → round i k ≡ done (tt, k')
    → Spared j k k'
round-Spared i j k k' other e =
    elim (Bool-cases (
      points_to (k.tasks i).parent k.curr
      && is_zombie (k.tasks i).state
      && not (is_sleeping (k.tasks k.curr).state))) [
        | inl mine ↦
            let d = destroy_task-Destroyed i k k' (rw mine at e) in
            let ne : j ≢ i = λ here.
              let not_mine : points_to (k.tasks i).parent k.curr ≡ false = rw (← here) other in
              ground arith in
            record { task = d.others j ne; curr = d.curr }
        | inr kept ↦ Spared-eq j k k' (done-state tt tt k k' (rw kept at e))
      ]

kill_zombies-Spared :
    (rounds i j : ℕ) (k k' : Kernel)
    → points_to (k.tasks j).parent k.curr ≡ false
    → kill_zombies rounds i k ≡ done (tt, k')
    → Spared j k k'
unfolding kill_zombies
kill_zombies-Spared zero i j k k' other e = Spared-eq j k k' (done-state tt tt k k' e)
kill_zombies-Spared (suc rounds) i j k k' other e =
    let (_, k₁, ran, rest) =
      and_then-done (round i k) (λ _. kill_zombies rounds (i + 1)) (tt, k') e in
    let s = round-Spared i j k k₁ other ran in
    Spared-trans j k k₁ k' s
      (kill_zombies-Spared rounds (i + 1) j k₁ k' (rw (s.task, s.curr) other) rest)

-- A zombie that is no child of the current task is a zombie still after kill_off_zombies, and
-- zombie_exists is then cleared.
pub kill_off_zombies-orphans :
    (j : ℕ) (k k' : Kernel)
    → points_to (k.tasks j).parent k.curr ≡ false
    → (k.tasks j).state ≡ zombie
    → kill_off_zombies k ≡ done (tt, k')
    → ((k'.tasks j).state ≡ zombie) × (k'.zombie_exists ≡ false)
unfolding kill_off_zombies
kill_off_zombies-orphans j k k' other dead e = elim (Bool-cases k.zombie_exists) [
  | inl some_died ↦
      let (_, k₁, ran, rest) =
        and_then-done (kill_zombies max_tasks 0 k)
          (λ _ k₂. done (tt, record k₂ { zombie_exists = false })) (tt, k')
          (sym (if_true k.zombie_exists _ (done (tt, k)) some_died) ∙ e) in
      let s = kill_zombies-Spared max_tasks 0 j k k₁ other ran in
      let last : record k₁ { zombie_exists = false } ≡ k' =
        done-state tt tt (record k₁ { zombie_exists = false }) k' rest in
      (
        ap (λ (x : Kernel). (x.tasks j).state) (sym last)
            ∙ (ap (λ (t : Task). t.state) s.task ∙ dead),
        ap (λ (x : Kernel). x.zombie_exists) (sym last),
      )
  | inr none_died ↦
      let last : k ≡ k' =
        done-state tt tt k k' (sym (if_false k.zombie_exists _ (done (tt, k)) none_died) ∙ e) in
      (
        ap (λ (x : Kernel). (x.tasks j).state) (sym last) ∙ dead,
        ap (λ (x : Kernel). x.zombie_exists) (sym last) ∙ none_died,
      )
]

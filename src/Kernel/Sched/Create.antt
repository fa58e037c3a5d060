-- ===== src/Kernel/Sched/Create.antt =====
-- Making new tasks.
use quaros.Base.{
  ℕ, ◌≡◌, ◌≢◌, refl, sym, subst, true, Option, none, some, Outcome, done, ◌>>◌, ◌>>=◌,
  and_then-done, done-state, M, arith, ◌==◌, Bool-cases, inl, inr,
}
use quaros.PageAlloc.{Machine}
use quaros.Kernel.{Kernel, Task, ProcState, unused, running, max_tasks}
use quaros.Kernel.Proc.{on_machine, modify_task}
use quaros.Kernel.Sched.{IsScheduled}
use quaros.Kernel.Sched.Keep.{
  Keeps, Keeping, Keeping-then, Keeping-bind, Keeping-machine, Keeping-modify,
}
use quaros.PageAlloc.{kmalloc}
use quaros.Paging.{map_kernel}
use quaros.Fs.{find_index}
use quaros.Fs.Names.{find_index-IsFirst}
use quaros.Base.{Option-cases, pure}
use quaros.Kernel.{runnable}
use quaros.Kernel.Proc.{is_unused, alloc_task, enlist, adopt}

-- what `alloc_task` does once it has found slot `i`
abbrev prepare : ℕ → M Kernel (Option ℕ)
prepare i = do
  modify_task i (λ t. record t { pid = i })
  kstack ← on_machine kmalloc
  modify_task i (λ t. record t { kstack = kstack })
  pgdir ← on_machine map_kernel
  modify_task i (λ t. record t { pgdir = pgdir })
  pure (some i)

Keeping-pure : {A : Type 0} (i : ℕ) (x : A) → Keeping i (pure x)
Keeping-pure i x k k' a e =
    subst (λ (y : Kernel). Keeps i k y) (done-state x a k k' e)
      (record { others = λ j ne. refl; curr = refl; still = λ u. u })

prepare-Keeping : (i : ℕ) → Keeping i (prepare i)
prepare-Keeping i =
    Keeping-then i (modify_task i (λ t. record t { pid = i })) _
      (Keeping-modify i (λ t. record t { pid = i }) (λ t u. u))
      (Keeping-bind i (on_machine kmalloc) _ (Keeping-machine i kmalloc) (λ kstack.
        Keeping-then i (modify_task i (λ t. record t { kstack = kstack })) _
          (Keeping-modify i (λ t. record t { kstack = kstack }) (λ t u. u))
          (Keeping-bind i (on_machine map_kernel) _ (Keeping-machine i map_kernel) (λ pgdir.
            Keeping-then i (modify_task i (λ t. record t { pgdir = pgdir })) _
              (Keeping-modify i (λ t. record t { pgdir = pgdir }) (λ t u. u))
              (Keeping-pure i (some i))))))

-- The task that `alloc_task` found was unused, still is, and no other task has changed.
pub record Allocated (i : ℕ) (k k' : Kernel) : Type 0 where
  pub free : (k.tasks i).state ≡ unused
  pub keeps : Keeps i k k'

abbrev Returns : {A : Type 0} → A → M Kernel A → Type 0
Returns {A} x m = (k k' : Kernel) (a : A) → m k ≡ done (a, k') → a ≡ x

Returns-bind :
    {A B : Type 0} (x : B) (m : M Kernel A) (n : A → M Kernel B)
    → ((a : A) → Returns x (n a))
    → Returns x (m >>= n)
Returns-bind x m n r k k' b e =
    let (a, k₁, _, rest) = and_then-done (m k) n (b, k') e in r a k₁ k' b rest

Returns-then :
    {B : Type 0} (x : B) (m : M Kernel (Unit {0})) (n : M Kernel B)
    → Returns x n
    → Returns x (m >> n)
Returns-then x m n r k k' b e =
    let (_, k₁, _, rest) = and_then-done (m k) (λ _. n) (b, k') e in r k₁ k' b rest

Returns-pure : {A : Type 0} (x : A) → Returns x (pure x)
Returns-pure x k k' a e = cc

prepare-Returns : (i : ℕ) → Returns (some i) (prepare i)
prepare-Returns i = Returns-then (some i) (modify_task i (λ t. record t { pid = i })) _ (
    Returns-bind (some i) (on_machine kmalloc) _ (λ kstack.
      Returns-then (some i) (modify_task i (λ t. record t { kstack = kstack })) _ (
        Returns-bind (some i) (on_machine map_kernel) _ (λ pgdir.
          Returns-then (some i) (modify_task i (λ t. record t { pgdir = pgdir })) _
            (Returns-pure (some i))))))

unused_of_test : (s : ProcState) → is_unused s ≡ true → s ≡ unused
unused_of_test s e = ground arith

pub alloc_task-Allocated :
    (i : ℕ) (k k' : Kernel) → alloc_task k ≡ done (some i, k') → Allocated i k k'
unfolding alloc_task
alloc_task-Allocated i k k' e =
    elim (Option-cases (find_index max_tasks 0 (λ j. is_unused (k.tasks j).state))) [
      | inl full ↦
          (let e' : ◌≡◌ {A = Outcome (Option ℕ × Kernel)} (done (none, k)) (done (some i, k')) =
              rw (full, alloc_task) at e in
            cc)
      | inr (j, found) ↦
          let ran : prepare j k ≡ done (some i, k') = rw (found, alloc_task) at e in
          let (f, _) = find_index-IsFirst max_tasks 0 _ j found in
          let same : some i ≡ some j = prepare-Returns j k k' (some i) ran in
          let here : i ≡ j = cc in
          rw here (record {
            free = unused_of_test (k.tasks j).state f.passes;
            keeps = prepare-Keeping j k k' (some i) ran;
          })
    ]

-- `alloc_task` gives the first task that is unused.
pub alloc_task-first :
    (i j : ℕ) (k k' : Kernel)
    → find_index max_tasks 0 (λ n. is_unused (k.tasks n).state) ≡ some j
    → alloc_task k ≡ done (some i, k')
    → i ≡ j
unfolding alloc_task
alloc_task-first i j k k' found e =
    let ran : prepare j k ≡ done (some i, k') = rw (found, alloc_task) at e in
    let same : some i ≡ some j = prepare-Returns j k k' (some i) ran in cc

-- A task that was unused is not the one that runs; making it runnable keeps the invariant.
ready-IsScheduled :
    (i : ℕ) (k k' : Kernel) (tasks : ℕ → Task) (h : Machine)
    → IsScheduled k
    → Allocated i k k'
    → (tasks i).state ≡ runnable
    → ((j : ℕ) → j ≢ i → tasks j ≡ k'.tasks j)
    → IsScheduled (record k' { machine = h; tasks = tasks })
ready-IsScheduled i k k' tasks h s a ready others =
    let not_curr : k.curr ≢ i = λ here.
      let state : (k.tasks i).state ≡ running = rw (sym here) s.runs in let free = a.free in cc in
    record {
      runs = rw (a.keeps.curr, others k.curr not_curr, a.keeps.others k.curr not_curr) s.runs;
      alone = λ j nj. elim (Bool-cases (j == i)) [
        | inl e ↦ (let here : j ≡ i = ground arith in rw (here, ready))
        | inr e ↦
            let ne : j ≢ i = ground arith in
            rw (others j ne, a.keeps.others j ne) (s.alone j (rw a.keeps.curr at nj))
      ];
    }

pub enlist-IsScheduled :
    (context : ℕ) (h : Machine) (i : ℕ) (k k' : Kernel)
    → IsScheduled k
    → alloc_task k ≡ done (some i, k')
    → IsScheduled (enlist i context (record k' { machine = h }))
unfolding enlist
enlist-IsScheduled context h i k k' s e =
    ready-IsScheduled i k k' _ h s (alloc_task-Allocated i k k' e) (ground arith)
      (λ j ne. ground arith)

pub adopt-IsScheduled :
    (context : ℕ) (h : Machine) (i : ℕ) (k k' : Kernel)
    → IsScheduled k
    → alloc_task k ≡ done (some i, k')
    → IsScheduled (adopt i context (record k' { machine = h }))
unfolding adopt
adopt-IsScheduled context h i k k' s e =
    ready-IsScheduled i k k' _ h s (alloc_task-Allocated i k k' e) (ground arith)
      (λ j ne. ground arith)

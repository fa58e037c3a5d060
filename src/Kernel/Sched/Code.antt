-- ===== src/Kernel/Sched/Code.antt =====
-- The code that makes tasks, against the steps of the state machine.
use quaros.Base.{
  ℕ, ◌≡◌, ap, sym, ◌∙◌, Bool, true, false, List, Outcome, done, panic, fault, M, and_then-done,
  done-state, Option-cases, inl, inr, Option, none, some,
}
use quaros.PageAlloc.{Machine, pgsize}
use quaros.Paging.{alloc_map_memory}
use quaros.Paging.Virtual.{memcpy_to_another_space}
use quaros.Elf.{load_elf, e_entry}
use quaros.Fs.{get_file}
use quaros.Kernel.{Kernel}
use quaros.Kernel.Proc.{on_machine, alloc_task, enlist, adopt}
use quaros.Kernel.Frame.{context_of}
use quaros.Kernel.User.{current}
use quaros.Kernel.Exec.{
  child_frames, build_frames, fork_into, sys_fork, register_task, finish_task, create_init_task,
}
use quaros.Kernel.Sched.{Step, forks, registers}

-- An operation on memory and the free pages changes nothing else.
on_machine-done :
    {A : Type 0} (m : M Machine A) (k k' : Kernel) (a : A)
    → on_machine m k ≡ done (a, k')
    → (h : Machine) × (k' ≡ record k { machine = h })
on_machine-done m k k' a e =
    let (b, h, _, rest) =
      and_then-done (m k.machine) (λ b h. done (b, record k { machine = h })) (a, k') e in
    (h, sym (done-state b a (record k { machine = h }) k' rest))

fork_into-adopt :
    (site i frame : ℕ) (k k' : Kernel) (r : ℕ)
    → fork_into site i frame k ≡ done (r, k')
    → (context : ℕ) × (h : Machine) × (k' ≡ adopt i context (record k { machine = h }))
unfolding fork_into
fork_into-adopt site i frame k k' r e =
    let f = child_frames site (k.tasks i).kstack frame in
    let k₁ = record k { machine = record k.machine { mem = f k.machine.mem } } in
    let (_, k₂, ran, rest) =
      and_then-done (on_machine (alloc_map_memory (k.tasks i).pgdir 0 pgsize 6) k₁) _ (r, k') e in
    let (h₂, at₂) = on_machine-done (alloc_map_memory (k.tasks i).pgdir 0 pgsize 6) k₁ k₂ tt ran in
    let copy = memcpy_to_another_space (current k) (k.tasks i).pgdir 0 0 pgsize in
    let (a, k₃, ran₃, rest₃) = and_then-done (on_machine copy k₂) _ (r, k') rest in
    let (h₃, at₃) = on_machine-done copy k₂ k₃ a ran₃ in
    let last = done-state _ r _ k' rest₃ in
    let memory : k₃ ≡ record k { machine = h₃ } =
      at₃ ∙ ap (λ (x : Kernel). record x { machine = h₃ }) at₂ in
    (
      context_of (k.tasks i).kstack,
      h₃,
      sym last ∙ ap (adopt i (context_of (k.tasks i).kstack)) memory,
    )

-- Whenever `sys_fork` returns, the kernel has made a step.
pub sys_fork-forks :
    (site frame r : ℕ) (k k' : Kernel) → sys_fork site frame k ≡ done (r, k') → Step k k'
unfolding sys_fork
sys_fork-forks site frame r k k' e =
    let (got, k₁, ran, rest) = and_then-done (alloc_task k) _ (r, k') e in
    elim (Option-cases got) [
      | inl no_slot ↦
          (let stuck : ◌≡◌ {A = Outcome (ℕ × Kernel)} fault (done (r, k')) = rw no_slot at rest in
            cc)
      | inr (i, found) ↦
          let (c, h, last) = fork_into-adopt site i frame k₁ k' r (rw found at rest) in
          rw last (forks c h (rw found at ran))
    ]

finish_task-enlist :
    (site i ehdr : ℕ) (loaded : Bool) (k k' : Kernel)
    → finish_task site i ehdr loaded k ≡ done (tt, k')
    → (context : ℕ) × (h : Machine) × (k' ≡ enlist i context (record k { machine = h }))
unfolding finish_task
finish_task-enlist site i ehdr false k k' e = cc
finish_task-enlist site i ehdr true k k' e =
    let m = build_frames site (k.tasks i).kstack (e_entry k.machine.mem ehdr) k.machine.mem in
    (context_of (k.tasks i).kstack, record k.machine { mem = m }, sym (done-state tt tt _ k' e))

register_task-enlist :
    (site i : ℕ) (path : List ℕ) (k k' : Kernel)
    → register_task site i path k ≡ done (tt, k')
    → (context : ℕ) × (h : Machine) × (k' ≡ enlist i context (record k { machine = h }))
unfolding register_task
register_task-enlist site i path k k' e = elim (Option-cases (get_file k.files path)) [
  | inl missing ↦
      let stuck : ◌≡◌ {A = Outcome (Unit {0} × Kernel)} (panic "register_task: Cannot find file")
          (done (tt, k')) =
        rw (missing, register_task) at e in
      cc
  | inr (j, found) ↦
      let ehdr = (k.files j).contents in
      let load = load_elf (current k) (k.tasks i).pgdir ehdr in
      let (loaded, k₁, ran, rest) =
        and_then-done (on_machine load k) (finish_task site i ehdr) (tt, k')
          (rw (found, register_task) at e) in
      let (h₁, at₁) = on_machine-done load k k₁ loaded ran in
      let (c, h₂, last) = finish_task-enlist site i ehdr loaded k₁ k' rest in
      (c, h₂, last ∙ ap (λ (x : Kernel). enlist i c (record x { machine = h₂ })) at₁)
]

-- A task that has been allocated, ready to run.
pub record Enlisted (k k' : Kernel) : Type 0 where
  pub slot : ℕ
  pub between : Kernel
  pub context : ℕ
  pub memory : Machine
  pub ran : alloc_task k ≡ done (some slot, between)
  pub last : k' ≡ enlist slot context (record between { machine = memory })

slot-Enlisted :
    (site : ℕ) (path : List ℕ) (got : Option ℕ) (k k₁ k' : Kernel)
    → alloc_task k ≡ done (got, k₁)
    → (elim got as (λ g. M Kernel (Unit {0})) [
      | none ↦ λ x. fault
      | some i ↦ register_task site i path
    ])
        k₁
      ≡ done (tt, k')
    → Enlisted k k'
slot-Enlisted site path none k k₁ k' ran e = cc
slot-Enlisted site path (some i) k k₁ k' ran e =
    let (c, h, last) = register_task-enlist site i path k₁ k' e in
    record { slot = i; between = k₁; context = c; memory = h; ran = ran; last = last }

-- Where `create_init_task` ends, the task that it has allocated may run.
pub create_init_task-Enlisted :
    (site : ℕ) (k k' : Kernel) → create_init_task site k ≡ done (tt, k') → Enlisted k k'
unfolding create_init_task
create_init_task-Enlisted site k k' e =
    let (got, k₁, ran, rest) = and_then-done (alloc_task k) _ (tt, k') e in
    slot-Enlisted site _ got k k₁ k' ran rest

-- Whenever `create_init_task` returns, the kernel has made a step.
pub create_init_task-registers :
    (site : ℕ) (k k' : Kernel) → create_init_task site k ≡ done (tt, k') → Step k k'
create_init_task-registers site k k' e =
    let en = create_init_task-Enlisted site k k' e in
    rw en.last (registers en.context en.memory en.ran)

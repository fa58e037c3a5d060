-- ===== src/Kernel/Exec.antt =====
-- Starting programs: `register_task` and `create_init_task` of proc.c, `sys_fork`,
-- `prepare_ustack` and `sys_execv` of sys_proc.c. `site` is the address of `ret_to_int_site`, and
-- `frame` that of the interrupt frame of the system call.
pub mod Stack
use quaros.Base.{
  ℕ, zero, suc, ◌+◌, ◌-◌, ◌*◌, ◌/◌, ◌%◌, ◌^◌, Bool, true, false, Option, none, some, List, [], ◌∷◌,
  length, M, pure, done, panic, fault, and_then, ◌>>=◌, ◌>>◌, ltb, ◌==◌, if◌then◌else◌,
}
use quaros.Ram.{Mem, load32, store32}
use quaros.Str.{memcpy}
use quaros.PageAlloc.{Machine, pgsize}
use quaros.Paging.{virt_to_phys, map_kernel, alloc_map_memory, destroy_address_space}
use quaros.Paging.Virtual.{memcpy_to_another_space, put_word}
use quaros.Elf.{e_entry, load_elf}
use quaros.Fs.{get_file}
use quaros.Kernel.{Kernel}
use quaros.Kernel.Proc.{on_machine, modify_task, alloc_task, enlist, adopt}
use quaros.Kernel.Frame.{
  build_int_frame, build_context, frame_of, context_of, eax_at, eip_at, esp_at,
}
use quaros.Kernel.User.{current, minus_one, modify_mem, user_word, user_arg, or_fail, user_string}

module _ (site : ℕ) where
  -- The frames of a task that starts at `entry`.
  unfoldable pub build_frames : ℕ → ℕ → Mem → Mem
  build_frames kstack entry m =
      build_context site (context_of kstack) (build_int_frame (frame_of kstack) entry m)

  -- the rest of `register_task`, by what `load_elf` has said
  unfoldable pub finish_task : ℕ → ℕ → Bool → M Kernel (Unit {0})
  finish_task i ehdr false k = panic "register_task: Cannot load ELF"
  finish_task i ehdr true k =
      let kstack = (k.tasks i).kstack in
      let m = build_frames kstack (e_entry k.machine.mem ehdr) k.machine.mem in
      let h = record k.machine { mem = m } in
      done (tt, enlist i (context_of kstack) (record k { machine = h }))

  unfoldable pub register_task : ℕ → List ℕ → M Kernel (Unit {0})
  unfolding finish_task
  register_task i path k = elim (get_file k.files path) [
    | none ↦ panic "register_task: Cannot find file"
    | some j ↦
        let ehdr = (k.files j).contents in
        and_then (on_machine (load_elf (current k) (k.tasks i).pgdir ehdr) k) (finish_task i ehdr)
  ]

  -- `alloc_task` may return NULL, which `register_task` dereferences.
  unfoldable pub create_init_task : M Kernel (Unit {0})
  unfolding register_task
  create_init_task = alloc_task >>= λ got. elim got [
    | none ↦ λ k. fault
    | some i ↦ register_task i (b'i' ∷ b'n' ∷ b'i' ∷ b't' ∷ [])
  ]

  -- The frames of a child, with the registers of its parent but for `eax`.
  unfoldable pub child_frames : ℕ → ℕ → Mem → Mem
  unfolding build_frames
  child_frames kstack frame m =
      let at = frame_of kstack in
      let m₁ = build_frames kstack (load32 m (frame + eip_at)) m in
      let m₂ = memcpy at frame 32 m₁ in
      let m₃ = store32 m₂ (at + esp_at) (load32 m₂ (frame + esp_at)) in store32 m₃ (at + eax_at) 0

  -- the rest of `sys_fork`, once there is a task
  unfoldable pub fork_into : ℕ → ℕ → M Kernel ℕ
  unfolding child_frames
  fork_into i frame k =
      (do
        modify_mem (child_frames (k.tasks i).kstack frame)
        on_machine (alloc_map_memory (k.tasks i).pgdir 0 pgsize 6)
        on_machine (memcpy_to_another_space (current k) (k.tasks i).pgdir 0 0 pgsize)
        λ k'. done ((k'.tasks i).pid, adopt i (context_of (k.tasks i).kstack) k'))
        k

  -- `alloc_task` may return NULL, which is dereferenced.
  unfoldable pub sys_fork : ℕ → M Kernel ℕ
  unfolding fork_into
  sys_fork frame = alloc_task >>= λ got. elim got [ none ↦ λ k. fault | some i ↦ fork_into i frame ]

abbrev pub max_argc : ℕ
max_argc = 8

abbrev pub sub : ℕ → ℕ → ℕ
sub a b = (a + 2 ^ 32 - b) % 2 ^ 32

-- The first loop of `prepare_ustack`: the arguments' strings go to the new stack. The result is
-- `argv_ps`, last argument first, with the new stack pointer; `none` is -1.
unfoldable pub push_args : ℕ → ℕ → ℕ → ℕ → ℕ → List ℕ → M Kernel (Option (ℕ × List ℕ))
push_args fuel zero pgdir argv esp ps = pure (some (esp, ps))
push_args fuel (suc rounds) pgdir argv esp ps = user_word argv >>= λ got. elim got [
  | none ↦ pure none
  | some arg ↦ elim (arg == 0) [
    | true ↦ pure (some (esp, ps))
    | false ↦ user_string fuel arg >>= λ s. elim (ltb (pgsize / 3 / max_argc) (length s)) [
      | true ↦ pure (some (esp, ps))
      | false ↦
          let esp' = sub esp (length s + 1) in
          (λ k. on_machine (memcpy_to_another_space (current k) pgdir esp' arg (length s + 1)) k)
          >>= λ _. push_args fuel rounds pgdir ((argv + 4) % 2 ^ 32) esp' (esp' ∷ ps)
    ]
  ]
]

-- The second loop: the pointers, last argument first; the result is the stack pointer.
unfoldable pub push_pointers : ℕ → ℕ → List ℕ → M Machine ℕ
push_pointers pgdir esp [] = pure esp
push_pointers pgdir esp (p ∷ ps) = put_word pgdir esp p >> push_pointers pgdir (sub esp 4) ps

-- What `prepare_ustack` puts on top of the strings: the pointers, `argv` and `argc`.
unfoldable pub push_main : ℕ → ℕ → List ℕ → M Machine ℕ
unfolding push_pointers
push_main pgdir esp ps = do
  esp' ← push_pointers pgdir (sub esp 4 / 4 * 4) ps
  put_word pgdir esp' ((esp' + 4) % 2 ^ 32)
  put_word pgdir (sub esp' 4) (length ps)
  pure (sub esp' 8)

-- The new stack pointer; `none` is -1.
unfoldable pub prepare_ustack : ℕ → ℕ → ℕ → ℕ → M Kernel (Option ℕ)
unfolding push_args push_main
prepare_ustack fuel pgdir esp argv =
    if argv == 0
    then on_machine (put_word pgdir esp 0) >> pure (some (sub esp 4))
    else push_args fuel max_argc pgdir argv esp [] >>= λ got. elim got [
      | none ↦ pure none
      | some r ↦ on_machine (push_main pgdir r.0 r.1) >>= λ esp'. pure (some esp')
    ]

-- `destroy_address_space(curr_task->pgdir); curr_task->pgdir = old_pgdir; return -1;`
unfoldable pub undo_exec : ℕ → ℕ → M Kernel ℕ
undo_exec pgdir old k =
    (do
      on_machine (destroy_address_space pgdir)
      modify_task k.curr (λ t. record t { pgdir = old })
      pure minus_one)
      k

-- The end of `sys_execv`, once the stack is prepared.
unfoldable pub finish_exec : ℕ → ℕ → M Kernel ℕ
finish_exec pgdir old k =
    (do
      modify_task k.curr (λ t. record t { open_files = λ _. none })
      on_machine (destroy_address_space old)
      λ k'. done (0, record k' { cr3 = virt_to_phys pgdir }))
      k

-- `sys_execv` once the program is loaded: `ehdr` is its header
unfoldable pub start_program : ℕ → ℕ → ℕ → ℕ → ℕ → ℕ → M Kernel ℕ
unfolding prepare_ustack undo_exec finish_exec
start_program fuel frame ehdr pgdir old argv = do
  modify_mem
      λ m. store32 (store32 m (frame + eip_at) (e_entry m ehdr)) (frame + esp_at) (pgsize - 8)
  got ← prepare_ustack fuel pgdir (pgsize - 8) argv
  elim got [
    | none ↦ undo_exec pgdir old
    | some esp ↦ modify_mem (λ m. store32 m (frame + esp_at) esp) >> finish_exec pgdir old
  ]

-- `sys_execv` once there is a new address space
unfoldable pub load_program : ℕ → ℕ → ℕ → ℕ → ℕ → ℕ → M Kernel ℕ
unfolding start_program undo_exec
load_program fuel frame path argv pgdir old = do
  s ← user_string fuel path
  λ k. elim (get_file k.files s) [
    | none ↦ undo_exec pgdir old k
    | some j ↦
        let ehdr = (k.files j).contents in
        and_then (on_machine (load_elf (current k) pgdir ehdr) k) λ loaded. elim loaded [
          | false ↦ undo_exec pgdir old
          | true ↦ start_program fuel frame ehdr pgdir old argv
        ]
  ]

unfoldable pub sys_execv : ℕ → ℕ → M Kernel ℕ
unfolding user_arg load_program
sys_execv fuel frame = or_fail (user_arg frame 0) λ path. or_fail (user_arg frame 1) λ argv k.
    let old = (k.tasks k.curr).pgdir in
    (do
      pgdir ← on_machine map_kernel
      modify_task k.curr (λ t. record t { pgdir = pgdir })
      load_program fuel frame path argv pgdir old)
      k

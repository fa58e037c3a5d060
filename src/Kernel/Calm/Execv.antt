-- ===== src/Kernel/Calm/Execv.antt =====
-- Executing another program is calm: the task that runs goes on running.
use quaros.Base.{
  ℕ, ◌+◌, ◌-◌, ◌/◌, ◌%◌, ◌^◌, zero, suc, refl, Bool, true, false, none, some, List, [], ◌∷◌, length,
  ltb, ◌==◌,
}
use quaros.Ram.{Mem, store32}
use quaros.PageAlloc.{pgsize}
use quaros.Paging.{virt_to_phys, map_kernel, destroy_address_space}
use quaros.Paging.Virtual.{memcpy_to_another_space, put_word}
use quaros.Elf.{load_elf, e_entry}
use quaros.Fs.{get_file}
use quaros.Kernel.Proc.{on_machine, modify_task}
use quaros.Kernel.Frame.{eip_at, esp_at}
use quaros.Kernel.User.{current, minus_one, modify_mem, user_word, user_arg, user_string}
use quaros.Kernel.Exec.{
  max_argc, sub, push_args, push_main, prepare_ustack, undo_exec, finish_exec, start_program,
  load_program, sys_execv,
}
use quaros.Kernel.Calm.{
  Calms, done-CalmAt, option-CalmAt, and_then-CalmAt, pure-Calms, bind-Calms, option-Calms,
  bool-Calms, if-Calms, on_machine-Calms, modify_task-Calms,
}
use quaros.Kernel.Calm.Files.{user_word-Calms, user_arg-Calms, or_fail-Calms, user_string-Calms}

pub modify_mem-Calms : (f : Mem → Mem) → Calms (modify_mem f)
modify_mem-Calms f k = done-CalmAt k tt _ (record { curr = refl; states = λ i. refl })

push_args-Calms :
    (fuel rounds pgdir argv esp : ℕ) (ps : List ℕ) → Calms (push_args fuel rounds pgdir argv esp ps)
unfolding push_args
push_args-Calms fuel zero pgdir argv esp ps = pure-Calms (some (esp, ps))
push_args-Calms fuel (suc rounds) pgdir argv esp ps =
    bind-Calms (user_word argv) _ (user_word-Calms argv) (λ got.
      option-Calms got _ _ (pure-Calms none) (λ arg.
        bool-Calms (arg == 0) _ _ (pure-Calms (some (esp, ps))) (
          bind-Calms (user_string fuel arg) _ (user_string-Calms fuel arg) (λ s.
            bool-Calms (ltb (pgsize / 3 / max_argc) (length s)) _ _ (pure-Calms (some (esp, ps))) (
              bind-Calms _ _
                (λ k.
                  on_machine-Calms
                    (memcpy_to_another_space (current k) pgdir (sub esp (length s + 1)) arg
                      (length s + 1))
                    k)
                (λ _.
                  push_args-Calms fuel rounds pgdir ((argv + 4) % 2 ^ 32) (sub esp (length s + 1))
                    (sub esp (length s + 1) ∷ ps)))))))

prepare_ustack-Calms : (fuel pgdir esp argv : ℕ) → Calms (prepare_ustack fuel pgdir esp argv)
unfolding prepare_ustack
prepare_ustack-Calms fuel pgdir esp argv =
    if-Calms (argv == 0) _ _
      (bind-Calms (on_machine (put_word pgdir esp 0)) _ (on_machine-Calms (put_word pgdir esp 0))
        (λ _. pure-Calms (some (sub esp 4))))
      (bind-Calms (push_args fuel max_argc pgdir argv esp []) _
        (push_args-Calms fuel max_argc pgdir argv esp [])
        (λ got. option-Calms got _ _ (pure-Calms none) (λ r.
          bind-Calms (on_machine (push_main pgdir r.0 r.1)) _
            (on_machine-Calms (push_main pgdir r.0 r.1)) (λ esp'. pure-Calms (some esp')))))

undo_exec-Calms : (pgdir old : ℕ) → Calms (undo_exec pgdir old)
unfolding undo_exec
undo_exec-Calms pgdir old k =
    bind-Calms (on_machine (destroy_address_space pgdir)) _
      (on_machine-Calms (destroy_address_space pgdir))
      (λ _.
        bind-Calms (modify_task k.curr (λ t. record t { pgdir = old })) _
          (modify_task-Calms k.curr (λ t. record t { pgdir = old }) (λ t. refl))
          (λ _. pure-Calms minus_one))
      k

finish_exec-Calms : (pgdir old : ℕ) → Calms (finish_exec pgdir old)
unfolding finish_exec
finish_exec-Calms pgdir old k =
    bind-Calms (modify_task k.curr (λ t. record t { open_files = λ _. none })) _
      (modify_task-Calms k.curr (λ t. record t { open_files = λ _. none }) (λ t. refl))
      (λ _.
        bind-Calms (on_machine (destroy_address_space old)) _
          (on_machine-Calms (destroy_address_space old))
          (λ _ k'.
            done-CalmAt k' 0 (record k' { cr3 = virt_to_phys pgdir })
              (record { curr = refl; states = λ i. refl })))
      k

start_program-Calms :
    (fuel frame ehdr pgdir old argv : ℕ) → Calms (start_program fuel frame ehdr pgdir old argv)
unfolding start_program
start_program-Calms fuel frame ehdr pgdir old argv =
    bind-Calms _ _
      (modify_mem-Calms
        (λ m. store32 (store32 m (frame + eip_at) (e_entry m ehdr)) (frame + esp_at) (pgsize - 8)))
      (λ _.
        bind-Calms (prepare_ustack fuel pgdir (pgsize - 8) argv) _
          (prepare_ustack-Calms fuel pgdir (pgsize - 8) argv)
          (λ got. option-Calms got _ _ (undo_exec-Calms pgdir old) (λ esp.
            bind-Calms _ _ (modify_mem-Calms (λ m. store32 m (frame + esp_at) esp))
              (λ _. finish_exec-Calms pgdir old))))

load_program-Calms :
    (fuel frame path argv pgdir old : ℕ) → Calms (load_program fuel frame path argv pgdir old)
unfolding load_program
load_program-Calms fuel frame path argv pgdir old =
    bind-Calms (user_string fuel path) _ (user_string-Calms fuel path) (λ s k.
      option-CalmAt k (get_file k.files s) _ _ (undo_exec-Calms pgdir old k) (λ j.
        let ehdr = (k.files j).contents in
        and_then-CalmAt k (on_machine (load_elf (current k) pgdir ehdr) k) _
          (on_machine-Calms (load_elf (current k) pgdir ehdr) k)
          (λ loaded. loaded-Calms fuel frame ehdr pgdir old argv loaded)))
  where
    loaded-Calms :
        (fuel frame ehdr pgdir old argv : ℕ) (loaded : Bool)
        → Calms (elim loaded [
          | false ↦ undo_exec pgdir old
          | true ↦ start_program fuel frame ehdr pgdir old argv
        ])
    loaded-Calms fuel frame ehdr pgdir old argv false = undo_exec-Calms pgdir old
    loaded-Calms fuel frame ehdr pgdir old argv true =
        start_program-Calms fuel frame ehdr pgdir old argv

pub sys_execv-Calms : (fuel frame : ℕ) → Calms (sys_execv fuel frame)
unfolding sys_execv
sys_execv-Calms fuel frame = or_fail-Calms (user_arg frame 0) _ (user_arg-Calms frame 0) (λ path.
    or_fail-Calms (user_arg frame 1) _ (user_arg-Calms frame 1) (λ argv k.
      let old = (k.tasks k.curr).pgdir in
      bind-Calms (on_machine map_kernel) _ (on_machine-Calms map_kernel)
        (λ pgdir.
          bind-Calms (modify_task k.curr (λ t. record t { pgdir = pgdir })) _
            (modify_task-Calms k.curr (λ t. record t { pgdir = pgdir }) (λ t. refl))
            (λ _. load_program-Calms fuel frame path argv pgdir old))
        k))

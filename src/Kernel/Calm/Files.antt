-- ===== src/Kernel/Calm/Files.antt =====
-- The system calls on files are calm.
use quaros.Base.{ℕ, ◌+◌, ◌*◌, ◌%◌, ◌^◌, ◌≡◌, refl, Option, none, some, Outcome, done, M, ltb}
use quaros.Ram.{load32}
use quaros.PageAlloc.{Machine, pgsize}
use quaros.Fs.{File, FileType, ft_regular, ft_dev, ft_dir}
use quaros.Kernel.{Kernel, FileRef, max_open_files}
use quaros.Kernel.Frame.{esp_at}
use quaros.Kernel.User.{current, minus_one, user_word, user_arg, or_fail, user_string}
use quaros.Paging.Virtual.{read_word, read_string}
use quaros.Syscall.{read_user_mem}
use quaros.Kernel.Calm.{
  Calm, CalmAt, Calms, done-CalmAt, fault-CalmAt, panic-CalmAt, if-CalmAt, option-CalmAt,
  inner-CalmAt, Calm-same, pure-Calms, option-Calms, bind-Calms,
}
use quaros.SysFile.{
  with_fd, put_file, console_to_user, file_to_user, read_ref, sys_read, user_to_file, write_ref,
  sys_write, file_of,
}

-- Only the memory, the files or the console change.
pub user_word-Calms : (addr : ℕ) → Calms (user_word addr)
unfolding user_word
user_word-Calms addr k =
    option-CalmAt k (read_user_mem k.machine.mem addr) _ _ (pure-Calms none k) (λ _.
      inner-CalmAt k (read_word (current k) addr k.machine) _ (λ w h.
        done-CalmAt k (some w) (record k { machine = h })
          (Calm-same k (record k { machine = h }) refl refl)))

pub user_arg-Calms : (frame n : ℕ) → Calms (user_arg frame n)
unfolding user_arg
user_arg-Calms frame n k =
    user_word-Calms ((load32 k.machine.mem (frame + esp_at) + 4 + n * 4) % 2 ^ 32) k

pub or_fail-Calms :
    (m : M Kernel (Option ℕ)) (f : ℕ → M Kernel ℕ)
    → Calms m
    → ((w : ℕ) → Calms (f w))
    → Calms (or_fail m f)
or_fail-Calms m f hm hf = bind-Calms m _ hm (λ got. option-Calms got _ f (pure-Calms minus_one) hf)

pub user_string-Calms : (fuel a : ℕ) → Calms (user_string fuel a)
unfolding user_string
user_string-Calms fuel a k = inner-CalmAt k (read_string fuel (current k) a k.machine) _ (λ s h.
    done-CalmAt k s (record k { machine = h }) (Calm-same k (record k { machine = h }) refl refl))

-- A state with the same tasks and the same current task.
calm_end : (k k' : Kernel) (n : ℕ) → k'.tasks ≡ k.tasks → k'.curr ≡ k.curr → CalmAt k (done (n, k'))
calm_end k k' n e c = done-CalmAt k n k' (Calm-same k k' e c)

put_file-Calm : (k k₁ : Kernel) (ref : FileRef) (f : File) → Calm k k₁ → Calm k (put_file ref f k₁)
put_file-Calm k k₁ (FileRef.entry i) f c = record { curr = c.curr; states = c.states }
put_file-Calm k k₁ FileRef.console f c = record { curr = c.curr; states = c.states }

memory-Calm : (k : Kernel) (h : Machine) → Calm k (record k { machine = h })
memory-Calm k h = record { curr = refl; states = λ i. refl }

with_fd-Calms :
    (fd : ℕ) (f : FileRef → M Kernel ℕ) → ((ref : FileRef) → Calms (f ref)) → Calms (with_fd fd f)
unfolding with_fd
with_fd-Calms fd f hf k =
    if-CalmAt k (ltb fd max_open_files) _ _
      (option-CalmAt k ((k.tasks k.curr).open_files fd) _ _ (pure-Calms minus_one k)
        (λ ref. hf ref k))
      (fault-CalmAt k)

type-CalmAt :
    (k : Kernel) (t : FileType) (x y z : Outcome (ℕ × Kernel))
    → CalmAt k x
    → CalmAt k y
    → CalmAt k z
    → CalmAt k (elim t [ ft_dev ↦ x | ft_regular ↦ y | ft_dir ↦ z ])
type-CalmAt k ft_dev x y z p q r = p
type-CalmAt k ft_regular x y z p q r = q
type-CalmAt k ft_dir x y z p q r = r

file_to_user-Calms : (ref : FileRef) (buf count : ℕ) → Calms (file_to_user ref buf count)
unfolding file_to_user
file_to_user-Calms ref buf count k =
    inner-CalmAt k _ _ (λ _ h.
      done-CalmAt k _ _ (put_file-Calm k (record k { machine = h }) ref _ (memory-Calm k h)))

console_to_user-Calms : (buf count : ℕ) → Calms (console_to_user buf count)
unfolding console_to_user
console_to_user-Calms buf count k = inner-CalmAt k _ _ (λ _ h. calm_end k _ _ refl refl)

read_ref-Calms : (buf count : ℕ) (ref : FileRef) → Calms (read_ref buf count ref)
unfolding read_ref
read_ref-Calms buf count ref k =
    type-CalmAt k ((file_of k ref).type) _ _ _ (console_to_user-Calms buf count k)
      (file_to_user-Calms ref buf count k) (file_to_user-Calms ref buf count k)

user_to_file-Calms : (ref : FileRef) (buf count : ℕ) → Calms (user_to_file ref buf count)
unfolding user_to_file
user_to_file-Calms ref buf count k =
    if-CalmAt k (ltb pgsize (((file_of k ref).pos + count) % 2 ^ 32)) _ _ (panic-CalmAt k _) (
      inner-CalmAt k _ _ (λ _ h.
        done-CalmAt k tt _ (put_file-Calm k (record k { machine = h }) ref _ (memory-Calm k h))))

write_ref-Calms : (buf count : ℕ) (ref : FileRef) → Calms (write_ref buf count ref)
unfolding write_ref
write_ref-Calms buf count ref k =
    type-CalmAt k ((file_of k ref).type) _ _ _
      (inner-CalmAt k _ _ (λ _ h. calm_end k _ _ refl refl))
      (bind-Calms (user_to_file ref buf count) _ (user_to_file-Calms ref buf count)
        (λ _. pure-Calms minus_one) k)
      (pure-Calms minus_one k)

three_args-Calms :
    (frame : ℕ) (f : ℕ → ℕ → ℕ → M Kernel ℕ)
    → ((a b c : ℕ) → Calms (f a b c))
    → Calms (
        or_fail
          (user_arg frame 0)
          λ a. or_fail (user_arg frame 1) λ b. or_fail (user_arg frame 2) λ c. f a b c)
three_args-Calms frame f hf = or_fail-Calms (user_arg frame 0) _ (user_arg-Calms frame 0) (λ a.
    or_fail-Calms (user_arg frame 1) _ (user_arg-Calms frame 1)
      (λ b. or_fail-Calms (user_arg frame 2) _ (user_arg-Calms frame 2) (hf a b)))

pub sys_read-Calms : (frame : ℕ) → Calms (sys_read frame)
unfolding sys_read
sys_read-Calms frame =
    three_args-Calms frame _
      (λ fd buf count. with_fd-Calms fd (read_ref buf count) (read_ref-Calms buf count))

pub sys_write-Calms : (frame : ℕ) → Calms (sys_write frame)
unfolding sys_write
sys_write-Calms frame =
    three_args-Calms frame _
      (λ fd buf count. with_fd-Calms fd (write_ref buf count) (write_ref-Calms buf count))

-- ===== src/Kernel/Calm/Open.antt =====
-- Opening and closing files is calm.
use quaros.Base.{ℕ, refl, Option, none, some, List, ◌>>◌, ltb, ◌==◌, ◌||◌, arith}
use quaros.Fs.{File, ft_regular, get_file, alloc_file, str_same}
use quaros.Str.{memset}
use quaros.Kernel.{FileRef, max_open_files}
use quaros.Kernel.User.{minus_one, user_arg, user_string}
use quaros.Kernel.Calm.{
  Calms, done-CalmAt, fault-CalmAt, if-CalmAt, option-CalmAt, inner-CalmAt, and_then-CalmAt,
  pure-Calms, bind-Calms, Calm-trans,
}
use quaros.Kernel.Calm.Files.{user_arg-Calms, or_fail-Calms, user_string-Calms}
use quaros.SysFile.{
  set_fd, on_fs, set_file, finish_open, open_root, open_read, open_write, open_path, sys_open,
  close_fd, sys_close, empty_slot, file_of, console_name,
}

set_fd-Calms : (fd : ℕ) (ref : Option FileRef) → Calms (set_fd fd ref)
set_fd-Calms fd ref k =
    if-CalmAt k (ltb fd max_open_files) _ _
      (done-CalmAt k tt _ (record { curr = refl; states = λ i. ground arith })) (fault-CalmAt k)

set_file-Calms : (i : ℕ) (f : File → File) → Calms (set_file i f)
set_file-Calms i f k = done-CalmAt k tt _ (record { curr = refl; states = λ j. refl })

finish_open-Calms : (fd i : ℕ) → Calms (finish_open fd i)
unfolding finish_open
finish_open-Calms fd i =
    bind-Calms (set_fd fd (some (FileRef.entry i))) _ (set_fd-Calms fd (some (FileRef.entry i)))
      (λ _.
        bind-Calms (set_file i (λ f. record f { pos = 0 })) _
          (set_file-Calms i (λ f. record f { pos = 0 })) (λ _. pure-Calms fd))

alloc_file-Calms : (path : List ℕ) → Calms (on_fs (alloc_file path))
alloc_file-Calms path k =
    inner-CalmAt k (alloc_file path (record { machine = k.machine; files = k.files })) _
      (λ a s. done-CalmAt k a _ (record { curr = refl; states = λ j. refl }))

open_root-Calms : (fd : ℕ) (path : List ℕ) → Calms (open_root fd path)
unfolding open_root
open_root-Calms fd path k =
    and_then-CalmAt k (on_fs (alloc_file path) k) _ (alloc_file-Calms path k) (λ got k₁.
      option-CalmAt k₁ got _ _ (pure-Calms minus_one k₁) (λ i r k₂ e.
        Calm-trans k₁ _ k₂ (record { curr = refl; states = λ j. refl })
          (finish_open-Calms fd i _ r k₂ e)))

open_read-Calms : (fd : ℕ) (path : List ℕ) → Calms (open_read fd path)
unfolding open_read
open_read-Calms fd path k =
    option-CalmAt k (get_file k.files path) _ _ (pure-Calms minus_one k)
      (λ i. finish_open-Calms fd i k)

reopen-Calms :
    (fd i : ℕ) → Calms (set_file i (λ f. record f { type = ft_regular }) >> finish_open fd i)
reopen-Calms fd i =
    bind-Calms (set_file i (λ f. record f { type = ft_regular })) _
      (set_file-Calms i (λ f. record f { type = ft_regular })) (λ _. finish_open-Calms fd i)

open_write-Calms : (fd : ℕ) (path : List ℕ) → Calms (open_write fd path)
unfolding open_write
open_write-Calms fd path k =
    option-CalmAt k (get_file k.files path) _ _
      (and_then-CalmAt k (on_fs (alloc_file path) k) _ (alloc_file-Calms path k)
        (λ got k₁. option-CalmAt k₁ got _ _ (pure-Calms minus_one k₁) (λ i. reopen-Calms fd i k₁)))
      (λ i r k₂ e.
        let m = memset (k.files i).contents 0 4 k.machine.mem in
        let k₁ = record k { machine = record k.machine { mem = m } } in
        Calm-trans k k₁ k₂ (record { curr = refl; states = λ j. refl })
          (reopen-Calms fd i k₁ r k₂ e))

open_path-Calms : (path : List ℕ) (flags : ℕ) → Calms (open_path path flags)
unfolding open_path
open_path-Calms path flags k =
    let fd = empty_slot (k.tasks k.curr) in
    if-CalmAt k (str_same console_name path) _ _
      (bind-Calms (set_fd fd (some FileRef.console)) _ (set_fd-Calms fd (some FileRef.console))
        (λ _. pure-Calms fd) k)
      (if-CalmAt k _ _ _ (open_root-Calms fd path k) (
        if-CalmAt k (flags == 0) _ _ (open_read-Calms fd path k) (
          if-CalmAt k (flags == 1 || flags == 2) _ _ (open_write-Calms fd path k)
            (pure-Calms minus_one k))))

pub sys_open-Calms : (fuel frame : ℕ) → Calms (sys_open fuel frame)
unfolding sys_open
sys_open-Calms fuel frame = or_fail-Calms (user_arg frame 0) _ (user_arg-Calms frame 0) (λ path.
    or_fail-Calms (user_arg frame 1) _ (user_arg-Calms frame 1) (λ flags.
      bind-Calms (user_string fuel path) _ (user_string-Calms fuel path)
        (λ s. open_path-Calms s flags)))

close_fd-Calms : (fd : ℕ) → Calms (close_fd fd)
unfolding close_fd
close_fd-Calms fd k =
    if-CalmAt k (ltb fd max_open_files) _ _
      (option-CalmAt k ((k.tasks k.curr).open_files fd) _ _ (pure-Calms minus_one k) (λ ref.
        if-CalmAt k ((file_of k ref).in_use) _ _
          (bind-Calms (set_fd fd none) _ (set_fd-Calms fd none) (λ _. pure-Calms 0) k)
          (pure-Calms minus_one k)))
      (fault-CalmAt k)

pub sys_close-Calms : (frame : ℕ) → Calms (sys_close frame)
unfolding sys_close
sys_close-Calms frame =
    or_fail-Calms (user_arg frame 0) close_fd (user_arg-Calms frame 0) close_fd-Calms

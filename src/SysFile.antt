-- ===== src/SysFile.antt =====
-- The system calls of sys_file.c, on the open files of the current task.
pub mod Open
pub mod Io
use quaros.Base.{
  ℕ, zero, suc, ◌+◌, ◌-◌, ◌*◌, ◌%◌, ◌^◌, Bool, true, false, ◌||◌, ◌&&◌, not, Option, none, some,
  List, [], ◌∷◌, Outcome, done, panic, fault, out_of_fuel, M, and_then, pure, ◌>>=◌, ◌>>◌, ltb, leb,
  length, ◌==◌, if◌then◌else◌,
}
use quaros.Ram.{Mem, load32}
use quaros.Str.{memset}
use quaros.PageAlloc.{Machine}
use quaros.Fs.{
  File, FileType, ft_regular, ft_dev, ft_dir, Fs, update, find_index, str_same, get_file,
  alloc_file, list_rootdir, read_file,
}
use quaros.Kernel.{Kernel, Task, FileRef, max_open_files}
use quaros.Kernel.User.{current, minus_one, user_arg, or_fail, user_string}
use quaros.Paging.Virtual.{read_byte, write_bytes, copy_virtual}
use quaros.Console.{read_console}
use quaros.PageAlloc.{pgsize}

abbrev pub console_name : List ℕ
console_name = b'c' ∷ b'o' ∷ b'n' ∷ b's' ∷ b'o' ∷ b'l' ∷ b'e' ∷ []

abbrev pub root_name : List ℕ
root_name = b'/' ∷ []

-- `open_files[fd] = ref`. Past the end of the array the C is undefined (it hits `parent`).
abbrev pub set_fd : ℕ → Option FileRef → M Kernel (Unit {0})
set_fd fd ref k =
    if ltb fd max_open_files
    then done (
      tt,
      record k {
        tasks =
            update k.tasks k.curr
              (record (k.tasks k.curr) { open_files = update (k.tasks k.curr).open_files fd ref });
      },
    )
    else fault

abbrev pub on_fs {ℓ} : {A : Type ℓ} → M Fs A → M Kernel A
on_fs m k =
    and_then (m (record { machine = k.machine; files = k.files }))
      (λ a s. done (a, record k { machine = s.machine; files = s.files }))

abbrev pub set_file : ℕ → (File → File) → M Kernel (Unit {0})
set_file i f k = done (tt, record k { files = update k.files i (f (k.files i)) })

abbrev pub is_empty : Option FileRef → Bool
is_empty none = true
is_empty (some _) = false

abbrev pub or_end : Option ℕ → ℕ
or_end none = max_open_files
or_end (some fd) = fd

-- the empty slot that the loop of `sys_open` stops at, or 8
unfoldable pub empty_slot : Task → ℕ
empty_slot t = or_end (find_index max_open_files 0 (λ fd. is_empty (t.open_files fd)))

-- `if (fp) { curr_task->open_files[fd] = fp; fp->pos = 0; } return fd;`
unfoldable pub finish_open : ℕ → ℕ → M Kernel ℕ
finish_open fd i = do
  set_fd fd (some (FileRef.entry i))
  set_file i (λ f. record f { pos = 0 })
  pure fd

-- The first listing of the root directory. A failure of `list_rootdir` is not seen: -1 is stored in
-- the unsigned `size`.
unfoldable pub open_root : ℕ → List ℕ → M Kernel ℕ
open_root fd path k = and_then (on_fs (alloc_file path) k) λ got k'. elim got [
  | none ↦ done (minus_one, k')
  | some i ↦
      let files = update k'.files i (record (k'.files i) { type = ft_dir }) in
      let (listed, m) = list_rootdir files (k'.files i).contents k'.machine.mem in
      let size : ℕ = elim listed [ none ↦ minus_one | some n ↦ n ] in
      finish_open fd i (record k' {
        machine = record k'.machine { mem = m };
        files = update files i (record (files i) { size = size });
      })
]

unfoldable pub open_read : ℕ → List ℕ → M Kernel ℕ
open_read fd path k = elim (get_file k.files path) [
  | none ↦ done (minus_one, k)
  | some i ↦ finish_open fd i k
]

-- An old file has its first `sizeof(MAX_FILE_SIZE)` bytes cleared, which is `sizeof(int)`.
unfoldable pub open_write : ℕ → List ℕ → M Kernel ℕ
open_write fd path k = elim (get_file k.files path) [
  | none ↦ and_then (on_fs (alloc_file path) k) λ got k'. elim got [
    | none ↦ done (minus_one, k')
    | some i ↦ (set_file i (λ f. record f { type = ft_regular }) >> finish_open fd i) k'
  ]
  | some i ↦
      let m = memset (k.files i).contents 0 4 k.machine.mem in
      (set_file i (λ f. record f { type = ft_regular }) >> finish_open fd i)
        (record k { machine = record k.machine { mem = m } })
]

-- `sys_open` from the point at which the path and the flags have been read.
unfoldable pub open_path : List ℕ → ℕ → M Kernel ℕ
open_path path flags k =
    let fd = empty_slot (k.tasks k.curr) in
    let missing : Bool = elim (get_file k.files path) [ none ↦ true | some _ ↦ false ] in
    if str_same console_name path
    then (set_fd fd (some FileRef.console) >> pure fd) k
    else if str_same root_name path && missing
    then open_root fd path k
    else if flags == 0
    then open_read fd path k
    else if flags == 1 || flags == 2
    then open_write fd path k
    else done (minus_one, k)

unfoldable pub sys_open : ℕ → ℕ → M Kernel ℕ
unfolding open_path
sys_open fuel frame =
    or_fail (user_arg frame 0)
      λ path. or_fail (user_arg frame 1) λ flags. user_string fuel path >>= λ s. open_path s flags

abbrev pub file_of : Kernel → FileRef → File
file_of k (FileRef.entry i) = k.files i
file_of k FileRef.console = k.console_file

-- A descriptor past the array is not refused: the C reads out of bounds.
unfoldable pub close_fd : ℕ → M Kernel ℕ
close_fd fd k =
    if ltb fd max_open_files
    then elim ((k.tasks k.curr).open_files fd) [
      | none ↦ done (minus_one, k)
      | some ref ↦
          if (file_of k ref).in_use then (set_fd fd none >> pure 0) k else done (minus_one, k)
    ]
    else fault

unfoldable pub sys_close : ℕ → M Kernel ℕ
unfolding close_fd
sys_close frame = or_fail (user_arg frame 0) close_fd

-- `open_files[fd]`, of which a descriptor past the array is not refused, and what is done with it.
unfoldable pub with_fd : ℕ → (FileRef → M Kernel ℕ) → M Kernel ℕ
with_fd fd f k =
    if ltb fd max_open_files
    then elim ((k.tasks k.curr).open_files fd) [ none ↦ done (minus_one, k) | some ref ↦ f ref k ]
    else fault

-- `file->pos` of a file in the table, or of the console
abbrev pub put_file : FileRef → File → Kernel → Kernel
put_file (FileRef.entry i) f k = record k { files = update k.files i f }
put_file FileRef.console f k = record k { console_file = f }

-- `read_console(buf, count)`, which stores to user memory
unfoldable pub console_to_user : ℕ → ℕ → M Kernel ℕ
console_to_user buf count k =
    let (cs, c) = read_console count k.console in
    and_then (write_bytes (current k) buf cs k.machine)
      (λ _ h. done (length cs, record k { console = c; machine = h }))

-- `read_file(file, buf, count)`, whose `memcpy` stores to user memory
unfoldable pub file_to_user : FileRef → ℕ → ℕ → M Kernel ℕ
file_to_user ref buf count k =
    let (n, f, _) = read_file (file_of k ref) buf count k.machine.mem in
    and_then (copy_virtual (current k) buf f.contents n k.machine)
      (λ _ h. done (n, put_file ref f (record k { machine = h })))

unfoldable pub read_ref : ℕ → ℕ → FileRef → M Kernel ℕ
unfolding console_to_user file_to_user
read_ref buf count ref k = elim ((file_of k ref).type) [
  | ft_dev ↦ console_to_user buf count k
  | ft_regular ↦ file_to_user ref buf count k
  | ft_dir ↦ file_to_user ref buf count k
]

unfoldable pub sys_read : ℕ → M Kernel ℕ
unfolding with_fd read_ref
sys_read frame = or_fail (user_arg frame 0) λ fd.
    or_fail (user_arg frame 1)
      λ buf. or_fail (user_arg frame 2) λ count. with_fd fd (read_ref buf count)

-- `write_file(file, buf, count)`, whose `memcpy` reads user memory
unfoldable pub user_to_file : FileRef → ℕ → ℕ → M Kernel (Unit {0})
user_to_file ref buf count k =
    let f = file_of k ref in
    if ltb pgsize ((f.pos + count) % 2 ^ 32)
    then panic "File larger than PGSIZE is unsupported"
    else and_then (copy_virtual (current k) (f.contents + f.pos) buf count k.machine) (λ _ h.
      done
        (tt, put_file ref (record f { pos = (f.pos + count) % 2 ^ 32 }) (record k { machine = h })))

-- `printn(buf, n)`: the characters, which go to the serial port.
unfoldable pub print_user : ℕ → ℕ → ℕ → M Machine (List ℕ)
print_user cur buf zero = pure []
print_user cur buf (suc n) = do
  c ← read_byte cur buf
  cs ← print_user cur (buf + 1) n
  pure (c ∷ cs)

unfoldable pub write_ref : ℕ → ℕ → FileRef → M Kernel ℕ
unfolding user_to_file print_user
write_ref buf count ref k = elim ((file_of k ref).type) [
  | ft_dev ↦
      and_then (print_user (current k) buf count k.machine)
        (λ _ h. done (count, record k { machine = h }))
  | ft_regular ↦ (user_to_file ref buf count >> pure minus_one) k
  | ft_dir ↦ done (minus_one, k)
]

unfoldable pub sys_write : ℕ → M Kernel ℕ
unfolding with_fd write_ref
sys_write frame = or_fail (user_arg frame 0) λ fd.
    or_fail (user_arg frame 1)
      λ buf. or_fail (user_arg frame 2) λ count. with_fd fd (write_ref buf count)

-- ===== src/SysFile/Open.antt =====
-- Opening and closing files.
use quaros.Base.{
  ℕ, ◌<◌, ◌≡◌, ◌⊎◌, inl, inr, refl, ap, sym, ◌∙◌, Bool, true, false, ◌&&◌, Option, none, some, List,
  done, fault, arith, ltb, Option-cases,
}
use quaros.Fs.{update, find_index, str_same, get_file}
use quaros.Fs.Names.{find_index-IsFirst, find_index-none}
use quaros.Kernel.{Kernel, Task, FileRef, max_open_files}
use quaros.Kernel.User.{minus_one}
use quaros.SysFile.{
  open_path, close_fd, empty_slot, console_name, root_name, open_read, finish_open, is_empty,
  or_end,
}

-- All descriptors of a task are in use.
abbrev pub IsFull : Task → Type 0
IsFull t = (fd : ℕ) → fd < max_open_files → (ref : FileRef) × (t.open_files fd ≡ some ref)

empty_is_none : (o : Option FileRef) → is_empty o ≡ true → o ≡ none
empty_is_none none e = refl
empty_is_none (some r) e = cc

used_ref : (o : Option FileRef) → is_empty o ≡ false → (ref : FileRef) × (o ≡ some ref)
used_ref none e = cc
used_ref (some ref) e = (ref, refl)

IsFull-of_end : (t : Task) → empty_slot t ≡ max_open_files → IsFull t
unfolding empty_slot
IsFull-of_end t e fd lt =
    elim (Option-cases (find_index max_open_files 0 (λ fd. is_empty (t.open_files fd)))) [
      | inl all_used ↦
          used_ref (t.open_files fd)
            (find_index-none max_open_files 0 _ all_used fd (omega arith) (omega arith))
      | inr (fd', found) ↦
          let (_, lt') = find_index-IsFirst max_open_files 0 _ fd' found in
          let same : fd' ≡ max_open_files = ap or_end (sym found) ∙ e in absurd (omega arith)
    ]

-- The slot that `sys_open` takes is free, or lies past the end of the array.
pub empty_slot-free :
    (t : Task)
    → ((empty_slot t < max_open_files) × (t.open_files (empty_slot t) ≡ none))
      ⊎ (empty_slot t ≡ max_open_files)
unfolding empty_slot
empty_slot-free t =
    elim (Option-cases (find_index max_open_files 0 (λ fd. is_empty (t.open_files fd)))) [
      | inl all_used ↦ inr (ap or_end all_used)
      | inr (fd, found) ↦
          let (f, lt) = find_index-IsFirst max_open_files 0 _ fd found in
          inl (rw (ap or_end found) (omega (arith, lt), empty_is_none (t.open_files fd) f.passes))
    ]

pub empty_slot-full : (t : Task) → IsFull t → empty_slot t ≡ max_open_files
empty_slot-full t full = elim (empty_slot-free t) [
  | inl (lt, free) ↦ (let (ref, used) = full (empty_slot t) lt in absurd (ground arith))
  | inr e ↦ e
]

and_false : (b : Bool) → (b && false) ≡ false
and_false true = refl
and_false false = refl

open_read-found :
    (fd i : ℕ) (path : List ℕ) (k : Kernel)
    → get_file k.files path ≡ some i
    → open_read fd path k ≡ finish_open fd i k
unfolding open_read
open_read-found fd i path k found = rw (found, open_read)

-- What is left when a descriptor has been given a file.
abbrev pub opened : ℕ → ℕ → Kernel → Kernel
opened fd i k = record k {
  tasks = update k.tasks k.curr (record (k.tasks k.curr) {
    open_files = update (k.tasks k.curr).open_files fd (some (FileRef.entry i));
  });
  files = update k.files i (record (k.files i) { pos = 0 });
}

finish_open-opened :
    (fd i : ℕ) (k : Kernel) → fd < max_open_files → finish_open fd i k ≡ done (fd, opened fd i k)
unfolding finish_open
finish_open-opened fd i k lt = let inside : ltb fd max_open_files ≡ true = ground arith in rw inside

finish_open-fault : (i : ℕ) (k : Kernel) → finish_open max_open_files i k ≡ fault
unfolding finish_open
finish_open-fault i k = refl

module _ (k : Kernel) (path : List ℕ) (i : ℕ) (not_console : str_same console_name path ≡ false)
    (found : get_file k.files path ≡ some i) where
  open_path-read : open_path path 0 k ≡ finish_open (empty_slot (k.tasks k.curr)) i k
  unfolding open_path
  open_path-read =
      rw (not_console, found, and_false (str_same root_name path))
        (open_read-found (empty_slot (k.tasks k.curr)) i path k found)

-- Opening for reading a name that get_file finds, and that is not the console's, takes a
-- descriptor that was free, points it at the file and sets the position to 0; or all descriptors
-- are in use and the table is written out of bounds.
pub open_path-found :
    (k : Kernel) (path : List ℕ) (i : ℕ)
    → str_same console_name path ≡ false
    → get_file k.files path ≡ some i
    → ((fd : ℕ) × (fd < max_open_files)
        × ((k.tasks k.curr).open_files fd ≡ none)
        × (open_path path 0 k ≡ done (fd, opened fd i k)))
      ⊎ (IsFull (k.tasks k.curr) × (open_path path 0 k ≡ fault))
open_path-found k path i not_console found = elim (empty_slot-free (k.tasks k.curr)) [
  | inl (lt, free) ↦ inl (
    empty_slot (k.tasks k.curr),
    lt,
    free,
    open_path-read k path i not_console found
        ∙ finish_open-opened (empty_slot (k.tasks k.curr)) i k lt,
  )
  | inr e ↦ inr (
    IsFull-of_end (k.tasks k.curr) e,
    open_path-read k path i not_console found
        ∙ (ap (λ fd. finish_open fd i k) e ∙ finish_open-fault i k),
  )
]

-- What is left when a descriptor has been closed.
abbrev pub closed : ℕ → Kernel → Kernel
closed fd k = record k {
  tasks =
      update k.tasks k.curr
        (record (k.tasks k.curr) { open_files = update (k.tasks k.curr).open_files fd none });
}

close_fd-closed :
    (fd i : ℕ) (k : Kernel)
    → fd < max_open_files
    → (k.tasks k.curr).open_files fd ≡ some (FileRef.entry i)
    → (k.files i).in_use ≡ true
    → close_fd fd k ≡ done (0, closed fd k)
unfolding close_fd
close_fd-closed fd i k lt held used =
    let inside : ltb fd max_open_files ≡ true = ground arith in
    rw (inside, held, close_fd, used) (rw inside refl)

-- Closing a descriptor below 8 that was free and has just been opened on a file in use succeeds,
-- and the task has the open files that it had.
pub close_fd-opened :
    (fd i : ℕ) (k : Kernel)
    → fd < max_open_files
    → (k.files i).in_use ≡ true
    → (k.tasks k.curr).open_files fd ≡ none
    → (k' : Kernel) × (close_fd fd (opened fd i k) ≡ done (0, k'))
      × ((j : ℕ) → (k'.tasks k.curr).open_files j ≡ (k.tasks k.curr).open_files j)
close_fd-opened fd i k lt used free = (
  closed fd (opened fd i k),
  close_fd-closed fd i (opened fd i k) lt (ground arith) (ground arith),
  λ j. ground arith,
)

-- The console is no file in use, so its descriptor cannot be closed: `sys_close` says -1.
pub close_fd-console :
    (fd : ℕ) (k : Kernel)
    → fd < max_open_files
    → (k.tasks k.curr).open_files fd ≡ some FileRef.console
    → k.console_file.in_use ≡ false
    → close_fd fd k ≡ done (minus_one, k)
unfolding close_fd
close_fd-console fd k lt held never =
    let inside : ltb fd max_open_files ≡ true = ground arith in rw (inside, held, close_fd, never)

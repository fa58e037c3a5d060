-- ===== src/Tests/Files.antt =====
-- Files and descriptors at concrete inputs.
use quaros.Base.{
  ℕ, ◌+◌, ◌-◌, ◌%◌, ◌≤◌, ◌<◌, ◌≡◌, ◌⊎◌, inr, refl, some, none, List, [], ◌∷◌, done, panic, fault,
  arith, Bool, true, false, min, ◌==◌, if◌then◌else◌,
}
use quaros.Ram.{Mem}
use quaros.Fs.{File, Fs, empty_file, get_file, alloc_file, release_file, read_file, strcmp_str}
use quaros.Fs.Names.{IsStr}
use quaros.Fs.Lookup.{Added, AreNamed, get_file-alloc_file, release_file-panics}
use quaros.Fs.Io.{read_file-first}
use quaros.Kernel.{Kernel, max_open_files}
use quaros.SysFile.{open_path}
use quaros.SysFile.Open.{IsFull, opened, open_path-found}
use quaros.Tests.Memory.{one_page, one_page-Pool}
use quaros.Tests.Tasks.{busy}

-- A table with the file `sh`.
abbrev sh : List ℕ
sh = b's' ∷ b'h' ∷ []

abbrev sh_file : File
sh_file = record empty_file { size = 100; pos = 90; in_use = true; name = sh; contents = 0x3000 }

abbrev one_file : ℕ → File
one_file i = if i == 2 then sh_file else empty_file

abbrev small_fs : Fs
small_fs = record { machine = one_page; files = one_file }

sh-IsStr : IsStr sh
sh-IsStr = ((omega arith, omega arith), ((omega arith, omega arith), tt))

one_file-AreNamed : AreNamed one_file
one_file-AreNamed i = if_named (i == 2)
  where
    if_named : (b : Bool) → IsStr (if b then sh_file else empty_file).name
    if_named true = sh-IsStr
    if_named false = tt

abbrev ls : List ℕ
ls = b'l' ∷ b's' ∷ []

ls-IsStr : IsStr ls
ls-IsStr = ((omega arith, omega arith), ((omega arith, omega arith), tt))

get_file-alloc_file_example :
    (r : ℕ) × (s' : Fs) × (alloc_file ls small_fs ≡ done (some r, s'))
    × (get_file s'.files ls ≡ some r)
    × Added ls small_fs r s'
unfolding get_file strcmp_str
get_file-alloc_file_example =
    get_file-alloc_file ls small_fs 0x1000 [] 0 one_page-Pool (omega arith) refl (λ e. cc) ls-IsStr
      (omega arith) one_file-AreNamed refl

release_file-panics_example :
    release_file 2 small_fs ≡ panic "release_file: realeasing file out of filesystem"
release_file-panics_example = release_file-panics 2 small_fs (omega arith)

-- Memory with a different byte at each of the first addresses of a page.
abbrev ramp : Mem
ramp x = x % 256

read_file-first_example :
    let (n, f', m') = read_file sh_file 0x5000 20 ramp in
    (n ≡ min 20 (100 - 90))
    × (f'.pos ≡ 90 + n)
    × (f'.pos ≤ 100)
    × (f'.size ≡ 100)
    × ((k : ℕ) → k < n → m' (0x5000 + k) ≡ ramp (0x3000 + k) % 256)
    × ((x : ℕ) → (x < 0x5000) ⊎ (0x5000 + n ≤ x) → m' x ≡ ramp x)
read_file-first_example =
    read_file-first sh_file 0x5000 20 ramp (omega arith) (omega arith) (inr (omega arith))

-- The current task may open `sh`.
abbrev with_sh : Kernel
with_sh = record busy { files = one_file }

open_path-found_example :
    ((fd : ℕ) × (fd < max_open_files)
      × ((with_sh.tasks 0).open_files fd ≡ none)
      × (open_path sh 0 with_sh ≡ done (fd, opened fd 2 with_sh)))
    ⊎ (IsFull (with_sh.tasks 0) × (open_path sh 0 with_sh ≡ fault))
unfolding get_file strcmp_str
open_path-found_example = open_path-found with_sh sh 2 refl refl

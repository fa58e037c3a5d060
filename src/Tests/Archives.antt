-- ===== src/Tests/Archives.antt =====
-- The archive of files at a concrete input.
use quaros.Base.{
  ℕ, ◌-◌, ◌≤◌, ◌≡◌, ◌≢◌, inr, refl, List, [], ◌∷◌, ◌++◌, replicate, get_or, done, arith,
  out_of_fuel, ltb, if◌then◌else◌,
}
use quaros.Ram.{Mem, load32}
use quaros.PageAlloc.FreeList.{Pool}
use quaros.Fs.{Fs, empty_file}
use quaros.Fs.Archive.{init_fs, bytes_at}
use quaros.Fs.Archive.Ends.{init_fs-Ends}
use quaros.Fs.Archive.Member.{IsHeader}
use quaros.Fs.Archive.Layout.{Member, Loaded}
use quaros.Fs.Archive.Load.{init_fs-Loaded}

-- An archive at 0x100000 with one member, the file `sh` of five bytes.
abbrev sh_header : List ℕ
sh_header = b's' ∷ b'h' ∷ b'/' ∷ (replicate 45 b' ' ++ b'5' ∷ (replicate 9 b' ' ++ 96 ∷ 10 ∷ []))

abbrev image : List ℕ
image =
    b'!'
    ∷ b'<'
    ∷ b'a'
    ∷ b'r'
    ∷ b'c'
    ∷ b'h'
    ∷ b'>'
    ∷ 10
    ∷ (sh_header ++ b'h' ∷ b'e' ∷ b'l' ∷ b'l' ∷ b'o' ∷ [])

abbrev with_image : Mem
with_image a = if ltb a 0x10_0000 then 0 else get_or image (a - 0x10_0000) 0

abbrev before_fs : Fs
before_fs = record {
  machine = record { mem = with_image; free_pages = 0x5000; num_allocated = 0 };
  files = λ _. empty_file;
}

abbrev sh : Member
sh = record { name = b's' ∷ b'h' ∷ []; size = 5 }

sh-IsHeader : IsHeader with_image 0x10_0008 sh.name sh.size
unfolding bytes_at quaros.Number.atoi quaros.Number.atoi_loop
sh-IsHeader = record {
  after_name = replicate 13 b' ';
  first_digit = b'5';
  digits = [];
  after_size = replicate 8 b' ';
  name_is = refl;
  size_is = refl;
  plain = ((omega arith, omega arith, omega arith), ((omega arith, omega arith, omega arith), tt));
  decimal = ((omega arith, omega arith, omega arith), tt);
  value = refl;
}

one_page : Pool before_fs.machine (0x5000 ∷ [])
unfolding load32
one_page = (refl, record { aligned = refl; small = omega arith; ne_null = omega arith }, tt, refl)

init_fs-Loaded_example :
    (s' : Fs) × (rest : List ℕ) × (init_fs 0x10_0000 0x10_0049 before_fs ≡ done (1, s'))
    × Loaded with_image s'.files s'.machine.mem 0 0 0x10_0008 (sh ∷ [])
    × ((j : ℕ) → 1 ≤ j → s'.files j ≡ empty_file)
    × Pool s'.machine rest
init_fs-Loaded_example =
    init_fs-Loaded 0x10_0000 0x10_0049 (sh ∷ []) before_fs (0x5000 ∷ []) (omega arith) (omega arith)
      (sh-IsHeader, omega arith, omega arith, omega arith) one_page (inr (omega arith), tt)
      (omega arith) (omega arith)

init_fs-Ends_example : init_fs 0x10_0000 0x10_0049 before_fs ≢ out_of_fuel
init_fs-Ends_example = init_fs-Ends 0x10_0000 0x10_0049 before_fs

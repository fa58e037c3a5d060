-- ===== src/Tests/Memory.antt =====
-- Memory, pages, strings and numbers at concrete inputs.
use quaros.Base.{
  if◌then◌else◌, ◌==◌, ℕ, ◌+◌, ◌-◌, ◌/◌, ◌%◌, ◌^◌, ◌≤◌, ◌<◌, ◌≡◌, ◌≢◌, inl, refl, List, [], ◌∷◌,
  length, some, done, arith,
}
use quaros.Ram.{Mem, load32}
use quaros.Str.Text.{Text}
use quaros.Str.Order.{Says, strcmp-Says}
use quaros.Str.{strcmp, Sign}
use quaros.PageAlloc.{Machine, register_free_mem, pg_rounddown, pg_roundup}
use quaros.PageAlloc.FreeList.{IsPage, Pool}
use quaros.PageAlloc.Register.{pushed, register_free_mem-Pool}
use quaros.Paging.{map_memory, num_pages, map_page}
use quaros.Paging.Space.{IsSpace, translate}
use quaros.Paging.Missing.{missing-le}
use quaros.Paging.Range.{Ranged, map_memory-Ranged}
use quaros.Paging.MapPage.{map_page-translate}
use quaros.Number.{atoi, printnum}
use quaros.Number.Roundtrip.{atoi-printnum}

-- A machine whose memory is clear, with one free page.
abbrev pub clear : Mem
clear = λ _. 0

abbrev pub one_page : Machine
one_page = record { mem = clear; free_pages = 0x1000; num_allocated = 0 }

IsPage-1 : IsPage 0x1000
IsPage-1 = record { aligned = refl; small = omega arith; ne_null = omega arith }

IsPage-2 : IsPage 0x2000
IsPage-2 = record { aligned = refl; small = omega arith; ne_null = omega arith }

pub one_page-Pool : Pool one_page (0x1000 ∷ [])
unfolding load32
one_page-Pool = (refl, IsPage-1, tt, refl)

-- A page directory without page tables.
empty-IsSpace : IsSpace clear 0x2000 (0x1000 ∷ [])
unfolding load32
empty-IsSpace = record {
  dir = IsPage-2;
  dir_used = (omega arith, tt);
  tables = λ i lt has. cc;
  apart = λ i lt has. cc;
  distinct = λ i j hi hj ne has has'. cc;
  used = λ i lt has. cc;
}

map_page-translate_example :
    (h' : Machine) × (map_page 0x2000 0x400123 0x3000 6 one_page ≡ done (tt, h'))
    × (translate h'.mem 0x2000 0x400123 ≡ some (0x3000 + 0x400123 % 4096))
    × ((w : ℕ)
        → w < 2 ^ 32
        → w / 4096 ≢ 0x400123 / 4096
        → translate h'.mem 0x2000 w ≡ translate clear 0x2000 w)
map_page-translate_example =
    map_page-translate one_page 0x2000 0x400123 0x3000 6 0x1000 [] empty-IsSpace one_page-Pool
      (omega arith) refl (omega arith) (omega arith)

register_free_mem-Pool_example :
    let n = pg_rounddown 0x5fff / 4096 - pg_roundup 0x2100 / 4096 in
    (h' : Machine) × (register_free_mem 0x2100 0x5fff one_page ≡ done (tt, h'))
    × Pool h' (pushed (pg_roundup 0x2100) n (0x1000 ∷ []))
register_free_mem-Pool_example =
    register_free_mem-Pool 0x2100 0x5fff one_page (0x1000 ∷ []) (omega arith) (omega arith)
      (omega arith) (omega arith) (inl (omega arith), tt) one_page-Pool

atoi-printnum_example :
    (s : List ℕ) × (printnum 1024 ≡ some s) × (atoi s ≡ some 1024) × (length s ≤ 11)
atoi-printnum_example = atoi-printnum 1024 (omega arith)

map_memory-Ranged_example :
    (h' : Machine) × (rest : List ℕ) × (map_memory 0x2000 0x400000 0x3000 8192 2 one_page
      ≡ done (tt, h'))
    × Ranged 1 1 one_page 0x2000 0x400000 0x3000 0 (num_pages 8192) (0x1000 ∷ []) h' rest
map_memory-Ranged_example =
    map_memory-Ranged 1 1 one_page 0x2000 0x400000 0x3000 8192 2 (0x1000 ∷ []) empty-IsSpace
      one_page-Pool (omega arith) (omega arith) (omega arith) (omega arith)
      (missing-le clear 0x2000 1 1) (omega arith) refl (omega arith)

-- The string `ls` at 0x100.
abbrev ls_memory : Mem
ls_memory x = if x == 0x100 then b'l' else if x == 0x101 then b's' else 0

s-Text : Text ls_memory 0x101 (b's' ∷ [])
s-Text = (refl, omega arith, omega arith, refl)

ls-Text : Text ls_memory 0x100 (b'l' ∷ b's' ∷ [])
ls-Text = (refl, omega arith, omega arith, s-Text)

strcmp-Says_example :
    (r : Sign) × (strcmp 10 ls_memory 0x100 0x101 ≡ some r) × Says r (b'l' ∷ b's' ∷ []) (b's' ∷ [])
strcmp-Says_example =
    strcmp-Says (b'l' ∷ b's' ∷ []) (b's' ∷ []) 10 0x100 0x101 ls_memory ls-Text s-Text (omega arith)

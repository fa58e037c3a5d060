-- ===== src/Tests/Spaces.antt =====
-- Address spaces at concrete inputs.
use quaros.Base.{
  ◌++◌, IsTail, ℕ, zero, suc, ◌+◌, ◌*◌, ◌≤◌, ◌<◌, ◌≡◌, ◌≢◌, inl, inr, refl, ap, sym, ◌∙◌, List, [],
  ◌∷◌, length, some, done, arith, true, ◌==◌, Bool-cases, subst,
}
use quaros.Ram.{Mem, load32, store32, load32-store32_self, load32-store32-Apart}
use quaros.PageAlloc.{Machine, register_free_mem}
use quaros.PageAlloc.FreeList.{Pool}
use quaros.PageAlloc.Register.{pushed, length-pushed, register_free_mem-Pool}
use quaros.Paging.{
  map_kernel, destroy_address_space, unmap_page, kern_base, present, phys_to_virt, table_of,
}
use quaros.Paging.Space.{pde, table, HasTable, IsSpace, entry_at, entry_at-table, translate}
use quaros.Paging.MapPage.{translate-Names}
use quaros.Paging.Missing.{missing}
use quaros.Paging.KernelMap.{KernelSpace, map_kernel-KernelSpace}
use quaros.Paging.Unmap.{Foreign, Unmapped, unmap_page-Unmapped}
use quaros.Paging.Destroy.{destroy_address_space-Pool, tables_of}
use quaros.Tests.Memory.{clear}

-- A page directory at 0x2000 whose one page table, at 0x3000, maps page 0 to frame 0.
abbrev with_table : Mem
with_table = store32 clear 0x2000 0x4000_3007

abbrev pub identity : Mem
identity = store32 with_table 0x3000 3

abbrev pub identity_machine : Machine
identity_machine = record { mem = identity; free_pages = 0; num_allocated = 2 }

first_entry : pde identity 0x2000 0 ≡ 0x4000_3007
first_entry =
    load32-store32-Apart with_table 0x3000 0x2000 3 (omega arith)
    ∙ load32-store32_self clear 0x2000 0x4000_3007 (omega arith)

other_entry : (i : ℕ) → i < 1024 → i ≢ 0 → pde identity 0x2000 i ≡ 0
unfolding load32
other_entry i hi ne =
    load32-store32-Apart with_table 0x3000 (0x2000 + i * 4) 3 (omega arith)
    ∙ load32-store32-Apart clear 0x2000 (0x2000 + i * 4) 0x4000_3007 (omega arith)

only_entry : (i : ℕ) → i < 1024 → HasTable identity 0x2000 i → i ≡ 0
only_entry i hi has = elim (Bool-cases (i == 0)) [
  | inl e ↦ ground arith
  | inr e ↦
      let none_there = other_entry i hi (ground arith) in
      let absurd_test : present 0 ≡ true = rw none_there at has in cc
]

table_there : (i : ℕ) → i < 1024 → HasTable identity 0x2000 i → table identity 0x2000 i ≡ 0x3000
table_there i hi has = rw (only_entry i hi has) (ap table_of first_entry)

identity-IsSpace : IsSpace identity 0x2000 []
identity-IsSpace = record {
  dir = record { aligned = refl; small = omega arith; ne_null = omega arith };
  dir_used = tt;
  tables = λ i hi has.
      rw (table_there i hi has)
        (record { aligned = refl; small = omega arith; ne_null = omega arith });
  apart = λ i hi has. rw (table_there i hi has) (omega arith);
  distinct =
      λ i j hi hj ne has has'. absurd (ne (only_entry i hi has ∙ sym (only_entry j hj has')));
  used = λ i hi has. tt;
}

identity-Foreign : Foreign identity 0x2000 (phys_to_virt 0)
identity-Foreign = record {
  page = record { aligned = refl; small = omega arith; ne_null = omega arith };
  ne_dir = omega arith;
  ne_table = λ i hi has. rw (table_there i hi has) (omega arith);
}

has_first : HasTable identity 0x2000 0
has_first = rw first_entry refl

page_entry : entry_at identity 0x2000 0 ≡ 3
page_entry =
    entry_at-table identity 0x2000 0 [] identity-IsSpace has_first
    ∙ (ap (λ t. load32 identity (t + 0)) (table_there 0 (omega arith) has_first)
        ∙ load32-store32_self with_table 0x3000 3 (omega arith))

pub page_maps : translate identity 0x2000 0 ≡ some 0
page_maps =
    translate-Names identity 0x2000 0 3 0
      (record { small = omega arith; is_present = refl; names = refl }) page_entry

unmap_page-Unmapped_example :
    (h' : Machine) × (unmap_page 0x2000 0 identity_machine ≡ done (tt, h'))
    × Unmapped identity_machine 0x2000 0 kern_base [] h'
unmap_page-Unmapped_example =
    unmap_page-Unmapped identity_machine 0x2000 0 kern_base [] identity-IsSpace refl (omega arith)
      (ap present page_entry) (ap table_of page_entry) identity-Foreign tt

destroy_address_space-Pool_example :
    let free = 0x2000 ∷ (tables_of identity 0x2000 1024 ++ phys_to_virt 0 ∷ []) in
    (h' : Machine) × (destroy_address_space 0x2000 identity_machine ≡ done (tt, h'))
    × Pool h' free
    × (length free + missing identity 0x2000 0 1024 ≡ 0 + 1026)
destroy_address_space-Pool_example =
    destroy_address_space-Pool identity_machine 0x2000 0 [] identity-IsSpace refl refl (omega arith)
      page_maps identity-Foreign tt

-- The machine after 512 pages have been registered.
abbrev empty_machine : Machine
empty_machine = record { mem = clear; free_pages = 0; num_allocated = 0 }

pages :
    (h' : Machine) × (register_free_mem 0xc020_0000 0xc040_0000 empty_machine ≡ done (tt, h'))
    × Pool h' (pushed 0xc020_0000 512 [])
pages =
    register_free_mem-Pool 0xc020_0000 0xc040_0000 empty_machine [] (omega arith) (omega arith)
      (omega arith) (omega arith) tt refl

pushed-suc : (n now : ℕ) (ps : List ℕ) → pushed now (suc n) ps ≡ (now + n * 4096) ∷ pushed now n ps
unfolding pushed
pushed-suc zero now ps = ap (λ x. x ∷ ps) (omega arith)
pushed-suc (suc n) now ps =
    pushed-suc n (now + 4096) (now ∷ ps)
    ∙ ap (λ x. x ∷ pushed (now + 4096) n (now ∷ ps)) (omega arith)

filled : Machine
filled = pages.0

filled-Pool : Pool filled ((0xc020_0000 + 511 * 4096) ∷ pushed 0xc020_0000 511 [])
unfolding filled
filled-Pool = subst (Pool pages.0) (pushed-suc 511 0xc020_0000 []) pages.2

map_kernel-KernelSpace_example :
    (h' : Machine) × (rest : List ℕ) × (map_kernel filled ≡ done (0xc020_0000 + 511 * 4096, h'))
    × KernelSpace h' (0xc020_0000 + 511 * 4096) rest
    × IsTail (pushed 0xc020_0000 511 []) rest
    × (length (pushed 0xc020_0000 511 []) ≤ 257 + length rest)
map_kernel-KernelSpace_example =
    map_kernel-KernelSpace filled (0xc020_0000 + 511 * 4096) (pushed 0xc020_0000 511 []) filled-Pool
      (omega (arith, length-pushed 0xc020_0000 511 []))

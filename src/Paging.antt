-- ===== src/Paging.antt =====
-- The page tables of memory.c. A page directory is a page of 1024 entries, each of which may name
-- a page table, a page of 1024 entries again. A test of a low bit is `%`, and `& ~0xfff` is
-- `/ 4096 * 4096`.
pub mod Entry
pub mod Space
pub mod Write
pub mod AddTable
pub mod GetTable
pub mod MapPage
pub mod Missing
pub mod Range
pub mod KernelMap
pub mod Unmap
pub mod Destroy
pub mod Virtual
use quaros.Base.{
  ℕ, zero, suc, ◌+◌, ◌-◌, ◌*◌, ◌/◌, ◌%◌, ◌^◌, bit_or, Bool, true, false, List, [], ◌∷◌, M, pure,
  stop, done, panic, fault, and_then, ◌>>=◌, ◌>>◌, ◌==◌, if◌then◌else◌,
}
use quaros.Ram.{Mem, load32, store32}
use quaros.Str.{memset, memcpy}
use quaros.PageAlloc.{Machine, pgsize, pg_roundup, kfree, kmalloc}

-- where the kernel's memory, and its direct map, end
abbrev pub kern_top : ℕ
kern_top = 0xc8000000

abbrev pub kern_base : ℕ
kern_base = 0xc0000000

abbrev pub mmdev_base : ℕ
mmdev_base = 0xfe000000

-- VIRT_TO_PHYS and PHYS_TO_VIRT
abbrev pub virt_to_phys : ℕ → ℕ
virt_to_phys va = (va + 2 ^ 32 - kern_base) % 2 ^ 32

abbrev pub phys_to_virt : ℕ → ℕ
phys_to_virt pa = (pa + kern_base) % 2 ^ 32

-- PDE_P, PDE_RW and PDE_US, which PTE_P, PTE_RW and PTE_US equal
abbrev pub pte_p : ℕ
pte_p = 1

abbrev pub pte_rw : ℕ
pte_rw = 2

abbrev pub pte_us : ℕ
pte_us = 4

-- `entry & PDE_P`
abbrev pub present : ℕ → Bool
present entry = entry % 2 == 1

-- `pgdir + ((vaddr >> 22) & 0x3ff)`, and the index of the entry in its page table
abbrev pub pde_at : ℕ → ℕ → ℕ
pde_at pgdir vaddr = pgdir + vaddr / 2 ^ 22 % 1024 * 4

abbrev pub pte_index : ℕ → ℕ
pte_index vaddr = vaddr / 2 ^ 12 % 1024

-- `(pte_t *)PHYS_TO_VIRT(entry & (~0xfff))`
abbrev pub table_of : ℕ → ℕ
table_of entry = phys_to_virt (entry / 4096 * 4096)

-- The result NULL is 0.
unfoldable pub walk_pgdir : Mem → ℕ → ℕ → ℕ
walk_pgdir m pgdir vaddr =
    let pde = load32 m (pde_at pgdir vaddr) in
    if present pde then table_of pde + pte_index vaddr * 4 else 0

-- `VIRT_TO_PHYS(pgtab) | PDE_P | PDE_RW | PDE_US`
abbrev pub table_entry : ℕ → ℕ
table_entry pgtab = bit_or (bit_or (bit_or (virt_to_phys pgtab) pte_p) pte_rw) pte_us

-- The page table that `map_page` finds or makes.
unfoldable pub get_table : ℕ → ℕ → M Machine ℕ
get_table pgdir vaddr h =
    let pde = load32 h.mem (pde_at pgdir vaddr) in
    if present pde
    then done (table_of pde, h)
    else and_then (kmalloc h) λ pgtab h'.
      let m = memset pgtab 0 pgsize h'.mem in
      done (pgtab, record h' { mem = store32 m (pde_at pgdir vaddr) (table_entry pgtab) })

unfoldable pub map_page : ℕ → ℕ → ℕ → ℕ → M Machine (Unit {0})
map_page pgdir vaddr paddr perm h = and_then (get_table pgdir vaddr h) λ pgtab h'.
    let entry = bit_or (bit_or paddr pte_p) perm in
    done (tt, record h' { mem = store32 h'.mem (pgtab + pte_index vaddr * 4) entry })

unfoldable pub unmap_page : ℕ → ℕ → M Machine (Unit {0})
unmap_page pgdir vaddr h =
    let pde = load32 h.mem (pde_at pgdir vaddr) in
    let at = table_of pde + pte_index vaddr * 4 in
    let pte = load32 h.mem at in
    if present pde
    then if present pte
      then and_then (kfree (table_of pte) h)
          (λ _ h'. done (tt, record h' { mem = store32 h'.mem at 0 }))
      else panic "unmap_page: unmapping an unmapped page"
    else panic "unmap_page: unmapping page from an unallocated page table"

-- `for (i = …; …; i++) body` with `rounds` rounds left
unfoldable pub for_pages : ℕ → ℕ → (ℕ → M Machine (Unit {0})) → M Machine (Unit {0})
for_pages zero i body h = done (tt, h)
for_pages (suc rounds) i body h = and_then (body i h) (λ _. for_pages rounds (i + 1) body)

abbrev pub num_pages : ℕ → ℕ
num_pages size = pg_roundup size / pgsize

-- the address of the `i`th page of a range
abbrev pub page_at : ℕ → ℕ → ℕ
page_at addr i = (addr + i * pgsize) % 2 ^ 32

unfoldable pub map_memory : ℕ → ℕ → ℕ → ℕ → ℕ → M Machine (Unit {0})
map_memory pgdir vaddr paddr size perm =
    if size == 0
    then stop "map_memory: map 0 bytes"
    else for_pages (num_pages size) 0 (λ i. map_page pgdir (page_at vaddr i) (page_at paddr i) perm)

unfoldable pub alloc_map_memory : ℕ → ℕ → ℕ → ℕ → M Machine (Unit {0})
alloc_map_memory pgdir vaddr size perm =
    if size == 0
    then stop "alloc_map_memory: alloc and map 0 bytes"
    else for_pages (num_pages size) 0
        λ i. do pg ← kmalloc; map_page pgdir (page_at vaddr i) (virt_to_phys pg) perm

unfoldable pub unmap_memory : ℕ → ℕ → ℕ → M Machine (Unit {0})
unmap_memory pgdir vaddr size =
    if size == 0
    then stop "unmap_memory: unmap 0 bytes"
    else for_pages (num_pages size) 0 (λ i. unmap_page pgdir (page_at vaddr i))

pub record MapInfo : Type 0 where
  pub va : ℕ
  pub pa : ℕ
  pub size : ℕ
  pub perm : ℕ

abbrev pub kernel_map : List MapInfo
kernel_map =
    record { va = 0; pa = 0; size = 2 ^ 20 * 4; perm = pte_rw }
    ∷ record { va = kern_base; pa = 0; size = mmdev_base - kern_base; perm = pte_rw }
    ∷ record { va = mmdev_base; pa = mmdev_base; size = 2 ^ 32 - mmdev_base; perm = pte_rw }
    ∷ []

unfoldable pub map_all : ℕ → List MapInfo → M Machine (Unit {0})
map_all pgdir [] = pure tt
map_all pgdir (k ∷ ks) = map_memory pgdir k.va k.pa k.size k.perm >> map_all pgdir ks

abbrev pub clear_page : ℕ → M Machine (Unit {0})
clear_page p h = done (tt, record h { mem = memset p 0 pgsize h.mem })

unfoldable pub map_kernel : M Machine ℕ
map_kernel = do pgdir ← kmalloc; clear_page pgdir; map_all pgdir kernel_map; pure pgdir

-- All programs are taken to be loaded at `[0, PGSIZE)`.
unfoldable pub destroy_user_address_space : ℕ → M Machine (Unit {0})
destroy_user_address_space pgdir = unmap_memory pgdir 0 pgsize

-- one round of the loop of `destroy_address_space`
unfoldable pub free_table : ℕ → ℕ → M Machine (Unit {0})
free_table pgdir i h =
    let pde = load32 h.mem (pgdir + i * 4) in
    if present pde then kfree (table_of pde) h else done (tt, h)

unfoldable pub destroy_address_space : ℕ → M Machine (Unit {0})
destroy_address_space pgdir = do
  destroy_user_address_space pgdir
  for_pages 1024 0 (free_table pgdir)
  kfree pgdir

-- ===== src/Elf/Ends.antt =====
-- Loading a program, and what it calls, never runs out of fuel.
use quaros.Base.{
  ℕ, zero, suc, ◌+◌, ◌-◌, ◌/◌, ◌%◌, ◌^◌, ◌≤◌, ◌<◌, ◌≡◌, ◌≢◌, true, out_of_fuel, M, ◌>>=◌, pure,
  arith, ltb, ◌==◌, if◌then◌else◌, Bool-cases, Option-cases, inl, inr, Ends, and_then-Ends,
}
use quaros.Ram.{Mem, load32, load16-lt}
use quaros.PageAlloc.{Machine, kmalloc, pgsize}
use quaros.PageAlloc.FreeList.{kmalloc-Ends}
use quaros.Paging.{
  get_table, map_page, for_pages, alloc_map_memory, num_pages, page_at, virt_to_phys, pde_at,
  present,
}
use quaros.Paging.Virtual.{
  resolve, read_byte, write_byte, copy_virtual, target, round_size, copy_pages,
  memcpy_to_another_space,
}
use quaros.Elf.{
  Phdr, e_phnum, elf_phdr, pt_load, load_segment, load_phdrs, phdr_fuel, check_elf, load_elf,
}

pure-Ends : (a : ℕ) (h : Machine) → pure a h ≢ out_of_fuel
pure-Ends a h e = cc

get_table-Ends : (pgdir vaddr : ℕ) → Ends (get_table pgdir vaddr)
unfolding get_table
get_table-Ends pgdir vaddr h = elim (Bool-cases (present (load32 h.mem (pde_at pgdir vaddr)))) [
  | inl has ↦ rw has (λ e. cc)
  | inr hasnt ↦ rw hasnt (and_then-Ends (kmalloc h) _ (kmalloc-Ends h) (λ p h' e. cc))
]

map_page-Ends : (pgdir vaddr paddr perm : ℕ) → Ends (map_page pgdir vaddr paddr perm)
unfolding map_page
map_page-Ends pgdir vaddr paddr perm h =
    and_then-Ends (get_table pgdir vaddr h) _ (get_table-Ends pgdir vaddr h) (λ p h' e. cc)

for_pages-Ends :
    (rounds i : ℕ) (body : ℕ → M Machine (Unit {0}))
    → ((j : ℕ) → Ends (body j))
    → Ends (for_pages rounds i body)
unfolding for_pages
for_pages-Ends zero i body hb h = λ e. cc
for_pages-Ends (suc rounds) i body hb h =
    and_then-Ends (body i h) _ (hb i h) (λ _. for_pages-Ends rounds (i + 1) body hb)

alloc_map_memory-Ends : (pgdir vaddr size perm : ℕ) → Ends (alloc_map_memory pgdir vaddr size perm)
unfolding alloc_map_memory
alloc_map_memory-Ends pgdir vaddr size perm h = elim (Bool-cases (size == 0)) [
  | inl is_zero ↦ rw is_zero (λ e. cc)
  | inr not_zero ↦ rw not_zero (
      for_pages-Ends (num_pages size) 0
        (λ i. kmalloc >>= λ pg. map_page pgdir (page_at vaddr i) (virt_to_phys pg) perm)
        (λ j h'.
          and_then-Ends (kmalloc h') _ (kmalloc-Ends h')
            (λ pg. map_page-Ends pgdir (page_at vaddr j) (virt_to_phys pg) perm))
        h)
]

read_byte-Ends : (cur a : ℕ) → Ends (read_byte cur a)
unfolding read_byte
read_byte-Ends cur a h = elim (Option-cases (resolve h.mem cur a)) [
  | inl unmapped ↦ rw (unmapped, read_byte) (λ e. cc)
  | inr (at, mapped) ↦ rw (mapped, read_byte) (λ e. cc)
]

write_byte-Ends : (cur a v : ℕ) → Ends (write_byte cur a v)
unfolding write_byte
write_byte-Ends cur a v h = elim (Option-cases (resolve h.mem cur a)) [
  | inl unmapped ↦ rw (unmapped, write_byte) (λ e. cc)
  | inr (at, mapped) ↦ rw (mapped, write_byte) (λ e. cc)
]

copy_virtual-Ends : (n cur d s : ℕ) → Ends (copy_virtual cur d s n)
unfolding copy_virtual
copy_virtual-Ends zero cur d s h = λ e. cc
copy_virtual-Ends (suc n) cur d s h =
    and_then-Ends (read_byte cur s h) _ (read_byte-Ends cur s h) (λ c h₁.
      and_then-Ends (write_byte cur d c h₁) _ (write_byte-Ends cur d c h₁)
        (λ _. copy_virtual-Ends n cur ((d + 1) % 2 ^ 32) ((s + 1) % 2 ^ 32)))

target-Ends : (pgdir dest i : ℕ) → Ends (target pgdir dest i)
unfolding target
target-Ends pgdir dest i h e = ground arith

copy_pages-Ends :
    (rounds cur i pgdir dest src n : ℕ) → Ends (copy_pages cur rounds i pgdir dest src n)
unfolding copy_pages
copy_pages-Ends zero cur i pgdir dest src n h = λ e. cc
copy_pages-Ends (suc rounds) cur i pgdir dest src n h =
    and_then-Ends (target pgdir dest i h) _ (target-Ends pgdir dest i h) (λ to h₁.
      and_then-Ends (copy_virtual cur to src (round_size n) h₁) _
        (copy_virtual-Ends (round_size n) cur to src h₁)
        (λ _. copy_pages-Ends rounds cur (i + 1) pgdir dest src ((n + 2 ^ 32 - pgsize) % 2 ^ 32)))

memcpy_to_another_space-Ends :
    (cur pgdir dest src n : ℕ) → Ends (memcpy_to_another_space cur pgdir dest src n)
unfolding memcpy_to_another_space
memcpy_to_another_space-Ends cur pgdir dest src n h =
    let pages = if n % pgsize == 0 then n / pgsize else n / pgsize + 1 in
    and_then-Ends (copy_pages cur pages 0 pgdir dest src n h) (λ _. pure dest)
      (copy_pages-Ends pages cur 0 pgdir dest src n h) (λ _ h'. pure-Ends dest h')

load_segment-Ends : (cur pgdir ehdr : ℕ) (phdr : Phdr) → Ends (load_segment cur pgdir ehdr phdr)
unfolding load_segment
load_segment-Ends cur pgdir ehdr phdr h = elim (Bool-cases (phdr.p_type == pt_load)) [
  | inl is_load ↦ rw is_load (
      and_then-Ends (alloc_map_memory pgdir phdr.p_vaddr phdr.p_memsz 6 h) _
        (alloc_map_memory-Ends pgdir phdr.p_vaddr phdr.p_memsz 6 h)
        (λ _ h₁.
          and_then-Ends
            (memcpy_to_another_space cur pgdir phdr.p_vaddr ((ehdr + phdr.p_offset) % 2 ^ 32)
              phdr.p_filesz h₁)
            _
            (memcpy_to_another_space-Ends cur pgdir phdr.p_vaddr ((ehdr + phdr.p_offset) % 2 ^ 32)
              phdr.p_filesz h₁)
            (λ _ h' e. cc)))
  | inr other ↦ rw other (λ e. cc)
]

load_phdrs-Ends :
    (fuel i cur pgdir ehdr : ℕ)
    → i < 2 ^ 16
    → 2 ^ 16 ≤ i + fuel
    → Ends (load_phdrs fuel i cur pgdir ehdr)
unfolding load_phdrs
load_phdrs-Ends zero i cur pgdir ehdr hi enough h = absurd (omega arith)
load_phdrs-Ends (suc fuel) i cur pgdir ehdr hi enough h =
    elim (Bool-cases (ltb i (e_phnum h.mem ehdr))) [
      | inl more ↦
          let below : i + 1 < 2 ^ 16 = phnum_lt h.mem ehdr i more in
          rw (more, load_phdrs)
            (and_then-Ends (load_segment cur pgdir ehdr (elf_phdr h.mem ehdr i) h) _
              (load_segment-Ends cur pgdir ehdr (elf_phdr h.mem ehdr i) h)
              (λ _. load_phdrs-Ends fuel (i + 1) cur pgdir ehdr below (omega arith)))
      | inr last ↦ rw (last, load_phdrs) (λ e. cc)
    ]
  where
    phnum_lt : (m : Mem) (ehdr i : ℕ) → ltb i (e_phnum m ehdr) ≡ true → i + 1 < 2 ^ 16
    phnum_lt m ehdr i more = ground (arith, load16-lt m (ehdr + 44))

-- Loading an ELF file never runs out of the fuel of the loop over its program headers, whatever
-- the file says and whatever the loading does to memory.
pub load_elf-Ends : (cur pgdir ehdr : ℕ) (h : Machine) → load_elf cur pgdir ehdr h ≢ out_of_fuel
unfolding load_elf
load_elf-Ends cur pgdir ehdr h = elim (Bool-cases (check_elf h.mem ehdr)) [
  | inl is_elf ↦ rw is_elf (
      and_then-Ends (load_phdrs phdr_fuel 0 cur pgdir ehdr h) _
        (load_phdrs-Ends phdr_fuel 0 cur pgdir ehdr (omega arith) (omega arith) h) (λ _ h' e. cc))
  | inr not_elf ↦ rw not_elf (λ e. cc)
]

-- ===== src/Paging/Virtual/Copy.antt =====
-- Copying into another address space.
use quaros.Base.{
  ℕ, zero, suc, ◌+◌, ◌/◌, ◌%◌, ◌^◌, ◌≤◌, ◌<◌, ◌≡◌, ◌⊎◌, refl, ap, some, done, arith, ◌==◌,
  if◌then◌else◌,
}
use quaros.Ram.{Mem, store8}
use quaros.Str.{memcpy}
use quaros.Str.Memcpy.{memcpy-copies, memcpy-outside}
use quaros.PageAlloc.{Machine, pgsize}
use quaros.Paging.{kern_base, phys_to_virt, page_at}
use quaros.Paging.Space.{translate, walk_pgdir-entry_at, translate-inv}
use quaros.Paging.Virtual.{
  resolve, read_byte, write_byte, copy_virtual, target, round_size, copy_pages,
  memcpy_to_another_space,
}

resolve-kernel : (m : Mem) (cur a : ℕ) → kern_base ≤ a → resolve m cur a ≡ some a
unfolding resolve
resolve-kernel m cur a h = ground arith

read_byte-kernel : (cur a : ℕ) (h : Machine) → kern_base ≤ a → read_byte cur a h ≡ done (h.mem a, h)
unfolding read_byte
read_byte-kernel cur a h le = rw (resolve-kernel h.mem cur a le, read_byte)

write_byte-kernel :
    (cur a v : ℕ) (h : Machine)
    → kern_base ≤ a
    → write_byte cur a v h ≡ done (tt, record h { mem = store8 h.mem a v })
unfolding write_byte
write_byte-kernel cur a v h le = rw (resolve-kernel h.mem cur a le, write_byte)

-- Between two of the kernel's own places it is `memcpy`.
pub copy_virtual-memcpy :
    (n cur d s : ℕ) (h : Machine)
    → kern_base ≤ d
    → kern_base ≤ s
    → d + n ≤ 2 ^ 32
    → s + n ≤ 2 ^ 32
    → copy_virtual cur d s n h ≡ done (tt, record h { mem = memcpy d s n h.mem })
unfolding copy_virtual memcpy
copy_virtual-memcpy zero cur d s h hd hs fd fs = refl
copy_virtual-memcpy (suc zero) cur d s h hd hs fd fs =
    rw (read_byte-kernel cur s h hs, write_byte-kernel cur d (h.mem s) h hd) refl
copy_virtual-memcpy (suc (suc n)) cur d s h hd hs fd fs =
    let next_d : (d + 1) % 2 ^ 32 ≡ d + 1 = omega arith in
    let next_s : (s + 1) % 2 ^ 32 ≡ s + 1 = omega arith in
    rw (read_byte-kernel cur s h hs, write_byte-kernel cur d (h.mem s) h hd, next_d, next_s)
      (copy_virtual-memcpy (suc n) cur (d + 1) (s + 1) (record h { mem = store8 h.mem d (h.mem s) })
        (omega arith) (omega arith) (omega arith) (omega arith))

target-translate :
    (pgdir dest pa : ℕ) (h : Machine)
    → dest < 2 ^ 32
    → translate h.mem pgdir dest ≡ some pa
    → target pgdir dest 0 h ≡ done (phys_to_virt pa, h)
unfolding target
target-translate pgdir dest pa h hd maps =
    let here : page_at dest 0 ≡ dest = omega arith in
    let (present_here, place) = translate-inv h.mem pgdir dest pa maps in
    let (found, entry) = walk_pgdir-entry_at h.mem pgdir dest present_here in
    rw (here, found, entry) (ap (λ a. done (a, h)) (omega arith))

-- A copy of at most a page, not empty, to an address that the other space maps to a frame of the
-- direct map, from kernel memory that does not overlap it, both within the 32-bit addresses,
-- succeeds, returns the destination, stores exactly the source's bytes at the frame, and changes
-- no other byte.
pub memcpy_to_another_space-copies :
    (h : Machine) (cur pgdir dest src n pa : ℕ)
    → 0 < n
    → n ≤ 4096
    → dest < 2 ^ 32
    → translate h.mem pgdir dest ≡ some pa
    → kern_base ≤ src
    → kern_base ≤ phys_to_virt pa
    → src + n ≤ 2 ^ 32
    → phys_to_virt pa + n ≤ 2 ^ 32
    → (phys_to_virt pa + n ≤ src) ⊎ (src + n ≤ phys_to_virt pa)
    → (h' : Machine) × (memcpy_to_another_space cur pgdir dest src n h ≡ done (dest, h'))
      × ((i : ℕ) → i < n → h'.mem (phys_to_virt pa + i) ≡ h.mem (src + i) % 256)
      × ((x : ℕ) → (x < phys_to_virt pa) ⊎ (phys_to_virt pa + n ≤ x) → h'.mem x ≡ h.mem x)
unfolding memcpy_to_another_space copy_pages
memcpy_to_another_space-copies h cur pgdir dest src n pa pos le hd maps hs hp fs fp apart =
    let size : round_size n ≡ n = ground arith in
    let pages : (if n % pgsize == 0 then n / pgsize else n / pgsize + 1) ≡ 1 = ground arith in
    (
      record h { mem = memcpy (phys_to_virt pa) src n h.mem },
      rw (pages, copy_pages, target-translate pgdir dest pa h hd maps, size)
          (rw (copy_virtual-memcpy n cur (phys_to_virt pa) src h hp hs fp fs) refl),
      λ i lt. memcpy-copies n (phys_to_virt pa) src h.mem i lt apart,
      λ x out. memcpy-outside n (phys_to_virt pa) src h.mem x out,
    )

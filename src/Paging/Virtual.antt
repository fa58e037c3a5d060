-- ===== src/Paging/Virtual.antt =====
-- Memory through the page tables: what the kernel reaches at a virtual address, and
-- `memcpy_to_another_space` of memory.c. `cur` is the page directory that is in force.
pub mod Copy
use quaros.Base.{
  ℕ, zero, suc, ◌+◌, ◌-◌, ◌*◌, ◌/◌, ◌%◌, ◌^◌, Bool, true, false, Option, none, some, List, [], ◌∷◌,
  M, pure, Outcome, done, fault, out_of_fuel, and_then, ◌>>=◌, ◌>>◌, leb, ◌==◌, if◌then◌else◌,
}
use quaros.Ram.{Mem, store8, store32, load32}
use quaros.PageAlloc.{Machine, pgsize}
use quaros.Paging.{kern_base, phys_to_virt, walk_pgdir, table_of, page_at}
use quaros.Paging.Space.{translate}

-- The byte at `a`, by its address in the direct map: the kernel's own addresses are in it, a user's
-- address goes through the page tables. `none` is a page fault.
unfoldable pub resolve : Mem → ℕ → ℕ → Option ℕ
unfolding translate
resolve m cur a =
    if leb kern_base a
    then some a
    else elim (translate m cur a) [ none ↦ none | some pa ↦ some (phys_to_virt pa) ]

unfoldable pub read_byte : ℕ → ℕ → M Machine ℕ
unfolding resolve
read_byte cur a h = elim (resolve h.mem cur a) [ none ↦ fault | some at ↦ done (h.mem at, h) ]

unfoldable pub write_byte : ℕ → ℕ → ℕ → M Machine (Unit {0})
unfolding resolve
write_byte cur a v h = elim (resolve h.mem cur a) [
  | none ↦ fault
  | some at ↦ done (tt, record h { mem = store8 h.mem at v })
]

-- `*(uint32_t *)a`
unfoldable pub read_word : ℕ → ℕ → M Machine ℕ
unfolding read_byte
read_word cur a = do
  b₀ ← read_byte cur a
  b₁ ← read_byte cur ((a + 1) % 2 ^ 32)
  b₂ ← read_byte cur ((a + 2) % 2 ^ 32)
  b₃ ← read_byte cur ((a + 3) % 2 ^ 32)
  pure (b₀ + 256 * b₁ + 65536 * b₂ + 16777216 * b₃)

-- `memcpy` whose two places may lie in user memory
unfoldable pub copy_virtual : ℕ → ℕ → ℕ → ℕ → M Machine (Unit {0})
unfolding read_byte write_byte
copy_virtual cur d s zero = pure tt
copy_virtual cur d s (suc n) = do
  c ← read_byte cur s
  write_byte cur d c
  copy_virtual cur ((d + 1) % 2 ^ 32) ((s + 1) % 2 ^ 32) n

unfoldable pub write_bytes : ℕ → ℕ → List ℕ → M Machine (Unit {0})
unfolding write_byte
write_bytes cur a [] = pure tt
write_bytes cur a (c ∷ cs) = write_byte cur a c >> write_bytes cur ((a + 1) % 2 ^ 32) cs

-- The string at `a`, up to its terminator.
unfoldable pub read_string : ℕ → ℕ → ℕ → M Machine (List ℕ)
unfolding read_byte
read_string zero cur a h = out_of_fuel
read_string (suc fuel) cur a h = and_then (read_byte cur a h) λ c h'. elim (c == 0) [
  | true ↦ done ([], h')
  | false ↦ and_then (read_string fuel cur ((a + 1) % 2 ^ 32) h') (λ s h''. done (c ∷ s, h''))
]

-- Where the page of `dest` that is `i` pages on lies in the other space; the entry that
-- `walk_pgdir` does not find is read at NULL.
unfoldable pub target : ℕ → ℕ → ℕ → M Machine ℕ
target pgdir dest i h =
    let at = walk_pgdir h.mem pgdir (page_at dest i) in
    if at == 0 then fault else done ((table_of (load32 h.mem at) + dest % pgsize) % 2 ^ 32, h)

-- The bytes that a round copies.
abbrev pub round_size : ℕ → ℕ
round_size n = if n % pgsize == 0 then pgsize else n % pgsize

-- The rounds of `memcpy_to_another_space`. `n` falls by a page a round, and wraps; `src` stays.
unfoldable pub copy_pages : ℕ → ℕ → ℕ → ℕ → ℕ → ℕ → ℕ → M Machine (Unit {0})
unfolding target copy_virtual
copy_pages cur zero i pgdir dest src n = pure tt
copy_pages cur (suc rounds) i pgdir dest src n = do
  to ← target pgdir dest i
  copy_virtual cur to src (round_size n)
  copy_pages cur rounds (i + 1) pgdir dest src ((n + 2 ^ 32 - pgsize) % 2 ^ 32)

unfoldable pub memcpy_to_another_space : ℕ → ℕ → ℕ → ℕ → ℕ → M Machine ℕ
unfolding copy_pages
memcpy_to_another_space cur pgdir dest src n =
    let pages = if n % pgsize == 0 then n / pgsize else n / pgsize + 1 in
    copy_pages cur pages 0 pgdir dest src n >> pure dest

-- The same for a local variable of the kernel, four bytes long, that holds `w`.
unfoldable pub put_word : ℕ → ℕ → ℕ → M Machine (Unit {0})
unfolding target
put_word pgdir dest w = do
  to ← target pgdir dest 0
  λ h. done (tt, record h { mem = store32 h.mem to w })

-- ===== src/PageAlloc.antt =====
-- The page allocator of memory.c: the free pages are a list that is threaded through their own
-- first words.
pub mod FreeList
pub mod Register
use quaros.Base.{
  ℕ, zero, suc, ◌+◌, ◌-◌, ◌*◌, ◌/◌, ◌%◌, ◌^◌, Bool, true, false, M, pure, stop, Outcome, done,
  panic, fault, out_of_fuel, and_then, leb, ltb, ◌==◌, if◌then◌else◌,
}
use quaros.Ram.{Mem, load32, store32}

abbrev pub pgsize : ℕ
pgsize = 4096

-- PG_ROUNDDOWN and PG_ROUNDUP; the sum of the second wraps at 32 bits.
abbrev pub pg_rounddown : ℕ → ℕ
pg_rounddown addr = addr / 4096 * 4096

abbrev pub pg_roundup : ℕ → ℕ
pg_roundup addr = (addr + pgsize - 1) % 2 ^ 32 / 4096 * 4096

-- The kernel's memory with the globals of memory.c that change. A pointer is its address, and
-- NULL is 0.
pub record Machine : Type 0 where
  pub mem : Mem
  pub free_pages : ℕ
  pub num_allocated : ℕ

-- The link is written before the alignment is checked.
unfoldable pub kfree : ℕ → M Machine (Unit {0})
kfree ptr h =
    let next : ℕ = if h.free_pages == 0 then 0 else h.free_pages in
    let m = store32 h.mem ptr next in
    if ptr % 4096 == 0
    then done (tt, record h { mem = m; free_pages = ptr })
    else panic "kmalloc: page not aligned (kfree)"

unfoldable pub kmalloc : M Machine ℕ
kmalloc h =
    let ret = h.free_pages in
    if ret == 0
    then panic "kmalloc: no memory to allocate"
    else if ret % 4096 == 0
    then done (
      ret,
      record h { free_pages = load32 h.mem ret; num_allocated = (h.num_allocated + 1) % 2 ^ 32 },
    )
    else panic "kmalloc: page not aligned (kmalloc)"

-- `for (; now < last; now += PGSIZE) kfree(now);`
unfoldable pub free_range : ℕ → ℕ → ℕ → M Machine (Unit {0})
free_range zero now last h = out_of_fuel
free_range (suc fuel) now last h =
    let more = λ (h' : Machine). free_range fuel ((now + pgsize) % 2 ^ 32) last h' in
    if ltb now last then and_then (kfree now h) (λ _. more) else done (tt, h)

-- There are 2 ^ 20 pages, so the loop ends within `range_fuel` rounds.
abbrev pub range_fuel : ℕ
range_fuel = 2 ^ 20 + 1

unfoldable pub register_free_mem : ℕ → ℕ → M Machine (Unit {0})
register_free_mem start last =
    if leb (pg_rounddown last) (pg_rounddown start)
    then stop "Illegal free memory registeration"
    else free_range range_fuel (pg_roundup start) (pg_rounddown last)

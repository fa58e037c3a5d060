-- ===== src/Boot.antt =====
-- The boot loader of bootc.c. `disk` gives the byte at each offset of the disk; the port accesses by
-- which `read_sect` has the ATA controller deliver a sector are the controller's.
pub mod Offset
use quaros.Base.{
  ℕ, zero, suc, ◌+◌, ◌-◌, ◌*◌, ◌/◌, ◌%◌, ◌^◌, Bool, true, false, M, pure, Outcome, done,
  out_of_fuel, and_then, ◌>>=◌, ◌>>◌, Option, none, some, ltb, ◌==◌, if◌then◌else◌,
}
use quaros.Ram.{Mem, store8, load32}
use quaros.Elf.{Phdr, elf_phdr, e_phnum, e_entry}

abbrev pub sect_size : ℕ
sect_size = 512

-- `n` bytes from offset `offset` on, to memory from `dst` on
unfoldable pub put_bytes : (ℕ → ℕ) → ℕ → ℕ → ℕ → Mem → Mem
put_bytes disk dst offset zero m = m
put_bytes disk dst offset (suc n) m =
    put_bytes disk ((dst + 1) % 2 ^ 32) (offset + 1) n (store8 m dst (disk offset))

-- `read_sect`, which returns the place behind the sector
unfoldable pub read_sect : (ℕ → ℕ) → ℕ → ℕ → Mem → ℕ × Mem
read_sect disk dst lba m =
    ((dst + sect_size) % 2 ^ 32, put_bytes disk dst (lba * sect_size) sect_size m)

-- The loop of `read_offset`; `none` is too little fuel.
unfoldable pub read_sects : (ℕ → ℕ) → ℕ → ℕ → ℕ → ℕ → Mem → Option Mem
unfolding read_sect
read_sects disk zero p last lba m = none
read_sects disk (suc fuel) p last lba m =
    let (p', m') = read_sect disk p lba m in
    let rest = read_sects disk fuel p' last (lba + 1) m' in if ltb p last then rest else some m

-- The fuel is enough where the places do not wrap; where the loop does not end, there is not enough.
unfoldable pub read_offset : (ℕ → ℕ) → ℕ → ℕ → ℕ → Mem → Option Mem
unfolding read_sects
read_offset disk dst offset size m =
    read_sects disk (size / sect_size + 3) ((dst + 2 ^ 32 - offset % sect_size) % 2 ^ 32)
      ((dst + size) % 2 ^ 32) (offset / sect_size) m

abbrev pub kern_link_phys : ℕ
kern_link_phys = 0x0010_0000

-- The kernel's image starts in the disk's second sector; a header with bit PT_LOAD is loaded.
unfoldable pub load_header : (ℕ → ℕ) → Phdr → Mem → Option Mem
unfolding read_offset
load_header disk phdr m =
    if phdr.p_type % 2 == 1
    then read_offset disk phdr.p_paddr ((sect_size + phdr.p_offset) % 2 ^ 32) phdr.p_filesz m
    else some m

-- The loop over the headers; `none` is too little fuel.
unfoldable pub load_headers : (ℕ → ℕ) → ℕ → ℕ → Mem → Option Mem
unfolding load_header
load_headers disk zero i m = none
load_headers disk (suc fuel) i m =
    if ltb i (e_phnum m kern_link_phys)
    then (elim (load_header disk (elf_phdr m kern_link_phys i) m) [
      | none ↦ none
      | some m' ↦ load_headers disk fuel (i + 1) m'
    ])
    else some m

-- `bootc`, up to the jump to the entry, which is the result
unfoldable pub bootc : (ℕ → ℕ) → Mem → Option (ℕ × Mem)
unfolding load_headers
bootc disk m = elim (read_offset disk kern_link_phys sect_size sect_size m) [
  | none ↦ none
  | some m' ↦ elim (load_headers disk (2 ^ 16) 0 m') [
    | none ↦ none
    | some m'' ↦ some (e_entry m'' kern_link_phys, m'')
  ]
]

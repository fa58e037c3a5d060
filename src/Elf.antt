-- ===== src/Elf.antt =====
-- The ELF headers of elf.h as they lie in memory, and `load_elf` of proc.c.
pub mod Ends
use quaros.Base.{
  ℕ, zero, suc, ◌+◌, ◌*◌, ◌%◌, ◌^◌, Bool, true, false, ◌&&◌, M, pure, Outcome, done, out_of_fuel,
  and_then, ◌>>=◌, ◌>>◌, ltb, ◌==◌, if◌then◌else◌,
}
use quaros.Ram.{Mem, load16, load32}
use quaros.PageAlloc.{Machine}
use quaros.Paging.{alloc_map_memory}
use quaros.Paging.Virtual.{memcpy_to_another_space}

-- CHECK_ELF
unfoldable pub check_elf : Mem → ℕ → Bool
check_elf m ehdr =
    m ehdr == 0x7f && m (ehdr + 1) == b'E' && m (ehdr + 2) == b'L' && m (ehdr + 3) == b'F'

-- the fields of Elf32_Ehdr that the kernel reads
abbrev pub e_entry : Mem → ℕ → ℕ
e_entry m ehdr = load32 m (ehdr + 24)

abbrev pub e_phoff : Mem → ℕ → ℕ
e_phoff m ehdr = load32 m (ehdr + 28)

abbrev pub e_phentsize : Mem → ℕ → ℕ
e_phentsize m ehdr = load16 m (ehdr + 42)

abbrev pub e_phnum : Mem → ℕ → ℕ
e_phnum m ehdr = load16 m (ehdr + 44)

-- Elf32_Phdr
pub record Phdr : Type 0 where
  pub p_type : ℕ
  pub p_offset : ℕ
  pub p_vaddr : ℕ
  pub p_paddr : ℕ
  pub p_filesz : ℕ
  pub p_memsz : ℕ

-- ELF_PHDR
unfoldable pub elf_phdr : Mem → ℕ → ℕ → Phdr
elf_phdr m ehdr i =
    let at = (ehdr + e_phoff m ehdr + i * e_phentsize m ehdr) % 2 ^ 32 in
    record {
      p_type = load32 m at;
      p_offset = load32 m (at + 4);
      p_vaddr = load32 m (at + 8);
      p_paddr = load32 m (at + 12);
      p_filesz = load32 m (at + 16);
      p_memsz = load32 m (at + 20);
    }

abbrev pub pt_load : ℕ
pt_load = 1

-- One segment. The permissions are `PTE_RW | PTE_US`.
unfoldable pub load_segment : ℕ → ℕ → ℕ → Phdr → M Machine (Unit {0})
load_segment cur pgdir ehdr phdr =
    if phdr.p_type == pt_load
    then (do
      alloc_map_memory pgdir phdr.p_vaddr phdr.p_memsz 6
      memcpy_to_another_space cur pgdir phdr.p_vaddr ((ehdr + phdr.p_offset) % 2 ^ 32) phdr.p_filesz
      pure tt)
    else pure tt

-- The loop over the program headers, which `e_phnum` bounds anew in each round.
unfoldable pub load_phdrs : ℕ → ℕ → ℕ → ℕ → ℕ → M Machine (Unit {0})
unfolding elf_phdr load_segment
load_phdrs zero i cur pgdir ehdr h = out_of_fuel
load_phdrs (suc fuel) i cur pgdir ehdr h = elim (ltb i (e_phnum h.mem ehdr)) [
  | true ↦
      and_then (load_segment cur pgdir ehdr (elf_phdr h.mem ehdr i) h)
        (λ _. load_phdrs fuel (i + 1) cur pgdir ehdr)
  | false ↦ done (tt, h)
]

-- `e_phnum` has 16 bits.
abbrev pub phdr_fuel : ℕ
phdr_fuel = 2 ^ 16

-- The result `false` is -1.
unfoldable pub load_elf : ℕ → ℕ → ℕ → M Machine Bool
unfolding check_elf load_phdrs
load_elf cur pgdir ehdr h =
    if check_elf h.mem ehdr
    then and_then (load_phdrs phdr_fuel 0 cur pgdir ehdr h) (λ _ h'. done (true, h'))
    else done (false, h)

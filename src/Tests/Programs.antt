-- ===== src/Tests/Programs.antt =====
-- Loading and starting programs, the boot loader, and user buffers at concrete inputs.
use quaros.Base.{
  Option, Outcome, panic, fault, ℕ, ◌+◌, ◌%◌, ◌≤◌, ◌<◌, ◌≡◌, ◌≢◌, ◌⊎◌, inl, inr, refl, some, done,
  out_of_fuel, arith, true, ◌==◌, if◌then◌else◌,
}
use quaros.Ram.{Mem, load32, store32, store8}
use quaros.PageAlloc.{Machine}
use quaros.Paging.{phys_to_virt}
use quaros.Paging.Virtual.{memcpy_to_another_space}
use quaros.Paging.Virtual.Copy.{memcpy_to_another_space-copies}
use quaros.Elf.{load_elf}
use quaros.Elf.Ends.{load_elf-Ends}
use quaros.Kernel.{Kernel, FileRef}
use quaros.Descriptor.{zero_desc, init_segmentation}
use quaros.Kernel.Frame.{build_int_frame}
use quaros.Kernel.Frame.User.{LeadsTo, build_int_frame-LeadsTo}
use quaros.Kernel.User.{minus_one}
use quaros.SysFile.{put_file, read_ref, write_ref}
use quaros.SysFile.Io.{read_ref-unchecked, write_ref-minus_one}
use quaros.Kernel.Exec.{prepare_ustack}
use quaros.Kernel.Exec.Stack.{InPage, prepare_ustack-InPage}
use quaros.Boot.{read_offset}
use quaros.Boot.Offset.{read_offset-reads}
use quaros.Fs.{empty_file}
use quaros.Tests.Memory.{clear}
use quaros.Tests.Tasks.{busy}
use quaros.Tests.Spaces.{identity, identity_machine, page_maps}

-- 16 bytes of the kernel's go to the page at 0 of the space that maps it to frame 0.
memcpy_to_another_space-copies_example :
    (h' : Machine) × (memcpy_to_another_space 0x2000 0x2000 0 0xc000_5000 16 identity_machine
      ≡ done (0, h'))
    × ((i : ℕ) → i < 16 → h'.mem (phys_to_virt 0 + i) ≡ identity (0xc000_5000 + i) % 256)
    × ((x : ℕ) → (x < phys_to_virt 0) ⊎ (phys_to_virt 0 + 16 ≤ x) → h'.mem x ≡ identity x)
memcpy_to_another_space-copies_example =
    memcpy_to_another_space-copies identity_machine 0x2000 0x2000 0 0xc000_5000 16 0 (omega arith)
      (omega arith) (omega arith) page_maps (omega arith) (omega arith) (omega arith) (omega arith)
      (inl (omega arith))

-- An ELF header at 0x100 that says there are 3 program headers, at 0x200.
abbrev program : Mem
program a =
    if a == 0x100
    then 0x7f
    else if a == 0x101
    then b'E'
    else if a == 0x102
    then b'L'
    else if a == 0x103
    then b'F'
    else if a == 0x100 + 29
    then 1
    else if a == 0x100 + 42
    then 32
    else if a == 0x100 + 44
    then 3
    else if a == 0x200
    then 1
    else 0

load_elf-Ends_example :
    load_elf 0x2000 0x2000 0x100 (record { mem = program; free_pages = 0; num_allocated = 0 })
    ≢ out_of_fuel
load_elf-Ends_example =
    load_elf-Ends 0x2000 0x2000 0x100 (record { mem = program; free_pages = 0; num_allocated = 0 })

build_int_frame-LeadsTo_example :
    LeadsTo
      (init_segmentation 0xc020_0000 (λ _. zero_desc))
      (build_int_frame 0x7fb4 0x40 program)
      0x7fb4
      0x40
build_int_frame-LeadsTo_example =
    build_int_frame-LeadsTo 0x7fb4 0x40 0xc020_0000 (λ _. zero_desc) program (λ j. refl)
      (omega arith)

-- A kernel with a file of 100 bytes at position 90, whose page is at 0xc0003000.
abbrev with_file : Kernel
with_file = record busy {
  files = λ _. record empty_file { size = 100; pos = 90; in_use = true; contents = 0xc000_3000 };
}

read_ref-unchecked_example :
    (m : Mem) × (read_ref 0xc000_5000 50 (FileRef.entry 2) with_file
      ≡ done (
        10,
        put_file
            (FileRef.entry 2)
            (record (with_file.files 2) { pos = 100 })
            (record with_file { machine = record with_file.machine { mem = m } }),
      ))
    × ((i : ℕ) → i < 10 → m (0xc000_5000 + i) ≡ with_file.machine.mem (0xc000_3000 + i) % 256)
    × ((x : ℕ) → (x < 0xc000_5000) ⊎ (0xc000_5000 + 10 ≤ x) → m x ≡ with_file.machine.mem x)
read_ref-unchecked_example =
    read_ref-unchecked with_file (FileRef.entry 2) 0xc000_5000 50 refl (omega arith) (omega arith)
      (omega arith) (omega arith) (omega arith) (omega arith) (inr (omega arith))

write_ref-minus_one_example :
    (m : Mem) × (write_ref 0xc000_5000 20 (FileRef.entry 2) with_file
      ≡ done (
        minus_one,
        put_file
            (FileRef.entry 2)
            (record (with_file.files 2) { pos = 110 })
            (record with_file { machine = record with_file.machine { mem = m } }),
      ))
    × ((i : ℕ) → i < 20 → m (0xc000_3000 + 90 + i) ≡ with_file.machine.mem (0xc000_5000 + i) % 256)
write_ref-minus_one_example =
    write_ref-minus_one with_file (FileRef.entry 2) 0xc000_5000 20 refl (omega arith) (omega arith)
      (omega arith) (omega arith) (omega arith) (inl (omega arith))

-- 600 bytes from offset 700 of a disk whose byte at each offset is the offset modulo 256.
read_offset-reads_example :
    (m' : Mem) × (read_offset (λ x. x % 256) 0x10_0000 700 600 clear ≡ some m')
    × ((i : ℕ) → i < 600 → m' (0x10_0000 + i) ≡ (700 + i) % 256 % 256)
    × ((x : ℕ) → (x + 700 % 512 < 0x10_0000) ⊎ (0x10_0000 + 600 + 512 ≤ x) → m' x ≡ clear x)
read_offset-reads_example =
    read_offset-reads (λ x. x % 256) 0x10_0000 700 600 clear (omega arith) (omega arith)

-- One argument, the string `a` at 0x200, with its pointer at 0x100; page 0 is frame 0.
abbrev with_argument : Kernel
with_argument = record busy {
  machine = record identity_machine {
    mem = store8 (store32 identity 0xc000_0100 0x200) 0xc000_0200 b'a';
  };
  cr3 = 0x4000_2000;
}

abbrev ended : Outcome (Option ℕ × Kernel) → Kernel
ended (done (got, k)) = k
ended (panic msg) = busy
ended fault = busy
ended out_of_fuel = busy

one_argument :
    prepare_ustack 9 0x2000 4088 0x100 with_argument
    ≡ done (some 4068, ended (prepare_ustack 9 0x2000 4088 0x100 with_argument))
unfolding prepare_ustack quaros.Kernel.User.user_word quaros.Kernel.User.user_string
    quaros.Syscall.read_user_mem quaros.Paging.Virtual.read_word quaros.Paging.Virtual.read_string
    memcpy_to_another_space quaros.Paging.Virtual.put_word quaros.Paging.walk_pgdir load32 store8
    store32
one_argument = refl

prepare_ustack-InPage_example : InPage (some 4068)
prepare_ustack-InPage_example =
    prepare_ustack-InPage 9 0x2000 0x100 with_argument
      (ended (prepare_ustack 9 0x2000 4088 0x100 with_argument)) (some 4068) one_argument

-- ===== src/Lib.antt =====
-- quaros is a small 32-bit x86 kernel: a page allocator and page tables (memory.c), tasks with a
-- scheduler (proc.c, sys_proc.c), a flat table of files (fs.c), system calls (syscall.c,
-- sys_file.c), a console with line editing (io.c), descriptor tables (memory.c, interrupt.c),
-- interrupt controllers (lapic.c, ioapic.c), and a shell with a few programs (user/).
-- This library models its C code and proves what makes it correct, or where it is not.
--
-- How the parts interact. The boot loader reads the kernel from the disk. The allocator hands out
-- pages; page tables, kernel stacks and the contents of files are such pages. A task owns an
-- address space, a stack and open files. Typed characters go into the console's buffer in an
-- interrupt and come out in `read`. System calls read their arguments from user memory; `fork` and
-- `execv` make address spaces and fill them; `exit`, `wait`, sleeping and the timer switch to the
-- scheduler, which picks the next task. Every interrupt comes in through `trampoline`. The user
-- programs see the kernel as the system calls of the record Sys, and the kernel its devices as a Bus.
--
-- Which file models what. The model keeps the source's names; a lemma's module says what it is on.
--   Base               Booleans, lists, bits, and the outcomes of kernel code: done, panic, fault
--                      (undefined in C) and out_of_fuel
--   Ram                memory: a byte at each address, with 16- and 32-bit little-endian accesses
--   Str                string.c: memset, memcpy, strlen, strcpy, strcmp
--   PageAlloc          memory.c: kfree, kmalloc, register_free_mem. Machine is memory with the
--                      globals free_pages and num_allocated
--   Paging             memory.c: walk_pgdir, map_page to destroy_address_space, and the kernel's
--                      map. Paging/Space says what an address space means: translate.
--                      Paging/Virtual is memory seen through the page tables in force, with
--                      memcpy_to_another_space
--   Descriptor         memory.c: set_segment_desc to init_segmentation; interrupt.c: the gates
--   Number             util.c: atoi; io.c: printnum
--   Console            io.c: the circular buffer, and read_console. Console/Line is what it promises
--   Fs                 fs.c. Fs is memory with the table of files; Fs/Archive is init_fs
--   Elf                elf.h, and load_elf of proc.c
--   Kernel             proc.h: the tasks and the rest of the state. Kernel/Proc is proc.c and the end
--                      of sys_proc.c; Kernel/Frame the frames of a new task; Kernel/User what a
--                      system call reads of user memory; Kernel/Exec register_task, sys_fork and
--                      sys_execv; Kernel/Sched is the kernel as a relation of steps
--   Syscall, SysFile   syscall.c; sys_file.c
--   Uart, Trampoline   what an interrupt of the serial port does (uart.c); trampoline (interrupt.c)
--   Boot               bootc.c
--   Shell              user/sh.c: tokenize
--   User               user/: util.c, and the programs sh, echo, cat, ls, hello and init over the
--                      record Sys of system calls. User/Turn is the shell's loop, User/Programs the others;
--                      User/Keyboard joins read_line and the console's buffer
--   Device             the devices behind a Bus: lapic.c, ioapic.c, and the output of uart.c and io.c
--   Start              main.c: start_memory, start_files, start_tasks, start_devices, show_banner;
--                      start_kernel is their order as far as the kernel's state goes
--   Tests              the theorems at concrete inputs
-- A pointer is the address that the kernel sees through its direct map, a struct task_struct * or
-- struct file * is an index, NULL is 0 or none, and an int or uint32_t is its 32-bit pattern, with
-- the wrap written out. Arrays of structs are functions of the index. Kernel code that reaches user
-- memory goes through the page tables that CR3 names; where they map nothing the result is fault.
-- The disk, the registers of the serial port and the address of ret_to_int_site, a label of
-- int_common.asm, are parameters. So are the devices and the kernel as the user programs see it.
--
-- Bounds and fuel. Loops with a counter recurse on it. register_free_mem has fuel for 2 ^ 20 + 1
-- rounds, one more than there are pages; printnum has 11 for at most ten digits; the loop of
-- schedule is cut after one turn of 1024 tasks, for between two turns nothing changes; load_elf has
-- 2 ^ 16, more than e_phnum can say; init_fs has as many as there are files; read_offset has three
-- rounds more than the size has sectors, which is enough where its places do not wrap at 2 ^ 32. The
-- theorems on them say that this is enough. bootc's loop
-- has 2 ^ 16 for the same reason as load_elf's. tokenize, strlen, strcpy, strcmp, the output
-- functions, read_line, uart_write_byte and a string that is read from user memory take fuel as an
-- argument.
--
-- A step of Kernel/Sched is what happens between two moments at which it is settled which task
-- runs; there is one processor, and interrupts are off in the kernel. The steps for new tasks leave
-- open what is written to memory; Kernel/Sched/Code relates them to register_task and sys_fork.
--
-- Not modelled: assembly; the registers GDTR and IDTR; the messages of main; dump_regs and
-- memset_debug, which nothing calls; what trampoline tells the local controller;
-- the characters that sys_write sends to the console, which the kernel's state does not keep. The
-- kernel's first stack is a result of start_memory, since esp is a register.
pub mod Base
pub mod Ram
pub mod Str
pub mod PageAlloc
pub mod Console
pub mod Number
pub mod Paging
pub mod Fs
pub mod Elf
pub mod Kernel
pub mod Descriptor
pub mod Device
pub mod Syscall
pub mod SysFile
pub mod Uart
pub mod Trampoline
pub mod Start
pub mod Boot
pub mod Shell
pub mod User
pub mod Tests

-- ===== src/Lib.antt =====
-- NutsOS, a kernel for 32-bit x86: a heap, paging, descriptor tables, a terminal, a disk with a
-- FAT16 volume, files, system calls and tasks.
--
-- The parts and the code they model:
-- - Base: numbers, options, lists and bit operations that the other modules share.
-- - Memory: memset, memcpy and memcmp of src/memory/memory.c. Memory is a function from addresses
--   to bytes. Memory/Laws says what the loops do to each address.
-- - Heap: src/memory/heap/heap.c and heap.h, with Heap/Kernel for kheap.c. A heap is its block
--   table and its start. Heap/Scan is about the search of free blocks, Heap/Marks about the entries
--   that are written, Heap/Malloc about allocation and release, Heap/Chained and Heap/Chains about
--   the chains of blocks. Heap/Store joins the heap with the memory that it gives out;
--   Heap/Store/Start is the new heap.
-- - Text: src/stdutil/string.c, with Text/Length, Text/Compare, Text/Copy and Text/Trim.
-- - Disk: src/disk/disk.c and src/disk/stream.c. Disk/Sector is about the command to the drive and
--   the sector that arrives, Disk/Stream about reads that cross sectors; Disk/Search is the disk
--   with its file system.
-- - Fat: the structures of src/fs/fat/fat16.c; Fat/Clusters has the chains of clusters and the
--   reading of a file, Fat/Clusters/Entries, Fat/Clusters/Rounds and Fat/Clusters/Reads the proofs.
--   Fat/Names is about the name of an item, Fat/Items about items counted, loaded and freed,
--   Fat/Directory about items found by name and along a path (Fat/Items/Load about a directory that
--   is loaded), Fat/Volume about fat16_resolve, and Fat/Files about open files.
-- - Path: src/fs/path_parser.c. Path/Parts says what a path means; Path/Extract and Path/Buffer are
--   about one part, Path/Step and Path/Parse about the list, Path/Valid and Path/Whole about the
--   parser.
-- - File: src/fs/file.c, with File/Mode, File/Systems, File/Descriptors and, for fopen,
--   File/Opening.
-- - Paging: src/memory/paging/paging.c, with Paging/Align and Paging/Table. Paging/Fill,
--   Paging/Round and Paging/Build are about the loops of paging_chunk_new, Paging/Identity about
--   the directory that it builds, and Paging/Translate about the address that the processor comes
--   to.
-- - Gdt: src/gdt/gdt.c and the table of segments in src/kernel.c, with Gdt/Encoding.
-- - Idt: src/idt/idt.c, with Idt/Gates for the table, Idt/Traps for the other handlers and
--   Idt/Syscall for isr80h_handler.
-- - Isr80h: src/isr80h, with Isr80h/Commands.
-- - Terminal: src/terminal/terminal.c, with Terminal/Cursor, and Terminal/Messages for the literals
--   that are printed.
-- - Task: src/task/task.c, with Task/State, Task/Queue and, for removal, Task/Queue/Unlink and
--   Task/Queue/Remove; Task/Queue/Turns is about switching from task to task, Task/Start about a
--   new task.
-- - Process: src/task/process.c. Process/Pages is about the pages of a process and the pointers
--   that it may pass, Process/Space about its whole address space, Process/Ends, Process/Load and
--   Process/First about the ways that loading ends. It joins files, tasks and paging.
-- - Kernel: src/kernel.c with src/task/tss.h, over the state of all parts in Kernel/State;
--   Kernel/Phases and Kernel/Boot are about the start, Kernel/First about the first process, and
--   Kernel/Syscall about a system call of a process, whose pointers the processor reads through the
--   directory of the task.
--
-- The drive is a parameter: for a command and the number of a word, the word that arrives. Where a
-- result depends on it, the drive is assumed to hold an image, as the ATA standard has it. The
-- functions of a file system and the path parser are fields of records that the file layer takes, and
-- the task's side of the print command is one that Kernel fills. The
-- addresses of the interrupt handlers are parameters. Page tables and stacks are words, which are
-- kept beside the bytes of memory.
--
-- How the code is modelled: structures that the kernel reaches by pointers are kept by address, 0
-- being the null pointer; 32-bit arithmetic wraps where it is written `% 2 ^ 32`; an int is
-- its word, negative from 2^31 on, and an int result may be a Result where only its sign is used. Positions on the
-- disk and offsets in a file are ints, so the theorems on reads are about what lies below 2 GiB; beyond that the
-- quotients and remainders are negative, and the copy from a sector runs outside its buffer, where the drive is taken to say what stands. A panic, and a read or a link written through a null pointer that
-- the code comes to, is none. Loops over a table are on the number of rounds left. Loops over a
-- string and over sectors and clusters are on fuel: strlen, strcpy and rtrim need more than the
-- length of the string, and so does the path parser; a stream read needs one more than its bytes, a
-- file read one round for each cluster, and a directory one for each item; each theorem says how
-- much it takes, and that the result is then given. A structure that is read from the heap's memory
-- is kept as a record beside its address, with what stood there when it was read.
--
-- Not modelled: the assembly, which loads the processor's registers, and the example program. The
-- file layer takes its file systems and the path parser as records of operations, which the models
-- of both do not fill yet.
pub mod Base
pub mod Memory
pub mod Heap
pub mod Text
pub mod Disk
pub mod Fat
pub mod Gdt
pub mod Paging
pub mod Terminal
pub mod Idt
pub mod Isr80h
pub mod Path
pub mod File
pub mod Task
pub mod Process
pub mod Kernel

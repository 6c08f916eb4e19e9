-- ===== src/Lib.antt =====
-- xv6 for RISC-V with process groups: the kernel's processes with `forkn`, `waitall` and exit
-- messages, the services that they stand on, and user programs.
-- Parts of the program, and the files that model them:
--   Machine.antt: kernel code as a function from a state to a value and a new state, or a panic.
--     Base.antt has the names, lists and arrays that all files share.
--   Str.antt: all functions of kernel/string.c on memories and arrays of bytes, which are
--     functions. Ranges do not run past the end of the address space; a byte is an `unsigned char`.
--   Kalloc.antt: the page allocator of kernel/kalloc.c. The word `r->next` of a free page is kept
--     apart from the bytes of memory. The loop of `freerange` has as fuel one round more than there
--     are pages below its end.
--   File.antt: the reference counts of the file table in kernel/file.c.
--   Vm.antt and Vm/: kernel/vm.c on a memory in which the words of page tables are kept apart from
--     the bytes. The loops of `mappages`, `uvmunmap` and `uvmalloc` run over the pages that are
--     left, those of `copyout` and `copyin` over the bytes, of which each round copies one at
--     least; `freewalk` descends the three levels.
--   Log.antt and Log/: the redo log of kernel/log.c. A block of the disk is a value, and the header
--     block is kept apart. The device writes one block at a time and may stop behind any write: the
--     state counts the writes that still reach the disk. The buffer cache (kernel/bio.c) is the
--     function that gives what `bread` finds.
--   Bio.antt and Bio/: the buffer cache of kernel/bio.c with its doubly linked list, of which
--     Bio/Ring.antt says what stands in the links. A scan of the list has as fuel a round for each
--     buffer and one for the head. What other processes do while a call waits for the lock of a
--     buffer is a list of functions, one for each sleep. The log and the file system do not call
--     this model: they see a buffer as the block that it holds.
--   Fs.antt and Fs/: kernel/fs.c inside a transaction, so that `bread`, `log_write` and `brelse`
--     read and write a block. The bits of the free map, the inodes on the disk, the bytes of a
--     block and the numbers of an indirect block are functions kept apart. A path is the list of
--     its bytes; a round of `namex` takes a byte off it at least. A process waits for no sleep lock
--     here: to lock an inode twice panics. Fs/Open.antt has `filestat`, `fileread` and `filewrite`
--     of kernel/file.c on top of it; `readi` gives each byte with the address that it goes to;
--     `filewrite` runs with the log in front, of which it counts the operations; its loop writes a
--     byte at least in a round that goes on.
--   Sysfile.antt and Sysfile/: the system calls of kernel/sysfile.c and `pipealloc` of
--     kernel/pipe.c, on the descriptors of one process, the file table of File.antt and the file
--     system of Fs.antt; of the log, only the number of operations that have not ended. `kalloc`,
--     `copyout` and `pipeclose` are arguments, which act on a state of their own.
--     Sysfile/Counts.antt says what it is for the file table to count its references. A call that
--     returns, in the statements on all of them, is one in which no part of the kernel panics.
--   Exec.antt and Exec/: kernel/exec.c, `proc_pagetable` and `proc_freepagetable` of kernel/proc.c,
--     and `sys_exec` of kernel/sysfile.c, on the memory of Vm.antt and the state of Sysfile.antt.
--     The loops run over the program headers, the pages of a segment and the arguments, of which
--     there are at most MAXARG: the loop that fetches them has a round more. A string of more than
--     a page, which `sys_exec` never hands on, panics.
--   Pipe.antt: kernel/pipe.c. What other threads do while a call sleeps is a list of functions on
--     the state, one for each sleep; a call that still sleeps at the end of the list is `asleep`.
--   Console.antt: the line editor of kernel/console.c, with its 32-bit indices; what others do
--     while `consoleread` sleeps is a list of functions as for pipes.
--   Proc.antt and Proc/: the process table of kernel/proc.h and kernel/proc.c, with the locks of
--     kernel/spinlock.c as one CPU sees them (Proc/Locks.antt): Proc/Alloc.antt (`allocpid`,
--     `allocproc`, `freeproc`), Proc/Signal.antt (`wakeup`, `kill`, `setkilled`, `killed`),
--     Proc/Sched.antt (`sched`, `yield`, `sleep`, `scheduler`), Proc/Fork.antt (`fork`, `forkn`),
--     Proc/Wait.antt (`wait`), Proc/Waitall.antt (`waitall`), Proc/Exit.antt (`exit`, `reparent`).
--     The code calls the page allocator, the page tables, the file system, the log and the pipes
--     through the record `Services`, of which no law is assumed: what a theorem needs of a call is
--     among its hypotheses. The file table is that of File.antt and the strings those of Str.antt.
--   Grep.antt: the matcher of user/grep.c, on lists of bytes.
--   Ulib.antt: `strcpy`, `strcmp`, `strchr`, `gets`, `atoi` and `memmove` of user/ulib.c.
--   Print.antt and Print/: user/printf.c. The loop of `printint` has the 16 places of its array as
--     fuel, which are more than the digits of 32 bits in base 10 or 16.
--   Sh.antt and Sh/: the command parser of user/sh.c on the rest of the line. Its loops have as
--     fuel the length of what is left, and its functions, which call one another, the depth of the
--     calls, for which three per byte of the line are enough. Sh/Syntax.antt has the sentences of
--     the command language and what they mean.
-- Every operation is a function of the state, by structural recursion on the entries that are left
-- in a scan. `wait` and `waitall` go round once for each sleep that the list of switches allows;
-- `scheduler` is cut off after a number of passes.
-- Not modelled: other CPUs, interrupts and the saved interrupt flag; the hardware and its drivers
-- (kernel/uart.c, kernel/plic.c, kernel/virtio_disk.c), boot code and assembly; the kernel's own
-- page table, traps and the dispatch of system calls; of user/ all but the matcher, ulib.c,
-- printf.c and the shell's parser; mkfs/.
pub mod Base
pub mod Bio
pub mod Console
pub mod Exec
pub mod File
pub mod Fs
pub mod Grep
pub mod Kalloc
pub mod Log
pub mod Machine
pub mod Pipe
pub mod Print
pub mod Proc
pub mod Sh
pub mod Str
pub mod Sysfile
pub mod Ulib
pub mod Vm

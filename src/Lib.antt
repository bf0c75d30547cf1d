-- ===== src/Lib.antt =====
-- A verification library for xv6 with a system-call tracer.
--
-- The program is the teaching kernel xv6 for 32-bit x86 (xv6_src/kernel), to which a tracer of
-- system calls was added. A process switches its tracing on with the call `strace`; from then on
-- `syscall` records each of its calls, subject to the options, with a line on the console and a
-- message in a ring of ten arrays, which user programs read back with `dump`. Below that lie the
-- parts of the kernel that the calls go through: their arguments, the table of processes, open
-- files and pipes, the allocator of pages, and the write-ahead log under the file system.
--
-- The files, with the code that each of them models:
--
-- Base: shared names, Boolean tests on numbers, lists over native numbers, how often a number
--   stands in a list, functions that change at one place. Nothing of it models code.
-- Text: the string functions of xv6_src/kernel/strace.c (strcat, streq, reverse, itoa), strlen of
--   xv6_src/kernel/string.c and atoi of xv6_src/user/ulib.c. A string is an array of bytes of a
--   fixed size, `none` an access outside it. Text/Number holds itoa and atoi.
-- Bytes: the routines on memory of xv6_src/kernel/string.c, on a byte for each address.
-- Trace: the tracer's state, the globals of xv6_src/kernel/strace.c, and the call table of
--   xv6_src/kernel/syscall.c. Trace/Message is write_trace, Trace/Ring is store_trace with the
--   block of record_syscall around it and dump, set_call_flag and set_options of
--   xv6_src/kernel/proc.c; Trace/Record is record_syscall with its options; Trace/Dispatch is
--   syscall itself and the tracer's calls of xv6_src/kernel/sysproc.c. A call that the tracer does
--   not own is a parameter: a function on the state that may change anything, or not return.
-- Args: fetchint, fetchstr, argint, argptr and argstr of xv6_src/kernel/syscall.c.
-- Memory: xv6_src/kernel/kalloc.c. The free list runs through the memory of the free pages, as in
--   the code. The address `end` is a parameter, set by the linker.
-- Files: filealloc, filedup and fileclose of xv6_src/kernel/file.c, pipealloc of
--   xv6_src/kernel/pipe.c, fdalloc, argfd, sys_dup, sys_close, sys_pipe and the end of sys_open of
--   xv6_src/kernel/sysfile.c, and the loops over descriptors in fork and exit. A pointer to a file
--   is its index; what the end of a last reference leaves to do is a list.
-- Procs: allocproc, fork, exit, wait, sleep, wakeup, kill, yield and the choice of the scheduler of
--   xv6_src/kernel/proc.c, each as a function on the table; Procs/Cpus makes them the steps of a
--   relation over several CPUs.
-- Cache: the list of buffers of xv6_src/kernel/bio.c, in the order of their release; a chain
--   through prev and next is a list, and a buffer is known by its place in the array.
-- Console: consoleintr and consoleread of xv6_src/kernel/console.c, the first one character at a
--   time.
-- Grep: the matcher of xv6_src/user/grep.c on the characters before the NULs.
-- Locks: xv6_src/kernel/spinlock.c, with the steps of acquire as steps of several CPUs.
-- Log: xv6_src/kernel/log.c over the disk and the cached buffers of xv6_src/kernel/bio.c. A crash
--   is a prefix of the writes to the disk, with the cache lost.
-- Fs: xv6_src/kernel/fs.c over the disk as a transaction sees it, a block for each number: bread
--   reads it, and log_write behind a change of the buffer writes it. Fs itself is the map of free
--   blocks, Fs/Inode the inodes on the disk, Fs/Content the bytes of a file with bmap, itrunc, readi
--   and writei, Fs/Icache the cache of inodes, and Fs/Directory directories and path names. The
--   table of devices is a parameter, which says what devsw has. A pointer to an inode is the index
--   of its entry in the cache, and a call that sleeps for a lock answers that it sleeps.
-- Shell: the parser of xv6_src/user/sh.c. A pointer into the line is the characters from it on, and
--   a command is a tree, in which a string is two such pointers. Shell/Grammar is the grammar of
--   lines that Shell/Reads compares the parser with; it models no code.
-- Pipe: xv6_src/kernel/pipe.c. A call that sleeps is modelled up to the sleep, and goes on, when it
--   is woken, as a run from the head of its loop.
--
-- The parts meet where the code's do: the messages of Trace are built by the functions of Text,
-- the counts of the pages and of the references are counts of lists from Base, and the answers of
-- kalloc are arguments of the functions of Files and Procs.
--
-- A critical section under a lock is one step here; the locks themselves are modelled in Locks. Two
-- steps are longer than that: record_syscall holds no lock in the code, so calls that are traced on
-- two CPUs at once can mix there, and iput gives up the lock of the inode cache while it frees the
-- blocks of an inode. A call of Fs is part of a transaction that the log has room for: the panic of
-- log_write at a transaction that is too big is in Log, and not in Fs. An unsigned
-- number of 32 bits keeps its wrap-around. The counts of references and the pids count without bound,
-- as they stay far from the limit of `int`.
--
-- Loops are recursion on their data or on a count. The exceptions run on fuel: itoa on 32 digits,
-- as its argument has 32 bits; reverse on the length of its string, as each round drops two
-- characters; freerange on one round for each page of the address space below its end, and one
-- more; the erasing of a line of the console on one round more than its buffer has bytes; balloc on
-- one round for each block of the map, and one more; and readi and writei on one round for each byte,
-- as each round moves at least one; and namex on one round for each character of the path, and one
-- more, as each round takes off an element. The parser of the shell shares one fuel of the length of
-- the line and three among its functions, as each of them takes a character before it is called again.
--
-- Not modelled: the drivers, interrupts and start-up code, which only move data to and from
-- devices; page tables, exec and the trap frame; the calls of sysfile.c on names; printing and the
-- keyboard; the other user programs, the running of commands by the shell, and the tests; and the
-- tool that writes the image of the disk.
pub mod Base
pub mod Shell
pub mod Text
pub mod Trace
pub mod Args
pub mod Memory
pub mod Console
pub mod Files
pub mod Fs
pub mod Bytes
pub mod Cache
pub mod Grep
pub mod Locks
pub mod Log
pub mod Pipe
pub mod Procs

-- ===== src/Lib.antt =====
-- A verification library for the xv6 kernels of this repository. Three copies of xv6 stand beside
-- each other; the library follows xv6-public_2, which adds signals, control keys and a priority
-- scheduler, and whose log, pipes and string routines are those of the other two.
--
-- The parts and how they interact:
--
-- * Log.antt models xv6-public_2/log.c: `Fs` is `struct log` with the disk and the buffers that
--   are pinned; begin_op, log_write, end_op, commit and recover_from_log are functions of the same
--   names. The file system brackets its calls of log_write by begin_op and end_op; the last end_op
--   commits. A crash is any disk in `past`, which every block write extends. Log/Words.antt treats
--   the header block, Log/Disk.antt the disks of one transaction, Log/Recovery.antt a restart,
--   Log/Commit.antt commit, Log/Entries.antt log_write, Log/Space.antt the reservations, and
--   Log/Room.antt which calls of log_write panic for want of room.
-- * Proc.antt models xv6-public_2/proc.h and proc.c: `Proc` is `struct proc`, `Kernel` the table
--   with the variables of the file. Proc/Table.antt reads and writes slots, Proc/Life.antt has
--   allocproc, fork, custom_fork, exit and wait, Proc/Wake.antt has sleep, wakeup, kill, yield and
--   sys_scheduler_start, Proc/Sched.antt the loop of scheduler in two halves, before and after the
--   switch. Proc/Signal.antt has the signal calls, with what syscall of syscall.c does to the
--   answer of sys_sigreturn, and the end of trap in xv6-public_2/trap.c, and Proc/Keys.antt the
--   control keys of xv6-public_2/console.c. exit and Ctrl-B use wakeup1. Below Proc/Life stand the
--   proofs: Pids, Alloc, Spawn, ExitPids and Steps for the process ids, Exit for the children of a
--   process that is gone, Reuse for what a child gets. Below Proc/Sched, Turn puts a round of the
--   scheduler, a run and yield together, and Fair treats waiting over many turns.
-- * Pipe.antt models xv6-public_2/pipe.c, with Pipe/Window.antt for the bytes between the counters
--   and Pipe/Fifo.antt for reading and writing.
-- * Cache.antt models xv6-public_2/bio.c: binit, bget and brelse on the list of buffers, most
--   recently used first. Cache/Unique.antt is about the buffers of one block, Cache/Victim.antt
--   about the buffers that a get takes. Log.antt sees of the cache only the buffers that are
--   pinned.
-- * File.antt models xv6-public_2/file.c without fileread and filestat, with File/Refs.antt for
--   the reference counts and File/Pieces.antt for the loop of filewrite. fork and exit in
--   Proc/Life.antt use of it only the counts.
-- * Disk.antt models the free map and the data blocks of xv6-public_2/fs.c with bzero, balloc and
--   bfree; Disk/Bits.antt treats the bits of the map, Disk/Search.antt the search,
--   Disk/Blocks.antt the two operations, Disk/Count.antt the number of free blocks and
--   Disk/LogRoom.antt the room that calls of log_write take in the header of the log. Over the
--   disk log_write only notes the block; its panic is `log_fits` of the blocks noted, which
--   Log/Room.antt shows to be that of log.c, and writei_in_log of Inode.antt is writei with that
--   panic. The other operations on inodes are modelled for a log with room.
-- * Inode.antt models bmap, readi, writei and iupdate of fs.c over Disk.antt, and Inode/Trunc.antt
--   itrunc. Inode/Mapped.antt says what a well-formed file is, and which byte it has where. The
--   proofs follow the code: Words, Growth, Bmap and Fails for bmap, ReadLoop and Contents for
--   readi, Put, Bytes, WriteLoop, Extend and LogRoom for writei, and FreeAll, Direct, Whole and
--   Emptied below Inode/Trunc.
-- * Dir.antt models namecmp, dirlookup and dirlink of fs.c over readi and writei, with
--   Dir/Names.antt for the names of entries, Dir/Scan.antt for the search and Dir/Link.antt for a
--   new entry.
-- * Args.antt models the fetching of arguments in xv6-public_2/syscall.c, and of sysfile.c argfd,
--   fdalloc, sys_dup and sys_close, on the processes of Proc.antt. Args/Fetch.antt,
--   Args/Within.antt and Args/Descriptors.antt treat what is accepted, what memory is read, and
--   the descriptors.
-- * Paging.antt models walkpgdir and mappages of xv6-public_2/vm.c, with Paging/Tree.antt for
--   well-formed tables, Paging/Walk.antt for the walk, Paging/Maps.antt for one page and
--   Paging/Ranges.antt for the loop. The pages that kalloc gives are a list; physical addresses
--   are without bound. Paging/User.antt models deallocuvm: below it Space says when no physical
--   page has two uses and treats the release of one page, Unmapped says what a cleared range is,
--   and Dealloc follows the loop.
-- * Lock.antt models xv6-public_2/spinlock.c: a cpu is its interrupt flag with the nesting fields
--   of struct cpu and a point of acquire, holding or release, and `Move` is one access to the
--   lock. Steps of all cpus interleave. Lock/Nesting.antt treats pushcli and popcli,
--   Lock/Moves.antt one move and Lock/Exclusion.antt the reachable states. Lock/Sleep.antt models
--   xv6-public_2/sleeplock.c on the process table with sleep and wakeup of Proc/Wake.antt, and
--   Lock/Sleep/Wakeups.antt who wakes whom.
-- * Icache.antt models the inode cache of xv6-public_1/fs.c (iget, idup, ilock, iupdate, iput,
--   ialloc) with the permission bits of that kernel: chmod_actual of exec.c, and the tests of
--   exec, sys_read and sys_write. Icache/Lookup.antt treats the loop of iget, Icache/Entries.antt
--   the change of one entry, Icache/Coherent.antt the calls in any order, and Icache/Chmod.antt
--   what chmod leaves.
-- * Login.antt models login of xv6-public_1/init.c with gets and strcmp of ulib.c, and
--   Login/Sessions.antt says which inputs log in.
-- * Print.antt models printf of xv6-public_2/printf.c, cprintf of console.c and atoi of ulib.c;
--   Print/Numbers.antt treats the digits, Print/Formats.antt the two loops over a format.
-- * Memprint.antt models the memory printer of xv6-public_3 in vm.c, proc.c and console.c over the
--   page tables of Paging.antt; Memprint/Pages.antt treats its counts and Memprint/Numbers.antt
--   its numbers.
-- * Path.antt models skipelem of xv6-public_2/fs.c, and Path/Split.antt says what it splits.
-- * Pages.antt models xv6-public_2/kalloc.c, and Pages/Owners.antt who owns a page.
-- * Line.antt models the input buffer of xv6-public_2/console.c, its editing keys and consoleread,
--   with Line/Order.antt for the order of the indices and Line/Bounds.antt for the bytes to be
--   read.
-- * Gate.antt models the blocking of system calls in xv6-public_1/exec.c, sysproc.c and syscall.c,
--   and Gate/Blocking.antt what the calls block and unblock do to later calls.
-- * History.antt models the process history of xv6-public_1, in proc.c and exec.c, and
--   History/Sorting.antt treats its sort.
-- * Str.antt models xv6-public_2/string.c with the two inline functions of x86.h that it uses;
--   addresses are numbers without bound, and a memory is a function from addresses to bytes.
-- * Grep.antt models the matcher of xv6-public_2/grep.c, and Grep/Language.antt says which strings
--   a pattern describes.
-- * Base.antt has the shared names, Base/Lists.antt lists over the native numbers, Base/Int.antt
--   integers, Base/Loops.antt the counting loop with its invariant lemma, Base/Sums.antt sums.
--
-- Bounds and fuel: loops over tables and lists are by recursion on these, and for loops with a count
-- by recursion on the count. The loops of readi and writei, and over directory entries, have as many
-- rounds as there are bytes, and balloc as many as there are blocks, which is never fewer than they
-- take. Three loops take fuel: that of strlen, to be above the length of the string; that of
-- filewrite, to be above the number of bytes; and that of freerange, to be above the number of
-- pages. deallocuvm takes one round more than there are pages of 4096 bytes below 2 ^ 32, the digits
-- of a number at most 32 rounds, and login three. Ctrl-U has as many rounds as there are bytes to
-- edit. The counters of pipes and of the input buffer wrap at 2 ^ 32. Process ids, ticks, priorities
-- and file offsets are without bound.
--
-- Not modelled: interrupt handlers and the order in which cpus see each other's writes (outside
-- Lock.antt a function stands for the stretch of code that runs under the lock), the kernel context
-- of a process, the contents of user pages, path lookup beyond skipelem, device files, the disk
-- transfers of the buffer cache but in the log, and the parts of the repository that no file above
-- names. The results of kalloc, copyuvm and namei are arguments of the models that use them, none or
-- 0 where they fail. One block write to the disk is atomic. The free map stands apart from the data
-- blocks, as mkfs.c lays them out, and there is one disk.
pub mod Base
pub mod Args
pub mod Cache
pub mod Dir
pub mod Disk
pub mod File
pub mod Gate
pub mod Grep
pub mod History
pub mod Icache
pub mod Inode
pub mod Line
pub mod Lock
pub mod Log
pub mod Login
pub mod Memprint
pub mod Pages
pub mod Paging
pub mod Path
pub mod Pipe
pub mod Print
pub mod Proc
pub mod Str

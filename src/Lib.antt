-- ===== src/Lib.antt =====
-- The kernel of a teaching operating system for x86 (xv6, with the system calls that a course's lab added
-- to it), modelled source file by source file.
--
-- A user program's trap reaches syscall (syscall.c), which counts the call, and runs a function of
-- sysproc.c or sysfile.c; these fetch their arguments from user memory and work on the process table
-- (proc.c), on open files (file.c), which are pipes (pipe.c) or inodes over the redo log (log.c), and on
-- pages of memory (kalloc.c). string.c has the byte routines below all of them.
--
-- Prelude: the native numbers, tests on them, arrays as lists, bags, integers.
-- Str (string.c, and the string stores of x86.h): the routines over a byte memory, as functions from a
--   memory to a memory; strlen has fuel, and more fuel than the string is long is enough.
-- Proc (proc.c, proc.h): Proc.Table the record `struct proc` and the loops over ptable, Proc.Kernel the
--   state of proc.c and, as an interface, the calls that it makes of kalloc.c, vm.c, file.c, log.c and
--   fs.c, Proc.Life allocproc, userinit, growproc, fork and exit, Proc.Wait wait and sleep, Proc.Signal
--   wakeup, kill, yield and the scheduler's choice, Proc.Lab find_next_prime_number, getMostCaller and
--   waitForProcess, and Proc.Machine all of them as the steps of several CPUs. A critical section under
--   ptable.lock is one step; a process goes on only while a CPU runs it. The search for a prime
--   has fuel, of which the distance to some larger prime is enough.
-- Log (log.c, and bwrite of bio.c): the log's record, the disk and the cache. Every write of a block
--   spends one unit of `power`, and behind the last one the machine stops; so a theorem for every power is
--   one for every point at which the machine may crash. A write of one block is atomic. Log.Recover has
--   commit and recovery, Log.Ops the critical sections of begin_op, log_write and end_op in any order, and
--   Log.Short the log that is as long as mkfs makes it.
-- Pipe (pipe.c): the ring with its 32-bit counters, the open ends, and who sleeps on them. Pipe.Ring
--   relates it to a queue of bytes; Pipe.Stream has the calls on the queue, Pipe.Sleepers sleep and wakeup.
-- File (file.c): the table of open files with its reference counts.
-- Kalloc (kalloc.c): the free pages, linked through their first words; freerange has a round for each page
--   below its end as fuel.
-- Lock (spinlock.c): one lock over all CPUs, with the rounds of acquire's loop as steps of their own.
-- Sys (syscall.c, and a part of sysproc.c): the fetching of arguments with its 32-bit arithmetic, and the
--   dispatch with the call counters. Sizes of user memory are at most KERNBASE, as vm.c keeps them.
--
-- Console (console.c): the ring of the typed line, the functions that print, and in Console.Screen the words
--   of the display with the cursor; Console.Ring, Console.Line and Console.Reader relate the ring to the list of the
--   characters that are ready and of those that are edited, Console.Screen.Zipper the display to the
--   characters on both sides of the cursor. The loop that kills a line has 128 rounds, the size of the ring.
-- User (ulib.c, printf.c): strings, gets, atoi and printf of the user programs.
-- Fs (fs.c): the bitmap of blocks (Fs.Search, Fs.Alloc), the map of a file's blocks (Fs.Map, Fs.Grow, Fs.Bmap), its bytes
--   (Fs.Read, Fs.Write, Fs.Rounds, Fs.Stores, Fs.Contents) and path names (Fs.Path). The blocks are those that the
--   buffer cache shows inside of one transaction that has room for what is written: the calls of log_write,
--   with its panic in a transaction that is too large, and of iupdate are left out. Other panics are
--   `none`. The loops of readi and writei have n rounds as fuel, and each round moves at least one byte.
-- Bio (bio.c, iderw of memide.c, and the locks of sleeplock.c): the cache of blocks with its list in the order of use; Bio.Search has the
--   two searches of bget, Bio.View, Bio.Recycle and Bio.Ops the contents of the blocks as the clients see them, Bio.Blocks
--   and Bio.Writes bread and bwrite. bget and bread panic, wait for the sleep lock of a buffer or give the locked
--   buffer; elsewhere a panic is `none`.
-- Grep (grep.c): the matcher of regular expressions (Grep.Matcher) and the loop over the lines (Grep.Text, Grep.Lines).
--   strchr of ulib.c stops at a NUL.
--
-- In the other parts a critical section under a lock is atomic.
--
-- Not modelled: the inode cache and the directories of fs.c, vm.c, exec.c, sysfile.c, umalloc.c, the
-- sleepers on a sleep lock, the devices, the start of the machine, and the user programs other than grep.
pub mod Prelude
pub mod Str
pub mod Proc
pub mod Log
pub mod Pipe
pub mod File
pub mod Kalloc
pub mod Lock
pub mod Sys
pub mod Console
pub mod User
pub mod Fs
pub mod Grep
pub mod Bio

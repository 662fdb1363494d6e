-- ===== src/Lib.antt =====
-- Models of the core of a 64-bit xv6 kernel and of some of its user programs, with theorems about them.
--
-- Parts of the program, from the disk up, and the files that model them:
--
-- - memide.c and bio.c, the disk and the buffer cache: Bcache.antt. The cache is its list of buffers from
--   most to least recently used (bcache.head). bget, bwrite, brelse and iderw keep their names; fill is
--   bread once it has its buffer. Keys is about the blocks in the cache, Contents about their bytes.
-- - log.c, the write-ahead log over the cache: Log.antt. A Machine is the disk, the blocks as the cache
--   shows them, struct log, and a power: how many more disk writes take effect before a crash. Commit and
--   Recovery are about whole runs, Crash about runs that are cut off, Space about the reservations of
--   begin_op under any interleaving of operations, Bound about the size that mkfs.c gives the log.
-- - fs.c, its block layer: Blocks.antt. A Volume is the bitmap as bits and the blocks as words. readi and
--   writei are in Blocks/Content.antt, over the bytes of these words: the blocks that an inode owns are its
--   places, and a file is the function from offsets to the bytes at its places.
-- - fs.c, its inode cache: Inodes.antt. The inodes on disk are a function from their numbers, and each call
--   is one step under the lock of the cache; iput gives that lock up to truncate an inode, and is modelled
--   where no other process comes between. Held is about the locks of single inodes.
-- - fs.c, its directories: Directories.antt, on readi and writei for the entries and iget and iput for the
--   inodes. A directory stands for a map from names to inode numbers: that of the first entry with the
--   name.
-- - fs.c, skipelem: Paths.antt; namex: Walk.antt, as one process runs it. Course is the way that a
--   walk takes, Ends says that it comes to its end.
-- - file.c: Files.antt. The table is a function from places; writei is a parameter of filewrite.
-- - pipe.c: Pipe.antt. A run of pipewrite or piperead ends where it returns or sleeps, and goes on as the
--   same loop on what is left. Fifo is about the ring, Wakeups about a reader and a writer as steps.
-- - console.c, its input side: Console.antt. Editing is about consoleintr, Reading about consoleread.
-- - proc.c: Proc.antt. The table is a function from slots; processes are slots, parents are slots. fork
--   gives up the lock after allocproc: the steps of Pids are allocproc and the rest of fork. Pids,
--   Family and Killing are about process numbers, exit and wait, and kill.
-- - spinlock.c and sleeplock.c: Locks.antt. acquire and release are cut at each access to the lock;
--   Exclusion interleaves them on any number of CPUs. sleeplocks use wakeup of Proc.antt.
-- - kalloc.c: Kalloc.antt. The free list stands in the free pages, as in the code.
-- - string.c: KernelString.antt, over memory as a function from addresses.
-- - coroutine.c: Coroutine.antt. swtch is the transfer that an operation hands back.
-- - sh.c, the parser: Sh.antt. A pointer into the line is the list of characters from there on.
-- - ulib.c and printf.c: UserLib.antt; grep.c: Grep.antt; wc.c: Wc.antt. Strings are lists of characters
--   before the NUL.
--
-- Base.antt passes on the library's names and has the Boolean tests, lists, stores and integers that the
-- parts share.
--
-- How the parts interact: Log writes through bwrite of the cache, so its disk changes only by that; exit,
-- wait, pipes and sleeplocks use sleep and wakeup by the address of what they wait for; filewrite runs each
-- chunk in a transaction of Log; dirlookup and dirlink read and write the contents of a cached inode, whose
-- blocks the block layer finds; namex locks, searches and drops the inodes on its way.
--
-- Conventions. A panic, a fault or a failed search is none, or a constructor of the result where a search
-- can also run out of its rounds. Unsigned counters wrap (% 2 ^ 32), and a comparison of C ints on
-- a bit pattern is written out; nextpid, reference counts and the counts of wc wrap too. A lock that only
-- makes a call atomic is left out, and the call is one step.
--
-- Bounds and fuel. Scans of tables run over their length: NPROC, NFILE, NBUF, NINODE, sb.size. freerange
-- visits at most one page for each page of its range. strlen is given the bytes to search, and the theorems
-- say which are enough. kill_line has the 128 rounds of the ring. dec_loop has the 16 places of its buffer,
-- of which an int needs at most 10. filewrite has as many rounds as bytes, and each round writes at least
-- one; so do the loops of readi and writei, and the scan of a directory has as many rounds as the directory
-- has bytes. walk has a round for each character of its path and one more. The parser gets four rounds for
-- each character and four more: of its calls, at most four in a row read no character. find_last
-- is given more rounds than the list is long. power of Log is any number, so a crash is anywhere.
--
-- Not modelled: hardware (ide.c, lapic.c, ioapic.c, mp.c, uart.c, kbd.c, the boot code), assembly, page
-- tables and exec (vm.c, exec.c), devices as files, the system calls on files (sysfile.c), the commands
-- that the shell runs, malloc, and the programs that only make system calls. Kernel stacks, trap frames and
-- page directories are arguments of the process operations. Memory ordering between CPUs is that of the
-- steps.
pub mod Base
pub mod Bcache
pub mod Blocks
pub mod Console
pub mod Coroutine
pub mod Directories
pub mod Files
pub mod Grep
pub mod Inodes
pub mod Kalloc
pub mod KernelString
pub mod Locks
pub mod Log
pub mod Paths
pub mod Pipe
pub mod Proc
pub mod Sh
pub mod UserLib
pub mod Walk
pub mod Wc

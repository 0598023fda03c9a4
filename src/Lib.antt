-- ===== src/Lib.antt =====
-- Parts of an xv6 kernel for x86 (HW2/src), of a second one with shared memory (HW3/xv6-src), and
-- of a small shell (HW1/hwsh.c), as functions on explicit state.
--
-- The kernel keeps its files on a disk behind a redo log. A file system call brackets its work by
-- `begin_op` and `end_op`, tells the log of each block that it changes, and the last `end_op`
-- commits. Below the log a cache keeps copies of blocks in memory; above it are inodes,
-- directories, path names and open files. Processes live in a table of 64 entries, from which the
-- scheduler takes them; they block by `sleep` on a channel and are woken by `wakeup`. Pipes are the
-- kernel's channel of bytes between processes and block by the same two calls; a process sees pipes
-- and inodes through open files. The second kernel lets processes map the same pages by a key. User
-- programs print by their own `printf`, and `grep` matches lines. The shell reads a line, parses it
-- to a tree of commands and runs the tree.
--
-- Log.antt is HW2/src/log.c: `struct log` with the view that the buffer cache gives of each block,
--   the disk, and the earlier states of the disk, of which a crash leaves one. A block is a
--   function from word numbers to words; word 0 of the header block is `n`. Log/Disk, Log/Loops and
--   Log/History are about block writes and the copying loops, Log/Stages and Log/Crash about
--   `commit`, Log/Recover about `initlog`, Log/Absorb about `log_write`, Log/Session and Log/EndOp
--   about file system calls that interleave. Disk writes of one block are taken as atomic.
-- Cache.antt is HW2/src/bio.c, sleeplock.c and memide.c: the buffers, the list that orders them by
--   use, their locks, and a disk in memory. The doubly linked list is a list of places, the first
--   at `head.next`. A section under `bcache.lock` is one step, and `bget` is two: up to
--   `acquiresleep`, and `acquiresleep` itself, which is taken again while the lock is held.
--   `brelse` is two as well: up to `releasesleep`, and the section that drops the reference.
--   Cache/Order is about the searches, Cache/Steps states what processes do, Cache/Unique the
--   invariant, Cache/Change, Cache/Requests, Cache/Transfer and Cache/Coherent are about each step,
--   and Cache/Bread about `bread`. A user of the cache changes the contents of a buffer only while
--   it holds the lock, and then calls `bwrite` or `log_write`.
-- Blocks.antt is `balloc`, `bzero` and `bfree` of HW2/src/fs.c, on the bytes of blocks, with the
--   masks of one bit as functions of the bit's number. The outer loop of `balloc` runs on fuel:
--   size / 4096 + 1 blocks of the bitmap. Blocks/Bits is about the bitmap as a set, Blocks/Alloc
--   about `balloc`.
-- Content.antt is `bmap`, `itrunc`, `readi`, `writei` and `iupdate` of HW2/src/fs.c, on the bytes
--   of blocks, with the array of the inodes on disk apart from them and the routines of devices as
--   a parameter. A round of `readi` or `writei` handles at least one byte, and the loops run on
--   fuel: the number of bytes. Content/Entries is about the words of an indirect block,
--   Content/Slots, Content/Grow and Content/Bmap about the blocks of an inode, Content/Room and
--   Content/Enough about the free blocks that a write takes, Content/Io holds `readi` and `writei`,
--   Content/Blit, Content/Write, Content/Read, Content/Files and Content/Overwrite are about the
--   bytes of a file, Content/Freed and Content/Truncate about `itrunc`.
-- Directory.antt is `dirlookup` and `dirlink` of HW2/src/fs.c, on the list of the entries of a
--   directory, whose inode numbers are the low 16 bits of what is stored; Directory/Lookup is about
--   what is found.
-- Names.antt is `skipelem`, `namex`, `namei` and `nameiparent` of HW2/src/fs.c, over a tree of
--   directories that does not change during the lookup, with the list of the calls `iget`, `idup`,
--   `iput`, `ilock` and `iunlock`. The loop runs on fuel: length of the path + 1, as each round
--   takes a character. Names/Elements is about path elements, Names/Walk about what is found,
--   Names/Balance about the calls.
-- File.antt is HW2/src/file.c: the table of open files with its reference counts, and reading and
--   writing over an interface to pipes, inodes and the log, whose laws say what `writei` does to
--   the contents where the write is in range and the disk has room; File/Inodes fills it by the
--   `writei` and `readi` of Content.antt, where `begin_op`, `end_op`, `ilock` and `iunlock` change
--   nothing that the process sees. The loop of `filewrite` runs on fuel: the number of bytes, as a
--   round writes at least one. File/Handles and File/Table are about the counts, File/Write about
--   `filewrite`.
-- Proc.antt is HW2/src/proc.c, and `safestrcpy` of HW2/src/string.c: `ptable`, `nextpid` and
--   `initproc`, and one function for each call or part of a call between two points where
--   `ptable.lock` is released or kept across a switch. What other parts of the kernel return
--   (`kalloc`, `copyuvm`, `setupkvm`, `namei`) are arguments, and what is called in them is listed
--   in the result. Proc/Invariant, Proc/Blocking, Proc/Lifecycle and Proc/Exit are about the
--   operations, Proc/Steps about their interleavings. `allocproc` is two steps, as it releases
--   `ptable.lock` before it asks for a stack. `nextpid` wraps as a word of 32 bits; pids repeat
--   after that, and interleavings are followed up to the wrap of the `int`.
-- Pipe.antt is HW2/src/pipe.c: a pipe with its counters modulo 2^32 and the processes that sleep on
--   its two channels. A stretch of `pipewrite` or `piperead` runs under the lock of the pipe up to
--   a sleep or the return. Pipe/Window is about the bytes in the pipe, Pipe/Write and Pipe/Read
--   about stretches, Pipe/Fifo and Pipe/Wakeup about their interleavings.
-- Kalloc.antt is HW2/src/kalloc.c: the free list, threaded through a memory of words. `end`, which
--   the linker sets, is an argument. Kalloc/Chain is about the list, Kalloc/Calls about one call,
--   Kalloc/Owners about who owns a page.
-- Shared.antt is the shared memory of HW3/xv6-src/vm.c: `mapSharedRegion`, `allocSharedVM`,
--   `deallocProcSharedVM` and `deallocProcAllSharedVM`, with the regions, what each process refers
--   to, and the depth of `pushcli`. Page tables are the interface `Paging`: an entry for each page
--   address, and what `mappages` of one page does; Vm/Interface is an instance of it. A call is one
--   step: the code holds no lock across it, and none at all around `refCount` and `valid`, so that
--   a call which a timer interrupt or another processor lets run in between is not followed.
--   Shared/Counts, Shared/Refs and Shared/Freed are about the reference counts, Shared/Layout about
--   where a region is mapped, Shared/Failure about requests that run out of memory.
-- Vm.antt is `walkpgdir`, `mappages` and `deallocuvm` of HW3/xv6-src/vm.c: a page directory and its
--   tables in the words of Kalloc.antt's memory, with addresses as the kernel sees them. `mappages`
--   runs on fuel: the number of pages; `deallocuvm`: oldsz / 4096 + 2, as each round is at a later
--   page, and its loop gives `none` where the fuel runs out. Vm/Or is about flags, Vm/Zeroed about
--   cleared pages, Vm/Tables says what a directory is, Vm/Adds and Vm/Walk are about `walkpgdir`,
--   Vm/Stored, Vm/Map and Vm/Range about `mappages`, Vm/Space says what a sound address space is,
--   Vm/Freed, Vm/Unmap, Vm/Round and Vm/Dealloc are about `deallocuvm`, Vm/Ends about its loop, and
--   Vm/Interface makes these page tables those of Shared.antt.
-- Traps.antt is HW2/src/trap.c and HW2/src/syscall.c as far as they count traps and system calls,
--   report the counts, and dispatch a call to its handler; the handlers are a parameter.
--   Traps/Totals is about what is reported.
-- Spin.antt is HW2/src/spinlock.c: the depth of `pushcli` and the interrupt flag of a processor,
--   and locks among processors, with `acquire` and `release` in the parts between which others may
--   see the lock. Spin/Nesting is about interrupts, Spin/Locks and Spin/Exclusion about locks. The
--   other files take what runs under a spin lock as one step, and Shared.antt whole calls.
-- Syscall.antt is the part of HW2/src/syscall.c that fetches arguments from user memory, with the
--   32-bit arithmetic of its checks; Syscall/Bounds is about it.
-- Memory.antt is HW2/src/string.c and the string instructions of HW2/src/x86.h, on a memory of
--   bytes in which no block reaches the end of the address space. Memory/Move, Memory/Fill and
--   Memory/Compare are about them.
-- Print.antt is HW2/src/printf.c, and `atoi` of HW2/src/ulib.c: the characters that `printf`
--   writes. The buffer of `printint` has 16 places, and a number of 32 bits needs at most 11 in
--   base 10. Print/Decimal is about numbers, Print/Format about formats.
-- Grep.antt is the matcher of HW2/src/grep.c; Grep/Pattern says what an expression means, and
--   Grep/Match compares the two.
-- Hwsh.antt is the lexer and the parser of HW1/hwsh.c, on a list of character codes for the text
--   between the two pointers. Hwsh/Args and Hwsh/Valid are about words and trees. The calls recurse
--   on fuel: 2 * length + 2 for `parseparallel`, which may come back once without taking a
--   character, and length + 1 for the rest, where each round takes one.
-- Base.antt and its children are shared: lists, arrays as functions, Boolean tests, signed results,
--   and the outcome of code that may panic.
--
-- Not modelled: device drivers and boot code, which only touch hardware, except the disk in memory;
-- `ialloc` and the inode cache; the rest of the page table code; what `trap` does beside counting,
-- and the system calls themselves; the order in which processors see memory; the shell's fork and
-- exec; and the user programs, except `printf`, `atoi` and the matcher. Sleepers are woken by the
-- models of processes and pipes only.
pub mod Base
pub mod Memory
pub mod Names
pub mod Pipe
pub mod Print
pub mod Kalloc
pub mod Log
pub mod Blocks
pub mod Cache
pub mod Content
pub mod Directory
pub mod File
pub mod Grep
pub mod Hwsh
pub mod Proc
pub mod Shared
pub mod Spin
pub mod Syscall
pub mod Traps
pub mod Vm

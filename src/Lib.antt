-- ===== src/Lib.antt =====
-- A model of the parts of this repository that compute: the kernel of xv6 as it was changed for the
-- lottery scheduler, the tutoring center of project 3, and the file system checker of project 4.
--
-- The program is a set of course projects. xv62/xv6 is an xv6 kernel whose scheduler draws lots:
-- a process has tickets, the kernel keeps the total of those that can run, and the scheduler picks
-- the process on which a random number falls. Project4/P4/fcheck.c reads a file system image and
-- runs ten checks, of which the first that fails prints its message and ends the program.
-- project3/csmc.c lets threads take turns at a tutoring center, with semaphores and two locks.
--
-- Str (xv62/xv6/kernel/string.c): memset, memmove, memcpy, memcmp, strncmp, strncpy, safestrcpy and
--   strlen, each by its own name. Its children Move, Copy, Compare and Fill hold the proofs.
-- Proc (xv62/xv6/kernel/proc.c, sysproc.c and proc.h). Types has `struct proc`, the table and the
--   counters beside it; Tickets has store_tickets, get_tickets and setp_tickets; Create has
--   allocproc, growproc and fork; Sleep has sleep, wakeup1, wakeup, kill and yield; Finish has exit
--   and wait; Lottery has one round of scheduler; Calls has the system calls. Active and Balance say
--   what it is for the total of the tickets to be right, and Keep, Fork, Exit, Reaping and Wake what
--   the operations do to it; Lottery/Shares and Lottery/Turns are on the draw.
-- Pipe (xv62/xv6/kernel/pipe.c): the ring with its two counters, and pipewrite, piperead and
--   pipeclose, which call sleep and wakeup of Proc. Queue reads the ring as a queue, Loops and Runs
--   compare the code with that queue, and Traffic takes calls in any order as a relation.
-- Kalloc (xv62/xv6/kernel/kalloc.c): kinit, kfree and kalloc on the links through the free pages.
--   Chain reads the links as a list of pages, and Init is on the loop of kinit.
-- Random (xv62/xv6/kernel/random_num.c): srand and rand. Carry reads rand in the base 2 ^ 32 - 1.
-- Csmc (project3/csmc.c): the students, the tutors and the coordinator as threads. Steps has their
--   steps and the states that these reach, Counts what the counters stand for, Safety the proofs
--   over the steps, and Pick the loop by which a tutor chooses a student.
-- Ulib (xv62/xv6/user/printf.c and atoi of ulib.c): Decimal is on printint and atoi, Strings on
--   the strings that printf prints, Output on its loop.
-- Fs (xv62/xv6/kernel/fs.c): balloc and bfree over the bitmap of a disk, whose bits they read and
--   write as CHECKBIT and its kin of Fcheck do, and skipelem; Alloc, Free and Names/Elems hold the
--   proofs. Fs/Inode has the inode in memory and on the disk, bmap and itrunc: Words, Stages and Copy
--   are on the copy on the disk, Slots says what the blocks and the bytes of a file are, Grow, Extend,
--   Entry, Mapping and Bmap add a block to it, and Patch changes one. Fs/File has readi and writei:
--   Pieces is on one round of their loops, Reading and Writing on the loops, Size on the last lines of
--   writei, Calls on the calls and Again on a read behind a write. Fs/Icache has the cache of inodes
--   with iget, idup, ilock, iunlock and iput: Find is on the loop of iget, Holders follows the
--   references through calls in any order, and Counts, Unique and Sharing show how they are shared.
--   Fs/Dir has dirlookup: Entries and Blocks are on the entries of a directory and its blocks, Lookup on
--   the loops and Answers on the call. Fs/Ialloc has ialloc, and its child Taken the proofs.
-- Bio (xv62/xv6/kernel/bio.c): the buffers on their ring of links, with binit, bget and brelse, which
--   call sleep and wakeup of Proc. Ring is on runs of links, Order reads the ring as a list and has
--   brelse, Search has the loops of bget, Invariant the calls in any order, and Grant and Users what
--   a caller of bget can rely on.
-- Args (xv62/xv6/kernel/syscall.c): fetchint, fetchstr, argint, argptr and argstr on the memory of the
--   process that calls; Bounds holds the proofs.
-- Fcheck (Project4/P4/fcheck.c and fs.h): Image reads inodes, blocks and directory entries from the
--   bytes of an image; Bits has CHECKBIT, setbit and unsetbit; Check has the result of a check and
--   the loop; Inodes, Root, Used and Dirs have the checks, Walk the traversal of addresses that
--   several of them share, and Main the order in which main runs them and the working copy of the
--   bitmap that they pass on.
-- Base holds what all of them use: lists and arrays measured by native numbers, Boolean tests, and
--   arithmetic of 32-bit words.
--
-- How the model stands to the code. A `uint` or `int` is a number below 2 ^ 32, and additions wrap
-- where the source's do. A pointer to a slot of the process table is its index, another pointer is
-- an address with 0 for NULL. The kernel's operations pass the state on explicitly, and a call runs
-- as one step from the lock that it takes to the next `sched`: what follows a `sleep` is a step of
-- its own (sleep_return, pipewrite_return, piperead_return). A panic is a result. kalloc, the virtual
-- memory, the file table and the inodes are the record Services of Proc/Types, of which only the
-- types are used, and the number that rand returns is an argument of the scheduler's turn. A check of
-- fcheck is a function that passes or stops with the error of its message.
--
-- Bounds. The loops are recursion on the table, on the bytes that are left or on a number of rounds
-- that the source fixes, so that no fuel is needed. The loop of memmove and its kin ends with the
-- count, strlen is followed up to a bound that its caller gives, and the search of scheduler is over
-- the table's slots. balloc gets a round for each block of the bitmap, readi and
-- writei one for each byte and one to end the loop, dirlookup 141 for the blocks of a directory, as
-- bmap panics at the 141st, and a loop of bget
-- one for each of the 10 buffers and one for the head of the ring; fetchstr has one for each byte
-- below the end of the memory. The loop of kinit gets 4096 rounds, as many as there are pages
-- below PHYSTOP. The loop of printf over a string gets a round for each of the 2 ^ 32 addresses, after
-- which it would start again.
--
-- Not modelled: spin locks and context switches (each step stands between two of them), userinit,
-- sched and procdump, the tick counter; of the file system dirlink and namex;
-- bread, bwrite and the disk driver, page tables, drivers and start-up of the kernel; the user
-- programs; pipealloc's use of the file table; opening and mapping of the image in fcheck's main;
-- sleeping and printing in csmc.c, and that its main starts threads before it has set up all that
-- they share, so that the threads begin behind all of main's loops. The shell of project 1 (project1.c), which calls the C library for nearly all that
-- it does, is outside the model as well.
pub mod Base
pub mod Str
pub mod Proc
pub mod Fcheck
pub mod Pipe
pub mod Kalloc
pub mod Random
pub mod Csmc
pub mod Ulib
pub mod Fs
pub mod Bio
pub mod Args

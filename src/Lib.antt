-- ===== src/Lib.antt =====
-- The xv6 kernel of this repository, with its small files and small directories.
--
-- All paths are from the root of the repository. The parts and the files that model them:
--
-- Common        numbers, lists, options and integers that the other modules share.
-- Strings       xv6andTestsandREADME/string.c and the string instructions of
--               xv6andTestsandREADME/x86.h, under their C names, on memory as a function from
--               addresses to bytes. Ranges that would wrap round the address space are left out by
--               hypotheses. Move, Compare and Copy hold the proofs.
-- Path          `skipelem` of xv6andTestsandREADME/fs.c. A path is the list of its bytes before the
--               NUL, a name buffer a function from its indices to bytes.
-- Kalloc        xv6andTestsandREADME/kalloc.c: `kfree`, `kalloc`, `freerange` on memory as words,
--               with the free list threaded through it. A panic is `none`.
-- Pipe          xv6andTestsandREADME/pipe.c: `pipewrite` and `piperead` as atomic runs between two
--               sleeps, `pipeclose`, with the 32-bit indices that wrap. Pipe/Queue is the bounded
--               queue that they refine, Pipe/Stream the step relation of readers and writers.
-- Log           xv6andTestsandREADME/log.c. A state has the blocks as bread shows them and the
--               blocks on the disk; every disk write is one element of a list, so that a crash is a
--               prefix of it. Log/Crash is about commit and recovery, Log/Space about the
--               reservation of log blocks by begin_op over any interleaving, in which end_op is three
--               steps: up to its first release of the lock, the commit without the lock, and the end
--               of `committing`. Log/Entries is about the absorption in log_write.
-- Bio           xv6andTestsandREADME/bio.c: the buffer cache as the list from head.next on, over
--               any type of blocks, with a disk transfer of xv6andTestsandREADME/ide.c as what it
--               has done when iderw returns. A caller that has to wait for a buffer's sleep lock is
--               a result of its own, and goes on with acquire_buf when it is woken.
-- Proc          xv6andTestsandREADME/proc.c: the process table as a function from slots to
--               processes. An operation is one run between two switches to the scheduler, which
--               holds ptable.lock where it matters; Proc/Runs is the step relation of these runs.
--               The functions of kalloc.c, vm.c, file.c and fs.c that fork, exit and wait call are
--               the operations of the record `Machine`, so that the theorems hold for any of them.
--               The parts of fork and exit outside ptable.lock run at once in the model.
-- Syscall       xv6andTestsandREADME/syscall.c and the counters of xv6andTestsandREADME/sysfile.c:
--               the fetching of arguments from user memory with 32-bit address arithmetic, the
--               dispatch by number, and the counter array with its neighbours in memory.
-- Fs            xv6andTestsandREADME/fs.c up to `bfree`: the record Fs is the file system in memory
--               and on the disk, as bread shows it, with the file table and the process that runs;
--               an operation takes it and returns a value and a state, or stops by a panic or by
--               waiting. A block of the free map is its bits, a block of inodes its inodes, any
--               other block its bytes, so that bread, log_write and brelse leave no trace here.
--               Fs/Blocks sees the free map as the set of used blocks.
-- Inode         the inodes of xv6andTestsandREADME/fs.c, with the two kinds of content: in blocks,
--               or for a small file (T_SFILE) in the bytes of `addrs` itself. Inode/Slots, Extents
--               and Content hold the definitions. Inode/Cache is about iget, Inode/Small and
--               Inode/Evict about small files, Inode/Map, Place, Updated, Bmap, Read, Write, Whole
--               and Mapped about files in blocks, from the block map to readi and writei. The
--               device functions are fields of the state. A read or a write of a small file behind
--               the 52 bytes of `addrs`, which the code does not refuse, goes over the inodes, the
--               page list and the log that stand behind in memory: the model stops there, as overrun.
-- Dir           dirlookup, dirlink and namex of xv6andTestsandREADME/fs.c.
-- File          xv6andTestsandREADME/file.c, and pipealloc of xv6andTestsandREADME/pipe.c. A pipe is
--               named by its page; the operations of Pipe run on it.
-- SysFile       the system calls of xv6andTestsandREADME/sysfile.c on files, but for sys_exec,
--               with the arguments that Syscall fetches. Args, Link, Open and Ends hold
--               the definitions, Branches the proofs.
-- Grep          the matcher of xv6andTestsandREADME/grep.c. Grep/Language says what a pattern means.
--
-- Numbers are natural numbers; 32-bit arithmetic is written out with `% 2 ^ 32` where the code can
-- wrap; so does the next process number. Loops over arrays recurse on the number of
-- rounds left. `freerange` takes a bound on its rounds as fuel, and its theorem says which bound is enough.
-- Spin locks are not modelled: an operation that holds one is atomic. A sleep lock is a flag of the
-- inode, and a call that would wait for one stops as stuck, as does one that sleeps at a pipe. The loops of fs.c and
-- file.c have as many rounds as bytes to move, slots to scan or elements of a path to take, with a
-- theorem for readi and writei that this is enough.
--
-- Not modelled: the queue of the disk driver, sys_exec and exec, the transactions around the
-- file system calls (log.c is modelled by itself), the address spaces, traps, the
-- console, the user library and the shell, the line loop of grep, the image builder, and the user and test programs;
-- assembly, boot code and device drivers, which are hardware set-up; and what the build makes.
pub mod Common
pub mod Strings
pub mod Path
pub mod Kalloc
pub mod Bio
pub mod Pipe
pub mod Log
pub mod Proc
pub mod Syscall
pub mod Fs
pub mod Inode
pub mod Dir
pub mod File
pub mod SysFile
pub mod Grep

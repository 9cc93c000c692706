-- ===== src/Lib.antt =====
-- A file system in a disk image: bit maps, blocks, block groups, files, the shell and the buffer pool.
--
-- The program is written in C++. A `Disk` (disk_simulator_manager/disk.cpp) reads and writes sectors
-- of 512 bytes of an image file. helpers/helpers.h moves blocks of two sectors. On them
-- file_system_manager/block_group/block_group.cpp keeps four groups, each with a descriptor, two bit
-- maps (data_structures/bitmap/bitmap.cpp), inodes and data blocks; the destructors of its objects
-- write them back to the disk. `EX2FILESYSTEM` (file_system_manager/ex2_interface/ex2.cpp) opens,
-- reads and writes files by descriptor. `ShellManager` (shell_manager/shell_manager.cpp) keeps
-- directories in files as entries of 60 bytes, and resolves paths. main.cpp formats an image and runs
-- a few commands. `BufferPool` (buffer_pool/buffer_pool.cpp), which the build leaves out, caches blocks
-- on the doubly linked list of data_structures/linked_list.
--
-- Which file models which part:
--   Base, Base/Tests, Base/Lists: shared names, Boolean tests, lists over native lengths.
--   Bits, Bits/Step: the bits of a number and the machine operations on them.
--   Memory, Memory/Words, Memory/Copies: objects as their bytes, `memcpy`, little-endian fields.
--   BitMap: `BitMap<T>`; BitMap/Spec is its Boolean view, BitMap/Scan the search in one word,
--     BitMap/Search the whole search, BitMap/Update the operations on one bit.
--   Disk: `Disk` over the system calls `lseek`, `read` and `write`, which are a parameter; Disk/Store
--     is the interface that the rest of the program uses, and Disk/Image its implementation.
--   Block, Block/Transfer: `write_block_disk_helper` and `retreive_block_disk_helper`.
--   Effect: runs that return, call `exit`, or have undefined behaviour.
--   BlockGroup/Address: the functions `get_starting_...`; BlockGroup/BitMapBlock: the bit maps in a
--     block; BlockGroup/Manager: `BlockDescriptorManager` and the destructors, with
--     Manager/Allocate, Manager/DataBlock and Manager/Exhausted about allocation, Manager/Inode and
--     Manager/Stored about inodes, and Manager/FreshMaps, Manager/Format and Manager/FirstInode about
--     the formatting of the bit maps.
--   FileSystem: `EX2FILESYSTEM` of file_system_manager/ex2_interface/ex2.cpp with its table of open
--     files; FileSystem/Table is about the table, FileSystem/Permissions about the permission test,
--     FileSystem/Files has the operations on whole files, FileSystem/Blocks the reads and writes;
--     Blocks/Reading and Blocks/Writing are about one block, Blocks/OnDisk and Blocks/Appending about opening, reading and extending a file whose
--     inode is on the disk.
--   Shell/Entry: `DirectoryStructure`; Shell/Names: paths and permission strings; Shell/Directory: the
--     reads of a directory and the walk along a path, with Directory/Search and Directory/OnDisk
--     about the search in a directory; Shell/Commands: the commands of `ShellManager`, with
--     Commands/Entering about its working directory, and Commands/Appending and Commands/Listed about
--     an entry that is added.
--   Main: main.cpp.
--   BufferPool: `BufferPool`; BufferPool/Cached is about blocks in the pool, BufferPool/Eviction about
--     a block that takes the place of another.
--   LinkedList: `LinkedList<T>` on a heap of nodes with addresses; LinkedList/Shape says when a heap
--     holds a list, LinkedList/Insert, LinkedList/Unlink and LinkedList/Last are about the operations.
--   The modules whose name ends in Tests run the code on concrete inputs.
--
-- An `int` is its pattern below 2 ^ 32, so -1 is 4294967295, and sums and products of `int`s are cut
-- to 32 bits; `uint64_t` operands are widened with the sign first. Undefined behaviour (an index out
-- of range, a division by zero, a shift by 32 or more, a null or dangling pointer) is `none`, or
-- `undefined` in a run.
-- Loops with a known number of rounds recurse on that number; `visit_loop` takes
-- fuel, one round more than the list has nodes being enough, and `destroy_loop` needs two rounds more
-- for the sentinels.
--
-- Not modelled: opening and closing the image, what is printed, the unit tests, and functions that are
-- declared without a body (`write_file` and `read_file` of the shell, `~BufferPool`);
-- `get_current_time`, a clock, the memory that `malloc` returns and the status of `mlock` are arguments
-- where they are used. The local buffer of a command that appends an entry to a directory is an
-- argument too, and a directory on the disk is a list of records whose padding is arbitrary.
pub mod Base
pub mod BitMap
pub mod Bits
pub mod Block
pub mod BlockGroup
pub mod BufferPool
pub mod Disk
pub mod Effect
pub mod FileSystem
pub mod LinkedList
pub mod Main
pub mod Memory
pub mod Shell

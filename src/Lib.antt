-- ===== src/Lib.antt =====
-- Upanix, an operating system for the x86: the data structures of its kernel as functions, and what they
-- guarantee.
--
-- The kernel's file system keeps one word for each sector of a drive in a table on the drive, as FAT does.
-- The words of a file's sectors form a chain, and a word that is 0 marks a free sector. Sectors of the table
-- are read into a cache of blocks sorted by number; before a block joins a full cache, the one of the lowest
-- number is written back and dropped. A queue holds sectors that are known to be free, refilled by a scan of
-- the cache and then of the drive. The memory manager keeps one bit for each page of RAM, and the heap of
-- the kernel a list of free blocks. Dates are records with operations on days, months and years. Processes
-- and their threads stand in a map by id; the scheduler goes round a list of processes, each of which runs
-- itself or one of its threads, and leaves out those whose wait is not over. Each process has a table of open
-- descriptors, in which an entry may stand for one of another table. A drive is read and written through a
-- cache of its sectors, of which the dirty ones are written back later.
--
-- Base: the natural numbers, tests, lists and integers that the other files share.
--
-- FileSystem (filesystem/FileSystem.cpp, filesystem/FileSystem.h)
--   FileSystem/Table: the cache of table sectors. `Block` is SectorBlockEntry, `Table` the members of
--     FileSystem that the table needs, with the drive as a function from sector numbers to lists of words.
--     `binary_search` is FSManager_BinarySearch, `flush_table_cache`, `add_to_table_cache`,
--     `get_sector_entry_from_cache`, `get_sector_entry_value` and `set_sector_entry_value` are the methods
--     of these names, `get_table_sector_id` and `get_real_sector_number` too.
--   FileSystem/Pool: LoadFreeSectors, AllocateSector, FileSystem_DeAllocateSector. The queue of the pool
--     belongs to a library that is not part of this repository: `Queue` is the interface with the laws
--     of a queue that may refuse an element.
--   FileSystem/Boot: InitBootBlock, Format, WriteFSBootBlock and ReadFSBootBlock.
--
-- Memory (memory/MemManager.cpp, memory/MemManager.h)
--   Memory/Bits: a bit of a word, read, set and cleared.
--   Memory/PageMap: the maps of pages. BuildRawPageMap, BuildPagePoolMap, AllocatePhysicalPage,
--     DeAllocatePhysicalPage, AllocatePageForKernel, DeAllocatePageForKernel and MarkPageAsAllocated.
--   Memory/Heap: the heap of the kernel (memory/DMM.cpp, memory/DMM.h). `Tracker` is AllocationUnitTracker,
--     `allocate_for_kernel` DMM_AllocateForKernel and `deallocate_for_kernel` DMM_DeAllocateForKernel. Memory
--     is a function from addresses to trackers. Memory/Heap/Cover counts the blocks that an address lies in,
--     Memory/Heap/Partition says that a heap is well formed.
--
-- Calendar (libmcpp/cal/mdate.cpp, libmcpp/cal/mdate.h): the operations mdate_* under their names in
--   small letters. Calendar/Ordinal numbers the days, and the operations are described by the numbers.
--
-- Process (process/, kernel/ResourceMutex.cpp, kernel/IrqManager.cpp)
--   Process/State, Process/Store, Process/Group: `System` holds the members of ProcessManager, the clock and
--     the counters of interrupts, `Process` the members of SchedulableProcess and AutonomousProcess, `Group`
--     is ProcessGroup. A pointer to a process is its id: an object that was deleted is not in the map, and to
--     use it is none. The lists of pointers to threads and their iterators are lists of ids and an id.
--   Process/Destroy: Destroy, DestroyThreads and forSchedule. Process/Create: CreateKernelProcess and
--     CreateThreadTask with the constructors. Process/Wait: the calls that wait, wake, end and lock.
--   Process/Schedule: DoContextSwitch and StartScheduler. What a process does while it has the processor is
--     a function on systems, its slice; Process/Rounds says what a slice may do, and Process/Slices that the
--     calls of Process/Wait do no more, but for the wait on descriptors, which a process may do for those that
--     its table has (Process/Answering).
--   Process/Ready says when a process that waits may run. Process/Shape to Process/Fair follow the threads
--     and the list of the scheduler through every operation.
--
-- Disk (drivers/DeviceDrive.cpp, drivers/DeviceDrive.h, drivers/DiskCache.cpp, drivers/DiskCache.h)
--   Disk/Cache: `DiskCache` is DiskCache with the members of LFUSectorManager that ReplaceCache needs. The
--     BTree of the library upan is a map from sectors, with the number of its elements, and a pointer to a
--     value of it is the sector. Hit counts and access times, which only rank sectors, are left out.
--   Disk/Drive: Read, Write and FlushDirtyCacheSectors of DiskDrive, one function for each loop. To use a
--     value that is no longer in the tree is none. Disk/Coherent says when cache and disk agree,
--     Disk/Replaced and Disk/Stored what is done for one sector, Disk/Written, Disk/Loaded and Disk/Breaks for a request.
--
-- Io (io/)
--   Io/Table: IODescriptorTable, the counts of IODescriptor, and RedirectDescriptor. The tables of all
--     processes are a function from ids. Io/Redirect is about the counts across tables.
--   Io/File: seek and write of FileDescriptor, write as the calls of Directory_FileWrite that it makes. Which
--     calls that function carries out is a parameter; one that it does not ends the write.
--
-- Util/Text (util/StringUtil.cpp): String_Tokenize, String_Chr and String_FromNum.
--
-- Numbers are natural numbers. Unsigned arithmetic that can wrap is written with % 2 ^ 32; sums of int are
-- taken not to overflow, the days of a number of weeks wrap as an int. An error code or exception is a value of `Result`, `HeapResult`,
-- `Option` or `ReturnCode`.
-- A drive answers every read and write: its own errors, and the messages that operations print, are left
-- out. The locks are left out too: each operation runs with process switching off or under the drive's
-- mutex, so it is one step. A vector of the library upan is a list.
--
-- The processor is one: a slice is not interleaved with another one, and an interrupt is a change of the clock
-- and of the counters. What a process does with its own memory, and the stacks and page tables that are set up
-- and given back with it, are left out of the processes. A call that waits in the kernel by polling is taken
-- to its end, or spins.
--
-- Bounds on loops: the search of the cache takes at most as many rounds as there are blocks, since each
-- round shortens the range; the scan of the drive takes at most a round for each table sector; adding
-- n days takes at most n + 2 rounds and subtracting them n + 1, since each round but the first adding one
-- uses up a day; a search of the heap takes a round for each free block, of which there are at most as many
-- as the heap has room for trackers; the searches for a bit take 32 rounds for a word and one for each word
-- of the map; a number of 32 bits has at most 10 digits; forSchedule takes at most a round for each thread,
-- since a round that does not end it deletes one; a write takes a round for each megabyte. The theorems show that these are enough, as they
-- state the results without the bounds.
--
-- Not modelled: directories and files over the table, the choice of the sectors to be replaced in the disk cache, the drivers, the heaps of
-- processes, page tables and page faults, the environment of processes, streams, the loader, users, the
-- console and the network, which are left for later; and all code that programs devices, which is input and
-- output.
pub mod Base
pub mod FileSystem
pub mod Memory
pub mod Calendar
pub mod Process
pub mod Io
pub mod Disk
pub mod Util

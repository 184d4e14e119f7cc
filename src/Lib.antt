-- ===== src/Lib.antt =====
-- MasterTeamProjekt: the storage layers of a database system, in C++.
--
-- A partition (src/partition) is a file or a raw device of pages of one size. Every
-- `getMaxPagesPerFSIP() + 1`-th page is a free space indicator page, whose bits tell which of the pages
-- behind it are in use. A segment (src/segment) takes pages of a partition and keeps free space
-- management pages, which hold a fill level of half a byte for each of its data pages; a data page is a
-- slotted page. Each kind of page has an interpreter (src/interpreter), which is attached to the bytes
-- of a page in memory. The buffer (src/buffer) keeps pages in frames; a control block tells which page a
-- frame holds, and a hash table finds it.
--
-- The files:
--   Prelude       numbers, tests, lists, words of 16, 32 and 64 bits, maps of bits.
--   Infra         src/infra/types.hh and src/infra/header_structs.hh: enumerations and page headers.
--   Interpreter   Fsip, Fsm and Sp are interpreter_fsip, interpreter_fsm and interpreter_sp. A page is
--                 its content and its header; an operation takes a page and returns the page after it.
--                 Bits of an indicator page are a map from ℕ, read and written through 8-bit and 32-bit
--                 words as in the source; bytes of a management page and of a record area are maps.
--   Partition     Base is partition_base, File is partition_file. The state is the record `Partition`,
--                 and a method is a function from a state to a `Result`: a normal return, or one of the
--                 exceptions `FileException` and `PartitionFullException`, each with the state it
--                 leaves. The file maps byte offsets to pages. The methods have the source's names.
--                 Manager is partition_manager: the partitions by id and by name, on the interface
--                 `Services` for files, partition objects and the segment manager.
--   Buffer        Block is buf_cntrl_block: the lock of a control block, whose methods return an `Option`,
--                 `none` while the mutex lets them wait; `upgradeLock` is two steps, as it gives up a shared
--                 lock before it waits. Free holds the free frames, the list of free
--                 control blocks, the chains of buf_hash_table, and of buf_mngr the search of `fix`, the
--                 linking of `locatePage` and `resetBCB`. Pool is the rest of buf_mngr: frames, `fix`,
--                 `emptyfix`, `flush` and the eviction of `getFrame`, on the interface `Device` with the
--                 laws `IsDevice` for the pages that it serves. Disk fills it with the methods of
--                 partition_base, for pages whose offset is below 2^32; an operation returns an
--                 `Answer`, and the random buckets are a list. A control block is a number, and `next` is the
--                 pointer that both kinds of list share. `std::hash` is a parameter.
--   Cli           Date is datejd: Julian day numbers, leap years and days of the week. Time is
--                 stime: the parts of a time of the day, its reading and printing.
--   Tuples        Catalogue is partition_t, segment_t and employee_t: the tuples of the catalogues and of
--                 employees, with their bytes on disk. Reading is from the list of bytes behind a pointer.
--   Segment       State is segment_base, Fsm is segment_fsm, Records, Groups and Disk are segment_fsm_sp and
--                 the storing and loading of segment_fsm. The state is the record `Segment`: the page lists
--                 of the object, and the pages as they are seen through the buffer. An operation ends with
--                 an `Outcome`: a return, an exception, or undefined behaviour. The partition below is the
--                 interface `Space` with the laws `IsSpace`, which a formatted partition fills.
--   Manager       segment_manager: the catalogues of segments by id and by name. The segment objects are the
--                 interface `Objects`, and the master segment is known by its name. The search and deletion of
--                 deleteTuplePhysically is Segment/Records/Remove.
--   Threading     Queue is queue.hh: a call of any thread is one step under the mutex.
--
-- Numbers of `uint32_t` and `uint16_t` are natural numbers, with `% 2 ^ w` written out where the source
-- may wrap around. Loops recur on the number of rounds left. The search of `allocPage` and the loop of
-- `format` run on fuel, one round more than the partition has pages; a run out of fuel is a result of
-- its own, and the theorems on these methods exclude it. The loops over a chain of control blocks run on
-- fuel that is at least the length of the chain. Loading a segment runs on fuel that exceeds the numbers
-- of its index and management pages; a chain of the buffer is walked on fuel of at least its length, which
-- is enough for `fix`, `emptyfix` and `flushAll`; the insertion of many tuples takes its fuel as an argument.
--
-- The calls `::open` and `::close` of the system have an argument that tells whether they succeed;
-- `pread` and `pwrite` fail exactly on a closed file. Trace output is left out. Not modelled: calls of
-- the buffer manager that interleave, the locks and buffer frames that a segment holds, the rest
-- of the command line, and the thread pool.
pub mod Prelude
pub mod Infra
pub mod Interpreter
pub mod Partition
pub mod Buffer
pub mod Cli
pub mod Threading
pub mod Tuples
pub mod Segment
pub mod Manager

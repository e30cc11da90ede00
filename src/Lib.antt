-- ===== src/Lib.antt =====
-- Softwrap is a user-level library for atomic groups of stores, "wraps", to persistent memory. The
-- stores of an open wrap are streamed to a log and kept from their home locations by an alias table;
-- the loads read through the alias table. The close seals the log with a flag, and the alias table
-- then copies the values home. After a crash the sealed logs are replayed.
--
-- The modules:
--   Scm         src/main/memtool.c: persistent memory as bytes by address, ntstore (a copy by
--               streaming stores of four-byte words) and the fence p_msync. Scm/Bytes has byte
--               strings in memory, Scm/NtStore what the stores write and count.
--   StoreBuffer src/main/memtool.c with MODELBUFFER: the ring of delayed stores, beside Scm, which
--               takes the delay as 0. Pacing drains it, Room waits for a free slot.
--   WrapLogger  src/main/WrapLogger.cpp and .h: the log of one wrap, with open, add an entry, close
--               and restore. Entries is the specification, a list of entries with their encoding and
--               their replay; Adding, Restoring and Session are the two sides, Recovery and Crash the
--               whole; Bounds and FourBytes are about the end of the log and about entries of four
--               bytes.
--   LogBlock    src/main/WrapLogManagerBlock.cpp and .h: the logs of all threads in one block; Slots
--               is about which logs a thread is given.
--   LogQueue    src/main/WrapLogManager.cpp and .h: the logs in a queue; Replays is about the restore of
--               the whole queue.
--   Software    src/main/WrapImplSoftware.cpp and .h: a wrap as the program sees it, on a log of the
--               block and the alias table LAT. Calls takes its calls apart into those on the log and
--               those on the table, Atomic puts the whole together.
--   UndoLog     src/main/WrapImplUndoLog.cpp and .h: wraps that write home at once and log the old
--               bytes. Olds is about the old values, Logged and Rollback about the log, Committed
--               about whole wraps.
--   Wraps       src/main/wrap.cpp and the counters of src/main/WrapImpl.h: the calls of the program,
--               with nested wraps and streams; Streams is about a stream in a wrap.
--   WrapImpl    src/main/WrapImpl.cpp: the implementations without a log, whose stores go home at once.
--               Homes shows that they are a memory with reads and writes of objects, Places is about
--               objects that do not overlap.
--   WrapMap     include/WrapMap.h: the hash map whose table and nodes are in persistent memory, on any
--               memory with such reads and writes. Chains and Frames are about chains of nodes, Laid is
--               the invariant, Sets, News and Cuts are the three changes of a chain, Links what they
--               share; Runs has the calls, Starts the constructor, Maps the whole.
--   WrapVar     include/WrapVar.h: variables with operators, on the same reads and writes. Operators
--               compares them with numbers.
--   WrapArray   include/WrapArray.h: arrays that grow, on the same. Loops copy and clear, Items is the
--               invariant and that resize keeps it, Changes and Calls the operations.
--   Bloom       src/main/bloom.h: the filter in front of the tables.
--   Lat         src/main/LAT.cpp and .h: the alias table of a thread. Overlay and Reads are about
--               readInto, Writes about write, Wrap about a whole wrap and the restore.
--   Lfht        src/main/LFHT.cpp and .h: the hash table with open addressing. Scan is the probe as a
--               function of the keys, Probe the operations as probes, Items the table as a map, Room
--               when a store ends and when a lookup does not.
--   AliasHash   src/main/AliasTableHash.cpp and .h: that table as an alias table. Restore is the loop of
--               restoreAllElements, Homes what it leaves, Stale what lookups see during it.
--   Atl         src/main/ATL.cpp and .h: the hash table with a look-aside of the entries that a wrap has
--               stored. Copies is the loops, Closed the three ways through the close, Restored what
--               they leave, Listed the look-aside during a wrap, Wrap the whole wrap.
--   AliasTable  src/main/AliasTable.cpp and .h: the table of hash chains, for numbers and objects, with the
--               tree of Avl. Chains is the map that the chains are, Emptied the restore.
--   At3         src/main/AT3.cpp and .h: two such tables that many threads share, with the counts of their
--               wraps. Counting is about the counts, Steps has the runs and the invariant, Opens,
--               Closes, Works and Retiring keep it, Runs says what it gives; Waits is about the
--               wait for an empty table and its broadcasts.
--   At2         src/main/AT2.cpp and .h: two such tables and the thread that restores one while the
--               program uses the other, as a relation of steps. Tables and Known follow the last value
--               stored under a key, Invariant the flags; Retiring, Calls and Storing are the steps,
--               Drain the runs, Ends the end of a wait.
--   Avl         src/main/avl.cpp: the tree of base pointers. Order is the search order, Balance the
--               heights, Ranges the base pointers of disjoint objects.
--   Pmem        src/main/pmem.cpp and the class PM of src/main/wrap.cpp: the ranges of persistent
--               memory and the allocator. Objects is about the objects that are allocated.
--   Prelude     shared names, Boolean tests, lists, bits, and Run, the outcome of a call.
--   Tests       concrete states, and the theorems at them.
--
-- Memory is a function from addresses to bytes; a number of n bytes lies with its low byte first. The
-- functions that the code calls on global state take and return that state. A failed assert is
-- `abort`. Addresses and sizes are natural numbers that do not wrap; the 64-bit products of the hash
-- function are taken modulo 2^64. Where the code takes a remainder of an int or counts bytes in one (the
-- hash of WrapMap, the loops of WrapArray, the count of logs in LogBlock), the number is the 32-bit
-- pattern of that int, and `int_rem`, `offset` and `rounds` are the operations on it.
--
-- A streaming store is in memory at once, in program order, and p_msync only counts its calls. So the
-- state between two calls is what all stores before would leave, and the theorems about crashes say
-- which stores they take to have reached memory: Crash lets the stores to home locations behind a
-- close be lost in any part, Recovery lets all stores of a wrap that is not closed be lost but the
-- flag that its open writes, and UndoLog takes all of them to be there.
--
-- In a wrap the bounds are those of the source: 65536 entries and 524288 bytes of data in the alias
-- table, and the size of the log.
--
-- Fuel: recovery of a log takes one turn more than there are entries, which is shown to be enough. A
-- wait on the store buffer takes one round for each reading of the clock, as many as the clock needs
-- to pass the start times in the ring. A probe of the hash table takes as many turns as there are
-- entries; `no_fuel` there means that every entry was seen and the code goes on for ever. A walk through
-- a chain of WrapMap takes one turn more than the chain has nodes, which is shown to be enough. The other
-- loops are structural.
--
-- In the runs of two threads a step is what a thread does between two of its uses of what they share,
-- a wait for a condition that does not end leaves the state as it is, and the wait of
-- restoreAllElements, which the code does not repeat, ends with a signal only. In the runs of many
-- threads a step is what a thread does under the mutex; a thread in the wait of onWrapOpen opens its
-- wrap only after a broadcast, and the retiring thread may also wake by itself.
--
-- The parameters of the model are the readings of the clock, the addresses that malloc returns and
-- what it returns there, of which the theorems ask that chunks do not overlap; the nodes and chunks
-- that pmalloc gives to maps and arrays, of which they ask the same; the memory on which these lie,
-- which Homes shows to exist; and `int_shift`, the value of `1 << (i & 63)` in bloom.h, an int shift
-- that C++ leaves undefined from 31 on; the theorems ask of it a bit among the low 32.
--
-- Not modelled: the time that the stores of a wrap take; threads of the program that share one table
-- of AT2 or of LFHT in the middle of a store; the allocator on a mapped file; the wraps that the map,
-- the variables and the arrays open by themselves; the tables AliasTableMap and AliasTableSingle,
-- which no wrap uses; input and output, tests, tools, simulator, and the third-party code (Graph500,
-- the B+ tree, the SQLite example).
pub mod AliasHash
pub mod AliasTable
pub mod At2
pub mod At3
pub mod Atl
pub mod Avl
pub mod Bloom
pub mod Lat
pub mod Lfht
pub mod LogBlock
pub mod LogQueue
pub mod Pmem
pub mod Prelude
pub mod Scm
pub mod Software
pub mod StoreBuffer
pub mod Tests
pub mod UndoLog
pub mod WrapArray
pub mod WrapImpl
pub mod WrapLogger
pub mod WrapMap
pub mod WrapVar
pub mod Wraps

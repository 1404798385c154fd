-- ===== src/Lib.antt =====
-- KeyVDB: an embedded key-value store with transactions, and a server in front of it.
--
-- A transaction (src/db.cpp) takes a lock for each key (src/txn/lock_manager.cpp), logs each write
-- (src/wal/log_manager.cpp) and then changes a B+tree (src/btree). The tree's pages live in a cache
-- (src/storage/buffer_pool.cpp) over a file (src/storage/disk_manager.cpp), whose page 0 keeps the
-- free pages and the root (src/storage/free_list.cpp). After a crash the log is replayed
-- (src/wal/recovery_manager.cpp). A connection (server/client_handler.cpp) runs one transaction at a
-- time for its client.
--
-- Files:
-- - Common: Boolean tests, equality as an interface, maps and sets as lists, bytes and their
--   little-endian numbers, exceptions as values. A hash map is an association list, a hash set a
--   list; the order in which the code walks a hash map is the list's order.
-- - Lock: `LockManager`. One round of the loop in `lock` is `try_lock`; the waits in between are an
--   argument, the lock table as the others left it when the thread is woken, and whether it is too
--   late. Lock/Steps has the steps that all threads make under the mutex, and what is reachable.
-- - Wal, Wal/Codec, Wal/Log, Wal/Read: the records, their bytes, `LogManager`. A file is a list of
--   bytes; the outcome of each write (all, nothing, a part) is an argument. Wal/Recovery:
--   `RecoveryManager`.
-- - Btree: the sizes of cells, and the contract that the log and the transactions use (get after put
--   and remove) as the record `Tree`, for the cells that the tree names in its field `fits`; recovery,
--   transactions and connections are stated over any tree with this contract. `BTree` as a whole does
--   not keep it for all cells (it loses some, see the findings on splits and steals). Btree/OneLeaf
--   is the instance that `BTree` is where the cells of a list of keys fit into one leaf.
-- - Btree/Slotted, Btree/Node: `Node` (src/btree/node.cpp), as the list of its cells and the 16-bit
--   fields of the header. Btree/Search: `Node::lower_bound`. Btree/Cells: lists of cells in order.
-- - Btree/Store, Btree/Descent, Btree/Insert, Btree/Remove: `BTree` (src/btree/btree.cpp), on a store
--   that has the node of each page. Btree/Shape: the tree that the pages form, as a value.
-- - Txn: `Transaction`, one function for each operation on the state that the transaction sees. The
--   destructor's rollback is `destroy` of ClientHandler.
-- - Storage: `Page`, `DiskManager`, `FreeList`, `BufferPool`. A page is its header's fields and its
--   payload; a frame's index stands for a pointer to its page. System calls succeed here.
-- - ClientHandler: the protocol, the handlers and the loop of a connection over the bytes that the
--   client sends; the texts of the error messages are a parameter.
--
-- `free_space` subtracts without the assertion that the cells end behind the slots, which every valid
-- page fulfils; the number of pages of a tree's store and of a file has no upper bound.
--
-- Numbers are natural numbers. An `int64_t` or `int32_t` that is stored is its bit pattern; the
-- fields' widths are hypotheses where bytes are read back. Loops on fuel: the readers of the log get
-- one more than the file has bytes, and each round takes at least a header; the loop of a connection
-- ends with more fuel than the input has bytes, as each round takes at least five; the descent in
-- the tree takes one for each level.
--
-- A transaction and a connection are modelled alone: the other transactions change the lock table
-- between its steps, and what they write to keys that it has not locked is left out.
--
-- Not modelled: the bytes of the cells in a node's page, and the pins of the tree's pages and an
-- exhausted pool, so that every page that the tree asks for is there; opening and closing a database
-- (src/db.cpp, `DB::Open`, `DB::Close`), the listening socket (server/server.cpp), the two programs'
-- command lines, clocks and the scheduler.
pub mod Common
pub mod Lock
pub mod Btree
pub mod Wal
pub mod Txn
pub mod Storage
pub mod ClientHandler

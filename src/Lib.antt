-- ===== src/Lib.antt =====
-- A model of AkatsukiDB, a small relational database engine in C++.
--
-- The engine keeps each table in a file of pages of 4096 bytes. A page manager reads and writes the
-- pages of one file, a cache keeps the pages used last, and a buffer pool joins the two. A table
-- manager keeps rows of one size in the slots of the pages. Changes are logged first, by a
-- transaction manager that also keeps them in memory; at startup the engine reads the log and
-- undoes what was not committed. A registry keeps the tables' definitions, and a serializer turns
-- rows into bytes and back. An index is a B+ tree whose nodes are pages of a pool of its own. A
-- query's WHERE clause is split at its ANDs, a planner looks for one condition that an index
-- serves, and the rows that the scan finds are tested against the others.
--
-- Where what is modelled stands:
--   Base                 Boolean tests, lists, byte buffers, signed integers, results or exceptions.
--   Storage/Layout       src/Storage/StorageLayout.cpp.
--   Storage/Page         src/Storage/Page.cpp: `GetSlotCount` is get_slot_count, and so on; `GetSlot`
--                        is the pair get_slot and put_slot.
--   Storage/PageManager  src/Storage/PageManager.cpp: the file is a byte string; the constructor is
--                        open_file.
--   Storage/LruCache     src/Storage/LruCache.cpp: the linked list without its sentinels; `Put` is put,
--                        in parts (make_room, evict).
--   Storage/BufferPool   src/Storage/BufferPool.cpp: page objects lie behind addresses, so that a
--                        change through a shared pointer is seen by all who hold it (modify).
--   Table/Manager        src/Table/TableManager.cpp.
--   Table/Json           the JSON fields of src/Table/TableRegistry.cpp: each macro's list is a pair of
--                        functions (of_table and to_table, and so on).
--   Table/Registry       src/Table/TableRegistry.cpp: the files of the schema folder are pairs of a path
--                        and a text; the constructor is open_registry.
--   Table/Row            src/Table/RowSerializer.cpp: `Serialize` is serialize, and so on.
--   Wal/Record, Manager  src/WAL/WalManager.cpp: the log file is a byte string.
--   Wal/Transactions     include/AkatsukiDB/WAL/TransactionManager.hpp, and begin, commit and automatic
--                        commit of src/AQL/Executor/ExecuteTransactions.cpp.
--   Wal/Recovery         `AkatsukiEngine::Recover` of src/Engine/AkatsukiEngine.cpp.
--   Index/Key            src/Index/IndexKey.cpp and its header.
--   Index/Node           src/Index/BPlusTreeNode.cpp: a page seen as a node of the tree; `InsertIntoLeaf`
--                        and `DeleteFromLeaf` of src/Index/BPlusTree.cpp.
--   Index/Tree           src/Index/BPlusTree.cpp: a node that is held is the address of its page object,
--                        and what is set in it is set in the object (modify), in the source's order.
--   Query/Tokenizer      src/AQL/Tokenizer.cpp.
--   Query/Schema         include/AkatsukiDB/Table: columns, tables, indexes; `GetTable`.
--   Query/Expression     include/AkatsukiDB/Expressions/Expression.hpp.
--   Query/Eval, Like     src/AQL/Executor/ExecuteExpression.cpp.
--   Query/Plan           src/AQL/ScanPlanner.cpp, and `PassesFilter` of src/AQL/Executor/Executor.cpp.
--   Query/Scan           `BuildKeyForTree` and `GetScannedRows` of src/AQL/Executor/Executor.cpp.
--   Tests                runs at concrete inputs.
--
-- Numbers: page numbers, slots and rows' sizes are `int` in the source; ids are signed where the
-- source tests their sign, and natural elsewhere. The 16 and 32-bit fields of a page, a log header or
-- a key wrap around as written out. The loop of `ReadAll` runs on the length of the file plus one as
-- fuel, enough as every round reads a header of 60 bytes; that of `Tokenize` on the length of the
-- input plus one, enough as every token takes a character; that of `FindKeyIndex` on the number of
-- keys plus one, enough as every round leaves fewer. A walk from the root of a tree or along its
-- leaves runs on the number of pages, as a longer one goes in a circle; that of `PointQuery`, which
-- counts keys, on 2^15 times as much, as the number of keys is a `short`.
--
-- Parameters: the arithmetic of `double` and the conversions between numbers and texts of the C++
-- library (Numbers), its `std::sort` (sort), what the JSON library does with the texts and types of
-- its values (JsonLibrary), the tables that recovery calls (Tables), and the order in which a hash
-- map is walked.
--
-- Not modelled: the parser and the validator, the executors of the single statements, and the input
-- and output of the command line. Failures of the file system are left out.
pub mod Base
pub mod Storage
pub mod Index
pub mod Table
pub mod Wal
pub mod Query
pub mod Tests

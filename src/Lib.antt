-- ===== src/Lib.antt =====
-- golang-db: a key-value store with a write-ahead log, a memtable, immutable files of sorted entries
-- with compaction, and transactions with locks on keys.
--
-- The parts and the files that model them (paths are the repository's):
--   wal/wal.go                Wal: the log as bytes and a read offset; an entry is framed by its length
--                             and its checksum (Wal/Checksum). WriteEntry takes what the disk makes of
--                             the write and the sync; ReadEntry is an action that moves the offset.
--   memtable/memtable.go      Memtable: a tree of entries and its size, over the interface of Btree,
--                             which states what github.com/google/btree documents.
--   sstable/sstable.go        Sstable/Blocks: data blocks and the readers of a buffer; Sstable/Index:
--                             the index block and the footer; Sstable/Search: getLowerBound;
--                             Sstable/Table: the table, NewFile, Write and Get; Sstable/Scan:
--                             PrefixScan.
--   sstable/manifest.go       the record Manifest of Sstable/Table, and the value that is saved.
--                             Sstable/Open: NewSsTable, which reads the manifest, opens its files and
--                             builds their indexes, and what a flush leaves on the disk.
--   sstable/compaction.go,    Sstable/Compaction: the merged map, the sorted keys, the swap, and a run
--   sstable/utils.go          in the parts that other operations may come between.
--   db/db.go,                 Db/Command: the payloads of the log and their readers; Db/Locks: the locks
--   db/transaction.go         of transactions on keys, and their calls as steps (Db/Locks/Steps);
--                             Db/Database: Get, Put, the flush and the recovery from the log;
--                             Db/Open: NewDB, from the log and the directory;
--                             Db/Transactions: Begin, Put, Get, Commit and Rollback.
--   db/create.go              Db/Schema: the schema of a table and its secondary indexes, encoded and
--                             decoded; Db/Tables: createTable, and the schemas as NewDB loads them.
--   db/db.go (the rows)       Db/Rows: a row as bytes, with its reader in db/select.go; Db/Indexes: the
--                             keys of secondary indexes; Db/Insert: INSERT as a transaction.
--   db/select.go,             Db/Conditions: the filter and the choice of an index; Db/Select: SELECT
--   db/helper.go              by primary key, by an index, and by a full scan.
--   sql_parser/tokeniser.go   Sql/Tokeniser: NextToken, over the runes that are still to be read.
--   sql_parser/parser.go,     Sql/Parser: consume, and the parsers of CREATE TABLE (Create), INSERT INTO
--   sql_parser/ast.go         (Insert) and SELECT (Select), with the statements as records.
--   main.go                   CommandLine: the commands of a line and the loop over the lines, over the
--                             operations of the database as a record.
--
-- Strings and buffers are lists of bytes, Go's int is the native number, and a 32-bit length has its
-- wrap-around written out. An error is a value of Result; a run-time fault (an index or a slice out of
-- range) is the error `panic`. A map is an association list (Base/Dict), and a range over a map takes its
-- order as a parameter. The texts of statements are ASCII: the classes of package unicode are written
-- out for these characters only, so that what is said of a text is said of an ASCII text.
--
-- A loop that Go runs until a condition holds takes the number of rounds: a loop over a buffer moves on
-- by eight bytes at least in each round, so that the length of the buffer is enough, and the binary
-- search takes the length of the index. Sstable/Rounds, Sstable/Search and the round trips are about
-- these bounds. The loop of CREATE TABLE takes a token with each round, and the two loops of SELECT have
-- limits; the loop of INSERT has none, so that its parser has the rounds as a parameter.
--
-- Not modelled: closing files, the JSON text of the manifest, and linearSearch (the option
-- skipIndex). A write to a file of a table is taken to succeed, and a directory is a map from paths to
-- bytes with the manifest beside it. A file that is there already keeps its bytes when NewFile opens it;
-- results that need a new file say so.
--
-- Acquiring a lock runs under the mutex of the transaction manager, releaseAllLocks does not: Db/Locks/Steps
-- lets other steps come between the keys that it gives back, and Db/Locks/Race within one key. A buffer
-- []byte(value) has any number of spare zeros behind its length, which is a parameter of the readers of rows.
pub mod Base
pub mod Wal
pub mod Btree
pub mod Memtable
pub mod Db
pub mod CommandLine
pub mod Sstable
pub mod Sql

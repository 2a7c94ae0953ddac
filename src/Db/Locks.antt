-- ===== src/Db/Locks.antt =====
-- db/transaction.go: the locks of a transaction on keys. A map of pointers to LocksAcquired is a
-- dictionary of the values: each pointer is reached through its key only.
use golang_db.Base.{not, ◌&&◌}
pub mod Exclusion
pub mod Invariant
pub mod Release
pub mod Held
pub mod Reread
pub mod Kept
pub mod Steps
pub mod Race
pub mod Writes
mod Tests
use golang_db.Base.{ℕ, Bool, true, false, Option, none, some, List, [], ◌∷◌, ◌++◌, ltb, ◌==◌}
use golang_db.Base.{if◌then◌else◌, length, Result, ok, err, write_locked, read_locked, panic, ◌>>=◌}
use golang_db.Base.Bytes.{Bytes}
use golang_db.Base.Dict
use golang_db.Base.Dict.{Dict}

-- `writer` is 0 where no transaction holds the write lock.
pub record LocksAcquired : Type 0 where
  pub writer : ℕ
  pub readers : List ℕ

abbrev pub LockTable : Type 0
LockTable = Dict LocksAcquired

-- A transaction, with the pointer to the database passed beside it. A nil map or slice is an empty one.
pub record Transaction : Type 0 where
  pub id : ℕ
  pub buffered_writes : Dict Bytes
  pub lock_acquired_keys : List Bytes

abbrev pub no_locks : LocksAcquired
no_locks = record { writer = 0; readers = [] }

-- The state behind a successful call: the transaction and the table of locks.
abbrev pub Locked : Type 0
Locked = Result (Transaction × LockTable)

add_key : Bytes → Transaction → Transaction
add_key key txn = record txn { lock_acquired_keys = txn.lock_acquired_keys ++ key ∷ [] }

abbrev store_write : Transaction → Bytes → LockTable → List ℕ → Transaction × LockTable
store_write txn key table readers =
    (txn, Dict.put key (record { writer = txn.id; readers = readers }) table)

-- The readers decide where no other transaction writes.
write_over_readers : Transaction → Bytes → LockTable → List ℕ → Locked
unfolding add_key
write_over_readers txn key table [] = ok (store_write (add_key key txn) key table [])
write_over_readers txn key table (reader ∷ []) =
    if reader == txn.id then ok (store_write txn key table []) else err write_locked
write_over_readers txn key table (reader ∷ other ∷ rest) = err write_locked

write_over : Transaction → Bytes → LockTable → Option LocksAcquired → Locked
unfolding write_over_readers
write_over txn key table none = write_over_readers txn key table []
write_over txn key table (some locks) =
    if locks.writer == txn.id
    then ok (txn, table)
    else if locks.writer == 0
    then write_over_readers txn key table locks.readers
    else err write_locked

unfoldable pub try_acquire_write_lock : Transaction → Bytes → LockTable → Locked
unfolding write_over
try_acquire_write_lock txn key table = write_over txn key table (Dict.lookup key table)

unfoldable pub contains : ℕ → List ℕ → Bool
contains id [] = false
contains id (r ∷ rest) = if r == id then true else contains id rest

abbrev store_read : Transaction → Bytes → LockTable → LocksAcquired → Transaction × LockTable
store_read txn key table locks =
    (txn, Dict.put key (record locks { readers = locks.readers ++ txn.id ∷ [] }) table)

-- The key is noted unless the transaction's write lock has noted it.
read_over_locks : Transaction → Bytes → LockTable → LocksAcquired → Bool → Locked
unfolding add_key contains
read_over_locks txn key table locks write_lock_already_acquired =
    if contains txn.id locks.readers
    then ok (txn, table)
    else if write_lock_already_acquired
    then ok (store_read txn key table locks)
    else ok (store_read (add_key key txn) key table locks)

read_over : Transaction → Bytes → LockTable → Option LocksAcquired → Locked
unfolding read_over_locks
read_over txn key table none = read_over_locks txn key table no_locks false
read_over txn key table (some locks) =
    if locks.writer == 0
    then read_over_locks txn key table locks false
    else if locks.writer == txn.id
    then read_over_locks txn key table locks true
    else err read_locked

unfoldable pub try_acquire_read_lock : Transaction → Bytes → LockTable → Locked
unfolding read_over
try_acquire_read_lock txn key table = read_over txn key table (Dict.lookup key table)

unfoldable pub without : ℕ → List ℕ → List ℕ
without id [] = []
without id (r ∷ rest) = if r == id then without id rest else r ∷ without id rest

-- The write lock is given back, or else the read lock.
unfoldable pub release_one : ℕ → LocksAcquired → LocksAcquired
unfolding without
release_one id locks =
    if locks.writer == id
    then record locks { writer = 0 }
    else record locks { readers = without id locks.readers }

unfoldable pub release_key : ℕ → Bytes → LockTable → Option LocksAcquired → Result LockTable
release_key id key table none = err panic
release_key id key table (some locks) = ok (Dict.put key (release_one id locks) table)

-- The reader's part of releaseAllLocks in the two moments that other goroutines may come between: the
-- readers without the transaction are gathered, and later they are assigned through the pointer.
unfoldable pub updated_readers : ℕ → Bytes → LockTable → Result (List ℕ)
unfolding without
updated_readers id key table = elim (Dict.lookup key table) [
  | none ↦ err panic
  | some locks ↦ ok (without id locks.readers)
]

unfoldable pub assign_readers : Bytes → List ℕ → LockTable → Result LockTable
assign_readers key readers table = elim (Dict.lookup key table) [
  | none ↦ err panic
  | some locks ↦ ok (Dict.put key (record locks { readers = readers }) table)
]

-- for _, key := range txn.lockAcquiredKeys; a key that is not in the table is a nil pointer.
unfoldable pub release_keys : ℕ → List Bytes → LockTable → Result LockTable
unfolding release_key
release_keys id [] table = ok table
release_keys id (key ∷ rest) table = do
  table' ← release_key id key table (Dict.lookup key table)
  release_keys id rest table'

forget_keys : Transaction → LockTable → Locked
forget_keys txn table = ok (record txn { lock_acquired_keys = [] }, table)

-- The whole of releaseAllLocks where nothing comes between its steps: it runs without the mutex, and
-- Db/Locks/Steps and Db/Locks/Race are about what comes between.
unfoldable pub release_all_locks : Transaction → LockTable → Locked
unfolding forget_keys
release_all_locks txn table = do
  table' ← release_keys txn.id txn.lock_acquired_keys table
  forget_keys txn table'

-- ===== src/Db/Locks/Steps.antt =====
-- The calls of db/transaction.go on the table of locks as steps, in any order and of any transactions.
use golang_db.Base.{ℕ, ◌≡◌, List, [], ◌∷◌, All, ok}
use golang_db.Base.Bytes.{Bytes}
use golang_db.Base.Dict
use golang_db.Db.Locks.{
  LockTable, Transaction, try_acquire_write_lock, try_acquire_read_lock, release_all_locks,
  release_key,
}
use golang_db.Db.Locks.Exclusion.{IsTable}
use golang_db.Db.Locks.Invariant.{
  write_lock-IsTable, read_lock-IsTable, release_key-IsTable, release_all_locks-IsTable,
  no_locks-IsLock,
}
use golang_db.Db.Locks.Release.{fresh}
use golang_db.Db.Locks.Held.{
  IsHeld, AllHeld, release_all_locks-ok, write_lock-AllHeld, read_lock-AllHeld,
  release_all_locks-AllHeld,
}
use golang_db.Db.Locks.Kept.{
  write_lock-IsHeld, read_lock-IsHeld, release_key-IsHeld, release_all_locks-IsHeld,
}

-- A step that succeeds: the transaction and the table before it, and behind it. Get and Put acquire a lock
-- under the mutex of the transaction manager. releaseAllLocks has no mutex: it gives back one key after
-- the other (`gives_back`), with steps of others between the keys, or all of them at once (`ends`). That
-- nothing else comes while one key is given back is an assumption: Db/Locks/Race is about what happens
-- without it.
pub data Step (txn : Transaction) (table : LockTable) (txn' : Transaction) (table' : LockTable)
    : Type 0 where
  writes :
      (key : Bytes)
      → try_acquire_write_lock txn key table ≡ ok (txn', table')
      → Step txn table txn' table'
  reads :
      (key : Bytes)
      → try_acquire_read_lock txn key table ≡ ok (txn', table')
      → Step txn table txn' table'
  gives_back :
      (key : Bytes)
      → txn' ≡ txn
      → release_key txn.id key table (Dict.lookup key table) ≡ ok table'
      → Step txn table txn' table'
  ends : release_all_locks txn table ≡ ok (txn', table') → Step txn table txn' table'

-- The tables that the calls lead to, from the empty one of a new database.
pub data Reachable : LockTable → Type 0 where
  start : Reachable []
  next :
      (txn txn' : Transaction) (table table' : LockTable)
      → Reachable table
      → Step txn table txn' table'
      → Reachable table'

-- A transaction from its beginning on, and the table, with its own calls and those of others.
pub data Follows : Transaction → LockTable → Type 0 where
  begins : (id : ℕ) (table : LockTable) → Follows (fresh id) table
  own :
      (txn txn' : Transaction) (table table' : LockTable)
      → Follows txn table
      → Step txn table txn' table'
      → Follows txn' table'
  others :
      (txn other other' : Transaction) (table table' : LockTable)
      → Follows txn table
      → Step other table other' table'
      → Follows txn table'

Step-IsTable :
    (txn txn' : Transaction) (table table' : LockTable)
    → IsTable table
    → Step txn table txn' table'
    → IsTable table'
Step-IsTable txn txn' table table' valid (writes key e) =
    write_lock-IsTable txn txn' key table table' valid e
Step-IsTable txn txn' table table' valid (reads key e) =
    read_lock-IsTable txn txn' key table table' valid e
Step-IsTable txn txn' table table' valid (gives_back key same e) =
    release_key-IsTable txn.id key table table' (Dict.lookup key table) valid (valid key) e
Step-IsTable txn txn' table table' valid (ends e) =
    release_all_locks-IsTable txn txn' table table' valid e

-- In every table of locks that any transactions lead to by acquiring locks and by giving back their keys
-- one by one, in any order of these steps, a writer of a key excludes all other readers of it, and no
-- reader is listed twice: this is so where no other step comes while a key is given back, which
-- releaseAllLocks does without the mutex.
pub Reachable-IsTable : (table : LockTable) → Reachable table → IsTable table
unfolding Dict.lookup
Reachable-IsTable _ start = λ key. no_locks-IsLock
Reachable-IsTable _ (next txn txn' table table' r s) =
    Step-IsTable txn txn' table table' (Reachable-IsTable table r) s

Step-IsHeld :
    (txn txn' : Transaction) (table table' : LockTable) (k : Bytes)
    → Step txn table txn' table'
    → IsHeld table k
    → IsHeld table' k
Step-IsHeld txn txn' table table' k (writes key e) = write_lock-IsHeld txn txn' key k table table' e
Step-IsHeld txn txn' table table' k (reads key e) = read_lock-IsHeld txn txn' key k table table' e
Step-IsHeld txn txn' table table' k (gives_back key same e) =
    release_key-IsHeld txn.id key k table table' e
Step-IsHeld txn txn' table table' k (ends e) = release_all_locks-IsHeld txn txn' k table table' e

others-AllHeld :
    (other other' : Transaction) (table table' : LockTable) (keys : List Bytes)
    → Step other table other' table'
    → All (IsHeld table) keys
    → All (IsHeld table') keys
others-AllHeld other other' table table' [] s h = tt
others-AllHeld other other' table table' (k ∷ keys) s h = (
  Step-IsHeld other other' table table' k s h.0,
  others-AllHeld other other' table table' keys s h.1,
)

own-AllHeld :
    (txn txn' : Transaction) (table table' : LockTable)
    → AllHeld txn table
    → Step txn table txn' table'
    → AllHeld txn' table'
own-AllHeld txn txn' table table' h (writes key e) =
    write_lock-AllHeld txn txn' key table table' h e
own-AllHeld txn txn' table table' h (reads key e) = read_lock-AllHeld txn txn' key table table' h e
own-AllHeld txn txn' table table' h (gives_back key same e) =
    rw same (others-AllHeld txn txn' table table' txn.lock_acquired_keys (gives_back key same e) h)
own-AllHeld txn txn' table table' h (ends e) = release_all_locks-AllHeld txn txn' table table' e

Follows-AllHeld : (txn : Transaction) (table : LockTable) → Follows txn table → AllHeld txn table
Follows-AllHeld _ _ (begins id table) = tt
Follows-AllHeld _ _ (own txn txn' table table' f s) =
    own-AllHeld txn txn' table table' (Follows-AllHeld txn table f) s
Follows-AllHeld _ _ (others txn other other' table table' f s) =
    others-AllHeld other other' table table' txn.lock_acquired_keys s (Follows-AllHeld txn table f)

-- Whatever a transaction has locked since it began, and whatever calls of others have come between: its
-- locks can be given back without following a nil pointer.
pub Follows-release :
    (txn : Transaction) (table : LockTable)
    → Follows txn table
    → (s : Transaction × LockTable) × (release_all_locks txn table ≡ ok s)
Follows-release txn table f = release_all_locks-ok txn table (Follows-AllHeld txn table f)

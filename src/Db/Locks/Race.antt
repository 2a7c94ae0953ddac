-- ===== src/Db/Locks/Race.antt =====
-- releaseAllLocks of db/transaction.go runs without the mutex of the transaction manager: two releases
-- that come between each other.
use golang_db.Base.{ℕ, ◌≡◌, ◌≢◌, none, some, [], ◌∷◌, arith, Result, ok, ◌>>=◌}
use golang_db.Base.Bytes.{Bytes}
use golang_db.Base.Dict
use golang_db.Base.Dict.{lookup-put_self}
use golang_db.Db.Locks.{
  LockTable, write_over_readers, write_over, try_acquire_write_lock, add_key, contains,
  read_over_locks, read_over, try_acquire_read_lock, without, updated_readers, assign_readers,
}
use golang_db.Db.Locks.Release.{fresh}

-- `old` has the read lock on the key and gathers the readers without itself; `other` gets the read lock
-- and, ending, gathers the readers, too; `old` assigns; `writer` gets the write lock; `other` assigns.
abbrev pub interleaved_releases : ℕ → ℕ → ℕ → Bytes → LockTable → Result LockTable
interleaved_releases old other writer key table = do
  (txn₁, t₁) ← try_acquire_read_lock (fresh old) key table
  of_old ← updated_readers old key t₁
  (txn₂, t₂) ← try_acquire_read_lock (fresh other) key t₁
  of_other ← updated_readers other key t₂
  t₃ ← assign_readers key of_old t₂
  (txn₃, t₄) ← try_acquire_write_lock (fresh writer) key t₃
  assign_readers key of_other t₄

-- Three new transactions on a key that the table has not: two releases of its readers that come between
-- each other, with the acquiring of locks between them, leave a table in which `writer` has been given
-- the write lock while `old`, which has ended, is listed as a reader of the key. No ids are 0 or the same.
pub interleaved_releases-stale :
    (old other writer : ℕ) (key : Bytes) (table : LockTable)
    → old ≢ 0
    → other ≢ 0
    → writer ≢ 0
    → old ≢ other
    → old ≢ writer
    → other ≢ writer
    → Dict.lookup key table ≡ none
    → (table' : LockTable) × (interleaved_releases old other writer key table ≡ ok table')
      × (Dict.lookup key table' ≡ some (record { writer = writer; readers = old ∷ [] }))
unfolding try_acquire_write_lock write_over write_over_readers add_key try_acquire_read_lock
    read_over read_over_locks contains updated_readers assign_readers without
interleaved_releases-stale old other writer key table a b c d e f free = (
  t₅,
  ground (
    arith,
    free,
    lookup-put_self key (record { writer = 0; readers = old ∷ [] }) table,
    lookup-put_self key (record { writer = 0; readers = old ∷ other ∷ [] }) t₁,
    lookup-put_self key (record { writer = 0; readers = [] }) t₂,
    lookup-put_self key (record { writer = writer; readers = [] }) t₃,
  ),
  lookup-put_self key (record { writer = writer; readers = old ∷ [] }) t₄,
)
  where
    t₁ : LockTable
    t₁ = Dict.put key (record { writer = 0; readers = old ∷ [] }) table

    t₂ : LockTable
    t₂ = Dict.put key (record { writer = 0; readers = old ∷ other ∷ [] }) t₁

    t₃ : LockTable
    t₃ = Dict.put key (record { writer = 0; readers = [] }) t₂

    t₄ : LockTable
    t₄ = Dict.put key (record { writer = writer; readers = [] }) t₃

    t₅ : LockTable
    t₅ = Dict.put key (record { writer = writer; readers = old ∷ [] }) t₄

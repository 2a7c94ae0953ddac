-- ===== src/Db/Locks/Tests.antt =====
-- Runs of the locks of db/transaction.go, with two transactions and one key.
use golang_db.Base.{some}
use golang_db.Base.{◌≡◌, refl, inl, inr, [], ◌∷◌, arith, ok, err, write_locked, read_locked}
use golang_db.Base.Bytes.{Bytes, cmp}
use golang_db.Base.Dict
use golang_db.Db.Locks.{
  LockTable, Transaction, try_acquire_write_lock, try_acquire_read_lock, release_all_locks,
  contains, release_keys, release_one,
}
use golang_db.Db.Locks.Exclusion.{IsTable, locks_on, write_lock_excludes}
use golang_db.Db.Locks.Steps.{
  Reachable, start, next, writes, begins, own, Reachable-IsTable, Follows-release,
}
use golang_db.Db.Locks.Race.{interleaved_releases, interleaved_releases-stale}
use golang_db.Db.Locks.Release.{
  IsFree, release_all_locks-frees, write_read_release, fresh, write_read_release_leaks,
}

abbrev k : Bytes
k = 107 ∷ []

-- The first transaction behind its write to the key, and the table of locks.
abbrev writing : Transaction
writing = record { id = 1; buffered_writes = []; lock_acquired_keys = k ∷ [] }

abbrev written : LockTable
written = (k, record { writer = 1; readers = [] }) ∷ []

abbrev given_back : LockTable
given_back = (k, record { writer = 0; readers = [] }) ∷ []

takes : try_acquire_write_lock (fresh 1) k [] ≡ ok (writing, written)
unfolding try_acquire_write_lock Dict.lookup Dict.put
takes = refl

gives_back : release_all_locks writing written ≡ ok (fresh 1, given_back)
unfolding release_all_locks Dict.lookup Dict.put cmp release_keys release_one
gives_back = refl

to_written : Reachable written
to_written = next (fresh 1) writing [] written start (writes k takes)

Reachable-IsTable_example : IsTable written
Reachable-IsTable_example = Reachable-IsTable written to_written

written-IsTable : IsTable written
written-IsTable = Reachable-IsTable written to_written

Follows-release_example : (s : Transaction × LockTable) × (release_all_locks writing written ≡ ok s)
Follows-release_example =
    Follows-release writing written
      (own (fresh 1) writing [] written (begins 1 []) (writes k takes))

write_lock_excludes_example :
    (try_acquire_write_lock (fresh 2) k written ≡ err write_locked)
    × (try_acquire_read_lock (fresh 2) k written ≡ err read_locked)
write_lock_excludes_example =
    write_lock_excludes (fresh 1) writing (fresh 2) k [] written (omega arith) (omega arith) takes

release_all_locks-frees_example : IsFree 1 (locks_on k given_back)
release_all_locks-frees_example =
    release_all_locks-frees writing (fresh 1) k written given_back (omega arith) (inl refl)
      (inr (unfold contains Dict.lookup cmp in refl)) gives_back

interleaved_releases-stale_example :
    (table' : LockTable) × (interleaved_releases 1 2 3 k [] ≡ ok table')
    × (Dict.lookup k table' ≡ some (record { writer = 3; readers = 1 ∷ [] }))
interleaved_releases-stale_example =
    interleaved_releases-stale 1 2 3 k [] (omega arith) (omega arith) (omega arith) (omega arith)
      (omega arith) (omega arith) (unfold Dict.lookup in refl)

write_read_release_leaks_example :
    (s : Transaction × LockTable) × (write_read_release (fresh 1) k [] ≡ ok s)
    × (try_acquire_write_lock (fresh 2) k s.1 ≡ err write_locked)
write_read_release_leaks_example =
    write_read_release_leaks 1 k [] (fresh 2) (omega arith) (omega arith) (omega arith)
      (unfold Dict.lookup in refl)

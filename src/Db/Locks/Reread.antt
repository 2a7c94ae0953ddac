-- ===== src/Db/Locks/Reread.antt =====
-- A transaction that has the write lock on a key of db/transaction.go is given the read lock.
use golang_db.Base.{
  Bool, ◌≡◌, refl, Option, none, some, true, false, Bool-cases, inl, inr, arith, ◌==◌, Result, ok,
}
use golang_db.Base.Bytes.{Bytes}
use golang_db.Base.Dict
use golang_db.Db.Locks.{
  LocksAcquired, LockTable, Transaction, no_locks, add_key, contains, read_over_locks, read_over,
  try_acquire_read_lock,
}
use golang_db.Db.Locks.Exclusion.{or_no_locks, locks_on}

-- A read lock that is given leaves the buffered writes as they are.
abbrev pub IsGiven : Transaction → Result (Transaction × LockTable) → Type 0
IsGiven txn r =
    (s : Transaction × LockTable) × (r ≡ ok s) × (s.0.buffered_writes ≡ txn.buffered_writes)

module _ (txn : Transaction) (key : Bytes) (table : LockTable) where
  read_over_locks-IsGiven :
      (l : LocksAcquired) (own : Bool) → IsGiven txn (read_over_locks txn key table l own)
  unfolding read_over_locks add_key
  read_over_locks-IsGiven l own = elim (Bool-cases (contains txn.id l.readers)) [
    | inl b ↦ rw b (_, refl, refl)
    | inr b ↦ elim (Bool-cases own) [
      | inl c ↦ rw (b, c) (_, refl, refl)
      | inr c ↦ rw (b, c) (_, refl, refl)
    ]
  ]

  read_over-IsGiven :
      (o : Option LocksAcquired)
      → (or_no_locks o).writer ≡ txn.id
      → IsGiven txn (read_over txn key table o)
  unfolding read_over
  read_over-IsGiven none h = read_over_locks-IsGiven no_locks false
  read_over-IsGiven (some l) h = elim (Bool-cases (l.writer == 0)) [
    | inl b ↦ rw b (read_over_locks-IsGiven l false)
    | inr b ↦ elim (Bool-cases (l.writer == txn.id)) [
      | inl c ↦ rw (b, c) (read_over_locks-IsGiven l true)
      | inr c ↦ absurd (ground (arith, c, h))
    ]
  ]

  pub read_lock-own :
      (locks_on key table).writer ≡ txn.id → IsGiven txn (try_acquire_read_lock txn key table)
  unfolding try_acquire_read_lock
  read_lock-own h = read_over-IsGiven (Dict.lookup key table) h

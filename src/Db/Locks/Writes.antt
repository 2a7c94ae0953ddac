-- ===== src/Db/Locks/Writes.antt =====
-- Taking a lock leaves the writes of a transaction alone.
use golang_db.Db.Locks.Exclusion.{locks_on, or_no_locks}
use golang_db.Base.{
  ℕ, ◌≡◌, refl, sym, ◌==◌, Bool-cases, Option, none, some, inl, inr, List, [], ◌∷◌, ok, err,
}
use golang_db.Base.Bytes.{Bytes}
use golang_db.Base.Dict
use golang_db.Db.Locks.{
  LocksAcquired, LockTable, Transaction, Locked, no_locks, add_key, write_over_readers, write_over,
  try_acquire_write_lock,
}
use mathlib.Core.Path.{subst}

-- A lock changes nothing of the writes.
abbrev SameWrites : Transaction → Locked → Type 0
SameWrites txn (ok (txn', table)) = txn'.buffered_writes ≡ txn.buffered_writes
SameWrites txn (err e) = Unit {0}

write_over_readers-SameWrites :
    (txn : Transaction) (key : Bytes) (table : LockTable) (readers : List ℕ)
    → SameWrites txn (write_over_readers txn key table readers)
unfolding write_over_readers add_key
write_over_readers-SameWrites txn key table [] = refl
write_over_readers-SameWrites txn key table (reader ∷ []) = elim (Bool-cases (reader == txn.id)) [
  | inl e ↦ rw e refl
  | inr e ↦ rw e tt
]
write_over_readers-SameWrites txn key table (reader ∷ other ∷ rest) = tt

write_over-SameWrites :
    (txn : Transaction) (key : Bytes) (table : LockTable) (o : Option LocksAcquired)
    → SameWrites txn (write_over txn key table o)
unfolding write_over
write_over-SameWrites txn key table none = write_over_readers-SameWrites txn key table []
write_over-SameWrites txn key table (some locks) = elim (Bool-cases (locks.writer == txn.id)) [
  | inl e ↦ rw e refl
  | inr e ↦ elim (Bool-cases (locks.writer == 0)) [
    | inl e' ↦ rw (e, e') (write_over_readers-SameWrites txn key table locks.readers)
    | inr e' ↦ rw (e, e') tt
  ]
]

pub write_lock-writes :
    (txn txn' : Transaction) (key : Bytes) (table table' : LockTable)
    → try_acquire_write_lock txn key table ≡ ok (txn', table')
    → txn'.buffered_writes ≡ txn.buffered_writes
unfolding try_acquire_write_lock
write_lock-writes txn txn' key table table' e =
    subst (SameWrites txn) e (write_over-SameWrites txn key table (Dict.lookup key table))

write_over-free :
    (txn : Transaction) (key : Bytes) (table : LockTable) (o : Option LocksAcquired)
    → or_no_locks o ≡ no_locks
    → (s : Transaction × LockTable) × (write_over txn key table o ≡ ok s)
unfolding write_over write_over_readers
write_over-free txn key table none h = (_, refl)
write_over-free txn key table (some l) h =
    subst
      (λ (l' : LocksAcquired).
        (s : Transaction × LockTable) × (write_over txn key table (some l') ≡ ok s))
      (sym h)
      (elim (Bool-cases (0 == txn.id)) [
        | inl mine ↦ rw mine (_, refl)
        | inr other ↦ rw other (_, refl)
      ])

-- The lock on a key that nobody has locked is given.
pub write_lock-free :
    (txn : Transaction) (key : Bytes) (table : LockTable)
    → locks_on key table ≡ no_locks
    → (s : Transaction × LockTable) × (try_acquire_write_lock txn key table ≡ ok s)
unfolding try_acquire_write_lock
write_lock-free txn key table h = write_over-free txn key table (Dict.lookup key table) h

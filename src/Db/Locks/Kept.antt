-- ===== src/Db/Locks/Kept.antt =====
-- No call of db/transaction.go takes a key out of the table of locks.
use golang_db.Base.{refl}
use golang_db.Base.{
  ℕ, Bool, ◌≡◌, Option, none, some, true, false, Bool-cases, Option-cases, inl, inr, List, [], ◌∷◌,
  ◌==◌, Result, ok, err, ◌>>=◌,
}
use mathlib.Core.Path.{subst}
use golang_db.Base.Bytes.{Bytes}
use golang_db.Base.Dict
use golang_db.Db.Locks.{
  LocksAcquired, LockTable, Locked, Transaction, no_locks, write_over_readers, write_over,
  try_acquire_write_lock, contains, read_over_locks, read_over, try_acquire_read_lock, release_one,
  release_key, release_keys, release_all_locks, forget_keys,
}
use golang_db.Db.Locks.Held.{IsHeld, put-IsHeld}

-- The key is still in the table behind a call that succeeds.
abbrev Kept : Bytes → Locked → Type 0
Kept k (ok (txn, table)) = IsHeld table k
Kept k (err e) = Unit {0}

abbrev KeptIn : Bytes → Result LockTable → Type 0
KeptIn k (ok table) = IsHeld table k
KeptIn k (err e) = Unit {0}

module _ (txn : Transaction) (key k : Bytes) (table : LockTable) (held : IsHeld table k) where
  write_over_readers-Kept : (readers : List ℕ) → Kept k (write_over_readers txn key table readers)
  unfolding write_over_readers
  write_over_readers-Kept [] = put-IsHeld k key _ table held
  write_over_readers-Kept (r ∷ []) = elim (Bool-cases (r == txn.id)) [
    | inl b ↦ rw b (put-IsHeld k key _ table held)
    | inr b ↦ rw b tt
  ]
  write_over_readers-Kept (r ∷ s ∷ rest) = tt

  write_over-Kept : (o : Option LocksAcquired) → Kept k (write_over txn key table o)
  unfolding write_over
  write_over-Kept none = write_over_readers-Kept []
  write_over-Kept (some l) = elim (Bool-cases (l.writer == txn.id)) [
    | inl b ↦ rw b held
    | inr b ↦ elim (Bool-cases (l.writer == 0)) [
      | inl c ↦ rw (b, c) (write_over_readers-Kept l.readers)
      | inr c ↦ rw (b, c) tt
    ]
  ]

  read_over_locks-Kept :
      (l : LocksAcquired) (own : Bool) → Kept k (read_over_locks txn key table l own)
  unfolding read_over_locks
  read_over_locks-Kept l own = elim (Bool-cases (contains txn.id l.readers)) [
    | inl b ↦ rw b held
    | inr b ↦ elim (Bool-cases own) [
      | inl c ↦ rw (b, c) (put-IsHeld k key _ table held)
      | inr c ↦ rw (b, c) (put-IsHeld k key _ table held)
    ]
  ]

  read_over-Kept : (o : Option LocksAcquired) → Kept k (read_over txn key table o)
  unfolding read_over
  read_over-Kept none = read_over_locks-Kept no_locks false
  read_over-Kept (some l) = elim (Bool-cases (l.writer == 0)) [
    | inl b ↦ rw b (read_over_locks-Kept l false)
    | inr b ↦ elim (Bool-cases (l.writer == txn.id)) [
      | inl c ↦ rw (b, c) (read_over_locks-Kept l true)
      | inr c ↦ rw (b, c) tt
    ]
  ]

release_keys-Kept :
    (id : ℕ) (keys : List Bytes) (k : Bytes) (table : LockTable)
    → IsHeld table k
    → KeptIn k (release_keys id keys table)
unfolding release_keys release_key
release_keys-Kept id [] k table held = held
release_keys-Kept id (key ∷ keys) k table held = elim (Option-cases (Dict.lookup key table)) [
  | inl e ↦ rw e tt
  | inr (l, e) ↦ rw e (
      release_keys-Kept id keys k (Dict.put key (release_one id l) table)
        (put-IsHeld k key (release_one id l) table held))
]

pub release_key-IsHeld :
    (id : ℕ) (key k : Bytes) (table table' : LockTable)
    → release_key id key table (Dict.lookup key table) ≡ ok table'
    → IsHeld table k
    → IsHeld table' k
release_key-IsHeld id key k table table' e held =
    let one : release_keys id (key ∷ []) table ≡ ok table' = unfold release_keys in rw e refl in
    subst (KeptIn k) one (release_keys-Kept id (key ∷ []) k table held)

forget_keys-Kept :
    (txn : Transaction) (k : Bytes) (r : Result LockTable)
    → KeptIn k r
    → Kept k (r >>= forget_keys txn)
unfolding forget_keys
forget_keys-Kept txn k (ok table) h = h
forget_keys-Kept txn k (err e) h = tt

pub write_lock-IsHeld :
    (txn txn' : Transaction) (key k : Bytes) (table table' : LockTable)
    → try_acquire_write_lock txn key table ≡ ok (txn', table')
    → IsHeld table k
    → IsHeld table' k
unfolding try_acquire_write_lock
write_lock-IsHeld txn txn' key k table table' e held =
    subst (Kept k) e (write_over-Kept txn key k table held (Dict.lookup key table))

pub read_lock-IsHeld :
    (txn txn' : Transaction) (key k : Bytes) (table table' : LockTable)
    → try_acquire_read_lock txn key table ≡ ok (txn', table')
    → IsHeld table k
    → IsHeld table' k
unfolding try_acquire_read_lock
read_lock-IsHeld txn txn' key k table table' e held =
    subst (Kept k) e (read_over-Kept txn key k table held (Dict.lookup key table))

pub release_all_locks-IsHeld :
    (txn txn' : Transaction) (k : Bytes) (table table' : LockTable)
    → release_all_locks txn table ≡ ok (txn', table')
    → IsHeld table k
    → IsHeld table' k
unfolding release_all_locks
release_all_locks-IsHeld txn txn' k table table' e held = subst (Kept k) e (
    forget_keys-Kept txn k (release_keys txn.id txn.lock_acquired_keys table)
      (release_keys-Kept txn.id txn.lock_acquired_keys k table held))

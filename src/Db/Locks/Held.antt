-- ===== src/Db/Locks/Held.antt =====
-- The keys that a transaction notes are in the table of locks of db/transaction.go: giving them back
-- follows no nil pointer.
use golang_db.Base.{◌>>=◌}
use golang_db.Base.{Result}
use golang_db.Base.{
  ℕ, Bool, ◌≡◌, refl, ◌∙◌, Option, none, some, true, false, Bool-cases, inl, inr, List, [], ◌∷◌,
  ◌++◌, All, ◌==◌, ok, err,
}
use mathlib.Core.Path.{subst}
use golang_db.Base.Bytes.{Bytes, str_eq}
use golang_db.Base.Dict
use golang_db.Base.Dict.{Dict, lookup-put, lookup-put_self}
use golang_db.Db.Locks.{
  LocksAcquired, LockTable, Locked, Transaction, no_locks, add_key, write_over_readers, write_over,
  try_acquire_write_lock, contains, read_over_locks, read_over, try_acquire_read_lock, release_one,
  release_key, release_keys, release_all_locks, forget_keys,
}

-- The table has an entry for each key that the transaction has noted.
abbrev pub IsHeld : LockTable → Bytes → Type 0
IsHeld table key = (l : LocksAcquired) × (Dict.lookup key table ≡ some l)

pub put-IsHeld :
    (key k : Bytes) (l : LocksAcquired) (table : LockTable)
    → IsHeld table key
    → IsHeld (Dict.put k l table) key
put-IsHeld key k l table (o, h) = elim (Bool-cases (str_eq k key)) [
  | inl same ↦ (l, lookup-put key k l table ∙ rw same)
  | inr other ↦ (o, lookup-put key k l table ∙ rw other h)
]

All-IsHeld :
    (k : Bytes) (l : LocksAcquired) (table : LockTable) (keys : List Bytes)
    → All (IsHeld table) keys
    → All (IsHeld (Dict.put k l table)) keys
All-IsHeld k l table [] h = tt
All-IsHeld k l table (key ∷ keys) h = (put-IsHeld key k l table h.0, All-IsHeld k l table keys h.1)

release_keys-ok :
    (id : ℕ) (keys : List Bytes) (table : LockTable)
    → All (IsHeld table) keys
    → (table' : LockTable) × (release_keys id keys table ≡ ok table')
unfolding release_keys release_key
release_keys-ok id [] table h = (table, refl)
release_keys-ok id (key ∷ keys) table ((l, here), h) =
    let (t, runs) =
      release_keys-ok id keys (Dict.put key (release_one id l) table)
        (All-IsHeld key (release_one id l) table keys h) in
    (t, rw here runs)

abbrev pub AllHeld : Transaction → LockTable → Type 0
AllHeld txn table = All (IsHeld table) txn.lock_acquired_keys

pub release_all_locks-ok :
    (txn : Transaction) (table : LockTable)
    → AllHeld txn table
    → (s : Transaction × LockTable) × (release_all_locks txn table ≡ ok s)
unfolding release_all_locks forget_keys
release_all_locks-ok txn table h =
    let (t, runs) = release_keys-ok txn.id txn.lock_acquired_keys table h in
    ((record txn { lock_acquired_keys = [] }, t), rw runs)

noted :
    (key : Bytes) (l : LocksAcquired) (table : LockTable) (keys : List Bytes)
    → All (IsHeld table) keys
    → All (IsHeld (Dict.put key l table)) (keys ++ key ∷ [])
noted key l table [] h = ((l, lookup-put_self key l table), tt)
noted key l table (k ∷ keys) h = (put-IsHeld k key l table h.0, noted key l table keys h.1)

-- What holds of the transaction and the table behind a call that succeeds.
abbrev After : Locked → Type 0
After (ok (txn, table)) = AllHeld txn table
After (err e) = Unit {0}

module _ (txn : Transaction) (key : Bytes) (table : LockTable) (held : AllHeld txn table) where
  write_over_readers-After : (readers : List ℕ) → After (write_over_readers txn key table readers)
  unfolding write_over_readers add_key
  write_over_readers-After [] = noted key _ table txn.lock_acquired_keys held
  write_over_readers-After (r ∷ []) = elim (Bool-cases (r == txn.id)) [
    | inl b ↦ rw b (All-IsHeld key _ table txn.lock_acquired_keys held)
    | inr b ↦ rw b tt
  ]
  write_over_readers-After (r ∷ s ∷ rest) = tt

  write_over-After : (o : Option LocksAcquired) → After (write_over txn key table o)
  unfolding write_over
  write_over-After none = write_over_readers-After []
  write_over-After (some l) = elim (Bool-cases (l.writer == txn.id)) [
    | inl b ↦ rw b held
    | inr b ↦ elim (Bool-cases (l.writer == 0)) [
      | inl c ↦ rw (b, c) (write_over_readers-After l.readers)
      | inr c ↦ rw (b, c) tt
    ]
  ]

  read_over_locks-After :
      (l : LocksAcquired) (own : Bool) → After (read_over_locks txn key table l own)
  unfolding read_over_locks add_key
  read_over_locks-After l own = elim (Bool-cases (contains txn.id l.readers)) [
    | inl b ↦ rw b held
    | inr b ↦ elim (Bool-cases own) [
      | inl c ↦ rw (b, c) (All-IsHeld key _ table txn.lock_acquired_keys held)
      | inr c ↦ rw (b, c) (noted key _ table txn.lock_acquired_keys held)
    ]
  ]

  read_over-After : (o : Option LocksAcquired) → After (read_over txn key table o)
  unfolding read_over
  read_over-After none = read_over_locks-After no_locks false
  read_over-After (some l) = elim (Bool-cases (l.writer == 0)) [
    | inl b ↦ rw b (read_over_locks-After l false)
    | inr b ↦ elim (Bool-cases (l.writer == txn.id)) [
      | inl c ↦ rw (b, c) (read_over_locks-After l true)
      | inr c ↦ rw (b, c) tt
    ]
  ]

forget_keys-After : (txn : Transaction) (r : Result LockTable) → After (r >>= forget_keys txn)
unfolding forget_keys
forget_keys-After txn (ok table) = tt
forget_keys-After txn (err e) = tt

pub write_lock-AllHeld :
    (txn txn' : Transaction) (key : Bytes) (table table' : LockTable)
    → AllHeld txn table
    → try_acquire_write_lock txn key table ≡ ok (txn', table')
    → AllHeld txn' table'
unfolding try_acquire_write_lock
write_lock-AllHeld txn txn' key table table' held e =
    subst After e (write_over-After txn key table held (Dict.lookup key table))

pub read_lock-AllHeld :
    (txn txn' : Transaction) (key : Bytes) (table table' : LockTable)
    → AllHeld txn table
    → try_acquire_read_lock txn key table ≡ ok (txn', table')
    → AllHeld txn' table'
unfolding try_acquire_read_lock
read_lock-AllHeld txn txn' key table table' held e =
    subst After e (read_over-After txn key table held (Dict.lookup key table))

pub release_all_locks-AllHeld :
    (txn txn' : Transaction) (table table' : LockTable)
    → release_all_locks txn table ≡ ok (txn', table')
    → AllHeld txn' table'
unfolding release_all_locks
release_all_locks-AllHeld txn txn' table table' e =
    subst After e (forget_keys-After txn (release_keys txn.id txn.lock_acquired_keys table))

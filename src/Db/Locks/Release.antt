-- ===== src/Db/Locks/Release.antt =====
-- What a transaction gives back when it ends: releaseAllLocks of db/transaction.go.
use golang_db.Base.Dict.{lookup-put_self}
use golang_db.Db.Locks.Invariant.{release_keys_inv, release_all_inv}
use golang_db.Base.{
  ℕ, ◌≡◌, ◌≢◌, refl, ap, ◌⊎◌, inl, inr, false, Option, none, some, List, [], ◌∷◌, arith,
}
use golang_db.Base.{Bool-cases, if◌then◌else◌, ok, err, write_locked, ◌>>=◌}
use golang_db.Base.Bytes.{Bytes, str_eq, str_eq_iff}
use golang_db.Base.Dict
use golang_db.Base.Dict.{lookup-put}
use golang_db.Db.Locks.{
  LocksAcquired, LockTable, Locked, Transaction, write_over_readers, write_over,
  try_acquire_write_lock, contains,
}
use golang_db.Db.Locks.{
  read_over_locks, read_over, try_acquire_read_lock, add_key, without, release_one, release_key,
  release_keys, release_all_locks,
}
use golang_db.Db.Locks.Exclusion.{or_no_locks, locks_on, locks_on-put}

-- The transaction `id` has no lock.
abbrev pub IsFree : ℕ → LocksAcquired → Type 0
IsFree id l = (l.writer ≢ id) × (contains id l.readers ≡ false)

-- It has not both locks.
abbrev pub IsSingle : ℕ → LocksAcquired → Type 0
IsSingle id l = (l.writer ≢ id) ⊎ (contains id l.readers ≡ false)

contains-without : (id : ℕ) (l : List ℕ) → contains id (without id l) ≡ false
unfolding contains without
contains-without id [] = refl
contains-without id (r ∷ l) = ground (arith, contains-without id l)

release_one-IsFree :
    (id : ℕ) (l : LocksAcquired) → id ≢ 0 → IsSingle id l → IsFree id (release_one id l)
unfolding release_one
release_one-IsFree id l nz single = ground (arith, contains-without id l.readers)

release_one-kept :
    (id : ℕ) (l : LocksAcquired) → id ≢ 0 → IsFree id l → IsFree id (release_one id l)
release_one-kept id l nz (nw, nr) = release_one-IsFree id l nz (inl nw)

-- `key` is among `keys`.
abbrev pub IsNoted : Bytes → List Bytes → Type 0
IsNoted key [] = ⊥
IsNoted key (k ∷ keys) = (k ≡ key) ⊎ IsNoted key keys

module _ (id : ℕ) (nz : id ≢ 0) where
  -- The lock on `j` after `key` is released.
  released_at :
      (j key : Bytes) (table table' : LockTable) (o : Option LocksAcquired)
      → Dict.lookup key table ≡ o
      → release_key id key table o ≡ ok table'
      → locks_on j table'
        ≡ (if str_eq key j then release_one id (locks_on key table) else locks_on j table)
  unfolding release_key
  released_at j key table table' none e h = cc
  released_at j key table table' (some o) e h =
      ground (arith, locks_on-put j key (release_one id o) table, ap or_no_locks e)

  after_key :
      (j key : Bytes) (table table' : LockTable)
      → release_key id key table (Dict.lookup key table) ≡ ok table'
      → locks_on j table'
        ≡ (if str_eq key j then release_one id (locks_on key table) else locks_on j table)
  after_key j key table table' h = released_at j key table table' (Dict.lookup key table) refl h

  release_key-kept :
      (j key : Bytes) (table table' : LockTable)
      → IsFree id (locks_on j table)
      → release_key id key table (Dict.lookup key table) ≡ ok table'
      → IsFree id (locks_on j table')
  release_key-kept j key table table' free h = elim (Bool-cases (str_eq key j)) [
    | inl b ↦
        rw (after_key j key table table' h, b)
          (release_one-kept id (locks_on key table) nz (rw ((str_eq_iff key j).0 b) free))
    | inr b ↦ rw (after_key j key table table' h, b) free
  ]

  release_keys-kept :
      (j : Bytes) (keys : List Bytes) (table table' : LockTable)
      → IsFree id (locks_on j table)
      → release_keys id keys table ≡ ok table'
      → IsFree id (locks_on j table')
  release_keys-kept j [] table table' free h =
      let e : table ≡ table' = unfold release_keys in ground arith in rw (← e) free
  release_keys-kept j (key ∷ keys) table table' free h =
      let (t₁, first, others) = release_keys_inv id key keys table table' h in
      release_keys-kept j keys t₁ table' (release_key-kept j key table t₁ free first) others

  release_keys-frees :
      (j : Bytes) (keys : List Bytes) (table table' : LockTable)
      → IsNoted j keys
      → IsSingle id (locks_on j table)
      → release_keys id keys table ≡ ok table'
      → IsFree id (locks_on j table')
  release_keys-frees j [] table table' noted single h = absurd noted
  release_keys-frees j (key ∷ keys) table table' noted single h =
      let (t₁, first, others) = release_keys_inv id key keys table table' h in
      elim (Bool-cases (str_eq key j)) [
        | inl b ↦
            release_keys-kept j keys t₁ table'
              (rw (after_key j key table t₁ first, b)
                (release_one-IsFree id (locks_on key table) nz
                  (rw ((str_eq_iff key j).0 b) single)))
              others
        | inr b ↦ elim noted [
          | inl e ↦ cc (b, (str_eq_iff key j).1 e)
          | inr more ↦
              release_keys-frees j keys t₁ table' more
                (rw (after_key j key table t₁ first, b) single) others
        ]
      ]

-- When a transaction whose id is not 0 ends without a fault, a key that it has noted is free of it,
-- unless it had both locks on the key.
pub release_all_locks-frees :
    (txn txn' : Transaction) (key : Bytes) (table table' : LockTable)
    → txn.id ≢ 0
    → IsNoted key txn.lock_acquired_keys
    → IsSingle txn.id (locks_on key table)
    → release_all_locks txn table ≡ ok (txn', table')
    → IsFree txn.id (locks_on key table')
release_all_locks-frees txn txn' key table table' nz noted single h =
    release_keys-frees txn.id nz key txn.lock_acquired_keys table table' noted single
      (release_all_inv txn txn' table table' h)

-- A new transaction that takes the write lock on a key, then the read lock, and ends.
abbrev pub write_read_release : Transaction → Bytes → LockTable → Locked
write_read_release txn key table = do
  (txn', table') ← try_acquire_write_lock txn key table
  (txn'', table'') ← try_acquire_read_lock txn' key table'
  release_all_locks txn'' table''

abbrev pub fresh : ℕ → Transaction
fresh id = record { id = id; buffered_writes = []; lock_acquired_keys = [] }

abbrev leaked : ℕ → LocksAcquired
leaked id = record { writer = 0; readers = id ∷ [] }

leak :
    (id : ℕ) (key : Bytes) (table : LockTable)
    → id ≢ 0
    → Dict.lookup key table ≡ none
    → (s : Transaction × LockTable) × (write_read_release (fresh id) key table ≡ ok s)
      × (Dict.lookup key s.1 ≡ some (leaked id))
unfolding try_acquire_write_lock write_over write_over_readers add_key try_acquire_read_lock
    read_over read_over_locks contains release_all_locks release_keys release_key release_one
leak id key table nz free = (
  (fresh id, t₃),
  ground (
    arith,
    free,
    lookup-put_self key (record { writer = id; readers = [] }) table,
    lookup-put_self key (record { writer = id; readers = id ∷ [] }) t₁,
  ),
  lookup-put_self key (leaked id) t₂,
)
  where
    t₁ : LockTable
    t₁ = Dict.put key (record { writer = id; readers = [] }) table

    t₂ : LockTable
    t₂ = Dict.put key (record { writer = id; readers = id ∷ [] }) t₁

    t₃ : LockTable
    t₃ = Dict.put key (leaked id) t₂

-- A new transaction, whose id is not 0, that writes a key which the table has not, and then reads it,
-- leaves its read lock behind when it ends: every other transaction, whose id is not 0, is then refused
-- the write lock on that key.
pub write_read_release_leaks :
    (id : ℕ) (key : Bytes) (table : LockTable) (other : Transaction)
    → id ≢ 0
    → other.id ≢ id
    → other.id ≢ 0
    → Dict.lookup key table ≡ none
    → (s : Transaction × LockTable) × (write_read_release (fresh id) key table ≡ ok s)
      × (try_acquire_write_lock other key s.1 ≡ err write_locked)
unfolding try_acquire_write_lock write_over write_over_readers
write_read_release_leaks id key table other nz differ some_id free =
    let (s, runs, left) = leak id key table nz free in (s, runs, ground (arith, left))

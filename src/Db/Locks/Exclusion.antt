-- ===== src/Db/Locks/Exclusion.antt =====
-- Who can have a lock beside whom.
use golang_db.Base.{false}
use golang_db.Base.{ap}
use mathlib.Core.Path.{subst}
use golang_db.Base.Bytes.{cmp_refl}
use golang_db.Base.{◌↔◌}
use golang_db.Base.{Bool-cases, ==_iff, sym, ◌∙◌}
use golang_db.Base.{ℕ, ◌≡◌, ◌≢◌, refl, ◌⊎◌, inl, inr, Option, none, some, List, [], ◌∷◌, arith}
use golang_db.Base.{◌==◌, if◌then◌else◌, All, Result, ok, err, write_locked, read_locked}
use golang_db.Base.Bytes.{Bytes, str_eq}
use golang_db.Base.Dict
use golang_db.Base.Dict.{lookup-put}
use golang_db.Db.Locks.{
  LocksAcquired, LockTable, Transaction, write_over_readers, write_over, try_acquire_write_lock,
}
use golang_db.Db.Locks.{read_over, try_acquire_read_lock, add_key, no_locks}

abbrev pub or_no_locks : Option LocksAcquired → LocksAcquired
or_no_locks none = no_locks
or_no_locks (some l) = l

-- The locks on a key.
abbrev pub locks_on : Bytes → LockTable → LocksAcquired
locks_on key table = or_no_locks (Dict.lookup key table)

-- Each transaction reads once.
abbrev pub Distinct : List ℕ → Type 0
Distinct [] = Unit {0}
Distinct (r ∷ rest) = All (λ s. s ≢ r) rest × Distinct rest

-- Where a transaction writes, no other one reads, and no reader is listed twice.
pub record IsLock (l : LocksAcquired) : Type 0 where
  pub exclusive : l.writer ≢ 0 → All (λ r. r ≡ l.writer) l.readers
  pub distinct : Distinct l.readers

abbrev pub IsTable : LockTable → Type 0
IsTable table = (key : Bytes) → IsLock (locks_on key table)

pub locks_on-put :
    (j k : Bytes) (l : LocksAcquired) (table : LockTable)
    → locks_on j (Dict.put k l table) ≡ (if str_eq k j then l else locks_on j table)
locks_on-put j k l table = ground (arith, lookup-put j k l table)

-- No transaction but `id` has a lock.
abbrev pub OnlyOwn : ℕ → LocksAcquired → Type 0
OnlyOwn id l = ((l.writer ≡ 0) ⊎ (l.writer ≡ id)) × All (λ r. r ≡ id) l.readers

abbrev pub IsOk {ℓ} : {A : Type ℓ} → Result A → Type 0
IsOk (ok a) = Unit {0}
IsOk (err e) = ⊥

module _ (txn : Transaction) (key : Bytes) (table : LockTable) where
  over_readers-own :
      (readers : List ℕ)
      → IsOk (write_over_readers txn key table readers)
      → All (λ r. r ≡ txn.id) readers
  unfolding write_over_readers
  over_readers-own [] h = tt
  over_readers-own (r ∷ []) h = ground arith
  over_readers-own (r ∷ s ∷ rest) h = absurd h

  own-over_readers :
      (readers : List ℕ)
      → Distinct readers
      → All (λ r. r ≡ txn.id) readers
      → IsOk (write_over_readers txn key table readers)
  unfolding write_over_readers
  own-over_readers [] d h = tt
  own-over_readers (r ∷ []) d h = ground arith
  own-over_readers (r ∷ s ∷ rest) d h = absurd (d.0.0 (h.1.0 ∙ sym h.0))

  over-own :
      txn.id ≢ 0
      → (o : LocksAcquired) → IsLock o
      → IsOk (write_over txn key table (some o))
      → OnlyOwn txn.id o
  unfolding write_over
  over-own nonzero o v h = elim (Bool-cases (o.writer == txn.id)) [
    | inl own ↦
        let e = (==_iff _ _).0 own in
        (
          inr e,
          subst (λ (n : ℕ). All (λ r. r ≡ n) o.readers) e (v.exclusive (λ z. nonzero (sym e ∙ z))),
        )
    | inr other ↦ elim (Bool-cases (o.writer == 0)) [
      | inl z ↦ (inl ((==_iff _ _).0 z), over_readers-own o.readers (rw (other, z) at h))
      | inr z ↦ absurd (rw (other, z) at h)
    ]
  ]

  own-over :
      txn.id ≢ 0
      → (o : LocksAcquired) → IsLock o
      → OnlyOwn txn.id o
      → IsOk (write_over txn key table (some o))
  unfolding write_over
  own-over nonzero o v (inl free, own) =
      let other : (o.writer == txn.id) ≡ false = ground arith in
      rw (other, (==_iff o.writer 0).1 free) (own-over_readers o.readers v.distinct own)
  own-over nonzero o v (inr mine, own) = ground arith

  write_over_iff :
      txn.id ≢ 0
      → (o : Option LocksAcquired) → IsLock (or_no_locks o)
      → IsOk (write_over txn key table o) ↔ OnlyOwn txn.id (or_no_locks o)
  write_over_iff nonzero none v =
      unfold write_over write_over_readers in (λ h. (inl refl, tt), λ h. tt)
  write_over_iff nonzero (some o) v = (over-own nonzero o v, own-over nonzero o v)

  -- In a valid table of locks, a transaction whose id is not 0 gets the write lock on a key exactly where
  -- no other transaction has a lock on it.
  pub write_lock_iff :
      txn.id ≢ 0
      → IsTable table
      → IsOk (try_acquire_write_lock txn key table) ↔ OnlyOwn txn.id (locks_on key table)
  unfolding try_acquire_write_lock
  write_lock_iff nonzero valid = write_over_iff nonzero (Dict.lookup key table) (valid key)

-- The transaction has the write lock.
write_over_readers-owns :
    (txn txn' : Transaction) (key : Bytes) (table table' : LockTable) (readers : List ℕ)
    → write_over_readers txn key table readers ≡ ok (txn', table')
    → (txn'.id ≡ txn.id) × (locks_on key table' ≡ record { writer = txn.id; readers = [] })
unfolding write_over_readers add_key
write_over_readers-owns txn txn' key table table' [] h =
    ground
      (arith, locks_on-put key key (record { writer = txn.id; readers = [] }) table, cmp_refl key)
write_over_readers-owns txn txn' key table table' (r ∷ []) h =
    ground
      (arith, locks_on-put key key (record { writer = txn.id; readers = [] }) table, cmp_refl key)
write_over_readers-owns txn txn' key table table' (r ∷ s ∷ rest) h = cc

write_over-owns :
    (txn txn' : Transaction) (key : Bytes) (table table' : LockTable) (o : Option LocksAcquired)
    → Dict.lookup key table ≡ o
    → write_over txn key table o ≡ ok (txn', table')
    → (txn'.id ≡ txn.id) × ((locks_on key table').writer ≡ txn.id)
unfolding write_over
write_over-owns txn txn' key table table' none e h =
    ground (arith, write_over_readers-owns txn txn' key table table' [] h)
write_over-owns txn txn' key table table' (some o) e h =
    ground (arith, write_over_readers-owns txn txn' key table table' o.readers, ap or_no_locks e)

pub write_lock-owns :
    (txn txn' : Transaction) (key : Bytes) (table table' : LockTable)
    → try_acquire_write_lock txn key table ≡ ok (txn', table')
    → (txn'.id ≡ txn.id) × ((locks_on key table').writer ≡ txn.id)
unfolding try_acquire_write_lock
write_lock-owns txn txn' key table table' h =
    write_over-owns txn txn' key table table' (Dict.lookup key table) refl h

-- Beside a writer every other transaction is refused.
write_over_refused :
    (txn : Transaction) (key : Bytes) (table : LockTable) (o : Option LocksAcquired)
    → (or_no_locks o).writer ≢ 0
    → (or_no_locks o).writer ≢ txn.id
    → (write_over txn key table o ≡ err write_locked)
      × (read_over txn key table o ≡ err read_locked)
unfolding write_over read_over
write_over_refused txn key table none nonzero other = absurd (nonzero refl)
write_over_refused txn key table (some o) nonzero other = ground arith

-- Where a transaction whose id is not 0 has been given the write lock on a key, every other transaction
-- is refused both locks on it.
pub write_lock_excludes :
    (txn txn' other : Transaction) (key : Bytes) (table table' : LockTable)
    → txn.id ≢ 0
    → other.id ≢ txn.id
    → try_acquire_write_lock txn key table ≡ ok (txn', table')
    → (try_acquire_write_lock other key table' ≡ err write_locked)
      × (try_acquire_read_lock other key table' ≡ err read_locked)
unfolding try_acquire_write_lock try_acquire_read_lock
write_lock_excludes txn txn' other key table table' nonzero differ h =
    let (_, owns) = write_lock-owns txn txn' key table table' h in
    write_over_refused other key table' (Dict.lookup key table') (λ e. nonzero (sym owns ∙ e))
      (λ e. differ (sym e ∙ owns))

-- ===== src/Db/Transactions/Reads.antt =====
-- What a transaction of db/transaction.go reads, and what the others see of it before it commits.
use golang_db.Base.{◌≡◌, refl, sym, ap, ◌∙◌, some, Result, ok, err, >>=-eq-ok}
use golang_db.Base.Bytes.{Bytes}
use golang_db.Base.Dict
use golang_db.Base.Dict.{Dict, lookup-put_self}
use golang_db.Memtable.{EntryTree}
use golang_db.Db.Locks.{LockTable, Transaction, try_acquire_write_lock}
use golang_db.Db.Locks.Reread.{read_lock-own}
use mathlib.Core.Path.{subst}
use golang_db.Db.Locks.Exclusion.{locks_on, write_lock-owns}
use golang_db.Db.Database.{Db, get}
use golang_db.Db.Transactions.{txn_put, txn_get, read_value, with_locks}

module _ (bt : EntryTree) where
  read_value-own :
      (txn : Transaction) (db : Db bt) (key value : Bytes)
      → Dict.lookup key txn.buffered_writes ≡ some value
      → read_value bt txn db key ≡ ok value
  unfolding read_value
  read_value-own txn db key value h = rw (h, read_value)

  txn_get-own :
      (txn : Transaction) (db : Db bt) (key value : Bytes)
      → (locks_on key db.transaction_manager.key_vs_locks_acquired_map).writer ≡ txn.id
      → Dict.lookup key txn.buffered_writes ≡ some value
      → (s : Transaction × Db bt) × (txn_get bt txn db key ≡ ok (ok value, s.0, s.1))
  unfolding txn_get
  txn_get-own txn db key value owns here =
      let ((txn', locks), runs, same) =
        read_lock-own txn key db.transaction_manager.key_vs_locks_acquired_map owns in
      (
        (txn', with_locks bt db locks),
        rw runs (
            ap (λ (r : Result Bytes). ok (r, txn', with_locks bt db locks))
              (read_value-own txn' db key value (ap (Dict.lookup key) same ∙ here))),
      )

  get-with_locks :
      (db : Db bt) (locks : LockTable) (j : Bytes) → get bt (with_locks bt db locks) j ≡ get bt db j
  unfolding get with_locks
  get-with_locks db locks j = refl

  -- What is claimed behind a call that succeeds.
  abbrev Own : Db bt → Bytes → Bytes → Result (Transaction × Db bt) → Type 0
  Own db key value (ok (txn', db')) =
      ((s : Transaction × Db bt) × (txn_get bt txn' db' key ≡ ok (ok value, s.0, s.1)))
      × ((j : Bytes) → get bt db' j ≡ get bt db j)
  Own db key value (err e) = Unit {0}

  -- Right behind a Put of a transaction that succeeds, the transaction's Get of the key gives the value
  -- that was put, without an error, and DB.Get gives for every key what it gave before the Put.
  pub txn_get-txn_put :
      (txn txn' : Transaction) (db db' : Db bt) (key value : Bytes)
      → txn_put bt txn db key value ≡ ok (txn', db')
      → ((s : Transaction × Db bt) × (txn_get bt txn' db' key ≡ ok (ok value, s.0, s.1)))
        × ((j : Bytes) → get bt db' j ≡ get bt db j)
  unfolding txn_put
  txn_get-txn_put txn txn' db db' key value h =
      let ((txn₁, locks), gives, ends) =
        >>=-eq-ok (try_acquire_write_lock txn key db.transaction_manager.key_vs_locks_acquired_map)
          _ h in
      let (same, owns) = write_lock-owns txn txn₁ key _ locks gives in
      subst (Own db key value) ends (
        txn_get-own (record txn₁ { buffered_writes = Dict.put key value txn₁.buffered_writes })
            (with_locks bt db locks) key value (unfold with_locks in owns ∙ sym same)
            (lookup-put_self key value txn₁.buffered_writes),
        λ j. get-with_locks db locks j,
      )

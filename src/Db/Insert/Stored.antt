-- ===== src/Db/Insert/Stored.antt =====
-- What insertIntoTable leaves in the database.
use golang_db.Base.{
  ◌≡◌, ◌≢◌, refl, ap, ◌∙◌, ◌⊎◌, Error, false, Option, some, inl, inr, List, [], ◌∷◌, All, Result,
  ok, err,
}
use golang_db.Base.Bytes.{Bytes, str_eq, str_eq-ne}
use golang_db.Base.Dict
use golang_db.Base.Dict.{Dict, lookup-put, lookup-put_self}
use golang_db.Wal.{works}
use golang_db.Memtable
use golang_db.Memtable.{EntryTree, Memtable, should_flush}
use golang_db.Db.Command.{PutCommand}
use golang_db.Db.Schema.{CreateTable, SecondaryIndex}
use golang_db.Db.Locks.{LockTable, Transaction, try_acquire_write_lock}
use golang_db.Db.Locks.Held.{AllHeld, write_lock-AllHeld}
use golang_db.Db.Locks.Writes.{write_lock-writes}
use golang_db.Db.Database.{Db, get, put_commands}
use golang_db.Db.Database.Replay.{written, get-put_commands}
use golang_db.Db.Database.Reads.{IsFlushable, get-flush_if_full}
use golang_db.Db.Transactions.{txn_put, with_locks}
use golang_db.Db.Transactions.Sessions.{txn_put-ok, txn_put-err, committed, commit-get}
use golang_db.Db.Transactions.Commit.{IsRangeOf, or_before, written-HasOnce}
use golang_db.Db.Insert.{
  Session, index_key, put_unchecked, update_secondary_indexes, put_or_rollback, or_rollback,
  insert_row,
}
use golang_db.Sql.Parser.Insert.{InsertIntoTable}

Result-cases : {V : Type 0} (r : Result V) → ((e : Error) × (r ≡ err e)) ⊎ ((v : V) × (r ≡ ok v))
Result-cases (err e) = inl (e, refl)
Result-cases (ok v) = inr (v, refl)

module _ (bt : EntryTree) where
  -- A session whose transaction has written the value under the key, over the database `db` with the
  -- locks that were given.
  abbrev HasWritten : Db bt → Bytes → Bytes → Session bt → Type 0
  HasWritten db key value s =
      (locks : LockTable) × (s.1 ≡ with_locks bt db locks)
      × AllHeld s.0 locks
      × (Dict.lookup key s.0.buffered_writes ≡ some value)

  -- Another key's write, whether or not its lock is given.
  put_unchecked-HasWritten :
      (db : Db bt) (key value k v : Bytes) (txn : Transaction) (locks : LockTable)
      → k ≢ key
      → AllHeld txn locks
      → Dict.lookup key txn.buffered_writes ≡ some value
      → HasWritten db key value (put_unchecked bt (txn, with_locks bt db locks) k v)
  unfolding put_unchecked
  put_unchecked-HasWritten db key value k v txn locks ne held here =
      elim (Result-cases (try_acquire_write_lock txn k locks)) [
        | inl (e, h) ↦
            rw (txn_put-err bt db txn locks k v e h, put_unchecked) (locks, refl, held, here)
        | inr ((txn₁, locks₁), h) ↦
            let still : Dict.lookup key txn₁.buffered_writes ≡ some value =
              ap (Dict.lookup key) (write_lock-writes txn txn₁ k locks locks₁ h) ∙ here in
            let other : str_eq k key ≡ false = str_eq-ne k key ne in
            rw (txn_put-ok bt db txn txn₁ locks locks₁ k v h, put_unchecked)
              (
                locks₁,
                refl,
                write_lock-AllHeld txn txn₁ k locks locks₁ held h,
                lookup-put key k v txn₁.buffered_writes ∙ rw other still,
              )
      ]

  -- Each index of the table gives a key other than `key`.
  abbrev pub HasOtherKeys : CreateTable → InsertIntoTable → Bytes → List SecondaryIndex → Type 0
  HasOtherKeys table input key indexes =
      All
        (λ (index : SecondaryIndex). (k : Bytes) × (index_key table input index ≡ ok k) × (k ≢ key))
        indexes

  update-HasWritten :
      (db : Db bt) (table : CreateTable) (input : InsertIntoTable) (key value : Bytes)
      (indexes : List SecondaryIndex) (txn : Transaction) (locks : LockTable)
      → HasOtherKeys table input key indexes
      → AllHeld txn locks
      → Dict.lookup key txn.buffered_writes ≡ some value
      → (s : Session bt) × (update_secondary_indexes bt table input indexes
            (txn, with_locks bt db locks)
          ≡ (ok tt, s))
        × HasWritten db key value s
  unfolding update_secondary_indexes
  update-HasWritten db table input key value [] txn locks others held here =
      ((txn, with_locks bt db locks), refl, (locks, refl, held, here))
  update-HasWritten db table input key value (index ∷ rest) txn locks ((k, e, ne), others) held
        here =
      let s₁ = put_unchecked bt (txn, with_locks bt db locks) k [] in
      let (locks₁, same, held₁, here₁) =
        put_unchecked-HasWritten db key value k [] txn locks ne held here in
      let (s, runs, written) =
        update-HasWritten db table input key value rest (s₁.0) locks₁ others held₁ here₁ in
      (
        s,
        rw (e, update_secondary_indexes)
            (ap (λ (db' : Db bt). update_secondary_indexes bt table input rest (s₁.0, db')) same
              ∙ runs),
        written,
      )

  -- The memtable that a Commit of the writes leaves.
  get-committed :
      (m : Memtable bt) (key value : Bytes) (cs : List PutCommand) (writes : Dict Bytes)
      → IsRangeOf cs writes
      → Dict.lookup key writes ≡ some value
      → Memtable.get bt (put_commands bt cs m) key ≡ some value
  get-committed m key value cs writes range here =
      get-put_commands bt key cs m
      ∙ written-HasOnce key cs (Memtable.get bt m key) range.once
      ∙ ap (λ (o : Option Bytes). or_before o (Memtable.get bt m key)) (range.same key ∙ here)

  put_or_rollback-ok :
      (s s' : Session bt) (key value : Bytes)
      → txn_put bt s.0 s.1 key value ≡ ok s'
      → put_or_rollback bt s key value ≡ ok s'
  unfolding put_or_rollback
  put_or_rollback-ok s s' key value h = rw (h, put_or_rollback) refl

  put_unchecked-ok :
      (s s' : Session bt) (key value : Bytes)
      → txn_put bt s.0 s.1 key value ≡ ok s'
      → put_unchecked bt s key value ≡ s'
  unfolding put_unchecked
  put_unchecked-ok s s' key value h = rw (h, put_unchecked) refl

  -- The writes of the transaction before its Commit, where the row's lock is given.
  unfoldable pub row_writes :
      CreateTable → InsertIntoTable → Session bt → Bytes → Bytes → Dict Bytes
  row_writes table input s key value =
      (update_secondary_indexes bt table input table.secondary_indexes
        (put_unchecked bt s key value)).1.0.buffered_writes

  row_writes_lem :
      (table : CreateTable) (input : InsertIntoTable) (s s₁ s₂ : Session bt) (key value : Bytes)
      → put_unchecked bt s key value ≡ s₁
      → update_secondary_indexes bt table input table.secondary_indexes s₁ ≡ (ok tt, s₂)
      → row_writes table input s key value ≡ s₂.0.buffered_writes
  unfolding row_writes
  row_writes_lem table input s s₁ s₂ key value h h' =
      ap
        (λ (x : Session bt).
          (update_secondary_indexes bt table input table.secondary_indexes x).1.0.buffered_writes)
        h
      ∙ ap (λ (r : Result (Unit {0}) × Session bt). r.1.0.buffered_writes) h'

  -- The writes of a row.
  pub insert_row-stored :
      (first second : Dict Bytes → List PutCommand) (db : Db bt) (table : CreateTable)
      (input : InsertIntoTable) (txn txn' : Transaction) (locks locks' : LockTable)
      (key value : Bytes)
      → AllHeld txn locks
      → try_acquire_write_lock txn key locks ≡ ok (txn', locks')
      → HasOtherKeys table input key table.secondary_indexes
      → IsRangeOf
          (second (row_writes table input (txn, with_locks bt db locks) key value))
          (row_writes table input (txn, with_locks bt db locks) key value)
      → IsFlushable bt db.ss_table (
          put_commands bt
            (second (row_writes table input (txn, with_locks bt db locks) key value))
            db.mem_table)
      → value ≢ []
      → (db' : Db bt) × (insert_row bt works first second table input
            (txn, with_locks bt db locks)
            key
            value
          ≡ ok (ok tt, db'))
        × (get bt db' key ≡ ok value)
  unfolding insert_row or_rollback
  insert_row-stored first second db table input txn txn' locks locks' key value held gives others
        range flushable filled =
      let txn₁ : Transaction = record txn' {
        buffered_writes = Dict.put key value txn'.buffered_writes;
      } in
      let put_ok = txn_put-ok bt db txn txn' locks locks' key value gives in
      let s₀ : Session bt = (txn, with_locks bt db locks) in
      let s₁ : Session bt = (txn₁, with_locks bt db locks') in
      let (s, runs, (locks₂, same, held₂, here)) =
        update-HasWritten db table input key value table.secondary_indexes txn₁ locks' others
          (write_lock-AllHeld txn txn' key locks locks' held gives)
          (lookup-put_self key value txn'.buffered_writes) in
      let d = s.0.buffered_writes in
      let writes : row_writes table input s₀ key value ≡ d =
        row_writes_lem table input s₀ s₁ s key value (put_unchecked-ok s₀ s₁ key value put_ok)
          runs in
      let range' : IsRangeOf (second d) d = rw writes at range in
      let flushable' : IsFlushable bt db.ss_table (put_commands bt (second d) db.mem_table) =
        rw writes at flushable in
      let (s', commits, behind) = commit-get bt db (s.0) locks₂ (first d) (second d) held₂ in
      (
        s'.1,
        rw (put_or_rollback-ok s₀ s₁ key value put_ok, runs, same, commits) refl,
        behind key
            ∙ get-flush_if_full bt (with_locks bt (committed bt db (first d) (second d)) locks₂) key
                value (unfold with_locks in rw writes at flushable)
                (unfold with_locks in
                  get-committed db.mem_table key value (second d) d (rw writes at range) here)
                filled,
      )

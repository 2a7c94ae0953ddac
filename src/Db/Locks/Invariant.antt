-- ===== src/Db/Locks/Invariant.antt =====
-- The lock table stays valid: a writer excludes other readers, and no reader is listed twice.
use golang_db.Db.Locks.{forget_keys}
use golang_db.Base.{
  ℕ, ◌≡◌, ◌≢◌, refl, sym, ap, ◌∙◌, inl, inr, Bool, true, false, Option, none, some, List, [], ◌∷◌,
  ◌++◌, arith,
}
use golang_db.Base.{◌==◌, ==_iff, ==-ne, Bool-cases, if◌then◌else◌, All, ok, >>=-eq-ok}
use golang_db.Base.Bytes.{Bytes, str_eq}
use golang_db.Base.Dict
use golang_db.Db.Locks.{
  LocksAcquired, LockTable, Transaction, write_over_readers, write_over, try_acquire_write_lock,
  contains,
}
use golang_db.Db.Locks.{
  read_over_locks, read_over, try_acquire_read_lock, add_key, no_locks, without, release_one,
  release_key, release_keys, release_all_locks,
}
use golang_db.Db.Locks.Exclusion.{or_no_locks, locks_on-put, IsLock, IsTable, Distinct}
use mathlib.Core.Path.{subst}

pub no_locks-IsLock : IsLock no_locks
no_locks-IsLock = record { exclusive = λ h. tt; distinct = tt }

same-IsTable : (t t' : LockTable) → t ≡ t' → IsTable t → IsTable t'
same-IsTable t t' e valid = subst IsTable {x = t} {y = t'} e valid

put-IsTable :
    (k : Bytes) (l : LocksAcquired) (table : LockTable)
    → IsLock l
    → IsTable table
    → IsTable (Dict.put k l table)
put-IsTable k l table v valid j = elim (Bool-cases (str_eq k j)) [
  | inl b ↦ subst IsLock (sym (locks_on-put j k l table ∙ rw b)) v
  | inr b ↦ subst IsLock (sym (locks_on-put j k l table ∙ rw b)) (valid j)
]

write_over_readers-IsTable :
    (txn txn' : Transaction) (key : Bytes) (table table' : LockTable) (readers : List ℕ)
    → IsTable table
    → write_over_readers txn key table readers ≡ ok (txn', table')
    → IsTable table'
unfolding write_over_readers
write_over_readers-IsTable txn txn' key table table' [] valid h =
    same-IsTable _ table' (ground arith) (alone valid)
  where
    alone : IsTable table → IsTable (Dict.put key (record { writer = txn.id; readers = [] }) table)
    alone =
        put-IsTable key (record { writer = txn.id; readers = [] }) table
          (record { exclusive = λ h. tt; distinct = tt })
write_over_readers-IsTable txn txn' key table table' (r ∷ []) valid h =
    elim (Bool-cases (r == txn.id)) [
      | inl b ↦ same-IsTable _ table' (ground arith) (
          put-IsTable key (record { writer = txn.id; readers = [] }) table
            (record { exclusive = λ h. tt; distinct = tt }) valid)
      | inr b ↦ cc (rw b at h)
    ]
write_over_readers-IsTable txn txn' key table table' (r ∷ s ∷ rest) valid h = cc

write_over-IsTable :
    (txn txn' : Transaction) (key : Bytes) (table table' : LockTable) (o : Option LocksAcquired)
    → IsTable table
    → write_over txn key table o ≡ ok (txn', table')
    → IsTable table'
unfolding write_over
write_over-IsTable txn txn' key table table' none valid h =
    write_over_readers-IsTable txn txn' key table table' [] valid h
write_over-IsTable txn txn' key table table' (some o) valid h =
    elim (Bool-cases (o.writer == txn.id)) [
      | inl b ↦ same-IsTable table table' (ground arith) valid
      | inr b ↦ elim (Bool-cases (o.writer == 0)) [
        | inl z ↦
            write_over_readers-IsTable txn txn' key table table' o.readers valid (rw (b, z) at h)
        | inr z ↦ cc (rw (b, z) at h)
      ]
    ]

All-snoc : (P : ℕ → Type 0) (x : ℕ) (l : List ℕ) → All P l → P x → All P (l ++ x ∷ [])
All-snoc P x [] h hx = (hx, tt)
All-snoc P x (y ∷ l) h hx = (h.0, All-snoc P x l h.1 hx)

Distinct-snoc : (x : ℕ) (l : List ℕ) → contains x l ≡ false → Distinct l → Distinct (l ++ x ∷ [])
unfolding contains
Distinct-snoc x [] h d = (tt, tt)
Distinct-snoc x (y ∷ l) h d = elim (Bool-cases (y == x)) [
  | inl b ↦ cc (rw b at h)
  | inr b ↦
      (All-snoc (λ s. s ≢ y) x l d.0 (λ e. ==-ne y x b (sym e)), Distinct-snoc x l (rw b at h) d.1)
]

stored :
    (b : Bool) (x y s : Transaction × LockTable)
    → x.1 ≡ y.1
    → (if b then ok x else ok y) ≡ ok s
    → x.1 ≡ s.1
stored true x y s e h = ground arith
stored false x y s e h = ground arith

read_over_locks-IsTable :
    (txn txn' : Transaction) (key : Bytes) (table table' : LockTable) (l : LocksAcquired) (b : Bool)
    → IsTable table
    → IsLock l
    → (l.writer ≢ 0 → l.writer ≡ txn.id)
    → read_over_locks txn key table l b ≡ ok (txn', table')
    → IsTable table'
unfolding read_over_locks
read_over_locks-IsTable txn txn' key table table' l b valid v own h =
    elim (Bool-cases (contains txn.id l.readers)) [
      | inl c ↦ same-IsTable table table' (ground arith) valid
      | inr c ↦
          same-IsTable (Dict.put key l' table) table'
            (stored b (txn, Dict.put key l' table) (add_key key txn, Dict.put key l' table)
              (txn', table') refl (rw c at h))
            (put-IsTable key l' table (v' c) valid)
    ]
  where
    l' : LocksAcquired
    l' = record l { readers = l.readers ++ txn.id ∷ [] }

    v' : contains txn.id l.readers ≡ false → IsLock l'
    v' c = record {
      exclusive =
          λ nz. All-snoc (λ r. r ≡ l.writer) txn.id l.readers (v.exclusive nz) (sym (own nz));
      distinct = Distinct-snoc txn.id l.readers c v.distinct;
    }

read_over-IsTable :
    (txn txn' : Transaction) (key : Bytes) (table table' : LockTable) (o : Option LocksAcquired)
    → IsTable table
    → IsLock (or_no_locks o)
    → read_over txn key table o ≡ ok (txn', table')
    → IsTable table'
unfolding read_over
read_over-IsTable txn txn' key table table' none valid v h =
    read_over_locks-IsTable txn txn' key table table' no_locks false valid v
      (λ nz. absurd (nz refl)) h
read_over-IsTable txn txn' key table table' (some o) valid v h = elim (Bool-cases (o.writer == 0)) [
  | inl z ↦
      read_over_locks-IsTable txn txn' key table table' o false valid v
        (λ nz. absurd (nz ((==_iff _ _).0 z))) (rw z at h)
  | inr z ↦ elim (Bool-cases (o.writer == txn.id)) [
    | inl b ↦
        read_over_locks-IsTable txn txn' key table table' o true valid v (λ nz. (==_iff _ _).0 b)
          (rw (z, b) at h)
    | inr b ↦ cc (rw (z, b) at h)
  ]
]

All-without : (P : ℕ → Type 0) (id : ℕ) (l : List ℕ) → All P l → All P (without id l)
unfolding without
All-without P id [] h = tt
All-without P id (r ∷ l) h = ground (arith, All-without P id l h.1)

Distinct-without : (id : ℕ) (l : List ℕ) → Distinct l → Distinct (without id l)
unfolding without
Distinct-without id [] h = tt
Distinct-without id (r ∷ l) h =
    ground (arith, Distinct-without id l h.1, All-without (λ s. s ≢ r) id l h.0)

release_one-IsLock : (id : ℕ) (l : LocksAcquired) → IsLock l → IsLock (release_one id l)
unfolding release_one
release_one-IsLock id l v = elim (Bool-cases (l.writer == id)) [
  | inl b ↦ rw b (record { exclusive = λ nz. absurd (nz refl); distinct = v.distinct })
  | inr b ↦ rw b (record {
    exclusive = λ nz. All-without (λ r. r ≡ l.writer) id l.readers (v.exclusive nz);
    distinct = Distinct-without id l.readers v.distinct;
  })
]

pub release_key-IsTable :
    (id : ℕ) (key : Bytes) (table table' : LockTable) (o : Option LocksAcquired)
    → IsTable table
    → IsLock (or_no_locks o)
    → release_key id key table o ≡ ok table'
    → IsTable table'
unfolding release_key
release_key-IsTable id key table table' none valid v h = cc
release_key-IsTable id key table table' (some o) valid v h =
    same-IsTable _ table' (ground arith)
      (put-IsTable key (release_one id o) table (release_one-IsLock id o v) valid)

pub release_keys_inv :
    (id : ℕ) (key : Bytes) (rest : List Bytes) (table table' : LockTable)
    → release_keys id (key ∷ rest) table ≡ ok table'
    → (t₁ : LockTable) × (release_key id key table (Dict.lookup key table) ≡ ok t₁)
      × (release_keys id rest t₁ ≡ ok table')
release_keys_inv id key rest table table' h =
    >>=-eq-ok (release_key id key table (Dict.lookup key table)) (release_keys id rest) {b = table'}
      (unfold release_keys in h)

forget_keys_inv :
    (txn txn' : Transaction) (table table' : LockTable)
    → forget_keys txn table ≡ ok (txn', table')
    → table ≡ table'
unfolding forget_keys
forget_keys_inv txn txn' table table' h = ground arith

pub release_all_inv :
    (txn txn' : Transaction) (table table' : LockTable)
    → release_all_locks txn table ≡ ok (txn', table')
    → release_keys txn.id txn.lock_acquired_keys table ≡ ok table'
release_all_inv txn txn' table table' h =
    let (t₁, done, same) =
      >>=-eq-ok (release_keys txn.id txn.lock_acquired_keys table) (forget_keys txn)
        {b = (txn', table')} (unfold release_all_locks in h) in
    done ∙ ap ok (forget_keys_inv txn txn' t₁ table' same)

release_keys-IsTable :
    (id : ℕ) (keys : List Bytes) (table table' : LockTable)
    → IsTable table
    → release_keys id keys table ≡ ok table'
    → IsTable table'
release_keys-IsTable id [] table table' valid h =
    same-IsTable table table' (unfold release_keys in ground arith) valid
release_keys-IsTable id (key ∷ rest) table table' valid h =
    let (t₁, first, others) = release_keys_inv id key rest table table' h in
    release_keys-IsTable id rest t₁ table'
      (release_key-IsTable id key table t₁ _ valid (valid key) first) others

pub write_lock-IsTable :
    (txn txn' : Transaction) (key : Bytes) (table table' : LockTable)
    → IsTable table
    → try_acquire_write_lock txn key table ≡ ok (txn', table')
    → IsTable table'
unfolding try_acquire_write_lock
write_lock-IsTable txn txn' key table table' valid =
    write_over-IsTable txn txn' key table table' (Dict.lookup key table) valid

pub read_lock-IsTable :
    (txn txn' : Transaction) (key : Bytes) (table table' : LockTable)
    → IsTable table
    → try_acquire_read_lock txn key table ≡ ok (txn', table')
    → IsTable table'
unfolding try_acquire_read_lock
read_lock-IsTable txn txn' key table table' valid =
    read_over-IsTable txn txn' key table table' (Dict.lookup key table) valid (valid key)

pub release_all_locks-IsTable :
    (txn txn' : Transaction) (table table' : LockTable)
    → IsTable table
    → release_all_locks txn table ≡ ok (txn', table')
    → IsTable table'
release_all_locks-IsTable txn txn' table table' valid h =
    release_keys-IsTable txn.id txn.lock_acquired_keys table table' valid
      (release_all_inv txn txn' table table' h)

-- ===== src/Base/Errors.antt =====
-- Go's (value, error) pairs. `Error` has a constructor for each error that the code makes, and
-- `panic` for a run-time fault such as a slice out of range.
use golang_db.Base.Bytes.{Bytes}
use mathlib.Core.Path.{◌≡◌, refl}
use mathlib.Core.Logic.{◌≢◌}

pub data Error : Type 0 where
  eof unexpected_eof write_failed sync_failed : Error
  partial_length too_large partial_payload partial_checksum checksum_mismatch : Error
  missing_uint32 length_exceeds_payload trailing_bytes unknown_command : Error
  put_failed : Error
  write_locked : Error
  read_locked : Error
  index_corrupted datablock_corrupted short_read no_such_file : Error
  missing_key_position missing_data_type missing_name_length missing_name : Error
  missing_index_count missing_index_name_length missing_index_name : Error
  missing_column_count missing_column_position bad_column_position column_not_found : Error
  not_an_integer : Error
  -- an error that fmt.Errorf or errors.New makes of this text
  error_text : Bytes → Error
  panic : Error
  -- no Go value: a loop of the model ran out of rounds
  out_of_fuel : Error

pub data Result {ℓ} (Value : Type ℓ) : Type ℓ where
  err : Error → Result Value
  ok : Value → Result Value

-- An error is passed on, as after `if err != nil { return err }`.
infixl 5 ◌>>=◌
abbrev pub ◌>>=◌ {ℓ₁ ℓ₂} : {V : Type ℓ₁} {W : Type ℓ₂} → Result V → (V → Result W) → Result W
err e >>= next = err e
ok v >>= next = next v

-- Where a chain succeeds, its first call has.
pub >>=-eq-ok {ℓ₁ ℓ₂} :
    {V : Type ℓ₁} {W : Type ℓ₂} (first : Result V) (next : V → Result W) {b : W}
    → (first >>= next) ≡ ok b
    → (v : V) × (first ≡ ok v) × (next v ≡ ok b)
>>=-eq-ok (err e) next done = cc
>>=-eq-ok (ok v) next done = (v, refl, done)

-- The call has enough fuel, and what it returns without an error satisfies `P`.
abbrev pub Ensures {ℓ} : {V : Type ℓ} → (V → Type 0) → Result V → Type 0
Ensures P (err e) = e ≢ out_of_fuel
Ensures P (ok v) = P v

pub bind-Ensures {ℓ₁ ℓ₂} :
    {V : Type ℓ₁} {W : Type ℓ₂} (P : V → Type 0) (Q : W → Type 0) (first : Result V)
    (next : V → Result W)
    → Ensures P first
    → ((v : V) → P v → Ensures Q (next v))
    → Ensures Q (first >>= next)
bind-Ensures P Q (err e) next h k = h
bind-Ensures P Q (ok v) next h k = k v h

pub Ensures-fuel {ℓ} :
    {V : Type ℓ} (P : V → Type 0) (r : Result V) → Ensures P r → r ≢ err out_of_fuel
Ensures-fuel P (err e) h k = h (cc)
Ensures-fuel P (ok v) h k = cc

pub weaken-Ensures {ℓ} :
    {V : Type ℓ} (P Q : V → Type 0) (r : Result V)
    → ((v : V) → P v → Q v)
    → Ensures P r
    → Ensures Q r
weaken-Ensures P Q (err e) h k = k
weaken-Ensures P Q (ok v) h k = h v k

-- ===== src/Db/Command.antt =====
-- The payloads of the log: the length-prefixed strings and the PUT command of db/db.go, and the
-- TRANSACTION command of db/transaction.go.
pub mod RoundTrip
pub mod Writes
use golang_db.Base.{ℕ, zero, suc, ◌+◌, ◌-◌, ◌%◌, ◌^◌, List, [], ◌∷◌, ◌++◌, ltb, ◌==◌, if◌then◌else◌}
use golang_db.Base.{length, take, drop, Result, ok, err, missing_uint32, length_exceeds_payload}
use golang_db.Base.{trailing_bytes, ◌>>=◌}
use golang_db.Base.Bytes.{Bytes, put_u32, get_u32}
use golang_db.Base.Text.{codes}

abbrev pub cmd_put : Bytes
cmd_put = codes "PUT"

abbrev pub cmd_transaction : Bytes
cmd_transaction = codes "TRANSACTION"

-- walPutCommand: a key and its value
pub record PutCommand : Type 0 where
  pub key : Bytes
  pub value : Bytes

unfoldable pub append_length_prefixed_string : Bytes → Bytes → Bytes
append_length_prefixed_string buf value = (buf ++ put_u32 (length value)) ++ value

-- A reader takes the offset and returns it behind what it has read.
unfoldable pub read_uint32 : Bytes → ℕ → Result (ℕ × ℕ)
read_uint32 buf offset =
    if ltb (length buf - offset) 4
    then err missing_uint32
    else ok (get_u32 (take 4 (drop offset buf)), offset + 4)

check_length : Bytes → ℕ → ℕ → Result (Bytes × ℕ)
check_length buf value_len offset =
    if ltb ((length buf - offset) % 2 ^ 32) value_len
    then err length_exceeds_payload
    else ok (take value_len (drop offset buf), offset + value_len)

unfoldable pub read_length_prefixed_string : Bytes → ℕ → Result (Bytes × ℕ)
unfolding check_length
read_length_prefixed_string buf offset = do
  (value_len, offset') ← read_uint32 buf offset
  check_length buf value_len offset'

unfoldable pub serialise_put_command : Bytes → Bytes → Bytes
serialise_put_command key value =
    append_length_prefixed_string
      (append_length_prefixed_string (append_length_prefixed_string [] cmd_put) key) value

-- if *offset != len(buf)
abbrev at_end {ℓ} : {A : Type ℓ} → Bytes → ℕ → A → Result A
at_end buf offset a = if offset == length buf then ok a else err trailing_bytes

unfoldable pub deserialise_put_command : Bytes → ℕ → Result (Bytes × Bytes)
deserialise_put_command buf offset = do
  (key, offset') ← read_length_prefixed_string buf offset
  (value, offset'') ← read_length_prefixed_string buf offset'
  at_end buf offset'' (key, value)

-- for key, value := range writeMap, in the order in which the range visits the map
unfoldable pub serialise_writes : Bytes → List PutCommand → Bytes
serialise_writes buf [] = buf
serialise_writes buf (c ∷ rest) =
    serialise_writes
      (append_length_prefixed_string (append_length_prefixed_string buf c.key) c.value) rest

unfoldable pub serialise_transaction_commit_payload : List PutCommand → Bytes
serialise_transaction_commit_payload writes =
    serialise_writes (append_length_prefixed_string [] cmd_transaction ++ put_u32 (length writes))
      writes

-- for j := 0; j < int(numWrites); j++
unfoldable pub read_writes : ℕ → Bytes → ℕ → Result (List PutCommand × ℕ)
read_writes zero buf offset = ok ([], offset)
read_writes (suc n) buf offset = do
  (key, offset') ← read_length_prefixed_string buf offset
  (value, offset'') ← read_length_prefixed_string buf offset'
  (rest, end) ← read_writes n buf offset''
  ok (record { key = key; value = value } ∷ rest, end)

unfoldable pub deserialise_transaction_command : Bytes → Result (List PutCommand)
deserialise_transaction_command buf = do
  (num_writes, offset) ← read_uint32 buf 0
  (put_cmds, offset') ← read_writes num_writes buf offset
  at_end buf offset' put_cmds

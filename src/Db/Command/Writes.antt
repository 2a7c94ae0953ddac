-- ===== src/Db/Command/Writes.antt =====
-- What the reader of a transaction makes of what its writer wrote.
use golang_db.Base.Cursor.{prefixed, length-prefixed}
use golang_db.Base.{ℕ, ◌+◌, ◌≤◌, ◌≡◌, refl, sym, ◌∙◌, ap, List, [], ◌∷◌, ◌++◌, arith}
use golang_db.Base.{eqb_refl, length, drop, length-append}
use golang_db.Base.{append-nil, append_assoc, ok}
use golang_db.Base.Bytes.{Bytes, IsU32, put_u32, length-put_u32}
use golang_db.Db.Command.{cmd_transaction, PutCommand, append_length_prefixed_string}
use golang_db.Db.Command.{read_length_prefixed_string}
use golang_db.Db.Command.{
  serialise_writes, serialise_transaction_commit_payload, read_writes,
  deserialise_transaction_command,
}
use golang_db.Db.Command.RoundTrip.{
  read_uint32_lem, drop-behind_uint32, drop-behind_string, read_length_prefixed_string_lem,
  append-prefixed,
}

-- The bytes of the writes of a transaction.
abbrev pub body : List PutCommand → Bytes
body [] = []
body (c ∷ rest) = prefixed c.key ++ (prefixed c.value ++ body rest)

serialise_writes_lem :
    (buf : Bytes) (writes : List PutCommand) → serialise_writes buf writes ≡ buf ++ body writes
unfolding serialise_writes
serialise_writes_lem buf [] = sym (append-nil buf)
serialise_writes_lem buf (c ∷ rest) =
    serialise_writes_lem
      (append_length_prefixed_string (append_length_prefixed_string buf c.key) c.value) rest
    ∙ rw (append-prefixed, append-prefixed, append_assoc, append_assoc)

pub serialise_transaction_lem :
    (writes : List PutCommand)
    → serialise_transaction_commit_payload writes
      ≡ prefixed cmd_transaction ++ (put_u32 (length writes) ++ body writes)
unfolding serialise_transaction_commit_payload
serialise_transaction_lem writes = rw (serialise_writes_lem, append-prefixed, append_assoc)

read_writes_lem :
    (writes : List PutCommand) (buf rest : Bytes) (offset : ℕ)
    → IsU32 (length buf)
    → drop offset buf ≡ body writes ++ rest
    → (read_writes (length writes) buf offset ≡ ok (writes, offset + length (body writes)))
unfolding read_writes
read_writes_lem [] buf rest offset small h = ap (λ (n : ℕ). ok ([], n)) (omega arith)
read_writes_lem (c ∷ cs) buf rest offset small h =
    rw
      (
        read_length_prefixed_string_lem buf c.key (prefixed c.value ++ (body cs ++ rest)) offset
            small h₁,
        read_length_prefixed_string_lem buf c.value (body cs ++ rest) (offset + 4 + length c.key)
            small h₂,
        read_writes_lem cs buf rest (offset + 4 + length c.key + 4 + length c.value) small h₃,
      )
      (ap (λ (n : ℕ). ok (c ∷ cs, n))
        (omega (
          arith,
          length-append (prefixed c.key) (prefixed c.value ++ body cs),
          length-append (prefixed c.value) (body cs),
          length-prefixed c.key,
          length-prefixed c.value,
        )))
  where
    h₁ : drop offset buf ≡ prefixed c.key ++ (prefixed c.value ++ (body cs ++ rest))
    h₁ =
        h
        ∙ append_assoc (prefixed c.key) (prefixed c.value ++ body cs) rest
        ∙ ap (λ (t : Bytes). prefixed c.key ++ t) (append_assoc (prefixed c.value) (body cs) rest)

    h₂ : drop (offset + 4 + length c.key) buf ≡ prefixed c.value ++ (body cs ++ rest)
    h₂ = drop-behind_string buf c.key _ offset small h₁

    h₃ : drop (offset + 4 + length c.key + 4 + length c.value) buf ≡ body cs ++ rest
    h₃ = drop-behind_string buf c.value _ (offset + 4 + length c.key) small h₂

length-le-body : (writes : List PutCommand) → length writes ≤ length (body writes)
length-le-body [] = omega arith
length-le-body (c ∷ cs) = omega (
  arith,
  length-append (prefixed c.key) (prefixed c.value ++ body cs),
  length-append (prefixed c.value) (body cs),
  length-prefixed c.key,
  length-le-body cs,
)

-- A TRANSACTION payload that fits the 32 bits of its lengths is read back: the command, and then the
-- writes, all of them and in the order in which they were written.
pub transaction_command_round_trip :
    (writes : List PutCommand)
    → IsU32 (length (serialise_transaction_commit_payload writes))
    → (read_length_prefixed_string (serialise_transaction_commit_payload writes) 0
        ≡ ok (cmd_transaction, 15))
      × (deserialise_transaction_command (drop 15 (serialise_transaction_commit_payload writes))
          ≡ ok writes)
transaction_command_round_trip writes small = (
  read_length_prefixed_string_lem payload cmd_transaction (put_u32 (length writes) ++ body writes) 0
      small shape,
  rw behind decoded,
)
  where
    payload : Bytes
    payload = serialise_transaction_commit_payload writes

    counted : Bytes
    counted = put_u32 (length writes) ++ body writes

    shape : drop 0 payload ≡ prefixed cmd_transaction ++ counted
    shape = serialise_transaction_lem writes

    behind : drop 15 payload ≡ counted
    behind = drop-behind_string payload cmd_transaction counted 0 small shape

    size : length payload ≡ 15 + (4 + length (body writes))
    size = omega (
      arith,
      ap length shape,
      length-append (prefixed cmd_transaction) counted,
      length-prefixed cmd_transaction,
      length-append (put_u32 (length writes)) (body writes),
      length-put_u32 (length writes),
    )

    counted_size : length counted ≡ 4 + length (body writes)
    counted_size = omega (
      arith,
      length-append (put_u32 (length writes)) (body writes),
      length-put_u32 (length writes),
    )

    decoded : deserialise_transaction_command counted ≡ ok writes
    decoded =
        unfold deserialise_transaction_command in
        rw (
          read_uint32_lem counted (body writes) 0 (length writes)
              (omega (arith, length-le-body writes, size)) refl,
          read_writes_lem writes counted [] 4 (omega (arith, size, counted_size)) (
              drop-behind_uint32 counted (body writes) 0 (length writes) refl
              ∙ sym (append-nil (body writes))),
          counted_size,
          eqb_refl (4 + length (body writes)),
        )

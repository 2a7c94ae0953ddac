-- ===== src/Db/Command/RoundTrip.antt =====
-- What the readers make of what the writers wrote.
use golang_db.Base.Cursor.{prefixed, drop-behind, length-left, length-prefixed}
use golang_db.Base.{ℕ, ◌+◌, ◌-◌, ◌%◌, ◌^◌, ◌≤◌, ◌≡◌, refl, sym, ◌∙◌, ap, [], ◌++◌, arith}
use golang_db.Base.{ge→ltb, eqb_refl, length, drop, length-append, length-drop, take-append}
use golang_db.Base.{append-nil, append_assoc, ok}
use golang_db.Base.Bytes.{Bytes, IsU32, put_u32, length-put_u32, get-put_u32_word}
use golang_db.Db.Command.{cmd_put, append_length_prefixed_string, read_uint32}
use golang_db.Db.Command.{
  read_length_prefixed_string, serialise_put_command, deserialise_put_command,
}

pub read_uint32_lem :
    (buf rest : Bytes) (offset n : ℕ)
    → IsU32 n
    → drop offset buf ≡ put_u32 n ++ rest
    → read_uint32 buf offset ≡ ok (n, offset + 4)
unfolding read_uint32
read_uint32_lem buf rest offset n hn h = rw (
  length-left buf (put_u32 n) rest offset h,
  ge→ltb (length (put_u32 n) + length rest) 4 (omega (arith, length-put_u32 n)),
  h,
  take-append 4 (put_u32 n) rest (sym (length-put_u32 n)),
  get-put_u32_word n hn,
)

pub drop-behind_uint32 :
    (buf rest : Bytes) (offset n : ℕ)
    → drop offset buf ≡ put_u32 n ++ rest
    → drop (offset + 4) buf ≡ rest
drop-behind_uint32 buf rest offset n h =
    drop-behind buf (put_u32 n) rest offset 4 (length-put_u32 n) h

module _ (buf s rest : Bytes) (offset : ℕ) (small : IsU32 (length buf))
    (h : drop offset buf ≡ prefixed s ++ rest) where
  h' : drop offset buf ≡ put_u32 (length s) ++ (s ++ rest)
  h' = h ∙ append_assoc (put_u32 (length s)) s rest

  left : length buf - (offset + 4) ≡ length s + length rest
  left =
      length-left buf s rest (offset + 4) (drop-behind_uint32 buf (s ++ rest) offset (length s) h')

  pub drop-behind_string : drop (offset + 4 + length s) buf ≡ rest
  drop-behind_string =
      drop-behind buf s rest (offset + 4) (length s) refl
        (drop-behind_uint32 buf (s ++ rest) offset (length s) h')

  pub read_length_prefixed_string_lem :
      read_length_prefixed_string buf offset ≡ ok (s, offset + 4 + length s)
  unfolding read_length_prefixed_string
  read_length_prefixed_string_lem = rw (
    read_uint32_lem buf (s ++ rest) offset (length s) (omega (arith, left)) h',
    left,
    ge→ltb ((length s + length rest) % 2 ^ 32) (length s) (omega (arith, left)),
    drop-behind_uint32 buf (s ++ rest) offset (length s) h',
    take-append (length s) s rest refl,
  )

pub append-prefixed : (buf s : Bytes) → append_length_prefixed_string buf s ≡ buf ++ prefixed s
unfolding append_length_prefixed_string
append-prefixed buf s = append_assoc buf (put_u32 (length s)) s

pub serialise_put_command_lem :
    (key value : Bytes)
    → serialise_put_command key value ≡ prefixed cmd_put ++ (prefixed key ++ prefixed value)
unfolding serialise_put_command
serialise_put_command_lem key value =
    rw (append-prefixed, append-prefixed, append-prefixed, append_assoc)

-- The end of a buffer, as an offset from which nothing is left.
offset-at_end :
    (buf : Bytes) (offset : ℕ) → drop offset buf ≡ [] → offset ≤ length buf → offset ≡ length buf
offset-at_end buf offset h fits = omega (arith, ap length h, length-drop offset buf)

module _ (key value buf : Bytes) (offset : ℕ) (small : IsU32 (length buf))
    (h : drop offset buf ≡ prefixed key ++ prefixed value) where
  value_offset : ℕ
  value_offset = offset + 4 + length key

  at_value : drop (offset + 4 + length key) buf ≡ prefixed value ++ []
  at_value =
      drop-behind_string buf key (prefixed value) offset small h ∙ sym (append-nil (prefixed value))

  at_last : offset ≤ length buf → offset + 4 + length key + 4 + length value ≡ length buf
  at_last fits = omega (
    arith,
    length-left buf (prefixed key) (prefixed value) offset h,
    length-prefixed key,
    length-prefixed value,
  )

  pub deserialise_put_command_lem :
      offset ≤ length buf → deserialise_put_command buf offset ≡ ok (key, value)
  unfolding deserialise_put_command
  deserialise_put_command_lem fits = rw (
    read_length_prefixed_string_lem buf key (prefixed value) offset small h,
    read_length_prefixed_string_lem buf value [] (offset + 4 + length key) small at_value,
    at_last fits,
    eqb_refl (length buf),
  )

-- A PUT payload that fits the 32 bits of its lengths is read back: the command, and then the key and
-- the value, with nothing left over.
pub put_command_round_trip :
    (key value : Bytes)
    → IsU32 (length (serialise_put_command key value))
    → (read_length_prefixed_string (serialise_put_command key value) 0 ≡ ok (cmd_put, 7))
      × (deserialise_put_command (serialise_put_command key value) 7 ≡ ok (key, value))
put_command_round_trip key value small = (
  read_length_prefixed_string_lem payload cmd_put (prefixed key ++ prefixed value) 0 small shape,
  deserialise_put_command_lem key value payload 7 small
      (drop-behind_string payload cmd_put _ 0 small shape) long,
)
  where
    payload : Bytes
    payload = serialise_put_command key value

    shape : drop 0 payload ≡ prefixed cmd_put ++ (prefixed key ++ prefixed value)
    shape = serialise_put_command_lem key value

    long : 7 ≤ length payload
    long = omega (
      arith,
      ap length shape,
      length-append (prefixed cmd_put) (prefixed key ++ prefixed value),
      length-prefixed cmd_put,
    )

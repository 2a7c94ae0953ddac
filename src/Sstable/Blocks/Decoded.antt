-- ===== src/Sstable/Blocks/Decoded.antt =====
-- What the loops over a buffer of sstable/sstable.go and sstable/compaction.go find in the bytes of a
-- list of entries.
use golang_db.Base.{
  ℕ, zero, suc, ◌+◌, ◌-◌, ◌≤◌, ◌≡◌, refl, sym, ap, ◌∙◌, Option, none, some, List, [], ◌∷◌, ◌++◌,
  arith,
}
use golang_db.Base.{
  lt→ltb, ge→ltb, if◌then◌else◌, length, drop, length-append, length-drop, take-append,
  append_assoc,
}
use golang_db.Base.{ok, err, datablock_corrupted}
use golang_db.Base.Bytes.{Bytes, IsU32, str_eq, put_u32, length-put_u32, get-put_u32_word}
use golang_db.Base.Cursor.{prefixed, drop-behind, length-left, length-prefixed}
use golang_db.Base.Dict
use golang_db.Base.Dict.{Dict}
use golang_db.Memtable.{Entry}
use golang_db.Sstable.Blocks.{encode, extract_value, extract_entry, find_in_block, put_entries}

pub encode_lem : (e : Entry) → encode e ≡ prefixed e.key ++ prefixed e.value
unfolding encode
encode_lem e = append_assoc (prefixed e.key) (put_u32 (length e.value)) e.value

pub length-encode : (e : Entry) → length (encode e) ≡ length e.key + length e.value + 8
length-encode e = omega (
  arith,
  ap length (encode_lem e),
  length-append (prefixed e.key) (prefixed e.value),
  length-prefixed e.key,
  length-prefixed e.value,
)

abbrev pub encode_all : List Entry → Bytes
encode_all [] = []
encode_all (e ∷ rest) = encode e ++ encode_all rest

module _ (buf s rest : Bytes) (i : ℕ) (small : IsU32 (length buf))
    (h : drop i buf ≡ prefixed s ++ rest) where
  h' : drop i buf ≡ put_u32 (length s) ++ (s ++ rest)
  h' = h ∙ append_assoc (put_u32 (length s)) s rest

  room : length buf - i ≡ length s + 4 + length rest
  room = length-left buf (prefixed s) rest i h ∙ ap (λ (n : ℕ). n + length rest) (length-prefixed s)

  extract_value_lem : extract_value buf i ≡ ok s
  unfolding extract_value
  extract_value_lem = rw (
    h',
    take-append 4 (put_u32 (length s)) (s ++ rest) (sym (length-put_u32 (length s))),
    get-put_u32_word (length s) (omega (arith, room)),
    ge→ltb (length buf) (i + 4) (omega (arith, room)),
    ge→ltb (length buf) (i + 4 + length s) (omega (arith, room)),
    drop-behind buf (put_u32 (length s)) (s ++ rest) i 4 (length-put_u32 (length s)) h',
    take-append (length s) s rest refl,
  )

  behind_value : drop (i + (4 + length s)) buf ≡ rest
  behind_value =
      drop-behind buf (prefixed s) rest i (4 + length s) (omega (arith, length-prefixed s)) h

module _ (buf rest : Bytes) (e : Entry) (i : ℕ) (small : IsU32 (length buf))
    (h : drop i buf ≡ encode e ++ rest) where
  at_key : drop i buf ≡ prefixed e.key ++ (prefixed e.value ++ rest)
  at_key =
      h
      ∙ ap (λ (t : Bytes). t ++ rest) (encode_lem e)
      ∙ append_assoc (prefixed e.key) (prefixed e.value) rest

  at_value : drop (i + (4 + length e.key)) buf ≡ prefixed e.value ++ rest
  at_value = behind_value buf e.key (prefixed e.value ++ rest) i small at_key

  pub behind_entry : drop (i + length (encode e)) buf ≡ rest
  behind_entry = drop-behind buf (encode e) rest i (length (encode e)) refl h

  pub within : i + length (encode e) ≤ length buf
  within = omega (arith, length-left buf (encode e) rest i h, length-encode e)

  pub extract_entry_lem : extract_entry buf i ≡ ok (e, i + length (encode e))
  unfolding extract_entry
  extract_entry_lem =
      rw
        (
          extract_value_lem buf e.key (prefixed e.value ++ rest) i small at_key,
          extract_value_lem buf e.value rest (i + (4 + length e.key)) small at_value,
        )
        (ap (λ (n : ℕ). ok (e, n)) (omega (arith, length-encode e)))

-- The value of the first entry with the key.
abbrev pub value_in : Bytes → List Entry → Option Bytes
value_in key [] = none
value_in key (e ∷ rest) = if str_eq e.key key then some e.value else value_in key rest

module _ (buf tail key : Bytes) (small : IsU32 (length buf)) where
  find_in_block_step :
      (e : Entry) (rest : Bytes) (fuel i : ℕ)
      → drop i buf ≡ encode e ++ rest
      → find_in_block (suc fuel) buf i key ≡ (
          if str_eq e.key key
          then ok e.value
          else find_in_block fuel buf (i + length (encode e)) key)
  unfolding find_in_block
  find_in_block_step e rest fuel i h = rw (
    lt→ltb i (length buf) (omega (arith, within buf rest e i small h, length-encode e)),
    extract_entry_lem buf rest e i small h,
  )

  pub find_in_block-some :
      (es : List Entry) (fuel i : ℕ) (v : Bytes)
      → drop i buf ≡ encode_all es ++ tail
      → length es ≤ fuel
      → value_in key es ≡ some v
      → find_in_block fuel buf i key ≡ ok v
  find_in_block-some [] fuel i v h hf hv = cc
  find_in_block-some (e ∷ es) zero i v h hf hv = absurd (omega arith)
  find_in_block-some (e ∷ es) (suc fuel) i v h hf hv =
      let at = h ∙ append_assoc (encode e) (encode_all es) tail in
      ground (
        arith,
        find_in_block_step e (encode_all es ++ tail) fuel i at,
        find_in_block-some es fuel (i + length (encode e)) v
            (behind_entry buf (encode_all es ++ tail) e i small at),
      )

  -- Without the key the loop comes to the end of the entries.
  pub find_in_block-none :
      (es : List Entry) (fuel i : ℕ)
      → drop i buf ≡ encode_all es ++ tail
      → value_in key es ≡ none
      → find_in_block (length es + fuel) buf i key
        ≡ find_in_block fuel buf (i + length (encode_all es)) key
  find_in_block-none [] fuel i h hv =
      let a : 0 + fuel ≡ fuel = omega arith in let b : i + 0 ≡ i = omega arith in rw (a, b)
  find_in_block-none (e ∷ es) fuel i h hv =
      let at = h ∙ append_assoc (encode e) (encode_all es) tail in
      let a : suc (length es) + fuel ≡ suc (length es + fuel) = omega arith in
      let b : i + length (encode_all (e ∷ es)) ≡ i + length (encode e) + length (encode_all es) =
        omega (arith, length-append (encode e) (encode_all es)) in
      rw (a, b)
        (ground (
          arith,
          find_in_block_step e (encode_all es ++ tail) (length es + fuel) i at,
          find_in_block-none es fuel (i + length (encode e))
              (behind_entry buf (encode_all es ++ tail) e i small at),
        ))

  -- One byte behind the entries is not enough for an entry.
  pub find_in_block-one_byte :
      (fuel i : ℕ)
      → length buf ≡ i + 1
      → find_in_block (suc fuel) buf i key ≡ err datablock_corrupted
  unfolding find_in_block extract_entry extract_value
  find_in_block-one_byte fuel i h =
      rw (lt→ltb i (length buf) (omega arith), lt→ltb (length buf) (i + 4) (omega arith))

abbrev pub put_all : List Entry → Dict Bytes → Dict Bytes
put_all [] map = map
put_all (e ∷ rest) map = put_all rest (Dict.put e.key e.value map)

pub put_entries_lem :
    (buf : Bytes) (es : List Entry) (fuel i : ℕ) (map : Dict Bytes)
    → IsU32 (length buf)
    → drop i buf ≡ encode_all es
    → length es ≤ fuel
    → i ≤ length buf
    → put_entries fuel buf i map ≡ ok (put_all es map)
unfolding put_entries
put_entries_lem buf [] zero i map small h hf hi =
    rw (ge→ltb i (length buf) (omega (arith, ap length h, length-drop i buf)))
put_entries_lem buf [] (suc fuel) i map small h hf hi =
    rw (ge→ltb i (length buf) (omega (arith, ap length h, length-drop i buf)))
put_entries_lem buf (e ∷ es) zero i map small h hf hi = absurd (omega arith)
put_entries_lem buf (e ∷ es) (suc fuel) i map small h hf hi =
    rw
      (
        lt→ltb i (length buf) (omega (arith, within buf _ e i small h, length-encode e)),
        extract_entry_lem buf (encode_all es) e i small h,
      )
      (put_entries_lem buf es fuel (i + length (encode e)) (Dict.put e.key e.value map) small
        (behind_entry buf (encode_all es) e i small h) (omega arith)
        (within buf (encode_all es) e i small h))

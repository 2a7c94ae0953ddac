-- ===== src/Wal/Torn.antt =====
-- What ReadEntry of wal/wal.go makes of an entry of which a crash left only the first bytes.
use golang_db.Base.{ℕ, ◌+◌, ◌-◌, ◌≤◌, ◌<◌, ◌≡◌, refl, ◌∙◌, inl, inr, ◌++◌, arith}
use golang_db.Base.{ltb, ◌==◌, if◌then◌else◌, Bool-cases, ltb→lt, ltb→ge, ge→ltb, length, take}
use golang_db.Base.{length-take, take-all, take-append_ge, take-append_le, err, eof, Error}
use golang_db.Base.{unexpected_eof, partial_length, partial_payload, partial_checksum}
use golang_db.Base.Bytes.{Bytes, put_u32, length-put_u32}
use golang_db.Wal.Checksum.{checksum_ieee}
use golang_db.Wal.{Wal, frame, read_full, read_body, read_entry, max_payload}
use golang_db.Wal.Frames.{unread, advance, unread-advance, read_full_lem, length-frame, length-fits}

-- The error after `j` of the bytes that were asked for.
abbrev cut : ℕ → Error → Error
cut j e = if j == 0 then eof else e

read_full_short :
    (n j : ℕ) (w : Wal) (xs : Bytes)
    → unread w ≡ take j xs
    → j < n
    → n ≤ length xs
    → (read_full n w).0 ≡ err (cut j unexpected_eof)
unfolding read_full
read_full_short n j w xs h hj hn =
    rw (h, take-all n (take j xs) (omega (arith, length-take j xs)))
      (ground (arith, length-take j xs))

-- The error of `read_entry` on the first `k` bytes of an entry with a payload of `n` bytes.
abbrev pub torn : ℕ → ℕ → Error
torn n k =
    if ltb k 4
    then cut k partial_length
    else if ltb k (n + 4)
    then cut (k - 4) partial_payload
    else cut (k - (n + 4)) partial_checksum

read_body_torn_payload :
    (j : ℕ) (w : Wal) (p : Bytes)
    → unread w ≡ take j p
    → j < length p
    → (read_body (length p) w).0 ≡ err (cut j partial_payload)
unfolding read_body
read_body_torn_payload j w p h hj =
    ground (arith, read_full_short (length p) j w p h hj (omega arith))

read_body_torn_checksum :
    (j : ℕ) (w : Wal) (p : Bytes)
    → unread w ≡ p ++ take j (put_u32 (checksum_ieee p))
    → j < 4
    → (read_body (length p) w).0 ≡ err (cut j partial_checksum)
unfolding read_body
read_body_torn_checksum j w p h hj = rw (read_full_lem (length p) w p _ refl h) (
    ground (
      arith,
      read_full_short 4 j (advance w (length p)) (put_u32 (checksum_ieee p))
          (unread-advance (length p) w p _ refl h) hj
          (omega (arith, length-put_u32 (checksum_ieee p))),
    ))

read_entry_torn_length :
    (k : ℕ) (w : Wal) (p : Bytes)
    → unread w ≡ take k (frame p)
    → k < 4
    → (read_entry w).0 ≡ err (cut k partial_length)
unfolding read_entry
read_entry_torn_length k w p h hk =
    ground (arith, read_full_short 4 k w (frame p) h hk (omega (arith, length-frame p)))

take-frame :
    (k : ℕ) (p : Bytes)
    → 4 ≤ k
    → take k (frame p) ≡ put_u32 (length p) ++ take (k - 4) (p ++ put_u32 (checksum_ieee p))
unfolding frame
take-frame k p hk = rw (
  take-append_ge k (put_u32 (length p)) (p ++ put_u32 (checksum_ieee p))
      (omega (arith, length-put_u32 (length p))),
  length-put_u32 (length p),
)

module _ (k : ℕ) (w : Wal) (p : Bytes) (h : unread w ≡ take k (frame p)) (hk : 4 ≤ k) where
  behind_length : unread w ≡ put_u32 (length p) ++ take (k - 4) (p ++ put_u32 (checksum_ieee p))
  behind_length = h ∙ take-frame k p hk

  read_entry_body :
      length p ≤ max_payload → (read_entry w).0 ≡ (read_body (length p) (advance w 4)).0
  unfolding read_entry
  read_entry_body fits = rw (
    read_full_lem 4 w (put_u32 (length p)) _ (length-put_u32 (length p)) behind_length,
    length-fits p fits,
    ge→ltb max_payload (length p) fits,
  )

  unread_body : unread (advance w 4) ≡ take (k - 4) (p ++ put_u32 (checksum_ieee p))
  unread_body = unread-advance 4 w (put_u32 (length p)) _ (length-put_u32 (length p)) behind_length

-- Of an entry of at most a megabyte, any proper front reads as an error, and the cut decides which:
-- `eof`, as at the end of a whole log, before the entry, behind its length and behind its payload;
-- the error for a partial length, payload or checksum inside that part.
pub read_entry-torn :
    (k : ℕ) (w : Wal) (p : Bytes)
    → unread w ≡ take k (frame p)
    → k < length (frame p)
    → length p ≤ max_payload
    → (read_entry w).0 ≡ err (torn (length p) k)
read_entry-torn k w p h hk fits = elim (Bool-cases (ltb k 4)) [
  | inl a ↦ rw a (read_entry_torn_length k w p h (ltb→lt k 4 a))
  | inr a ↦
      let ge : 4 ≤ k = ltb→ge k 4 a in
      read_entry_body k w p h ge fits
      ∙ rw a (elim (Bool-cases (ltb k (length p + 4))) [
        | inl b ↦
            let lt = ltb→lt k _ b in
            rw b (
              read_body_torn_payload (k - 4) (advance w 4) p
                (unread_body k w p h ge ∙ take-append_le (k - 4) p _ (omega arith)) (omega arith))
        | inr b ↦
            let bge = ltb→ge k _ b in
            let e : k - 4 - length p ≡ k - (length p + 4) = omega arith in
            rw (b, ← e)
              (read_body_torn_checksum (k - 4 - length p) (advance w 4) p
                (unread_body k w p h ge ∙ take-append_ge (k - 4) p _ (omega arith))
                (omega (arith, length-frame p)))
      ])
]

-- ===== src/Wal/Frames.antt =====
-- Reading back what `write_entry` wrote: wal/wal.go, WriteEntry and ReadEntry.
use golang_db.Base.{◌<◌, too_large, lt→ltb}
use golang_db.Base.{ℕ, ◌+◌, ◌≤◌, ◌≡◌, refl, sym, ◌∙◌, ap, ◌++◌, arith}
use golang_db.Base.{ge→ltb, eqb_refl, length, drop, length-append, drop-append, take-append}
use golang_db.Base.{drop-drop, append_assoc, ok, err}
use golang_db.Base.Bytes.{Bytes, IsU32, put_u32, get_u32, get-put_u32_word, length-put_u32}
use golang_db.Wal.Checksum.{checksum_ieee, checksum_ieee-lt}
use golang_db.Wal.{Wal, works, write_entry, frame, read_full, read_body, read_entry, max_payload}

-- What is left to read.
abbrev pub unread : Wal → Bytes
unread w = drop w.pos w.contents

abbrev pub advance : Wal → ℕ → Wal
advance w n = record w { pos = w.pos + n }

pub unread-advance :
    (n : ℕ) (w : Wal) (xs ys : Bytes)
    → length xs ≡ n
    → unread w ≡ xs ++ ys
    → unread (advance w n) ≡ ys
unread-advance n w xs ys hn h =
    sym (drop-drop w.pos n w.contents) ∙ ap (drop n) h ∙ drop-append n xs ys (sym hn)

pub read_full_lem :
    (n : ℕ) (w : Wal) (xs ys : Bytes)
    → length xs ≡ n
    → unread w ≡ xs ++ ys
    → read_full n w ≡ (ok xs, advance w n)
unfolding read_full
read_full_lem n w xs ys hn h = rw (h, take-append n xs ys (sym hn), hn, eqb_refl n) refl

advance-advance : (w : Wal) (m n : ℕ) → advance (advance w m) n ≡ advance w (m + n)
advance-advance w m n = ap (λ (k : ℕ). record w { pos = k }) (omega arith)

read_body-append :
    (w : Wal) (p rest : Bytes)
    → unread w ≡ p ++ (put_u32 (checksum_ieee p) ++ rest)
    → read_body (length p) w ≡ (ok p, advance w (length p + 4))
unfolding read_body
read_body-append w p rest h = rw (
  read_full_lem (length p) w p _ refl h,
  read_full_lem 4 (advance w (length p)) (put_u32 (checksum_ieee p)) rest (length-put_u32 _)
      (unread-advance (length p) w p _ refl h),
  get-put_u32_word (checksum_ieee p) (checksum_ieee-lt p),
  eqb_refl (checksum_ieee p),
  advance-advance w (length p) 4,
)

pub length-frame : (p : Bytes) → length (frame p) ≡ length p + 8
unfolding frame
length-frame p = omega (
  arith,
  length-put_u32 (length p),
  length-put_u32 (checksum_ieee p),
  length-append (put_u32 (length p)) (p ++ put_u32 (checksum_ieee p)),
  length-append p (put_u32 (checksum_ieee p)),
)

pub length-fits : (p : Bytes) → length p ≤ max_payload → get_u32 (put_u32 (length p)) ≡ length p
length-fits p fits = get-put_u32_word (length p) (omega arith)

-- Where an entry of at most a megabyte stands next in the file, `read_entry` returns its payload
-- and moves on to what follows the entry.
pub read_entry-frame :
    (w : Wal) (p rest : Bytes)
    → unread w ≡ frame p ++ rest
    → length p ≤ max_payload
    → (read_entry w ≡ (ok p, advance w (length (frame p))))
      × (unread (advance w (length (frame p))) ≡ rest)
read_entry-frame w p rest h fits = (reads, unread-advance _ w (frame p) rest refl h)
  where
    body : Bytes
    body = put_u32 (checksum_ieee p) ++ rest

    split : unread w ≡ put_u32 (length p) ++ (p ++ body)
    split = h ∙ unfold frame in rw (append_assoc, append_assoc)

    total : 4 + (length p + 4) ≡ length (frame p)
    total = omega (arith, length-frame p)

    reads : read_entry w ≡ (ok p, advance w (length (frame p)))
    reads =
        unfold read_entry in
        rw (
          read_full_lem 4 w (put_u32 (length p)) (p ++ body) (length-put_u32 _) split,
          length-fits p fits,
          ge→ltb max_payload (length p) fits,
          read_body-append (advance w 4) p rest
              (unread-advance 4 w (put_u32 (length p)) _ (length-put_u32 (length p)) split),
          advance-advance w 4 (length p + 4),
          total,
        )

-- The position at which the next entry will be written.
abbrev pub at_end : Wal → Wal
at_end w = record w { pos = length w.contents }

-- A payload of more than 1,000,000 bytes, and fewer than 2 ^ 32, is written by WriteEntry without an error,
-- and ReadEntry from where it begins refuses it as too large.
pub read_entry-write_entry_too_large :
    (w : Wal) (p : Bytes)
    → max_payload < length p
    → IsU32 (length p)
    → ((write_entry works p w).0 ≡ ok tt)
      × ((read_entry
            (record { contents = (write_entry works p w).1.contents; pos = length w.contents })).0
          ≡ err too_large)
unfolding write_entry
read_entry-write_entry_too_large w p big fits = (refl, reads)
  where
    w' : Wal
    w' = record { contents = w.contents ++ frame p; pos = length w.contents }

    body : Bytes
    body = p ++ put_u32 (checksum_ieee p)

    split : unread w' ≡ put_u32 (length p) ++ body
    split = unfold frame in drop-append (length w.contents) w.contents (frame p) refl

    reads : (read_entry w').0 ≡ err too_large
    reads =
        unfold read_entry in
        rw (
          read_full_lem 4 w' (put_u32 (length p)) body (length-put_u32 _) split,
          get-put_u32_word (length p) fits,
          lt→ltb max_payload (length p) big,
        )

-- ===== src/Wal.antt =====
-- wal/wal.go: the write-ahead log. A file is its contents and the offset of the next read.
mod Checksum
pub mod Frames
pub mod Torn
pub mod Sound
mod Tests
use Checksum.{checksum_ieee}
use golang_db.Base.{ℕ, ◌+◌, ◌-◌, Bool, true, false, List, [], ◌∷◌, ◌++◌, ltb, ◌==◌, if◌then◌else◌}
use golang_db.Base.{length, take, drop, Result, Error, ok, err, eof, unexpected_eof, write_failed}
use golang_db.Base.{sync_failed, partial_length, too_large, partial_payload, partial_checksum}
use golang_db.Base.{checksum_mismatch}
use golang_db.Base.Bytes.{Bytes, put_u32, get_u32}

-- The file is opened with O_APPEND: a write goes to the end and leaves the offset there.
pub record Wal : Type 0 where
  pub contents : Bytes
  pub pos : ℕ

-- What the operating system makes of one write and its sync: `write_fails n` puts the first `n`
-- bytes into the file and reports an error.
pub data Disk : Type 0 where
  works : Disk
  write_fails : ℕ → Disk
  sync_fails : Disk

abbrev pub append : Bytes → Wal → Wal
append buf w = record { contents = w.contents ++ buf; pos = length (w.contents ++ buf) }

-- [length][payload][checksum]
unfoldable pub frame : Bytes → Bytes
frame payload = put_u32 (length payload) ++ (payload ++ put_u32 (checksum_ieee payload))

unfoldable pub write_entry : Disk → Bytes → Wal → Result (Unit {0}) × Wal
write_entry works payload w = (ok tt, append (frame payload) w)
write_entry (write_fails n) payload w = (err write_failed, append (take n (frame payload)) w)
write_entry sync_fails payload w = (err sync_failed, append (frame payload) w)

-- An action reads from the file and moves its offset, also where it fails.
abbrev pub ReadIo : Type 0 → Type 0
ReadIo A = Wal → Result A × Wal

abbrev continue : {A B : Type 0} → Result A → (A → ReadIo B) → ReadIo B
continue (ok a) f w = f a w
continue (err e) f w = (err e, w)

infixl 5 ◌>>=◌
abbrev ◌>>=◌ : {A B : Type 0} → ReadIo A → (A → ReadIo B) → ReadIo B
◌>>=◌ m f w = let (r, w') = m w in continue r f w'

fail : {A : Type 0} → Error → ReadIo A
fail e w = (err e, w)

pure : {A : Type 0} → A → ReadIo A
pure a w = (ok a, w)

-- io.ReadFull into a buffer of `n` bytes: EOF if none could be read, ErrUnexpectedEOF if fewer.
deliver : ℕ → Bytes → ReadIo Bytes
deliver n got w =
    let w' : Wal = record w { pos = w.pos + length got } in
    if length got == n
    then (ok got, w')
    else if length got == 0
    then (err eof, w')
    else (err unexpected_eof, w')

unfoldable pub read_full : ℕ → ReadIo Bytes
unfolding deliver
read_full n w = deliver n (take n (drop w.pos w.contents)) w

-- `if err == io.ErrUnexpectedEOF { return nil, errors.New(…) }; if err != nil { return nil, err }`
abbrev named : Error → Error → Error
named e unexpected_eof = e
named e other = other

abbrev rename : Error → Result Bytes × Wal → Result Bytes × Wal
rename e (ok b, w) = (ok b, w)
rename e (err x, w) = (err (named e x), w)

read_or : Error → ℕ → ReadIo Bytes
read_or e n w = rename e (read_full n w)

abbrev pub max_payload : ℕ
max_payload = 1_000_000

verify : Bytes → Bytes → ReadIo Bytes
unfolding fail pure
verify payload checksum_buf =
    if get_u32 checksum_buf == checksum_ieee payload then pure payload else fail checksum_mismatch

unfoldable pub read_body : ℕ → ReadIo Bytes
unfolding read_or verify
read_body payload_length = do
  payload ← read_or partial_payload payload_length
  checksum_buf ← read_or partial_checksum 4
  verify payload checksum_buf

check_length : Bytes → ReadIo Bytes
unfolding fail
check_length length_buf =
    if ltb max_payload (get_u32 length_buf) then fail too_large else read_body (get_u32 length_buf)

unfoldable pub read_entry : ReadIo Bytes
unfolding read_or check_length
read_entry = do length_buf ← read_or partial_length 4; check_length length_buf

-- Truncate(0) and Seek(0, 0)
unfoldable pub clear : Wal → Wal
clear w = record { contents = []; pos = 0 }

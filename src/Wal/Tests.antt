-- ===== src/Wal/Tests.antt =====
-- Runs of wal/wal.go: an entry written to a file and read back, whole, cut, and too large.
use golang_db.Base.{sym, ◌≡◌, ◌≤◌, refl, [], ◌∷◌, ◌++◌, arith, length, take, ok, err}
use golang_db.Base.Bytes.{Bytes, put_u32, get_u32}
use golang_db.Wal.{Wal, frame, read_full, read_body, read_entry, max_payload}
use golang_db.Wal.Checksum.{checksum_ieee}
use golang_db.Wal.Frames.{unread, advance, read_entry-frame}
use golang_db.Wal.Torn.{torn, read_entry-torn}
use golang_db.Wal.Sound.{read_entry_sound}

-- The payload "hi".
abbrev hi : Bytes
hi = 104 ∷ 105 ∷ []

-- The file with its entry and a byte behind it.
abbrev hi_file : Bytes
hi_file = 0 ∷ 0 ∷ 0 ∷ 2 ∷ 104 ∷ 105 ∷ 216 ∷ 147 ∷ 42 ∷ 172 ∷ 7 ∷ []

frame-hi : frame hi ++ 7 ∷ [] ≡ hi_file
unfolding frame put_u32 checksum_ieee
frame-hi = refl

abbrev at_start : Bytes → Wal
at_start contents = record { contents = contents; pos = 0 }

runs : read_entry (at_start hi_file) ≡ (ok hi, record { contents = hi_file; pos = 10 })
unfolding read_entry read_full read_body get_u32 checksum_ieee
runs = refl

read_entry_sound_example :
    (unread (at_start hi_file) ≡ frame hi ++ 7 ∷ []) × (length hi ≤ max_payload)
read_entry_sound_example =
    read_entry_sound (at_start hi_file) (record { contents = hi_file; pos = 10 }) hi (ground arith)
      runs

read_entry-frame_example :
    (read_entry (at_start hi_file) ≡ (ok hi, advance (at_start hi_file) (length (frame hi))))
    × (unread (advance (at_start hi_file) (length (frame hi))) ≡ 7 ∷ [])
read_entry-frame_example =
    read_entry-frame (at_start hi_file) hi (7 ∷ []) (sym frame-hi) (omega arith)

read_entry-torn_example : (read_entry (at_start (take 5 (frame hi)))).0 ≡ err (torn 2 5)
read_entry-torn_example =
    read_entry-torn 5 (at_start (take 5 (frame hi))) hi refl (unfold frame put_u32 in omega arith)
      (omega arith)

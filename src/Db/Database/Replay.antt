-- ===== src/Db/Database/Replay.antt =====
-- buildMemtableFromWal of db/db.go on a log that the database has written.
use golang_db.Base.{
  ℕ, zero, suc, ◌+◌, ◌≤◌, ◌<◌, ◌≡◌, refl, sym, ap, ◌∙◌, Option, none, some, List, [], ◌∷◌, ◌++◌,
  arith, All, if◌then◌else◌, length, length-append, eof, Result, ok, err,
}
use golang_db.Base.Bytes.{Bytes, str_eq, cmp}
use golang_db.Wal.{Wal, frame, read_entry, max_payload}
use golang_db.Wal.Frames.{unread, advance, read_entry-frame, length-frame}
use golang_db.Wal.Torn.{read_entry-torn}
use golang_db.Memtable
use golang_db.Btree.{find}
use golang_db.Memtable.{EntryTree, Memtable, new_memtable, iterate}
use golang_db.Memtable.Laws.{get-put, get-value_at, iterate-new}
use golang_db.Db.Command.{PutCommand, serialise_put_command, serialise_transaction_commit_payload}
use golang_db.Db.Command.RoundTrip.{put_command_round_trip}
use golang_db.Db.Command.Writes.{transaction_command_round_trip}
use golang_db.Db.Database.{
  put_commands, apply_put, apply_transaction, apply_command, apply_payload, at_error,
  build_memtable_from_wal, recover,
}

-- What a call has written to the log: a single write, or those of a transaction.
pub data Logged : Type 0 where
  single : PutCommand → Logged
  together : List PutCommand → Logged

abbrev pub commands : Logged → List PutCommand
commands (single c) = c ∷ []
commands (together cs) = cs

abbrev pub payload : Logged → Bytes
payload (single c) = serialise_put_command c.key c.value
payload (together cs) = serialise_transaction_commit_payload cs

abbrev pub frames : List Logged → Bytes
frames [] = []
frames (l ∷ rest) = frame (payload l) ++ frames rest

abbrev pub all_commands : List Logged → List PutCommand
all_commands [] = []
all_commands (l ∷ rest) = commands l ++ all_commands rest

abbrev pub IsReadable : Logged → Type 0
IsReadable l = length (payload l) ≤ max_payload

-- The value of a key behind a sequence of writes: the last write to it, or else what it was.
abbrev pub written : Bytes → List PutCommand → Option Bytes → Option Bytes
written key [] before = before
written key (c ∷ rest) before = written key rest (if str_eq c.key key then some c.value else before)

pub written-append :
    (key : Bytes) (cs ds : List PutCommand) (before : Option Bytes)
    → written key (cs ++ ds) before ≡ written key ds (written key cs before)
written-append key [] ds before = refl
written-append key (c ∷ cs) ds before = written-append key cs ds _

module _ (bt : EntryTree) where
  pub get-put_commands :
      (key : Bytes) (cs : List PutCommand) (m : Memtable bt)
      → Memtable.get bt (put_commands bt cs m) key ≡ written key cs (Memtable.get bt m key)
  unfolding put_commands
  get-put_commands key [] m = refl
  get-put_commands key (c ∷ cs) m =
      get-put_commands key cs (Memtable.put bt m c.key c.value)
      ∙ ap (written key cs) (get-put bt m c.key c.value key)

  pub get-new : (key : Bytes) → Memtable.get bt (new_memtable bt) key ≡ none
  unfolding find
  get-new key = rw (get-value_at bt (new_memtable bt) key, iterate-new bt)

  put_commands-append :
      (cs ds : List PutCommand) (m : Memtable bt)
      → put_commands bt (cs ++ ds) m ≡ put_commands bt ds (put_commands bt cs m)
  unfolding put_commands
  put_commands-append [] ds m = refl
  put_commands-append (c ∷ cs) ds m = put_commands-append cs ds _

  apply_payload_lem :
      (l : Logged) (m : Memtable bt)
      → IsReadable l
      → apply_payload bt (payload l) m ≡ ok (put_commands bt (commands l) m)
  unfolding apply_payload apply_command
  apply_payload_lem (single c) m fits =
      let (command, rest) = put_command_round_trip c.key c.value (omega arith) in
      rw command (unfold apply_command apply_put put_commands cmp in rw rest)
  apply_payload_lem (together cs) m fits =
      let (command, rest) = transaction_command_round_trip cs (omega arith) in
      rw command (unfold apply_command apply_transaction cmp in rw rest)

  -- The log behind its last entry ends the loop.
  at_end : (w : Wal) → unread w ≡ [] → (w' : Wal) × (read_entry w ≡ (err eof, w'))
  at_end w h = (
    (read_entry w).1,
    ap (λ (r : Result Bytes). (r, (read_entry w).1))
        (read_entry-torn 0 w [] h (omega (arith, length-frame [])) (omega arith)),
  )

  build_memtable_lem :
      (log : List Logged) (w : Wal) (m : Memtable bt) (fuel : ℕ)
      → All IsReadable log
      → unread w ≡ frames log
      → length log < fuel
      → build_memtable_from_wal bt fuel w m ≡ ok (put_commands bt (all_commands log) m)
  unfolding build_memtable_from_wal put_commands
  build_memtable_lem log w m zero fits h hf = absurd (omega arith)
  build_memtable_lem [] w m (suc fuel) fits h hf =
      let (w', reads) = at_end w h in rw (reads, build_memtable_from_wal) (unfold at_error in refl)
  build_memtable_lem (l ∷ log) w m (suc fuel) fits h hf =
      let (reads, behind) = read_entry-frame w (payload l) (frames log) h fits.0 in
      rw (reads, build_memtable_from_wal, apply_payload_lem l m fits.0, reads)
        (build_memtable_lem log (advance w (length (frame (payload l)))) _ fuel fits.1 behind
            (omega arith)
          ∙ ap ok (sym (put_commands-append (commands l) (all_commands log) m)))

  length-le-frames : (log : List Logged) → length log ≤ length (frames log)
  length-le-frames [] = omega arith
  length-le-frames (l ∷ log) = omega (
    arith,
    length-le-frames log,
    length-append (frame (payload l)) (frames log),
    length-frame (payload l),
  )

  -- A log of entries of at most a megabyte is replayed to its end, without an error, into a memtable in
  -- which each key has the value of the last write to it.
  pub recover-frames :
      (log : List Logged)
      → All IsReadable log
      → (m : Memtable bt) × (recover bt (frames log) ≡ ok m)
        × ((key : Bytes) → Memtable.get bt m key ≡ written key (all_commands log) none)
  unfolding recover
  recover-frames log fits = (
    put_commands bt (all_commands log) (new_memtable bt),
    build_memtable_lem log (record { contents = frames log; pos = 0 }) (new_memtable bt)
        (length (frames log) + 1) fits refl (omega (arith, length-le-frames log)),
    λ key.
        get-put_commands key (all_commands log) (new_memtable bt)
        ∙ ap (written key (all_commands log)) (get-new key),
  )

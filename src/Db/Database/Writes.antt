-- ===== src/Db/Database/Writes.antt =====
-- Put and the flush of db/db.go keep the log and the memtable in step.
use golang_db.Base.{
  ℕ, ◌≤◌, ◌≡◌, refl, sym, ap, ◌∙◌, none, Bool-cases, inl, inr, List, [], ◌∷◌, ◌++◌, All, length,
  append_assoc, append-nil, ok,
}
use golang_db.Base.Bytes.{Bytes}
use golang_db.Btree.{find}
use golang_db.Wal
use golang_db.Wal.{Wal, works, frame, max_payload}
use golang_db.Memtable
use golang_db.Memtable.{EntryTree, Memtable, should_flush}
use golang_db.Memtable.Laws.{get-put, get-value_at, iterate-clear}
use golang_db.Db.Command.{PutCommand, serialise_put_command}
use golang_db.Db.Database.{
  Db, put, put_logged, recover, flush_if_full, create_ss_table_and_clear_wal_and_mem_table,
}
use golang_db.Db.Database.Replay.{
  Logged, single, commands, payload, frames, all_commands, IsReadable, written, written-append,
  recover-frames,
}

frames-append :
    (log : List Logged) (l : Logged) → frames (log ++ l ∷ []) ≡ frames log ++ frame (payload l)
frames-append [] l = append-nil (frame (payload l))
frames-append (k ∷ log) l =
    ap (λ (t : Bytes). frame (payload k) ++ t) (frames-append log l)
    ∙ sym (append_assoc (frame (payload k)) (frames log) (frame (payload l)))

all_commands-append :
    (log : List Logged) (l : Logged) → all_commands (log ++ l ∷ []) ≡ all_commands log ++ commands l
all_commands-append [] l = append-nil (commands l)
all_commands-append (k ∷ log) l =
    ap (λ (t : List PutCommand). commands k ++ t) (all_commands-append log l)
    ∙ sym (append_assoc (commands k) (all_commands log) (commands l))

IsReadable-append :
    (log : List Logged) (l : Logged)
    → All IsReadable log
    → IsReadable l
    → All IsReadable (log ++ l ∷ [])
IsReadable-append [] l h k = (k, tt)
IsReadable-append (x ∷ log) l h k = (h.0, IsReadable-append log l h.1 k)

module _ (bt : EntryTree) where
  -- The log holds whole entries, and the memtable has for each key the last value that they write.
  pub record IsLogged (db : Db bt) : Type 0 where
    pub log : List Logged
    pub contents : db.wal.contents ≡ frames log
    pub readable : All IsReadable log
    pub held :
        (key : Bytes) → Memtable.get bt db.mem_table key ≡ written key (all_commands log) none

  -- The recovery of a database whose log and memtable are in step ends without an error, with a
  -- memtable that answers every key as the memtable before the restart did.
  pub recover-IsLogged :
      (db : Db bt)
      → IsLogged db
      → (m : Memtable bt) × (recover bt db.wal.contents ≡ ok m)
        × ((key : Bytes) → Memtable.get bt m key ≡ Memtable.get bt db.mem_table key)
  recover-IsLogged db h =
      let (m, runs, agrees) = recover-frames bt h.log h.readable in
      (m, ap (recover bt) h.contents ∙ runs, λ key. agrees key ∙ sym (h.held key))

  -- A new entry at the end of the log, and its writes in the memtable.
  pub logged :
      (db : Db bt) (l : Logged) (pos : ℕ) (m : Memtable bt)
      → IsLogged db
      → IsReadable l
      → ((key : Bytes)
          → Memtable.get bt m key ≡ written key (commands l) (Memtable.get bt db.mem_table key))
      → IsLogged (record db {
        wal = record { contents = db.wal.contents ++ frame (payload l); pos = pos };
        mem_table = m;
      })
  logged db l pos m h fits takes = record {
    log = h.log ++ l ∷ [];
    contents = rw (h.contents, frames-append h.log l);
    readable = IsReadable-append h.log l h.readable fits;
    held = λ key.
        takes key
        ∙ ap (written key (commands l)) (h.held key)
        ∙ sym (written-append key (all_commands h.log) (commands l) none)
        ∙ ap (λ (cs : List PutCommand). written key cs none) (sym (all_commands-append h.log l));
  }

  pub get-clear : (m : Memtable bt) (key : Bytes) → Memtable.get bt (Memtable.clear bt m) key ≡ none
  unfolding find
  get-clear m key = rw (get-value_at bt (Memtable.clear bt m) key, iterate-clear bt m)

  pub flush_if_full-IsLogged : (db : Db bt) → IsLogged db → IsLogged (flush_if_full bt db)
  unfolding flush_if_full create_ss_table_and_clear_wal_and_mem_table
  flush_if_full-IsLogged db h = elim (Bool-cases (should_flush bt db.mem_table)) [
    | inl full ↦ rw full (record {
      log = [];
      contents = unfold Wal.clear in refl;
      readable = tt;
      held = λ key. get-clear db.mem_table key;
    })
    | inr other ↦ rw other h
  ]

  -- On a database whose log and memtable are in step, a Put that the disk takes, of a command of at most
  -- a megabyte, returns no error and keeps them in step, whether or not it flushes.
  pub put-IsLogged :
      (db : Db bt) (key value : Bytes)
      → IsLogged db
      → length (serialise_put_command key value) ≤ max_payload
      → ((put bt works db key value).0 ≡ ok tt) × IsLogged (put bt works db key value).1
  unfolding put put_logged Wal.write_entry
  put-IsLogged db key value h fits = (
    refl,
    flush_if_full-IsLogged _ (
        logged db (single (record { key = key; value = value })) _ _ h fits
          (get-put bt db.mem_table key value)),
  )

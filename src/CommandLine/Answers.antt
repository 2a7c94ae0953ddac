-- ===== src/CommandLine/Answers.antt =====
-- What the command line answers to a PUT and a GET.
use golang_db.Base.{ℕ, ◌≢◌, All, Error, Result}
use golang_db.Base.Bytes.{Bytes}
use golang_db.Memtable.{EntryTree}
use golang_db.Wal.{works}
use golang_db.Memtable
use golang_db.Db.Database
use golang_db.Db.Database.{Db}
use golang_db.CommandLine.{Operations}

-- No space in the text.
abbrev pub IsWord : Bytes → Type 0
IsWord s = All (λ (c : ℕ). c ≢ 32) s

module _ (bt : EntryTree) (create insert : Db bt → Bytes → Result (Unit {0}) × Db bt)
    (error_string : Error → Bytes) where
  -- The operations of the database, on a disk that takes each write.
  abbrev pub database : Operations (Db bt)
  database = record {
    get = Database.get bt;
    put = Database.put bt works;
    create_table = create;
    insert_into_table = insert;
    error_string = error_string;
  }

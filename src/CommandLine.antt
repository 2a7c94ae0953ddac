-- ===== src/CommandLine.antt =====
-- The command line of main.go over the operations of the database: the arguments of a line, the
-- commands, and the loop over the lines that the scanner returns.
pub mod Answers
mod Tests
use golang_db.Base.{
  ℕ, zero, suc, ◌==◌, Bool, true, false, ◌&&◌, List, [], ◌∷◌, ◌++◌, if◌then◌else◌, Error,
  error_text, Result, ok, err,
}
use golang_db.Base.Bytes.{Bytes, str_eq}
use golang_db.Base.Text.{codes}

-- What main.go calls of package db, and err.Error().
pub record Operations (Db : Type 0) : Type 0 where
  pub get : Db → Bytes → Result Bytes
  pub put : Db → Bytes → Bytes → Result (Unit {0}) × Db
  pub create_table : Db → Bytes → Result (Unit {0}) × Db
  pub insert_into_table : Db → Bytes → Result (Unit {0}) × Db
  pub error_string : Error → Bytes

-- strings.SplitN at a space, into at most `n + 1` parts; `current` is what is read of the part.
unfoldable pub split_n : ℕ → Bytes → Bytes → List Bytes
split_n zero s current = (current ++ s) ∷ []
split_n (suc n) [] current = current ∷ []
split_n (suc n) (c ∷ s) current =
    let ended = current ∷ split_n n s [] in
    let longer = split_n (suc n) s (current ++ c ∷ []) in if c == 32 then ended else longer

-- args[0]
abbrev pub command : List Bytes → Bytes
command [] = []
command (cmd ∷ args) = cmd

-- args[1], where there is one
abbrev pub argument : List Bytes → Bytes
argument [] = []
argument (cmd ∷ args) = command args

-- len(args) > 1 && args[1] == "TABLE"
unfoldable pub is_table : List Bytes → Bool
is_table [] = false
is_table (cmd ∷ []) = false
is_table (cmd ∷ word ∷ args) = str_eq word (codes "TABLE")

abbrev pub line_end : Bytes → Bytes
line_end text = text ++ 10 ∷ []

unfoldable pub command_not_supported : Bytes
command_not_supported = line_end (codes "Command Not Supported")

module _ {Db : Type 0} (ops : Operations Db) where
  -- fmt.Printf of an error, behind the name of what has failed
  unfoldable pub failure : Bytes → Error → Bytes
  failure what e =
      line_end
        (codes "Error while " ++ (what ++ (codes ": '" ++ (ops.error_string e ++ codes "'"))))

  unfoldable pub report : Bytes → Bytes → Result (Unit {0}) → Bytes
  unfolding failure
  report what done (err e) = failure what e
  report what done (ok u) = line_end done

  unfoldable pub value_found : Bytes → Result Bytes → Result Bytes
  value_found key (err e) = err (
      error_text
        (codes "No value found for GET " ++ (key ++ (codes ". Error: " ++ ops.error_string e))))
  value_found key (ok value) =
      if str_eq value []
      then err (error_text (codes "No value found for GET " ++ key))
      else ok value

  unfoldable pub cmd_get : Db → List Bytes → Result Bytes
  unfolding value_found
  cmd_get db (cmd ∷ key ∷ []) = value_found key (ops.get db key)
  cmd_get db args =
      err (error_text (line_end (codes "Expected exactly 1 argument for GET command")))

  unfoldable pub put_done : Result (Unit {0}) → Result (Unit {0})
  put_done (err e) = err (error_text (codes "Something went wrong: " ++ ops.error_string e))
  put_done (ok u) = ok u

  unfoldable pub cmd_put : Db → List Bytes → Result (Unit {0}) × Db
  unfolding put_done
  cmd_put db (cmd ∷ key ∷ value ∷ []) =
      let (done, db') = ops.put db key value in (put_done done, db')
  cmd_put db args =
      (err (error_text (line_end (codes "Expected exactly 2 arguments for PUT command"))), db)

  unfoldable pub cmd_select_from_table : Db → Bytes → Result (Unit {0})
  cmd_select_from_table db query = err (error_text (codes "yet to be implemented"))

  unfoldable pub get_answer : Bytes → Result Bytes → Bytes
  unfolding failure
  get_answer key (err e) = failure (codes "performing GET operation") e
  get_answer key (ok value) = line_end (codes "GET " ++ (key ++ (codes " returned: " ++ value)))

  -- The database, what is printed, and breakLoop.
  unfoldable pub run_command : Db → Bytes → List Bytes → (Db × Bytes) × Bool
  unfolding report get_answer command_not_supported
  run_command db line args =
      let cmd = command args in
      let put = cmd_put db args in
      let created = ops.create_table db line in
      let inserted = ops.insert_into_table db line in
      if str_eq cmd (codes "GET")
      then ((db, get_answer (argument args) (cmd_get db args)), false)
      else if str_eq cmd (codes "PUT")
      then (
        (
          put.1,
          report (codes "performing PUT operation") (codes "PUT operation performed successfully")
              put.0,
        ),
        false,
      )
      else if str_eq cmd (codes "CREATE")
      then (
        if is_table args
            then (
              created.1,
              report (codes "running CREATE TABLE command")
                  (codes "CREATE TABLE performed successfully") created.0,
            )
            else (db, command_not_supported),
        false,
      )
      else if str_eq cmd (codes "INSERT")
      then (
        (
          inserted.1,
          report (codes "running INSERT INTO command") (codes "INSERT INTO performed successfully")
              inserted.0,
        ),
        false,
      )
      else if str_eq cmd (codes "SELECT")
      then (
        (
          db,
          if is_table args
              then report (codes "running SELECT FROM command")
                  (codes "SELECT performed successfully") (cmd_select_from_table db line)
              else command_not_supported,
        ),
        false,
      )
      else if str_eq cmd (codes "EXIT")
      then ((db, []), true)
      else ((db, command_not_supported), false)

  unfoldable pub run_line : Db → Bytes → (Db × Bytes) × Bool
  unfolding run_command
  run_line db line = run_command db line (split_n 2 line [])

  -- The loop of main: the lines that are printed are one text.
  unfoldable pub run_lines : Db → List Bytes → Db × Bytes
  unfolding run_line
  run_lines db [] = (db, [])
  run_lines db (line ∷ lines) =
      let ((db', printed), break_loop) = run_line db line in
      let (db'', later) = run_lines db' lines in
      if break_loop then (db', printed) else (db'', printed ++ later)

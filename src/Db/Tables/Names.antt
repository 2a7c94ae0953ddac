-- ===== src/Db/Tables/Names.antt =====
-- The list of the names of the tables, as createTable writes it and NewDB splits it.
use golang_db.Base.{
  ℕ, ◌-◌, ◌≡◌, ◌≢◌, refl, ap, ◌∙◌, ◌==◌, false, List, [], ◌∷◌, ◌++◌, append-nil, append_assoc, All,
  length, length-append, take-append, arith,
}
use golang_db.Base.Bytes.{Bytes}
use golang_db.Db.Schema.{CreateTable}
use golang_db.Db.Rows.{Schemas}
use golang_db.Db.Tables.{table_names, without_last, split_at}

abbrev pub HasNoComma : Bytes → Type 0
HasNoComma s = All (λ (c : ℕ). c ≢ 44) s

abbrev pub keys_of : Schemas → List Bytes
keys_of [] = []
keys_of ((name, table) ∷ rest) = name ∷ keys_of rest

-- The parts of a text, with commas between them.
unfoldable pub joined : Bytes → List Bytes → Bytes
joined part [] = part
joined part (next ∷ parts) = part ++ (44 ∷ joined next parts)

split-part :
    (part s current : Bytes)
    → HasNoComma part
    → split_at 44 (part ++ 44 ∷ s) current ≡ (current ++ part) ∷ split_at 44 s []
unfolding split_at
split-part [] s current h = rw (append-nil current) refl
split-part (c ∷ part) s current (ne, h) =
    let other : (c == 44) ≡ false = ground arith in
    rw (other, split-part part s (current ++ c ∷ []) h, append_assoc current (c ∷ []) part) refl

split-last :
    (part current : Bytes) → HasNoComma part → split_at 44 part current ≡ (current ++ part) ∷ []
unfolding split_at
split-last [] current h = rw (append-nil current) refl
split-last (c ∷ part) current (ne, h) =
    let other : (c == 44) ≡ false = ground arith in
    rw (other, split-last part (current ++ c ∷ []) h, append_assoc current (c ∷ []) part) refl

pub split-joined :
    (part : Bytes) (parts : List Bytes)
    → HasNoComma part
    → All HasNoComma parts
    → split_at 44 (joined part parts) [] ≡ part ∷ parts
unfolding joined
split-joined part [] h more = split-last part [] h
split-joined part (next ∷ parts) h (h', more) =
    split-part part (joined next parts) [] h
    ∙ ap (λ (l : List Bytes). part ∷ l) (split-joined next parts h' more)

-- The tables are stored under their names.
abbrev pub AreNamed : Schemas → Type 0
AreNamed schemas = All (λ (entry : Bytes × CreateTable). entry.1.table_name ≡ entry.0) schemas

pub table_names-joined :
    (name : Bytes) (table : CreateTable) (rest : Schemas)
    → AreNamed ((name, table) ∷ rest)
    → table_names ((name, table) ∷ rest) ≡ joined name (keys_of rest) ++ 44 ∷ []
unfolding table_names joined
table_names-joined name table [] (e, more) = rw e refl
table_names-joined name table ((next, table') ∷ rest) (e, more) =
    rw
      (
        e,
        table_names-joined next table' rest more,
        append_assoc name (44 ∷ joined next (keys_of rest)) (44 ∷ []),
      )
      refl

pub without_last-append : (s : Bytes) (c : ℕ) → without_last (s ++ c ∷ []) ≡ s
unfolding without_last
without_last-append s c =
    take-append (length (s ++ c ∷ []) - 1) s (c ∷ []) (omega (arith, length-append s (c ∷ [])))

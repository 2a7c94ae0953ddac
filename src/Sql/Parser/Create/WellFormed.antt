-- ===== src/Sql/Parser/Create/WellFormed.antt =====
-- The loop of ParseCreateTable ends, and the table that it gives is one that the rest of the code can
-- use.
use golang_db.Base.{
  ℕ, zero, suc, ◌+◌, ◌≤◌, ◌<◌, ◌≡◌, ap, ◌==◌, Bool-cases, inl, inr, List, [], ◌∷◌, ◌++◌, All,
  length, arith, Ensures, bind-Ensures,
}
use golang_db.Base.Bytes.{Bytes, cmp, str_eq, str_eq_iff}
use golang_db.Base.Text.{codes}
use golang_db.Db.Schema.{Column, CreateTable}
use golang_db.Sql.Parser.{Parser, skip_comma, value_is}
use golang_db.Sql.Parser.Progress.{left, consume-bind, left-skip_comma}
use golang_db.Sql.Parser.Create.{
  get_data_type_from_string, parse_primary_key_column, parse_column, Definitions, parse_definition,
  parse_definitions, last_position, primary_key_position, at_least_one_column, parse_create_table,
}
use golang_db.Sql.Parser.Create.Tokens.{IsDataType}

get_data_type_from_string-Ensures :
    (s : Bytes) → Ensures (λ (n : ℕ). IsDataType n × 0 < length s) (get_data_type_from_string s)
unfolding get_data_type_from_string cmp
get_data_type_from_string-Ensures [] = λ h. cc
get_data_type_from_string-Ensures (c ∷ s) = elim (Bool-cases (str_eq (c ∷ s) (codes "INT"))) [
  | inl e ↦ rw e (omega arith, omega arith)
  | inr e ↦ elim (Bool-cases (str_eq (c ∷ s) (codes "STRING"))) [
    | inl e' ↦ rw (e, e') (omega arith, omega arith)
    | inr e' ↦ elim (Bool-cases (str_eq (c ∷ s) (codes "BOOL"))) [
      | inl e'' ↦ rw (e, e', e'') (omega arith, omega arith)
      | inr e'' ↦ rw (e, e', e'') (λ h. cc)
    ]
  ]
]

parse_primary_key_column-Ensures :
    (p : Parser)
    → Ensures (λ (r : Bytes × Parser). left (r.1) ≤ length p.tokeniser) (parse_primary_key_column p)
unfolding parse_primary_key_column
parse_primary_key_column-Ensures p = consume-bind _ p _ _ _ _ (λ p₁ h₁.
    consume-bind _ p₁ _ _ _ _ (λ p₂ h₂. consume-bind _ p₂ _ _ _ _ (λ p₃ h₃.
      consume-bind _ p₃ _ _ _ _ (λ p₄ h₄. consume-bind _ p₄ _ _ _ _ (λ p₅ h₅. omega arith)))))

-- The word for the data type has runes.
parse_column-Ensures :
    (p : Parser)
    → Ensures
        (λ (r : Column × Parser). IsDataType r.0.data_type × left (r.1) < left p)
        (parse_column p)
unfolding parse_column
parse_column-Ensures p = consume-bind _ p _ _ _ _ (λ p₁ h₁. consume-bind _ p₁ _ _ _ _ (λ p₂ h₂.
    bind-Ensures _ _ (get_data_type_from_string p₁.current_token.value) _
      (get_data_type_from_string-Ensures p₁.current_token.value) (λ n h. (h.0, omega arith))))

abbrev AllTyped : List Column → Type 0
AllTyped cols = All (λ (c : Column). IsDataType c.data_type) cols

AllTyped-append :
    (cols : List Column) (c : Column)
    → AllTyped cols
    → IsDataType c.data_type
    → AllTyped (cols ++ c ∷ [])
AllTyped-append [] c h k = (k, tt)
AllTyped-append (d ∷ cols) c h k = (h.0, AllTyped-append cols c h.1 k)

-- A round takes a rune at least.
parse_definition-Ensures :
    (p : Parser) (defs : Definitions)
    → AllTyped defs.column_details
    → Ensures
        (λ (r : Definitions × Parser). AllTyped r.0.column_details × left (r.1) < left p)
        (parse_definition p defs)
unfolding parse_definition
parse_definition-Ensures p defs typed = elim (Bool-cases (value_is p (codes "PRIMARY"))) [
  | inl e ↦
      let value : p.current_token.value ≡ codes "PRIMARY" =
        (str_eq_iff p.current_token.value (codes "PRIMARY")).0 e in
      let runes : length p.current_token.value ≡ 7 = ap length value in
      rw e (
        bind-Ensures _ _ (parse_primary_key_column p) _ (parse_primary_key_column-Ensures p)
          (λ r h. (typed, omega arith)))
  | inr e ↦ rw e (
      bind-Ensures _ _ (parse_column p) _ (parse_column-Ensures p)
        (λ r h. (AllTyped-append defs.column_details (r.0) typed (h.0), h.1)))
]

parse_definitions-Ensures :
    (fuel : ℕ) (p : Parser) (defs : Definitions)
    → left p < fuel
    → AllTyped defs.column_details
    → Ensures
        (λ (r : Definitions × Parser). AllTyped r.0.column_details)
        (parse_definitions fuel p defs)
unfolding parse_definitions
parse_definitions-Ensures zero p defs h typed = absurd (omega arith)
parse_definitions-Ensures (suc fuel) p defs h typed = elim (Bool-cases (value_is p (codes ")"))) [
  | inl e ↦ rw e typed
  | inr e ↦ rw e (
      bind-Ensures _ _ (parse_definition (skip_comma p) defs) _
        (parse_definition-Ensures (skip_comma p) defs typed)
        (λ r h'.
          parse_definitions-Ensures fuel (r.1) (r.0) (omega (arith, left-skip_comma p)) (h'.0)))
]

last_position_lt :
    (name : Bytes) (cols : List Column) (i position n : ℕ)
    → position < n
    → i + length cols ≤ n
    → last_position name cols i position < n
unfolding last_position
last_position_lt name [] i position n h k = h
last_position_lt name (c ∷ cols) i position n h k = elim (Bool-cases (str_eq c.column_name name)) [
  | inl e ↦ rw e (last_position_lt name cols (i + 1) i n (omega arith) (omega arith))
  | inr e ↦ rw e (last_position_lt name cols (i + 1) position n h (omega arith))
]

primary_key_position-Ensures :
    (name : Bytes) (cols : List Column)
    → 0 < length cols
    → Ensures (λ (n : ℕ). n < length cols) (primary_key_position name cols)
unfolding primary_key_position
primary_key_position-Ensures name cols h = elim (Bool-cases (str_eq name [])) [
  | inl e ↦ rw e h
  | inr e ↦ elim (Bool-cases (last_position name cols 0 0 == 0)) [
    | inl e' ↦ rw (e, e') (λ k. cc)
    | inr e' ↦ rw (e, e') (last_position_lt name cols 0 0 (length cols) h (omega arith))
  ]
]

-- What serialiseColumns and the code behind it take for granted of a table.
abbrev pub IsTable : CreateTable → Type 0
IsTable t = AllTyped t.column_details × t.primary_key_column_position < length t.column_details

at_least_one_column-Ensures :
    (cols : List Column)
    → AllTyped cols
    → Ensures
        (λ (cols' : List Column). AllTyped cols' × 0 < length cols')
        (at_least_one_column cols)
unfolding at_least_one_column
at_least_one_column-Ensures [] typed = λ h. cc
at_least_one_column-Ensures (c ∷ cols) typed = (typed, omega arith)

-- ParseCreateTable ends at every input, at unsupported characters too, and a table that it
-- returns has a column; its columns are INT, STRING or BOOL, and the position of its primary key is
-- that of a column.
pub parse_create_table-IsTable : (p : Parser) → Ensures IsTable (parse_create_table p)
unfolding parse_create_table
parse_create_table-IsTable p =
    let none_yet : Definitions = record { column_details = []; pk_column = [] } in
    consume-bind _ p _ _ _ _ (λ p₁ h₁. consume-bind _ p₁ _ _ _ _ (λ p₂ h₂.
      consume-bind _ p₂ _ _ _ _ (λ p₃ h₃. consume-bind _ p₃ _ _ _ _ (λ p₄ h₄.
        bind-Ensures _ _ (parse_definitions (suc (length p.tokeniser)) p₄ none_yet) _
          (parse_definitions-Ensures (suc (length p.tokeniser)) p₄ none_yet (omega arith) tt)
          (λ r typed.
            bind-Ensures _ _ (at_least_one_column (r.0.column_details)) _
              (at_least_one_column-Ensures (r.0.column_details) typed)
              (λ cols h.
                bind-Ensures _ _ (primary_key_position (r.0.pk_column) cols) _
                  (primary_key_position-Ensures (r.0.pk_column) cols (h.1))
                  (λ position h'. consume-bind _ (r.1) _ _ _ _ (λ p₆ h₆. (h.0, h')))))))))

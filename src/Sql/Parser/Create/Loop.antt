-- ===== src/Sql/Parser/Create/Loop.antt =====
-- The loop of ParseCreateTable at the definitions of a statement.
use golang_db.Base.{
  ℕ, zero, suc, ◌≡◌, refl, ◌∙◌, ◌⊎◌, inl, inr, true, false, Option, none, some, List, [], ◌∷◌, ◌++◌,
  append_assoc, append-nil, All, Result, err, ok, ◌>>=◌, out_of_fuel,
}
use golang_db.Base.Bytes.{Bytes, cmp}
use golang_db.Base.Text.{codes}
use golang_db.Db.Schema.{Column}
use golang_db.Sql.Tokeniser.{Token}
use golang_db.Sql.Parser.{Parser, value_is, skip_comma}
use golang_db.Sql.Parser.Steps.{
  At, symbol_token, keyword_token, identifier_token, value_is-At, skip_comma-At,
}
use golang_db.Sql.Parser.Create.{Definitions, parse_definition, parse_definitions}
use golang_db.Sql.Parser.Create.Tokens.{
  IsDataType, type_word, more_columns, key_tokens, parse_definition-column, parse_definition-key,
}

-- Out of rounds, or at the tokens behind with the result.
abbrev pub Lands : {V : Type 0} → List Token → V → Result (V × Parser) → Type 0
Lands ts v r = (r ≡ err out_of_fuel) ⊎ ((p' : Parser) × (r ≡ ok (v, p')) × At ts p')

-- One round of the loop.
pub parse_definitions-suc :
    (fuel : ℕ) (p q : Parser) (defs : Definitions)
    → value_is p (codes ")") ≡ false
    → skip_comma p ≡ q
    → parse_definitions (suc fuel) p defs ≡ (
        parse_definition q defs
        >>= (λ (r : Definitions × Parser). parse_definitions fuel (r.1) (r.0)))
unfolding parse_definitions
parse_definitions-suc fuel p q defs more skipped = rw (more, skipped) refl

-- The loop, at its end.
parse_definitions-end :
    (fuel : ℕ) (behind : List Token) (p : Parser) (defs : Definitions)
    → At (symbol_token (codes ")") ∷ behind) p
    → Lands (symbol_token (codes ")") ∷ behind) defs (parse_definitions fuel p defs)
unfolding parse_definitions cmp
parse_definitions-end zero behind p defs h =
    let closed = value_is-At (symbol_token (codes ")")) behind p (codes ")") true h refl in
    inr (p, rw closed refl, h)
parse_definitions-end (suc fuel) behind p defs h =
    let closed = value_is-At (symbol_token (codes ")")) behind p (codes ")") true h refl in
    inr (p, rw closed refl, h)

-- At a comma the loop goes on, if rounds are left.
comma_opens :
    (p : Parser) → p.current_token ≡ symbol_token (codes ",") → value_is p (codes ")") ≡ false
unfolding cmp
comma_opens p h = rw h refl

parse_definitions-zero :
    (p : Parser) (defs : Definitions)
    → value_is p (codes ")") ≡ false
    → parse_definitions zero p defs ≡ err out_of_fuel
unfolding parse_definitions
parse_definitions-zero p defs h = rw h refl

unfoldable pub with_key : Option Bytes → Definitions → Definitions
with_key none defs = defs
with_key (some name) defs = record defs { pk_column = name }

parse_definitions-key :
    (fuel : ℕ) (key : Option Bytes) (behind : List Token) (p : Parser) (defs : Definitions)
    → At (key_tokens key (symbol_token (codes ")") ∷ behind)) p
    → Lands (symbol_token (codes ")") ∷ behind) (with_key key defs) (parse_definitions fuel p defs)
unfolding with_key
parse_definitions-key fuel none behind p defs h = parse_definitions-end fuel behind p defs h
parse_definitions-key zero (some name) behind p defs h =
    inl (parse_definitions-zero p defs (comma_opens p (h.0)))
parse_definitions-key (suc fuel) (some name) behind p defs h =
    let closing = symbol_token (codes ")") ∷ behind in
    let ts =
      keyword_token (codes "PRIMARY")
      ∷ keyword_token (codes "KEY")
      ∷ symbol_token (codes "(")
      ∷ identifier_token name
      ∷ symbol_token (codes ")")
      ∷ closing in
    let (p', e, there) =
      parse_definition-key name closing (skip_comma p) defs (skip_comma-At ts p h) in
    rw (parse_definitions-suc fuel p (skip_comma p) defs (comma_opens p (h.0)) refl, e)
      (parse_definitions-end fuel behind p' (record defs { pk_column = name }) there)

unfoldable pub add_columns : List Column → Definitions → Definitions
add_columns [] defs = defs
add_columns (c ∷ cols) defs =
    add_columns cols (record defs { column_details = defs.column_details ++ c ∷ [] })

pub parse_definitions-columns :
    (fuel : ℕ) (cols : List Column) (key : Option Bytes) (behind : List Token) (p : Parser)
    (defs : Definitions)
    → All (λ (c : Column). IsDataType c.data_type) cols
    → At (more_columns cols (key_tokens key (symbol_token (codes ")") ∷ behind))) p
    → Lands
        (symbol_token (codes ")") ∷ behind)
        (with_key key (add_columns cols defs))
        (parse_definitions fuel p defs)
unfolding add_columns
parse_definitions-columns fuel [] key behind p defs typed h =
    parse_definitions-key fuel key behind p defs h
parse_definitions-columns zero (c ∷ cols) key behind p defs typed h =
    inl (parse_definitions-zero p defs (comma_opens p (h.0)))
parse_definitions-columns (suc fuel) (c ∷ cols) key behind p defs typed h =
    let ts = more_columns cols (key_tokens key (symbol_token (codes ")") ∷ behind)) in
    let ts' = identifier_token c.column_name ∷ identifier_token (type_word c.data_type) ∷ ts in
    let (p', e, there) =
      parse_definition-column c ts (skip_comma p) defs (typed.0) (skip_comma-At ts' p h) in
    rw (parse_definitions-suc fuel p (skip_comma p) defs (comma_opens p (h.0)) refl, e)
      (parse_definitions-columns fuel cols key behind p'
        (record defs { column_details = defs.column_details ++ c ∷ [] }) (typed.1) there)

-- The columns, and the key if there is one.
abbrev pub key_text : Option Bytes → Bytes
key_text none = []
key_text (some name) = name

pub with_key-add_columns :
    (cols : List Column) (key : Option Bytes) (front : List Column)
    → with_key key (add_columns cols (record { column_details = front; pk_column = [] }))
      ≡ record { column_details = front ++ cols; pk_column = key_text key }
unfolding with_key add_columns
with_key-add_columns [] none front = rw (append-nil front) refl
with_key-add_columns [] (some name) front = rw (append-nil front) refl
with_key-add_columns (c ∷ cols) key front =
    with_key-add_columns cols key (front ++ c ∷ []) ∙ (rw (append_assoc front (c ∷ []) cols) refl)

-- ===== src/Sql/Parser/Select/Tokens.antt =====
-- The tokens of a SELECT statement, and a column of it.
use golang_db.Base.{◌≡◌, refl, inl, inr, true, false, Bool-cases, List, [], ◌∷◌, ok, if◌then◌else◌}
use golang_db.Base.Bytes.{Bytes, cmp, str_eq, str_eq_iff}
use golang_db.Base.Text.{codes}
use golang_db.Sql.Tokeniser.{
  Token, is_digit, is_letter, is_alphanumeric, is_keyword, contains_string, to_upper,
}
use golang_db.Sql.Parser.{Parser, value_is}
use golang_db.Sql.Parser.Steps.{
  At, symbol_token, keyword_token, identifier_token, operator_token, symbol-At, identifier-At,
  identifier-rune, identifier-keyword, value_is-At,
}
use golang_db.Sql.Parser.Select.{QueryCondition, parse_column_name}

-- `*` is a symbol, and any other column a word.
abbrev pub column_token : Bytes → Token
column_token col = if str_eq col (codes "*") then symbol_token col else identifier_token col

abbrev pub more_required : List Bytes → List Token → List Token
more_required [] behind = behind
more_required (col ∷ cols) behind =
    symbol_token (codes ",") ∷ column_token col ∷ more_required cols behind

abbrev pub condition_tokens : QueryCondition → List Token → List Token
condition_tokens c behind =
    identifier_token c.column_name ∷ operator_token c.query_type ∷ identifier_token c.value ∷ behind

abbrev pub more_conditions : List QueryCondition → List Token → List Token
more_conditions [] behind = behind
more_conditions (c ∷ conds) behind =
    keyword_token (codes "AND") ∷ condition_tokens c (more_conditions conds behind)

abbrev pub where_tokens : List QueryCondition → List Token → List Token
where_tokens [] behind = behind
where_tokens (c ∷ conds) behind =
    keyword_token (codes "WHERE") ∷ condition_tokens c (more_conditions conds behind)

-- SELECT column, ... FROM name WHERE condition AND ... ;
abbrev pub select_tokens :
    Bytes → Bytes → List Bytes → List QueryCondition → List Token → List Token
select_tokens name col cols conds behind =
    keyword_token (codes "SELECT")
    ∷ column_token col
    ∷ more_required cols (
        keyword_token (codes "FROM")
        ∷ identifier_token name
        ∷ where_tokens conds (symbol_token (codes ";") ∷ behind))

from_lem : is_keyword (codes "FROM") ≡ true
unfolding is_keyword contains_string to_upper cmp
from_lem = refl

-- A column is neither a comma nor FROM.
pub column_token-other :
    (col : Bytes) (ts : List Token) (p : Parser)
    → At (column_token col ∷ ts) p
    → (value_is p (codes "FROM") ≡ false) × (value_is p (codes ",") ≡ false)
unfolding cmp is_alphanumeric is_digit is_letter
column_token-other col ts p h = elim (Bool-cases (str_eq col (codes "*"))) [
  | inl e ↦
      let same : col ≡ codes "*" = (str_eq_iff col (codes "*")).0 e in
      let h' : At (symbol_token (codes "*") ∷ ts) p = rw same at h in
      (
        value_is-At (symbol_token (codes "*")) ts p (codes "FROM") false h' refl,
        value_is-At (symbol_token (codes "*")) ts p (codes ",") false h' refl,
      )
  | inr e ↦
      let h' : At (identifier_token col ∷ ts) p = rw e at h in
      (
        value_is-At (identifier_token col) ts p (codes "FROM") false h'
            (identifier-keyword col p.tokeniser (codes "FROM") (h'.1) from_lem),
        value_is-At (identifier_token col) ts p (codes ",") false h'
            (identifier-rune col p.tokeniser 44 (h'.1) refl),
      )
]

pub parse_column_name-At :
    (col : Bytes) (ts : List Token) (p : Parser)
    → At (column_token col ∷ ts) p
    → (p' : Parser) × (parse_column_name p ≡ ok (col, p')) × At ts p'
unfolding parse_column_name cmp is_alphanumeric is_digit is_letter
parse_column_name-At col ts p h = elim (Bool-cases (str_eq col (codes "*"))) [
  | inl e ↦
      let same : col ≡ codes "*" = (str_eq_iff col (codes "*")).0 e in
      let h' : At (symbol_token (codes "*") ∷ ts) p = rw same at h in
      let star = value_is-At (symbol_token (codes "*")) ts p (codes "*") true h' refl in
      let (p', e', there) = symbol-At (codes "*") ts p h' in (p', rw (star, e', same) refl, there)
  | inr e ↦
      let h' : At (identifier_token col ∷ ts) p = rw e at h in
      let other = value_is-At (identifier_token col) ts p (codes "*") false h' e in
      let (p', e', v, there) = identifier-At col [] ts p h' in (p', rw (other, e', v) refl, there)
]

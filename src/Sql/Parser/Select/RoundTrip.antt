-- ===== src/Sql/Parser/Select/RoundTrip.antt =====
-- ParseSelectFromTable reads the statement that its text spells.
use golang_db.Base.{
  ℕ, zero, suc, ◌+◌, ◌≤◌, ◌<◌, ◌≡◌, refl, true, false, List, [], ◌∷◌, ◌++◌, append-nil,
  append_assoc, length, arith, ok, ◌>>=◌, ◌==◌, ltb,
}
use golang_db.Base.Bytes.{Bytes, cmp}
use golang_db.Base.Text.{codes}
use golang_db.Sql.Tokeniser.{Token, is_digit, is_letter, is_alphanumeric}
use golang_db.Sql.Tokeniser.Spells.{Spells}
use golang_db.Sql.Parser.{Parser, advance, new_parser, value_is}
use golang_db.Sql.Parser.Steps.{
  At, symbol_token, keyword_token, identifier_token, operator_token, keyword-At, symbol-At,
  identifier-At, operator-At, advance-At, identifier-rune, value_is-At,
}
use golang_db.Sql.Parser.Select.{
  QueryCondition, at_least_one, consume_and, parse_condition, parse_next_condition,
  parse_conditions, parse_query_conditions_from_select_query, parse_where, parse_select_from_table,
}
use golang_db.Sql.Parser.Select.Tokens.{
  column_token, more_required, condition_tokens, more_conditions, where_tokens, select_tokens,
}
use golang_db.Sql.Parser.Select.Columns.{parse_columns_from_select_query-At}

parse_condition-At :
    (c : QueryCondition) (ts : List Token) (p : Parser)
    → At (condition_tokens c ts) p
    → (p' : Parser) × (parse_condition p ≡ ok (c, p')) × At ts p'
unfolding parse_condition
parse_condition-At c ts p h =
    let ts₂ = identifier_token c.value ∷ ts in
    let ts₁ = operator_token c.query_type ∷ ts₂ in
    let (p₁, e₁, v₁, h₁) = identifier-At c.column_name (codes "column name") ts₁ p h in
    let (p₂, e₂, v₂, h₂) = operator-At c.query_type ts₂ p₁ h₁ in
    let (p₃, e₃, v₃, h₃) = identifier-At c.value (codes "query value") ts p₂ h₂ in
    (p₃, rw (e₁, e₂, e₃, v₁, v₂, v₃) refl, h₃)

-- A round of the loop over the conditions, behind AND or at the first one.
parse_next_condition-At :
    (i : ℕ) (c : QueryCondition) (ts : List Token) (p q : Parser)
    → i < 11
    → consume_and i p ≡ ok q
    → At (condition_tokens c ts) q
    → (p' : Parser) × (parse_next_condition i p ≡ ok (c, p')) × At ts p'
unfolding parse_next_condition
parse_next_condition-At i c ts p q small joined h =
    let (p', e, there) = parse_condition-At c ts q h in
    let below : (i == 11) ≡ false = ground arith in (p', rw (joined, below, e) refl, there)

parse_conditions-suc :
    (fuel i : ℕ) (p : Parser) (conds : List QueryCondition)
    → value_is p (codes ";") ≡ false
    → parse_conditions (suc fuel) i p conds ≡ (
        parse_next_condition i p >>= (λ (r : QueryCondition × Parser).
          parse_conditions fuel (i + 1) (r.1) (conds ++ r.0 ∷ [])))
unfolding parse_conditions
parse_conditions-suc fuel i p conds h = rw h refl

parse_conditions-end :
    (fuel i : ℕ) (behind : List Token) (p : Parser) (conds : List QueryCondition)
    → At (symbol_token (codes ";") ∷ behind) p
    → parse_conditions fuel i p conds ≡ ok (conds, p)
unfolding parse_conditions cmp
parse_conditions-end zero i behind p conds h =
    let semicolon = value_is-At (symbol_token (codes ";")) behind p (codes ";") true h refl in
    rw semicolon refl
parse_conditions-end (suc fuel) i behind p conds h =
    let semicolon = value_is-At (symbol_token (codes ";")) behind p (codes ";") true h refl in
    rw semicolon refl

consume_and-At :
    (i : ℕ) (ts : List Token) (p : Parser)
    → 0 < i
    → At (keyword_token (codes "AND") ∷ ts) p
    → (q : Parser) × (consume_and i p ≡ ok q) × At ts q
unfolding consume_and
consume_and-At i ts p pos h =
    let (q, e, there) = keyword-At (codes "AND") ts p h in
    let later : ltb 0 i ≡ true = ground arith in (q, rw later e, there)

parse_conditions-more :
    (fuel i : ℕ) (conds : List QueryCondition) (behind : List Token) (p : Parser)
    (front : List QueryCondition)
    → 0 < i
    → i + length conds ≤ 11
    → length conds ≤ fuel
    → At (more_conditions conds (symbol_token (codes ";") ∷ behind)) p
    → (p' : Parser) × (parse_conditions fuel i p front ≡ ok (front ++ conds, p'))
      × At (symbol_token (codes ";") ∷ behind) p'
unfolding cmp
parse_conditions-more fuel i [] behind p front pos h k there =
    (p, rw (append-nil front) (parse_conditions-end fuel i behind p front there), there)
parse_conditions-more zero i (c ∷ conds) behind p front pos h k there = absurd (omega arith)
parse_conditions-more (suc fuel) i (c ∷ conds) behind p front pos h k there =
    let ts = more_conditions conds (symbol_token (codes ";") ∷ behind) in
    let goes_on =
      value_is-At (keyword_token (codes "AND")) (condition_tokens c ts) p (codes ";") false there
        refl in
    let (q, joined, h₁) = consume_and-At i (condition_tokens c ts) p pos there in
    let (p₁, e₁, h₂) = parse_next_condition-At i c ts p q (omega arith) joined h₁ in
    let (p', e, h') =
      parse_conditions-more fuel (i + 1) conds behind p₁ (front ++ c ∷ []) (omega arith)
        (omega arith) (omega arith) h₂ in
    (
      p',
      rw (parse_conditions-suc fuel i p front goes_on, e₁, e, append_assoc front (c ∷ []) conds)
          refl,
      h',
    )

parse_query_conditions-At :
    (c : QueryCondition) (conds : List QueryCondition) (behind : List Token) (p : Parser)
    → length (c ∷ conds) ≤ 11
    → At (where_tokens (c ∷ conds) (symbol_token (codes ";") ∷ behind)) p
    → (p' : Parser) × (parse_query_conditions_from_select_query p ≡ ok (c ∷ conds, p'))
      × At (symbol_token (codes ";") ∷ behind) p'
unfolding parse_query_conditions_from_select_query at_least_one consume_and is_alphanumeric is_digit
    is_letter
parse_query_conditions-At c conds behind p few h =
    let ts = more_conditions conds (symbol_token (codes ";") ∷ behind) in
    let ts₁ = operator_token c.query_type ∷ identifier_token c.value ∷ ts in
    let (p₁, e₁, h₁) = keyword-At (codes "WHERE") (condition_tokens c ts) p h in
    let goes_on =
      value_is-At (identifier_token c.column_name) ts₁ p₁ (codes ";") false h₁
        (identifier-rune c.column_name p₁.tokeniser 59 (h₁.1) refl) in
    let (p₂, e₂, h₂) = parse_next_condition-At 0 c ts p₁ p₁ (omega arith) refl h₁ in
    let (p', e, h') =
      parse_conditions-more 11 1 conds behind p₂ (c ∷ []) (omega arith) (omega arith) (omega arith)
        h₂ in
    (p', rw (e₁, parse_conditions-suc 11 0 p₁ [] goes_on, e₂, e) refl, h')

parse_where-At :
    (conds : List QueryCondition) (behind : List Token) (p : Parser)
    → length conds ≤ 11
    → At (where_tokens conds (symbol_token (codes ";") ∷ behind)) p
    → (p' : Parser) × (parse_where p ≡ ok (conds, p')) × At (symbol_token (codes ";") ∷ behind) p'
unfolding parse_where cmp
parse_where-At [] behind p few h =
    let bare = value_is-At (symbol_token (codes ";")) behind p (codes "WHERE") false h refl in
    (p, rw bare refl, h)
parse_where-At (c ∷ conds) behind p few h =
    let ts = more_conditions conds (symbol_token (codes ";") ∷ behind) in
    let where_ =
      value_is-At (keyword_token (codes "WHERE")) (condition_tokens c ts) p (codes "WHERE") true h
        refl in
    let (p', e, h') = parse_query_conditions-At c conds behind p few h in
    (p', rw (where_, e) refl, h')

-- A text that spells a SELECT statement, of ten columns at most and eleven conditions at most, with
-- spaces where one likes and whatever tokens behind its semicolon, is read as this statement.
pub parse_select_from_table-Spells :
    (name col : Bytes) (cols : List Bytes) (conds : List QueryCondition) (behind : List Token)
    (text : Bytes)
    → length (col ∷ cols) ≤ 10
    → length conds ≤ 11
    → Spells (select_tokens name col cols conds behind) text
    → parse_select_from_table (new_parser text)
      ≡ ok (record { table_name = name; columns_required = col ∷ cols; query_conditions = conds })
unfolding parse_select_from_table new_parser
parse_select_from_table-Spells name col cols conds behind text few_columns few_conditions spelled =
    let ts₄ = where_tokens conds (symbol_token (codes ";") ∷ behind) in
    let ts₃ = identifier_token name ∷ ts₄ in
    let ts₂ = keyword_token (codes "FROM") ∷ ts₃ in
    let ts₁ = column_token col ∷ more_required cols ts₂ in
    let p = advance text in
    let h₀ = advance-At (select_tokens name col cols conds behind) text spelled in
    let (p₁, e₁, h₁) = keyword-At (codes "SELECT") ts₁ p h₀ in
    let (p₂, e₂, h₂) = parse_columns_from_select_query-At col cols ts₃ p₁ few_columns h₁ in
    let (p₃, e₃, h₃) = keyword-At (codes "FROM") ts₃ p₂ h₂ in
    let (p₄, e₄, name_value, h₄) = identifier-At name [] ts₄ p₃ h₃ in
    let (p₅, e₅, h₅) = parse_where-At conds behind p₄ few_conditions h₄ in
    let (p₆, e₆, h₆) = symbol-At (codes ";") behind p₅ h₅ in
    rw (e₁, e₂, e₃, e₄, e₅, e₆, name_value) refl

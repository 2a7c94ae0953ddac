-- ===== src/Sql/Parser/Select/Columns.antt =====
-- The columns of a SELECT statement.
use golang_db.Base.{
  ℕ, zero, suc, ◌+◌, ◌≤◌, ◌<◌, ◌≡◌, refl, true, false, List, [], ◌∷◌, ◌++◌, append-nil,
  append_assoc, length, arith, ok, ◌>>=◌, ◌==◌,
}
use golang_db.Base.Bytes.{Bytes, cmp}
use golang_db.Base.Text.{codes}
use golang_db.Sql.Tokeniser.{Token}
use golang_db.Sql.Parser.{Parser, value_is}
use golang_db.Sql.Parser.Steps.{At, symbol_token, keyword_token, symbol-At, value_is-At}
use golang_db.Sql.Parser.Select.{
  consume_separator, parse_required_column, parse_required_columns, at_least_one,
  parse_columns_from_select_query,
}
use golang_db.Sql.Parser.Select.Tokens.{
  column_token, more_required, column_token-other, parse_column_name-At,
}

-- A round of the loop over the columns, behind a comma or at the first column.
parse_required_column-At :
    (i : ℕ) (col : Bytes) (ts : List Token) (p q : Parser)
    → i < 10
    → consume_separator p ≡ ok q
    → At (column_token col ∷ ts) q
    → (p' : Parser) × (parse_required_column i p ≡ ok (col, p')) × At ts p'
unfolding parse_required_column
parse_required_column-At i col ts p q small separated h =
    let (p', e, there) = parse_column_name-At col ts q h in
    let below : (i == 10) ≡ false = ground arith in (p', rw (separated, below, e) refl, there)

separator_taken :
    (ts : List Token) (p : Parser)
    → At (symbol_token (codes ",") ∷ ts) p
    → (q : Parser) × (consume_separator p ≡ ok q) × At ts q
unfolding consume_separator cmp
separator_taken ts p h =
    let (q, e, there) = symbol-At (codes ",") ts p h in
    let comma = value_is-At (symbol_token (codes ",")) ts p (codes ",") true h refl in
    (q, rw (comma, e) refl, there)

no_separator : (p : Parser) → value_is p (codes ",") ≡ false → consume_separator p ≡ ok p
unfolding consume_separator
no_separator p h = rw h refl

parse_required_columns-suc :
    (fuel i : ℕ) (p : Parser) (cols : List Bytes)
    → value_is p (codes "FROM") ≡ false
    → parse_required_columns (suc fuel) i p cols ≡ (
        parse_required_column i p
        >>= (λ (r : Bytes × Parser). parse_required_columns fuel (i + 1) (r.1) (cols ++ r.0 ∷ [])))
unfolding parse_required_columns
parse_required_columns-suc fuel i p cols h = rw h refl

parse_required_columns-end :
    (fuel i : ℕ) (behind : List Token) (p : Parser) (cols : List Bytes)
    → At (keyword_token (codes "FROM") ∷ behind) p
    → parse_required_columns fuel i p cols ≡ ok (cols, p)
unfolding parse_required_columns cmp
parse_required_columns-end zero i behind p cols h =
    let from = value_is-At (keyword_token (codes "FROM")) behind p (codes "FROM") true h refl in
    rw from refl
parse_required_columns-end (suc fuel) i behind p cols h =
    let from = value_is-At (keyword_token (codes "FROM")) behind p (codes "FROM") true h refl in
    rw from refl

parse_required_columns-more :
    (fuel i : ℕ) (cols : List Bytes) (behind : List Token) (p : Parser) (front : List Bytes)
    → i + length cols ≤ 10
    → length cols ≤ fuel
    → At (more_required cols (keyword_token (codes "FROM") ∷ behind)) p
    → (p' : Parser) × (parse_required_columns fuel i p front ≡ ok (front ++ cols, p'))
      × At (keyword_token (codes "FROM") ∷ behind) p'
unfolding cmp
parse_required_columns-more fuel i [] behind p front h k there =
    (p, rw (append-nil front) (parse_required_columns-end fuel i behind p front there), there)
parse_required_columns-more zero i (col ∷ cols) behind p front h k there = absurd (omega arith)
parse_required_columns-more (suc fuel) i (col ∷ cols) behind p front h k there =
    let ts = more_required cols (keyword_token (codes "FROM") ∷ behind) in
    let goes_on =
      value_is-At (symbol_token (codes ",")) (column_token col ∷ ts) p (codes "FROM") false there
        refl in
    let (q, separated, h₁) = separator_taken (column_token col ∷ ts) p there in
    let (p₁, e₁, h₂) = parse_required_column-At i col ts p q (omega arith) separated h₁ in
    let (p', e, h') =
      parse_required_columns-more fuel (i + 1) cols behind p₁ (front ++ col ∷ []) (omega arith)
        (omega arith) h₂ in
    (
      p',
      rw
          (
            parse_required_columns-suc fuel i p front goes_on,
            e₁,
            e,
            append_assoc front (col ∷ []) cols,
          )
          refl,
      h',
    )

pub parse_columns_from_select_query-At :
    (col : Bytes) (cols : List Bytes) (behind : List Token) (p : Parser)
    → length (col ∷ cols) ≤ 10
    → At (column_token col ∷ more_required cols (keyword_token (codes "FROM") ∷ behind)) p
    → (p' : Parser) × (parse_columns_from_select_query p ≡ ok (col ∷ cols, p'))
      × At (keyword_token (codes "FROM") ∷ behind) p'
unfolding parse_columns_from_select_query at_least_one
parse_columns_from_select_query-At col cols behind p few h =
    let ts = more_required cols (keyword_token (codes "FROM") ∷ behind) in
    let (goes_on, no_comma) = column_token-other col ts p h in
    let (p₁, e₁, h₁) =
      parse_required_column-At 0 col ts p p (omega arith) (no_separator p no_comma) h in
    let (p', e, h') =
      parse_required_columns-more 10 1 cols behind p₁ (col ∷ []) (omega arith) (omega arith) h₁ in
    (p', rw (parse_required_columns-suc 10 0 p [] goes_on, e₁, e) refl, h')

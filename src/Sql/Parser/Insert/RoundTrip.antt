-- ===== src/Sql/Parser/Insert/RoundTrip.antt =====
-- ParseInsertIntoTable reads the statement that its text spells.
use golang_db.Base.{
  ℕ, zero, suc, ◌≤◌, ◌≡◌, refl, true, false, List, [], ◌∷◌, ◌++◌, append-nil, append_assoc, length,
  arith, ok, ◌>>=◌,
}
use golang_db.Base.Bytes.{Bytes, cmp}
use golang_db.Base.Text.{codes}
use golang_db.Sql.Tokeniser.{Token, is_digit, is_letter, is_alphanumeric}
use golang_db.Sql.Tokeniser.Spells.{Spells}
use golang_db.Sql.Parser.{Parser, advance, new_parser, skip_comma, value_is}
use golang_db.Sql.Parser.Steps.{
  At, symbol_token, keyword_token, identifier_token, keyword-At, symbol-At, identifier-At,
  advance-At, identifier-rune, value_is-At, skip_comma-At, skip_comma-identifier,
}
use golang_db.Sql.Parser.Insert.{parse_value, parse_values, parse_insert_into_table}

abbrev pub more_values : List Bytes → List Token → List Token
more_values [] behind = behind
more_values (v ∷ vals) behind =
    symbol_token (codes ",") ∷ identifier_token v ∷ more_values vals behind

abbrev pub value_tokens : List Bytes → List Token → List Token
value_tokens [] behind = behind
value_tokens (v ∷ vals) behind = identifier_token v ∷ more_values vals behind

-- INSERT INTO name VALUES (value, ...)
abbrev pub insert_tokens : Bytes → List Bytes → List Token → List Token
insert_tokens name vals behind =
    keyword_token (codes "INSERT")
    ∷ keyword_token (codes "INTO")
    ∷ identifier_token name
    ∷ keyword_token (codes "VALUES")
    ∷ symbol_token (codes "(")
    ∷ value_tokens vals (symbol_token (codes ")") ∷ behind)

-- One round of the loop.
parse_values-suc :
    (fuel : ℕ) (p : Parser) (vals : List Bytes)
    → value_is p (codes ")") ≡ false
    → parse_values (suc fuel) p vals
      ≡ (parse_value p >>= (λ (r : Bytes × Parser). parse_values fuel (r.1) (vals ++ r.0 ∷ [])))
unfolding parse_values
parse_values-suc fuel p vals more = rw more refl

parse_value-At :
    (v : Bytes) (ts : List Token) (p q : Parser)
    → skip_comma p ≡ q
    → At (identifier_token v ∷ ts) q
    → (p' : Parser) × (parse_value p ≡ ok (v, p')) × At ts p'
unfolding parse_value
parse_value-At v ts p q skipped h =
    let (p', e, v_value, there) = identifier-At v [] ts q h in
    (p', rw (skipped, e, v_value) refl, there)

parse_values-more :
    (fuel : ℕ) (vals : List Bytes) (behind : List Token) (p : Parser) (front : List Bytes)
    → length vals ≤ fuel
    → At (more_values vals (symbol_token (codes ")") ∷ behind)) p
    → (p' : Parser) × (parse_values fuel p front ≡ ok (front ++ vals, p'))
      × At (symbol_token (codes ")") ∷ behind) p'
unfolding parse_values cmp
parse_values-more zero [] behind p front h there =
    let closed = value_is-At (symbol_token (codes ")")) behind p (codes ")") true there refl in
    (p, rw (closed, append-nil front) refl, there)
parse_values-more (suc fuel) [] behind p front h there =
    let closed = value_is-At (symbol_token (codes ")")) behind p (codes ")") true there refl in
    (p, rw (closed, append-nil front) refl, there)
parse_values-more zero (v ∷ vals) behind p front h there = absurd (omega arith)
parse_values-more (suc fuel) (v ∷ vals) behind p front h there =
    let ts = more_values vals (symbol_token (codes ")") ∷ behind) in
    let goes_on =
      value_is-At (symbol_token (codes ",")) (identifier_token v ∷ ts) p (codes ")") false there
        refl in
    let (p₁, e₁, h₁) =
      parse_value-At v ts p (skip_comma p) refl (skip_comma-At (identifier_token v ∷ ts) p there) in
    let (p', e, h') = parse_values-more fuel vals behind p₁ (front ++ v ∷ []) (omega arith) h₁ in
    (p', rw (goes_on, e₁, e, append_assoc front (v ∷ []) vals) refl, h')

parse_values-At :
    (fuel : ℕ) (vals : List Bytes) (behind : List Token) (p : Parser)
    → length vals ≤ fuel
    → At (value_tokens vals (symbol_token (codes ")") ∷ behind)) p
    → (p' : Parser) × (parse_values fuel p [] ≡ ok (vals, p'))
      × At (symbol_token (codes ")") ∷ behind) p'
unfolding is_alphanumeric is_digit is_letter
parse_values-At fuel [] behind p h there = parse_values-more fuel [] behind p [] h there
parse_values-At zero (v ∷ vals) behind p h there = absurd (omega arith)
parse_values-At (suc fuel) (v ∷ vals) behind p h (e, token, more) =
    let ts = more_values vals (symbol_token (codes ")") ∷ behind) in
    let goes_on =
      value_is-At (identifier_token v) ts p (codes ")") false (e, token, more)
        (identifier-rune v p.tokeniser 41 token refl) in
    let (p₁, e₁, h₁) =
      parse_value-At v ts p p (skip_comma-identifier v ts p (e, token, more)) (e, token, more) in
    let (p', e', h') = parse_values-more fuel vals behind p₁ (v ∷ []) (omega arith) h₁ in
    (p', rw (parse_values-suc fuel p [] goes_on, e₁) e', h')

-- A text that spells an INSERT statement, with spaces where one likes and whatever tokens behind it, is
-- read as this statement, with as many rounds as there are values, or more.
pub parse_insert_into_table-Spells :
    (fuel : ℕ) (name : Bytes) (vals : List Bytes) (behind : List Token) (text : Bytes)
    → length vals ≤ fuel
    → Spells (insert_tokens name vals behind) text
    → parse_insert_into_table fuel (new_parser text)
      ≡ ok (record { table_name = name; column_values = vals })
unfolding parse_insert_into_table new_parser
parse_insert_into_table-Spells fuel name vals behind text h spelled =
    let ts₅ = value_tokens vals (symbol_token (codes ")") ∷ behind) in
    let ts₄ = symbol_token (codes "(") ∷ ts₅ in
    let ts₃ = keyword_token (codes "VALUES") ∷ ts₄ in
    let ts₂ = identifier_token name ∷ ts₃ in
    let ts₁ = keyword_token (codes "INTO") ∷ ts₂ in
    let p = advance text in
    let h₀ = advance-At (insert_tokens name vals behind) text spelled in
    let (p₁, e₁, h₁) = keyword-At (codes "INSERT") ts₁ p h₀ in
    let (p₂, e₂, h₂) = keyword-At (codes "INTO") ts₂ p₁ h₁ in
    let (p₃, e₃, name_value, h₃) = identifier-At name [] ts₃ p₂ h₂ in
    let (p₄, e₄, h₄) = keyword-At (codes "VALUES") ts₄ p₃ h₃ in
    let (p₅, e₅, h₅) = symbol-At (codes "(") ts₅ p₄ h₄ in
    let (p₆, e₆, h₆) = parse_values-At fuel vals behind p₅ h h₅ in
    let (p₇, e₇, h₇) = symbol-At (codes ")") behind p₆ h₆ in
    rw (e₁, e₂, e₃, e₄, e₅, e₆, e₇, name_value) refl

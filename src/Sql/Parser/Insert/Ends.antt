-- ===== src/Sql/Parser/Insert/Ends.antt =====
-- ParseInsertIntoTable ends where the tokeniser knows every character.
use golang_db.Base.{
  ℕ, zero, suc, ◌≤◌, ◌<◌, ◌≡◌, ◌≢◌, refl, inl, inr, Bool, true, false, Bool-cases, List, [], ◌∷◌,
  ◌++◌, length, arith, Result, err, ◌>>=◌, out_of_fuel, Ensures, Ensures-fuel, bind-Ensures,
}
use golang_db.Base.Bytes.{Bytes}
use golang_db.Base.Text.{codes}
use golang_db.Sql.Tokeniser.{
  TokenType, Token, is_space, is_alphanumeric, is_symbol, is_operator, take_while, drop_while,
  word_token, token_at, next_token, same_type,
}
use golang_db.Sql.Tokeniser.Spells.{Passes, Stops}
use golang_db.Sql.Tokeniser.Reads.{drop_while-Stops}
use golang_db.Sql.Parser.{Parser, advance, new_parser, accepts, consume, skip_comma, value_is}
use golang_db.Sql.Parser.Progress.{left, left-advance, left-skip_comma}
use golang_db.Sql.Parser.Insert.{
  InsertIntoTable, parse_value, parse_values, parse_insert_into_table,
}
use golang_db.Sql.Parser.Insert.Endless.{is_supported}

module _ (test : ℕ → Bool) where
  Passes-drop_while : (P : ℕ → Bool) (s : Bytes) → Passes P s → Passes P (drop_while test s)
  unfolding drop_while
  Passes-drop_while P [] h = tt
  Passes-drop_while P (c ∷ s) h = elim (Bool-cases (test c)) [
    | inl e ↦ rw e (Passes-drop_while P s (h.1))
    | inr e ↦ rw e h
  ]

-- An identifier is not empty.
abbrev HasRunes : Token → Type 0
HasRunes t = t.token_type ≡ TokenType.identifier → 0 < length t.value

supported_word :
    (c : ℕ)
    → is_supported c ≡ true
    → is_space c ≡ false
    → is_symbol c ≡ false
    → is_operator c ≡ false
    → is_alphanumeric c ≡ true
unfolding is_supported
supported_word c h space symbol operator = ground arith

token_at-HasRunes :
    (text : Bytes)
    → Passes is_supported text
    → Stops is_space text
    → HasRunes ((token_at text).0) × Passes is_supported ((token_at text).1)
unfolding token_at word_token take_while
token_at-HasRunes [] h stop = ((λ e. cc), tt)
token_at-HasRunes (c ∷ s) h space = elim (Bool-cases (is_symbol c)) [
  | inl symbol ↦ rw symbol ((λ e. cc), h.1)
  | inr symbol ↦ elim (Bool-cases (is_operator c)) [
    | inl operator ↦
        rw (symbol, operator) ((λ e. cc), Passes-drop_while is_operator is_supported (c ∷ s) h)
    | inr operator ↦
        let word = supported_word c (h.0) space symbol operator in
        rw (symbol, operator, word)
          ((λ e. omega arith), Passes-drop_while is_alphanumeric is_supported (c ∷ s) h)
  ]
]

-- What holds of the parser at every step.
abbrev IsHealthy : Parser → Type 0
IsHealthy p = HasRunes p.current_token × Passes is_supported p.tokeniser

advance-IsHealthy : (text : Bytes) → Passes is_supported text → IsHealthy (advance text)
unfolding advance next_token
advance-IsHealthy text h =
    token_at-HasRunes (drop_while is_space text) (Passes-drop_while is_space is_supported text h)
      (drop_while-Stops is_space text)

same_type-eq :
    (kind : TokenType) → same_type kind TokenType.identifier ≡ true → kind ≡ TokenType.identifier
unfolding same_type
same_type-eq TokenType.identifier h = refl
same_type-eq TokenType.keyword h = cc
same_type-eq TokenType.symbol h = cc
same_type-eq TokenType.conditional_operator h = cc
same_type-eq TokenType.eof h = cc

accepts-same_type :
    (t : Token) → accepts t TokenType.identifier [] ≡ true → t.token_type ≡ TokenType.identifier
unfolding accepts
accepts-same_type t h = ground (arith, same_type-eq t.token_type)

-- What follows `consume` has a healthy parser with less to take, and less still behind an
-- identifier.
consume-IsHealthy :
    {W : Type 0} (Q : W → Type 0) (p : Parser) (expected_type : TokenType) (expected : Bytes)
    (next : Parser → Result W)
    → IsHealthy p
    → ((p' : Parser) → IsHealthy p' → left p' ≤ length p.tokeniser → Ensures Q (next p'))
    → Ensures Q (consume p expected_type expected [] >>= next)
unfolding consume
consume-IsHealthy Q p expected_type expected next healthy h =
    elim (Bool-cases (accepts p.current_token expected_type expected)) [
      | inl e ↦ rw e (
          h (advance p.tokeniser) (advance-IsHealthy p.tokeniser (healthy.1))
            (left-advance p.tokeniser))
      | inr e ↦ rw e (λ k. cc)
    ]

skip_comma-IsHealthy : (p : Parser) → IsHealthy p → IsHealthy (skip_comma p)
unfolding skip_comma consume
skip_comma-IsHealthy p h = elim (Bool-cases (value_is p (codes ","))) [
  | inl e ↦ elim (Bool-cases (accepts p.current_token TokenType.symbol (codes ","))) [
    | inl e' ↦ rw (e, e') (advance-IsHealthy p.tokeniser (h.1))
    | inr e' ↦ rw (e, e') h
  ]
  | inr e ↦ rw e h
]

parse_value-Ensures :
    (p : Parser)
    → IsHealthy p
    → Ensures (λ (r : Bytes × Parser). IsHealthy (r.1) × left (r.1) < left p) (parse_value p)
unfolding parse_value consume
parse_value-Ensures p healthy =
    let p' = skip_comma p in
    let healthy' = skip_comma-IsHealthy p healthy in
    elim (Bool-cases (accepts p'.current_token TokenType.identifier [])) [
      | inl e ↦
          let runes : 0 < length p'.current_token.value =
            healthy'.0 (accepts-same_type p'.current_token e) in
          rw e (
            advance-IsHealthy p'.tokeniser (healthy'.1),
            omega (arith, left-skip_comma p, left-advance p'.tokeniser),
          )
      | inr e ↦ rw e (λ k. cc)
    ]

parse_values-Ensures :
    (fuel : ℕ) (p : Parser) (vals : List Bytes)
    → left p < fuel
    → IsHealthy p
    → Ensures (λ (r : List Bytes × Parser). Unit {0}) (parse_values fuel p vals)
unfolding parse_values
parse_values-Ensures zero p vals h healthy = absurd (omega arith)
parse_values-Ensures (suc fuel) p vals h healthy = elim (Bool-cases (value_is p (codes ")"))) [
  | inl e ↦ rw e tt
  | inr e ↦ rw e (
      bind-Ensures _ _ (parse_value p) _ (parse_value-Ensures p healthy)
        (λ r h'. parse_values-Ensures fuel (r.1) (vals ++ r.0 ∷ []) (omega arith) (h'.0)))
]

Ensures-Unit :
    (p : Parser) → Ensures (λ (p' : Parser). Unit {0}) (consume p TokenType.symbol (codes ")") [])
unfolding consume
Ensures-Unit p = elim (Bool-cases (accepts p.current_token TokenType.symbol (codes ")"))) [
  | inl e ↦ rw e tt
  | inr e ↦ rw e (λ k. cc)
]

parse_insert_into_table-Ensures :
    (fuel : ℕ) (p : Parser)
    → left p < fuel
    → IsHealthy p
    → Ensures (λ (r : InsertIntoTable). Unit {0}) (parse_insert_into_table fuel p)
unfolding parse_insert_into_table
parse_insert_into_table-Ensures fuel p h healthy = consume-IsHealthy _ p _ _ _ healthy (λ p₁ k₁ h₁.
    consume-IsHealthy _ p₁ _ _ _ k₁ (λ p₂ k₂ h₂. consume-IsHealthy _ p₂ _ _ _ k₂ (λ p₃ k₃ h₃.
      consume-IsHealthy _ p₃ _ _ _ k₃ (λ p₄ k₄ h₄. consume-IsHealthy _ p₄ _ _ _ k₄ (λ p₅ k₅ h₅.
        bind-Ensures _ _ (parse_values fuel p₅ []) _
          (parse_values-Ensures fuel p₅ [] (omega arith) k₅)
          (λ r h'.
            bind-Ensures (λ (p' : Parser). Unit {0}) _
              (consume (r.1) TokenType.symbol (codes ")") []) _ (Ensures-Unit (r.1))
              (λ p' h''. tt)))))))

-- Where each character of the text is a space, a symbol, an operator, or a letter or digit,
-- ParseInsertIntoTable ends: more rounds than the text has characters are enough.
pub parse_insert_into_table-ends :
    (fuel : ℕ) (text : Bytes)
    → length text < fuel
    → Passes is_supported text
    → parse_insert_into_table fuel (new_parser text) ≢ err out_of_fuel
unfolding new_parser
parse_insert_into_table-ends fuel text few h =
    Ensures-fuel (λ (r : InsertIntoTable). Unit {0}) (parse_insert_into_table fuel (advance text))
      (parse_insert_into_table-Ensures fuel (advance text) (omega (arith, left-advance text))
        (advance-IsHealthy text h))

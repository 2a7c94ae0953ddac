-- ===== src/Sql/Parser/Select/Bounds.antt =====
-- ParseSelectFromTable ends, with as many columns and conditions as its limits allow.
use golang_db.Base.{
  ℕ, zero, suc, ◌+◌, ◌≤◌, ◌≡◌, ◌≢◌, refl, inl, inr, Bool-cases, List, [], ◌∷◌, ◌++◌, length,
  length-append, arith, Ensures, bind-Ensures, weaken-Ensures, ltb, ◌==◌, ==-ne,
}
use golang_db.Base.Bytes.{Bytes}
use golang_db.Base.Text.{codes}
use golang_db.Sql.Tokeniser.{TokenType}
use golang_db.Sql.Parser.{Parser, accepts, consume, value_is}
use golang_db.Sql.Parser.Progress.{consume-bind}
use golang_db.Sql.Parser.Select.{
  QueryCondition, SelectFromTable, consume_separator, parse_column_name, parse_required_column,
  parse_required_columns, at_least_one, parse_columns_from_select_query, consume_and,
  parse_condition, parse_next_condition, parse_conditions, parse_query_conditions_from_select_query,
  parse_where, parse_select_from_table,
}

-- Nothing but that the call has enough fuel.
abbrev Any {ℓ} : {A : Type ℓ} → A → Type 0
Any a = Unit {0}

consume-Any :
    (p : Parser) (expected_type : TokenType) (expected identifier_type : Bytes)
    → Ensures (Any {A = Parser}) (consume p expected_type expected identifier_type)
unfolding consume
consume-Any p expected_type expected identifier_type =
    elim (Bool-cases (accepts p.current_token expected_type expected)) [
      | inl e ↦ rw e tt
      | inr e ↦ rw e (λ k. cc)
    ]

parse_column_name-Ensures : (p : Parser) → Ensures (Any {A = Bytes × Parser}) (parse_column_name p)
unfolding parse_column_name
parse_column_name-Ensures p = elim (Bool-cases (value_is p (codes "*"))) [
  | inl e ↦ rw e (consume-bind _ p _ _ _ _ (λ p' h. tt))
  | inr e ↦ rw e (consume-bind _ p _ _ _ _ (λ p' h. tt))
]

consume_separator-Ensures : (p : Parser) → Ensures (Any {A = Parser}) (consume_separator p)
unfolding consume_separator
consume_separator-Ensures p = elim (Bool-cases (value_is p (codes ","))) [
  | inl e ↦ rw e (consume-Any p TokenType.symbol (codes ",") [])
  | inr e ↦ rw e tt
]

-- The round of the limit ends the loop.
parse_required_column-Ensures :
    (i : ℕ) (p : Parser) → Ensures (λ (r : Bytes × Parser). i ≢ 10) (parse_required_column i p)
unfolding parse_required_column
parse_required_column-Ensures i p =
    bind-Ensures _ _ (consume_separator p) _ (consume_separator-Ensures p) (λ p₁ h.
      elim (Bool-cases (i == 10)) [
        | inl e ↦ rw e (λ k. cc)
        | inr e ↦ rw e (
            weaken-Ensures _ _ (parse_column_name p₁) (λ r k. ==-ne i 10 e)
              (parse_column_name-Ensures p₁))
      ])

parse_required_columns-Ensures :
    (fuel i : ℕ) (p : Parser) (cols : List Bytes)
    → length cols ≡ i
    → i ≤ 10
    → 11 ≤ fuel + i
    → Ensures
        (λ (r : List Bytes × Parser). length (r.0) ≤ 10)
        (parse_required_columns fuel i p cols)
unfolding parse_required_columns
parse_required_columns-Ensures zero i p cols len h k = absurd (omega arith)
parse_required_columns-Ensures (suc fuel) i p cols len h k =
    elim (Bool-cases (value_is p (codes "FROM"))) [
      | inl e ↦ rw e (omega arith)
      | inr e ↦ rw e (
          bind-Ensures _ _ (parse_required_column i p) _ (parse_required_column-Ensures i p)
            (λ r ne.
              parse_required_columns-Ensures fuel (i + 1) (r.1) (cols ++ r.0 ∷ [])
                (omega (arith, length-append cols (r.0 ∷ []))) (omega arith) (omega arith)))
    ]

at_least_one-Ensures :
    {A : Type 0} (message : Bytes) (xs : List A) (n : ℕ)
    → length xs ≤ n
    → Ensures (λ (ys : List A). (1 ≤ length ys) × (length ys ≤ n)) (at_least_one message xs)
unfolding at_least_one
at_least_one-Ensures message [] n h = λ k. cc
at_least_one-Ensures message (x ∷ xs) n h = (omega arith, h)

parse_columns_from_select_query-Ensures :
    (p : Parser)
    → Ensures
        (λ (r : List Bytes × Parser). (1 ≤ length (r.0)) × (length (r.0) ≤ 10))
        (parse_columns_from_select_query p)
unfolding parse_columns_from_select_query
parse_columns_from_select_query-Ensures p =
    bind-Ensures _ _ (parse_required_columns 11 0 p []) _
      (parse_required_columns-Ensures 11 0 p [] refl (omega arith) (omega arith))
      (λ r h.
        bind-Ensures _ _ (at_least_one _ (r.0)) _ (at_least_one-Ensures _ (r.0) 10 h)
          (λ cols h'. h'))

consume_and-Ensures : (i : ℕ) (p : Parser) → Ensures (Any {A = Parser}) (consume_and i p)
unfolding consume_and
consume_and-Ensures i p = elim (Bool-cases (ltb 0 i)) [
  | inl e ↦ rw e (consume-Any p TokenType.keyword (codes "AND") [])
  | inr e ↦ rw e tt
]

parse_condition-Ensures :
    (p : Parser) → Ensures (Any {A = QueryCondition × Parser}) (parse_condition p)
unfolding parse_condition
parse_condition-Ensures p =
    consume-bind _ p _ _ _ _
      (λ p₁ h₁. consume-bind _ p₁ _ _ _ _ (λ p₂ h₂. consume-bind _ p₂ _ _ _ _ (λ p₃ h₃. tt)))

parse_next_condition-Ensures :
    (i : ℕ) (p : Parser)
    → Ensures (λ (r : QueryCondition × Parser). i ≢ 11) (parse_next_condition i p)
unfolding parse_next_condition
parse_next_condition-Ensures i p =
    bind-Ensures _ _ (consume_and i p) _ (consume_and-Ensures i p) (λ p₁ h.
      elim (Bool-cases (i == 11)) [
        | inl e ↦ rw e (λ k. cc)
        | inr e ↦ rw e (
            weaken-Ensures _ _ (parse_condition p₁) (λ r k. ==-ne i 11 e)
              (parse_condition-Ensures p₁))
      ])

parse_conditions-Ensures :
    (fuel i : ℕ) (p : Parser) (conds : List QueryCondition)
    → length conds ≡ i
    → i ≤ 11
    → 12 ≤ fuel + i
    → Ensures
        (λ (r : List QueryCondition × Parser). length (r.0) ≤ 11)
        (parse_conditions fuel i p conds)
unfolding parse_conditions
parse_conditions-Ensures zero i p conds len h k = absurd (omega arith)
parse_conditions-Ensures (suc fuel) i p conds len h k = elim (Bool-cases (value_is p (codes ";"))) [
  | inl e ↦ rw e (omega arith)
  | inr e ↦ rw e (
      bind-Ensures _ _ (parse_next_condition i p) _ (parse_next_condition-Ensures i p) (λ r ne.
        parse_conditions-Ensures fuel (i + 1) (r.1) (conds ++ r.0 ∷ [])
          (omega (arith, length-append conds (r.0 ∷ []))) (omega arith) (omega arith)))
]

parse_where-Ensures :
    (p : Parser) → Ensures (λ (r : List QueryCondition × Parser). length (r.0) ≤ 11) (parse_where p)
unfolding parse_where parse_query_conditions_from_select_query
parse_where-Ensures p = elim (Bool-cases (value_is p (codes "WHERE"))) [
  | inl e ↦ rw e (
      consume-bind _ p _ _ _ _ (λ p₁ h₁.
        bind-Ensures _ _ (parse_conditions 12 0 p₁ []) _
          (parse_conditions-Ensures 12 0 p₁ [] refl (omega arith) (omega arith))
          (λ r h.
            bind-Ensures _ _ (at_least_one _ (r.0)) _ (at_least_one-Ensures _ (r.0) 11 h)
              (λ conds h'. h'.1))))
  | inr e ↦ rw e (omega arith)
]

-- The columns are 1 to 10, and the conditions 11 at most.
abbrev pub IsBounded : SelectFromTable → Type 0
IsBounded s =
    (1 ≤ length s.columns_required)
    × (length s.columns_required ≤ 10)
    × (length s.query_conditions ≤ 11)

-- ParseSelectFromTable ends at every input, and a statement that it returns has one column
-- at least and ten at most, and eleven conditions at most.
pub parse_select_from_table-IsBounded : (p : Parser) → Ensures IsBounded (parse_select_from_table p)
unfolding parse_select_from_table
parse_select_from_table-IsBounded p = consume-bind _ p _ _ _ _ (λ p₁ h₁.
    bind-Ensures _ _ (parse_columns_from_select_query p₁) _
      (parse_columns_from_select_query-Ensures p₁)
      (λ r h. consume-bind _ (r.1) _ _ _ _ (λ p₃ h₃. consume-bind _ p₃ _ _ _ _ (λ p₄ h₄.
        bind-Ensures _ _ (parse_where p₄) _ (parse_where-Ensures p₄)
          (λ r' h'. consume-bind _ (r'.1) _ _ _ _ (λ p₆ h₆. (h.0, h.1, h')))))))

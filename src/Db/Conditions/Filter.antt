-- ===== src/Db/Conditions/Filter.antt =====
-- The rows that filterQueryConditions keeps are those that satisfy the conditions.
use golang_db.Base.{
  ℕ, ◌≡◌, refl, ap, Bool, true, ◌&&◌, Bool-cases, Option, none, some, inl, inr, List, [], ◌∷◌, All,
  arith, if◌then◌else◌, get_elem?, ok,
}
use golang_db.Base.Bytes.{Bytes, cmp, str_eq, str_lt, str_le}
use golang_db.Base.Text.{codes}
use golang_db.Db.Schema.{Column}
use golang_db.Db.Indexes.{value_at}
use golang_db.Db.Conditions.{
  contains_name, col_position, compare_value, is_query_condition_applicable, keep_if, filter_rows,
  filter_at, apply_condition, filter_query_conditions,
}
use golang_db.Sql.Parser.Select.{QueryCondition}

-- The five comparisons.
pub data Comparison : Type 0 where
  equals lt lte gt gte : Comparison

abbrev pub comparison_text : Comparison → Bytes
comparison_text Comparison.equals = codes "="
comparison_text Comparison.lt = codes "<"
comparison_text Comparison.lte = codes "<="
comparison_text Comparison.gt = codes ">"
comparison_text Comparison.gte = codes ">="

abbrev pub holds : Comparison → Bytes → Bytes → Bool
holds Comparison.equals a b = str_eq a b
holds Comparison.lt a b = str_lt a b
holds Comparison.lte a b = str_le a b
holds Comparison.gt a b = str_lt b a
holds Comparison.gte a b = str_le b a

-- A condition, with the position of its column and its comparison.
pub record Condition : Type 0 where
  pub position : ℕ
  pub comparison : Comparison
  pub operand : Bytes

-- The value of a row at a position, and no text where there is none.
abbrev pub value_or_empty : Option Bytes → Bytes
value_or_empty none = []
value_or_empty (some value) = value

-- Whether a row satisfies all conditions.
unfoldable pub satisfies : List Condition → List Bytes → Bool
satisfies [] row = true
satisfies (c ∷ conditions) row =
    holds c.comparison (value_or_empty (get_elem? row c.position)) c.operand
    && satisfies conditions row

unfoldable pub keep : (List Bytes → Bool) → List (List Bytes) → List (List Bytes)
keep test [] = []
keep test (row ∷ rows) = let rest = keep test rows in if test row then row ∷ rest else rest

-- The conditions of a query, with the positions of their columns in the table.
abbrev pub AreConditions : List Column → List QueryCondition → List Condition → Type 0
AreConditions cols [] [] = Unit {0}
AreConditions cols (q ∷ qs) (c ∷ cs) =
    ((col_position cols q.column_name 0 ≡ some c.position)
      × (q.query_type ≡ comparison_text c.comparison)
      × (q.value ≡ c.operand))
    × AreConditions cols qs cs
AreConditions cols _ _ = ⊥

-- The rows have values at the positions of the conditions.
abbrev pub HasValue : ℕ → List Bytes → Type 0
HasValue i row = (v : Bytes) × (get_elem? row i ≡ some v)

abbrev pub AreWide : List Condition → List (List Bytes) → Type 0
AreWide cs rows = All (λ (c : Condition). All (HasValue c.position) rows) cs

compare_value_lem :
    (c : Comparison) (a b : Bytes) → compare_value (comparison_text c) a b ≡ ok (holds c a b)
unfolding compare_value cmp
compare_value_lem Comparison.equals a b = refl
compare_value_lem Comparison.lt a b = refl
compare_value_lem Comparison.lte a b = refl
compare_value_lem Comparison.gt a b = refl
compare_value_lem Comparison.gte a b = refl

value_at_lem :
    (row : List Bytes) (i : ℕ) (v : Bytes) → get_elem? row i ≡ some v → value_at row i ≡ ok v
unfolding value_at
value_at_lem row i v h = rw (h, value_at) refl

-- One condition on one row.
abbrev test_of : Condition → List Bytes → Bool
test_of c row = holds c.comparison (value_or_empty (get_elem? row c.position)) c.operand

applicable_lem :
    (q : QueryCondition) (c : Condition) (row : List Bytes)
    → q.query_type ≡ comparison_text c.comparison
    → q.value ≡ c.operand
    → HasValue c.position row
    → is_query_condition_applicable row c.position q ≡ ok (test_of c row)
unfolding is_query_condition_applicable
applicable_lem q c row e e' (v, there) =
    rw
      (
        e,
        e',
        there,
        compare_value_lem c.comparison [] [],
        value_at_lem row c.position v there,
        compare_value_lem c.comparison v c.operand,
      )
      refl

filter_rows-keep :
    (q : QueryCondition) (c : Condition) (rows : List (List Bytes))
    → q.query_type ≡ comparison_text c.comparison
    → q.value ≡ c.operand
    → All (HasValue c.position) rows
    → filter_rows c.position q rows ≡ ok (keep (test_of c) rows)
unfolding filter_rows keep_if keep
filter_rows-keep q c [] e e' wide = refl
filter_rows-keep q c (row ∷ rows) e e' (here, wide) =
    rw (applicable_lem q c row e e' here, filter_rows-keep q c rows e e' wide) refl

-- Rows that are kept are as wide as they were.
All-keep :
    (P : List Bytes → Type 0) (test : List Bytes → Bool) (rows : List (List Bytes))
    → All P rows
    → All P (keep test rows)
unfolding keep
All-keep P test [] h = tt
All-keep P test (row ∷ rows) (h, more) = elim (Bool-cases (test row)) [
  | inl e ↦ rw e (h, All-keep P test rows more)
  | inr e ↦ rw e (All-keep P test rows more)
]

AreWide-keep :
    (cs : List Condition) (test : List Bytes → Bool) (rows : List (List Bytes))
    → AreWide cs rows
    → AreWide cs (keep test rows)
AreWide-keep [] test rows h = tt
AreWide-keep (c ∷ cs) test rows (h, more) =
    (All-keep (HasValue c.position) test rows h, AreWide-keep cs test rows more)

keep-keep :
    (f g : List Bytes → Bool) (rows : List (List Bytes))
    → keep g (keep f rows) ≡ keep (λ row. f row && g row) rows
unfolding keep
keep-keep f g [] = refl
keep-keep f g (row ∷ rows) = ground (arith, keep-keep f g rows)

apply_condition-keep :
    (cols : List Column) (q : QueryCondition) (c : Condition) (rows : List (List Bytes))
    → col_position cols q.column_name 0 ≡ some c.position
    → q.query_type ≡ comparison_text c.comparison
    → q.value ≡ c.operand
    → All (HasValue c.position) rows
    → apply_condition cols [] q rows ≡ ok (keep (test_of c) rows)
unfolding apply_condition filter_at contains_name
apply_condition-keep cols q c rows at_column e e' wide =
    rw at_column (filter_rows-keep q c rows e e' wide)

keep-all : (rows : List (List Bytes)) → keep (satisfies []) rows ≡ rows
unfolding keep satisfies
keep-all [] = refl
keep-all (row ∷ rows) = ap (λ (l : List (List Bytes)). row ∷ l) (keep-all rows)

-- Where the columns of the conditions are in the table, their operators are the five comparisons, and
-- every row has values for them, filterQueryConditions without covered columns keeps the rows that
-- satisfy all conditions, and no others, in the order in which they came.
pub filter_query_conditions-keep :
    (cols : List Column) (qs : List QueryCondition) (cs : List Condition) (rows : List (List Bytes))
    → AreConditions cols qs cs
    → AreWide cs rows
    → filter_query_conditions cols qs [] rows ≡ ok (keep (satisfies cs) rows)
unfolding filter_query_conditions satisfies
filter_query_conditions-keep cols [] [] rows h wide = rw (keep-all rows) refl
filter_query_conditions-keep cols [] (c ∷ cs) rows h wide = elim h [ ]
filter_query_conditions-keep cols (q ∷ qs) [] rows h wide = elim h [ ]
filter_query_conditions-keep cols (q ∷ qs) (c ∷ cs) rows ((at_column, e, e'), more) (here, wide) =
    rw
      (
        apply_condition-keep cols q c rows at_column e e' here,
        filter_query_conditions-keep cols qs cs (keep (test_of c) rows) more
            (AreWide-keep cs (test_of c) rows wide),
        keep-keep (test_of c) (satisfies cs) rows,
      )
      refl
